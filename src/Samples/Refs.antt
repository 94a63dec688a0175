-- ===== src/Samples/Refs.antt =====
-- References that are read.
use Prim.Native.String.{◌++◌ as concat}
use tomei.Base.{String, ◌≡◌, refl, true, some, [], ◌∷◌, false}
use tomei.Resource.Kind.{Ref, kind_name, tool}
use tomei.Resource.Tool.{is_empty}
use tomei.Resource.Parse.{
  parse_ref, parse_ref_args, parsed, normalize_kind, find_kind, lower, lower_code, same_codes,
  cut_slash,
}
use tomei.Resource.Parsed.{no_slash, parse_ref_of_text, parse_ref_sound, parse_ref_args_pair}

-- A name may have slashes.
abbrev jq : Ref
jq = record { kind = tool; name = "jqlang/jq" }

jq_read : parse_ref "TOOL/jqlang/jq" ≡ parsed jq
unfolding parse_ref normalize_kind find_kind lower lower_code same_codes cut_slash kind_name
jq_read = refl

tool_has_no_slash : no_slash "Tool" ≡ true
unfolding no_slash
tool_has_no_slash = refl

parse_ref_of_text_example : parse_ref (concat (kind_name tool) (concat "/" "jqlang/jq")) ≡ parsed jq
parse_ref_of_text_example = parse_ref_of_text jq refl

parse_ref_sound_example :
    (kind : String) × ("TOOL/jqlang/jq" ≡ concat kind (concat "/" "jqlang/jq"))
    × (normalize_kind kind ≡ some tool)
    × (is_empty "jqlang/jq" ≡ false)
parse_ref_sound_example = parse_ref_sound "TOOL/jqlang/jq" jq jq_read

parse_ref_args_pair_example :
    parse_ref_args ("Tool" ∷ "jqlang/jq" ∷ [])
    ≡ parse_ref_args (concat "Tool" (concat "/" "jqlang/jq") ∷ [])
parse_ref_args_pair_example = parse_ref_args_pair "Tool" "jqlang/jq" tool_has_no_slash refl refl
