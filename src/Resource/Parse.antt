-- ===== src/Resource/Parse.antt =====
-- `NormalizeKind`, `ParseRef` and `ParseRefArgs` (internal/resource/types.go).
use Prim.Native.Char.{Char, code}
use Prim.Native.String.{◌∷◌ as cons}
use Prim.Native.String as Str
use tomei.Base.{
  ℕ, ◌+◌, String, Bool, true, false, ◌&&◌, Option, none, some, List, [], ◌∷◌, eqb, leb,
  if◌then◌else◌,
}
use tomei.Resource.Kind.{
  Kind, Ref, kind_name, system_installer, system_package_repository, system_package_set, installer,
  installer_repository, runtime, tool, tool_set,
}
use tomei.Resource.Tool.{is_empty}

-- `unicode.ToLower`, as far as it reaches ASCII: besides the capital letters, the Kelvin sign and the
-- capital I with a dot have a lower case there. Every other character stays outside of ASCII.
unfoldable pub lower_code : ℕ → ℕ
lower_code c =
    if leb 65 c && leb c 90
    then c + 32
    else if eqb c 8490
    then 107
    else if eqb c 304
    then 105
    else c

-- The characters of `strings.ToLower`.
unfoldable pub lower : String → List ℕ
unfolding lower_code
lower Str.[] = []
lower (cons c s) = lower_code (code c) ∷ lower s

unfoldable pub same_codes : List ℕ → List ℕ → Bool
same_codes [] [] = true
same_codes (x ∷ xs) (y ∷ ys) = eqb x y && same_codes xs ys
same_codes _ _ = false

-- The kinds of `knownKinds`.
abbrev pub known_kinds : List Kind
known_kinds =
    system_installer ∷ system_package_repository ∷ system_package_set ∷ installer
    ∷ installer_repository ∷ runtime ∷ tool ∷ tool_set ∷ []

-- The lookup of a lower-case text among the lower-case names of kinds.
unfoldable pub find_kind : List ℕ → List Kind → Option Kind
unfolding lower same_codes kind_name
find_kind text [] = none
find_kind text (k ∷ ks) =
    let rest = find_kind text ks in if same_codes (lower (kind_name k)) text then some k else rest

-- `NormalizeKind`
unfoldable pub normalize_kind : String → Option Kind
unfolding find_kind lower
normalize_kind s = find_kind (lower s) known_kinds

abbrev pub before_cut : Char → Option (String × String) → Option (String × String)
before_cut c none = none
before_cut c (some (a, b)) = some (cons c a, b)

-- `strings.Cut(s, "/")`
unfoldable pub cut_slash : String → Option (String × String)
cut_slash Str.[] = none
cut_slash (cons c s) =
    let rest = cut_slash s in if eqb (code c) 47 then some (Str.[], s) else before_cut c rest

pub data Parsed : Type 0 where
  parsed : Ref → Parsed
  invalid_reference : String → Parsed
  unknown_kind : String → Parsed
  empty_name : Parsed
  wrong_arguments : List String → Parsed

-- What follows `NormalizeKind` of a kind.
abbrev pub with_kind : String → String → Option Kind → Parsed
with_kind kind name none = unknown_kind kind
with_kind kind name (some k) = parsed (record { kind = k; name = name })

abbrev pub parse_parts : String → Option (String × String) → Parsed
parse_parts s none = invalid_reference s
parse_parts s (some (kind, name)) =
    if is_empty kind
    then invalid_reference s
    else if is_empty name
    then invalid_reference s
    else with_kind kind name (normalize_kind kind)

-- `ParseRef`
unfoldable pub parse_ref : String → Parsed
unfolding cut_slash normalize_kind
parse_ref s = parse_parts s (cut_slash s)

abbrev parse_two : String → String → Option Kind → Parsed
parse_two kind name none = unknown_kind kind
parse_two kind name (some k) =
    if is_empty name then empty_name else parsed (record { kind = k; name = name })

-- `ParseRefArgs`
unfoldable pub parse_ref_args : List String → Parsed
unfolding parse_ref normalize_kind
parse_ref_args (s ∷ []) = parse_ref s
parse_ref_args (kind ∷ name ∷ []) = parse_two kind name (normalize_kind kind)
parse_ref_args args = wrong_arguments args
