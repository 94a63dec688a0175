-- ===== src/Resource/Parsed.antt =====
-- The references that `ParseRef` reads (internal/resource/types.go).
use Prim.Native.Char.{Char, code}
use Prim.Native.String.{◌∷◌ as cons, ◌++◌ as concat}
use Prim.Native.String as Str
use text.Mathlib.TextLemmas.{nil-append, cons-append}
use text.Mathlib.TextEquality.{Char-path}
use mathlib.Core.Option
use tomei.Base.{
  String, ◌≡◌, refl, sym, ap, ◌∙◌, subst, Bool, true, false, not, ◌&&◌, some, [], ◌∷◌, eqb,
  Bool-cases, Option-cases, inl, inr, arith,
}
use tomei.Resource.Kind.{
  Kind, Ref, kind_name, system_installer, system_package_repository, system_package_set, installer,
  installer_repository, runtime, tool, tool_set,
}
use tomei.Resource.Tool.{is_empty}
use tomei.Resource.Parse.{
  normalize_kind, find_kind, lower, lower_code, same_codes, before_cut, cut_slash, parse_parts,
  parse_ref, parse_ref_args, Parsed, parsed, invalid_reference, unknown_kind,
}

unfoldable pub no_slash : String → Bool
no_slash Str.[] = true
no_slash (cons c s) = not (eqb (code c) 47) && no_slash s

abbrev slash : Char
slash = Str.char_at "/" 0

slash-append : (name : String) → concat "/" name ≡ cons slash name
slash-append name = cons-append slash "" name ∙ ap (cons slash) (nil-append name)

cut_at_slash :
    (c : Char) (s : String) → eqb (code c) 47 ≡ true → cut_slash (cons c s) ≡ some ("", s)
unfolding cut_slash
cut_at_slash c s h = rw (cut_slash, h) refl

cut_past :
    (c : Char) (s : String)
    → eqb (code c) 47 ≡ false
    → cut_slash (cons c s) ≡ before_cut c (cut_slash s)
unfolding cut_slash
cut_past c s h = rw (cut_slash, h) refl

-- A text without a slash is what stands before the first one.
cut_slash-append :
    (s name : String) → no_slash s ≡ true → cut_slash (concat s (concat "/" name)) ≡ some (s, name)
unfolding cut_slash no_slash
cut_slash-append Str.[] name h =
    ap cut_slash (nil-append (concat "/" name) ∙ slash-append name) ∙ cut_at_slash slash name refl
cut_slash-append (cons c s) name h =
    ap cut_slash (cons-append c s (concat "/" name))
    ∙ cut_past c (concat s (concat "/" name)) (ground (arith, h))
    ∙ ap (before_cut c) (cut_slash-append s name (ground (arith, h)))

cut_slash_sound : (s a b : String) → cut_slash s ≡ some (a, b) → s ≡ concat a (concat "/" b)
unfolding cut_slash
cut_slash_sound Str.[] a b h = absurd (ground (arith, h))
cut_slash_sound (cons c s) a b h = elim (Bool-cases (eqb (code c) 47)) [
  | inl e ↦
      let p = Option.some-injective _ _ (sym (cut_at_slash c s e) ∙ h) in
      ap (λ d. cons d s) (Char-path c slash (ground (arith, e)))
      ∙ sym (slash-append s)
      ∙ sym (nil-append (concat "/" s))
      ∙ ap (λ q. concat q.0 (concat "/" q.1)) p
  | inr e ↦ elim (Option-cases (cut_slash s)) [
    | inl n ↦ absurd (ground (arith, sym (ap (before_cut c) n) ∙ sym (cut_past c s e) ∙ h))
    | inr ((a', b'), n) ↦
        let p = Option.some-injective _ _ (sym (ap (before_cut c) n) ∙ sym (cut_past c s e) ∙ h) in
        ap (cons c) (cut_slash_sound s a' b' n)
        ∙ sym (cons-append c a' (concat "/" b'))
        ∙ ap (λ q. concat q.0 (concat "/" q.1)) p
  ]
]

normalize_name : (k : Kind) → normalize_kind (kind_name k) ≡ some k
unfolding normalize_kind find_kind lower lower_code same_codes kind_name
normalize_name system_installer = refl
normalize_name system_package_repository = refl
normalize_name system_package_set = refl
normalize_name installer = refl
normalize_name installer_repository = refl
normalize_name runtime = refl
normalize_name tool = refl
normalize_name tool_set = refl

name_without_slash : (k : Kind) → (no_slash (kind_name k) ≡ true) × (is_empty (kind_name k) ≡ false)
unfolding no_slash kind_name
name_without_slash system_installer = (refl, refl)
name_without_slash system_package_repository = (refl, refl)
name_without_slash system_package_set = (refl, refl)
name_without_slash installer = (refl, refl)
name_without_slash installer_repository = (refl, refl)
name_without_slash runtime = (refl, refl)
name_without_slash tool = (refl, refl)
name_without_slash tool_set = (refl, refl)

-- The text of a kind, a slash and a name that is not empty is read as that reference, also where the name
-- has slashes of its own.
pub parse_ref_of_text :
    (ref : Ref)
    → is_empty ref.name ≡ false
    → parse_ref (concat (kind_name ref.kind) (concat "/" ref.name)) ≡ parsed ref
unfolding parse_ref
parse_ref_of_text ref h =
    let (a, b) = name_without_slash ref.kind in
    ap (parse_parts (concat (kind_name ref.kind) (concat "/" ref.name)))
      (cut_slash-append (kind_name ref.kind) ref.name a)
    ∙ rw (b, h, normalize_name ref.kind) refl

ref_or : Ref → Parsed → Ref
ref_or d (parsed r) = r
ref_or d _ = d

parsed-injective : {a b : Ref} → parsed a ≡ parsed b → a ≡ b
unfolding ref_or
parsed-injective {a} e = ap (ref_or a) e

not_parsed : {s : String} {r : Ref} → ¬ (invalid_reference s ≡ parsed r)
not_parsed e = cc

unknown_not_parsed : {s : String} {r : Ref} → ¬ (unknown_kind s ≡ parsed r)
unknown_not_parsed e = cc

-- A reference is read only from a text of a kind, in any case, a slash and a name that is not empty.
pub parse_ref_sound :
    (s : String) (ref : Ref)
    → parse_ref s ≡ parsed ref
    → (kind : String) × (s ≡ concat kind (concat "/" ref.name))
      × (normalize_kind kind ≡ some ref.kind)
      × (is_empty ref.name ≡ false)
unfolding parse_ref
parse_ref_sound s ref h = elim (Option-cases (cut_slash s)) [
  | inl n ↦ absurd (not_parsed (ap (parse_parts s) (sym n) ∙ h))
  | inr ((kind, name), n) ↦
      let g = ap (parse_parts s) (sym n) ∙ h in
      elim (Bool-cases (is_empty kind)) [
        | inl a ↦ absurd (not_parsed (rw a at g))
        | inr a ↦ elim (Bool-cases (is_empty name)) [
          | inl b ↦ absurd (not_parsed (rw (a, b) at g))
          | inr b ↦ elim (Option-cases (normalize_kind kind)) [
            | inl k ↦ absurd (unknown_not_parsed (rw (a, b, k) at g))
            | inr (k, e) ↦
                let same = parsed-injective (rw (a, b, e) at g) in
                (
                  kind,
                  cut_slash_sound s kind name n
                      ∙ ap (λ (x : Ref). concat kind (concat "/" x.name)) same,
                  e ∙ ap (λ (x : Ref). some x.kind) same,
                  subst (λ (x : Ref). is_empty x.name ≡ false) same b,
                )
          ]
        ]
      ]
]

-- A kind without a slash and a name, neither of them empty, are read alike as two arguments and as one
-- text with a slash between them, an unknown kind included.
pub parse_ref_args_pair :
    (kind name : String)
    → no_slash kind ≡ true
    → is_empty kind ≡ false
    → is_empty name ≡ false
    → parse_ref_args (kind ∷ name ∷ []) ≡ parse_ref_args (concat kind (concat "/" name) ∷ [])
unfolding parse_ref_args parse_ref
parse_ref_args_pair kind name a b c =
    let text = concat kind (concat "/" name) in
    sym (
      ap (parse_parts text) (cut_slash-append kind name a)
      ∙ elim (Option-cases (normalize_kind kind)) [
        | inl k ↦ rw (b, c, k) refl
        | inr (k, e) ↦ rw (b, c, e, c) refl
      ])
