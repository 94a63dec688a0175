-- ===== src/Resource/Package.antt =====
-- Package identifiers (internal/resource/tool.go): their text, and the text form that the manifest
-- decoder reads.
use Prim.Native.Char.{Char, code}
use Prim.Native.String.{◌∷◌ as cons, ◌++◌ as concat}
use Prim.Native.String as Str
use text.Mathlib.TextLemmas.{nil-append, cons-append}
use text.Mathlib.TextEquality.{Char-path}
use tomei.Base.{
  ℕ, String, ◌≡◌, refl, ap, Bool, true, false, not, ◌&&◌, Option, none, some, eqb, arith,
  if◌then◌else◌, ◌∙◌, Bool-cases, String-cases, inl, inr,
}
use tomei.Resource.Tool.{Package, is_empty}

-- `String` of a package, which may be nil.
unfoldable pub package_string : Option Package → String
package_string none = ""
package_string (some p) =
    if not (is_empty p.owner) && not (is_empty p.repo)
    then concat p.owner (concat "/" p.repo)
    else p.name

-- `IsRegistry`
unfoldable pub is_registry : Option Package → Bool
is_registry none = false
is_registry (some p) = not (is_empty p.owner) && not (is_empty p.repo)

-- The loop of `isRegistryFormat` up to the first slash, after which it changes nothing: `seen` tells
-- whether the slash would have a character before it.
unfoldable pub registry_from : Bool → String → Bool
registry_from seen Str.[] = false
registry_from seen (cons c s) =
    let rest = registry_from true s in
    if eqb (code c) b'/'
    then seen && not (is_empty s)
    else if eqb (code c) b'.'
    then false
    else rest

unfoldable pub is_registry_format : String → Bool
unfolding registry_from
is_registry_format Str.[] = false
is_registry_format (cons c s) = if eqb (code c) b'@' then false else registry_from false (cons c s)

-- `splitOnce`
unfoldable pub split_once : String → ℕ → String × String
split_once Str.[] sep = ("", "")
split_once (cons c s) sep =
    let rest = split_once s sep in if eqb (code c) sep then ("", s) else (cons c rest.0, rest.1)

-- `UnmarshalJSON` of a text.
unfoldable pub package_of_text : String → Package
unfolding is_registry_format split_once
package_of_text s =
    if is_registry_format s
    then record { owner = (split_once s b'/').0; repo = (split_once s b'/').1; name = "" }
    else record { owner = ""; repo = ""; name = s }

abbrev starts : String → Bool
starts Str.[] = false
starts (cons c s) = true

pub cons_lem : (c : Char) (s : String) → is_empty (cons c s) ≡ false
cons_lem c s = elim (String-cases (cons c s) "") [
  | inl (p, _) ↦ absurd (ground (arith, ap starts p))
  | inr (_, e) ↦ e
]

abbrev slash : Char
slash = Str.char_at "/" 0

split_at :
    (c : Char) (s : String) (sep : ℕ)
    → eqb (code c) sep ≡ true
    → split_once (cons c s) sep ≡ ("", s)
unfolding split_once
split_at c s sep h = rw (split_once, h) refl

split_past :
    (c : Char) (s : String) (sep : ℕ)
    → eqb (code c) sep ≡ false
    → split_once (cons c s) sep ≡ (cons c (split_once s sep).0, (split_once s sep).1)
unfolding split_once
split_past c s sep h = rw (split_once, h) refl

-- Before the first slash there is no dot, and the rest goes on with a character seen.
registry_past :
    (seen : Bool) (c : Char) (s : String)
    → eqb (code c) b'/' ≡ false
    → registry_from seen (cons c s) ≡ true
    → registry_from true s ≡ true
unfolding registry_from
registry_past seen c s e h = ground (arith, e, h)

-- The two parts of a text in registry format, with the slash between them, are the text.
registry_joined :
    (seen : Bool) (s : String)
    → registry_from seen s ≡ true
    → concat (split_once s b'/').0 (concat "/" (split_once s b'/').1) ≡ s
unfolding registry_from
registry_joined seen Str.[] h = absurd (ground arith)
registry_joined seen (cons c s) h = elim (Bool-cases (eqb (code c) b'/')) [
  | inl e ↦ rw (split_at c s b'/' e) (
      nil-append (concat "/" s)
      ∙ cons-append slash "" s
      ∙ ap (cons slash) (nil-append s)
      ∙ ap (λ d. cons d s) (Char-path slash c (ground (arith, e))))
  | inr e ↦ rw (split_past c s b'/' e) (
      cons-append c (split_once s b'/').0 (concat "/" (split_once s b'/').1)
      ∙ ap (cons c) (registry_joined true s (registry_past seen c s e h)))
]

registry_rest :
    (seen : Bool) (s : String)
    → registry_from seen s ≡ true
    → is_empty (split_once s b'/').1 ≡ false
unfolding registry_from
registry_rest seen Str.[] h = absurd (ground arith)
registry_rest seen (cons c s) h = elim (Bool-cases (eqb (code c) b'/')) [
  | inl e ↦ rw (split_at c s b'/' e) (ground (arith, e, h))
  | inr e ↦ rw (split_past c s b'/' e) (registry_rest true s (registry_past seen c s e h))
]

registry_first :
    (s : String) → registry_from false s ≡ true → is_empty (split_once s b'/').0 ≡ false
unfolding registry_from
registry_first Str.[] h = absurd (ground arith)
registry_first (cons c s) h = elim (Bool-cases (eqb (code c) b'/')) [
  | inl e ↦ absurd (ground (arith, e, h))
  | inr e ↦ rw (split_past c s b'/' e) (cons_lem c (split_once s b'/').0)
]

format_from : (s : String) → is_registry_format s ≡ true → registry_from false s ≡ true
unfolding is_registry_format
format_from Str.[] h = absurd (ground (arith, h))
format_from (cons c s) h = ground (arith, h)

-- Each text, read as a package, is printed as the same text; the package is one of a registry, with an
-- owner and a repository, just when the text is in registry format.
pub package_of_text_lem :
    (s : String)
    → (package_string (some (package_of_text s)) ≡ s)
      × (is_registry (some (package_of_text s)) ≡ is_registry_format s)
unfolding package_of_text package_string is_registry
package_of_text_lem s = elim (Bool-cases (is_registry_format s)) [
  | inl e ↦
      let f = format_from s e in
      rw (e, registry_first s f, registry_rest false s f) (registry_joined false s f, refl)
  | inr e ↦ rw e (refl, refl)
]
