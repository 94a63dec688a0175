-- ===== src/Resource/Validated.antt =====
-- What a specification that passes its checks is like (internal/resource/tool.go).
use Prim.Native.String.{◌∷◌ as cons, ◌++◌ as concat}
use Prim.Native.String as Str
use text.Mathlib.TextLemmas.{cons-append}
use tomei.Base.{
  String, ◌≡◌, refl, ap, ◌∙◌, Bool, true, false, not, ◌&&◌, ◌||◌, Option, none, some, List, ◌∷◌,
  arith, Bool-cases, inl, inr,
}
use tomei.Resource.Tool.{Package, ToolSpec, is_empty}
use tomei.Resource.Package.{package_string, cons_lem}
use tomei.Resource.Validate.{
  check_all, then_check, is_nil, is_empty_package, validate_package, validate_tool,
}

check_all_none :
    (bad : Bool) (e : String) (checks : List (Bool × String))
    → check_all ((bad, e) ∷ checks) ≡ none
    → (bad ≡ false) × (check_all checks ≡ none)
unfolding check_all
check_all_none true e checks h = absurd (ground (arith, h))
check_all_none false e checks h = (refl, h)

then_check_none : (a b : Option String) → then_check a b ≡ none → (a ≡ none) × (b ≡ none)
unfolding then_check
then_check_none (some e) b h = absurd (ground (arith, h))
then_check_none none b h = (refl, h)

concat_given : (s t : String) → is_empty s ≡ false → is_empty (concat s t) ≡ false
concat_given Str.[] t h = absurd (ground (arith, h))
concat_given (cons c s) t h = ap is_empty (cons-append c s t) ∙ cons_lem c (concat s t)

given_second : (o r : Bool) → o ≡ false → (not o && r) ≡ false → r ≡ false
given_second true r h k = absurd (ground (arith, h))
given_second false r h k = k

-- A valid package that is not empty has a text.
package_named :
    (p : Option Package)
    → validate_package p ≡ none
    → is_empty_package p ≡ false
    → is_empty (package_string p) ≡ false
unfolding validate_package is_empty_package package_string
package_named none h e = absurd (ground (arith, e))
package_named (some p) h e =
    let (both, h1) = check_all_none _ _ _ h in
    let (no_repo, h2) = check_all_none _ _ _ h1 in
    let (no_owner, _) = check_all_none _ _ _ h2 in
    elim (Bool-cases (is_empty p.owner)) [
      | inl o ↦ ground (arith, both, no_owner, o, e)
      | inr o ↦
          rw (o, given_second (is_empty p.owner) (is_empty p.repo) o no_repo)
            (concat_given p.owner (concat "/" p.repo) o)
    ]

-- One of three.
abbrev pub one_of : Bool → Bool → Bool → Bool
one_of a b c = (a && (not b && not c)) || ((not a && (b && not c)) || (not a && (not b && c)))

exactly_one :
    (a b c : Bool)
    → (not a && (not b && not c)) ≡ false
    → ((a && b) || ((b && c) || (a && c))) ≡ false
    → one_of a b c ≡ true
exactly_one true true c h k = absurd (ground (arith, k))
exactly_one true false true h k = absurd (ground (arith, k))
exactly_one true false false h k = refl
exactly_one false true true h k = absurd (ground (arith, k))
exactly_one false true false h k = refl
exactly_one false false true h k = refl
exactly_one false false false h k = absurd (ground (arith, h))

-- A tool that passes its check names exactly one way to install it: an installer, a runtime or its own
-- commands. If it is a runtime, then the package that the runtime's command is given has a text.
pub validate_tool_lem :
    (s : ToolSpec)
    → validate_tool s ≡ none
    → (one_of
          (not (is_empty s.installer_ref))
          (not (is_empty s.runtime_ref))
          (not (is_nil s.commands))
        ≡ true)
      × (is_empty s.runtime_ref ≡ false → is_empty (package_string s.package_id) ≡ false)
unfolding validate_tool
validate_tool_lem s h =
    let (checks, package_ok) = then_check_none _ _ h in
    let (some_way, h1) = check_all_none _ _ _ checks in
    let (no_two, h2) = check_all_none _ _ _ h1 in
    let (_, h3) = check_all_none _ _ _ h2 in
    let (_, h4) = check_all_none _ _ _ h3 in
    let (packaged, _) = check_all_none _ _ _ h4 in
    (
      exactly_one (not (is_empty s.installer_ref)) (not (is_empty s.runtime_ref))
          (not (is_nil s.commands)) some_way no_two,
      λ r.
          package_named s.package_id package_ok
            (given_second (is_empty s.runtime_ref) (is_empty_package s.package_id) r packaged),
    )
