-- ===== src/Engine/Needed.antt =====
-- The check before removals keeps the runtimes that tools still need
-- (checkRemovalDependencies and handleRemovals of internal/installer/engine/engine.go).
use mathlib.Core.Option
use tomei.Base.{
  ℕ, String, ◌≡◌, ◌≢◌, refl, sym, ◌&&◌, ap, ◌∙◌, Bool, true, false, not, Option, none, some, List,
  [], ◌∷◌, Set, put, has, elem, lookup, has-put, RangeOrder, arith, ◌==◌, eq_iff, if◌then◌else◌,
  inl, inr, Bool-cases,
}
use tomei.Resource.Version.{ActionType}
use tomei.Resource.Tool.{Tool, is_empty}
use tomei.Resource.Other.{RuntimeState}
use tomei.Resource.All.{Resource}
use tomei.Reconcile.Core.{Action}
use tomei.Reconcile.Comparators.{runtime_comparator}
use tomei.Reconcile.Actions.{last_named}
use tomei.Execute.Cache.{StateCache}
use tomei.Execute.Run.{Executed}
use tomei.Execute.Keeps.{action_of}
use tomei.Execute.Removals.{removes}
use tomei.Engine.Checks.{
  name_set, blocked_tools, check_removal_dependencies, extract_tools, extract_runtimes,
}
use tomei.Engine.Handle.{
  Installers, Handled, refused, handled, handle_removals, removal_names, any_removal,
  runtime_actions,
}
use tomei.Engine.Pruned.{to_go, prune, removes-reconcile, no_removes}
use tomei.Engine.Removed.{runtime_name, IsState}
use tomei.Engine.Phase.{handle_removals_lem}

module _ {R S : Type 0} where
  elem_parts :
      (n : String) (type : ActionType) (name : String) (res : Option R) (st : Option S)
      (reason : String) (as' : List (Action R S))
      → (removes n as' ≡ true → elem n (removal_names as') ≡ true)
      → removes n (action_of type name res st reason ∷ as') ≡ true
      → elem n (removal_names (action_of type name res st reason ∷ as')) ≡ true
  unfolding removal_names
  elem_parts n ActionType.remove name res st reason as' ih h = ground (arith, ih)
  elem_parts n ActionType.none name res st reason as' ih h = ih h
  elem_parts n ActionType.install name res st reason as' ih h = ih h
  elem_parts n ActionType.upgrade name res st reason as' ih h = ih h
  elem_parts n ActionType.downgrade name res st reason as' ih h = ih h
  elem_parts n ActionType.reinstall name res st reason as' ih h = ih h
  elem_parts n ActionType.skip name res st reason as' ih h = ih h

  -- A name that is to be removed is among the names that are checked.
  elem-removal_names :
      (n : String) (actions : List (Action R S))
      → removes n actions ≡ true
      → elem n (removal_names actions) ≡ true
  elem-removal_names n [] h = absurd (ground arith)
  elem-removal_names n (a ∷ as') h =
      elem_parts n a.type a.name a.resource a.state a.reason as' (elem-removal_names n as') h

has-name_set_keep :
    (n : String) (ns : List String) (m : Set) → has n m ≡ true → has n (name_set ns m) ≡ true
has-name_set_keep n [] m h = h
has-name_set_keep n (k ∷ ns) m h =
    has-name_set_keep n ns (put k tt m) (ground (arith, has-put k n tt m))

has-name_set :
    (n : String) (ns : List String) (m : Set) → elem n ns ≡ true → has n (name_set ns m) ≡ true
has-name_set n [] m h = absurd (ground arith)
has-name_set n (k ∷ ns) m h = elim (Bool-cases (k == n)) [
  | inl e ↦ has-name_set_keep n ns (put k tt m) (has-put k n tt m ∙ rw e refl)
  | inr e ↦ has-name_set n ns (put k tt m) (rw e at h)
]

-- Whether a tool of the list is installed by the runtime.
abbrev pub needs_runtime : String → List Tool → Bool
needs_runtime n [] = false
needs_runtime n (t ∷ ts) = if t.spec.runtime_ref == n then true else needs_runtime n ts

blocked_tools_some :
    (n : String) (removing : Set) (ts : List Tool)
    → is_empty n ≡ false
    → has n removing ≡ true
    → needs_runtime n ts ≡ true
    → blocked_tools removing ts ≢ []
unfolding blocked_tools
blocked_tools_some n removing [] e h u = absurd (ground arith)
blocked_tools_some n removing (t ∷ ts) e h u = elim (Bool-cases (t.spec.runtime_ref == n)) [
  | inl q ↦
      let same = (eq_iff t.spec.runtime_ref n).0 q in
      rw (ap is_empty same ∙ e, ap (λ k. has k removing) same ∙ h) (λ b. ground (arith, b))
  | inr q ↦
      longer (not (is_empty t.spec.runtime_ref) && has t.spec.runtime_ref removing)
        (blocked_tools removing ts) (blocked_tools_some n removing ts e h (rw q at u))
]
  where
    longer :
        (b : Bool) (rest : List (String × String))
        → rest ≢ []
        → (if b then (t.metadata.name, t.spec.runtime_ref) ∷ rest else rest) ≢ []
    longer true rest k e = ground (arith, e)
    longer false rest k e = k e

from_blocked :
    (l : List (String × String))
    → l ≢ []
    → (b : List (String × String)) × (elim l as (λ _. Option (List (String × String))) [
      | [] ↦ none
      | x ∷ xs ↦ some (x ∷ xs)
    ]
        ≡ some b)
from_blocked [] k = absurd (k refl)
from_blocked (x ∷ xs) k = (x ∷ xs, refl)

check_some :
    (rs : List String) (ts : List Tool)
    → blocked_tools (name_set rs []) ts ≢ []
    → (b : List (String × String)) × (check_removal_dependencies rs ts ≡ some b)
unfolding check_removal_dependencies
check_some rs ts k = from_blocked (blocked_tools (name_set rs []) ts) k

stays :
    {R S : Type 0} (o : Option R) (s : S)
    → to_go {R = R} {S = S} o (some s) ≡ false
    → prune {R = R} {S = S} o (some s) ≡ some s
stays none s e = absurd (ground arith)
stays (some x) s e = refl

module _ {W : Type 0} (r : RangeOrder) (ins : Installers W) (resources : List Resource)
    (c : StateCache) (wf : IsState c.cache) where
  refuses :
      (w : W) (total : ℕ) (b : List (String × String))
      → any_removal (runtime_actions r ins resources c.cache) ≡ true
      → check_removal_dependencies
          (removal_names (runtime_actions r ins resources c.cache))
          (extract_tools resources)
        ≡ some b
      → handle_removals r ins resources w c total ≡ refused b
  unfolding handle_removals
  refuses w total b a k =
      ends (any_removal (runtime_actions r ins resources c.cache))
        (check_removal_dependencies (removal_names (runtime_actions r ins resources c.cache))
          (extract_tools resources))
        _ a k
    where
      ends :
          (a : Bool) (o : Option (List (String × String))) (rest : Executed W × ℕ)
          → a ≡ true
          → o ≡ some b
          → elim (if a then o else none) as (λ _. Handled W) [
            | some blocked ↦ refused blocked
            | none ↦ handled rest
          ]
            ≡ refused b
      ends true (some l) rest a k = ap refused (Option.some-injective l b k)
      ends true none rest a k = absurd (ground (arith, k))
      ends false o rest a k = absurd (ground (arith, a))

  -- A runtime without a resource that a tool needs makes the check refuse.
  removed_refused :
      (w : W) (total : ℕ) (n : String)
      → is_empty n ≡ false
      → needs_runtime n (extract_tools resources) ≡ true
      → removes n (runtime_actions r ins resources c.cache) ≡ true
      → (b : List (String × String)) × (handle_removals r ins resources w c total ≡ refused b)
  removed_refused w total n e u t =
      let actions = runtime_actions r ins resources c.cache in
      let (b, k) = check_some (removal_names actions) (extract_tools resources) (
        blocked_tools_some n (name_set (removal_names actions) []) (extract_tools resources) e
          (has-name_set n (removal_names actions) [] (elem-removal_names n actions t)) u) in
      (b, refuses w total b (some_removal n actions t) k)
    where
      some_removal :
          {R S : Type 0} (n : String) (as' : List (Action R S))
          → removes n as' ≡ true
          → any_removal as' ≡ true
      some_removal n as' t = elim (Bool-cases (any_removal as')) [
        | inl e ↦ e
        | inr e ↦ absurd (ground (arith, t, no_removes n as' e))
      ]

  kept_runtime :
      (w : W) (total : ℕ) (x : Executed W × ℕ) (n : String) (s : RuntimeState)
      → is_empty n ≡ false
      → needs_runtime n (extract_tools resources) ≡ true
      → lookup n c.cache.runtimes ≡ some s
      → handle_removals r ins resources w c total ≡ handled x
      → removes n (runtime_actions r ins resources c.cache) ≡ false
  kept_runtime w total x n s e u k h =
      elim (Bool-cases (removes n (runtime_actions r ins resources c.cache))) [
        | inr q ↦ q
        | inl q ↦ let (b, z) = removed_refused w total n e u q in absurd (apart b (sym z ∙ h))
      ]
    where
      apart : (b : List (String × String)) → refused b ≡ handled x → ⊥
      apart b q = ground (arith, q)

  -- If the removal phase is not refused and ends without an error, from a state whose maps have
  -- distinct keys, then a runtime that a tool of the resources names and that has a state still has
  -- that state.
  pub handle_removals_keeps_needed :
      (w : W) (total : ℕ) (x : Executed W × ℕ) (n : String) (s : RuntimeState)
      → handle_removals r ins resources w c total ≡ handled x
      → x.0.error ≡ none
      → is_empty n ≡ false
      → needs_runtime n (extract_tools resources) ≡ true
      → lookup n c.cache.runtimes ≡ some s
      → lookup n x.0.cache.cache.runtimes ≡ some s
  unfolding runtime_actions
  handle_removals_keeps_needed w total x n s h f e u k =
      let o = last_named runtime_name n (extract_runtimes resources) in
      (handle_removals_lem r ins resources c wf w total x h f).runtimes n
      ∙ ap (prune o) k
      ∙ stays o s (
          ap (to_go o) (sym k)
          ∙ sym (
              removes-reconcile runtime_comparator r runtime_name (extract_runtimes resources)
                c.cache.runtimes n wf.runtimes)
          ∙ kept_runtime w total x n s e u k h)
