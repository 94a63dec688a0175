-- ===== src/Reconcile/Actions.antt =====
-- Which actions a reconciliation gives.
use mathlib.Core.Path.{ap₂}
use mathlib.Core.List.{append-nil}
use tomei.Base.{
  ◌≤◌, String, ◌≡◌, refl, ap, ◌∙◌, ◌⊎◌, inl, inr, Bool, true, false, Option, none, some, List, [],
  ◌∷◌, ◌++◌, Map, lookup, put, keys, count, RangeOrder, arith, ◌==◌, eq_iff, if◌then◌else◌,
  lookup-put, count-keys-put, lookup_head, count_tail, subst, Option-cases, count_of_missing,
  Bool-cases, String-cases,
}
use tomei.Resource.Version.{ActionType}
use tomei.Reconcile.Core.{
  Action, Comparator, spec_resources, spec_action, spec_actions, remove_action, removal_actions,
  reconcile,
}

module _ {R S : Type 0} where
  -- The actions for one name.
  abbrev pub for_name : String → List (Action R S) → List (Action R S)
  for_name n [] = []
  for_name n (a ∷ as') = if a.name == n then a ∷ for_name n as' else for_name n as'

  pub for_name-append :
      (n : String) (xs ys : List (Action R S))
      → for_name n (xs ++ ys) ≡ for_name n xs ++ for_name n ys
  for_name-append n [] ys = refl
  for_name-append n (a ∷ as') ys = elim (Bool-cases (a.name == n)) [
    | inl e ↦ rw e (ap (◌∷◌ a) (for_name-append n as' ys))
    | inr e ↦ rw e (for_name-append n as' ys)
  ]

module _ {R : Type 0} (name_of : R → String) where
  abbrev or_else : Option R → Option R → Option R
  or_else (some r) o = some r
  or_else none o = o

  -- The last resource of a name.
  abbrev pub last_named : String → List R → Option R
  last_named n [] = none
  last_named n (r ∷ rs) = or_else (last_named n rs) (if name_of r == n then some r else none)

  lookup-spec_resources :
      (n : String) (rs : List R) (m : Map R)
      → lookup n (spec_resources name_of rs m) ≡ or_else (last_named n rs) (lookup n m)
  unfolding spec_resources
  lookup-spec_resources n [] m = refl
  lookup-spec_resources n (r ∷ rs) m =
      lookup-spec_resources n rs (put (name_of r) r m)
      ∙ ap (or_else (last_named n rs)) (lookup-put (name_of r) n r m)
      ∙ regroup (last_named n rs) (name_of r == n) r (lookup n m)
    where
      regroup :
          (a : Option R) (b : Bool) (r : R) (c : Option R)
          → or_else a (if b then some r else c) ≡ or_else (or_else a (if b then some r else none)) c
      regroup (some x) b r c = refl
      regroup none true r c = refl
      regroup none false r c = refl

  count-spec_resources :
      (x : String) (rs : List R) (m : Map R)
      → count x (keys m) ≤ 1
      → count x (keys (spec_resources name_of rs m)) ≤ 1
  unfolding spec_resources
  count-spec_resources x [] m h = h
  count-spec_resources x (r ∷ rs) m h = count-spec_resources x rs (put (name_of r) r m) (
      ground (
        arith,
        count-keys-put (name_of r) x r m,
        eq_iff (name_of r) x,
        count_of_missing (name_of r) m,
      ))

module _ {R S : Type 0} (compare : Comparator R S) where
  -- The actions that the desired resource and the recorded state of one name call for.
  abbrev pub expected : String → Option R → Option S → List (Action R S)
  expected n none none = []
  expected n (some res) none =
      record {
        type = ActionType.install;
        name = n;
        resource = some res;
        state = none;
        reason = "new resource";
      }
      ∷ []
  expected n (some res) (some s) =
      if (compare res s).0
      then record {
        type = ActionType.upgrade;
        name = n;
        resource = some res;
        state = some s;
        reason = (compare res s).1;
      }
        ∷ []
      else []
  expected n none (some s) =
      record {
        type = ActionType.remove;
        name = n;
        resource = none;
        state = some s;
        reason = "removed from spec";
      }
      ∷ []

  pub spec_action-expected :
      (n : String) (res : R) (o : Option S) → spec_action compare n res o ≡ expected n (some res) o
  unfolding spec_action
  spec_action-expected n res none = refl
  spec_action-expected n res (some s) = refl

  abbrev of_spec : String → Map S → Option R → List (Action R S)
  of_spec n states none = []
  of_spec n states (some res) = spec_action compare n res (lookup n states)

  abbrev of_state : String → Option R → Option S → List (Action R S)
  of_state n (some res) state = []
  of_state n none none = []
  of_state n none (some state) = remove_action n state ∷ []

  for_name-spec_action :
      (n k : String) (res : R) (o : Option S)
      → for_name n (spec_action compare k res o)
        ≡ (if k == n then spec_action compare k res o else [])
  unfolding spec_action
  for_name-spec_action n k res none = ground arith
  for_name-spec_action n k res (some s) = ground arith

  for_name-spec_actions :
      (n : String) (states : Map S) (m : Map R)
      → ((x : String) → count x (keys m) ≤ 1)
      → for_name n (spec_actions compare states m) ≡ of_spec n states (lookup n m)
  unfolding spec_actions
  for_name-spec_actions n states [] unique = refl
  for_name-spec_actions n states ((k, res) ∷ m) unique =
      for_name-append n (spec_action compare k res (lookup k states))
        (spec_actions compare states m)
      ∙ ap₂ ◌++◌ (for_name-spec_action n k res (lookup k states))
          (for_name-spec_actions n states m (λ x. count_tail x k (keys m) (unique x)))
      ∙ elim (String-cases k n) [
        | inl (same, test) ↦
            rw (test, lookup_gone n (subst (λ y. count y (y ∷ keys m) ≤ 1) same (unique k)))
              (append-nil (spec_action compare k res (lookup k states))
                ∙ ap (λ y. spec_action compare y res (lookup y states)) same)
        | inr (other, test) ↦ rw test
      ]
    where
      lookup_gone : (y : String) → count y (y ∷ keys m) ≤ 1 → lookup y m ≡ none
      lookup_gone y h = lookup_head y m h

  for_name-removal_actions :
      (n : String) (specs : Map R) (m : Map S)
      → ((x : String) → count x (keys m) ≤ 1)
      → for_name n (removal_actions specs m) ≡ of_state n (lookup n specs) (lookup n m)
  unfolding removal_actions
  for_name-removal_actions n specs [] unique =
      elim (lookup n specs) as (λ o. [] ≡ of_state n o none) [ none ↦ refl | some res ↦ refl ]
  for_name-removal_actions n specs ((k, s) ∷ m) unique =
      let rest = for_name-removal_actions n specs m (λ x. count_tail x k (keys m) (unique x)) in
      elim (String-cases k n) [
        | inl (same, test) ↦
            let gone = lookup_head n m (subst (λ y. count y (y ∷ keys m) ≤ 1) same (unique k)) in
            here same test gone rest (Option-cases (lookup k specs))
        | inr (other, test) ↦ elim (Option-cases (lookup k specs)) [
          | inl e ↦ rw (e, removal_actions, test) rest
          | inr (res, e) ↦ rw (e, removal_actions, test) rest
        ]
      ]
    where
      here :
          k ≡ n
          → (k == n) ≡ true
          → lookup n m ≡ none
          → for_name n (removal_actions specs m) ≡ of_state n (lookup n specs) (lookup n m)
          → (lookup k specs ≡ none) ⊎ ((res : R) × (lookup k specs ≡ some res))
          → for_name n (removal_actions {S = S} specs ((k, s) ∷ m))
            ≡ of_state n (lookup n specs) (if k == n then some s else lookup n m)
      here same test gone rest (inl e) =
          let e' : lookup n specs ≡ none = subst (λ y. lookup y specs ≡ none) same e in
          let nothing : for_name n (removal_actions {S = S} specs m) ≡ [] =
            rest ∙ ap₂ (of_state n) e' gone in
          rw (e, removal_actions, test, e')
            (ap₂ (λ (y : String) (l : List (Action R S)). remove_action y s ∷ l) same nothing)
      here same test gone rest (inr (res, e)) =
          let e' : lookup n specs ≡ some res = subst (λ y. lookup y specs ≡ some res) same e in
          let nothing : for_name n (removal_actions {S = S} specs m) ≡ [] =
            rest ∙ ap (λ o. of_state n o (lookup n m)) e' in
          rw (e, removal_actions, test, e') nothing

  pick-expected :
      (n : String) (o : Option R) (s : Option S) (states : Map S)
      → lookup n states ≡ s
      → of_spec n states o ++ of_state n o (lookup n states) ≡ expected n o s
  pick-expected n none none states e = rw e
  pick-expected n none (some s) states e = rw e
  pick-expected n (some res) s states e =
      rw e (append-nil (spec_action compare n res s) ∙ spec_action-expected n res s)

  module _ (r : RangeOrder) (name_of : R → String) (resources : List R) (states : Map S)
      (unique : (x : String) → count x (keys states) ≤ 1) where
    -- From states with distinct names, for each name the reconciler gives exactly the actions, none or
    -- one, that the last resource of that name and its recorded state call for: install without a state,
    -- upgrade where the comparator says so and with its reason, remove without a resource; whatever the
    -- order of the loops.
    pub reconcile_lem :
        (n : String)
        → for_name n (reconcile r name_of compare resources states)
          ≡ expected n (last_named name_of n resources) (lookup n states)
    unfolding reconcile
    reconcile_lem n =
        let specs = spec_resources name_of resources [] in
        for_name-append n (spec_actions compare states (r.range R specs))
          (removal_actions specs (r.range S states))
        ∙ ap₂ ◌++◌
            (for_name-spec_actions n states (r.range R specs) (λ x. omega (
              arith,
              r.count_range R specs x,
              count-spec_resources name_of x resources [] (omega arith),
            ))
              ∙ ap (of_spec n states) (r.lookup_range R specs n))
            (for_name-removal_actions n specs (r.range S states)
                (λ x. omega (arith, r.count_range S states x, unique x))
              ∙ ap (of_state n (lookup n specs)) (r.lookup_range S states n))
        ∙ ap (λ o. of_spec n states o ++ of_state n o (lookup n states))
            (lookup-spec_resources name_of n resources []
              ∙ or_none (last_named name_of n resources))
        ∙ pick-expected n (last_named name_of n resources) (lookup n states) states refl
      where
        or_none : (o : Option R) → or_else name_of o none ≡ o
        or_none none = refl
        or_none (some x) = refl
