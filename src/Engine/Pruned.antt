-- ===== src/Engine/Pruned.antt =====
-- What the removals of the engine leave in the state.
use tomei.Base.{
  ℕ, ◌≤◌, String, ◌≡◌, refl, sym, ap, ◌∙◌, Bool, true, false, Option, none, some, List, [], ◌∷◌,
  Map, lookup, keys, count, RangeOrder, arith, if◌then◌else◌, inl, inr, Bool-cases, List-cases,
  ◌==◌, eq_refl,
}
use tomei.Resource.Kind.{Kind}
use tomei.Resource.Version.{ActionType}
use tomei.Reconcile.Core.{Action, Comparator, reconcile}
use tomei.Reconcile.Actions.{for_name, last_named, expected, reconcile_lem}
use tomei.Execute.Cache.{StateCache, MapAccessor, cached_store}
use tomei.Execute.Run.{Installer, execute_removals}
use tomei.Execute.Keeps.{IsAccessor, action_of}
use tomei.Engine.Handle.{removal_names, any_removal}
use tomei.Execute.Removals.{removes, is_removal, execute_removals_lem}

module _ {R S : Type 0} where
  removes-for_name :
      (n : String) (actions : List (Action R S))
      → removes n (for_name n actions) ≡ removes n actions
  removes-for_name n [] = refl
  removes-for_name n (a ∷ as') = elim (Bool-cases (a.name == n)) [
    | inl e ↦ rw (e, removes-for_name n as') (rw e refl)
    | inr e ↦ rw (e, removes-for_name n as') (drop (is_removal a.type))
  ]
    where
      drop : (b : Bool) → removes n as' ≡ (if b then removes n as' else removes n as')
      drop true = refl
      drop false = refl

  -- Whether a name's entry is to go: it has no resource, and has a state.
  abbrev pub to_go : Option R → Option S → Bool
  to_go none (some s) = true
  to_go _ _ = false

  removes-expected :
      (compare : Comparator R S) (n : String) (o : Option R) (s : Option S)
      → removes n (expected compare n o s) ≡ to_go o s
  removes-expected compare n none none = refl
  removes-expected compare n none (some s) = rw eq_refl
  removes-expected compare n (some res) none = refl
  removes-expected compare n (some res) (some s) = elim (Bool-cases (compare res s).0) [
    | inl e ↦ rw e refl
    | inr e ↦ rw e refl
  ]

  -- The entry of a name after the removals: gone where the name has no resource.
  abbrev pub prune : Option R → Option S → Option S
  prune none s = none
  prune (some res) s = s

  pub removes-reconcile :
      (compare : Comparator R S) (r : RangeOrder) (name_of : R → String) (resources : List R)
      (states : Map S) (n : String)
      → ((x : String) → count x (keys states) ≤ 1)
      → removes n (reconcile r name_of compare resources states)
        ≡ to_go (last_named name_of n resources) (lookup n states)
  removes-reconcile compare r name_of resources states n unique =
      sym (removes-for_name n (reconcile r name_of compare resources states))
      ∙ ap (removes n) (reconcile_lem compare r name_of resources states unique n)
      ∙ removes-expected compare n (last_named name_of n resources) (lookup n states)

  pub pruned_entry :
      (b : Bool) (o : Option R) (s after : Option S)
      → b ≡ to_go o s
      → (b ≡ false → after ≡ s)
      → (b ≡ true → after ≡ none)
      → after ≡ prune o s
  pruned_entry b none none after e kept gone = kept e
  pruned_entry b none (some s) after e kept gone = gone e
  pruned_entry b (some res) none after e kept gone = kept e
  pruned_entry b (some res) (some s) after e kept gone = kept e

  none_parts :
      (n : String) (type : ActionType) (name : String) (res : Option R) (st : Option S)
      (reason : String) (as' : List (Action R S))
      → removal_names (action_of type name res st reason ∷ as') ≡ []
      → (removal_names as' ≡ []) × (is_removal type ≡ false)
  unfolding removal_names
  none_parts n ActionType.remove name res st reason as' h = absurd (ground arith)
  none_parts n ActionType.none name res st reason as' h = (h, refl)
  none_parts n ActionType.install name res st reason as' h = (h, refl)
  none_parts n ActionType.upgrade name res st reason as' h = (h, refl)
  none_parts n ActionType.downgrade name res st reason as' h = (h, refl)
  none_parts n ActionType.reinstall name res st reason as' h = (h, refl)
  none_parts n ActionType.skip name res st reason as' h = (h, refl)

  none_named :
      (n : String) (actions : List (Action R S))
      → removal_names actions ≡ []
      → removes n actions ≡ false
  none_named n [] h = refl
  none_named n (a ∷ as') h =
      let (rest, t) = none_parts n a.type a.name a.resource a.state a.reason as' h in
      rw t (none_named n as' rest)

  pub no_removes :
      (n : String) (actions : List (Action R S))
      → any_removal actions ≡ false
      → removes n actions ≡ false
  no_removes n actions h = elim (List-cases (removal_names actions)) [
    | inl e ↦ none_named n actions e
    | inr p ↦ absurd (ground (arith, p.2))
  ]

module _ {W R S : Type 0} (inst : Installer W R S) (acc : MapAccessor S) (laws : IsAccessor acc)
    (kind : Kind) (compare : Comparator R S) (r : RangeOrder) (name_of : R → String)
    (resources : List R) (states : Map S) (unique : (x : String) → count x (keys states) ≤ 1) where
  pub pruned_lem :
      (w : W) (c : StateCache) (start : ℕ) (n : String)
      → let x =
          execute_removals inst
            (cached_store acc)
            kind
            (reconcile r name_of compare resources states)
            w
            c
            start in
        acc.get c.cache n ≡ lookup n states
        → x.0.error ≡ none
        → acc.get x.0.cache.cache n ≡ prune (last_named name_of n resources) (lookup n states)
  pruned_lem w c start n same e =
      let actions = reconcile r name_of compare resources states in
      let h = execute_removals_lem inst acc laws kind actions w c start in
      pruned_entry (removes n actions) (last_named name_of n resources) (lookup n states)
        (acc.get (execute_removals inst (cached_store acc) kind actions w c start).0.cache.cache n)
        (removes-reconcile compare r name_of resources states n unique) (λ k. h.kept n k ∙ same)
        (λ k. h.gone e n k)
