-- ===== src/Execute/Removals.antt =====
-- The loop that runs the removals (executeRemovals of internal/installer/engine/engine.go).
use tomei.Base.{
  ℕ, suc, ◌+◌, String, ◌≡◌, refl, sym, ap, ◌∙◌, Bool, true, false, Option, none, some, List, [],
  ◌∷◌, arith, ◌==◌, if◌then◌else◌, ◌⊎◌, subst, inl, inr, Bool-cases,
}
use tomei.Resource.Kind.{Kind}
use tomei.Resource.Version.{ActionType}
use tomei.Reconcile.Core.{Action}
use tomei.Execute.Cache.{StateCache, MapAccessor, cached_store}
use tomei.Execute.Run.{Installer, Executed, execute, execute_removals, stop_or_go}
use tomei.Execute.Keeps.{
  IsAccessor, IsExecuted, IsStored, IsUnchanged, removed, execute_lem, effect, action_of,
}

abbrev pub is_removal : ActionType → Bool
is_removal ActionType.remove = true
is_removal _ = false

module _ {R S : Type 0} where
  -- Whether an action of the list removes a name, and how many removals there are.
  abbrev pub removes : String → List (Action R S) → Bool
  removes j [] = false
  removes j (a ∷ as') =
      if is_removal a.type then (if a.name == j then true else removes j as') else removes j as'

  abbrev pub removals : List (Action R S) → ℕ
  removals [] = 0
  removals (a ∷ as') = if is_removal a.type then suc (removals as') else removals as'

module _ {W R S : Type 0} (inst : Installer W R S) (acc : MapAccessor S) (laws : IsAccessor acc)
    (kind : Kind) where
  abbrev pub run : List (Action R S) → W → StateCache → ℕ → Executed W × ℕ
  run = execute_removals inst (cached_store acc) kind

  from_removed :
      (name : String) (c : StateCache) (x : Executed W) (p : W × Option String)
      → IsExecuted inst acc laws kind name c (removed inst acc laws kind p) x
      → IsUnchanged c x ⊎ IsStored acc c name none x
  from_removed name c x (w, none) h = inr h
  from_removed name c x (w, some e) h = inl h

  remove_parts :
      (type : ActionType) (name : String) (res : Option R) (st : Option S) (reason : String) (w : W)
      (c : StateCache)
      → is_removal type ≡ true
      → IsUnchanged c (execute inst (cached_store acc) kind (action_of type name res st reason) w c)
        ⊎ IsStored acc c name none
            (execute inst (cached_store acc) kind (action_of type name res st reason) w c)
  unfolding effect
  remove_parts ActionType.remove name res st reason w c t =
      from_removed name c
        (execute inst (cached_store acc) kind (action_of ActionType.remove name res st reason) w c)
        (inst.remove st name w)
        (execute_lem inst acc laws kind (action_of ActionType.remove name res st reason) w c)
  remove_parts ActionType.none name res st reason w c t = absurd (ground arith)
  remove_parts ActionType.install name res st reason w c t = absurd (ground arith)
  remove_parts ActionType.upgrade name res st reason w c t = absurd (ground arith)
  remove_parts ActionType.downgrade name res st reason w c t = absurd (ground arith)
  remove_parts ActionType.reinstall name res st reason w c t = absurd (ground arith)
  remove_parts ActionType.skip name res st reason w c t = absurd (ground arith)

  -- One removal, by its outcome: an error with the state kept, or the entry gone.
  remove_cases :
      (a : Action R S) (w : W) (c : StateCache)
      → is_removal a.type ≡ true
      → IsUnchanged c (execute inst (cached_store acc) kind a w c)
        ⊎ IsStored acc c a.name none (execute inst (cached_store acc) kind a w c)
  remove_cases a w c t = remove_parts a.type a.name a.resource a.state a.reason w c t

  other_parts :
      (as' : List (Action R S)) (w : W) (c : StateCache) (total : ℕ) (type : ActionType)
      (name : String) (res : Option R) (st : Option S) (reason : String)
      → is_removal type ≡ false
      → run (action_of type name res st reason ∷ as') w c total ≡ run as' w c total
  unfolding execute_removals
  other_parts as' w c total ActionType.remove name res st reason t = absurd (ground arith)
  other_parts as' w c total ActionType.none name res st reason t = refl
  other_parts as' w c total ActionType.install name res st reason t = refl
  other_parts as' w c total ActionType.upgrade name res st reason t = refl
  other_parts as' w c total ActionType.downgrade name res st reason t = refl
  other_parts as' w c total ActionType.reinstall name res st reason t = refl
  other_parts as' w c total ActionType.skip name res st reason t = refl

  pub run_other :
      (a : Action R S) (as' : List (Action R S)) (w : W) (c : StateCache) (total : ℕ)
      → is_removal a.type ≡ false
      → run (a ∷ as') w c total ≡ run as' w c total
  run_other a as' w c total t =
      other_parts as' w c total a.type a.name a.resource a.state a.reason t

  abbrev pub ran : Action R S → W → StateCache → Executed W
  ran = execute inst (cached_store acc) kind

  removal_parts :
      (as' : List (Action R S)) (w : W) (c : StateCache) (total : ℕ) (type : ActionType)
      (name : String) (res : Option R) (st : Option S) (reason : String)
      → is_removal type ≡ true
      → let a = action_of type name res st reason in
        run (a ∷ as') w c total
        ≡ stop_or_go inst
            (cached_store acc)
            kind
            name
            (ran a w c)
            total
            (run as' (ran a w c).world (ran a w c).cache (suc total))
  unfolding execute_removals
  removal_parts as' w c total ActionType.remove name res st reason t = refl
  removal_parts as' w c total ActionType.none name res st reason t = absurd (ground arith)
  removal_parts as' w c total ActionType.install name res st reason t = absurd (ground arith)
  removal_parts as' w c total ActionType.upgrade name res st reason t = absurd (ground arith)
  removal_parts as' w c total ActionType.downgrade name res st reason t = absurd (ground arith)
  removal_parts as' w c total ActionType.reinstall name res st reason t = absurd (ground arith)
  removal_parts as' w c total ActionType.skip name res st reason t = absurd (ground arith)

  pub run_removal :
      (a : Action R S) (as' : List (Action R S)) (w : W) (c : StateCache) (total : ℕ)
      → is_removal a.type ≡ true
      → run (a ∷ as') w c total
        ≡ stop_or_go inst
            (cached_store acc)
            kind
            a.name
            (ran a w c)
            total
            (run as' (ran a w c).world (ran a w c).cache (suc total))
  run_removal a as' w c total t =
      removal_parts as' w c total a.type a.name a.resource a.state a.reason t

  -- What is left after a run: a name that no action removes keeps its entry, error or not; without an
  -- error every name that is to be removed is gone, and the count has grown by the removals.
  pub record IsRemoved (actions : List (Action R S)) (c : StateCache) (start : ℕ)
      (y : Executed W × ℕ) : Type 0 where
    pub kept :
        (j : String) → removes j actions ≡ false → acc.get y.0.cache.cache j ≡ acc.get c.cache j
    pub gone :
        y.0.error ≡ none
        → (j : String) → removes j actions ≡ true
        → acc.get y.0.cache.cache j ≡ none
    pub total : y.0.error ≡ none → y.1 ≡ start + removals actions

  stopped :
      (a : Action R S) (as' : List (Action R S)) (c : StateCache) (start : ℕ) (x : Executed W)
      (rest : Executed W × ℕ)
      → IsUnchanged c x
      → IsRemoved (a ∷ as') c start (stop_or_go inst (cached_store acc) kind a.name x start rest)
  unfolding stop_or_go
  stopped a as' c start x rest h = rw (h.error.1) (record {
    kept = λ j k. ap (λ (d : StateCache). acc.get d.cache j) h.cache;
    gone = λ e j k. absurd (ground arith);
    total = λ e. absurd (ground arith);
  })

  went_on :
      (a : Action R S) (as' : List (Action R S)) (c : StateCache) (start : ℕ) (x : Executed W)
      (rest : Executed W × ℕ)
      → is_removal a.type ≡ true
      → IsStored acc c a.name none x
      → IsRemoved as' x.cache (suc start) rest
      → IsRemoved (a ∷ as') c start (stop_or_go inst (cached_store acc) kind a.name x start rest)
  unfolding stop_or_go
  went_on a as' c start x rest t h r = rw (h.error) (record {
    kept = λ j k. elim (Bool-cases (a.name == j)) [
      | inl e ↦ absurd (ground arith)
      | inr e ↦ r.kept j (rw (t, e) at k) ∙ h.entry j ∙ rw e refl
    ];
    gone = λ e j k. elim (Bool-cases (removes j as')) [
      | inl q ↦ r.gone e j q
      | inr q ↦ r.kept j q ∙ h.entry j ∙ rw (named j k q) refl
    ];
    total = λ e. r.total e ∙ rw t (omega arith);
  })
    where
      named :
          (j : String) → removes j (a ∷ as') ≡ true → removes j as' ≡ false → (a.name == j) ≡ true
      named j k q = elim (Bool-cases (a.name == j)) [ inl e ↦ e | inr e ↦ absurd (ground arith) ]

  passed :
      (a : Action R S) (as' : List (Action R S)) (c : StateCache) (start : ℕ) (y : Executed W × ℕ)
      → is_removal a.type ≡ false
      → IsRemoved as' c start y
      → IsRemoved (a ∷ as') c start y
  passed a as' c start y t r = record {
    kept = λ j k. r.kept j (rw t at k);
    gone = λ e j k. r.gone e j (rw t at k);
    total = λ e. r.total e ∙ rw t refl;
  }

  pub execute_removals_lem :
      (actions : List (Action R S)) (w : W) (c : StateCache) (start : ℕ)
      → IsRemoved actions c start (run actions w c start)
  unfolding execute_removals
  execute_removals_lem [] w c start = record {
    kept = λ j h. refl;
    gone = λ e j h. absurd (ground arith);
    total = λ e. omega arith;
  }
  execute_removals_lem (a ∷ as') w c start = elim (Bool-cases (is_removal a.type)) [
    | inl t ↦
        let rest = run as' (ran a w c).world (ran a w c).cache (suc start) in
        subst (IsRemoved (a ∷ as') c start) (sym (run_removal a as' w c start t))
          (elim (remove_cases a w c t) [
            | inl h ↦ stopped a as' c start (ran a w c) rest h
            | inr h ↦
                went_on a as' c start (ran a w c) rest t h
                  (execute_removals_lem as' (ran a w c).world (ran a w c).cache (suc start))
          ])
    | inr t ↦
        subst (IsRemoved (a ∷ as') c start) (sym (run_other a as' w c start t))
          (passed a as' c start (run as' w c start) t (execute_removals_lem as' w c start))
  ]

  -- The removal loop on a cached store, ended by an error or not: a name that no action of the list
  -- removes keeps its entry.
  pub execute_removals_keeps :
      (actions : List (Action R S)) (w : W) (c : StateCache) (start : ℕ) (j : String)
      → removes j actions ≡ false
      → acc.get (run actions w c start).0.cache.cache j ≡ acc.get c.cache j
  execute_removals_keeps actions w c start = (execute_removals_lem actions w c start).kept

  -- If the removal loop on a cached store ends without an error, then every name that an action of the
  -- list removes has no entry, every other name has the entry it had, and the count of actions has
  -- grown by the number of removals.
  pub execute_removals_done :
      (actions : List (Action R S)) (w : W) (c : StateCache) (start : ℕ)
      → (run actions w c start).0.error ≡ none
      → ((j : String)
          → acc.get (run actions w c start).0.cache.cache j
            ≡ (if removes j actions then none else acc.get c.cache j))
        × ((run actions w c start).1 ≡ start + removals actions)
  execute_removals_done actions w c start e =
      let h = execute_removals_lem actions w c start in
      (
        λ j. elim (Bool-cases (removes j actions)) [
          | inl q ↦ rw q (h.gone e j q)
          | inr q ↦ rw q (h.kept j q)
        ],
        h.total e,
      )
