-- ===== src/Execute/Frame.antt =====
-- What the removals of one kind leave alone: every other part of the state.
use tomei.Base.{
  ℕ, suc, String, ◌≡◌, refl, sym, ◌∙◌, true, Option, none, some, List, [], ◌∷◌, arith, subst, inl,
  inr, Bool-cases, Option-cases,
}
use tomei.Resource.Kind.{Kind}
use tomei.Resource.Version.{ActionType}
use tomei.Reconcile.Core.{Action}
use tomei.State.User.{UserState}
use tomei.Execute.Cache.{StateCache, MapAccessor, cached_store}
use tomei.Execute.Run.{
  Installer, Executed, execute, execute_removals, stop_or_go, remove, delete_outcome,
}
use tomei.Execute.Keeps.{IsAccessor, action_of}
use tomei.Execute.Removals.{is_removal, run, ran, run_other, run_removal}

module _ {W R S : Type 0} (inst : Installer W R S) (acc : MapAccessor S) (laws : IsAccessor acc)
    (kind : Kind) {X : Type 0} (view : UserState → X)
    (same : (st : UserState) (n : String) → view (acc.del st n) ≡ view st) where
  frame_outcome :
      (name : String) (c : StateCache) (p : W × Option String)
      → view (delete_outcome inst (cached_store acc) kind name c p).cache.cache ≡ view c.cache
  unfolding cached_store
  frame_outcome name c (w, none) = same c.cache name
  frame_outcome name c (w, some e) = refl

  frame_parts :
      (type : ActionType) (name : String) (res : Option R) (st : Option S) (reason : String) (w : W)
      (c : StateCache)
      → is_removal type ≡ true
      → view
          (execute inst (cached_store acc) kind (action_of type name res st reason) w c).cache.cache
        ≡ view c.cache
  unfolding execute remove
  frame_parts ActionType.remove name res st reason w c t =
      frame_outcome name c (inst.remove st name w)
  frame_parts ActionType.none name res st reason w c t = refl
  frame_parts ActionType.install name res st reason w c t = absurd (ground arith)
  frame_parts ActionType.upgrade name res st reason w c t = absurd (ground arith)
  frame_parts ActionType.downgrade name res st reason w c t = refl
  frame_parts ActionType.reinstall name res st reason w c t = absurd (ground arith)
  frame_parts ActionType.skip name res st reason w c t = refl

  frame_stop :
      (name : String) (c : StateCache) (x : Executed W) (start : ℕ) (rest : Executed W × ℕ)
      → view x.cache.cache ≡ view c.cache
      → view rest.0.cache.cache ≡ view x.cache.cache
      → view (stop_or_go inst (cached_store acc) kind name x start rest).0.cache.cache
        ≡ view c.cache
  unfolding stop_or_go
  frame_stop name c x start rest h k = elim (Option-cases x.error) [
    | inl e ↦ rw e (k ∙ h)
    | inr p ↦ rw (p.1) h
  ]

  -- The removal loop of one kind leaves alone what its deletions leave alone.
  pub execute_removals_frame :
      (actions : List (Action R S)) (w : W) (c : StateCache) (start : ℕ)
      → view (run inst acc laws kind actions w c start).0.cache.cache ≡ view c.cache
  unfolding execute_removals
  execute_removals_frame [] w c start = refl
  execute_removals_frame (a ∷ as') w c start = elim (Bool-cases (is_removal a.type)) [
    | inl t ↦
        let x = ran inst acc laws kind a w c in
        let rest = run inst acc laws kind as' x.world x.cache (suc start) in
        subst (λ (y : Executed W × ℕ). view y.0.cache.cache ≡ view c.cache)
          (sym (run_removal inst acc laws kind a as' w c start t))
          (frame_stop a.name c x start rest
            (frame_parts a.type a.name a.resource a.state a.reason w c t)
            (execute_removals_frame as' x.world x.cache (suc start)))
    | inr t ↦
        subst (λ (y : Executed W × ℕ). view y.0.cache.cache ≡ view c.cache)
          (sym (run_other inst acc laws kind a as' w c start t))
          (execute_removals_frame as' w c start)
  ]
