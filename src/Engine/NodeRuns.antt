-- ===== src/Engine/NodeRuns.antt =====
-- What the execution of one node does, and that a second one has nothing to do.
use tomei.Base.{
  ℕ, suc, String, ◌≡◌, refl, sym, ap, ◌∙◌, subst, false, Option, none, some, List, RangeOrder,
  arith, eq_refl, if◌then◌else◌, Bool-cases, inl, inr,
}
use tomei.Resource.Kind.{Kind}
use tomei.Resource.Version.{ActionType}
use tomei.Reconcile.Core.{Action, Comparator, spec_action}
use tomei.Reconcile.Single.{reconcile_single}
use tomei.Execute.Cache.{StateCache, MapAccessor, cached_store}
use tomei.Execute.Run.{Installer, Outcome, ok, failed, Executed, execute}
use tomei.Execute.Keeps.{
  IsAccessor, IsStored, IsUnchanged, IsExecuted, effect, installed, action_of, execute_lem,
}
use tomei.Engine.Node.{count_action, run_first, node_actions}

module _ {W R S : Type 0} (inst : Installer W R S) (acc : MapAccessor S) (laws : IsAccessor acc)
    (kind : Kind) (label : String) (r : RangeOrder) (name_of : R → String)
    (compare : Comparator R S) where
  abbrev node_run : R → W → StateCache → ℕ → Executed W × ℕ
  node_run res w c total =
      run_first inst (cached_store acc) kind label
        (node_actions r name_of compare (cached_store acc) res c) w c total

  node_actions_lem :
      (res : R) (c : StateCache)
      → node_actions r name_of compare (cached_store acc) res c
        ≡ spec_action compare (name_of res) res (acc.get c.cache (name_of res))
  unfolding node_actions cached_store
  node_actions_lem res c = reconcile_single r name_of compare res (acc.get c.cache (name_of res))

  -- What the node does: nothing, where the entry is as the resource wants it; else what the installer
  -- answers to an installation or an upgrade.
  abbrev pub node_effect : R → W → Option S → Option (Option (Option S))
  node_effect res w none =
      some (
        installed inst acc laws kind
          (inst.install ActionType.install "" (some res) (name_of res) w))
  node_effect res w (some s) =
      if (compare res s).0
      then some (
          installed inst acc laws kind (
            inst.install ActionType.upgrade (inst.get_bin_path (some s)) (some res) (name_of res)
              w))
      else none

  -- What is left of the state after a node with such an effect.
  abbrev pub IsNodeRun :
      String → W → StateCache → ℕ → Option (Option (Option S)) → Executed W × ℕ → Type 0
  IsNodeRun name w c total none x = x ≡ (record { world = w; cache = c; error = none }, total)
  IsNodeRun name w c total (some none) x = IsUnchanged c x.0 × (x.1 ≡ total)
  IsNodeRun name w c total (some (some v)) x = IsStored acc c name v x.0 × (x.1 ≡ suc total)

  counted :
      (action : Action R S) (w : W) (c : StateCache) (total : ℕ) (v : Option (Option S))
      (x : Executed W)
      → IsExecuted inst acc laws kind action.name c v x
      → IsNodeRun action.name w c total
          (some v)
          (count_action inst (cached_store acc) kind label action x total)
  unfolding count_action
  counted action w c total none x h =
      rw (h.error.1) (record { error = (_, refl); cache = h.cache }, refl)
  counted action w c total (some v) x h =
      subst (λ (y : Executed W × ℕ). IsStored acc c action.name v y.0 × (y.1 ≡ suc total))
        (sym (rw (h.error) refl)) (h, refl)

  executed :
      (action : Action R S) (w : W) (c : StateCache) (total : ℕ)
      → IsNodeRun action.name w c total (some (effect inst acc laws kind action w)) (
          count_action inst
            (cached_store acc)
            kind
            label
            action
            (execute inst (cached_store acc) kind action w c)
            total)
  executed action w c total =
      counted action w c total (effect inst acc laws kind action w)
        (execute inst (cached_store acc) kind action w c)
        (execute_lem inst acc laws kind action w c)

  spec_run :
      (res : R) (w : W) (c : StateCache) (total : ℕ) (e : Option S)
      → IsNodeRun (name_of res) w c total (node_effect res w e) (
          run_first inst
            (cached_store acc)
            kind
            label
            (spec_action compare (name_of res) res e)
            w
            c
            total)
  unfolding run_first spec_action effect
  spec_run res w c total none =
      executed (action_of ActionType.install (name_of res) (some res) none "new resource") w c total
  spec_run res w c total (some s) = elim (Bool-cases (compare res s).0) [
    | inl b ↦ rw b (
        executed (action_of ActionType.upgrade (name_of res) (some res) (some s) (compare res s).1)
          w c total)
    | inr b ↦ rw b refl
  ]

  -- The execution of a node, by the effect that its resource and its entry call for: nothing at all;
  -- an error with the state and the count kept; or the answer of the installer stored under its name,
  -- every other entry kept, and the count one up. A node never removes.
  pub node_run_lem :
      (res : R) (w : W) (c : StateCache) (total : ℕ)
      → IsNodeRun
          (name_of res)
          w
          c
          total
          (node_effect res w (acc.get c.cache (name_of res)))
          (node_run res w c total)
  node_run_lem res w c total =
      subst
        (λ (as' : List (Action R S)).
          IsNodeRun (name_of res) w c total (node_effect res w (acc.get c.cache (name_of res)))
            (run_first inst (cached_store acc) kind label as' w c total))
        (sym (node_actions_lem res c)) (spec_run res w c total (acc.get c.cache (name_of res)))

  -- Whatever the installer returns for the resource, the comparator is content with it.
  abbrev pub Settles : R → Type 0
  Settles res =
      (type : ActionType) (old : String) (w : W) (s : S)
      → (inst.install type old (some res) (name_of res) w).1 ≡ ok s
      → (compare res s).0 ≡ false

  IsContent : R → Option S → Type 0
  IsContent res none = ⊥
  IsContent res (some s) = (compare res s).0 ≡ false

  idle :
      (res : R) (w : W) (c : StateCache) (total : ℕ)
      → IsContent res (acc.get c.cache (name_of res))
      → node_run res w c total ≡ (record { world = w; cache = c; error = none }, total)
  unfolding IsContent
  idle res w c total h = go (acc.get c.cache (name_of res)) h (node_run_lem res w c total)
    where
      go :
          (e : Option S)
          → IsContent res e
          → IsNodeRun (name_of res) w c total (node_effect res w e) (node_run res w c total)
          → node_run res w c total ≡ (record { world = w; cache = c; error = none }, total)
      go none k n = absurd k
      go (some s) k n = rw k at n

  installed_pleases :
      (res : R) (w : W) (c : StateCache) (total : ℕ) (p : W × Outcome S) (x : Executed W × ℕ)
      → ((s : S) → p.1 ≡ ok s → (compare res s).0 ≡ false)
      → IsNodeRun (name_of res) w c total (some (installed inst acc laws kind p)) x
      → x.0.error ≡ none
      → IsContent res (acc.get x.0.cache.cache (name_of res))
  unfolding IsContent
  installed_pleases res w c total (w', ok s) x h n e =
      let entry : acc.get x.0.cache.cache (name_of res) ≡ some s =
        n.0.entry (name_of res) ∙ rw eq_refl in
      subst (IsContent res) (sym entry) (h s refl)
  installed_pleases res w c total (w', failed f) x h n e = absurd (ground (arith, n.0.error.1, e))

  run_pleases :
      (res : R) (w : W) (c : StateCache) (total : ℕ) (x : Executed W × ℕ) (e : Option S)
      → Settles res
      → acc.get c.cache (name_of res) ≡ e
      → IsNodeRun (name_of res) w c total (node_effect res w e) x
      → x.0.error ≡ none
      → IsContent res (acc.get x.0.cache.cache (name_of res))
  unfolding IsContent
  run_pleases res w c total x none h k n e =
      installed_pleases res w c total
        (inst.install ActionType.install "" (some res) (name_of res) w) x
        (h ActionType.install "" w) n e
  run_pleases res w c total x (some s) h k n e = elim (Bool-cases (compare res s).0) [
    | inl b ↦
        installed_pleases res w c total
          (inst.install ActionType.upgrade (inst.get_bin_path (some s)) (some res) (name_of res) w)
          x (h ActionType.upgrade (inst.get_bin_path (some s)) w) (rw b at n) e
    | inr b ↦
        let same : x ≡ (record { world = w; cache = c; error = none }, total) = rw b at n in
        subst (IsContent res)
          (sym (ap (λ (y : Executed W × ℕ). acc.get y.0.cache.cache (name_of res)) same ∙ k)) b
  ]

  -- If what the installer returns for a resource contents the comparator, then after an execution of
  -- its node without an error a second one changes neither the world nor the state nor the count.
  pub node_run_again :
      (res : R) (w : W) (c : StateCache) (total : ℕ)
      → Settles res
      → (node_run res w c total).0.error ≡ none
      → let x = node_run res w c total in
        node_run res x.0.world x.0.cache x.1
        ≡ (record { world = x.0.world; cache = x.0.cache; error = none }, x.1)
  node_run_again res w c total h e =
      let x = node_run res w c total in
      idle res x.0.world x.0.cache x.1 (
        run_pleases res w c total x (acc.get c.cache (name_of res)) h refl
          (node_run_lem res w c total) e)
