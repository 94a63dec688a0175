-- ===== src/Engine/NoPanic.antt =====
-- The taint phase does not panic while every tool of the state has a resource
-- (handleTaintedTools of internal/installer/engine/engine.go).
use tomei.Base.{
  ℕ, ◌≤◌, String, ◌≡◌, ◌≢◌, refl, ap, ◌∙◌, true, false, ◌&&◌, Option, none, some, List, [], ◌∷◌,
  Map, Set, lookup, keys, count, RangeOrder, arith, eq_refl, Bool-cases, Option-cases, inl, inr,
}
use mathlib.Core.Option
use tomei.Resource.Tool.{Tool, ToolState}
use tomei.Resource.All.{Resource}
use tomei.Reconcile.Core.{Action, Comparator, reconcile}
use tomei.Reconcile.Comparators.{tool_comparator}
use tomei.Reconcile.Actions.{for_name, last_named, expected, reconcile_lem}
use tomei.Execute.Cache.{StateCache, flush}
use tomei.Execute.Run.{Executed}
use tomei.Engine.Checks.{extract_tools}
use tomei.Engine.Taint.{taint_dependent_tools}
use tomei.Engine.Dependents.{marked_dependent}
use tomei.Engine.Handle.{Installers, tool_actions}
use tomei.Engine.Pruned.{to_go}
use tomei.Engine.Removed.{tool_name}
use tomei.Engine.Node.{Run, panicked}
use tomei.Engine.TaintPhase.{
  active_actions, stop_or_next, execute_tainted, after_flush, handle_tainted_tools,
}
use tomei.Engine.NilTool.{
  nil_option, is_active, nil_resource, nil_active, nil_resource-active, marked_state, marked_lookup,
  marked_unique,
}

module _ {R S : Type 0} where
  nil_named :
      (as' : List (Action R S))
      → nil_active as' ≡ true
      → (n : String) × (nil_active (for_name n as') ≡ true)
  nil_named [] h = absurd (ground arith)
  nil_named (a ∷ as') h = elim (Bool-cases (is_active a.type && nil_option a.resource)) [
    | inl e ↦ (a.name, rw eq_refl (rw e refl))
    | inr e ↦ let (n, k) = nil_named as' (rw e at h) in (n, ground (arith, k))
  ]

  nil-expected :
      (compare : Comparator R S) (n : String) (o : Option R) (s : Option S)
      → nil_active (expected compare n o s) ≡ to_go o s
  nil-expected compare n none none = refl
  nil-expected compare n none (some s) = refl
  nil-expected compare n (some res) none = refl
  nil-expected compare n (some res) (some s) = elim (Bool-cases (compare res s).0) [
    | inl e ↦ rw e refl
    | inr e ↦ rw e refl
  ]

not_to_go : {R S : Type 0} (o : Option R) (s : Option S) → (o ≡ none → s ≡ none) → to_go o s ≡ false
not_to_go none none h = refl
not_to_go none (some s) h = absurd (ground (arith, h refl))
not_to_go (some x) s h = refl

none_marked : {S : Type 0} (f : S → S) (o : Option S) → o ≡ none → Option.map f o ≡ none
none_marked f o e = rw e refl

module _ {W : Type 0} (r : RangeOrder) (ins : Installers W) where
  next_no_panic :
      (x : Executed W × ℕ) (next : W → StateCache → ℕ → Run (Executed W × ℕ))
      → ((w : W) (c : StateCache) (total : ℕ) → next w c total ≢ panicked)
      → stop_or_next r ins x next ≢ panicked
  unfolding stop_or_next
  next_no_panic x next h k = elim (Option-cases x.0.error) [
    | inl e ↦ h x.0.world x.0.cache x.1 (rw e at k)
    | inr p ↦ ground (arith, rw (p.1) at k)
  ]

  no_panic :
      (as' : List (Action Tool ToolState)) (w : W) (c : StateCache) (total : ℕ)
      → nil_resource as' ≡ false
      → execute_tainted r ins as' w c total ≢ panicked
  unfolding execute_tainted
  no_panic [] w c total n h = ground (arith, h)
  no_panic (a ∷ as') w c total n h = elim (Option-cases a.resource) [
    | inl e ↦ absurd (ground (arith, rw e at n))
    | inr (t, e) ↦
        next_no_panic _ (execute_tainted r ins as') (λ w1 c1 t1. no_panic as' w1 c1 t1 (rw e at n))
          (rw e at h)
  ]

  -- If every tool of the state has a resource of its name, on a state whose tools have distinct names,
  -- the taint phase does not panic.
  pub handle_tainted_tools_no_panic :
      (resources : List Resource) (updated : Set) (error : Option String) (w : W) (c : StateCache)
      (total : ℕ)
      → ((x : String) → count x (keys c.cache.tools) ≤ 1)
      → ((n : String)
          → last_named tool_name n (extract_tools resources) ≡ none
          → lookup n c.cache.tools ≡ none)
      → handle_tainted_tools r ins resources updated error w c total ≢ panicked
  unfolding handle_tainted_tools tool_actions
  handle_tainted_tools_no_panic resources updated error w c total unique covered =
      go (flush error (taint_dependent_tools r updated c)).1
    where
      states : Map ToolState
      states = (marked_state r ins updated error c).tools

      actions : List (Action Tool ToolState)
      actions = reconcile r tool_name tool_comparator (extract_tools resources) states

      quiet : nil_active actions ≡ false
      quiet = elim (Bool-cases (nil_active actions)) [
        | inr e ↦ e
        | inl e ↦
            let (n, k) = nil_named actions e in
            let shape : nil_active (for_name n actions) ≡ false =
              ap nil_active (
                reconcile_lem tool_comparator r tool_name (extract_tools resources) states
                  (marked_unique r ins updated error c unique) n)
              ∙ nil-expected tool_comparator n (last_named tool_name n (extract_tools resources))
                  (lookup n states)
              ∙ not_to_go (last_named tool_name n (extract_tools resources)) (lookup n states) (λ q.
                marked_lookup r ins updated error c n unique
                ∙ none_marked (marked_dependent c.cache.runtimes updated) (lookup n c.cache.tools)
                    (covered n q)) in
            absurd (ground (arith, k, shape))
      ]

      go :
          (f : Option String)
          → after_flush r ins resources w total
              ((flush error (taint_dependent_tools r updated c)).0, f)
            ≢ panicked
      go none = no_panic (active_actions actions) w _ total (nil_resource-active actions ∙ quiet)
      go (some e) = λ q. ground (arith, q)
