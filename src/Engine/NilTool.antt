-- ===== src/Engine/NilTool.antt =====
-- The taint phase and tools that have a state but no resource.
use tomei.Base.{
  ℕ, ◌≤◌, String, ◌≡◌, ◌≢◌, refl, sym, ap, ◌∙◌, subst, Bool, true, false, ◌||◌, ◌&&◌, Option, none,
  some, List, [], ◌∷◌, Map, Set, lookup, keys, count, RangeOrder, arith, Option-cases, inl, inr,
}
use mathlib.Core.Option
use tomei.Resource.Version.{ActionType}
use tomei.Resource.Tool.{Tool, ToolState}
use tomei.Resource.All.{Resource}
use tomei.Reconcile.Core.{Action, Comparator, reconcile}
use tomei.Reconcile.Comparators.{tool_comparator}
use tomei.Reconcile.Actions.{for_name, last_named, expected, reconcile_lem}
use tomei.State.User.{UserState}
use tomei.Execute.Cache.{StateCache, flush}
use tomei.Execute.Run.{Executed}
use tomei.Execute.Keeps.{action_of}
use tomei.Engine.Checks.{extract_tools}
use tomei.Engine.Taint.{taint_dependent_tools}
use tomei.Engine.Dependents.{marked_dependent, taint_dependent_tools_lem}
use tomei.Engine.TaintKeys.{flush_cache, taint_dependent_tools_unique}
use tomei.Engine.Handle.{Installers, tool_actions}
use tomei.Engine.Removed.{tool_name}
use tomei.Engine.Node.{Run, done}
use tomei.Engine.TaintPhase.{
  active_actions, stop_or_next, execute_tainted, after_flush, handle_tainted_tools,
}

abbrev pub nil_option : {R : Type 0} → Option R → Bool
nil_option none = true
nil_option (some _) = false

abbrev pub is_active : ActionType → Bool
is_active ActionType.none = false
is_active _ = true

module _ {R S : Type 0} where
  -- Whether an action of the list has a nil resource.
  abbrev pub nil_resource : List (Action R S) → Bool
  nil_resource [] = false
  nil_resource (a ∷ as') = nil_option a.resource || nil_resource as'

  -- The same of the active actions of a list.
  abbrev pub nil_active : List (Action R S) → Bool
  nil_active [] = false
  nil_active (a ∷ as') = (is_active a.type && nil_option a.resource) || nil_active as'

  nil_parts :
      (as' : List (Action R S)) (type : ActionType) (name : String) (res : Option R) (st : Option S)
      (reason : String)
      → nil_resource (active_actions (action_of type name res st reason ∷ as'))
        ≡ ((is_active type && nil_option res) || nil_resource (active_actions as'))
  unfolding active_actions
  nil_parts as' ActionType.none name res st reason = refl
  nil_parts as' ActionType.install name res st reason = refl
  nil_parts as' ActionType.upgrade name res st reason = refl
  nil_parts as' ActionType.downgrade name res st reason = refl
  nil_parts as' ActionType.reinstall name res st reason = refl
  nil_parts as' ActionType.remove name res st reason = refl
  nil_parts as' ActionType.skip name res st reason = refl

  pub nil_resource-active :
      (as' : List (Action R S)) → nil_resource (active_actions as') ≡ nil_active as'
  nil_resource-active [] = unfold active_actions in refl
  nil_resource-active (a ∷ as') =
      nil_parts as' a.type a.name a.resource a.state a.reason
      ∙ ap (λ (b : Bool). (is_active a.type && nil_option a.resource) || b)
          (nil_resource-active as')

  nil_for_name :
      (n : String) (as' : List (Action R S))
      → nil_active (for_name n as') ≡ true
      → nil_active as' ≡ true
  nil_for_name n [] h = h
  nil_for_name n (a ∷ as') h = ground (arith, nil_for_name n as')

-- A name with a state and no resource gives an action with a nil resource.
nil_reconcile :
    {R S : Type 0} (compare : Comparator R S) (r : RangeOrder) (name_of : R → String)
    (resources : List R) (states : Map S) (n : String) (s : S)
    → ((x : String) → count x (keys states) ≤ 1)
    → last_named name_of n resources ≡ none
    → lookup n states ≡ some s
    → nil_active (reconcile r name_of compare resources states) ≡ true
nil_reconcile compare r name_of resources states n s unique gone there =
    nil_for_name n (reconcile r name_of compare resources states) (
      ap nil_active (
        reconcile_lem compare r name_of resources states unique n
        ∙ ap (λ o. expected compare n o (lookup n states)) gone
        ∙ ap (expected compare n none) there)
      ∙ refl)

module _ {W : Type 0} (r : RangeOrder) (ins : Installers W) where
  next_fails :
      (x : Executed W × ℕ) (next : W → StateCache → ℕ → Run (Executed W × ℕ)) (y : Executed W × ℕ)
      → ((w : W) (c : StateCache) (total : ℕ) → next w c total ≡ done y → y.0.error ≢ none)
      → stop_or_next r ins x next ≡ done y
      → y.0.error ≢ none
  unfolding stop_or_next
  next_fails x next y ih h = elim (Option-cases x.0.error) [
    | inl e ↦ ih x.0.world x.0.cache x.1 (rw e at h)
    | inr p ↦ λ q. ground (arith, p.1, q, rw (p.1) at h)
  ]

  nil_fails :
      (as' : List (Action Tool ToolState)) (w : W) (c : StateCache) (total : ℕ) (y : Executed W × ℕ)
      → nil_resource as' ≡ true
      → execute_tainted r ins as' w c total ≡ done y
      → y.0.error ≢ none
  unfolding execute_tainted
  nil_fails [] w c total y n h = absurd (ground arith)
  nil_fails (a ∷ as') w c total y n h = elim (Option-cases a.resource) [
    | inl e ↦ absurd (ground (arith, rw e at h))
    | inr (t, e) ↦
        next_fails _ (execute_tainted r ins as') y
          (λ w1 c1 t1 k. nil_fails as' w1 c1 t1 y (rw e at n) k) (rw e at h)
  ]

  -- The state that the taint phase reconciles: marked and flushed.
  abbrev pub marked_state : Set → Option String → StateCache → UserState
  marked_state updated error c = (flush error (taint_dependent_tools r updated c)).0.cache

  pub marked_lookup :
      (updated : Set) (error : Option String) (c : StateCache) (n : String)
      → ((x : String) → count x (keys c.cache.tools) ≤ 1)
      → lookup n (marked_state updated error c).tools
        ≡ Option.map (marked_dependent c.cache.runtimes updated) (lookup n c.cache.tools)
  marked_lookup updated error c n unique =
      ap (λ (st : UserState). lookup n st.tools)
        (flush_cache error (taint_dependent_tools r updated c))
      ∙ taint_dependent_tools_lem r updated c n unique

  pub marked_unique :
      (updated : Set) (error : Option String) (c : StateCache)
      → ((x : String) → count x (keys c.cache.tools) ≤ 1)
      → (x : String) → count x (keys (marked_state updated error c).tools) ≤ 1
  marked_unique updated error c unique x =
      subst (λ (st : UserState). count x (keys st.tools) ≤ 1)
        (sym (flush_cache error (taint_dependent_tools r updated c)))
        (taint_dependent_tools_unique r updated c unique x)

  tainted_error :
      (resources : List Resource) (updated : Set) (error : Option String) (w : W) (c : StateCache)
      (total : ℕ) (n : String) (s : ToolState) (y : Executed W × ℕ)
      → ((x : String) → count x (keys c.cache.tools) ≤ 1)
      → last_named tool_name n (extract_tools resources) ≡ none
      → lookup n c.cache.tools ≡ some s
      → handle_tainted_tools r ins resources updated error w c total ≡ done y
      → y.0.error ≢ none
  unfolding handle_tainted_tools tool_actions
  tainted_error resources updated error w c total n s y unique gone there h =
      go (flush error (taint_dependent_tools r updated c)).1 h
    where
      actions : List (Action Tool ToolState)
      actions =
          reconcile r tool_name tool_comparator (extract_tools resources)
            (marked_state updated error c).tools

      nil : nil_active actions ≡ true
      nil =
          nil_reconcile tool_comparator r tool_name (extract_tools resources)
            (marked_state updated error c).tools n (marked_dependent c.cache.runtimes updated s)
            (marked_unique updated error c unique) gone
            (marked_lookup updated error c n unique
              ∙ ap (Option.map (marked_dependent c.cache.runtimes updated)) there)

      go :
          (f : Option String)
          → after_flush r ins resources w total
              ((flush error (taint_dependent_tools r updated c)).0, f)
            ≡ done y
          → y.0.error ≢ none
      go none k =
          nil_fails (active_actions actions) w _ total y (nil_resource-active actions ∙ nil) k
      go (some e) k = λ q. ground (arith, k, q)

  -- If a tool of the state has no resource, on a state whose tools have distinct names, then the taint
  -- phase never succeeds, whatever was updated: it panics on the nil resource of the tool's removal, or
  -- has ended in an error before.
  pub handle_tainted_tools_fails :
      (resources : List Resource) (updated : Set) (error : Option String) (w : W) (c : StateCache)
      (total : ℕ) (n : String) (s : ToolState)
      → ((x : String) → count x (keys c.cache.tools) ≤ 1)
      → last_named tool_name n (extract_tools resources) ≡ none
      → lookup n c.cache.tools ≡ some s
      → ¬ (
          (y : Executed W × ℕ) × (handle_tainted_tools r ins resources updated error w c total
            ≡ done y)
          × (y.0.error ≡ none))
  handle_tainted_tools_fails resources updated error w c total n s unique gone there (y, h, k) =
      tainted_error resources updated error w c total n s y unique gone there h k
