-- ===== src/Engine/Planned.antt =====
-- The plan (PlanAll of internal/installer/engine/engine.go) and what the engine then does.
use tomei.Base.{
  ℕ, ◌≤◌, String, ◌≡◌, ◌↔◌, refl, sym, ap, ◌∙◌, Bool, true, false, subst, Map, Option, none, some,
  List, [], ◌∷◌, lookup, keys, count, RangeOrder, if◌then◌else◌, arith,
}
use mathlib.Core.Option
use tomei.Resource.Tool.{Tool, taint_tool}
use tomei.Resource.All.{Resource}
use tomei.Reconcile.Core.{spec_action}
use tomei.Reconcile.Comparators.{tool_comparator}
use tomei.Reconcile.Actions.{for_name, last_named, expected, spec_action-expected, reconcile_lem}
use tomei.Reconcile.Single.{reconcile_single}
use tomei.State.User.{UserState}
use tomei.Execute.Cache.{StateCache, cached_store, tool_map_accessor}
use tomei.Execute.Run.{Executed, ok}
use tomei.Engine.Taint.{
  UpdateConfig, taint_matching, taint_tools, taint_runtimes, apply_update_taints,
}
use tomei.Engine.Checks.{extract_tools}
use tomei.Engine.Handle.{Installers, Handled, refused, handled, handle_removals, tool_actions}
use tomei.Engine.Node.{node_actions}
use tomei.Engine.Removed.{tool_name}
use tomei.Engine.Plan.{Plan, Planned, planned, plan_refused, plan_state, check_plan, plan_all}

plan_or : Plan → Planned → Plan
plan_or d (planned p) = p
plan_or d _ = d

blocked_of : Planned → Option (List (String × String))
blocked_of (plan_refused b) = some b
blocked_of _ = none

refused_of : {W : Type 0} → Handled W → Option (List (String × String))
refused_of (refused b) = some b
refused_of (handled x) = none

-- Two results that depend on one check are refused together.
refused_together :
    {W : Type 0} (o : Option (List (String × String))) (plan : Plan) (x : Executed W × ℕ)
    (b : List (String × String))
    → ((elim o [ some blocked ↦ plan_refused blocked | none ↦ planned plan ]) ≡ plan_refused b)
      ↔ ((elim o [ some blocked ↦ refused blocked | none ↦ handled x ]) ≡ refused b)
unfolding blocked_of refused_of
refused_together none plan x b =
    (λ e. absurd (ground (arith, ap blocked_of e)), λ e. absurd (ground (arith, ap refused_of e)))
refused_together (some c) plan x b = (
  λ e. ap refused (Option.some-injective _ _ (ap blocked_of e)),
  λ e. ap plan_refused (Option.some-injective _ _ (ap refused_of e)),
)

checked_plan :
    (o : Option (List (String × String))) (p plan : Plan)
    → (elim o [ some blocked ↦ plan_refused blocked | none ↦ planned p ]) ≡ planned plan
    → p ≡ plan
unfolding plan_or
checked_plan none p plan e = ap (plan_or p) e
checked_plan (some b) p plan e = absurd cc

keys-taint_matching :
    {S : Type 0} (match : S → Bool) (taint : S → S) (states : Map S)
    → keys (taint_matching match taint states) ≡ keys states
unfolding taint_matching
keys-taint_matching match taint [] = refl
keys-taint_matching match taint ((n, s) ∷ states) =
    ap (λ ks. n ∷ ks) (keys-taint_matching match taint states)

keys_kept :
    (b : Bool) (match : String → Bool) (reason : String) (st : UserState)
    → keys (if b then taint_tools match reason st else st).tools ≡ keys st.tools
unfolding taint_tools
keys_kept true match reason st =
    keys-taint_matching (λ s. match s.version_kind) (taint_tool reason) st.tools
keys_kept false match reason st = refl

tools_kept :
    (b : Bool) (match : String → Bool) (reason : String) (st : UserState)
    → (if b then taint_runtimes match reason st else st).tools ≡ st.tools
unfolding taint_runtimes
tools_kept true match reason st = refl
tools_kept false match reason st = refl

-- The update marks keep the names of the tools.
keys-apply_update_taints :
    (cfg : UpdateConfig) (st : UserState) → keys (apply_update_taints cfg st).tools ≡ keys st.tools
unfolding apply_update_taints
keys-apply_update_taints cfg st =
    ap keys (tools_kept cfg.update_runtimes _ _ _)
    ∙ keys_kept cfg.update_tools _ _ _
    ∙ keys_kept cfg.sync_mode _ _ st

module _ {W : Type 0} (r : RangeOrder) (ins : Installers W) (cfg : UpdateConfig)
    (resources : List Resource) (st : UserState) where
  -- On a state that can be loaded, `PlanAll` refuses a removal just where the removal phase of an
  -- apply refuses it, in a cache that holds the state with its update marks, and names the same tools.
  pub plan_all_refuses :
      (w : W) (saved : UserState) (dirty : Bool) (total : ℕ) (b : List (String × String))
      → (plan_all r ins cfg none (ok st) resources ≡ plan_refused b) ↔ (
          handle_removals r ins resources w
            (record { saved = saved; cache = apply_update_taints cfg st; dirty = dirty })
            total
          ≡ refused b)
  unfolding plan_all check_plan plan_state handle_removals
  plan_all_refuses w saved dirty total b = refused_together _ _ _ b

  -- On a state that can be loaded, with distinct names of tools, where `PlanAll`
  -- returns a plan, the action that it shows for a tool is the one that the tool's node executes, as
  -- long as the cache holds the tool's entry with its update mark.
  pub plan_all_node :
      (plan : Plan) (t : Tool) (c : StateCache)
      → ((x : String) → count x (keys st.tools) ≤ 1)
      → last_named tool_name t.metadata.name (extract_tools resources) ≡ some t
      → lookup t.metadata.name c.cache.tools
        ≡ lookup t.metadata.name (apply_update_taints cfg st).tools
      → plan_all r ins cfg none (ok st) resources ≡ planned plan
      → for_name t.metadata.name plan.tools
        ≡ node_actions r tool_name tool_comparator (cached_store tool_map_accessor) t c
  unfolding plan_all check_plan plan_state tool_actions node_actions cached_store tool_map_accessor
  plan_all_node plan t c unique last same h =
      let st' = apply_update_taints cfg st in
      let n = t.metadata.name in
      ap (λ (p : Plan). for_name n p.tools)
        (sym (checked_plan _ (plan_state r ins resources st') plan h))
      ∙ reconcile_lem tool_comparator r tool_name (extract_tools resources) st'.tools
          (λ x. subst (λ ks. count x ks ≤ 1) (sym (keys-apply_update_taints cfg st)) (unique x)) n
      ∙ ap (λ o. expected tool_comparator n o (lookup n st'.tools)) last
      ∙ sym (spec_action-expected tool_comparator n t (lookup n st'.tools))
      ∙ ap (spec_action tool_comparator n t) (sym same)
      ∙ sym (reconcile_single r tool_name tool_comparator t (lookup n c.cache.tools))
