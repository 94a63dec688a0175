-- ===== src/Samples/Plans.antt =====
-- Plans of the sample state.
use tomei.Base.{◌≡◌, ◌↔◌, refl, false, none, some, List, [], ◌∷◌, in_order}
use tomei.Resource.Version.{is_latest_version}
use tomei.Resource.Other.{runtime_is_tainted}
use tomei.Resource.All.{Resource, tool}
use tomei.Reconcile.Core.{reconcile, spec_actions, spec_resources, spec_action, removal_actions}
use tomei.Reconcile.Comparators.{tool_comparator, runtime_comparator, spec_version_changed}
use tomei.Reconcile.Actions.{for_name, last_named}
use tomei.State.User.{UserState}
use tomei.Execute.Cache.{StateCache, cached_store, tool_map_accessor}
use tomei.Execute.Run.{ok}
use tomei.Engine.Taint.{apply_update_taints}
use tomei.Engine.Checks.{extract_tools, extract_runtimes, check_removal_dependencies, blocked_tools}
use tomei.Engine.Handle.{handle_removals, refused, removal_names, runtime_actions}
use tomei.Engine.Node.{node_actions}
use tomei.Engine.Removed.{tool_name}
use tomei.Engine.Plan.{Plan, planned, plan_refused, plan_state, check_plan, plan_all}
use tomei.Engine.Planned.{plan_all_refuses, plan_all_node}
use tomei.Samples.Data.{
  gopls, sample_installers, sample_resources, sample_state, sample_tools_unique, sync_and_update,
}

abbrev marked : UserState
marked = apply_update_taints sync_and_update sample_state

abbrev marked_cache : StateCache
marked_cache = record { saved = sample_state; cache = marked; dirty = false }

abbrev sample_plan : Plan
sample_plan = plan_state in_order sample_installers sample_resources marked

sample_planned :
    plan_all in_order sample_installers sync_and_update none (ok sample_state) sample_resources
    ≡ planned sample_plan
unfolding plan_all check_plan plan_state apply_update_taints runtime_actions removal_names reconcile
    spec_actions spec_resources spec_action removal_actions extract_runtimes runtime_comparator
    spec_version_changed is_latest_version runtime_is_tainted
sample_planned = refl

gopls_last : last_named tool_name "gopls" (extract_tools sample_resources) ≡ some gopls
unfolding extract_tools
gopls_last = refl

plan_all_node_example :
    for_name "gopls" sample_plan.tools
    ≡ node_actions in_order tool_name tool_comparator
        (cached_store tool_map_accessor)
        gopls
        marked_cache
plan_all_node_example =
    plan_all_node in_order sample_installers sync_and_update sample_resources sample_state
      sample_plan gopls marked_cache sample_tools_unique gopls_last refl sample_planned

-- Without the runtime go, gopls is in the way of its removal.
abbrev no_runtime : List Resource
no_runtime = tool gopls ∷ []

plan_all_refuses_example :
    (plan_all in_order sample_installers sync_and_update none (ok sample_state) no_runtime
      ≡ plan_refused (("gopls", "go") ∷ []))
    ↔ (handle_removals in_order sample_installers no_runtime tt marked_cache 0
        ≡ refused (("gopls", "go") ∷ []))
plan_all_refuses_example =
    plan_all_refuses in_order sample_installers sync_and_update no_runtime sample_state tt
      sample_state false 0 (("gopls", "go") ∷ [])

no_runtime_refused :
    plan_all in_order sample_installers sync_and_update none (ok sample_state) no_runtime
    ≡ plan_refused (("gopls", "go") ∷ [])
unfolding plan_all check_plan plan_state apply_update_taints runtime_actions removal_names reconcile
    spec_actions spec_resources spec_action removal_actions extract_runtimes extract_tools
    check_removal_dependencies blocked_tools
no_runtime_refused = refl
