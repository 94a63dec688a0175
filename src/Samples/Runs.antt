-- ===== src/Samples/Runs.antt =====
-- The theorems on the execution of nodes, applied to concrete runs.
use Prim.Native.Nat.{◌*◌}
use tomei.Base.{
  ℕ, ◌≤◌, ◌≡◌, ◌≢◌, refl, none, some, List, [], ◌∷◌, lookup, length, count, in_order, pos, arith,
}
use tomei.Resource.Kind.{Kind}
use tomei.Resource.Version.{is_latest_version}
use tomei.Resource.Tool.{ToolState, tool_is_tainted}
use tomei.Graph.Dag.{Node}
use tomei.Reconcile.Comparators.{tool_comparator, spec_version_changed}
use tomei.Reconcile.Core.{reconcile, spec_actions, spec_resources, spec_action, removal_actions}
use tomei.Execute.Cache.{cached_store, tool_map_accessor}
use tomei.Execute.Run.{Installer, Outcome, ok, failed, Executed, execute}
use tomei.Execute.Run as Run
use tomei.Reconcile.Single.{single_state}
use tomei.Execute.Keeps.{tool_map_accessor-IsAccessor}
use tomei.Engine.Checks.{set_parallelism}
use tomei.Engine.Node.{done, panicked, execute_tool_node, run_first, node_actions, count_action}
use tomei.Engine.NodeRuns.{IsNodeRun}
use tomei.Engine.Executed.{tool_effect, execute_tool_node_lem, execute_tool_node_again}
use tomei.Engine.TaintPhase.{handle_tainted_tools}
use tomei.Engine.NilTool.{handle_tainted_tools_fails}
use tomei.Engine.NoPanic.{handle_tainted_tools_no_panic}
use tomei.Schedule.Defs.{Worker, idle, busy, acquired, answered, Reach, in_flight}
use tomei.Schedule.Delegation.{node_call, start_workers}
use tomei.Schedule.Start.{node_key}
use tomei.Schedule.Names.{texts, all_jobs, start_workers-count}
use tomei.Schedule.Layer.{name_of_node, layer_bound, layer_keys, layer_entry}
use tomei.Schedule.Progress.{steps}
use tomei.Schedule.Ends.{layer_steps}
use tomei.Schedule.Solo.{execute_tool_node-Reach, queue_after, shared_of}
use tomei.Samples.Data.{
  gopls, gopls_state, sample_installer, sample_installers, sample_resources, sample_state,
  sample_cache, sample_tools_unique,
}
use tomei.Samples.Layer.{
  node_of, layer_resources, layer_nodes, layer_partition, layer_partitioned, layer_distinct,
  layer_shared, layer_now, layer_run, downloads_alike, go_resources, go_found, staticcheck_gone,
  gopls_cache, gopls_unique, gopls_covered, exact_installers, exact_settles,
}

layer_bound_example :
    (in_flight layer_now.workers ≤ set_parallelism (pos 5)) × (in_flight layer_now.workers ≤ 20)
layer_bound_example =
    layer_bound in_order sample_installer layer_resources layer_nodes layer_partition (pos 5)
      layer_shared layer_now layer_partitioned layer_distinct layer_run

abbrev yq_answered : List (Worker Node ToolState)
yq_answered = busy (node_of "yq") (answered none (ok gopls_state)) [] ∷ []

abbrev go_waits : List (Worker Node ToolState)
go_waits = idle (node_of "gopls" ∷ node_of "staticcheck" ∷ []) ∷ []

layer_keys_example : node_key layer_resources (node_of "jq") ≡ ""
layer_keys_example =
    layer_keys in_order sample_installer layer_resources layer_nodes layer_partition (pos 5)
      layer_shared layer_now [] [] go_waits (node_of "jq") (node_of "yq") acquired
      (answered none (ok gopls_state)) [] [] layer_partitioned layer_distinct layer_run refl
      downloads_alike

layer_entry_example : lookup "yq" layer_now.shared.entries ≡ none
layer_entry_example =
    layer_entry in_order sample_installer layer_resources layer_nodes layer_partition (pos 5)
      layer_shared layer_now (busy (node_of "jq") acquired [] ∷ []) go_waits (node_of "yq") none
      (ok gopls_state) [] layer_partitioned layer_distinct layer_run refl

layer_steps_example :
    steps
      (set_parallelism (pos 5))
      name_of_node
      (node_call sample_installer layer_resources)
      layer_run
    ≤ length layer_nodes * 4
layer_steps_example =
    layer_steps in_order sample_installer layer_resources layer_nodes layer_partition (pos 5)
      layer_shared layer_now layer_run layer_partitioned

start_workers-count_example :
    count "gopls" (texts name_of_node (all_jobs (start_workers layer_partition)))
    ≡ count "gopls" (texts name_of_node layer_nodes)
start_workers-count_example =
    start_workers-count name_of_node in_order layer_resources layer_nodes layer_partition "gopls"
      layer_partitioned

execute_tool_node-Reach_example :
    let x = (execute_tool_node in_order sample_installers gopls tt sample_cache 0).0 in
    Reach 1
      (λ (j : Node). j.name)
      (node_call sample_installer go_resources)
      (record {
        workers = idle (node_of "gopls" ∷ []) ∷ [];
        shared = record { entries = sample_state.tools; world = tt; errors = 0 };
      })
      (record { workers = idle (queue_after x.error []) ∷ []; shared = shared_of x 0 })
execute_tool_node-Reach_example =
    execute_tool_node-Reach in_order sample_installers 1 go_resources [] [] [] gopls tt sample_cache
      0 0 go_found (omega arith)

handle_tainted_tools_fails_example : ¬ (
    (y : Executed (Unit {0}) × ℕ) × (handle_tainted_tools in_order sample_installers
        sample_resources
        (("go", tt) ∷ [])
        none
        tt
        sample_cache
        0
      ≡ done y)
    × (y.0.error ≡ none))
handle_tainted_tools_fails_example =
    handle_tainted_tools_fails in_order sample_installers sample_resources (("go", tt) ∷ []) none tt
      sample_cache 0 "staticcheck" gopls_state sample_tools_unique staticcheck_gone refl

handle_tainted_tools_no_panic_example :
    handle_tainted_tools in_order sample_installers sample_resources
      (("go", tt) ∷ [])
      none
      tt
      gopls_cache
      0
    ≢ panicked
handle_tainted_tools_no_panic_example =
    handle_tainted_tools_no_panic in_order sample_installers sample_resources (("go", tt) ∷ []) none
      tt gopls_cache 0 gopls_unique gopls_covered

abbrev gopls_run : Executed (Unit {0}) × ℕ
gopls_run = execute_tool_node in_order exact_installers gopls tt sample_cache 0

gopls_runs : gopls_run.0.error ≡ none
unfolding execute_tool_node run_first node_actions reconcile spec_resources spec_actions spec_action
    removal_actions tool_comparator is_latest_version spec_version_changed tool_is_tainted execute
    Run.install count_action cached_store tool_map_accessor single_state
gopls_runs = refl

execute_tool_node_again_example :
    execute_tool_node in_order exact_installers gopls gopls_run.0.world gopls_run.0.cache
      gopls_run.1
    ≡ (record { world = gopls_run.0.world; cache = gopls_run.0.cache; error = none }, gopls_run.1)
execute_tool_node_again_example =
    execute_tool_node_again in_order exact_installers gopls tt sample_cache 0 exact_settles
      gopls_runs

execute_tool_node_lem_example :
    IsNodeRun exact_installers.tools tool_map_accessor tool_map_accessor-IsAccessor Kind.tool "tool"
      in_order
      (λ t. t.metadata.name)
      tool_comparator
      "gopls"
      tt
      sample_cache
      0
      (tool_effect in_order exact_installers gopls tt (some gopls_state))
      gopls_run
execute_tool_node_lem_example =
    execute_tool_node_lem in_order exact_installers gopls tt sample_cache 0
