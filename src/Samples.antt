-- ===== src/Samples.antt =====
-- Concrete runs of the model, and the theorems applied to them.
mod Data
mod Layer
mod Runs
mod Sets
mod Refs
mod Plans
mod Disk
mod Installs
mod Runtimes
mod Archives
mod Launch
use tomei.Base.{
  ℕ, ◌≤◌, ◌+◌, String, ◌≡◌, refl, ◌⊎◌, true, false, ◌||◌, none, some, List, [], ◌∷◌, lookup, get_or,
  has, keys, count, in_order, if◌then◌else◌, arith, eq_iff,
}
use mathlib.Core.Option
use tomei.Resource.Kind.{Kind}
use tomei.Resource.Version.{ActionType, is_latest_version}
use tomei.Resource.Tool.{
  Metadata, Tool, ToolState, DownloadSource, ToolCommandSet, taint_tool, tool_is_tainted,
}
use tomei.Resource.Other.{Runtime, RuntimeState, runtime_is_tainted}
use tomei.Resource.All.{Resource, tool, runtime}
use tomei.Graph.Dag.{Node, Dag, new_dag, deps_of}
use tomei.Graph.Dfs.{Search, detect_cycle, found, clear}
use tomei.Graph.Kahn.{layers, cycle_error, topological_sort}
use tomei.Graph.Resolver.{add_resources}
use tomei.Graph.WellFormed.{IsWellFormed}
use tomei.Graph.Walk.{IsCycle}
use tomei.Graph.Detect.{detect_cycle_decides}
use tomei.Graph.Topological.{IsSchedule, topological_sort_lem}
use tomei.Graph.Build.{mentions, declares, add_resources_lem}
use tomei.Reconcile.Core.{
  Action, reconcile, spec_actions, spec_resources, spec_action, removal_actions,
}
use tomei.Reconcile.Comparators.{tool_comparator, runtime_comparator, spec_version_changed}
use tomei.Reconcile.Actions.{for_name, expected, last_named, reconcile_lem}
use tomei.State.User.{UserState}
use tomei.State.Diff.{diff_user_states, diff_map, diff_entry, compare_tools}
use tomei.State.Entry.{change_of}
use tomei.State.Changes.{changes_of, diff_map_lem, diff_user_states_same}
use tomei.Execute.Cache.{StateCache, cached_store, tool_map_accessor}
use tomei.Execute.Run.{
  Installer, Outcome, ok, Executed, failed, execute, execute_removals, stop_or_go,
}
use tomei.Execute.Run as Run
use tomei.Execute.Keeps.{IsExecuted, effect, execute_lem, tool_map_accessor-IsAccessor, action_of}
use tomei.Execute.Removals.{removes, removals, execute_removals_keeps, execute_removals_done}
use tomei.Engine.Taint.{UpdateConfig, apply_update_taints, taint_dependent_tools}
use tomei.Engine.Tainted.{marked_tool, apply_update_taints_tools, tool_comparator_tainted}
use tomei.Engine.Dependents.{marked_dependent, taint_dependent_tools_lem}
use tomei.Engine.Handle.{
  Installers, handle_removals, handled, removal_names, execute_all_removals, on_success,
  update_tool_bin_paths,
}
use tomei.Engine.Checks.{
  extract_runtimes, extract_tools, extract_installer_repositories, build_resource_map,
}
use tomei.Engine.Removed.{IsState, IsPruned, tool_name}
use tomei.Engine.Phase.{handle_removals_lem}
use tomei.Engine.Needed.{needs_runtime, handle_removals_keeps_needed}
use tomei.Samples.Data.{
  metadata, go_runtime, gopls, sample_resources, sample_dag, sample_dag-IsWellFormed, gopls_state,
  go_state, sample_state, sample_cache, sample_tools_unique, empty_state, sample_installer,
  sample_removals, sample_upgrade, sample_run, sync_and_update, sample_installers,
  sample_state-IsState, sample_pruned, sample_handled, sample_needs,
}

topological_sort_lem_example :
    ((path : List String) × (topological_sort in_order sample_dag ≡ cycle_error path)
      × IsCycle (deps_of sample_dag) path)
    ⊎ ((ls : List (List Node)) × (topological_sort in_order sample_dag ≡ layers ls)
        × IsSchedule in_order sample_dag sample_dag-IsWellFormed ls)
topological_sort_lem_example = topological_sort_lem in_order sample_dag sample_dag-IsWellFormed

detect_cycle_decides_example :
    ((path : List String) × (detect_cycle in_order sample_dag ≡ found path)
      × IsCycle (deps_of sample_dag) path)
    ⊎ ((s : Search) × (detect_cycle in_order sample_dag ≡ clear s)
        × ((path : List String) → ¬ IsCycle (deps_of sample_dag) path))
detect_cycle_decides_example = detect_cycle_decides in_order sample_dag sample_dag-IsWellFormed

add_resources_lem_example :
    (g : Dag) × (add_resources sample_resources new_dag ≡ some g)
    × IsWellFormed g
    × ((x : String) → has x g.nodes ≡ mentions sample_resources x)
    × ((u v : String) → has v (get_or [] u g.edges) ≡ declares sample_resources u v)
add_resources_lem_example = add_resources_lem sample_resources

reconcile_lem_example :
    for_name "staticcheck"
      (reconcile in_order tool_name tool_comparator (gopls ∷ []) sample_state.tools)
    ≡ expected tool_comparator "staticcheck"
        (last_named tool_name "staticcheck" (gopls ∷ []))
        (lookup "staticcheck" sample_state.tools)
reconcile_lem_example =
    reconcile_lem tool_comparator in_order tool_name (gopls ∷ []) sample_state.tools
      sample_tools_unique "staticcheck"

diff_map_lem_example :
    changes_of "gopls" (diff_map sample_state.tools [] "tool" (some compare_tools))
    ≡ change_of "tool"
        (some compare_tools)
        "gopls"
        (lookup "gopls" sample_state.tools)
        (lookup "gopls" empty_state.tools)
diff_map_lem_example = diff_map_lem "tool" (some compare_tools) sample_state.tools [] "gopls"

diff_user_states_same_example : diff_user_states sample_state sample_state ≡ []
diff_user_states_same_example = diff_user_states_same sample_state

execute_lem_example :
    IsExecuted sample_installer tool_map_accessor tool_map_accessor-IsAccessor Kind.tool "gopls"
      sample_cache
      (effect sample_installer tool_map_accessor tool_map_accessor-IsAccessor Kind.tool
        sample_upgrade tt)
      (execute sample_installer
        (cached_store tool_map_accessor)
        Kind.tool
        sample_upgrade
        tt
        sample_cache)
execute_lem_example =
    execute_lem sample_installer tool_map_accessor tool_map_accessor-IsAccessor Kind.tool
      sample_upgrade tt sample_cache

execute_removals_keeps_example :
    tool_map_accessor.get
      (execute_removals sample_installer
        (cached_store tool_map_accessor)
        Kind.tool
        sample_removals
        tt
        sample_cache
        0).0.cache.cache
      "gopls"
    ≡ tool_map_accessor.get sample_cache.cache "gopls"
execute_removals_keeps_example =
    execute_removals_keeps sample_installer tool_map_accessor tool_map_accessor-IsAccessor Kind.tool
      sample_removals tt sample_cache 0 "gopls" refl

execute_removals_done_example :
    ((j : String)
      → tool_map_accessor.get
          (execute_removals sample_installer
            (cached_store tool_map_accessor)
            Kind.tool
            sample_removals
            tt
            sample_cache
            0).0.cache.cache
          j
        ≡ (if removes j sample_removals then none else tool_map_accessor.get sample_cache.cache j))
    × ((execute_removals sample_installer
          (cached_store tool_map_accessor)
          Kind.tool
          sample_removals
          tt
          sample_cache
          0).1
        ≡ 0 + removals sample_removals)
execute_removals_done_example =
    execute_removals_done sample_installer tool_map_accessor tool_map_accessor-IsAccessor Kind.tool
      sample_removals tt sample_cache 0 sample_run

apply_update_taints_tools_example :
    lookup "gopls" (apply_update_taints sync_and_update sample_state).tools
    ≡ Option.map (marked_tool sync_and_update) (lookup "gopls" sample_state.tools)
apply_update_taints_tools_example = apply_update_taints_tools sync_and_update sample_state "gopls"

taint_dependent_tools_lem_example :
    lookup "gopls" (taint_dependent_tools in_order (("go", tt) ∷ []) sample_cache).cache.tools
    ≡ Option.map
        (marked_dependent sample_state.runtimes (("go", tt) ∷ []))
        (lookup "gopls" sample_state.tools)
taint_dependent_tools_lem_example =
    taint_dependent_tools_lem in_order (("go", tt) ∷ []) sample_cache "gopls" sample_tools_unique

handle_removals_lem_example : IsPruned sample_resources sample_state sample_pruned.0.cache.cache
handle_removals_lem_example =
    handle_removals_lem in_order sample_installers sample_resources sample_cache
      sample_state-IsState tt 0 sample_pruned sample_handled refl

handle_removals_keeps_needed_example :
    lookup "go" sample_pruned.0.cache.cache.runtimes ≡ some go_state
handle_removals_keeps_needed_example =
    handle_removals_keeps_needed in_order sample_installers sample_resources sample_cache
      sample_state-IsState tt 0 sample_pruned "go" go_state sample_handled refl refl sample_needs
      refl
