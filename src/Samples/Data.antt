-- ===== src/Samples/Data.antt =====
-- The resources, states and installers of the concrete runs.
use tomei.Base.{
  ℕ, ◌≤◌, String, ◌≡◌, refl, true, false, none, some, List, [], ◌∷◌, keys, count, in_order, arith,
  eq_iff,
}
use tomei.Resource.Kind.{Kind}
use tomei.Resource.Version.{ActionType, is_latest_version}
use tomei.Resource.Tool.{Metadata, Tool, ToolState, tool_is_tainted}
use tomei.Resource.Other.{Runtime, RuntimeState, runtime_is_tainted}
use tomei.Resource.All.{Resource, tool, runtime}
use tomei.Graph.Dag.{Dag}
use tomei.Graph.WellFormed.{IsWellFormed}
use tomei.Graph.Build.{add_resources_lem}
use tomei.Reconcile.Core.{
  Action, reconcile, spec_actions, spec_resources, spec_action, removal_actions,
}
use tomei.Reconcile.Comparators.{tool_comparator, runtime_comparator, spec_version_changed}
use tomei.State.User.{UserState}
use tomei.Execute.Cache.{StateCache, cached_store, tool_map_accessor}
use tomei.Execute.Run.{
  Installer, Outcome, ok, Executed, failed, execute, execute_removals, stop_or_go,
}
use tomei.Execute.Run as Run
use tomei.Execute.Keeps.{action_of}
use tomei.Engine.Taint.{UpdateConfig}
use tomei.Engine.Handle.{
  Installers, handle_removals, handled, removal_names, execute_all_removals, on_success,
  update_tool_bin_paths,
}
use tomei.Engine.Checks.{
  extract_runtimes, extract_tools, extract_installer_repositories, build_resource_map,
}
use tomei.Engine.Removed.{IsState}
use tomei.Engine.Needed.{needs_runtime}

abbrev pub metadata : String → Metadata
metadata name = record { name = name; description = ""; labels = [] }

abbrev pub go_runtime : Runtime
go_runtime = record {
  metadata = metadata "go";
  spec = record {
    install_type = "download";
    version = "1.25.0";
    source = none;
    bootstrap = none;
    binaries = "go" ∷ [];
    bin_dir = "";
    tool_bin_path = "~/go/bin";
    commands = none;
    env = [];
    taint_on_upgrade = true;
    resolve_version = [];
  };
}

abbrev pub gopls : Tool
gopls = record {
  metadata = metadata "gopls";
  spec = record {
    installer_ref = "";
    repository_ref = "";
    version = "v0.16.0";
    enabled = none;
    source = none;
    package_id = none;
    runtime_ref = "go";
    commands = none;
    binary_name = "";
    args = [];
  };
}

abbrev pub sample_resources : List Resource
sample_resources = tool gopls ∷ runtime go_runtime ∷ []

abbrev pub sample_dag : Dag
sample_dag = (add_resources_lem sample_resources).0

pub sample_dag-IsWellFormed : IsWellFormed sample_dag
sample_dag-IsWellFormed = (add_resources_lem sample_resources).2

abbrev pub gopls_state : ToolState
gopls_state = record {
  installer_ref = "";
  repository_ref = "";
  version = "v0.15.0";
  digest = "";
  install_path = "";
  bin_path = "/home/u/go/bin/gopls";
  source = none;
  package_id = none;
  runtime_ref = "go";
  version_kind = "latest";
  spec_version = "";
  commands = none;
  binary_name = "";
  taint_reason = "";
  updated_at = 1;
}

abbrev pub go_state : RuntimeState
go_state = record {
  install_type = "download";
  version = "1.25.0";
  version_kind = "exact";
  spec_version = "1.25.0";
  digest = "";
  install_path = "/home/u/runtimes/go";
  binaries = "go" ∷ [];
  bin_dir = "";
  tool_bin_path = "";
  commands = none;
  env = [];
  remove_command = [];
  taint_on_upgrade = true;
  taint_reason = "";
  updated_at = 1;
}

-- The runtime go and the tools gopls and staticcheck are installed.
abbrev pub sample_state : UserState
sample_state = record {
  version = "1";
  registry = none;
  installers = [];
  installer_repositories = [];
  runtimes = ("go", go_state) ∷ [];
  tools = ("gopls", gopls_state) ∷ ("staticcheck", gopls_state) ∷ [];
}

abbrev pub sample_cache : StateCache
sample_cache = record { saved = sample_state; cache = sample_state; dirty = false }

pub sample_tools_unique : (x : String) → count x (keys sample_state.tools) ≤ 1
sample_tools_unique x = ground (arith, eq_iff "gopls" x, eq_iff "staticcheck" x, distinct)
  where
    distinct : ◌≡◌ {A = String} "gopls" "staticcheck" → ⊥
    distinct e = ground (arith, (eq_iff "gopls" "staticcheck").1 e)

abbrev pub empty_state : UserState
empty_state = record {
  version = "1";
  registry = none;
  installers = [];
  installer_repositories = [];
  runtimes = [];
  tools = [];
}

-- An installer that always succeeds, on a world of one value.
abbrev pub sample_installer : Installer (Unit {0}) Tool ToolState
sample_installer = record {
  install = λ type path res name w. (w, ok gopls_state);
  remove = λ st name w. (w, none);
  get_bin_path = λ st. "";
}

abbrev pub sample_removals : List (Action Tool ToolState)
sample_removals =
    action_of ActionType.upgrade "gopls" (some gopls) (some gopls_state) ""
    ∷ action_of ActionType.remove "staticcheck" none (some gopls_state) ""
    ∷ []

abbrev pub sample_upgrade : Action Tool ToolState
sample_upgrade = action_of ActionType.upgrade "gopls" (some gopls) (some gopls_state) ""

pub sample_run :
    (execute_removals sample_installer
      (cached_store tool_map_accessor)
      Kind.tool
      sample_removals
      tt
      sample_cache
      0).0.error
    ≡ none
unfolding execute_removals execute Run.remove stop_or_go cached_store
sample_run = refl

abbrev pub sync_and_update : UpdateConfig
sync_and_update = record { sync_mode = true; update_tools = true; update_runtimes = false }

abbrev pub sample_installers : Installers (Unit {0})
sample_installers = record {
  tools = sample_installer;
  runtimes = record {
    install = λ type path res name w. (w, ok go_state);
    remove = λ st name w. (w, none);
    get_bin_path = λ st. "";
  };
  repositories = record {
    install = λ type path res name w. (w, failed "no repository");
    remove = λ st name w. (w, none);
    get_bin_path = λ st. "";
  };
  set_tool_bin_paths = λ paths w. w;
  dir = λ path. path;
}

pub sample_state-IsState : IsState sample_state
sample_state-IsState = record {
  tools = sample_tools_unique;
  repositories = λ x. omega arith;
  runtimes = λ x. ground (arith, eq_iff "go" x);
}

-- staticcheck has no resource and is removed.
abbrev pub sample_pruned : Executed (Unit {0}) × ℕ
sample_pruned = (
  record {
    world = tt;
    cache = record {
      saved = sample_state;
      cache = record sample_state { tools = ("gopls", gopls_state) ∷ [] };
      dirty = true;
    };
    error = none;
  },
  1,
)

pub sample_handled :
    handle_removals in_order sample_installers sample_resources tt sample_cache 0
    ≡ handled sample_pruned
unfolding handle_removals removal_names reconcile spec_actions spec_resources extract_runtimes
    spec_action runtime_comparator spec_version_changed runtime_is_tainted removal_actions
    extract_tools tool_comparator is_latest_version tool_is_tainted execute_all_removals
    execute_removals execute Run.remove stop_or_go cached_store tool_map_accessor on_success
    extract_installer_repositories update_tool_bin_paths build_resource_map
sample_handled = refl

pub sample_needs : needs_runtime "go" (extract_tools sample_resources) ≡ true
unfolding extract_tools
sample_needs = refl
