-- ===== src/Samples/Layer.antt =====
-- A layer of four tools: two downloads and two of the runtime go, and one run of its workers.
use tomei.Base.{
  ◌≤◌, ◌≡◌, refl, ap, subst, Bool, true, false, not, ◌&&◌, String, none, some, List, [], ◌∷◌, Map,
  elem, keys, lookup, count, count_of_absent, in_order, pos, arith, eq_iff,
}
use tomei.Resource.Kind.{Kind, kind_name}
use tomei.Resource.Tool.{Tool, ToolState, tool_is_tainted}
use tomei.Resource.All.{Resource, tool}
use tomei.Reconcile.Actions.{last_named}
use tomei.Reconcile.Comparators.{tool_comparator, spec_version_changed}
use tomei.Resource.Version.{is_latest_version}
use tomei.Execute.Cache.{StateCache}
use tomei.State.User.{UserState}
use tomei.Engine.Handle.{Installers}
use tomei.Engine.Checks.{set_parallelism, delegation_key_for_tool, is_delegation, extract_tools}
use tomei.Engine.Removed.{tool_name}
use tomei.Engine.Executed.{ToolSettles}
use tomei.Schedule.Start.{node_key}
use tomei.Graph.Dag.{Node, node_id}
use tomei.Execute.Run.{Outcome, ok, failed}
use tomei.Engine.Node.{done}
use tomei.Schedule.Defs.{
  Worker, idle, busy, acquired, loaded, answered, Shared, System, acquire, load, install, Step,
  pick, here, next,
}
use tomei.Schedule.Delegation.{
  key_of_node, split_nodes, insert_key, sort_keys, partition_tools_by_delegation, start_workers,
  node_call,
}
use tomei.Schedule.Layer.{name_of_node, Runs}
use tomei.Schedule.Names.{texts}
use tomei.Samples.Data.{
  gopls, gopls_state, sample_installer, sample_installers, sample_resources, sample_state, metadata,
}

unique : List String → Bool
unique [] = true
unique (x ∷ xs) = not (elem x xs) && unique xs

unique-count : (xs : List String) (x : String) → unique xs ≡ true → count x xs ≤ 1
unfolding unique
unique-count [] x h = omega arith
unique-count (y ∷ ys) x h =
    ground (arith, unique-count ys x, count_of_absent y ys, eq_iff y x, ap (λ z. count z ys))

abbrev tool_of : String → String → Tool
tool_of name runtime = record gopls {
  metadata = metadata name;
  spec = record gopls.spec { runtime_ref = runtime };
}

abbrev pub node_of : String → Node
node_of name = record { id = node_id Kind.tool name; kind = Kind.tool; name = name }

abbrev entry_of : String → String → String × Resource
entry_of name runtime = (node_id Kind.tool name, tool (tool_of name runtime))

abbrev pub layer_resources : Map Resource
layer_resources =
    entry_of "jq" "" ∷ entry_of "yq" "" ∷ entry_of "gopls" "go" ∷ entry_of "staticcheck" "go" ∷ []

abbrev pub layer_nodes : List Node
layer_nodes = node_of "jq" ∷ node_of "gopls" ∷ node_of "yq" ∷ node_of "staticcheck" ∷ []

abbrev pub layer_partition : List Node × List (List Node)
layer_partition =
    (node_of "jq" ∷ node_of "yq" ∷ [], (node_of "gopls" ∷ node_of "staticcheck" ∷ []) ∷ [])

pub layer_partitioned :
    partition_tools_by_delegation in_order layer_resources layer_nodes ≡ done layer_partition
unfolding partition_tools_by_delegation split_nodes key_of_node delegation_key_for_tool
    is_delegation sort_keys insert_key node_id kind_name
layer_partitioned = refl

pub layer_distinct : (x : String) → count x (texts name_of_node layer_nodes) ≤ 1
unfolding unique
layer_distinct x = unique-count (texts name_of_node layer_nodes) x refl

abbrev pub layer_shared : Shared (Unit {0}) ToolState
layer_shared = record { entries = []; world = tt; errors = 0 }

-- Both downloads hold the semaphore, and the installer has answered for the second.
abbrev pub layer_now : System (Unit {0}) Node ToolState
layer_now = record {
  workers =
      busy (node_of "jq") acquired []
      ∷ busy (node_of "yq") (answered none (ok gopls_state)) []
      ∷ idle (node_of "gopls" ∷ node_of "staticcheck" ∷ [])
      ∷ [];
  shared = layer_shared;
}

abbrev jq_worker : Worker Node ToolState
jq_worker = idle (node_of "jq" ∷ [])

abbrev yq_worker : Worker Node ToolState
yq_worker = idle (node_of "yq" ∷ [])

abbrev go_worker : Worker Node ToolState
go_worker = idle (node_of "gopls" ∷ node_of "staticcheck" ∷ [])

abbrev LayerStep : System (Unit {0}) Node ToolState → System (Unit {0}) Node ToolState → Type 0
LayerStep = Step (set_parallelism (pos 5)) name_of_node (node_call sample_installer layer_resources)

abbrev layer_state : List (Worker Node ToolState) → System (Unit {0}) Node ToolState
layer_state ws = record { workers = ws; shared = layer_shared }

abbrev jq_busy : Worker Node ToolState
jq_busy = busy (node_of "jq") acquired []

step_1 :
    LayerStep
      (layer_state (jq_worker ∷ yq_worker ∷ go_worker ∷ []))
      (layer_state (jq_busy ∷ yq_worker ∷ go_worker ∷ []))
unfolding set_parallelism
step_1 =
    pick [] (yq_worker ∷ go_worker ∷ []) jq_worker jq_busy refl refl
      (acquire (node_of "jq") [] (omega arith) refl refl refl)

abbrev yq_busy : Worker Node ToolState
yq_busy = busy (node_of "yq") acquired []

step_2 :
    LayerStep
      (layer_state (jq_busy ∷ yq_worker ∷ go_worker ∷ []))
      (layer_state (jq_busy ∷ yq_busy ∷ go_worker ∷ []))
unfolding set_parallelism
step_2 =
    pick (jq_busy ∷ []) (go_worker ∷ []) yq_worker yq_busy refl refl
      (acquire (node_of "yq") [] (omega arith) refl refl refl)

abbrev yq_loaded : Worker Node ToolState
yq_loaded = busy (node_of "yq") (loaded none) []

step_3 :
    LayerStep
      (layer_state (jq_busy ∷ yq_busy ∷ go_worker ∷ []))
      (layer_state (jq_busy ∷ yq_loaded ∷ go_worker ∷ []))
step_3 =
    pick (jq_busy ∷ []) (go_worker ∷ []) yq_busy yq_loaded refl refl
      (load (node_of "yq") [] refl refl refl)

step_4 : LayerStep (layer_state (jq_busy ∷ yq_loaded ∷ go_worker ∷ [])) layer_now
unfolding node_call node_id kind_name
step_4 =
    pick (jq_busy ∷ []) (go_worker ∷ []) yq_loaded
      (busy (node_of "yq") (answered none (ok gopls_state)) []) refl refl
      (install (node_of "yq") [] none (λ w. (w, ok gopls_state)) refl refl refl refl)

pub layer_run :
    Runs in_order sample_installer layer_resources layer_nodes layer_partition
      (pos 5)
      layer_shared
      layer_now
unfolding start_workers
layer_run = next (next (next (next here step_1) step_2) step_3) step_4

pub downloads_alike :
    node_key layer_resources (node_of "jq") ≡ node_key layer_resources (node_of "yq")
unfolding node_key key_of_node delegation_key_for_tool is_delegation node_id kind_name
downloads_alike = refl

-- A resource map of gopls alone.
abbrev pub go_resources : Map Resource
go_resources = (node_id Kind.tool "gopls", tool gopls) ∷ []

pub go_found : lookup (node_id Kind.tool "gopls") go_resources ≡ some (tool gopls)
unfolding node_id kind_name
go_found = refl

pub staticcheck_gone : last_named tool_name "staticcheck" (extract_tools sample_resources) ≡ none
unfolding extract_tools
staticcheck_gone = refl

-- A state whose one tool has a resource.
abbrev pub gopls_cache : StateCache
gopls_cache =
    let st : UserState = record sample_state { tools = ("gopls", gopls_state) ∷ [] } in
    record { saved = st; cache = st; dirty = false }

pub gopls_unique : (x : String) → count x (keys gopls_cache.cache.tools) ≤ 1
unfolding unique
gopls_unique x = unique-count ("gopls" ∷ []) x refl

pub gopls_covered :
    (n : String)
    → last_named tool_name n (extract_tools sample_resources) ≡ none
    → lookup n gopls_cache.cache.tools ≡ none
unfolding extract_tools
gopls_covered n h = ground (arith, h)

-- An installer that records what the resource of gopls asks for.
abbrev pub exact_state : ToolState
exact_state = record gopls_state {
  version = "v0.16.0";
  version_kind = "exact";
  spec_version = "v0.16.0";
}

abbrev pub exact_installers : Installers (Unit {0})
exact_installers = record sample_installers {
  tools = record sample_installer { install = λ type path res name w. (w, ok exact_state) };
}

ok_or : ToolState → Outcome ToolState → ToolState
ok_or d (ok s) = s
ok_or d (failed e) = d

pub exact_settles : ToolSettles in_order exact_installers gopls
unfolding ok_or tool_comparator is_latest_version spec_version_changed tool_is_tainted
exact_settles type old w s h =
    subst (λ (v : ToolState). (tool_comparator gopls v).0 ≡ false) (ap (ok_or exact_state) h) refl
