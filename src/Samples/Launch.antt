-- ===== src/Samples/Launch.antt =====
-- The theorem on the launching loops of a layer, applied to a run of its four nodes.
use tomei.Base.{◌+◌, ◌≤◌, ◌≡◌, refl, none, List, [], ◌∷◌, pos, arith}
use tomei.Resource.Tool.{ToolState}
use tomei.Graph.Dag.{Node}
use tomei.Engine.Checks.{set_parallelism}
use tomei.Schedule.Defs.{acquired, loaded, Reach}
use tomei.Schedule.Delegation.{node_call}
use tomei.Schedule.Layer.{begin, name_of_node}
use tomei.Schedule.Launch.{
  waits, runs, Launching, load, Launch, start_download, start_group, move, Launches, started,
  further, launching, IsWaited,
}
use tomei.Schedule.Permits.{node_steps, group_steps}
use tomei.Schedule.Launched.{as_system, taken}
use tomei.Schedule.Loops.{layer-Launches}
use tomei.Samples.Data.{sample_installer}
use tomei.Samples.Layer.{node_of, layer_resources, layer_partition, layer_shared}

abbrev State : Type 0
State = Launching (Unit {0}) Node ToolState

abbrev start : State
start = launching layer_partition layer_shared

abbrev go_group : List Node
go_group = node_of "gopls" ∷ node_of "staticcheck" ∷ []

abbrev jq_started : State
jq_started = record start {
  downloads = node_of "yq" ∷ [];
  held = 1;
  goroutines = runs (node_of "jq") acquired [] ∷ [];
}

abbrev jq_loaded : State
jq_loaded = record jq_started { goroutines = runs (node_of "jq") (loaded none) [] ∷ [] }

abbrev yq_started : State
yq_started = record jq_loaded {
  downloads = [];
  held = 2;
  goroutines = runs (node_of "jq") (loaded none) [] ∷ runs (node_of "yq") acquired [] ∷ [];
}

abbrev go_started : State
go_started = record yq_started {
  groups = [];
  goroutines =
      runs (node_of "jq") (loaded none) [] ∷ runs (node_of "yq") acquired [] ∷ waits go_group ∷ [];
}

abbrev StepOf : State → State → Type 0
StepOf = Launch (set_parallelism (pos 2)) name_of_node (node_call sample_installer layer_resources)

start_jq : StepOf start jq_started
unfolding set_parallelism
start_jq = start_download (node_of "jq") (node_of "yq" ∷ []) (omega arith) refl refl

load_jq : StepOf jq_started jq_loaded
load_jq =
    move [] [] (runs (node_of "jq") acquired []) (runs (node_of "jq") (loaded none) []) 1
      layer_shared refl (load (node_of "jq") [] refl refl refl refl) refl

start_yq : StepOf jq_loaded yq_started
unfolding set_parallelism
start_yq = start_download (node_of "yq") [] (omega arith) refl refl

start_go : StepOf yq_started go_started
start_go = start_group go_group [] refl refl refl

abbrev RunOf : State → State → Type 0
RunOf = Launches (set_parallelism (pos 2)) name_of_node (node_call sample_installer layer_resources)

abbrev launch_run : RunOf start go_started
launch_run = further (further (further (further started start_jq) load_jq) start_yq) start_go

layer-Launches_example :
    Reach
      (set_parallelism (pos 2))
      name_of_node
      (node_call sample_installer layer_resources)
      (begin layer_partition layer_shared)
      (as_system go_started)
    × (go_started.held ≤ set_parallelism (pos 2))
    × (taken
          (set_parallelism (pos 2))
          name_of_node
          (node_call sample_installer layer_resources)
          launch_run
        ≤ node_steps layer_partition.0 + group_steps layer_partition.1)
    × ((u : State) × RunOf go_started u × IsWaited u × (u.held ≡ 0))
layer-Launches_example =
    layer-Launches sample_installer layer_resources (pos 2) layer_partition layer_shared go_started
      launch_run
