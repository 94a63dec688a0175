-- ===== src/Engine/Node.antt =====
-- The execution of one node of the graph (executeNode and the three functions that it calls,
-- internal/installer/engine/engine.go). Events are left out. The executors and stores are the ones that
-- NewEngine makes, so their nil checks are left out too; `load` of a cached store never fails.
use Prim.Native.String.{◌++◌ as concat}
use tomei.Base.{
  ℕ, suc, String, not, Option, none, some, List, [], ◌∷◌, Map, Set, put, lookup, RangeOrder, ◌==◌,
  if◌then◌else◌,
}
use tomei.Resource.Kind.{Kind}
use tomei.Resource.Version.{ActionType}
use tomei.Resource.Tool.{Tool}
use tomei.Resource.Other.{Runtime, RuntimeState, InstallerRepository}
use tomei.Resource.All.{Resource, tool, runtime, installer_repository}
use tomei.Graph.Dag.{Node, node_id}
use tomei.Reconcile.Core.{Action, Comparator, reconcile}
use tomei.Reconcile.Comparators.{
  tool_comparator, runtime_comparator, installer_repository_comparator,
}
use tomei.Reconcile.Single.{single_state}
use tomei.Execute.Cache.{
  StateCache, StateStore, cached_store, tool_map_accessor, runtime_map_accessor, repo_map_accessor,
}
use tomei.Execute.Run.{Installer, Executed, action_name, execute}
use tomei.Engine.Handle.{Installers}

-- A run of code that may dereference a nil pointer or fail a type assertion.
pub data Run (A : Type 0) : Type 0 where
  done : A → Run A
  panicked : Run A

-- The runtimes that were upgraded (`updatedRuntimes`) and the count of actions, after a node.
pub record NodeRun (W : Type 0) : Type 0 where
  pub ran : Executed W
  pub total : ℕ
  pub updated : Set

module _ {W R S : Type 0} (inst : Installer W R S) (store : StateStore S) (kind : Kind)
    (label : String) where
  -- The result of `Execute`, with the error wrapped, and the count.
  unfoldable pub count_action : Action R S → Executed W → ℕ → Executed W × ℕ
  unfolding action_name
  count_action action x total = elim x.error [
    | none ↦ (x, suc total)
    | some e ↦ (
      record x {
        error = some (
            concat "failed to execute action " (
              concat (action_name action.type)
                (concat " for " (concat label (concat " " (concat action.name (concat ": " e)))))));
      },
      total,
    )
  ]

  -- The first action of a reconciliation is executed, unless it is `none`.
  unfoldable pub run_first : List (Action R S) → W → StateCache → ℕ → Executed W × ℕ
  unfolding execute count_action
  run_first [] w c total = (record { world = w; cache = c; error = none }, total)
  run_first (action ∷ _) w c total = elim action.type [
    | ActionType.none ↦ (record { world = w; cache = c; error = none }, total)
    | _ ↦ count_action action (execute inst store kind action w c) total
  ]

-- The actions of a node: its resource against its own entry alone.
unfoldable pub node_actions :
    (r : RangeOrder) {R S : Type 0}
    → (R → String)
    → Comparator R S
    → StateStore S
    → R
    → StateCache
    → List (Action R S)
unfolding reconcile single_state
node_actions r name_of compare store res c =
    reconcile r name_of compare (res ∷ []) (single_state (name_of res) (store.load (name_of res) c))

abbrev version_of : Option RuntimeState → String
version_of none = ""
version_of (some s) = s.version

-- `updatedRuntimes[action.Name] = true` after an upgrade that changed the version.
unfoldable pub track_upgrade : Action Runtime RuntimeState → Option RuntimeState → Set → Set
track_upgrade action none updated = updated
track_upgrade action (some rs) updated = elim action.type [
  | ActionType.upgrade ↦
      if not (rs.version == version_of action.state) then put action.name tt updated else updated
  | _ ↦ updated
]

-- The set after a runtime's actions; `after` is the entry that is loaded after them.
unfoldable pub track_first :
    List (Action Runtime RuntimeState) → Option String → Option RuntimeState → Set → Set
unfolding track_upgrade
track_first [] error after updated = updated
track_first (action ∷ _) none after updated = track_upgrade action after updated
track_first (action ∷ _) (some e) after updated = updated

module _ {W : Type 0} (r : RangeOrder) (ins : Installers W) where
  unfoldable pub execute_tool_node : Tool → W → StateCache → ℕ → Executed W × ℕ
  unfolding run_first node_actions cached_store
  execute_tool_node t w c total =
      run_first ins.tools (cached_store tool_map_accessor) Kind.tool "tool"
        (node_actions r (λ t. t.metadata.name) tool_comparator (cached_store tool_map_accessor) t c)
        w c total

  unfoldable pub execute_installer_repository_node :
      InstallerRepository → W → StateCache → ℕ → Executed W × ℕ
  unfolding run_first node_actions cached_store
  execute_installer_repository_node repo w c total =
      run_first ins.repositories (cached_store repo_map_accessor) Kind.installer_repository
        "installer repository"
        (node_actions r (λ t. t.metadata.name) installer_repository_comparator
          (cached_store repo_map_accessor) repo c)
        w c total

  unfoldable pub execute_runtime_node : Runtime → W → StateCache → ℕ → Set → NodeRun W
  unfolding run_first node_actions cached_store track_first
  execute_runtime_node rt w c total updated =
      let store = cached_store runtime_map_accessor in
      let actions = node_actions r (λ t. t.metadata.name) runtime_comparator store rt c in
      let (x, total') = run_first ins.runtimes store Kind.runtime "runtime" actions w c total in
      record {
        ran = x;
        total = total';
        updated = track_first actions x.error (store.load rt.metadata.name x.cache) updated;
      }

  abbrev unchanged : W → StateCache → ℕ → Set → NodeRun W
  unchanged w c total updated = record {
    ran = record { world = w; cache = c; error = none };
    total = total;
    updated = updated;
  }

  abbrev keeps_updated : Set → Executed W × ℕ → NodeRun W
  keeps_updated updated (x, total) = record { ran = x; total = total; updated = updated }

  -- The switch on the kind of the node, with its type assertions.
  unfoldable pub execute_resource : Kind → Resource → W → StateCache → ℕ → Set → Run (NodeRun W)
  unfolding execute_runtime_node execute_installer_repository_node execute_tool_node
  execute_resource Kind.runtime (runtime rt) w c total updated =
      done (execute_runtime_node rt w c total updated)
  execute_resource Kind.runtime _ w c total updated = panicked
  execute_resource Kind.installer_repository (installer_repository repo) w c total updated =
      done (keeps_updated updated (execute_installer_repository_node repo w c total))
  execute_resource Kind.installer_repository _ w c total updated = panicked
  execute_resource Kind.tool (tool t) w c total updated =
      done (keeps_updated updated (execute_tool_node t w c total))
  execute_resource Kind.tool _ w c total updated = panicked
  execute_resource _ _ w c total updated = done (unchanged w c total updated)

  -- `executeNode`: a node that is not among the resources is skipped.
  unfoldable pub execute_node : Map Resource → Node → W → StateCache → ℕ → Set → Run (NodeRun W)
  unfolding execute_resource node_id
  execute_node resource_map node w c total updated =
      elim (lookup (node_id node.kind node.name) resource_map) [
        | none ↦ done (unchanged w c total updated)
        | some res ↦ execute_resource node.kind res w c total updated
      ]
