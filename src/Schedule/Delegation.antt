-- ===== src/Schedule/Delegation.antt =====
-- The tool nodes of a layer, split for concurrent execution (partitionToolsByDelegation and
-- executeToolNodesWithDelegationSerialization of internal/installer/engine/engine.go).
-- `slices.Sorted` is modelled by an insertion sort.
use Prim.Native.String.{compare as compare_text}
use text.Mathlib.Text.{is_lt}
use tomei.Base.{
  String, Option, none, some, List, [], ◌∷◌, ◌++◌, Map, lookup, get_or, put, keys, RangeOrder,
  if◌then◌else◌,
}
use tomei.Resource.Kind.{Kind}
use tomei.Resource.Version.{ActionType}
use tomei.Resource.Tool.{Tool, ToolState, is_empty}
use tomei.Resource.All.{Resource, tool}
use tomei.Graph.Dag.{Node, node_id}
use tomei.Reconcile.Comparators.{tool_comparator}
use tomei.Execute.Run.{Installer, Outcome}
use tomei.Engine.Checks.{delegation_key_for_tool}
use tomei.Engine.Node.{Run, done, panicked}
use tomei.Schedule.Defs.{Worker, idle}

-- The key of a node of kind tool, with the type assertion on its resource.
abbrev tool_key : Map Resource → Option Resource → Run String
tool_key resource_map none = done ""
tool_key resource_map (some (tool t)) = done (delegation_key_for_tool t resource_map)
tool_key resource_map (some _) = panicked

-- The key by which the loop of `partitionToolsByDelegation` sorts a node; `""` for a download.
unfoldable pub key_of_node : Map Resource → Node → Run String
unfolding node_id delegation_key_for_tool
key_of_node resource_map node = elim node.kind [
  | Kind.tool ↦ tool_key resource_map (lookup (node_id node.kind node.name) resource_map)
  | _ ↦ done ""
]

abbrev pub add_to_group : String → Node → List Node × Map (List Node) → List Node × Map (List Node)
add_to_group key node (downloads, groups) =
    if is_empty key
    then (downloads ++ node ∷ [], groups)
    else (downloads, put key (get_or [] key groups ++ node ∷ []) groups)

-- The loop of `partitionToolsByDelegation`.
unfoldable pub split_nodes :
    Map Resource → List Node → List Node × Map (List Node) → Run (List Node × Map (List Node))
unfolding key_of_node
split_nodes resource_map [] acc = done acc
split_nodes resource_map (node ∷ nodes) acc = elim (key_of_node resource_map node) [
  | panicked ↦ panicked
  | done key ↦ split_nodes resource_map nodes (add_to_group key node acc)
]

unfoldable pub insert_key : String → List String → List String
insert_key k [] = k ∷ []
insert_key k (j ∷ js) =
    let rest = insert_key k js in if is_lt (compare_text j k) then j ∷ rest else k ∷ j ∷ js

unfoldable pub sort_keys : List String → List String
unfolding insert_key
sort_keys [] = []
sort_keys (k ∷ ks) = insert_key k (sort_keys ks)

abbrev pub groups_of : Map (List Node) → List String → List (List Node)
groups_of groups [] = []
groups_of groups (k ∷ ks) = get_or [] k groups ∷ groups_of groups ks

-- `partitionToolsByDelegation`: the download nodes and the groups.
unfoldable pub partition_tools_by_delegation :
    RangeOrder → Map Resource → List Node → Run (List Node × List (List Node))
unfolding split_nodes sort_keys
partition_tools_by_delegation r resource_map nodes =
    elim (split_nodes resource_map nodes ([], [])) [
      | panicked ↦ panicked
      | done acc ↦ done (acc.0, groups_of acc.1 (sort_keys (keys (r.range (List Node) acc.1))))
    ]

-- A goroutine for each download node and for each group.
abbrev pub single_workers : List Node → List (Worker Node ToolState) → List (Worker Node ToolState)
single_workers [] ws = ws
single_workers (n ∷ ns) ws = idle (n ∷ []) ∷ single_workers ns ws

abbrev pub group_workers : List (List Node) → List (Worker Node ToolState)
group_workers [] = []
group_workers (g ∷ gs) = idle g ∷ group_workers gs

unfoldable pub start_workers : List Node × List (List Node) → List (Worker Node ToolState)
start_workers (downloads, groups) = single_workers downloads (group_workers groups)

module _ {W : Type 0} (inst : Installer W Tool ToolState) where
  -- What a node calls of the installer, given its resource and its entry: nothing where the comparator
  -- is content with the entry.
  abbrev pub tool_call : Tool → Option ToolState → Option (W → W × Outcome ToolState)
  tool_call t none = some (inst.install ActionType.install "" (some t) t.metadata.name)
  tool_call t (some s) =
      if (tool_comparator t s).0
      then some
          (inst.install ActionType.upgrade (inst.get_bin_path (some s)) (some t) t.metadata.name)
      else none

  abbrev resource_call : Option Resource → Option ToolState → Option (W → W × Outcome ToolState)
  resource_call (some (tool t)) s = tool_call t s
  resource_call _ s = none

  unfoldable pub node_call :
      Map Resource → Node → Option ToolState → Option (W → W × Outcome ToolState)
  unfolding node_id tool_comparator
  node_call resource_map node s = elim node.kind [
    | Kind.tool ↦ resource_call (lookup (node_id node.kind node.name) resource_map) s
    | _ ↦ none
  ]
