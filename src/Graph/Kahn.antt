-- ===== src/Graph/Kahn.antt =====
-- Execution layers by Kahn's algorithm (internal/graph/dag.go, `topologicalSort`). `nil_node` is the
-- nil pointer that a queued identifier without a node would put into a layer.
use tomei.Base.{
  ℕ, zero, suc, String, Option, none, some, List, [], ◌∷◌, ◌++◌, length, Map, lookup, get_or, put,
  keys, Set, RangeOrder, ℤ, pos, pred_ℤ, is_zero, if◌then◌else◌,
}
use tomei.Graph.Dag.{Node, Dag}
use tomei.Graph.Dfs.{found, clear, out_of_fuel, detect_cycle}
use tomei.Graph.Sort.{sort_nodes_by_kind}

pub data Sorted : Type 0 where
  layers : List (List Node) → Sorted
  cycle_error : List String → Sorted
  nil_node : Sorted
  no_fuel : Sorted

-- `for dep := range deps { reverseEdges[dep] = append(reverseEdges[dep], from) }`
unfoldable pub add_reverse : String → List String → Map (List String) → Map (List String)
add_reverse from [] rev = rev
add_reverse from (dep ∷ deps) rev =
    add_reverse from deps (put dep (get_or [] dep rev ++ from ∷ []) rev)

unfoldable pub build_reverse : RangeOrder → Map Set → Map (List String) → Map (List String)
build_reverse r [] rev = rev
build_reverse r ((from, deps) ∷ edges) rev =
    build_reverse r edges (add_reverse from (keys (r.range (Unit {0}) deps)) rev)

-- The first queue: the identifiers of degree 0.
unfoldable pub zero_degree : Map ℤ → List String
zero_degree [] = []
zero_degree ((id, degree) ∷ rest) =
    if is_zero degree then id ∷ zero_degree rest else zero_degree rest

-- The loop over the dependents of one finished node: the degrees and the next queue.
unfoldable pub release : List String → Map ℤ → List String → Map ℤ × List String
release [] degrees next = (degrees, next)
release (dependent ∷ rest) degrees next =
    let degree = pred_ℤ (get_or (pos 0) dependent degrees) in
    release rest (put dependent degree degrees)
      (if is_zero degree then next ++ dependent ∷ [] else next)

-- One round: the loop over the queue, with the nodes of the layer so far.
unfoldable pub run_queue :
    Map Node
    → Map (List String)
    → List String
    → Map ℤ
    → List String
    → List Node
    → Option (List Node × Map ℤ × List String)
run_queue nodes rev [] degrees next layer = some (layer, degrees, next)
run_queue nodes rev (id ∷ queue) degrees next layer = elim (lookup id nodes) [
  | none ↦ none
  | some node ↦
      run_queue nodes rev queue (release (get_or [] id rev) degrees next).0
        (release (get_or [] id rev) degrees next).1 (layer ++ node ∷ [])
]

-- `for len(queue) > 0 { … }`
unfoldable pub run_layers :
    ℕ → Map Node → Map (List String) → List String → Map ℤ → List (List Node) → Sorted
run_layers fuel nodes rev [] degrees done = layers done
run_layers zero nodes rev (id ∷ queue) degrees done = no_fuel
run_layers (suc fuel) nodes rev (id ∷ queue) degrees done =
    elim (run_queue nodes rev (id ∷ queue) degrees [] []) [
      | none ↦ nil_node
      | some (layer, degrees', next) ↦
          run_layers fuel nodes rev next degrees' (done ++ sort_nodes_by_kind layer ∷ [])
    ]

unfoldable pub topological_sort : RangeOrder → Dag → Sorted
topological_sort r g = elim (detect_cycle r g) [
  | found path ↦ cycle_error path
  | out_of_fuel ↦ no_fuel
  | clear s ↦
      run_layers (length g.nodes) g.nodes (build_reverse r (r.range _ g.edges) [])
        (zero_degree (r.range _ g.in_degree)) g.in_degree []
]
