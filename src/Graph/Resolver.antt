-- ===== src/Graph/Resolver.antt =====
-- The resolver (internal/graph/resolver.go): resources become nodes, their dependencies edges.
-- `none` is a panic of `addEdge`.
use tomei.Base.{Option, none, some, List, [], ◌∷◌}
use tomei.Resource.Kind.{Ref}
use tomei.Resource.All.{Resource, kind_of, name_of, dependencies}
use tomei.Graph.Dag.{Node, Dag, add_node, add_edge}

-- The loop over the dependencies of one resource.
unfoldable pub add_dependencies : Node → List Ref → Dag → Option Dag
add_dependencies from [] g = some g
add_dependencies from (dep ∷ deps) g =
    elim (add_edge from (add_node dep.kind dep.name g).0 (add_node dep.kind dep.name g).1) [
      | none ↦ none
      | some g' ↦ add_dependencies from deps g'
    ]

unfoldable pub add_resource : Resource → Dag → Option Dag
add_resource res g =
    add_dependencies (add_node (kind_of res) (name_of res) g).0 (dependencies res)
      (add_node (kind_of res) (name_of res) g).1

-- `for _, res := range resources { resolver.AddResource(res) }`
unfoldable pub add_resources : List Resource → Dag → Option Dag
add_resources [] g = some g
add_resources (res ∷ rest) g = elim (add_resource res g) [
  | none ↦ none
  | some g' ↦ add_resources rest g'
]
