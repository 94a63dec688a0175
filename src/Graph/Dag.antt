-- ===== src/Graph/Dag.antt =====
-- The dependency graph (internal/graph/dag.go): node identifiers, nodes and edges. A
-- `map[NodeID]struct{}` is a map to `Unit`; `*Node` values are never nil here, since `add_node`
-- makes them; `none` of `add_edge` is its panic.
use Prim.Native.String.{◌++◌ as concat}
use tomei.Base.{
  String, not, Option, none, some, List, [], Map, lookup, get_or, put, keys, has, Set, ℤ, pos,
  suc_ℤ, if◌then◌else◌,
}
use tomei.Resource.Kind.{Kind, kind_name}

-- `fmt.Sprintf("%s/%s", kind, name)`
unfoldable pub node_id : Kind → String → String
unfolding kind_name
node_id kind name = concat (kind_name kind) (concat "/" name)

pub record Node : Type 0 where
  pub id : String
  pub kind : Kind
  pub name : String

pub record Dag : Type 0 where
  pub nodes : Map Node
  pub edges : Map Set
  pub in_degree : Map ℤ

abbrev pub new_dag : Dag
new_dag = record { nodes = []; edges = []; in_degree = [] }

-- The dependencies of a node: the keys of `g.edges[id]`, none where the map has no entry.
abbrev pub deps_of : Dag → String → List String
deps_of g id = keys (get_or [] id g.edges)

-- Returns the node and the graph with it; a node that exists is returned as it is.
unfoldable pub add_node : Kind → String → Dag → Node × Dag
add_node kind name g =
    let id = node_id kind name in
    let node : Node = record { id = id; kind = kind; name = name } in
    elim (lookup id g.nodes) [
      | some existing ↦ (existing, g)
      | none ↦
          (node, record g { nodes = put id node g.nodes; in_degree = put id (pos 0) g.in_degree })
    ]

-- `g.edges[from] = make(...)` where it is nil.
abbrev pub with_edge_set : String → Map Set → Map Set
with_edge_set from edges = if has from edges then edges else put from [] edges

unfoldable pub link : String → String → Dag → Dag
link from to g =
    let edges = with_edge_set from g.edges in
    let targets = get_or [] from edges in
    if has to targets then record g { edges = edges } else record g {
      edges = put from (put to tt targets) edges;
      in_degree = put from (suc_ℤ (get_or (pos 0) from g.in_degree)) g.in_degree;
    }

unfoldable pub add_edge : Node → Node → Dag → Option Dag
unfolding link
add_edge from to g =
    if not (has from.id g.nodes)
    then none
    else if not (has to.id g.nodes)
    then none
    else some (link from.id to.id g)
