-- ===== src/Graph/WellFormed.antt =====
-- The invariant of a dependency graph: its three maps agree.
use tomei.Base.{◌≤◌, String, ◌≡◌, some, length, lookup, get_or, keys, count, IsIn, pos}
use tomei.Graph.Dag.{Node, Dag, deps_of}

pub record IsWellFormed (g : Dag) : Type 0 where
  -- Both ends of an edge are nodes.
  pub sources : (u v : String) → IsIn v (deps_of g u) → IsIn u (keys g.nodes)
  pub targets : (u v : String) → IsIn v (deps_of g u) → IsIn v (keys g.nodes)
  -- No key stands twice.
  pub unique_nodes : (x : String) → count x (keys g.nodes) ≤ 1
  pub unique_edges : (x : String) → count x (keys g.edges) ≤ 1
  pub unique_deps : (u x : String) → count x (deps_of g u) ≤ 1
  -- `inDegree` has the nodes as its keys, and holds the number of dependencies.
  pub degree_keys : (x : String) → count x (keys g.in_degree) ≡ count x (keys g.nodes)
  pub degrees : (x : String) → get_or (pos 0) x g.in_degree ≡ pos (length (deps_of g x))
  -- A node stands under its own identifier.
  pub ids : (x : String) (n : Node) → lookup x g.nodes ≡ some n → n.id ≡ x
