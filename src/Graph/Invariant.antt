-- ===== src/Graph/Invariant.antt =====
-- Building the graph keeps its invariant, and never panics.
use tomei.Base.{
  String, ◌≡◌, refl, sym, ap, ◌∙◌, subst, ◌||◌, none, some, List, [], ◌∷◌, length, lookup, put, has,
  IsIn, pos, arith, ◌==◌, eq_iff, get_or-put, lookup-put, has-put, count-keys-put, String-cases,
  Option-cases, inl, inr, has-count, count_of_missing, ◌⊎◌, has-of_lookup, has-of_some,
}
use tomei.Resource.Kind.{Kind}
use tomei.Graph.Dag.{Node, Dag, new_dag, deps_of, node_id, add_node}
use tomei.Graph.WellFormed.{IsWellFormed}

pub new_dag-IsWellFormed : IsWellFormed new_dag
new_dag-IsWellFormed = record {
  sources = λ u v h. absurd (omega arith);
  targets = λ u v h. absurd (omega arith);
  unique_nodes = λ x. omega arith;
  unique_edges = λ x. omega arith;
  unique_deps = λ u x. omega arith;
  degree_keys = λ x. refl;
  degrees = λ x. refl;
  ids = λ x n h. absurd (ground arith);
}

module _ (kind : Kind) (name : String) (g : Dag) where
  lookup-add_node :
      (lookup (node_id kind name) g.nodes ≡ none)
      ⊎ ((n : Node) × (lookup (node_id kind name) g.nodes ≡ some n))
  lookup-add_node = Option-cases (lookup (node_id kind name) g.nodes)

  -- The new node, and the graph with it.
  added : Node × Dag
  added = (
    record { id = node_id kind name; kind = kind; name = name },
    record g {
      nodes =
          put (node_id kind name) (record { id = node_id kind name; kind = kind; name = name })
            g.nodes;
      in_degree = put (node_id kind name) (pos 0) g.in_degree;
    },
  )

  add_node_cases :
      ((n : Node) × (lookup (node_id kind name) g.nodes ≡ some n) × (add_node kind name g ≡ (n, g)))
      ⊎ ((lookup (node_id kind name) g.nodes ≡ none) × (add_node kind name g ≡ added))
  unfolding add_node added
  add_node_cases = elim lookup-add_node [
    | inl e ↦ inr (e, rw (e, add_node))
    | inr (n, e) ↦ inl (n, e, rw (e, add_node))
  ]

length_zero : (ds : List String) → ((v : String) → ¬ IsIn v ds) → length ds ≡ 0
length_zero [] h = refl
length_zero (d ∷ ds) h = absurd (h d (ground (arith, eq_iff d d)))

module _ (kind : Kind) (name : String) {g : Dag} (wf : IsWellFormed g) where
  added-IsWellFormed :
      lookup (node_id kind name) g.nodes ≡ none → IsWellFormed (added kind name g).1
  unfolding added
  added-IsWellFormed e =
      let id = node_id kind name in
      let node : Node = record { id = id; kind = kind; name = name } in
      let missing = has-of_lookup id g.nodes e in
      let out = count_of_missing id g.nodes missing in
      let none_of = length_zero (deps_of g id) (λ v h. absurd (omega (arith, wf.sources id v h))) in
      record {
        sources = λ u v h. ground (arith, wf.sources u v h, count-keys-put id u node g.nodes);
        targets = λ u v h. ground (arith, wf.targets u v h, count-keys-put id v node g.nodes);
        unique_nodes =
            λ x. ground (arith, wf.unique_nodes x, count-keys-put id x node g.nodes, eq_iff id x);
        unique_edges = wf.unique_edges;
        unique_deps = wf.unique_deps;
        degree_keys = λ x. ground (
          arith,
          count-keys-put id x node g.nodes,
          count-keys-put id x (pos 0) g.in_degree,
          wf.degree_keys x,
          wf.degree_keys id,
          has-count id g.in_degree,
        );
        degrees = λ x. elim (String-cases id x) [
          | inl (same, test) ↦
              rw (get_or-put (pos 0) id x (pos 0) g.in_degree, test)
                (ap pos (sym none_of) ∙ ap (λ y. pos (length (deps_of g y))) same)
          | inr (other, test) ↦
              rw (get_or-put (pos 0) id x (pos 0) g.in_degree, test) (wf.degrees x)
        ];
        ids = λ x n h. elim (String-cases id x) [
          | inl (same, test) ↦ ground (arith, lookup-put id x node g.nodes)
          | inr (other, test) ↦ wf.ids x n (ground (arith, lookup-put id x node g.nodes))
        ];
      }

  -- Adding a node: the invariant, the node's identifier, the nodes and the edges.
  pub record AddsNode (n : Node) (g' : Dag) : Type 0 where
    pub keeps : IsWellFormed g'
    pub named : n.id ≡ node_id kind name
    pub nodes : (x : String) → has x g'.nodes ≡ (has x g.nodes || (node_id kind name == x))
    pub edges : g'.edges ≡ g.edges

  pub add_node-AddsNode : AddsNode (add_node kind name g).0 (add_node kind name g).1
  add_node-AddsNode = elim (add_node_cases kind name g) [
    | inl (n, e, run) ↦
        subst (λ p. AddsNode p.0 p.1) (sym run)
          (record {
            keeps = wf;
            named = wf.ids (node_id kind name) n e;
            nodes = λ x. old x n e;
            edges = refl;
          })
    | inr (e, run) ↦
        subst (λ p. AddsNode p.0 p.1) (sym run)
          (unfold added in
            record {
              keeps = added-IsWellFormed e;
              named = refl;
              nodes = λ x. ground (
                arith,
                has-put (node_id kind name) x
                    (record { id = node_id kind name; kind = kind; name = name }) g.nodes,
              );
              edges = refl;
            })
  ]
    where
      old :
          (x : String) (n : Node)
          → lookup (node_id kind name) g.nodes ≡ some n
          → has x g.nodes ≡ (has x g.nodes || (node_id kind name == x))
      old x n e = ground (
        arith,
        has-of_some x g.nodes n,
        eq_iff (node_id kind name) x,
        has-of_some (node_id kind name) g.nodes n e,
      )
