-- ===== src/Graph/Build.antt =====
-- The graph of a list of resources: building it never panics, keeps the invariant, and gives
-- exactly the declared nodes and edges.
use tomei.Base.{
  lookup, Set, ◌≤◌, String, ◌≡◌, refl, sym, ap, ◌∙◌, subst, Bool, true, false, ◌||◌, ◌&&◌, some,
  List, [], ◌∷◌, Map, get_or, keys, has, count, IsIn, arith, ◌==◌, eq_iff, inl, inr, has-count,
  has-of_count, ◌⊎◌,
}
use tomei.Resource.Kind.{Ref}
use tomei.Resource.All.{Resource, kind_of, name_of, dependencies}
use tomei.Graph.Dag.{Node, Dag, new_dag, deps_of, node_id, add_node, link, add_edge}
use tomei.Graph.WellFormed.{IsWellFormed}
use tomei.Graph.Resolver.{add_dependencies, add_resource, add_resources}
use tomei.Graph.Invariant.{add_node-AddsNode, new_dag-IsWellFormed}
use tomei.Graph.Edges.{AddsEdge, link-AddsEdge}

-- Some entry of `deps` has the identifier `v`.
abbrev pub refers : List Ref → String → Bool
refers [] v = false
refers (d ∷ ds) v = (node_id d.kind d.name == v) || refers ds v

abbrev pub resource_id : Resource → String
resource_id res = node_id (kind_of res) (name_of res)

-- Some resource `u` declares the dependency `v`.
abbrev pub declares : List Resource → String → String → Bool
declares [] u v = false
declares (res ∷ rest) u v =
    (resource_id res == u && refers (dependencies res) v) || declares rest u v

-- `u` is a resource, or a dependency of one.
abbrev pub mentions : List Resource → String → Bool
mentions [] u = false
mentions (res ∷ rest) u = ((resource_id res == u) || refers (dependencies res) u) || mentions rest u

or_cases : (a b c : Bool) → (a || (b && c)) ≡ true → (a ≡ true) ⊎ ((b ≡ true) × (c ≡ true))
or_cases a b c h = ground arith

or_left : (b c : Bool) → b ≡ true → (b || c) ≡ true
or_left b c h = ground arith

or_right : (b : Bool) (s : String) → (b || (s == s)) ≡ true
or_right b s = ground (arith, eq_iff s s)

or_shift : (a b c : Bool) → ((a || b) || c) ≡ (a || (b || c))
or_shift a b c = ground arith

or_shift_and : (a b c d : Bool) → ((a || (b && c)) || (b && d)) ≡ (a || (b && (c || d)))
or_shift_and a b c d = ground arith

-- Both ends of an edge of `g'` are nodes of `g`.
AddsEdge-ends :
    (from to : String) {g g' : Dag}
    → IsWellFormed g
    → AddsEdge g from to g'
    → has from g.nodes ≡ true
    → has to g.nodes ≡ true
    → (u v : String) → IsIn v (deps_of g' u)
    → IsIn u (keys g.nodes) × IsIn v (keys g.nodes)
AddsEdge-ends from to {g} {g'} wf a hf ht u v m =
    elim (or_cases (has v (get_or [] u g.edges)) (from == u) (to == v)
      (sym (a.edges u v) ∙ has-of_count v (get_or [] u g'.edges) m)) [
        | inl old ↦
            let dep = has-count v (get_or [] u g.edges) old in
            (wf.sources u v dep, wf.targets u v dep)
        | inr (e, e') ↦ (
          subst (λ x. IsIn x (keys g.nodes)) ((eq_iff from u).0 e) (has-count from g.nodes hf),
          subst (λ x. IsIn x (keys g.nodes)) ((eq_iff to v).0 e') (has-count to g.nodes ht),
        )
      ]

link-IsWellFormed :
    (from to : String) (g : Dag)
    → IsWellFormed g
    → has from g.nodes ≡ true
    → has to g.nodes ≡ true
    → IsWellFormed (link from to g)
link-IsWellFormed from to g wf hf ht =
    let a = link-AddsEdge from to g wf.unique_edges in
    let ends = AddsEdge-ends from to wf a hf ht in
    let from_in = has-count from g.nodes hf in
    let degrees' = a.degree_keys (omega (arith, wf.degree_keys from)) in
    record {
      sources = λ u v m. subst (λ n. IsIn u (keys n)) (sym a.nodes) (ends u v m).0;
      targets = λ u v m. subst (λ n. IsIn v (keys n)) (sym a.nodes) (ends u v m).1;
      unique_nodes = λ x. subst (λ n. count x (keys n) ≤ 1) (sym a.nodes) (wf.unique_nodes x);
      unique_edges = a.edge_keys;
      unique_deps = λ u x. a.counts u x (wf.unique_deps u x);
      degree_keys = λ x.
          subst (λ n. count x (keys (link from to g).in_degree) ≡ count x (keys n)) (sym a.nodes)
            (degrees' x ∙ wf.degree_keys x);
      degrees = λ u. a.degrees u (wf.degrees u);
      ids = λ x n e. wf.ids x n (subst (λ m. lookup x m ≡ some n) a.nodes e);
    }

-- What `g'` adds to `g`: the nodes that `new` tells, and the edges that `edge` tells.
pub record Adds (g : Dag) (new : String → Bool) (edge : String → String → Bool) (g' : Dag)
    : Type 0 where
  pub keeps : IsWellFormed g'
  pub nodes : (x : String) → has x g'.nodes ≡ (has x g.nodes || new x)
  pub edges :
      (u v : String) → has v (get_or [] u g'.edges) ≡ (has v (get_or [] u g.edges) || edge u v)

add_dependencies-Adds :
    (from : Node) (deps : List Ref) (g : Dag)
    → IsWellFormed g
    → has from.id g.nodes ≡ true
    → (g' : Dag) × (add_dependencies from deps g ≡ some g')
      × Adds g (refers deps) (λ u v. (from.id == u) && refers deps v) g'
unfolding add_dependencies add_edge
add_dependencies-Adds from [] g wf h =
    (g, refl, record { keeps = wf; nodes = λ x. ground arith; edges = λ u v. ground arith })
add_dependencies-Adds from (d ∷ ds) g wf h =
    let (node, g1) = add_node d.kind d.name g in
    let a = add_node-AddsNode d.kind d.name wf in
    let hf : has from.id g1.nodes ≡ true = a.nodes from.id ∙ or_left (has from.id g.nodes) _ h in
    let ht : has node.id g1.nodes ≡ true =
      ap (λ i. has i g1.nodes) a.named
      ∙ a.nodes (node_id d.kind d.name)
      ∙ or_right (has (node_id d.kind d.name) g.nodes) (node_id d.kind d.name) in
    let wf2 = link-IsWellFormed from.id node.id g1 a.keeps hf ht in
    let e = link-AddsEdge from.id node.id g1 a.keeps.unique_edges in
    let (g', run, rest) =
      add_dependencies-Adds from ds (link from.id node.id g1) wf2
        (subst (λ n. has from.id n ≡ true) (sym e.nodes) hf) in
    (
      g',
      rw (hf, ht, add_dependencies) run,
      record {
        keeps = rest.keeps;
        nodes = λ x.
            rest.nodes x
            ∙ ap (λ (n : Map Node). has x n || refers ds x) e.nodes
            ∙ ap (λ (b : Bool). b || refers ds x) (a.nodes x)
            ∙ or_shift (has x g.nodes) (node_id d.kind d.name == x) (refers ds x);
        edges = λ u v.
            rest.edges u v
            ∙ ap (λ (b : Bool). b || ((from.id == u) && refers ds v)) (e.edges u v)
            ∙ ap
                (λ (m : Map Set).
                  (has v (get_or [] u m) || ((from.id == u) && (node.id == v)))
                  || ((from.id == u) && refers ds v))
                a.edges
            ∙ ap
                (λ (i : String).
                  (has v (get_or [] u g.edges) || ((from.id == u) && (i == v)))
                  || ((from.id == u) && refers ds v))
                a.named
            ∙ or_shift_and (has v (get_or [] u g.edges)) (from.id == u) (node_id d.kind d.name == v)
                (refers ds v);
      },
    )

add_resource-Adds :
    (res : Resource) (g : Dag)
    → IsWellFormed g
    → (g' : Dag) × (add_resource res g ≡ some g')
      × Adds g
          (λ x. (resource_id res == x) || refers (dependencies res) x)
          (λ u v. (resource_id res == u) && refers (dependencies res) v)
          g'
unfolding add_resource
add_resource-Adds res g wf =
    let (node, g1) = add_node (kind_of res) (name_of res) g in
    let a = add_node-AddsNode (kind_of res) (name_of res) wf in
    let there : has node.id g1.nodes ≡ true =
      ap (λ i. has i g1.nodes) a.named
      ∙ a.nodes (resource_id res)
      ∙ or_right (has (resource_id res) g.nodes) (resource_id res) in
    let (g', run, rest) = add_dependencies-Adds node (dependencies res) g1 a.keeps there in
    (
      g',
      run,
      record {
        keeps = rest.keeps;
        nodes = λ x.
            rest.nodes x
            ∙ ap (λ (b : Bool). b || refers (dependencies res) x) (a.nodes x)
            ∙ or_shift (has x g.nodes) (resource_id res == x) (refers (dependencies res) x);
        edges = λ u v.
            rest.edges u v
            ∙ ap
                (λ (m : Map Set).
                  has v (get_or [] u m) || ((node.id == u) && refers (dependencies res) v))
                a.edges
            ∙ ap
                (λ (i : String).
                  has v (get_or [] u g.edges) || ((i == u) && refers (dependencies res) v))
                a.named;
      },
    )

add_resources-Adds :
    (rs : List Resource) (g : Dag)
    → IsWellFormed g
    → (g' : Dag) × (add_resources rs g ≡ some g') × Adds g (mentions rs) (declares rs) g'
unfolding add_resources
add_resources-Adds [] g wf =
    (g, refl, record { keeps = wf; nodes = λ x. ground arith; edges = λ u v. ground arith })
add_resources-Adds (res ∷ rs) g wf =
    let (g1, e, first) = add_resource-Adds res g wf in
    let (g', run, rest) = add_resources-Adds rs g1 first.keeps in
    (
      g',
      rw (e, add_resources) run,
      record {
        keeps = rest.keeps;
        nodes = λ x.
            rest.nodes x
            ∙ ap (λ (b : Bool). b || mentions rs x) (first.nodes x)
            ∙ or_shift (has x g.nodes) ((resource_id res == x) || refers (dependencies res) x)
                (mentions rs x);
        edges = λ u v.
            rest.edges u v
            ∙ ap (λ (b : Bool). b || declares rs u v) (first.edges u v)
            ∙ or_shift (has v (get_or [] u g.edges))
                ((resource_id res == u) && refers (dependencies res) v) (declares rs u v);
      },
    )

-- Adding any resources to the empty graph never panics. The graph keeps its invariant, its nodes are
-- exactly the resources and the dependencies that they name, and there is an edge from `u` to `v`
-- exactly if a resource with the identifier `u` declares the dependency `v`.
pub add_resources_lem :
    (rs : List Resource)
    → (g : Dag) × (add_resources rs new_dag ≡ some g)
      × IsWellFormed g
      × ((x : String) → has x g.nodes ≡ mentions rs x)
      × ((u v : String) → has v (get_or [] u g.edges) ≡ declares rs u v)
add_resources_lem rs =
    let (g, run, adds) = add_resources-Adds rs new_dag new_dag-IsWellFormed in
    (g, run, adds.keeps, adds.nodes, adds.edges)
