-- ===== src/Graph/Edges.antt =====
-- Adding an edge keeps the invariant of the graph and adds exactly that edge.
use tomei.Base.{
  ◌≤◌, ◌<◌, String, ◌≡◌, refl, sym, ap, ◌∙◌, subst, true, false, ◌||◌, ◌&&◌, [], length, Map, Set,
  get_or, put, keys, has, count, pos, suc_ℤ, arith, ◌==◌, eq_iff, if◌then◌else◌, get_or-put,
  has-put, count-keys-put, length-keys-put, Bool-cases, String-cases, inl, inr, count_of_missing,
  has-of_count, get_or_missing,
}
use tomei.Graph.Dag.{Dag, deps_of, with_edge_set, link}

get_or-with_edge_set :
    (from x : String) (edges : Map Set) → get_or [] x (with_edge_set from edges) ≡ get_or [] x edges
get_or-with_edge_set from x edges = elim (Bool-cases (has from edges)) [
  | inl there ↦ rw there
  | inr new ↦ rw new (get_or-put [] from x [] edges ∙ empty_of new)
]
  where
    empty_of :
        has from edges ≡ false → (if from == x then [] else get_or [] x edges) ≡ get_or [] x edges
    empty_of new = elim (String-cases from x) [
      | inl (same, test) ↦
          rw test (sym (get_or_missing [] x edges (subst (λ y. has y edges ≡ false) same new)))
      | inr (other, test) ↦ rw test
    ]

-- `has` after an edge, on either end.
old_edge :
    (from to u v : String) (edges : Map Set)
    → has to (get_or [] from edges) ≡ true
    → has v (get_or [] u edges) ≡ (has v (get_or [] u edges) || (from == u && to == v))
old_edge from to u v edges there = elim (String-cases from u) [
  | inl (same, test) ↦ elim (String-cases to v) [
    | inl (same', test') ↦ rw (
        subst (λ x. has v (get_or [] x edges) ≡ true) same
          (subst (λ x. has x (get_or [] from edges) ≡ true) same' there))
    | inr (other, test') ↦ rw (test, test') (ground arith)
  ]
  | inr (other, test) ↦ rw test (ground arith)
]

count-with_edge_set :
    (from x : String) (edges : Map Set)
    → count x (keys edges) ≤ 1
    → count x (keys (with_edge_set from edges)) ≤ 1
count-with_edge_set from x edges h = elim (Bool-cases (has from edges)) [
  | inl there ↦ rw there h
  | inr new ↦ rw new (
      ground
        (arith, count-keys-put from x [] edges, eq_iff from x, count_of_missing from edges new))
]

count-new_edge :
    (to v : String) (targets : Set)
    → has to targets ≡ false
    → count v (keys targets) ≤ 1
    → count v (keys (put to tt targets)) ≤ 1
count-new_edge to v targets new h =
    ground (arith, count-keys-put to v tt targets, count_of_missing to targets new, eq_iff to v)

-- What `link` leaves: an edge that was there, or one edge more.
pub record AddsEdge (g : Dag) (from to : String) (g' : Dag) : Type 0 where
  pub nodes : g'.nodes ≡ g.nodes
  pub edge_keys : (x : String) → count x (keys g'.edges) ≤ 1
  pub edges :
      (u v : String)
      → has v (get_or [] u g'.edges) ≡ (has v (get_or [] u g.edges) || (from == u && to == v))
  pub counts : (u v : String) → count v (deps_of g u) ≤ 1 → count v (deps_of g' u) ≤ 1
  pub degrees :
      (u : String)
      → get_or (pos 0) u g.in_degree ≡ pos (length (deps_of g u))
      → get_or (pos 0) u g'.in_degree ≡ pos (length (deps_of g' u))
  pub degree_keys :
      0 < count from (keys g.in_degree)
      → (x : String) → count x (keys g'.in_degree) ≡ count x (keys g.in_degree)

module _ (from to : String) (g : Dag) (unique : (x : String) → count x (keys g.edges) ≤ 1) where
  link_old : has to (get_or [] from g.edges) ≡ true → AddsEdge g from to (link from to g)
  unfolding link
  link_old there =
      let same = λ (u : String). get_or-with_edge_set from u g.edges in
      rw (same from, there)
        (record {
          nodes = refl;
          edge_keys = λ x. count-with_edge_set from x g.edges (unique x);
          edges = λ u v. rw (same u) (old_edge from to u v g.edges there);
          counts = λ u v h. rw (same u) h;
          degrees = λ u h. rw (same u) h;
          degree_keys = λ h x. refl;
        })

  link_new : has to (get_or [] from g.edges) ≡ false → AddsEdge g from to (link from to g)
  unfolding link
  link_new new =
      let e1 = with_edge_set from g.edges in
      let same = λ (u : String). get_or-with_edge_set from u g.edges in
      let targets = get_or [] from g.edges in
      let read = λ (u : String). get_or-put [] from u (put to tt targets) e1 in
      rw (same from, new)
        (record {
          nodes = refl;
          edge_keys = λ x. ground (
            arith,
            count-with_edge_set from x g.edges (unique x),
            count-keys-put from x (put to tt targets) e1,
            eq_iff from x,
            count_of_missing from e1,
          );
          edges = λ u v. elim (String-cases from u) [
            | inl (e, test) ↦
                rw (read u, test, has-put to v tt targets)
                  (subst
                    (λ x.
                      (if to == v then true else has v targets)
                      ≡ (has v (get_or [] x g.edges) || (true && to == v)))
                    e (ground arith))
            | inr (e, test) ↦ rw (read u, test, same u) (ground arith)
          ];
          counts = λ u v h. elim (String-cases from u) [
            | inl (e, test) ↦
                rw (read u, test)
                  (count-new_edge to v targets new
                    (subst (λ x. count v (keys (get_or [] x g.edges)) ≤ 1) (sym e) h))
            | inr (e, test) ↦ rw (read u, test, same u) h
          ];
          degrees = λ u h. elim (String-cases from u) [
            | inl (e, test) ↦
                rw
                  (
                    read u,
                    get_or-put (pos 0) from u (suc_ℤ (get_or (pos 0) from g.in_degree)) g.in_degree,
                    test,
                    length-keys-put to tt targets new,
                  )
                  (ap suc_ℤ (
                    subst (λ x. get_or (pos 0) x g.in_degree ≡ pos (length (deps_of g x))) (sym e)
                      h))
            | inr (e, test) ↦
                rw
                  (
                    read u,
                    get_or-put (pos 0) from u (suc_ℤ (get_or (pos 0) from g.in_degree)) g.in_degree,
                    test,
                    same u,
                  )
                  h
          ];
          degree_keys = λ h x. rw (
            count-keys-put from x (suc_ℤ (get_or (pos 0) from g.in_degree)) g.in_degree,
            has-of_count from g.in_degree h,
          );
        })

  pub link-AddsEdge : AddsEdge g from to (link from to g)
  link-AddsEdge = elim (Bool-cases (has to (get_or [] from g.edges))) [
    | inl there ↦ link_old there
    | inr new ↦ link_new new
  ]
