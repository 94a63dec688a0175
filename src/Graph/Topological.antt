-- ===== src/Graph/Topological.antt =====
-- `topologicalSort` as a whole.
use mathlib.Core.Option
use tomei.Base.{
  ℕ, zero, suc, ◌≤◌, ◌<◌, String, ◌≡◌, refl, sym, ap, ◌∙◌, ◌⊎◌, inl, inr, ◌&&◌, List, [], ◌∷◌,
  length, Map, Set, get_or, keys, count, IsIn, elem, has, elem-count, count_of_absent, count-elem,
  pending_nil, pending_of_all, pending-le, eqb, RangeOrder, ℤ, pos, is_zero, arith, eq_iff,
  if◌then◌else◌, get_or-lookup, length-keys, has-count, count_of_missing, Bool-cases,
}
use tomei.Graph.Dag.{Node, Dag, deps_of}
use tomei.Graph.WellFormed.{IsWellFormed}
use tomei.Graph.Walk.{IsCycle}
use tomei.Graph.Dfs.{Visit, found, clear, out_of_fuel, detect_cycle}
use tomei.Graph.Detect.{IsRanked, Detected, detect_cycle-Detected, IsRanked-acyclic}
use tomei.Graph.Release.{count-build_reverse}
use tomei.Graph.Kahn.{layers, cycle_error, build_reverse, zero_degree, topological_sort}
use tomei.Graph.Rounds.{ready, IsRound}
use tomei.Graph.Layers.{all_ids, IsLayered, run_layers_lem}

count-zero_degree :
    (v : String) (m : Map ℤ)
    → ((x : String) → count x (keys m) ≤ 1)
    → count v (zero_degree m) ≡ (if has v m && is_zero (get_or (pos 0) v m) then 1 else 0)
unfolding zero_degree
count-zero_degree v [] h = refl
count-zero_degree v ((id, d) ∷ m) h = ground (
  arith,
  count-zero_degree v m (λ x. tail x (h x)),
  eq_iff id v,
  h v,
  has-count v m,
  h id,
  has-count id m,
)
  where
    tail : (x : String) → count x (id ∷ keys m) ≤ 1 → count x (keys m) ≤ 1
    tail x k = ground arith

get_or-range :
    (r : RangeOrder) {V : Type 0} (d : V) (m : Map V) (k : String)
    → get_or d k (r.range V m) ≡ get_or d k m
get_or-range r d m k =
    get_or-lookup d k (r.range _ m)
    ∙ ap (λ o. Option.get_or o d) (r.lookup_range _ m k)
    ∙ sym (get_or-lookup d k m)

is_zero-eqb : (n : ℕ) → is_zero (pos n) ≡ eqb n 0
is_zero-eqb zero = refl
is_zero-eqb (suc n) = ground arith

module _ (r : RangeOrder) (g : Dag) (wf : IsWellFormed g) where
  reversed :
      (v d : String)
      → count v (get_or [] d (build_reverse r (r.range _ g.edges) [])) ≡ count d (deps_of g v)
  reversed v d =
      let built =
        count-build_reverse r v d (r.range _ g.edges) []
          (λ x. omega (arith, wf.unique_edges x, r.count_range _ g.edges x)) in
      omega (arith, built, ap (λ (e : Set). count d (keys e)) (get_or-range r [] g.edges v))

  IsRound-start : IsRound g [] (zero_degree (r.range _ g.in_degree)) [] g.in_degree
  IsRound-start = record {
    open_deps = λ v. wf.degrees v ∙ ap pos (sym (pending_nil (deps_of g v)));
    queued = λ v.
        let start = count-zero_degree v (r.range _ g.in_degree) (λ x.
          omega (arith, r.count_range _ g.in_degree x, wf.degree_keys x, wf.unique_nodes x)) in
        let degree = get_or-range r (pos 0) g.in_degree v ∙ wf.degrees v in
        let zeros = ap is_zero degree ∙ is_zero-eqb (length (deps_of g v)) in
        ground (
          arith,
          start,
          zeros,
          pending_nil (deps_of g v),
          has-count v (r.range _ g.in_degree),
          count_of_missing v (r.range _ g.in_degree),
          elem-count v (keys g.nodes),
          count_of_absent v (keys g.nodes),
          r.count_range _ g.in_degree v,
          wf.degree_keys v,
        );
  }

  -- With a rank every node becomes ready.
  all_ready :
      (rank : String → ℕ) (done : List String)
      → IsRanked (deps_of g) (keys g.nodes) rank
      → ((v : String) → count v done ≡ ready g done v)
      → (bound : ℕ) (v : String) → rank v < bound
      → IsIn v (keys g.nodes)
      → count v done ≡ 1
  all_ready rank done ranked full zero v lt known = elim lt [ ]
  all_ready rank done ranked full (suc bound) v lt known =
      let none_open = pending_of_all done (deps_of g v) (λ d dep. count-elem d done (
        omega (
          arith,
          all_ready rank done ranked full bound d (omega (arith, ranked v d known dep))
              (wf.targets v d dep),
        ))) in
      ground (arith, full v, count-elem v (keys g.nodes) known)

  -- `ls` holds every node once, each in a layer behind all of its dependencies, and the dependencies
  -- have no cycle.
  pub record IsSchedule (ls : List (List Node)) : Type 0 where
    pub once : (v : String) → count v (all_ids ls) ≡ count v (keys g.nodes)
    pub layered : IsLayered (deps_of g) [] ls
    pub acyclic : (path : List String) → ¬ IsCycle (deps_of g) path

  -- For a well-formed graph and any order of the `range` loops, `topologicalSort` ends without a
  -- nil node: it returns an error with a cycle of the graph, or layers that hold every node exactly
  -- once, with each dependency of a node in an earlier layer than the node, and then there is no cycle.
  pub topological_sort_lem :
      ((path : List String) × (topological_sort r g ≡ cycle_error path) × IsCycle (deps_of g) path)
      ⊎ ((ls : List (List Node)) × (topological_sort r g ≡ layers ls) × IsSchedule ls)
  unfolding topological_sort
  topological_sort_lem = go (detect_cycle r g) refl (detect_cycle-Detected r g wf)
    where
      go :
          (v : Visit)
          → detect_cycle r g ≡ v
          → Detected r g v
          → ((path : List String) × (topological_sort r g ≡ cycle_error path)
              × IsCycle (deps_of g) path)
            ⊎ ((ls : List (List Node)) × (topological_sort r g ≡ layers ls) × IsSchedule ls)
      go (found path) e c = inl (path, rw (e, topological_sort), c)
      go (clear s) e (rank, ranked) =
          let (ls, run, layered, full) =
            run_layers_lem g wf (build_reverse r (r.range _ g.edges) []) reversed (length g.nodes)
              (zero_degree (r.range _ g.in_degree)) [] g.in_degree [] IsRound-start
              (omega (arith, pending-le [] (keys g.nodes), length-keys g.nodes)) in
          inr (
            ls,
            rw (e, topological_sort) run,
            record {
              once = λ v. elim (Bool-cases (elem v (keys g.nodes))) [
                | inl known ↦ omega (
                  arith,
                  all_ready rank (all_ids ls) ranked full (suc (rank v)) v (omega arith)
                      (elem-count v (keys g.nodes) known),
                  wf.unique_nodes v,
                  elem-count v (keys g.nodes) known,
                )
                | inr out ↦ ground (arith, full v, count_of_absent v (keys g.nodes) out)
              ];
              layered = layered;
              acyclic = IsRanked-acyclic (deps_of g) (keys g.nodes) rank ranked wf.sources;
            },
          )
      go out_of_fuel e p = absurd p
