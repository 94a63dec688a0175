-- ===== src/Graph/Detect.antt =====
-- `detectCycle` as a whole: it ends, what it reports is a cycle, and without a report the
-- dependencies lead strictly down in some rank.
use tomei.Base.{
  sym, ◌∙◌, subst, ℕ, suc, ◌≤◌, ◌<◌, String, ◌≡◌, refl, true, false, List, [], ◌∷◌, ◌++◌, length,
  get_or, IsIn, elem, pending-le, arith, eq_iff, if◌then◌else◌, inl, inr, ◌⊎◌, Bool-cases, keys,
  count, length-keys, RangeOrder,
}
use tomei.Graph.Dag.{Dag, deps_of}
use tomei.Graph.Dfs.{
  white, gray, Search, Visit, found, clear, out_of_fuel, and_then, visit_roots, ranged_deps,
  detect_cycle,
}
use tomei.Graph.WellFormed.{IsWellFormed}
use tomei.Graph.Walk.{Walk, IsCycle}
use tomei.Graph.Cycle.{IsOrdered, Sim, Post, Color-cases, expected, expected-black, dfs-Visits}

abbrev rank_in : List String → String → ℕ
rank_in [] x = 0
rank_in (y ∷ ys) x = if elem x ys then rank_in ys x else suc (length ys)

rank_in-le : (xs : List String) (x : String) → rank_in xs x ≤ length xs
rank_in-le [] x = omega arith
rank_in-le (y ∷ ys) x = ground (arith, rank_in-le ys x)

-- Every dependency of a node ranks below the node.
abbrev pub IsRanked : (String → List String) → List String → (String → ℕ) → Type 0
IsRanked deps names rank = (u v : String) → IsIn u names → IsIn v (deps u) → rank v < rank u

top_of : (y u : String) (ys : List String) → elem u (y ∷ ys) ≡ true → elem u ys ≡ false → u ≡ y
top_of y u ys m top = ground (arith, eq_iff y u)

module _ (deps : String → List String) where
  rank_in_lt :
      (order : List String)
      → IsOrdered deps order
      → (u v : String) → elem u order ≡ true
      → IsIn v (deps u)
      → (elem v order ≡ true) × (rank_in order v < rank_in order u)
  rank_in_lt [] h u v m e = absurd (ground arith)
  rank_in_lt (y ∷ ys) h u v m e = elim (Bool-cases (elem u ys)) [
    | inl below ↦ let (there, lt) = rank_in_lt ys h.1 u v below e in ground arith
    | inr top ↦
        let here = h.0 v (subst (λ w. IsIn v (deps w)) (top_of y u ys m top) e) in
        ground (arith, rank_in-le ys v, eq_iff y u)
  ]

  module _ (names : List String) (rank : String → ℕ) (ranked : IsRanked deps names rank)
      (sources : (u v : String) → IsIn v (deps u) → IsIn u names) where
    Walk-lt :
        (x : String) (middle : List String) (z : String)
        → Walk deps (x ∷ (middle ++ z ∷ []))
        → rank z < rank x
    Walk-lt x [] z w = ranked x z (sources x z w.0) w.0
    Walk-lt x (y ∷ ys) z w =
        let first = ranked x y (sources x y w.0) w.0 in omega (arith, Walk-lt y ys z w.1)

    pub IsRanked-acyclic : (path : List String) → ¬ IsCycle deps path
    IsRanked-acyclic path c =
        let down = Walk-lt c.start c.middle c.start (subst (Walk deps) c.shape c.steps) in
        omega arith

  module _ (size : ℕ) (names : List String)
      (closed : (u v : String) → IsIn v (deps u) → IsIn v names) where
    abbrev RootsPost : List String → List String → Visit → Type 0
    RootsPost order ids (found path) = IsCycle deps path
    RootsPost order ids (clear s) =
        (done : List String) × Sim deps [] done s
        × ((x : String) → IsIn x ids → elem x done ≡ true)
        × ((x : String) → elem x order ≡ true → elem x done ≡ true)
    RootsPost order ids out_of_fuel = ⊥

    RootsPost-cons :
        (order done : List String) (id : String) (ids : List String) (v : Visit)
        → elem id done ≡ true
        → ((x : String) → elem x order ≡ true → elem x done ≡ true)
        → RootsPost done ids v
        → RootsPost order (id ∷ ids) v
    RootsPost-cons order done id ids (found path) h more p = p
    RootsPost-cons order done id ids (clear s) h more p =
        (p.0, p.1, λ x k. ground (arith, eq_iff id x, p.2 x, p.3 id), λ x k. p.3 x (more x k))
    RootsPost-cons order done id ids out_of_fuel h more p = p

    RootsPost-and_then :
        (order : List String) (id : String) (ids : List String) (v : Visit) (rest : Search → Visit)
        → Post deps [] order id v
        → ((t : Search) (done : List String) → Sim deps [] done t → RootsPost done ids (rest t))
        → RootsPost order (id ∷ ids) (and_then v rest)
    RootsPost-and_then order id ids (found path) rest p k = p
    RootsPost-and_then order id ids (clear t) rest p k =
        RootsPost-cons order p.0 id ids (rest t) p.2 p.3 (k t p.0 p.1)
    RootsPost-and_then order id ids out_of_fuel rest p k = p

    visit_roots-RootsPost :
        (ids order : List String) (s : Search)
        → Sim deps [] order s
        → ((x : String) → IsIn x ids → IsIn x names)
        → length names ≤ size
        → RootsPost order ids (visit_roots size deps ids s)
    unfolding visit_roots
    visit_roots-RootsPost [] order s sim sub room =
        (order, sim, λ x h. absurd (omega arith), λ x h. h)
    visit_roots-RootsPost (id ∷ ids) order s sim sub room =
        elim (Color-cases (get_or white id s.color)) [
          | inl e ↦
              rw (e, visit_roots)
                (RootsPost-and_then order id ids _ _
                  (dfs-Visits deps size names closed size id [] order s sim.colors tt sim.ordered e
                    (sub id (ground (arith, eq_iff id id))) (omega (arith, pending-le order names))
                    (omega arith))
                  (λ t done sim'.
                    visit_roots-RootsPost ids done t sim' (λ x h. sub x (later x h)) room))
          | inr (inl e) ↦ absurd (gray_absurd id (sym (sim.colors id) ∙ e))
          | inr (inr e) ↦
              rw (e, visit_roots)
                (RootsPost-cons order order id ids _
                  (expected-black [] order id (sym (sim.colors id) ∙ e)) (λ x h. h)
                  (visit_roots-RootsPost ids order s sim (λ x h. sub x (later x h)) room))
        ]
      where
        later : (x : String) → IsIn x ids → IsIn x (id ∷ ids)
        later x h = ground arith

        gray_absurd : (x : String) → expected [] order x ≡ gray → ⊥
        gray_absurd x h = ground arith

Walk-mono :
    (a b : String → List String)
    → ((u v : String) → IsIn v (a u) → IsIn v (b u))
    → (path : List String) → Walk a path
    → Walk b path
Walk-mono a b h [] w = tt
Walk-mono a b h (x ∷ []) w = tt
Walk-mono a b h (x ∷ y ∷ ys) w = (h x y w.0, Walk-mono a b h (y ∷ ys) w.1)

module _ (r : RangeOrder) (g : Dag) where
  pub ranged : (u v : String) → count v (ranged_deps r g u) ≡ count v (deps_of g u)
  ranged u v = r.count_range (Unit {0}) (get_or [] u g.edges) v

  ranged_subset : (u v : String) → IsIn v (ranged_deps r g u) → IsIn v (deps_of g u)
  ranged_subset u v h = omega (arith, ranged u v)

  -- What the value of `detectCycle` says.
  abbrev pub Detected : Visit → Type 0
  Detected (found path) = IsCycle (deps_of g) path
  Detected (clear s) = (rank : String → ℕ) × IsRanked (deps_of g) (keys g.nodes) rank
  Detected out_of_fuel = ⊥

  pub detect_cycle-Detected : IsWellFormed g → Detected (detect_cycle r g)
  unfolding detect_cycle
  detect_cycle-Detected wf = go _ (
      visit_roots-RootsPost (ranged_deps r g) (length g.nodes) (keys g.nodes)
        (λ u v h. wf.targets u v (ranged_subset u v h)) (keys (r.range _ g.nodes)) [] _
        (record { colors = λ x. refl; chain = tt; ordered = tt })
        (λ x h. omega (arith, r.count_range _ g.nodes x)) (omega (arith, length-keys g.nodes)))
    where
      go :
          (v : Visit)
          → RootsPost
              (ranged_deps r g)
              (length g.nodes)
              (keys g.nodes)
              (λ u v h. wf.targets u v (ranged_subset u v h))
              []
              (keys (r.range _ g.nodes))
              v
          → Detected v
      go (found path) c = record {
        start = c.start;
        middle = c.middle;
        shape = c.shape;
        steps = Walk-mono (ranged_deps r g) (deps_of g) ranged_subset path c.steps;
      }
      go (clear s) p = (
        rank_in p.0,
        λ u v known dep.
            (rank_in_lt (ranged_deps r g) p.0 p.1.ordered u v
              (p.2 u (omega (arith, r.count_range _ g.nodes u))) (omega (arith, ranged u v))).1,
      )
      go out_of_fuel p = p

  -- For a well-formed graph `detectCycle` ends: either it returns a path along dependencies that
  -- ends where it began, or it returns no path and the graph has none.
  pub detect_cycle_decides :
      IsWellFormed g
      → ((path : List String) × (detect_cycle r g ≡ found path) × IsCycle (deps_of g) path)
        ⊎ ((s : Search) × (detect_cycle r g ≡ clear s)
            × ((path : List String) → ¬ IsCycle (deps_of g) path))
  detect_cycle_decides wf = go (detect_cycle r g) refl (detect_cycle-Detected wf)
    where
      go :
          (v : Visit)
          → detect_cycle r g ≡ v
          → Detected v
          → ((path : List String) × (detect_cycle r g ≡ found path) × IsCycle (deps_of g) path)
            ⊎ ((s : Search) × (detect_cycle r g ≡ clear s)
                × ((path : List String) → ¬ IsCycle (deps_of g) path))
      go (found path) e c = inl (path, e, c)
      go (clear s) e (rank, ranked) =
          inr (s, e, IsRanked-acyclic (deps_of g) (keys g.nodes) rank ranked wf.sources)
      go out_of_fuel e p = absurd p
