-- ===== src/Graph/Walk.antt =====
-- Paths and cycles of the dependency graph, and the walk up the `parent` map that reports a cycle.
use mathlib.Core.List.{reverse, reverse-append, append-nil, append_assoc}
use tomei.Base.{
  ℕ, zero, suc, ◌≤◌, String, ◌≡◌, refl, true, some, List, [], ◌∷◌, ◌++◌, length, Map, get_or, IsIn,
  elem, arith, String-cases, inl, inr, subst, ◌∙◌, ap,
}
use tomei.Graph.Dfs.{collect, cycle_path}

module _ (deps : String → List String) where
  -- Each name depends on the next.
  abbrev pub Walk : List String → Type 0
  Walk [] = Unit
  Walk (x ∷ []) = Unit
  Walk (x ∷ y ∷ ys) = IsIn y (deps x) × Walk (y ∷ ys)

  -- Each name is a dependency of the next.
  abbrev BackWalk : List String → Type 0
  BackWalk [] = Unit
  BackWalk (x ∷ []) = Unit
  BackWalk (x ∷ y ∷ ys) = IsIn x (deps y) × BackWalk (y ∷ ys)

  -- A path along dependencies that ends where it began.
  pub record IsCycle (path : List String) : Type 0 where
    pub start : String
    pub middle : List String
    pub shape : path ≡ start ∷ (middle ++ start ∷ [])
    pub steps : Walk path

  -- The `parent` entries lead down the stack, along dependencies.
  abbrev pub Chain : Map String → List String → Type 0
  Chain parent [] = Unit
  Chain parent (x ∷ []) = Unit
  Chain parent (x ∷ y ∷ ys) = (get_or "" x parent ≡ y) × IsIn x (deps y) × Chain parent (y ∷ ys)

  Walk-snoc :
      (xs : List String) (y x : String)
      → Walk (xs ++ y ∷ [])
      → IsIn x (deps y)
      → Walk ((xs ++ y ∷ []) ++ x ∷ [])
  Walk-snoc [] y x w e = (e, tt)
  Walk-snoc (z ∷ []) y x w e = (w.0, (e, tt))
  Walk-snoc (z ∷ a ∷ xs) y x w e = (w.0, Walk-snoc (a ∷ xs) y x w.1 e)

  Walk-reverse : (xs : List String) → BackWalk xs → Walk (reverse xs)
  Walk-reverse [] w = tt
  Walk-reverse (x ∷ []) w = tt
  Walk-reverse (x ∷ y ∷ ys) w = rw (reverse-append (x ∷ []) (y ∷ ys)) (
      rw (reverse-append (y ∷ []) ys) (
        Walk-snoc (reverse ys) y x (rw (reverse-append (y ∷ []) ys) at (Walk-reverse (y ∷ ys) w.1))
          w.0))

  -- The loop ends with the part of the stack above `dep`, in order.
  collect_lem :
      (fuel : ℕ) (parent : Map String) (dep curr : String) (below : List String) (before : String)
      (cycle : List String)
      → length (curr ∷ below) ≤ fuel
      → Chain parent (curr ∷ below)
      → elem dep (curr ∷ below) ≡ true
      → IsIn before (deps curr)
      → (middle : List String) × (collect fuel parent dep curr cycle ≡ some (cycle ++ middle))
        × BackWalk (before ∷ (middle ++ dep ∷ []))
  unfolding collect
  collect_lem zero parent dep curr below before cycle enough chain there e = elim enough [ ]
  collect_lem (suc fuel) parent dep curr [] before cycle enough chain there e =
      elim (String-cases curr dep) [
        | inl (same, test) ↦
            ([], rw test (rw append-nil refl), (subst (λ x. IsIn before (deps x)) same e, tt))
        | inr (other, test) ↦ cc
      ]
  collect_lem (suc fuel) parent dep curr (y ∷ ys) before cycle enough chain there e =
      elim (String-cases curr dep) [
        | inl (same, test) ↦
            ([], rw test (rw append-nil refl), (subst (λ x. IsIn before (deps x)) same e, tt))
        | inr (other, test) ↦
            let (m, run, walk) =
              collect_lem fuel parent dep y ys curr (cycle ++ curr ∷ []) (omega arith) chain.2
                (rw test at there) chain.1 in
            (
              curr ∷ m,
              rw test (rw chain.0 (run ∙ ap some (append_assoc cycle (curr ∷ []) m))),
              (e, walk),
            )
      ]

  -- A gray dependency `dep` of the top of the stack closes a cycle, which is reported.
  pub cycle_path-IsCycle :
      (fuel : ℕ) (parent : Map String) (node dep : String) (below : List String)
      → length (node ∷ below) ≤ fuel
      → Chain parent (node ∷ below)
      → elem dep (node ∷ below) ≡ true
      → IsIn dep (deps node)
      → (path : List String) × (cycle_path fuel parent node dep ≡ some path) × IsCycle path
  unfolding cycle_path
  cycle_path-IsCycle fuel parent node dep below enough chain there e =
      let (m, run, walk) =
        collect_lem fuel parent dep node below dep (dep ∷ []) enough chain there e in
      (
        reverse (dep ∷ (m ++ dep ∷ [])),
        rw run,
        record {
          start = dep;
          middle = reverse m;
          shape = shape_of dep m;
          steps = Walk-reverse (dep ∷ (m ++ dep ∷ [])) walk;
        },
      )
    where
      shape_of :
          (d : String) (m : List String) → reverse (d ∷ (m ++ d ∷ [])) ≡ d ∷ (reverse m ++ d ∷ [])
      shape_of d m =
          reverse-append (d ∷ []) (m ++ d ∷ []) ∙ ap (λ l. l ++ d ∷ []) (reverse-append m (d ∷ []))
