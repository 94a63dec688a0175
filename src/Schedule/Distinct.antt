-- ===== src/Schedule/Distinct.antt =====
-- Workers in which no name stands twice (partitionToolsByDelegation of
-- internal/installer/engine/engine.go starts such workers).
use tomei.Base.{◌+◌, ◌≤◌, String, ◌≡◌, sym, List, [], ◌∷◌, count, arith, eq_iff}
use tomei.Resource.Tool.{ToolState}
use tomei.Graph.Dag.{Node}
use tomei.Schedule.Defs.{Worker, jobs_of}
use tomei.Schedule.Apart.{All, Far, Apart}
use tomei.Schedule.Locals.{NameClash}
use tomei.Schedule.Names.{texts, texts-append, all_jobs}

one_name_clear :
    (f : Node → String) (i : Node) (ys : List Node)
    → count (f i) (texts f ys) ≡ 0
    → All (λ j. ¬ NameClash f i j) ys
one_name_clear f i [] h = tt
one_name_clear f i (y ∷ ys) h =
    (λ c. ground (arith, h, eq_iff (f y) (f i), sym c), one_name_clear f i ys (ground (arith, h)))

module _ (f : Node → String) where
  names_clear :
      (xs ys : List Node)
      → ((x : String) → count x (texts f xs) + count x (texts f ys) ≤ 1)
      → Far (NameClash f) xs ys
  names_clear [] ys h = tt
  names_clear (i ∷ xs) ys h = (
    one_name_clear f i ys (ground (arith, h (f i), eq_iff (f i) (f i))),
    names_clear xs ys (λ x. ground (arith, h x)),
  )

  names_clear_each :
      (xs : List Node) (ws : List (Worker Node ToolState))
      → ((x : String) → count x (texts f xs) + count x (texts f (all_jobs ws)) ≤ 1)
      → All (λ v. Far (NameClash f) xs (jobs_of v)) ws
  names_clear_each xs [] h = tt
  names_clear_each xs (w ∷ ws) h = (
    names_clear xs (jobs_of w)
        (λ x. omega (arith, h x, texts-append f x (jobs_of w) (all_jobs ws))),
    names_clear_each xs ws (λ x. omega (arith, h x, texts-append f x (jobs_of w) (all_jobs ws))),
  )

  -- Workers in which no name stands twice share none.
  pub Apart-names :
      (ws : List (Worker Node ToolState))
      → ((x : String) → count x (texts f (all_jobs ws)) ≤ 1)
      → Apart (NameClash f) ws
  Apart-names [] h = tt
  Apart-names (w ∷ ws) h = (
    names_clear_each (jobs_of w) ws
        (λ x. omega (arith, h x, texts-append f x (jobs_of w) (all_jobs ws))),
    Apart-names ws (λ x. omega (arith, h x, texts-append f x (jobs_of w) (all_jobs ws))),
  )
