-- ===== src/Schedule/Permits.antt =====
-- The permits of the launching loops and the steps they have left
-- (executeToolNodesWithDelegationSerialization of internal/installer/engine/engine.go).
use tomei.Base.{ℕ, suc, ◌+◌, ◌≤◌, ◌<◌, String, ◌≡◌, Option, List, [], ◌∷◌, ◌++◌, arith}
use tomei.Execute.Run.{Outcome}
use tomei.Schedule.Defs.{acquired, loaded, answered, Shared}
use tomei.Schedule.Launch.{
  Goroutine, waits, runs, ends, Launching, Move, take, load, skip, install, save, fail, release,
  Launch, start_download, start_group, move,
}

module _ {J : Type 0} where
  abbrev pub node_steps : List J → ℕ
  node_steps [] = 0
  node_steps (j ∷ q) = node_steps q + 5

  abbrev pub group_steps : List (List J) → ℕ
  group_steps [] = 0
  group_steps (g ∷ gs) = suc (node_steps g) + group_steps gs

module _ {J S : Type 0} where
  -- Whether a goroutine holds a permit, as a number.
  abbrev pub permit : Goroutine J S → ℕ
  permit (waits q) = 0
  permit (runs j p q) = 1
  permit (ends q) = 1

  abbrev pub permits : List (Goroutine J S) → ℕ
  permits [] = 0
  permits (g ∷ gs) = permit g + permits gs

  abbrev pub own_steps : Goroutine J S → ℕ
  own_steps (waits q) = node_steps q
  own_steps (runs j acquired q) = node_steps q + 4
  own_steps (runs j (loaded x) q) = node_steps q + 3
  own_steps (runs j (answered x o) q) = node_steps q + 2
  own_steps (ends q) = node_steps q + 1

  abbrev pub all_steps : List (Goroutine J S) → ℕ
  all_steps [] = 0
  all_steps (g ∷ gs) = own_steps g + all_steps gs

  permits-append : (xs ys : List (Goroutine J S)) → permits (xs ++ ys) ≡ permits xs + permits ys
  permits-append [] ys = omega arith
  permits-append (x ∷ xs) ys = omega (arith, permits-append xs ys)

  all_steps-append :
      (xs ys : List (Goroutine J S)) → all_steps (xs ++ ys) ≡ all_steps xs + all_steps ys
  all_steps-append [] ys = omega arith
  all_steps-append (x ∷ xs) ys = omega (arith, all_steps-append xs ys)

module _ {W J S : Type 0} where
  -- How many steps are left at most.
  abbrev pub steps_left : Launching W J S → ℕ
  steps_left s = node_steps s.downloads + (group_steps s.groups + all_steps s.goroutines)

  -- The permits that are held are those of the goroutines: none is lost.
  abbrev pub IsBalanced : Launching W J S → Type 0
  IsBalanced s = s.held ≡ permits s.goroutines

module _ {W J S : Type 0} (limit : ℕ) (name_of : J → String)
    (plan : J → Option S → Option (W → W × Outcome S)) where
  Move-permit :
      (n n' : ℕ) (e e' : Shared W S) (g g' : Goroutine J S)
      → Move limit name_of plan n n' e e' g g'
      → n' + permit g ≡ n + permit g'
  Move-permit n n' e e' g g' (take j q h a b c k) = rw (a, b, c) (omega arith)
  Move-permit n n' e e' g g' (load j q a b c k) = rw (a, b, c) (omega arith)
  Move-permit n n' e e' g g' (skip j q x h a b c k) = rw (a, b, c) (omega arith)
  Move-permit n n' e e' g g' (install j q x act h a b c k) = rw (a, b, c) (omega arith)
  Move-permit n n' e e' g g' (save j q x s a b c k) = rw (a, b, c) (omega arith)
  Move-permit n n' e e' g g' (fail j q x m a b c k) = rw (a, b, c) (omega arith)
  Move-permit n n' e e' g g' (release q a b c k) = rw (a, b, c) (omega arith)

  Move-steps :
      (n n' : ℕ) (e e' : Shared W S) (g g' : Goroutine J S)
      → Move limit name_of plan n n' e e' g g'
      → own_steps g' < own_steps g
  Move-steps n n' e e' g g' (take j q h a b c k) = rw (a, b) (omega arith)
  Move-steps n n' e e' g g' (load j q a b c k) = rw (a, b) (omega arith)
  Move-steps n n' e e' g g' (skip j q x h a b c k) = rw (a, b) (omega arith)
  Move-steps n n' e e' g g' (install j q x act h a b c k) = rw (a, b) (omega arith)
  Move-steps n n' e e' g g' (save j q x s a b c k) = rw (a, b) (omega arith)
  Move-steps n n' e e' g g' (fail j q x m a b c k) = rw (a, b) (omega arith)
  Move-steps n n' e e' g g' (release q a b c k) = rw (a, b) (omega arith)

  pub Launch-IsBalanced :
      (s t : Launching W J S) → Launch limit name_of plan s t → IsBalanced s → IsBalanced t
  Launch-IsBalanced s t (start_download j ds h d e) b =
      rw e (omega (arith, permits-append s.goroutines (runs j acquired [] ∷ [])))
  Launch-IsBalanced s t (start_group g gs d k e) b =
      rw e (omega (arith, permits-append s.goroutines (waits g ∷ [])))
  Launch-IsBalanced s t (move before after g g' n x p m e) b =
      let held : s.held ≡ permits (before ++ g ∷ after) = rw (← p) b in
      rw e (
        omega (
          arith,
          held,
          permits-append before (g ∷ after),
          permits-append before (g' ∷ after),
          Move-permit s.held n s.shared x g g' m,
        ))

  pub Launch-steps :
      (s t : Launching W J S) → Launch limit name_of plan s t → steps_left t < steps_left s
  Launch-steps s t (start_download j ds h d e) =
      rw (e, d) (omega (arith, all_steps-append s.goroutines (runs j acquired [] ∷ [])))
  Launch-steps s t (start_group g gs d k e) =
      rw (e, k) (omega (arith, all_steps-append s.goroutines (waits g ∷ [])))
  Launch-steps s t (move before after g g' n x p m e) =
      rw (e, p)
        (omega (
          arith,
          all_steps-append before (g ∷ after),
          all_steps-append before (g' ∷ after),
          Move-steps s.held n s.shared x g g' m,
        ))

  pub Launch-held :
      (s t : Launching W J S) → Launch limit name_of plan s t → s.held ≤ limit → t.held ≤ limit
  Launch-held s t (start_download j ds h d e) b = rw e h
  Launch-held s t (start_group g gs d k e) b = rw e b
  Launch-held s t (move before after g g' n x p m e) b = rw e (keeps m)
    where
      keeps : Move limit name_of plan s.held n s.shared x g g' → n ≤ limit
      keeps (take j q h a b' c k) = omega arith
      keeps (load j q a b' c k) = omega arith
      keeps (skip j q y h a b' c k) = omega arith
      keeps (install j q y act h a b' c k) = omega arith
      keeps (save j q y v a b' c k) = omega arith
      keeps (fail j q y v a b' c k) = omega arith
      keeps (release q a b' c k) = omega arith
