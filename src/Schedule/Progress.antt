-- ===== src/Schedule/Progress.antt =====
-- The work that the workers of a layer have left (executeNodesParallel and
-- executeToolNodesWithDelegationSerialization of internal/installer/engine/engine.go).
use tomei.Base.{ℕ, suc, ◌+◌, ◌≤◌, ◌<◌, String, ◌≡◌, Option, List, [], ◌∷◌, ◌++◌, arith}
use tomei.Execute.Run.{Outcome}
use tomei.Schedule.Defs.{
  acquired, loaded, answered, Worker, idle, busy, in_flight, Shared, System, Local, acquire, load,
  skip, install, save, fail, Step, pick, Reach, here, next,
}

module _ {J : Type 0} where
  abbrev pub queued : List J → ℕ
  queued [] = 0
  queued (j ∷ q) = queued q + 4

module _ {J S : Type 0} where
  -- The steps that a worker can still take.
  abbrev pub work : Worker J S → ℕ
  work (idle q) = queued q
  work (busy j acquired q) = queued q + 3
  work (busy j (loaded x) q) = queued q + 2
  work (busy j (answered x o) q) = queued q + 1

  abbrev pub total_work : List (Worker J S) → ℕ
  total_work [] = 0
  total_work (w ∷ ws) = work w + total_work ws

  total_work-append :
      (xs ys : List (Worker J S)) → total_work (xs ++ ys) ≡ total_work xs + total_work ys
  total_work-append [] ys = omega arith
  total_work-append (x ∷ xs) ys = omega (arith, total_work-append xs ys)

module _ {W J S : Type 0} (limit : ℕ) (name_of : J → String)
    (plan : J → Option S → Option (W → W × Outcome S)) where
  local_work :
      (n : ℕ) (e e' : Shared W S) (w w' : Worker J S)
      → Local limit name_of plan n e e' w w'
      → work w' < work w
  local_work n e e' w w' (acquire j q h a b k) = rw (a, b) (omega arith)
  local_work n e e' w w' (load j q a b k) = rw (a, b) (omega arith)
  local_work n e e' w w' (skip j q x h a b k) = rw (a, b) (omega arith)
  local_work n e e' w w' (install j q x act h a b k) = rw (a, b) (omega arith)
  local_work n e e' w w' (save j q x s a b k) = rw (a, b) (omega arith)
  local_work n e e' w w' (fail j q x m a b k) = rw (a, b) (omega arith)

  Step-work :
      (s t : System W J S)
      → Step limit name_of plan s t
      → total_work t.workers < total_work s.workers
  Step-work s t (pick before after w w' a b l) =
      rw (a, b)
        (omega (
          arith,
          total_work-append before (w ∷ after),
          total_work-append before (w' ∷ after),
          local_work (in_flight s.workers) s.shared t.shared w w' l,
        ))

  abbrev pub steps : {s t : System W J S} → Reach limit name_of plan s t → ℕ
  steps here = 0
  steps (next r p) = suc (steps r)

  -- No run is longer than the work that its workers start with.
  pub steps_bound :
      (s t : System W J S) (run : Reach limit name_of plan s t)
      → steps run + total_work t.workers ≤ total_work s.workers
  steps_bound s _ here = omega arith
  steps_bound s u (next {t} r p) = omega (arith, steps_bound s t r, Step-work t u p)
