-- ===== src/Schedule/Defs.antt =====
-- Workers under one semaphore, as a step relation (internal/installer/engine/engine.go). A goroutine is
-- a worker with a queue: one node, or a delegation group. The calls that another goroutine may come
-- between are steps of their own: the semaphore, `Load`, the installer, `Save`. The order in which
-- workers take the semaphore is left open, which allows more than the launching loops do (Launch has the
-- loops themselves); a cancelled context only ends a run early, so every state that it leaves is one of
-- a run here.
use tomei.Base.{ℕ, suc, ◌<◌, String, ◌≡◌, Option, none, some, List, [], ◌∷◌, ◌++◌, Map, lookup, put}
use tomei.Execute.Run.{Outcome, ok, failed}

module _ (J S : Type 0) where
  -- How far a node is: the semaphore is taken, its entry is loaded, the installer has answered.
  pub data Phase : Type 0 where
    acquired : Phase
    loaded : Option S → Phase
    answered : Option S → Outcome S → Phase

  pub data Worker : Type 0 where
    idle : List J → Worker
    busy : J → Phase → List J → Worker

module _ {J S : Type 0} where
  -- The nodes that a worker still has to finish.
  abbrev pub jobs_of : Worker J S → List J
  jobs_of (idle q) = q
  jobs_of (busy j p q) = j ∷ q

  -- How many workers hold the semaphore.
  abbrev pub in_flight : List (Worker J S) → ℕ
  in_flight [] = 0
  in_flight (idle q ∷ ws) = in_flight ws
  in_flight (busy j p q ∷ ws) = suc (in_flight ws)

-- What the workers share: the entries of the cache, the world, the count of errors.
pub record Shared (W S : Type 0) : Type 0 where
  pub entries : Map S
  pub world : W
  pub errors : ℕ

pub record System (W J S : Type 0) : Type 0 where
  pub workers : List (Worker J S)
  pub shared : Shared W S

module _ {W J S : Type 0} (limit : ℕ) (name_of : J → String)
    (plan : J → Option S → Option (W → W × Outcome S)) where
  -- One step of one worker, while `n` workers hold the semaphore. A failed node empties the queue: the
  -- rest of its group is skipped.
  pub data Local (n : ℕ) (e e' : Shared W S) (w w' : Worker J S) : Type 0 where
    acquire :
        (j : J) (q : List J)
        → n < limit
        → w ≡ idle (j ∷ q)
        → w' ≡ busy j acquired q
        → e' ≡ e
        → Local n e e' w w'
    load :
        (j : J) (q : List J)
        → w ≡ busy j acquired q
        → w' ≡ busy j (loaded (lookup (name_of j) e.entries)) q
        → e' ≡ e
        → Local n e e' w w'
    skip :
        (j : J) (q : List J) (x : Option S)
        → plan j x ≡ none
        → w ≡ busy j (loaded x) q
        → w' ≡ idle q
        → e' ≡ e
        → Local n e e' w w'
    install :
        (j : J) (q : List J) (x : Option S) (act : W → W × Outcome S)
        → plan j x ≡ some act
        → w ≡ busy j (loaded x) q
        → w' ≡ busy j (answered x (act e.world).1) q
        → e' ≡ record e { world = (act e.world).0 }
        → Local n e e' w w'
    save :
        (j : J) (q : List J) (x : Option S) (s : S)
        → w ≡ busy j (answered x (ok s)) q
        → w' ≡ idle q
        → e' ≡ record e { entries = put (name_of j) s e.entries }
        → Local n e e' w w'
    fail :
        (j : J) (q : List J) (x : Option S) (m : String)
        → w ≡ busy j (answered x (failed m)) q
        → w' ≡ idle []
        → e' ≡ record e { errors = suc e.errors }
        → Local n e e' w w'

  pub data Step (s t : System W J S) : Type 0 where
    pick :
        (before after : List (Worker J S)) (w w' : Worker J S)
        → s.workers ≡ before ++ w ∷ after
        → t.workers ≡ before ++ w' ∷ after
        → Local (in_flight s.workers) s.shared t.shared w w'
        → Step s t

  pub data Reach (s : System W J S) : System W J S → Type 0 where
    here : Reach s s
    next : {t u : System W J S} → Reach s t → Step t u → Reach s u
