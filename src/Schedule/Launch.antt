-- ===== src/Schedule/Launch.antt =====
-- The loops that launch the goroutines of a layer, with the permits of their semaphore as a counter
-- (executeToolNodesWithDelegationSerialization of internal/installer/engine/engine.go, and without groups
-- executeNodesParallel). The main loop takes a permit before it starts the goroutine of a download, and
-- starts the goroutine of a group without one; a group takes and releases a permit for each of its nodes.
-- The semaphore is not code of the repository: its documented behaviour is the counter. The context is
-- not cancelled here. A group alone, without downloads, is executed by the code in a plain loop, which is
-- the one goroutine of its run here. A failed node's error is added in the step that ends the node, before
-- its permit is released; a group adds it just after, and nothing reads the errors before all goroutines
-- are done.
use tomei.Base.{ℕ, suc, ◌<◌, String, ◌≡◌, Option, none, some, List, [], ◌∷◌, ◌++◌, lookup, put}
use tomei.Execute.Run.{Outcome, ok, failed}
use tomei.Schedule.Defs.{Phase, acquired, loaded, answered, Shared}

module _ (J S : Type 0) where
  -- A goroutine: before its next node and without a permit, at a node, or at the release of its permit.
  pub data Goroutine : Type 0 where
    waits : List J → Goroutine
    runs : J → Phase J S → List J → Goroutine
    ends : List J → Goroutine

pub record Launching (W J S : Type 0) : Type 0 where
  pub downloads : List J
  pub groups : List (List J)
  pub held : ℕ
  pub goroutines : List (Goroutine J S)
  pub shared : Shared W S

module _ {W J S : Type 0} (limit : ℕ) (name_of : J → String)
    (plan : J → Option S → Option (W → W × Outcome S)) where
  -- A step of one goroutine, which takes the permits that are held from `n` to `n'`.
  pub data Move (n n' : ℕ) (e e' : Shared W S) (g g' : Goroutine J S) : Type 0 where
    take :
        (j : J) (q : List J)
        → n < limit
        → g ≡ waits (j ∷ q)
        → g' ≡ runs j acquired q
        → n' ≡ suc n
        → e' ≡ e
        → Move n n' e e' g g'
    load :
        (j : J) (q : List J)
        → g ≡ runs j acquired q
        → g' ≡ runs j (loaded (lookup (name_of j) e.entries)) q
        → n' ≡ n
        → e' ≡ e
        → Move n n' e e' g g'
    skip :
        (j : J) (q : List J) (x : Option S)
        → plan j x ≡ none
        → g ≡ runs j (loaded x) q
        → g' ≡ ends q
        → n' ≡ n
        → e' ≡ e
        → Move n n' e e' g g'
    install :
        (j : J) (q : List J) (x : Option S) (act : W → W × Outcome S)
        → plan j x ≡ some act
        → g ≡ runs j (loaded x) q
        → g' ≡ runs j (answered x (act e.world).1) q
        → n' ≡ n
        → e' ≡ record e { world = (act e.world).0 }
        → Move n n' e e' g g'
    save :
        (j : J) (q : List J) (x : Option S) (s : S)
        → g ≡ runs j (answered x (ok s)) q
        → g' ≡ ends q
        → n' ≡ n
        → e' ≡ record e { entries = put (name_of j) s e.entries }
        → Move n n' e e' g g'
    fail :
        (j : J) (q : List J) (x : Option S) (m : String)
        → g ≡ runs j (answered x (failed m)) q
        → g' ≡ ends []
        → n' ≡ n
        → e' ≡ record e { errors = suc e.errors }
        → Move n n' e e' g g'
    release : (q : List J) → g ≡ ends q → g' ≡ waits q → n ≡ suc n' → e' ≡ e → Move n n' e e' g g'

  -- A step of the main loops, or of one goroutine.
  pub data Launch (s t : Launching W J S) : Type 0 where
    start_download :
        (j : J) (ds : List J)
        → s.held < limit
        → s.downloads ≡ j ∷ ds
        → t ≡ record s {
          downloads = ds;
          held = suc s.held;
          goroutines = s.goroutines ++ runs j acquired [] ∷ [];
        }
        → Launch s t
    start_group :
        (g : List J) (gs : List (List J))
        → s.downloads ≡ []
        → s.groups ≡ g ∷ gs
        → t ≡ record s { groups = gs; goroutines = s.goroutines ++ waits g ∷ [] }
        → Launch s t
    move :
        (before after : List (Goroutine J S)) (g g' : Goroutine J S) (n : ℕ) (e : Shared W S)
        → s.goroutines ≡ before ++ g ∷ after
        → Move s.held n s.shared e g g'
        → t ≡ record s { held = n; goroutines = before ++ g' ∷ after; shared = e }
        → Launch s t

  pub data Launches (s : Launching W J S) : Launching W J S → Type 0 where
    started : Launches s s
    further : {t u : Launching W J S} → Launches s t → Launch t u → Launches s u

-- The start of the loops, after the nodes are split.
abbrev pub launching : {W J S : Type 0} → List J × List (List J) → Shared W S → Launching W J S
launching p e = record { downloads = p.0; groups = p.1; held = 0; goroutines = []; shared = e }

-- What `wg.Wait` waits for: nothing is left to start, and each goroutine has returned.
module _ {J S : Type 0} where
  abbrev pub Returned : List (Goroutine J S) → Type 0
  Returned [] = Unit {0}
  Returned (waits [] ∷ gs) = Returned gs
  Returned (waits (j ∷ q) ∷ gs) = ⊥
  Returned (runs j p q ∷ gs) = ⊥
  Returned (ends q ∷ gs) = ⊥

module _ {W J S : Type 0} where
  abbrev pub IsWaited : Launching W J S → Type 0
  IsWaited s = (s.downloads ≡ []) × (s.groups ≡ []) × Returned s.goroutines
