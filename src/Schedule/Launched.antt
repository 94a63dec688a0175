-- ===== src/Schedule/Launched.antt =====
-- The launching loops of a layer against the workers under one semaphore
-- (executeToolNodesWithDelegationSerialization of internal/installer/engine/engine.go).
use tomei.Base.{
  ℕ, suc, ◌+◌, ◌≤◌, ◌<◌, String, ◌≡◌, refl, ap, ◌∙◌, sym, subst, Option, List, [], ◌∷◌, ◌++◌, arith,
  ◌⊎◌, inl, inr,
}
use tomei.Resource.Tool.{ToolState}
use tomei.Graph.Dag.{Node}
use tomei.Execute.Run.{Outcome}
use tomei.Schedule.Defs as Defs
use tomei.Schedule.Defs.{
  Phase, acquired, loaded, answered, Worker, idle, busy, in_flight, Shared, System, Local, Step,
  pick, Reach,
}
use tomei.Schedule.Delegation.{single_workers, group_workers}
use tomei.Schedule.Launch.{
  Goroutine, waits, runs, ends, Launching, Move, take, load, skip, install, save, fail, release,
  Launch, start_download, start_group, move, Launches, started, further,
}
use tomei.Schedule.Permits.{
  permits, steps_left, IsBalanced, Launch-IsBalanced, Launch-steps, Launch-held,
}

-- A goroutine as a worker: the release of its permit is part of the step before it.
abbrev pub as_worker : {J S : Type 0} → Goroutine J S → Worker J S
as_worker (waits q) = idle q
as_worker (runs j p q) = busy j p q
as_worker (ends q) = idle q

abbrev pub as_workers :
    {J S : Type 0} → List (Goroutine J S) → List (Worker J S) → List (Worker J S)
as_workers [] rest = rest
as_workers (g ∷ gs) rest = as_worker g ∷ as_workers gs rest

-- The nodes and groups that are not started are workers that wait.
abbrev pub as_system : {W : Type 0} → Launching W Node ToolState → System W Node ToolState
as_system s = record {
  workers = as_workers s.goroutines (single_workers s.downloads (group_workers s.groups));
  shared = s.shared;
}

module _ {J S : Type 0} where
  as_workers-append :
      (gs : List (Goroutine J S)) (g : Goroutine J S) (rest : List (Worker J S))
      → as_workers (gs ++ g ∷ []) rest ≡ as_workers gs (as_worker g ∷ rest)
  as_workers-append [] g rest = refl
  as_workers-append (x ∷ gs) g rest = ap (λ ws. as_worker x ∷ ws) (as_workers-append gs g rest)

  as_workers-split :
      (before after : List (Goroutine J S)) (rest : List (Worker J S))
      → as_workers (before ++ after) rest ≡ as_workers before [] ++ as_workers after rest
  as_workers-split [] after rest = refl
  as_workers-split (x ∷ before) after rest =
      ap (λ ws. as_worker x ∷ ws) (as_workers-split before after rest)

  as_workers_rest :
      (gs : List (Goroutine J S)) (rest : List (Worker J S))
      → as_workers gs rest ≡ as_workers gs [] ++ rest
  as_workers_rest [] rest = refl
  as_workers_rest (x ∷ gs) rest = ap (λ ws. as_worker x ∷ ws) (as_workers_rest gs rest)

  in_flight-permits :
      (gs : List (Goroutine J S)) (rest : List (Worker J S))
      → in_flight (as_workers gs rest) ≤ permits gs + in_flight rest
  in_flight-permits [] rest = omega arith
  in_flight-permits (waits q ∷ gs) rest = omega (arith, in_flight-permits gs rest)
  in_flight-permits (runs j p q ∷ gs) rest = omega (arith, in_flight-permits gs rest)
  in_flight-permits (ends q ∷ gs) rest = omega (arith, in_flight-permits gs rest)

in_flight-groups : (gs : List (List Node)) → in_flight (group_workers gs) ≡ 0
in_flight-groups [] = refl
in_flight-groups (g ∷ gs) = in_flight-groups gs

in_flight-unstarted :
    (ds : List Node) (gs : List (List Node)) → in_flight (single_workers ds (group_workers gs)) ≡ 0
in_flight-unstarted [] gs = in_flight-groups gs
in_flight-unstarted (d ∷ ds) gs = in_flight-unstarted ds gs

module _ {W : Type 0} where
  in_flight-held :
      (s : Launching W Node ToolState) → IsBalanced s → in_flight (as_system s).workers ≤ s.held
  in_flight-held s b = omega (
    arith,
    b,
    in_flight-permits s.goroutines (single_workers s.downloads (group_workers s.groups)),
    in_flight-unstarted s.downloads s.groups,
  )

module _ {W J S : Type 0} (limit : ℕ) (name_of : J → String)
    (plan : J → Option S → Option (W → W × Outcome S)) where
  -- A step of a goroutine is a step of its worker, except the release of a permit.
  Move-Local :
      (k n n' : ℕ) (e e' : Shared W S) (g g' : Goroutine J S)
      → k ≤ n
      → Move limit name_of plan n n' e e' g g'
      → ((as_worker g ≡ as_worker g') × (e ≡ e'))
        ⊎ Local limit name_of plan k e e' (as_worker g) (as_worker g')
  Move-Local k n n' e e' g g' h (take j q l a b c d) =
      inr (Defs.acquire j q (omega arith) (ap as_worker a) (ap as_worker b) d)
  Move-Local k n n' e e' g g' h (load j q a b c d) =
      inr (Defs.load j q (ap as_worker a) (ap as_worker b) d)
  Move-Local k n n' e e' g g' h (skip j q x p a b c d) =
      inr (Defs.skip j q x p (ap as_worker a) (ap as_worker b) d)
  Move-Local k n n' e e' g g' h (install j q x act p a b c d) =
      inr (Defs.install j q x act p (ap as_worker a) (ap as_worker b) d)
  Move-Local k n n' e e' g g' h (save j q x s a b c d) =
      inr (Defs.save j q x s (ap as_worker a) (ap as_worker b) d)
  Move-Local k n n' e e' g g' h (fail j q x m a b c d) =
      inr (Defs.fail j q x m (ap as_worker a) (ap as_worker b) d)
  Move-Local k n n' e e' g g' h (release q a b c d) =
      inl (ap as_worker a ∙ sym (ap as_worker b), sym d)

  -- The number of steps of a run.
  abbrev pub taken : {s t : Launching W J S} → Launches limit name_of plan s t → ℕ
  taken started = 0
  taken (further r p) = suc (taken r)

  pub taken_bound :
      (s t : Launching W J S) (run : Launches limit name_of plan s t)
      → taken run + steps_left t ≤ steps_left s
  taken_bound s _ started = omega arith
  taken_bound s u (further {t} r p) =
      omega (arith, taken_bound s t r, Launch-steps limit name_of plan t u p)

  pub kept :
      (s t : Launching W J S)
      → Launches limit name_of plan s t
      → IsBalanced s
      → s.held ≤ limit
      → IsBalanced t × (t.held ≤ limit)
  kept s _ started b h = (b, h)
  kept s u (further {t} r p) b h =
      let (b', h') = kept s t r b h in
      (Launch-IsBalanced limit name_of plan t u p b', Launch-held limit name_of plan t u p h')

module _ {W : Type 0} (limit : ℕ) (name_of : Node → String)
    (plan : Node → Option ToolState → Option (W → W × Outcome ToolState)) where
  abbrev Same : Launching W Node ToolState → Launching W Node ToolState → Type 0
  Same s t = (as_system s ≡ as_system t) ⊎ Step limit name_of plan (as_system s) (as_system t)

  Launch-Step :
      (s t : Launching W Node ToolState) → IsBalanced s → Launch limit name_of plan s t → Same s t
  Launch-Step s t b (start_download j ds h d e) =
      let left : in_flight (as_system s).workers < limit = omega (arith, in_flight-held s b) in
      let rest = single_workers ds (group_workers s.groups) in
      rw (e, d)
        (inr (
          pick (as_workers s.goroutines []) rest (idle (j ∷ [])) (busy j acquired [])
            (as_workers_rest s.goroutines (idle (j ∷ []) ∷ rest))
            (as_workers-append s.goroutines (runs j acquired []) rest
              ∙ as_workers_rest s.goroutines (busy j acquired [] ∷ rest))
            (Defs.acquire j [] (rw d at left) refl refl refl)))
  Launch-Step s t b (start_group g gs d k e) =
      rw (e, d, k)
        (inl (
          ap (λ ws. record { workers = ws; shared = s.shared })
            (sym (as_workers-append s.goroutines (waits g) (group_workers gs)))))
  Launch-Step s t b (move before after g g' n x p m e) =
      let rest = single_workers s.downloads (group_workers s.groups) in
      let old = ap (λ gs. as_workers gs rest) p ∙ as_workers-split before (g ∷ after) rest in
      let new = as_workers-split before (g' ∷ after) rest in
      rw e
        (elim (Move-Local limit name_of plan (in_flight (as_system s).workers) s.held n s.shared x g
          g' (in_flight-held s b) m) [
            | inl (same, still) ↦ inl (
                ap (λ ws. record { workers = ws; shared = s.shared })
                  (old ∙ ap (λ w. as_workers before [] ++ w ∷ as_workers after rest) same ∙ sym new)
                ∙ ap (λ y. record { workers = as_workers (before ++ g' ∷ after) rest; shared = y })
                    still)
            | inr l ↦ inr (
                pick (as_workers before []) (as_workers after rest) (as_worker g) (as_worker g') old
                  new l)
          ])

  pub Launches-Reach :
      (s t : Launching W Node ToolState)
      → Launches limit name_of plan s t
      → IsBalanced s
      → s.held ≤ limit
      → Reach limit name_of plan (as_system s) (as_system t)
  Launches-Reach s _ started b h = Defs.here
  Launches-Reach s u (further {t} r p) b h =
      let before = Launches-Reach s t r b h in
      elim (Launch-Step t u (kept limit name_of plan s t r b h).0 p) [
        | inl same ↦ subst (λ y. Reach limit name_of plan (as_system s) y) same before
        | inr step ↦ Defs.next before step
      ]
