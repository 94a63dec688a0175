-- ===== src/Schedule/Finishes.antt =====
-- How the launching loops go on from any of their states
-- (executeToolNodesWithDelegationSerialization of internal/installer/engine/engine.go).
use tomei.Base.{
  ℕ, zero, suc, ◌≤◌, ◌<◌, String, ◌≡◌, refl, ap, ◌∙◌, Option, List, [], ◌∷◌, ◌++◌, lookup, put,
  arith, ◌⊎◌, inl, inr, Option-cases, List-cases,
}
use tomei.Execute.Run.{Outcome, ok, failed}
use tomei.Schedule.Defs.{acquired, loaded, answered, Shared}
use tomei.Schedule.Launch.{
  Goroutine, waits, runs, ends, Launching, Move, take, load, skip, install, save, fail, release,
  Launch, start_download, start_group, move, Launches, further, Returned, IsWaited,
}
use tomei.Schedule.Permits.{
  permit, permits, steps_left, IsBalanced, Launch-IsBalanced, Launch-steps,
}

zero_or : (n : ℕ) → (n ≡ 0) ⊎ (0 < n)
zero_or n = ground arith

module _ {J S : Type 0} where
  -- A goroutine of the list that holds a permit.
  Holder : List (Goroutine J S) → Type 0
  Holder gs =
      (before : List (Goroutine J S)) × (after : List (Goroutine J S)) × (g : Goroutine J S)
      × (permit g ≡ 1)
      × (gs ≡ before ++ g ∷ after)

  find-Holder : (gs : List (Goroutine J S)) → 0 < permits gs → Holder gs
  unfolding Holder
  find-Holder [] h = absurd (omega arith)
  find-Holder (runs j p q ∷ gs) h = ([], gs, runs j p q, refl, refl)
  find-Holder (ends q ∷ gs) h = ([], gs, ends q, refl, refl)
  find-Holder (waits q ∷ gs) h =
      let (before, after, g, one, e) = find-Holder gs (omega (arith, h)) in
      (waits q ∷ before, after, g, one, ap (λ vs. waits q ∷ vs) e)

  -- A goroutine of the list that waits for a permit for its next node.
  Waiter : List (Goroutine J S) → Type 0
  Waiter gs =
      (before : List (Goroutine J S)) × (after : List (Goroutine J S)) × (j : J) × (q : List J)
      × (gs ≡ before ++ waits (j ∷ q) ∷ after)

  Waiter-cases : (gs : List (Goroutine J S)) → permits gs ≡ 0 → Returned gs ⊎ Waiter gs
  unfolding Waiter
  Waiter-cases [] h = inl tt
  Waiter-cases (runs j p q ∷ gs) h = absurd (omega arith)
  Waiter-cases (ends q ∷ gs) h = absurd (omega arith)
  Waiter-cases (waits (j ∷ q) ∷ gs) h = inr ([], gs, j, q, refl)
  Waiter-cases (waits [] ∷ gs) h = elim (Waiter-cases gs (omega (arith, h))) [
    | inl r ↦ inl r
    | inr (before, after, j, q, e) ↦
        inr (waits [] ∷ before, after, j, q, ap (λ vs. waits [] ∷ vs) e)
  ]

  Returned-permits : (gs : List (Goroutine J S)) → Returned gs → permits gs ≡ 0
  Returned-permits [] h = refl
  Returned-permits (waits (_ ∷ _) ∷ gs) h = elim h [ ]
  Returned-permits (runs _ _ _ ∷ gs) h = elim h [ ]
  Returned-permits (ends _ ∷ gs) h = elim h [ ]
  Returned-permits (waits [] ∷ gs) h = omega (arith, Returned-permits gs h)

module _ {W J S : Type 0} (limit : ℕ) (name_of : J → String)
    (plan : J → Option S → Option (W → W × Outcome S)) where
  -- What a goroutine with a permit does next.
  holder_move :
      (n : ℕ) (e : Shared W S) (g : Goroutine J S)
      → 0 < n
      → permit g ≡ 1
      → (n' : ℕ) × (e' : Shared W S) × (g' : Goroutine J S) × Move limit name_of plan n n' e e' g g'
  holder_move n e (waits q) h k = absurd (omega arith)
  holder_move zero e (ends q) h k = absurd (omega arith)
  holder_move (suc n) e (ends q) h k = (n, e, waits q, release q refl refl refl refl)
  holder_move n e (runs j acquired q) h k =
      (n, e, runs j (loaded (lookup (name_of j) e.entries)) q, load j q refl refl refl refl)
  holder_move n e (runs j (loaded x) q) h k = elim (Option-cases (plan j x)) [
    | inl p ↦ (n, e, ends q, skip j q x p refl refl refl refl)
    | inr (act, p) ↦ (
      n,
      record e { world = (act e.world).0 },
      runs j (answered x (act e.world).1) q,
      install j q x act p refl refl refl refl,
    )
  ]
  holder_move n e (runs j (answered x (ok v)) q) h k = (
    n,
    record e { entries = put (name_of j) v e.entries },
    ends q,
    save j q x v refl refl refl refl,
  )
  holder_move n e (runs j (answered x (failed m)) q) h k =
      (n, record e { errors = suc e.errors }, ends [], fail j q x m refl refl refl refl)

  abbrev Next : Launching W J S → Type 0
  Next s = (t : Launching W J S) × Launch limit name_of plan s t

  Holder-Next : (s : Launching W J S) → 0 < s.held → Holder s.goroutines → Next s
  unfolding Holder
  Holder-Next s h (before, after, g, one, p) =
      let (n, e, g', m) = holder_move s.held s.shared g h one in
      (
        record s { held = n; goroutines = before ++ g' ∷ after; shared = e },
        move before after g g' n e p m refl,
      )

  Waiter-Next : (s : Launching W J S) → s.held < limit → Waiter s.goroutines → Next s
  unfolding Waiter
  Waiter-Next s h (before, after, j, q, p) = (
    record s { held = suc s.held; goroutines = before ++ runs j acquired q ∷ after },
    move before after (waits (j ∷ q)) (runs j acquired q) (suc s.held) s.shared p
        (take j q h refl refl refl refl) refl,
  )

  -- With the permits balanced, either all is waited for or there is a next step.
  Next-cases : (s : Launching W J S) → 0 < limit → IsBalanced s → IsWaited s ⊎ Next s
  Next-cases s h b = elim (zero_or (permits s.goroutines)) [
    | inr k ↦ inr (Holder-Next s (omega (arith, b)) (find-Holder s.goroutines k))
    | inl z ↦
        let free : s.held < limit = omega (arith, b) in
        elim (List-cases s.downloads) [
          | inr (j, ds, d) ↦ inr (_, start_download j ds free d refl)
          | inl d ↦ elim (List-cases s.groups) [
            | inr (g, gs, k) ↦ inr (_, start_group g gs d k refl)
            | inl k ↦ elim (Waiter-cases s.goroutines z) [
              | inl r ↦ inl (d, k, r)
              | inr w ↦ inr (Waiter-Next s free w)
            ]
          ]
        ]
  ]

  -- A state with all its goroutines returned and no permit held.
  abbrev pub Finished : Launching W J S → Type 0
  Finished u = IsWaited u × (u.held ≡ 0)

  -- With as many steps as are left, any run is brought to its end.
  pub finish :
      (k : ℕ) (s t : Launching W J S)
      → 0 < limit
      → Launches limit name_of plan s t
      → steps_left t ≤ k
      → IsBalanced t
      → (u : Launching W J S) × Launches limit name_of plan s u × Finished u
  finish zero s t h run left b = elim (Next-cases t h b) [
    | inl w ↦ (t, run, (w, b ∙ Returned-permits t.goroutines (w.2)))
    | inr (u, step) ↦ absurd (omega (arith, Launch-steps limit name_of plan t u step))
  ]
  finish (suc k) s t h run left b = elim (Next-cases t h b) [
    | inl w ↦ (t, run, (w, b ∙ Returned-permits t.goroutines (w.2)))
    | inr (u, step) ↦
        finish k s u h (further run step) (omega (arith, Launch-steps limit name_of plan t u step))
          (Launch-IsBalanced limit name_of plan t u step b)
  ]
