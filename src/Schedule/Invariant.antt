-- ===== src/Schedule/Invariant.antt =====
-- What holds in every run of the workers of a layer (internal/installer/engine/engine.go): the bound of
-- the semaphore, the delegation keys in use, the entries that workers rely on.
use tomei.Base.{ℕ, ◌+◌, ◌≤◌, String, ◌≡◌, sym, subst, Option, List, [], ◌∷◌, ◌++◌, arith}
use tomei.Execute.Run.{Outcome}
use tomei.Schedule.Defs.{
  Worker, idle, busy, jobs_of, in_flight, Shared, System, Local, Step, pick, Reach, here, next,
}
use tomei.Schedule.Apart.{
  All, All-map, All-append, All-left, All-right, Apart, Apart-replace, Apart-before, Apart-after,
  in_flight-append, Far, Far-flip,
}
use tomei.Schedule.Locals.{
  NameClash, KeyClash, Fresh, IsSound, local_queue, local_holds, local_entry, local_others,
}

holds_split :
    {J S : Type 0} (before after : List (Worker J S)) (w : Worker J S)
    → in_flight (before ++ w ∷ after) ≡ in_flight before + in_flight (w ∷ []) + in_flight after
holds_split before after (idle q) = omega (arith, in_flight-append before (idle q ∷ after))
holds_split before after (busy j p q) = omega (arith, in_flight-append before (busy j p q ∷ after))

module _ {W J S : Type 0} (limit : ℕ) (name_of key_of : J → String)
    (plan : J → Option S → Option (W → W × Outcome S)) where
  stays_bounded :
      (before after : List (Worker J S)) (w w' : Worker J S) (e e' : Shared W S)
      → Local limit name_of plan (in_flight (before ++ w ∷ after)) e e' w w'
      → in_flight (before ++ w ∷ after) ≤ limit
      → in_flight (before ++ w' ∷ after) ≤ limit
  stays_bounded before after w w' e e' l h = ground (
    arith,
    holds_split before after w,
    holds_split before after w',
    local_holds limit name_of plan (in_flight (before ++ w ∷ after)) e e' w w' l,
  )

  stays_current :
      (before after : List (Worker J S)) (w w' : Worker J S) (e e' : Shared W S)
      → Local limit name_of plan (in_flight (before ++ w ∷ after)) e e' w w'
      → Apart (NameClash name_of) (before ++ w ∷ after)
      → All (Fresh name_of e.entries) (before ++ w ∷ after)
      → All (Fresh name_of e'.entries) (before ++ w' ∷ after)
  stays_current before after w w' e e' l a f =
      let n = in_flight (before ++ w ∷ after) in
      let F = Fresh name_of e.entries in
      let C = NameClash name_of in
      let right = All-right F before (w ∷ after) f in
      All-append (Fresh name_of e'.entries) before (w' ∷ after)
        (local_others limit name_of plan n e e' w w' before l
          (All-map (λ v. Far C (jobs_of v) (jobs_of w)) (λ v. Far C (jobs_of w) (jobs_of v)) before
            (λ v. Far-flip C (jobs_of v) (jobs_of w) (λ i j. sym))
            (Apart-before C w before after a))
          (All-left F before (w ∷ after) f))
        (
          local_entry limit name_of plan n e e' w w' l right.0,
          local_others limit name_of plan n e e' w w' after l (Apart-after C w before after a)
              right.1,
        )

  pub IsSound-replace :
      (before after : List (Worker J S)) (w w' : Worker J S) (e e' : Shared W S)
      → Local limit name_of plan (in_flight (before ++ w ∷ after)) e e' w w'
      → IsSound limit name_of key_of (record { workers = before ++ w ∷ after; shared = e })
      → IsSound limit name_of key_of (record { workers = before ++ w' ∷ after; shared = e' })
  IsSound-replace before after w w' e e' l h =
      let shrinks = local_queue limit name_of plan (in_flight (before ++ w ∷ after)) e e' w w' l in
      record {
        bounded = stays_bounded before after w w' e e' l h.bounded;
        keys = Apart-replace (KeyClash key_of) w w' before after shrinks h.keys;
        names = Apart-replace (NameClash name_of) w w' before after shrinks h.names;
        fresh = stays_current before after w w' e e' l h.names h.fresh;
      }

  Step-IsSound :
      (s t : System W J S)
      → Step limit name_of plan s t
      → IsSound limit name_of key_of s
      → IsSound limit name_of key_of t
  Step-IsSound s t (pick before after w w' a b l) h =
      let s' : System W J S = record { workers = before ++ w ∷ after; shared = s.shared } in
      let h' =
        subst (λ ws. IsSound limit name_of key_of (record { workers = ws; shared = s.shared })) a
          h in
      let l' = subst (λ ws. Local limit name_of plan (in_flight ws) s.shared t.shared w w') a l in
      subst (λ ws. IsSound limit name_of key_of (record { workers = ws; shared = t.shared }))
        (sym b) (IsSound-replace before after w w' s.shared t.shared l' h')

  pub Reach-IsSound :
      (s t : System W J S)
      → Reach limit name_of plan s t
      → IsSound limit name_of key_of s
      → IsSound limit name_of key_of t
  Reach-IsSound s _ here h = h
  Reach-IsSound s u (next {t} r p) h = Step-IsSound t u p (Reach-IsSound s t r h)
