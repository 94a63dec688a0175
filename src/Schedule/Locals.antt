-- ===== src/Schedule/Locals.antt =====
-- What a sound state of the workers of a layer is (internal/installer/engine/engine.go), and what one
-- step of one worker keeps of it.
use tomei.Base.{
  ℕ, ◌≤◌, ◌<◌, String, ◌≡◌, refl, sym, ap, ◌∙◌, ◌⊎◌, inl, inr, subst, Option, List, [], ◌∷◌, Map,
  lookup, put, lookup-put, arith, eq_iff,
}
use tomei.Execute.Run.{Outcome}
use tomei.Schedule.Defs.{
  acquired, loaded, answered, Worker, idle, busy, jobs_of, in_flight, Shared, System, Local,
  acquire, load, skip, install, save, fail,
}
use tomei.Schedule.Apart.{All, Shrinks, same, tail, empty, Apart, Far}

module _ {J : Type 0} where
  -- Two nodes of one name.
  abbrev pub NameClash : (J → String) → J → J → Type 0
  NameClash name_of i j = name_of i ≡ name_of j

  -- Two nodes of one delegation group.
  abbrev pub KeyClash : (J → String) → J → J → Type 0
  KeyClash key_of i j = (key_of i ≡ key_of j) × ¬ (key_of i ≡ "")

module _ {J S : Type 0} (name_of : J → String) where
  -- The entry that a worker has read is still the one that is stored.
  abbrev pub Fresh : Map S → Worker J S → Type 0
  Fresh m (idle q) = Unit
  Fresh m (busy j acquired q) = Unit
  Fresh m (busy j (loaded x) q) = lookup (name_of j) m ≡ x
  Fresh m (busy j (answered x o) q) = lookup (name_of j) m ≡ x

  -- The queue of a worker in which no node has the name `n`.
  Avoids : String → Worker J S → Type 0
  Avoids n v = All (λ i. ¬ (n ≡ name_of i)) (jobs_of v)

  kept_entry :
      (n : String) (s : S) (m : Map S) (v : Worker J S)
      → Avoids n v
      → Fresh m v
      → Fresh (put n s m) v
  unfolding Avoids
  kept_entry n s m (idle q) a f = tt
  kept_entry n s m (busy j acquired q) a f = tt
  kept_entry n s m (busy j (loaded x) q) a f =
      ground (arith, lookup-put n (name_of j) s m, eq_iff n (name_of j), a.0, f)
  kept_entry n s m (busy j (answered x o) q) a f =
      ground (arith, lookup-put n (name_of j) s m, eq_iff n (name_of j), a.0, f)

  kept_entries :
      (j : J) (q : List J) (s : S) (m : Map S) (vs : List (Worker J S))
      → All (λ v. Far (NameClash name_of) (j ∷ q) (jobs_of v)) vs
      → All (Fresh m) vs
      → All (Fresh (put (name_of j) s m)) vs
  unfolding Avoids
  kept_entries j q s m [] far f = tt
  kept_entries j q s m (v ∷ vs) far f =
      (kept_entry (name_of j) s m v far.0.0 f.0, kept_entries j q s m vs far.1 f.1)

module _ {W J S : Type 0} (limit : ℕ) (name_of key_of : J → String) where
  pub record IsSound (s : System W J S) : Type 0 where
    pub bounded : in_flight s.workers ≤ limit
    pub keys : Apart (KeyClash key_of) s.workers
    pub names : Apart (NameClash name_of) s.workers
    pub fresh : All (Fresh name_of s.shared.entries) s.workers

module _ {W J S : Type 0} (limit : ℕ) (name_of : J → String)
    (plan : J → Option S → Option (W → W × Outcome S)) where
  pub local_queue :
      (n : ℕ) (e e' : Shared W S) (w w' : Worker J S)
      → Local limit name_of plan n e e' w w'
      → Shrinks (jobs_of w) (jobs_of w')
  local_queue n e e' w w' (acquire j q h a b k) = same (ap jobs_of a ∙ sym (ap jobs_of b))
  local_queue n e e' w w' (load j q a b k) = same (ap jobs_of a ∙ sym (ap jobs_of b))
  local_queue n e e' w w' (skip j q x h a b k) = tail j (jobs_of w') (rw (a, b) refl)
  local_queue n e e' w w' (install j q x act h a b k) = same (ap jobs_of a ∙ sym (ap jobs_of b))
  local_queue n e e' w w' (save j q x s a b k) = tail j (jobs_of w') (rw (a, b) refl)
  local_queue n e e' w w' (fail j q x m a b k) = empty (ap jobs_of b)

  -- A worker takes the semaphore only when fewer than the limit hold it.
  pub local_holds :
      (n : ℕ) (e e' : Shared W S) (w w' : Worker J S)
      → Local limit name_of plan n e e' w w'
      → (in_flight (w' ∷ []) ≤ in_flight (w ∷ []))
        ⊎ ((n < limit) × (in_flight (w' ∷ []) ≤ 1) × (in_flight (w ∷ []) ≡ 0))
  local_holds n e e' w w' (acquire j q h a b k) = inr (h, rw b (ground arith), rw a refl)
  local_holds n e e' w w' (load j q a b k) = inl (rw (a, b) (ground arith))
  local_holds n e e' w w' (skip j q x h a b k) = inl (rw (a, b) (ground arith))
  local_holds n e e' w w' (install j q x act h a b k) = inl (rw (a, b) (ground arith))
  local_holds n e e' w w' (save j q x s a b k) = inl (rw (a, b) (ground arith))
  local_holds n e e' w w' (fail j q x m a b k) = inl (rw (a, b) (ground arith))

  pub local_entry :
      (n : ℕ) (e e' : Shared W S) (w w' : Worker J S)
      → Local limit name_of plan n e e' w w'
      → Fresh name_of e.entries w
      → Fresh name_of e'.entries w'
  local_entry n e e' w w' (acquire j q h a b k) f = subst (Fresh name_of e'.entries) (sym b) tt
  local_entry n e e' w w' (load j q a b k) f =
      subst (Fresh name_of e'.entries) (sym b)
        (ap (λ (y : Shared W S). lookup (name_of j) y.entries) k)
  local_entry n e e' w w' (skip j q x h a b k) f = subst (Fresh name_of e'.entries) (sym b) tt
  local_entry n e e' w w' (install j q x act h a b k) f = subst (Fresh name_of e'.entries) (sym b) (
      ap (λ (y : Shared W S). lookup (name_of j) y.entries) k ∙ subst (Fresh name_of e.entries) a f)
  local_entry n e e' w w' (save j q x s a b k) f = subst (Fresh name_of e'.entries) (sym b) tt
  local_entry n e e' w w' (fail j q x m a b k) f = subst (Fresh name_of e'.entries) (sym b) tt

  pub local_others :
      (n : ℕ) (e e' : Shared W S) (w w' : Worker J S) (vs : List (Worker J S))
      → Local limit name_of plan n e e' w w'
      → All (λ v. Far (NameClash name_of) (jobs_of w) (jobs_of v)) vs
      → All (Fresh name_of e.entries) vs
      → All (Fresh name_of e'.entries) vs
  local_others n e e' w w' vs (acquire j q h a b k) far f =
      subst (λ (y : Shared W S). All (Fresh name_of y.entries) vs) (sym k) f
  local_others n e e' w w' vs (load j q a b k) far f =
      subst (λ (y : Shared W S). All (Fresh name_of y.entries) vs) (sym k) f
  local_others n e e' w w' vs (skip j q x h a b k) far f =
      subst (λ (y : Shared W S). All (Fresh name_of y.entries) vs) (sym k) f
  local_others n e e' w w' vs (install j q x act h a b k) far f =
      subst (λ (y : Shared W S). All (Fresh name_of y.entries) vs) (sym k) f
  local_others n e e' w w' vs (save j q x s a b k) far f =
      let away : All (λ v. Far (NameClash name_of) (j ∷ q) (jobs_of v)) vs =
        subst (λ u. All (λ v. Far (NameClash name_of) (jobs_of u) (jobs_of v)) vs) a far in
      subst (λ (y : Shared W S). All (Fresh name_of y.entries) vs) (sym k)
        (kept_entries name_of j q s e.entries vs away f)
  local_others n e e' w w' vs (fail j q x m a b k) far f =
      subst (λ (y : Shared W S). All (Fresh name_of y.entries) vs) (sym k) f
