-- ===== src/Schedule/Apart.antt =====
-- Workers whose queues have no pair of clashing nodes, and the replacement of one of them.
use tomei.Base.{◌+◌, ◌≡◌, refl, sym, subst, List, [], ◌∷◌, ◌++◌, arith}
use tomei.Schedule.Defs.{Worker, idle, busy, jobs_of, in_flight}

abbrev pub All : {A : Type 0} → (A → Type 0) → List A → Type 0
All P [] = Unit
All P (x ∷ xs) = P x × All P xs

pub All-map :
    {A : Type 0} (P Q : A → Type 0) (xs : List A) → ((x : A) → P x → Q x) → All P xs → All Q xs
All-map P Q [] f h = tt
All-map P Q (x ∷ xs) f h = (f x h.0, All-map P Q xs f h.1)

pub All-append :
    {A : Type 0} (P : A → Type 0) (xs ys : List A) → All P xs → All P ys → All P (xs ++ ys)
All-append P [] ys h k = k
All-append P (x ∷ xs) ys h k = (h.0, All-append P xs ys h.1 k)

pub All-left : {A : Type 0} (P : A → Type 0) (xs ys : List A) → All P (xs ++ ys) → All P xs
All-left P [] ys h = tt
All-left P (x ∷ xs) ys h = (h.0, All-left P xs ys h.1)

pub All-right : {A : Type 0} (P : A → Type 0) (xs ys : List A) → All P (xs ++ ys) → All P ys
All-right P [] ys h = h
All-right P (x ∷ xs) ys h = All-right P xs ys h.1

-- What a step leaves of a queue.
pub data Shrinks {J : Type 0} (xs : List J) : List J → Type 0 where
  same : {ys : List J} → xs ≡ ys → Shrinks xs ys
  tail : (x : J) (ys : List J) → xs ≡ x ∷ ys → Shrinks xs ys
  empty : {ys : List J} → ys ≡ [] → Shrinks xs ys

pub All-Shrinks :
    {J : Type 0} (P : J → Type 0) (xs ys : List J) → Shrinks xs ys → All P xs → All P ys
All-Shrinks P xs ys (same e) h = subst (All P) e h
All-Shrinks P xs ys (tail x _ e) h = (subst (All P) e h).1
All-Shrinks P xs ys (empty e) h = subst (All P) (sym e) tt

module _ {J : Type 0} (C : J → J → Type 0) where
  -- No node of one queue clashes with a node of the other.
  abbrev pub Far : List J → List J → Type 0
  Far xs ys = All (λ i. All (λ j. ¬ C i j) ys) xs

  Far-left : (xs xs' ys : List J) → Shrinks xs xs' → Far xs ys → Far xs' ys
  Far-left xs xs' ys s h = All-Shrinks (λ i. All (λ j. ¬ C i j) ys) xs xs' s h

  Far-right : (xs ys ys' : List J) → Shrinks ys ys' → Far xs ys → Far xs ys'
  Far-right xs ys ys' s h =
      All-map (λ i. All (λ j. ¬ C i j) ys) (λ i. All (λ j. ¬ C i j) ys') xs
        (λ i. All-Shrinks (λ j. ¬ C i j) ys ys' s) h

  pub Far-flip : (xs ys : List J) → ((i j : J) → C i j → C j i) → Far xs ys → Far ys xs
  Far-flip xs [] s h = tt
  Far-flip xs (y ∷ ys) s h = (
    All-map (λ i. All (λ j. ¬ C i j) (y ∷ ys)) (λ i. ¬ C y i) xs (λ i a c. a.0 (s y i c)) h,
    Far-flip xs ys s (Far-right xs (y ∷ ys) ys (tail y ys refl) h),
  )

module _ {J S : Type 0} (C : J → J → Type 0) where
  abbrev pub Apart : List (Worker J S) → Type 0
  Apart [] = Unit
  Apart (w ∷ ws) = All (λ v. Far C (jobs_of w) (jobs_of v)) ws × Apart ws

  replace_right :
      (u w w' : Worker J S) (before after : List (Worker J S))
      → Shrinks (jobs_of w) (jobs_of w')
      → All (λ v. Far C (jobs_of u) (jobs_of v)) (before ++ w ∷ after)
      → All (λ v. Far C (jobs_of u) (jobs_of v)) (before ++ w' ∷ after)
  replace_right u w w' [] after s h = (Far-right C (jobs_of u) (jobs_of w) (jobs_of w') s h.0, h.1)
  replace_right u w w' (b ∷ before) after s h = (h.0, replace_right u w w' before after s h.1)

  -- A worker whose queue shrinks stays apart from the others.
  pub Apart-replace :
      (w w' : Worker J S) (before after : List (Worker J S))
      → Shrinks (jobs_of w) (jobs_of w')
      → Apart (before ++ w ∷ after)
      → Apart (before ++ w' ∷ after)
  Apart-replace w w' [] after s h = (
    All-map (λ v. Far C (jobs_of w) (jobs_of v)) (λ v. Far C (jobs_of w') (jobs_of v)) after
        (λ v. Far-left C (jobs_of w) (jobs_of w') (jobs_of v) s) h.0,
    h.1,
  )
  Apart-replace w w' (b ∷ before) after s h =
      (replace_right b w w' before after s h.0, Apart-replace w w' before after s h.1)

  pub Apart-tail : (xs ys : List (Worker J S)) → Apart (xs ++ ys) → Apart ys
  Apart-tail [] ys h = h
  Apart-tail (x ∷ xs) ys h = Apart-tail xs ys h.1

  pub Apart-before :
      (w : Worker J S) (before after : List (Worker J S))
      → Apart (before ++ w ∷ after)
      → All (λ v. Far C (jobs_of v) (jobs_of w)) before
  Apart-before w [] after h = tt
  Apart-before w (b ∷ before) after h = (
    (All-right (λ v. Far C (jobs_of b) (jobs_of v)) before (w ∷ after) h.0).0,
    Apart-before w before after h.1,
  )

  pub Apart-after :
      (w : Worker J S) (before after : List (Worker J S))
      → Apart (before ++ w ∷ after)
      → All (λ v. Far C (jobs_of w) (jobs_of v)) after
  Apart-after w [] after h = h.0
  Apart-after w (b ∷ before) after h = Apart-after w before after h.1

pub in_flight-append :
    {J S : Type 0} (xs ys : List (Worker J S)) → in_flight (xs ++ ys) ≡ in_flight xs + in_flight ys
in_flight-append [] ys = omega arith
in_flight-append (idle q ∷ xs) ys = in_flight-append xs ys
in_flight-append (busy j p q ∷ xs) ys = omega (arith, in_flight-append xs ys)
