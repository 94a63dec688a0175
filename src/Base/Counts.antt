-- ===== src/Base/Counts.antt =====
-- Lists of names as multisets: membership, distinctness and permutation are facts about `count`.
use Prim.Native.Nat.{ℕ, suc, ◌+◌, ◌≤◌, ◌<◌}
use Prim.Native.String.{String}
use mathlib.Core.Path.{◌≡◌, refl}
use mathlib.Core.Bool.{Bool, true, false, ◌||◌}
use mathlib.Core.List.{List, [], ◌∷◌, ◌++◌}
use native.Mathlib.Omega.{arith}
use text.Mathlib.Text.{◌==◌}
use text.Mathlib.TextEquality.{eq_iff}
use tomei.Base.Tests.{if◌then◌else◌}

module _ {ℓ} {A : Type ℓ} where
  abbrev pub length : List A → ℕ
  length [] = 0
  length (x ∷ xs) = suc (length xs)

-- How often a name stands in a list.
abbrev pub count : String → List String → ℕ
count x [] = 0
count x (y ∷ ys) = if y == x then suc (count x ys) else count x ys

abbrev pub IsIn : String → List String → Type 0
IsIn x xs = 0 < count x xs

abbrev pub elem : String → List String → Bool
elem x [] = false
elem x (y ∷ ys) = if y == x then true else elem x ys

pub count-append : (x : String) (xs ys : List String) → count x (xs ++ ys) ≡ count x xs + count x ys
count-append x [] ys = omega arith
count-append x (y ∷ xs) ys = ground (arith, count-append x xs ys)

pub elem-count : (x : String) (xs : List String) → elem x xs ≡ true → 0 < count x xs
elem-count x [] h = ground arith
elem-count x (y ∷ ys) h = ground (arith, elem-count x ys)

pub count_of_absent : (x : String) (xs : List String) → elem x xs ≡ false → count x xs ≡ 0
count_of_absent x [] h = refl
count_of_absent x (y ∷ ys) h = ground (arith, count_of_absent x ys)

-- How many entries of `ds` (with repetition) do not stand in `done`.
abbrev pub pending : List String → List String → ℕ
pending done [] = 0
pending done (d ∷ ds) = if elem d done then pending done ds else suc (pending done ds)

pub pending_nil : (ds : List String) → pending [] ds ≡ length ds
pending_nil [] = refl
pending_nil (d ∷ ds) = ground (arith, pending_nil ds)

pub elem-append_single :
    (x y : String) (xs : List String) → elem x (xs ++ y ∷ []) ≡ (if y == x then true else elem x xs)
elem-append_single x y [] = ground arith
elem-append_single x y (z ∷ xs) = ground (arith, elem-append_single x y xs)

-- One more name is done: the entries of that name are no longer pending.
pub pending-snoc :
    (done : List String) (y : String) (ds : List String)
    → elem y done ≡ false
    → pending (done ++ y ∷ []) ds + count y ds ≡ pending done ds
pending-snoc done y [] h = omega arith
pending-snoc done y (d ∷ ds) h =
    ground (arith, pending-snoc done y ds h, elem-append_single d y done, eq_iff y d, eq_iff d y)

pub pending_zero :
    (done ds : List String) (d : String) → pending done ds ≡ 0 → 0 < count d ds → 0 < count d done
pending_zero done [] d h k = elim k [ ]
pending_zero done (e ∷ ds) d h k =
    ground (arith, pending_zero done ds d, eq_iff e d, elem-count e done)

pub pending_of_all :
    (done ds : List String)
    → ((d : String) → 0 < count d ds → elem d done ≡ true)
    → pending done ds ≡ 0
pending_of_all done [] h = refl
pending_of_all done (d ∷ ds) h =
    ground (arith, h d, eq_iff d d, pending_of_all done ds (λ e k. h e (ground arith)))

pub pending-cons :
    (done : List String) (y : String) (ds : List String)
    → elem y done ≡ false
    → pending (y ∷ done) ds + count y ds ≡ pending done ds
pending-cons done y [] h = omega arith
pending-cons done y (d ∷ ds) h = ground (arith, pending-cons done y ds h, eq_iff y d, eq_iff d y)

pub pending_mono :
    (a b ds : List String)
    → ((x : String) → elem x a ≡ true → elem x b ≡ true)
    → pending b ds ≤ pending a ds
pending_mono a b [] h = omega arith
pending_mono a b (d ∷ ds) h = ground (arith, h d, pending_mono a b ds h)

pub elem-append : (x : String) (xs ys : List String) → elem x (xs ++ ys) ≡ (elem x xs || elem x ys)
elem-append x [] ys = refl
elem-append x (y ∷ xs) ys = ground (arith, elem-append x xs ys)

pub count-elem : (x : String) (xs : List String) → 0 < count x xs → elem x xs ≡ true
count-elem x [] h = elim h [ ]
count-elem x (y ∷ ys) h = ground (arith, count-elem x ys)

pub pending-le : (done ds : List String) → pending done ds ≤ length ds
pending-le done [] = omega arith
pending-le done (d ∷ ds) = ground (arith, pending-le done ds)
