-- ===== src/State/Keys.antt =====
-- The names that two maps' difference looks at (collectKeys of internal/state/diff.go).
use tomei.Base.{
  ◌≤◌, ◌<◌, String, ◌≡◌, refl, ap, ◌∙◌, true, ◌||◌, List, [], ◌∷◌, Map, Set, put, keys, has, count,
  arith, eq_iff, if◌then◌else◌, count-keys-put, has-put, has-count, count_of_missing,
}
use tomei.State.Diff.{insert_string, sort_strings, see_keys, collect_keys}

count-insert : (n x : String) (xs : List String) → count n (insert_string x xs) ≡ count n (x ∷ xs)
count-insert n x [] = refl
count-insert n x (y ∷ ys) = ground (arith, count-insert n x ys)

count-sort : (n : String) (xs : List String) → count n (sort_strings xs) ≡ count n xs
count-sort n [] = refl
count-sort n (x ∷ xs) = count-insert n x (sort_strings xs) ∙ ground (arith, count-sort n xs)

module _ {V : Type 0} where
  has-see :
      (n : String) (m : Map V) (seen : Set) → has n (see_keys m seen) ≡ (has n m || has n seen)
  has-see n [] seen = refl
  has-see n ((k, v) ∷ m) seen = has-see n m (put k tt seen) ∙ ground (arith, has-put k n tt seen)

  count-see :
      (n : String) (m : Map V) (seen : Set)
      → count n (keys seen) ≤ 1
      → count n (keys (see_keys m seen)) ≤ 1
  count-see n [] seen h = h
  count-see n ((k, v) ∷ m) seen h = count-see n m (put k tt seen) (
      ground (
        arith,
        count-keys-put k n tt seen,
        eq_iff k n,
        count_of_missing k seen,
        ap (λ x. count x (keys seen)),
      ))

  pub has-collect_keys :
      (n : String) (a b : Map V) → 0 < count n (collect_keys a b) → (has n a || has n b) ≡ true
  unfolding collect_keys
  has-collect_keys n a b h = ground (
    arith,
    count-sort n (keys (see_keys b (see_keys a []))),
    has-see n b (see_keys a []),
    has-see n a [],
    count_of_missing n (see_keys b (see_keys a [])),
  )

  pub count-collect_keys :
      (n : String) (a b : Map V)
      → count n (collect_keys a b) ≡ (if has n a || has n b then 1 else 0)
  unfolding collect_keys
  count-collect_keys n a b = ground (
    arith,
    count-sort n (keys (see_keys b (see_keys a []))),
    has-see n b (see_keys a []),
    has-see n a [],
    count-see n b (see_keys a []) (count-see n a [] (omega arith)),
    has-count n (see_keys b (see_keys a [])),
    count_of_missing n (see_keys b (see_keys a [])),
  )
