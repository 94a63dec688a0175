-- ===== src/Base/Maps.antt =====
-- A Go map with text keys: an association list. The order of its entries stands for the order in
-- which a `range` loop meets them, which Go leaves unspecified.
use Prim.Native.Nat.{suc, ◌≤◌, ◌<◌}
use Prim.Native.String.{String}
use mathlib.Core.Path.{◌≡◌, refl, ap}
use mathlib.Core.Bool.{Bool, true, false}
use mathlib.Core.Option
use mathlib.Core.Option.{Option, none, some}
use mathlib.Core.List.{List, [], ◌∷◌}
use native.Mathlib.Omega.{arith}
use text.Mathlib.Text.{◌==◌}
use text.Mathlib.TextEquality.{eq_iff}
use mathlib.Core.Logic.{inl, inr}
use tomei.Base.Tests.{if◌then◌else◌, Bool-cases}
use tomei.Base.Counts.{count, length}

abbrev pub Map {ℓ} : Type ℓ → Type ℓ
Map V = List (String × V)

-- `map[string]struct{}` and `map[string]bool` used as a set.
abbrev pub Set : Type 0
Set = Map (Unit {0})

module _ {ℓ} {V : Type ℓ} where
  -- `v, ok := m[k]`
  abbrev pub lookup : String → Map V → Option V
  lookup k [] = none
  lookup k ((j, v) ∷ m) = if j == k then some v else lookup k m

  -- `m[k]`, where a missing key reads as the zero value.
  abbrev pub get_or : V → String → Map V → V
  get_or d k [] = d
  get_or d k ((j, v) ∷ m) = if j == k then v else get_or d k m

  -- `m[k] = v`
  abbrev pub put : String → V → Map V → Map V
  put k v [] = (k, v) ∷ []
  put k v ((j, w) ∷ m) = if j == k then (k, v) ∷ m else (j, w) ∷ put k v m

  -- `delete(m, k)`
  abbrev pub delete : String → Map V → Map V
  delete k [] = []
  delete k ((j, v) ∷ m) = let rest = delete k m in if j == k then rest else (j, v) ∷ rest

  abbrev pub keys : Map V → List String
  keys [] = []
  keys ((j, v) ∷ m) = j ∷ keys m

  abbrev pub has : String → Map V → Bool
  has k [] = false
  has k ((j, v) ∷ m) = if j == k then true else has k m

  pub lookup-put :
      (k j : String) (v : V) (m : Map V)
      → lookup j (put k v m) ≡ (if k == j then some v else lookup j m)
  lookup-put k j v [] = refl
  lookup-put k j v ((i, w) ∷ m) =
      ground (arith, eq_iff k j, eq_iff i k, eq_iff i j, lookup-put k j v m)

  pub get_or-put :
      (d : V) (k j : String) (v : V) (m : Map V)
      → get_or d j (put k v m) ≡ (if k == j then v else get_or d j m)
  get_or-put d k j v [] = refl
  get_or-put d k j v ((i, w) ∷ m) =
      ground (arith, eq_iff k j, eq_iff i k, eq_iff i j, get_or-put d k j v m)

  pub lookup-delete :
      (k j : String) (m : Map V) → lookup j (delete k m) ≡ (if k == j then none else lookup j m)
  lookup-delete k j [] = ground arith
  lookup-delete k j ((i, w) ∷ m) =
      ground (arith, eq_iff k j, eq_iff i k, eq_iff i j, lookup-delete k j m)

  pub count-keys-put :
      (k j : String) (v : V) (m : Map V)
      → count j (keys (put k v m)) ≡ (
          if has k m
          then count j (keys m)
          else if k == j
          then suc (count j (keys m))
          else count j (keys m))
  count-keys-put k j v [] = ground arith
  count-keys-put k j v ((i, w) ∷ m) =
      ground (arith, eq_iff k j, eq_iff i k, eq_iff i j, count-keys-put k j v m)

  pub has-put :
      (k j : String) (v : V) (m : Map V) → has j (put k v m) ≡ (if k == j then true else has j m)
  has-put k j v [] = ground arith
  has-put k j v ((i, w) ∷ m) = ground (arith, eq_iff k j, eq_iff i k, eq_iff i j, has-put k j v m)

  pub has-count : (k : String) (m : Map V) → has k m ≡ true → 0 < count k (keys m)
  has-count k [] h = ground arith
  has-count k ((j, v) ∷ m) h = ground (arith, has-count k m)

  pub count_of_missing : (k : String) (m : Map V) → has k m ≡ false → count k (keys m) ≡ 0
  count_of_missing k [] h = refl
  count_of_missing k ((j, v) ∷ m) h = ground (arith, count_of_missing k m)

  pub has-lookup : (k : String) (m : Map V) → has k m ≡ true → (v : V) × (lookup k m ≡ some v)
  has-lookup k [] h = absurd (ground arith)
  has-lookup k ((j, v) ∷ m) h = elim (Bool-cases (j == k)) [
    | inl e ↦ (v, rw e)
    | inr e ↦ rw e (has-lookup k m (rw e at h))
  ]

  pub lookup_none : (k : String) (m : Map V) → has k m ≡ false → lookup k m ≡ none
  lookup_none k [] h = refl
  lookup_none k ((j, v) ∷ m) h = ground (arith, lookup_none k m)

  pub get_or_of_lookup :
      (d : V) (k : String) (m : Map V) (v : V) → lookup k m ≡ some v → get_or d k m ≡ v
  get_or_of_lookup d k [] v h = ground arith
  get_or_of_lookup d k ((j, w) ∷ m) v h = ground (arith, get_or_of_lookup d k m v)

  pub get_or_missing : (d : V) (k : String) (m : Map V) → has k m ≡ false → get_or d k m ≡ d
  get_or_missing d k [] h = refl
  get_or_missing d k ((j, w) ∷ m) h = ground (arith, get_or_missing d k m)

  pub length-keys : (m : Map V) → length (keys m) ≡ length m
  length-keys [] = refl
  length-keys ((j, w) ∷ m) = ap suc (length-keys m)

  -- A map's reads are one function of `lookup`.
  pub get_or-lookup : (d : V) (k : String) (m : Map V) → get_or d k m ≡ Option.get_or (lookup k m) d
  get_or-lookup d k [] = refl
  get_or-lookup d k ((j, w) ∷ m) = ground (arith, get_or-lookup d k m)

  pub has-of_count : (k : String) (m : Map V) → 0 < count k (keys m) → has k m ≡ true
  has-of_count k [] h = elim h [ ]
  has-of_count k ((j, w) ∷ m) h = ground (arith, has-of_count k m)

  pub length-keys-put :
      (k : String) (v : V) (m : Map V)
      → has k m ≡ false
      → length (keys (put k v m)) ≡ suc (length (keys m))
  length-keys-put k v [] h = refl
  length-keys-put k v ((j, w) ∷ m) h = ground (arith, length-keys-put k v m)

  pub has-of_lookup : (k : String) (m : Map V) → lookup k m ≡ none → has k m ≡ false
  has-of_lookup k [] h = refl
  has-of_lookup k ((j, w) ∷ m) h = ground (arith, has-of_lookup k m)

  pub has-of_some : (k : String) (m : Map V) (v : V) → lookup k m ≡ some v → has k m ≡ true
  has-of_some k [] v h = absurd (ground arith)
  has-of_some k ((j, w) ∷ m) v h = ground (arith, has-of_some k m v)

  -- The first key of a map without double keys stands nowhere behind.
  pub lookup_head : (k : String) (m : Map V) → count k (k ∷ keys m) ≤ 1 → lookup k m ≡ none
  lookup_head k m h = elim (Bool-cases (has k m)) [
    | inl e ↦ absurd (ground (arith, has-count k m e, eq_iff k k))
    | inr e ↦ lookup_none k m e
  ]

pub count_tail : (x k : String) (ks : List String) → count x (k ∷ ks) ≤ 1 → count x ks ≤ 1
count_tail x k ks h = ground arith
