-- ===== src/Base/Single.antt =====
-- A `range` loop over a map of one entry, or of none, has one order.
use Prim.Native.String.{String}
use mathlib.Core.Path.{◌≡◌, refl, ◌∙◌, ap₂}
use mathlib.Core.Bool.{true}
use mathlib.Core.Option
use mathlib.Core.Option.{some}
use mathlib.Core.List.{[], ◌∷◌}
use native.Mathlib.Omega.{arith}
use text.Mathlib.Text.{◌==◌}
use text.Mathlib.TextEquality.{eq_iff}
use tomei.Base.Counts.{count}
use tomei.Base.Maps.{Map, lookup, keys}
use tomei.Base.Range.{RangeOrder}

module _ {V : Type 0} where
  same_empty : (m : Map V) → ((k : String) → count k (keys m) ≡ 0) → m ≡ []
  same_empty [] h = refl
  same_empty ((j, v) ∷ m) h = absurd (ground (arith, h j, eq_iff j j))

  same_single :
      (k : String) (v : V) (m : Map V)
      → ((x : String) → count x (keys m) ≡ count x (k ∷ []))
      → lookup k m ≡ some v
      → m ≡ (k, v) ∷ []
  same_single k v [] h e = absurd (ground arith)
  same_single k v ((j, w) ∷ m) h e =
      let test : (j == k) ≡ true = ground (arith, h j, eq_iff j j, eq_iff k j, eq_iff j k) in
      let value : w ≡ v = Option.some-injective w v (rw test at e) in
      let none_left : m ≡ [] =
        same_empty m (λ x. ground (arith, h x, eq_iff j x, eq_iff k x, eq_iff j k)) in
      ap₂ (λ (p : String × V) (rest : Map V). p ∷ rest)
        (ap₂ (λ (a : String) (b : V). (a, b)) ((eq_iff j k).0 test) value) none_left

module _ (r : RangeOrder) {V : Type 0} where
  pub range_empty : r.range V [] ≡ []
  range_empty = same_empty (r.range V []) (r.count_range V [])

  pub range_single : (k : String) (v : V) → r.range V ((k, v) ∷ []) ≡ (k, v) ∷ []
  range_single k v =
      same_single k v (r.range V ((k, v) ∷ [])) (r.count_range V ((k, v) ∷ []))
        (r.lookup_range V ((k, v) ∷ []) k ∙ ground (arith, eq_iff k k))
