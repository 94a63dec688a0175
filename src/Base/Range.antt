-- ===== src/Base/Range.antt =====
-- The order of a `range` loop over a Go map. The Go specification leaves the order open and says
-- that each entry is met exactly once; so the loops of the model take the order as a parameter, and
-- `in_order`, the order of the association list itself, shows that the laws can hold.
use Prim.Native.String.{String}
use mathlib.Core.Path.{◌≡◌, refl}
use tomei.Base.Counts.{count}
use tomei.Base.Maps.{Map, lookup, keys}

pub record RangeOrder : Type 1 where
  pub range : (V : Type 0) → Map V → Map V
  -- Every key is met as often as the map holds it, with the value that the map holds.
  pub count_range :
      (V : Type 0) (m : Map V) (k : String) → count k (keys (range V m)) ≡ count k (keys m)
  pub lookup_range : (V : Type 0) (m : Map V) (k : String) → lookup k (range V m) ≡ lookup k m

abbrev pub in_order : RangeOrder
in_order = record { range = λ V m. m; count_range = λ V m k. refl; lookup_range = λ V m k. refl }
