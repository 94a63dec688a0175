-- ===== src/Graph/Sort.antt =====
-- The order of nodes within a layer (internal/graph/dag.go): `kindPriority` and `sortNodesByKind`.
-- `slices.SortFunc` is modelled by a stable insertion sort with the same comparison.
use Prim.Native.String.{compare as compare_text}
use text.Mathlib.Text.{is_lt}
use tomei.Base.{ℕ, not, List, [], ◌∷◌, compare, Ordering, eqb, if◌then◌else◌}
use tomei.Resource.Kind.{Kind, installer, installer_repository, runtime, tool}
use tomei.Graph.Dag.{Node}

unfoldable pub kind_priority : Kind → ℕ
kind_priority runtime = 100
kind_priority installer = 200
kind_priority installer_repository = 250
kind_priority tool = 300
kind_priority _ = 1000

-- The sign of the comparison's `int`.
unfoldable pub compare_nodes : Node → Node → Ordering
unfolding kind_priority
compare_nodes a b =
    if not (eqb (kind_priority a.kind) (kind_priority b.kind))
    then compare (kind_priority a.kind) (kind_priority b.kind)
    else if is_lt (compare_text a.name b.name)
    then Ordering.lt
    else if is_lt (compare_text b.name a.name)
    then Ordering.gt
    else Ordering.eq

unfoldable pub insert_node : Node → List Node → List Node
insert_node n [] = n ∷ []
insert_node n (m ∷ ms) =
    let rest = insert_node n ms in if is_lt (compare_nodes m n) then m ∷ rest else n ∷ m ∷ ms

unfoldable pub sort_nodes_by_kind : List Node → List Node
sort_nodes_by_kind [] = []
sort_nodes_by_kind (n ∷ ns) = insert_node n (sort_nodes_by_kind ns)
