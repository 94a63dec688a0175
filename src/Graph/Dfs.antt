-- ===== src/Graph/Dfs.antt =====
-- Cycle detection (internal/graph/dag.go, `detectCycle`): a depth-first search with three colours.
-- `deps` gives the dependencies of a node in the order in which the loop over `g.edges[node]` meets
-- them. The recursion takes fuel, and so does the walk up the `parent` map.
use mathlib.Core.Option
use mathlib.Core.List.{reverse}
use tomei.Base.{
  ℕ, zero, suc, String, Option, none, some, List, [], ◌∷◌, ◌++◌, length, Map, get_or, put, keys,
  RangeOrder, ◌==◌, if◌then◌else◌,
}
use tomei.Graph.Dag.{Dag}

pub data Color : Type 0 where
  white gray black : Color

pub record Search : Type 0 where
  pub color : Map Color
  pub parent : Map String

-- `found c` is `return true` with the cycle, `clear s` is `return false`.
pub data Visit : Type 0 where
  found : List String → Visit
  clear : Search → Visit
  out_of_fuel : Visit

-- `for curr := node; curr != dep; curr = parent[curr] { cycle = append(cycle, curr) }`
unfoldable pub collect : ℕ → Map String → String → String → List String → Option (List String)
collect zero parent dep curr cycle = none
collect (suc fuel) parent dep curr cycle =
    let rest = collect fuel parent dep (get_or "" curr parent) (cycle ++ curr ∷ []) in
    if curr == dep then some cycle else rest

abbrev pub report : Option (List String) → Visit
report none = out_of_fuel
report (some c) = found c

unfoldable pub cycle_path : ℕ → Map String → String → String → Option (List String)
cycle_path fuel parent node dep =
    Option.map (λ c. reverse (c ++ dep ∷ [])) (collect fuel parent dep node (dep ∷ []))

-- `if dfs(dep) { return true }`, then the rest.
abbrev pub and_then : Visit → (Search → Visit) → Visit
and_then (clear t) rest = rest t
and_then (found c) rest = found c
and_then out_of_fuel rest = out_of_fuel

module _ (size : ℕ) (deps : String → List String) where
  -- The loop over the dependencies of `node`; `visit` is the recursive call.
  unfoldable pub visit_deps : (String → Search → Visit) → String → List String → Search → Visit
  visit_deps visit node [] s = clear (record s { color = put node black s.color })
  visit_deps visit node (dep ∷ rest) s = elim (get_or white dep s.color) [
    | gray ↦ report (cycle_path size s.parent node dep)
    | white ↦
        and_then (visit dep (record s { parent = put dep node s.parent }))
          (visit_deps visit node rest)
    | black ↦ visit_deps visit node rest s
  ]

  unfoldable pub dfs : ℕ → String → Search → Visit
  dfs zero node s = out_of_fuel
  dfs (suc fuel) node s =
      visit_deps (dfs fuel) node (deps node) (record s { color = put node gray s.color })

  -- The loop over all nodes.
  unfoldable pub visit_roots : List String → Search → Visit
  visit_roots [] s = clear s
  visit_roots (id ∷ ids) s = elim (get_or white id s.color) [
    | white ↦ and_then (dfs size id s) (visit_roots ids)
    | gray ↦ visit_roots ids s
    | black ↦ visit_roots ids s
  ]

-- `for dep := range g.edges[node]`
abbrev pub ranged_deps : RangeOrder → Dag → String → List String
ranged_deps r g node = keys (r.range (Unit {0}) (get_or [] node g.edges))

unfoldable pub detect_cycle : RangeOrder → Dag → Visit
detect_cycle r g =
    visit_roots (length g.nodes) (ranged_deps r g) (keys (r.range _ g.nodes))
      (record { color = []; parent = [] })
