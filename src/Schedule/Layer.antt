-- ===== src/Schedule/Layer.antt =====
-- The tool nodes of a layer, executed concurrently (executeToolNodesWithDelegationSerialization of
-- internal/installer/engine/engine.go): what holds from the start to the end.
use tomei.Base.{
  ◌≤◌, String, ◌≡◌, refl, subst, Option, List, [], ◌∷◌, ◌++◌, Map, lookup, count, RangeOrder, ℤ,
  pos, negsuc, arith, eq_iff, ◌==◌, Bool-cases, inl, inr,
}
use tomei.Resource.Tool.{Tool, ToolState}
use tomei.Resource.All.{Resource}
use tomei.Graph.Dag.{Node}
use tomei.Execute.Run.{Installer, Outcome}
use tomei.Engine.Checks.{set_parallelism}
use tomei.Engine.Node.{done}
use tomei.Schedule.Defs.{Phase, answered, Worker, busy, jobs_of, in_flight, Shared, System, Reach}
use tomei.Schedule.Apart.{All, All-right, Far, Apart, Apart-tail}
use tomei.Schedule.Locals.{KeyClash, Fresh, IsSound}
use tomei.Schedule.Invariant.{Reach-IsSound}
use tomei.Schedule.Delegation.{
  partition_tools_by_delegation, single_workers, group_workers, start_workers, node_call,
}
use tomei.Schedule.Start.{node_key, start_workers-Apart}
use tomei.Schedule.Distinct.{Apart-names}
use tomei.Schedule.Names.{texts, start_workers-count}

pub set_parallelism-bounds : (n : ℤ) → (1 ≤ set_parallelism n) × (set_parallelism n ≤ 20)
unfolding set_parallelism
set_parallelism-bounds (pos n) = ground arith
set_parallelism-bounds (negsuc n) = ground arith

abbrev pub begin :
    {W : Type 0} → List Node × List (List Node) → Shared W ToolState → System W Node ToolState
begin p e = record { workers = start_workers p; shared = e }

group_workers_idle :
    (gs : List (List Node)) (name_of : Node → String) (m : Map ToolState)
    → (in_flight (group_workers gs) ≡ 0) × All (Fresh name_of m) (group_workers gs)
group_workers_idle [] name_of m = (refl, tt)
group_workers_idle (g ∷ gs) name_of m =
    let rest = group_workers_idle gs name_of m in (rest.0, (tt, rest.1))

single_workers_idle :
    (ds : List Node) (ws : List (Worker Node ToolState)) (name_of : Node → String)
    (m : Map ToolState)
    → (in_flight ws ≡ 0) × All (Fresh name_of m) ws
    → (in_flight (single_workers ds ws) ≡ 0) × All (Fresh name_of m) (single_workers ds ws)
single_workers_idle [] ws name_of m h = h
single_workers_idle (d ∷ ds) ws name_of m h =
    let rest = single_workers_idle ds ws name_of m h in (rest.0, (tt, rest.1))

start_workers_idle :
    (p : List Node × List (List Node)) (name_of : Node → String) (m : Map ToolState)
    → (in_flight (start_workers p) ≡ 0) × All (Fresh name_of m) (start_workers p)
unfolding start_workers
start_workers_idle p name_of m =
    single_workers_idle p.0 (group_workers p.1) name_of m (group_workers_idle p.1 name_of m)

abbrev pub name_of_node : Node → String
name_of_node n = n.name

module _ {W : Type 0} (r : RangeOrder) (inst : Installer W Tool ToolState)
    (resource_map : Map Resource) (nodes : List Node) (p : List Node × List (List Node)) (n : ℤ)
    (e : Shared W ToolState) (t : System W Node ToolState) where
  -- A state that the workers of the layer can reach.
  abbrev pub Runs : Type 0
  Runs = Reach (set_parallelism n) name_of_node (node_call inst resource_map) (begin p e) t

  -- No two nodes of the layer have one name.
  abbrev pub Distinct : Type 0
  Distinct = (x : String) → count x (texts name_of_node nodes) ≤ 1

  layer-IsSound :
      partition_tools_by_delegation r resource_map nodes ≡ done p
      → Distinct
      → Runs
      → IsSound (set_parallelism n) name_of_node (node_key resource_map) t
  layer-IsSound h d run =
      let start = start_workers_idle p name_of_node e.entries in
      Reach-IsSound (set_parallelism n) name_of_node (node_key resource_map)
        (node_call inst resource_map) (begin p e) t run
        (record {
          bounded = ground (arith, start.0);
          keys = start_workers-Apart resource_map r nodes p h;
          names = Apart-names name_of_node (start_workers p) (λ x.
              ground (arith, d x, start_workers-count name_of_node r resource_map nodes p x h));
          fresh = start.1;
        })

  -- However the workers of a layer of distinct names interleave, at most 20 nodes, and at most as many
  -- as the parallelism that was set, are executed at a time.
  pub layer_bound :
      partition_tools_by_delegation r resource_map nodes ≡ done p
      → Distinct
      → Runs
      → (in_flight t.workers ≤ set_parallelism n) × (in_flight t.workers ≤ 20)
  layer_bound h d run =
      let b = (layer-IsSound h d run).bounded in (b, omega (arith, b, (set_parallelism-bounds n).1))

  -- However the workers of a layer of distinct names interleave, two nodes that are executed at the same
  -- time never have the same delegation key, unless they have none.
  pub layer_keys :
      (before between after : List (Worker Node ToolState)) (i j : Node)
      (u v : Phase Node ToolState) (q q' : List Node)
      → partition_tools_by_delegation r resource_map nodes ≡ done p
      → Distinct
      → Runs
      → t.workers ≡ before ++ busy i u q ∷ (between ++ busy j v q' ∷ after)
      → node_key resource_map i ≡ node_key resource_map j
      → node_key resource_map i ≡ ""
  layer_keys before between after i j u v q q' h d run place same =
      let C = KeyClash (node_key resource_map) in
      let apart = subst (Apart C) place (layer-IsSound h d run).keys in
      let near = Apart-tail C before (busy i u q ∷ (between ++ busy j v q' ∷ after)) apart in
      let clash =
        (All-right (λ w. Far C (i ∷ q) (jobs_of w)) between (busy j v q' ∷ after) near.0).0 in
      elim (Bool-cases (node_key resource_map i == "")) [
        | inl b ↦ (eq_iff (node_key resource_map i) "").0 b
        | inr b ↦
            absurd
              (clash.0.0 (same, λ k. ground (arith, b, (eq_iff (node_key resource_map i) "").1 k)))
      ]

  -- No update is lost: however the workers of a layer of distinct names interleave, when the installer
  -- has answered for a node, the entry that the node was reconciled with is still the one stored.
  pub layer_entry :
      (before after : List (Worker Node ToolState)) (j : Node) (x : Option ToolState)
      (o : Outcome ToolState) (q : List Node)
      → partition_tools_by_delegation r resource_map nodes ≡ done p
      → Distinct
      → Runs
      → t.workers ≡ before ++ busy j (answered x o) q ∷ after
      → lookup j.name t.shared.entries ≡ x
  layer_entry before after j x o q h d run place =
      let F = Fresh name_of_node t.shared.entries in
      (All-right F before (busy j (answered x o) q ∷ after)
        (subst (All F) place (layer-IsSound h d run).fresh)).0
