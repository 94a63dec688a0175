-- ===== src/Schedule/Ends.antt =====
-- How many steps the execution of a layer's tool nodes takes at most
-- (executeToolNodesWithDelegationSerialization of internal/installer/engine/engine.go).
use Prim.Native.Nat.{◌*◌}
use tomei.Base.{◌+◌, ◌≤◌, ◌≡◌, refl, List, [], ◌∷◌, ◌++◌, count, RangeOrder, ℤ, Map, length, arith}
use tomei.Resource.Tool.{Tool, ToolState}
use tomei.Resource.All.{Resource}
use tomei.Graph.Dag.{Node}
use tomei.Execute.Run.{Installer}
use tomei.Engine.Checks.{set_parallelism}
use tomei.Engine.Node.{done}
use tomei.Schedule.Defs.{Worker, Shared, System, Reach}
use tomei.Schedule.Delegation.{
  partition_tools_by_delegation, single_workers, group_workers, start_workers, node_call,
}
use tomei.Schedule.Names.{texts, all_jobs, start_workers-count}
use tomei.Schedule.Layer.{begin, name_of_node}
use tomei.Schedule.Progress.{queued, total_work, steps, steps_bound}

queued-append : (xs ys : List Node) → queued (xs ++ ys) ≡ queued xs + queued ys
queued-append [] ys = omega arith
queued-append (x ∷ xs) ys = omega (arith, queued-append xs ys)

group_work :
    (gs : List (List Node)) → total_work (group_workers gs) ≡ queued (all_jobs (group_workers gs))
group_work [] = refl
group_work (g ∷ gs) = omega (arith, group_work gs, queued-append g (all_jobs (group_workers gs)))

single_work :
    (ds : List Node) (ws : List (Worker Node ToolState))
    → total_work ws ≡ queued (all_jobs ws)
    → total_work (single_workers ds ws) ≡ queued (all_jobs (single_workers ds ws))
single_work [] ws h = h
single_work (d ∷ ds) ws h = omega (arith, single_work ds ws h)

queued_count : (ns : List Node) → queued ns ≡ count "" (texts (λ n. "") ns) * 4
queued_count [] = refl
queued_count (n ∷ ns) = omega (arith, queued_count ns)

count-length : (ns : List Node) → count "" (texts (λ n. "") ns) ≡ length ns
count-length [] = refl
count-length (n ∷ ns) = ground (arith, count-length ns)

start_work :
    (r : RangeOrder) (resource_map : Map Resource) (nodes : List Node)
    (p : List Node × List (List Node))
    → partition_tools_by_delegation r resource_map nodes ≡ done p
    → total_work (start_workers p) ≡ length nodes * 4
unfolding start_workers
start_work r m nodes p h =
    let all = single_work p.0 (group_workers p.1) (group_work p.1) in
    omega (
      arith,
      all,
      queued_count (all_jobs (start_workers p)),
      start_workers-count (λ n. "") r m nodes p "" h,
      count-length nodes,
    )

module _ {W : Type 0} (r : RangeOrder) (inst : Installer W Tool ToolState)
    (resource_map : Map Resource) (nodes : List Node) (p : List Node × List (List Node)) (n : ℤ)
    (e : Shared W ToolState) (t : System W Node ToolState)
    (run : Reach (set_parallelism n) name_of_node (node_call inst resource_map) (begin p e) t) where
  -- No run of the workers of a layer takes more than four steps for each of its nodes.
  pub layer_steps :
      partition_tools_by_delegation r resource_map nodes ≡ done p
      → steps (set_parallelism n) name_of_node (node_call inst resource_map) run ≤ length nodes * 4
  layer_steps h = omega (
    arith,
    steps_bound (set_parallelism n) name_of_node (node_call inst resource_map) (begin p e) t run,
    start_work r resource_map nodes p h,
  )
