-- ===== src/Schedule/Loops.antt =====
-- What the launching loops of a layer promise: the workers under one semaphore describe them, and they
-- come to an end (executeToolNodesWithDelegationSerialization of internal/installer/engine/engine.go).
use tomei.Base.{◌+◌, ◌≤◌, ◌≡◌, refl, List, Map, ℤ, subst, arith}
use tomei.Resource.Tool.{Tool, ToolState}
use tomei.Resource.All.{Resource}
use tomei.Graph.Dag.{Node}
use tomei.Execute.Run.{Installer}
use tomei.Engine.Checks.{set_parallelism}
use tomei.Schedule.Defs.{Shared, Reach}
use tomei.Schedule.Delegation.{start_workers, node_call}
use tomei.Schedule.Layer.{begin, name_of_node, set_parallelism-bounds}
use tomei.Schedule.Launch.{Launching, Launches, started, launching, IsWaited}
use tomei.Schedule.Permits.{node_steps, group_steps, steps_left}
use tomei.Schedule.Finishes.{finish}
use tomei.Schedule.Launched.{as_system, taken, taken_bound, kept, Launches-Reach}

as_system-launching :
    {W : Type 0} (p : List Node × List (List Node)) (e : Shared W ToolState)
    → as_system (launching p e) ≡ begin p e
unfolding start_workers
as_system-launching p e = refl

module _ {W : Type 0} (inst : Installer W Tool ToolState) (resource_map : Map Resource) (n : ℤ)
    (p : List Node × List (List Node)) (e : Shared W ToolState) (t : Launching W Node ToolState)
    (run : Launches
      (set_parallelism n)
      name_of_node
      (node_call inst resource_map)
      (launching p e)
      t) where
  -- Whatever parallelism was set, and in whatever order the goroutines go on, a run of the launching loops
  -- is a run of the layer's workers under one semaphore, holds no more permits than the parallelism, and
  -- takes at most five steps for each node and one for each group; and each of its states can be run on to
  -- one in which all nodes and groups are started, all goroutines have returned and all permits are
  -- released.
  pub layer-Launches :
      Reach (set_parallelism n) name_of_node (node_call inst resource_map) (begin p e) (as_system t)
      × (t.held ≤ set_parallelism n)
      × (taken (set_parallelism n) name_of_node (node_call inst resource_map) run
          ≤ node_steps p.0 + group_steps p.1)
      × ((u : Launching W Node ToolState) × Launches
            (set_parallelism n)
            name_of_node
            (node_call inst resource_map)
            t
            u
          × IsWaited u
          × (u.held ≡ 0))
  layer-Launches =
      let limit = set_parallelism n in
      let call = node_call inst resource_map in
      let (balanced, bound) =
        kept limit name_of_node call (launching p e) t run refl (omega arith) in
      let (u, rest, (over, free)) =
        finish limit name_of_node call (steps_left t) t t
          (omega (arith, (set_parallelism-bounds n).0)) started (omega arith) balanced in
      (
        subst (λ s. Reach limit name_of_node call s (as_system t)) (as_system-launching p e)
            (Launches-Reach limit name_of_node call (launching p e) t run refl (omega arith)),
        bound,
        omega (arith, taken_bound limit name_of_node call (launching p e) t run),
        (u, rest, over, free),
      )
