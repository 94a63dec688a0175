-- ===== src/Schedule/Solo.antt =====
-- A node of a worker that nothing comes between does what `executeToolNode` does
-- (internal/installer/engine/engine.go).
use tomei.Base.{
  ℕ, suc, ◌<◌, String, ◌≡◌, refl, sym, subst, Option, none, some, List, [], ◌∷◌, ◌++◌, Map, lookup,
  RangeOrder, Bool-cases, inl, inr,
}
use tomei.Resource.Kind.{Kind}
use tomei.Resource.Version.{ActionType}
use tomei.Resource.Tool.{Tool, ToolState}
use tomei.Resource.All.{Resource, tool}
use tomei.Graph.Dag.{Node, node_id}
use tomei.Reconcile.Core.{spec_action}
use tomei.Reconcile.Comparators.{tool_comparator}
use tomei.Reconcile.Single.{reconcile_single}
use tomei.Execute.Cache.{StateCache, cached_store, tool_map_accessor}
use tomei.Execute.Run.{Outcome, ok, failed, Executed, execute, install, save_outcome, old_bin_path}
use tomei.Execute.Keeps.{action_of}
use tomei.Engine.Handle.{Installers}
use tomei.Engine.Node.{count_action, run_first, node_actions, execute_tool_node}
use tomei.Schedule.Defs.{
  acquired, loaded, answered, Worker, idle, busy, in_flight, Shared, System, acquire, load, skip,
  install as install_step, save, fail, pick, Reach, here, next,
}
use tomei.Schedule.Delegation.{node_call, tool_call}

-- The error count and the rest of the queue after a node.
abbrev pub errors_after : Option String → ℕ → ℕ
errors_after none n = n
errors_after (some e) n = suc n

abbrev pub queue_after : Option String → List Node → List Node
queue_after none q = q
queue_after (some e) q = []

-- What the workers see of an execution.
abbrev pub shared_of : {W : Type 0} → Executed W → ℕ → Shared W ToolState
shared_of x n = record {
  entries = x.cache.cache.tools;
  world = x.world;
  errors = errors_after x.error n;
}

module _ {W : Type 0} (r : RangeOrder) (ins : Installers W) (limit : ℕ)
    (resource_map : Map Resource) (before after : List (Worker Node ToolState)) (q : List Node)
    (t : Tool) (w : W) (c : StateCache) (total n : ℕ) where
  -- The node that the resolver makes for a tool.
  abbrev node : Node
  node = record { id = node_id Kind.tool t.metadata.name; kind = Kind.tool; name = t.metadata.name }

  abbrev at : Worker Node ToolState → Shared W ToolState → System W Node ToolState
  at v e = record { workers = before ++ v ∷ after; shared = e }

  -- What is reached from the state before the node.
  abbrev Reaches : Worker Node ToolState → Shared W ToolState → Type 0
  Reaches v e =
      Reach limit (λ (j : Node). j.name) (node_call ins.tools resource_map)
        (at (idle (node ∷ q)) (record { entries = c.cache.tools; world = w; errors = n })) (at v e)

  abbrev found : Option ToolState
  found = lookup node.name c.cache.tools

  reach_loaded :
      in_flight (before ++ idle (node ∷ q) ∷ after) < limit
      → Reaches
          (busy node (loaded found) q)
          (record { entries = c.cache.tools; world = w; errors = n })
  reach_loaded h =
      next
        (next here (
          pick before after (idle (node ∷ q)) (busy node acquired q) refl refl
            (acquire node q h refl refl refl)))
        (pick before after (busy node acquired q) (busy node (loaded found) q) refl refl
          (load node q refl refl refl))

  abbrev Ends : Executed W → Type 0
  Ends x = Reaches (idle (queue_after x.error q)) (shared_of x n)

  -- The installer has answered `p`.
  answered_result :
      (p : W × Outcome ToolState) (type : ActionType) (s : Option ToolState) (reason : String)
      → Reaches
          (busy node (answered found p.1) q)
          (record { entries = c.cache.tools; world = p.0; errors = n })
      → Ends
          (count_action ins.tools
            (cached_store tool_map_accessor)
            Kind.tool
            "tool"
            (action_of type t.metadata.name (some t) s reason)
            (save_outcome ins.tools (cached_store tool_map_accessor) Kind.tool t.metadata.name c p)
            total).0
  unfolding count_action cached_store tool_map_accessor
  answered_result (w', ok v) type s reason h = next h (
      pick before after (busy node (answered found (ok v)) q) (idle q) refl refl
        (save node q found v refl refl refl))
  answered_result (w', failed m) type s reason h = next h (
      pick before after (busy node (answered found (failed m)) q) (idle []) refl refl
        (fail node q found m refl refl refl))

  -- The node calls the installer by `act`.
  called_result :
      (act : W → W × Outcome ToolState) (type : ActionType) (s : Option ToolState) (reason : String)
      → node_call ins.tools resource_map node found ≡ some act
      → in_flight (before ++ idle (node ∷ q) ∷ after) < limit
      → Ends
          (count_action ins.tools
            (cached_store tool_map_accessor)
            Kind.tool
            "tool"
            (action_of type t.metadata.name (some t) s reason)
            (save_outcome ins.tools
              (cached_store tool_map_accessor)
              Kind.tool
              t.metadata.name
              c
              (act w))
            total).0
  called_result act type s reason h k = answered_result (act w) type s reason (
      next (reach_loaded k) (
        pick before after (busy node (loaded found) q) (busy node (answered found (act w).1) q) refl
          refl (install_step node q found act h refl refl refl)))

  spec_result :
      (e : Option ToolState)
      → found ≡ e
      → node_call ins.tools resource_map node found ≡ tool_call ins.tools t e
      → in_flight (before ++ idle (node ∷ q) ∷ after) < limit
      → Ends
          (run_first ins.tools
            (cached_store tool_map_accessor)
            Kind.tool
            "tool"
            (spec_action tool_comparator t.metadata.name t e)
            w
            c
            total).0
  unfolding run_first spec_action execute install old_bin_path
  spec_result none f h k =
      called_result (ins.tools.install ActionType.install "" (some t) t.metadata.name)
        ActionType.install none "new resource" h k
  spec_result (some s) f h k = elim (Bool-cases (tool_comparator t s).0) [
    | inl b ↦ rw b (
        called_result
          (ins.tools.install ActionType.upgrade (ins.tools.get_bin_path (some s)) (some t)
            t.metadata.name)
          ActionType.upgrade (some s) (tool_comparator t s).1 (rw b at h) k)
    | inr b ↦ rw b (
        next (reach_loaded k) (
          pick before after (busy node (loaded found) q) (idle q) refl refl
            (skip node q found (rw b at h) refl refl refl)))
  ]

  call_of_node :
      lookup (node_id Kind.tool t.metadata.name) resource_map ≡ some (tool t)
      → node_call ins.tools resource_map node found ≡ tool_call ins.tools t found
  unfolding node_call
  call_of_node h = rw h refl

  actions_of_node :
      node_actions r
        (λ (u : Tool). u.metadata.name)
        tool_comparator
        (cached_store tool_map_accessor)
        t
        c
      ≡ spec_action tool_comparator t.metadata.name t found
  unfolding node_actions cached_store tool_map_accessor
  actions_of_node = reconcile_single r (λ u. u.metadata.name) tool_comparator t found

  -- From a worker with a free slot of the semaphore whose next node is that of a tool, the steps of the
  -- workers lead to just what `executeToolNode` leaves: its world, its entries, an error more where it
  -- failed, and the rest of the queue, or none of it where it failed.
  pub execute_tool_node-Reach :
      lookup (node_id Kind.tool t.metadata.name) resource_map ≡ some (tool t)
      → in_flight (before ++ idle (node ∷ q) ∷ after) < limit
      → let x = (execute_tool_node r ins t w c total).0 in
        Reach limit
          (λ (j : Node). j.name)
          (node_call ins.tools resource_map)
          (record {
            workers = before ++ idle (node ∷ q) ∷ after;
            shared = record { entries = c.cache.tools; world = w; errors = n };
          })
          (record {
            workers = before ++ idle (queue_after x.error q) ∷ after;
            shared = shared_of x n;
          })
  unfolding execute_tool_node
  execute_tool_node-Reach h k =
      subst
        (λ as'.
          Ends
            (run_first ins.tools (cached_store tool_map_accessor) Kind.tool "tool" as' w c total).0)
        (sym actions_of_node) (spec_result found refl (call_of_node h) k)
