-- ===== src/Engine/Executed.antt =====
-- The executions of a tool's and of a repository's node (executeToolNode and
-- executeInstallerRepositoryNode of internal/installer/engine/engine.go).
use tomei.Base.{ℕ, ◌≡◌, Option, none, lookup, RangeOrder}
use tomei.Resource.Kind.{Kind}
use tomei.Resource.Tool.{Tool, ToolState}
use tomei.Reconcile.Comparators.{tool_comparator}
use tomei.Execute.Cache.{StateCache, tool_map_accessor}
use tomei.Execute.Keeps.{tool_map_accessor-IsAccessor}
use tomei.Engine.Handle.{Installers}
use tomei.Engine.Node.{execute_tool_node}
use tomei.Engine.NodeRuns.{node_effect, IsNodeRun, node_run_lem, Settles, node_run_again}

module _ {W : Type 0} (r : RangeOrder) (ins : Installers W) where
  -- What the execution of a tool calls for, given its entry.
  abbrev pub tool_effect : Tool → W → Option ToolState → Option (Option (Option ToolState))
  tool_effect =
      node_effect ins.tools tool_map_accessor tool_map_accessor-IsAccessor Kind.tool "tool" r
        (λ t. t.metadata.name) tool_comparator

  -- The installer's answers content the comparator.
  abbrev pub ToolSettles : Tool → Type 0
  ToolSettles =
      Settles ins.tools tool_map_accessor tool_map_accessor-IsAccessor Kind.tool "tool" r
        (λ t. t.metadata.name) tool_comparator

  -- The execution of a tool's node, whatever its entry: where the comparator is content with the entry,
  -- nothing changes; where the installer fails there is an error, and the state and the count are kept;
  -- else the installer's answer is stored under the tool's name, every other tool's entry is kept, and
  -- the count is one up.
  pub execute_tool_node_lem :
      (t : Tool) (w : W) (c : StateCache) (total : ℕ)
      → IsNodeRun ins.tools tool_map_accessor tool_map_accessor-IsAccessor Kind.tool "tool" r
          (λ t. t.metadata.name)
          tool_comparator
          t.metadata.name
          w
          c
          total
          (tool_effect t w (lookup t.metadata.name c.cache.tools))
          (execute_tool_node r ins t w c total)
  unfolding execute_tool_node tool_map_accessor
  execute_tool_node_lem t w c total =
      node_run_lem ins.tools tool_map_accessor tool_map_accessor-IsAccessor Kind.tool "tool" r
        (λ t. t.metadata.name) tool_comparator t w c total

  -- If the installer's answers for a tool content the comparator, then after an execution of the tool's
  -- node without an error, a second one changes neither the world nor the state nor the count, and has
  -- no error.
  pub execute_tool_node_again :
      (t : Tool) (w : W) (c : StateCache) (total : ℕ)
      → ToolSettles t
      → (execute_tool_node r ins t w c total).0.error ≡ none
      → let x = execute_tool_node r ins t w c total in
        execute_tool_node r ins t x.0.world x.0.cache x.1
        ≡ (record { world = x.0.world; cache = x.0.cache; error = none }, x.1)
  unfolding execute_tool_node
  execute_tool_node_again t w c total h e =
      node_run_again ins.tools tool_map_accessor tool_map_accessor-IsAccessor Kind.tool "tool" r
        (λ t. t.metadata.name) tool_comparator t w c total h e
