-- ===== src/Engine/TaintPhase.antt =====
-- The taint phase of the engine (handleTaintedTools of internal/installer/engine/engine.go). Events are
-- left out, but for the call of determineInstallMethod, which dereferences the action's resource: a nil
-- resource is a panic there.
use Prim.Native.String.{◌++◌ as concat}
use tomei.Base.{ℕ, String, Option, none, some, List, [], ◌∷◌, Set, RangeOrder}
use tomei.Resource.Kind.{Kind}
use tomei.Resource.Version.{ActionType}
use tomei.Resource.Tool.{Tool, ToolState}
use tomei.Resource.All.{Resource}
use tomei.Reconcile.Core.{Action}
use tomei.Execute.Cache.{StateCache, flush, cached_store, tool_map_accessor}
use tomei.Execute.Run.{Executed, execute}
use tomei.Engine.Checks.{determine_install_method}
use tomei.Engine.Taint.{taint_dependent_tools}
use tomei.Engine.Handle.{Installers, tool_actions}
use tomei.Engine.Node.{Run, done, panicked, count_action}

-- The actions that are not `none`.
unfoldable pub active_actions : {R S : Type 0} → List (Action R S) → List (Action R S)
active_actions [] = []
active_actions (a ∷ as') =
    let rest = active_actions as' in elim a.type [ ActionType.none ↦ rest | _ ↦ a ∷ rest ]

module _ {W : Type 0} (r : RangeOrder) (ins : Installers W) where
  -- After one tool: an error ends the loop.
  unfoldable pub stop_or_next :
      Executed W × ℕ → (W → StateCache → ℕ → Run (Executed W × ℕ)) → Run (Executed W × ℕ)
  stop_or_next x next = elim x.0.error [ none ↦ next x.0.world x.0.cache x.1 | some e ↦ done x ]

  -- `determineInstallMethod(t)` of the action's resource; `none` is the nil dereference.
  abbrev method_of : Option Tool → Option String
  method_of none = none
  method_of (some t) = some (determine_install_method t)

  -- The loop over the active actions.
  unfoldable pub execute_tainted :
      List (Action Tool ToolState) → W → StateCache → ℕ → Run (Executed W × ℕ)
  unfolding execute count_action stop_or_next
  execute_tainted [] w c total = done (record { world = w; cache = c; error = none }, total)
  execute_tainted (a ∷ as') w c total = elim (method_of a.resource) [
    | none ↦ panicked
    | some method ↦
        stop_or_next
          (count_action ins.tools (cached_store tool_map_accessor) Kind.tool "tool" a
            (execute ins.tools (cached_store tool_map_accessor) Kind.tool a w c) total)
          (execute_tainted as')
  ]

  abbrev pub after_flush : List Resource → W → ℕ → StateCache × Option String → Run (Executed W × ℕ)
  after_flush resources w total (c, some e) = done (
    record { world = w; cache = c; error = some (concat "failed to flush tainted state: " e) },
    total,
  )
  after_flush resources w total (c, none) =
      execute_tainted (active_actions (tool_actions r ins resources c.cache)) w c total

  -- `handleTaintedTools`; `error` is what the write of the state file answers.
  unfoldable pub handle_tainted_tools :
      List Resource → Set → Option String → W → StateCache → ℕ → Run (Executed W × ℕ)
  unfolding execute_tainted active_actions tool_actions taint_dependent_tools flush
  handle_tainted_tools resources updated error w c total =
      after_flush resources w total (flush error (taint_dependent_tools r updated c))
