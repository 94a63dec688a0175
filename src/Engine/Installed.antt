-- ===== src/Engine/Installed.antt =====
-- The engine with the tool installer (internal/installer/engine/engine.go,
-- internal/installer/tool/installer.go).
use tomei.Base.{ℕ, ◌≡◌, ap, none, RangeOrder}
use tomei.Resource.Tool.{Tool}
use tomei.Execute.Cache.{StateCache}
use tomei.Install.World.{Services}
use tomei.Install.Fields.{ToolFields}
use tomei.Install.Tool.{tool_installer}
use tomei.Install.Returned.{install-settles}
use tomei.Engine.Handle.{Installers}
use tomei.Engine.Node.{execute_tool_node}
use tomei.Engine.Executed.{execute_tool_node_again}

module _ {W : Type 0} (ins : Installers W) (s : Services W) (fields : W → ToolFields) where
  abbrev pub with_tool_installer : Installers W
  with_tool_installer = record ins { tools = tool_installer s fields }

  -- With the tool installer, whatever the world answers: after an execution of a tool's node without an
  -- error, a second one changes neither the world nor the state nor the count, and has no error.
  pub execute_tool_node_settled :
      (r : RangeOrder) (t : Tool) (w : W) (c : StateCache) (total : ℕ)
      → (execute_tool_node r with_tool_installer t w c total).0.error ≡ none
      → let x = execute_tool_node r with_tool_installer t w c total in
        execute_tool_node r with_tool_installer t x.0.world x.0.cache x.1
        ≡ (record { world = x.0.world; cache = x.0.cache; error = none }, x.1)
  unfolding tool_installer
  execute_tool_node_settled r t w c total e =
      execute_tool_node_again r with_tool_installer t w c total
        (λ type old w' st k.
          ap (λ p. p.0) (install-settles s fields type t old t.metadata.name w' st k))
        e
