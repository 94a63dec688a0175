-- ===== src/Install/Fields.antt =====
-- What the tool installer keeps (internal/installer/tool/installer.go), and its helpers.
use Prim.Native.String.{◌++◌ as concat}
use tomei.Base.{
  String, not, ◌&&◌, ◌||◌, Option, none, some, List, [], ◌∷◌, Map, lookup, ◌==◌, if◌then◌else◌,
}
use tomei.Base.Path.{clean, dir, is_rel_below}
use tomei.Resource.Tool.{CommandSet, is_empty}
use tomei.Execute.Run.{Outcome, ok, failed}
use tomei.Io.{Io, pure, attempt, ignore, when, ◌>>=◌, ◌>>◌}
use tomei.Install.World.{Os}

-- `RuntimeInfo`
pub record RuntimeInfo : Type 0 where
  pub install_path : String
  pub bin_dir : String
  pub tool_bin_path : String
  pub env : Map String
  pub commands : Option CommandSet

-- `InstallerInfo`
pub record InstallerInfo : Type 0 where
  pub type : String
  pub tool_ref : String
  pub commands : Option CommandSet

-- The fields of `Installer` that registrations change.
pub record ToolFields : Type 0 where
  pub runtimes : Map RuntimeInfo
  pub installers : Map InstallerInfo
  pub tool_bin_paths : Option (Map String)

-- The lookup in `buildEnvWithToolPath`, `path` being the variable `PATH`. A nil map is empty.
abbrev env_with : Option String → String → Map String
env_with none path = []
env_with (some bin_dir) path =
    if is_empty bin_dir then [] else ("PATH", concat bin_dir (concat ":" path)) ∷ []

unfoldable pub build_env_with_tool_path : Option (Map String) → String → String → Map String
build_env_with_tool_path none name path = []
build_env_with_tool_path (some paths) name path = env_with (lookup name paths) path

-- `installCommands` where they are given and not empty.
unfoldable pub install_commands : String → Option CommandSet → Outcome (List String)
install_commands e none = failed e
install_commands e (some cmds) = elim cmds.install [ [] ↦ failed e | c ∷ cs ↦ ok (c ∷ cs) ]

module _ {W : Type 0} (os : Os W) (tools_dir : String) where
  -- The old binary goes only if it is below the tools directory. The error of its removal is dropped.
  abbrev remove_target : Option String → Io W (Unit {0})
  remove_target none = pure tt
  remove_target (some target) =
      when (not (is_empty target) && is_rel_below (clean target) tools_dir)
        (ignore (os.remove (clean target)))

  -- `cleanupOldSymlink`
  unfoldable pub cleanup_old_symlink : String → String → Io W (Unit {0})
  unfolding dir clean is_rel_below
  cleanup_old_symlink old link =
      if is_empty old || (old == link)
      then pure tt
      else if not (dir old == dir link)
      then pure tt
      else do
        target ← attempt (λ w. (w, os.read_link old w))
        remove_target target
        ignore (os.remove_all old)
