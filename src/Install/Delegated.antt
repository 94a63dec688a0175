-- ===== src/Install/Delegated.antt =====
-- Installation by commands (internal/installer/tool/installer.go): the tool's own, those of a runtime
-- and those of an installer.
use Prim.Native.String.{◌++◌ as concat}
use tomei.Base.{
  String, Bool, true, false, not, ◌&&◌, Option, none, some, List, [], ◌∷◌, Map, lookup, put, ◌==◌,
  if◌then◌else◌,
}
use tomei.Base.Path.{join, dir}
use tomei.Resource.Version.{ActionType}
use tomei.Resource.Tool.{ToolSpec, ToolState, ToolCommandSet, is_empty}
use tomei.Resource.Package.{package_string}
use tomei.Execute.Run.{Outcome, ok, failed}
use tomei.Io.{Io, pure, raise, gets, lift, wrap, attempt, call, ignore, when, ◌>>=◌, ◌>>◌}
use tomei.Install.World.{Vars, Services}
use tomei.Install.Record.{is_exact_version, build_commands_state, build_delegation_state}
use tomei.Install.Fields.{
  RuntimeInfo, InstallerInfo, ToolFields, build_env_with_tool_path, install_commands,
}

abbrev is_given : {A : Type 0} → List A → Bool
is_given [] = false
is_given (x ∷ xs) = true

abbrev is_update : ActionType → Bool
is_update ActionType.upgrade = true
is_update ActionType.reinstall = true
is_update _ = false

-- The command to run: an update where one is called for and given.
unfoldable pub command_to_run : ActionType → ToolCommandSet → List String
command_to_run action cmds =
    if is_update action && is_given cmds.update then cmds.update else cmds.base.install

-- `strings.Join(args, " ")`
abbrev join_spaces : List String → String
join_spaces [] = ""
join_spaces (a ∷ []) = a
join_spaces (a ∷ b ∷ as') = concat a (concat " " (join_spaces (b ∷ as')))

abbrev plain_vars : String → String → Vars
plain_vars name version = record {
  package_name = "";
  version = version;
  name = name;
  bin_path = "";
  args = "";
}

-- The variables of `installByRuntime`.
unfoldable pub runtime_vars : ToolSpec → String → RuntimeInfo → Vars
unfolding package_string join
runtime_vars spec name info = record {
  package_name = package_string spec.package_id;
  version = spec.version;
  name = name;
  bin_path =
      join
        (info.tool_bin_path ∷ (if is_empty spec.binary_name then name else spec.binary_name) ∷ []);
  args = join_spaces spec.args;
}

-- The environment of `installByRuntime`, `path` being the variable `PATH`.
unfoldable pub runtime_env : RuntimeInfo → String → Map String
unfolding join
runtime_env info path =
    let runtime_bin_dir =
      if is_empty info.install_path then info.bin_dir else join (info.install_path ∷ "bin" ∷ []) in
    if is_empty runtime_bin_dir
    then info.env
    else if is_empty path
    then put "PATH" runtime_bin_dir info.env
    else put "PATH" (concat runtime_bin_dir (concat ":" path)) info.env

-- The variables of `installByInstaller`.
unfoldable pub installer_vars : ToolSpec → String → Vars
unfolding package_string
installer_vars spec name =
    let pkg = package_string spec.package_id in
    record {
      package_name = if is_empty pkg then name else pkg;
      version = spec.version;
      name = name;
      bin_path = "";
      args = join_spaces spec.args;
    }

abbrev quoted : String → String → String → String
quoted before name after = concat before (concat " \"" (concat name (concat "\"" after)))

abbrev found : String → Option RuntimeInfo → Outcome RuntimeInfo
found name none = failed (quoted "runtime" name " not found")
found name (some info) = ok info

module _ {W : Type 0} (s : Services W) (fields : W → ToolFields) where
  -- What the version resolver answers where it is asked.
  abbrev ask_version :
      Option (List String → Vars → Io W String) → List String → Vars → String → Io W (Option String)
  ask_version none cmds vars version = pure none
  ask_version (some resolve) cmds vars version =
      if is_given cmds && not (is_exact_version version)
      then attempt (resolve cmds vars)
      else pure none

  -- `installByCommands`
  unfoldable pub install_by_commands :
      ActionType → ToolSpec → ToolCommandSet → String → Io W ToolState
  unfolding command_to_run build_commands_state is_exact_version
  install_by_commands action spec cmds name = do
    wrap "failed to execute command: "
        (call (s.commands.execute (command_to_run action cmds) (plain_vars name spec.version) []))
    passed ←
        if is_given cmds.base.check
        then s.commands.check cmds.base.check (plain_vars name spec.version) []
        else pure true
    when (not passed) (raise "check command failed after install")
    answer ←
        ask_version s.version_resolver cmds.resolve_version (plain_vars name spec.version)
          spec.version
    now ← gets s.os.now
    pure (build_commands_state spec cmds answer now)

  -- `installByRuntime`
  unfoldable pub install_by_runtime : ToolSpec → String → String → Io W ToolState
  unfolding install_commands runtime_vars runtime_env build_delegation_state dir
  install_by_runtime spec name old = do
    known ← gets (λ w. lookup spec.runtime_ref (fields w).runtimes)
    info ← lift (found spec.runtime_ref known)
    cmds ← lift (
        install_commands
          (quoted "runtime" spec.runtime_ref " does not have install command defined")
          info.commands)
    when (not (is_empty info.tool_bin_path)) (
        wrap (quoted "failed to create toolBinPath directory" info.tool_bin_path ": ")
          (call (s.os.mkdir_all info.tool_bin_path)))
    path ← gets s.os.path_variable
    wrap "failed to execute install command: "
        (call (s.commands.execute cmds (runtime_vars spec name info) (runtime_env info path)))
    when
        (not (is_empty old)
          && (not (old == (runtime_vars spec name info).bin_path)
              && (not (is_empty info.tool_bin_path) && (dir old == info.tool_bin_path))))
        (ignore (s.os.remove old))
    now ← gets s.os.now
    pure (build_delegation_state spec (runtime_vars spec name info).bin_path now)

  -- `installByInstaller`
  unfoldable pub install_by_installer : ToolSpec → String → InstallerInfo → Io W ToolState
  unfolding install_commands installer_vars build_env_with_tool_path build_delegation_state
  install_by_installer spec name info = do
    cmds ← lift (
        install_commands
          (quoted "installer" spec.installer_ref " does not have install command defined")
          info.commands)
    env ← gets (λ w.
        build_env_with_tool_path (fields w).tool_bin_paths spec.installer_ref
          (s.os.path_variable w))
    wrap "failed to execute install command: "
        (call (s.commands.execute cmds (installer_vars spec name) env))
    now ← gets s.os.now
    pure (build_delegation_state spec "" now)
