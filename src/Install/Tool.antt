-- ===== src/Install/Tool.antt =====
-- The tool installer as the executor calls it (internal/installer/tool/installer.go): the choice of
-- the pattern, and the removal.
use tomei.Base.{String, not, Option, none, some, [], ◌∷◌, lookup, ◌==◌, if◌then◌else◌}
use tomei.Base.Path.{dir}
use tomei.Resource.Version.{ActionType}
use tomei.Resource.Tool.{Tool, ToolSpec, ToolState, ToolCommandSet, is_empty}
use tomei.Resource.Package.{is_registry}
use tomei.Execute.Run.{Outcome, ok, failed, Installer}
use tomei.Io.{Io, pure, raise, gets, lift, wrap, call, ignore, when, ◌>>=◌, ◌>>◌}
use tomei.Install.World.{Services}
use tomei.Install.Names.{validate_binary_name}
use tomei.Install.Place.{cleanup}
use tomei.Install.Fields.{InstallerInfo, ToolFields}
use tomei.Install.Download.{no_config, install_by_download}
use tomei.Install.FromRegistry.{install_from_registry}
use tomei.Install.Delegated.{install_by_commands, install_by_runtime, install_by_installer}

-- An installer is used for its commands only where its type is delegation.
abbrev pub delegating : Option InstallerInfo → Option InstallerInfo
delegating none = none
delegating (some info) = if info.type == "delegation" then some info else none

module _ {W : Type 0} (s : Services W) (fields : W → ToolFields) where
  abbrev nil_pointer : {A : Type 0} → Io W A
  nil_pointer = raise "runtime error: invalid memory address or nil pointer dereference"

  abbrev pub install_others : ToolSpec → String → String → Option InstallerInfo → Io W ToolState
  install_others spec name old (some info) = install_by_installer s fields spec name info
  install_others spec name old none =
      if is_registry spec.package_id
      then install_from_registry s spec name old
      else install_by_download s spec name old no_config

  abbrev pub install_pattern :
      ActionType → ToolSpec → String → String → Option ToolCommandSet → Io W ToolState
  install_pattern action spec name old (some cmds) =
      install_by_commands s fields action spec cmds name
  install_pattern action spec name old none =
      if not (is_empty spec.runtime_ref) then install_by_runtime s fields spec name old else do
        info ← gets (λ w. lookup spec.installer_ref (fields w).installers)
        install_others spec name old (delegating info)

  -- `Install`; a nil resource is dereferenced, which panics.
  unfoldable pub install : ActionType → String → Option Tool → String → Io W ToolState
  unfolding validate_binary_name install_by_commands install_by_runtime install_by_installer
      is_registry install_from_registry install_by_download
  install action old none name = nil_pointer
  install action old (some t) name = do
    when (not (is_empty t.spec.binary_name)) (lift (validate_binary_name t.spec.binary_name))
    install_pattern action t.spec name old t.spec.commands

  -- The paths that a removal cleans up: only the error of the first counts.
  unfoldable pub remove_paths : ToolState → Io W (Unit {0})
  unfolding dir cleanup
  remove_paths st = do
    when (not (is_empty st.install_path)) (
        wrap "failed to remove binary: " (cleanup s.os s.tools_dir s.bin_dir st.install_path)
        >> ignore (s.os.remove_all (dir st.install_path)))
    when (not (is_empty st.bin_path)) (ignore (s.os.remove_all st.bin_path))

  -- The remove commands of a self-managed tool, where it has them.
  abbrev remove_by_commands : ToolState → String → ToolCommandSet → Io W (Unit {0})
  remove_by_commands st name cmds = elim cmds.base.remove [
    | [] ↦ pure tt
    | c ∷ cs ↦ wrap "failed to execute remove command: " (
        call (
          s.commands.execute (c ∷ cs)
            (record {
              package_name = "";
              version = st.version;
              name = name;
              bin_path = "";
              args = "";
            })
            []))
  ]

  abbrev remove_installed : ToolState → String → Option ToolCommandSet → Io W (Unit {0})
  unfolding remove_paths
  remove_installed st name (some cmds) = remove_by_commands st name cmds
  remove_installed st name none = remove_paths st

  abbrev error_of : W × Outcome (Unit {0}) → W × Option String
  error_of (w, ok u) = (w, none)
  error_of (w, failed e) = (w, some e)

  -- `Remove`; a nil state is dereferenced, which panics.
  unfoldable pub remove : Option ToolState → String → W → W × Option String
  unfolding remove_paths
  remove none name w = error_of (nil_pointer w)
  remove (some st) name w = error_of (remove_installed st name st.commands w)

  abbrev bin_path_of : Option ToolState → String
  bin_path_of none = ""
  bin_path_of (some st) = st.bin_path

  unfoldable pub tool_installer : Installer W Tool ToolState
  unfolding install remove
  tool_installer = record { install = install; remove = remove; get_bin_path = bin_path_of }
