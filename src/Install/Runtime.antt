-- ===== src/Install/Runtime.antt =====
-- The runtime installer as the executor calls it (internal/installer/runtime/installer.go).
use Prim.Native.String.{◌++◌ as concat}
use tomei.Base.{
  String, Bool, true, false, not, ◌&&◌, Option, none, some, List, Map, ◌==◌, if◌then◌else◌,
}
use tomei.Base.Path.{dir}
use tomei.Resource.Version.{ActionType, classify_version}
use tomei.Resource.Tool.{is_empty}
use tomei.Resource.Other.{RuntimeBootstrapSpec, RuntimeSpec, Runtime, RuntimeState}
use tomei.Execute.Run.{Outcome, ok, failed, Installer}
use tomei.Io.{Io, pure, raise, gets, lift, wrap, call, ignore, when, ◌>>=◌, ◌>>◌}
use tomei.Install.World.{Vars}
use tomei.Install.Expand.{expand_env}
use tomei.Install.RuntimeWorld.{RuntimeServices}
use tomei.Install.Links.{has_some, resolve_bin_dir, create_delegation_symlinks, remove_symlinks}
use tomei.Install.RuntimeDownload.{resolve_version, record_runtime, install_runtime_download}

abbrev pub version_vars : String → Vars
version_vars version = record {
  package_name = "";
  version = version;
  name = "";
  bin_path = "";
  args = "";
}

abbrev bootstrap_of : Option RuntimeBootstrapSpec → Outcome RuntimeBootstrapSpec
bootstrap_of none = failed "bootstrap is required for delegation pattern"
bootstrap_of (some b) =
    if has_some b.base.install
    then ok b
    else failed "bootstrap.install is required for delegation pattern"

abbrev pub is_first : ActionType → Bool
is_first ActionType.install = true
is_first _ = false

abbrev updates : ActionType → Bool
updates ActionType.upgrade = true
updates ActionType.reinstall = true
updates _ = false

module _ {W : Type 0} (s : RuntimeServices W) where
  abbrev pub or_spec_version :
      ActionType → String → W × Outcome (String × String) → W × Outcome (String × String)
  or_spec_version action version (w, ok v) = (w, ok v)
  or_spec_version action version (w, failed e) =
      if is_first action
      then (w, ok (version, classify_version version))
      else (w, failed (concat "failed to resolve version: " e))

  -- The version of a delegation: on a first installation the spec's, where it cannot be resolved. The
  -- executor always names an action.
  unfoldable pub delegation_version : ActionType → String → List String → Io W (String × String)
  unfolding resolve_version classify_version
  delegation_version action version cmds w =
      or_spec_version action version (resolve_version s version cmds w)

  -- The bootstrap command, and the verification by the check command.
  unfoldable pub bootstrap :
      ActionType → RuntimeBootstrapSpec → String → Map String → Io W (Unit {0})
  bootstrap action b version env = do
    if updates action && has_some b.update
        then wrap "bootstrap update failed: "
            (call (s.base.commands.execute b.update (version_vars version) env))
        else wrap "bootstrap install failed: "
            (call (s.base.commands.execute b.base.install (version_vars version) env))
    passed ←
        if has_some b.base.check
        then s.base.commands.check b.base.check (version_vars version) env
        else pure true
    when (not passed) (raise "bootstrap check failed after install")

  -- `installDelegation`
  unfoldable pub install_runtime_delegation : ActionType → RuntimeSpec → String → Io W RuntimeState
  unfolding delegation_version expand_env bootstrap resolve_bin_dir create_delegation_symlinks
      record_runtime
  install_runtime_delegation action spec name = do
    b ← lift (bootstrap_of spec.bootstrap)
    version ← delegation_version action spec.version b.resolve_version
    env ← gets (λ w. expand_env s.run_template (s.home w) spec.env version.0)
    bootstrap action b version.0 env
    bin_dir ← wrap "failed to resolve bin directory: " (resolve_bin_dir s spec)
    install_path ←
        if not (is_empty bin_dir) && has_some spec.binaries
        then wrap "failed to create symlinks: "
            (create_delegation_symlinks s name version.0 spec.binaries bin_dir)
        else pure ""
    st ← record_runtime s spec install_path bin_dir version
    pure (record st { env = env; remove_command = b.base.remove })

  -- `Install`; a nil resource is dereferenced, which panics.
  unfoldable pub install_runtime : ActionType → String → Option Runtime → String → Io W RuntimeState
  unfolding install_runtime_download install_runtime_delegation
  install_runtime action old none name =
      raise "runtime error: invalid memory address or nil pointer dereference"
  install_runtime action old (some res) name =
      if res.spec.install_type == "download"
      then install_runtime_download s res.spec name
      else if res.spec.install_type == "delegation"
      then install_runtime_delegation action res.spec name
      else raise (concat "unsupported type: " res.spec.install_type)

  -- `removeDelegation`
  unfoldable pub remove_delegation : RuntimeState → Io W (Unit {0})
  unfolding remove_symlinks
  remove_delegation st = do
    remove_symlinks s st.bin_dir st.binaries true
    when (has_some st.remove_command) (
        wrap "bootstrap remove failed: "
          (call (s.base.commands.execute st.remove_command (version_vars "") st.env)))

  -- The removal of a runtime that was downloaded.
  unfoldable pub remove_download : RuntimeState → Io W (Unit {0})
  unfolding remove_symlinks dir
  remove_download st = do
    remove_symlinks s st.bin_dir st.binaries false
    when (not (is_empty st.install_path)) (
        wrap "failed to remove install directory: " (call (s.base.os.remove_all st.install_path))
        >> ignore (s.base.os.remove (dir st.install_path)))

  abbrev pub error_of : W × Outcome (Unit {0}) → W × Option String
  error_of (w, ok u) = (w, none)
  error_of (w, failed e) = (w, some e)

  -- `Remove`; a nil state is dereferenced, which panics.
  unfoldable pub remove_runtime : Option RuntimeState → String → W → W × Option String
  unfolding remove_delegation remove_download
  remove_runtime none name w =
      (w, some "runtime error: invalid memory address or nil pointer dereference")
  remove_runtime (some st) name w =
      if st.install_type == "delegation"
      then error_of (remove_delegation st w)
      else error_of (remove_download st w)

  unfoldable pub runtime_installer : Installer W Runtime RuntimeState
  unfolding install_runtime remove_runtime
  runtime_installer = record {
    install = install_runtime;
    remove = remove_runtime;
    get_bin_path = λ st. "";
  }
