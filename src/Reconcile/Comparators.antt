-- ===== src/Reconcile/Comparators.antt =====
-- The comparators of tools, runtimes and installer repositories
-- (internal/installer/reconciler/{tool,runtime,installer_repository}.go).
use Prim.Native.String.{◌++◌ as concat}
use tomei.Base.{String, Bool, true, false, not, ◌==◌, if◌then◌else◌}
use tomei.Resource.Version.{version_latest, version_alias, is_latest_version}
use tomei.Resource.Tool.{Tool, ToolState, tool_is_tainted}
use tomei.Resource.Other.{
  Runtime, RuntimeState, runtime_is_tainted, InstallerRepository, InstallerRepositoryState,
}
use tomei.Reconcile.Core.{Comparator}

-- A version kind that is neither `latest` nor `alias` is compared as an exact version.
unfoldable pub spec_version_changed : String → String → String → String → Bool
spec_version_changed spec_version state_version_kind state_version state_spec_version =
    if state_version_kind == version_latest
    then not (is_latest_version spec_version)
    else if state_version_kind == version_alias
    then not (spec_version == state_spec_version)
    else not (spec_version == state_version)

unfoldable pub tool_comparator : Comparator Tool ToolState
tool_comparator res state =
    if spec_version_changed res.spec.version state.version_kind state.version state.spec_version
    then (true, concat "version changed: " (concat state.version (concat " -> " res.spec.version)))
    else if tool_is_tainted state
    then (true, concat "tainted: " state.taint_reason)
    else if not (res.spec.binary_name == state.binary_name)
    then (
      true,
      concat "binaryName changed: " (concat state.binary_name (concat " -> " res.spec.binary_name)),
    )
    else (false, "")

unfoldable pub runtime_comparator : Comparator Runtime RuntimeState
runtime_comparator res state =
    if spec_version_changed res.spec.version state.version_kind state.version state.spec_version
    then (true, concat "version changed: " (concat state.version (concat " -> " res.spec.version)))
    else if runtime_is_tainted state
    then (true, concat "tainted: " state.taint_reason)
    else (false, "")

unfoldable pub installer_repository_comparator :
    Comparator InstallerRepository InstallerRepositoryState
installer_repository_comparator res state =
    if not (res.spec.source.url == state.url)
    then (
      true,
      concat "source URL changed: " (concat state.url (concat " -> " res.spec.source.url)),
    )
    else if not (res.spec.source.source_type == state.source_type)
    then (true, "source type changed")
    else (false, "")
