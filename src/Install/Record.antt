-- ===== src/Install/Record.antt =====
-- The states that a successful installation returns
-- (internal/installer/tool/installer.go and internal/installer/runtime/installer.go). The outcome of
-- the outside world (paths, digests, times, the answer of a version resolver) enters as arguments.
use Prim.Native.Char.{code}
use tomei.Base.{
  ℕ, String, Bool, false, not, ◌&&◌, Option, none, some, List, [], ◌∷◌, Map, leb, eqb,
  if◌then◌else◌,
}
use tomei.Resource.Version.{version_latest, version_alias, is_latest_version, classify_version}
use tomei.Resource.Tool.{ToolSpec, ToolState, ToolCommandSet, DownloadSource, is_empty}
use tomei.Resource.Other.{RuntimeSpec, RuntimeState}

-- `len(v) > 0 && v[0] >= '0' && v[0] <= '9'`
abbrev starts_with_digit : String → Bool
starts_with_digit String.[] = false
starts_with_digit (String.◌∷◌ c s) = leb b'0' (code c) && leb (code c) b'9'

-- `IsExactVersion` of types.go: a digit, after an optional `v`.
unfoldable pub is_exact_version : String → Bool
is_exact_version String.[] = false
is_exact_version (String.◌∷◌ c s) =
    if eqb (code c) b'v' then starts_with_digit s else starts_with_digit (String.◌∷◌ c s)

-- `buildState` of the download pattern.
unfoldable pub build_state : ToolSpec → String → String → String → ℕ → ToolState
build_state spec install_path bin_path digest now = record {
  installer_ref = spec.installer_ref;
  repository_ref = "";
  version = spec.version;
  digest = digest;
  install_path = install_path;
  bin_path = bin_path;
  source = spec.source;
  package_id = spec.package_id;
  runtime_ref = spec.runtime_ref;
  version_kind = classify_version spec.version;
  spec_version = spec.version;
  commands = none;
  binary_name = spec.binary_name;
  taint_reason = "";
  updated_at = now;
}

-- `buildDelegationState` of the runtime and installer delegation patterns.
unfoldable pub build_delegation_state : ToolSpec → String → ℕ → ToolState
build_delegation_state spec bin_path now = record {
  installer_ref = spec.installer_ref;
  repository_ref = "";
  version = spec.version;
  digest = "";
  install_path = "";
  bin_path = bin_path;
  source = none;
  package_id = spec.package_id;
  runtime_ref = spec.runtime_ref;
  version_kind = classify_version spec.version;
  spec_version = spec.version;
  commands = none;
  binary_name = spec.binary_name;
  taint_reason = "";
  updated_at = now;
}

-- The tool that `installFromRegistry` hands to the download pattern.
unfoldable pub resolved_spec : ToolSpec → String → DownloadSource → ToolSpec
resolved_spec spec version source = record {
  installer_ref = spec.installer_ref;
  repository_ref = "";
  version = version;
  enabled = spec.enabled;
  source = some source;
  package_id = spec.package_id;
  runtime_ref = "";
  commands = none;
  binary_name = spec.binary_name;
  args = [];
}

-- Version and kind after `installByCommands`: `answer` is what the resolver returned, `none` where it
-- failed or is not configured.
unfoldable pub commands_version : String → List String → Option String → String × String
commands_version spec_version resolve_version none = (spec_version, classify_version spec_version)
commands_version spec_version [] (some resolved) = (spec_version, classify_version spec_version)
commands_version spec_version (cmd ∷ cmds) (some resolved) =
    if not (is_exact_version spec_version) && not (is_empty resolved)
    then (resolved, if is_latest_version spec_version then version_latest else version_alias)
    else (spec_version, classify_version spec_version)

-- The state of `installByCommands`.
unfoldable pub build_commands_state : ToolSpec → ToolCommandSet → Option String → ℕ → ToolState
unfolding commands_version
build_commands_state spec cmds answer now =
    let (version, kind) = commands_version spec.version cmds.resolve_version answer in
    record {
      installer_ref = "";
      repository_ref = "";
      version = version;
      digest = "";
      install_path = "";
      bin_path = "";
      source = none;
      package_id = none;
      runtime_ref = "";
      version_kind = kind;
      spec_version = spec.version;
      commands = some cmds;
      binary_name = spec.binary_name;
      taint_reason = "";
      updated_at = now;
    }

-- `buildStateResolved` of the runtime installer. The expanded paths and environment are arguments.
unfoldable pub build_state_resolved :
    RuntimeSpec
    → String
    → String
    → String
    → Map String
    → String
    → String
    → String
    → ℕ
    → RuntimeState
build_state_resolved spec install_path bin_dir tool_bin_path env digest version kind now = record {
  install_type = spec.install_type;
  version = version;
  version_kind = kind;
  spec_version = spec.version;
  digest = digest;
  install_path = install_path;
  binaries = spec.binaries;
  bin_dir = bin_dir;
  tool_bin_path = tool_bin_path;
  commands = spec.commands;
  env = env;
  remove_command = [];
  taint_on_upgrade = spec.taint_on_upgrade;
  taint_reason = "";
  updated_at = now;
}
