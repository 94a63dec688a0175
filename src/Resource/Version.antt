-- ===== src/Resource/Version.antt =====
-- Version kinds, taint reasons and action types (internal/resource/types.go, action.go). Their Go
-- types are strings that the state file may hold with any value, so they stay strings here.
use Prim.Native.String.{String}
use tomei.Base.{Bool, true, false, ◌||◌, ◌==◌, if◌then◌else◌}

abbrev pub version_exact : String
version_exact = "exact"

abbrev pub version_latest : String
version_latest = "latest"

abbrev pub version_alias : String
version_alias = "alias"

abbrev pub taint_reason_runtime_upgraded : String
taint_reason_runtime_upgraded = "runtime_upgraded"

abbrev pub taint_reason_sync_update : String
taint_reason_sync_update = "sync_update"

abbrev pub taint_reason_update_requested : String
taint_reason_update_requested = "update_requested"

unfoldable pub is_latest_version : String → Bool
is_latest_version version = (version == "") || (version == "latest")

unfoldable pub classify_version : String → String
unfolding is_latest_version
classify_version spec_version =
    if is_latest_version spec_version then version_latest else version_exact

-- `ActionType` has exactly these constants, and no other value is ever written.
pub data ActionType : Type 0 where
  none install upgrade downgrade reinstall remove skip : ActionType

unfoldable pub needs_execution : ActionType → Bool
needs_execution none = false
needs_execution skip = false
needs_execution _ = true
