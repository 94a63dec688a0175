-- ===== src/State/User.antt =====
-- The state of the user's resources (internal/state/state.go). A nil map and an empty map behave the
-- same in all the code here, so both are `[]`; a nil pointer is `none`.
use tomei.Base.{ℕ, String, Option, none, [], Map}
use tomei.Resource.Tool.{ToolState}
use tomei.Resource.Other.{RuntimeState, InstallerState, InstallerRepositoryState}

pub record AquaRegistryState : Type 0 where
  pub ref : String
  pub updated_at : ℕ

pub record RegistryState : Type 0 where
  pub aqua : Option AquaRegistryState

pub record UserState : Type 0 where
  pub version : String
  pub registry : Option RegistryState
  pub installers : Map InstallerState
  pub installer_repositories : Map InstallerRepositoryState
  pub runtimes : Map RuntimeState
  pub tools : Map ToolState

abbrev pub state_version : String
state_version = "1"

unfoldable pub new_user_state : UserState
new_user_state = record {
  version = state_version;
  registry = none;
  installers = [];
  installer_repositories = [];
  runtimes = [];
  tools = [];
}
