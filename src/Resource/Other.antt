-- ===== src/Resource/Other.antt =====
-- Runtimes, installers, installer repositories and the system resources
-- (internal/resource/{runtime,installer,installer_repository,system_installer,system_package}.go).
use tomei.Base.{ℕ, String, Bool, not, Option, List, [], ◌∷◌, ◌++◌, Map, ◌==◌, if◌then◌else◌}
use tomei.Resource.Kind.{Ref, installer, tool, runtime, system_installer, system_package_repository}
use tomei.Resource.Tool.{Metadata, CommandSet, DownloadSource, is_empty}

pub record RuntimeBootstrapSpec : Type 0 where
  pub base : CommandSet
  pub update : List String
  pub resolve_version : List String

pub record RuntimeSpec : Type 0 where
  pub install_type : String
  pub version : String
  pub source : Option DownloadSource
  pub bootstrap : Option RuntimeBootstrapSpec
  pub binaries : List String
  pub bin_dir : String
  pub tool_bin_path : String
  pub commands : Option CommandSet
  pub env : Map String
  pub taint_on_upgrade : Bool
  pub resolve_version : List String

pub record Runtime : Type 0 where
  pub metadata : Metadata
  pub spec : RuntimeSpec

pub record RuntimeState : Type 0 where
  pub install_type : String
  pub version : String
  pub version_kind : String
  pub spec_version : String
  pub digest : String
  pub install_path : String
  pub binaries : List String
  pub bin_dir : String
  pub tool_bin_path : String
  pub commands : Option CommandSet
  pub env : Map String
  pub remove_command : List String
  pub taint_on_upgrade : Bool
  pub taint_reason : String
  pub updated_at : ℕ

unfoldable pub runtime_is_tainted : RuntimeState → Bool
runtime_is_tainted s = not (is_empty s.taint_reason)

unfoldable pub taint_runtime : String → RuntimeState → RuntimeState
taint_runtime reason s = record s { taint_reason = reason }

pub record InstallerSpec : Type 0 where
  pub install_type : String
  pub runtime_ref : String
  pub tool_ref : String
  pub depends_on : List String
  pub bootstrap : Option CommandSet
  pub commands : Option CommandSet
  pub bin_dir : String

pub record Installer : Type 0 where
  pub metadata : Metadata
  pub spec : InstallerSpec

pub record InstallerState : Type 0 where
  pub version : String
  pub tool_ref : String
  pub bin_dir : String
  pub updated_at : ℕ

-- The loop over `DependsOn`, which leaves out `ToolRef`.
unfoldable pub depends_on_refs : String → List String → List Ref
depends_on_refs tool_ref [] = []
depends_on_refs tool_ref (dep ∷ deps) =
    if dep == tool_ref
    then depends_on_refs tool_ref deps
    else record { kind = tool; name = dep } ∷ depends_on_refs tool_ref deps

unfoldable pub installer_dependencies : InstallerSpec → List Ref
unfolding depends_on_refs
installer_dependencies s =
    (if is_empty s.runtime_ref then [] else record { kind = runtime; name = s.runtime_ref } ∷ [])
    ++ ((if is_empty s.tool_ref then [] else record { kind = tool; name = s.tool_ref } ∷ [])
        ++ depends_on_refs s.tool_ref s.depends_on)

pub record InstallerRepositorySourceSpec : Type 0 where
  pub source_type : String
  pub url : String
  pub commands : Option CommandSet

pub record InstallerRepositorySpec : Type 0 where
  pub installer_ref : String
  pub source : InstallerRepositorySourceSpec

pub record InstallerRepository : Type 0 where
  pub metadata : Metadata
  pub spec : InstallerRepositorySpec

pub record InstallerRepositoryState : Type 0 where
  pub installer_ref : String
  pub source_type : String
  pub url : String
  pub local_path : String
  pub remove_command : List String
  pub updated_at : ℕ

unfoldable pub installer_repository_dependencies : InstallerRepositorySpec → List Ref
installer_repository_dependencies s = record { kind = installer; name = s.installer_ref } ∷ []

pub record CommandSpec : Type 0 where
  pub command : String
  pub verb : String

pub record SystemInstaller : Type 0 where
  pub metadata : Metadata
  pub pattern_name : String
  pub privileged : Bool
  pub install : CommandSpec
  pub remove : CommandSpec
  pub check : CommandSpec
  pub update : String

pub record SourceConfig : Type 0 where
  pub url : String
  pub key_url : String
  pub key_hash : String
  pub options : Map String

pub record SystemPackageRepository : Type 0 where
  pub metadata : Metadata
  pub installer_ref : String
  pub source : SourceConfig

pub record SystemPackageSet : Type 0 where
  pub metadata : Metadata
  pub installer_ref : String
  pub repository_ref : String
  pub packages : List String

unfoldable pub system_package_repository_dependencies : SystemPackageRepository → List Ref
system_package_repository_dependencies s =
    record { kind = system_installer; name = s.installer_ref } ∷ []

unfoldable pub system_package_set_dependencies : SystemPackageSet → List Ref
system_package_set_dependencies s =
    record { kind = system_installer; name = s.installer_ref }
    ∷ (if is_empty s.repository_ref
        then []
        else record { kind = system_package_repository; name = s.repository_ref } ∷ [])
