-- ===== src/Resource/All.antt =====
-- The `Resource` interface (internal/resource/types.go): a constructor for each implementation, and
-- its methods by clauses. `Kind()` is each type's constant; `Name()` is the metadata's name.
use tomei.Base.{String, Bool, true, List, []}
use tomei.Resource.Kind.{Kind, Ref}
use tomei.Resource.Tool.{Tool, ToolSet, spec_is_enabled, tool_dependencies, tool_set_dependencies}
use tomei.Resource.Other.{
  Runtime, Installer, InstallerRepository, SystemInstaller, SystemPackageRepository,
  SystemPackageSet, installer_dependencies, installer_repository_dependencies,
  system_package_repository_dependencies, system_package_set_dependencies,
}

pub data Resource : Type 0 where
  tool : Tool → Resource
  tool_set : ToolSet → Resource
  runtime : Runtime → Resource
  installer : Installer → Resource
  installer_repository : InstallerRepository → Resource
  system_installer : SystemInstaller → Resource
  system_package_repository : SystemPackageRepository → Resource
  system_package_set : SystemPackageSet → Resource

unfoldable pub kind_of : Resource → Kind
kind_of (tool _) = Kind.tool
kind_of (tool_set _) = Kind.tool_set
kind_of (runtime _) = Kind.runtime
kind_of (installer _) = Kind.installer
kind_of (installer_repository _) = Kind.installer_repository
kind_of (system_installer _) = Kind.system_installer
kind_of (system_package_repository _) = Kind.system_package_repository
kind_of (system_package_set _) = Kind.system_package_set

unfoldable pub name_of : Resource → String
name_of (tool t) = t.metadata.name
name_of (tool_set t) = t.metadata.name
name_of (runtime t) = t.metadata.name
name_of (installer t) = t.metadata.name
name_of (installer_repository t) = t.metadata.name
name_of (system_installer t) = t.metadata.name
name_of (system_package_repository t) = t.metadata.name
name_of (system_package_set t) = t.metadata.name

-- `res.Spec().Dependencies()`
unfoldable pub dependencies : Resource → List Ref
dependencies (tool t) = tool_dependencies t.spec
dependencies (tool_set t) = tool_set_dependencies t.spec
dependencies (runtime t) = []
dependencies (installer t) = installer_dependencies t.spec
dependencies (installer_repository t) = installer_repository_dependencies t.spec
dependencies (system_installer t) = []
dependencies (system_package_repository t) = system_package_repository_dependencies t
dependencies (system_package_set t) = system_package_set_dependencies t

-- `isEnabled` of expand.go: only `Tool` implements `Enableable`.
unfoldable pub is_enabled : Resource → Bool
unfolding spec_is_enabled
is_enabled (tool t) = spec_is_enabled t.spec
is_enabled _ = true
