-- ===== src/Resource/Kind.antt =====
-- Resource kinds and references (internal/resource/types.go). `Kind` is a string type in Go whose
-- values are its eight constants; each stands here as a constructor with its text in `kind_name`.
use tomei.Base.{String}

pub data Kind : Type 0 where
  system_installer system_package_repository system_package_set : Kind
  installer installer_repository runtime tool tool_set : Kind

unfoldable pub kind_name : Kind → String
kind_name system_installer = "SystemInstaller"
kind_name system_package_repository = "SystemPackageRepository"
kind_name system_package_set = "SystemPackageSet"
kind_name installer = "Installer"
kind_name installer_repository = "InstallerRepository"
kind_name runtime = "Runtime"
kind_name tool = "Tool"
kind_name tool_set = "ToolSet"

pub record Ref : Type 0 where
  pub kind : Kind
  pub name : String
