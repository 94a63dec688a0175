-- ===== src/Resource/Validate.antt =====
-- The checks of specifications (`Validate` in internal/resource: tool.go, runtime.go, installer.go,
-- installer_repository.go). An error is its text.
use Prim.Native.Char.{code}
use Prim.Native.String.{◌∷◌ as cons, ◌++◌ as concat}
use Prim.Native.String as Str
use tomei.Base.{
  String, Bool, true, false, not, ◌&&◌, ◌||◌, Option, none, some, List, [], ◌∷◌, Set, has, put, eqb,
  ◌==◌, if◌then◌else◌,
}
use tomei.Resource.Tool.{Package, CommandSet, DownloadSource, ToolSpec, ToolSetSpec, is_empty}
use tomei.Resource.Other.{
  RuntimeSpec, RuntimeBootstrapSpec, InstallerSpec, InstallerRepositorySourceSpec,
  InstallerRepositorySpec,
}
use tomei.Resource.Package.{is_registry}

-- Checks in their order, each with the error of the case that it looks for.
unfoldable pub check_all : List (Bool × String) → Option String
check_all [] = none
check_all ((bad, e) ∷ checks) = let rest = check_all checks in if bad then some e else rest

unfoldable pub then_check : Option String → Option String → Option String
then_check (some e) next = some e
then_check none next = next

abbrev pub is_nil : {A : Type 0} → Option A → Bool
is_nil none = true
is_nil (some a) = false

abbrev no_items : {A : Type 0} → List A → Bool
no_items [] = true
no_items (x ∷ xs) = false

-- `IsEmpty`
unfoldable pub is_empty_package : Option Package → Bool
is_empty_package none = true
is_empty_package (some p) = is_empty p.owner && (is_empty p.repo && is_empty p.name)

-- `Validate` of a package, which may be nil.
unfoldable pub validate_package : Option Package → Option String
validate_package none = none
validate_package (some p) = check_all (
    (
      (not (is_empty p.owner) || not (is_empty p.repo)) && not (is_empty p.name),
      "package: cannot specify both owner/repo and name",
    )
    ∷ (
      not (is_empty p.owner) && is_empty p.repo,
      "package.repo is required when owner is specified",
    )
    ∷ (
      not (is_empty p.repo) && is_empty p.owner,
      "package.owner is required when repo is specified",
    )
    ∷ [])

abbrev no_install : Option CommandSet → Bool
no_install none = true
no_install (some c) = no_items c.install

-- `Validate` of a tool.
unfoldable pub validate_tool : ToolSpec → Option String
unfolding is_empty_package validate_package is_registry
validate_tool s =
    let has_installer = not (is_empty s.installer_ref) in
    let has_runtime = not (is_empty s.runtime_ref) in
    let has_commands = not (is_nil s.commands) in
    then_check
      (check_all (
        (
          not has_installer && (not has_runtime && not has_commands),
          "one of installerRef, runtimeRef, or commands is required",
        )
        ∷ (
          (has_installer && has_runtime)
              || ((has_runtime && has_commands) || (has_installer && has_commands)),
          "installerRef, runtimeRef, and commands are mutually exclusive",
        )
        ∷ (
          elim s.commands [ none ↦ false | some c ↦ no_items c.base.install ],
          "commands.install is required",
        )
        ∷ (
          not has_commands
              && (is_empty s.version && (is_nil s.source && is_empty_package s.package_id)),
          "version, source, or package is required",
        )
        ∷ (
          has_runtime && is_empty_package s.package_id,
          "package is required when using runtimeRef",
        )
        ∷ (
          not (is_nil s.source) && not (is_empty_package s.package_id),
          "cannot specify both source and package",
        )
        ∷ (
          is_registry s.package_id && not (s.installer_ref == "aqua"),
          "package with owner/repo requires installerRef: aqua",
        )
        ∷ []))
      (validate_package s.package_id)

-- `Validate` of a tool set.
unfoldable pub validate_tool_set : ToolSetSpec → Option String
validate_tool_set s = check_all (
    (
      is_empty s.installer_ref && is_empty s.runtime_ref,
      "either installerRef or runtimeRef is required",
    )
    ∷ (
      not (is_empty s.installer_ref) && not (is_empty s.runtime_ref),
      "cannot specify both installerRef and runtimeRef",
    )
    ∷ (no_items s.tools, "at least one tool is required")
    ∷ [])

abbrev no_url : Option DownloadSource → Bool
no_url none = true
no_url (some source) = is_empty source.url

abbrev bootstrap_errors : Option RuntimeBootstrapSpec → Option String
bootstrap_errors none = some "bootstrap is required for delegation type"
bootstrap_errors (some b) = check_all (
    (no_items b.base.install, "bootstrap.install is required for delegation type")
    ∷ (no_items b.base.check, "bootstrap.check is required for delegation type")
    ∷ [])

-- `Validate` of a runtime.
unfoldable pub validate_runtime : RuntimeSpec → Option String
validate_runtime s =
    then_check
      (check_all (
        (is_empty s.version, "version is required")
        ∷ (
          not (is_nil s.commands) && is_empty s.tool_bin_path,
          "toolBinPath is required when commands is defined",
        )
        ∷ (
          (s.install_type == "download") && no_url s.source,
          "source.url is required for download type",
        )
        ∷ []))
      (if s.install_type == "delegation" then bootstrap_errors s.bootstrap else none)

-- The loop over `dependsOn`.
unfoldable pub validate_depends_on : Set → List String → Option String
validate_depends_on seen [] = none
validate_depends_on seen (dep ∷ deps) =
    let rest = validate_depends_on (put dep tt seen) deps in
    if is_empty dep
    then some "dependsOn must not contain empty strings"
    else if has dep seen
    then some (concat "dependsOn contains duplicate entry \"" (concat dep "\""))
    else rest

-- `strings.HasPrefix` for "/" and for "~/".
abbrev from_root : String → Bool
from_root Str.[] = false
from_root (cons c s) = eqb (code c) b'/'

abbrev from_home : String → Bool
from_home Str.[] = false
from_home (cons c s) = eqb (code c) b'~' && from_root s

-- `Validate` of an installer.
unfoldable pub validate_installer : InstallerSpec → Option String
unfolding validate_depends_on
validate_installer s =
    let download = s.install_type == "download" in
    let delegation = s.install_type == "delegation" in
    then_check
      (check_all (
        (is_empty s.install_type, "type is required")
        ∷ (
          not download && not delegation,
          concat "type must be 'download' or 'delegation', got \"" (concat s.install_type "\""),
        )
        ∷ (
          not (is_empty s.runtime_ref) && not (is_empty s.tool_ref),
          "cannot specify both runtimeRef and toolRef",
        )
        ∷ (delegation && is_nil s.commands, "commands is required for delegation type")
        ∷ (not (is_empty s.bin_dir) && download, "binDir is not supported for download type")
        ∷ (
          not (is_empty s.bin_dir) && (not (from_home s.bin_dir) && not (from_root s.bin_dir)),
          concat "binDir must start with \"~/\" or \"/\", got \"" (concat s.bin_dir "\""),
        )
        ∷ []))
      (validate_depends_on [] s.depends_on)

-- The switch over the type of a repository's source.
abbrev validate_source : InstallerRepositorySourceSpec → Option String
validate_source source =
    if source.source_type == "delegation"
    then check_all (
        (no_install source.commands, "source.commands.install is required for delegation type")
        ∷ [])
    else if source.source_type == "git"
    then check_all ((is_empty source.url, "source.url is required for git type") ∷ [])
    else some (
        concat "source.type must be 'delegation' or 'git', got \"" (concat source.source_type "\""))

-- `Validate` of an installer repository.
unfoldable pub validate_installer_repository : InstallerRepositorySpec → Option String
validate_installer_repository s =
    then_check
      (check_all (
        (is_empty s.installer_ref, "installerRef is required")
        ∷ (is_empty s.source.source_type, "source.type is required")
        ∷ []))
      (validate_source s.source)
