-- ===== src/Install/World.antt =====
-- What the installers call of the world: the operating system (`os`, `filepath.WalkDir`, `time`), the
-- `Downloader` (internal/installer/download/downloader.go), the `CommandRunner`
-- (internal/installer/tool/installer.go), the archive formats and the services on the network. An error
-- is its text. Answers may depend on the whole world, and every call may change it.
use tomei.Base.{ℕ, String, Bool, Option, List, Map}
use tomei.Resource.Tool.{Checksum}
use tomei.Io.{Io}
use tomei.Execute.Run.{Outcome}

-- What `filepath.WalkDir` passes to its function: an entry, or an error.
pub data Visit : Type 0 where
  visit : String → String → Bool → Visit
  unreadable : String → Visit

pub record Os (W : Type 0) : Type 0 where
  -- `os.Stat` answers with an error for which `os.IsNotExist` holds.
  pub is_missing : String → W → Bool
  -- `os.Lstat` answers without an error.
  pub has_entry : String → W → Bool
  pub open_error : String → W → Option String
  pub mode : String → W → Outcome ℕ
  -- The hex digits of the SHA-256 of a file, or the error of opening or reading it.
  pub sha256 : String → W → Outcome String
  pub read_link : String → W → Outcome String
  -- The entries below a directory, in the order of `filepath.WalkDir`.
  pub walk : String → W → List Visit
  pub mkdir_all : String → W → W × Option String
  pub mkdir_temp : Io W String
  -- `os.OpenFile` with `O_CREATE|O_WRONLY|O_TRUNC`, and the writing of the contents of another file.
  pub create : String → ℕ → W → W × Option String
  pub copy : String → String → W → W × Option String
  pub symlink : String → String → W → W × Option String
  pub remove : String → W → W × Option String
  -- `os.RemoveAll`, which answers nil where there is nothing.
  pub remove_all : String → W → W × Option String
  pub path_variable : W → String
  pub now : W → ℕ

-- `command.Vars`
pub record Vars : Type 0 where
  pub package_name : String
  pub version : String
  pub name : String
  pub bin_path : String
  pub args : String

-- `CommandRunner`. `execute` stands for the three that differ in their output and environment.
pub record CommandRunner (W : Type 0) : Type 0 where
  pub execute : List String → Vars → Map String → W → W × Option String
  pub check : List String → Vars → Map String → Io W Bool

pub record Downloader (W : Type 0) : Type 0 where
  pub download : String → String → W → W × Option String
  pub verify : String → Option Checksum → W → W × Option String

-- `FileSpec` and `ResolveResult` of internal/registry/aqua, as far as the installer reads them.
pub record FileSpec : Type 0 where
  pub name : String
  pub src : String

pub record ResolvedPackage : Type 0 where
  pub url : String
  pub format : String
  pub checksum_url : String
  pub checksum_algorithm : String
  pub errors : List String
  pub files : List FileSpec

-- `aqua.Resolver`: the latest version of a package, with the errors of its two calls, and `Resolve`.
pub record Registry (W : Type 0) : Type 0 where
  pub package_info : String → Io W (String × String)
  pub latest_version : String → String → Io W String
  pub resolve : String → String → Io W ResolvedPackage
  pub ref : String

pub record Services (W : Type 0) : Type 0 where
  pub os : Os W
  pub commands : CommandRunner W
  pub downloader : Downloader W
  -- `Extract` of the extractor of an archive type, from a file to a directory.
  pub extract : String → String → String → W → W × Option String
  -- `resolve.Resolver`, which may be nil.
  pub version_resolver : Option (List String → Vars → Io W String)
  pub registry : Option (Registry W)
  pub tools_dir : String
  pub bin_dir : String
