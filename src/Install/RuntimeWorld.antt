-- ===== src/Install/RuntimeWorld.antt =====
-- What the runtime installer calls of the world beyond what the tool installer does: more of `os` and
-- `filepath.Walk`, `text/template`, and the resolver of versions.
use tomei.Base.{ℕ, String, Bool, Option, List}
use tomei.Io.{Io}
use tomei.Execute.Run.{Outcome}
use tomei.Install.World.{Services}

-- What `filepath.Walk` passes to its function: the path relative to the root, whether it is a
-- directory, and its mode; or an error.
pub data Walked : Type 0 where
  walked : String → Bool → ℕ → Walked
  failed_walk : String → Walked

pub record RuntimeServices (W : Type 0) : Type 0 where
  pub base : Services W
  -- `os.Stat`: an error, or whether it is a directory.
  pub stat : String → W → Option Bool
  -- `os.Lstat`: an error, or whether it is a symbolic link.
  pub lstat : String → W → Option Bool
  -- `os.ReadDir`: the names of the entries, each with whether it is a directory.
  pub read_dir : String → W → Outcome (List (String × Bool))
  pub rename : String → String → W → W × Option String
  pub walk_tree : String → W → List Walked
  -- `os.MkdirAll` with a mode.
  pub mkdir_mode : String → ℕ → W → W × Option String
  pub home : W → Outcome String
  pub run_template : String → String → Outcome String
  -- `Resolve` of the resolver, for a version.
  pub resolve : List String → String → Io W String
  pub runtimes_dir : String
