-- ===== src/Install/Links.antt =====
-- The links of a runtime's binaries (internal/installer/runtime/installer.go).
use Prim.Native.Char.{code}
use Prim.Native.String.{◌∷◌ as cons, ◌++◌ as concat}
use Prim.Native.String as Str
use tomei.Base.{
  String, Bool, true, false, not, ◌&&◌, ◌||◌, Option, none, some, List, [], ◌∷◌, eqb, ◌==◌,
  if◌then◌else◌,
}
use tomei.Base.Path.{join}
use tomei.Resource.Tool.{is_empty}
use tomei.Resource.Other.{RuntimeSpec}
use tomei.Io.{Io, pure, raise, gets, wrap, call, ignore, when, ◌>>=◌, ◌>>◌}
use tomei.Install.Expand.{expand}
use tomei.Install.RuntimeWorld.{RuntimeServices}

abbrev pub has_some : {A : Type 0} → List A → Bool
has_some [] = false
has_some (x ∷ xs) = true

-- `isHidden`
unfoldable pub is_hidden : String → Bool
is_hidden Str.[] = false
is_hidden (cons c s) = eqb (code c) b'.'

-- `isOSMetadata`
unfoldable pub is_os_metadata : String → Bool
is_os_metadata name = name == "__MACOSX"

-- The directories that `findExtractedRoot` collects.
unfoldable pub root_dirs : List (String × Bool) → List String
unfolding is_hidden is_os_metadata
root_dirs [] = []
root_dirs ((name, is_dir) ∷ entries) =
    let rest = root_dirs entries in
    if not is_dir then rest else if is_hidden name || is_os_metadata name then rest else name ∷ rest

abbrev only_root : String → List String → String
only_root dir (name ∷ []) = join (dir ∷ name ∷ [])
only_root dir names = dir

module _ {W : Type 0} (s : RuntimeServices W) where
  -- `findExtractedRoot`
  unfoldable pub find_extracted_root : String → Io W String
  unfolding root_dirs join
  find_extracted_root dir = do
    entries ← (λ w. (w, s.read_dir dir w))
    pure (only_root dir (root_dirs entries))

  abbrev is_file : Option Bool → Bool
  is_file (some false) = true
  is_file _ = false

  -- `findBinary` of the runtime installer: the first of two places, or `""`.
  unfoldable pub find_runtime_binary : String → String → W → String
  unfolding join
  find_runtime_binary install_path binary w =
      if is_file (s.stat (join (install_path ∷ "bin" ∷ binary ∷ [])) w)
      then join (install_path ∷ "bin" ∷ binary ∷ [])
      else if is_file (s.stat (join (install_path ∷ binary ∷ [])) w)
      then join (install_path ∷ binary ∷ [])
      else ""

  -- The link of one binary: one that is at its destination already is left alone.
  unfoldable pub link_binary : String → String → String → Io W (Unit {0})
  unfolding find_runtime_binary join
  link_binary install_path bin_dir binary = do
    path ← gets (find_runtime_binary install_path binary)
    when (is_empty path)
        (raise (concat "binary \"" (concat binary (concat "\" not found in " install_path))))
    if path == join (bin_dir ∷ binary ∷ []) then pure tt else do
      present ← gets (s.base.os.has_entry (join (bin_dir ∷ binary ∷ [])))
      when present (
          wrap "failed to remove existing symlink: "
            (call (s.base.os.remove (join (bin_dir ∷ binary ∷ [])))))
      wrap (concat "failed to create symlink for " (concat binary ": "))
          (call (s.base.os.symlink path (join (bin_dir ∷ binary ∷ []))))

  -- The loop of `createSymlinks`.
  unfoldable pub link_binaries : String → String → List String → Io W (Unit {0})
  unfolding link_binary
  link_binaries install_path bin_dir [] = pure tt
  link_binaries install_path bin_dir (binary ∷ binaries) = do
    link_binary install_path bin_dir binary
    link_binaries install_path bin_dir binaries

  -- `createSymlinks`
  unfoldable pub create_symlinks : String → List String → String → Io W (Unit {0})
  unfolding link_binaries
  create_symlinks install_path binaries bin_dir = do
    wrap "failed to create bin directory: " (call (s.base.os.mkdir_all bin_dir))
    link_binaries install_path bin_dir binaries

  -- Whether `os.Stat` finds each binary in a directory.
  unfoldable pub all_in_dir : String → List String → W → Bool
  unfolding join
  all_in_dir bin_dir [] w = true
  all_in_dir bin_dir (binary ∷ binaries) w =
      let rest = all_in_dir bin_dir binaries w in
      elim (s.stat (join (bin_dir ∷ binary ∷ [])) w) [ none ↦ false | some d ↦ rest ]

  -- `createDelegationSymlinks`
  unfoldable pub create_delegation_symlinks : String → String → List String → String → Io W String
  unfolding all_in_dir create_symlinks join
  create_delegation_symlinks name version binaries bin_dir = do
    there ← gets (all_in_dir bin_dir binaries)
    if there then pure "" else do
      create_symlinks (join (s.runtimes_dir ∷ name ∷ version ∷ [])) binaries bin_dir
      pure (join (s.runtimes_dir ∷ name ∷ version ∷ []))

  -- `resolveBinDir`
  unfoldable pub resolve_bin_dir : RuntimeSpec → Io W String
  unfolding expand
  resolve_bin_dir spec =
      if not (is_empty spec.bin_dir)
      then wrap "failed to expand binDir: " (λ w. (w, expand (s.home w) spec.bin_dir))
      else if not (is_empty spec.tool_bin_path)
      then wrap "failed to expand toolBinPath: " (λ w. (w, expand (s.home w) spec.tool_bin_path))
      else pure ""

  -- `ensureSymlinks`
  unfoldable pub ensure_symlinks : String → RuntimeSpec → Io W String
  unfolding resolve_bin_dir create_symlinks
  ensure_symlinks install_path spec = do
    bin_dir ← wrap "failed to resolve bin directory: " (resolve_bin_dir spec)
    when (not (is_empty bin_dir) && has_some spec.binaries)
        (create_symlinks install_path spec.binaries bin_dir)
    pure bin_dir

  -- One binary of `removeSymlinks`; `os.Lstat` tells the links apart where only they may go.
  unfoldable pub remove_symlink : Bool → String → Io W (Unit {0})
  remove_symlink symlink_only path = do
    link ← gets (s.lstat path)
    when (not symlink_only || elim link [ none ↦ false | some b ↦ b ])
        (ignore (s.base.os.remove path))

  -- The loop of `removeSymlinks`.
  unfoldable pub remove_links : String → List String → Bool → Io W (Unit {0})
  unfolding remove_symlink join
  remove_links bin_dir [] symlink_only = pure tt
  remove_links bin_dir (binary ∷ binaries) symlink_only = do
    remove_symlink symlink_only (join (bin_dir ∷ binary ∷ []))
    remove_links bin_dir binaries symlink_only

  -- `removeSymlinks`
  unfoldable pub remove_symlinks : String → List String → Bool → Io W (Unit {0})
  unfolding remove_links
  remove_symlinks bin_dir binaries symlink_only =
      if is_empty bin_dir then pure tt else remove_links bin_dir binaries symlink_only
