-- ===== src/Extract.antt =====
-- The extractors (internal/installer/extract/extractor.go). An archive is what its reader meets: the
-- formats (tar, zip, gzip, xz) are read by other libraries, whose answers are arguments.
pub mod Inside
use Prim.Native.Char.{code}
use Prim.Native.String.{◌∷◌ as cons, ◌++◌ as concat}
use Prim.Native.String as Str
use tomei.Base.{
  ℕ, String, Bool, true, false, not, ◌&&◌, ◌||◌, Option, none, some, List, [], ◌∷◌, ◌++◌, eqb, ◌==◌,
  if◌then◌else◌,
}
use tomei.Base.Path.{base, dir, join, parts, is_rooted}
use tomei.Execute.Run.{Outcome, ok, failed}
use tomei.Io.{Io, pure, raise, lift, wrap, call, ◌>>=◌, ◌>>◌}

-- What the archive's reader and the operating system do. `write` copies the content of an entry.
pub record Unpacker (W : Type 0) : Type 0 where
  pub mkdir_all : String → ℕ → W → W × Option String
  pub create : String → ℕ → W → W × Option String
  pub write : String → String → W → W × Option String
  pub symlink : String → String → W → W × Option String
  pub link : String → String → W → W × Option String

-- What `Next` of a tar reader answers before the end: an error, or a header by its type.
pub data TarEntry : Type 0 where
  unreadable : String → TarEntry
  tar_dir : String → ℕ → TarEntry
  tar_file : String → ℕ → String → TarEntry
  tar_symlink : String → String → TarEntry
  tar_link : String → String → TarEntry
  tar_other : String → TarEntry

-- A file of a zip archive: its name, whether it is a directory, its mode and its content, which may
-- fail to open.
pub record ZipFile : Type 0 where
  pub name : String
  pub is_dir : Bool
  pub mode : ℕ
  pub open_error : Option String
  pub content : String

pub record DeferredLink : Type 0 where
  pub old_name : String
  pub new_name : String
  pub is_hard : Bool

abbrev begins_with_dot : String → Bool
begins_with_dot Str.[] = false
begins_with_dot (cons c s) = eqb (code c) b'.'

-- Whether the elements of a path go on below those of a directory, with one that has no dot in front.
unfoldable pub below : List String → List String → Bool
below [] [] = false
below [] (p ∷ ps) = not (begins_with_dot p)
below (d ∷ ds) [] = false
below (d ∷ ds) (p ∷ ps) = let rest = below ds ps in if d == p then rest else false

-- `isInsideDir`: `filepath.Rel` gives an error, `.` or a path that begins with `..` elsewhere.
unfoldable pub is_inside_dir : String → String → Bool
unfolding below parts is_rooted
is_inside_dir base_dir target =
    if is_rooted base_dir
    then (if is_rooted target then below (parts base_dir) (parts target) else false)
    else if is_rooted target
    then false
    else below (parts base_dir) (parts target)

-- `strings.HasPrefix`
unfoldable pub has_prefix : String → String → Bool
has_prefix Str.[] s = true
has_prefix (cons c p) Str.[] = false
has_prefix (cons c p) (cons d s) = eqb (code c) (code d) && has_prefix p s

-- `isOSMetadataPath`
unfoldable pub is_os_metadata_path : String → Bool
unfolding has_prefix
is_os_metadata_path name =
    (name == "__MACOSX") || ((name == "__MACOSX/") || has_prefix "__MACOSX/" name)

module _ {W : Type 0} (u : Unpacker W) where
  -- `extractFile`
  unfoldable pub extract_file : String → ℕ → String → Io W (Unit {0})
  unfolding dir
  extract_file target mode content = do
    wrap "failed to create directory: " (call (u.mkdir_all (dir target) 493))
    wrap "failed to create file: " (call (u.create target mode))
    wrap "failed to write file: " (call (u.write target content))

  -- A refusal of paths that are not inside the directory.
  unfoldable pub inside_only : {A : Type 0} → String → String → String → Io W A → Io W A
  unfolding is_inside_dir
  inside_only dest path e m = if is_inside_dir dest path then m else raise e

  -- The switch over the type of a header, for a target inside the directory.
  unfoldable pub extract_header : String → String → TarEntry → Io W (List DeferredLink)
  unfolding extract_file join dir
  extract_header dest target (unreadable e) = raise (concat "failed to read tar header: " e)
  extract_header dest target (tar_dir name mode) = do
    wrap "failed to create directory: " (call (u.mkdir_all target mode))
    pure []
  extract_header dest target (tar_file name mode content) = do
    extract_file target mode content
    pure []
  extract_header dest target (tar_symlink name linkname) =
      inside_only dest (join (dir target ∷ linkname ∷ []))
        (concat "invalid symlink target: " (concat name (concat " -> " linkname)))
        (pure (record { old_name = linkname; new_name = target; is_hard = false } ∷ []))
  extract_header dest target (tar_link name linkname) =
      inside_only dest (join (dest ∷ linkname ∷ []))
        (concat "invalid hard link target: " (concat name (concat " -> " linkname)))
        (pure (
          record { old_name = join (dest ∷ linkname ∷ []); new_name = target; is_hard = true }
          ∷ []))
  extract_header dest target (tar_other name) = pure []

  abbrev entry_name : TarEntry → Outcome String
  entry_name (unreadable e) = failed (concat "failed to read tar header: " e)
  entry_name (tar_dir name mode) = ok name
  entry_name (tar_file name mode content) = ok name
  entry_name (tar_symlink name linkname) = ok name
  entry_name (tar_link name linkname) = ok name
  entry_name (tar_other name) = ok name

  -- An entry: its target has to be inside the directory. The links that it calls for.
  unfoldable pub extract_entry : String → TarEntry → Io W (List DeferredLink)
  unfolding extract_header extract_file join dir
  extract_entry dest e = do
    name ← lift (entry_name e)
    inside_only dest (join (dest ∷ name ∷ [])) (concat "invalid file path: " name)
        (extract_header dest (join (dest ∷ name ∷ [])) e)

  -- The first pass: the links, in their order.
  unfoldable pub extract_entries : String → List TarEntry → Io W (List DeferredLink)
  unfolding extract_entry
  extract_entries dest [] = pure []
  extract_entries dest (e ∷ entries) = do
    here ← extract_entry dest e
    later ← extract_entries dest entries
    pure (here ++ later)

  -- `create` of a deferred link.
  unfoldable pub create_link : DeferredLink → Io W (Unit {0})
  unfolding dir
  create_link l = do
    wrap "failed to create directory for link: " (call (u.mkdir_all (dir l.new_name) 493))
    if l.is_hard
        then wrap "failed to create hard link: " (call (u.link l.old_name l.new_name))
        else wrap "failed to create symlink: " (call (u.symlink l.old_name l.new_name))

  unfoldable pub create_links : List DeferredLink → Io W (Unit {0})
  unfolding create_link
  create_links [] = pure tt
  create_links (l ∷ links) = do create_link l; create_links links

  -- `extractTar`
  unfoldable pub extract_tar : String → List TarEntry → Io W (Unit {0})
  unfolding extract_entries create_links
  extract_tar dest entries = do links ← extract_entries dest entries; create_links links

  abbrev opened : Option String → W → W × Option String
  opened e w = (w, e)

  -- One file of the zip extractor.
  unfoldable pub extract_zip_file : String → ZipFile → Io W (Unit {0})
  unfolding is_os_metadata_path extract_file join
  extract_zip_file dest f =
      if is_os_metadata_path f.name
      then pure tt
      else inside_only dest (join (dest ∷ f.name ∷ [])) (concat "invalid file path: " f.name) (
          if f.is_dir
          then wrap "failed to create directory: "
              (call (u.mkdir_all (join (dest ∷ f.name ∷ [])) f.mode))
          else (wrap "failed to open file in archive: " (call (opened f.open_error))
              >> extract_file (join (dest ∷ f.name ∷ [])) f.mode f.content))

  -- `Extract` of the zip extractor, once the archive is read.
  unfoldable pub extract_zip : String → List ZipFile → Io W (Unit {0})
  unfolding extract_zip_file
  extract_zip dest [] = pure tt
  extract_zip dest (f ∷ files) = do extract_zip_file dest f; extract_zip dest files

  -- `Extract` of the raw extractor.
  unfoldable pub extract_raw : String → String → Io W (Unit {0})
  unfolding base join
  extract_raw dest content = do
    wrap "failed to create directory: " (call (u.mkdir_all dest 493))
    wrap "failed to create binary file: " (call (u.create (join (dest ∷ base dest ∷ [])) 493))
    wrap "failed to write binary file: " (call (u.write (join (dest ∷ base dest ∷ [])) content))
