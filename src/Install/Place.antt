-- ===== src/Install/Place.antt =====
-- The placer (internal/installer/place/placer.go).
use Prim.Native.String.{◌++◌ as concat}
use tomei.Base.{String, Option, none, some, List, [], ◌∷◌, ◌==◌, if◌then◌else◌}
use tomei.Base.Path.{join}
use tomei.Resource.Tool.{is_empty}
use tomei.Execute.Run.{Outcome, ok, failed}
use tomei.Io.{Io, pure, raise, gets, wrap, call, when, ◌>>=◌, ◌>>◌}
use tomei.Install.World.{Visit, visit, unreadable, Os}

pub record Target : Type 0 where
  pub name : String
  pub version : String
  pub binary_name : String
  pub src_binary_name : String

pub data ValidateAction : Type 0 where
  install_action skip_action replace_action : ValidateAction

-- The function of `findBinary`, over the entries that the walk meets.
unfoldable pub find_visited : String → List Visit → Outcome String
find_visited binary_name [] = ok ""
find_visited binary_name (unreadable e ∷ vs) = failed (concat "failed to search for binary: " e)
find_visited binary_name (visit path name is_dir ∷ vs) =
    let rest = find_visited binary_name vs in
    if is_dir then rest else if name == binary_name then ok path else rest

module _ {W : Type 0} (os : Os W) (tools_dir bin_dir : String) where
  unfoldable pub version_dir : Target → String
  unfolding join
  version_dir t = join (tools_dir ∷ t.name ∷ t.version ∷ [])

  -- `BinaryPath`
  unfoldable pub binary_path : Target → String
  unfolding join
  binary_path t = join (tools_dir ∷ t.name ∷ t.version ∷ t.binary_name ∷ [])

  -- `LinkPath`
  unfoldable pub link_path : Target → String
  unfolding join
  link_path t = join (bin_dir ∷ t.binary_name ∷ [])

  abbrev compared : String → Outcome String → Outcome ValidateAction
  compared expected (failed e) = failed (concat "failed to calculate hash: " e)
  compared expected (ok h) = if h == expected then ok skip_action else ok replace_action

  -- `Validate`
  unfoldable pub validate : Target → String → Io W ValidateAction
  unfolding binary_path
  validate t expected w =
      if os.is_missing (binary_path t) w
      then (w, ok install_action)
      else if is_empty expected
      then (w, ok skip_action)
      else (w, compared expected (os.sha256 (binary_path t) w))

  unfoldable pub find_binary : String → String → Io W String
  unfolding find_visited
  find_binary src_dir binary_name = do
    found ← (λ w. (w, find_visited binary_name (os.walk src_dir w)))
    if is_empty found then raise (concat "binary not found: " binary_name) else pure found

  abbrev option_error : Option String → Outcome (Unit {0})
  option_error none = ok tt
  option_error (some e) = failed e

  unfoldable pub copy_file : String → String → Io W (Unit {0})
  copy_file src dst = do
    (λ w. (w, option_error (os.open_error src w)))
    mode ← (λ w. (w, os.mode src w))
    call (os.create dst mode)
    call (os.copy src dst)

  -- `Place`; the path of the placed binary.
  unfoldable pub place : String → Target → Io W String
  unfolding find_binary copy_file version_dir join
  place src_dir t = do
    src ←
        find_binary src_dir
          (if is_empty t.src_binary_name then t.binary_name else t.src_binary_name)
    wrap "failed to create destination directory: " (call (os.mkdir_all (version_dir t)))
    wrap "failed to copy binary: " (copy_file src (join (version_dir t ∷ t.binary_name ∷ [])))
    pure (join (version_dir t ∷ t.binary_name ∷ []))

  -- `Symlink`; the path of the link.
  unfoldable pub symlink : Target → Io W String
  unfolding binary_path link_path
  symlink t = do
    missing ← gets (os.is_missing (binary_path t))
    when missing (raise (concat "source binary not found: " (binary_path t)))
    wrap "failed to create bin directory: " (call (os.mkdir_all bin_dir))
    present ← gets (os.has_entry (link_path t))
    when present (wrap "failed to remove existing symlink: " (call (os.remove (link_path t))))
    wrap "failed to create symlink: " (call (os.symlink (binary_path t) (link_path t)))
    pure (link_path t)

  -- `Cleanup`
  unfoldable pub cleanup : String → Io W (Unit {0})
  cleanup path = wrap "failed to cleanup: " (call (os.remove_all path))
