-- ===== src/Install/RuntimeDownload.antt =====
-- The download pattern of the runtime installer (internal/installer/runtime/installer.go).
use tomei.Base.{ℕ, String, Bool, true, false, Option, none, some, List, [], ◌∷◌, if◌then◌else◌}
use tomei.Base.Path.{base, dir, join}
use tomei.Resource.Version.{version_exact, version_alias, classify_version}
use tomei.Resource.Tool.{Checksum, DownloadSource, is_empty}
use tomei.Resource.Other.{RuntimeSpec, RuntimeState}
use tomei.Execute.Run.{Outcome, ok, failed}
use tomei.Io.{Io, pure, raise, gets, lift, wrap, attempt, call, deferring, ◌>>=◌, ◌>>◌}
use tomei.Install.Record.{is_exact_version, build_state_resolved}
use tomei.Install.Names.{new_extractor}
use tomei.Install.Download.{archive_type_of, expected_hash}
use tomei.Install.Expand.{expand, expand_version_template, expand_env, or_same}
use tomei.Install.RuntimeWorld.{Walked, walked, failed_walk, RuntimeServices}
use tomei.Install.Links.{find_extracted_root, ensure_symlinks}

abbrev runtime_source : Option DownloadSource → Outcome DownloadSource
runtime_source none = failed "source.url is required for download pattern"
runtime_source (some source) =
    if is_empty source.url then failed "source.url is required for download pattern" else ok source

abbrev with_url : Checksum → Outcome String → Outcome (Option Checksum)
with_url c (failed e) = failed e
with_url c (ok url) =
    ok (some (record { value = c.value; url = url; file_pattern = c.file_pattern; algorithm = "" }))

abbrev source_digest : Option DownloadSource → String
unfolding expected_hash
source_digest none = ""
source_digest (some source) = expected_hash source.checksum

module _ {W : Type 0} (s : RuntimeServices W) where
  -- `resolveVersion`: the version and its kind.
  unfoldable pub resolve_version : String → List String → Io W (String × String)
  unfolding is_exact_version classify_version
  resolve_version version [] = pure (version, classify_version version)
  resolve_version version (cmd ∷ cmds) =
      if is_exact_version version
      then pure (version, version_exact)
      else do resolved ← s.resolve (cmd ∷ cmds) version; pure (resolved, version_alias)

  -- The checksum of a source, with the version in its URL.
  unfoldable pub expand_checksum : Option Checksum → String → Outcome (Option Checksum)
  unfolding expand_version_template
  expand_checksum none version = ok none
  expand_checksum (some c) version =
      if is_empty c.url
      then with_url c (ok "")
      else with_url c (expand_version_template s.run_template c.url version)

  -- `copyFile`
  unfoldable pub copy_mode : String → String → ℕ → Io W (Unit {0})
  copy_mode src dst mode = do
    call (λ w. (w, s.base.os.open_error src w))
    call (s.base.os.create dst mode)
    call (s.base.os.copy src dst)

  -- The function of `copyDir`, over the entries that the walk meets.
  unfoldable pub copy_walked : String → String → List Walked → Io W (Unit {0})
  unfolding copy_mode join
  copy_walked src dst [] = pure tt
  copy_walked src dst (failed_walk e ∷ entries) = raise e
  copy_walked src dst (walked rel is_dir mode ∷ entries) = do
    if is_dir
        then call (s.mkdir_mode (join (dst ∷ rel ∷ [])) mode)
        else copy_mode (join (src ∷ rel ∷ [])) (join (dst ∷ rel ∷ [])) mode
    copy_walked src dst entries

  -- A rename, or a copy where it fails.
  unfoldable pub move_dir : String → String → Io W (Unit {0})
  unfolding copy_walked
  move_dir root install_path = do
    renamed ← attempt (call (s.rename root install_path))
    elim renamed [
      | some u ↦ pure tt
      | none ↦
          wrap "failed to move runtime to install path: "
            (do entries ← gets (s.walk_tree root); copy_walked root install_path entries)
    ]

  -- `buildStateResolved`
  unfoldable pub record_runtime :
      RuntimeSpec → String → String → String × String → Io W RuntimeState
  unfolding expand expand_env build_state_resolved source_digest
  record_runtime spec install_path bin_dir version = do
    home ← gets s.home
    now ← gets s.base.os.now
    pure (
        build_state_resolved spec install_path bin_dir
          (or_same spec.tool_bin_path (expand home spec.tool_bin_path))
          (expand_env s.run_template home spec.env version.0) (source_digest spec.source) version.0
          version.1 now)

  -- From the archive to the install path.
  unfoldable pub unpack_runtime :
      DownloadSource → String → Option Checksum → String → String → Io W (Unit {0})
  unfolding archive_type_of new_extractor find_extracted_root move_dir base dir join
  unpack_runtime source url checksum install_path tmp = do
    wrap "failed to download: " (call (s.base.downloader.download url (join (tmp ∷ base url ∷ []))))
    wrap "failed to verify checksum: "
        (call (s.base.downloader.verify (join (tmp ∷ base url ∷ [])) checksum))
    type ← lift (archive_type_of (record source { url = url }))
    extractor ← wrap "failed to create extractor: " (lift (new_extractor type))
    wrap "failed to open archive: "
        (call (λ w. (w, s.base.os.open_error (join (tmp ∷ base url ∷ [])) w)))
    wrap "failed to extract: " (
        call
          (s.base.extract extractor (join (tmp ∷ base url ∷ [])) (join (tmp ∷ "extracted" ∷ []))))
    root ←
        wrap "failed to find extracted root: "
          (find_extracted_root s (join (tmp ∷ "extracted" ∷ [])))
    wrap "failed to create install directory: " (call (s.base.os.mkdir_all (dir install_path)))
    move_dir root install_path

  -- The rest of `installDownload` where the install path is not there; the temporary directory is
  -- removed whatever happens.
  unfoldable pub fetch_runtime :
      RuntimeSpec
      → DownloadSource
      → String
      → Option Checksum
      → String
      → String × String
      → Io W RuntimeState
  unfolding unpack_runtime ensure_symlinks record_runtime
  fetch_runtime spec source url checksum install_path version = do
    tmp ← wrap "failed to create temp dir: " s.base.os.mkdir_temp
    deferring (s.base.os.remove_all tmp) (do
      unpack_runtime source url checksum install_path tmp
      bin_dir ← wrap "failed to create symlinks: " (ensure_symlinks s install_path spec)
      record_runtime spec install_path bin_dir version)

  -- An install path that is there gets its links again.
  unfoldable pub relink_runtime : RuntimeSpec → String → String × String → Io W RuntimeState
  unfolding ensure_symlinks record_runtime
  relink_runtime spec install_path version = do
    bin_dir ← wrap "failed to rebuild symlinks: " (ensure_symlinks s install_path spec)
    record_runtime spec install_path bin_dir version

  abbrev is_there : Option Bool → Bool
  is_there none = false
  is_there (some d) = true

  -- `installDownload`
  unfoldable pub install_runtime_download : RuntimeSpec → String → Io W RuntimeState
  unfolding resolve_version expand_version_template expand_checksum relink_runtime fetch_runtime
      join
  install_runtime_download spec name = do
    source ← lift (runtime_source spec.source)
    version ← wrap "failed to resolve version: " (resolve_version spec.version spec.resolve_version)
    url ←
        wrap "failed to expand source URL template: "
          (lift (expand_version_template s.run_template source.url version.0))
    checksum ←
        wrap "failed to expand checksum URL template: "
          (lift (expand_checksum source.checksum version.0))
    there ← gets (s.stat (join (s.runtimes_dir ∷ name ∷ version.0 ∷ [])))
    if is_there there
        then relink_runtime spec (join (s.runtimes_dir ∷ name ∷ version.0 ∷ [])) version
        else fetch_runtime spec source url checksum (join (s.runtimes_dir ∷ name ∷ version.0 ∷ []))
            version
