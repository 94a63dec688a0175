-- ===== src/Install/Download.antt =====
-- The download pattern of the tool installer (internal/installer/tool/installer.go).
use Prim.Native.String.{◌++◌ as concat}
use tomei.Base.{String, Bool, false, Option, none, some, [], ◌∷◌, ◌==◌, if◌then◌else◌}
use tomei.Base.Path.{base, join}
use tomei.Resource.Tool.{Checksum, DownloadSource, ToolSpec, ToolState, is_empty}
use tomei.Execute.Run.{Outcome, ok, failed}
use tomei.Io.{Io, pure, raise, gets, lift, wrap, call, deferring, ◌>>=◌, ◌>>◌}
use tomei.Install.World.{Services}
use tomei.Install.Record.{build_state}
use tomei.Install.Names.{validate_binary_name, extract_hash, detect_archive_type, new_extractor}
use tomei.Install.Place.{
  Target, ValidateAction, install_action, skip_action, replace_action, binary_path, link_path,
  validate, place, symlink,
}
use tomei.Install.Fields.{cleanup_old_symlink}

pub record InstallConfig : Type 0 where
  pub binary_name : String
  pub src_binary_name : String
  pub force : Bool

-- `&installer.InstallConfig{}`
abbrev pub no_config : InstallConfig
no_config = record { binary_name = ""; src_binary_name = ""; force = false }

abbrev or_else : String → String → String
or_else s d = if is_empty s then d else s

-- The configuration with its defaults, and with the binary name of the spec over it.
unfoldable pub effective_config : ToolSpec → String → InstallConfig → InstallConfig
effective_config spec name cfg =
    let named = or_else cfg.binary_name name in
    if is_empty spec.binary_name then record cfg { binary_name = named } else record cfg {
      binary_name = spec.binary_name;
      src_binary_name = or_else cfg.src_binary_name named;
    }

abbrev source_of : Option DownloadSource → Outcome DownloadSource
source_of none = failed "source is required for download pattern"
source_of (some source) = ok source

-- The hash that an existing installation is validated against.
unfoldable pub expected_hash : Option Checksum → String
unfolding extract_hash
expected_hash none = ""
expected_hash (some c) = extract_hash c.value

unfoldable pub archive_type_of : DownloadSource → Outcome String
unfolding detect_archive_type
archive_type_of source =
    if is_empty source.archive_type
    then (let detected = detect_archive_type source.url in
        if is_empty detected
        then failed (concat "cannot determine archive type from URL: " source.url)
        else ok detected)
    else ok source.archive_type

-- `place.Target` of a tool under its configuration.
unfoldable pub target_of : ToolSpec → String → InstallConfig → Target
target_of spec name cfg = record {
  name = name;
  version = spec.version;
  binary_name = cfg.binary_name;
  src_binary_name = cfg.src_binary_name;
}

module _ {W : Type 0} (s : Services W) where
  -- The state that both ends of `installByDownload` record, once the old link is gone.
  abbrev pub recorded : ToolSpec → Target → String → String → String → Io W ToolState
  recorded spec t expected old link = do
    cleanup_old_symlink s.os s.tools_dir old link
    now ← gets s.os.now
    pure (
        build_state spec (binary_path s.os s.tools_dir s.bin_dir t)
          (link_path s.os s.tools_dir s.bin_dir t) expected now)

  -- What is already in place is linked again.
  unfoldable pub relink : ToolSpec → Target → String → String → Io W ToolState
  unfolding cleanup_old_symlink build_state binary_path link_path
  relink spec t expected old = do
    link ← wrap "failed to update symlink: " (symlink s.os s.tools_dir s.bin_dir t)
    recorded spec t expected old link

  -- From the archive to the unpacked directory: download, verification, extraction.
  unfoldable pub unpack : DownloadSource → String → String → Io W (Unit {0})
  unfolding archive_type_of new_extractor base join
  unpack source name tmp = do
    wrap "failed to download: "
        (call (s.downloader.download source.url (join (tmp ∷ base source.url ∷ []))))
    wrap "failed to verify checksum: "
        (call (s.downloader.verify (join (tmp ∷ base source.url ∷ [])) source.checksum))
    type ← lift (archive_type_of source)
    extractor ← wrap "failed to create extractor: " (lift (new_extractor type))
    wrap "failed to open archive: "
        (call (λ w. (w, s.os.open_error (join (tmp ∷ base source.url ∷ [])) w)))
    wrap "failed to extract: " (
        call (
          s.extract extractor (join (tmp ∷ base source.url ∷ [])) (
            join
              (if type == "raw" then tmp ∷ "extracted" ∷ name ∷ [] else tmp ∷ "extracted" ∷ []))))

  -- From the archive to the link.
  unfoldable pub place_from : ToolSpec → Target → DownloadSource → String → String → Io W ToolState
  unfolding unpack place symlink cleanup_old_symlink build_state binary_path link_path join
  place_from spec t source old tmp = do
    unpack source t.name tmp
    wrap "failed to place binary: "
        (place s.os s.tools_dir s.bin_dir (join (tmp ∷ "extracted" ∷ [])) t)
    link ← wrap "failed to create symlink: " (symlink s.os s.tools_dir s.bin_dir t)
    recorded spec t (expected_hash source.checksum) old link

  -- The temporary directory is removed whatever happens.
  unfoldable pub fetch : ToolSpec → Target → DownloadSource → String → Io W ToolState
  unfolding place_from
  fetch spec t source old = do
    tmp ← wrap "failed to create temp dir: " s.os.mkdir_temp
    deferring (s.os.remove_all tmp) (place_from spec t source old tmp)

  unfoldable pub act_on :
      ToolSpec → Target → DownloadSource → String → Bool → ValidateAction → Io W ToolState
  unfolding relink fetch expected_hash
  act_on spec t source old force skip_action = relink spec t (expected_hash source.checksum) old
  act_on spec t source old force install_action = fetch spec t source old
  act_on spec t source old force replace_action =
      if force
      then fetch spec t source old
      else raise (
          concat "tool " (
            concat t.name (
              concat "@"
                (concat spec.version " exists with different hash, use force to replace"))))

  -- `installByDownload`
  unfoldable pub install_by_download : ToolSpec → String → String → InstallConfig → Io W ToolState
  unfolding effective_config validate_binary_name expected_hash target_of validate act_on
  install_by_download spec name old given = do
    lift (validate_binary_name (effective_config spec name given).binary_name)
    source ← lift (source_of spec.source)
    action ← wrap "failed to validate: " (
        validate s.os s.tools_dir s.bin_dir (target_of spec name (effective_config spec name given))
          (expected_hash source.checksum))
    act_on spec (target_of spec name (effective_config spec name given)) source old
        (effective_config spec name given).force action
