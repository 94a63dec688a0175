-- ===== src/Install/FromRegistry.antt =====
-- Installation from the aqua registry (internal/installer/tool/installer.go).
use Prim.Native.String.{◌++◌ as concat}
use tomei.Base.{String, false, Option, none, some, List, [], ◌∷◌, if◌then◌else◌}
use tomei.Base.Path.{base}
use tomei.Resource.Version.{is_latest_version, classify_version}
use tomei.Resource.Tool.{DownloadSource, ToolSpec, ToolState, is_empty}
use tomei.Resource.Package.{package_string}
use tomei.Execute.Run.{Outcome, ok, failed}
use tomei.Io.{Io, pure, raise, lift, wrap, ◌>>=◌, ◌>>◌}
use tomei.Install.World.{FileSpec, ResolvedPackage, Registry, Services}
use tomei.Install.Record.{resolved_spec}
use tomei.Install.Download.{InstallConfig, install_by_download}

-- `extractBinaryMapping`: only the first file counts.
unfoldable pub extract_binary_mapping : String → List FileSpec → InstallConfig
extract_binary_mapping default_name [] = record {
  binary_name = default_name;
  src_binary_name = "";
  force = false;
}
extract_binary_mapping default_name (f ∷ files) = record {
  binary_name = if is_empty f.name then default_name else f.name;
  src_binary_name = if is_empty f.src then "" else base f.src;
  force = false;
}

-- The download that the registry's answer stands for.
unfoldable pub resolved_source : ResolvedPackage → DownloadSource
resolved_source resolved = record {
  url = resolved.url;
  checksum =
      if is_empty resolved.checksum_url
      then none
      else some (record {
        value = "";
        url = resolved.checksum_url;
        file_pattern = "";
        algorithm = resolved.checksum_algorithm;
      });
  archive_type = resolved.format;
}

abbrev first_error : String → List String → Outcome (Unit {0})
first_error pkg_name [] = ok tt
first_error pkg_name (e ∷ es) =
    failed (concat "package " (concat pkg_name (concat " is not supported on this platform: " e)))

abbrev configured : {A : Type 0} → String → Option A → Outcome A
configured e none = failed e
configured e (some a) = ok a

module _ {W : Type 0} (s : Services W) where
  unfoldable pub fetch_latest : Registry W → String → Io W String
  fetch_latest registry pkg_name = do
    info ← wrap "failed to fetch package info: " (registry.package_info pkg_name)
    wrap (concat "failed to get latest version for " (concat pkg_name ": "))
        (registry.latest_version info.0 info.1)

  unfoldable pub download_resolved :
      ToolSpec → String → String → String → ResolvedPackage → Io W ToolState
  unfolding install_by_download extract_binary_mapping resolved_source resolved_spec
  download_resolved spec name old version resolved = do
    lift (first_error (package_string spec.package_id) resolved.errors)
    st ←
        install_by_download s (resolved_spec spec version (resolved_source resolved)) name old
          (extract_binary_mapping name resolved.files)
    pure (record st {
      package_id = spec.package_id;
      version_kind = classify_version spec.version;
      spec_version = spec.version;
    })

  -- `installFromRegistry`
  unfoldable pub install_from_registry : ToolSpec → String → String → Io W ToolState
  unfolding fetch_latest download_resolved package_string
  install_from_registry spec name old = do
    registry ← lift (configured "aqua-registry resolver not configured" s.registry)
    if is_empty registry.ref
        then raise "aqua-registry ref not configured; run 'tomei init' first"
        else do
          version ←
              if is_latest_version spec.version
              then fetch_latest registry (package_string spec.package_id)
              else pure spec.version
          resolved ←
              wrap
                (concat "failed to resolve package " (concat (package_string spec.package_id) ": "))
                (registry.resolve (package_string spec.package_id) version)
          download_resolved spec name old version resolved
