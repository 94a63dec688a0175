-- ===== src/Install/Refused.antt =====
-- A tool that is in place already, under another hash than the one of its manifest
-- (internal/installer/tool/installer.go, internal/installer/place/placer.go).
use Prim.Native.String.{◌++◌ as concat}
use tomei.Base.{
  String, ◌≡◌, refl, true, false, not, Option, none, some, ◌==◌, arith, lookup, ◌∙◌, Bool-cases,
  inl, inr,
}
use tomei.Resource.Version.{ActionType}
use tomei.Resource.Tool.{Tool, ToolSpec, ToolCommandSet, DownloadSource, is_empty}
use tomei.Resource.Package.{is_registry}
use tomei.Execute.Run.{ok, failed}
use tomei.Io.Rules.{bind_ok, wrap_ok, lift_ok}
use tomei.Io.{lift, raise, when, gets}
use tomei.Install.World.{Services}
use tomei.Install.Names.{is_binary_name, validate_binary_name}
use tomei.Install.Place.{Target, replace_action, validate, binary_path}
use tomei.Install.Fields.{InstallerInfo, ToolFields}
use tomei.Install.Download.{
  no_config, effective_config, expected_hash, target_of, act_on, install_by_download,
}
use tomei.Install.Tool.{delegating, install_others, install_pattern, install}

abbrev pub different_hash : String → String → String
different_hash name version =
    concat "tool " (
      concat name (concat "@" (concat version " exists with different hash, use force to replace")))

-- A tool that is installed from the source of its manifest.
pub record IsDownloaded (t : Tool) (source : DownloadSource) : Type 0 where
  pub no_commands : t.spec.commands ≡ none
  pub no_runtime : is_empty t.spec.runtime_ref ≡ true
  pub no_registry : is_registry t.spec.package_id ≡ false
  pub from_source : t.spec.source ≡ some source

pub validate_binary_name_ok :
    (name : String) → is_binary_name name ≡ true → validate_binary_name name ≡ ok tt
unfolding validate_binary_name
validate_binary_name_ok name h = rw h

-- A spec's binary name is the effective one.
spec_name_ok :
    (spec : ToolSpec) (name : String)
    → is_binary_name (effective_config spec name no_config).binary_name ≡ true
    → is_empty spec.binary_name ≡ false
    → is_binary_name spec.binary_name ≡ true
unfolding effective_config
spec_name_ok spec name h e = rw e at h

-- Nothing asks for a replacement.
not_forced :
    (spec : ToolSpec) (name : String) → (effective_config spec name no_config).force ≡ false
unfolding effective_config
not_forced spec name = elim (Bool-cases (is_empty spec.binary_name)) [ inl e ↦ rw e | inr e ↦ rw e ]

module _ {W : Type 0} (s : Services W) where
  validate_differs :
      (t : Target) (expected placed : String) (w : W)
      → is_empty expected ≡ false
      → s.os.is_missing (binary_path s.os s.tools_dir s.bin_dir t) w ≡ false
      → s.os.sha256 (binary_path s.os s.tools_dir s.bin_dir t) w ≡ ok placed
      → (placed == expected) ≡ false
      → validate s.os s.tools_dir s.bin_dir t expected w ≡ (w, ok replace_action)
  unfolding validate
  validate_differs t expected placed w given there sha differs =
      rw (there, given, sha, differs) refl

  download_differs :
      (spec : ToolSpec) (name old : String) (source : DownloadSource) (w : W)
      → is_binary_name (effective_config spec name no_config).binary_name ≡ true
      → spec.source ≡ some source
      → validate s.os s.tools_dir s.bin_dir
          (target_of spec name (effective_config spec name no_config))
          (expected_hash source.checksum)
          w
        ≡ (w, ok replace_action)
      → install_by_download s spec name old no_config w
        ≡ (w, failed (different_hash name spec.version))
  unfolding install_by_download act_on raise
  download_differs spec name old source w valid given differs =
      bind_ok _ _ w w tt (
        lift_ok _ w tt
          (validate_binary_name_ok (effective_config spec name no_config).binary_name valid))
      ∙ bind_ok _ _ w w source (lift_ok _ w source (rw given refl))
      ∙ bind_ok _ _ w w replace_action (wrap_ok _ _ w w replace_action differs)
      ∙ rw (not_forced spec name) refl

  -- The name of the spec, where it has one, passes.
  checked_name :
      (spec : ToolSpec) (name : String) (w : W)
      → is_binary_name (effective_config spec name no_config).binary_name ≡ true
      → when (not (is_empty spec.binary_name)) (lift (validate_binary_name spec.binary_name)) w
        ≡ (w, ok tt)
  unfolding when
  checked_name spec name w valid = elim (Bool-cases (is_empty spec.binary_name)) [
    | inl e ↦ rw e refl
    | inr e ↦ rw e (lift_ok _ w tt (validate_binary_name_ok _ (spec_name_ok spec name valid e)))
  ]

module _ {W : Type 0} (s : Services W) (fields : W → ToolFields) where
  others_download :
      (spec : ToolSpec) (name old : String) (info : Option InstallerInfo) (w : W)
      → info ≡ none
      → is_registry spec.package_id ≡ false
      → install_others s fields spec name old info w
        ≡ install_by_download s spec name old no_config w
  others_download spec name old none w nd h = rw h refl
  others_download spec name old (some info) w nd h = absurd (ground (arith, nd))

  pattern_downloads :
      (action : ActionType) (spec : ToolSpec) (name old : String) (cmds : Option ToolCommandSet)
      (w : W)
      → cmds ≡ none
      → is_empty spec.runtime_ref ≡ true
      → delegating (lookup spec.installer_ref (fields w).installers) ≡ none
      → is_registry spec.package_id ≡ false
      → install_pattern s fields action spec name old cmds w
        ≡ install_by_download s spec name old no_config w
  unfolding gets
  pattern_downloads action spec name old (some cmds) w h nr nd ng = absurd (ground (arith, h))
  pattern_downloads action spec name old none w h nr nd ng = rw nr (
      bind_ok (gets (λ w'. lookup spec.installer_ref (fields w').installers))
        (λ info. install_others s fields spec name old (delegating info)) w w
        (lookup spec.installer_ref (fields w).installers) refl
      ∙ others_download spec name old (delegating (lookup spec.installer_ref (fields w).installers))
          w nd ng)

  -- The choice of the pattern.
  pub install_downloads :
      (action : ActionType) (t : Tool) (old name : String) (source : DownloadSource) (w : W)
      → IsDownloaded t source
      → delegating (lookup t.spec.installer_ref (fields w).installers) ≡ none
      → is_binary_name (effective_config t.spec name no_config).binary_name ≡ true
      → install s fields action old (some t) name w
        ≡ install_by_download s t.spec name old no_config w
  unfolding install
  install_downloads action t old name source w d nd valid =
      bind_ok _ _ w w tt (checked_name s t.spec name w valid)
      ∙ pattern_downloads action t.spec name old t.spec.commands w d.no_commands d.no_runtime nd
          d.no_registry

  -- A downloaded tool with a checksum value, whose binary is in place: if the SHA-256 of the binary is
  -- not the digest of that value, then `Install` fails, for each action type, with the error that the
  -- tool exists with a different hash, and changes nothing.
  pub install_different_hash :
      (action : ActionType) (t : Tool) (old name : String) (source : DownloadSource) (w : W)
      (placed : String)
      → IsDownloaded t source
      → delegating (lookup t.spec.installer_ref (fields w).installers) ≡ none
      → is_binary_name (effective_config t.spec name no_config).binary_name ≡ true
      → let path =
          binary_path s.os s.tools_dir s.bin_dir
            (target_of t.spec name (effective_config t.spec name no_config)) in
        is_empty (expected_hash source.checksum) ≡ false
        → s.os.is_missing path w ≡ false
        → s.os.sha256 path w ≡ ok placed
        → (placed == expected_hash source.checksum) ≡ false
        → install s fields action old (some t) name w
          ≡ (w, failed (different_hash name t.spec.version))
  install_different_hash action t old name source w placed d nd valid given there sha differs =
      install_downloads action t old name source w d nd valid
      ∙ download_differs s t.spec name old source w valid d.from_source (
          validate_differs s (target_of t.spec name (effective_config t.spec name no_config))
            (expected_hash source.checksum) placed w given there sha differs)
