-- ===== src/Install/Unverified.antt =====
-- A download that fails its verification (internal/installer/tool/installer.go): nothing is unpacked,
-- placed or linked.
use tomei.Base.{String, ◌≡◌, ◌≢◌, refl, true, Option, none, some, ◌∙◌, sym, subst, lookup}
use tomei.Resource.Tool.{ToolSpec, DownloadSource, Checksum, Tool}
use tomei.Resource.Version.{ActionType}
use tomei.Install.Fields.{ToolFields}
use tomei.Install.Tool.{delegating, install}
use tomei.Install.Refused.{IsDownloaded, install_downloads, validate_binary_name_ok}
use tomei.Execute.Run.{ok, failed}
use tomei.Io.{call, done_or_error}
use tomei.Io.Rules.{
  Returns, Keeps, Returns-bind, Returns-after, Returns-deferring, Returns-wrap, IsNever,
  never_fails, wrap_ok, lift_ok, Keeps-stopped, Keeps-wrap, Keeps-call, Keeps-deferring, Keeps-bind,
  bind_ok, failed_not_ok,
}
use tomei.Install.World.{Services}
use tomei.Install.Names.{is_binary_name}
use tomei.Install.Place.{Target, install_action, validate, binary_path}
use tomei.Install.Download.{
  no_config, effective_config, target_of, unpack, place_from, fetch, act_on, install_by_download,
}

-- What the four calls of a download up to its verification keep.
pub record KeptByDownload {W : Type 0} (s : Services W) (P : W → Type 0) : Type 0 where
  pub mkdir_temp : (w : W) → P w → P (s.os.mkdir_temp w).0
  pub remove_all : (path : String) (w : W) → P w → P (s.os.remove_all path w).0
  pub download : (url path : String) (w : W) → P w → P (s.downloader.download url path w).0
  pub verify :
      (path : String) (c : Option Checksum) (w : W) → P w → P (s.downloader.verify path c w).0

module _ {W : Type 0} (s : Services W) where
  -- Whatever file it is given, the verification answers with an error.
  abbrev pub IsUnverified : DownloadSource → Type 0
  IsUnverified source =
      (path : String) (w : W) → (s.downloader.verify path source.checksum w).1 ≢ none

  verify-IsNever :
      (source : DownloadSource) (path : String)
      → IsUnverified source
      → Returns {W = W} IsNever (call (s.downloader.verify path source.checksum))
  unfolding call
  verify-IsNever source path u = record {
    value = λ w a e. go (s.downloader.verify path source.checksum w) (u path w) a e;
  }
    where
      go : (p : W × Option String) → p.1 ≢ none → (a : Unit {0}) → ¬ ((done_or_error p).1 ≡ ok a)
      go (w, none) n a e = n refl
      go (w, some x) n a e = failed_not_ok e

  unpack-IsNever :
      (source : DownloadSource) (name tmp : String)
      → IsUnverified source
      → Returns IsNever (unpack s source name tmp)
  unfolding unpack
  unpack-IsNever source name tmp u = Returns-bind _ _ (λ _.
      Returns-after IsNever _ _ (Returns-wrap _ _ (verify-IsNever source _ u)) (λ _ n. absurd n))

  fetch-IsNever :
      (spec : ToolSpec) (t : Target) (source : DownloadSource) (old : String)
      → IsUnverified source
      → Returns IsNever (fetch s spec t source old)
  unfolding fetch place_from
  fetch-IsNever spec t source old u = Returns-bind _ _ (λ tmp.
      Returns-deferring _ _
        (Returns-after IsNever _ _ (unpack-IsNever source t.name tmp u) (λ _ n. absurd n)))

  module _ (P : W → Type 0) (k : KeptByDownload s P) where
    unpack-Keeps :
        (source : DownloadSource) (name tmp : String)
        → IsUnverified source
        → Keeps P (unpack s source name tmp)
    unfolding unpack
    unpack-Keeps source name tmp u =
        Keeps-bind _ _ (Keeps-wrap _ _ (Keeps-call _ (k.download _ _))) (λ _.
          Keeps-stopped _ _ (Returns-wrap _ _ (verify-IsNever source _ u))
            (Keeps-wrap _ _ (Keeps-call _ (k.verify _ _))))

    fetch-Keeps :
        (spec : ToolSpec) (t : Target) (source : DownloadSource) (old : String)
        → IsUnverified source
        → Keeps P (fetch s spec t source old)
    unfolding fetch place_from
    fetch-Keeps spec t source old u =
        Keeps-bind _ _ (Keeps-wrap _ _ (record { after = k.mkdir_temp })) (λ tmp.
          Keeps-deferring _ _ (k.remove_all tmp) (
            Keeps-stopped _ _ (unpack-IsNever source t.name tmp u)
              (unpack-Keeps source t.name tmp u)))

  -- Where nothing is in place, the download is fetched.
  download_fetches :
      (spec : ToolSpec) (name old : String) (source : DownloadSource) (w : W)
      → is_binary_name (effective_config spec name no_config).binary_name ≡ true
      → spec.source ≡ some source
      → s.os.is_missing
          (binary_path s.os s.tools_dir s.bin_dir
            (target_of spec name (effective_config spec name no_config)))
          w
        ≡ true
      → install_by_download s spec name old no_config w
        ≡ fetch s spec (target_of spec name (effective_config spec name no_config)) source old w
  unfolding install_by_download act_on validate
  download_fetches spec name old source w valid given missing =
      bind_ok _ _ w w tt (
        lift_ok _ w tt
          (validate_binary_name_ok (effective_config spec name no_config).binary_name valid))
      ∙ bind_ok _ _ w w source (lift_ok _ w source (rw given refl))
      ∙ bind_ok _ _ w w install_action (wrap_ok _ _ w w install_action (rw missing refl))

module _ {W : Type 0} (s : Services W) (fields : W → ToolFields) where
  -- A downloaded tool whose binary is not in place, and whose verification fails for every file and in
  -- every world: `Install` fails, and keeps each property of the world that the creation of the
  -- temporary directory, the removal of a path, the download and the verification keep.
  pub install_unverified :
      (P : W → Type 0) (action : ActionType) (t : Tool) (old name : String)
      (source : DownloadSource) (w : W)
      → KeptByDownload s P
      → IsDownloaded t source
      → delegating (lookup t.spec.installer_ref (fields w).installers) ≡ none
      → is_binary_name (effective_config t.spec name no_config).binary_name ≡ true
      → s.os.is_missing
          (binary_path s.os s.tools_dir s.bin_dir
            (target_of t.spec name (effective_config t.spec name no_config)))
          w
        ≡ true
      → IsUnverified s source
      → P w
      → let x = install s fields action old (some t) name w in
        P x.0 × ((e : String) × (x.1 ≡ failed e))
  install_unverified P action t old name source w k d nd valid missing u h =
      let target = target_of t.spec name (effective_config t.spec name no_config) in
      subst (λ x. P x.0 × ((e : String) × (x.1 ≡ failed e)))
        (sym (
          install_downloads s fields action t old name source w d nd valid
          ∙ download_fetches s t.spec name old source w valid d.from_source missing))
        (
          (fetch-Keeps s P k t.spec target source old u).after w h,
          never_fails _ (λ a e. (fetch-IsNever s t.spec target source old u).value w a e),
        )
