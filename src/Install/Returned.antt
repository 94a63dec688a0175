-- ===== src/Install/Returned.antt =====
-- What the tool installer returns (internal/installer/tool/installer.go), whatever the world answers.
use tomei.Base.{
  ℕ, String, ◌≡◌, refl, sym, ap, ◌∙◌, subst, arith, Bool, false, Option, none, some, if◌then◌else◌,
  Bool-cases, inl, inr,
}
use tomei.Resource.Version.{ActionType, is_latest_version, classify_version}
use tomei.Resource.Tool.{Tool, ToolSpec, ToolState, ToolCommandSet, DownloadSource}
use tomei.Reconcile.Comparators.{tool_comparator}
use tomei.Execute.Run.{ok}
use tomei.Io.{Io, pure}
use tomei.Io.Rules.{
  Returns, Returns-pure, Returns-raise, Returns-if, Returns-deferring, Returns-after, Returns-bind,
}
use tomei.Install.World.{Services, ResolvedPackage}
use tomei.Install.Record.{build_state, resolved_spec}
use tomei.Install.Place.{Target, ValidateAction, install_action, skip_action, replace_action}
use tomei.Install.Settled.{
  build_state-settles, build_delegation_state-settles, build_commands_state-settles, tool_settled,
  unchanged_classified,
}
use tomei.Install.Fields.{InstallerInfo, ToolFields}
use tomei.Install.Download.{
  InstallConfig, no_config, recorded, relink, place_from, fetch, act_on, effective_config,
  target_of, install_by_download,
}
use tomei.Install.FromRegistry.{
  extract_binary_mapping, download_resolved, install_from_registry, resolved_source,
}
use tomei.Install.Delegated.{install_by_commands, install_by_runtime, install_by_installer}
use tomei.Install.Tool.{delegating, install_others, install_pattern, install}

-- The state of a download of the spec.
abbrev IsBuilt : ToolSpec → ToolState → Type 0
IsBuilt spec st =
    (install_path : String) × (bin_path : String) × (digest : String) × (now : ℕ) × (st
      ≡ build_state spec install_path bin_path digest now)

abbrev IsContent : Tool → ToolState → Type 0
IsContent t st = tool_comparator t st ≡ (false, "")

module _ {W : Type 0} (s : Services W) where
  recorded-IsBuilt :
      (spec : ToolSpec) (t : Target) (expected old link : String)
      → Returns (IsBuilt spec) (recorded s spec t expected old link)
  recorded-IsBuilt spec t expected old link =
      Returns-bind _ _ (λ _. Returns-bind _ _ (λ now. Returns-pure _ (_, _, _, now, refl)))

  relink-IsBuilt :
      (spec : ToolSpec) (t : Target) (expected old : String)
      → Returns (IsBuilt spec) (relink s spec t expected old)
  unfolding relink
  relink-IsBuilt spec t expected old =
      Returns-bind _ _ (λ link. recorded-IsBuilt spec t expected old link)

  fetch-IsBuilt :
      (spec : ToolSpec) (t : Target) (source : DownloadSource) (old : String)
      → Returns (IsBuilt spec) (fetch s spec t source old)
  unfolding fetch place_from
  fetch-IsBuilt spec t source old = Returns-bind _ _ (λ tmp. Returns-deferring _ _ (
      Returns-bind _ _ (λ _.
        Returns-bind _ _ (λ _. Returns-bind _ _ (λ link. recorded-IsBuilt spec t _ old link)))))

  act_on-IsBuilt :
      (spec : ToolSpec) (t : Target) (source : DownloadSource) (old : String) (force : Bool)
      (action : ValidateAction)
      → Returns (IsBuilt spec) (act_on s spec t source old force action)
  unfolding act_on
  act_on-IsBuilt spec t source old force skip_action = relink-IsBuilt spec t _ old
  act_on-IsBuilt spec t source old force install_action = fetch-IsBuilt spec t source old
  act_on-IsBuilt spec t source old force replace_action =
      Returns-if force _ _ (fetch-IsBuilt spec t source old) (Returns-raise _)

  install_by_download-IsBuilt :
      (spec : ToolSpec) (name old : String) (cfg : InstallConfig)
      → Returns (IsBuilt spec) (install_by_download s spec name old cfg)
  unfolding install_by_download
  install_by_download-IsBuilt spec name old cfg = Returns-bind _ _ (λ _. Returns-bind _ _ (λ source.
      Returns-bind _ _ (λ action.
        act_on-IsBuilt spec (target_of spec name (effective_config spec name cfg)) source old
          (effective_config spec name cfg).force action)))

  built-IsContent : (t : Tool) (st : ToolState) → IsBuilt t.spec st → IsContent t st
  built-IsContent t st (install_path, bin_path, digest, now, e) =
      subst (IsContent t) (sym e) (build_state-settles t install_path bin_path digest now)

  -- The version looked up is the one of the spec, unless the spec asks for the latest.
  abbrev IsLooked : ToolSpec → String → Type 0
  IsLooked spec version = is_latest_version spec.version ≡ false → version ≡ spec.version

  version-IsLooked :
      (spec : ToolSpec) (latest : Io W String)
      → Returns
          (IsLooked spec)
          (if is_latest_version spec.version then latest else pure spec.version)
  version-IsLooked spec latest = elim (Bool-cases (is_latest_version spec.version)) [
    | inl e ↦ rw e (record { value = λ w v _ p. absurd (ground (arith, e, p)) })
    | inr e ↦ rw e (Returns-pure _ (λ _. refl))
  ]

  -- The state of the download, with what the registry's pattern sets in it.
  named_again-IsContent :
      (t : Tool) (version : String) (source : DownloadSource) (st : ToolState)
      → IsLooked t.spec version
      → IsBuilt (resolved_spec t.spec version source) st
      → IsContent t (record st {
        package_id = t.spec.package_id;
        version_kind = classify_version t.spec.version;
        spec_version = t.spec.version;
      })
  unfolding build_state resolved_spec
  named_again-IsContent t version source st l (install_path, bin_path, digest, now, e) =
      tool_settled t _
        (unchanged_classified t.spec.version st.version (λ p. ap (λ x. x.version) e ∙ l p))
        (ap (λ x. x.taint_reason) e) (ap (λ x. x.binary_name) e)

  download_resolved-IsContent :
      (t : Tool) (name old version : String) (resolved : ResolvedPackage)
      → IsLooked t.spec version
      → Returns (IsContent t) (download_resolved s t.spec name old version resolved)
  unfolding download_resolved
  download_resolved-IsContent t name old version resolved l = Returns-bind _ _ (λ _.
      Returns-after (IsBuilt (resolved_spec t.spec version (resolved_source resolved))) _ _
        (install_by_download-IsBuilt (resolved_spec t.spec version (resolved_source resolved)) name
          old (extract_binary_mapping name resolved.files))
        (λ st built. Returns-pure _ (named_again-IsContent t version _ st l built)))

  install_from_registry-IsContent :
      (t : Tool) (name old : String)
      → Returns (IsContent t) (install_from_registry s t.spec name old)
  unfolding install_from_registry
  install_from_registry-IsContent t name old = Returns-bind _ _ (λ registry.
      Returns-if _ _ _ (Returns-raise _) (
        Returns-after (IsLooked t.spec) _ _ (version-IsLooked t.spec _) (λ version l.
          Returns-bind _ _
            (λ resolved. download_resolved-IsContent t name old version resolved l))))

module _ {W : Type 0} (s : Services W) (fields : W → ToolFields) where
  install_by_commands-IsContent :
      (action : ActionType) (t : Tool) (cmds : ToolCommandSet) (name : String)
      → Returns (IsContent t) (install_by_commands s fields action t.spec cmds name)
  unfolding install_by_commands
  install_by_commands-IsContent action t cmds name = Returns-bind _ _ (λ _. Returns-bind _ _ (λ _.
      Returns-bind _ _ (λ _. Returns-bind _ _ (λ answer.
        Returns-bind _ _
          (λ now. Returns-pure _ (build_commands_state-settles t cmds answer now))))))

  install_by_runtime-IsContent :
      (t : Tool) (name old : String)
      → Returns (IsContent t) (install_by_runtime s fields t.spec name old)
  unfolding install_by_runtime
  install_by_runtime-IsContent t name old = Returns-bind _ _ (λ _. Returns-bind _ _ (λ _.
      Returns-bind _ _ (λ _. Returns-bind _ _ (λ _. Returns-bind _ _ (λ _. Returns-bind _ _ (λ _.
        Returns-bind _ _ (λ _.
          Returns-bind _ _ (λ now. Returns-pure _ (build_delegation_state-settles t _ now)))))))))

  install_by_installer-IsContent :
      (t : Tool) (name : String) (info : InstallerInfo)
      → Returns (IsContent t) (install_by_installer s fields t.spec name info)
  unfolding install_by_installer
  install_by_installer-IsContent t name info = Returns-bind _ _ (λ _. Returns-bind _ _ (λ _.
      Returns-bind _ _
        (λ _. Returns-bind _ _ (λ now. Returns-pure _ (build_delegation_state-settles t "" now)))))

  download-IsContent :
      (t : Tool) (name old : String) (cfg : InstallConfig)
      → Returns (IsContent t) (install_by_download s t.spec name old cfg)
  download-IsContent t name old cfg = record {
    value = λ w st e.
        built-IsContent s t st ((install_by_download-IsBuilt s t.spec name old cfg).value w st e);
  }

  others-IsContent :
      (t : Tool) (name old : String) (info : Option InstallerInfo)
      → Returns (IsContent t) (install_others s fields t.spec name old info)
  others-IsContent t name old (some info) = install_by_installer-IsContent t name info
  others-IsContent t name old none =
      Returns-if _ _ _ (install_from_registry-IsContent s t name old)
        (download-IsContent t name old no_config)

  pattern-IsContent :
      (action : ActionType) (t : Tool) (name old : String) (cmds : Option ToolCommandSet)
      → Returns (IsContent t) (install_pattern s fields action t.spec name old cmds)
  pattern-IsContent action t name old (some cmds) = install_by_commands-IsContent action t cmds name
  pattern-IsContent action t name old none =
      Returns-if _ _ _ (install_by_runtime-IsContent t name old)
        (Returns-bind _ _ (λ info. others-IsContent t name old (delegating info)))

  install-IsContent :
      (action : ActionType) (t : Tool) (old name : String)
      → Returns (IsContent t) (install s fields action old (some t) name)
  unfolding install
  install-IsContent action t old name =
      Returns-bind _ _ (λ _. pattern-IsContent action t name old t.spec.commands)

  -- A state that `Install` of the tool installer returns, by whichever pattern and whatever the world
  -- answered, contents the comparator: it sees no change of version or binary name and no taint.
  pub install-settles :
      (action : ActionType) (t : Tool) (old name : String) (w : W) (st : ToolState)
      → (install s fields action old (some t) name w).1 ≡ ok st
      → tool_comparator t st ≡ (false, "")
  install-settles action t old name w st e = (install-IsContent action t old name).value w st e
