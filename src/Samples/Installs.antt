-- ===== src/Samples/Installs.antt =====
-- Installations on the sample disk.
use tomei.Base.{
  ℕ, String, ◌≡◌, refl, true, false, none, some, [], lookup, lookup-put, lookup-delete, ◌∙◌, arith,
  not, in_order,
}
use tomei.Base.Path as GoPath
use tomei.Resource.Version.{ActionType}
use tomei.Resource.Tool.{ToolState}
use tomei.Resource.Validate.{
  check_all, then_check, is_nil, is_empty_package, validate_package, validate_tool,
}
use tomei.Resource.Validated.{one_of, validate_tool_lem}
use tomei.Resource.Tool.{ToolSpec, is_empty}
use tomei.Resource.Package.{
  package_string, is_registry, is_registry_format, package_of_text, package_of_text_lem, split_once,
}
use tomei.Reconcile.Comparators.{tool_comparator}
use tomei.Execute.Run.{Outcome, ok, failed}
use tomei.Io.{◌>>=◌, pure, raise, gets, lift, wrap, call, when, ignore, deferring, attempt}
use tomei.Install.Record.{build_state}
use tomei.Install.Names.{
  is_binary_name, has_name_chars, validate_binary_name, extract_hash, parse_checksum,
  detect_archive_type, has_suffix, new_extractor,
}
use tomei.Install.Place.{
  binary_path, link_path, version_dir, validate, find_visited, find_binary, copy_file, place,
  symlink,
}
use tomei.Install.Fields.{cleanup_old_symlink}
use tomei.Install.Download.{
  no_config, effective_config, expected_hash, archive_type_of, target_of, act_on, unpack,
  place_from, fetch, install_by_download,
}
use tomei.Install.Tool.{install}
use tomei.Install.Returned.{install-settles}
use tomei.Install.Refused.{IsDownloaded, different_hash, install_different_hash}
use tomei.Install.Unverified.{KeptByDownload, install_unverified}
use tomei.Execute.Run as Run
use tomei.Execute.Cache.{StateCache, cached_store, tool_map_accessor}
use tomei.Execute.Run.{Executed, execute}
use tomei.Reconcile.Core.{reconcile, spec_actions, spec_resources, spec_action, removal_actions}
use tomei.Reconcile.Comparators.{spec_version_changed}
use tomei.Resource.Version.{is_latest_version}
use tomei.Resource.Tool.{tool_is_tainted}
use tomei.Install.Tool.{tool_installer}
use tomei.Engine.Handle.{Installers}
use tomei.Engine.Node.{execute_tool_node, run_first, node_actions, count_action}
use tomei.Engine.Installed.{with_tool_installer, execute_tool_node_settled}
use tomei.Samples.Data.{gopls, sample_cache, empty_state}
use tomei.Samples.Disk.{
  Disk, disk_services, corrupt_services, no_fields, rg, rg_source, placed_disk,
}

abbrev gopls_spec : ToolSpec
gopls_spec = record gopls.spec {
  package_id = some (record { owner = ""; repo = ""; name = "golang.org/x/tools/gopls" });
}

package_of_text_lem_example :
    (package_string (some (package_of_text "BurntSushi/ripgrep")) ≡ "BurntSushi/ripgrep")
    × (is_registry (some (package_of_text "BurntSushi/ripgrep"))
        ≡ is_registry_format "BurntSushi/ripgrep")
package_of_text_lem_example = package_of_text_lem "BurntSushi/ripgrep"

abbrev rg_state : ToolState
rg_state = build_state rg.spec "/tools/rg/14.1.0/rg" "/bin/rg" "archive" 7

rg_installed :
    (install disk_services no_fields ActionType.install "" (some rg) "rg" []).1 ≡ ok rg_state
unfolding install effective_config is_binary_name has_name_chars validate_binary_name expected_hash
    extract_hash parse_checksum split_once target_of validate binary_path link_path version_dir
    act_on fetch place_from unpack archive_type_of detect_archive_type has_suffix new_extractor
    place find_binary find_visited copy_file symlink cleanup_old_symlink install_by_download ◌>>=◌
    pure raise gets lift wrap call when ignore deferring attempt is_registry GoPath.base GoPath.join
    GoPath.clean GoPath.parts GoPath.split_slash GoPath.join_slash GoPath.clean_parts
    GoPath.is_rooted
rg_installed = refl

install-settles_example : tool_comparator rg rg_state ≡ (false, "")
install-settles_example =
    install-settles disk_services no_fields ActionType.install rg "" "rg" [] rg_state rg_installed

rg-IsDownloaded : IsDownloaded rg rg_source
unfolding is_registry
rg-IsDownloaded = record {
  no_commands = refl;
  no_runtime = refl;
  no_registry = refl;
  from_source = refl;
}

rg_named : is_binary_name (effective_config rg.spec "rg" no_config).binary_name ≡ true
unfolding effective_config is_binary_name has_name_chars
rg_named = refl

abbrev rg_path : String
rg_path =
    binary_path disk_services.os "/tools" "/bin"
      (target_of rg.spec "rg" (effective_config rg.spec "rg" no_config))

rg_path_lem : rg_path ≡ "/tools/rg/14.1.0/rg"
unfolding effective_config target_of binary_path GoPath.join GoPath.clean GoPath.parts
    GoPath.split_slash GoPath.join_slash GoPath.clean_parts GoPath.is_rooted
rg_path_lem = refl

rg_hash : expected_hash rg_source.checksum ≡ "archive"
unfolding expected_hash extract_hash parse_checksum split_once
rg_hash = refl

install_different_hash_example :
    install disk_services no_fields ActionType.reinstall "/bin/rg" (some rg) "rg" placed_disk
    ≡ (placed_disk, failed (different_hash "rg" "14.1.0"))
install_different_hash_example =
    install_different_hash disk_services no_fields ActionType.reinstall rg "/bin/rg" "rg" rg_source
      placed_disk "binary" rg-IsDownloaded refl rg_named (rw rg_hash refl) (rw rg_path_lem refl)
      (rw rg_path_lem refl) (rw rg_hash refl)

-- No link is made.
abbrev IsUnlinked : Disk → Type 0
IsUnlinked d = lookup "/bin/rg" d ≡ none

corrupt_services-KeptByDownload : KeptByDownload corrupt_services IsUnlinked
corrupt_services-KeptByDownload = record {
  mkdir_temp = λ d h. h;
  remove_all = λ path d h. lookup-delete path "/bin/rg" d ∙ ground (arith, h);
  download = λ url path d h. lookup-put "/tmp/x/rg.tar.gz" "/bin/rg" "archive" d ∙ h;
  verify = λ path c d h. h;
}

install_unverified_example :
    let x = install corrupt_services no_fields ActionType.install "" (some rg) "rg" [] in
    IsUnlinked x.0 × ((e : String) × (x.1 ≡ failed e))
install_unverified_example =
    install_unverified corrupt_services no_fields IsUnlinked ActionType.install rg "" "rg" rg_source
      [] corrupt_services-KeptByDownload rg-IsDownloaded refl rg_named refl
      (λ path w e. ground (arith, e)) refl

abbrev idle_installers : Installers Disk
idle_installers = record {
  tools = record {
    install = λ type path res name d. (d, failed "no tool");
    remove = λ st name d. (d, none);
    get_bin_path = λ st. "";
  };
  runtimes = record {
    install = λ type path res name d. (d, failed "no runtime");
    remove = λ st name d. (d, none);
    get_bin_path = λ st. "";
  };
  repositories = record {
    install = λ type path res name d. (d, failed "no repository");
    remove = λ st name d. (d, none);
    get_bin_path = λ st. "";
  };
  set_tool_bin_paths = λ paths d. d;
  dir = λ path. path;
}

abbrev rg_installers : Installers Disk
rg_installers = with_tool_installer idle_installers disk_services no_fields

abbrev rg_cache : StateCache
rg_cache = record sample_cache { cache = empty_state }

abbrev rg_run : Executed Disk × ℕ
rg_run = execute_tool_node in_order rg_installers rg [] rg_cache 0

rg_runs : rg_run.0.error ≡ none
unfolding install effective_config is_binary_name has_name_chars validate_binary_name expected_hash
    extract_hash parse_checksum split_once target_of validate binary_path link_path version_dir
    act_on fetch place_from unpack archive_type_of detect_archive_type has_suffix new_extractor
    place find_binary find_visited copy_file symlink cleanup_old_symlink install_by_download ◌>>=◌
    pure raise gets lift wrap call when ignore deferring attempt is_registry GoPath.base GoPath.join
    GoPath.clean GoPath.parts GoPath.split_slash GoPath.join_slash GoPath.clean_parts
    GoPath.is_rooted execute_tool_node run_first node_actions reconcile spec_resources spec_actions
    spec_action removal_actions tool_comparator is_latest_version spec_version_changed
    tool_is_tainted execute Run.install count_action cached_store tool_map_accessor tool_installer
rg_runs = refl

execute_tool_node_settled_example :
    execute_tool_node in_order rg_installers rg rg_run.0.world rg_run.0.cache rg_run.1
    ≡ (record { world = rg_run.0.world; cache = rg_run.0.cache; error = none }, rg_run.1)
execute_tool_node_settled_example =
    execute_tool_node_settled idle_installers disk_services no_fields in_order rg [] rg_cache 0
      rg_runs

gopls_valid : validate_tool gopls_spec ≡ none
unfolding validate_tool check_all then_check is_empty_package validate_package is_registry
gopls_valid = refl

validate_tool_lem_example :
    (one_of
        (not (is_empty gopls_spec.installer_ref))
        (not (is_empty gopls_spec.runtime_ref))
        (not (is_nil gopls_spec.commands))
      ≡ true)
    × (is_empty gopls_spec.runtime_ref ≡ false
        → is_empty (package_string gopls_spec.package_id) ≡ false)
validate_tool_lem_example = validate_tool_lem gopls_spec gopls_valid
