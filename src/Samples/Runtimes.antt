-- ===== src/Samples/Runtimes.antt =====
-- Runtimes on the sample disk, and a tool's node run twice.
use tomei.Base.{
  String, ◌≡◌, refl, Bool, true, false, Option, none, some, [], ◌∷◌, lookup, lookup-delete, ◌∙◌,
  arith, ◌==◌, String-cases, inl, inr, sym, ap,
}
use tomei.Base.Path as GoPath
use tomei.Resource.Version.{ActionType, classify_version, is_latest_version}
use tomei.Resource.Other.{Runtime, RuntimeState}
use tomei.Reconcile.Comparators.{runtime_comparator}
use tomei.Execute.Run.{ok, failed}
use tomei.Io.{◌>>=◌, pure, gets, lift, wrap, call, when}
use tomei.Install.Record.{build_state_resolved, is_exact_version}
use tomei.Install.Expand.{expand, expand_env}
use tomei.Install.RuntimeWorld.{RuntimeServices}
use tomei.Install.Links.{resolve_bin_dir, create_delegation_symlinks, all_in_dir}
use tomei.Install.RuntimeDownload.{resolve_version, record_runtime}
use tomei.Install.Runtime.{
  delegation_version, bootstrap, install_runtime_delegation, install_runtime, remove_runtime,
}
use tomei.Install.RuntimeReturned.{install_runtime-settles}
use tomei.Install.LinksOnly.{LinksGo, remove_runtime-LinksGo}
use tomei.Samples.Data.{metadata}
use tomei.Samples.Disk.{Disk, disk_services}

abbrev found : Option String → Option Bool
found none = none
found (some c) = some (c == "link")

abbrev runtime_services : RuntimeServices Disk
runtime_services = record {
  base = disk_services;
  stat = λ path d. some false;
  lstat = λ path d. found (lookup path d);
  read_dir = λ path d. ok [];
  rename = λ src dst d. (d, none);
  walk_tree = λ path d. [];
  mkdir_mode = λ path mode d. (d, none);
  home = λ d. ok "/home/me";
  run_template = λ tmpl version. ok tmpl;
  resolve = λ cmds version d. (d, failed "rustc: command not found");
  runtimes_dir = "/runtimes";
}

abbrev rust : Runtime
rust = record {
  metadata = metadata "rust";
  spec = record {
    install_type = "delegation";
    version = "stable";
    source = none;
    bootstrap = some (record {
      base = record {
        install = "sh rustup.sh" ∷ [];
        check = [];
        remove = "rustup self uninstall" ∷ [];
      };
      update = [];
      resolve_version = "rustc --version" ∷ [];
    });
    binaries = "rustc" ∷ [];
    bin_dir = "~/.cargo/bin";
    tool_bin_path = "";
    commands = none;
    env = [];
    taint_on_upgrade = false;
    resolve_version = [];
  };
}

abbrev rust_state : RuntimeState
rust_state =
    record (build_state_resolved rust.spec "" "/home/me/.cargo/bin" "" [] "" "stable" "exact" 7) {
      remove_command = "rustup self uninstall" ∷ [];
    }

rust_installed :
    (install_runtime runtime_services ActionType.install "" (some rust) "rust" []).1 ≡ ok rust_state
unfolding install_runtime install_runtime_delegation delegation_version resolve_version
    is_exact_version classify_version is_latest_version expand_env bootstrap resolve_bin_dir expand
    create_delegation_symlinks all_in_dir record_runtime build_state_resolved ◌>>=◌ pure gets lift
    wrap call when GoPath.join GoPath.clean GoPath.parts GoPath.split_slash GoPath.join_slash
    GoPath.clean_parts GoPath.is_rooted
rust_installed = refl

install_runtime-settles_example : runtime_comparator rust rust_state ≡ (false, "")
install_runtime-settles_example =
    install_runtime-settles runtime_services ActionType.install rust "" "rust" [] rust_state
      rust_installed

rust_delegated : (rust_state.install_type == "delegation") ≡ true
unfolding build_state_resolved
rust_delegated = refl

abbrev HasBinary : Disk → Type 0
HasBinary d = lookup "/home/me/.cargo/bin/rustc" d ≡ some "binary"

links_go : LinksGo runtime_services HasBinary
links_go path d h link = elim (String-cases path "/home/me/.cargo/bin/rustc") [
  | inl (p, _) ↦ absurd (ground (arith, sym (ap found (ap (λ x. lookup x d) p ∙ h)) ∙ link))
  | inr (_, e) ↦ lookup-delete path "/home/me/.cargo/bin/rustc" d ∙ rw e h
]

abbrev rust_disk : Disk
rust_disk = ("/home/me/.cargo/bin/rustc", "binary") ∷ []

remove_runtime-LinksGo_example :
    HasBinary (remove_runtime runtime_services (some rust_state) "rust" rust_disk).0
remove_runtime-LinksGo_example =
    remove_runtime-LinksGo runtime_services HasBinary rust_state "rust" rust_disk links_go
      (λ d h. h) rust_delegated refl
