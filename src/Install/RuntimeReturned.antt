-- ===== src/Install/RuntimeReturned.antt =====
-- What the runtime installer returns (internal/installer/runtime/installer.go), whatever the world
-- answers.
use tomei.Base.{
  ℕ, String, ◌≡◌, refl, sym, subst, false, Option, some, List, [], ◌∷◌, Map, Bool-cases, inl, inr,
}
use tomei.Base.Path.{join}
use tomei.Resource.Version.{ActionType}
use tomei.Resource.Tool.{DownloadSource, Checksum}
use tomei.Resource.Other.{RuntimeSpec, Runtime, RuntimeState, runtime_is_tainted}
use tomei.Reconcile.Comparators.{spec_version_changed, runtime_comparator}
use tomei.Execute.Run.{Outcome, ok, failed}
use tomei.Io.Rules.{
  Returns, Returns-pure, Returns-raise, Returns-if, Returns-wrap, Returns-deferring, Returns-after,
  Returns-bind, ok-injective, failed_not_ok,
}
use tomei.Install.Record.{build_state_resolved}
use tomei.Install.Settled.{unchanged_classified, unchanged_alias, unchanged_exact}
use tomei.Install.RuntimeWorld.{RuntimeServices}
use tomei.Install.RuntimeDownload.{
  resolve_version, record_runtime, fetch_runtime, relink_runtime, install_runtime_download,
}
use tomei.Install.Runtime.{
  is_first, or_spec_version, delegation_version, install_runtime_delegation, install_runtime,
}

-- A version and its kind in which the comparator sees no change from the spec's version.
abbrev IsCurrent : String → String × String → Type 0
IsCurrent version v = spec_version_changed version v.1 v.0 version ≡ false

-- The state of an installation of the spec with a version and its kind.
abbrev IsRecord : RuntimeSpec → String × String → RuntimeState → Type 0
IsRecord spec v st =
    (install_path : String) × (bin_dir : String) × (tool_bin_path : String) × (env : Map String)
    × (digest : String) × (now : ℕ) × (st
        ≡ build_state_resolved spec install_path bin_dir tool_bin_path env digest v.0 v.1 now)

abbrev IsSatisfied : Runtime → RuntimeState → Type 0
IsSatisfied res st = runtime_comparator res st ≡ (false, "")

record-IsSatisfied :
    (res : Runtime) (v : String × String) (st : RuntimeState)
    → IsCurrent res.spec.version v
    → IsRecord res.spec v st
    → IsSatisfied res st
unfolding runtime_comparator runtime_is_tainted build_state_resolved
record-IsSatisfied res v st c (install_path, bin_dir, tool_bin_path, env, digest, now, e) =
    subst (IsSatisfied res) (sym e) (rw c)

-- The comparator looks neither at the environment nor at the remove command.
updated-IsSatisfied :
    (res : Runtime) (st : RuntimeState) (env : Map String) (cmds : List String)
    → IsSatisfied res st
    → IsSatisfied res (record st { env = env; remove_command = cmds })
unfolding runtime_comparator runtime_is_tainted
updated-IsSatisfied res st env cmds h = h

module _ {W : Type 0} (s : RuntimeServices W) where
  resolve_version-IsCurrent :
      (version : String) (cmds : List String)
      → Returns (IsCurrent version) (resolve_version s version cmds)
  unfolding resolve_version
  resolve_version-IsCurrent version [] =
      Returns-pure _ (unchanged_classified version version (λ _. refl))
  resolve_version-IsCurrent version (cmd ∷ cmds) =
      Returns-if _ _ _ (Returns-pure _ (unchanged_exact version))
        (Returns-bind _ _ (λ resolved. Returns-pure _ (unchanged_alias version resolved)))

  delegation_version-IsCurrent :
      (action : ActionType) (version : String) (cmds : List String)
      → Returns (IsCurrent version) (delegation_version s action version cmds)
  unfolding delegation_version
  delegation_version-IsCurrent action version cmds = record {
    value = λ w v e.
        go (resolve_version s version cmds w) v
          (λ v' e'. (resolve_version-IsCurrent version cmds).value w v' e') e;
  }
    where
      go :
          (p : W × Outcome (String × String)) (v : String × String)
          → ((v' : String × String) → p.1 ≡ ok v' → IsCurrent version v')
          → (or_spec_version s action version p).1 ≡ ok v
          → IsCurrent version v
      go (w, ok v') v h e = subst (IsCurrent version) (ok-injective e) (h v' refl)
      go (w, failed x) v h e = elim (Bool-cases (is_first action)) [
        | inl b ↦
            subst (IsCurrent version) (ok-injective (rw b at e))
              (unchanged_classified version version (λ _. refl))
        | inr b ↦ absurd (failed_not_ok (rw b at e))
      ]

  record_runtime-IsRecord :
      (spec : RuntimeSpec) (install_path bin_dir : String) (v : String × String)
      → Returns (IsRecord spec v) (record_runtime s spec install_path bin_dir v)
  unfolding record_runtime
  record_runtime-IsRecord spec install_path bin_dir v =
      Returns-bind _ _ (λ home. Returns-bind _ _ (λ now. Returns-pure _ (_, _, _, _, _, _, refl)))

  record_runtime-IsSatisfied :
      (res : Runtime) (install_path bin_dir : String) (v : String × String)
      → IsCurrent res.spec.version v
      → Returns (IsSatisfied res) (record_runtime s res.spec install_path bin_dir v)
  record_runtime-IsSatisfied res install_path bin_dir v c = record {
    value = λ w st e.
        record-IsSatisfied res v st c
          ((record_runtime-IsRecord res.spec install_path bin_dir v).value w st e);
  }

  fetch_runtime-IsSatisfied :
      (res : Runtime) (source : DownloadSource) (url : String) (checksum : Option Checksum)
      (install_path : String) (v : String × String)
      → IsCurrent res.spec.version v
      → Returns (IsSatisfied res) (fetch_runtime s res.spec source url checksum install_path v)
  unfolding fetch_runtime
  fetch_runtime-IsSatisfied res source url checksum install_path v c = Returns-bind _ _ (λ tmp.
      Returns-deferring _ _ (
        Returns-bind _ _ (λ _.
          Returns-bind _ _ (λ bin_dir. record_runtime-IsSatisfied res install_path bin_dir v c))))

  relink_runtime-IsSatisfied :
      (res : Runtime) (install_path : String) (v : String × String)
      → IsCurrent res.spec.version v
      → Returns (IsSatisfied res) (relink_runtime s res.spec install_path v)
  unfolding relink_runtime
  relink_runtime-IsSatisfied res install_path v c =
      Returns-bind _ _ (λ bin_dir. record_runtime-IsSatisfied res install_path bin_dir v c)

  download-IsSatisfied :
      (res : Runtime) (name : String)
      → Returns (IsSatisfied res) (install_runtime_download s res.spec name)
  unfolding install_runtime_download
  download-IsSatisfied res name = Returns-bind _ _ (λ source.
      Returns-after (IsCurrent res.spec.version) _ _
        (Returns-wrap _ _ (resolve_version-IsCurrent res.spec.version res.spec.resolve_version))
        (λ v c. Returns-bind _ _ (λ url. Returns-bind _ _ (λ checksum. Returns-bind _ _ (λ there.
          Returns-if _ _ _ (relink_runtime-IsSatisfied res _ v c) (
            fetch_runtime-IsSatisfied res source url checksum
              (join (s.runtimes_dir ∷ name ∷ v.0 ∷ [])) v c))))))

  delegation-IsSatisfied :
      (action : ActionType) (res : Runtime) (name : String)
      → Returns (IsSatisfied res) (install_runtime_delegation s action res.spec name)
  unfolding install_runtime_delegation
  delegation-IsSatisfied action res name = Returns-bind _ _ (λ b.
      Returns-after (IsCurrent res.spec.version) _ _
        (delegation_version-IsCurrent action res.spec.version b.resolve_version)
        (λ v c. Returns-bind _ _ (λ env. Returns-bind _ _ (λ _. Returns-bind _ _ (λ bin_dir.
          Returns-bind _ _ (λ install_path.
            Returns-after (IsSatisfied res) _ _
              (record_runtime-IsSatisfied res install_path bin_dir v c)
              (λ st h. Returns-pure _ (updated-IsSatisfied res st env b.base.remove h))))))))

  install-IsSatisfied :
      (action : ActionType) (res : Runtime) (old name : String)
      → Returns (IsSatisfied res) (install_runtime s action old (some res) name)
  unfolding install_runtime
  install-IsSatisfied action res old name =
      Returns-if _ _ _ (download-IsSatisfied res name)
        (Returns-if _ _ _ (delegation-IsSatisfied action res name) (Returns-raise _))

  -- A state that `Install` of the runtime installer returns, by download or by delegation and whatever
  -- the world answered, contents the comparator: it sees no change of version and no taint.
  pub install_runtime-settles :
      (action : ActionType) (res : Runtime) (old name : String) (w : W) (st : RuntimeState)
      → (install_runtime s action old (some res) name w).1 ≡ ok st
      → runtime_comparator res st ≡ (false, "")
  install_runtime-settles action res old name w st e =
      (install-IsSatisfied action res old name).value w st e
