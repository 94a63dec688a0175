-- ===== src/Install/Settled.antt =====
-- What an installation records satisfies the comparator: the next run has nothing to do.
use tomei.Base.{
  ℕ, String, ◌≡◌, refl, true, false, not, ◌&&◌, Option, none, some, List, [], ◌∷◌, eq_refl,
  Bool-cases, inl, inr,
}
use tomei.Resource.Version.{
  version_exact, version_latest, version_alias, is_latest_version, classify_version,
}
use tomei.Resource.Tool.{Tool, ToolState, ToolCommandSet, tool_is_tainted, is_empty}
use tomei.Reconcile.Comparators.{spec_version_changed, tool_comparator}
use tomei.Install.Record.{
  is_exact_version, build_state, build_delegation_state, commands_version, build_commands_state,
}

pub unchanged_classified :
    (version installed : String)
    → (is_latest_version version ≡ false → installed ≡ version)
    → spec_version_changed version (classify_version version) installed version ≡ false
unfolding spec_version_changed classify_version
unchanged_classified version installed same = elim (Bool-cases (is_latest_version version)) [
  | inl e ↦ rw e
  | inr e ↦ rw e (rw (same e, eq_refl))
]

unchanged_latest :
    (version installed : String)
    → is_latest_version version ≡ true
    → spec_version_changed version version_latest installed version ≡ false
unfolding spec_version_changed
unchanged_latest version installed e = rw e

pub unchanged_alias :
    (version installed : String)
    → spec_version_changed version version_alias installed version ≡ false
unfolding spec_version_changed
unchanged_alias version installed = rw eq_refl

pub unchanged_exact :
    (version : String) → spec_version_changed version version_exact version version ≡ false
unfolding spec_version_changed
unchanged_exact version = rw eq_refl

unchanged_commands :
    (version : String) (cmds : List String) (answer : Option String)
    → spec_version_changed version
        (commands_version version cmds answer).1
        (commands_version version cmds answer).0
        version
      ≡ false
unfolding commands_version
unchanged_commands version cmds none = unchanged_classified version version (λ _. refl)
unchanged_commands version [] (some resolved) = unchanged_classified version version (λ _. refl)
unchanged_commands version (c ∷ cmds) (some resolved) =
    elim (Bool-cases (not (is_exact_version version) && not (is_empty resolved))) [
      | inl e ↦ rw e (elim (Bool-cases (is_latest_version version)) [
        | inl l ↦ rw l (unchanged_latest version resolved l)
        | inr l ↦ rw l (unchanged_alias version resolved)
      ])
      | inr e ↦ rw e (unchanged_classified version version (λ _. refl))
    ]

-- The comparator sees an untainted state with the same binary name.
pub tool_settled :
    (res : Tool) (st : ToolState)
    → spec_version_changed res.spec.version st.version_kind st.version st.spec_version ≡ false
    → st.taint_reason ≡ ""
    → st.binary_name ≡ res.spec.binary_name
    → tool_comparator res st ≡ (false, "")
unfolding tool_comparator tool_is_tainted
tool_settled res st same clean name = rw (same, clean, name, eq_refl)

-- A tool installed by download: the comparator finds no change in the state of the installation.
pub build_state-settles :
    (res : Tool) (install_path bin_path digest : String) (now : ℕ)
    → tool_comparator res (build_state res.spec install_path bin_path digest now) ≡ (false, "")
unfolding build_state
build_state-settles res install_path bin_path digest now =
    tool_settled res (build_state res.spec install_path bin_path digest now)
      (unchanged_classified res.spec.version res.spec.version (λ _. refl)) refl refl

-- A tool installed by a runtime or an installer: the comparator finds no change in the state of the
-- installation.
pub build_delegation_state-settles :
    (res : Tool) (bin_path : String) (now : ℕ)
    → tool_comparator res (build_delegation_state res.spec bin_path now) ≡ (false, "")
unfolding build_delegation_state
build_delegation_state-settles res bin_path now =
    tool_settled res (build_delegation_state res.spec bin_path now)
      (unchanged_classified res.spec.version res.spec.version (λ _. refl)) refl refl

-- A tool installed by its own commands, whatever its version resolver answers: the comparator finds no
-- change in the state of the installation.
pub build_commands_state-settles :
    (res : Tool) (cmds : ToolCommandSet) (answer : Option String) (now : ℕ)
    → tool_comparator res (build_commands_state res.spec cmds answer now) ≡ (false, "")
unfolding build_commands_state
build_commands_state-settles res cmds answer now =
    tool_settled res (build_commands_state res.spec cmds answer now)
      (unchanged_commands res.spec.version cmds.resolve_version answer) refl refl
