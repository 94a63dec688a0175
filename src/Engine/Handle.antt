-- ===== src/Engine/Handle.antt =====
-- `handleRemovals` of the engine (internal/installer/engine/engine.go). Events are left out.
use tomei.Base.{
  ℕ, String, Bool, true, false, ◌||◌, none, some, List, [], ◌∷◌, Map, lookup, put, has, RangeOrder,
  if◌then◌else◌,
}
use tomei.Resource.Kind.{Kind}
use tomei.Resource.Version.{ActionType}
use tomei.Resource.Tool.{Tool, ToolState, is_empty}
use tomei.Resource.Other.{
  Runtime, RuntimeState, InstallerRepository, InstallerRepositoryState, InstallerState,
}
use tomei.Resource.All.{Resource, installer}
use tomei.Reconcile.Core.{Action, reconcile}
use tomei.Reconcile.Comparators.{
  tool_comparator, runtime_comparator, installer_repository_comparator,
}
use tomei.State.User.{UserState}
use tomei.Execute.Cache.{
  StateCache, cached_store, tool_map_accessor, runtime_map_accessor, repo_map_accessor,
}
use tomei.Execute.Run.{Installer, Executed, execute_removals}
use tomei.Engine.Checks.{
  extract_tools, extract_runtimes, extract_installer_repositories, check_removal_dependencies,
  build_resource_map,
}

-- The three installers, `SetToolBinPaths` of the two that have it, and `filepath.Dir`.
pub record Installers (W : Type 0) : Type 0 where
  pub tools : Installer W Tool ToolState
  pub runtimes : Installer W Runtime RuntimeState
  pub repositories : Installer W InstallerRepository InstallerRepositoryState
  pub set_tool_bin_paths : Map String → W → W
  pub dir : String → String

module _ {W : Type 0} (r : RangeOrder) (ins : Installers W) where
  -- The bin directory of a tool, where it has one, under the name of an installer.
  abbrev add_bin_path : UserState → String → String → Map String → Map String
  add_bin_path st name tool_ref paths = elim (lookup tool_ref st.tools) [
    | none ↦ paths
    | some ts ↦ if is_empty ts.bin_path then paths else put name (ins.dir ts.bin_path) paths
  ]

  abbrev bin_paths_of_resources : UserState → Map Resource → Map String → Map String
  bin_paths_of_resources st [] paths = paths
  bin_paths_of_resources st ((_, installer i) ∷ m) paths = bin_paths_of_resources st m (
      if is_empty i.spec.tool_ref
      then paths
      else add_bin_path st i.metadata.name i.spec.tool_ref paths)
  bin_paths_of_resources st (_ ∷ m) paths = bin_paths_of_resources st m paths

  abbrev bin_paths_of_states : UserState → Map InstallerState → Map String → Map String
  bin_paths_of_states st [] paths = paths
  bin_paths_of_states st ((name, i) ∷ m) paths = bin_paths_of_states st m (
      if has name paths || is_empty i.tool_ref
      then paths
      else add_bin_path st name i.tool_ref paths)

  -- `updateToolBinPaths`
  unfoldable pub update_tool_bin_paths : Map Resource → UserState → W → W
  update_tool_bin_paths resource_map st w =
      ins.set_tool_bin_paths
        (bin_paths_of_states st (r.range InstallerState st.installers)
          (bin_paths_of_resources st (r.range Resource resource_map) []))
        w

  -- `toolReconciler.Reconcile` and its two like.
  unfoldable pub tool_actions : List Resource → UserState → List (Action Tool ToolState)
  tool_actions resources st =
      reconcile r (λ t. t.metadata.name) tool_comparator (extract_tools resources) st.tools

  unfoldable pub runtime_actions : List Resource → UserState → List (Action Runtime RuntimeState)
  runtime_actions resources st =
      reconcile r (λ t. t.metadata.name) runtime_comparator (extract_runtimes resources) st.runtimes

  unfoldable pub repo_actions :
      List Resource → UserState → List (Action InstallerRepository InstallerRepositoryState)
  repo_actions resources st =
      reconcile r (λ t. t.metadata.name) installer_repository_comparator
        (extract_installer_repositories resources) st.installer_repositories

-- The names of the removals of a list of actions (`runtimeRemovals`, and `collectRemovalNodes` but for
-- the kind).
unfoldable pub removal_names : {R S : Type 0} → List (Action R S) → List String
removal_names [] = []
removal_names (a ∷ as') = elim a.type [
  | ActionType.remove ↦ a.name ∷ removal_names as'
  | _ ↦ removal_names as'
]

abbrev pub any_removal : {R S : Type 0} → List (Action R S) → Bool
any_removal as' = elim (removal_names as') [ [] ↦ false | _ ∷ _ ↦ true ]

-- How `handleRemovals` ends: refused before any removal, or with the result of the loops.
pub data Handled (W : Type 0) : Type 0 where
  refused : List (String × String) → Handled W
  handled : Executed W × ℕ → Handled W

-- `if err := ...; err != nil { return err }`
unfoldable pub on_success :
    {W : Type 0} → Executed W × ℕ → (W → StateCache → ℕ → Executed W × ℕ) → Executed W × ℕ
on_success x next = elim x.0.error [ none ↦ next x.0.world x.0.cache x.1 | some e ↦ x ]

module _ {W : Type 0} (r : RangeOrder) (ins : Installers W) where
  -- The three loops: tools, repositories, runtimes.
  unfoldable pub execute_all_removals :
      List Resource
      → List (Action Tool ToolState)
      → List (Action InstallerRepository InstallerRepositoryState)
      → List (Action Runtime RuntimeState)
      → W
      → StateCache
      → ℕ
      → Executed W × ℕ
  unfolding on_success update_tool_bin_paths
  execute_all_removals resources tools repos runtimes w c total =
      on_success
        (execute_removals ins.tools (cached_store tool_map_accessor) Kind.tool tools w c total)
        (λ w1 c1 t1.
          on_success
            (execute_removals ins.repositories (cached_store repo_map_accessor)
              Kind.installer_repository repos
              (update_tool_bin_paths r ins (build_resource_map resources []) c1.cache w1) c1 t1)
            (λ w2 c2 t2.
              execute_removals ins.runtimes (cached_store runtime_map_accessor) Kind.runtime
                runtimes w2 c2 t2))

  unfoldable pub handle_removals : List Resource → W → StateCache → ℕ → Handled W
  unfolding tool_actions repo_actions runtime_actions
  handle_removals resources w c total =
      let tools = tool_actions r ins resources c.cache in
      let repos = repo_actions r ins resources c.cache in
      let runtimes = runtime_actions r ins resources c.cache in
      elim (if any_removal runtimes
        then check_removal_dependencies (removal_names runtimes) (extract_tools resources)
        else none) [
          | some blocked ↦ refused blocked
          | none ↦ handled (
              if any_removal tools || any_removal repos || any_removal runtimes
              then execute_all_removals resources tools repos runtimes w c total
              else (record { world = w; cache = c; error = none }, total))
        ]
