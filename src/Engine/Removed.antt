-- ===== src/Engine/Removed.antt =====
-- The removals of the engine as a whole (`handleRemovals` of internal/installer/engine/engine.go).
use tomei.Base.{
  ℕ, ◌≤◌, String, ◌≡◌, refl, sym, ap, ◌∙◌, none, List, [], lookup, keys, count, RangeOrder, arith,
  inl, inr, subst, Option-cases,
}
use tomei.Resource.Kind.{Kind}
use tomei.Resource.Tool.{Tool}
use tomei.Resource.Other.{Runtime, InstallerRepository}
use tomei.Resource.All.{Resource}
use tomei.Reconcile.Comparators.{
  tool_comparator, runtime_comparator, installer_repository_comparator,
}
use tomei.Reconcile.Actions.{last_named}
use tomei.State.User.{UserState}
use tomei.Execute.Cache.{
  StateCache, cached_store, tool_map_accessor, runtime_map_accessor, repo_map_accessor,
}
use tomei.Execute.Run.{Executed, execute_removals}
use tomei.Execute.Keeps.{
  tool_map_accessor-IsAccessor, runtime_map_accessor-IsAccessor, repo_map_accessor-IsAccessor,
}
use tomei.Execute.Frame.{execute_removals_frame}
use tomei.Engine.Checks.{
  extract_tools, extract_runtimes, extract_installer_repositories, build_resource_map,
}
use tomei.Engine.Handle.{
  Installers, on_success, execute_all_removals, tool_actions, runtime_actions, repo_actions,
  update_tool_bin_paths,
}
use tomei.Engine.Pruned.{prune, pruned_lem}

abbrev pub tool_name : Tool → String
tool_name t = t.metadata.name

abbrev pub runtime_name : Runtime → String
runtime_name t = t.metadata.name

abbrev pub repository_name : InstallerRepository → String
repository_name t = t.metadata.name

-- The maps of a state have distinct keys.
pub record IsState (st : UserState) : Type 0 where
  pub tools : (x : String) → count x (keys st.tools) ≤ 1
  pub repositories : (x : String) → count x (keys st.installer_repositories) ≤ 1
  pub runtimes : (x : String) → count x (keys st.runtimes) ≤ 1

-- Of the state `before`, exactly the entries that have a resource are left, unchanged.
pub record IsPruned (resources : List Resource) (before after : UserState) : Type 0 where
  pub tools :
      (n : String)
      → lookup n after.tools
        ≡ prune (last_named tool_name n (extract_tools resources)) (lookup n before.tools)
  pub repositories :
      (n : String)
      → lookup n after.installer_repositories
        ≡ prune
            (last_named repository_name n (extract_installer_repositories resources))
            (lookup n before.installer_repositories)
  pub runtimes :
      (n : String)
      → lookup n after.runtimes
        ≡ prune (last_named runtime_name n (extract_runtimes resources)) (lookup n before.runtimes)

module _ {W : Type 0} where
  on_success_ok :
      (x : Executed W × ℕ) (next : W → StateCache → ℕ → Executed W × ℕ)
      → (on_success x next).0.error ≡ none
      → (x.0.error ≡ none) × (on_success x next ≡ next x.0.world x.0.cache x.1)
  unfolding on_success
  on_success_ok x next h = elim (Option-cases x.0.error) [
    | inl e ↦ (e, rw e refl)
    | inr p ↦ absurd (ground (arith, rw (p.1) at h))
  ]

module _ {W : Type 0} (r : RangeOrder) (ins : Installers W) (resources : List Resource)
    (c : StateCache) (wf : IsState c.cache) where
  abbrev pub tool_run : W → ℕ → Executed W × ℕ
  tool_run w total =
      execute_removals ins.tools (cached_store tool_map_accessor) Kind.tool
        (tool_actions r ins resources c.cache) w c total

  abbrev repo_run : W → StateCache → ℕ → Executed W × ℕ
  repo_run w c1 t1 =
      execute_removals ins.repositories (cached_store repo_map_accessor) Kind.installer_repository
        (repo_actions r ins resources c.cache)
        (update_tool_bin_paths r ins (build_resource_map resources []) c1.cache w) c1 t1

  abbrev runtime_run : W → StateCache → ℕ → Executed W × ℕ
  runtime_run w c2 t2 =
      execute_removals ins.runtimes (cached_store runtime_map_accessor) Kind.runtime
        (runtime_actions r ins resources c.cache) w c2 t2

  after_tools :
      (w : W) (total : ℕ)
      → (tool_run w total).0.error ≡ none
      → (n : String)
      → lookup n (tool_run w total).0.cache.cache.tools
        ≡ prune (last_named tool_name n (extract_tools resources)) (lookup n c.cache.tools)
  unfolding tool_actions tool_map_accessor
  after_tools w total e n =
      pruned_lem ins.tools tool_map_accessor tool_map_accessor-IsAccessor Kind.tool tool_comparator
        r tool_name (extract_tools resources) c.cache.tools wf.tools w c total n refl e

  after_repositories :
      (w : W) (c1 : StateCache) (t1 : ℕ) (n : String)
      → lookup n c1.cache.installer_repositories ≡ lookup n c.cache.installer_repositories
      → (repo_run w c1 t1).0.error ≡ none
      → lookup n (repo_run w c1 t1).0.cache.cache.installer_repositories
        ≡ prune
            (last_named repository_name n (extract_installer_repositories resources))
            (lookup n c.cache.installer_repositories)
  unfolding repo_actions repo_map_accessor
  after_repositories w c1 t1 n same e =
      pruned_lem ins.repositories repo_map_accessor repo_map_accessor-IsAccessor
        Kind.installer_repository installer_repository_comparator r repository_name
        (extract_installer_repositories resources) c.cache.installer_repositories wf.repositories
        (update_tool_bin_paths r ins (build_resource_map resources []) c1.cache w) c1 t1 n same e

  after_runtimes :
      (w : W) (c2 : StateCache) (t2 : ℕ) (n : String)
      → lookup n c2.cache.runtimes ≡ lookup n c.cache.runtimes
      → (runtime_run w c2 t2).0.error ≡ none
      → lookup n (runtime_run w c2 t2).0.cache.cache.runtimes
        ≡ prune (last_named runtime_name n (extract_runtimes resources)) (lookup n c.cache.runtimes)
  unfolding runtime_actions runtime_map_accessor
  after_runtimes w c2 t2 n same e =
      pruned_lem ins.runtimes runtime_map_accessor runtime_map_accessor-IsAccessor Kind.runtime
        runtime_comparator r runtime_name (extract_runtimes resources) c.cache.runtimes wf.runtimes
        w c2 t2 n same e

  tools_keep :
      {X : Type 0} (w : W) (total : ℕ) (view : UserState → X)
      → ((st : UserState) (n : String) → view (tool_map_accessor.del st n) ≡ view st)
      → view (tool_run w total).0.cache.cache ≡ view c.cache
  tools_keep w total view same =
      execute_removals_frame ins.tools tool_map_accessor tool_map_accessor-IsAccessor Kind.tool view
        same (tool_actions r ins resources c.cache) w c total

  repositories_keep :
      {X : Type 0} (w : W) (c1 : StateCache) (t1 : ℕ) (view : UserState → X)
      → ((st : UserState) (n : String) → view (repo_map_accessor.del st n) ≡ view st)
      → view (repo_run w c1 t1).0.cache.cache ≡ view c1.cache
  repositories_keep w c1 t1 view same =
      execute_removals_frame ins.repositories repo_map_accessor repo_map_accessor-IsAccessor
        Kind.installer_repository view same (repo_actions r ins resources c.cache)
        (update_tool_bin_paths r ins (build_resource_map resources []) c1.cache w) c1 t1

  runtimes_keep :
      {X : Type 0} (w : W) (c2 : StateCache) (t2 : ℕ) (view : UserState → X)
      → ((st : UserState) (n : String) → view (runtime_map_accessor.del st n) ≡ view st)
      → view (runtime_run w c2 t2).0.cache.cache ≡ view c2.cache
  runtimes_keep w c2 t2 view same =
      execute_removals_frame ins.runtimes runtime_map_accessor runtime_map_accessor-IsAccessor
        Kind.runtime view same (runtime_actions r ins resources c.cache) w c2 t2

  runs_IsPruned :
      (w w1 w2 : W) (total t1 t2 : ℕ) (c1 c2 : StateCache)
      → (tool_run w total).0.error ≡ none
      → c1 ≡ (tool_run w total).0.cache
      → (repo_run w1 c1 t1).0.error ≡ none
      → c2 ≡ (repo_run w1 c1 t1).0.cache
      → (runtime_run w2 c2 t2).0.error ≡ none
      → IsPruned resources c.cache (runtime_run w2 c2 t2).0.cache.cache
  unfolding tool_map_accessor repo_map_accessor runtime_map_accessor
  runs_IsPruned w w1 w2 total t1 t2 c1 c2 e1 s1 e2 s2 e3 = record {
    tools = λ n.
        runtimes_keep w2 c2 t2 (λ st. lookup n st.tools) (λ st m. refl)
        ∙ ap (λ (d : StateCache). lookup n d.cache.tools) s2
        ∙ repositories_keep w1 c1 t1 (λ st. lookup n st.tools) (λ st m. refl)
        ∙ ap (λ (d : StateCache). lookup n d.cache.tools) s1
        ∙ after_tools w total e1 n;
    repositories = λ n.
        runtimes_keep w2 c2 t2 (λ st. lookup n st.installer_repositories) (λ st m. refl)
        ∙ ap (λ (d : StateCache). lookup n d.cache.installer_repositories) s2
        ∙ after_repositories w1 c1 t1 n
            (ap (λ (d : StateCache). lookup n d.cache.installer_repositories) s1
              ∙ tools_keep w total (λ st. lookup n st.installer_repositories) (λ st m. refl))
            e2;
    runtimes = λ n.
        after_runtimes w2 c2 t2 n
          (ap (λ (d : StateCache). lookup n d.cache.runtimes) s2
            ∙ repositories_keep w1 c1 t1 (λ st. lookup n st.runtimes) (λ st m. refl)
            ∙ ap (λ (d : StateCache). lookup n d.cache.runtimes) s1
            ∙ tools_keep w total (λ st. lookup n st.runtimes) (λ st m. refl))
          e3;
  }

  pub all_IsPruned :
      (w : W) (total : ℕ) (x : Executed W × ℕ)
      → x
        ≡ execute_all_removals r ins resources
            (tool_actions r ins resources c.cache)
            (repo_actions r ins resources c.cache)
            (runtime_actions r ins resources c.cache)
            w
            c
            total
      → x.0.error ≡ none
      → IsPruned resources c.cache x.0.cache.cache
  unfolding execute_all_removals
  all_IsPruned w total x s e =
      let x1 = tool_run w total in
      let next2 : W → StateCache → ℕ → Executed W × ℕ = λ w2 c2 t2. runtime_run w2 c2 t2 in
      let next1 : W → StateCache → ℕ → Executed W × ℕ =
        λ w1 c1 t1. on_success (repo_run w1 c1 t1) next2 in
      let (e1, s1) =
        on_success_ok x1 next1 (subst (λ (y : Executed W × ℕ). y.0.error ≡ none) s e) in
      let x2 = repo_run x1.0.world x1.0.cache x1.1 in
      let (e2, s2) =
        on_success_ok x2 next2 (subst (λ (y : Executed W × ℕ). y.0.error ≡ none) (s ∙ s1) e) in
      let s3 : x ≡ runtime_run x2.0.world x2.0.cache x2.1 = s ∙ s1 ∙ s2 in
      subst (λ (y : Executed W × ℕ). IsPruned resources c.cache y.0.cache.cache) (sym s3)
        (runs_IsPruned w x1.0.world x2.0.world total x1.1 x2.1 x1.0.cache x2.0.cache e1 refl e2 refl
          (subst (λ (y : Executed W × ℕ). y.0.error ≡ none) s3 e))
