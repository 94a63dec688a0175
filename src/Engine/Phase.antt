-- ===== src/Engine/Phase.antt =====
-- The removal phase of the engine, refused or run (`handleRemovals` of internal/installer/engine/engine.go).
use mathlib.Core.Option
use tomei.Base.{
  ℕ, String, ◌≡◌, refl, sym, ap, Bool, true, false, ◌||◌, Option, none, some, List, lookup,
  RangeOrder, arith, if◌then◌else◌, subst,
}
use tomei.Resource.All.{Resource}
use tomei.Reconcile.Comparators.{
  tool_comparator, runtime_comparator, installer_repository_comparator,
}
use tomei.Reconcile.Actions.{last_named}
use tomei.Execute.Cache.{StateCache}
use tomei.Execute.Run.{Executed}
use tomei.Engine.Checks.{
  extract_tools, extract_runtimes, extract_installer_repositories, check_removal_dependencies,
}
use tomei.Engine.Handle.{
  Installers, Handled, refused, handled, execute_all_removals, handle_removals, any_removal,
  removal_names, tool_actions, runtime_actions, repo_actions,
}
use tomei.Engine.Pruned.{prune, to_go, no_removes, pruned_entry, removes-reconcile}
use tomei.Engine.Removed.{tool_name, runtime_name, repository_name, IsState, IsPruned, all_IsPruned}

module _ {W : Type 0} (r : RangeOrder) (ins : Installers W) (resources : List Resource)
    (c : StateCache) (wf : IsState c.cache) where
  nothing_IsPruned :
      any_removal (tool_actions r ins resources c.cache) ≡ false
      → any_removal (repo_actions r ins resources c.cache) ≡ false
      → any_removal (runtime_actions r ins resources c.cache) ≡ false
      → IsPruned resources c.cache c.cache
  unfolding tool_actions repo_actions runtime_actions
  nothing_IsPruned a b d = record {
    tools = λ n.
        kept n _ (last_named tool_name n (extract_tools resources)) (lookup n c.cache.tools)
          (removes-reconcile tool_comparator r tool_name (extract_tools resources) c.cache.tools n
            wf.tools)
          (no_removes n (tool_actions r ins resources c.cache) a);
    repositories = λ n.
        kept n _ (last_named repository_name n (extract_installer_repositories resources))
          (lookup n c.cache.installer_repositories)
          (removes-reconcile installer_repository_comparator r repository_name
            (extract_installer_repositories resources) c.cache.installer_repositories n
            wf.repositories)
          (no_removes n (repo_actions r ins resources c.cache) b);
    runtimes = λ n.
        kept n _ (last_named runtime_name n (extract_runtimes resources))
          (lookup n c.cache.runtimes)
          (removes-reconcile runtime_comparator r runtime_name (extract_runtimes resources)
            c.cache.runtimes n wf.runtimes)
          (no_removes n (runtime_actions r ins resources c.cache) d);
  }
    where
      kept :
          {R S : Type 0} (n : String) (b : Bool) (o : Option R) (s : Option S)
          → b ≡ to_go o s
          → b ≡ false
          → s ≡ prune o s
      kept n b o s e f = pruned_entry b o s s e (λ _. refl) (λ g. absurd (ground (arith, f, g)))

  abbrev handled_result : Handled W → Option (Executed W × ℕ)
  handled_result (refused b) = none
  handled_result (handled x) = some x

  abbrev all_run : W → ℕ → Executed W × ℕ
  all_run w total =
      execute_all_removals r ins resources (tool_actions r ins resources c.cache)
        (repo_actions r ins resources c.cache) (runtime_actions r ins resources c.cache) w c total

  decided :
      (w : W) (total : ℕ) (x : Executed W × ℕ) (a b d : Bool) (o : Option (List (String × String)))
      → any_removal (tool_actions r ins resources c.cache) ≡ a
      → any_removal (repo_actions r ins resources c.cache) ≡ b
      → any_removal (runtime_actions r ins resources c.cache) ≡ d
      → handled_result (elim o as (λ _. Handled W) [
        | some blocked ↦ refused blocked
        | none ↦ handled (
            if a || b || d
            then all_run w total
            else (record { world = w; cache = c; error = none }, total))
      ])
        ≡ some x
      → x.0.error ≡ none
      → IsPruned resources c.cache x.0.cache.cache
  decided w total x a b d (some blocked) p q s e f = absurd (ground arith)
  decided w total x false false false none p q s e f =
      subst (λ (y : Executed W × ℕ). IsPruned resources c.cache y.0.cache.cache)
        (Option.some-injective _ _ e) (nothing_IsPruned p q s)
  decided w total x true b d none p q s e f =
      all_IsPruned r ins resources c wf w total x (sym (Option.some-injective _ _ e)) f
  decided w total x false true d none p q s e f =
      all_IsPruned r ins resources c wf w total x (sym (Option.some-injective _ _ e)) f
  decided w total x false false true none p q s e f =
      all_IsPruned r ins resources c wf w total x (sym (Option.some-injective _ _ e)) f

  -- If the removal phase is not refused and ends without an error, from a state whose maps have
  -- distinct keys, then of the tools, the installer repositories and the runtimes of the state exactly
  -- those that have a resource of their name are left, and their entries are unchanged.
  pub handle_removals_lem :
      (w : W) (total : ℕ) (x : Executed W × ℕ)
      → handle_removals r ins resources w c total ≡ handled x
      → x.0.error ≡ none
      → IsPruned resources c.cache x.0.cache.cache
  unfolding handle_removals
  handle_removals_lem w total x h e =
      decided w total x (any_removal (tool_actions r ins resources c.cache))
        (any_removal (repo_actions r ins resources c.cache))
        (any_removal (runtime_actions r ins resources c.cache))
        (if any_removal (runtime_actions r ins resources c.cache)
          then check_removal_dependencies (removal_names (runtime_actions r ins resources c.cache))
              (extract_tools resources)
          else none)
        refl refl refl (ap handled_result h) e
