-- ===== src/Engine/Plan.antt =====
-- `PlanAll` (internal/installer/engine/engine.go). The answers of the lock and of the state file are
-- arguments; the nil checks of the reconcilers are left out, since NewEngine makes them.
use Prim.Native.String.{◌++◌ as concat}
use tomei.Base.{String, Option, none, some, List, RangeOrder, if◌then◌else◌}
use tomei.Resource.Tool.{Tool, ToolState}
use tomei.Resource.Other.{Runtime, RuntimeState, InstallerRepository, InstallerRepositoryState}
use tomei.Resource.All.{Resource}
use tomei.Reconcile.Core.{Action}
use tomei.State.User.{UserState}
use tomei.Execute.Run.{Outcome, ok, failed}
use tomei.Engine.Taint.{UpdateConfig, apply_update_taints}
use tomei.Engine.Checks.{extract_tools, check_removal_dependencies}
use tomei.Engine.Handle.{
  Installers, tool_actions, runtime_actions, repo_actions, removal_names, any_removal,
}

pub record Plan : Type 0 where
  pub runtimes : List (Action Runtime RuntimeState)
  pub repositories : List (Action InstallerRepository InstallerRepositoryState)
  pub tools : List (Action Tool ToolState)

pub data Planned : Type 0 where
  planned : Plan → Planned
  plan_refused : List (String × String) → Planned
  plan_failed : String → Planned

module _ {W : Type 0} (r : RangeOrder) (ins : Installers W) where
  -- The three reconciliations.
  unfoldable pub plan_state : List Resource → UserState → Plan
  unfolding tool_actions runtime_actions repo_actions
  plan_state resources st = record {
    runtimes = runtime_actions r ins resources st;
    repositories = repo_actions r ins resources st;
    tools = tool_actions r ins resources st;
  }

  -- The check of the removals, and the plan where it passes.
  unfoldable pub check_plan : List Resource → Plan → Planned
  unfolding check_removal_dependencies removal_names
  check_plan resources plan =
      elim (if any_removal plan.runtimes
        then check_removal_dependencies (removal_names plan.runtimes) (extract_tools resources)
        else none) [ some blocked ↦ plan_refused blocked | none ↦ planned plan ]

  abbrev pub plan_loaded : UpdateConfig → List Resource → Outcome UserState → Planned
  plan_loaded cfg resources (failed e) = plan_failed (concat "failed to load state: " e)
  plan_loaded cfg resources (ok st) =
      check_plan resources (plan_state resources (apply_update_taints cfg st))

  -- `PlanAll`
  unfoldable pub plan_all :
      UpdateConfig → Option String → Outcome UserState → List Resource → Planned
  unfolding check_plan plan_state apply_update_taints
  plan_all cfg lock_error loaded resources = elim lock_error [
    | some e ↦ plan_failed (concat "failed to acquire lock: " e)
    | none ↦ plan_loaded cfg resources loaded
  ]
