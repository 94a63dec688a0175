-- ===== src/Execute/Run.antt =====
-- The executor (internal/installer/executor/executor.go) and the loop of the engine that runs the
-- removals (internal/installer/engine/engine.go). `W` is the world an installer acts on. Logging and
-- progress events are left out; the context's two values are arguments of `install`.
use Prim.Native.String.{◌++◌ as concat}
use tomei.Base.{ℕ, suc, String, Option, none, some, List, [], ◌∷◌}
use tomei.Resource.Kind.{Kind, kind_name}
use tomei.Resource.Version.{ActionType}
use tomei.Reconcile.Core.{Action}
use tomei.Execute.Cache.{StateCache, StateStore}

pub data Outcome (S : Type 0) : Type 0 where
  ok : S → Outcome S
  failed : String → Outcome S

-- `Installer`: `install` is given the action type, the old bin path (`""` for none), the resource and
-- the name. `get_bin_path` is `GetBinPath` of the state, `""` where its type has none.
pub record Installer (W R S : Type 0) : Type 0 where
  pub install : ActionType → String → Option R → String → W → W × Outcome S
  pub remove : Option S → String → W → W × Option String
  pub get_bin_path : Option S → String

-- The error of `Execute`, if any, with the world and the state after it.
pub record Executed (W : Type 0) : Type 0 where
  pub world : W
  pub cache : StateCache
  pub error : Option String

abbrev describe : String → Kind → String → String → String
describe what kind name e =
    concat what (concat (kind_name kind) (concat " " (concat name (concat ": " e))))

unfoldable pub action_name : ActionType → String
action_name ActionType.none = "none"
action_name ActionType.install = "install"
action_name ActionType.upgrade = "upgrade"
action_name ActionType.downgrade = "downgrade"
action_name ActionType.reinstall = "reinstall"
action_name ActionType.remove = "remove"
action_name ActionType.skip = "skip"

module _ {W R S : Type 0} (inst : Installer W R S) (store : StateStore S) (kind : Kind) where
  -- `WithOldBinPath`, for an upgrade or a reinstallation.
  unfoldable pub old_bin_path : Action R S → String
  old_bin_path action = elim action.type [
    | ActionType.upgrade ↦ inst.get_bin_path action.state
    | ActionType.reinstall ↦ inst.get_bin_path action.state
    | _ ↦ ""
  ]

  -- What `Save` or `Delete` answered.
  abbrev pub stored : String → String → W → StateCache × Option String → Executed W
  stored what name w (c, none) = record { world = w; cache = c; error = none }
  stored what name w (c, some e) = record {
    world = w;
    cache = c;
    error = some (describe what kind name e);
  }

  abbrev pub save_outcome : String → StateCache → W × Outcome S → Executed W
  save_outcome name c (w, failed e) = record {
    world = w;
    cache = c;
    error = some (describe "failed to install " kind name e);
  }
  save_outcome name c (w, ok s) = stored "failed to save state for " name w (store.save name s c)

  -- `install`
  unfoldable pub install : Action R S → W → StateCache → Executed W
  unfolding old_bin_path
  install action w c =
      save_outcome action.name c
        (inst.install action.type (old_bin_path action) action.resource action.name w)

  abbrev pub delete_outcome : String → StateCache → W × Option String → Executed W
  delete_outcome name c (w, some e) = record {
    world = w;
    cache = c;
    error = some (describe "failed to remove " kind name e);
  }
  delete_outcome name c (w, none) =
      stored "failed to delete state for " name w (store.delete_entry name c)

  -- `remove`
  unfoldable pub remove : Action R S → W → StateCache → Executed W
  remove action w c = delete_outcome action.name c (inst.remove action.state action.name w)

  abbrev unsupported : ActionType → W → StateCache → Executed W
  unsupported type w c = record {
    world = w;
    cache = c;
    error = some (concat "unsupported action type: " (action_name type));
  }

  -- `Execute`
  unfoldable pub execute : Action R S → W → StateCache → Executed W
  unfolding install remove action_name
  execute action w c = elim action.type [
    | ActionType.install ↦ install action w c
    | ActionType.upgrade ↦ install action w c
    | ActionType.reinstall ↦ install action w c
    | ActionType.remove ↦ remove action w c
    | t ↦ unsupported t w c
  ]

  -- After one removal: an error ends the loop, else `rest`, the remaining loop, gives the result.
  unfoldable pub stop_or_go : String → Executed W → ℕ → Executed W × ℕ → Executed W × ℕ
  stop_or_go name x total rest = elim x.error [
    | none ↦ rest
    | some e ↦ (
      record {
        world = x.world;
        cache = x.cache;
        error = some (describe "failed to remove " kind name e);
      },
      total,
    )
  ]

  -- `executeRemovals`: the loop over the actions, with the count of those done.
  unfoldable pub execute_removals : List (Action R S) → W → StateCache → ℕ → Executed W × ℕ
  unfolding execute stop_or_go
  execute_removals [] w c total = (record { world = w; cache = c; error = none }, total)
  execute_removals (action ∷ actions) w c total = elim action.type [
    | ActionType.remove ↦
        let ran = execute action w c in
        stop_or_go action.name ran total (execute_removals actions ran.world ran.cache (suc total))
    | _ ↦ execute_removals actions w c total
  ]
