-- ===== src/Execute/Keeps.antt =====
-- What an executed action changes of the cached state, on success and on failure
-- (internal/installer/executor, and executeRemovals of internal/installer/engine/engine.go).
use tomei.Base.{
  String, ◌≡◌, refl, true, Option, none, some, ◌==◌, if◌then◌else◌, lookup-put, lookup-delete,
}
use tomei.Resource.Kind.{Kind}
use tomei.Resource.Version.{ActionType}
use tomei.Reconcile.Core.{Action}
use tomei.State.User.{UserState}
use tomei.Execute.Cache.{
  StateCache, MapAccessor, cached_store, tool_map_accessor, runtime_map_accessor, repo_map_accessor,
}
use tomei.Execute.Run.{
  Outcome, Installer, Executed, execute, install, remove, old_bin_path, save_outcome,
  delete_outcome, ok, failed,
}

-- The laws of a map accessor.
pub record IsAccessor {S : Type 0} (acc : MapAccessor S) : Type 0 where
  pub get_set :
      (st : UserState) (n m : String) (v : S)
      → acc.get (acc.set st n v) m ≡ (if n == m then some v else acc.get st m)
  pub get_del :
      (st : UserState) (n m : String)
      → acc.get (acc.del st n) m ≡ (if n == m then none else acc.get st m)

pub tool_map_accessor-IsAccessor : IsAccessor tool_map_accessor
unfolding tool_map_accessor
tool_map_accessor-IsAccessor = record {
  get_set = λ st n m v. lookup-put n m v st.tools;
  get_del = λ st n m. lookup-delete n m st.tools;
}

pub runtime_map_accessor-IsAccessor : IsAccessor runtime_map_accessor
unfolding runtime_map_accessor
runtime_map_accessor-IsAccessor = record {
  get_set = λ st n m v. lookup-put n m v st.runtimes;
  get_del = λ st n m. lookup-delete n m st.runtimes;
}

pub repo_map_accessor-IsAccessor : IsAccessor repo_map_accessor
unfolding repo_map_accessor
repo_map_accessor-IsAccessor = record {
  get_set = λ st n m v. lookup-put n m v st.installer_repositories;
  get_del = λ st n m. lookup-delete n m st.installer_repositories;
}

-- An action left an error, and the cached state as it was.
pub record IsUnchanged {W : Type 0} (c : StateCache) (x : Executed W) : Type 0 where
  pub error : (e : String) × (x.error ≡ some e)
  pub cache : x.cache ≡ c

-- An action gave one name the entry `v`, or no entry, and changed no other.
pub record IsStored {W S : Type 0} (acc : MapAccessor S) (c : StateCache) (name : String)
    (v : Option S) (x : Executed W) : Type 0 where
  pub error : x.error ≡ none
  pub dirty : x.cache.dirty ≡ true
  pub saved : x.cache.saved ≡ c.saved
  pub entry : (j : String) → acc.get x.cache.cache j ≡ (if name == j then v else acc.get c.cache j)

abbrev pub action_of :
    {R S : Type 0} → ActionType → String → Option R → Option S → String → Action R S
action_of type name res st reason = record {
  type = type;
  name = name;
  resource = res;
  state = st;
  reason = reason;
}

module _ {W R S : Type 0} (inst : Installer W R S) (acc : MapAccessor S) (laws : IsAccessor acc)
    (kind : Kind) where
  -- What the world's installer makes of an action: no success, or the entry it leaves.
  abbrev pub installed : W × Outcome S → Option (Option S)
  installed (w, ok s) = some (some s)
  installed (w, failed e) = none

  abbrev pub removed : W × Option String → Option (Option S)
  removed (w, none) = some none
  removed (w, some e) = none

  -- The effect of an action, from what the installer answers.
  unfoldable pub effect : Action R S → W → Option (Option S)
  effect action w = elim action.type [
    | ActionType.install ↦
        installed (inst.install ActionType.install "" action.resource action.name w)
    | ActionType.upgrade ↦ installed (
        inst.install ActionType.upgrade (inst.get_bin_path action.state) action.resource action.name
          w)
    | ActionType.reinstall ↦ installed (
        inst.install ActionType.reinstall (inst.get_bin_path action.state) action.resource
          action.name w)
    | ActionType.remove ↦ removed (inst.remove action.state action.name w)
    | _ ↦ none
  ]

  abbrev pub IsExecuted : String → StateCache → Option (Option S) → Executed W → Type 0
  IsExecuted name c none x = IsUnchanged c x
  IsExecuted name c (some v) x = IsStored acc c name v x

  save_outcome-IsExecuted :
      (name : String) (c : StateCache) (x : W × Outcome S)
      → IsExecuted name c (installed x) (save_outcome inst (cached_store acc) kind name c x)
  unfolding cached_store
  save_outcome-IsExecuted name c (w, ok s) = record {
    error = refl;
    dirty = refl;
    saved = refl;
    entry = λ j. laws.get_set c.cache name j s;
  }
  save_outcome-IsExecuted name c (w, failed e) = record { error = (_, refl); cache = refl }

  delete_outcome-IsExecuted :
      (name : String) (c : StateCache) (x : W × Option String)
      → IsExecuted name c (removed x) (delete_outcome inst (cached_store acc) kind name c x)
  unfolding cached_store
  delete_outcome-IsExecuted name c (w, none) = record {
    error = refl;
    dirty = refl;
    saved = refl;
    entry = λ j. laws.get_del c.cache name j;
  }
  delete_outcome-IsExecuted name c (w, some e) = record { error = (_, refl); cache = refl }

  execute_parts :
      (type : ActionType) (name : String) (res : Option R) (st : Option S) (reason : String) (w : W)
      (c : StateCache)
      → IsExecuted name c
          (effect (action_of type name res st reason) w)
          (execute inst (cached_store acc) kind (action_of type name res st reason) w c)
  unfolding effect execute install remove old_bin_path
  execute_parts ActionType.none name res st reason w c = record { error = (_, refl); cache = refl }
  execute_parts ActionType.skip name res st reason w c = record { error = (_, refl); cache = refl }
  execute_parts ActionType.downgrade name res st reason w c = record {
    error = (_, refl);
    cache = refl;
  }
  execute_parts ActionType.install name res st reason w c =
      save_outcome-IsExecuted name c (inst.install ActionType.install "" res name w)
  execute_parts ActionType.upgrade name res st reason w c =
      save_outcome-IsExecuted name c
        (inst.install ActionType.upgrade (inst.get_bin_path st) res name w)
  execute_parts ActionType.reinstall name res st reason w c =
      save_outcome-IsExecuted name c
        (inst.install ActionType.reinstall (inst.get_bin_path st) res name w)
  execute_parts ActionType.remove name res st reason w c =
      delete_outcome-IsExecuted name c (inst.remove st name w)

  -- Executing an action on a cached store: where the installer reports an error, or the action is none
  -- that the executor knows, an error is returned and the cached state is left as it was; else there is
  -- no error, the cache is marked dirty, the saved state is not touched, the entry of the action's name
  -- is what the installer returned (for a removal: gone), and no other entry changes.
  pub execute_lem :
      (action : Action R S) (w : W) (c : StateCache)
      → IsExecuted action.name c (effect action w) (execute inst (cached_store acc) kind action w c)
  execute_lem action w c =
      execute_parts action.type action.name action.resource action.state action.reason w c
