-- ===== src/Reconcile/Core.antt =====
-- The generic reconciler (internal/installer/reconciler/reconciler.go). A zero value of a pointer
-- type, `zeroRes` and `zeroState`, is `none`.
use tomei.Base.{
  String, Bool, Option, none, some, List, [], ◌∷◌, ◌++◌, Map, lookup, put, RangeOrder,
  if◌then◌else◌,
}
use tomei.Resource.Version.{ActionType}

pub record Action (R S : Type 0) : Type 0 where
  pub type : ActionType
  pub name : String
  pub resource : Option R
  pub state : Option S
  pub reason : String

-- Whether the resource needs an update, and the reason.
abbrev pub Comparator : Type 0 → Type 0 → Type 0
Comparator R S = R → S → Bool × String

module _ {R : Type 0} (name_of : R → String) where
  -- `specResources[res.Name()] = res` for each resource: the last one of a name stays.
  unfoldable pub spec_resources : List R → Map R → Map R
  spec_resources [] m = m
  spec_resources (res ∷ rest) m = spec_resources rest (put (name_of res) res m)

module _ {R S : Type 0} (compare : Comparator R S) where
  -- The actions for one resource of the spec: none or one.
  unfoldable pub spec_action : String → R → Option S → List (Action R S)
  spec_action name res none =
      record {
        type = ActionType.install;
        name = name;
        resource = some res;
        state = none;
        reason = "new resource";
      }
      ∷ []
  spec_action name res (some current) =
      if (compare res current).0
      then record {
        type = ActionType.upgrade;
        name = name;
        resource = some res;
        state = some current;
        reason = (compare res current).1;
      }
        ∷ []
      else []

  -- The loop over the spec.
  unfoldable pub spec_actions : Map S → Map R → List (Action R S)
  spec_actions states [] = []
  spec_actions states ((name, res) ∷ rest) =
      spec_action name res (lookup name states) ++ spec_actions states rest

module _ {R S : Type 0} where
  abbrev pub remove_action : String → S → Action R S
  remove_action name state = record {
    type = ActionType.remove;
    name = name;
    resource = none;
    state = some state;
    reason = "removed from spec";
  }

  -- The loop over the states that have no resource in the spec.
  unfoldable pub removal_actions : Map R → Map S → List (Action R S)
  removal_actions specs [] = []
  removal_actions specs ((name, state) ∷ rest) = elim (lookup name specs) [
    | some _ ↦ removal_actions specs rest
    | none ↦ remove_action name state ∷ removal_actions specs rest
  ]

unfoldable pub reconcile :
    (r : RangeOrder) {R S : Type 0}
    → (R → String)
    → Comparator R S
    → List R
    → Map S
    → List (Action R S)
reconcile r {R} {S} name_of compare resources states =
    let specs = spec_resources name_of resources [] in
    spec_actions compare states (r.range R specs) ++ removal_actions specs (r.range S states)
