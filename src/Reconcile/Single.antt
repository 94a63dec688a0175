-- ===== src/Reconcile/Single.antt =====
-- The reconciliation of one resource against its own state alone, as the engine does it for each node
-- (internal/installer/reconciler/reconciler.go).
use tomei.Base.{
  String, ◌≡◌, refl, Option, none, some, [], ◌∷◌, Map, RangeOrder, eq_refl, range_single,
  range_empty,
}
use mathlib.Core.List.{append-nil}
use tomei.Reconcile.Core.{
  Comparator, spec_resources, spec_action, spec_actions, removal_actions, reconcile,
}

-- The state map of one name.
unfoldable pub single_state : {S : Type 0} → String → Option S → Map S
single_state name none = []
single_state name (some s) = (name, s) ∷ []

no_removal :
    {R S : Type 0} (name : String) (res : R) (s : S)
    → removal_actions {R = R} ((name, res) ∷ []) ((name, s) ∷ []) ≡ []
unfolding removal_actions
no_removal name res s = rw (eq_refl, removal_actions) refl

one_action :
    {R S : Type 0} (compare : Comparator R S) (name : String) (res : R) (s : S)
    → spec_actions compare ((name, s) ∷ []) ((name, res) ∷ [])
      ≡ spec_action compare name res (some s)
unfolding spec_actions
one_action compare name res s = rw eq_refl (append-nil (spec_action compare name res (some s)))

module _ (r : RangeOrder) {R S : Type 0} (name_of : R → String) (compare : Comparator R S) where
  -- One resource gets the one action that it and its state call for, and nothing is removed.
  pub reconcile_single :
      (res : R) (state : Option S)
      → reconcile r name_of compare (res ∷ []) (single_state (name_of res) state)
        ≡ spec_action compare (name_of res) res state
  unfolding reconcile spec_resources single_state
  reconcile_single res none =
      rw (range_single r (name_of res) res, range_empty r {V = S})
        (unfold spec_actions removal_actions spec_action in refl)
  reconcile_single res (some s) =
      rw
        (
          range_single r (name_of res) res,
          range_single r (name_of res) s,
          no_removal (name_of res) res s,
          one_action compare (name_of res) res s,
        )
        (append-nil (spec_action compare (name_of res) res (some s)))
