-- ===== src/State/Entry.antt =====
-- The change that the two entries of one name call for (diffMap of internal/state/diff.go).
use tomei.Base.{
  String, ◌≡◌, refl, Bool, true, false, ◌||◌, Option, none, some, List, [], ◌∷◌, Map, lookup, has,
  ◌==◌, if◌then◌else◌, inl, inr, Bool-cases,
}
use tomei.State.Diff.{DiffType, ResourceDiff, Compared, modified_entry, diff_entry}

module _ {V : Type 0} where
  abbrev pub is_there : Option V → Bool
  is_there none = false
  is_there (some _) = true

  pub has-is_there : (n : String) (m : Map V) → has n m ≡ is_there (lookup n m)
  has-is_there n [] = refl
  has-is_there n ((k, v) ∷ m) = elim (Bool-cases (k == n)) [
    | inl e ↦ rw e refl
    | inr e ↦ rw e (has-is_there n m)
  ]

modified_entry-details :
    (kind name old new : String) (ds : List String)
    → modified_entry kind name (record { old_version = old; new_version = new; details = ds })
      ≡ elim ds [
        | [] ↦ []
        | d ∷ ds' ↦
            record {
              kind = kind;
              name = name;
              type = DiffType.modified;
              old_version = old;
              new_version = new;
              details = d ∷ ds';
            }
            ∷ []
      ]
unfolding modified_entry
modified_entry-details kind name old new [] = refl
modified_entry-details kind name old new (d ∷ ds) = refl

module _ {V : Type 0} (kind : String) where
  -- The one change of a map that a name's old and current entries call for, if any, with the versions
  -- and the details that the comparison, where there is one, gives for the two entries.
  abbrev pub change_of :
      Option (Option V → Option V → Compared) → String → Option V → Option V → List ResourceDiff
  change_of compare name none none = []
  change_of compare name none (some cur) =
      record {
        kind = kind;
        name = name;
        type = DiffType.added;
        old_version = "";
        new_version = elim compare [ none ↦ "" | some f ↦ (f none (some cur)).new_version ];
        details = [];
      }
      ∷ []
  change_of compare name (some old) none =
      record {
        kind = kind;
        name = name;
        type = DiffType.removed;
        old_version = elim compare [ none ↦ "" | some f ↦ (f (some old) none).old_version ];
        new_version = "";
        details = [];
      }
      ∷ []
  change_of none name (some old) (some cur) = []
  change_of (some f) name (some old) (some cur) =
      let x = f (some old) (some cur) in
      elim x.details [
        | [] ↦ []
        | d ∷ ds ↦
            record {
              kind = kind;
              name = name;
              type = DiffType.modified;
              old_version = x.old_version;
              new_version = x.new_version;
              details = d ∷ ds;
            }
            ∷ []
      ]

  pub diff_entry-change_of :
      (compare : Option (Option V → Option V → Compared)) (name : String) (o c : Option V)
      → (if is_there o || is_there c then diff_entry kind compare name o c else [])
        ≡ change_of compare name o c
  unfolding diff_entry
  diff_entry-change_of compare name none none = refl
  diff_entry-change_of none name none (some c) = refl
  diff_entry-change_of (some f) name none (some c) = refl
  diff_entry-change_of none name (some o) none = refl
  diff_entry-change_of (some f) name (some o) none = refl
  diff_entry-change_of none name (some o) (some c) = refl
  diff_entry-change_of (some f) name (some o) (some c) =
      let x = f (some o) (some c) in
      modified_entry-details kind name x.old_version x.new_version x.details
