-- ===== src/State/Diff.antt =====
-- The difference of two states (internal/state/diff.go).
use Prim.Native.String.{compare as compare_strings}
use tomei.Base.{
  ℕ, suc, String, Bool, true, false, Option, none, some, List, [], ◌∷◌, ◌++◌, Map, Set, lookup, put,
  keys, Ordering, ◌==◌, if◌then◌else◌,
}
use tomei.Resource.Tool.{ToolState, is_empty}
use tomei.Resource.Other.{RuntimeState}
use tomei.State.User.{UserState, RegistryState}

pub data DiffType : Type 0 where
  added removed modified : DiffType

pub record ResourceDiff : Type 0 where
  pub kind : String
  pub name : String
  pub type : DiffType
  pub old_version : String
  pub new_version : String
  pub details : List String

pub record Summary : Type 0 where
  pub added : ℕ
  pub modified : ℕ
  pub removed : ℕ

-- `HasChanges` and `Summary` of a list of changes.
unfoldable pub has_changes : List ResourceDiff → Bool
has_changes [] = false
has_changes (_ ∷ _) = true

abbrev count_one : DiffType → Summary → Summary
count_one DiffType.added s = record s { added = suc s.added }
count_one DiffType.modified s = record s { modified = suc s.modified }
count_one DiffType.removed s = record s { removed = suc s.removed }

unfoldable pub summary : List ResourceDiff → Summary
summary [] = record { added = 0; modified = 0; removed = 0 }
summary (c ∷ changes) = count_one c.type (summary changes)

-- The old and the new version, and the details of a change.
pub record Compared : Type 0 where
  pub old_version : String
  pub new_version : String
  pub details : List String

-- `sort.Strings`, of the standard library: insertion in the order of the bytes.
abbrev pub insert_string : String → List String → List String
insert_string x [] = x ∷ []
insert_string x (y ∷ ys) =
    let rest = insert_string x ys in
    elim (compare_strings x y) [ Ordering.gt ↦ y ∷ rest | _ ↦ x ∷ y ∷ ys ]

abbrev pub sort_strings : List String → List String
sort_strings [] = []
sort_strings (x ∷ xs) = insert_string x (sort_strings xs)

-- The `default` case of `diffMap` with a comparison: a change where there are details.
unfoldable pub modified_entry : String → String → Compared → List ResourceDiff
modified_entry kind name x = elim x.details [
  | [] ↦ []
  | d ∷ ds ↦
      record {
        kind = kind;
        name = name;
        type = DiffType.modified;
        old_version = x.old_version;
        new_version = x.new_version;
        details = d ∷ ds;
      }
      ∷ []
]

module _ {V : Type 0} where
  abbrev pub see_keys : Map V → Set → Set
  see_keys [] seen = seen
  see_keys ((k, _) ∷ m) seen = see_keys m (put k tt seen)

  -- `collectKeys`. The keys are sorted, so the order in which a `range` meets them has no effect on the
  -- result.
  unfoldable pub collect_keys : Map V → Map V → List String
  collect_keys a b = sort_strings (keys (see_keys b (see_keys a [])))

  -- The three cases of the loop of `diffMap`: the change of one name, or none. `compare` is `none` for
  -- the nil comparison; a missing entry is the nil pointer it is compared as.
  unfoldable pub diff_entry :
      String
      → Option (Option V → Option V → Compared)
      → String
      → Option V
      → Option V
      → List ResourceDiff
  unfolding modified_entry
  diff_entry kind none name none (some cur) =
      record {
        kind = kind;
        name = name;
        type = DiffType.added;
        old_version = "";
        new_version = "";
        details = [];
      }
      ∷ []
  diff_entry kind (some compare) name none (some cur) =
      record {
        kind = kind;
        name = name;
        type = DiffType.added;
        old_version = "";
        new_version = (compare none (some cur)).new_version;
        details = [];
      }
      ∷ []
  diff_entry kind none name (some old) none =
      record {
        kind = kind;
        name = name;
        type = DiffType.removed;
        old_version = "";
        new_version = "";
        details = [];
      }
      ∷ []
  diff_entry kind (some compare) name (some old) none =
      record {
        kind = kind;
        name = name;
        type = DiffType.removed;
        old_version = (compare (some old) none).old_version;
        new_version = "";
        details = [];
      }
      ∷ []
  diff_entry kind none name old cur = []
  diff_entry kind (some compare) name old cur = modified_entry kind name (compare old cur)

  unfoldable pub diff_names :
      Map V
      → Map V
      → String
      → Option (Option V → Option V → Compared)
      → List String
      → List ResourceDiff
  diff_names old cur kind compare [] = []
  diff_names old cur kind compare (name ∷ names) =
      diff_entry kind compare name (lookup name old) (lookup name cur)
      ++ diff_names old cur kind compare names

  unfoldable pub diff_map :
      Map V → Map V → String → Option (Option V → Option V → Compared) → List ResourceDiff
  diff_map old cur kind compare = diff_names old cur kind compare (collect_keys old cur)

-- `details = append(details, what)` where two texts differ.
abbrev detail : String → String → String → List String → List String
detail what old cur rest = if old == cur then rest else what ∷ rest

unfoldable pub compare_tools : Option ToolState → Option ToolState → Compared
compare_tools none none = record { old_version = ""; new_version = ""; details = [] }
compare_tools none (some cur) = record { old_version = ""; new_version = cur.version; details = [] }
compare_tools (some old) none = record { old_version = old.version; new_version = ""; details = [] }
compare_tools (some old) (some cur) = record {
  old_version = old.version;
  new_version = cur.version;
  details = detail "version changed" old.version cur.version (
      detail "installPath changed" old.install_path cur.install_path
        (detail "digest changed" old.digest cur.digest []));
}

unfoldable pub compare_runtimes : Option RuntimeState → Option RuntimeState → Compared
compare_runtimes none none = record { old_version = ""; new_version = ""; details = [] }
compare_runtimes none (some cur) = record {
  old_version = "";
  new_version = cur.version;
  details = [];
}
compare_runtimes (some old) none = record {
  old_version = old.version;
  new_version = "";
  details = [];
}
compare_runtimes (some old) (some cur) = record {
  old_version = old.version;
  new_version = cur.version;
  details =
      detail "version changed" old.version cur.version
        (detail "installPath changed" old.install_path cur.install_path []);
}

abbrev aqua_ref : Option RegistryState → String
aqua_ref none = ""
aqua_ref (some r) = elim r.aqua [ none ↦ "" | some a ↦ a.ref ]

abbrev registry_change : DiffType → String → String → ResourceDiff
registry_change type old new = record {
  kind = "registry";
  name = "aqua";
  type = type;
  old_version = old;
  new_version = new;
  details = [];
}

unfoldable pub diff_registry : UserState → UserState → List ResourceDiff
diff_registry old current =
    let old_ref = aqua_ref old.registry in
    let new_ref = aqua_ref current.registry in
    if old_ref == new_ref
    then []
    else if is_empty old_ref
    then registry_change DiffType.added "" new_ref ∷ []
    else if is_empty new_ref
    then registry_change DiffType.removed old_ref "" ∷ []
    else registry_change DiffType.modified old_ref new_ref ∷ []

unfoldable pub diff_user_states : UserState → UserState → List ResourceDiff
unfolding diff_map diff_registry compare_runtimes compare_tools
diff_user_states old current =
    diff_registry old current
    ++ (diff_map old.runtimes current.runtimes "runtime" (some compare_runtimes)
        ++ (diff_map old.tools current.tools "tool" (some compare_tools)
            ++ diff_map old.installer_repositories current.installer_repositories
                "installerRepository" none))
