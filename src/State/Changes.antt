-- ===== src/State/Changes.antt =====
-- A difference lists each changed name once, and nothing else (internal/state/diff.go).
use tomei.Base.{
  String, ◌≡◌, refl, ap, ◌∙◌, ◌||◌, Option, none, some, List, [], ◌∷◌, ◌++◌, Map, lookup, has,
  count, arith, ◌==◌, eq_iff, if◌then◌else◌, inl, inr, Bool-cases, List-cases, eq_refl,
}
use tomei.Resource.Tool.{ToolState}
use tomei.Resource.Other.{RuntimeState}
use tomei.State.User.{UserState}
use tomei.State.Keys.{count-collect_keys}
use tomei.State.Entry.{is_there, has-is_there, change_of, diff_entry-change_of}
use tomei.State.Diff.{
  ResourceDiff, Compared, collect_keys, modified_entry, diff_entry, diff_names, diff_map,
  diff_registry, diff_user_states, compare_tools, compare_runtimes,
}

-- The changes of one name.
pub changes_of : String → List ResourceDiff → List ResourceDiff
changes_of n [] = []
changes_of n (c ∷ cs) = let rest = changes_of n cs in if c.name == n then c ∷ rest else rest

changes_of-append :
    (n : String) (a b : List ResourceDiff)
    → changes_of n (a ++ b) ≡ changes_of n a ++ changes_of n b
unfolding changes_of
changes_of-append n [] b = refl
changes_of-append n (c ∷ a) b = elim (Bool-cases (c.name == n)) [
  | inl e ↦ rw e (ap (◌∷◌ c) (changes_of-append n a b))
  | inr e ↦ rw e (changes_of-append n a b)
]

append_nil : (xs : List ResourceDiff) → xs ++ [] ≡ xs
append_nil [] = refl
append_nil (x ∷ xs) = ap (◌∷◌ x) (append_nil xs)

changes-modified :
    (kind name n : String) (x : Compared)
    → changes_of n (modified_entry kind name x)
      ≡ (if name == n then modified_entry kind name x else [])
unfolding changes_of modified_entry
changes-modified kind name n x = elim (List-cases x.details) [
  | inl e ↦ rw e (ground arith)
  | inr p ↦ rw (p.2) refl
]

module _ {V : Type 0} (kind : String) where
  changes-diff_entry :
      (compare : Option (Option V → Option V → Compared)) (n name : String) (o c : Option V)
      → changes_of n (diff_entry kind compare name o c)
        ≡ (if name == n then diff_entry kind compare name o c else [])
  unfolding changes_of diff_entry
  changes-diff_entry none n name none none = ground arith
  changes-diff_entry none n name none (some c) = refl
  changes-diff_entry none n name (some o) none = refl
  changes-diff_entry none n name (some o) (some c) = ground arith
  changes-diff_entry (some f) n name none (some c) = refl
  changes-diff_entry (some f) n name (some o) none = refl
  changes-diff_entry (some f) n name none none = changes-modified kind name n (f none none)
  changes-diff_entry (some f) n name (some o) (some c) =
      changes-modified kind name n (f (some o) (some c))

  changes_absent :
      (compare : Option (Option V → Option V → Compared)) (old cur : Map V) (n : String)
      (names : List String)
      → count n names ≡ 0
      → changes_of n (diff_names old cur kind compare names) ≡ []
  unfolding changes_of diff_names
  changes_absent compare old cur n [] h = refl
  changes_absent compare old cur n (x ∷ names) h = elim (Bool-cases (x == n)) [
    | inl e ↦ absurd (ground arith)
    | inr e ↦
        rw
          (
            changes_of-append n (diff_entry kind compare x (lookup x old) (lookup x cur))
                (diff_names old cur kind compare names),
            changes-diff_entry compare n x (lookup x old) (lookup x cur),
            e,
          )
          (changes_absent compare old cur n names (rw e at h))
  ]

  changes_once :
      (compare : Option (Option V → Option V → Compared)) (old cur : Map V) (n : String)
      (names : List String)
      → count n names ≡ 1
      → changes_of n (diff_names old cur kind compare names)
        ≡ diff_entry kind compare n (lookup n old) (lookup n cur)
  unfolding changes_of diff_names
  changes_once compare old cur n [] h = absurd (ground arith)
  changes_once compare old cur n (x ∷ names) h = elim (Bool-cases (x == n)) [
    | inl e ↦
        rw
          (
            changes_of-append n (diff_entry kind compare x (lookup x old) (lookup x cur))
                (diff_names old cur kind compare names),
            changes-diff_entry compare n x (lookup x old) (lookup x cur),
            e,
            changes_absent compare old cur n names (ground arith),
            append_nil (diff_entry kind compare x (lookup x old) (lookup x cur)),
          )
          (ap (λ y. diff_entry kind compare y (lookup y old) (lookup y cur)) ((eq_iff x n).0 e))
    | inr e ↦
        rw
          (
            changes_of-append n (diff_entry kind compare x (lookup x old) (lookup x cur))
                (diff_names old cur kind compare names),
            changes-diff_entry compare n x (lookup x old) (lookup x cur),
            e,
          )
          (changes_once compare old cur n names (rw e at h))
  ]

  diff_map-entry :
      (compare : Option (Option V → Option V → Compared)) (old cur : Map V) (n : String)
      → changes_of n (diff_map old cur kind compare) ≡ (
          if is_there (lookup n old) || is_there (lookup n cur)
          then diff_entry kind compare n (lookup n old) (lookup n cur)
          else [])
  unfolding diff_map
  diff_map-entry compare old cur n =
      rw (← has-is_there n old, ← has-is_there n cur)
        (elim (Bool-cases (has n old || has n cur)) [
          | inl e ↦ rw e (
              changes_once compare old cur n (collect_keys old cur)
                (count-collect_keys n old cur ∙ rw e))
          | inr e ↦ rw e (
              changes_absent compare old cur n (collect_keys old cur)
                (count-collect_keys n old cur ∙ rw e))
        ])

  -- Which changes the difference of two maps lists under a name: one `added` where only the current map
  -- has the name, one `removed` where only the old map has it, one `modified` with its details where both
  -- have it and the comparison finds a detail, and none otherwise; the versions are those the comparison
  -- gives for the two entries, and empty without a comparison.
  pub diff_map_lem :
      (compare : Option (Option V → Option V → Compared)) (old cur : Map V) (n : String)
      → changes_of n (diff_map old cur kind compare)
        ≡ change_of kind compare n (lookup n old) (lookup n cur)
  diff_map_lem compare old cur n =
      diff_map-entry compare old cur n
      ∙ diff_entry-change_of kind compare n (lookup n old) (lookup n cur)

  diff_names_same :
      (compare : Option (Option V → Option V → Compared)) (m : Map V) (names : List String)
      → ((n : String) (o : Option V) → diff_entry kind compare n o o ≡ [])
      → diff_names m m kind compare names ≡ []
  unfolding diff_names
  diff_names_same compare m [] h = refl
  diff_names_same compare m (x ∷ names) h =
      rw (h x (lookup x m)) (diff_names_same compare m names h)

no_repository_changes :
    {V : Type 0} (kind n : String) (o : Option V) → diff_entry kind none n o o ≡ []
unfolding diff_entry
no_repository_changes kind n none = refl
no_repository_changes kind n (some v) = refl

no_tool_changes :
    (n : String) (o : Option ToolState) → diff_entry "tool" (some compare_tools) n o o ≡ []
unfolding diff_entry compare_tools modified_entry
no_tool_changes n none = refl
no_tool_changes n (some v) = rw (eq_refl, eq_refl, eq_refl)

no_runtime_changes :
    (n : String) (o : Option RuntimeState) → diff_entry "runtime" (some compare_runtimes) n o o ≡ []
unfolding diff_entry compare_runtimes modified_entry
no_runtime_changes n none = refl
no_runtime_changes n (some v) = rw (eq_refl, eq_refl)

no_registry_changes : (s : UserState) → diff_registry s s ≡ []
unfolding diff_registry
no_registry_changes s = rw eq_refl

-- A state has no difference from itself.
pub diff_user_states_same : (s : UserState) → diff_user_states s s ≡ []
unfolding diff_user_states diff_map
diff_user_states_same s = rw (
  no_registry_changes s,
  diff_names_same "runtime" (some compare_runtimes) s.runtimes (collect_keys s.runtimes s.runtimes)
      no_runtime_changes,
  diff_names_same "tool" (some compare_tools) s.tools (collect_keys s.tools s.tools)
      no_tool_changes,
  diff_names_same "installerRepository" none s.installer_repositories
      (collect_keys s.installer_repositories s.installer_repositories)
      (no_repository_changes "installerRepository"),
)
