-- ===== src/Resource/Expanded.antt =====
-- What `ExpandSets` returns, and when it reports a conflict (internal/resource/expand.go).
use tomei.Base.{
  ◌+◌, ◌≤◌, ◌<◌, String, ◌≡◌, refl, sym, ap, ◌∙◌, subst, true, ◌||◌, none, some, List, [], ◌∷◌,
  ◌++◌, Map, lookup, put, has, has-put, has-of_lookup, has-of_some, count, count-append, elem,
  elem-count, count_of_absent, RangeOrder, if◌then◌else◌, arith, eq_iff, Bool-cases, Option-cases,
  inl, inr, ◌⊎◌,
}
use tomei.Resource.All.{Resource, kind_of, name_of, is_enabled}
use tomei.Resource.Expand.{
  Source, standalone, from_set, Conflict, Expansion, expansion, conflict, resource_key, expand,
  register_names, claim_names, prepend, expand_loop, expand_sets,
}

abbrev pub keys_of : List Resource → List String
keys_of [] = []
keys_of (res ∷ rs) = resource_key res ∷ keys_of rs

keys_of-append :
    (k : String) (xs ys : List Resource)
    → count k (keys_of (xs ++ ys)) ≡ count k (keys_of xs) + count k (keys_of ys)
keys_of-append k [] ys = omega arith
keys_of-append k (x ∷ xs) ys = ground (arith, keys_of-append k xs ys)

-- The names after a set has claimed its own.
claimed : Resource → List Resource → Map Source → Map Source
claimed set [] names = names
claimed set (res ∷ rs) names =
    claimed set rs (put (resource_key res) (from_set (kind_of set) (name_of set)) names)

has-claimed :
    (k : String) (set : Resource) (items : List Resource) (names : Map Source)
    → has k (claimed set items names) ≡ (has k names || elem k (keys_of items))
unfolding claimed
has-claimed k set [] names = ground arith
has-claimed k set (res ∷ rs) names = ground (
  arith,
  has-claimed k set rs (put (resource_key res) (from_set (kind_of set) (name_of set)) names),
  has-put (resource_key res) k (from_set (kind_of set) (name_of set)) names,
  eq_iff (resource_key res) k,
)

expansion_or : {A : Type 0} → A → Expansion A → A
expansion_or d (expansion a) = a
expansion_or d (conflict c) = d

expansion-injective : {A : Type 0} {a b : A} → expansion a ≡ expansion b → a ≡ b
unfolding expansion_or
expansion-injective {A} {a} e = ap (expansion_or a) e

conflict_not_expansion : {A : Type 0} {a : A} {c : Conflict} → ¬ (conflict c ≡ expansion a)
conflict_not_expansion e = cc

-- None of the keys is taken, and none stands twice.
abbrev Free : Map Source → List String → Type 0
Free names ks = (k : String) → (has k names ≡ true → count k ks ≡ 0) × (count k ks ≤ 1)

claimed_before :
    (set : Resource) (items : List Resource) (names names' : Map Source)
    → claim_names set items names ≡ expansion names'
    → (names' ≡ claimed set items names) × Free names (keys_of items)
unfolding claim_names claimed
claimed_before set [] names names' h = (sym (expansion-injective h), λ k. (λ e. refl, omega arith))
claimed_before set (res ∷ rs) names names' h =
    elim (Option-cases (lookup (resource_key res) names)) [
      | inl e ↦
          let (a, b) =
            claimed_before set rs
              (put (resource_key res) (from_set (kind_of set) (name_of set)) names) names'
              (rw (claim_names, e) at h) in
          (
            a,
            λ k. ground (
              arith,
              b k,
              has-put (resource_key res) k (from_set (kind_of set) (name_of set)) names,
              has-of_lookup (resource_key res) names e,
              eq_iff (resource_key res) k,
            ),
          )
      | inr (s, e) ↦ absurd (conflict_not_expansion (rw (claim_names, e) at h))
    ]

claim_names-claimed :
    (set : Resource) (items : List Resource) (names : Map Source)
    → Free names (keys_of items)
    → claim_names set items names ≡ expansion (claimed set items names)
unfolding claim_names claimed
claim_names-claimed set [] names h = refl
claim_names-claimed set (res ∷ rs) names h = elim (Option-cases (lookup (resource_key res) names)) [
  | inl e ↦
      rw (claim_names, e)
        (claim_names-claimed set rs
          (put (resource_key res) (from_set (kind_of set) (name_of set)) names)
          (λ k. ground (
            arith,
            h k,
            has-put (resource_key res) k (from_set (kind_of set) (name_of set)) names,
            eq_iff (resource_key res) k,
          )))
  | inr (s, e) ↦ absurd (
      ground (
        arith,
        h (resource_key res),
        has-of_some (resource_key res) names s e,
        eq_iff (resource_key res) (resource_key res),
      ))
]

expansion_cases :
    {A : Type 0} (x : Expansion A)
    → ((a : A) × (x ≡ expansion a)) ⊎ ((c : Conflict) × (x ≡ conflict c))
expansion_cases (expansion a) = inl (a, refl)
expansion_cases (conflict c) = inr (c, refl)

prepended :
    (xs : List Resource) (x : Expansion (List Resource)) (out : List Resource)
    → prepend xs x ≡ expansion out
    → (ys : List Resource) × (x ≡ expansion ys) × (out ≡ xs ++ ys)
prepended xs (expansion ys) out h = (ys, refl, sym (expansion-injective h))
prepended xs (conflict c) out h = absurd (conflict_not_expansion h)

module _ (r : RangeOrder) where
  -- The expansion without the checks: the enabled resources, each set replaced by its tools.
  unfoldable pub plain : List Resource → List Resource
  unfolding expand is_enabled
  plain [] = []
  plain (res ∷ rs) =
      let rest = plain rs in
      if is_enabled res
      then elim (expand r res) [ none ↦ res ∷ rest | some items ↦ items ++ rest ]
      else rest

  -- The keys of all tools that sets expand to.
  unfoldable pub set_keys : List Resource → List String
  unfolding expand is_enabled
  set_keys [] = []
  set_keys (res ∷ rs) =
      let rest = set_keys rs in
      if is_enabled res
      then elim (expand r res) [ none ↦ rest | some items ↦ keys_of items ++ rest ]
      else rest

  join_keys :
      (set : Resource) (items : List Resource) (names : Map Source) (ks : List String)
      → Free names (keys_of items)
      → Free (claimed set items names) ks
      → Free names (keys_of items ++ ks)
  join_keys set items names ks h k j = ground (
    arith,
    h j,
    k j,
    has-claimed j set items names,
    count-append j (keys_of items) ks,
    count_of_absent j (keys_of items),
  )

  part_keys :
      (set : Resource) (items : List Resource) (names : Map Source) (ks : List String)
      → Free names (keys_of items ++ ks)
      → Free names (keys_of items) × Free (claimed set items names) ks
  part_keys set items names ks h = (
    λ j. ground (arith, h j, count-append j (keys_of items) ks),
    λ j. ground (
      arith,
      h j,
      count-append j (keys_of items) ks,
      has-claimed j set items names,
      elem-count j (keys_of items),
    ),
  )

  loop_sound :
      (rs : List Resource) (names : Map Source) (out : List Resource)
      → expand_loop r rs names ≡ expansion out
      → (out ≡ plain rs) × Free names (set_keys rs)
  unfolding expand_loop plain set_keys
  loop_sound [] names out h = (sym (expansion-injective h), λ k. (λ e. refl, omega arith))
  loop_sound (res ∷ rs) names out h = elim (Bool-cases (is_enabled res)) [
    | inr b ↦ rw b (loop_sound rs names out (rw (expand_loop, b) at h))
    | inl b ↦ elim (Option-cases (expand r res)) [
      | inl e ↦
          let (ys, g, o) =
            prepended (res ∷ []) (expand_loop r rs names) out (rw (expand_loop, b, e) at h) in
          let (a, f) = loop_sound rs names ys g in rw (b, e) (o ∙ ap (λ l. res ∷ l) a, f)
      | inr (items, e) ↦ elim (expansion_cases (claim_names res items names)) [
        | inr (c, d) ↦ absurd (conflict_not_expansion (rw (expand_loop, b, e, d) at h))
        | inl (names', d) ↦
            let (ys, g, o) =
              prepended items (expand_loop r rs names') out (rw (expand_loop, b, e, d) at h) in
            let (a, f) = loop_sound rs names' ys g in
            let (n, free) = claimed_before res items names names' d in
            rw (b, e)
              (
                o ∙ ap (λ l. items ++ l) a,
                join_keys res items names (set_keys rs) free
                    (subst (λ m. Free m (set_keys rs)) n f),
              )
      ]
    ]
  ]

  loop_complete :
      (rs : List Resource) (names : Map Source)
      → Free names (set_keys rs)
      → expand_loop r rs names ≡ expansion (plain rs)
  unfolding expand_loop plain set_keys
  loop_complete [] names h = refl
  loop_complete (res ∷ rs) names h = elim (Bool-cases (is_enabled res)) [
    | inr b ↦ rw (expand_loop, b) (loop_complete rs names (rw (set_keys, b) at h))
    | inl b ↦ elim (Option-cases (expand r res)) [
      | inl e ↦
          rw (expand_loop, b, e)
            (ap (prepend (res ∷ [])) (loop_complete rs names (rw (set_keys, b, e) at h)))
      | inr (items, e) ↦
          let (free, rest) = part_keys res items names (set_keys rs) (rw (set_keys, b, e) at h) in
          rw (expand_loop, b, e, claim_names-claimed res items names free)
            (ap (prepend items) (loop_complete rs (claimed res items names) rest))
    ]
  ]

  -- The keys of the enabled resources that are no sets.
  unfoldable pub own_keys : List Resource → List String
  unfolding expand is_enabled
  own_keys [] = []
  own_keys (res ∷ rs) =
      let rest = own_keys rs in
      elim (expand r res) [
        | none ↦ if is_enabled res then resource_key res ∷ rest else rest
        | some items ↦ rest
      ]

  has-register_names :
      (k : String) (rs : List Resource) (names : Map Source)
      → has k (register_names r rs names) ≡ (has k names || elem k (own_keys rs))
  unfolding register_names own_keys
  has-register_names k [] names = ground arith
  has-register_names k (res ∷ rs) names = elim (Option-cases (expand r res)) [
    | inr (items, e) ↦ rw (register_names, own_keys, e) (has-register_names k rs names)
    | inl e ↦ elim (Bool-cases (is_enabled res)) [
      | inr b ↦ rw (register_names, own_keys, e, b) (has-register_names k rs names)
      | inl b ↦
          let names' = put (resource_key res) (standalone (kind_of res)) names in
          rw (register_names, own_keys, e, b)
            (ground (
              arith,
              has-register_names k rs names',
              has-put (resource_key res) k (standalone (kind_of res)) names,
              eq_iff (resource_key res) k,
            ))
    ]
  ]

  -- Every key that a set expands to stands once among those, and is none of the other resources.
  abbrev pub NoConflict : List Resource → Type 0
  NoConflict rs =
      (k : String)
      → (count k (set_keys rs) ≤ 1) × (0 < count k (set_keys rs) → count k (own_keys rs) ≡ 0)

  -- If `ExpandSets` returns resources, whatever the map order, they are the enabled ones in their order,
  -- each set replaced by its enabled tools; each key that a set expands to stands once among those of
  -- sets, and is not that of an enabled resource of its own.
  pub expand_sets_lem :
      (rs out : List Resource) → expand_sets r rs ≡ expansion out → (out ≡ plain rs) × NoConflict rs
  unfolding expand_sets
  expand_sets_lem rs out h =
      let (a, f) = loop_sound rs (register_names r rs []) out h in
      (a, λ k. ground (arith, f k, has-register_names k rs [], count_of_absent k (own_keys rs)))

  -- If no two sets expand to one key, nor one set twice, and no set to that of an enabled resource of its
  -- own, then `ExpandSets` returns resources: there is no other conflict.
  pub expand_sets_succeeds :
      (rs : List Resource) → NoConflict rs → expand_sets r rs ≡ expansion (plain rs)
  unfolding expand_sets
  expand_sets_succeeds rs h =
      loop_complete rs (register_names r rs [])
        (λ k. ground (arith, h k, has-register_names k rs [], elem-count k (own_keys rs)))
