-- ===== src/Graph/Release.antt =====
-- One finished node: the reverse edges give its dependents, and their degrees fall by one each.
use tomei.Base.{
  ℕ, zero, suc, ◌+◌, ◌-◌, ◌≤◌, ◌<◌, String, ◌≡◌, refl, List, [], ◌∷◌, ◌++◌, Map, get_or, put, keys,
  Set, has, get_or-put, count, count-append, eqb, RangeOrder, ℤ, pos, pred_ℤ, is_zero, arith, ◌==◌,
  eq_iff, if◌then◌else◌, ◌∙◌, ap, get_or_missing, has-count, Bool-cases, inl, inr, subst,
  String-cases,
}
use tomei.Graph.Kahn.{add_reverse, build_reverse, release}

count-add_reverse :
    (from v d : String) (ds : List String) (rev : Map (List String))
    → count v (get_or [] d (add_reverse from ds rev))
      ≡ count v (get_or [] d rev) + (if from == v then count d ds else 0)
unfolding add_reverse
count-add_reverse from v d [] rev = ground arith
count-add_reverse from v d (e ∷ ds) rev = ground (
  arith,
  count-add_reverse from v d ds (put e (get_or [] e rev ++ from ∷ []) rev),
  get_or-put [] e d (get_or [] e rev ++ from ∷ []) rev,
  count-append v (get_or [] e rev) (from ∷ []),
  eq_iff e d,
)

missing-edges : (v : String) (edges : Map Set) → count v (keys edges) ≤ 0 → get_or [] v edges ≡ []
missing-edges v edges h = elim (Bool-cases (has v edges)) [
  | inl there ↦ absurd (omega (arith, has-count v edges there))
  | inr missing ↦ get_or_missing [] v edges missing
]

module _ (r : RangeOrder) where
  pub count-build_reverse :
      (v d : String) (edges : Map Set) (rev : Map (List String))
      → ((x : String) → count x (keys edges) ≤ 1)
      → count v (get_or [] d (build_reverse r edges rev))
        ≡ count v (get_or [] d rev) + count d (keys (get_or [] v edges))
  unfolding build_reverse
  count-build_reverse v d [] rev unique = omega arith
  count-build_reverse v d ((from, deps) ∷ edges) rev unique =
      let rest =
        count-build_reverse v d edges (add_reverse from (keys (r.range _ deps)) rev)
          (λ x. tail_unique x (unique x)) in
      let here = count-add_reverse from v d (keys (r.range _ deps)) rev in
      elim (String-cases from v) [
        | inl (same, test) ↦
            let none_left = missing-edges v edges (
              omega (
                arith,
                head_unique v (subst (λ f. count v (f ∷ keys edges) ≤ 1) same (unique v)),
              )) in
            ground
              (arith, rest, ap (λ (e : Set). count d (keys e)) none_left, r.count_range _ deps d)
        | inr (other, test) ↦ ground arith
      ]
    where
      tail_unique : (x : String) → count x (from ∷ keys edges) ≤ 1 → count x (keys edges) ≤ 1
      tail_unique x h = ground arith

      head_unique : (x : String) → count x (x ∷ keys edges) ≤ 1 → count x (keys edges) ≤ 0
      head_unique x h = ground (arith, eq_iff x x)

-- 1 if the degree of a dependent reaches 0.
abbrev pub hit : ℕ → ℕ → ℕ
hit times degree = if eqb times 0 then 0 else if eqb degree times then 1 else 0

-- The degrees after one step down at `w`.
abbrev stepped : String → (String → ℕ) → String → ℕ
stepped w a v = if w == v then a v - 1 else a v

positive : (w : String) (ws : List String) (n : ℕ) → count w (w ∷ ws) ≤ n → 0 < n
positive w ws n h = ground (arith, eq_iff w w)

pred_pos : (n : ℕ) → 0 < n → pred_ℤ (pos n) ≡ pos (n - 1)
pred_pos zero h = elim h [ ]
pred_pos (suc n) h = ap pos (omega arith)

-- The next queue gets `w` exactly when its degree falls to 0.
count_next :
    (w v : String) (next : List String) (degree : ℤ) (n : ℕ)
    → degree ≡ pos n
    → 0 < n
    → count v (if is_zero (pred_ℤ degree) then next ++ w ∷ [] else next)
      ≡ count v next + (if w == v then (if eqb n 1 then 1 else 0) else 0)
count_next w v next degree zero e h = elim h [ ]
count_next w v next degree (suc zero) e h = rw e (ground (arith, count-append v next (w ∷ [])))
count_next w v next degree (suc (suc n)) e h = rw e (ground arith)

pub release_lem :
    (ws : List String) (degrees : Map ℤ) (next : List String) (a : String → ℕ)
    → ((v : String) → get_or (pos 0) v degrees ≡ pos (a v))
    → ((v : String) → count v ws ≤ a v)
    → ((v : String) → get_or (pos 0) v (release ws degrees next).0 ≡ pos (a v - count v ws))
      × ((v : String) → count v (release ws degrees next).1 ≡ count v next + hit (count v ws) (a v))
unfolding release
release_lem [] degrees next a h le = (λ v. h v ∙ ap pos (omega arith), λ v. ground arith)
release_lem (w ∷ ws) degrees next a h le =
    let degree = pred_ℤ (get_or (pos 0) w degrees) in
    let next' = if is_zero degree then next ++ w ∷ [] else next in
    let (falls, hits) =
      release_lem ws (put w degree degrees) next' (stepped w a)
        (λ v. stepped_degree v (h v) (get_or-put (pos 0) w v degree degrees))
        (λ v. stepped_le v (le v)) in
    (
      λ v. falls v ∙ ap pos (stepped_sub v),
      λ v.
          hits v
          ∙ stepped_hits v
              (count_next w v next (get_or (pos 0) w degrees) (a w) (h w)
                (positive w ws (a w) (le w)))
              (le v),
    )
  where
    stepped_degree :
        (v : String)
        → get_or (pos 0) v degrees ≡ pos (a v)
        → get_or (pos 0) v (put w (pred_ℤ (get_or (pos 0) w degrees)) degrees)
          ≡ (if w == v then pred_ℤ (get_or (pos 0) w degrees) else get_or (pos 0) v degrees)
        → get_or (pos 0) v (put w (pred_ℤ (get_or (pos 0) w degrees)) degrees) ≡ pos (stepped w a v)
    stepped_degree v hv e = elim (String-cases w v) [
      | inl (same, test) ↦
          rw (e, test, h w, pred_pos (a w) (positive w ws (a w) (le w)))
            (subst (λ x. pos (a w - 1) ≡ pos (a x - 1)) same refl)
      | inr (other, test) ↦ rw (e, test) hv
    ]

    stepped_hits :
        (v : String)
        → count v (if is_zero (pred_ℤ (get_or (pos 0) w degrees)) then next ++ w ∷ [] else next)
          ≡ count v next + (if w == v then (if eqb (a w) 1 then 1 else 0) else 0)
        → count v (w ∷ ws) ≤ a v
        → count v (if is_zero (pred_ℤ (get_or (pos 0) w degrees)) then next ++ w ∷ [] else next)
            + hit (count v ws) (stepped w a v)
          ≡ count v next + hit (count v (w ∷ ws)) (a v)
    stepped_hits v e k = elim (String-cases w v) [
      | inl (same, test) ↦ let aw : a w ≡ a v = ap a same in rw (e, test) (ground arith)
      | inr (other, test) ↦ rw (e, test) (omega arith)
    ]

    stepped_sub : (v : String) → stepped w a v - count v ws ≡ a v - count v (w ∷ ws)
    stepped_sub v = ground arith

    stepped_le : (v : String) → count v (w ∷ ws) ≤ a v → count v ws ≤ stepped w a v
    stepped_le v k = ground arith
