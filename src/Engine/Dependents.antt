-- ===== src/Engine/Dependents.antt =====
-- Which tools are marked after their runtimes were updated (taintDependentTools of
-- internal/installer/engine/engine.go).
use mathlib.Core.Option
use tomei.Base.{
  ◌≤◌, String, ◌≡◌, refl, ap, ◌∙◌, Bool, true, false, Option, none, some, [], ◌∷◌, Map, Set, lookup,
  put, keys, count, RangeOrder, arith, ◌==◌, eq_iff, if◌then◌else◌, not, ◌||◌, ◌&&◌, has,
  lookup-put, lookup_head, count_tail, inl, inr, Bool-cases, subst,
}
use tomei.Resource.Version.{taint_reason_runtime_upgraded}
use tomei.Resource.Tool.{ToolState, taint_tool}
use tomei.Resource.Other.{RuntimeState}
use tomei.Execute.Cache.{StateCache, cached_store, tool_map_accessor}
use tomei.Engine.Taint.{depends_on_updated, taint_dependents, taint_dependent_tools}

-- Whether a runtime's recorded state asks for its tools to be installed again.
abbrev asks_reinstall : Option RuntimeState → Bool
asks_reinstall none = false
asks_reinstall (some rs) = rs.taint_on_upgrade

-- A tool after its runtimes were updated: marked where it names a runtime, that runtime was updated, and
-- the runtime's state asks for it.
abbrev pub marked_dependent : Map RuntimeState → Set → ToolState → ToolState
marked_dependent runtimes updated s =
    if not (s.runtime_ref == "")
      && (has s.runtime_ref updated && asks_reinstall (lookup s.runtime_ref runtimes))
    then record s { taint_reason = "runtime_upgraded" }
    else s

depends_on_updated-marked :
    (runtimes : Map RuntimeState) (updated : Set) (s : ToolState)
    → (if depends_on_updated runtimes updated s
        then record s { taint_reason = taint_reason_runtime_upgraded }
        else s)
      ≡ marked_dependent runtimes updated s
unfolding depends_on_updated
depends_on_updated-marked runtimes updated s =
    cases (s.runtime_ref == "") (has s.runtime_ref updated) (lookup s.runtime_ref runtimes)
  where
    cases :
        (unnamed new : Bool) (o : Option RuntimeState)
        → (if (if unnamed || not new
              then false
              else elim o [ none ↦ false | some rs ↦ rs.taint_on_upgrade ])
            then record s { taint_reason = taint_reason_runtime_upgraded }
            else s)
          ≡ (if not unnamed && (new && asks_reinstall o)
              then record s { taint_reason = "runtime_upgraded" }
              else s)
    cases true new o = refl
    cases false false o = refl
    cases false true none = refl
    cases false true (some rs) = refl

abbrev pick_mark : Map RuntimeState → Set → Option ToolState → Option ToolState → Option ToolState
pick_mark runtimes updated none other = other
pick_mark runtimes updated (some s) other =
    if depends_on_updated runtimes updated s
    then some (record s { taint_reason = taint_reason_runtime_upgraded })
    else other

-- A key that stands at the head of a map with distinct keys is not in the rest.
head_gone :
    {V : Type 0} (k n : String) (m : Map V)
    → (k == n) ≡ true
    → count k (k ∷ keys m) ≤ 1
    → lookup n m ≡ none
head_gone k n m e h = subst (λ x. lookup x m ≡ none) ((eq_iff k n).0 e) (lookup_head k m h)

marked_head :
    (runtimes : Map RuntimeState) (updated : Set) (k n : String) (s : ToolState)
    (states tools : Map ToolState)
    → depends_on_updated runtimes updated s ≡ true
    → count k (k ∷ keys states) ≤ 1
    → pick_mark runtimes updated
        (lookup n states)
        (lookup n (put k (record s { taint_reason = taint_reason_runtime_upgraded }) tools))
      ≡ pick_mark runtimes updated (lookup n ((k, s) ∷ states)) (lookup n tools)
marked_head runtimes updated k n s states tools d h = elim (Bool-cases (k == n)) [
  | inl e ↦
      rw
        (
          lookup-put k n (record s { taint_reason = taint_reason_runtime_upgraded }) tools,
          head_gone k n states e h,
          e,
          d,
        )
        refl
  | inr e ↦
      rw (lookup-put k n (record s { taint_reason = taint_reason_runtime_upgraded }) tools, e) refl
]

kept_head :
    (runtimes : Map RuntimeState) (updated : Set) (k n : String) (s : ToolState)
    (states tools : Map ToolState)
    → depends_on_updated runtimes updated s ≡ false
    → count k (k ∷ keys states) ≤ 1
    → pick_mark runtimes updated (lookup n states) (lookup n tools)
      ≡ pick_mark runtimes updated (lookup n ((k, s) ∷ states)) (lookup n tools)
kept_head runtimes updated k n s states tools d h = elim (Bool-cases (k == n)) [
  | inl e ↦ rw (head_gone k n states e h, e, d) refl
  | inr e ↦ rw e refl
]

lookup-taint_dependents :
    (runtimes : Map RuntimeState) (updated : Set) (states : Map ToolState) (c : StateCache)
    (n : String)
    → ((x : String) → count x (keys states) ≤ 1)
    → lookup n (taint_dependents runtimes updated states c).cache.tools
      ≡ pick_mark runtimes updated (lookup n states) (lookup n c.cache.tools)
unfolding taint_dependents taint_tool cached_store tool_map_accessor
lookup-taint_dependents runtimes updated [] c n unique = refl
lookup-taint_dependents runtimes updated ((k, s) ∷ states) c n unique =
    let next : Bool → StateCache = λ b.
      if b
      then ((cached_store tool_map_accessor).save k (taint_tool taint_reason_runtime_upgraded s)
          c).0
      else c in
    let after : Bool → Option ToolState =
      λ b. lookup n (taint_dependents runtimes updated states (next b)).cache.tools in
    let rest : (b : Bool)
        → after b ≡ pick_mark runtimes updated (lookup n states) (lookup n (next b).cache.tools) =
      λ b.
        lookup-taint_dependents runtimes updated states (next b) n
          (λ x. count_tail x k (keys states) (unique x)) in
    elim (Bool-cases (depends_on_updated runtimes updated s)) [
      | inl d ↦
          ap after d
          ∙ rest true
          ∙ marked_head runtimes updated k n s states c.cache.tools d (unique k)
      | inr d ↦
          ap after d
          ∙ rest false
          ∙ kept_head runtimes updated k n s states c.cache.tools d (unique k)
    ]

pick_same :
    (runtimes : Map RuntimeState) (updated : Set) (o : Option ToolState)
    → pick_mark runtimes updated o o ≡ Option.map (marked_dependent runtimes updated) o
pick_same runtimes updated none = refl
pick_same runtimes updated (some s) =
    if_some _ _ (depends_on_updated runtimes updated s)
    ∙ ap (λ x. some x) (depends_on_updated-marked runtimes updated s)
  where
    if_some :
        (x y : ToolState) (b : Bool) → (if b then some x else some y) ≡ some (if b then x else y)
    if_some x y true = refl
    if_some x y false = refl

-- On a cached state whose tools have distinct names, and for any order of the loop, exactly the tools
-- whose runtime is among the updated ones, is in the state and has `taintOnUpgrade` get the reason
-- `runtime_upgraded`; every other entry is as it was.
pub taint_dependent_tools_lem :
    (r : RangeOrder) (updated : Set) (c : StateCache) (n : String)
    → ((x : String) → count x (keys c.cache.tools) ≤ 1)
    → lookup n (taint_dependent_tools r updated c).cache.tools
      ≡ Option.map (marked_dependent c.cache.runtimes updated) (lookup n c.cache.tools)
unfolding taint_dependent_tools
taint_dependent_tools_lem r updated c n unique =
    lookup-taint_dependents c.cache.runtimes updated (r.range ToolState c.cache.tools) c n
      (λ x. omega (arith, r.count_range ToolState c.cache.tools x, unique x))
    ∙ ap (λ o. pick_mark c.cache.runtimes updated o (lookup n c.cache.tools))
        (r.lookup_range ToolState c.cache.tools n)
    ∙ pick_same c.cache.runtimes updated (lookup n c.cache.tools)
