-- ===== src/Engine/TaintKeys.antt =====
-- Marking tools and flushing keep the names of the tools.
use tomei.Base.{
  ◌≤◌, String, ◌≡◌, refl, Bool, true, false, Option, [], ◌∷◌, Map, Set, put, keys, count,
  RangeOrder, arith, eq_iff, if◌then◌else◌, Bool-cases, Option-cases, inl, inr, count-keys-put,
  count_of_missing,
}
use tomei.Resource.Version.{taint_reason_runtime_upgraded}
use tomei.Resource.Tool.{ToolState, taint_tool}
use tomei.Resource.Other.{RuntimeState}
use tomei.Execute.Cache.{StateCache, flush, cached_store, tool_map_accessor}
use tomei.Engine.Taint.{depends_on_updated, taint_dependents, taint_dependent_tools}

pub flush_cache : (error : Option String) (c : StateCache) → (flush error c).0.cache ≡ c.cache
unfolding flush
flush_cache error c = elim (Bool-cases c.dirty) [
  | inl d ↦ elim (Option-cases error) [ inl e ↦ rw (d, e) refl | inr (m, e) ↦ rw (d, e) refl ]
  | inr d ↦ rw d refl
]

put_unique :
    {V : Type 0} (k : String) (v : V) (m : Map V)
    → ((x : String) → count x (keys m) ≤ 1)
    → (x : String) → count x (keys (put k v m)) ≤ 1
put_unique k v m h x = ground (arith, count-keys-put k x v m, h x, eq_iff k x, count_of_missing k m)

taint_dependents_unique :
    (runtimes : Map RuntimeState) (updated : Set) (states : Map ToolState) (c : StateCache)
    → ((x : String) → count x (keys c.cache.tools) ≤ 1)
    → (x : String) → count x (keys (taint_dependents runtimes updated states c).cache.tools) ≤ 1
unfolding taint_dependents cached_store tool_map_accessor
taint_dependents_unique runtimes updated [] c h = h
taint_dependents_unique runtimes updated ((k, s) ∷ states) c h =
    taint_dependents_unique runtimes updated states
      (if depends_on_updated runtimes updated s
        then ((cached_store tool_map_accessor).save k (taint_tool taint_reason_runtime_upgraded s)
            c).0
        else c)
      (saved (depends_on_updated runtimes updated s))
  where
    saved :
        (b : Bool) (x : String)
        → count x (
            keys
              (if b
                then ((cached_store tool_map_accessor).save k
                    (taint_tool taint_reason_runtime_upgraded s)
                    c).0
                else c).cache.tools)
          ≤ 1
    saved true x = put_unique k (taint_tool taint_reason_runtime_upgraded s) c.cache.tools h x
    saved false x = h x

pub taint_dependent_tools_unique :
    (r : RangeOrder) (updated : Set) (c : StateCache)
    → ((x : String) → count x (keys c.cache.tools) ≤ 1)
    → (x : String) → count x (keys (taint_dependent_tools r updated c).cache.tools) ≤ 1
unfolding taint_dependent_tools
taint_dependent_tools_unique r updated c h =
    taint_dependents_unique c.cache.runtimes updated (r.range ToolState c.cache.tools) c h
