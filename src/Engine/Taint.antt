-- ===== src/Engine/Taint.antt =====
-- Marking states for reinstallation (applyUpdateTaints and taintDependentTools of
-- internal/installer/engine/engine.go). The states are shared pointers: a mark made through the
-- snapshot is a mark in the cache, which is the same object.
use tomei.Base.{
  String, Bool, false, not, ◌||◌, none, some, [], ◌∷◌, Map, Set, has, lookup, RangeOrder, ◌==◌,
  if◌then◌else◌,
}
use tomei.Resource.Version.{
  version_latest, version_alias, taint_reason_sync_update, taint_reason_update_requested,
  taint_reason_runtime_upgraded,
}
use tomei.Resource.Tool.{ToolState, taint_tool, is_empty}
use tomei.Resource.Other.{RuntimeState, taint_runtime}
use tomei.State.User.{UserState}
use tomei.Execute.Cache.{StateCache, cached_store, tool_map_accessor}

pub record UpdateConfig : Type 0 where
  pub sync_mode : Bool
  pub update_tools : Bool
  pub update_runtimes : Bool

-- `taintMatching`. Each entry is changed by itself, so the order of the loop has no effect.
unfoldable pub taint_matching : {S : Type 0} → (S → Bool) → (S → S) → Map S → Map S
taint_matching match taint [] = []
taint_matching match taint ((name, s) ∷ states) =
    (name, if match s then taint s else s) ∷ taint_matching match taint states

unfoldable pub is_non_exact : String → Bool
is_non_exact vk = (vk == version_latest) || (vk == version_alias)

unfoldable pub taint_tools : (String → Bool) → String → UserState → UserState
unfolding taint_matching taint_tool
taint_tools match reason st = record st {
  tools = taint_matching (λ s. match s.version_kind) (taint_tool reason) st.tools;
}

unfoldable pub taint_runtimes : (String → Bool) → String → UserState → UserState
unfolding taint_matching taint_runtime
taint_runtimes match reason st = record st {
  runtimes = taint_matching (λ s. match s.version_kind) (taint_runtime reason) st.runtimes;
}

unfoldable pub apply_update_taints : UpdateConfig → UserState → UserState
unfolding is_non_exact taint_tools taint_runtimes
apply_update_taints cfg st =
    let st1 =
      if cfg.sync_mode
      then taint_tools (λ vk. vk == version_latest) taint_reason_sync_update st
      else st in
    let st2 =
      if cfg.update_tools
      then taint_tools is_non_exact taint_reason_update_requested st1
      else st1 in
    if cfg.update_runtimes
    then taint_runtimes is_non_exact taint_reason_update_requested st2
    else st2

-- Whether `taintDependentTools` marks a tool.
unfoldable pub depends_on_updated : Map RuntimeState → Set → ToolState → Bool
depends_on_updated runtimes updated s =
    if is_empty s.runtime_ref || not (has s.runtime_ref updated)
    then false
    else elim (lookup s.runtime_ref runtimes) [ none ↦ false | some rs ↦ rs.taint_on_upgrade ]

-- The loop over the tools, as they are met.
unfoldable pub taint_dependents : Map RuntimeState → Set → Map ToolState → StateCache → StateCache
unfolding depends_on_updated taint_tool cached_store tool_map_accessor
taint_dependents runtimes updated [] c = c
taint_dependents runtimes updated ((name, s) ∷ states) c =
    taint_dependents runtimes updated states (
      if depends_on_updated runtimes updated s
      then ((cached_store tool_map_accessor).save name (taint_tool taint_reason_runtime_upgraded s)
          c).0
      else c)

-- `taintDependentTools`, with the cached state as its snapshot.
unfoldable pub taint_dependent_tools : RangeOrder → Set → StateCache → StateCache
unfolding taint_dependents
taint_dependent_tools r updated c =
    taint_dependents c.cache.runtimes updated (r.range ToolState c.cache.tools) c
