-- ===== src/Engine/Tainted.antt =====
-- Which states are marked, and what the comparator says of them (internal/installer/engine/engine.go).
use mathlib.Core.Option
use tomei.Base.{
  String, ◌≡◌, refl, ap, ◌∙◌, Bool, true, false, ◌&&◌, Option, none, some, [], ◌∷◌, Map, lookup,
  ◌==◌, ◌||◌, if◌then◌else◌, inl, inr, Bool-cases,
}
use tomei.Resource.Version.{version_latest, taint_reason_sync_update, taint_reason_update_requested}
use tomei.Resource.Tool.{ToolState, Tool, taint_tool, is_empty, tool_is_tainted}
use tomei.Reconcile.Comparators.{tool_comparator, spec_version_changed}
use tomei.State.User.{UserState}
use tomei.Engine.Taint.{
  UpdateConfig, taint_matching, is_non_exact, taint_tools, taint_runtimes, apply_update_taints,
}

lookup-taint_matching :
    {S : Type 0} (match : S → Bool) (taint : S → S) (n : String) (m : Map S)
    → lookup n (taint_matching match taint m)
      ≡ Option.map (λ s. if match s then taint s else s) (lookup n m)
unfolding taint_matching
lookup-taint_matching match taint n [] = refl
lookup-taint_matching match taint n ((k, s) ∷ m) = elim (Bool-cases (k == n)) [
  | inl e ↦ rw e refl
  | inr e ↦ rw e (lookup-taint_matching match taint n m)
]

-- A tool state that is tainted with a non-empty reason needs an update, whatever the spec and the rest
-- of the state.
pub tool_comparator_tainted :
    (res : Tool) (st : ToolState) (reason : String)
    → is_empty reason ≡ false
    → (tool_comparator res (taint_tool reason st)).0 ≡ true
unfolding tool_comparator tool_is_tainted taint_tool
tool_comparator_tainted res st reason h =
    elim (Bool-cases
      (spec_version_changed res.spec.version st.version_kind st.version st.spec_version)) [
        | inl e ↦ rw e refl
        | inr e ↦ rw (e, h) refl
      ]

-- The mark of a tool after the three switches, by the version kind of its state.
abbrev pub marked_tool : UpdateConfig → ToolState → ToolState
marked_tool cfg s =
    if cfg.update_tools && ((s.version_kind == "latest") || (s.version_kind == "alias"))
    then record s { taint_reason = "update_requested" }
    else if cfg.sync_mode && (s.version_kind == "latest")
    then record s { taint_reason = "sync_update" }
    else s

map_pointwise :
    {S : Type 0} (f g : S → S) (o : Option S)
    → ((s : S) → f s ≡ g s)
    → Option.map f o ≡ Option.map g o
map_pointwise f g none h = refl
map_pointwise f g (some s) h = ap some (h s)

map_twice :
    {S : Type 0} (f g h : S → S) (o : Option S)
    → ((s : S) → f (g s) ≡ h s)
    → Option.map f (Option.map g o) ≡ Option.map h o
map_twice f g h none e = refl
map_twice f g h (some s) e = ap some (e s)

map_same : {S : Type 0} (h : S → S) (o : Option S) → ((s : S) → s ≡ h s) → o ≡ Option.map h o
map_same h none e = refl
map_same h (some s) e = ap some (e s)

abbrev config : Bool → Bool → Bool → UpdateConfig
config sync tools runtimes = record {
  sync_mode = sync;
  update_tools = tools;
  update_runtimes = runtimes;
}

tools_part :
    (sync tools runtimes : Bool) (st : UserState)
    → (apply_update_taints (config sync tools runtimes) st).tools
      ≡ (apply_update_taints (config sync tools false) st).tools
unfolding apply_update_taints taint_runtimes
tools_part sync tools true st = refl
tools_part sync tools false st = refl

abbrev mark : (String → Bool) → String → ToolState → ToolState
mark match reason s = if match s.version_kind then taint_tool reason s else s

lookup-taint_tools :
    (match : String → Bool) (reason : String) (n : String) (st : UserState)
    → lookup n (taint_tools match reason st).tools
      ≡ Option.map (mark match reason) (lookup n st.tools)
unfolding taint_tools
lookup-taint_tools match reason n st =
    lookup-taint_matching (λ s. match s.version_kind) (taint_tool reason) n st.tools

abbrev is_latest_kind : String → Bool
is_latest_kind vk = vk == version_latest

mark_sync :
    (s : ToolState)
    → mark is_latest_kind taint_reason_sync_update s ≡ marked_tool (config true false false) s
unfolding taint_tool
mark_sync s = refl

mark_update :
    (s : ToolState)
    → mark is_non_exact taint_reason_update_requested s ≡ marked_tool (config false true false) s
unfolding taint_tool is_non_exact
mark_update s = refl

latest_non_exact : (vk : String) → (vk == version_latest) ≡ true → is_non_exact vk ≡ true
unfolding is_non_exact
latest_non_exact vk e = rw e refl

is_non_exact-kinds : (vk : String) → is_non_exact vk ≡ ((vk == "latest") || (vk == "alias"))
unfolding is_non_exact
is_non_exact-kinds vk = refl

mark_twice :
    (s : ToolState)
    → mark is_non_exact taint_reason_update_requested
        (mark is_latest_kind taint_reason_sync_update s)
      ≡ marked_tool (config true true false) s
unfolding taint_tool
mark_twice s = elim (Bool-cases (s.version_kind == version_latest)) [
  | inl e ↦ rw (← is_non_exact-kinds s.version_kind, e, latest_non_exact s.version_kind e) refl
  | inr e ↦ rw (← is_non_exact-kinds s.version_kind, e) refl
]

marked_tools :
    (sync tools : Bool) (st : UserState) (n : String)
    → lookup n (apply_update_taints (config sync tools false) st).tools
      ≡ Option.map (marked_tool (config sync tools false)) (lookup n st.tools)
unfolding apply_update_taints
marked_tools false false st n = map_same (λ s. s) (lookup n st.tools) (λ s. refl)
marked_tools true false st n =
    lookup-taint_tools is_latest_kind taint_reason_sync_update n st
    ∙ map_pointwise (mark is_latest_kind taint_reason_sync_update)
        (marked_tool (config true false false)) (lookup n st.tools) mark_sync
marked_tools false true st n =
    lookup-taint_tools is_non_exact taint_reason_update_requested n st
    ∙ map_pointwise (mark is_non_exact taint_reason_update_requested)
        (marked_tool (config false true false)) (lookup n st.tools) mark_update
marked_tools true true st n =
    lookup-taint_tools is_non_exact taint_reason_update_requested n
      (taint_tools is_latest_kind taint_reason_sync_update st)
    ∙ ap (Option.map (mark is_non_exact taint_reason_update_requested))
        (lookup-taint_tools is_latest_kind taint_reason_sync_update n st)
    ∙ map_twice (mark is_non_exact taint_reason_update_requested)
        (mark is_latest_kind taint_reason_sync_update) (marked_tool (config true true false))
        (lookup n st.tools) mark_twice

-- After the update switches are applied, each tool's entry is the old entry with its taint reason set
-- to `update_requested` where tools are updated and its version kind is `latest` or `alias`, else to
-- `sync_update` where the switch for sync is on and the kind is `latest`, else left as it was; no other
-- field changes, and no entry appears or goes.
pub apply_update_taints_tools :
    (cfg : UpdateConfig) (st : UserState) (n : String)
    → lookup n (apply_update_taints cfg st).tools ≡ Option.map (marked_tool cfg) (lookup n st.tools)
apply_update_taints_tools cfg st n =
    ap (lookup n) (tools_part cfg.sync_mode cfg.update_tools cfg.update_runtimes st)
    ∙ marked_tools cfg.sync_mode cfg.update_tools st n
