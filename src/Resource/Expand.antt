-- ===== src/Resource/Expand.antt =====
-- `ExpandSets` (internal/resource/expand.go). `ToolSet` is the only type that can be expanded, and its
-- `Expand` never fails. A conflict is the data of its message.
use Prim.Native.String.{◌++◌ as concat}
use tomei.Base.{
  String, true, false, Option, none, some, List, [], ◌∷◌, ◌++◌, Map, lookup, put, RangeOrder,
  if◌then◌else◌,
}
use tomei.Resource.Kind.{Kind, kind_name}
use tomei.Resource.Tool.{Tool, ToolItem, expand_items}
use tomei.Resource.All.{Resource, tool, tool_set, kind_of, name_of, is_enabled}

-- Where a name comes from.
pub data Source : Type 0 where
  standalone : Kind → Source
  from_set : Kind → String → Source

pub record Conflict : Type 0 where
  pub set : Resource
  pub expanded : Resource
  pub source : Source

pub data Expansion (A : Type 0) : Type 0 where
  expansion : A → Expansion A
  conflict : Conflict → Expansion A

-- `string(res.Kind()) + "/" + res.Name()`
unfoldable pub resource_key : Resource → String
unfolding kind_name kind_of name_of
resource_key res = concat (kind_name (kind_of res)) (concat "/" (name_of res))

abbrev tools_of : List Tool → List Resource
tools_of [] = []
tools_of (t ∷ ts) = tool t ∷ tools_of ts

-- The loop over what a set expands to.
unfoldable pub claim_names : Resource → List Resource → Map Source → Expansion (Map Source)
unfolding resource_key kind_of name_of
claim_names set [] names = expansion names
claim_names set (res ∷ rs) names = elim (lookup (resource_key res) names) [
  | some source ↦ conflict (record { set = set; expanded = res; source = source })
  | none ↦ claim_names set rs (put (resource_key res) (from_set (kind_of set) (name_of set)) names)
]

abbrev pub prepend : List Resource → Expansion (List Resource) → Expansion (List Resource)
prepend xs (expansion ys) = expansion (xs ++ ys)
prepend xs (conflict c) = conflict c

module _ (r : RangeOrder) where
  -- `Expand` of an `Expandable`; `none` for the other types.
  unfoldable pub expand : Resource → Option (List Resource)
  unfolding expand_items
  expand (tool_set ts) = some (tools_of (expand_items ts (r.range ToolItem ts.spec.tools)))
  expand _ = none

  -- The first loop of `ExpandSets`: the names of the enabled resources that are no sets.
  unfoldable pub register_names : List Resource → Map Source → Map Source
  unfolding is_enabled expand resource_key kind_of
  register_names [] names = names
  register_names (res ∷ rs) names = elim (expand res) [
    | some _ ↦ register_names rs names
    | none ↦
        register_names rs (
          if is_enabled res then put (resource_key res) (standalone (kind_of res)) names else names)
  ]

  -- The second loop of `ExpandSets`.
  unfoldable pub expand_loop : List Resource → Map Source → Expansion (List Resource)
  unfolding is_enabled expand claim_names
  expand_loop [] names = expansion []
  expand_loop (res ∷ rs) names = elim (is_enabled res) [
    | false ↦ expand_loop rs names
    | true ↦ elim (expand res) [
      | none ↦ prepend (res ∷ []) (expand_loop rs names)
      | some items ↦ elim (claim_names res items names) [
        | conflict c ↦ conflict c
        | expansion names' ↦ prepend items (expand_loop rs names')
      ]
    ]
  ]

  unfoldable pub expand_sets : List Resource → Expansion (List Resource)
  unfolding register_names expand_loop
  expand_sets resources = expand_loop resources (register_names resources [])
