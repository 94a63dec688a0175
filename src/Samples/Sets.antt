-- ===== src/Samples/Sets.antt =====
-- A tool and a tool set of two tools, one of them disabled.
use tomei.Base.{
  String, ◌≡◌, refl, Bool, false, Option, none, some, List, [], ◌∷◌, in_order, arith, eq_iff,
}
use tomei.Resource.Kind.{kind_name}
use tomei.Resource.Tool.{
  ToolSet, ToolItem, expand_items, item_is_enabled, build_tool_from_set_item, spec_is_enabled,
}
use tomei.Resource.All.{Resource, tool, tool_set, kind_of, name_of, is_enabled}
use tomei.Resource.Expand.{
  expansion, resource_key, expand, expand_sets, register_names, expand_loop, claim_names,
}
use tomei.Resource.Expanded.{
  plain, set_keys, own_keys, NoConflict, expand_sets_lem, expand_sets_succeeds,
}
use tomei.Samples.Data.{gopls, metadata}

abbrev item : Option Bool → ToolItem
item enabled = record {
  version = "1.0.0";
  enabled = enabled;
  source = none;
  package_id = none;
  binary_name = "";
  args = [];
}

abbrev set_of_tools : ToolSet
set_of_tools = record {
  metadata = metadata "cli";
  spec = record {
    installer_ref = "aqua";
    repository_ref = "";
    runtime_ref = "";
    tools = ("jq", item none) ∷ ("yq", item (some false)) ∷ [];
  };
}

abbrev resources : List Resource
resources = tool gopls ∷ tool_set set_of_tools ∷ []

abbrev expanded : List Resource
expanded = tool gopls ∷ tool (build_tool_from_set_item set_of_tools "jq" (item none)) ∷ []

resources_expanded : expand_sets in_order resources ≡ expansion expanded
unfolding expand_sets expand_loop claim_names register_names expand expand_items item_is_enabled
    resource_key kind_name kind_of name_of is_enabled spec_is_enabled build_tool_from_set_item
resources_expanded = refl

resources-NoConflict : NoConflict in_order resources
unfolding set_keys own_keys expand expand_items item_is_enabled resource_key kind_name kind_of
    name_of is_enabled spec_is_enabled build_tool_from_set_item
resources-NoConflict k = ground (arith, eq_iff "Tool/jq" k, eq_iff "Tool/gopls" k, distinct)
  where
    distinct : ◌≡◌ {A = String} "Tool/jq" "Tool/gopls" → ⊥
    distinct e = ground (arith, (eq_iff "Tool/jq" "Tool/gopls").1 e)

expand_sets_lem_example : (expanded ≡ plain in_order resources) × NoConflict in_order resources
expand_sets_lem_example = expand_sets_lem in_order resources expanded resources_expanded

expand_sets_succeeds_example : expand_sets in_order resources ≡ expansion (plain in_order resources)
expand_sets_succeeds_example = expand_sets_succeeds in_order resources resources-NoConflict
