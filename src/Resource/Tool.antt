-- ===== src/Resource/Tool.antt =====
-- Tools and tool sets (internal/resource/tool.go, and the command sets of types.go). Spec pointers
-- of resources are never nil here: the manifest decoder allocates them. A nil `*bool`, `*Package`,
-- `*DownloadSource` or `*ToolCommandSet` is `none`. A timestamp is a number.
use tomei.Base.{
  ℕ, String, Bool, true, not, Option, none, some, List, [], ◌∷◌, ◌++◌, Map, ◌==◌, if◌then◌else◌,
}
use tomei.Resource.Kind.{Kind, Ref, installer, installer_repository, runtime}

pub record Metadata : Type 0 where
  pub name : String
  pub description : String
  pub labels : Map String

pub record CommandSet : Type 0 where
  pub install : List String
  pub check : List String
  pub remove : List String

-- `ToolCommandSet` embeds `CommandSet`.
pub record ToolCommandSet : Type 0 where
  pub base : CommandSet
  pub update : List String
  pub resolve_version : List String

pub record Checksum : Type 0 where
  pub value : String
  pub url : String
  pub file_pattern : String
  pub algorithm : String

pub record DownloadSource : Type 0 where
  pub url : String
  pub checksum : Option Checksum
  pub archive_type : String

pub record Package : Type 0 where
  pub owner : String
  pub repo : String
  pub name : String

pub record ToolSpec : Type 0 where
  pub installer_ref : String
  pub repository_ref : String
  pub version : String
  pub enabled : Option Bool
  pub source : Option DownloadSource
  pub package_id : Option Package
  pub runtime_ref : String
  pub commands : Option ToolCommandSet
  pub binary_name : String
  pub args : List String

pub record Tool : Type 0 where
  pub metadata : Metadata
  pub spec : ToolSpec

pub record ToolItem : Type 0 where
  pub version : String
  pub enabled : Option Bool
  pub source : Option DownloadSource
  pub package_id : Option Package
  pub binary_name : String
  pub args : List String

pub record ToolSetSpec : Type 0 where
  pub installer_ref : String
  pub repository_ref : String
  pub runtime_ref : String
  pub tools : Map ToolItem

pub record ToolSet : Type 0 where
  pub metadata : Metadata
  pub spec : ToolSetSpec

pub record ToolState : Type 0 where
  pub installer_ref : String
  pub repository_ref : String
  pub version : String
  pub digest : String
  pub install_path : String
  pub bin_path : String
  pub source : Option DownloadSource
  pub package_id : Option Package
  pub runtime_ref : String
  pub version_kind : String
  pub spec_version : String
  pub commands : Option ToolCommandSet
  pub binary_name : String
  pub taint_reason : String
  pub updated_at : ℕ

abbrev pub is_empty : String → Bool
is_empty s = s == ""

-- `*bool` read with the default `true`.
abbrev pub enabled_or_default : Option Bool → Bool
enabled_or_default none = true
enabled_or_default (some b) = b

unfoldable pub spec_is_enabled : ToolSpec → Bool
spec_is_enabled s = enabled_or_default s.enabled

unfoldable pub item_is_enabled : ToolItem → Bool
item_is_enabled t = enabled_or_default t.enabled

abbrev ref_if : Kind → String → List Ref
ref_if kind name = if is_empty name then [] else record { kind = kind; name = name } ∷ []

-- `Dependencies` of a tool, and with the same text of a tool set.
unfoldable pub tool_dependencies : ToolSpec → List Ref
tool_dependencies s =
    ref_if installer s.installer_ref
    ++ (ref_if installer_repository s.repository_ref ++ ref_if runtime s.runtime_ref)

unfoldable pub tool_set_dependencies : ToolSetSpec → List Ref
tool_set_dependencies s =
    ref_if installer s.installer_ref
    ++ (ref_if installer_repository s.repository_ref ++ ref_if runtime s.runtime_ref)

unfoldable pub build_tool_from_set_item : ToolSet → String → ToolItem → Tool
build_tool_from_set_item ts name item = record {
  metadata = record { name = name; description = ""; labels = [] };
  spec = record {
    installer_ref = ts.spec.installer_ref;
    repository_ref = ts.spec.repository_ref;
    version = item.version;
    enabled = none;
    source = item.source;
    package_id = item.package_id;
    runtime_ref = ts.spec.runtime_ref;
    commands = none;
    binary_name = item.binary_name;
    args = item.args;
  };
}

-- `Expand`: the loop over `Tools`, given as it is met.
unfoldable pub expand_items : ToolSet → Map ToolItem → List Tool
unfolding item_is_enabled
expand_items ts [] = []
expand_items ts ((name, item) ∷ items) =
    if not (item_is_enabled item)
    then expand_items ts items
    else build_tool_from_set_item ts name item ∷ expand_items ts items

unfoldable pub tool_is_tainted : ToolState → Bool
tool_is_tainted t = not (is_empty t.taint_reason)

unfoldable pub taint_tool : String → ToolState → ToolState
taint_tool reason t = record t { taint_reason = reason }
