-- ===== src/Engine/Checks.antt =====
-- Small parts of the engine: the clamp of the parallelism, the check before removals, the install
-- method and the delegation key of a tool (internal/installer/engine/engine.go). An error carries the
-- blocked tools, not its text.
use Prim.Native.String.{◌++◌ as concat}
use tomei.Base.{
  ℕ, String, Bool, false, not, ◌&&◌, Option, none, some, List, [], ◌∷◌, Map, Set, has, put, lookup,
  ltb, ℤ, pos, negsuc, ◌==◌, if◌then◌else◌,
}
use tomei.Resource.Kind.{Kind}
use tomei.Resource.Tool.{Tool, is_empty}
use tomei.Resource.Other.{Runtime, InstallerRepository}
use tomei.Resource.All.{Resource, tool, runtime, installer, installer_repository, kind_of, name_of}
use tomei.Graph.Dag.{node_id}

abbrev pub max_parallelism : ℕ
max_parallelism = 20

-- `SetParallelism`
unfoldable pub set_parallelism : ℤ → ℕ
set_parallelism (negsuc n) = 1
set_parallelism (pos n) =
    if ltb n 1 then 1 else if ltb max_parallelism n then max_parallelism else n

-- `extractByKind`, for the three kinds it is used for.
unfoldable pub extract_tools : List Resource → List Tool
extract_tools [] = []
extract_tools (tool t ∷ rs) = t ∷ extract_tools rs
extract_tools (_ ∷ rs) = extract_tools rs

unfoldable pub extract_runtimes : List Resource → List Runtime
extract_runtimes [] = []
extract_runtimes (runtime t ∷ rs) = t ∷ extract_runtimes rs
extract_runtimes (_ ∷ rs) = extract_runtimes rs

unfoldable pub extract_installer_repositories : List Resource → List InstallerRepository
extract_installer_repositories [] = []
extract_installer_repositories (installer_repository t ∷ rs) = t ∷ extract_installer_repositories rs
extract_installer_repositories (_ ∷ rs) = extract_installer_repositories rs

-- `removingRuntimes`
abbrev pub name_set : List String → Set → Set
name_set [] m = m
name_set (n ∷ ns) m = name_set ns (put n tt m)

unfoldable pub blocked_tools : Set → List Tool → List (String × String)
blocked_tools removing [] = []
blocked_tools removing (t ∷ ts) =
    let rest = blocked_tools removing ts in
    if not (is_empty t.spec.runtime_ref) && has t.spec.runtime_ref removing
    then (t.metadata.name, t.spec.runtime_ref) ∷ rest
    else rest

-- `checkRemovalDependencies`: `none`, or the blocked tools with their runtimes.
unfoldable pub check_removal_dependencies :
    List String → List Tool → Option (List (String × String))
unfolding blocked_tools
check_removal_dependencies runtime_removals remaining_tools =
    elim (blocked_tools (name_set runtime_removals []) remaining_tools) [
      | [] ↦ none
      | b ∷ bs ↦ some (b ∷ bs)
    ]

-- `determineInstallMethod`
unfoldable pub determine_install_method : Tool → String
determine_install_method t = elim t.spec.commands [
  | some _ ↦ "commands"
  | none ↦
      if not (is_empty t.spec.runtime_ref)
      then concat t.spec.runtime_ref " install"
      else if not (is_empty t.spec.installer_ref) && not (t.spec.installer_ref == "download")
      then concat t.spec.installer_ref " install"
      else "download"
]

-- `buildResourceMap`
unfoldable pub build_resource_map : List Resource → Map Resource → Map Resource
build_resource_map [] m = m
build_resource_map (res ∷ rs) m =
    build_resource_map rs (put (node_id (kind_of res) (name_of res)) res m)

-- `IsDelegation` of an installer resource.
unfoldable pub is_delegation : Option Resource → Bool
is_delegation (some (installer i)) = i.spec.install_type == "delegation"
is_delegation _ = false

-- `delegationKeyForTool`
unfoldable pub delegation_key_for_tool : Tool → Map Resource → String
unfolding is_delegation
delegation_key_for_tool t resource_map =
    if not (is_empty t.spec.runtime_ref)
    then concat "runtime:" t.spec.runtime_ref
    else if not (is_empty t.spec.installer_ref)
        && is_delegation (lookup (node_id Kind.installer t.spec.installer_ref) resource_map)
    then concat "installer:" t.spec.installer_ref
    else ""
