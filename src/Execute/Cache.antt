-- ===== src/Execute/Cache.antt =====
-- The cached state and the stores on it
-- (internal/installer/executor/{state_cache,cached_store,map_accessor}.go). The mutex makes each
-- operation one step.
use Prim.Native.String.{◌++◌ as concat}
use tomei.Base.{String, Bool, true, false, Option, none, some, lookup, put, delete}
use tomei.Resource.Tool.{ToolState}
use tomei.Resource.Other.{RuntimeState, InstallerRepositoryState}
use tomei.State.User.{UserState}

-- `StateCache`; `saved` stands for the file that `store` writes.
pub record StateCache : Type 0 where
  pub saved : UserState
  pub cache : UserState
  pub dirty : Bool

-- `Init`
unfoldable pub init : UserState → StateCache → StateCache
init st c = record { saved = c.saved; cache = st; dirty = false }

-- `Flush`; `error` is what the write of the file answers, `none` for success.
unfoldable pub flush : Option String → StateCache → StateCache × Option String
flush error c = elim c.dirty [
  | false ↦ (c, none)
  | true ↦ elim error [
    | none ↦ (record { saved = c.cache; cache = c.cache; dirty = false }, none)
    | some e ↦ (c, some (concat "failed to flush state cache: " e))
  ]
]

-- `mapAccessor`
pub record MapAccessor (S : Type 0) : Type 0 where
  pub get : UserState → String → Option S
  pub set : UserState → String → S → UserState
  pub del : UserState → String → UserState

unfoldable pub tool_map_accessor : MapAccessor ToolState
tool_map_accessor = record {
  get = λ st name. lookup name st.tools;
  set = λ st name val. record st { tools = put name val st.tools };
  del = λ st name. record st { tools = delete name st.tools };
}

unfoldable pub runtime_map_accessor : MapAccessor RuntimeState
runtime_map_accessor = record {
  get = λ st name. lookup name st.runtimes;
  set = λ st name val. record st { runtimes = put name val st.runtimes };
  del = λ st name. record st { runtimes = delete name st.runtimes };
}

unfoldable pub repo_map_accessor : MapAccessor InstallerRepositoryState
repo_map_accessor = record {
  get = λ st name. lookup name st.installer_repositories;
  set =
      λ st name val. record st { installer_repositories = put name val st.installer_repositories };
  del = λ st name. record st { installer_repositories = delete name st.installer_repositories };
}

-- `StateStore`; an error is a text.
pub record StateStore (S : Type 0) : Type 0 where
  pub load : String → StateCache → Option S
  pub save : String → S → StateCache → StateCache × Option String
  pub delete_entry : String → StateCache → StateCache × Option String

-- `cachedStore`
unfoldable pub cached_store : {S : Type 0} → MapAccessor S → StateStore S
cached_store accessor = record {
  load = λ name c. accessor.get c.cache name;
  save = λ name val c.
      (record { saved = c.saved; cache = accessor.set c.cache name val; dirty = true }, none);
  delete_entry =
      λ name c. (record { saved = c.saved; cache = accessor.del c.cache name; dirty = true }, none);
}
