-- ===== src/Raft/Machine.antt =====
-- The state machine of internal/raft/fsm.go: `GeryonFSM`. A command has its data as json.Unmarshal
-- gives it, `none` where that fails. A pool's configuration is a text. What the callbacks are called
-- with is appended to `calls`; a callback that is not set is one that does nothing.
pub mod Users
mod Tests
use geryon.Base.{
  ℕ, ◌+◌, Bool, true, false, Option, none, some, List, [], ◌∷◌, ◌++◌, String, u64, if◌then◌else◌,
  string_discrete,
}
use geryon.Base.Map.{lookup, put, delete}

pub record FsmUser : Type 0 where
  pub username : String
  pub password_hash : String
  pub max_connections : ℕ
  pub default_pool : String
  pub allowed_pools : List String

pub record FsmBackend : Type 0 where
  pub name : String
  pub host : String
  pub port : ℕ
  pub role : String
  pub status : String
  pub detached : Bool

pub record PoolConfigUpdate : Type 0 where
  pub name : String
  pub config : String
  pub deletes : Bool

pub data Command : Type 0 where
  no_op unknown : Command
  pool_config_update : Option PoolConfigUpdate → Command
  user_create user_update : Option FsmUser → Command
  user_delete : Option String → Command
  cache_invalidate : Option (List String) → Command
  cache_invalidate_pattern : Option String → Command
  backend_detach backend_attach : Option String → Command

pub data Callback : Type 0 where
  pool_config_updated : String → String → Callback
  user_changed : String → Option FsmUser → Callback
  backend_changed : String → FsmBackend → Callback
  cache_invalidated : String → List String → Callback

pub record Machine : Type 0 where
  pub version : ℕ
  pub pool_configs : List (String × String)
  pub users : List (String × FsmUser)
  pub backends : List (String × FsmBackend)
  pub calls : List Callback

abbrev pub new_machine : Machine
new_machine = record { version = 1; pool_configs = []; users = []; backends = []; calls = [] }

abbrev pub call : Callback → Machine → Machine
call c m = record m { calls = m.calls ++ c ∷ [] }

-- Each answers whether it goes through without an error.
unfoldable pub apply_pool_config_update : Option PoolConfigUpdate → Machine → Machine × Bool
apply_pool_config_update none m = (m, false)
apply_pool_config_update (some u) m = (
  call (pool_config_updated u.name u.config) (
      if u.deletes
      then record m { pool_configs = delete string_discrete u.name m.pool_configs }
      else record m { pool_configs = put string_discrete u.name u.config m.pool_configs }),
  true,
)

unfoldable pub apply_user_update : Option FsmUser → Machine → Machine × Bool
apply_user_update none m = (m, false)
apply_user_update (some u) m = (
  call (user_changed u.username (some u))
      (record m { users = put string_discrete u.username u m.users }),
  true,
)

unfoldable pub apply_user_delete : Option String → Machine → Machine × Bool
apply_user_delete none m = (m, false)
apply_user_delete (some name) m =
    (call (user_changed name none) (record m { users = delete string_discrete name m.users }), true)

unfoldable pub apply_cache_invalidate : Option (List String) → Machine → Machine × Bool
apply_cache_invalidate none m = (m, false)
apply_cache_invalidate (some tables) m = (call (cache_invalidated "" tables) m, true)

unfoldable pub apply_cache_invalidate_pattern : Option String → Machine → Machine × Bool
apply_cache_invalidate_pattern none m = (m, false)
apply_cache_invalidate_pattern (some pattern) m = (call (cache_invalidated pattern []) m, true)

-- `applyBackendDetach` and `applyBackendAttach`, which differ in what they set.
unfoldable pub set_backend : Bool → String → Option String → Machine → Machine × Bool
set_backend detached status none m = (m, false)
set_backend detached status (some name) m = elim (lookup string_discrete name m.backends) [
  | none ↦ (m, true)
  | some b ↦
      let changed : FsmBackend = record b { detached = detached; status = status } in
      (
        call (backend_changed name changed)
            (record m { backends = put string_discrete name changed m.backends }),
        true,
      )
]

unfoldable pub dispatch : Command → Machine → Machine × Bool
dispatch no_op m = (m, true)
dispatch unknown m = (m, false)
dispatch (pool_config_update u) m = apply_pool_config_update u m
dispatch (user_create u) m = apply_user_update u m
dispatch (user_update u) m = apply_user_update u m
dispatch (user_delete name) m = apply_user_delete name m
dispatch (cache_invalidate tables) m = apply_cache_invalidate tables m
dispatch (cache_invalidate_pattern pattern) m = apply_cache_invalidate_pattern pattern m
dispatch (backend_detach name) m = set_backend true "detached" name m
dispatch (backend_attach name) m = set_backend false "active" name m

-- The version counts every command, also one that fails.
unfoldable pub apply : Command → Machine → Machine × Bool
apply c m = dispatch c (record m { version = u64 (m.version + 1) })

unfoldable pub apply_all : List Command → Machine → Machine
apply_all [] m = m
apply_all (c ∷ cs) m = apply_all cs (apply c m).0
