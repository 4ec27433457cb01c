-- ===== src/Stmt.antt =====
-- internal/stmt/cache.go: the cache of prepared statements, what is prepared on each connection, the
-- map of statement names to server IDs, and the preparation of a statement that a connection lacks.
-- The elements of `lruList` are names, and a name can stand in it more than once.
pub mod Eviction
pub mod Bounds
pub mod Names
pub mod Prepared
mod Tests
use geryon.Base.{
  ℕ, zero, suc, ◌+◌, ◌-◌, Bool, true, false, ◌&&◌, Option, none, some, List, [], ◌∷◌, String, ltb,
  leb, if◌then◌else◌, ℕ_discrete, string_discrete, length, last?, init, u64,
}
use geryon.Base.Map.{lookup, delete, put}

pub record Statement : Type 0 where
  pub name : String
  pub sql : String
  pub param_types : List ℕ
  pub num_params : ℕ

-- `currentSize` is an `int`; it is at most the number of statements that were put.
pub record Cache : Type 0 where
  pub statements : List (String × Statement)
  pub sql_to_name : List (String × String)
  pub lru_list : List String
  pub max_size : ℕ
  pub current_size : ℕ

pub new_cache : ℕ → Cache
new_cache max_size = record {
  statements = [];
  sql_to_name = [];
  lru_list = [];
  max_size = max_size;
  current_size = 0;
}

abbrev pub get : String → Cache → Option Statement
get name c = lookup string_discrete name c.statements

pub get_by_sql : String → Cache → Option Statement
get_by_sql sql c = elim (lookup string_discrete sql c.sql_to_name) [
  | none ↦ none
  | some name ↦ get name c
]

-- What `Remove` and `evictLRU` have in common: a statement that is there leaves both maps.
pub forget : String → Cache → Cache
forget name c = elim (lookup string_discrete name c.statements) [
  | none ↦ c
  | some stmt ↦ record c {
    statements = delete string_discrete name c.statements;
    sql_to_name = delete string_discrete stmt.sql c.sql_to_name;
    current_size = c.current_size - 1;
  }
]

pub evict_lru : Cache → Cache
unfolding forget
evict_lru c = elim (last? c.lru_list) [
  | none ↦ c
  | some name ↦ forget name (record c { lru_list = init c.lru_list })
]

-- The loop of `Put`: each round takes one name off the list, so its length is fuel enough.
pub evict_loop : ℕ → Cache → Cache
unfolding evict_lru
evict_loop zero c = c
evict_loop (suc fuel) c =
    let rest = evict_loop fuel (evict_lru c) in
    if leb c.max_size c.current_size && ltb 0 (length c.lru_list) then rest else c

pub insert : Statement → Cache → Cache
insert stmt c = record c {
  statements = put string_discrete stmt.name stmt c.statements;
  sql_to_name = put string_discrete stmt.sql stmt.name c.sql_to_name;
  lru_list = stmt.name ∷ c.lru_list;
  current_size = suc c.current_size;
}

pub put_statement : Statement → Cache → Cache
unfolding evict_loop insert
put_statement stmt c = insert stmt (evict_loop (length c.lru_list) c)

pub remove : String → Cache → Cache
unfolding forget
remove name c = forget name c

pub clear : Cache → Cache
clear c = record c { statements = []; sql_to_name = []; lru_list = []; current_size = 0 }

-- The calls that change the cache, one at a time: each holds the mutex.
pub data Call : Type 0 where
  puts : Statement → Call
  removes : String → Call
  clears : Call

pub step : Cache → Call → Cache
unfolding put_statement remove clear
step c (puts stmt) = put_statement stmt c
step c (removes name) = remove name c
step c clears = clear c

pub run : Cache → List Call → Cache
unfolding step
run c [] = c
run c (k ∷ ks) = run (step c k) ks

-- `ConnTracker`, the names that are prepared on one connection.
abbrev pub ConnTracker : Type 0
ConnTracker = List (String × Bool)

-- A missing key reads as `false`.
pub is_prepared : String → ConnTracker → Bool
is_prepared name t = elim (lookup string_discrete name t) [ none ↦ false | some b ↦ b ]

abbrev pub mark_prepared : String → ConnTracker → ConnTracker
mark_prepared name t = put string_discrete name true t

abbrev pub unmark_prepared : String → ConnTracker → ConnTracker
unmark_prepared name t = delete string_discrete name t

pub record Manager : Type 0 where
  pub global_cache : Cache
  pub trackers : List (ℕ × ConnTracker)
  pub stmt_id_gen : ℕ

pub new_manager : ℕ → Manager
unfolding new_cache
new_manager cache_size = record {
  global_cache = new_cache cache_size;
  trackers = [];
  stmt_id_gen = 0;
}

-- `GetOrCreateTracker`: the manager and the tracker.
pub get_or_create_tracker : ℕ → Manager → Manager × ConnTracker
get_or_create_tracker conn_id m = elim (lookup ℕ_discrete conn_id m.trackers) [
  | none ↦ (record m { trackers = put ℕ_discrete conn_id [] m.trackers }, [])
  | some t ↦ (m, t)
]

abbrev pub remove_tracker : ℕ → Manager → Manager
remove_tracker conn_id m = record m { trackers = delete ℕ_discrete conn_id m.trackers }

-- The number that `GenerateName` puts behind the prefix.
pub generate_id : Manager → Manager × ℕ
generate_id m = let id = u64 (m.stmt_id_gen + 1) in (record m { stmt_id_gen = id }, id)

pub is_prepared_on_conn : ℕ → String → Manager → Manager × Bool
unfolding get_or_create_tracker is_prepared
is_prepared_on_conn conn_id name m =
    let (m', t) = get_or_create_tracker conn_id m in (m', is_prepared name t)

-- The tracker is shared, so the mark is seen through the manager.
pub mark_prepared_on_conn : ℕ → String → Manager → Manager
unfolding get_or_create_tracker
mark_prepared_on_conn conn_id name m =
    let (m', t) = get_or_create_tracker conn_id m in
    record m' { trackers = put ℕ_discrete conn_id (mark_prepared name t) m'.trackers }

pub not_prepared : ConnTracker → List String → List String
unfolding is_prepared
not_prepared t [] = []
not_prepared t (name ∷ names) =
    let rest = not_prepared t names in if is_prepared name t then rest else name ∷ rest

pub get_missing_statements : ℕ → List String → Manager → Manager × List String
unfolding get_or_create_tracker not_prepared
get_missing_statements conn_id names m =
    let (m', t) = get_or_create_tracker conn_id m in (m', not_prepared t names)

pub record Remapper : Type 0 where
  pub client_to_server : List (String × ℕ)
  pub server_to_client : List (ℕ × String)

pub new_remapper : Remapper
new_remapper = record { client_to_server = []; server_to_client = [] }

pub map_name : String → ℕ → Remapper → Remapper
map_name client_name server_id r = record {
  client_to_server = put string_discrete client_name server_id r.client_to_server;
  server_to_client = put ℕ_discrete server_id client_name r.server_to_client;
}

abbrev pub get_server_id : String → Remapper → Option ℕ
get_server_id client_name r = lookup string_discrete client_name r.client_to_server

abbrev pub get_client_name : ℕ → Remapper → Option String
get_client_name server_id r = lookup ℕ_discrete server_id r.server_to_client

pub remove_name : String → Remapper → Remapper
remove_name client_name r = elim (get_server_id client_name r) [
  | none ↦ r
  | some server_id ↦ record {
    client_to_server = delete string_discrete client_name r.client_to_server;
    server_to_client = delete ℕ_discrete server_id r.server_to_client;
  }
]

pub data Outcome : Type 0 where
  already : Outcome
  fresh : Statement → Outcome
  not_in_cache : Outcome

pub prepare_if_needed : ℕ → String → Manager → Manager × Outcome
unfolding is_prepared_on_conn mark_prepared_on_conn
prepare_if_needed conn_id name m =
    let (m', ready) = is_prepared_on_conn conn_id name m in
    if ready then (m', already) else elim (get name m'.global_cache) [
      | none ↦ (m', not_in_cache)
      | some stmt ↦ (mark_prepared_on_conn conn_id name m', fresh stmt)
    ]
