-- ===== src/Stmt/Tests.antt =====
-- Runs of internal/stmt/cache.go on concrete statements.
use geryon.Base.{
  ℕ, ◌+◌, ◌≤◌, ◌<◌, ◌≡◌, ◌≢◌, refl, Bool, true, false, ◌||◌, Option, none, some, List, [], ◌∷◌,
  String, arith, length, ite, string_discrete, ℕ_discrete, ne_of_test, if◌then◌else◌,
}
use geryon.Stmt.{
  Statement, Cache, new_cache, Call, puts, removes, clears, step, run, put_statement, get,
  get_by_sql, Manager, new_manager, mark_prepared_on_conn, prepare_if_needed, already, fresh,
  not_in_cache, Remapper, new_remapper, map_name, remove_name, get_server_id, get_client_name,
}
use geryon.Stmt.Bounds.{run-IsCounted, run-bounded}
use geryon.Stmt.Eviction.{IsCounted}
use geryon.Stmt.Names.{get-put_statement}

abbrev stmt : String → String → Statement
stmt name sql = record { name = name; sql = sql; param_types = []; num_params = 0 }

abbrev script : List Call
script =
    puts (stmt "p" "SELECT 1")
    ∷ puts (stmt "q" "SELECT 2")
    ∷ removes "p"
    ∷ puts (stmt "q" "SELECT 3")
    ∷ puts (stmt "r" "SELECT 4")
    ∷ []

run-bounded_example : length (run (new_cache 2) script).statements ≤ 2
run-bounded_example = run-bounded 2 script (omega arith)

-- A name is put twice into a cache for two statements, which then has room for one.
abbrev drifted : Cache
drifted = run (new_cache 2) (puts (stmt "p" "SELECT 1") ∷ puts (stmt "p" "SELECT 1") ∷ [])

drifted-IsCounted : IsCounted drifted
drifted-IsCounted = run-IsCounted 2 (puts (stmt "p" "SELECT 1") ∷ puts (stmt "p" "SELECT 1") ∷ [])

drifted_counter : length drifted.statements + drifted.max_size ≤ drifted.current_size + 1
unfolding run step put_statement new_cache geryon.Stmt.insert geryon.Stmt.evict_loop
    geryon.Stmt.evict_lru geryon.Stmt.forget geryon.Base.Map.delete geryon.Base.Map.lookup
    geryon.Base.string_discrete
drifted_counter = omega arith

room : (new_cache 4).current_size + 1 < (new_cache 4).max_size
unfolding new_cache
room = omega arith

get-put_statement_example :
    (get "q" (put_statement (stmt "q" "SELECT 2") drifted) ≡ some (stmt "q" "SELECT 2"))
    × (get_by_sql "SELECT 2" (put_statement (stmt "q" "SELECT 2") drifted)
        ≡ some (stmt "q" "SELECT 2"))
get-put_statement_example = get-put_statement (stmt "q" "SELECT 2") drifted

abbrev manager : Manager
manager = record (new_manager 4) {
  global_cache = put_statement (stmt "p" "SELECT 1") (new_cache 4);
}

abbrev remapper : Remapper
remapper = map_name "q" 4 new_remapper

p_absent : get_server_id "p" remapper ≡ none
unfolding map_name new_remapper geryon.Base.Map.lookup geryon.Base.Map.delete
    geryon.Base.string_discrete
p_absent = refl

three_absent : get_client_name 3 remapper ≡ none
unfolding map_name new_remapper geryon.Base.Map.lookup geryon.Base.Map.delete geryon.Base.ℕ_discrete
three_absent = refl
