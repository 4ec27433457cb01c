-- ===== src/Stmt/Names.antt =====
-- What the names of internal/stmt/cache.go lead to: statements by name and by text, and server IDs.
use geryon.Base.{
  ℕ, zero, suc, ap, ◌∙◌, ◌+◌, ◌<◌, ◌≡◌, ◌≢◌, refl, none, some, String, arith, ite, string_discrete,
  ℕ_discrete, length,
}
use geryon.Base.Map.{put, lookup-delete, lookup-put, lookup-put_self, lookup-put_ne}
use geryon.Stmt.{
  Statement, Cache, get, get_by_sql, insert, evict_loop, put_statement, Remapper, map_name,
  remove_name, get_server_id, get_client_name,
}

-- With room in the cache nothing is thrown out.
evict_loop-room : (fuel : ℕ) (c : Cache) → c.current_size < c.max_size → evict_loop fuel c ≡ c
unfolding evict_loop
evict_loop-room zero c h = refl
evict_loop-room (suc fuel) c h = ground arith

put_statement-room :
    (stmt : Statement) (c : Cache)
    → c.current_size < c.max_size
    → put_statement stmt c ≡ insert stmt c
unfolding put_statement
put_statement-room stmt c h = ap (insert stmt) (evict_loop-room (length c.lru_list) c h)

-- A statement that was put is found under its name and under its text, whatever was thrown out.
pub get-put_statement :
    (stmt : Statement) (c : Cache)
    → (get stmt.name (put_statement stmt c) ≡ some stmt)
      × (get_by_sql stmt.sql (put_statement stmt c) ≡ some stmt)
unfolding put_statement insert get_by_sql
get-put_statement stmt c = ground (
  arith,
  lookup-put_self string_discrete stmt.name stmt (evict_loop (length c.lru_list) c).statements,
  lookup-put_self string_discrete stmt.sql stmt.name (evict_loop (length c.lru_list) c).sql_to_name,
)

insert-insert-sql :
    (old new : Statement) (c : Cache)
    → old.name ≡ new.name
    → old.sql ≢ new.sql
    → get_by_sql old.sql (insert new (insert old c)) ≡ some new
unfolding insert get_by_sql
insert-insert-sql old new c e d = ground (
  arith,
  lookup-put_ne string_discrete new.sql old.sql new.name
      (put string_discrete old.sql old.name c.sql_to_name),
  lookup-put_self string_discrete old.sql old.name c.sql_to_name,
  lookup-put_self string_discrete new.name new (put string_discrete old.name old c.statements),
)

-- When a name is given another text, in a cache with room for both, the old text leads to the
-- statement with the new one.
pub get_by_sql-replaced :
    (old new : Statement) (c : Cache)
    → old.name ≡ new.name
    → old.sql ≢ new.sql
    → c.current_size + 1 < c.max_size
    → get_by_sql old.sql (put_statement new (put_statement old c)) ≡ some new
get_by_sql-replaced old new c e d room =
    ap (λ c'. get_by_sql old.sql (put_statement new c')) (put_statement-room old c (omega arith))
    ∙ ap (get_by_sql old.sql) (put_statement-room new (insert old c) (unfold insert in omega arith))
    ∙ insert-insert-sql old new c e d

-- After a name is mapped to a server ID, each leads to the other, and the other names and the other
-- IDs lead where they did.
map_name-lookups :
    (name : String) (id : ℕ) (r : Remapper) (other : String) (other_id : ℕ)
    → (get_server_id other (map_name name id r)
        ≡ ite (string_discrete name other) (some id) (get_server_id other r))
      × (get_client_name other_id (map_name name id r)
          ≡ ite (ℕ_discrete id other_id) (some name) (get_client_name other_id r))
unfolding map_name
map_name-lookups name id r other other_id = (
  lookup-put string_discrete name other id r.client_to_server,
  lookup-put ℕ_discrete id other_id name r.server_to_client,
)

-- Removing the name that was mapped last, when neither it nor the ID was mapped before, leads to
-- the lookups from before.
remove_name-map_name :
    (name : String) (id : ℕ) (r : Remapper)
    → get_server_id name r ≡ none
    → get_client_name id r ≡ none
    → (other : String) (other_id : ℕ)
    → (get_server_id other (remove_name name (map_name name id r)) ≡ get_server_id other r)
      × (get_client_name other_id (remove_name name (map_name name id r))
          ≡ get_client_name other_id r)
unfolding remove_name map_name
remove_name-map_name name id r h k other other_id = ground (
  arith,
  lookup-put_self string_discrete name id r.client_to_server,
  lookup-delete string_discrete name other (put string_discrete name id r.client_to_server),
  lookup-put string_discrete name other id r.client_to_server,
  lookup-delete ℕ_discrete id other_id (put ℕ_discrete id name r.server_to_client),
  lookup-put ℕ_discrete id other_id name r.server_to_client,
)
