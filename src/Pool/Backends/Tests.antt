-- ===== src/Pool/Backends/Tests.antt =====
-- A pool of internal/pool/pool.go with a primary and two replicas.
use geryon.Base.{
  ℕ, ◌≡◌, ◌≢◌, refl, String, List, [], ◌∷◌, some, true, false, All, string_discrete, inl, inr,
  arith,
}
use geryon.Pool.Backends.{
  Servers, Backend, is_available, select_backend_with_fallback, select_backend_by_role,
  select_weighted_backend, weight_at,
}
use geryon.Pool.Backends.Selection.{IsKnown, Picked, select_backend_with_fallback-Picked}
use geryon.Pool.Backends.Weights.{Chosen, select_weighted_backend-greatest}
use geryon.Pool.Backends.Changes.{
  Host, no_servers, init_hosts, change_all, adds, removes, drains, updates, drain_backend, changed,
}
use geryon.Pool.Backends.Lists.{IsKnown-init, change_all-IsKnown}
use geryon.Pool.Backends.Drains.{drain_backend-unselected}
use geryon.Pool.Conns.{new_conn_pool, count_active}

-- An address for each host, and one port.
abbrev address : String → ℕ → String
address host port = host

abbrev host_at : String → String → ℕ → Host
host_at host role weight = record { host = host; port = 5432; role = role; weight = weight }

abbrev servers : Servers
servers =
    init_hosts address "db"
      (host_at "a" "primary" 0 ∷ host_at "b" "replica" 5 ∷ host_at "c" "replica" 7 ∷ [])
      (no_servers true)

no_servers-IsKnown : IsKnown (no_servers true)
no_servers-IsKnown = record { main = λ i e. absurd (ground arith); copies = λ i m. absurd m }

servers-IsKnown : IsKnown servers
servers-IsKnown = IsKnown-init address "db" _ (no_servers true) no_servers-IsKnown

select_backend_with_fallback-Picked_example :
    Picked
      (is_available address servers)
      servers.backends
      (select_backend_with_fallback address servers)
    × ((i : ℕ)
        → servers.primary ≡ some i
        → is_available address servers i ≡ true
        → select_backend_with_fallback address servers ≡ some i)
select_backend_with_fallback-Picked_example =
    select_backend_with_fallback-Picked address servers servers-IsKnown

select_weighted_backend-greatest_example :
    Chosen servers (1 ∷ 2 ∷ []) (select_weighted_backend servers (1 ∷ 2 ∷ []))
select_weighted_backend-greatest_example = select_weighted_backend-greatest servers 1 2 []

change_all-IsKnown_example :
    IsKnown
      (change_all address
        (servers, new_conn_pool 5)
        (drains "a" 9
          ∷ removes "a"
          ∷ adds (host_at "d" "primary" 1) "db"
          ∷ updates (host_at "d" "primary" 1 ∷ [])
          ∷ [])).0
change_all-IsKnown_example =
    change_all-IsKnown address
      (drains "a" 9
        ∷ removes "a"
        ∷ adds (host_at "d" "primary" 1) "db"
        ∷ updates (host_at "d" "primary" 1 ∷ [])
        ∷ [])
      servers (new_conn_pool 5) servers-IsKnown

abbrev backend_a : Backend
backend_a = record {
  host = "a";
  port = 5432;
  role = "primary";
  weight = 0;
  database = "db";
  healthy = true;
  draining = false;
  drain_start = 0;
  conn_count = 0;
}

drain_backend-unselected_example :
    (q : Servers) × (drain_backend address "a" 9 servers (new_conn_pool 5)
      ≡ changed (q, count_active "a" (new_conn_pool 5)))
    × (select_backend_with_fallback address q ≢ some 0)
    × (select_backend_by_role address "replica" q ≢ some 0)
unfolding init_hosts geryon.Pool.Backends.Changes.init_host
    geryon.Pool.Backends.Changes.append_backend geryon.Pool.Backends.Changes.with_address
    geryon.Base.Map.lookup geryon.Base.Map.delete geryon.Base.string_discrete geryon.Base.ℕ_discrete
drain_backend-unselected_example =
    drain_backend-unselected address "a" "replica" 9 servers (new_conn_pool 5) 0 backend_a
      servers-IsKnown refl refl
