-- ===== src/Pool/Supply/Tests.antt =====
-- Connections that a pool of internal/pool/pool.go makes.
use geryon.Base.{ℕ, refl, String, [], ◌∷◌, some, true, false, arith, if◌then◌else◌, ◌==◌}
use geryon.Pool.Memory.{Memory}
use geryon.Pool.Conns.{new_conn_pool}
use geryon.Pool.Waiting.{new_wait_queue}
use geryon.Pool.Backends.{select_backend_with_fallback}
use geryon.Pool.Backends.Changes.{Host, no_servers, init_hosts}
use geryon.Pool.Supply.{Pool, Dials, create, acquire_with}
use geryon.Pool.Supply.Accounts.{Billed, create-memory}
use geryon.Pool.Supply.Sizes.{Bounded, acquire_with-Bounded}

abbrev address : String → ℕ → String
address host port = host

abbrev host_at : String → String → Host
host_at host role = record { host = host; port = 5432; role = role; weight = 1 }

abbrev memory : Memory
memory = record { limit = 20000; used = 0 }

abbrev pool : Pool
pool = record {
  servers =
      init_hosts address "db" (host_at "a" "primary" ∷ host_at "b" "replica" ∷ [])
        (no_servers false);
  conns = new_conn_pool 2;
  queue = new_wait_queue 10;
  manager = some memory;
  max_server_connections = 2;
  next_conn = 0;
  owners = [];
}

-- The first attempt, to the primary, fails.
abbrev dials : Dials
dials = record { succeeds = λ left. if left == 2 then false else true; time = λ left. 7 }

create-memory_example :
    Billed memory
      (create address (select_backend_with_fallback address) dials pool).1
      (create address (select_backend_with_fallback address) dials pool).0.manager
create-memory_example =
    create-memory address (select_backend_with_fallback address) dials pool memory refl
      (λ e. ground arith)

acquire_with-Bounded_example :
    Bounded pool (acquire_with address (select_backend_with_fallback address) dials 4 pool)
unfolding new_conn_pool
acquire_with-Bounded_example =
    acquire_with-Bounded address (select_backend_with_fallback address) dials 4 pool (omega arith)
