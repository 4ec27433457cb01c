-- ===== src/Pool/Supply.antt =====
-- internal/pool/pool.go: the connections that a pool makes, hands out and takes back, over its servers,
-- its connections, its queue and the memory of the manager. Dialling is an argument: `Dials` says for
-- each attempt whether it succeeds and when it ends. Other goroutines are kept out between the attempts
-- of one call, and between its look at the size and its use of it.
pub mod Accounts
pub mod Sizes
mod Tests
use geryon.Base.{
  ℕ, zero, suc, ◌+◌, ◌-◌, Bool, true, false, Option, none, some, List, [], ◌∷◌, String, ◌&&◌, not,
  ◌==◌, ltb, if◌then◌else◌, ℕ_discrete, string_discrete, length,
}
use geryon.Base.Map.{lookup, put}
use geryon.Pool.Breaker.{BackendHealth, record_success, record_failure}
use geryon.Pool.Memory.{Memory, try_alloc, free}
use geryon.Pool.Conns.{ServerConn, ConnPool, acquire, release, add_active, size}
use geryon.Pool.Waiting.{WaitQueue, join, signal}
use geryon.Pool.Backends.{
  Backend, Servers, address_of, backend_at, circuit_open_of, select_backend_with_fallback,
  select_backend_by_role,
}
use geryon.Pool.Backends.Changes.{set_backend}

pub record Pool : Type 0 where
  pub servers : Servers
  pub conns : ConnPool
  pub queue : WaitQueue
  pub manager : Option Memory
  pub max_server_connections : ℕ
  pub next_conn : ℕ
  -- The backend of each connection that was made.
  pub owners : List (ℕ × ℕ)

pub data CreateError : Type 0 where
  no_backends memory_limit no_healthy_backends failed_attempts : CreateError

pub data Created : Type 0 where
  created : ServerConn → Created
  failed : CreateError → Created

pub data Supplied : Type 0 where
  supplied : ServerConn → Supplied
  denied : CreateError → Supplied
  waiting full : Supplied

pub record Dials : Type 0 where
  pub succeeds : ℕ → Bool
  pub time : ℕ → ℕ

-- `TryAlloc` and `Free` of the manager, if there is one.
pub allocate : Pool → Option Pool
allocate p = elim p.manager [
  | none ↦ some p
  | some m ↦ if (try_alloc m).1 then some (record p { manager = some (try_alloc m).0 }) else none
]

pub give_back : Pool → Pool
give_back p = elim p.manager [ none ↦ p | some m ↦ record p { manager = some (free m) } ]

-- A report to the health checker, if it knows the address.
abbrev pub report : (BackendHealth → BackendHealth) → String → Servers → Servers
report f key s = elim (lookup string_discrete key s.health) [
  | none ↦ s
  | some h ↦ record s { health = put string_discrete key (f h) s.health }
]

module _ (address : String → ℕ → String) where
  -- `tryConnect` that succeeds, and the report of it.
  pub connected : ℕ → Backend → ℕ → Pool → Pool × ServerConn
  connected i b now p =
      let up =
        set_backend i (record b { healthy = true; conn_count = suc b.conn_count }) p.servers in
      (
        record p {
          servers = report (record_success now) (address_of address b) up;
          next_conn = suc p.next_conn;
          owners = put ℕ_discrete (suc p.next_conn) i p.owners;
        },
        record { id = suc p.next_conn; backend = some (address_of address b); in_use = false },
      )

  -- The report of an attempt that fails, and the mark on the backend.
  pub disconnected : ℕ → Backend → ℕ → Pool → Pool
  disconnected i b now p = record p {
    servers =
        set_backend i (record b { healthy = false })
          (report (record_failure now) (address_of address b) p.servers);
  }

  -- The loop over the attempts, `left` of which are left, with the selection that it makes each time.
  pub attempt : (Servers → Option ℕ) → Dials → ℕ → Pool → Pool × Created
  unfolding give_back connected disconnected
  attempt select dials zero p = (give_back p, failed failed_attempts)
  attempt select dials (suc left) p = elim (select p.servers) [
    | none ↦ (give_back p, failed no_healthy_backends)
    | some i ↦ elim (backend_at i p.servers) [
      | none ↦ (give_back p, failed no_healthy_backends)
      | some b ↦
          let skipped = attempt select dials left p in
          let retried = attempt select dials left (disconnected i b (dials.time left) p) in
          let made = connected i b (dials.time left) p in
          if circuit_open_of address b p.servers
          then skipped
          else if dials.succeeds left
          then (made.0, created made.1)
          else retried
    ]
  ]

  -- `createServerConn` and `createServerConnToRole`, which differ in the selection.
  pub create : (Servers → Option ℕ) → Dials → Pool → Pool × Created
  unfolding allocate attempt
  create select dials p = elim p.servers.backends [
    | [] ↦ (p, failed no_backends)
    | i ∷ is' ↦ elim (allocate p) [
      | none ↦ (p, failed memory_limit)
      | some q ↦ attempt select dials 3 q
    ]
  ]

  -- `Acquire`, up to the point at which the client `w` waits. Its second look at the idle connections
  -- finds none either.
  pub acquire_with : (Servers → Option ℕ) → Dials → ℕ → Pool → Pool × Supplied
  unfolding create
  acquire_with select dials w p = elim (acquire p.conns).1 [
    | some c ↦ (record p { conns = (acquire p.conns).0 }, supplied c)
    | none ↦
        let made = create select dials p in
        let queued = join w p.queue in
        if ltb (size p.conns) p.max_server_connections
        then (elim made.1 [
          | created c ↦ (record made.0 { conns = add_active c made.0.conns }, supplied c)
          | failed e ↦ (made.0, denied e)
        ])
        else if queued.1
        then (record p { queue = queued.0 }, waiting)
        else (p, full)
  ]

  pub acquire_any : Dials → ℕ → Pool → Pool × Supplied
  unfolding acquire_with
  acquire_any = acquire_with (select_backend_with_fallback address)

  pub acquire_to_role : String → Dials → ℕ → Pool → Pool × Supplied
  unfolding acquire_with
  acquire_to_role role = acquire_with (select_backend_by_role address role)

-- What `Close` of a connection does to the manager and to the count of its backend.
pub close_conn : ServerConn → Pool → Pool
unfolding give_back
close_conn c p =
    let q = give_back p in
    elim (lookup ℕ_discrete c.id q.owners) [
      | none ↦ q
      | some i ↦ elim (backend_at i q.servers) [
        | none ↦ q
        | some b ↦ record q {
          servers = set_backend i (record b { conn_count = b.conn_count - 1 }) q.servers;
        }
      ]
    ]

-- `Release`: a client that waits comes first. `reset_fails` is the outcome of the reset.
pub release_conn : ServerConn → Bool → Pool → Pool
unfolding close_conn
release_conn c reset_fails p =
    let signalled = signal c.id p.queue in
    let conns = release c reset_fails p.conns in
    let kept : Pool = record p { queue = signalled.0; conns = conns } in
    if signalled.1
    then record p { queue = signalled.0 }
    else if ltb (length p.conns.closed) (length conns.closed)
    then close_conn c kept
    else kept
