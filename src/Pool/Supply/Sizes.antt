-- ===== src/Pool/Supply/Sizes.antt =====
-- How many connections a pool of internal/pool/pool.go has, and what Acquire answers.
use geryon.Base.{
  ℕ, zero, suc, ◌+◌, ◌≤◌, ◌<◌, ◌≡◌, refl, ◌∙◌, ap, Bool, true, false, Option, none, some, List, [],
  ◌∷◌, String, arith, Bool-cases, Option-cases, inl, inr, ltb, length, length-init, length-append,
  last?, last?-none, ℕ_discrete,
}
use geryon.Base.Map.{lookup, length-delete-le, length-delete, IsMap}
use geryon.Pool.Conns.{ServerConn, ConnPool, acquire, release, add_active, size}
use geryon.Pool.Waiting.{join, signal}
use geryon.Pool.Backends.{Servers, backend_at, circuit_open_of}
use geryon.Pool.Supply.{
  Pool, Dials, Created, created, failed, allocate, give_back, connected, disconnected, attempt,
  create, Supplied, supplied, denied, waiting, full, acquire_with, close_conn, release_conn,
}
use geryon.Pool.Supply.Accounts.{List-cases}

conns-give_back : (p : Pool) → (give_back p).conns ≡ p.conns
unfolding give_back
conns-give_back p = ground arith

length-active : (c : ServerConn) (p : ConnPool) → size (add_active c p) ≤ size p + 1
unfolding add_active
length-active c p = omega (arith, length-delete-le ℕ_discrete c.id p.active)

last-length : (l : List ServerConn) (c : ServerConn) → last? l ≡ some c → 1 ≤ length l
last-length [] c e = absurd (ground arith)
last-length (d ∷ l) c e = omega arith

size-acquire : (p : ConnPool) → size (acquire p).0 ≤ size p
unfolding acquire
size-acquire p = elim (Option-cases (last? p.idle)) [
  | inl e ↦ rw (acquire, e) (omega arith)
  | inr (c, e) ↦
      rw (acquire, e)
        (omega (
          arith,
          length-delete-le ℕ_discrete c.id p.active,
          length-init p.idle,
          last-length p.idle c e,
        ))
]

idle-none : (p : ConnPool) → (acquire p).1 ≡ none → p.idle ≡ []
unfolding acquire
idle-none p e = ground (arith, last?-none p.idle)

-- A client is made to wait, or turned away since the queue is full.
abbrev pub waits : Supplied → Bool
waits waiting = true
waits full = true
waits (supplied c) = false
waits (denied e) = false

abbrev pub Bounded : Pool → Pool × Supplied → Type 0
Bounded p (q, answer) =
    (size q.conns ≤ p.max_server_connections)
    × (waits answer ≡ true → (p.conns.idle ≡ []) × (size p.conns ≡ p.max_server_connections))

module _ (address : String → ℕ → String) (select : Servers → Option ℕ) (dials : Dials) where
  conns-attempt : (left : ℕ) (p : Pool) → (attempt address select dials left p).0.conns ≡ p.conns
  unfolding attempt connected disconnected
  conns-attempt zero p = conns-give_back p
  conns-attempt (suc left) p = elim (Option-cases (select p.servers)) [
    | inl e ↦ rw (attempt, e) (conns-give_back p)
    | inr (i, e) ↦ elim (Option-cases (backend_at i p.servers)) [
      | inl f ↦ rw (attempt, e, f) (conns-give_back p)
      | inr (b, f) ↦ elim (Bool-cases (circuit_open_of address b p.servers)) [
        | inl g ↦ rw (attempt, e, f, g) (conns-attempt left p)
        | inr g ↦ elim (Bool-cases (dials.succeeds left)) [
          | inl h ↦ rw (attempt, e, f, g, h) refl
          | inr h ↦
              rw (attempt, e, f, g, h)
                (conns-attempt left (disconnected address i b (dials.time left) p))
        ]
      ]
    ]
  ]

  conns-allocate : (p q : Pool) → allocate p ≡ some q → q.conns ≡ p.conns
  unfolding allocate
  conns-allocate p q e = ground arith

  conns-create : (p : Pool) → (create address select dials p).0.conns ≡ p.conns
  unfolding create
  conns-create p = elim (List-cases p.servers.backends) [
    | inl f ↦ rw (create, f) refl
    | inr (i, is', f) ↦ elim (Option-cases (allocate p)) [
      | inl g ↦ rw (create, f, g) refl
      | inr (q, g) ↦ rw (create, f, g) (conns-attempt 3 q ∙ conns-allocate p q g)
    ]
  ]

  fresh-Bounded :
      (p : Pool) (made : Pool × Created)
      → made.0.conns ≡ p.conns
      → size p.conns < p.max_server_connections
      → Bounded p (elim made.1 [
        | created c ↦ (record made.0 { conns = add_active c made.0.conns }, supplied c)
        | failed e ↦ (made.0, denied e)
      ])
  fresh-Bounded p (q, created c) e h =
      (omega (arith, length-active c q.conns, ap size e), λ f. absurd (ground arith))
  fresh-Bounded p (q, failed r) e h = (omega (arith, ap size e), λ f. absurd (ground arith))

  -- A pool that has no more connections than it may has no more after Acquire, which makes a client
  -- wait, or turns it away, only when none is idle and there are as many as there may be.
  pub acquire_with-Bounded :
      (w : ℕ) (p : Pool)
      → size p.conns ≤ p.max_server_connections
      → Bounded p (acquire_with address select dials w p)
  unfolding acquire_with
  acquire_with-Bounded w p h = elim (Option-cases (acquire p.conns).1) [
    | inr (c, e) ↦
        rw (acquire_with, e) (omega (arith, size-acquire p.conns), λ f. absurd (ground arith))
    | inl e ↦ elim (Bool-cases (ltb (size p.conns) p.max_server_connections)) [
      | inl f ↦
          rw (acquire_with, e, f)
            (fresh-Bounded p (create address select dials p) (conns-create p) (ground arith))
      | inr f ↦ elim (Bool-cases (join w p.queue).1) [
        | inl g ↦ rw (acquire_with, e, f, g) (h, λ u. (idle-none p.conns e, ground arith))
        | inr g ↦ rw (acquire_with, e, f, g) (h, λ u. (idle-none p.conns e, ground arith))
      ]
    ]
  ]

closed-release :
    (c : ServerConn) (fails : Bool) (p : ConnPool) (d : ServerConn)
    → IsMap ℕ_discrete p.active
    → lookup ℕ_discrete c.id p.active ≡ some d
    → size (release c fails p) ≤ size p
unfolding release
closed-release c fails p d u e = elim (Bool-cases (ltb (length p.idle) p.max_size)) [
  | inl f ↦ elim (Bool-cases fails) [
    | inl g ↦ rw (release, f, g) (omega (arith, length-delete-le ℕ_discrete c.id p.active))
    | inr g ↦
        rw (release, f, g)
          (omega (
            arith,
            length-delete ℕ_discrete c.id p.active d u e,
            length-append p.idle (record c { in_use = false } ∷ []),
          ))
  ]
  | inr f ↦ rw (release, f) (omega (arith, length-delete-le ℕ_discrete c.id p.active))
]

conns-close_conn : (c : ServerConn) (p : Pool) → (close_conn c p).conns ≡ p.conns
unfolding close_conn
conns-close_conn c p = ground (arith, conns-give_back p)

-- A pool has no more connections after the release of one that is active than before.
size-release_conn :
    (c : ServerConn) (fails : Bool) (p : Pool) (d : ServerConn)
    → IsMap ℕ_discrete p.conns.active
    → lookup ℕ_discrete c.id p.conns.active ≡ some d
    → size (release_conn c fails p).conns ≤ size p.conns
unfolding release_conn
size-release_conn c fails p d u e = elim (Bool-cases (signal c.id p.queue).1) [
  | inl f ↦ rw (release_conn, f) (omega arith)
  | inr f ↦
      elim (Bool-cases (ltb (length p.conns.closed) (length (release c fails p.conns).closed))) [
        | inl g ↦
            rw (release_conn, f, g, conns-close_conn c _) (closed-release c fails p.conns d u e)
        | inr g ↦ rw (release_conn, f, g) (closed-release c fails p.conns d u e)
      ]
]
