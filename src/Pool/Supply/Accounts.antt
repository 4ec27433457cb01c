-- ===== src/Pool/Supply/Accounts.antt =====
-- The memory of the manager over the making of a connection in internal/pool/pool.go.
use geryon.Base.{
  ℕ, zero, suc, ◌+◌, ◌≡◌, ◌≢◌, refl, ◌∙◌, sym, subst, ap, Option, none, some, List, [], ◌∷◌, String,
  arith, Bool-cases, Option-cases, inl, inr, ltb, ◌⊎◌,
}
use geryon.Pool.Memory.{Memory, try_alloc, free, conn_memory_estimate}
use geryon.Pool.Backends.{Servers, backend_at, circuit_open_of}
use geryon.Pool.Supply.{
  Pool, Dials, Created, created, failed, allocate, give_back, connected, disconnected, attempt,
  create,
}

pub List-cases : (l : List ℕ) → (l ≡ []) ⊎ ((i : ℕ) × (is' : List ℕ) × (l ≡ i ∷ is'))
List-cases [] = inl refl
List-cases (i ∷ is') = inr (i, is', refl)

-- What an answer leaves of the memory that was allocated before the attempts.
abbrev freed : Option Memory → Option Memory
freed none = none
freed (some m) = some (free m)

abbrev billed : Created → Option Memory → Option Memory
billed (created c) o = o
billed (failed e) o = freed o

manager-give_back : (p : Pool) → (give_back p).manager ≡ freed p.manager
unfolding give_back
manager-give_back p = ground arith

abbrev pub used_after : Created → ℕ → ℕ
used_after (created c) used = used + conn_memory_estimate
used_after (failed e) used = used

-- The manager's memory after an answer, when `m` is the memory before.
abbrev pub Billed : Memory → Created → Option Memory → Type 0
Billed m r o = (n : Memory) × (o ≡ some n) × (n.limit ≡ m.limit) × (n.used ≡ used_after r m.used)

billed-allocated :
    (m : Memory) (r : Created)
    → Billed m r (billed r (some (record m { used = m.used + conn_memory_estimate })))
unfolding free
billed-allocated m (created c) =
    (record m { used = m.used + conn_memory_estimate }, refl, refl, refl)
billed-allocated m (failed e) =
    (free (record m { used = m.used + conn_memory_estimate }), refl, ground arith, ground arith)

allocate-cases :
    (p : Pool) (m : Memory)
    → p.manager ≡ some m
    → m.limit ≢ 0
    → (allocate p ≡ none)
      ⊎ ((q : Pool) × (allocate p ≡ some q)
          × (q.manager ≡ some (record m { used = m.used + conn_memory_estimate })))
unfolding allocate try_alloc
allocate-cases p m e limited = elim (Bool-cases (ltb m.limit (m.used + conn_memory_estimate))) [
  | inl h ↦ inl (ground arith)
  | inr h ↦ inr (
    record p { manager = some (record m { used = m.used + conn_memory_estimate }) },
    ground arith,
    refl,
  )
]

module _ (address : String → ℕ → String) (select : Servers → Option ℕ) (dials : Dials) where
  manager-attempt :
      (left : ℕ) (p : Pool)
      → (attempt address select dials left p).0.manager
        ≡ billed (attempt address select dials left p).1 p.manager
  unfolding attempt connected disconnected
  manager-attempt zero p = manager-give_back p
  manager-attempt (suc left) p = elim (Option-cases (select p.servers)) [
    | inl e ↦ rw (attempt, e) (manager-give_back p)
    | inr (i, e) ↦ elim (Option-cases (backend_at i p.servers)) [
      | inl f ↦ rw (attempt, e, f) (manager-give_back p)
      | inr (b, f) ↦ elim (Bool-cases (circuit_open_of address b p.servers)) [
        | inl g ↦ rw (attempt, e, f, g) (manager-attempt left p)
        | inr g ↦ elim (Bool-cases (dials.succeeds left)) [
          | inl h ↦ rw (attempt, e, f, g, h) refl
          | inr h ↦
              rw (attempt, e, f, g, h)
                (manager-attempt left (disconnected address i b (dials.time left) p))
        ]
      ]
    ]
  ]

  create-allocated :
      (i : ℕ) (is' : List ℕ) (p : Pool) (m : Memory)
      → p.servers.backends ≡ i ∷ is'
      → p.manager ≡ some m
      → m.limit ≢ 0
      → Billed m (create address select dials p).1 (create address select dials p).0.manager
  unfolding create
  create-allocated i is' p m e g limited = elim (allocate-cases p m g limited) [
    | inl f ↦ rw (create, e, f) (m, g, refl, refl)
    | inr (q, f, h) ↦
        rw (create, e, f)
          (subst (Billed m (attempt address select dials 3 q).1)
            (sym (manager-attempt 3 q ∙ ap (billed (attempt address select dials 3 q).1) h))
            (billed-allocated m (attempt address select dials 3 q).1))
  ]

  -- With a manager that has a limit, making a connection takes the memory of one connection if it
  -- succeeds, and none if it fails, for whatever reason.
  pub create-memory :
      (p : Pool) (m : Memory)
      → p.manager ≡ some m
      → m.limit ≢ 0
      → Billed m (create address select dials p).1 (create address select dials p).0.manager
  unfolding create
  create-memory p m e limited = elim (List-cases p.servers.backends) [
    | inl f ↦ rw (create, f) (m, e, refl, refl)
    | inr (i, is', f) ↦ create-allocated i is' p m f e limited
  ]
