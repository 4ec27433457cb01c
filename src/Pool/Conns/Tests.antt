-- ===== src/Pool/Conns/Tests.antt =====
-- Runs of `serverConnPool` in internal/pool/pool.go on concrete connections.
use geryon.Base.{
  zero, suc, get_elem?, ℕ, ◌+◌, ◌≤◌, ◌<◌, ◌≡◌, ◌≢◌, ◌↔◌, refl, Bool, true, false, Option, none,
  some, List, [], ◌∷◌, ◌++◌, String, arith, length, ite, string_discrete, ℕ_discrete, if◌then◌else◌,
}
use geryon.Base.Map.{lookup}
use geryon.Pool.Conns.{
  ServerConn, ConnPool, new_conn_pool, acquire, release, remove, mark_in_use, close_all,
  close_backend, Use, acquires, releases, adds, removes, use_all,
}
use geryon.Pool.Conns.Valid.{IsIndexed}
use geryon.Pool.Conns.Discipline.{
  AllAllowed, use_all-IsIndexed, new_conn_pool-IsIndexed, acquire-release,
}

abbrev conn : ℕ → String → ServerConn
conn id addr = record { id = id; backend = some addr; in_use = true }

abbrev uses : List Use
uses =
    adds (conn 1 "x")
    ∷ adds (conn 2 "y")
    ∷ releases (conn 1 "x") false
    ∷ releases (conn 2 "y") false
    ∷ removes (conn 1 "x")
    ∷ acquires
    ∷ []

uses-AllAllowed : AllAllowed (new_conn_pool 4) uses
unfolding geryon.Pool.Conns.use_conns new_conn_pool geryon.Pool.Conns.add_active release remove
    geryon.Pool.Conns.take_out acquire geryon.Base.Map.lookup geryon.Base.Map.delete
    geryon.Base.ℕ_discrete
uses-AllAllowed = (refl, (refl, ((_, refl), ((_, refl), (tt, (tt, tt))))))

use_all-IsIndexed_example :
    (q : ConnPool) × ((use_all (new_conn_pool 4) uses ≡ some q) × IsIndexed q)
use_all-IsIndexed_example =
    use_all-IsIndexed uses (new_conn_pool 4) (new_conn_pool-IsIndexed 4) uses-AllAllowed

-- Two idle connections, and one that is active.
abbrev two_idle : ConnPool
two_idle = record {
  idle = conn 1 "x" ∷ conn 2 "y" ∷ [];
  active = (3, conn 3 "x") ∷ [];
  idle_index = (1, 0) ∷ (2, 1) ∷ [];
  max_size = 4;
  closed = [];
}

acquire-release_example :
    ((acquire (release (conn 3 "x") false two_idle)).1 ≡ some (mark_in_use (conn 3 "x")))
    × ((acquire (release (conn 3 "x") false two_idle)).0.idle ≡ two_idle.idle)
acquire-release_example = acquire-release (conn 3 "x") two_idle (omega arith)

there :
    (i : ℕ) (c : ServerConn)
    → get_elem? two_idle.idle i ≡ some c
    → lookup ℕ_discrete c.id two_idle.idle_index ≡ some i
unfolding lookup
there zero c e = ground arith
there (suc zero) c e = ground arith
there (suc (suc i)) c e = absurd (ground arith)

back :
    (id i : ℕ)
    → lookup ℕ_discrete id two_idle.idle_index ≡ some i
    → (c : ServerConn) × ((get_elem? two_idle.idle i ≡ some c) × (c.id ≡ id))
unfolding lookup
back id i e = elim (ℕ_discrete 1 id) [
  | yes p ↦ (conn 1 "x", (let z : i ≡ 0 = ground arith in rw z refl, p))
  | no p ↦ elim (ℕ_discrete 2 id) [
    | yes q ↦ (conn 2 "y", (let z : i ≡ 1 = ground arith in rw z refl, q))
    | no q ↦ absurd (ground arith)
  ]
]

two_idle-IsIndexed : IsIndexed two_idle
unfolding lookup
two_idle-IsIndexed = record { indexes = (there, back); apart = λ id i e. ground arith }
