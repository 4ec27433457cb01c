-- ===== src/Pool/Backends/Drains.antt =====
-- Draining in internal/pool/pool.go: what a drained backend is good for, and taking it back.
use geryon.Base.{
  ℕ, ◌≡◌, ◌≢◌, refl, Bool, true, false, Option, none, some, List, [], ◌∷◌, String, arith,
  ℕ_discrete,
}
use geryon.Base.Map.{lookup-put_self}
use geryon.Pool.Conns.{ConnPool, count_active}
use geryon.Pool.Backends.{
  Servers, Backend, backend_at, is_available, select_backend_with_fallback, select_backend_by_role,
}
use geryon.Pool.Backends.Selection.{
  Picked, IsKnown, select_backend_with_fallback-Picked, select_backend_by_role-Picked,
}
use geryon.Pool.Backends.Changes.{changed, set_backend, with_address, drain_backend}

-- The backend that an address stands for is found under its number.
with_address-found :
    (address : String → ℕ → String) (addr : String) (l : List ℕ) (s : Servers) (i : ℕ) (b : Backend)
    → with_address address addr l s ≡ some (i, b)
    → backend_at i s ≡ some b
unfolding with_address
with_address-found address addr [] s i b e = absurd (ground arith)
with_address-found address addr (j ∷ l) s i b e =
    ground (arith, with_address-found address addr l s i b)

-- A backend with the same address that is neither healthy nor put in the lists is not available.
is_available-down :
    (address : String → ℕ → String) (s : Servers) (i : ℕ) (b : Backend)
    → b.draining ≡ true
    → is_available address (set_backend i b s) i ≡ false
unfolding is_available
is_available-down address s i b d = ground (arith, lookup-put_self ℕ_discrete i b s.heap)

unpicked :
    (test : ℕ → Bool) (l : List ℕ) (o : Option ℕ) (i : ℕ)
    → Picked test l o
    → test i ≡ false
    → o ≢ some i
unpicked test l none i h f e = absurd (ground arith)
unpicked test l (some j) i h f e = absurd (ground (arith, h.0))

-- Once DrainBackend has gone through, neither selection answers the backend that the address stands
-- for, and it reports the connections of that address that are active.
pub drain_backend-unselected :
    (address : String → ℕ → String) (addr role : String) (now : ℕ) (s : Servers) (conns : ConnPool)
    (i : ℕ) (b : Backend)
    → IsKnown s
    → with_address address addr s.backends s ≡ some (i, b)
    → b.draining ≡ false
    → (q : Servers) × (drain_backend address addr now s conns
        ≡ changed (q, count_active addr conns))
      × (select_backend_with_fallback address q ≢ some i)
      × (select_backend_by_role address role q ≢ some i)
unfolding drain_backend
drain_backend-unselected address addr role now s conns i b k w d =
    let c : Backend = record b { draining = true; drain_start = now; healthy = false } in
    let q = set_backend i c s in
    let known : IsKnown q = record { main = k.main; copies = k.copies } in
    let down = is_available-down address s i c refl in
    (
      q,
      rw (drain_backend, w, d) refl,
      unpicked (is_available address q) q.backends _ i
          (select_backend_with_fallback-Picked address q known).0 down,
      unpicked (is_available address q) q.backends _ i
          (select_backend_by_role-Picked address role q known).0 down,
    )
