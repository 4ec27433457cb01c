-- ===== src/Pool/Backends.antt =====
-- internal/pool/pool.go: the servers of a pool and how one is selected for a new connection. A backend
-- is shared by pointer, so it is a number, under which `heap` has its fields; `backends`, `primary` and
-- `replicas` are the pointers of the pool. A weight that is not positive, for which the code takes 100,
-- is 0 here. `health` is the map of the health checker, by address. The pool's mutex is held for each
-- selection and each change.
pub mod Selection
pub mod Weights
pub mod Changes
pub mod Lists
pub mod Drains
mod Tests
use geryon.Base.{
  ℕ, suc, ◌+◌, ◌-◌, ◌*◌, Bool, true, false, Option, none, some, List, [], ◌∷◌, ◌++◌, String, ◌&&◌,
  not, ltb, ◌==◌, str_eq, if◌then◌else◌, ℕ_discrete, string_discrete,
}
use geryon.Base.Map.{lookup, put}
use geryon.Pool.Breaker.{BackendHealth, is_circuit_open}

pub record Backend : Type 0 where
  pub host : String
  pub port : ℕ
  pub role : String
  pub weight : ℕ
  pub database : String
  pub healthy : Bool
  pub draining : Bool
  pub drain_start : ℕ
  pub conn_count : ℕ

pub record Servers : Type 0 where
  pub heap : List (ℕ × Backend)
  pub next : ℕ
  pub backends : List ℕ
  pub primary : Option ℕ
  pub replicas : List ℕ
  pub health : List (String × BackendHealth)
  pub read_write_split : Bool

abbrev pub backend_at : ℕ → Servers → Option Backend
backend_at i s = lookup ℕ_discrete i s.heap

abbrev pub is_up : Backend → Bool
is_up b = b.healthy && not b.draining

-- The same without the circuit.
unfoldable pub is_healthy : Servers → ℕ → Bool
is_healthy s i = elim (backend_at i s) [ none ↦ false | some b ↦ is_up b ]

-- The loops that return the first backend of a list that passes the test.
unfoldable pub first : (ℕ → Bool) → List ℕ → Option ℕ
first test [] = none
first test (i ∷ is') = let rest = first test is' in if test i then some i else rest

abbrev pub or_else : Option ℕ → Option ℕ → Option ℕ
or_else none other = other
or_else (some i) other = some i

abbrev pub primary_if : (ℕ → Bool) → Servers → Option ℕ
primary_if test s = elim s.primary [ none ↦ none | some i ↦ if test i then some i else none ]

-- The address of a backend, which fmt.Sprintf makes of its host and its port.
module _ (address : String → ℕ → String) where
  abbrev pub address_of : Backend → String
  address_of b = address b.host b.port

  unfoldable pub circuit_open_of : Backend → Servers → Bool
  circuit_open_of b s = elim (lookup string_discrete (address_of b) s.health) [
    | none ↦ false
    | some h ↦ is_circuit_open h
  ]

  -- Healthy, not draining, and its circuit is not open.
  unfoldable pub is_available : Servers → ℕ → Bool
  is_available s i = elim (backend_at i s) [
    | none ↦ false
    | some b ↦ is_up b && not (circuit_open_of b s)
  ]

  unfoldable pub select_backend_with_fallback : Servers → Option ℕ
  select_backend_with_fallback s =
      or_else (primary_if (is_available s) s)
        (or_else (first (is_available s) s.replicas) (first (is_available s) s.backends))

  unfoldable pub select_backend_by_role : String → Servers → Option ℕ
  select_backend_by_role role s =
      let any = first (is_available s) s.backends in
      let main = primary_if (is_available s) s in
      if str_eq role "replica"
      then or_else (first (is_available s) s.replicas) (or_else main any)
      else if str_eq role "primary"
      then or_else main any
      else any

-- `weight - connCount*10`; `none` when it is negative, so that it never exceeds the -1 that the
-- greatest weight starts with.
unfoldable pub effective_weight : Backend → Option ℕ
effective_weight b =
    let weight = if b.weight == 0 then 100 else b.weight in
    if ltb weight (b.conn_count * 10) then none else some (weight - b.conn_count * 10)

-- `none` stands for the -1 in `maxWeight`.
unfoldable pub exceeds : Option ℕ → Option ℕ → Bool
exceeds none most = false
exceeds (some w) none = true
exceeds (some w) (some most) = ltb most w

abbrev pub weight_at : Servers → ℕ → Option ℕ
weight_at s i = elim (backend_at i s) [ none ↦ none | some b ↦ effective_weight b ]

-- The loop of `selectWeightedBackend`, with the backend selected so far and its weight.
unfoldable pub heaviest : Servers → List ℕ → Option ℕ → Option ℕ → Option ℕ
heaviest s [] selected most = selected
heaviest s (i ∷ is') selected most =
    let kept = heaviest s is' selected most in
    let taken = heaviest s is' (some i) (weight_at s i) in
    if exceeds (weight_at s i) most then taken else kept

unfoldable pub select_weighted_backend : Servers → List ℕ → Option ℕ
select_weighted_backend s [] = none
select_weighted_backend s (i ∷ []) = some i
select_weighted_backend s (i ∷ j ∷ is') = heaviest s (i ∷ j ∷ is') none none

unfoldable pub keep : (ℕ → Bool) → List ℕ → List ℕ
keep test [] = []
keep test (i ∷ is') = let rest = keep test is' in if test i then i ∷ rest else rest

unfoldable pub select_backend_for_query : Bool → Servers → Option ℕ
select_backend_for_query is_write s =
    let fallback = or_else (primary_if (is_healthy s) s) (first (is_healthy s) s.backends) in
    if is_write
    then fallback
    else if s.read_write_split
    then (elim (keep (is_healthy s) s.replicas) [
      | [] ↦ fallback
      | i ∷ is' ↦ select_weighted_backend s (i ∷ is')
    ])
    else fallback
