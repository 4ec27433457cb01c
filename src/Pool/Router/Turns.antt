-- ===== src/Pool/Router/Turns.antt =====
-- The turns of the replicas in internal/pool/routing.go.
use native.Mathlib.Nat.{mod-add-mod, add-mod-mod, add-mod_left, mod-eq_of_lt}
use geryon.Base.{
  ℕ, zero, suc, ◌+◌, ◌-◌, ◌%◌, ◌^◌, ◌≡◌, ◌<◌, ◌≤◌, refl, ◌∙◌, sym, ap, Bool, true, List, [], ◌∷◌,
  length, get_elem?, some, arith, inl, inr, ltb,
}
use geryon.Pool.Backends.Selection.{Among}
use geryon.Pool.Router.{
  Router, backend, at_index, round_robin, healthy_ones, select_among, select_replica,
}
use geryon.Pool.Router.Replicas.{remainder, at_index-some}

-- The router after that many calls of `selectReplica`.
abbrev pub after_calls : (ℕ → Bool) → ℕ → Router → Router
after_calls is_healthy zero r = r
after_calls is_healthy (suc k) r = after_calls is_healthy k (select_replica is_healthy r).1

turn :
    (r : Router) (hs : List ℕ)
    → 2 ≤ length hs
    → r.replica_index < 2 ^ 63
    → select_among r hs ≡ (
      at_index hs (r.replica_index % length hs),
      record r { replica_index = r.replica_index + 1 },
    )
unfolding select_among round_robin
turn r [] two h = absurd (omega (arith, two))
turn r (b ∷ []) two h = absurd (omega (arith, two))
turn r (b ∷ c ∷ bs) two h =
    let near : ltb r.replica_index (2 ^ 63) ≡ true = ground arith in
    let next : (r.replica_index + 1) % 2 ^ 64 ≡ r.replica_index + 1 = omega (arith, h) in
    rw (near, next) refl

plus_zero : (i : ℕ) → i + 0 ≡ i
plus_zero i = omega arith

after_calls-index :
    (is_healthy : ℕ → Bool) (k : ℕ) (r : Router)
    → 2 ≤ length (healthy_ones is_healthy r.replicas)
    → r.replica_index + k ≤ 2 ^ 63
    → after_calls is_healthy k r ≡ record r { replica_index = r.replica_index + k }
after_calls-index is_healthy zero r two h =
    ap (λ i. record r { replica_index = i }) (sym (plus_zero r.replica_index))
after_calls-index is_healthy (suc k) r two h =
    ap (λ p. after_calls is_healthy k p.1)
      (turn r (healthy_ones is_healthy r.replicas) two (omega (arith, h)))
    ∙ (after_calls-index is_healthy k (record r { replica_index = r.replica_index + 1 }) two
          (omega (arith, h))
        ∙ ap (λ i. record r { replica_index = i }) (omega arith))

position : (l : List ℕ) (b : ℕ) → Among b l → (p : ℕ) × (p < length l) × (get_elem? l p ≡ some b)
position [] b m = absurd m
position (c ∷ l) b (inl e) = (0, omega arith, ap some (sym e))
position (c ∷ l) b (inr m) = let (p, h, e) = position l b m in (suc p, omega (arith, h), e)

around : (q n p : ℕ) → q < n → q + (n - q + p) ≡ n + p
around q n p h = omega (arith, h)

-- From any number one comes to any remainder.
reached : (i n p : ℕ) → p < n → (i + (n - i % n + p) % n) % n ≡ p
reached i zero p h = absurd (omega (arith, h))
reached i (suc n) p h =
    let x = suc n - i % suc n + p in
    add-mod-mod i x (suc n)
    ∙ (sym (mod-add-mod i (suc n) x)
        ∙ (ap (λ y. y % suc n) (around (i % suc n) (suc n) p (remainder i n))
            ∙ (add-mod_left (suc n) p ∙ mod-eq_of_lt h)))

below : (x n p : ℕ) → p < n → x % n < n
below x zero p h = absurd (omega (arith, h))
below x (suc n) p h = remainder x n

-- With n healthy replicas, two or more, and a counter that is no more than 2^63 - n, each of them is
-- selected by one of the next n calls of `selectReplica`.
pub select_replica-fair :
    (is_healthy : ℕ → Bool) (r : Router) (b : ℕ)
    → 2 ≤ length (healthy_ones is_healthy r.replicas)
    → r.replica_index + length (healthy_ones is_healthy r.replicas) ≤ 2 ^ 63
    → Among b (healthy_ones is_healthy r.replicas)
    → (j : ℕ) × (j < length (healthy_ones is_healthy r.replicas))
      × ((select_replica is_healthy (after_calls is_healthy j r)).0 ≡ backend b)
select_replica-fair is_healthy r b two h m =
    let hs = healthy_ones is_healthy r.replicas in
    let (p, l, e) = position hs b m in
    let i = r.replica_index in
    let n = length hs in
    let j = (n - i % n + p) % n in
    let near : j < n = below (n - i % n + p) n p l in
    (
      j,
      near,
      ap (λ s. (select_replica is_healthy s).0)
            (after_calls-index is_healthy j r two (omega (arith, h, near)))
          ∙ (ap (λ q. q.0)
                (turn (record r { replica_index = i + j }) hs two (omega (arith, h, near)))
              ∙ (ap (at_index hs) (reached i n p l) ∙ at_index-some hs p b e)),
    )
