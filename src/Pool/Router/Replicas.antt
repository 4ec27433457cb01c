-- ===== src/Pool/Router/Replicas.antt =====
-- Which replica the router of internal/pool/routing.go selects.
use geryon.Base.{
  ℕ, zero, suc, ◌-◌, ◌%◌, ◌^◌, ◌≡◌, ◌<◌, ◌≤◌, refl, ◌∙◌, sym, ap, subst, Bool, true, Option, none,
  some, List, [], ◌∷◌, length, get_elem?, arith, Bool-cases, ◌⊎◌, inl, inr, ltb, ◌==◌,
}
use geryon.Pool.Backends.Selection.{Among}
use geryon.Pool.Router.{
  Router, Choice, backend, no_backend, panicked, choice, at_index, round_robin, healthy_ones,
  select_among, select_replica,
}

pub remainder : (i n : ℕ) → i % suc n < suc n
remainder i n = omega arith

get_elem?-inside :
    (l : List ℕ) (i : ℕ) → i < length l → (b : ℕ) × (get_elem? l i ≡ some b) × Among b l
get_elem?-inside [] i h = absurd (omega (arith, h))
get_elem?-inside (b ∷ bs) zero h = (b, refl, inl refl)
get_elem?-inside (b ∷ bs) (suc i) h =
    let (c, e, a) = get_elem?-inside bs i (omega (arith, h)) in (c, e, inr a)

-- The primary, or a replica that is healthy; none if there is no primary, or `N`; a panic is that of a
-- counter beyond 2^63 queries.
abbrev pub Allowed : Type 0 → (ℕ → Bool) → Router → Choice → Type 0
Allowed N is_healthy r (backend b) =
    (r.primary ≡ some b) ⊎ ((is_healthy b ≡ true) × Among b r.replicas)
Allowed N is_healthy r no_backend = (r.primary ≡ none) ⊎ N
Allowed N is_healthy r panicked = 2 ^ 63 ≤ r.replica_index

pub choice-Allowed :
    (N : Type 0) (is_healthy : ℕ → Bool) (r : Router) → Allowed N is_healthy r (choice r.primary)
choice-Allowed N is_healthy r = named r.primary refl
  where
    named : (o : Option ℕ) → r.primary ≡ o → Allowed N is_healthy r (choice o)
    named none e = inl e
    named (some b) e = inl e

healthy_ones-Among :
    (is_healthy : ℕ → Bool) (l : List ℕ) (b : ℕ)
    → Among b (healthy_ones is_healthy l)
    → (is_healthy b ≡ true) × Among b l
unfolding healthy_ones
healthy_ones-Among is_healthy [] b m = absurd m
healthy_ones-Among is_healthy (c ∷ l) b m = elim (Bool-cases (is_healthy c)) [
  | inl e ↦
      let kept : healthy_ones is_healthy (c ∷ l) ≡ c ∷ healthy_ones is_healthy l = rw e refl in
      here e (healthy_ones-Among is_healthy l b) (subst (Among b) kept m)
  | inr e ↦
      let dropped : healthy_ones is_healthy (c ∷ l) ≡ healthy_ones is_healthy l = rw e refl in
      there (healthy_ones-Among is_healthy l b (subst (Among b) dropped m))
]
  where
    there : (is_healthy b ≡ true) × Among b l → (is_healthy b ≡ true) × Among b (c ∷ l)
    there (h, a) = (h, inr a)

    here :
        is_healthy c ≡ true
        → (Among b (healthy_ones is_healthy l) → (is_healthy b ≡ true) × Among b l)
        → Among b (c ∷ healthy_ones is_healthy l)
        → (is_healthy b ≡ true) × Among b (c ∷ l)
    here e h (inl f) = (ap is_healthy f ∙ e, inl f)
    here e h (inr a) = there (h a)

pub at_index-some : (l : List ℕ) (i b : ℕ) → get_elem? l i ≡ some b → at_index l i ≡ backend b
at_index-some l i b e = rw (at_index, e) refl

at_index-Allowed :
    (N : Type 0) (is_healthy : ℕ → Bool) (r : Router) (hs : List ℕ) (i : ℕ)
    → i < length hs
    → ((b : ℕ) → Among b hs → (is_healthy b ≡ true) × Among b r.replicas)
    → Allowed N is_healthy r (at_index hs i)
at_index-Allowed N is_healthy r hs i l h =
    let (b, e, a) = get_elem?-inside hs i l in
    subst (Allowed N is_healthy r) (sym (at_index-some hs i b e)) (inr (h b a))

round_robin-Allowed :
    (N : Type 0) (is_healthy : ℕ → Bool) (r : Router) (b : ℕ) (bs : List ℕ)
    → ((c : ℕ) → Among c (b ∷ bs) → (is_healthy c ≡ true) × Among c r.replicas)
    → Allowed N is_healthy r (round_robin r.replica_index (b ∷ bs))
unfolding round_robin
round_robin-Allowed N is_healthy r b bs h = elim (Bool-cases (ltb r.replica_index (2 ^ 63))) [
  | inl e ↦
      rw e (at_index-Allowed N is_healthy r (b ∷ bs) _ (remainder r.replica_index (length bs)) h)
  | inr e ↦ elim (Bool-cases ((2 ^ 64 - r.replica_index) % length (b ∷ bs) == 0)) [
    | inl f ↦ rw (e, f) (inr (h b (inl refl)))
    | inr f ↦ rw (e, f) (ground arith)
  ]
]

pub select_replica-Allowed :
    (N : Type 0) (is_healthy : ℕ → Bool) (r : Router)
    → Allowed N is_healthy r (select_replica is_healthy r).0
unfolding select_among
select_replica-Allowed N is_healthy r =
    among (healthy_ones is_healthy r.replicas) (healthy_ones-Among is_healthy r.replicas)
  where
    among :
        (hs : List ℕ)
        → ((b : ℕ) → Among b hs → (is_healthy b ≡ true) × Among b r.replicas)
        → Allowed N is_healthy r (select_among r hs).0
    among [] h = choice-Allowed N is_healthy r
    among (b ∷ []) h = inr (h b (inl refl))
    among (b ∷ c ∷ bs) h = round_robin-Allowed N is_healthy r b (c ∷ bs) h
