-- ===== src/Pool/Backends/Selection.antt =====
-- Which backend internal/pool/pool.go selects.
use geryon.Base.{
  ℕ, ◌≡◌, refl, sym, subst, Bool, true, false, Option, none, some, List, [], ◌∷◌, String, str_eq,
  ◌⊎◌, inl, inr, All, Bool-cases, Option-cases, string_discrete,
}
use geryon.Pool.Backends.{
  Servers, is_available, first, or_else, primary_if, select_backend_with_fallback,
  select_backend_by_role,
}

abbrev pub Among : ℕ → List ℕ → Type 0
Among i [] = ⊥
Among i (j ∷ l) = (i ≡ j) ⊎ Among i l

pub All-Among : (P : ℕ → Type 0) (i : ℕ) (l : List ℕ) → All P l → Among i l → P i
All-Among P i [] h m = absurd m
All-Among P i (j ∷ l) h (inl e) = subst P (sym e) h.0
All-Among P i (j ∷ l) h (inr m) = All-Among P i l h.1 m

-- The primary and the replicas are backends of the pool.
pub record IsKnown (s : Servers) : Type 0 where
  pub main : (i : ℕ) → s.primary ≡ some i → Among i s.backends
  pub copies : (i : ℕ) → Among i s.replicas → Among i s.backends

-- A backend of the list that passes the test, or none when no backend of the list does.
abbrev pub Picked : (ℕ → Bool) → List ℕ → Option ℕ → Type 0
Picked test l none = All (λ i. test i ≡ false) l
Picked test l (some i) = (test i ≡ true) × Among i l

pub first-Picked : (test : ℕ → Bool) (l : List ℕ) → Picked test l (first test l)
unfolding first
first-Picked test [] = tt
first-Picked test (i ∷ l) = elim (Bool-cases (test i)) [
  | inl e ↦ rw (e) (e, inl refl)
  | inr e ↦ rw (e) (later (first test l) (first-Picked test l) e)
]
  where
    later : (o : Option ℕ) → Picked test l o → test i ≡ false → Picked test (i ∷ l) o
    later none h e = (e, h)
    later (some j) h e = (h.0, inr h.1)

-- What is picked from a part of the list, if anything is, is picked from the list.
or_else-Picked :
    (test : ℕ → Bool) (part l : List ℕ) (o p : Option ℕ)
    → ((i : ℕ) → Among i part → Among i l)
    → Picked test part o
    → Picked test l p
    → Picked test l (or_else o p)
or_else-Picked test part l none p sub h k = k
or_else-Picked test part l (some i) p sub h k = (h.0, sub i h.1)

main-Picked :
    (test : ℕ → Bool) (s : Servers) (p : Option ℕ)
    → IsKnown s
    → Picked test s.backends p
    → Picked test s.backends (or_else (primary_if test s) p)
main-Picked test s p k h = elim (Option-cases s.primary) [
  | inl e ↦ rw (e) h
  | inr (i, e) ↦ elim (Bool-cases (test i)) [
    | inl t ↦ rw (e, t) (t, k.main i e)
    | inr t ↦ rw (e, t) h
  ]
]

-- The primary is taken when it passes, whatever else there is.
main-first :
    (test : ℕ → Bool) (s : Servers) (p : Option ℕ) (i : ℕ)
    → s.primary ≡ some i
    → test i ≡ true
    → or_else (primary_if test s) p ≡ some i
main-first test s p i e t = rw (e, t) refl

first-some :
    (test : ℕ → Bool) (l : List ℕ) (i : ℕ)
    → Among i l
    → test i ≡ true
    → (j : ℕ) × (first test l ≡ some j) × Among j l
first-some test l i m t = elim (Option-cases (first test l)) [
  | inl e ↦
      absurd
        (cc (All-Among (λ j. test j ≡ false) i l (subst (Picked test l) e (first-Picked test l)) m))
  | inr (j, e) ↦ (j, e, (subst (Picked test l) e (first-Picked test l)).1)
]

module _ (address : String → ℕ → String) where
  -- `selectBackendWithFallback` answers a backend of the pool that is available, the primary if it is,
  -- and none only if no backend is available.
  pub select_backend_with_fallback-Picked :
      (s : Servers)
      → IsKnown s
      → Picked (is_available address s) s.backends (select_backend_with_fallback address s)
        × ((i : ℕ)
            → s.primary ≡ some i
            → is_available address s i ≡ true
            → select_backend_with_fallback address s ≡ some i)
  unfolding select_backend_with_fallback
  select_backend_with_fallback-Picked s k =
      let test = is_available address s in
      (
        main-Picked test s _ k (
            or_else-Picked test s.replicas s.backends (first test s.replicas) _ k.copies
              (first-Picked test s.replicas) (first-Picked test s.backends)),
        main-first test s _,
      )

  select_backend_by_role-any :
      (role : String) (s : Servers)
      → IsKnown s
      → Picked (is_available address s) s.backends (select_backend_by_role address role s)
  unfolding select_backend_by_role
  select_backend_by_role-any role s k =
      let test = is_available address s in
      let any = first-Picked test s.backends in
      let main = main-Picked test s _ k any in
      elim (Bool-cases (str_eq role "replica")) [
        | inl e ↦ rw (e) (
            or_else-Picked test s.replicas s.backends (first test s.replicas) _ k.copies
              (first-Picked test s.replicas) main)
        | inr e ↦ elim (Bool-cases (str_eq role "primary")) [
          | inl f ↦ rw (e, f) main
          | inr f ↦ rw (e, f) any
        ]
      ]

  -- `selectBackendByRole` answers a backend of the pool that is available, and none only if no backend
  -- is; asked for a replica it answers a replica if one is available.
  pub select_backend_by_role-Picked :
      (role : String) (s : Servers)
      → IsKnown s
      → Picked (is_available address s) s.backends (select_backend_by_role address role s)
        × ((i : ℕ)
            → Among i s.replicas
            → is_available address s i ≡ true
            → (j : ℕ) × (select_backend_by_role address "replica" s ≡ some j) × Among j s.replicas)
  unfolding select_backend_by_role string_discrete
  select_backend_by_role-Picked role s k = (
    select_backend_by_role-any role s k,
    λ i m t.
        let (j, e, a) = first-some (is_available address s) s.replicas i m t in (j, rw (e) refl, a),
  )
