-- ===== src/Pool/Router/Laws.antt =====
-- What the router of internal/pool/routing.go answers.
use geryon.Base.{
  ℕ, ◌+◌, ◌^◌, ◌≡◌, ◌≤◌, refl, sym, subst, Bool, true, false, none, some, List, [], ◌∷◌, String,
  str_eq, arith, Bool-cases, Option-cases, ◌⊎◌, inl, inr, ◌&&◌, ◌||◌,
}
use geryon.Tokenizer.{classify_query, is_read_query}
use geryon.Pool.Router.{
  Router, RoutingRule, Choice, backend, no_backend, panicked, choice, healthy_ones, select_among,
  select_by, fall_back, select_backend, matching, default_route, route_query,
}
use geryon.Pool.Router.Replicas.{Allowed, choice-Allowed, select_replica-Allowed}

-- The words that a rule may have for where a query goes.
pub is_target : String → Bool
is_target t = str_eq t "primary" || str_eq t "replica"

select_by-Allowed :
    (N : Type 0) (is_healthy : ℕ → Bool) (target : String) (c : Choice) (r : Router)
    → (is_target target ≡ false → Allowed N is_healthy r c)
    → Allowed N is_healthy r (select_by is_healthy target c r).0
unfolding select_by is_target
select_by-Allowed N is_healthy target c r h = elim (Bool-cases (str_eq target "primary")) [
  | inl e ↦ rw e (choice-Allowed N is_healthy r)
  | inr e ↦ elim (Bool-cases (str_eq target "replica")) [
    | inl f ↦ rw (e, f) (select_replica-Allowed N is_healthy r)
    | inr f ↦ rw (e, f) (h (rw (e, f) refl))
  ]
]

-- A selection moves the counter by one at most, and nothing else.
record Moved (r s : Router) : Type 0 where
  same : s ≡ record r { replica_index = s.replica_index }
  little : s.replica_index ≤ r.replica_index + 1

still : (r : Router) → Moved r r
still r = record { same = refl; little = omega arith }

select_among-Moved : (r : Router) (hs : List ℕ) → Moved r (select_among r hs).1
unfolding select_among
select_among-Moved r [] = still r
select_among-Moved r (b ∷ []) = still r
select_among-Moved r (b ∷ c ∷ bs) = record { same = refl; little = omega arith }

select_by-Moved :
    (is_healthy : ℕ → Bool) (target : String) (c : Choice) (r : Router)
    → Moved r (select_by is_healthy target c r).1
unfolding select_by
select_by-Moved is_healthy target c r = elim (Bool-cases (str_eq target "primary")) [
  | inl e ↦ rw e (still r)
  | inr e ↦ elim (Bool-cases (str_eq target "replica")) [
    | inl f ↦ rw (e, f) (select_among-Moved r (healthy_ones is_healthy r.replicas))
    | inr f ↦ rw (e, f) (still r)
  ]
]

-- The same, one query later.
abbrev pub AllowedSoon : Type 0 → (ℕ → Bool) → Router → Choice → Type 0
AllowedSoon N is_healthy r (backend b) = Allowed N is_healthy r (backend b)
AllowedSoon N is_healthy r no_backend = (r.primary ≡ none) ⊎ N
AllowedSoon N is_healthy r panicked = 2 ^ 63 ≤ r.replica_index + 1

soon :
    (N : Type 0) (is_healthy : ℕ → Bool) (r s : Router) (c : Choice)
    → Moved r s
    → Allowed N is_healthy s c
    → AllowedSoon N is_healthy r c
soon N is_healthy r s (backend b) m a = subst (λ t. Allowed N is_healthy t (backend b)) m.same a
soon N is_healthy r s no_backend m a = subst (λ t. Allowed N is_healthy t no_backend) m.same a
soon N is_healthy r s panicked m a = omega (arith, m.little, a)

allowed :
    (N : Type 0) (is_healthy : ℕ → Bool) (r : Router) (c : Choice)
    → Allowed N is_healthy r c
    → AllowedSoon N is_healthy r c
allowed N is_healthy r c a = soon N is_healthy r r c (still r) a

back :
    (N : Type 0) (is_healthy : ℕ → Bool) (r s : Router) (b : ℕ)
    → Moved r s
    → Allowed N is_healthy r (backend b)
    → Allowed N is_healthy s (backend b)
back N is_healthy r s b m a = subst (λ t. Allowed N is_healthy t (backend b)) (sym m.same) a

no_primary : (r s : Router) → Moved r s → r.primary ≡ none → s.primary ≡ none
no_primary r s m e = subst (λ t. t.primary ≡ none) (sym m.same) e

fall_back-AllowedSoon :
    (N : Type 0) (is_healthy : ℕ → Bool) (fallback : String) (c : Choice) (r s : Router)
    → Moved r s
    → Allowed N is_healthy r c
    → AllowedSoon
        (N × (is_target fallback ≡ false))
        is_healthy
        r
        (fall_back is_healthy fallback c s).0
unfolding fall_back
fall_back-AllowedSoon N is_healthy fallback panicked r s m a = allowed N is_healthy r panicked a
fall_back-AllowedSoon N is_healthy fallback no_backend r s m a =
    let M = N × (is_target fallback ≡ false) in
    soon M is_healthy r s (select_by is_healthy fallback no_backend s).0 m (
      select_by-Allowed M is_healthy fallback no_backend s
        (λ u. elim a [ inl e ↦ inl (no_primary r s m e) | inr n ↦ inr (n, u) ]))
fall_back-AllowedSoon N is_healthy fallback (backend b) r s m a =
    let M = N × (is_target fallback ≡ false) in
    elim (Bool-cases (is_healthy b)) [
      | inl e ↦ rw e a
      | inr e ↦ rw e (
          soon M is_healthy r s (select_by is_healthy fallback (backend b) s).0 m (
            select_by-Allowed M is_healthy fallback (backend b) s
              (λ u. back N is_healthy r s b m a)))
    ]

default_route-Allowed :
    (N : Type 0) (is_healthy : ℕ → Bool) (query : List ℕ) (r : Router)
    → Allowed N is_healthy r (default_route is_healthy query r).0
unfolding default_route
default_route-Allowed N is_healthy query r =
    elim (Bool-cases (r.default_read && is_read_query (classify_query query))) [
      | inl e ↦ rw e (select_replica-Allowed N is_healthy r)
      | inr e ↦ rw e (choice-Allowed N is_healthy r)
    ]

-- A rule matches the query, and neither its target nor its fallback is "primary" or "replica".
abbrev pub Aimless : (String → List ℕ → Bool) → List ℕ → Router → Type 0
Aimless matches query r =
    (rule : RoutingRule) × (matching matches query r.rules ≡ some rule)
    × (is_target rule.target ≡ false)
    × (is_target rule.fallback ≡ false)

found-Aimless :
    (matches : String → List ℕ → Bool) (is_healthy : ℕ → Bool) (query : List ℕ) (r : Router)
    (rule : RoutingRule) (c : Choice)
    → matching matches query r.rules ≡ some rule
    → AllowedSoon
        ((is_target rule.target ≡ false) × (is_target rule.fallback ≡ false))
        is_healthy
        r
        c
    → AllowedSoon (Aimless matches query r) is_healthy r c
found-Aimless matches is_healthy query r rule (backend b) e a = a
found-Aimless matches is_healthy query r rule no_backend e (inl a) = inl a
found-Aimless matches is_healthy query r rule no_backend e (inr a) = inr (rule, e, a.0, a.1)
found-Aimless matches is_healthy query r rule panicked e a = a

-- Whatever the query and the rules, RouteQuery answers the primary, or a replica that is healthy; it
-- fails only when there is no primary, or when a rule matches of which neither the target nor the
-- fallback is "primary" or "replica"; and it panics only when the counter of rounds is at 2^63 - 1 or
-- beyond.
pub route_query-AllowedSoon :
    (matches : String → List ℕ → Bool) (is_healthy : ℕ → Bool) (query : List ℕ)
    (in_transaction : Bool) (r : Router)
    → AllowedSoon
        (Aimless matches query r)
        is_healthy
        r
        (route_query matches is_healthy query in_transaction r).0
unfolding route_query select_backend
route_query-AllowedSoon matches is_healthy query true r =
    let N = Aimless matches query r in
    allowed N is_healthy r (choice r.primary) (choice-Allowed N is_healthy r)
route_query-AllowedSoon matches is_healthy query false r =
    let N = Aimless matches query r in
    elim (Option-cases (matching matches query r.rules)) [
      | inl e ↦
          let same : (route_query matches is_healthy query false r).0
              ≡ (default_route is_healthy query r).0 =
            rw e refl in
          subst (AllowedSoon N is_healthy r) (sym same) (
            allowed N is_healthy r (default_route is_healthy query r).0
              (default_route-Allowed N is_healthy query r))
      | inr (rule, e) ↦
          found-Aimless matches is_healthy query r rule
            (route_query matches is_healthy query false r).0 e
            (rw e (
              fall_back-AllowedSoon (is_target rule.target ≡ false) is_healthy rule.fallback
                (select_by is_healthy rule.target no_backend r).0 r
                (select_by is_healthy rule.target no_backend r).1
                (select_by-Moved is_healthy rule.target no_backend r)
                (select_by-Allowed (is_target rule.target ≡ false) is_healthy rule.target no_backend
                  r (λ u. inr u))))
    ]
