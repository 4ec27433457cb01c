-- ===== src/Pool/Router/Tests.antt =====
-- A router of internal/pool/routing.go with a primary, 0, and three replicas, of which 3 is not healthy.
use geryon.Base.{
  ℕ, Bool, true, false, List, [], ◌∷◌, ◌≡◌, ◌<◌, refl, some, inl, ltb, String, arith, length,
  string_discrete,
}
use geryon.Pool.Router.{
  Router, backend, round_robin, healthy_ones, select_among, select_replica, select_by, fall_back,
  select_backend, matching, route_query,
}
use geryon.Pool.Router.Laws.{Aimless, AllowedSoon, route_query-AllowedSoon}
use geryon.Pool.Router.Turns.{after_calls, select_replica-fair}

abbrev healthy : ℕ → Bool
healthy b = ltb b 3

abbrev router : Router
router = record {
  primary = some 0;
  replicas = 3 ∷ 1 ∷ 2 ∷ [];
  replica_index = 5;
  rules = record { pattern = "hot"; target = "replica"; fallback = "primary" } ∷ [];
  default_read = true;
}

abbrev always : String → List ℕ → Bool
always pattern query = true

routed : (route_query always healthy [] false router).0 ≡ backend 2
unfolding route_query matching select_backend select_by fall_back select_among round_robin
    healthy_ones string_discrete
routed = refl

route_query-AllowedSoon_example :
    AllowedSoon
      (Aimless always [] router)
      healthy
      router
      (route_query always healthy [] false router).0
route_query-AllowedSoon_example = route_query-AllowedSoon always healthy [] false router

select_replica-fair_example :
    (j : ℕ) × (j < length (healthy_ones healthy router.replicas))
    × ((select_replica healthy (after_calls healthy j router)).0 ≡ backend 1)
unfolding healthy_ones
select_replica-fair_example =
    select_replica-fair healthy router 1 (omega arith) (omega arith) (inl refl)
