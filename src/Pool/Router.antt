-- ===== src/Pool/Router.antt =====
-- internal/pool/routing.go: to which backend a query goes. A backend is a pointer, so a number; its
-- role and whether it is healthy are arguments. So are regular expressions: which compile, and
-- which match a query. A query is its bytes.
pub mod Replicas
pub mod Laws
pub mod Turns
mod Tests
use geryon.Base.{
  ℕ, suc, ◌+◌, ◌-◌, ◌%◌, ◌^◌, Bool, true, false, Option, none, some, List, [], ◌∷◌, ◌++◌, length,
  get_elem?, String, ◌&&◌, not, ltb, ◌==◌, str_eq, if◌then◌else◌, ◌⊎◌, inl, inr,
}
use geryon.Tokenizer.{classify_query, is_read_query}

pub record RoutingRule : Type 0 where
  pub pattern : String
  pub target : String
  pub fallback : String

-- The counter of the rounds is the 64 bits of an `int64`.
pub record Router : Type 0 where
  pub primary : Option ℕ
  pub replicas : List ℕ
  pub replica_index : ℕ
  pub rules : List RoutingRule
  pub default_read : Bool

pub data RouterError : Type 0 where
  no_primary invalid_pattern : RouterError

unfoldable pub sort_backend : (ℕ → String) → Router → ℕ → Router
sort_backend role r b =
    if str_eq (role b) "primary"
    then record r { primary = some b }
    else if str_eq (role b) "replica"
    then record r { replicas = r.replicas ++ b ∷ [] }
    else r

unfoldable pub sort_backends : (ℕ → String) → Router → List ℕ → Router
sort_backends role r [] = r
sort_backends role r (b ∷ bs) = sort_backends role (sort_backend role r b) bs

unfoldable pub all_compile : (String → Bool) → List RoutingRule → Bool
all_compile compiles [] = true
all_compile compiles (rule ∷ rules) =
    let rest = all_compile compiles rules in compiles rule.pattern && rest

abbrev pub is_none : Option ℕ → Bool
is_none none = true
is_none (some b) = false

unfoldable pub new_router :
    (String → Bool) → (ℕ → String) → Bool → List RoutingRule → List ℕ → RouterError ⊎ Router
new_router compiles role read_write_split rules backends =
    let r : Router =
      sort_backends role
        (record {
          primary = none;
          replicas = [];
          replica_index = 0;
          rules = [];
          default_read = false;
        })
        backends in
    if is_none r.primary && ltb 0 (length r.replicas)
    then inl no_primary
    else if not read_write_split
    then inr r
    else if all_compile compiles rules
    then inr (record r { rules = rules; default_read = true })
    else inl invalid_pattern

unfoldable pub update_backends : (ℕ → String) → List ℕ → Router → Router
update_backends role backends r =
    sort_backends role (record r { primary = none; replicas = [] }) backends

-- What is selected: a backend, none, which `RouteQuery` answers with an error, or an index out of range.
pub data Choice : Type 0 where
  backend : ℕ → Choice
  no_backend : Choice
  panicked : Choice

abbrev pub choice : Option ℕ → Choice
choice none = no_backend
choice (some b) = backend b

abbrev pub at_index : List ℕ → ℕ → Choice
at_index l i = elim (get_elem? l i) [ none ↦ panicked | some b ↦ backend b ]

-- `healthy[int(idx)%len(healthy)]`: the remainder of a negative number is not positive.
unfoldable pub round_robin : ℕ → List ℕ → Choice
round_robin index healthy =
    if ltb index (2 ^ 63)
    then at_index healthy (index % length healthy)
    else if (2 ^ 64 - index) % length healthy == 0
    then at_index healthy 0
    else panicked

unfoldable pub healthy_ones : (ℕ → Bool) → List ℕ → List ℕ
healthy_ones is_healthy [] = []
healthy_ones is_healthy (b ∷ bs) =
    let rest = healthy_ones is_healthy bs in if is_healthy b then b ∷ rest else rest

unfoldable pub select_among : Router → List ℕ → Choice × Router
select_among r [] = (choice r.primary, r)
select_among r (b ∷ []) = (backend b, r)
select_among r (b ∷ c ∷ bs) = (
  round_robin r.replica_index (b ∷ c ∷ bs),
  record r { replica_index = (r.replica_index + 1) % 2 ^ 64 },
)

abbrev pub select_replica : (ℕ → Bool) → Router → Choice × Router
select_replica is_healthy r = select_among r (healthy_ones is_healthy r.replicas)

unfoldable pub select_by : (ℕ → Bool) → String → Choice → Router → Choice × Router
select_by is_healthy target otherwise r =
    if str_eq target "primary"
    then (choice r.primary, r)
    else if str_eq target "replica"
    then select_replica is_healthy r
    else (otherwise, r)

unfoldable pub fall_back : (ℕ → Bool) → String → Choice → Router → Choice × Router
fall_back is_healthy fallback panicked r = (panicked, r)
fall_back is_healthy fallback no_backend r = select_by is_healthy fallback no_backend r
fall_back is_healthy fallback (backend b) r =
    if is_healthy b then (backend b, r) else select_by is_healthy fallback (backend b) r

unfoldable pub select_backend : (ℕ → Bool) → String → String → Router → Choice × Router
select_backend is_healthy target fallback r =
    let (c, s) = select_by is_healthy target no_backend r in fall_back is_healthy fallback c s

unfoldable pub matching : (String → List ℕ → Bool) → List ℕ → List RoutingRule → Option RoutingRule
matching matches query [] = none
matching matches query (rule ∷ rules) =
    let rest = matching matches query rules in
    if matches rule.pattern query then some rule else rest

unfoldable pub default_route : (ℕ → Bool) → List ℕ → Router → Choice × Router
default_route is_healthy query r =
    if r.default_read && is_read_query (classify_query query)
    then select_replica is_healthy r
    else (choice r.primary, r)

unfoldable pub route_query :
    (String → List ℕ → Bool) → (ℕ → Bool) → List ℕ → Bool → Router → Choice × Router
route_query matches is_healthy query in_transaction r =
    if in_transaction then (choice r.primary, r) else elim (matching matches query r.rules) [
      | none ↦ default_route is_healthy query r
      | some rule ↦ select_backend is_healthy rule.target rule.fallback r
    ]
