-- ===== src/Cache/Spec.antt =====
-- An abstract cache: a list of items, most recently used first, and nothing else. Each operation of
-- internal/cache/store.go is described here by what it does to that list.
use geryon.Base.{
  ℕ, ◌+◌, ◌-◌, Bool, Option, none, some, List, [], ◌∷◌, String, ite, ltb, leb, if◌then◌else◌,
  ℕ_discrete, string_discrete, length,
}
use geryon.Cache.{Entry, Call, gets, sets, deletes, invalidates, cleans, clears, mentions}

pub record Item : Type 0 where
  pub key : String
  pub value : List ℕ
  pub size : ℕ
  pub expires_at : ℕ
  pub tables : List String

-- The cache that an entry of the store stands for: its list element is forgotten.
abbrev pub item : Entry → Item
item e = record {
  key = e.key;
  value = e.value;
  size = e.size;
  expires_at = e.expires_at;
  tables = e.tables;
}

abbrev pub view : List Entry → List Item
view [] = []
view (e ∷ l) = item e ∷ view l

unfoldable pub find_item : String → List Item → Option Item
find_item k [] = none
find_item k (x ∷ l) = ite (string_discrete x.key k) (some x) (find_item k l)

unfoldable pub without : String → List Item → List Item
without k [] = []
without k (x ∷ l) = ite (string_discrete x.key k) l (x ∷ without k l)

-- The longest prefix whose sizes add up to at most `room`.
unfoldable pub fit : ℕ → List Item → List Item
fit room [] = []
fit room (x ∷ l) = let rest = fit (room - x.size) l in if leb x.size room then x ∷ rest else []

unfoldable pub drop_if : (Item → Bool) → List Item → List Item
drop_if p [] = []
drop_if p (x ∷ l) = let rest = drop_if p l in if p x then rest else x ∷ rest

abbrev pub stale : ℕ → Item → Bool
stale now x = ltb x.expires_at now

unfoldable pub use_item : ℕ → List Item → Option Item → List Item
use_item now l none = l
use_item now l (some x) = if stale now x then without x.key l else x ∷ without x.key l

unfoldable pub answer : ℕ → Option Item → Option (List ℕ)
answer now none = none
answer now (some x) = if stale now x then none else some x.value

abbrev pub fresh_item : ℕ → String → List ℕ → List String → ℕ → Item
fresh_item now k v ts ttl = record {
  key = k;
  value = v;
  size = length v;
  expires_at = now + ttl;
  tables = ts;
}

unfoldable pub drop_tables : List String → List Item → List Item
drop_tables [] l = l
drop_tables (t ∷ ts) l = drop_tables ts (drop_if (λ x. mentions t x.tables) l)

-- `max` and `ttl` are the limit and the default time to live, which no call changes.
unfoldable pub spec_step : ℕ → ℕ → List Item → ℕ × Call → List Item
unfolding use_item drop_tables
spec_step max ttl l (now, gets k) = use_item now l (find_item k l)
spec_step max ttl l (now, sets k v ts t) =
    if ltb max (length v)
    then l
    else fresh_item now k v ts (ite (ℕ_discrete t 0) ttl t) ∷ fit (max - length v) (without k l)
spec_step max ttl l (now, deletes k) = without k l
spec_step max ttl l (now, invalidates ts) = drop_tables ts l
spec_step max ttl l (now, cleans) = drop_if (stale now) l
spec_step max ttl l (now, clears) = []

unfoldable pub spec_run : ℕ → ℕ → List Item → List (ℕ × Call) → List Item
spec_run max ttl l [] = l
spec_run max ttl l (c ∷ cs) = spec_run max ttl (spec_step max ttl l c) cs
