-- ===== src/Cache.antt =====
-- internal/cache/store.go: the result cache, an LRU list with expiry under a memory limit.
-- Each method holds the mutex for its whole body, so it is one function from the state before to the
-- state after; `now` is the clock that it reads. A `*list.Element` is a number that `PushFront`
-- draws from `next_elem`; entries never change once they are stored, so the map and the list hold
-- the same values. Sizes and times are `int64` in the source and are numbers here: durations are
-- not negative.
pub mod Lru
pub mod Spec
pub mod Invariant
pub mod Eviction
pub mod Purge
pub mod Refinement
pub mod Laws
mod Tests
use geryon.Base.{
  ℕ, zero, suc, ◌+◌, ◌-◌, Bool, true, false, ◌&&◌, Option, none, some, List, [], ◌∷◌, String, ite,
  ltb, if◌then◌else◌, ℕ_discrete, string_discrete, length, last?, u64,
}
use geryon.Base.Map.{lookup, delete, put}

pub record Entry : Type 0 where
  pub key : String
  pub value : List ℕ
  pub size : ℕ
  pub created_at : ℕ
  pub expires_at : ℕ
  pub tables : List String
  pub elem : ℕ

-- `IsExpired`: `now.After(e.ExpiresAt)`
abbrev pub is_expired : ℕ → Entry → Bool
is_expired now e = ltb e.expires_at now

pub record Store : Type 0 where
  pub entries : List (String × Entry)
  pub eviction_list : List Entry
  pub max_memory : ℕ
  pub current_memory : ℕ
  pub default_ttl : ℕ
  pub hits : ℕ
  pub misses : ℕ
  pub evictions : ℕ
  pub next_elem : ℕ

pub new_store : ℕ → ℕ → Store
new_store max_memory default_ttl = record {
  entries = [];
  eviction_list = [];
  max_memory = max_memory;
  current_memory = 0;
  default_ttl = default_ttl;
  hits = 0;
  misses = 0;
  evictions = 0;
  next_elem = 0;
}

-- container/list: `Remove` and `MoveToFront`, which do nothing to an element of no list.
pub remove_elem : ℕ → List Entry → List Entry
remove_elem n [] = []
remove_elem n (x ∷ xs) = ite (ℕ_discrete x.elem n) xs (x ∷ remove_elem n xs)

pub find_elem : ℕ → List Entry → Option Entry
find_elem n [] = none
find_elem n (x ∷ xs) = ite (ℕ_discrete x.elem n) (some x) (find_elem n xs)

pub move_to_front : ℕ → List Entry → List Entry
move_to_front n l = elim (find_elem n l) [ none ↦ l | some e ↦ e ∷ remove_elem n l ]

pub remove_entry : Store → Entry → Store
remove_entry s e = record s {
  eviction_list = remove_elem e.elem s.eviction_list;
  entries = delete string_discrete e.key s.entries;
  current_memory = s.current_memory - e.size;
}

pub get_entry : ℕ → Store → Option Entry → Store × Option (List ℕ)
get_entry now s none = (record s { misses = u64 (s.misses + 1) }, none)
get_entry now s (some e) =
    if is_expired now e
    then (record (remove_entry s e) { misses = u64 (s.misses + 1) }, none)
    else (
      record s { eviction_list = move_to_front e.elem s.eviction_list; hits = u64 (s.hits + 1) },
      some e.value,
    )

pub get : ℕ → String → Store → Store × Option (List ℕ)
unfolding get_entry
get now key s = get_entry now s (lookup string_discrete key s.entries)

pub evict_lru : Store → Store
evict_lru s = elim (last? s.eviction_list) [
  | none ↦ s
  | some e ↦ record (remove_entry s e) { evictions = u64 (s.evictions + 1) }
]

abbrev pub over : ℕ → Store → Bool
over size s = ltb s.max_memory (s.current_memory + size) && ltb 0 (length s.eviction_list)

-- The loop of `Set`. The fuel is the length of the list: each round takes one element off it.
pub evict_loop : ℕ → ℕ → Store → Store
evict_loop zero size s = s
evict_loop (suc fuel) size s =
    let rest = evict_loop fuel size (evict_lru s) in if over size s then rest else s

pub drop_existing : String → Store → Store
drop_existing key s = elim (lookup string_discrete key s.entries) [
  | none ↦ s
  | some e ↦ remove_entry s e
]

abbrev pub new_entry : ℕ → String → List ℕ → List String → ℕ → ℕ → Entry
new_entry now key value tables ttl elem = record {
  key = key;
  value = value;
  size = length value;
  created_at = now;
  expires_at = now + ttl;
  tables = tables;
  elem = elem;
}

-- The new entry, in the map and at the front of the list.
pub insert_entry : Entry → Store → Store
insert_entry e s = record s {
  entries = put string_discrete e.key e s.entries;
  eviction_list = e ∷ s.eviction_list;
  current_memory = s.current_memory + e.size;
  next_elem = suc s.next_elem;
}

abbrev pub effective_ttl : ℕ → Store → ℕ
effective_ttl ttl s = ite (ℕ_discrete ttl 0) s.default_ttl ttl

pub data SetError : Type 0 where
  too_large : SetError

pub make_room : String → ℕ → Store → Store
make_room key size s = let t = drop_existing key s in evict_loop (length t.eviction_list) size t

pub set : ℕ → String → List ℕ → List String → ℕ → Store → Store × Option SetError
set now key value tables ttl s =
    if ltb s.max_memory (length value)
    then (s, some too_large)
    else let t = make_room key (length value) s in
      (insert_entry (new_entry now key value tables (effective_ttl ttl s) t.next_elem) t, none)

-- `Delete`
abbrev pub delete_key : String → Store → Store
delete_key key s = drop_existing key s

-- The entries for which `p` holds, collected while the map is visited, and then removed in turn.
pub select : (Entry → Bool) → List (String × Entry) → List Entry
select p [] = []
select p ((k, e) ∷ m) = let rest = select p m in if p e then e ∷ rest else rest

pub remove_all : List Entry → Store → Store
remove_all [] s = s
remove_all (e ∷ es) s = remove_all es (remove_entry s e)

pub mentions : String → List String → Bool
mentions table [] = false
mentions table (t ∷ ts) = let rest = mentions table ts in ite (string_discrete t table) true rest

abbrev pub purge : (Entry → Bool) → Store → Store
purge p s = remove_all (select p s.entries) s

pub invalidate_table : String → Store → Store
invalidate_table table s = purge (λ e. mentions table e.tables) s

pub invalidate_tables : List String → Store → Store
invalidate_tables [] s = s
invalidate_tables (t ∷ ts) s = invalidate_tables ts (invalidate_table t s)

pub cleanup_expired : ℕ → Store → Store
cleanup_expired now s = purge (is_expired now) s

pub clear : Store → Store
clear s = record s { entries = []; eviction_list = []; current_memory = 0 }

pub data Call : Type 0 where
  gets : String → Call
  sets : String → List ℕ → List String → ℕ → Call
  deletes : String → Call
  invalidates : List String → Call
  cleans clears : Call

-- One call at a time: whoever holds the mutex runs to the end.
pub step : Store → ℕ × Call → Store
step s (now, gets k) = (get now k s).0
step s (now, sets k v ts ttl) = (set now k v ts ttl s).0
step s (now, deletes k) = delete_key k s
step s (now, invalidates ts) = invalidate_tables ts s
step s (now, cleans) = cleanup_expired now s
step s (now, clears) = clear s

pub run : Store → List (ℕ × Call) → Store
run s [] = s
run s (c ∷ cs) = run (step s c) cs
