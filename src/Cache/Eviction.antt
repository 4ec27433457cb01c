-- ===== src/Cache/Eviction.antt =====
-- `Set` of internal/cache/store.go and its eviction loop: what is kept is the longest run of the most
-- recently used entries that leaves room for the new one.
use mathlib.Core.Option
use geryon.Base.{
  ℕ, zero, suc, ◌+◌, ◌-◌, ◌≤◌, ◌<◌, ◌≡◌, refl, sym, ap, ap₂, ◌∙◌, subst, inl, inr, string_discrete,
  true, false, Option, none, some, List, [], ◌∷◌, ◌++◌, String, arith, length, last?, init,
  Bool-cases, ltb,
}
use geryon.Base.Map.{lookup}
use geryon.Cache.{
  Entry, Store, evict_lru, evict_loop, over, make_room, drop_existing, remove_entry, set, too_large,
  effective_ttl, new_entry, insert_entry,
}
use geryon.Cache.Lru.{
  find, remove, total, find-last, remove-last, init-append-last, length-init, last?-eq-none,
  find-remove_self,
}
use geryon.Cache.Invariant.{
  IsValid, remove_entry-IsValid, list-remove_entry, counters-IsValid, drop_existing-IsValid,
  list-drop_existing, insert_entry-IsValid,
}
use geryon.Cache.Spec.{Item, view, fit, item, without, find_item, fresh_item}

-- The sizes of a prefix that fits, with what follows dropped.
fit-append :
    (room : ℕ) (l : List Entry) (e : Entry)
    → room < total (l ++ e ∷ [])
    → fit room (view (l ++ e ∷ [])) ≡ fit room (view l)
unfolding fit total
fit-append room [] e h = ground arith
fit-append room (x ∷ l) e h = ground (arith, fit-append (room - x.size) l e)

fit_all : (room : ℕ) (l : List Entry) → total l ≤ room → fit room (view l) ≡ view l
unfolding fit total
fit_all room [] h = refl
fit_all room (x ∷ l) h = ground (arith, fit_all (room - x.size) l)

module _ {s : Store} (v : IsValid s) where
  module _ (e : Entry) (last : last? s.eviction_list ≡ some e) where
    held : lookup string_discrete e.key s.entries ≡ some e
    held = v.agrees e.key ∙ find-last s.eviction_list e v.distinct last

    evict_lru-IsValid : IsValid (evict_lru s)
    unfolding evict_lru
    evict_lru-IsValid =
        rw (last, evict_lru) (counters-IsValid (remove_entry-IsValid e v held) _ _ _)

    list-evict_lru : (evict_lru s).eviction_list ≡ init s.eviction_list
    unfolding evict_lru
    list-evict_lru =
        rw (last, evict_lru)
          (list-remove_entry e v held ∙ remove-last s.eviction_list e v.distinct last)

-- What the loop leaves: a valid store whose list is the longest prefix that fits.
pub record Trimmed (s t : Store) (size : ℕ) : Type 0 where
  pub valid : IsValid t
  pub kept : view t.eviction_list ≡ fit (s.max_memory - size) (view s.eviction_list)
  pub room : t.current_memory + size ≤ s.max_memory
  pub max_memory : t.max_memory ≡ s.max_memory
  pub default_ttl : t.default_ttl ≡ s.default_ttl

evict_lru-limits :
    (s : Store)
    → ((evict_lru s).max_memory ≡ s.max_memory) × ((evict_lru s).default_ttl ≡ s.default_ttl)
unfolding evict_lru remove_entry
evict_lru-limits s = ground arith

fit-init :
    (room : ℕ) (l : List Entry) (e : Entry)
    → last? l ≡ some e
    → room < total l
    → fit room (view l) ≡ fit room (view (init l))
fit-init room l e last big =
    ap (λ k. fit room (view k)) (init-append-last l e last)
    ∙ fit-append room (init l) e (subst (λ k. room < total k) (init-append-last l e last) big)

Trimmed-done :
    (s : Store) (size : ℕ)
    → IsValid s
    → size ≤ s.max_memory
    → over size s ≡ false
    → Trimmed s s size
Trimmed-done s size v small stop = record {
  valid = v;
  kept = sym (fit_all (s.max_memory - size) s.eviction_list (omega (arith, v.accounted, room)));
  room = room;
  max_memory = refl;
  default_ttl = refl;
}
  where
    empty_total : (l : List Entry) → ltb 0 (length l) ≡ false → total l ≡ 0
    empty_total [] h = unfold total in refl
    empty_total (x ∷ l) h = ground arith

    room : s.current_memory + size ≤ s.max_memory
    room = ground (arith, v.accounted, empty_total s.eviction_list)

Trimmed-next :
    (s t : Store) (e : Entry) (size : ℕ)
    → IsValid s
    → size ≤ s.max_memory
    → over size s ≡ true
    → last? s.eviction_list ≡ some e
    → Trimmed (evict_lru s) t size
    → Trimmed s t size
Trimmed-next s t e size v small more last r = record {
  valid = r.valid;
  kept =
      r.kept
      ∙ ap (λ m. fit (m - size) (view (evict_lru s).eviction_list)) (evict_lru-limits s).0
      ∙ ap (λ l. fit (s.max_memory - size) (view l)) (list-evict_lru v e last)
      ∙ sym (fit-init (s.max_memory - size) s.eviction_list e last (ground (arith, v.accounted)));
  room = omega (arith, r.room, (evict_lru-limits s).0);
  max_memory = r.max_memory ∙ (evict_lru-limits s).0;
  default_ttl = r.default_ttl ∙ (evict_lru-limits s).1;
}

evict_loop-Trimmed :
    (fuel : ℕ) (s : Store) (size : ℕ)
    → IsValid s
    → size ≤ s.max_memory
    → length s.eviction_list ≤ fuel
    → Trimmed s (evict_loop fuel size s) size
unfolding evict_loop
evict_loop-Trimmed zero s size v small enough = Trimmed-done s size v small (ground arith)
evict_loop-Trimmed (suc fuel) s size v small enough = elim (Bool-cases (over size s)) [
  | inr stop ↦ rw stop (Trimmed-done s size v small stop)
  | inl more ↦
      rw more (go more (evict_loop-Trimmed fuel (evict_lru s) size) (last? s.eviction_list) refl)
]
  where
    go :
        over size s ≡ true
        → (IsValid (evict_lru s)
            → size ≤ (evict_lru s).max_memory
            → length (evict_lru s).eviction_list ≤ fuel
            → Trimmed (evict_lru s) (evict_loop fuel size (evict_lru s)) size)
        → (o : Option Entry) → last? s.eviction_list ≡ o
        → Trimmed s (evict_loop fuel size (evict_lru s)) size
    go more ih none e = absurd (ground (arith, last?-eq-none s.eviction_list e))
    go more ih (some x) e =
        Trimmed-next s (evict_loop fuel size (evict_lru s)) x size v small more e (
          ih (evict_lru-IsValid v x e) (omega (arith, (evict_lru-limits s).0))
            (rw (list-evict_lru v x e) (omega (arith, length-init s.eviction_list x e))))

pub drop_existing-limits :
    (key : String) (s : Store)
    → ((drop_existing key s).max_memory ≡ s.max_memory)
      × ((drop_existing key s).default_ttl ≡ s.default_ttl)
unfolding drop_existing remove_entry
drop_existing-limits key s = ground arith

-- What `Set` makes room with: whatever held the key goes, then the oldest entries go, and only as
-- many as needed.
pub make_room-Trimmed :
    (key : String) (size : ℕ) {s : Store}
    → IsValid s
    → size ≤ s.max_memory
    → Trimmed (drop_existing key s) (make_room key size s) size
unfolding make_room
make_room-Trimmed key size {s} v small =
    evict_loop-Trimmed (length (drop_existing key s).eviction_list) (drop_existing key s) size
      (drop_existing-IsValid v key) (omega (arith, (drop_existing-limits key s).0)) (omega arith)

pub view-remove : (k : String) (l : List Entry) → view (remove k l) ≡ without k (view l)
unfolding remove without
view-remove k [] = refl
view-remove k (x ∷ l) = ground (arith, view-remove k l)

pub view-find : (k : String) (l : List Entry) → find_item k (view l) ≡ Option.map item (find k l)
unfolding find find_item
view-find k [] = refl
view-find k (x ∷ l) = ground (arith, view-find k l)

find_item-fit :
    (k : String) (room : ℕ) (l : List Item) → find_item k l ≡ none → find_item k (fit room l) ≡ none
unfolding find_item fit
find_item-fit k room [] h = refl
find_item-fit k room (x ∷ l) h = ground (arith, find_item-fit k (room - x.size) l)

map-eq-none : (o : Option Entry) → Option.map item o ≡ none → o ≡ none
map-eq-none none h = refl
map-eq-none (some e) h = ground arith

-- Nothing is left under the key that `Set` makes room for.
find-make_room :
    (key : String) (size : ℕ) {s : Store}
    → IsValid s
    → size ≤ s.max_memory
    → find key (make_room key size s).eviction_list ≡ none
find-make_room key size {s} v small = map-eq-none (find key (make_room key size s).eviction_list) (
    sym (view-find key (make_room key size s).eviction_list)
    ∙ ap (find_item key) (make_room-Trimmed key size v small).kept
    ∙ find_item-fit key _ (view (drop_existing key s).eviction_list) gone)
  where
    gone : find_item key (view (drop_existing key s).eviction_list) ≡ none
    gone =
        view-find key (drop_existing key s).eviction_list
        ∙ ap (λ l. Option.map item (find key l)) (list-drop_existing v key)
        ∙ ap (Option.map item) (find-remove_self key s.eviction_list v.distinct)

module _ (now : ℕ) (key : String) (value : List ℕ) (tables : List String) (ttl : ℕ)
    (s : Store) where
  abbrev pub stored : Store
  stored =
      let t = make_room key (length value) s in
      insert_entry (new_entry now key value tables (effective_ttl ttl s) t.next_elem) t

  pub set_too_large :
      s.max_memory < length value → set now key value tables ttl s ≡ (s, some too_large)
  unfolding set
  set_too_large h = ground arith

  pub set-eq-stored : length value ≤ s.max_memory → set now key value tables ttl s ≡ (stored, none)
  unfolding set
  set-eq-stored h = ground arith

  module _ (v : IsValid s) (small : length value ≤ s.max_memory) where
    made : Trimmed (drop_existing key s) (make_room key (length value) s) (length value)
    made = make_room-Trimmed key (length value) v small

    pub stored-IsValid : IsValid stored
    stored-IsValid =
        insert_entry-IsValid made.valid
          (new_entry now key value tables (effective_ttl ttl s)
            (make_room key (length value) s).next_elem)
          refl (find-make_room key (length value) v small)
          (omega (arith, made.room, made.max_memory))

    -- The new entry stands at the front, and behind it the longest run of the other entries for
    -- which there is room.
    pub view-stored :
        view stored.eviction_list
        ≡ fresh_item now key value tables (effective_ttl ttl s)
          ∷ fit (s.max_memory - length value) (without key (view s.eviction_list))
    unfolding insert_entry
    view-stored = ap (◌∷◌ (fresh_item now key value tables (effective_ttl ttl s))) (
        made.kept
        ∙ ap₂ (λ m l. fit (m - length value) (view l)) (drop_existing-limits key s).0
            (list-drop_existing v key)
        ∙ ap (fit (s.max_memory - length value)) (view-remove key s.eviction_list))

    pub stored-limits : (stored.max_memory ≡ s.max_memory) × (stored.default_ttl ≡ s.default_ttl)
    unfolding insert_entry
    stored-limits = (
      made.max_memory ∙ (drop_existing-limits key s).0,
      made.default_ttl ∙ (drop_existing-limits key s).1,
    )
