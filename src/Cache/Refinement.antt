-- ===== src/Cache/Refinement.antt =====
-- The store of internal/cache/store.go does to its entries what the recency list of `Spec` says.
use mathlib.Core.Option
use geryon.Base.{
  ℕ, ◌≡◌, refl, sym, ap, ◌∙◌, inl, inr, some, List, [], ◌∷◌, String, arith, string_discrete, length,
  Option-cases, Bool-cases, dec_lt, lt→ltb, nlt→ltb,
}
use geryon.Base.Map.{lookup}
use geryon.Cache.{
  Entry, Store, Call, gets, sets, deletes, invalidates, cleans, clears, new_store, get, get_entry,
  set, remove_entry, is_expired, invalidate_table, invalidate_tables, cleanup_expired, clear,
  delete_key, mentions, step, run,
}
use geryon.Cache.Lru.{find, total, move_to_front_lem}
use geryon.Cache.Spec.{
  Item, view, item, find_item, without, drop_if, stale, use_item, answer, drop_tables, spec_step,
  spec_run,
}
use geryon.Cache.Invariant.{
  IsValid, new_store-IsValid, get-IsValid, list-remove_entry, held_of_lookup, found,
  drop_existing-IsValid, list-drop_existing,
}
use geryon.Cache.Eviction.{
  view-remove, view-find, set-eq-stored, set_too_large, stored-IsValid, view-stored, stored-limits,
  drop_existing-limits,
}
use geryon.Cache.Purge.{purge-IsValid, purge-limits, view-purge}

-- A store `t` that is valid, shows the list `l`, and has the limits of `s`.
pub record Shows (s t : Store) (l : List Item) : Type 0 where
  pub valid : IsValid t
  pub items : view t.eviction_list ≡ l
  pub max_memory : t.max_memory ≡ s.max_memory
  pub default_ttl : t.default_ttl ≡ s.default_ttl

module _ {s : Store} (v : IsValid s) (now : ℕ) (key : String) where
  find_item-eq :
      find_item key (view s.eviction_list) ≡ Option.map item (lookup string_discrete key s.entries)
  find_item-eq = view-find key s.eviction_list ∙ ap (Option.map item) (sym (v.agrees key))

  -- `Get` answers with the value of the item under the key, unless it has expired.
  pub get-answer : (get now key s).1 ≡ answer now (find_item key (view s.eviction_list))
  unfolding get get_entry answer
  get-answer = ground (arith, find_item-eq)

  get_some-items :
      (e : Entry)
      → lookup string_discrete key s.entries ≡ some e
      → view (get_entry now s (some e)).0.eviction_list
        ≡ use_item now (view s.eviction_list) (some (item e))
  unfolding get_entry use_item
  get_some-items e h = elim (Bool-cases (is_expired now e)) [
    | inl old ↦
        rw (old, list-remove_entry e v (held_of_lookup v key e h))
          (view-remove e.key s.eviction_list)
    | inr new ↦
        rw
          (
            new,
            move_to_front_lem e s.eviction_list v.distinct (found e v (held_of_lookup v key e h)),
          )
          (ap (◌∷◌ (item e)) (view-remove e.key s.eviction_list))
  ]

  get-items :
      view (get now key s).0.eviction_list
      ≡ use_item now (view s.eviction_list) (find_item key (view s.eviction_list))
  unfolding get use_item
  get-items = rw find_item-eq (elim (Option-cases (lookup string_discrete key s.entries)) [
    | inl e ↦ rw (e, get_entry, use_item)
    | inr (x, e) ↦ rw e (get_some-items x e)
  ])

  get-limits :
      ((get now key s).0.max_memory ≡ s.max_memory)
      × ((get now key s).0.default_ttl ≡ s.default_ttl)
  unfolding get get_entry remove_entry
  get-limits = ground arith

  get-Shows :
      Shows s
        (get now key s).0
        (use_item now (view s.eviction_list) (find_item key (view s.eviction_list)))
  get-Shows = record {
    valid = get-IsValid v now key;
    items = get-items;
    max_memory = get-limits.0;
    default_ttl = get-limits.1;
  }

module _ {s : Store} (v : IsValid s) where
  set-Shows :
      (now : ℕ) (key : String) (value : List ℕ) (tables : List String) (ttl : ℕ)
      → Shows s (set now key value tables ttl s).0 (
          spec_step s.max_memory s.default_ttl
            (view s.eviction_list)
            (now, sets key value tables ttl))
  unfolding spec_step
  set-Shows now key value tables ttl = elim (dec_lt s.max_memory (length value)) [
    | yes big ↦
        rw (set_too_large now key value tables ttl s big, lt→ltb s.max_memory (length value) big)
          (record { valid = v; items = refl; max_memory = refl; default_ttl = refl })
    | no small ↦
        rw
          (
            set-eq-stored now key value tables ttl s (omega arith),
            nlt→ltb s.max_memory (length value) small,
          )
          (record {
            valid = stored-IsValid now key value tables ttl s v (omega arith);
            items = view-stored now key value tables ttl s v (omega arith);
            max_memory = (stored-limits now key value tables ttl s v (omega arith)).0;
            default_ttl = (stored-limits now key value tables ttl s v (omega arith)).1;
          })
  ]

  delete-Shows : (key : String) → Shows s (delete_key key s) (without key (view s.eviction_list))
  delete-Shows key = record {
    valid = drop_existing-IsValid v key;
    items = ap view (list-drop_existing v key) ∙ view-remove key s.eviction_list;
    max_memory = (drop_existing-limits key s).0;
    default_ttl = (drop_existing-limits key s).1;
  }

  pub invalidate_table-Shows :
      (t : String)
      → Shows s (invalidate_table t s) (drop_if (λ x. mentions t x.tables) (view s.eviction_list))
  unfolding invalidate_table
  invalidate_table-Shows t = record {
    valid = purge-IsValid v _;
    items = view-purge v _ (λ x. mentions t x.tables) (λ e. refl);
    max_memory = (purge-limits v (λ e. mentions t e.tables)).0;
    default_ttl = (purge-limits v (λ e. mentions t e.tables)).1;
  }

  cleanup_expired-Shows :
      (now : ℕ) → Shows s (cleanup_expired now s) (drop_if (stale now) (view s.eviction_list))
  unfolding cleanup_expired
  cleanup_expired-Shows now = record {
    valid = purge-IsValid v _;
    items = view-purge v _ (stale now) (λ e. refl);
    max_memory = (purge-limits v (is_expired now)).0;
    default_ttl = (purge-limits v (is_expired now)).1;
  }

  clear-Shows : Shows s (clear s) []
  unfolding clear find lookup total
  clear-Shows = record {
    valid = record {
      is_map = tt;
      agrees = λ k. refl;
      distinct = tt;
      fresh = tt;
      accounted = refl;
      bounded = omega arith;
    };
    items = refl;
    max_memory = refl;
    default_ttl = refl;
  }

invalidate_tables-Shows :
    (ts : List String) {s : Store}
    → IsValid s
    → Shows s (invalidate_tables ts s) (drop_tables ts (view s.eviction_list))
unfolding invalidate_tables drop_tables
invalidate_tables-Shows [] v = record {
  valid = v;
  items = refl;
  max_memory = refl;
  default_ttl = refl;
}
invalidate_tables-Shows (t ∷ ts) v =
    let one = invalidate_table-Shows v t in
    let rest = invalidate_tables-Shows ts one.valid in
    record {
      valid = rest.valid;
      items = rest.items ∙ ap (drop_tables ts) one.items;
      max_memory = rest.max_memory ∙ one.max_memory;
      default_ttl = rest.default_ttl ∙ one.default_ttl;
    }

step-Shows :
    {s : Store}
    → IsValid s
    → (c : ℕ × Call)
    → Shows s (step s c) (spec_step s.max_memory s.default_ttl (view s.eviction_list) c)
unfolding step spec_step
step-Shows v (now, gets k) = get-Shows v now k
step-Shows v (now, sets k x ts ttl) = set-Shows v now k x ts ttl
step-Shows v (now, deletes k) = delete-Shows v k
step-Shows v (now, invalidates ts) = invalidate_tables-Shows ts v
step-Shows v (now, cleans) = cleanup_expired-Shows v now
step-Shows v (now, clears) = clear-Shows v

run-Shows :
    (cs : List (ℕ × Call)) {s : Store}
    → IsValid s
    → Shows s (run s cs) (spec_run s.max_memory s.default_ttl (view s.eviction_list) cs)
unfolding run spec_run
run-Shows [] v = record { valid = v; items = refl; max_memory = refl; default_ttl = refl }
run-Shows (c ∷ cs) {s} v =
    let one = step-Shows v c in
    let rest = run-Shows cs one.valid in
    record {
      valid = rest.valid;
      items = rest.items ∙ λ i. spec_run (one.max_memory i) (one.default_ttl i) (one.items i) cs;
      max_memory = rest.max_memory ∙ one.max_memory;
      default_ttl = rest.default_ttl ∙ one.default_ttl;
    }

-- After any calls on a new store, the map and the list hold the same entries, each key and each list
-- element once, the memory in use is the sum of the sizes of the entries, and it is within the limit.
pub run-IsValid : (max ttl : ℕ) (cs : List (ℕ × Call)) → IsValid (run (new_store max ttl) cs)
run-IsValid max ttl cs = (run-Shows cs (new_store-IsValid max ttl)).valid

-- After any calls on a new store, the entries are those of the recency list on which each call did
-- what `spec_step` says, in the same order: a hit moves to the front, an expired entry is dropped
-- when it is met, a stored entry goes to the front, and eviction keeps the longest run of the most
-- recently used ones that fits.
pub run-spec_run :
    (max ttl : ℕ) (cs : List (ℕ × Call))
    → view (run (new_store max ttl) cs).eviction_list ≡ spec_run max ttl [] cs
unfolding new_store
run-spec_run max ttl cs = (run-Shows cs (new_store-IsValid max ttl)).items
