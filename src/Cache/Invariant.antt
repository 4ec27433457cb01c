-- ===== src/Cache/Invariant.antt =====
-- What holds of the store between two calls, for internal/cache/store.go.
use geryon.Base.{
  ℕ, ◌+◌, ◌≤◌, ◌≡◌, refl, sym, ap, ◌∙◌, inl, inr, none, some, ◌∷◌, String, ite, arith,
  string_discrete, Option-cases, Bool-cases,
}
use geryon.Base.Map.{lookup, IsMap, lookup-delete, lookup-put, delete-IsMap, put-IsMap}
use geryon.Cache.{
  Entry, Store, remove_entry, new_store, get, get_entry, insert_entry, is_expired, move_to_front,
  drop_existing,
}
use geryon.Cache.Lru.{
  find, remove, total, Distinct, Below, find-key, find-remove_self, find-remove_ne, remove-Distinct,
  remove-Below, remove_elem-eq-remove, move_to_front_lem, find_elem-remove, remove_absent,
  total-remove, elem-Below, find_elem_above, Below-suc,
}

pub record IsValid (s : Store) : Type 0 where
  -- The map and the list hold the same entries, each under its own key.
  pub is_map : IsMap string_discrete s.entries
  pub agrees : (k : String) → lookup string_discrete k s.entries ≡ find k s.eviction_list
  pub distinct : Distinct s.eviction_list
  pub fresh : Below s.next_elem s.eviction_list
  -- The memory in use is the sum of the sizes, and stays within the limit.
  pub accounted : s.current_memory ≡ total s.eviction_list
  pub bounded : s.current_memory ≤ s.max_memory

pub new_store-IsValid : (max ttl : ℕ) → IsValid (new_store max ttl)
unfolding new_store lookup find total
new_store-IsValid max ttl = record {
  is_map = tt;
  agrees = λ k. refl;
  distinct = tt;
  fresh = tt;
  accounted = refl;
  bounded = omega arith;
}

module _ {s : Store} (e : Entry) (v : IsValid s) where
  module _ (held : lookup string_discrete e.key s.entries ≡ some e) where
    pub found : find e.key s.eviction_list ≡ some e
    found = sym (v.agrees e.key) ∙ held

    pub list-remove_entry : (remove_entry s e).eviction_list ≡ remove e.key s.eviction_list
    unfolding remove_entry
    list-remove_entry = remove_elem-eq-remove e s.eviction_list v.distinct found

    remove_agrees :
        (k : String)
        → lookup string_discrete k (remove_entry s e).entries
          ≡ find k (remove e.key s.eviction_list)
    unfolding remove_entry
    remove_agrees k = ground (
      arith,
      lookup-delete string_discrete e.key k s.entries,
      v.agrees k,
      find-remove_self e.key s.eviction_list v.distinct,
      find-remove_ne e.key k s.eviction_list,
    )

    pub remove_entry-IsValid : IsValid (remove_entry s e)
    unfolding remove_entry
    remove_entry-IsValid = record {
      is_map = delete-IsMap string_discrete e.key s.entries v.is_map;
      agrees = λ k. rw list-remove_entry (remove_agrees k);
      distinct = rw list-remove_entry (remove-Distinct e.key s.eviction_list v.distinct);
      fresh = rw list-remove_entry (remove-Below s.next_elem e.key s.eviction_list v.fresh);
      accounted =
          rw list-remove_entry
            (omega (arith, v.accounted, total-remove e.key s.eviction_list e found));
      bounded = omega (arith, v.bounded);
    }

drop_existing-cases {ℓ} :
    (P : Store → Type ℓ) (key : String) (s : Store)
    → (lookup string_discrete key s.entries ≡ none → P s)
    → ((e : Entry) → lookup string_discrete key s.entries ≡ some e → P (remove_entry s e))
    → P (drop_existing key s)
unfolding drop_existing
drop_existing-cases P key s absent present =
    elim (Option-cases (lookup string_discrete key s.entries)) [
      | inl e ↦ rw (e, drop_existing) (absent e)
      | inr (x, e) ↦ rw (e, drop_existing) (present x e)
    ]

module _ {s : Store} (v : IsValid s) where
  pub key_of_lookup :
      (key : String) (e : Entry) → lookup string_discrete key s.entries ≡ some e → e.key ≡ key
  key_of_lookup key e h = find-key key s.eviction_list e (sym (v.agrees key) ∙ h)

  -- A looked-up entry is stored under its own key.
  pub held_of_lookup :
      (key : String) (e : Entry)
      → lookup string_discrete key s.entries ≡ some e
      → lookup string_discrete e.key s.entries ≡ some e
  held_of_lookup key e h = ap (λ k. lookup string_discrete k s.entries) (key_of_lookup key e h) ∙ h

  pub drop_existing-IsValid : (key : String) → IsValid (drop_existing key s)
  drop_existing-IsValid key =
      drop_existing-cases IsValid key s (λ _. v)
        (λ e h. remove_entry-IsValid e v (held_of_lookup key e h))

  pub list-drop_existing :
      (key : String) → (drop_existing key s).eviction_list ≡ remove key s.eviction_list
  list-drop_existing key =
      drop_existing-cases (λ t. t.eviction_list ≡ remove key s.eviction_list) key s
        (λ h. sym (remove_absent key s.eviction_list (sym (v.agrees key) ∙ h)))
        (λ e h.
          list-remove_entry e v (held_of_lookup key e h)
          ∙ ap (λ k. remove k s.eviction_list) (key_of_lookup key e h))

  touch-agrees :
      (e : Entry) (k : String)
      → find e.key s.eviction_list ≡ some e
      → find k s.eviction_list ≡ find k (e ∷ remove e.key s.eviction_list)
  unfolding find
  touch-agrees e k h = ground (arith, find-remove_ne e.key k s.eviction_list)

  -- The counters are no part of what is kept.
  pub counters-IsValid : (h m e : ℕ) → IsValid (record s { hits = h; misses = m; evictions = e })
  counters-IsValid h m e = record {
    is_map = v.is_map;
    agrees = v.agrees;
    distinct = v.distinct;
    fresh = v.fresh;
    accounted = v.accounted;
    bounded = v.bounded;
  }

  -- A hit moves the entry to the front.
  touch-IsValid :
      (e : Entry) (hits : ℕ)
      → lookup string_discrete e.key s.entries ≡ some e
      → IsValid (record s { eviction_list = move_to_front e.elem s.eviction_list; hits = hits })
  unfolding total
  touch-IsValid e hits h =
      let f = found e v h in
      rw (move_to_front_lem e s.eviction_list v.distinct f) (record {
        is_map = v.is_map;
        agrees = λ k. v.agrees k ∙ touch-agrees e k f;
        distinct = (
          find-remove_self e.key s.eviction_list v.distinct,
          find_elem-remove e s.eviction_list v.distinct f,
          remove-Distinct e.key s.eviction_list v.distinct,
        );
        fresh = (
          elem-Below s.next_elem e.key s.eviction_list e v.fresh f,
          remove-Below s.next_elem e.key s.eviction_list v.fresh,
        );
        accounted = omega (arith, v.accounted, total-remove e.key s.eviction_list e f);
        bounded = v.bounded;
      })

module _ {s : Store} (v : IsValid s) (now : ℕ) where
  get_some-IsValid :
      (key : String) (e : Entry)
      → lookup string_discrete key s.entries ≡ some e
      → IsValid (get_entry now s (some e)).0
  unfolding get_entry
  get_some-IsValid key e h = elim (Bool-cases (is_expired now e)) [
    | inl old ↦
        rw old (counters-IsValid (remove_entry-IsValid e v (held_of_lookup v key e h)) _ _ _)
    | inr new ↦ rw new (touch-IsValid v e _ (held_of_lookup v key e h))
  ]

  pub get-IsValid : (key : String) → IsValid (get now key s).0
  unfolding get
  get-IsValid key = elim (Option-cases (lookup string_discrete key s.entries)) [
    | inl e ↦ rw (e, get_entry) (counters-IsValid v _ _ _)
    | inr (x, e) ↦ rw e (get_some-IsValid key x e)
  ]

module _ {s : Store} (v : IsValid s) (e : Entry) where
  pub insert_entry-IsValid :
      e.elem ≡ s.next_elem
      → find e.key s.eviction_list ≡ none
      → s.current_memory + e.size ≤ s.max_memory
      → IsValid (insert_entry e s)
  unfolding insert_entry total find
  insert_entry-IsValid new absent fits = record {
    is_map = put-IsMap string_discrete e.key e s.entries v.is_map;
    agrees = λ k.
        lookup-put string_discrete e.key k e s.entries
        ∙ ap (ite (string_discrete e.key k) (some e)) (v.agrees k);
    distinct = (absent, rw new (find_elem_above s.next_elem s.eviction_list v.fresh), v.distinct);
    fresh = (omega (arith, new), Below-suc s.next_elem s.eviction_list v.fresh);
    accounted = omega (arith, v.accounted);
    bounded = fits;
  }
