-- ===== src/Cache/Tests.antt =====
-- Runs of internal/cache/store.go on concrete calls.
use geryon.Base.{
  ℕ, ◌+◌, ◌≤◌, ◌≡◌, refl, Option, none, some, List, [], ◌∷◌, String, arith, ltb, if◌then◌else◌,
  length,
}
use geryon.Cache.{
  Store, new_store, Call, gets, sets, deletes, invalidates, cleans, clears, run, get, set,
  effective_ttl, invalidate_table, mentions,
}
use geryon.Cache.Spec.{Item, view, spec_run, find_item}
use geryon.Cache.Invariant.{IsValid}
use geryon.Cache.Refinement.{run-IsValid, run-spec_run}
use geryon.Cache.Laws.{Listed, get-set, get-invalidate_table}

-- Room for five bytes: `c` throws `a` out, which the hit on `b` left as the oldest.
abbrev script : List (ℕ × Call)
script =
    (1, sets "a" (1 ∷ 2 ∷ []) ("users" ∷ []) 0)
    ∷ (2, sets "b" (3 ∷ 4 ∷ []) ("orders" ∷ []) 50)
    ∷ (3, gets "b")
    ∷ (4, sets "c" (5 ∷ 6 ∷ []) ("users" ∷ "orders" ∷ []) 50)
    ∷ []

abbrev filled : Store
filled = run (new_store 5 10) script

abbrev filled-IsValid : IsValid filled
filled-IsValid = run-IsValid 5 10 script

evicted : (get 5 "a" filled).1 ≡ none
unfolding run geryon.Cache.step new_store get geryon.Cache.get_entry set geryon.Cache.insert_entry
    geryon.Cache.make_room geryon.Cache.evict_loop geryon.Cache.evict_lru geryon.Cache.drop_existing
    geryon.Cache.remove_entry geryon.Cache.move_to_front geryon.Cache.find_elem
    geryon.Cache.remove_elem geryon.Base.Map.lookup geryon.Base.Map.delete
    geryon.Base.string_discrete geryon.Base.ℕ_discrete
evicted = refl

kept : (get 5 "b" filled).1 ≡ some (3 ∷ 4 ∷ [])
unfolding run geryon.Cache.step new_store get geryon.Cache.get_entry set geryon.Cache.insert_entry
    geryon.Cache.make_room geryon.Cache.evict_loop geryon.Cache.evict_lru geryon.Cache.drop_existing
    geryon.Cache.remove_entry geryon.Cache.move_to_front geryon.Cache.find_elem
    geryon.Cache.remove_elem geryon.Base.Map.lookup geryon.Base.Map.delete
    geryon.Base.string_discrete geryon.Base.ℕ_discrete
kept = refl

run-IsValid_example : IsValid (run (new_store 5 10) script)
run-IsValid_example = run-IsValid 5 10 script

run-spec_run_example : view (run (new_store 5 10) script).eviction_list ≡ spec_run 5 10 [] script
run-spec_run_example = run-spec_run 5 10 script

filled_room : 2 ≤ filled.max_memory
unfolding run geryon.Cache.step new_store get geryon.Cache.get_entry set geryon.Cache.insert_entry
    geryon.Cache.make_room geryon.Cache.evict_loop geryon.Cache.evict_lru geryon.Cache.drop_existing
    geryon.Cache.remove_entry geryon.Cache.move_to_front geryon.Cache.find_elem
    geryon.Cache.remove_elem geryon.Base.Map.lookup geryon.Base.Map.delete
    geryon.Base.string_discrete geryon.Base.ℕ_discrete
filled_room = omega arith

get-set_example :
    (get 9 "d" (set 7 "d" (8 ∷ 9 ∷ []) ("users" ∷ []) 3 filled).0).1
    ≡ (if ltb (7 + effective_ttl 3 filled) 9 then none else some (8 ∷ 9 ∷ []))
get-set_example = get-set 7 9 "d" (8 ∷ 9 ∷ []) ("users" ∷ []) 3 filled filled-IsValid filled_room

abbrev found_item : Item
found_item = record {
  key = "b";
  value = 3 ∷ 4 ∷ [];
  size = 2;
  expires_at = 52;
  tables = "orders" ∷ [];
}

found : find_item "b" (view filled.eviction_list) ≡ some found_item
unfolding run geryon.Cache.step new_store get geryon.Cache.get_entry set geryon.Cache.insert_entry
    geryon.Cache.make_room geryon.Cache.evict_loop geryon.Cache.evict_lru geryon.Cache.drop_existing
    geryon.Cache.remove_entry geryon.Cache.move_to_front geryon.Cache.find_elem
    geryon.Cache.remove_elem geryon.Base.Map.lookup geryon.Base.Map.delete find_item
    geryon.Base.string_discrete geryon.Base.ℕ_discrete
found = refl

get-invalidate_table_example :
    (Listed "users" found_item.tables → (get 9 "b" (invalidate_table "users" filled)).1 ≡ none)
    × (¬ Listed "users" found_item.tables
        → (get 9 "b" (invalidate_table "users" filled)).1 ≡ (get 9 "b" filled).1)
get-invalidate_table_example =
    get-invalidate_table 9 "b" "users" found_item filled filled-IsValid found
