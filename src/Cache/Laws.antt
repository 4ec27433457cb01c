-- ===== src/Cache/Laws.antt =====
-- What a client of internal/cache/store.go sees of one call after another.
use geryon.Base.{
  ℕ, ◌+◌, ◌≤◌, ◌≡◌, refl, ap, ◌∙◌, Bool, Option, none, some, List, [], ◌∷◌, String, arith, ltb,
  if◌then◌else◌, length, ◌⊎◌, inl, inr, true, false, sym, string_discrete,
}
use mathlib.Core.Option
use geryon.Cache.{Entry, Store, get, set, effective_ttl, invalidate_table, mentions}
use geryon.Cache.Lru.{Distinct}
use geryon.Cache.Spec.{Item, view, item, find_item, drop_if, answer}
use geryon.Cache.Invariant.{IsValid}
use geryon.Cache.Eviction.{set-eq-stored, stored-IsValid, view-stored, view-find}
use geryon.Cache.Refinement.{get-answer, invalidate_table-Shows}

module _ (now later : ℕ) (key : String) (value : List ℕ) (tables : List String) (ttl : ℕ) where
  -- On a valid store, a value that is not larger than the cache is read back under its key until
  -- its time to live (the default one where 0 is given) has passed, and not after that.
  pub get-set :
      (s : Store)
      → IsValid s
      → length value ≤ s.max_memory
      → (get later key (set now key value tables ttl s).0).1
        ≡ (if ltb (now + effective_ttl ttl s) later then none else some value)
  unfolding answer find_item
  get-set s v small = rw (set-eq-stored now key value tables ttl s small) (
      get-answer (stored-IsValid now key value tables ttl s v small) later key
      ∙ ap (λ l. answer later (find_item key l)) (view-stored now key value tables ttl s v small)
      ∙ ground arith)

abbrev DistinctItems : List Item → Type 0
DistinctItems [] = Unit {0}
DistinctItems (x ∷ l) = (find_item x.key l ≡ none) × DistinctItems l

view-DistinctItems : (l : List Entry) → Distinct l → DistinctItems (view l)
view-DistinctItems [] d = tt
view-DistinctItems (x ∷ l) d =
    (view-find x.key l ∙ ap (Option.map item) d.0, view-DistinctItems l d.2)

keep_if : (Item → Bool) → Option Item → Option Item
keep_if p none = none
keep_if p (some x) = if p x then none else some x

find_item-drop_if_absent :
    (p : Item → Bool) (k : String) (l : List Item)
    → find_item k l ≡ none
    → find_item k (drop_if p l) ≡ none
unfolding find_item drop_if
find_item-drop_if_absent p k [] h = refl
find_item-drop_if_absent p k (x ∷ l) h = ground (arith, find_item-drop_if_absent p k l)

find_item-drop_if :
    (p : Item → Bool) (k : String) (l : List Item)
    → DistinctItems l
    → find_item k (drop_if p l) ≡ keep_if p (find_item k l)
unfolding find_item drop_if keep_if
find_item-drop_if p k [] d = refl
find_item-drop_if p k (x ∷ l) d =
    ground (arith, find_item-drop_if p k l d.1, find_item-drop_if_absent p k l)

get-invalidate_table_if :
    (now : ℕ) (key t : String) (s : Store)
    → IsValid s
    → (get now key (invalidate_table t s)).1
      ≡ answer now (keep_if (λ x. mentions t x.tables) (find_item key (view s.eviction_list)))
get-invalidate_table_if now key t s v =
    let r = invalidate_table-Shows v t in
    get-answer r.valid now key
    ∙ ap (λ l. answer now (find_item key l)) r.items
    ∙ ap (answer now) (
        find_item-drop_if _ key (view s.eviction_list)
          (view-DistinctItems s.eviction_list v.distinct))

-- The name stands in the list.
abbrev pub Listed : String → List String → Type 0
Listed t [] = ⊥
Listed t (u ∷ us) = (t ≡ u) ⊎ Listed t us

mentions-Listed : (t : String) (us : List String) → Listed t us → mentions t us ≡ true
unfolding mentions
mentions-Listed t [] l = absurd l
mentions-Listed t (u ∷ us) (inl e) = ground arith
mentions-Listed t (u ∷ us) (inr l) = ground (arith, mentions-Listed t us l)

mentions-unlisted : (t : String) (us : List String) → ¬ Listed t us → mentions t us ≡ false
unfolding mentions
mentions-unlisted t [] n = refl
mentions-unlisted t (u ∷ us) n = elim (string_discrete u t) [
  | yes e ↦ absurd (n (inl (sym e)))
  | no e ↦ ground (arith, mentions-unlisted t us (λ l. n (inr l)))
]

-- On a valid store, after a table is invalidated, the key of an item answers nothing if the table is
-- among those that the item was stored with, and answers what it answered before if it is not.
pub get-invalidate_table :
    (now : ℕ) (key t : String) (x : Item) (s : Store)
    → IsValid s
    → find_item key (view s.eviction_list) ≡ some x
    → (Listed t x.tables → (get now key (invalidate_table t s)).1 ≡ none)
      × (¬ Listed t x.tables → (get now key (invalidate_table t s)).1 ≡ (get now key s).1)
unfolding keep_if answer
get-invalidate_table now key t x s v e =
    let kept =
      get-invalidate_table_if now key t s v
      ∙ ap (λ o. answer now (keep_if (λ y. mentions t y.tables) o)) e in
    (
      λ l. kept ∙ rw (mentions-Listed t x.tables l) refl,
      λ n.
          kept
          ∙ (rw (mentions-unlisted t x.tables n) refl
              ∙ sym (get-answer v now key ∙ ap (answer now) e)),
    )
