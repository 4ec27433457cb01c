-- ===== src/Cache/Purge.antt =====
-- `InvalidateTable`, `InvalidateTables` and `cleanupExpired` of internal/cache/store.go: the entries
-- are collected from the map and then removed one by one.
use geryon.Base.{
  ◌≡◌, refl, sym, ap, ◌∙◌, ◌≢◌, Bool, true, false, none, some, List, [], ◌∷◌, String, ite, arith,
  string_discrete, All, All-map, Bool-cases, inl, inr, if◌then◌else◌,
}
use geryon.Base.Map.{lookup, lookup-delete_ne, IsMap, All-lookup}
use geryon.Cache.{Entry, Store, select, remove_all, remove_entry, purge}
use geryon.Cache.Lru.{find, remove, Distinct, remove-Distinct}
use geryon.Cache.Invariant.{
  IsValid, remove_entry-IsValid, list-remove_entry, key_of_lookup, held_of_lookup,
}
use geryon.Cache.Spec.{Item, view, item, drop_if}

abbrev Held : Store → List Entry → Type 0
Held s = All (λ e. lookup string_discrete e.key s.entries ≡ some e)

abbrev Apart : List Entry → Type 0
Apart [] = Unit {0}
Apart (e ∷ es) = All (λ x. x.key ≢ e.key) es × Apart es

Held-remove_entry :
    (s : Store) (e : Entry) (es : List Entry)
    → Held s es
    → All (λ x. x.key ≢ e.key) es
    → Held (remove_entry s e) es
unfolding remove_entry
Held-remove_entry s e [] h a = tt
Held-remove_entry s e (x ∷ es) h a = (
  lookup-delete_ne string_discrete e.key x.key s.entries a.0 ∙ h.0,
  Held-remove_entry s e es h.1 a.1,
)

strike : List Entry → List Entry → List Entry
strike [] l = l
strike (e ∷ es) l = strike es (remove e.key l)

record Struck (s t : Store) (es : List Entry) : Type 0 where
  valid : IsValid t
  list : t.eviction_list ≡ strike es s.eviction_list
  max_memory : t.max_memory ≡ s.max_memory
  default_ttl : t.default_ttl ≡ s.default_ttl

remove_all-Struck :
    (es : List Entry) (s : Store) → IsValid s → Held s es → Apart es → Struck s (remove_all es s) es
unfolding remove_all strike remove_entry
remove_all-Struck [] s v h a = record {
  valid = v;
  list = refl;
  max_memory = refl;
  default_ttl = refl;
}
remove_all-Struck (e ∷ es) s v h a =
    let r =
      remove_all-Struck es (remove_entry s e) (remove_entry-IsValid e v h.0)
        (Held-remove_entry s e es h.1 a.0) a.1 in
    record {
      valid = r.valid;
      list = r.list ∙ ap (strike es) (list-remove_entry e v h.0);
      max_memory = r.max_memory;
      default_ttl = r.default_ttl;
    }

-- Which keys a list of entries holds.
has : String → List Entry → Bool
has k [] = false
has k (e ∷ es) = ite (string_discrete e.key k) true (has k es)

reject : List Entry → List Entry → List Entry
reject es [] = []
reject es (x ∷ l) = let rest = reject es l in if has x.key es then rest else x ∷ rest

reject-nil : (l : List Entry) → reject [] l ≡ l
unfolding reject has
reject-nil [] = refl
reject-nil (x ∷ l) = ap (◌∷◌ x) (reject-nil l)

reject_absent :
    (e : Entry) (es l : List Entry) → find e.key l ≡ none → reject (e ∷ es) l ≡ reject es l
unfolding reject has find
reject_absent e es [] h = refl
reject_absent e es (x ∷ l) h = ground (arith, reject_absent e es l)

reject-remove :
    (e : Entry) (es l : List Entry) → Distinct l → reject (e ∷ es) l ≡ reject es (remove e.key l)
unfolding reject has remove
reject-remove e es [] d = refl
reject-remove e es (x ∷ l) d = ground (arith, reject-remove e es l d.2, reject_absent e es l)

strike-reject : (es l : List Entry) → Distinct l → strike es l ≡ reject es l
unfolding strike
strike-reject [] l d = sym (reject-nil l)
strike-reject (e ∷ es) l d =
    strike-reject es (remove e.key l) (remove-Distinct e.key l d) ∙ sym (reject-remove e es l d)

view-reject :
    (q : Item → Bool) (es l : List Entry)
    → All (λ x. has x.key es ≡ q (item x)) l
    → view (reject es l) ≡ drop_if q (view l)
unfolding reject drop_if
view-reject q es [] h = refl
view-reject q es (x ∷ l) h = ground (arith, view-reject q es l h.1)

All-find : (l : List Entry) → Distinct l → All (λ x. find x.key l ≡ some x) l
unfolding find
All-find [] d = tt
All-find (x ∷ l) d = (ground arith, All-map (λ y h. ground arith) l (All-find l d.2))

-- What `select` collects from a map whose entries stand under their own keys.
abbrev Keyed : List (String × Entry) → Type 0
Keyed = All (λ p. p.1.key ≡ p.0)

ne_of_absent :
    (k : String) (m : List (String × Entry))
    → lookup string_discrete k m ≡ none
    → Keyed m
    → All (λ q. q.1.key ≢ k) m
unfolding lookup
ne_of_absent k [] h y = tt
ne_of_absent k ((j, e) ∷ m) h y = (λ same. ground arith, ne_of_absent k m (ground arith) y.1)

module _ (p : Entry → Bool) where
  has-select_absent :
      (k : String) (m : List (String × Entry))
      → Keyed m
      → lookup string_discrete k m ≡ none
      → has k (select p m) ≡ false
  unfolding lookup select has
  has-select_absent k [] y h = refl
  has-select_absent k ((j, e) ∷ m) y h = ground (arith, has-select_absent k m y.1)

  has-select :
      (k : String) (m : List (String × Entry)) (e : Entry)
      → IsMap string_discrete m
      → Keyed m
      → lookup string_discrete k m ≡ some e
      → has k (select p m) ≡ p e
  unfolding lookup select has
  has-select k [] e u y h = ground arith
  has-select k ((j, x) ∷ m) e u y h =
      ground (arith, has-select k m e u.1 y.1, has-select_absent k m y.1)

  All-select {ℓ} :
      (P : Entry → Type ℓ) (m : List (String × Entry)) → All (λ q. P q.1) m → All P (select p m)
  unfolding select
  All-select P [] h = tt
  All-select P ((j, e) ∷ m) h = elim (Bool-cases (p e)) [
    | inl keep ↦ rw keep (h.0, All-select P m h.1)
    | inr skip ↦ rw skip (All-select P m h.1)
  ]

  Apart-select :
      (m : List (String × Entry)) → IsMap string_discrete m → Keyed m → Apart (select p m)
  unfolding select
  Apart-select [] u y = tt
  Apart-select ((j, e) ∷ m) u y = elim (Bool-cases (p e)) [
    | inl keep ↦ rw keep (
      All-select (λ x. x.key ≢ e.key) m (ne_of_absent e.key m (rw y.0 u.0) y.1),
      Apart-select m u.1 y.1,
    )
    | inr skip ↦ rw skip (Apart-select m u.1 y.1)
  ]

module _ {s : Store} (v : IsValid s) (p : Entry → Bool) where
  Keyed-entries : Keyed s.entries
  Keyed-entries =
      All-map (λ q h. key_of_lookup v q.0 q.1 h) s.entries
        (All-lookup string_discrete s.entries v.is_map)

  Held-entries : Held s (select p s.entries)
  Held-entries =
      All-select p (λ e. lookup string_discrete e.key s.entries ≡ some e) s.entries
        (All-map (λ q h. held_of_lookup v q.0 q.1 h) s.entries
          (All-lookup string_discrete s.entries v.is_map))

  struck : Struck s (purge p s) (select p s.entries)
  struck =
      remove_all-Struck (select p s.entries) s v Held-entries
        (Apart-select p s.entries v.is_map Keyed-entries)

  pub purge-IsValid : IsValid (purge p s)
  purge-IsValid = struck.valid

  pub purge-limits :
      ((purge p s).max_memory ≡ s.max_memory) × ((purge p s).default_ttl ≡ s.default_ttl)
  purge-limits = (struck.max_memory, struck.default_ttl)

  -- Exactly the entries for which the test holds are gone, and the others keep their order.
  pub view-purge :
      (q : Item → Bool)
      → ((e : Entry) → p e ≡ q (item e))
      → view (purge p s).eviction_list ≡ drop_if q (view s.eviction_list)
  view-purge q same =
      ap view (struck.list ∙ strike-reject (select p s.entries) s.eviction_list v.distinct)
      ∙ view-reject q (select p s.entries) s.eviction_list (
          All-map
            (λ x h.
              has-select p x.key s.entries x v.is_map Keyed-entries (v.agrees x.key ∙ h) ∙ same x)
            s.eviction_list (All-find s.eviction_list v.distinct))
