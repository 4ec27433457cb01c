-- ===== src/Cache/Lru.antt =====
-- The eviction list of internal/cache/store.go as a list of entries with distinct keys and elements.
use geryon.Base.{
  ℕ, suc, ◌+◌, ◌<◌, ◌≡◌, refl, ap, ◌≢◌, Option, none, some, List, [], ◌∷◌, ◌++◌, String, ite, arith,
  string_discrete, length, last?, init, All,
}
use geryon.Cache.{Entry, remove_elem, find_elem, move_to_front}

-- The entry that is stored under a key, looked up in the list.
unfoldable pub find : String → List Entry → Option Entry
find k [] = none
find k (x ∷ xs) = ite (string_discrete x.key k) (some x) (find k xs)

unfoldable pub remove : String → List Entry → List Entry
remove k [] = []
remove k (x ∷ xs) = ite (string_discrete x.key k) xs (x ∷ remove k xs)

unfoldable pub total : List Entry → ℕ
total [] = 0
total (x ∷ xs) = x.size + total xs

abbrev pub Distinct : List Entry → Type 0
Distinct [] = Unit {0}
Distinct (x ∷ xs) = (find x.key xs ≡ none) × (find_elem x.elem xs ≡ none) × Distinct xs

abbrev pub Below : ℕ → List Entry → Type 0
Below n = All (λ e. e.elem < n)

pub find-key : (k : String) (l : List Entry) (e : Entry) → find k l ≡ some e → e.key ≡ k
unfolding find
find-key k [] e h = ground arith
find-key k (x ∷ xs) e h = ground (arith, find-key k xs e)

pub find-remove_self : (k : String) (l : List Entry) → Distinct l → find k (remove k l) ≡ none
unfolding find remove
find-remove_self k [] d = refl
find-remove_self k (x ∷ xs) d = ground (arith, find-remove_self k xs d.2)

pub find-remove_ne : (k j : String) (l : List Entry) → j ≢ k → find j (remove k l) ≡ find j l
unfolding find remove
find-remove_ne k j [] h = refl
find-remove_ne k j (x ∷ xs) h = ground (arith, find-remove_ne k j xs h)

pub find_elem-remove_le :
    (n : ℕ) (k : String) (l : List Entry) → find_elem n l ≡ none → find_elem n (remove k l) ≡ none
unfolding find_elem remove
find_elem-remove_le n k [] h = refl
find_elem-remove_le n k (x ∷ xs) h = ground (arith, find_elem-remove_le n k xs)

pub find-remove_le : (j k : String) (l : List Entry) → find j l ≡ none → find j (remove k l) ≡ none
unfolding find remove
find-remove_le j k [] h = refl
find-remove_le j k (x ∷ xs) h = ground (arith, find-remove_le j k xs)

pub remove-Distinct : (k : String) (l : List Entry) → Distinct l → Distinct (remove k l)
unfolding remove
remove-Distinct k [] d = tt
remove-Distinct k (x ∷ xs) d = ground (
  arith,
  remove-Distinct k xs d.2,
  find-remove_le x.key k xs d.0,
  find_elem-remove_le x.elem k xs d.1,
)

pub remove-Below : (n : ℕ) (k : String) (l : List Entry) → Below n l → Below n (remove k l)
unfolding remove
remove-Below n k [] b = tt
remove-Below n k (x ∷ xs) b = ground (arith, remove-Below n k xs b.1)

-- A list element is unlinked by its own identity; that is the entry of its key.
pub remove_elem-eq-remove :
    (e : Entry) (l : List Entry)
    → Distinct l
    → find e.key l ≡ some e
    → remove_elem e.elem l ≡ remove e.key l
unfolding find find_elem remove remove_elem
remove_elem-eq-remove e [] d h = refl
remove_elem-eq-remove e (x ∷ xs) d h =
    ground (arith, remove_elem-eq-remove e xs d.2, elem_of_find e.key xs e)
  where
    elem_of_find :
        (k : String) (l : List Entry) (e : Entry) → find k l ≡ some e → find_elem e.elem l ≢ none
    elem_of_find k [] e h p = ground arith
    elem_of_find k (x ∷ xs) e h p = ground (arith, elem_of_find k xs e)

find_elem_of_find :
    (e : Entry) (l : List Entry) → Distinct l → find e.key l ≡ some e → find_elem e.elem l ≡ some e
unfolding find find_elem
find_elem_of_find e [] d h = ground arith
find_elem_of_find e (x ∷ xs) d h = ground (arith, find_elem_of_find e xs d.2)

pub move_to_front_lem :
    (e : Entry) (l : List Entry)
    → Distinct l
    → find e.key l ≡ some e
    → move_to_front e.elem l ≡ e ∷ remove e.key l
unfolding move_to_front
move_to_front_lem e l d h =
    rw (find_elem_of_find e l d h, move_to_front) (ap (◌∷◌ e) (remove_elem-eq-remove e l d h))

pub find_elem-remove :
    (e : Entry) (l : List Entry)
    → Distinct l
    → find e.key l ≡ some e
    → find_elem e.elem (remove e.key l) ≡ none
unfolding find find_elem remove
find_elem-remove e [] d h = refl
find_elem-remove e (x ∷ xs) d h =
    ground (arith, find_elem-remove e xs d.2, find_elem_of_find e xs d.2)

pub remove_absent : (k : String) (l : List Entry) → find k l ≡ none → remove k l ≡ l
unfolding find remove
remove_absent k [] h = refl
remove_absent k (x ∷ xs) h = ground (arith, remove_absent k xs)

pub total-remove :
    (k : String) (l : List Entry) (e : Entry)
    → find k l ≡ some e
    → total (remove k l) + e.size ≡ total l
unfolding find remove total
total-remove k [] e h = ground arith
total-remove k (x ∷ xs) e h = ground (arith, total-remove k xs e)

pub elem-Below :
    (n : ℕ) (k : String) (l : List Entry) (e : Entry) → Below n l → find k l ≡ some e → e.elem < n
unfolding find
elem-Below n k [] e b h = ground arith
elem-Below n k (x ∷ xs) e b h = ground (arith, elem-Below n k xs e b.1)

pub find_elem_above : (n : ℕ) (l : List Entry) → Below n l → find_elem n l ≡ none
unfolding find_elem
find_elem_above n [] b = refl
find_elem_above n (x ∷ xs) b = ground (arith, find_elem_above n xs b.1)

pub Below-suc : (n : ℕ) (l : List Entry) → Below n l → Below (suc n) l
Below-suc n [] b = tt
Below-suc n (x ∷ xs) b = (omega arith, Below-suc n xs b.1)

-- The element at the back of the list is found under its own key, and unlinking it drops the end.
pub find-last : (l : List Entry) (e : Entry) → Distinct l → last? l ≡ some e → find e.key l ≡ some e
unfolding find
find-last [] e d h = ground arith
find-last (x ∷ []) e d h = ground arith
find-last (x ∷ y ∷ xs) e d h = let ih = find-last (y ∷ xs) e d.2 h in ground (arith, ih)

pub remove-last :
    (l : List Entry) (e : Entry) → Distinct l → last? l ≡ some e → remove e.key l ≡ init l
unfolding find remove
remove-last [] e d h = ground arith
remove-last (x ∷ []) e d h = ground arith
remove-last (x ∷ y ∷ xs) e d h =
    let ih = remove-last (y ∷ xs) e d.2 h in
    let there = find-last (y ∷ xs) e d.2 h in ground (arith, ih, there)

pub init-append-last : (l : List Entry) (e : Entry) → last? l ≡ some e → l ≡ init l ++ e ∷ []
init-append-last [] e h = ground arith
init-append-last (x ∷ []) e h = ground arith
init-append-last (x ∷ y ∷ xs) e h = ap (◌∷◌ x) (init-append-last (y ∷ xs) e h)

pub length-init : (l : List Entry) (e : Entry) → last? l ≡ some e → length l ≡ suc (length (init l))
length-init [] e h = ground arith
length-init (x ∷ []) e h = refl
length-init (x ∷ y ∷ xs) e h = ap suc (length-init (y ∷ xs) e h)

pub total-append : (xs ys : List Entry) → total (xs ++ ys) ≡ total xs + total ys
unfolding total
total-append [] ys = omega arith
total-append (x ∷ xs) ys = omega (arith, total-append xs ys)

pub last?-eq-none : (l : List Entry) → last? l ≡ none → l ≡ []
last?-eq-none [] h = refl
last?-eq-none (x ∷ []) h = ground arith
last?-eq-none (x ∷ y ∷ xs) h = ground (arith, last?-eq-none (y ∷ xs) h)
