-- ===== src/Raft/Commit.antt =====
-- The commit index of a leader in internal/raft/raft.go: `advanceCommitIndex`.
use geryon.Base.{
  ℕ, zero, suc, ◌+◌, ◌*◌, ◌/◌, ◌≤◌, ◌<◌, ◌≡◌, ◌≢◌, refl, sym, ap, subst, ◌∙◌, Option, none, some,
  List, [], ◌∷◌, arith, Bool-cases, Option-cases, inl, inr, length, get_elem?, leb, ltb,
  if◌then◌else◌, All, All-map,
}
use geryon.Raft.Types.{Node}
use geryon.Raft.Log.{term_at}
use geryon.Raft.Replication.{insert_desc, sort_desc, match_indices, commit_to, advance_commit_index}

-- How many of the numbers are at least `i`.
unfoldable pub at_least : ℕ → List ℕ → ℕ
at_least i [] = 0
at_least i (x ∷ xs) = let rest = at_least i xs in if leb i x then suc rest else rest

Descending : List ℕ → Type 0
Descending [] = Unit
Descending (x ∷ xs) = All (λ y. y ≤ x) xs × Descending xs

at_least-insert_desc : (i x : ℕ) (ys : List ℕ) → at_least i (insert_desc x ys) ≡ at_least i (x ∷ ys)
unfolding at_least insert_desc
at_least-insert_desc i x [] = refl
at_least-insert_desc i x (y ∷ ys) = ground (arith, at_least-insert_desc i x ys)

at_least-sort_desc : (i : ℕ) (xs : List ℕ) → at_least i (sort_desc xs) ≡ at_least i xs
unfolding at_least sort_desc
at_least-sort_desc i [] = refl
at_least-sort_desc i (x ∷ xs) =
    ground (arith, at_least-insert_desc i x (sort_desc xs), at_least-sort_desc i xs)

All-insert_desc :
    (b x : ℕ) (ys : List ℕ) → x ≤ b → All (λ y. y ≤ b) ys → All (λ y. y ≤ b) (insert_desc x ys)
unfolding insert_desc
All-insert_desc b x [] h a = (h, tt)
All-insert_desc b x (y ∷ ys) h a = ground (arith, All-insert_desc b x ys h a.1)

insert_desc-Descending : (x : ℕ) (ys : List ℕ) → Descending ys → Descending (insert_desc x ys)
unfolding insert_desc Descending
insert_desc-Descending x [] d = (tt, tt)
insert_desc-Descending x (y ∷ ys) d = elim (Bool-cases (ltb x y)) [
  | inl e ↦ rw e (All-insert_desc y x ys (ground arith) d.0, insert_desc-Descending x ys d.1)
  | inr e ↦
      let below : y ≤ x = ground arith in rw e ((below, All-map (λ z h. omega arith) ys d.0), d)
]

sort_desc-Descending : (xs : List ℕ) → Descending (sort_desc xs)
unfolding sort_desc Descending
sort_desc-Descending [] = tt
sort_desc-Descending (x ∷ xs) = insert_desc-Descending x (sort_desc xs) (sort_desc-Descending xs)

get_elem?-le :
    (b : ℕ) (xs : List ℕ) (k i : ℕ) → All (λ y. y ≤ b) xs → get_elem? xs k ≡ some i → i ≤ b
get_elem?-le b [] k i a e = ground arith
get_elem?-le b (x ∷ xs) zero i a e = ground arith
get_elem?-le b (x ∷ xs) (suc k) i a e = get_elem?-le b xs k i a.1 e

-- In a descending list, the element at `k` is reached by `k + 1` of them.
get_elem?-at_least :
    (xs : List ℕ) (k i : ℕ) → Descending xs → get_elem? xs k ≡ some i → k + 1 ≤ at_least i xs
unfolding at_least Descending
get_elem?-at_least [] k i d e = ground arith
get_elem?-at_least (x ∷ xs) zero i d e = ground arith
get_elem?-at_least (x ∷ xs) (suc k) i d e =
    ground (arith, get_elem?-at_least xs k i d.1 e, get_elem?-le x xs k i d.0 e)

length-insert_desc : (x : ℕ) (ys : List ℕ) → length (insert_desc x ys) ≡ suc (length ys)
unfolding insert_desc
length-insert_desc x [] = refl
length-insert_desc x (y ∷ ys) = ground (arith, length-insert_desc x ys)

length-sort_desc : (xs : List ℕ) → length (sort_desc xs) ≡ length xs
unfolding sort_desc
length-sort_desc [] = refl
length-sort_desc (x ∷ xs) = omega (arith, length-insert_desc x (sort_desc xs), length-sort_desc xs)

commit_to-commit :
    (i : ℕ) (n : Node)
    → (commit_to i n).commit_index ≢ n.commit_index
    → ((commit_to i n).commit_index ≡ i)
      × ((n.commit_index < i) × (term_at i n.log_entries ≡ n.current_term))
unfolding commit_to
commit_to-commit i n h = ground arith

abbrev middle : Node → Option ℕ
middle n = let sorted = sort_desc (match_indices n) in get_elem? sorted (length sorted / 2)

advance_commit_index-none : (n : Node) → middle n ≡ none → advance_commit_index n ≡ n
unfolding advance_commit_index
advance_commit_index-none n e = rw (e, advance_commit_index)

advance_commit_index-some :
    (n : Node) (i : ℕ) → middle n ≡ some i → advance_commit_index n ≡ commit_to i n
unfolding advance_commit_index
advance_commit_index-some n i e = rw (e, advance_commit_index)

middle-majority :
    (n : Node) (i : ℕ)
    → middle n ≡ some i
    → length (match_indices n) < 2 * at_least i (match_indices n)
middle-majority n i e =
    let l = match_indices n in
    omega (
      arith,
      get_elem?-at_least (sort_desc l) (length (sort_desc l) / 2) i (sort_desc-Descending l) e,
      at_least-sort_desc i l,
      length-sort_desc l,
    )

-- An index that a leader may commit: its entry is of the current term, and more than half of the
-- nodes, as far as `matchIndex` tells, have reached it.
abbrev pub MayCommit : Node → ℕ → Type 0
MayCommit n i =
    (term_at i n.log_entries ≡ n.current_term)
    × (length (match_indices n) < 2 * at_least i (match_indices n))

-- When the commit index of a leader changes, it rises, to an index whose entry is of the current term
-- and which more than half of the nodes have reached by what `matchIndex` says.
pub advance_commit_index-MayCommit :
    (n : Node)
    → (advance_commit_index n).commit_index ≢ n.commit_index
    → (n.commit_index < (advance_commit_index n).commit_index)
      × MayCommit n (advance_commit_index n).commit_index
advance_commit_index-MayCommit n h = elim (Option-cases (middle n)) [
  | inl e ↦ absurd (h (ap (λ m. m.commit_index) (advance_commit_index-none n e)))
  | inr (i, e) ↦ go i e
]
  where
    go :
        (i : ℕ)
        → middle n ≡ some i
        → (n.commit_index < (advance_commit_index n).commit_index)
          × MayCommit n (advance_commit_index n).commit_index
    go i e =
        let same : (advance_commit_index n).commit_index ≡ (commit_to i n).commit_index =
          ap (λ m. m.commit_index) (advance_commit_index-some n i e) in
        let r = commit_to-commit i n (λ k. h (same ∙ k)) in
        subst (λ c. (n.commit_index < c) × MayCommit n c) (sym (same ∙ r.0))
          (r.1.0, (r.1.1, middle-majority n i e))
