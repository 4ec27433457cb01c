-- ===== src/Raft/Matching.antt =====
-- What `appendEntry` of internal/raft/raft.go makes of a log whose indices are consecutive.
use geryon.Base.{
  ◌⊎◌, inl, inr, ℕ_discrete, ℕ, suc, ◌+◌, ◌≤◌, ◌<◌, ◌≡◌, refl, sym, ap, ◌∙◌, Option, none, some,
  List, [], ◌∷◌, arith, length, All,
}
use mathlib.Core.Option
use geryon.Raft.Types.{Entry}
use geryon.Raft.Log.{append_entry, append_all, entry_at}

-- The entries have the indices `k`, `k + 1` and so on.
abbrev pub Consecutive : ℕ → List Entry → Type 0
Consecutive k [] = Unit
Consecutive k (e ∷ l) = (e.index ≡ k) × Consecutive (suc k) l

abbrev term_of : Option Entry → Option ℕ
term_of o = Option.map (λ e. e.term) o

-- The log has the entry `e`; or it has, as it had before in `old`, one of the index and the term of `e`.
abbrev pub Holds : List Entry → List Entry → Entry → Type 0
Holds old l e =
    (entry_at e.index l ≡ some e)
    ⊎ ((entry_at e.index l ≡ entry_at e.index old) × (term_of (entry_at e.index old) ≡ some e.term))

append_entry-Consecutive :
    (k : ℕ) (e : Entry) (l : List Entry)
    → Consecutive k l
    → k ≤ e.index
    → e.index ≤ k + length l
    → Consecutive k (append_entry e l).0 × (e.index < k + length (append_entry e l).0)
unfolding append_entry
append_entry-Consecutive k e [] c h b = ground arith
append_entry-Consecutive k e (x ∷ l) c h b =
    ground (arith, append_entry-Consecutive (suc k) e l c.1)

entry_at_below : (k j : ℕ) (l : List Entry) → Consecutive k l → j < k → entry_at j l ≡ none
unfolding entry_at
entry_at_below k j [] c h = refl
entry_at_below k j (x ∷ l) c h = ground (arith, entry_at_below (suc k) j l c.1)

append_entry-Holds :
    (e : Entry) (l : List Entry)
    → (entry_at e.index (append_entry e l).0 ≡ some e)
      ⊎ (((append_entry e l).0 ≡ l) × (term_of (entry_at e.index l) ≡ some e.term))
unfolding append_entry entry_at
append_entry-Holds e [] = inl (ground arith)
append_entry-Holds e (x ∷ l) = elim (ℕ_discrete x.index e.index) [
  | no n ↦ elim (append_entry-Holds e l) [
    | inl h ↦ inl (ground arith)
    | inr h ↦ inr (ground (arith, h.0), ground (arith, h.1))
  ]
  | yes i ↦ elim (ℕ_discrete x.term e.term) [
    | yes t ↦ inr (ground arith, ground arith)
    | no n ↦ inl (ground arith)
  ]
]

append_entry-keeps :
    (k j : ℕ) (e : Entry) (l : List Entry)
    → Consecutive k l
    → j < e.index
    → entry_at j (append_entry e l).0 ≡ entry_at j l
unfolding append_entry entry_at
append_entry-keeps k j e [] c h = ground arith
append_entry-keeps k j e (x ∷ l) c h =
    ground (arith, append_entry-keeps (suc k) j e l c.1 h, entry_at_below (suc k) j l c.1)

append_all-keeps :
    (es : List Entry) (k p j : ℕ) (l : List Entry)
    → Consecutive k l
    → Consecutive p es
    → k ≤ p
    → p ≤ k + length l
    → j < p
    → entry_at j (append_all es l).0 ≡ entry_at j l
unfolding append_all
append_all-keeps [] k p j l c d h b i = refl
append_all-keeps (e ∷ es) k p j l c d h b i =
    let a = append_entry-Consecutive k e l c (omega arith) (omega arith) in
    append_all-keeps es k (suc p) j (append_entry e l).0 a.0 d.1 (omega arith) (omega arith)
      (omega arith)
    ∙ append_entry-keeps k j e l c (omega arith)

append_all-Consecutive :
    (es : List Entry) (k p : ℕ) (l : List Entry)
    → Consecutive k l
    → Consecutive p es
    → k ≤ p
    → p ≤ k + length l
    → Consecutive k (append_all es l).0
unfolding append_all
append_all-Consecutive [] k p l c d h b = c
append_all-Consecutive (e ∷ es) k p l c d h b =
    let a = append_entry-Consecutive k e l c (omega arith) (omega arith) in
    append_all-Consecutive es k (suc p) (append_entry e l).0 a.0 d.1 (omega arith) (omega arith)

append_entry-replaces :
    (k : ℕ) (e : Entry) (l : List Entry)
    → Consecutive k l
    → k ≤ e.index
    → e.index ≤ k + length l
    → ((append_entry e l).0 ≡ l) ⊎ (k + length (append_entry e l).0 ≡ suc e.index)
unfolding append_entry
append_entry-replaces k e [] c h b = inr (omega arith)
append_entry-replaces k e (x ∷ l) c h b = elim (ℕ_discrete x.index e.index) [
  | yes p ↦ ground arith
  | no p ↦ elim (append_entry-replaces (suc k) e l c.1 (omega (arith, c.0)) (omega arith)) [
    | inl q ↦ inl (ground arith)
    | inr q ↦ inr (ground arith)
  ]
]

entry_at_beyond :
    (k j : ℕ) (l : List Entry) → Consecutive k l → k + length l ≤ j → entry_at j l ≡ none
unfolding entry_at
entry_at_beyond k j [] c h = refl
entry_at_beyond k j (x ∷ l) c h = ground (arith, entry_at_beyond (suc k) j l c.1 (omega (arith, h)))

-- What the log holds behind an entry that was added, it held before.
append_entry-later :
    (k j : ℕ) (e : Entry) (l : List Entry)
    → Consecutive k l
    → k ≤ e.index
    → e.index ≤ k + length l
    → e.index < j
    → (entry_at j (append_entry e l).0 ≡ entry_at j l) ⊎ (entry_at j (append_entry e l).0 ≡ none)
append_entry-later k j e l c h b i = elim (append_entry-replaces k e l c h b) [
  | inl same ↦ inl (ap (entry_at j) same)
  | inr cut ↦
      let a = append_entry-Consecutive k e l c h b in
      inr (entry_at_beyond k j (append_entry e l).0 a.0 (omega (arith, cut, i)))
]

Holds-before :
    (k : ℕ) (d e : Entry) (l m : List Entry)
    → Consecutive k l
    → k ≤ e.index
    → e.index ≤ k + length l
    → e.index < d.index
    → Holds (append_entry e l).0 m d
    → Holds l m d
Holds-before k d e l m c h b i (inl g) = inl g
Holds-before k d e l m c h b i (inr g) = elim (append_entry-later k d.index e l c h b i) [
  | inl same ↦ inr (g.0 ∙ same, ap term_of (sym same) ∙ g.1)
  | inr gone ↦ absurd (no_term (sym (ap term_of gone) ∙ g.1))
]
  where
    no_term : {t : ℕ} → none ≡ some t → ⊥
    no_term e = ground arith

each_before :
    (ds : List Entry) (k p : ℕ) (e : Entry) (l m : List Entry)
    → Consecutive k l
    → k ≤ e.index
    → e.index ≤ k + length l
    → e.index < p
    → Consecutive p ds
    → All (Holds (append_entry e l).0 m) ds
    → All (Holds l m) ds
each_before [] k p e l m c h b i d a = tt
each_before (x ∷ ds) k p e l m c h b i d a = (
  Holds-before k x e l m c h b (omega (arith, i, d.0)) a.0,
  each_before ds k (suc p) e l m c h b (omega (arith, i)) d.1 a.1,
)

append_all-Holds :
    (es : List Entry) (k p : ℕ) (l : List Entry)
    → Consecutive k l
    → Consecutive p es
    → k ≤ p
    → p ≤ k + length l
    → All (Holds l (append_all es l).0) es
unfolding append_all
append_all-Holds [] k p l c d h b = tt
append_all-Holds (e ∷ es) k p l c d h b =
    let a = append_entry-Consecutive k e l c (omega arith) (omega arith) in
    let kept =
      append_all-keeps es k (suc p) e.index (append_entry e l).0 a.0 d.1 (omega arith) (omega arith)
        (omega arith) in
    (
      elim (append_entry-Holds e l) [
        | inl new ↦ inl (kept ∙ new)
        | inr (same, t) ↦ inr (kept ∙ ap (entry_at e.index) same, t)
      ],
      each_before es k (suc p) e l _ c (omega arith) (omega arith) (omega arith) d.1
          (append_all-Holds es k (suc p) (append_entry e l).0 a.0 d.1 (omega arith) (omega arith)),
    )

append_entry-end :
    (k : ℕ) (e : Entry) (l : List Entry)
    → Consecutive k l
    → e.index ≡ k + length l
    → k + length (append_entry e l).0 ≡ suc e.index
unfolding append_entry
append_entry-end k e [] c h = omega arith
append_entry-end k e (x ∷ l) c h = ground (arith, append_entry-end (suc k) e l c.1)

append_all-end :
    (es : List Entry) (k p : ℕ) (l : List Entry)
    → Consecutive k l
    → Consecutive p es
    → p ≡ k + length l
    → k + length (append_all es l).0 ≡ p + length es
unfolding append_all
append_all-end [] k p l c d h = omega arith
append_all-end (e ∷ es) k p l c d h =
    let a = append_entry-Consecutive k e l c (omega arith) (omega arith) in
    let more = append_entry-end k e l c (omega arith) in
    omega (arith, append_all-end es k (suc p) (append_entry e l).0 a.0 d.1 (omega arith))

append_all-replaces :
    (es : List Entry) (k p : ℕ) (l : List Entry)
    → Consecutive k l
    → Consecutive p es
    → k ≤ p
    → p ≤ k + length l
    → ((append_all es l).0 ≡ l) ⊎ (k + length (append_all es l).0 ≡ p + length es)
unfolding append_all
append_all-replaces [] k p l c d h b = inl refl
append_all-replaces (e ∷ es) k p l c d h b =
    let a = append_entry-Consecutive k e l c (omega arith) (omega arith) in
    elim (append_entry-replaces k e l c (omega arith) (omega arith)) [
      | inl same ↦
          elim (append_all-replaces es k (suc p) (append_entry e l).0 a.0 d.1 (omega arith)
            (omega arith)) [ inl r ↦ inl (r ∙ same) | inr r ↦ inr (omega (arith, r)) ]
      | inr cut ↦ inr (
          omega (
            arith,
            append_all-end es k (suc p) (append_entry e l).0 a.0 d.1 (omega (arith, cut, d.0)),
          ))
    ]

-- A log with the indices from `k` on is given entries with the indices from `p` on, where `p` is not
-- below `k` and leaves no gap. Then the log that results has consecutive indices too; holds every entry
-- that was given, itself, or as it was before where the log had one of the same index and term; is what
-- it was below `p`; and is what it was altogether or ends with the last entry that was given.
pub append_all-log_matching :
    (es : List Entry) (k p : ℕ) (l : List Entry)
    → Consecutive k l
    → Consecutive p es
    → k ≤ p
    → p ≤ k + length l
    → Consecutive k (append_all es l).0
      × (All (Holds l (append_all es l).0) es
          × (((j : ℕ) → j < p → entry_at j (append_all es l).0 ≡ entry_at j l)
              × (((append_all es l).0 ≡ l) ⊎ (k + length (append_all es l).0 ≡ p + length es))))
append_all-log_matching es k p l c d h b = (
  append_all-Consecutive es k p l c d h b,
  (
    append_all-Holds es k p l c d h b,
    (λ j i. append_all-keeps es k p j l c d h b i, append_all-replaces es k p l c d h b),
  ),
)
