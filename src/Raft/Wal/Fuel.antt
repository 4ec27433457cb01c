-- ===== src/Raft/Wal/Fuel.antt =====
-- The loops of internal/raft/wal.go end: a record that is read leaves fewer bytes.
use geryon.Base.{
  ℕ, zero, suc, ◌+◌, ◌*◌, ◌≤◌, ◌<◌, ◌≡◌, refl, ◌∙◌, subst, Option, none, some, List, [], ◌∷◌, ltb,
  ◌==◌, length, take, drop, arith, Bool-cases, inl, inr, ◌⊎◌,
}
use geryon.Raft.Types.{Entry}
use geryon.Raft.Wal.{
  Codec, Wal, read_u32, Reading, entry, at_end, torn, damaged, check_data, read_data, read_entry,
  read_loop, recover_loop, note, Answer, entries, failed, unfinished, add_entry,
}

Reading-cases :
    (r : Reading)
    → ((e : Entry) × (rest : List ℕ) × (r ≡ entry e rest))
      ⊎ ((r ≡ at_end) ⊎ ((r ≡ torn) ⊎ (r ≡ damaged)))
Reading-cases (entry e rest) = inl (e, rest, refl)
Reading-cases at_end = inr (inl refl)
Reading-cases torn = inr (inr (inl refl))
Reading-cases damaged = inr (inr (inr refl))

-- What an entry leaves is shorter by so much at least.
abbrev Leaves : ℕ → ℕ → Reading → Type 0
Leaves n m (entry e rest) = length rest + n ≤ m
Leaves n m at_end = Unit
Leaves n m torn = Unit
Leaves n m damaged = Unit

length-drop : (n : ℕ) (xs : List ℕ) → length (drop n xs) ≤ length xs
length-drop zero xs = omega arith
length-drop (suc n) [] = omega arith
length-drop (suc n) (x ∷ xs) = omega (arith, length-drop n xs)

check_data-Leaves :
    (c : Codec) (sum m : ℕ) (bytes rest : List ℕ)
    → length rest ≤ m
    → Leaves 0 m (check_data c sum bytes rest)
unfolding check_data
check_data-Leaves c sum m bytes rest h = elim (Bool-cases (c.crc bytes == sum)) [
  | inr e ↦ rw (e) tt
  | inl e ↦ rw (e) (decoded (c.decode bytes))
]
  where
    decoded :
        (o : Option Entry)
        → Leaves 0 m (elim o as (λ _. Reading) [ none ↦ damaged | some e ↦ entry e rest ])
    decoded none = tt
    decoded (some e) = omega arith

read_data-Leaves :
    (c : Codec) (sum n : ℕ) (rest : List ℕ) → Leaves 0 (length rest) (read_data c sum n rest)
unfolding read_data
read_data-Leaves c sum n rest = elim (Bool-cases (n == 0)) [
  | inl e ↦ rw (e) (check_data-Leaves c sum (length rest) [] rest (omega arith))
  | inr e ↦ elim (Bool-cases (length rest == 0)) [
    | inl f ↦ rw (e, f) tt
    | inr f ↦ elim (Bool-cases (ltb (length rest) n)) [
      | inl g ↦ rw (e, f, g) tt
      | inr g ↦
          rw (e, f, g)
            (check_data-Leaves c sum (length rest) (take n rest) (drop n rest) (length-drop n rest))
    ]
  ]
]

Leaves-more : (r : Reading) (n m k : ℕ) → Leaves 0 m r → m + n ≤ k → Leaves n k r
Leaves-more (entry e rest) n m k h l = omega arith
Leaves-more at_end n m k h l = tt
Leaves-more torn n m k h l = tt
Leaves-more damaged n m k h l = tt

read_entry-Leaves : (c : Codec) (bytes : List ℕ) → Leaves 8 (length bytes) (read_entry c bytes)
unfolding read_entry read_u32
read_entry-Leaves c [] = tt
read_entry-Leaves c (a ∷ []) = tt
read_entry-Leaves c (a ∷ b ∷ []) = tt
read_entry-Leaves c (a ∷ b ∷ d ∷ []) = tt
read_entry-Leaves c (a ∷ b ∷ d ∷ e ∷ []) = tt
read_entry-Leaves c (a ∷ b ∷ d ∷ e ∷ f ∷ []) = tt
read_entry-Leaves c (a ∷ b ∷ d ∷ e ∷ f ∷ g ∷ []) = tt
read_entry-Leaves c (a ∷ b ∷ d ∷ e ∷ f ∷ g ∷ h ∷ []) = tt
read_entry-Leaves c (a ∷ b ∷ d ∷ e ∷ f ∷ g ∷ h ∷ i ∷ rest) =
    Leaves-more
      (read_data c (((a * 256 + b) * 256 + d) * 256 + e) (((f * 256 + g) * 256 + h) * 256 + i) rest)
      8 (length rest) (length (a ∷ b ∷ d ∷ e ∷ f ∷ g ∷ h ∷ i ∷ rest)) (read_data-Leaves c _ _ rest)
      (omega arith)

shorter :
    (c : Codec) (bytes rest : List ℕ) (e : Entry)
    → read_entry c bytes ≡ entry e rest
    → length rest + 8 ≤ length bytes
shorter c bytes rest e h = subst (Leaves 8 (length bytes)) h (read_entry-Leaves c bytes)

read_loop-same :
    (c : Codec) (f g start : ℕ) (bytes : List ℕ)
    → length bytes < f
    → length bytes < g
    → read_loop c f start bytes ≡ read_loop c g start bytes
unfolding read_loop
read_loop-same c zero g start bytes h k = absurd (omega arith)
read_loop-same c (suc f) zero start bytes h k = absurd (omega arith)
read_loop-same c (suc f) (suc g) start bytes h k = elim (Reading-cases (read_entry c bytes)) [
  | inl (e, rest, r) ↦
      let s = shorter c bytes rest e r in
      rw (read_loop, r, read_loop-same c f g start rest (omega arith) (omega arith)) refl
  | inr (inl r) ↦ rw (read_loop, r) refl
  | inr (inr (inl r)) ↦ rw (read_loop, r) refl
  | inr (inr (inr r)) ↦ rw (read_loop, r) refl
]

recover_loop-same :
    (c : Codec) (f g : ℕ) (bytes : List ℕ) (w : Wal)
    → length bytes < f
    → length bytes < g
    → recover_loop c f bytes w ≡ recover_loop c g bytes w
unfolding recover_loop
recover_loop-same c zero g bytes w h k = absurd (omega arith)
recover_loop-same c (suc f) zero bytes w h k = absurd (omega arith)
recover_loop-same c (suc f) (suc g) bytes w h k = elim (Reading-cases (read_entry c bytes)) [
  | inl (e, rest, r) ↦
      let s = shorter c bytes rest e r in
      rw (recover_loop, r) (recover_loop-same c f g rest (note e w) (omega arith) (omega arith))
  | inr (inl r) ↦ rw (recover_loop, r) refl
  | inr (inr (inl r)) ↦ rw (recover_loop, r) refl
  | inr (inr (inr r)) ↦ rw (recover_loop, r) refl
]

-- The loop came to an end.
abbrev pub Ended : Answer → Type 0
Ended (entries es) = Unit
Ended failed = Unit
Ended unfinished = ⊥

add_entry-Ended : (start : ℕ) (e : Entry) (a : Answer) → Ended a → Ended (add_entry start e a)
add_entry-Ended start e (entries es) h = tt
add_entry-Ended start e failed h = tt
add_entry-Ended start e unfinished h = absurd h

read_loop-Ended :
    (c : Codec) (f start : ℕ) (bytes : List ℕ)
    → length bytes < f
    → Ended (read_loop c f start bytes)
unfolding read_loop
read_loop-Ended c zero start bytes h = absurd (omega arith)
read_loop-Ended c (suc f) start bytes h = elim (Reading-cases (read_entry c bytes)) [
  | inl (e, rest, r) ↦
      let s = shorter c bytes rest e r in
      rw (read_loop, r)
        (add_entry-Ended start e (read_loop c f start rest)
          (read_loop-Ended c f start rest (omega arith)))
  | inr (inl r) ↦ rw (read_loop, r) tt
  | inr (inr (inl r)) ↦ rw (read_loop, r) tt
  | inr (inr (inr r)) ↦ rw (read_loop, r) tt
]

recover_loop-some :
    (c : Codec) (f : ℕ) (bytes : List ℕ) (w : Wal)
    → length bytes < f
    → (v : Wal) × (recover_loop c f bytes w ≡ some v)
unfolding recover_loop
recover_loop-some c zero bytes w h = absurd (omega arith)
recover_loop-some c (suc f) bytes w h = elim (Reading-cases (read_entry c bytes)) [
  | inl (e, rest, r) ↦
      let s = shorter c bytes rest e r in
      rw (recover_loop, r) (recover_loop-some c f rest (note e w) (omega arith))
  | inr (inl r) ↦ rw (recover_loop, r) (w, refl)
  | inr (inr (inl r)) ↦ rw (recover_loop, r) (w, refl)
  | inr (inr (inr r)) ↦ rw (recover_loop, r) (w, refl)
]

-- Whatever the bytes, the loops that read the log come to an end, and do not run out of fuel, within one
-- round more than there are bytes, and more fuel changes nothing.
pub loops-end :
    (c : Codec) (start extra : ℕ) (bytes : List ℕ) (w : Wal)
    → let enough = suc (length bytes) in
      Ended (read_loop c enough start bytes)
      × (read_loop c (enough + extra) start bytes ≡ read_loop c enough start bytes)
      × ((v : Wal) × (recover_loop c enough bytes w ≡ some v)
          × (recover_loop c (enough + extra) bytes w ≡ some v))
loops-end c start extra bytes w =
    let (v, e) = recover_loop-some c (suc (length bytes)) bytes w (omega arith) in
    (
      read_loop-Ended c (suc (length bytes)) start bytes (omega arith),
      read_loop-same c (suc (length bytes) + extra) (suc (length bytes)) start bytes (omega arith)
          (omega arith),
      (
        v,
        e,
        recover_loop-same c (suc (length bytes) + extra) (suc (length bytes)) bytes w (omega arith)
              (omega arith)
            ∙ e,
      ),
    )
