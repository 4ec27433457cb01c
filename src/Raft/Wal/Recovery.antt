-- ===== src/Raft/Wal/Recovery.antt =====
-- What internal/raft/wal.go recovers from a file whose last record was cut off.
use geryon.Base.{
  ℕ, zero, suc, ◌≤◌, ◌<◌, ◌≡◌, refl, ◌∙◌, ap, Option, some, List, [], ◌∷◌, ◌++◌, ltb, ◌==◌, length,
  length-append, take, arith, All, true, false, Bool-cases, inl, inr, ◌⊎◌,
}
use geryon.Raft.Types.{Entry}
use geryon.Raft.Wal.{
  Codec, Wal, header, Reading, entry, at_end, torn, damaged, read_u32, read_data, read_entry, frame,
  frames, note, note_all, recover_loop, open_wal, open_bytes, recover, opened, finished,
}
use geryon.Raft.Wal.Records.{IsFaithful, read_entry-frame, append_assoc, length-frames}

abbrev pub Member : Entry → List Entry → Type 0
Member e [] = ⊥
Member e (d ∷ es) = (e ≡ d) ⊎ Member e es

abbrev pub IsNoEntry : Reading → Type 0
IsNoEntry (entry e rest) = ⊥
IsNoEntry at_end = Unit
IsNoEntry torn = Unit
IsNoEntry damaged = Unit

length-take : (k : ℕ) (xs : List ℕ) → length (take k xs) ≤ k
length-take zero xs = omega arith
length-take (suc k) [] = omega arith
length-take (suc k) (x ∷ xs) = omega (arith, length-take k xs)

read_data-short :
    (c : Codec) (sum n : ℕ) (rest : List ℕ) → length rest < n → IsNoEntry (read_data c sum n rest)
unfolding read_data
read_data-short c sum n rest h = elim (Bool-cases (n == 0)) [
  | inl e ↦ absurd (ground arith)
  | inr e ↦ elim (Bool-cases (length rest == 0)) [
    | inl f ↦ rw (e, f) tt
    | inr f ↦ elim (Bool-cases (ltb (length rest) n)) [
      | inl g ↦ rw (e, f, g) tt
      | inr g ↦ absurd (ground arith)
    ]
  ]
]

-- Less than a whole record is no entry.
part-IsNoEntry :
    (c : Codec) (e : Entry) (k : ℕ)
    → IsFaithful c e
    → k < length (frame c e)
    → IsNoEntry (read_entry c (take k (frame c e)))
unfolding read_entry read_u32 frame
part-IsNoEntry c e zero f h = tt
part-IsNoEntry c e (suc zero) f h = tt
part-IsNoEntry c e (suc (suc zero)) f h = tt
part-IsNoEntry c e (suc (suc (suc zero))) f h = tt
part-IsNoEntry c e (suc (suc (suc (suc zero)))) f h = tt
part-IsNoEntry c e (suc (suc (suc (suc (suc zero))))) f h = tt
part-IsNoEntry c e (suc (suc (suc (suc (suc (suc zero)))))) f h = tt
part-IsNoEntry c e (suc (suc (suc (suc (suc (suc (suc zero))))))) f h = tt
part-IsNoEntry c e (suc (suc (suc (suc (suc (suc (suc (suc k)))))))) f h =
    read_data-short c _ _ (take k (c.encode e)) (omega (arith, length-take k (c.encode e), f.sized))

recover_loop-entry :
    (c : Codec) (fuel : ℕ) (bytes rest : List ℕ) (e : Entry) (w : Wal)
    → read_entry c bytes ≡ entry e rest
    → recover_loop c (suc fuel) bytes w ≡ recover_loop c fuel rest (note e w)
unfolding recover_loop
recover_loop-entry c fuel bytes rest e w h = rw (recover_loop, h) refl

recover_loop-stops :
    (c : Codec) (fuel : ℕ) (bytes : List ℕ) (w : Wal)
    → IsNoEntry (read_entry c bytes)
    → recover_loop c (suc fuel) bytes w ≡ some w
unfolding recover_loop
recover_loop-stops c fuel bytes w h = go (read_entry c bytes) h
  where
    go :
        (r : Reading)
        → IsNoEntry r
        → elim r as (λ _. Option Wal) [
          | entry e rest ↦ recover_loop c fuel rest (note e w)
          | _ ↦ some w
        ]
          ≡ some w
    go (entry e rest) h = absurd h
    go at_end h = refl
    go torn h = refl
    go damaged h = refl

recover_loop-frames :
    (c : Codec) (fuel : ℕ) (es : List Entry) (tail : List ℕ) (w : Wal)
    → All (IsFaithful c) es
    → IsNoEntry (read_entry c tail)
    → length es < fuel
    → recover_loop c fuel (frames c es ++ tail) w ≡ some (note_all es w)
unfolding frames note_all
recover_loop-frames c zero es tail w f n h = absurd (omega arith)
recover_loop-frames c (suc fuel) [] tail w f n h = recover_loop-stops c fuel tail w n
recover_loop-frames c (suc fuel) (e ∷ es) tail w f n h =
    ap (λ l. recover_loop c (suc fuel) l w) (append_assoc (frame c e) (frames c es) tail)
    ∙ recover_loop-entry c fuel (frame c e ++ (frames c es ++ tail)) (frames c es ++ tail) e w
        (read_entry-frame c e (frames c es ++ tail) f.0)
    ∙ recover_loop-frames c fuel es tail (note e w) f.1 n (omega arith)

open_wal-note_all :
    (c : Codec) (stop k : ℕ) (es : List Entry) (e : Entry) (w : Wal)
    → All (IsFaithful c) es
    → IsFaithful c e
    → k < length (frame c e)
    → w.file ≡ header ++ (frames c es ++ take k (frame c e))
    → open_wal c stop w ≡ opened (note_all es (record w { offset = stop }))
unfolding open_wal open_bytes recover read_u32
open_wal-note_all c stop k es e w f g h b =
    let tail = take k (frame c e) in
    let bytes = frames c es ++ tail in
    let fits : length es < suc (length bytes) =
      omega (arith, length-append (frames c es) tail, length-frames c es) in
    let found =
      recover_loop-frames c (suc (length bytes)) es tail (record w { offset = stop }) f
        (part-IsNoEntry c e k g h) fits in
    ap (λ l. open_bytes c stop l w) b ∙ ap finished found

-- The last index is the greatest, of that from before and those of the entries; the last term is that
-- of an entry with this index, or the one from before if no entry has a greater index.
pub record Recovered (es : List Entry) (stop : ℕ) (w v : Wal) : Type 0 where
  pub same_file : v.file ≡ w.file
  pub moved : v.offset ≡ stop
  pub greatest : All (λ e. e.index ≤ v.last_index) es × (w.last_index ≤ v.last_index)
  pub source :
      (All (λ e. e.index ≤ w.last_index) es
        × ((v.last_index ≡ w.last_index) × (v.last_term ≡ w.last_term)))
      ⊎ ((e : Entry) × Member e es
          × (w.last_index < e.index)
          × (v.last_index ≡ e.index)
          × (v.last_term ≡ e.term))

note_all-Recovered : (es : List Entry) (w : Wal) → Recovered es w.offset w (note_all es w)
unfolding note_all
note_all-Recovered [] w = record {
  same_file = refl;
  moved = refl;
  greatest = (tt, omega arith);
  source = inl (tt, (refl, refl));
}
note_all-Recovered (e ∷ es) w = elim (Bool-cases (ltb w.last_index e.index)) [
  | inl h ↦
      rw (h)
        (later h (note_all-Recovered es (record w { last_index = e.index; last_term = e.term })))
  | inr h ↦ rw (h) (sooner h (note_all-Recovered es w))
]
  where
    later :
        ltb w.last_index e.index ≡ true
        → Recovered es w.offset
            (record w { last_index = e.index; last_term = e.term })
            (note_all es (record w { last_index = e.index; last_term = e.term }))
        → Recovered
            (e ∷ es)
            w.offset
            w
            (note_all es (record w { last_index = e.index; last_term = e.term }))
    later h r = record {
      same_file = r.same_file;
      moved = r.moved;
      greatest = ((r.greatest.1, r.greatest.0), ground (arith, r.greatest.1));
      source = inr (elim r.source [
        | inl a ↦ (e, inl refl, ground arith, a.1.0, a.1.1)
        | inr (d, m, l, x, y) ↦ (d, inr m, ground arith, x, y)
      ]);
    }

    sooner :
        ltb w.last_index e.index ≡ false
        → Recovered es w.offset w (note_all es w)
        → Recovered (e ∷ es) w.offset w (note_all es w)
    sooner h r = record {
      same_file = r.same_file;
      moved = r.moved;
      greatest = ((ground (arith, r.greatest.1), r.greatest.0), r.greatest.1);
      source = elim r.source [
        | inl a ↦ inl ((ground arith, a.0), a.1)
        | inr (d, m, l, x, y) ↦ inr (d, inr m, l, x, y)
      ];
    }

-- Opening a file with the header, the records of some entries, and a part of another record, which
-- was cut off anywhere, goes through and leaves the file as it is. The last index is then the greatest,
-- of that from before and those of the entries, and the last term that of an entry with this index, or
-- the one from before if no entry has a greater index.
pub open_wal-torn :
    (c : Codec) (stop k : ℕ) (es : List Entry) (e : Entry) (w : Wal)
    → All (IsFaithful c) es
    → IsFaithful c e
    → k < length (frame c e)
    → w.file ≡ header ++ (frames c es ++ take k (frame c e))
    → (v : Wal) × (open_wal c stop w ≡ opened v) × Recovered es stop w v
open_wal-torn c stop k es e w f g h b =
    let r = note_all-Recovered es (record w { offset = stop }) in
    (
      note_all es (record w { offset = stop }),
      open_wal-note_all c stop k es e w f g h b,
      record { same_file = r.same_file; moved = r.moved; greatest = r.greatest; source = r.source },
    )
