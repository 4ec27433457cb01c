-- ===== src/Raft/Wal/Records.antt =====
-- What internal/raft/wal.go writes, it reads.
use geryon.Base.{
  ℕ, zero, suc, ◌+◌, ◌^◌, ◌≤◌, ◌<◌, ◌≡◌, refl, ◌∙◌, sym, ap, some, List, [], ◌∷◌, ◌++◌, leb,
  if◌then◌else◌, length, length-append, take, drop, arith, All,
}
use geryon.Raft.Types.{Entry}
use geryon.Raft.Wal.{
  entries, entries_of, Codec, Wal, be32, header, word, read_u32, entry, at_end, check_data,
  read_data, read_entry, frame, frames, note, read_loop, read_entries, append_batch, note_all,
  write_bytes,
}

-- JSON reads an entry back that it wrote, in a text that a `uint32` can measure; a checksum is a
-- `uint32`.
pub record IsFaithful (c : Codec) (e : Entry) : Type 0 where
  pub decoded : c.decode (c.encode e) ≡ some e
  pub sized : length (c.encode e) < 2 ^ 32
  pub summed : c.crc (c.encode e) < 2 ^ 32

pub read_u32-be32 : (n : ℕ) (rest : List ℕ) → n < 2 ^ 32 → read_u32 (be32 n ++ rest) ≡ word n rest
unfolding read_u32
read_u32-be32 n rest h = ap (λ m. word m rest) (omega arith)

pub take-append : (xs ys : List ℕ) → take (length xs) (xs ++ ys) ≡ xs
take-append [] [] = refl
take-append [] (y ∷ ys) = refl
take-append (x ∷ xs) ys = ap (λ l. x ∷ l) (take-append xs ys)

pub drop-append : (xs ys : List ℕ) → drop (length xs) (xs ++ ys) ≡ ys
drop-append [] [] = refl
drop-append [] (y ∷ ys) = refl
drop-append (x ∷ xs) ys = drop-append xs ys

pub append_assoc : (xs ys zs : List ℕ) → (xs ++ ys) ++ zs ≡ xs ++ (ys ++ zs)
append_assoc [] ys zs = refl
append_assoc (x ∷ xs) ys zs = ap (λ l. x ∷ l) (append_assoc xs ys zs)

check_data-entry :
    (c : Codec) (e : Entry) (rest : List ℕ)
    → IsFaithful c e
    → check_data c (c.crc (c.encode e)) (c.encode e) rest ≡ entry e rest
unfolding check_data
check_data-entry c e rest f = ground (arith, f.decoded)

read_data-entry :
    (c : Codec) (e : Entry) (rest : List ℕ)
    → IsFaithful c e
    → read_data c (c.crc (c.encode e)) (length (c.encode e)) (c.encode e ++ rest) ≡ entry e rest
unfolding read_data
read_data-entry c e rest f = ground (
  arith,
  check_data-entry c e rest f,
  take-append (c.encode e) rest,
  drop-append (c.encode e) rest,
  length-append (c.encode e) rest,
)

pub read_entry-words :
    (c : Codec) (sum n : ℕ) (rest : List ℕ)
    → sum < 2 ^ 32
    → n < 2 ^ 32
    → read_entry c (be32 sum ++ (be32 n ++ rest)) ≡ read_data c sum n rest
unfolding read_entry
read_entry-words c sum n rest h k =
    rw (read_entry, read_u32-be32 sum (be32 n ++ rest) h, read_u32-be32 n rest k) refl

frame-append :
    (c : Codec) (e : Entry) (rest : List ℕ)
    → IsFaithful c e
    → frame c e ++ rest
      ≡ be32 (c.crc (c.encode e)) ++ (be32 (length (c.encode e)) ++ (c.encode e ++ rest))
unfolding frame
frame-append c e rest f =
    ap (λ n. be32 (c.crc (c.encode e)) ++ (be32 n ++ (c.encode e ++ rest))) (omega (arith, f.sized))

-- A record reads as its entry, with the bytes behind it left.
pub read_entry-frame :
    (c : Codec) (e : Entry) (rest : List ℕ)
    → IsFaithful c e
    → read_entry c (frame c e ++ rest) ≡ entry e rest
read_entry-frame c e rest f =
    ap (read_entry c) (frame-append c e rest f)
    ∙ read_entry-words c (c.crc (c.encode e)) (length (c.encode e)) (c.encode e ++ rest) f.summed
        f.sized
    ∙ read_data-entry c e rest f

pub length-frames : (c : Codec) (es : List Entry) → length es ≤ length (frames c es)
unfolding frames frame
length-frames c [] = omega arith
length-frames c (e ∷ es) =
    omega (arith, length-append (c.encode e) (frames c es), length-frames c es)

-- The entries from an index on.
abbrev pub from : ℕ → List Entry → List Entry
from start [] = []
from start (e ∷ es) = let rest = from start es in if leb start e.index then e ∷ rest else rest

pub read_entry-nil : (c : Codec) → read_entry c [] ≡ at_end
unfolding read_entry read_u32
read_entry-nil c = refl

read_loop-entry :
    (c : Codec) (fuel start : ℕ) (bytes rest : List ℕ) (e : Entry) (es : List Entry)
    → read_entry c bytes ≡ entry e rest
    → read_loop c fuel start rest ≡ entries es
    → read_loop c (suc fuel) start bytes ≡ entries (if leb start e.index then e ∷ es else es)
unfolding read_loop
read_loop-entry c fuel start bytes rest e es h k = rw (read_loop, h, k) refl

read_loop-frames :
    (c : Codec) (fuel start : ℕ) (es : List Entry)
    → All (IsFaithful c) es
    → length es < fuel
    → read_loop c fuel start (frames c es) ≡ entries (from start es)
unfolding read_loop frames
read_loop-frames c zero start es f h = absurd (omega arith)
read_loop-frames c (suc fuel) start [] f h = rw (read_loop, read_entry-nil c) refl
read_loop-frames c (suc fuel) start (e ∷ es) f h =
    read_loop-entry c fuel start (frames c (e ∷ es)) (frames c es) e (from start es)
      (read_entry-frame c e (frames c es) f.0) (read_loop-frames c fuel start es f.1 (omega arith))

frames-append : (c : Codec) (es fs : List Entry) → frames c (es ++ fs) ≡ frames c es ++ frames c fs
unfolding frames
frames-append c [] fs = refl
frames-append c (e ∷ es) fs =
    ap (λ l. frame c e ++ l) (frames-append c es fs)
    ∙ sym (append_assoc (frame c e) (frames c es) (frames c fs))

-- The file has the header and the records of the entries, and the next write goes to its end.
pub record Holds (c : Codec) (es : List Entry) (w : Wal) : Type 0 where
  pub bytes : w.file ≡ header ++ frames c es
  pub at_the_end : w.offset ≡ length w.file

take-all : (xs : List ℕ) (n : ℕ) → n ≡ length xs → take n xs ≡ xs
take-all [] zero e = refl
take-all [] (suc n) e = absurd (omega arith)
take-all (x ∷ xs) zero e = absurd (omega arith)
take-all (x ∷ xs) (suc n) e = ap (λ l. x ∷ l) (take-all xs n (omega arith))

drop-past : (xs : List ℕ) (n : ℕ) → length xs ≤ n → drop n xs ≡ []
drop-past [] zero e = refl
drop-past [] (suc n) e = refl
drop-past (x ∷ xs) zero e = absurd (omega arith)
drop-past (x ∷ xs) (suc n) e = drop-past xs n (omega arith)

append_nil : (xs : List ℕ) → xs ++ [] ≡ xs
append_nil [] = refl
append_nil (x ∷ xs) = ap (λ l. x ∷ l) (append_nil xs)

file-note_all : (es : List Entry) (w : Wal) → (note_all es w).file ≡ w.file
unfolding note_all
file-note_all [] w = refl
file-note_all (e ∷ es) w = file-note_all es (note e w) ∙ ground arith

offset-note_all : (es : List Entry) (w : Wal) → (note_all es w).offset ≡ w.offset
unfolding note_all
offset-note_all [] w = refl
offset-note_all (e ∷ es) w = offset-note_all es (note e w) ∙ ground arith

file-write :
    (bytes : List ℕ) (w : Wal)
    → w.offset ≡ length w.file
    → (write_bytes bytes w).file ≡ w.file ++ bytes
file-write bytes w e =
    rw
      (
        take-all w.file w.offset e,
        drop-past w.file (w.offset + length bytes) (omega arith),
        append_nil (w.file ++ bytes),
      )
      refl

Holds-append_batch :
    (c : Codec) (es fs : List Entry) (w : Wal)
    → Holds c es w
    → Holds c (es ++ fs) (append_batch c fs w)
unfolding append_batch frames
Holds-append_batch c es [] w h = record {
  bytes = h.bytes ∙ sym (ap (λ l. header ++ l) (frames-append c es [] ∙ append_nil (frames c es)));
  at_the_end = h.at_the_end;
}
Holds-append_batch c es (f ∷ fs) w h =
    let v = write_bytes (frames c (f ∷ fs)) w in
    let file : v.file ≡ w.file ++ frames c (f ∷ fs) =
      file-write (frames c (f ∷ fs)) w h.at_the_end in
    let grown : length v.file ≡ length w.file + length (frames c (f ∷ fs)) =
      ap length file ∙ length-append w.file (frames c (f ∷ fs)) in
    let noted : (note_all (f ∷ fs) v).file ≡ v.file = file-note_all (f ∷ fs) v in
    record {
      bytes =
          noted
          ∙ file
          ∙ ap (λ l. l ++ frames c (f ∷ fs)) h.bytes
          ∙ sym (ap (λ l. header ++ l) (frames-append c es (f ∷ fs)));
      at_the_end =
          offset-note_all (f ∷ fs) v
          ∙ ap (λ n. n + length (frames c (f ∷ fs))) h.at_the_end
          ∙ sym grown
          ∙ sym (ap length noted);
    }

-- After AppendBatch at the end of a file with the records of some entries, ReadEntries answers the
-- entries that were there and the new ones, from the index on that it is asked for.
pub read_entries-append_batch :
    (c : Codec) (start : ℕ) (es fs : List Entry) (w : Wal)
    → All (IsFaithful c) (es ++ fs)
    → Holds c es w
    → read_entries c start (append_batch c fs w) ≡ some (from start (es ++ fs))
unfolding read_entries
read_entries-append_batch c start es fs w f h = ap entries_of (
    ap (λ l. read_loop c (suc (length (drop 8 l))) start (drop 8 l))
      (Holds-append_batch c es fs w h).bytes
    ∙ read_loop-frames c (suc (length (frames c (es ++ fs)))) start (es ++ fs) f
        (omega (arith, length-frames c (es ++ fs))))
