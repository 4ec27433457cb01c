-- ===== src/Raft/Wal/Tests.antt =====
-- A log of internal/raft/wal.go with two entries.
use geryon.Base.{
  ℕ, ◌+◌, ◌≡◌, refl, Option, none, some, List, [], ◌∷◌, ◌++◌, length, suc, take, arith,
}
use geryon.Raft.Types.{Entry}
use geryon.Raft.Wal.{
  Codec, Wal, header, frame, frames, append_batch, read_entries, open_wal, opened, read_loop,
  recover_loop,
}
use geryon.Raft.Wal.Records.{IsFaithful, from, read_entries-append_batch}
use geryon.Raft.Wal.Recovery.{Recovered, open_wal-torn}
use geryon.Raft.Wal.Fuel.{Ended, loops-end}

abbrev entry_of : ℕ → Entry
entry_of i = record { term = 1; index = i; command = i ∷ [] }

abbrev decode : List ℕ → Option Entry
decode [] = none
decode (t ∷ []) = none
decode (t ∷ i ∷ command) = some (record { term = t; index = i; command = command })

abbrev codec : Codec
codec = record { encode = λ e. e.term ∷ e.index ∷ e.command; decode = decode; crc = length }

faithful : (i : ℕ) → IsFaithful codec (entry_of i)
faithful i = record { decoded = refl; sized = omega arith; summed = omega arith }

abbrev log : Wal
log = record {
  file = header ++ frames codec (entry_of 1 ∷ []);
  offset = length (header ++ frames codec (entry_of 1 ∷ []));
  last_index = 1;
  last_term = 1;
}

read_entries-append_batch_example :
    read_entries codec 2 (append_batch codec (entry_of 2 ∷ entry_of 3 ∷ []) log)
    ≡ some (from 2 ((entry_of 1 ∷ []) ++ entry_of 2 ∷ entry_of 3 ∷ []))
read_entries-append_batch_example =
    read_entries-append_batch codec 2 (entry_of 1 ∷ []) (entry_of 2 ∷ entry_of 3 ∷ []) log
      (faithful 1, (faithful 2, (faithful 3, tt))) (record { bytes = refl; at_the_end = refl })

abbrev cut : Wal
cut = record log {
  file = header ++ (frames codec (entry_of 1 ∷ []) ++ take 9 (frame codec (entry_of 2)));
}

open_wal-torn_example :
    (v : Wal) × (open_wal codec 20 cut ≡ opened v) × Recovered (entry_of 1 ∷ []) 20 cut v
unfolding frame
open_wal-torn_example =
    open_wal-torn codec 20 9 (entry_of 1 ∷ []) (entry_of 2) cut (faithful 1, tt) (faithful 2)
      (omega arith) refl

loops-end_example :
    Ended (read_loop codec (suc (length cut.file)) 0 cut.file)
    × (read_loop codec (suc (length cut.file) + 5) 0 cut.file
        ≡ read_loop codec (suc (length cut.file)) 0 cut.file)
    × ((v : Wal) × (recover_loop codec (suc (length cut.file)) cut.file log ≡ some v)
        × (recover_loop codec (suc (length cut.file) + 5) cut.file log ≡ some v))
loops-end_example = loops-end codec 0 5 cut.file log
