-- ===== src/Raft/Log.antt =====
-- The log of internal/raft/raft.go: `lastLogInfo`, `hasLogEntry`, `appendEntry`, and the loops that
-- look an entry up by its index.
use geryon.Base.{
  ℕ, Bool, true, false, ◌&&◌, Option, none, some, List, [], ◌∷◌, leb, ltb, ◌==◌, if◌then◌else◌,
  last?,
}
use geryon.Raft.Types.{Entry}

-- `lastLogInfo`: index and term of the last entry, or zeros.
unfoldable pub last_log_info : List Entry → ℕ × ℕ
last_log_info l = elim (last? l) [ none ↦ (0, 0) | some e ↦ (e.index, e.term) ]

abbrev pub last_log_index : List Entry → ℕ
last_log_index l = (last_log_info l).0

unfoldable pub has_log_entry : ℕ → ℕ → List Entry → Bool
has_log_entry index term [] = false
has_log_entry index term (e ∷ l) =
    let rest = has_log_entry index term l in
    if e.index == index && e.term == term then true else rest

-- The first entry with the index.
unfoldable pub entry_at : ℕ → List Entry → Option Entry
entry_at index [] = none
entry_at index (e ∷ l) = let rest = entry_at index l in if e.index == index then some e else rest

-- The term of the first entry with the index; the variable starts at 0.
unfoldable pub term_at : ℕ → List Entry → ℕ
unfolding entry_at
term_at index l = elim (entry_at index l) [ none ↦ 0 | some e ↦ e.term ]

-- `appendEntry`: an entry of the same index and another term is replaced, and what follows it goes.
-- The flag says whether the entry is new.
unfoldable pub append_entry : Entry → List Entry → List Entry × Bool
append_entry entry [] = (entry ∷ [], true)
append_entry entry (e ∷ l) =
    let (rest, new) = append_entry entry l in
    if e.index == entry.index
    then (if e.term == entry.term then (e ∷ l, false) else (entry ∷ [], true))
    else (e ∷ rest, new)

-- The loop of `handleAppendEntries`: the log, and the entries that were new.
unfoldable pub append_all : List Entry → List Entry → List Entry × List Entry
append_all [] l = (l, [])
append_all (e ∷ es) l =
    let (l', new) = append_entry e l in
    let (l'', fresh) = append_all es l' in (l'', if new then e ∷ fresh else fresh)

-- The entries with an index in (low, high], `sendCommittedToApply`.
unfoldable pub between : ℕ → ℕ → List Entry → List Entry
between low high [] = []
between low high (e ∷ l) =
    let rest = between low high l in if ltb low e.index && leb e.index high then e ∷ rest else rest

-- The entries from an index on, `Truncate` of wal.go.
unfoldable pub from_index : ℕ → List Entry → List Entry
from_index low [] = []
from_index low (e ∷ l) = let rest = from_index low l in if leb low e.index then e ∷ rest else rest
