-- ===== src/Raft/Wal.antt =====
-- The write-ahead log of internal/raft/wal.go: a header and a record for each entry, its checksum, its
-- length and its JSON. A file is its bytes and the offset at which the next write goes; opening and
-- writing it succeed. `Codec` is json.Marshal, json.Unmarshal and crc32.ChecksumIEEE. The loops run on
-- fuel, one more than there are bytes, since a record takes eight bytes at least; `none` says that it
-- ran out.
pub mod Records
pub mod Recovery
pub mod Fuel
mod Tests
use geryon.Base.{
  ℕ, zero, suc, ◌+◌, ◌-◌, ◌*◌, ◌/◌, ◌%◌, ◌^◌, Bool, true, false, Option, none, some, List, [], ◌∷◌,
  ◌++◌, ◌&&◌, ltb, leb, ◌==◌, if◌then◌else◌, length, take, drop,
}
use geryon.Raft.Types.{Entry}

pub record Codec : Type 0 where
  pub encode : Entry → List ℕ
  pub decode : List ℕ → Option Entry
  pub crc : List ℕ → ℕ

pub record Wal : Type 0 where
  pub file : List ℕ
  pub offset : ℕ
  pub last_index : ℕ
  pub last_term : ℕ

-- binary.Write of a `uint32` in big-endian order.
abbrev pub be32 : ℕ → List ℕ
be32 n = n / 16777216 % 256 ∷ n / 65536 % 256 ∷ n / 256 % 256 ∷ n % 256 ∷ []

abbrev pub wal_magic : ℕ
wal_magic = 0x57414C00

abbrev pub header : List ℕ
header = be32 wal_magic ++ be32 1

-- What binary.Read of a `uint32` answers: io.EOF only when no byte is left.
pub data Word : Type 0 where
  word : ℕ → List ℕ → Word
  no_word : Word
  part_of_word : Word

unfoldable pub read_u32 : List ℕ → Word
read_u32 [] = no_word
read_u32 (a ∷ b ∷ c ∷ d ∷ rest) = word (((a * 256 + b) * 256 + c) * 256 + d) rest
read_u32 (a ∷ rest) = part_of_word

-- `readEntry`: an entry, io.EOF, io.ErrUnexpectedEOF, or another error.
pub data Reading : Type 0 where
  entry : Entry → List ℕ → Reading
  at_end torn damaged : Reading

unfoldable pub check_data : Codec → ℕ → List ℕ → List ℕ → Reading
check_data c sum bytes rest =
    if c.crc bytes == sum
    then (elim (c.decode bytes) [ none ↦ damaged | some e ↦ entry e rest ])
    else damaged

unfoldable pub read_data : Codec → ℕ → ℕ → List ℕ → Reading
read_data c sum n rest =
    if n == 0
    then check_data c sum [] rest
    else if length rest == 0
    then at_end
    else if ltb (length rest) n
    then torn
    else check_data c sum (take n rest) (drop n rest)

unfoldable pub read_entry : Codec → List ℕ → Reading
read_entry c bytes = elim (read_u32 bytes) [
  | no_word ↦ at_end
  | part_of_word ↦ torn
  | word sum rest ↦ elim (read_u32 rest) [
    | no_word ↦ at_end
    | part_of_word ↦ torn
    | word n rest' ↦ read_data c sum n rest'
  ]
]

-- The bytes of a record; the length is a `uint32`.
unfoldable pub frame : Codec → Entry → List ℕ
frame c e = let bytes = c.encode e in be32 (c.crc bytes) ++ be32 (length bytes % 2 ^ 32) ++ bytes

unfoldable pub frames : Codec → List Entry → List ℕ
frames c [] = []
frames c (e ∷ es) = frame c e ++ frames c es

abbrev pub note : Entry → Wal → Wal
note e w =
    if ltb w.last_index e.index then record w { last_index = e.index; last_term = e.term } else w

-- The loop of `recover`, which takes any error for the end.
unfoldable pub recover_loop : Codec → ℕ → List ℕ → Wal → Option Wal
recover_loop c zero bytes w = none
recover_loop c (suc fuel) bytes w = elim (read_entry c bytes) [
  | entry e rest ↦ recover_loop c fuel rest (note e w)
  | _ ↦ some w
]

pub data OpenError : Type 0 where
  short_header bad_magic bad_version : OpenError

pub data Opened : Type 0 where
  opened : Wal → Opened
  refused : OpenError → Opened
  out_of_fuel : Opened

abbrev pub finished : Option Wal → Opened
finished none = out_of_fuel
finished (some w) = opened w

-- `recover`, with `stop` the offset at which the reader leaves the file.
unfoldable pub recover : Codec → ℕ → List ℕ → Wal → Opened
recover c stop bytes w = elim (read_u32 bytes) [
  | word magic rest ↦ elim (read_u32 rest) [
    | word version rest' ↦
        if magic == wal_magic
        then (if version == 1
            then finished (recover_loop c (suc (length rest')) rest' (record w { offset = stop }))
            else refused bad_version)
        else refused bad_magic
    | _ ↦ refused short_header
  ]
  | _ ↦ refused short_header
]

-- `open`: a new file gets its header.
unfoldable pub open_bytes : Codec → ℕ → List ℕ → Wal → Opened
open_bytes c stop [] w = opened (record w { file = header; offset = 8 })
open_bytes c stop (b ∷ bytes) w = recover c stop (b ∷ bytes) w

unfoldable pub open_wal : Codec → ℕ → Wal → Opened
open_wal c stop w = open_bytes c stop w.file w

-- A write at the offset.
abbrev pub write_bytes : List ℕ → Wal → Wal
write_bytes bytes w = record w {
  file = take w.offset w.file ++ bytes ++ drop (w.offset + length bytes) w.file;
  offset = w.offset + length bytes;
}

unfoldable pub append : Codec → Entry → Wal → Wal
append c e w = note e (write_bytes (frame c e) w)

unfoldable pub note_all : List Entry → Wal → Wal
note_all [] w = w
note_all (e ∷ es) w = note_all es (note e w)

unfoldable pub append_batch : Codec → List Entry → Wal → Wal
append_batch c [] w = w
append_batch c (e ∷ es) w = note_all (e ∷ es) (write_bytes (frames c (e ∷ es)) w)

-- What reading gives: the entries from an index on, an error other than io.EOF, or no end of the loop.
pub data Answer : Type 0 where
  entries : List Entry → Answer
  failed : Answer
  unfinished : Answer

abbrev pub add_entry : ℕ → Entry → Answer → Answer
add_entry start e (entries es) = entries (if leb start e.index then e ∷ es else es)
add_entry start e failed = failed
add_entry start e unfinished = unfinished

unfoldable pub read_loop : Codec → ℕ → ℕ → List ℕ → Answer
read_loop c zero start bytes = unfinished
read_loop c (suc fuel) start bytes = elim (read_entry c bytes) [
  | entry e rest ↦ add_entry start e (read_loop c fuel start rest)
  | at_end ↦ entries []
  | _ ↦ failed
]

-- `none` is an error; the loop ends.
abbrev pub entries_of : Answer → Option (List Entry)
entries_of (entries es) = some es
entries_of failed = none
entries_of unfinished = none

unfoldable pub read_entries : Codec → ℕ → Wal → Option (List Entry)
read_entries c start w =
    let bytes = drop 8 w.file in entries_of (read_loop c (suc (length bytes)) start bytes)

-- A file with the entries from an index on takes the place of the old one; `none` is an error, which
-- leaves the file as it is.
unfoldable pub truncate : Codec → ℕ → Wal → Option Opened
truncate c before w = elim (read_entries c before w) [
  | none ↦ none
  | some es ↦
      let file = header ++ frames c es in some (open_wal c (length file) (record w { file = file }))
]
