-- ===== src/Protocol.antt =====
-- internal/protocol/common/message.go: `Buffer`, with which the codecs of the three protocols read and
-- write the fields of a message, and the header of a message. Bytes and texts are lists of numbers
-- below 256; an integer is the unsigned number of its bits, so that an `int32` is negative from 2^31 on.
-- `none` is io.EOF.
pub mod Numbers
pub mod Fields
mod Tests
use geryon.Base.{
  ℕ, zero, suc, ◌+◌, ◌-◌, ◌*◌, ◌/◌, ◌%◌, ◌^◌, Bool, true, false, Option, none, some, List, [], ◌∷◌,
  ◌++◌, ltb, leb, ◌==◌, if◌then◌else◌, length, take, drop,
}

pub record Buffer : Type 0 where
  pub buf : List ℕ
  pub pos : ℕ

abbrev pub new_buffer : List ℕ → Buffer
new_buffer bs = record { buf = bs; pos = 0 }

-- The big-endian bytes of a number, `n` of them, and the number of such bytes.
abbrev pub big_endian : ℕ → ℕ → List ℕ
big_endian zero v = []
big_endian (suc n) v = big_endian n (v / 256) ++ v % 256 ∷ []

abbrev pub number : ℕ → List ℕ → ℕ
number acc [] = acc
number acc (b ∷ bs) = number (acc * 256 + b) bs

-- `ReadByte`, `ReadInt16`, `ReadUint16`, `ReadInt32`, `ReadUint32` and `ReadInt64`: `n` bytes.
unfoldable pub read_uint : ℕ → Buffer → Option (ℕ × Buffer)
read_uint n b =
    if ltb (length b.buf) (b.pos + n)
    then none
    else some (number 0 (take n (drop b.pos b.buf)), record b { pos = b.pos + n })

unfoldable pub read_bytes : ℕ → Buffer → Option (List ℕ × Buffer)
read_bytes n b =
    if ltb (length b.buf) (b.pos + n)
    then none
    else some (take n (drop b.pos b.buf), record b { pos = b.pos + n })

-- What stands before the first zero byte, if there is one.
unfoldable pub before_zero : List ℕ → Option (List ℕ)
before_zero [] = none
before_zero (x ∷ xs) =
    let rest = before_zero xs in
    if x == 0 then some [] else elim rest [ none ↦ none | some s ↦ some (x ∷ s) ]

-- Without a zero byte the position is at the end.
unfoldable pub read_string : Buffer → Option (List ℕ × Buffer)
read_string b = elim (before_zero (drop b.pos b.buf)) [
  | none ↦ none
  | some s ↦ some (s, record b { pos = b.pos + suc (length s) })
]

unfoldable pub read_length_prefixed_string : Buffer → Option (List ℕ × Buffer)
read_length_prefixed_string b = elim (read_uint 4 b) [
  | none ↦ none
  | some (n, c) ↦ if leb (2 ^ 31) n then some ([], c) else read_bytes n c
]

abbrev pub write_bytes : List ℕ → Buffer → Buffer
write_bytes v b = record b { buf = b.buf ++ v }

-- `WriteByte`, `WriteInt16`, `WriteUint16`, `WriteInt32`, `WriteUint32` and `WriteInt64`.
abbrev pub write_uint : ℕ → ℕ → Buffer → Buffer
write_uint n v b = write_bytes (big_endian n v) b

abbrev pub write_string : List ℕ → Buffer → Buffer
write_string s b = write_bytes (0 ∷ []) (write_bytes s b)

abbrev pub write_length_prefixed_string : List ℕ → Buffer → Buffer
write_length_prefixed_string s b = write_bytes s (write_uint 4 (length s % 2 ^ 32) b)

-- What a codec puts into a message, one after the other.
pub data Field : Type 0 where
  uint : ℕ → ℕ → Field
  bytes : List ℕ → Field
  zero_ended prefixed : List ℕ → Field

unfoldable pub write_field : Field → Buffer → Buffer
write_field (uint n v) b = write_uint n v b
write_field (bytes s) b = write_bytes s b
write_field (zero_ended s) b = write_string s b
write_field (prefixed s) b = write_length_prefixed_string s b

-- A field of the kind, and of the size, of one that is given.
abbrev as_field {ℓ} : {A : Type ℓ} → (A → Field) → Option (A × Buffer) → Option (Field × Buffer)
as_field f none = none
as_field f (some (a, b)) = some (f a, b)

unfoldable pub read_field : Field → Buffer → Option (Field × Buffer)
read_field (uint n v) b = as_field (uint n) (read_uint n b)
read_field (bytes s) b = as_field bytes (read_bytes (length s) b)
read_field (zero_ended s) b = as_field zero_ended (read_string b)
read_field (prefixed s) b = as_field prefixed (read_length_prefixed_string b)

unfoldable pub write_fields : List Field → Buffer → Buffer
write_fields [] b = b
write_fields (f ∷ fs) b = write_fields fs (write_field f b)

unfoldable pub read_fields : List Field → Buffer → Option (List Field)
read_fields [] b = some []
read_fields (f ∷ fs) b = elim (read_field f b) [
  | none ↦ none
  | some (g, c) ↦ elim (read_fields fs c) [ none ↦ none | some gs ↦ some (g ∷ gs) ]
]

-- The header of a message on a stream: its type and its length. `none` is an error of the reader.
unfoldable pub read_message_header : List ℕ → Option (ℕ × (ℕ × List ℕ))
read_message_header (t ∷ a ∷ b ∷ c ∷ d ∷ rest) = some (t, (number 0 (a ∷ b ∷ c ∷ d ∷ []), rest))
read_message_header _ = none

unfoldable pub write_message_header : ℕ → ℕ → List ℕ → List ℕ
write_message_header t n stream = stream ++ t ∷ big_endian 4 n
