-- ===== src/Protocol/Fields.antt =====
-- What a codec writes with the buffer of internal/protocol/common/message.go, it reads.
use geryon.Base.{
  ℕ, zero, suc, ◌+◌, ◌%◌, ◌^◌, ◌<◌, ◌≡◌, ◌≢◌, refl, ◌∙◌, sym, ap, subst, Option, some, List, [],
  ◌∷◌, ◌++◌, length, length-append, take, drop, arith, All,
}
use geryon.Protocol.{
  Buffer, new_buffer, big_endian, read_uint, read_bytes, before_zero, read_string,
  read_length_prefixed_string, Field, uint, bytes, zero_ended, prefixed, write_field, read_field,
  write_fields, read_fields,
}
use geryon.Protocol.Numbers.{Fits, number-big_endian, length-big_endian, Fits-word}

-- A field that is read back: a number in as many bytes as it needs, a text without a zero byte, a text
-- whose length is an `int32`.
abbrev pub IsSound : Field → Type 0
IsSound (uint n v) = Fits n v
IsSound (bytes s) = Unit
IsSound (zero_ended s) = All (λ x. x ≢ 0) s
IsSound (prefixed s) = length s < 2 ^ 31

abbrev encoded : Field → List ℕ
encoded (uint n v) = big_endian n v
encoded (bytes s) = s
encoded (zero_ended s) = s ++ 0 ∷ []
encoded (prefixed s) = big_endian 4 (length s % 2 ^ 32) ++ s

-- What is left to read is `xs`.
record Ready (b : Buffer) (xs : List ℕ) : Type 0 where
  left : drop b.pos b.buf ≡ xs
  counted : b.pos + length xs ≡ length b.buf

take-append : (xs ys : List ℕ) → take (length xs) (xs ++ ys) ≡ xs
take-append [] [] = refl
take-append [] (y ∷ ys) = refl
take-append (x ∷ xs) ys = ap (λ l. x ∷ l) (take-append xs ys)

take-first : (n : ℕ) (xs ys : List ℕ) → length xs ≡ n → take n (xs ++ ys) ≡ xs
take-first n xs ys e = ap (λ m. take m (xs ++ ys)) (sym e) ∙ take-append xs ys

drop-append : (xs ys : List ℕ) → drop (length xs) (xs ++ ys) ≡ ys
drop-append [] [] = refl
drop-append [] (y ∷ ys) = refl
drop-append (x ∷ xs) ys = drop-append xs ys

append_assoc : (xs ys zs : List ℕ) → (xs ++ ys) ++ zs ≡ xs ++ (ys ++ zs)
append_assoc [] ys zs = refl
append_assoc (x ∷ xs) ys zs = ap (λ l. x ∷ l) (append_assoc xs ys zs)

append_nil : (xs : List ℕ) → xs ++ [] ≡ xs
append_nil [] = refl
append_nil (x ∷ xs) = ap (λ l. x ∷ l) (append_nil xs)

drop-same : (m k : ℕ) (xs : List ℕ) → m ≡ k → drop m xs ≡ drop k xs
drop-same m k xs e = ap (λ i. drop i xs) e

drop-nil : (m : ℕ) → drop {A = ℕ} m [] ≡ []
drop-nil zero = refl
drop-nil (suc m) = refl

drop-drop : (n k : ℕ) (xs : List ℕ) → drop n (drop k xs) ≡ drop (k + n) xs
drop-drop n zero xs = drop-same n (0 + n) xs (omega arith)
drop-drop n (suc k) [] = drop-nil n ∙ sym (drop-nil (suc k + n))
drop-drop n (suc k) (x ∷ xs) =
    drop-drop n k xs ∙ drop-same (suc (k + n)) (suc k + n) (x ∷ xs) (omega arith)

Ready-moved :
    (b : Buffer) (xs ys : List ℕ) (n : ℕ)
    → Ready b (xs ++ ys)
    → length xs ≡ n
    → Ready (record b { pos = b.pos + n }) ys
Ready-moved b xs ys n r e = record {
  left =
      sym (drop-drop n b.pos b.buf)
      ∙ ap (drop n) r.left
      ∙ ap (λ m. drop m (xs ++ ys)) (sym e)
      ∙ drop-append xs ys;
  counted = omega (arith, r.counted, length-append xs ys);
}

-- An answer with the value, after which the rest is left.
abbrev Reads : {A : Type 0} → Option (A × Buffer) → A → List ℕ → Type 0
Reads o a rest = (c : Buffer) × (o ≡ some (a, c)) × (Ready c rest)

read_bytes-Reads :
    (s rest : List ℕ) (n : ℕ) (b : Buffer)
    → length s ≡ n
    → Ready b (s ++ rest)
    → Reads (read_bytes n b) s rest
unfolding read_bytes
read_bytes-Reads s rest n b e r = (
  record b { pos = b.pos + n },
  ground (arith, r.left, take-append s rest, r.counted, length-append s rest),
  Ready-moved b s rest n r e,
)

read_uint-Reads :
    (n v : ℕ) (rest : List ℕ) (b : Buffer)
    → Fits n v
    → Ready b (big_endian n v ++ rest)
    → Reads (read_uint n b) v rest
unfolding read_uint
read_uint-Reads n v rest b f r = (
  record b { pos = b.pos + n },
  ground (
    arith,
    ap (take n) r.left ∙ take-first n (big_endian n v) rest (length-big_endian n v),
    number-big_endian n v f,
    r.counted,
    length-append (big_endian n v) rest,
    length-big_endian n v,
  ),
  Ready-moved b (big_endian n v) rest n r (length-big_endian n v),
)

before_zero-found : (s rest : List ℕ) → All (λ x. x ≢ 0) s → before_zero (s ++ (0 ∷ rest)) ≡ some s
unfolding before_zero
before_zero-found [] rest h = refl
before_zero-found (x ∷ s) rest h = ground (arith, before_zero-found s rest h.1)

read_string-Reads :
    (s rest : List ℕ) (b : Buffer)
    → All (λ x. x ≢ 0) s
    → Ready b (s ++ (0 ∷ rest))
    → Reads (read_string b) s rest
unfolding read_string
read_string-Reads s rest b h r = (
  record b { pos = b.pos + suc (length s) },
  ground (arith, r.left, before_zero-found s rest h),
  Ready-moved b (s ++ 0 ∷ []) rest (suc (length s))
      (subst (Ready b) (sym (append_assoc s (0 ∷ []) rest)) r)
      (omega (arith, length-append s (0 ∷ []))),
)

prefixed-Reads :
    (s rest : List ℕ) (b : Buffer)
    → length s < 2 ^ 31
    → Ready b (big_endian 4 (length s % 2 ^ 32) ++ (s ++ rest))
    → Reads (read_length_prefixed_string b) s rest
unfolding read_length_prefixed_string
prefixed-Reads s rest b h r =
    let (c, e, q) =
      read_uint-Reads 4 (length s % 2 ^ 32) (s ++ rest) b (Fits-word _ (omega arith)) r in
    let (d, f, t) = read_bytes-Reads s rest (length s % 2 ^ 32) c (omega arith) q in
    (d, rw (read_length_prefixed_string, e) (ground (arith, f)), t)

read_field-Reads :
    (f : Field) (rest : List ℕ) (b : Buffer)
    → IsSound f
    → Ready b (encoded f ++ rest)
    → Reads (read_field f b) f rest
unfolding read_field
read_field-Reads (uint n v) rest b h r =
    let (c, e, q) = read_uint-Reads n v rest b h r in (c, rw (read_field, e) refl, q)
read_field-Reads (bytes s) rest b h r =
    let (c, e, q) = read_bytes-Reads s rest (length s) b refl r in (c, rw (read_field, e) refl, q)
read_field-Reads (zero_ended s) rest b h r =
    let (c, e, q) =
      read_string-Reads s rest b h (subst (Ready b) (append_assoc s (0 ∷ []) rest) r) in
    (c, rw (read_field, e) refl, q)
read_field-Reads (prefixed s) rest b h r =
    let (c, e, q) =
      prefixed-Reads s rest b h
        (subst (Ready b) (append_assoc (big_endian 4 (length s % 2 ^ 32)) s rest) r) in
    (c, rw (read_field, e) refl, q)

abbrev encoded_all : List Field → List ℕ
encoded_all [] = []
encoded_all (f ∷ fs) = encoded f ++ encoded_all fs

buf-write_field : (f : Field) (b : Buffer) → (write_field f b).buf ≡ b.buf ++ encoded f
unfolding write_field
buf-write_field (uint n v) b = refl
buf-write_field (bytes s) b = refl
buf-write_field (zero_ended s) b = append_assoc b.buf s (0 ∷ [])
buf-write_field (prefixed s) b = append_assoc b.buf (big_endian 4 (length s % 2 ^ 32)) s

pos-write_field : (f : Field) (b : Buffer) → (write_field f b).pos ≡ b.pos
unfolding write_field
pos-write_field (uint n v) b = refl
pos-write_field (bytes s) b = refl
pos-write_field (zero_ended s) b = refl
pos-write_field (prefixed s) b = refl

write_fields-buffer :
    (fs : List Field) (b : Buffer)
    → ((write_fields fs b).buf ≡ b.buf ++ encoded_all fs) × ((write_fields fs b).pos ≡ b.pos)
unfolding write_fields
write_fields-buffer [] b = (sym (append_nil b.buf), refl)
write_fields-buffer (f ∷ fs) b =
    let (e, p) = write_fields-buffer fs (write_field f b) in
    (
      e
          ∙ ap (λ l. l ++ encoded_all fs) (buf-write_field f b)
          ∙ append_assoc b.buf (encoded f) (encoded_all fs),
      p ∙ pos-write_field f b,
    )

read_fields-All :
    (fs : List Field) (b : Buffer)
    → All IsSound fs
    → Ready b (encoded_all fs)
    → read_fields fs b ≡ some fs
unfolding read_fields
read_fields-All [] b h r = refl
read_fields-All (f ∷ fs) b h r =
    let (c, e, q) = read_field-Reads f (encoded_all fs) b h.0 r in
    rw (read_fields, e, read_fields-All fs c h.1 q) refl

-- Fields that are written to a new buffer, one after the other, are read back as they were, in the
-- same order: numbers in as many bytes as they need, texts without a zero byte, and texts with their
-- length, an int32, before them.
pub read_fields-write_fields :
    (fs : List Field) → All IsSound fs → read_fields fs (write_fields fs (new_buffer [])) ≡ some fs
read_fields-write_fields fs h =
    let (e, p) = write_fields-buffer fs (new_buffer []) in
    read_fields-All fs (write_fields fs (new_buffer [])) h (record {
      left = ap (λ n. drop n (write_fields fs (new_buffer [])).buf) p ∙ e;
      counted = omega (arith, p, ap length e);
    })
