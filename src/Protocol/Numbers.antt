-- ===== src/Protocol/Numbers.antt =====
-- Numbers in big-endian order, as internal/protocol/common/message.go writes and reads them.
use geryon.Base.{
  ℕ, zero, suc, ◌+◌, ◌*◌, ◌/◌, ◌%◌, ◌^◌, ◌<◌, ◌≡◌, refl, ◌∙◌, sym, List, [], ◌∷◌, ◌++◌, length,
  length-append, arith,
}
use geryon.Protocol.{big_endian, number}

-- A number that `n` bytes hold.
abbrev pub Fits : ℕ → ℕ → Type 0
Fits zero v = v ≡ 0
Fits (suc n) v = Fits n (v / 256)

number-append :
    (acc : ℕ) (xs : List ℕ) (b : ℕ) → number acc (xs ++ b ∷ []) ≡ number acc xs * 256 + b
number-append acc [] b = refl
number-append acc (x ∷ xs) b = number-append (acc * 256 + x) xs b

pub number-big_endian : (n v : ℕ) → Fits n v → number 0 (big_endian n v) ≡ v
number-big_endian zero v f = sym f
number-big_endian (suc n) v f =
    number-append 0 (big_endian n (v / 256)) (v % 256)
    ∙ omega (arith, number-big_endian n (v / 256) f)

pub length-big_endian : (n v : ℕ) → length (big_endian n v) ≡ n
length-big_endian zero v = refl
length-big_endian (suc n) v =
    omega
      (arith, length-append (big_endian n (v / 256)) (v % 256 ∷ []), length-big_endian n (v / 256))

pub Fits-word : (v : ℕ) → v < 2 ^ 32 → Fits 4 v
Fits-word v h = omega arith
