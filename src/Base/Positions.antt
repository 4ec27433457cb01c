-- ===== src/Base/Positions.antt =====
-- Elements by position, after the writes that the source makes to a slice.
use Prim.Native.Nat.{ℕ, zero, suc, ◌<◌}
use mathlib.Core.Path.{◌≡◌, refl}
use mathlib.Core.Bool.{◌&&◌}
use mathlib.Core.List.{List, [], ◌∷◌, ◌++◌}
use mathlib.Core.Option.{none, some}
use native.Mathlib.Omega.{arith}
use geryon.Base.Tests.{ltb, ◌==◌, if◌then◌else◌}
use geryon.Base.Lists.{length, get_elem?, init, last?, set}

module _ {ℓ} {A : Type ℓ} where
  pub get_elem?-length : (l : List A) (i : ℕ) (c : A) → get_elem? l i ≡ some c → i < length l
  get_elem?-length [] i c e = absurd (ground arith)
  get_elem?-length (x ∷ l) zero c e = omega arith
  get_elem?-length (x ∷ l) (suc i) c e = omega (arith, get_elem?-length l i c e)

  pub get_elem?-append :
      (l : List A) (x : A) (i : ℕ)
      → get_elem? (l ++ x ∷ []) i ≡ (if i == length l then some x else get_elem? l i)
  get_elem?-append [] x zero = ground arith
  get_elem?-append [] x (suc i) = ground arith
  get_elem?-append (y ∷ l) x zero = ground arith
  get_elem?-append (y ∷ l) x (suc i) = ground (arith, get_elem?-append l x i)

  pub get_elem?-init :
      (l : List A) (i : ℕ)
      → get_elem? (init l) i ≡ (if ltb (suc i) (length l) then get_elem? l i else none)
  get_elem?-init [] i = ground arith
  get_elem?-init (x ∷ []) i = ground arith
  get_elem?-init (x ∷ y ∷ l) zero = ground arith
  get_elem?-init (x ∷ y ∷ l) (suc i) = ground (arith, get_elem?-init (y ∷ l) i)

  pub last?-get_elem? : (l : List A) (k : ℕ) → length l ≡ suc k → last? l ≡ get_elem? l k
  last?-get_elem? [] k e = absurd (omega (arith, e))
  last?-get_elem? (x ∷ []) k e = ground arith
  last?-get_elem? (x ∷ y ∷ l) zero e = absurd (omega (arith, e))
  last?-get_elem? (x ∷ y ∷ l) (suc k) e = last?-get_elem? (y ∷ l) k (omega (arith, e))

  pub get_elem?-set :
      (l : List A) (i j : ℕ) (x : A)
      → get_elem? (set l i x) j ≡ (if i == j && ltb i (length l) then some x else get_elem? l j)
  get_elem?-set [] i j x = ground arith
  get_elem?-set (y ∷ l) zero zero x = ground arith
  get_elem?-set (y ∷ l) zero (suc j) x = ground arith
  get_elem?-set (y ∷ l) (suc i) zero x = ground arith
  get_elem?-set (y ∷ l) (suc i) (suc j) x = ground (arith, get_elem?-set l i j x)

  pub length-set : (l : List A) (i : ℕ) (x : A) → length (set l i x) ≡ length l
  length-set [] i x = refl
  length-set (y ∷ l) zero x = refl
  length-set (y ∷ l) (suc i) x = omega (arith, length-set l i x)
