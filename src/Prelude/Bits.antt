-- ===== src/Prelude/Bits.antt =====
-- Words of fixed width xs their bits, the lowest first.
use Prim.Native.Nat.{ℕ, zero, suc, ◌+◌, ◌/◌, ◌%◌, ◌<◌}
use mathlib.Core.Path.{◌≡◌, refl, ap}
use mathlib.Core.Bool.{Bool, true, false, not, ◌&&◌, ◌||◌}
use mathlib.Core.List.{List, [], ◌∷◌}
use native.Mathlib.Omega.{arith}
use shad_net.Prelude.Tests.{nat_beq, if◌then◌else◌}
use shad_net.Prelude.Lists.{length, replicate}

abbrev pub Word : Type 0
Word = List Bool

-- ~a
abbrev pub bit_not : Word → Word
bit_not [] = []
bit_not (a ∷ xs) = not a ∷ bit_not xs

-- a & b
abbrev pub bit_and : Word → Word → Word
bit_and [] ys = []
bit_and (a ∷ xs) [] = []
bit_and (a ∷ xs) (b ∷ ys) = (a && b) ∷ bit_and xs ys

-- a | b
abbrev pub bit_or : Word → Word → Word
bit_or [] ys = []
bit_or (a ∷ xs) [] = []
bit_or (a ∷ xs) (b ∷ ys) = (a || b) ∷ bit_or xs ys

-- a - 1, at the same width
abbrev pub decrement : Word → Word
decrement [] = []
decrement (true ∷ xs) = false ∷ xs
decrement (false ∷ xs) = true ∷ decrement xs

-- 1 << n, at width w
abbrev pub shifted_one : ℕ → ℕ → Word
shifted_one zero n = []
shifted_one (suc w) zero = true ∷ replicate w false
shifted_one (suc w) (suc n) = false ∷ shifted_one w n

-- The bit at a position; none is set past the width.
abbrev pub test_bit : Word → ℕ → Bool
test_bit [] n = false
test_bit (a ∷ xs) zero = a
test_bit (a ∷ xs) (suc n) = test_bit xs n

-- a != 0
abbrev pub nonzero : Word → Bool
nonzero [] = false
nonzero (a ∷ xs) = a || nonzero xs

-- a == b, at the same width
abbrev pub word_beq : Word → Word → Bool
word_beq [] [] = true
word_beq [] (b ∷ v) = false
word_beq (a ∷ w) [] = false
word_beq (true ∷ w) (b ∷ v) = if b then word_beq w v else false
word_beq (false ∷ w) (b ∷ v) = if b then false else word_beq w v

-- The number of set bits.
abbrev pub popcount : Word → ℕ
popcount [] = 0
popcount (a ∷ xs) = if a then suc (popcount xs) else popcount xs

-- The low w bits of a number.
abbrev pub of_nat : ℕ → ℕ → Word
of_nat zero n = []
of_nat (suc w) n = nat_beq (n % 2) 1 ∷ of_nat w (n / 2)

pub test_bit-bit_and :
    (xs ys : Word) (n : ℕ) → test_bit (bit_and xs ys) n ≡ (test_bit xs n && test_bit ys n)
test_bit-bit_and [] ys n = refl
test_bit-bit_and (a ∷ xs) [] n = ground arith
test_bit-bit_and (a ∷ xs) (b ∷ ys) zero = refl
test_bit-bit_and (a ∷ xs) (b ∷ ys) (suc n) = test_bit-bit_and xs ys n

pub test_bit-bit_or :
    (xs ys : Word) (n : ℕ)
    → length xs ≡ length ys
    → test_bit (bit_or xs ys) n ≡ (test_bit xs n || test_bit ys n)
test_bit-bit_or [] [] n h = refl
test_bit-bit_or [] (b ∷ ys) n h = absurd (omega arith)
test_bit-bit_or (a ∷ xs) [] n h = absurd (omega arith)
test_bit-bit_or (a ∷ xs) (b ∷ ys) zero h = refl
test_bit-bit_or (a ∷ xs) (b ∷ ys) (suc n) h = test_bit-bit_or xs ys n (omega arith)

pub test_bit-bit_not :
    (xs : Word) (n : ℕ) → n < length xs → test_bit (bit_not xs) n ≡ not (test_bit xs n)
test_bit-bit_not [] n h = absurd (omega arith)
test_bit-bit_not (a ∷ xs) zero h = refl
test_bit-bit_not (a ∷ xs) (suc n) h = test_bit-bit_not xs n (omega arith)

pub test_bit-replicate : (w n : ℕ) → test_bit (replicate w false) n ≡ false
test_bit-replicate zero n = refl
test_bit-replicate (suc w) zero = refl
test_bit-replicate (suc w) (suc n) = test_bit-replicate w n

pub test_bit-shifted_one : (w n k : ℕ) → n < w → test_bit (shifted_one w n) k ≡ nat_beq n k
test_bit-shifted_one zero n k h = absurd (omega arith)
test_bit-shifted_one (suc w) zero zero h = refl
test_bit-shifted_one (suc w) zero (suc k) h = ground (arith, test_bit-replicate w k)
test_bit-shifted_one (suc w) (suc n) zero h = ground arith
test_bit-shifted_one (suc w) (suc n) (suc k) h = ground (arith, test_bit-shifted_one w n k)

pub length-bit_and : (xs ys : Word) → length xs ≡ length ys → length (bit_and xs ys) ≡ length xs
length-bit_and [] ys h = refl
length-bit_and (a ∷ xs) [] h = absurd (omega arith)
length-bit_and (a ∷ xs) (b ∷ ys) h = ap suc (length-bit_and xs ys (omega arith))

pub length-bit_or : (xs ys : Word) → length xs ≡ length ys → length (bit_or xs ys) ≡ length xs
length-bit_or [] ys h = refl
length-bit_or (a ∷ xs) [] h = absurd (omega arith)
length-bit_or (a ∷ xs) (b ∷ ys) h = ap suc (length-bit_or xs ys (omega arith))

pub length-bit_not : (xs : Word) → length (bit_not xs) ≡ length xs
length-bit_not [] = refl
length-bit_not (a ∷ xs) = ap suc (length-bit_not xs)

pub length-shifted_one : (w n : ℕ) → length (shifted_one w n) ≡ w
length-shifted_one zero n = refl
length-shifted_one (suc w) zero = ap suc (zeros w)
  where
    zeros : (k : ℕ) → length (replicate k false) ≡ k
    zeros zero = refl
    zeros (suc k) = ap suc (zeros k)
length-shifted_one (suc w) (suc n) = ap suc (length-shifted_one w n)

-- A word splits into what a mask keeps and what it clears.
pub popcount-split :
    (xs ys : Word)
    → length xs ≡ length ys
    → popcount (bit_and xs ys) + popcount (bit_and xs (bit_not ys)) ≡ popcount xs
popcount-split [] ys h = omega arith
popcount-split (a ∷ xs) [] h = absurd (omega arith)
popcount-split (a ∷ xs) (b ∷ ys) h = ground (arith, popcount-split xs ys)
