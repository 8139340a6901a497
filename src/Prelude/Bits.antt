-- ===== src/Prelude/Bits.antt =====
-- Laws of `bit_or` on disjoint fields of a word: `(a << k) | b` is `a * 2 ^ k + b`.
use Prim.Native.Nat.{
  ℕ, zero, suc, ◌+◌, ◌*◌, ◌/◌, ◌%◌, ◌≤◌, ◌<◌, max, bit_or, digits, bit_or-bitwise,
}
use mathlib.Core.Path.{◌≡◌, refl}
use native.Mathlib.Omega.{arith}

abbrev merge_digits : ℕ → ℕ → ℕ → ℕ
merge_digits n a b = digits (λ y. y) max n a b

-- Any count of digits that is not below the first number gives the same result.
merge_digits_count : (n m a b : ℕ) → a ≤ n → a ≤ m → merge_digits n a b ≡ merge_digits m a b
merge_digits_count n zero zero b p q = elim n as (λ k. merge_digits k 0 b ≡ b) [
  | zero ↦ refl
  | suc k ↦ refl
]
merge_digits_count zero (suc m) zero b p q = refl
merge_digits_count (suc n) (suc m) zero b p q = refl
merge_digits_count zero m (suc a) b p q = absurd (omega arith)
merge_digits_count (suc n) zero (suc a) b p q = absurd (omega arith)
merge_digits_count (suc n) (suc m) (suc a) b p q =
    omega (arith, merge_digits_count n m (suc a / 2) (b / 2) (omega arith) (omega arith))

zero-bit_or : (b : ℕ) → bit_or 0 b ≡ b
zero-bit_or b = bit_or-bitwise 0 b

-- The lowest digit of an or, and the or of what stands above it.
bit_or_halves : (a b : ℕ) → bit_or a b ≡ bit_or (a / 2) (b / 2) * 2 + max (a % 2) (b % 2)
bit_or_halves zero b = omega (arith, zero-bit_or b, zero-bit_or (b / 2))
bit_or_halves (suc a) b = omega (
  arith,
  bit_or-bitwise (suc a) b,
  bit_or-bitwise (suc a / 2) (b / 2),
  merge_digits_count a (suc a / 2) (suc a / 2) (b / 2) (omega arith) (omega arith),
)

bit_or-zero_below : (n a : ℕ) → a ≤ n → bit_or a 0 ≡ a
bit_or-zero_below n zero h = zero-bit_or 0
bit_or-zero_below zero (suc a) h = absurd (omega arith)
bit_or-zero_below (suc n) (suc a) h =
    omega (arith, bit_or_halves (suc a) 0, bit_or-zero_below n (suc a / 2) (omega arith))

pub bit_or-zero : (a : ℕ) → bit_or a 0 ≡ a
bit_or-zero a = bit_or-zero_below a a (omega arith)

or_one : (a b : ℕ) → b < 2 → bit_or (a * 2) b ≡ a * 2 + b
or_one a b h = ground (arith, bit_or_halves (a * 2) b, bit_or-zero a)

or_two : (a b : ℕ) → b < 4 → bit_or (a * 4) b ≡ a * 4 + b
or_two a b h = ground (arith, bit_or_halves (a * 4) b, or_one a (b / 2))

pub or_three : (a b : ℕ) → b < 8 → bit_or (a * 8) b ≡ a * 8 + b
or_three a b h = ground (arith, bit_or_halves (a * 8) b, or_two a (b / 2))

pub or_four : (a b : ℕ) → b < 16 → bit_or (a * 16) b ≡ a * 16 + b
or_four a b h = ground (arith, bit_or_halves (a * 16) b, or_three a (b / 2))

pub or_five : (a b : ℕ) → b < 32 → bit_or (a * 32) b ≡ a * 32 + b
or_five a b h = ground (arith, bit_or_halves (a * 32) b, or_four a (b / 2))

or_six : (a b : ℕ) → b < 64 → bit_or (a * 64) b ≡ a * 64 + b
or_six a b h = ground (arith, bit_or_halves (a * 64) b, or_five a (b / 2))

or_seven : (a b : ℕ) → b < 128 → bit_or (a * 128) b ≡ a * 128 + b
or_seven a b h = ground (arith, bit_or_halves (a * 128) b, or_six a (b / 2))

pub or_eight : (a b : ℕ) → b < 256 → bit_or (a * 256) b ≡ a * 256 + b
or_eight a b h = ground (arith, bit_or_halves (a * 256) b, or_seven a (b / 2))
