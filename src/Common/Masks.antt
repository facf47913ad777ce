-- ===== src/Common/Masks.antt =====
-- Masks and shifts on machine words as arithmetic.
use Prim.Native.Nat.{
  max, bit_or, bit_or-bitwise, ℕ, zero, suc, ◌+◌, ◌*◌, ◌/◌, ◌%◌, ◌^◌, ◌≤◌, ◌<◌, min, bit_and,
  digits, bit_and-bitwise,
}
use mathlib.Core.Path.{◌≡◌, refl}
use native.Mathlib.Omega.{arith}
use native.Mathlib.Nat.{pow-suc}

-- The digit recursion that `bit_and` stands for, at two amounts of fuel.
abbrev common_digits : ℕ → ℕ → ℕ → ℕ
common_digits f a b = digits (λ _. zero) min f a b

common_digits-zero : (f b : ℕ) → common_digits f 0 b ≡ 0
common_digits-zero zero b = refl
common_digits-zero (suc f) b = refl

common_digits_enough : (f g a b : ℕ) → a ≤ f → a ≤ g → common_digits f a b ≡ common_digits g a b
common_digits_enough f g zero b p q = rw (common_digits-zero f b, common_digits-zero g b)
common_digits_enough zero g (suc a) b p q = absurd (omega arith)
common_digits_enough (suc f) zero (suc a) b p q = absurd (omega arith)
common_digits_enough (suc f) (suc g) (suc a) b p q =
    let rest = common_digits_enough f g (suc a / 2) (b / 2) (omega arith) (omega arith) in
    omega (arith, rest)

-- One digit at a time, at any two numbers.
pub bit_and-halves : (a b : ℕ) → bit_and a b ≡ bit_and (a / 2) (b / 2) * 2 + min (a % 2) (b % 2)
bit_and-halves zero b = omega (arith, bit_and-bitwise 0 b, bit_and-bitwise (0 / 2) (b / 2))
bit_and-halves (suc a) b =
    let rest = common_digits_enough a (suc a / 2) (suc a / 2) (b / 2) (omega arith) (omega arith) in
    omega (arith, rest, bit_and-bitwise (suc a) b, bit_and-bitwise (suc a / 2) (b / 2))

bit_and-zero_below : (n a : ℕ) → a ≤ n → bit_and a 0 ≡ 0
bit_and-zero_below zero zero h = refl
bit_and-zero_below zero (suc a) h = absurd (omega arith)
bit_and-zero_below (suc n) zero h = refl
bit_and-zero_below (suc n) (suc a) h =
    omega (arith, bit_and-halves (suc a) 0, bit_and-zero_below n (suc a / 2) (omega arith))

-- `x & 0x0f`, `x & 0xff`, `x & 1`.
pub bit_and_bit : (a : ℕ) → bit_and a 1 ≡ a % 2
bit_and_bit a = omega (arith, bit_and-halves a 1, bit_and-zero_below (a / 2) (a / 2))

pub bit_and_nibble : (a : ℕ) → bit_and a 0x0f ≡ a % 16
bit_and_nibble a = omega (
  arith,
  bit_and-halves a 15,
  bit_and-halves (a / 2) 7,
  bit_and-halves (a / 2 / 2) 3,
  bit_and_bit (a / 2 / 2 / 2),
)

pub bit_and_byte : (a : ℕ) → bit_and a 0xff ≡ a % 256
bit_and_byte a = omega (
  arith,
  bit_and-halves a 255,
  bit_and-halves (a / 2) 127,
  bit_and-halves (a / 2 / 2) 63,
  bit_and-halves (a / 2 / 2 / 2) 31,
  bit_and_nibble (a / 2 / 2 / 2 / 2),
)

abbrev joined_digits : ℕ → ℕ → ℕ → ℕ
joined_digits f a b = digits (λ y. y) max f a b

joined_digits-zero : (f b : ℕ) → joined_digits f 0 b ≡ b
joined_digits-zero zero b = refl
joined_digits-zero (suc f) b = refl

joined_digits_enough : (f g a b : ℕ) → a ≤ f → a ≤ g → joined_digits f a b ≡ joined_digits g a b
joined_digits_enough f g zero b p q = rw (joined_digits-zero f b, joined_digits-zero g b)
joined_digits_enough zero g (suc a) b p q = absurd (omega arith)
joined_digits_enough (suc f) zero (suc a) b p q = absurd (omega arith)
joined_digits_enough (suc f) (suc g) (suc a) b p q =
    omega (arith, joined_digits_enough f g (suc a / 2) (b / 2) (omega arith) (omega arith))

pub zero-bit_or : (b : ℕ) → bit_or 0 b ≡ b
zero-bit_or b = bit_or-bitwise 0 b

pub bit_or-halves : (a b : ℕ) → bit_or a b ≡ bit_or (a / 2) (b / 2) * 2 + max (a % 2) (b % 2)
bit_or-halves zero b = omega (arith, zero-bit_or b, zero-bit_or (b / 2))
bit_or-halves (suc a) b =
    let rest = joined_digits_enough a (suc a / 2) (suc a / 2) (b / 2) (omega arith) (omega arith) in
    omega (arith, rest, bit_or-bitwise (suc a) b, bit_or-bitwise (suc a / 2) (b / 2))

-- `lo | hi << k` is a sum where `lo` has at most `k` bits.
pub bit_or-shift : (k lo hi : ℕ) → lo < 2 ^ k → bit_or lo (hi * 2 ^ k) ≡ lo + hi * 2 ^ k
bit_or-shift zero zero hi h = omega (arith, zero-bit_or (hi * 2 ^ 0))
bit_or-shift zero (suc lo) hi h = absurd (omega arith)
bit_or-shift (suc k) lo hi h =
    let twice : 2 ^ suc k ≡ 2 * 2 ^ k = rw (pow-suc 2 k) (omega arith) in
    let scaled : hi * 2 ^ suc k ≡ 2 * (hi * 2 ^ k) = rw twice (omega arith) in
    let rest = bit_or-shift k (lo / 2) hi (omega arith) in
    let half : 2 * (hi * 2 ^ k) / 2 ≡ hi * 2 ^ k = omega arith in
    let digit = bit_or-halves lo (2 * (hi * 2 ^ k)) in
    rw scaled (omega (arith, rest, rw half at digit))

bit_or_comm_below : (n a b : ℕ) → a ≤ n → b ≤ n → bit_or a b ≡ bit_or b a
bit_or_comm_below zero zero zero p q = refl
bit_or_comm_below zero (suc a) b p q = absurd (omega arith)
bit_or_comm_below zero zero (suc b) p q = absurd (omega arith)
bit_or_comm_below (suc n) a b p q =
    let rest = bit_or_comm_below n (a / 2) (b / 2) (omega arith) (omega arith) in
    omega (arith, rest, bit_or-halves a b, bit_or-halves b a)

pub bit_or_comm : (a b : ℕ) → bit_or a b ≡ bit_or b a
bit_or_comm a b = bit_or_comm_below (a + b) a b (omega arith) (omega arith)

-- `(hi & 0x0F) << 4 | (lo & 0x0F)`, on a byte.
pub bit_or_nibbles :
    (hi lo : ℕ)
    → hi < 16
    → lo < 16
    → bit_or (bit_and hi 0x0f * 2 ^ 4 % 256) (bit_and lo 0x0f) ≡ hi * 16 + lo
bit_or_nibbles hi lo p q =
    let high : bit_and hi 0x0f * 2 ^ 4 % 256 ≡ hi * 2 ^ 4 = omega (arith, bit_and_nibble hi) in
    let low : bit_and lo 0x0f ≡ lo = omega (arith, bit_and_nibble lo) in
    rw (high, low) (omega (arith, bit_or_comm (hi * 2 ^ 4) lo, bit_or-shift 4 lo hi (omega arith)))

-- `x & m` is at most `x`, and `x | y` has as many bits as the longer of the two.
bit_and-le_below : (n a b : ℕ) → a ≤ n → bit_and a b ≤ a
bit_and-le_below zero zero b h = omega (arith, bit_and-bitwise 0 b)
bit_and-le_below zero (suc a) b h = absurd (omega arith)
bit_and-le_below (suc n) zero b h = omega (arith, bit_and-bitwise 0 b)
bit_and-le_below (suc n) (suc a) b h =
    omega (arith, bit_and-halves (suc a) b, bit_and-le_below n (suc a / 2) (b / 2) (omega arith))

pub bit_and-le : (a b : ℕ) → bit_and a b ≤ a
bit_and-le a b = bit_and-le_below a a b (omega arith)

pub bit_or-lt : (k a b : ℕ) → a < 2 ^ k → b < 2 ^ k → bit_or a b < 2 ^ k
bit_or-lt zero zero zero p q = omega (arith, zero-bit_or 0)
bit_or-lt zero (suc a) b p q = absurd (omega arith)
bit_or-lt zero zero (suc b) p q = absurd (omega arith)
bit_or-lt (suc k) a b p q =
    let twice : 2 ^ suc k ≡ 2 * 2 ^ k = rw (pow-suc 2 k) (omega arith) in
    omega (arith, twice, bit_or-halves a b, bit_or-lt k (a / 2) (b / 2) (omega arith) (omega arith))
