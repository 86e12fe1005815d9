-- ===== src/Base/Bits.antt =====
-- `&` with a mask of low bits, and with a mask of high bits, as arithmetic.
use Prim.Native.Nat.{ℕ, zero, suc, ◌+◌, ◌-◌, ◌*◌, ◌/◌, ◌%◌, ◌^◌, ◌≤◌, ◌<◌, min, max}
use Prim.Native.Nat.{bit_and, bit_or, digits, bitwise, bit_and-bitwise, bit_or-bitwise}
use mathlib.Core.Path.{◌≡◌, refl}
use native.Mathlib.Nat.{pow-suc, one-le-pow}
use native.Mathlib.Omega.{arith}

-- An operation on binary digits is a recursion with `n` rounds. Any number of rounds from the left
-- operand on gives the operation; `k` is there for the induction.
module _ (z : ℕ → ℕ) (f : ℕ → ℕ → ℕ) where
  rounds_enough : (k a : ℕ) → a < k → (n b : ℕ) → a ≤ n → digits z f n a b ≡ bitwise z f a b
  rounds_enough zero a small n b le = absurd (omega arith)
  rounds_enough (suc k) zero small zero b le = refl
  rounds_enough (suc k) zero small (suc n) b le = refl
  rounds_enough (suc k) (suc a) small zero b le = absurd (omega arith)
  rounds_enough (suc k) (suc a) small (suc n) b le =
      let half =
        λ (r : ℕ) (h : suc a / 2 ≤ r). rounds_enough k (suc a / 2) (omega arith) r (b / 2) h in
      omega (arith, half n (omega arith), half a (omega arith))

  -- The lowest digit, and the operation on the others.
  bitwise_halves :
      (b : ℕ)
      → z b ≡ f 0 (b % 2) + 2 * z (b / 2)
      → (a : ℕ) → bitwise z f a b ≡ f (a % 2) (b % 2) + 2 * bitwise z f (a / 2) (b / 2)
  bitwise_halves b last zero = last
  bitwise_halves b last (suc a) =
      omega (arith, rounds_enough (suc a) (suc a / 2) (omega arith) a (b / 2) (omega arith))

-- The lowest digit of `a & b`, and the `&` of the others.
pub bit_and_halves : (a b : ℕ) → bit_and a b ≡ min (a % 2) (b % 2) + 2 * bit_and (a / 2) (b / 2)
bit_and_halves a b = omega (
  arith,
  bit_and-bitwise a b,
  bit_and-bitwise (a / 2) (b / 2),
  bitwise_halves (λ _. 0) min b (omega arith) a,
)

pub bit_or_halves : (a b : ℕ) → bit_or a b ≡ max (a % 2) (b % 2) + 2 * bit_or (a / 2) (b / 2)
bit_or_halves a b = omega (
  arith,
  bit_or-bitwise a b,
  bit_or-bitwise (a / 2) (b / 2),
  bitwise_halves (λ c. c) max b (omega arith) a,
)

-- `a | 0x80` for a value of seven bits.
pub bit_or_high : (a : ℕ) → a < 128 → bit_or a 0x80 ≡ a + 128
bit_or_high a small =
    let h = bit_or_halves in
    let none_left : a / 2 / 2 / 2 / 2 / 2 / 2 / 2 ≡ 0 = omega arith in
    let top : bit_or (a / 2 / 2 / 2 / 2 / 2 / 2 / 2) 1 ≡ 1 = rw none_left refl in
    omega (
      arith,
      h a 128,
      h (a / 2) 64,
      h (a / 2 / 2) 32,
      h (a / 2 / 2 / 2) 16,
      h (a / 2 / 2 / 2 / 2) 8,
      h (a / 2 / 2 / 2 / 2 / 2) 4,
      h (a / 2 / 2 / 2 / 2 / 2 / 2) 2,
      top,
    )

no_bits : (k a : ℕ) → a < k → bit_and a 0 ≡ 0
no_bits zero a small = absurd (omega arith)
no_bits (suc k) zero small = refl
no_bits (suc k) (suc a) small =
    omega (arith, bit_and_halves (suc a) 0, no_bits k (suc a / 2) (omega arith))

-- A mask of `k` ones keeps a number of `k` bits.
pub bit_and_ones : (k ones a : ℕ) → ones + 1 ≡ 2 ^ k → a < 2 ^ k → bit_and a ones ≡ a
bit_and_ones zero ones zero e fits = bit_and-bitwise 0 ones
bit_and_ones zero ones (suc a) e fits = absurd (omega arith)
bit_and_ones (suc k) ones a e fits = omega (
  arith,
  pow-suc 2 k,
  one-le-pow k 2,
  bit_and_halves a ones,
  bit_and_ones k (ones / 2) (a / 2) (omega (arith, pow-suc 2 k)) (omega (arith, pow-suc 2 k)),
)

-- `a & 0x0f` and `a & 0xff`.
pub bit_and_nibble : (a : ℕ) → bit_and a 0x0f ≡ a % 16
bit_and_nibble a =
    let h = bit_and_halves in
    omega (
      arith,
      h a 15,
      h (a / 2) 7,
      h (a / 2 / 2) 3,
      h (a / 2 / 2 / 2) 1,
      no_bits (a + 1) (a / 2 / 2 / 2 / 2) (omega arith),
    )

pub bit_and_byte : (a : ℕ) → bit_and a 0xff ≡ a % 256
bit_and_byte a =
    let h = bit_and_halves in
    omega (
      arith,
      h a 255,
      h (a / 2) 127,
      h (a / 2 / 2) 63,
      h (a / 2 / 2 / 2) 31,
      bit_and_nibble (a / 2 / 2 / 2 / 2),
    )

-- A 64-bit value with its two, or three, low bits cleared.
pub bit_and_align4 : (a : ℕ) → a < 2 ^ 64 → bit_and a (2 ^ 64 - 4) ≡ a / 4 * 4
bit_and_align4 a h = omega (
  arith,
  bit_and_halves a (2 ^ 64 - 4),
  bit_and_halves (a / 2) (2 ^ 63 - 2),
  bit_and_ones 62 (2 ^ 62 - 1) (a / 2 / 2) refl (omega arith),
)

pub bit_and_align8 : (a : ℕ) → a < 2 ^ 64 → bit_and a (2 ^ 64 - 8) ≡ a / 8 * 8
bit_and_align8 a h = omega (
  arith,
  bit_and_halves a (2 ^ 64 - 8),
  bit_and_halves (a / 2) (2 ^ 63 - 4),
  bit_and_halves (a / 2 / 2) (2 ^ 62 - 2),
  bit_and_ones 61 (2 ^ 61 - 1) (a / 2 / 2 / 2) refl (omega arith),
)
