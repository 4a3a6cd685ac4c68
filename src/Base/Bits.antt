-- ===== src/Base/Bits.antt =====
-- The bits of a native number, one by one. `bit i a` is 0 or 1, and a number is determined by its
-- bits, so that statements about masks are statements about each bit.
pub mod Shift
use Prim.Native.Nat.{
  ℕ, zero, suc, ◌+◌, ◌-◌, ◌*◌, ◌/◌, ◌%◌, ◌^◌, ◌≤◌, ◌<◌, min, max, bit_and, bit_or, digits,
  bit_and-bitwise, bit_or-bitwise,
}
use mathlib.Core.Path.{◌≡◌, refl, ap}
use native.Mathlib.Nat.{pow-suc, one-le-pow}
use native.Mathlib.Omega.{arith}
use u_acpi.Base.Tests.{◌==◌, if◌then◌else◌}

abbrev pub bit : ℕ → ℕ → ℕ
bit zero a = a % 2
bit (suc i) a = bit i (a / 2)

-- The recursion on digits behind the native operations takes fuel; more fuel changes nothing.
digits_enough :
    (z : ℕ → ℕ) (f : ℕ → ℕ → ℕ) (n m a b : ℕ) → a ≤ n → a ≤ m → digits z f n a b ≡ digits z f m a b
digits_enough z f zero zero a b p q = refl
digits_enough z f zero (suc m) zero b p q = refl
digits_enough z f zero (suc m) (suc a) b p q = absurd (omega arith)
digits_enough z f (suc n) zero zero b p q = refl
digits_enough z f (suc n) zero (suc a) b p q = absurd (omega arith)
digits_enough z f (suc n) (suc m) zero b p q = refl
digits_enough z f (suc n) (suc m) (suc a) b p q =
    rw (digits_enough z f n m (suc a / 2) (b / 2) (omega arith) (omega arith))

pub bit_and_low : (a b : ℕ) → bit_and a b ≡ 2 * bit_and (a / 2) (b / 2) + min (a % 2) (b % 2)
bit_and_low zero b = simp bit_and-bitwise (omega arith)
bit_and_low (suc a) b = simp bit_and-bitwise (
    omega (
      arith,
      digits_enough (λ y. 0) min a (suc a / 2) (suc a / 2) (b / 2) (omega arith) (omega arith),
    ))

pub bit_or_low : (a b : ℕ) → bit_or a b ≡ 2 * bit_or (a / 2) (b / 2) + max (a % 2) (b % 2)
bit_or_low zero b = simp bit_or-bitwise (omega arith)
bit_or_low (suc a) b = simp bit_or-bitwise (
    omega (
      arith,
      digits_enough (λ y. y) max a (suc a / 2) (suc a / 2) (b / 2) (omega arith) (omega arith),
    ))

pub bit_lt_two : (i a : ℕ) → bit i a < 2
bit_lt_two zero a = omega arith
bit_lt_two (suc i) a = bit_lt_two i (a / 2)

and_half : (a b : ℕ) → bit_and a b / 2 ≡ bit_and (a / 2) (b / 2)
and_half a b = omega (arith, bit_and_low a b)

or_half : (a b : ℕ) → bit_or a b / 2 ≡ bit_or (a / 2) (b / 2)
or_half a b = omega (arith, bit_or_low a b)

pub bit-and : (i a b : ℕ) → bit i (bit_and a b) ≡ min (bit i a) (bit i b)
bit-and zero a b = omega (arith, bit_and_low a b)
bit-and (suc i) a b = rw (and_half a b) (bit-and i (a / 2) (b / 2))

pub bit-or : (i a b : ℕ) → bit i (bit_or a b) ≡ max (bit i a) (bit i b)
bit-or zero a b = omega (arith, bit_or_low a b)
bit-or (suc i) a b = rw (or_half a b) (bit-or i (a / 2) (b / 2))

ext_below : (n a b : ℕ) → a ≤ n → b ≤ n → ((i : ℕ) → bit i a ≡ bit i b) → a ≡ b
ext_below zero a b p q h = omega arith
ext_below (suc n) a b p q h =
    omega (arith, h 0, ext_below n (a / 2) (b / 2) (omega arith) (omega arith) (λ i. h (suc i)))

-- Numbers with the same bits are equal.
pub bit_ext : (a b : ℕ) → ((i : ℕ) → bit i a ≡ bit i b) → a ≡ b
bit_ext a b h = ext_below (a + b) a b (omega arith) (omega arith) h

pub bit-zero : (i : ℕ) → bit i 0 ≡ 0
bit-zero zero = refl
bit-zero (suc i) = bit-zero i

pub and_zero : (a : ℕ) → bit_and a 0 ≡ 0
and_zero a = bit_ext (bit_and a 0) 0 λ i. omega (arith, bit-and i a 0, bit-zero i, bit_lt_two i a)

pub or_zero : (a : ℕ) → bit_or a 0 ≡ a
or_zero a = bit_ext (bit_or a 0) a λ i. omega (arith, bit-or i a 0, bit-zero i)

pow_suc_times : (q k : ℕ) → q * 2 ^ suc k ≡ 2 * (q * 2 ^ k)
pow_suc_times q k = omega (arith, ap (λ (t : ℕ). q * t) (pow-suc 2 k))

-- Under a mask of `k` ones the low part of a number is left.
and_low_part : (k q r : ℕ) → r < 2 ^ k → bit_and (q * 2 ^ k + r) (2 ^ k - 1) ≡ r
and_low_part zero q r h = rw and_zero (omega arith)
and_low_part (suc k) q r h = ground (
  arith,
  bit_and_low (q * 2 ^ suc k + r) (2 ^ suc k - 1),
  pow_suc_times q k,
  pow-suc 2 k,
  and_low_part k q (r / 2) (omega (arith, pow-suc 2 k)),
)

-- A mask of `k` ones is the remainder by `2 ^ k`.
pub and_mask : (k a : ℕ) → bit_and a (2 ^ k - 1) ≡ a % 2 ^ k
and_mask k a =
    ground (
      arith,
      one-le-pow k 2,
      and_low_part k (a / 2 ^ k) (a % 2 ^ k) (omega (arith, one-le-pow k 2)),
    )

-- Clearing the two lowest bits of a 32-bit number.
pub and_clear_two : (a : ℕ) → a < 2 ^ 32 → bit_and a 0xfffffffc ≡ a / 4 * 4
and_clear_two a h =
    omega (arith, bit_and_low a 0xfffffffc, bit_and_low (a / 2) 0x7ffffffe, and_mask 30 (a / 2 / 2))

pub and_one : (a : ℕ) → bit_and a 1 ≡ a % 2
and_one a = and_mask 1 a

pub and_two : (a : ℕ) → bit_and a 2 ≡ a / 2 % 2 * 2
and_two a = omega (arith, bit_and_low a 2, and_one (a / 2))

-- Setting the lowest bits of a number where they are clear.
pub or_two : (q : ℕ) → bit_or (q * 4) 2 ≡ q * 4 + 2
or_two q = ground (arith, bit_or_low (q * 4) 2, bit_or_low (q * 2) 1, or_zero q)

pub or_one : (q : ℕ) → bit_or (q * 4 + 2) 1 ≡ q * 4 + 3
or_one q = ground (arith, bit_or_low (q * 4 + 2) 1, or_zero (q * 2 + 1))

pub zero_or : (a : ℕ) → bit_or 0 a ≡ a
zero_or a = bit_ext (bit_or 0 a) a λ i. omega (arith, bit-or i 0 a, bit-zero i)

-- The bits of a complement at `k` bits.
pub bit-complement : (k i m : ℕ) → m < 2 ^ k → i < k → bit i (2 ^ k - 1 - m) ≡ 1 - bit i m
bit-complement zero i m h b = absurd (omega arith)
bit-complement (suc k) zero m h b = omega (arith, pow-suc 2 k)
bit-complement (suc k) (suc i) m h b =
    let half : (2 ^ suc k - 1 - m) / 2 ≡ 2 ^ k - 1 - m / 2 = omega (arith, pow-suc 2 k) in
    rw half (bit-complement k i (m / 2) (omega (arith, pow-suc 2 k)) (omega arith))

-- A mask and its complement choose each bit from one of two numbers.
pub bit-select :
    (i m a b : ℕ)
    → m < 2 ^ 64
    → i < 64
    → bit i (bit_or (bit_and a (2 ^ 64 - 1 - m)) (bit_and b m))
      ≡ (if bit i m == 0 then bit i a else bit i b)
bit-select i m a b h l = ground (
  arith,
  bit-or i (bit_and a (2 ^ 64 - 1 - m)) (bit_and b m),
  bit-and i a (2 ^ 64 - 1 - m),
  bit-and i b m,
  bit-complement 64 i m h l,
  bit_lt_two i m,
  bit_lt_two i a,
  bit_lt_two i b,
)
