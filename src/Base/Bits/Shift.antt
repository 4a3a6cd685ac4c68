-- ===== src/Base/Bits/Shift.antt =====
-- The bits of shifted, masked and cut numbers.
use native.Mathlib.Nat.{
  pow-suc, one-le-pow, pow-le-pow_right, div-div-eq-div-mul, mod-eq_of_lt, mod-lt, div-one,
  add-zero, add-suc,
}
use native.Mathlib.Decide.{dec_lt}
use u_acpi.Base.{
  ℕ, zero, suc, ◌+◌, ◌-◌, ◌*◌, ◌/◌, ◌%◌, ◌^◌, ◌≤◌, ◌<◌, ◌≡◌, refl, ap, sym, ◌∙◌, bit_and, ltb,
  if◌then◌else◌, arith,
}
use u_acpi.Base.Bits.{bit, bit-and, bit-zero, bit-complement, bit_lt_two, and_mask, bit_ext}

times_pow : (a s : ℕ) → a * 2 ^ suc s ≡ 2 * (a * 2 ^ s)
times_pow a s = omega (arith, ap (λ (t : ℕ). a * t) (pow-suc 2 s))

div_pow : (a s : ℕ) → a / 2 ^ suc s ≡ a / 2 / 2 ^ s
div_pow a s =
    ap (λ (t : ℕ). a / t) (omega (arith, pow-suc 2 s)) ∙ sym (div-div-eq-div-mul a 2 (2 ^ s))

pub bit-shr : (i a s : ℕ) → bit i (a / 2 ^ s) ≡ bit (i + s) a
bit-shr i a zero = rw (div-one a, add-zero i) refl
bit-shr i a (suc s) =
    ap (bit i) (div_pow a s) ∙ bit-shr i (a / 2) s ∙ ap (λ (t : ℕ). bit t a) (sym (add-suc i s))

pub bit-shl : (i a s : ℕ) → bit i (a * 2 ^ s) ≡ (if ltb i s then 0 else bit (i - s) a)
bit-shl i a zero = ground arith
bit-shl zero a (suc s) = ground (arith, times_pow a s)
bit-shl (suc i) a (suc s) =
    let half : a * 2 ^ suc s / 2 ≡ a * 2 ^ s = omega (arith, times_pow a s) in
    ground (arith, half, bit-shl i a s)

pub bit-ones : (i k : ℕ) → bit i (2 ^ k - 1) ≡ (if ltb i k then 1 else 0)
bit-ones i zero = ground (arith, bit-zero i)
bit-ones zero (suc k) = ground (arith, pow-suc 2 k, one-le-pow k 2)
bit-ones (suc i) (suc k) =
    let half : (2 ^ suc k - 1) / 2 ≡ 2 ^ k - 1 = omega (arith, pow-suc 2 k, one-le-pow k 2) in
    ground (arith, half, bit-ones i k)

pub bit-mod : (i a k : ℕ) → bit i (a % 2 ^ k) ≡ (if ltb i k then bit i a else 0)
bit-mod i a k =
    ap (bit i) (sym (and_mask k a))
    ∙ ground (arith, bit-and i a (2 ^ k - 1), bit-ones i k, bit_lt_two i a)

-- A number below `2 ^ k` has no bit from `k` on.
pub bit_high : (i a k : ℕ) → a < 2 ^ k → k ≤ i → bit i a ≡ 0
bit_high i a k h b = ground (arith, bit-mod i a k, mod-eq_of_lt h)

-- And a number without a bit from `k` on is below `2 ^ k`.
pub lt_of_bits : (a k : ℕ) → ((i : ℕ) → k ≤ i → bit i a ≡ 0) → a < 2 ^ k
lt_of_bits a k h =
    let cut : a % 2 ^ k ≡ a = bit_ext (a % 2 ^ k) a (λ i. elim (dec_lt i k) [
      | yes l ↦ ground (arith, bit-mod i a k)
      | no n ↦ ground (arith, bit-mod i a k, h i (omega arith))
    ]) in
    omega (arith, cut, mod-lt a (one-le-pow k 2 (omega arith)))

-- Clearing the `j` lowest bits of a number of `w` bits by a mask.
pub clear_low :
    (w j x : ℕ) → x < 2 ^ w → j ≤ w → bit_and x (2 ^ w - 1 - (2 ^ j - 1)) ≡ x / 2 ^ j * 2 ^ j
clear_low w j x h l =
    let mask : 2 ^ j - 1 < 2 ^ w =
      omega (arith, pow-le-pow_right {n = 2} (omega arith) {i = j} {j = w} l, one-le-pow j 2) in
    bit_ext (bit_and x (2 ^ w - 1 - (2 ^ j - 1))) (x / 2 ^ j * 2 ^ j) (λ i. ground (
      arith,
      bit-and i x (2 ^ w - 1 - (2 ^ j - 1)),
      bit-complement w i (2 ^ j - 1) mask,
      bit-ones i j,
      bit-shl i (x / 2 ^ j) j,
      bit-shr (i - j) x j,
      bit_lt_two i x,
      bit_high i x w h,
    ))
