-- ===== src/Field/Copy/Rounds.antt =====
-- One round of the loop of `bit_copy` in source/io.c, by bits.
use u_acpi.Base.{
  ℕ, ◌+◌, ◌-◌, ◌*◌, ◌/◌, ◌%◌, ◌^◌, ◌≤◌, ◌<◌, ◌≡◌, refl, ap, min, ◌&&◌, ◌==◌, if◌then◌else◌, ltb,
  leb, bit_and, bit_or, arith,
}
use u_acpi.Base.{◌≢◌}
use native.Mathlib.Decide.{ℕ_discrete, dec_lt}
use u_acpi.Base.Bits.{bit, bit-and, bit-or, bit-zero, bit-complement, bit_lt_two}
use u_acpi.Base.Bits.Shift.{bit-shr, bit-shl, bit-ones, bit-mod, bit_high}
use u_acpi.Stdlib.Memory.{Memory}
use u_acpi.Field.Copy.{next_bits, put_bits, clears}

-- Each byte is one.
abbrev pub Bytes : Memory → Type 0
Bytes m = (b : ℕ) → m b < 2 ^ 8

-- The bit at a distance in bits.
unfoldable pub bit_at : Memory → ℕ → ℕ
bit_at m x = bit (x % 8) (m (x / 8))

pub bit_at_split : (m : Memory) (x : ℕ) → bit_at m x ≡ bit (x % 8) (m (x / 8))
unfolding bit_at
bit_at_split m x = refl

pub bit_at_byte : (m : Memory) (p i : ℕ) → i < 8 → bit_at m (8 * p + i) ≡ bit i (m p)
unfolding bit_at
bit_at_byte m p i h =
    let byte : (8 * p + i) / 8 ≡ p = omega arith in
    let place : (8 * p + i) % 8 ≡ i = omega arith in rw (byte, place) refl

-- The bit `k` places behind bit `s` of byte `p`.
bit_at_next :
    (m : Memory) (p s k : ℕ)
    → s < 8
    → k < 8
    → bit_at m (8 * p + s + k)
      ≡ (if ltb (k + s) 8 then bit (k + s) (m p) else bit (k + s - 8) (m (p + 1)))
bit_at_next m p s k a b =
    let here : k + s < 8 → 8 * p + s + k ≡ 8 * p + (k + s) = λ h. omega arith in
    let there : 8 ≤ k + s → 8 * p + s + k ≡ 8 * (p + 1) + (k + s - 8) = λ h. omega arith in
    ground (arith, here, there, bit_at_byte m p (k + s), bit_at_byte m (p + 1) (k + s - 8))

joined-bit :
    (k a b s : ℕ)
    → k < 8
    → s < 8
    → a < 2 ^ 8
    → bit k (bit_or (a / 2 ^ s) (b * 2 ^ (8 - s) % 2 ^ 8))
      ≡ (if ltb (k + s) 8 then bit (k + s) a else bit (k + s - 8) b)
joined-bit k a b s p q r = ground (
  arith,
  bit-or k (a / 2 ^ s) (b * 2 ^ (8 - s) % 2 ^ 8),
  bit-shr k a s,
  bit-mod k (b * 2 ^ (8 - s)) 8,
  bit-shl k b (8 - s),
  bit_high (k + s) a 8 r,
)

-- The bits read are the next 8 of the source, and 0 where it has no more.
next_bits-bit :
    (k : ℕ) (src : Memory) (p s sc : ℕ)
    → Bytes src
    → k < 8
    → s < 8
    → bit k (next_bits src p s sc) ≡ (if ltb k sc then bit_at src (8 * p + s + k) else 0)
unfolding next_bits
next_bits-bit k src p s sc c a b =
    let both = bit_or (src p / 2 ^ s) (src (p + 1) * 2 ^ (8 - s) % 2 ^ 8) in
    ground (
      arith,
      bit_at_next src p s k b a,
      joined-bit k (src p) (src (p + 1)) s a b (c p),
      bit-shr k (src p) s,
      bit-and k both (2 ^ sc - 1),
      bit-and k (src p / 2 ^ s) (2 ^ sc - 1),
      bit-ones k sc,
      bit_lt_two k both,
      bit_lt_two k (src p / 2 ^ s),
      bit_lt_two (k + s) (src p),
      bit-zero k,
      bit_high (k + s) (src p) 8 (c p),
    )

-- The bits of the window of `width` bits from bit `shift` on.
window-bit :
    (i width shift : ℕ)
    → width ≤ 8
    → shift < 8
    → bit i ((2 ^ width - 1) * 2 ^ shift % 2 ^ 16)
      ≡ (if leb shift i && ltb i (shift + width) then 1 else 0)
window-bit i width shift a b = ground (
  arith,
  bit-mod i ((2 ^ width - 1) * 2 ^ shift) 16,
  bit-shl i (2 ^ width - 1) shift,
  bit-ones (i - shift) width,
)

-- A bit of a byte in which the bits of a mask are replaced.
replaced-bit :
    (i old new mask : ℕ)
    → i < 32
    → mask < 2 ^ 32
    → bit i (bit_or (bit_and old (clears mask)) (bit_and new mask))
      ≡ (if bit i mask == 0 then bit i old else bit i new)
replaced-bit i old new mask a b = ground (
  arith,
  bit-or i (bit_and old (clears mask)) (bit_and new mask),
  bit-and i old (clears mask),
  bit-and i new mask,
  bit-complement 32 i mask b a,
  bit_lt_two i mask,
  bit_lt_two i old,
  bit_lt_two i new,
)

-- The mask of a round, by the width that the round writes.
round_mask : (c d : ℕ) → (if ltb c 8 then 2 ^ c - 1 else 0xff) * 2 ^ d ≡ (2 ^ min c 8 - 1) * 2 ^ d
round_mask c d = ap (λ (t : ℕ). t * 2 ^ d) (ground arith)

low-bit :
    (i old v c d : ℕ)
    → i < 8
    → d < 8
    → let mask = (2 ^ min c 8 - 1) * 2 ^ d % 2 ^ 16 in
      bit i (bit_or (bit_and old (clears mask)) (bit_and (v * 2 ^ d) mask) % 2 ^ 8)
      ≡ (if leb d i && ltb i (d + min c 8) then bit (i - d) v else bit i old)
low-bit i old v c d a b =
    let mask = (2 ^ min c 8 - 1) * 2 ^ d % 2 ^ 16 in
    ground (
      arith,
      bit-mod i (bit_or (bit_and old (clears mask)) (bit_and (v * 2 ^ d) mask)) 8,
      replaced-bit i old (v * 2 ^ d) mask,
      window-bit i (min c 8) d,
      bit-shl i v d,
    )

high-bit :
    (i old v c d : ℕ)
    → i < 8
    → d < 8
    → let mask = (2 ^ min c 8 - 1) * 2 ^ d % 2 ^ 16 in
      bit i
        (bit_or (bit_and old (clears (mask / 2 ^ 8))) (bit_and (v / 2 ^ (8 - d)) (mask / 2 ^ 8)))
      ≡ (if ltb (i + 8) (d + min c 8) then bit (i + 8 - d) v else bit i old)
high-bit i old v c d a b =
    let mask = (2 ^ min c 8 - 1) * 2 ^ d % 2 ^ 16 in
    let place : i + (8 - d) ≡ i + 8 - d = omega arith in
    ground (
      arith,
      replaced-bit i old (v / 2 ^ (8 - d)) (mask / 2 ^ 8),
      bit-shr i mask 8,
      window-bit (i + 8) (min c 8) d,
      bit-shr i v (8 - d),
      place,
    )

put_bits-here :
    (i : ℕ) (dst : Memory) (p d c v : ℕ)
    → i < 8
    → d < 8
    → bit i (put_bits dst p d c v p)
      ≡ (if leb d i && ltb i (d + min c 8) then bit (i - d) v else bit i (dst p))
unfolding put_bits
put_bits-here i dst p d c v h k = rw (round_mask c d) (ground (arith, low-bit i (dst p) v c d h k))

put_bits-next :
    (i : ℕ) (dst : Memory) (p d c v : ℕ)
    → i < 8
    → d < 8
    → bit i (put_bits dst p d c v (p + 1))
      ≡ (if ltb (i + 8) (d + min c 8) then bit (i + 8 - d) v else bit i (dst (p + 1)))
unfolding put_bits
put_bits-next i dst p d c v h k =
    rw (round_mask c d) (ground (arith, high-bit i (dst (p + 1)) v c d h k))

put_bits_other :
    (b : ℕ) (dst : Memory) (p d c v : ℕ) → b ≢ p → b ≢ p + 1 → put_bits dst p d c v b ≡ dst b
unfolding put_bits
put_bits_other b dst p d c v h k = ground arith

-- A round writes 8 bits, or as many as are left, and keeps every other bit.
pub put_bits-bit :
    (b i : ℕ) (dst : Memory) (p d c v : ℕ)
    → i < 8
    → d < 8
    → bit i (put_bits dst p d c v b) ≡ (
        if leb (8 * p + d) (8 * b + i) && ltb (8 * b + i) (8 * p + d + min c 8)
        then bit (8 * b + i - (8 * p + d)) v
        else bit i (dst b))
put_bits-bit b i dst p d c v h k = elim (ℕ_discrete b p) [
  | yes e ↦
      let place : 8 * p + i - (8 * p + d) ≡ i - d = omega arith in
      rw e (ground (arith, place, put_bits-here i dst p d c v h k))
  | no n ↦ elim (ℕ_discrete b (p + 1)) [
    | yes e ↦
        let place : 8 * (p + 1) + i - (8 * p + d) ≡ i + 8 - d = omega arith in
        rw e (ground (arith, place, put_bits-next i dst p d c v h k))
    | no m ↦ ground (arith, ap (bit i) (put_bits_other b dst p d c v n m))
  ]
]

-- The bit at distance `x` after a copy of bits to place `o` from place `q`: in the destination's
-- span the source's, or 0 where the source's span has ended, and outside it the old one.
abbrev pub copied : ℕ → ℕ → ℕ → Memory → ℕ → ℕ → ℕ → ℕ
copied x o dc src q sc old =
    if leb o x && ltb x (o + dc)
    then (if ltb (x - o) sc then bit_at src (q + (x - o)) else 0)
    else old

-- One round, and then a copy of what it leaves, are a copy.
pub copied_step :
    (x p d dc : ℕ) (src : Memory) (q s sc old : ℕ)
    → 0 < dc
    → let o = 8 * p + d in
      copied x
        (8 * (p + 1) + d)
        (if ltb 8 dc then dc - 8 else 0)
        src
        (8 * (if ltb sc 8 then q else q + 1) + s)
        (if ltb sc 8 then 0 else sc - 8)
        (if leb o x && ltb x (o + min dc 8)
          then (if ltb (x - o) sc then bit_at src (8 * q + s + (x - o)) else 0)
          else old)
      ≡ copied x o dc src (8 * q + s) sc old
copied_step x p d dc src q s sc old h =
    let place : 8 * (p + 1) + d ≤ x
        → 8 * (q + 1) + s + (x - (8 * (p + 1) + d)) ≡ 8 * q + s + (x - (8 * p + d)) =
      λ l. omega arith in
    ground (arith, place)

-- The byte that a round reads, put where the round writes.
pub round-bit :
    (x : ℕ) (src : Memory) (o c q s sc old : ℕ)
    → Bytes src
    → s < 8
    → (if leb o x && ltb x (o + min c 8) then bit (x - o) (next_bits src q s sc) else old) ≡ (
        if leb o x && ltb x (o + min c 8)
        then (if ltb (x - o) sc then bit_at src (8 * q + s + (x - o)) else 0)
        else old)
round-bit x src o c q s sc old b h = elim (dec_lt (x - o) 8) [
  | yes k ↦ ground (arith, next_bits-bit (x - o) src q s sc b k h)
  | no k ↦ ground arith
]
