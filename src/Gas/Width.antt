-- ===== src/Gas/Width.antt =====
-- The access widths that source/io.c chooses.
use u_acpi.Base.{
  ℕ, zero, suc, ◌+◌, ◌-◌, ◌/◌, ◌%◌, ◌^◌, ◌≤◌, ◌<◌, ◌≡◌, ◌⊎◌, refl, Bool, true, some, ok, ◌==◌,
  holds_below, holds_below-test, leb, ◌||◌, arith,
}
use u_acpi.Base.Bits.{and_zero}
use u_acpi.Gas.Access.{
  Gas, system_memory, is_aligned, bit_length, back_off, width_from_extent, access_bit_width,
  gas_validate,
}

-- The loop has ended: the address is aligned to a width of one byte or more.
abbrev pub Fits : ℕ → ℕ → Type 0
Fits address width = (is_aligned address (width / 8) ≡ true) × (8 ≤ width)

aligned_byte : (address : ℕ) → is_aligned address (8 / 8) ≡ true
unfolding is_aligned
aligned_byte address = rw (and_zero address)

back_off_byte : (n address : ℕ) → Fits address (back_off (suc n) address 8)
unfolding back_off
back_off_byte n address = ground (arith, aligned_byte address)

back_off_double :
    (n address width : ℕ)
    → 8 ≤ width
    → Fits address (back_off n address (width / 2))
    → Fits address (back_off (suc n) address width)
unfolding back_off
back_off_double n address width b f = ground arith

-- What the shift leaves of a power of two, in a `uacpi_u8`.
is_byte_power : ℕ → Bool
is_byte_power p = leb p 8 || ((p == 16 || p == 32) || (p == 64 || p == 128))

byte_powers : holds_below 65 (λ k. is_byte_power (2 ^ k % 2 ^ 8)) ≡ true
unfolding holds_below is_byte_power
byte_powers = refl

byte_power_of : (k : ℕ) → k < 65 → is_byte_power (2 ^ k % 2 ^ 8) ≡ true
byte_power_of k b = holds_below-test 65 k _ byte_powers b

bit_length-le : (n v : ℕ) → bit_length n v ≤ n
unfolding bit_length
bit_length-le zero v = omega arith
bit_length-le (suc n) v = ground (arith, bit_length-le n (v / 2))

back_off_16 : (n address : ℕ) → Fits address (back_off (suc (suc n)) address 16)
back_off_16 n address = back_off_double (suc n) address 16 (omega arith) (back_off_byte n address)

back_off_32 : (n address : ℕ) → Fits address (back_off (suc (suc (suc n))) address 32)
back_off_32 n address =
    back_off_double (suc (suc n)) address 32 (omega arith) (back_off_16 n address)

back_off_64 : (n address : ℕ) → Fits address (back_off (suc (suc (suc (suc n)))) address 64)
back_off_64 n address =
    back_off_double (suc (suc (suc n))) address 64 (omega arith) (back_off_32 n address)

back_off-Fits :
    (address p : ℕ) → is_byte_power p ≡ true → 8 < p → Fits address (back_off 5 address p)
unfolding is_byte_power
back_off-Fits address p h b = ground (
  arith,
  back_off_16 3 address,
  back_off_32 2 address,
  back_off_64 1 address,
  back_off_double 4 address 128 (omega arith) (back_off_64 0 address),
)

-- The halving loop ends within its fuel: the width taken from the register's extent is at least a
-- byte, and the address is aligned to it.
pub width_from_extent-Fits : (g : Gas) → Fits g.address (width_from_extent g)
unfolding width_from_extent
width_from_extent-Fits g =
    let msb = bit_length 64 (g.register_bit_offset + g.register_bit_width - 1) in
    ground (
      arith,
      aligned_byte g.address,
      back_off-Fits g.address (2 ^ msb % 2 ^ 8),
      byte_power_of msb,
      bit_length-le 64 (g.register_bit_offset + g.register_bit_width - 1),
    )

-- A width of zero is chosen only for a register without bits.
pub access_bit_width-pos :
    (g : Gas)
    → g.access_size ≤ 4
    → (0 < access_bit_width g) ⊎ (g.register_bit_offset ≡ 0) × (g.register_bit_width ≡ 0)
unfolding access_bit_width
access_bit_width-pos g b = ground (arith, width_from_extent-Fits g)

-- The access size 3 gives 24 bits to a register in memory that starts at a bit other than 0.
pub access_bit_width-double_word :
    (g : Gas)
    → g.address_space_id ≡ system_memory
    → g.access_size ≡ 3
    → 0 < g.register_bit_offset
    → access_bit_width g ≡ 24
unfolding access_bit_width
access_bit_width-double_word g m a o = ground arith

pub gas_validate-width :
    (g : Gas) → (gas_validate (some g)).0 ≡ ok → (gas_validate (some g)).1 ≡ access_bit_width g
unfolding gas_validate
gas_validate-width g v = ground arith
