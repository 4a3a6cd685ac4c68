-- ===== src/Gas/Access.antt =====
-- source/io.c: `struct acpi_gas` of include/uacpi/acpi.h, and the choice and check of the width of
-- its accesses.
use u_acpi.Base.{
  ℕ, zero, suc, ◌+◌, ◌-◌, ◌*◌, ◌/◌, ◌%◌, ◌^◌, Bool, Option, none, some, Status, ok, err,
  invalid_argument, not_found, unimplemented, ◌==◌, if◌then◌else◌, leb, ltb, not, ◌&&◌, min,
  bit_and,
}

pub record Gas : Type 0 where
  pub address_space_id : ℕ
  pub register_bit_width : ℕ
  pub register_bit_offset : ℕ
  pub access_size : ℕ
  pub address : ℕ

-- UACPI_ADDRESS_SPACE_SYSTEM_MEMORY and UACPI_ADDRESS_SPACE_SYSTEM_IO.
abbrev pub system_memory : ℕ
system_memory = 0

abbrev pub system_io : ℕ
system_io = 1

-- UACPI_IS_ALIGNED and UACPI_IS_POWER_OF_TWO; `x & (0 - 1)` is 0 only for 0, which is also what
-- the subtraction that stops at 0 gives in the second.
unfoldable pub is_aligned : ℕ → ℕ → Bool
is_aligned x val = bit_and x (val - 1) == 0

unfoldable pub is_power_of_two : ℕ → Bool
is_power_of_two x = bit_and x (x - 1) == 0

-- The number of binary digits, which `uacpi_bit_scan_backward` returns. The first argument bounds
-- the digits.
unfoldable pub bit_length : ℕ → ℕ → ℕ
bit_length zero v = 0
bit_length (suc n) v = if v == 0 then 0 else suc (bit_length n (v / 2))

-- The loop that halves the width until the address is aligned to it, with fuel.
unfoldable pub back_off : ℕ → ℕ → ℕ → ℕ
unfolding is_aligned
back_off zero address width = width
back_off (suc n) address width =
    let rest = back_off n address (width / 2) in
    if is_aligned address (width / 8) then width else rest

abbrev back_off_fuel : ℕ
back_off_fuel = 5

-- The last case of the choice. The shift is done in `int` and cut to `uacpi_u8`.
unfoldable pub width_from_extent : Gas → ℕ
unfolding bit_length back_off
width_from_extent g =
    let msb = bit_length 64 (g.register_bit_offset + g.register_bit_width - 1) in
    let width = 2 ^ msb % 2 ^ 8 in if leb width 8 then 8 else back_off back_off_fuel g.address width

unfoldable pub access_bit_width : Gas → ℕ
access_bit_width g =
    let width =
      if g.register_bit_offset == 0
        && is_power_of_two g.register_bit_width
        && is_aligned g.register_bit_width 8
      then g.register_bit_width
      else (if g.access_size == 0 then width_from_extent g else g.access_size * 8 % 2 ^ 8) in
    min width (if g.address_space_id == system_io then 32 else 64)

-- UACPI_ALIGN_UP at 64 bits; `~mask` is the complement of `val - 1`, computed modulo 2 ^ 64.
unfoldable pub align_up : ℕ → ℕ → ℕ
align_up x val =
    let mask = (val + 2 ^ 64 - 1) % 2 ^ 64 in bit_and ((x + mask) % 2 ^ 64) (2 ^ 64 - 1 - mask)

-- `none` is UACPI_NULL. The width is what is written to `*access_bit_width`, if it is.
unfoldable pub gas_validate : Option Gas → Status × ℕ
gas_validate none = (err invalid_argument, 0)
gas_validate (some g) =
    if g.address == 0
    then (err not_found, 0)
    else (if not (g.address_space_id == system_io) && not (g.address_space_id == system_memory)
        then (err unimplemented, 0)
        else (if ltb 4 g.access_size
            then (err unimplemented, 0)
            else (if ltb 64
                  (align_up (g.register_bit_offset + g.register_bit_width) (access_bit_width g))
                then (err unimplemented, access_bit_width g)
                else (ok, access_bit_width g))))
