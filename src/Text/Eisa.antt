-- ===== src/Text/Eisa.antt =====
-- source/utilities.c: `uacpi_eisa_id_to_string`.
pub mod Laws
use u_acpi.Base.{ℕ, ◌+◌, ◌-◌, ◌*◌, ◌/◌, ◌%◌, ◌^◌, List, [], ◌∷◌, ltb, if◌then◌else◌}

unfoldable pub hex_to_ascii : ℕ → ℕ
hex_to_ascii n = if ltb n 10 then n + b'0' else n - 10 + b'A'

-- The bytes of a 32-bit number in the other order.
unfoldable pub swap_bytes : ℕ → ℕ
swap_bytes id =
    id % 256 * 2 ^ 24 + id / 256 % 256 * 2 ^ 16 + id / 2 ^ 16 % 256 * 256 + id / 2 ^ 24 % 256

-- The seven characters before the NUL. The `& 0x1F` and `& 0x0F` are remainders.
unfoldable pub eisa_id_to_string : ℕ → List ℕ
eisa_id_to_string id =
    let swapped = swap_bytes (id % 2 ^ 32) in
    (0x40 + swapped / 2 ^ 26 % 32)
    ∷ (0x40 + swapped / 2 ^ 21 % 32)
    ∷ (0x40 + swapped / 2 ^ 16 % 32)
    ∷ hex_to_ascii (swapped / 2 ^ 12 % 16)
    ∷ hex_to_ascii (swapped / 2 ^ 8 % 16)
    ∷ hex_to_ascii (swapped / 2 ^ 4 % 16)
    ∷ hex_to_ascii (swapped % 16)
    ∷ []

-- EISAID of the ACPI specification: three letters and a product number of 16 bits, in the order of
-- the characters, and then the bytes swapped.
unfoldable pub eisa_id : ℕ → ℕ → ℕ → ℕ → ℕ
eisa_id a b c product =
    swap_bytes ((a - 0x40) * 2 ^ 26 + (b - 0x40) * 2 ^ 21 + (c - 0x40) * 2 ^ 16 + product)
