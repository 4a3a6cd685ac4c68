-- ===== src/Text/Eisa/Laws.antt =====
-- The round trip of `uacpi_eisa_id_to_string` of source/utilities.c.
use u_acpi.Base.{
  ℕ, ◌+◌, ◌-◌, ◌*◌, ◌/◌, ◌%◌, ◌^◌, ◌<◌, ◌≡◌, inr, refl, ap, ◌∙◌, Bool, true, ◌&&◌, [], ◌∷◌, ◌==◌,
  get_or, drop, holds_below, holds_below-test, arith,
}
use u_acpi.Text.Chars.{find_run, ascii_map, is_char, to_lower}
use u_acpi.Text.Integer.{digit_of, string_to_integer}
use u_acpi.Text.Integer.Laws.{string_to_integer_digits}
use u_acpi.Text.Eisa.{hex_to_ascii, swap_bytes, eisa_id_to_string, eisa_id}

reads_back : ℕ → Bool
reads_back n = (digit_of 16 (hex_to_ascii n)).0 && ((digit_of 16 (hex_to_ascii n)).1 == n)

all_read_back : holds_below 16 reads_back ≡ true
unfolding holds_below reads_back digit_of hex_to_ascii ascii_map find_run to_lower is_char
all_read_back = refl

digit_of-hex_to_ascii : (n : ℕ) → n < 16 → digit_of 16 (hex_to_ascii n) ≡ (true, n)
unfolding reads_back
digit_of-hex_to_ascii n h = ground (arith, holds_below-test 16 n reads_back all_read_back h)

hex_word :
    (p : ℕ)
    → (string_to_integer
        (hex_to_ascii (p / 2 ^ 12 % 16)
          ∷ hex_to_ascii (p / 2 ^ 8 % 16)
          ∷ hex_to_ascii (p / 2 ^ 4 % 16)
          ∷ hex_to_ascii (p % 16)
          ∷ [])
        16).1
      ≡ p % 2 ^ 16
hex_word p =
    (string_to_integer_digits 16 _ (p / 2 ^ 12 % 16 ∷ p / 2 ^ 8 % 16 ∷ p / 2 ^ 4 % 16 ∷ p % 16 ∷ [])
      (inr (inr refl))
      (
        digit_of-hex_to_ascii (p / 2 ^ 12 % 16) (omega arith),
        omega arith,
        (
          digit_of-hex_to_ascii (p / 2 ^ 8 % 16) (omega arith),
          omega arith,
          (
            digit_of-hex_to_ascii (p / 2 ^ 4 % 16) (omega arith),
            omega arith,
            (digit_of-hex_to_ascii (p % 16) (omega arith), omega arith, tt),
          ),
        ),
      )).0
    ∙ omega arith

-- A swapped identifier below 2 ^ 31 is put together from its three letters and its number.
parts :
    (n : ℕ)
    → n < 2 ^ 31
    → (0x40 + n / 2 ^ 26 % 32 - 0x40) * 2 ^ 26
        + (0x40 + n / 2 ^ 21 % 32 - 0x40) * 2 ^ 21
        + (0x40 + n / 2 ^ 16 % 32 - 0x40) * 2 ^ 16
        + n % 2 ^ 16
      ≡ n
parts n h = omega arith

swapped_below : (id : ℕ) → id < 2 ^ 32 → id / 2 ^ 7 % 2 ≡ 0 → swap_bytes id < 2 ^ 31
unfolding swap_bytes
swapped_below id h t = omega arith

swap_bytes_twice : (n : ℕ) → n < 2 ^ 32 → swap_bytes (swap_bytes n) ≡ n
unfolding swap_bytes
swap_bytes_twice n h = omega arith

-- A 32-bit EISA identifier with the reserved bit clear is given back by EISAID of the text that
-- `uacpi_eisa_id_to_string` makes of it: its three letters, and its last four characters read as a
-- hexadecimal number by `uacpi_string_to_integer`.
pub eisa_id-eisa_id_to_string :
    (id : ℕ)
    → id < 2 ^ 32
    → id / 2 ^ 7 % 2 ≡ 0
    → let s = eisa_id_to_string id in
      eisa_id (get_or s 0 0) (get_or s 1 0) (get_or s 2 0) (string_to_integer (drop 3 s) 16).1 ≡ id
unfolding eisa_id eisa_id_to_string
eisa_id-eisa_id_to_string id h t =
    let whole : id % 2 ^ 32 ≡ id = omega arith in
    let n = swap_bytes id in
    let number =
      ap
        (λ (k : ℕ).
          (0x40 + n / 2 ^ 26 % 32 - 0x40) * 2 ^ 26
          + (0x40 + n / 2 ^ 21 % 32 - 0x40) * 2 ^ 21
          + (0x40 + n / 2 ^ 16 % 32 - 0x40) * 2 ^ 16
          + k)
        (hex_word n)
      ∙ parts n (swapped_below id h t) in
    rw whole (ap swap_bytes number ∙ swap_bytes_twice id h)
