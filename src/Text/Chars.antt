-- ===== src/Text/Chars.antt =====
-- source/utilities.c: the classes of characters, and the characters of names.
use u_acpi.Base.{
  ℕ, ◌+◌, ◌-◌, Bool, ◌&&◌, ◌||◌, not, List, [], ◌∷◌, ◌==◌, ltb, if◌then◌else◌, bit_and,
}

abbrev pub control : ℕ
control = 1

abbrev pub space : ℕ
space = 2

abbrev blank : ℕ
blank = 4

abbrev pub punctuation : ℕ
punctuation = 8

abbrev pub lower : ℕ
lower = 16

abbrev pub upper : ℕ
upper = 32

abbrev pub digit : ℕ
digit = 64

abbrev pub hex_digit : ℕ
hex_digit = 128

-- CHAR_TYPE_ALPHA | CHAR_TYPE_HEX_DIGIT.
abbrev pub alhex : ℕ
alhex = lower + upper + hex_digit

-- `ascii_map` as runs: how many codes in a row have a type. Types are joined by `+`, since they
-- share no bit. The codes from 128 on have none.
abbrev ascii_runs : List (ℕ × ℕ)
ascii_runs =
    (9, control)
    ∷ (1, control + space + blank)
    ∷ (4, control + space)
    ∷ (18, control)
    ∷ (1, space + blank)
    ∷ (15, punctuation)
    ∷ (10, digit + hex_digit)
    ∷ (7, punctuation)
    ∷ (6, upper + hex_digit)
    ∷ (20, upper)
    ∷ (6, punctuation)
    ∷ (6, lower + hex_digit)
    ∷ (20, lower)
    ∷ (4, punctuation)
    ∷ (1, control)
    ∷ []

unfoldable pub find_run : List (ℕ × ℕ) → ℕ → ℕ
find_run [] c = 0
find_run ((n, type) ∷ runs) c = if ltb c n then type else find_run runs (c - n)

unfoldable pub ascii_map : ℕ → ℕ
unfolding find_run
ascii_map c = find_run ascii_runs c

unfoldable pub is_valid_name_byte : ℕ → Bool
unfolding ascii_map
is_valid_name_byte c = (c == 0x5f) || not (bit_and (ascii_map c) (digit + upper) == 0)

pub is_valid_nameseg : ℕ → ℕ → ℕ → ℕ → Bool
is_valid_nameseg a b c d =
    is_valid_name_byte a && is_valid_name_byte b && is_valid_name_byte c && is_valid_name_byte d

unfoldable pub is_char : ℕ → ℕ → Bool
unfolding ascii_map
is_char c type = bit_and (ascii_map c) type == type

unfoldable pub to_lower : ℕ → ℕ
unfolding is_char
to_lower c = if is_char c upper then c + (97 - 65) else c
