-- ===== src/Text/Integer.antt =====
-- source/utilities.c: `uacpi_string_to_integer`. The text is the list of the `max_chars` bytes at
-- `str`, so that its length is the size left; bytes behind a NUL are never read.
pub mod Laws
use u_acpi.Base.{
  ℕ, ◌+◌, ◌-◌, ◌*◌, ◌/◌, ◌%◌, ◌^◌, Bool, true, false, ◌&&◌, ◌||◌, not, List, [], ◌∷◌, ◌==◌, ltb,
  if◌then◌else◌, bit_and, Status, ok, err, invalid_argument,
}
use u_acpi.Text.Chars.{space, lower, upper, digit, hex_digit, alhex, ascii_map, is_char, to_lower}

-- `while (consume_if(&str, &max_chars, CHAR_TYPE_SPACE));`
unfoldable pub skip_spaces : List ℕ → List ℕ
skip_spaces [] = []
skip_spaces (c ∷ cs) = if is_char c space then skip_spaces cs else c ∷ cs

unfoldable pub consume_if_equals : List ℕ → ℕ → Bool × List ℕ
consume_if_equals [] c = (false, [])
consume_if_equals (c1 ∷ cs) c = if to_lower c1 == c then (true, cs) else (false, c1 ∷ cs)

-- The sign: whether it is a minus, and the text behind it.
unfoldable pub take_sign : List ℕ → Bool × List ℕ
unfolding consume_if_equals
take_sign cs =
    let (minus, rest) = consume_if_equals cs b'-' in
    if minus then (true, rest) else (false, (consume_if_equals cs b'+').1)

-- UACPI_BASE_AUTO is 0; the base that a prefix gives, and the text behind the prefix.
unfoldable pub take_base : ℕ → List ℕ → ℕ × List ℕ
unfolding consume_if_equals
take_base base cs =
    let (zero_read, after_zero) = consume_if_equals cs b'0' in
    let (x_read, after_x) = consume_if_equals after_zero b'x' in
    if base == 0
    then (if zero_read then (if x_read then (16, after_x) else (8, after_zero)) else (10, cs))
    else (base, cs)

-- The value of a digit in a base, if it is one there.
unfoldable pub digit_of : ℕ → ℕ → Bool × ℕ
digit_of base c =
    let kind = bit_and (ascii_map c) (digit + alhex) in
    if kind == digit + hex_digit
    then (not ((base == 8) && ltb 7 (c - b'0')), c - b'0')
    else (if (kind == lower + hex_digit) || (kind == upper + hex_digit)
        then (base == 16, 10 + (to_lower c - b'a'))
        else (false, 0))

-- The loop: the value, the text that is left and the last character read, at `out:`.
unfoldable pub read_digits : ℕ → ℕ → ℕ → List ℕ → ℕ × List ℕ × ℕ
read_digits base value last [] = (value, [], last)
read_digits base value last (c ∷ cs) =
    let (is_digit, next) = digit_of base c in
    let sum = (value * base + next) % 2 ^ 64 in
    let rest = read_digits base sum c cs in
    if is_digit
    then (if sum / base == value then rest else (0xffffffffffffffff, cs, c))
    else (value, cs, c)

is_empty : List ℕ → Bool
is_empty [] = true
is_empty (c ∷ cs) = false

unfoldable pub string_to_integer : List ℕ → ℕ → Status × ℕ
unfolding is_empty
string_to_integer str base =
    let (negative, digits) = take_sign (skip_spaces str) in
    let (base', digits') = take_base base digits in
    let (value, rest, last) = read_digits base' 0 0 digits' in
    (
      if is_empty rest || (last == 0) then ok else err invalid_argument,
      if negative then (2 ^ 64 - value) % 2 ^ 64 else value,
    )
