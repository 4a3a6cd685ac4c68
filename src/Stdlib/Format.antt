-- ===== src/Stdlib/Format.antt =====
-- source/stdlib.c: the buffer that `uacpi_vsnprintf` writes to, and the numbers it writes. The
-- conversions are in Stdlib.Printf.
pub mod Digits
use u_acpi.Base.{
  ℕ, zero, suc, ◌+◌, ◌-◌, ◌*◌, ◌/◌, ◌%◌, ◌^◌, Bool, true, false, ◌&&◌, ◌||◌, List, [], ◌∷◌, ◌==◌,
  ltb, leb, if◌then◌else◌, min, length, get_or,
}
use u_acpi.Stdlib.Memory.{Memory, set_byte, memcpy}

pub record FmtBufState : Type 0 where
  pub buffer : Memory
  pub capacity : ℕ
  pub bytes_written : ℕ

pub record FmtSpec : Type 0 where
  pub is_signed : Bool
  pub prepend : Bool
  pub uppercase : Bool
  pub left_justify : Bool
  pub alternate_form : Bool
  pub has_precision : Bool
  pub pad_char : ℕ
  pub prepend_char : ℕ
  pub min_width : ℕ
  pub precision : ℕ
  pub base : ℕ

unfoldable pub write_one : FmtBufState → ℕ → FmtBufState
write_one st c = record st {
  buffer =
      if ltb st.bytes_written st.capacity then set_byte st.buffer st.bytes_written c else st.buffer;
  bytes_written = (st.bytes_written + 1) % 2 ^ 64;
}

-- `string` is the list of the `count` bytes that are written.
unfoldable pub write_many : FmtBufState → List ℕ → FmtBufState
write_many st string =
    let room = min (length string) (st.capacity - st.bytes_written) in
    record st {
      buffer =
          if ltb st.bytes_written st.capacity
          then memcpy st.buffer st.bytes_written (λ i. get_or string i 0) 0 room
          else st.buffer;
      bytes_written = (st.bytes_written + length string) % 2 ^ 64;
    }

unfoldable pub hex_char : Bool → ℕ → ℕ
hex_char upper value =
    if ltb value 10 then value + b'0' else value - 10 + (if upper then b'A' else b'a')

-- `while (mw--) write_one(...)`.
unfoldable pub write_repeated : ℕ → ℕ → FmtBufState → FmtBufState
write_repeated zero c st = st
write_repeated (suc n) c st = write_repeated n c (write_one st c)

unfoldable pub write_padding : FmtBufState → FmtSpec → ℕ → FmtBufState
write_padding st fm repr_size =
    write_repeated (fm.min_width - repr_size) (if fm.left_justify then b' ' else fm.pad_char) st

unfoldable pub repr_char : ℕ → Bool → ℕ → ℕ
unfolding hex_char
repr_char base upper remainder =
    if base == 16
    then hex_char upper remainder
    else (if (base == 8) || (base == 10) then remainder + b'0' else b'?')

-- The loop `while (value)`, which fills `repr_buffer` from its end; the list is what it has filled.
-- A 64-bit value has at most 64 digits in any base.
unfoldable pub repr_digits : ℕ → ℕ → Bool → ℕ → List ℕ → List ℕ
repr_digits zero base upper value repr = repr
repr_digits (suc n) base upper value repr =
    let longer = repr_char base upper (value % base) ∷ repr in
    let rest = repr_digits n base upper (value / base) longer in if value == 0 then repr else rest

or_zero_digit : List ℕ → List ℕ
or_zero_digit [] = b'0' ∷ []
or_zero_digit (c ∷ cs) = c ∷ cs

with_prefix : FmtSpec → List ℕ → List ℕ
with_prefix fm repr =
    if fm.alternate_form && (fm.base == 16)
    then b'0' ∷ (if fm.uppercase then b'X' else b'x') ∷ repr
    else (if fm.alternate_form && (fm.base == 8) then b'0' ∷ repr else repr)

-- What `repr_buffer` holds from `index` on.
unfoldable pub repr_of : FmtSpec → ℕ → List ℕ
unfolding or_zero_digit with_prefix
repr_of fm value = with_prefix fm (or_zero_digit (repr_digits 64 fm.base fm.uppercase value []))

-- The value is a 64-bit pattern; a signed one is negative from 2 ^ 63 on.
unfoldable pub write_integer : FmtBufState → FmtSpec → ℕ → FmtBufState
write_integer st fm value =
    let negative = fm.is_signed && leb (2 ^ 63) value in
    let signed =
      if fm.prepend || negative
      then write_one st (if negative then b'-' else fm.prepend_char)
      else st in
    let repr = repr_of fm (if negative then 2 ^ 64 - value else value) in
    if fm.left_justify
    then write_padding (write_many signed repr) fm (length repr)
    else write_many (write_padding signed fm (length repr)) repr
