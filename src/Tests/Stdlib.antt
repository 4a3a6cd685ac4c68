-- ===== src/Tests/Stdlib.antt =====
-- Concrete runs of source/stdlib.c and source/utilities.c.
use u_acpi.Base.{
  ℕ, ◌%◌, ◌≡◌, inr, refl, false, List, [], ◌∷◌, ◌++◌, ok, length, get_or, drop, arith,
}
use u_acpi.Stdlib.Memory.{Memory}
use u_acpi.Stdlib.Format.{FmtBufState, FmtSpec, repr_of}
use u_acpi.Stdlib.Format.Digits.{string_to_integer-repr_of}
use u_acpi.Stdlib.Printf.{number, format_loop, vsnprintf}
use u_acpi.Stdlib.Printf.Laws.{vsnprintf-bounds, format_loop_enough}
use u_acpi.Text.Chars.{ascii_map, to_lower}
use u_acpi.Text.Integer.{digit_of, string_to_integer}
use u_acpi.Text.Integer.Laws.{value_from, string_to_integer_stop}
use u_acpi.Text.Eisa.{eisa_id, eisa_id_to_string}
use u_acpi.Text.Eisa.Laws.{eisa_id-eisa_id_to_string}

abbrev counted : Memory
counted = λ b. b % 256

abbrev hexadecimal : FmtSpec
hexadecimal = record {
  is_signed = false;
  prepend = false;
  uppercase = false;
  left_justify = false;
  alternate_form = false;
  has_precision = false;
  pad_char = b' ';
  prepend_char = b'+';
  min_width = 0;
  precision = 0;
  base = 16;
}

abbrev room : FmtBufState
room = record { buffer = counted; capacity = 4; bytes_written = 0 }

abbrev directives : List ℕ
directives = b'a' ∷ b'%' ∷ b'x' ∷ b'.' ∷ b'%' ∷ b'%' ∷ []

string_to_integer_stop_example :
    string_to_integer (b'1' ∷ (b'F' ∷ []) ++ b'!' ∷ []) 16 ≡ (ok, value_from 16 0 (1 ∷ (15 ∷ [])))
unfolding digit_of ascii_map to_lower
string_to_integer_stop_example =
    string_to_integer_stop 16 b'1' 1 (b'F' ∷ []) (15 ∷ []) b'!' [] (inr (inr refl))
      (refl, omega arith, (refl, omega arith, tt)) (omega arith) refl

eisa_id-eisa_id_to_string_example :
    let s = eisa_id_to_string 0x030ad041 in
    eisa_id (get_or s 0 0) (get_or s 1 0) (get_or s 2 0) (string_to_integer (drop 3 s) 16).1
    ≡ 0x030ad041
eisa_id-eisa_id_to_string_example =
    eisa_id-eisa_id_to_string 0x030ad041 (omega arith) (ground arith)

string_to_integer-repr_of_example :
    string_to_integer (repr_of hexadecimal 0xbeef) hexadecimal.base ≡ (ok, 0xbeef)
string_to_integer-repr_of_example =
    string_to_integer-repr_of hexadecimal 0xbeef (inr (inr refl)) refl (omega arith)

vsnprintf-bounds_example : (vsnprintf counted 4 directives (number 77 ∷ [])).1 4 ≡ counted 4
vsnprintf-bounds_example = vsnprintf-bounds counted 4 directives (number 77 ∷ []) 4 (omega arith)

format_loop_enough_example :
    format_loop 9 room directives (number 77 ∷ [])
    ≡ format_loop (length directives) room directives (number 77 ∷ [])
format_loop_enough_example = format_loop_enough 9 room directives (number 77 ∷ []) (ground arith)
