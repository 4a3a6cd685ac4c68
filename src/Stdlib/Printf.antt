-- ===== src/Stdlib/Printf.antt =====
-- source/stdlib.c: `uacpi_vsnprintf`. The format is the list of its bytes before the NUL. The
-- arguments are a list too: a number is the 64-bit pattern in the register, a text the bytes of a C
-- string; reading one that is missing or of the other kind, undefined in C, gives 0 or an empty
-- text. Types have the sizes of 64-bit Unix systems.
pub mod Laws
pub mod Steps
pub mod Within
use u_acpi.Base.{
  ℕ, zero, suc, ◌+◌, ◌-◌, ◌*◌, ◌/◌, ◌%◌, ◌^◌, Bool, true, false, ◌&&◌, ◌||◌, not, Option, none,
  some, List, [], ◌∷◌, ◌==◌, ltb, leb, if◌then◌else◌, min, length, drop, Status, ok, err,
}
use u_acpi.Stdlib.Memory.{Memory, set_byte}
use u_acpi.Stdlib.Format.{
  FmtBufState, FmtSpec, write_one, write_many, write_repeated, write_integer,
}
use u_acpi.Text.Integer.{string_to_integer}

pub data Arg : Type 0 where
  number : ℕ → Arg
  text : List ℕ → Arg

-- `uacpi_va_arg` for a number and for a string, with the arguments left.
unfoldable pub next_number : List Arg → ℕ × List Arg
next_number [] = (0, [])
next_number (number n ∷ args) = (n, args)
next_number (text s ∷ args) = (0, args)

unfoldable pub next_text : List Arg → List ℕ × List Arg
next_text [] = ([], [])
next_text (number n ∷ args) = ([], args)
next_text (text s ∷ args) = (s, args)

-- A signed number of `w` bits, converted to 64 bits.
unfoldable pub sign_extend : ℕ → ℕ → ℕ
sign_extend w n = if leb (2 ^ (w - 1)) (n % 2 ^ w) then n % 2 ^ w + 2 ^ 64 - 2 ^ w else n % 2 ^ w

unfoldable pub starts_with : List ℕ → List ℕ → Bool
starts_with cs [] = true
starts_with [] (t ∷ ts) = false
starts_with (c ∷ cs) (t ∷ ts) = (c == t) && starts_with cs ts

-- `string_has_at_least` and the comparison after it are one test on lists.
unfoldable pub consume : List ℕ → List ℕ → Bool × List ℕ
unfolding starts_with
consume cs token = if starts_with cs token then (true, drop (length token) cs) else (false, cs)

unfoldable pub is_one_of : ℕ → List ℕ → Bool
is_one_of c [] = false
is_one_of c (x ∷ xs) = if c == x then true else is_one_of c xs

-- The digits at the front, and what follows them.
unfoldable pub consume_digits : List ℕ → List ℕ × List ℕ
consume_digits [] = ([], [])
consume_digits (c ∷ cs) =
    let (digits, rest) = consume_digits cs in
    if ltb c b'0' || ltb b'9' c then ([], c ∷ cs) else (c ∷ digits, rest)

is_ok : Status → Bool
is_ok ok = true
is_ok (err e) = false

-- Whether it succeeded, the value, 0 where nothing is written to it, and the format left.
unfoldable pub parse_number : Bool → List ℕ → Bool × ℕ × List ℕ
unfolding is_ok
parse_number must cs =
    let (digits, rest) = consume_digits cs in
    let (ret, value) = string_to_integer digits 10 in
    elim digits [ [] ↦ (not must, 0, rest) | d ∷ ds ↦ (is_ok ret, value, rest) ]

unfoldable pub base_from_specifier : ℕ → ℕ
base_from_specifier c = if (c == b'x') || (c == b'X') then 16 else (if c == b'o' then 8 else 10)

-- The text before the next conversion, and the format behind its `%`, if there is one.
unfoldable pub find_next_conversion : List ℕ → List ℕ × Option (List ℕ)
find_next_conversion [] = ([], none)
find_next_conversion (c ∷ cs) =
    let (before, rest) = find_next_conversion cs in
    if c == b'%' then ([], some cs) else (c ∷ before, rest)

abbrev pub initial : FmtSpec
initial = record {
  is_signed = false;
  prepend = false;
  uppercase = false;
  left_justify = false;
  alternate_form = false;
  has_precision = false;
  pad_char = b' ';
  prepend_char = 0;
  min_width = 0;
  precision = 0;
  base = 10;
}

apply_flag : FmtSpec → ℕ → FmtSpec
apply_flag fm flag =
    if (flag == b'+') || (flag == b' ')
    then record fm { prepend = true; prepend_char = flag }
    else (if flag == b'-'
        then record fm { left_justify = true }
        else (if flag == b'0'
            then record fm { pad_char = b'0' }
            else record fm { alternate_form = true }))

abbrev flags : List ℕ
flags = b'+' ∷ b'-' ∷ b' ' ∷ b'0' ∷ b'#' ∷ []

unfoldable pub read_flags : FmtSpec → List ℕ → FmtSpec × List ℕ
unfolding apply_flag is_one_of
read_flags fm [] = (fm, [])
read_flags fm (c ∷ cs) =
    let rest = read_flags (apply_flag fm c) cs in if is_one_of c flags then rest else (fm, c ∷ cs)

-- The field width: `*` or digits.
unfoldable pub read_width : FmtSpec → List ℕ → List Arg → Option (FmtSpec × List ℕ × List Arg)
unfolding consume parse_number sign_extend next_number
read_width fm cs args =
    let (star, rest) = consume cs (b'*' ∷ []) in
    let (n, args') = next_number args in
    let (good, value, rest') = parse_number false cs in
    if star
    then some (record fm { min_width = sign_extend 32 n }, rest, args')
    else (if good then some (record fm { min_width = value }, rest', args) else none)

-- The precision, if a `.` stands there.
unfoldable pub read_precision : FmtSpec → List ℕ → List Arg → Option (FmtSpec × List ℕ × List Arg)
unfolding consume parse_number sign_extend next_number
read_precision fm cs args =
    let (dot, after_dot) = consume cs (b'.' ∷ []) in
    let (star, rest) = consume after_dot (b'*' ∷ []) in
    let (n, args') = next_number args in
    let (good, value, rest') = parse_number true after_dot in
    let with = λ (p : ℕ). record fm { has_precision = true; precision = p } in
    if not dot
    then some (fm, cs, args)
    else (if star
        then some (with (sign_extend 32 n), rest, args')
        else (if good then some (with value, rest', args) else none))

write_chars : FmtBufState → List ℕ → FmtBufState
write_chars st [] = st
write_chars st (c ∷ cs) = write_chars (write_one st c) cs

abbrev pub take_chars : ℕ → List ℕ → List ℕ
take_chars zero cs = []
take_chars (suc n) [] = []
take_chars (suc n) (c ∷ cs) = c ∷ take_chars n cs

-- `%s`: at most `precision` characters, and then as much padding as that leaves.
unfoldable pub write_string : FmtBufState → FmtSpec → List ℕ → FmtBufState
unfolding write_chars
write_string st fm string =
    let shown = take_chars fm.precision string in
    if fm.has_precision
    then write_repeated (fm.precision - length shown) fm.pad_char (write_chars st shown)
    else write_chars st string

-- The size prefix, as the width of the argument, and what follows it.
size_prefix : List ℕ → ℕ × List ℕ
unfolding consume
size_prefix cs =
    let (hh, after_hh) = consume cs (b'h' ∷ b'h' ∷ []) in
    let (h, after_h) = consume cs (b'h' ∷ []) in
    let (ll, after_ll) = consume cs (b'l' ∷ b'l' ∷ []) in
    let (z, after_z) = consume cs (b'z' ∷ []) in
    let (l, after_l) = consume cs (b'l' ∷ []) in
    if hh
    then (8, after_hh)
    else (if h
        then (16, after_h)
        else (if ll
            then (64, after_ll)
            else (if z then (64, after_z) else (if l then (64, after_l) else (32, cs)))))

-- `d` and `i`, or one of `oxXu`, behind the size prefix; `write_int:` is `write_integer` after it.
convert_integer :
    ℕ → FmtBufState → FmtSpec → List ℕ → List Arg → Option (FmtBufState × List ℕ × List Arg)
unfolding is_one_of sign_extend next_number base_from_specifier
convert_integer width st fm [] args = none
convert_integer width st fm (c ∷ cs) args =
    let (n, args') = next_number args in
    if (c == b'd') || (c == b'i')
    then some (write_integer st (record fm { is_signed = true }) (sign_extend width n), cs, args')
    else (if is_one_of c (b'o' ∷ b'x' ∷ b'X' ∷ b'u' ∷ [])
        then some (
          write_integer st (record fm { base = base_from_specifier c; uppercase = c == b'X' })
              (n % 2 ^ width),
          cs,
          args',
        )
        else none)

convert_sized : FmtBufState → FmtSpec → List ℕ → List Arg → Option (FmtBufState × List ℕ × List Arg)
unfolding size_prefix convert_integer
convert_sized st fm cs args =
    let (width, rest) = size_prefix cs in convert_integer width st fm rest args

-- The conversion behind flags, width and precision.
convert : FmtBufState → FmtSpec → List ℕ → List Arg → Option (FmtBufState × List ℕ × List Arg)
unfolding convert_sized write_string next_number next_text
convert st fm [] args = none
convert st fm (c ∷ cs) args =
    let (n, after_number) = next_number args in
    let (s, after_text) = next_text args in
    if c == b'c'
    then some (write_one st (n % 2 ^ 8), cs, after_number)
    else (if c == b's'
        then some (write_string st fm s, cs, after_text)
        else (if c == b'p'
            then some (
              write_integer st (record fm { base = 16; min_width = 16; pad_char = b'0' }) n,
              cs,
              after_number,
            )
            else convert_sized st fm (c ∷ cs) args))

-- One turn of the main loop from behind a `%`; `none` is `return -1`.
unfoldable pub directive :
    FmtBufState → List ℕ → List Arg → Option (FmtBufState × List ℕ × List Arg)
unfolding consume read_flags read_width read_precision convert
directive st cs args =
    let (percent, rest) = consume cs (b'%' ∷ []) in
    let (fm, after_flags) = read_flags initial cs in
    if percent
    then some (write_one st b'%', rest, args)
    else elim (read_width fm after_flags args) [
      | none ↦ none
      | some (fm1, cs1, args1) ↦ elim (read_precision fm1 cs1 args1) [
        | none ↦ none
        | some (fm2, cs2, args2) ↦ convert st fm2 cs2 args2
      ]
    ]

unfoldable pub before_conversion : FmtBufState → List ℕ → FmtBufState
before_conversion st [] = st
before_conversion st (c ∷ cs) = write_many st (c ∷ cs)

-- The end of a turn of the main loop, and the turns after it. The answer says whether the end of
-- the format was reached, and not a `return -1`.
after_directive :
    (FmtBufState → List ℕ → List Arg → Bool × FmtBufState)
    → FmtBufState
    → Option (FmtBufState × List ℕ × List Arg)
    → Bool × FmtBufState
after_directive loop st none = (false, st)
after_directive loop st (some (st', rest, args)) = loop st' rest args

turn :
    (FmtBufState → List ℕ → List Arg → Bool × FmtBufState)
    → FmtBufState
    → Option (List ℕ)
    → List Arg
    → Bool × FmtBufState
unfolding directive after_directive
turn loop st none args = (true, st)
turn loop st (some cs) args = after_directive loop st (directive st cs args)

-- `while (*fmt)`, with at most as many turns as the format has characters, since each takes one at
-- least.
pub format_loop : ℕ → FmtBufState → List ℕ → List Arg → Bool × FmtBufState
unfolding turn before_conversion find_next_conversion
format_loop zero st fmt args = (true, st)
format_loop (suc n) st fmt args =
    let (before, next) = find_next_conversion fmt in
    turn (format_loop n) (before_conversion st before) next args

-- The result, as a 32-bit pattern, and the buffer; `none` is -1, without a NUL written.
pub vsnprintf : Memory → ℕ → List ℕ → List Arg → Option ℕ × Memory
unfolding format_loop
vsnprintf buffer capacity fmt args =
    let start : FmtBufState = record { buffer = buffer; capacity = capacity; bytes_written = 0 } in
    let (reached, st) = format_loop (length fmt) start fmt args in
    let ended =
      if st.capacity == 0
      then st.buffer
      else set_byte st.buffer (min st.bytes_written (st.capacity - 1)) 0 in
    if reached then (some (st.bytes_written % 2 ^ 32), ended) else (none, st.buffer)
