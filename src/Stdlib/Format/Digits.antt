-- ===== src/Stdlib/Format/Digits.antt =====
-- The numbers that `write_integer` of source/stdlib.c writes.
use u_acpi.Base.{
  ℕ, zero, suc, ◌+◌, ◌*◌, ◌/◌, ◌%◌, ◌^◌, ◌≤◌, ◌<◌, ◌≡◌, inl, inr, refl, ap, ◌∙◌, Bool, true, false,
  ◌&&◌, List, [], ◌∷◌, ◌==◌, if◌then◌else◌, length, Status, ok, holds_below, holds_below-test,
  arith,
}
use native.Mathlib.Nat.{pow-suc}
use native.Mathlib.Decide.{ℕ_discrete}
use u_acpi.Text.Chars.{find_run, ascii_map, is_char, to_lower}
use u_acpi.Text.Integer.{digit_of, string_to_integer}
use u_acpi.Text.Integer.Laws.{IsBase, Writes, value_from, string_to_integer_digits}
use u_acpi.Stdlib.Format.{
  FmtSpec, hex_char, repr_char, repr_digits, or_zero_digit, with_prefix, repr_of,
}

reads_back : ℕ → Bool → ℕ → Bool
reads_back base upper d =
    (digit_of base (repr_char base upper d)).0 && ((digit_of base (repr_char base upper d)).1 == d)

octal_back : (upper : Bool) → holds_below 8 (reads_back 8 upper) ≡ true
unfolding holds_below reads_back digit_of repr_char hex_char ascii_map find_run to_lower is_char
octal_back upper = refl

decimal_back : (upper : Bool) → holds_below 10 (reads_back 10 upper) ≡ true
unfolding holds_below reads_back digit_of repr_char hex_char ascii_map find_run to_lower is_char
decimal_back upper = refl

hex_back : (upper : Bool) → holds_below 16 (reads_back 16 upper) ≡ true
unfolding holds_below reads_back digit_of repr_char hex_char ascii_map find_run to_lower is_char
hex_back true = refl
hex_back false = refl

char_back : (base d : ℕ) (upper : Bool) → IsBase base → d < base → reads_back base upper d ≡ true
char_back base d upper (inl e) h =
    rw e (holds_below-test 8 d (reads_back 8 upper) (octal_back upper) (omega (arith, e)))
char_back base d upper (inr (inl e)) h =
    rw e (holds_below-test 10 d (reads_back 10 upper) (decimal_back upper) (omega (arith, e)))
char_back base d upper (inr (inr e)) h =
    rw e (holds_below-test 16 d (reads_back 16 upper) (hex_back upper) (omega (arith, e)))

-- A digit is written as a character that is read as that digit.
digit_of-repr_char :
    (base d : ℕ) (upper : Bool)
    → IsBase base
    → d < base
    → digit_of base (repr_char base upper d) ≡ (true, d)
unfolding reads_back
digit_of-repr_char base d upper b h = ground (arith, char_back base d upper b h)

-- The digits of a number, put before `ds`.
digits : ℕ → ℕ → ℕ → List ℕ → List ℕ
digits zero base value ds = ds
digits (suc n) base value ds =
    let rest = digits n base (value / base) (value % base ∷ ds) in if value == 0 then ds else rest

rem_small : (base value : ℕ) → IsBase base → value % base < base
rem_small base value b = ground (arith, b)

repr_digits-Writes :
    (n base : ℕ) (upper : Bool) (value : ℕ) (cs ds : List ℕ)
    → IsBase base
    → Writes base cs ds
    → Writes base (repr_digits n base upper value cs) (digits n base value ds)
unfolding repr_digits digits
repr_digits-Writes zero base upper value cs ds b w = w
repr_digits-Writes (suc n) base upper value cs ds b w =
    let small = rem_small base value b in
    let rest =
      repr_digits-Writes n base upper (value / base) (repr_char base upper (value % base) ∷ cs)
        (value % base ∷ ds) b (digit_of-repr_char base (value % base) upper b small, small, w) in
    elim (ℕ_discrete value 0) [
      | yes e ↦ rw e w
      | no k ↦ let c : (value == 0) ≡ false = ground arith in rw c rest
    ]

digits-value :
    (n base value : ℕ) (ds : List ℕ)
    → IsBase base
    → value < 2 ^ n
    → value_from base 0 (digits n base value ds) ≡ value_from base value ds
unfolding digits
digits-value zero base value ds b h = ap (λ (v : ℕ). value_from base v ds) (omega arith)
digits-value (suc n) base value ds b h =
    let smaller : value / base < 2 ^ n = ground (arith, b, pow-suc 2 n) in
    let whole : value / base * base + value % base ≡ value = ground (arith, b) in
    elim (ℕ_discrete value 0) [
      | yes e ↦ rw e refl
      | no k ↦
          let c : (value == 0) ≡ false = ground arith in
          rw c (
            digits-value n base (value / base) (value % base ∷ ds) b smaller
            ∙ ap (λ (v : ℕ). value_from base v ds) whole)
    ]

or_zero_digit-Writes :
    (base : ℕ) (cs ds : List ℕ)
    → IsBase base
    → Writes base cs ds
    → (ds' : List ℕ) × Writes base (or_zero_digit cs) ds'
      × (value_from base 0 ds' ≡ value_from base 0 ds)
unfolding or_zero_digit digit_of ascii_map find_run
or_zero_digit-Writes base [] [] b w =
    (0 ∷ [], (ground (arith, b), ground (arith, b), tt), ground arith)
or_zero_digit-Writes base [] (d ∷ ds) b w = absurd w
or_zero_digit-Writes base (c ∷ cs) [] b w = absurd w
or_zero_digit-Writes base (c ∷ cs) (d ∷ ds) b w = (d ∷ ds, w, refl)

-- A 64-bit number that `write_integer` lays out in base 8, 10 or 16, without the prefix of the
-- alternate form, is read back by `uacpi_string_to_integer`, with the status OK.
pub string_to_integer-repr_of :
    (fm : FmtSpec) (value : ℕ)
    → IsBase fm.base
    → fm.alternate_form ≡ false
    → value < 2 ^ 64
    → string_to_integer (repr_of fm value) fm.base ≡ (ok, value)
unfolding repr_of with_prefix
string_to_integer-repr_of fm value b a h =
    let w = repr_digits-Writes 64 fm.base fm.uppercase value [] [] b tt in
    let (ds, w', e) =
      or_zero_digit-Writes fm.base (repr_digits 64 fm.base fm.uppercase value [])
        (digits 64 fm.base value []) b w in
    let sum : value_from fm.base 0 ds ≡ value = e ∙ digits-value 64 fm.base value [] b h in
    let (read, good) = string_to_integer_digits fm.base _ ds b w' in
    let status = good (omega (arith, sum)) in
    let number : (string_to_integer (or_zero_digit (repr_digits 64 fm.base fm.uppercase value []))
          fm.base).1
        ≡ value =
      read ∙ omega (arith, sum) in
    rw a (
      ap
        (λ (r : Status). (
          r,
          (string_to_integer (or_zero_digit (repr_digits 64 fm.base fm.uppercase value []))
              fm.base).1,
        ))
        status
      ∙ ap (λ (v : ℕ). (ok, v)) number)

repr_digits-length :
    (k n base : ℕ) (upper : Bool) (value : ℕ) (cs : List ℕ)
    → IsBase base
    → value < 8 ^ k
    → length (repr_digits n base upper value cs) ≤ k + length cs
unfolding repr_digits
repr_digits-length k zero base upper value cs b h = omega arith
repr_digits-length zero (suc n) base upper value cs b h = ground arith
repr_digits-length (suc k) (suc n) base upper value cs b h =
    let smaller : value / base < 8 ^ k = ground (arith, b, pow-suc 8 k) in
    let c = repr_char base upper (value % base) in
    ground (arith, repr_digits-length k n base upper (value / base) (c ∷ cs) b smaller)

or_zero_digit-length : (cs : List ℕ) → length (or_zero_digit cs) ≤ length cs + 1
unfolding or_zero_digit
or_zero_digit-length [] = omega arith
or_zero_digit-length (c ∷ cs) = omega arith

with_prefix-length : (fm : FmtSpec) (cs : List ℕ) → length (with_prefix fm cs) ≤ length cs + 2
unfolding with_prefix
with_prefix-length fm cs = ground arith

-- The 32 bytes of `repr_buffer` hold every 64-bit number in base 8, 10 or 16, with the prefix of
-- the alternate form.
pub repr_of-length :
    (fm : FmtSpec) (value : ℕ) → IsBase fm.base → value < 2 ^ 64 → length (repr_of fm value) ≤ 32
unfolding repr_of
repr_of-length fm value b h =
    let bound : length (repr_digits 64 fm.base fm.uppercase value []) ≤ 22 + 0 =
      repr_digits-length 22 64 fm.base fm.uppercase value [] b (omega arith) in
    let cs = repr_digits 64 fm.base fm.uppercase value [] in
    omega (arith, bound, or_zero_digit-length cs, with_prefix-length fm (or_zero_digit cs))
