-- ===== src/Text/Integer/Laws.antt =====
-- What `uacpi_string_to_integer` of source/utilities.c reads.
use u_acpi.Base.{
  ℕ, ◌+◌, ◌-◌, ◌*◌, ◌/◌, ◌%◌, ◌^◌, ◌≤◌, ◌<◌, ◌≡◌, ◌⊎◌, inl, inr, refl, ap, ◌∙◌, sym, Bool, true,
  false, ◌&&◌, ◌||◌, not, List, [], ◌∷◌, ◌++◌, ◌==◌, ltb, if◌then◌else◌, min, Status, ok, err,
  invalid_argument, holds_below, holds_below-test, arith,
}
use native.Mathlib.Nat.{le-mul_of_pos_right, mod-eq_of_lt}
use native.Mathlib.Decide.{dec_lt}
use u_acpi.Text.Chars.{space, is_char, to_lower, ascii_map, find_run}
use u_acpi.Text.Integer.{
  skip_spaces, consume_if_equals, take_sign, take_base, digit_of, read_digits, is_empty,
  string_to_integer,
}

-- The bases that a number may be written in.
abbrev pub IsBase : ℕ → Type 0
IsBase base = (base ≡ 8) ⊎ (base ≡ 10) ⊎ (base ≡ 16)

-- The characters `cs` are the digits `ds` in a base.
abbrev pub Writes : ℕ → List ℕ → List ℕ → Type 0
Writes base [] [] = Unit
Writes base (c ∷ cs) (d ∷ ds) = (digit_of base c ≡ (true, d)) × (d < base) × Writes base cs ds
Writes base _ _ = ⊥

-- The number that digits stand for, behind the number before them.
abbrev pub value_from : ℕ → ℕ → List ℕ → ℕ
value_from base value [] = value
value_from base value (d ∷ ds) = value_from base (value * base + d) ds

-- The division by the base finds every overflow.
overflow_test :
    (base value d : ℕ)
    → IsBase base
    → d < base
    → value < 2 ^ 64
    → ((value * base + d) % 2 ^ 64 / base == value) ≡ ltb (value * base + d) (2 ^ 64)
overflow_test base value d (inl e) h v = rw e (ground (arith, e))
overflow_test base value d (inr (inl e)) h v = rw e (ground (arith, e))
overflow_test base value d (inr (inr e)) h v = rw e (ground (arith, e))

value_from-le : (base value : ℕ) (ds : List ℕ) → 1 ≤ base → value ≤ value_from base value ds
value_from-le base value [] h = omega arith
value_from-le base value (d ∷ ds) h =
    omega (arith, value_from-le base (value * base + d) ds h, le-mul_of_pos_right value h)

pub read_digits_lem :
    (base value last : ℕ) (cs ds : List ℕ)
    → IsBase base
    → value < 2 ^ 64
    → Writes base cs ds
    → let r = read_digits base value last cs in
      (r.0 ≡ min (value_from base value ds) (2 ^ 64 - 1))
      × (value_from base value ds < 2 ^ 64 → r.1 ≡ [])
unfolding read_digits
read_digits_lem base value last [] [] b v w = (omega arith, λ h. refl)
read_digits_lem base value last [] (d ∷ ds) b v w = absurd w
read_digits_lem base value last (c ∷ cs) [] b v w = absurd w
read_digits_lem base value last (c ∷ cs) (d ∷ ds) b v (digit, small, w) =
    let t = value * base + d in
    let test = overflow_test base value d b small v in
    elim (dec_lt t (2 ^ 64)) [
      | yes h ↦
          let whole = mod-eq_of_lt h in
          let (sum, rest) = read_digits_lem base t c cs ds b h w in
          let passes : (t / base == value) ≡ true =
            ap (λ (k : ℕ). k / base == value) (sym whole) ∙ test ∙ ground arith in
          rw (digit, whole, passes) (sum, rest)
      | no h ↦
          let fails : (t % 2 ^ 64 / base == value) ≡ false = test ∙ ground arith in
          let bound = value_from-le base t ds (ground (arith, b)) in
          rw (digit, fails) (omega (arith, bound), λ k. absurd (omega (arith, bound)))
    ]

-- A character that may start a number without a sign.
starts : ℕ → Bool
starts c = not (is_char c space) && not (to_lower c == b'-') && not (to_lower c == b'+')

digit_starts : ℕ → Bool
unfolding starts
digit_starts c = not (digit_of 16 c).0 || starts c

all_digits_start : holds_below 128 digit_starts ≡ true
unfolding holds_below digit_starts starts digit_of is_char to_lower ascii_map find_run
all_digits_start = refl

ascii_map_high : (c : ℕ) → 128 ≤ c → ascii_map c ≡ 0
unfolding ascii_map find_run
ascii_map_high c h = ground arith

digit_of_any : (base c d : ℕ) → IsBase base → digit_of base c ≡ (true, d) → (digit_of 16 c).0 ≡ true
unfolding digit_of
digit_of_any base c d b e = ground (arith, b)

digit_of_low : (c : ℕ) → (digit_of 16 c).0 ≡ true → c < 128
unfolding digit_of
digit_of_low c e = ground (arith, ascii_map_high c)

digit-starts : (base c d : ℕ) → IsBase base → digit_of base c ≡ (true, d) → starts c ≡ true
unfolding digit_starts
digit-starts base c d b e =
    let hex = digit_of_any base c d b e in
    let t = holds_below-test 128 c digit_starts all_digits_start (digit_of_low c hex) in
    ground (arith, hex, t)

starts_plain :
    (base c : ℕ) (cs : List ℕ)
    → IsBase base
    → starts c ≡ true
    → (take_sign (skip_spaces (c ∷ cs)) ≡ (false, c ∷ cs))
      × (take_base base (c ∷ cs) ≡ (base, c ∷ cs))
unfolding take_sign skip_spaces take_base consume_if_equals starts
starts_plain base c cs b e = (ground (arith, e), ground (arith, b))

no_prefix :
    (base : ℕ) (cs ds : List ℕ)
    → IsBase base
    → Writes base cs ds
    → (take_sign (skip_spaces cs) ≡ (false, cs)) × (take_base base cs ≡ (base, cs))
unfolding take_sign skip_spaces take_base consume_if_equals
no_prefix base [] [] b w = (refl, ground (arith, b))
no_prefix base [] (d ∷ ds) b w = absurd w
no_prefix base (c ∷ cs) [] b w = absurd w
no_prefix base (c ∷ cs) (d ∷ ds) b w = starts_plain base c cs b (digit-starts base c d b w.0)

-- A text of digits in base 8, 10 or 16 is read as the number that it stands for, or as the greatest
-- 64-bit number if that does not fit; if it fits the status is OK.
pub string_to_integer_digits :
    (base : ℕ) (cs ds : List ℕ)
    → IsBase base
    → Writes base cs ds
    → let r = string_to_integer cs base in
      (r.1 ≡ min (value_from base 0 ds) (2 ^ 64 - 1)) × (value_from base 0 ds < 2 ^ 64 → r.0 ≡ ok)
unfolding string_to_integer is_empty
string_to_integer_digits base cs ds b w =
    let (signs, bases) = no_prefix base cs ds b w in
    let (value, rest) = read_digits_lem base 0 0 cs ds b (omega arith) w in
    rw (signs, bases) (value, λ h. rw (rest h) refl)

read_digits_stop :
    (base value last : ℕ) (cs ds : List ℕ) (x : ℕ) (rest : List ℕ)
    → IsBase base
    → value < 2 ^ 64
    → Writes base cs ds
    → value_from base value ds < 2 ^ 64
    → (digit_of base x).0 ≡ false
    → read_digits base value last (cs ++ x ∷ rest) ≡ (value_from base value ds, rest, x)
unfolding read_digits
read_digits_stop base value last [] [] x rest b v w f n = rw n refl
read_digits_stop base value last [] (d ∷ ds) x rest b v w f n = absurd w
read_digits_stop base value last (c ∷ cs) [] x rest b v w f n = absurd w
read_digits_stop base value last (c ∷ cs) (d ∷ ds) x rest b v (digit, small, w) f n =
    let t = value * base + d in
    let h : t < 2 ^ 64 = omega (arith, f, value_from-le base t ds (ground (arith, b))) in
    let whole = mod-eq_of_lt h in
    let passes : (t / base == value) ≡ true =
      ap (λ (k : ℕ). k / base == value) (sym whole)
      ∙ overflow_test base value d b small v
      ∙ ground arith in
    rw (digit, whole, passes) (read_digits_stop base t c cs ds x rest b h w f n)

-- A text of digits that fit, and then a character that is no digit: the number before it is read.
-- The status is OK if that character is a NUL, and also if it is the last that the size admits,
-- whatever it is; otherwise it is INVALID_ARGUMENT.
pub string_to_integer_stop :
    (base c d : ℕ) (cs ds : List ℕ) (x : ℕ) (rest : List ℕ)
    → IsBase base
    → Writes base (c ∷ cs) (d ∷ ds)
    → value_from base 0 (d ∷ ds) < 2 ^ 64
    → (digit_of base x).0 ≡ false
    → string_to_integer (c ∷ cs ++ x ∷ rest) base ≡ (
      elim rest [ [] ↦ ok | y ∷ ys ↦ if x == 0 then ok else err invalid_argument ],
      value_from base 0 (d ∷ ds),
    )
unfolding string_to_integer is_empty
string_to_integer_stop base c d cs ds x rest b w f n =
    let (signs, bases) = starts_plain base c (cs ++ x ∷ rest) b (digit-starts base c d b w.0) in
    rw (signs, bases, read_digits_stop base 0 0 (c ∷ cs) (d ∷ ds) x rest b (omega arith) w f n)
      (elim rest
        as (λ r.
          ◌≡◌ {A = Status × ℕ}
            (
              if is_empty r || (x == 0) then ok else err invalid_argument,
              value_from base 0 (d ∷ ds),
            )
            (
              elim r [ [] ↦ ok | y ∷ ys ↦ if x == 0 then ok else err invalid_argument ],
              value_from base 0 (d ∷ ds),
            )) [ [] ↦ refl | y ∷ ys ↦ refl ])
