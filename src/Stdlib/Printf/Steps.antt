-- ===== src/Stdlib/Printf/Steps.antt =====
-- What the parts of one turn of `uacpi_vsnprintf` of source/stdlib.c keep.
use u_acpi.Base.{
  ℕ, zero, suc, ◌≤◌, ◌<◌, ◌≡◌, Bool, true, false, not, Option, none, some, List, [], ◌∷◌, ◌||◌,
  ◌==◌, if◌then◌else◌, length, drop, arith,
}
use u_acpi.Stdlib.Format.{FmtBufState, FmtSpec}
use u_acpi.Stdlib.Printf.{
  Arg, convert_integer, convert_sized, convert, directive, find_next_conversion, read_width,
  read_precision, initial, read_flags, apply_flag, consume, consume_digits, parse_number,
  size_prefix, is_one_of,
}
use u_acpi.Stdlib.Printf.Within.{
  Within, Within-then, write_one-Within, write_integer-Within, write_string-Within,
}

-- A turn that goes on keeps what lies behind the capacity, and leaves no more of the format.
abbrev pub Goes : FmtBufState → List ℕ → Option (FmtBufState × List ℕ × List Arg) → Type 0
Goes s cs none = Unit {0}
Goes s cs (some (t, rest, args)) = Within s t × (length rest ≤ length cs)

Goes-if :
    (s : FmtBufState) (cs : List ℕ) (b : Bool) (x y : Option (FmtBufState × List ℕ × List Arg))
    → Goes s cs x
    → Goes s cs y
    → Goes s cs (if b then x else y)
Goes-if s cs true x y p q = p
Goes-if s cs false x y p q = q

convert_integer-Goes :
    (width : ℕ) (s : FmtBufState) (fm : FmtSpec) (cs : List ℕ) (args : List Arg)
    → Goes s cs (convert_integer width s fm cs args)
unfolding convert_integer
convert_integer-Goes width s fm [] args = tt
convert_integer-Goes width s fm (c ∷ cs) args =
    Goes-if s (c ∷ cs) ((c == b'd') || (c == b'i')) _ _ (write_integer-Within s _ _, omega arith)
      (Goes-if s (c ∷ cs) (is_one_of c (b'o' ∷ b'x' ∷ b'X' ∷ b'u' ∷ [])) _ _
        (write_integer-Within s _ _, omega arith) tt)

drop-length : (n : ℕ) (cs : List ℕ) → length (drop n cs) ≤ length cs
drop-length zero cs = omega arith
drop-length (suc n) [] = omega arith
drop-length (suc n) (c ∷ cs) = omega (arith, drop-length n cs)

consume-length : (cs token : List ℕ) → length (consume cs token).1 ≤ length cs
unfolding consume
consume-length cs token = ground (arith, drop-length (length token) cs)

size_prefix-length : (cs : List ℕ) → length (size_prefix cs).1 ≤ length cs
unfolding size_prefix
size_prefix-length cs = ground (
  arith,
  consume-length cs (b'h' ∷ b'h' ∷ []),
  consume-length cs (b'h' ∷ []),
  consume-length cs (b'l' ∷ b'l' ∷ []),
  consume-length cs (b'z' ∷ []),
  consume-length cs (b'l' ∷ []),
)

Goes-shorter :
    (s : FmtBufState) (cs ds : List ℕ) (x : Option (FmtBufState × List ℕ × List Arg))
    → length cs ≤ length ds
    → Goes s cs x
    → Goes s ds x
Goes-shorter s cs ds none h g = tt
Goes-shorter s cs ds (some (t, rest, args)) h (w, l) = (w, omega (arith, l, h))

Goes-after :
    (s t : FmtBufState) (cs : List ℕ) (x : Option (FmtBufState × List ℕ × List Arg))
    → Within s t
    → Goes t cs x
    → Goes s cs x
Goes-after s t cs none h g = tt
Goes-after s t cs (some (u, rest, args)) h (w, l) = (Within-then h w, l)

convert-Goes :
    (s : FmtBufState) (fm : FmtSpec) (cs : List ℕ) (args : List Arg)
    → Goes s cs (convert s fm cs args)
unfolding convert convert_sized
convert-Goes s fm [] args = tt
convert-Goes s fm (c ∷ cs) args =
    let sized = size_prefix (c ∷ cs) in
    Goes-if s (c ∷ cs) (c == b'c') _ _ (write_one-Within s _, omega arith)
      (Goes-if s (c ∷ cs) (c == b's') _ _ (write_string-Within s fm _, omega arith)
        (Goes-if s (c ∷ cs) (c == b'p') _ _ (write_integer-Within s _ _, omega arith)
          (Goes-shorter s sized.1 (c ∷ cs) _ (size_prefix-length (c ∷ cs))
            (convert_integer-Goes sized.0 s fm sized.1 args))))

consume_digits-length : (cs : List ℕ) → length (consume_digits cs).1 ≤ length cs
unfolding consume_digits
consume_digits-length [] = omega arith
consume_digits-length (c ∷ cs) = ground (arith, consume_digits-length cs)

read_flags-length : (fm : FmtSpec) (cs : List ℕ) → length (read_flags fm cs).1 ≤ length cs
unfolding read_flags
read_flags-length fm [] = omega arith
read_flags-length fm (c ∷ cs) = ground (arith, read_flags-length (apply_flag fm c) cs)

parse_number-length : (must : Bool) (cs : List ℕ) → length (parse_number must cs).2 ≤ length cs
unfolding parse_number
parse_number-length must cs = ground (arith, consume_digits-length cs)

abbrev Shorter : List ℕ → Option (FmtSpec × List ℕ × List Arg) → Type 0
Shorter cs none = Unit {0}
Shorter cs (some (fm, rest, args)) = length rest ≤ length cs

Shorter-if :
    (cs : List ℕ) (b : Bool) (x y : Option (FmtSpec × List ℕ × List Arg))
    → Shorter cs x
    → Shorter cs y
    → Shorter cs (if b then x else y)
Shorter-if cs true x y p q = p
Shorter-if cs false x y p q = q

read_width-Shorter :
    (fm : FmtSpec) (cs : List ℕ) (args : List Arg) → Shorter cs (read_width fm cs args)
unfolding read_width
read_width-Shorter fm cs args =
    Shorter-if cs (consume cs (b'*' ∷ [])).0 _ _ (consume-length cs (b'*' ∷ []))
      (Shorter-if cs (parse_number false cs).0 _ _ (parse_number-length false cs) tt)

read_precision-Shorter :
    (fm : FmtSpec) (cs : List ℕ) (args : List Arg) → Shorter cs (read_precision fm cs args)
unfolding read_precision
read_precision-Shorter fm cs args =
    let after = (consume cs (b'.' ∷ [])).1 in
    let dot = consume-length cs (b'.' ∷ []) in
    Shorter-if cs (not (consume cs (b'.' ∷ [])).0) _ _ (omega arith) (
      Shorter-if cs (consume after (b'*' ∷ [])).0 _ _
        (omega (arith, dot, consume-length after (b'*' ∷ [])))
        (Shorter-if cs (parse_number true after).0 _ _
          (omega (arith, dot, parse_number-length true after)) tt))

-- Behind the flags: width, precision and conversion.
behind_flags :
    FmtBufState → Option (FmtSpec × List ℕ × List Arg) → Option (FmtBufState × List ℕ × List Arg)
behind_flags s x = elim x [
  | none ↦ none
  | some (fm1, cs1, args1) ↦ elim (read_precision fm1 cs1 args1) [
    | none ↦ none
    | some (fm2, cs2, args2) ↦ convert s fm2 cs2 args2
  ]
]

behind_precision :
    (s : FmtBufState) (cs : List ℕ) (x : Option (FmtSpec × List ℕ × List Arg))
    → Shorter cs x
    → Goes s cs (elim x as (λ _. Option (FmtBufState × List ℕ × List Arg)) [
      | none ↦ none
      | some (fm2, cs2, args2) ↦ convert s fm2 cs2 args2
    ])
behind_precision s cs none h = tt
behind_precision s cs (some (fm, cs', args)) h =
    Goes-shorter s cs' cs _ h (convert-Goes s fm cs' args)

behind_flags-Goes :
    (s : FmtBufState) (cs : List ℕ) (x : Option (FmtSpec × List ℕ × List Arg))
    → Shorter cs x
    → Goes s cs (behind_flags s x)
unfolding behind_flags
behind_flags-Goes s cs none h = tt
behind_flags-Goes s cs (some (fm, cs', args)) h =
    Goes-shorter s cs' cs _ h
      (behind_precision s cs' (read_precision fm cs' args) (read_precision-Shorter fm cs' args))

pub directive-Goes :
    (s : FmtBufState) (cs : List ℕ) (args : List Arg) → Goes s cs (directive s cs args)
unfolding directive behind_flags
directive-Goes s cs args =
    let (fm, rest) = read_flags initial cs in
    Goes-if s cs (consume cs (b'%' ∷ [])).0 _ _
      (write_one-Within s b'%', consume-length cs (b'%' ∷ []))
      (Goes-shorter s rest cs _ (read_flags-length initial cs)
        (behind_flags-Goes s rest (read_width fm rest args) (read_width-Shorter fm rest args)))

pub find_next-length :
    (fmt cs : List ℕ) → (find_next_conversion fmt).1 ≡ some cs → length cs < length fmt
unfolding find_next_conversion
find_next-length [] cs e = ground (arith, e)
find_next-length (c ∷ fmt) cs e = ground (arith, e, find_next-length fmt cs)
