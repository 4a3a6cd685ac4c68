-- ===== src/Stdlib/Printf/Within.antt =====
-- What the writes of `uacpi_vsnprintf` of source/stdlib.c keep.
use u_acpi.Base.{
  ℕ, zero, suc, ◌+◌, ◌-◌, ◌^◌, ◌≤◌, ◌≡◌, refl, ◌∙◌, Bool, true, false, List, [], ◌∷◌, ◌||◌, ltb,
  leb, ◌&&◌, if◌then◌else◌, min, length, get_or, arith,
}
use native.Mathlib.Decide.{dec_lt}
use u_acpi.Stdlib.Memory.{Memory, memcpy}
use u_acpi.Stdlib.Memory.Laws.{memcpy_lem}
use u_acpi.Stdlib.Format.{
  FmtBufState, FmtSpec, write_one, write_many, write_repeated, write_padding, write_integer,
  repr_of,
}
use u_acpi.Stdlib.Printf.{write_chars, take_chars, write_string, before_conversion}

-- Nothing at or behind the capacity has changed, nor has the capacity.
pub record Within (s t : FmtBufState) : Type 0 where
  pub same_capacity : t.capacity ≡ s.capacity
  pub kept : (i : ℕ) → s.capacity ≤ i → t.buffer i ≡ s.buffer i

pub Within-refl : (s : FmtBufState) → Within s s
Within-refl s = record { same_capacity = refl; kept = λ i h. refl }

pub Within-then : {s t u : FmtBufState} → Within s t → Within t u → Within s u
Within-then a b = record {
  same_capacity = b.same_capacity ∙ a.same_capacity;
  kept = λ i h. b.kept i (omega (arith, a.same_capacity, h)) ∙ a.kept i h;
}

Within-if :
    {s t u : FmtBufState} (b : Bool) → Within s t → Within s u → Within s (if b then t else u)
Within-if true x y = x
Within-if false x y = y

pub write_one-Within : (s : FmtBufState) (c : ℕ) → Within s (write_one s c)
unfolding write_one
write_one-Within s c = record { same_capacity = refl; kept = λ i h. ground arith }

kept_if : (b : Bool) (m m' : Memory) (i : ℕ) → m i ≡ m' i → (if b then m else m') i ≡ m' i
kept_if true m m' i e = e
kept_if false m m' i e = refl

memcpy_before :
    (dst : Memory) (d : ℕ) (src : Memory) (n i : ℕ) → d + n ≤ i → memcpy dst d src 0 n i ≡ dst i
memcpy_before dst d src n i h = ground (arith, memcpy_lem n dst d src 0 i)

write_many-Within : (s : FmtBufState) (cs : List ℕ) → Within s (write_many s cs)
unfolding write_many
write_many-Within s cs =
    let room = min (length cs) (s.capacity - s.bytes_written) in
    let from = λ (j : ℕ). get_or cs j 0 in
    record {
      same_capacity = refl;
      kept = λ i h. elim (dec_lt s.bytes_written s.capacity) [
        | yes l ↦
            kept_if (ltb s.bytes_written s.capacity) (memcpy s.buffer s.bytes_written from 0 room)
              s.buffer i (memcpy_before s.buffer s.bytes_written from room i (omega arith))
        | no n ↦ let c : ltb s.bytes_written s.capacity ≡ false = ground arith in rw c refl
      ];
    }

write_repeated-Within : (n c : ℕ) (s : FmtBufState) → Within s (write_repeated n c s)
unfolding write_repeated
write_repeated-Within zero c s = Within-refl s
write_repeated-Within (suc n) c s =
    Within-then (write_one-Within s c) (write_repeated-Within n c (write_one s c))

pub write_integer-Within :
    (s : FmtBufState) (fm : FmtSpec) (v : ℕ) → Within s (write_integer s fm v)
unfolding write_integer write_padding
write_integer-Within s fm v =
    let negative = fm.is_signed && leb (2 ^ 63) v in
    let c = if negative then b'-' else fm.prepend_char in
    let pad = if fm.left_justify then b' ' else fm.pad_char in
    let signed = if fm.prepend || negative then write_one s c else s in
    let first : Within s signed =
      Within-if (fm.prepend || negative) (write_one-Within s c) (Within-refl s) in
    let repr = repr_of fm (if negative then 2 ^ 64 - v else v) in
    let n = fm.min_width - length repr in
    Within-then first (
      Within-if fm.left_justify
        (Within-then (write_many-Within signed repr)
          (write_repeated-Within n pad (write_many signed repr)))
        (Within-then (write_repeated-Within n pad signed)
          (write_many-Within (write_repeated n pad signed) repr)))

write_chars-Within : (cs : List ℕ) (s : FmtBufState) → Within s (write_chars s cs)
unfolding write_chars
write_chars-Within [] s = Within-refl s
write_chars-Within (c ∷ cs) s =
    Within-then (write_one-Within s c) (write_chars-Within cs (write_one s c))

pub write_string-Within :
    (s : FmtBufState) (fm : FmtSpec) (cs : List ℕ) → Within s (write_string s fm cs)
unfolding write_string
write_string-Within s fm cs =
    let shown = take_chars fm.precision cs in
    Within-if fm.has_precision
      (Within-then (write_chars-Within shown s)
        (write_repeated-Within (fm.precision - length shown) fm.pad_char (write_chars s shown)))
      (write_chars-Within cs s)

pub before-Within : (s : FmtBufState) (cs : List ℕ) → Within s (before_conversion s cs)
unfolding before_conversion
before-Within s [] = Within-refl s
before-Within s (c ∷ cs) = write_many-Within s (c ∷ cs)
