-- ===== src/Field/Unit.antt =====
-- source/io.c: field units, `struct uacpi_field_unit` of include/uacpi/internal/types.h: fields
-- behind an operation region, by accesses of the field's width.
pub mod Bytes
pub mod Laws
pub mod Reads
use u_acpi.Base.{
  ℕ, zero, suc, ◌+◌, ◌-◌, ◌*◌, ◌/◌, ◌%◌, ◌^◌, Bool, true, false, ◌&&◌, ◌||◌, not, ◌==◌,
  if◌then◌else◌, ltb, leb, min, bit_and, Status, ok, err, Error, invalid_argument,
}
use u_acpi.Stdlib.Memory.{Memory, memcpy_zerout}
use u_acpi.Field.Copy.{BitSpan, bit_copy, bit_span_offset, round_up_bits_to_bytes}
use u_acpi.Field.Buffer.{cut_misaligned_tail}
use Bytes.{to_bytes, from_bytes}

-- The update rules are UACPI_UPDATE_RULE_PRESERVE, _WRITE_AS_ONES and _WRITE_AS_ZEROES.
pub data UpdateRule : Type 0 where
  preserve write_as_ones write_as_zeroes other_rule : UpdateRule

pub data RegionOp : Type 0 where
  read write other_op : RegionOp

pub record FieldShape : Type 0 where
  pub byte_offset : ℕ
  pub bit_length : ℕ
  pub bit_offset_within_first_byte : ℕ
  pub access_width_bytes : ℕ
  pub lock_rule : Bool
  pub update_rule : UpdateRule

-- A region is a number. `other_kind` has a kind that is none of the three.
pub data FieldUnit : Type 0 where
  normal : FieldShape → ℕ → FieldUnit
  bank : FieldShape → ℕ → FieldUnit → ℕ → FieldUnit
  index : FieldShape → FieldUnit → FieldUnit → FieldUnit
  other_kind : FieldShape → FieldUnit

abbrev pub shape : FieldUnit → FieldShape
shape (normal s region) = s
shape (bank s region selection value) = s
shape (index s at value) = s
shape (other_kind s) = s

-- The global lock and `uacpi_dispatch_opregion_io`.
pub record RegionHost (W : Type 0) : Type 0 where
  pub acquire_global : W → Status × W
  pub release_global : W → W
  pub dispatch : ℕ → ℕ → ℕ → RegionOp → ℕ → W → Status × ℕ × W

-- `access_field_unit` of a field: offset, operation and `*in_out`, before and after.
abbrev pub Access : Type 0 → Type 0
Access W = ℕ → RegionOp → ℕ → W → Status × ℕ × W

abbrev pub width_bits : FieldShape → ℕ
width_bits s = s.access_width_bytes * 8 % 2 ^ 8

-- UACPI_ALIGN_UP at 32 bits, and the division after it.
unfoldable pub reads_to_do : FieldShape → ℕ
reads_to_do s =
    let mask = (width_bits s + 2 ^ 32 - 1) % 2 ^ 32 in
    let bits = (s.bit_offset_within_first_byte + s.bit_length) % 2 ^ 32 in
    bit_and ((bits + mask) % 2 ^ 32) (2 ^ 32 - 1 - mask) / width_bits s

-- A local variable that the source does not initialise is 0 before it is written.
module _ {W : Type 0} where
  -- The rounds of the slow read that are left. Each writes to the whole rest of the destination.
  pub read_rounds : Access W → FieldShape → ℕ → BitSpan → ℕ → ℕ → ℕ → W → Status × Memory × W
  read_rounds access s zero dst at bits_left offset w = (ok, dst.memory, w)
  read_rounds access s (suc n) dst at bits_left offset w =
      let len = min bits_left ((width_bits s + 2 ^ 64 - at) % 2 ^ 64) in
      let (ret, out, w') = access offset read 0 w in
      let src : BitSpan = record { memory = to_bytes out; index = at; length = len } in
      let copied : BitSpan = record dst { memory = bit_copy dst src } in
      let next = (bit_span_offset copied len).1 in
      let rest =
        read_rounds access s n next 0 ((bits_left + 2 ^ 32 - len) % 2 ^ 32)
          ((offset + s.access_width_bytes) % 2 ^ 32) w' in
      elim ret [ ok ↦ rest | err e ↦ (err e, dst.memory, w') ]

  do_read_misaligned_field_unit : Access W → FieldShape → Memory → ℕ → W → Status × Memory × W
  unfolding read_rounds
  do_read_misaligned_field_unit access s dst size w =
      let span : BitSpan = record { memory = dst; index = 0; length = size * 8 } in
      read_rounds access s (reads_to_do s) span s.bit_offset_within_first_byte s.bit_length
        s.byte_offset w

  -- `uacpi_read_field_unit`, given the access of the field.
  pub read_with : Access W → FieldShape → Memory → ℕ → W → Status × Memory × W
  unfolding do_read_misaligned_field_unit
  read_with access s dst size w =
      let count = round_up_bits_to_bytes s.bit_length in
      let (ret, out, w') = access s.byte_offset read 0 w in
      let taken = memcpy_zerout dst 0 (to_bytes out) size count in
      let cut =
        if leb count size then cut_misaligned_tail taken (count - 1) s.bit_length else taken in
      if (s.bit_offset_within_first_byte == 0) && leb count s.access_width_bytes
      then (elim ret [ ok ↦ (ok, cut, w') | err e ↦ (err e, dst, w') ])
      else do_read_misaligned_field_unit access s dst size w

  -- What a write starts from: the present value, ones or zeroes, if only a part is written.
  pub starting_value : Access W → FieldShape → Bool → ℕ → W → Status × ℕ × W
  starting_value access s partial offset w =
      let present = access offset read 0 w in
      if not partial then (ok, 0, w) else (elim s.update_rule [
        | preserve ↦ present
        | write_as_ones ↦ (ok, 2 ^ 64 - 1, w)
        | write_as_zeroes ↦ (ok, 0, w)
        | other_rule ↦ (err invalid_argument, 0, w)
      ])

  -- `while (bits_left)`. After the first round each one takes a bit at least, if the width is not 0.
  pub write_rounds : Access W → FieldShape → ℕ → BitSpan → ℕ → ℕ → ℕ → W → Status × W
  unfolding starting_value
  write_rounds access s zero src at bits_left offset w = (ok, w)
  write_rounds access s (suc n) src at bits_left offset w =
      let len = min ((width_bits s + 2 ^ 64 - at) % 2 ^ 64) bits_left in
      let partial = not (at == 0) || ltb len (width_bits s) in
      let (ret, value, w1) = starting_value access s partial offset w in
      let dst : BitSpan = record { memory = to_bytes value; index = at; length = len } in
      let (ret', out, w2) = access offset write (from_bytes 8 (bit_copy dst src)) w1 in
      let rest =
        write_rounds access s n (bit_span_offset src len).1 0 ((bits_left + 2 ^ 32 - len) % 2 ^ 32)
          ((offset + s.access_width_bytes) % 2 ^ 32) w2 in
      if bits_left == 0
      then (ok, w)
      else (elim ret [ ok ↦ elim ret' [ ok ↦ rest | err e ↦ (err e, w2) ] | err e ↦ (err e, w1) ])

  -- `uacpi_write_field_unit`, given the access of the field.
  pub write_with : Access W → FieldShape → Memory → ℕ → W → Status × W
  unfolding write_rounds
  write_with access s src size w =
      let span : BitSpan = record { memory = src; index = 0; length = size * 8 } in
      write_rounds access s (suc s.bit_length) span s.bit_offset_within_first_byte s.bit_length
        s.byte_offset w

  -- The global lock around an access, if the field asks for it.
  pub under_lock : RegionHost W → FieldShape → (W → Status × ℕ × W) → ℕ → W → Status × ℕ × W
  under_lock h s body value w =
      let (ret, w') = h.acquire_global w in
      let (ret', value', w'') = body w' in
      let inside : Status × ℕ × W = (ret', value', h.release_global w'') in
      if s.lock_rule then (elim ret [ ok ↦ inside | err e ↦ (err e, value, w') ]) else body w

  pub access_field_unit : RegionHost W → FieldUnit → Access W
  unfolding read_with write_with under_lock
  access_field_unit h (normal s region) offset op value w =
      under_lock h s (h.dispatch region offset s.access_width_bytes op value) value w
  access_field_unit h (bank s region selection bank_value) offset op value w =
      let access = access_field_unit h selection in
      let body = λ (w1 : W).
        let (ret, w2) = write_with access (shape selection) (to_bytes bank_value) 8 w1 in
        let dispatched = h.dispatch region offset s.access_width_bytes op value w2 in
        let r : Status × ℕ × W = elim ret [ ok ↦ dispatched | err e ↦ (err e, value, w2) ] in r in
      under_lock h s body value w
  access_field_unit h (index s at dat) offset op value w =
      let access = access_field_unit h at in
      let access' = access_field_unit h dat in
      let body = λ (w1 : W).
        let (ret, w2) = write_with access (shape at) (to_bytes offset) 4 w1 in
        let (ret_r, m, w_r) =
          read_with access' (shape dat) (to_bytes value) s.access_width_bytes w2 in
        let (ret_w, w_w) =
          write_with access' (shape dat) (to_bytes value) s.access_width_bytes w2 in
        let through : Status × ℕ × W = elim op [
          | read ↦ (ret_r, from_bytes 8 m, w_r)
          | write ↦ (ret_w, value, w_w)
          | other_op ↦ (err invalid_argument, value, w2)
        ] in
        let r : Status × ℕ × W = elim ret [ ok ↦ through | err e ↦ (err e, value, w2) ] in r in
      under_lock h s body value w
  access_field_unit h (other_kind s) offset op value w =
      under_lock h s (λ w1. (err invalid_argument, value, w1)) value w

  pub read_field_unit : RegionHost W → FieldUnit → Memory → ℕ → W → Status × Memory × W
  unfolding access_field_unit
  read_field_unit h field dst size w =
      read_with (access_field_unit h field) (shape field) dst size w

  pub write_field_unit : RegionHost W → FieldUnit → Memory → ℕ → W → Status × W
  unfolding access_field_unit
  write_field_unit h field src size w =
      write_with (access_field_unit h field) (shape field) src size w
