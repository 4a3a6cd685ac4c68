-- ===== src/Field/Buffer/Laws.antt =====
-- What reads and writes of a buffer field do to each bit, whatever the field's alignment.
use u_acpi.Base.{
  ℕ, ◌+◌, ◌-◌, ◌*◌, ◌/◌, ◌%◌, ◌^◌, ◌≤◌, ◌<◌, ◌≡◌, ◌≢◌, ap, sym, ◌∙◌, ◌&&◌, ◌==◌, if◌then◌else◌, ltb,
  leb, bit_or, arith,
}
use native.Mathlib.Decide.{ℕ_discrete}
use u_acpi.Base.Bits.{bit, bit-or, bit_lt_two, bit-zero}
use u_acpi.Base.Bits.Shift.{bit-shr, bit-shl, bit-mod, bit_high, lt_of_bits}
use u_acpi.Stdlib.Memory.{Memory, memcpy_zerout}
use u_acpi.Stdlib.Memory.Laws.{memcpy_zerout_lem}
use u_acpi.Field.Copy.{BitSpan, round_up_bits_to_bytes}
use u_acpi.Field.Copy.Rounds.{Bytes, bit_at, bit_at_byte, bit_at_split, copied}
use u_acpi.Field.Copy.Laws.{bit_copy-bit_at, bit_copy-Bytes}
use u_acpi.Field.Buffer.{
  BufferField, read_buffer_field, do_write_misaligned_buffer_field, restore_tail,
  write_buffer_field,
}
use u_acpi.Field.Buffer.Reads.{round_up_bits_to_bytes_lem, read_buffer_field-bit_at}

restored-bit :
    (m : Memory) (last kept tail b i : ℕ)
    → i < 8
    → tail < 8
    → bit i (restore_tail m last kept tail b)
      ≡ (if (b == last) && leb tail i && ltb 0 tail then bit i kept else bit i (m b))
unfolding restore_tail
restored-bit m last kept tail b i h t =
    let up = i - tail + tail in
    ground (
      arith,
      bit-or i (m last * 2 ^ (8 - tail) % 2 ^ 8 / 2 ^ (8 - tail)) (kept / 2 ^ tail * 2 ^ tail),
      bit-shr i (m last * 2 ^ (8 - tail) % 2 ^ 8) (8 - tail),
      bit-mod (i + (8 - tail)) (m last * 2 ^ (8 - tail)) 8,
      bit-shl (i + (8 - tail)) (m last) (8 - tail),
      bit-shl i (kept / 2 ^ tail) tail,
      bit-shr (i - tail) kept tail,
      bit_lt_two i (m last),
      bit_lt_two i kept,
    )

aligned_write :
    (backing : Memory) (q len : ℕ) (src : Memory) (size b i : ℕ)
    → i < 8
    → let count = (len + 7) / 8 in
      let last = q + count - 1 in
      bit i (restore_tail (memcpy_zerout backing q src count size) last (backing last) (len % 8) b)
      ≡ copied (8 * b + i) (8 * q) len src 0 (size * 8) (bit i (backing b))
aligned_write backing q len src size b i h =
    let count = (len + 7) / 8 in
    let last = q + count - 1 in
    let place : q ≤ b → 0 + (8 * b + i - 8 * q) ≡ 8 * (b - q) + i = λ l. omega arith in
    let here = λ (l : q ≤ b). ap (bit_at src) (place l) ∙ bit_at_byte src (b - q) i h in
    ground (
      arith,
      here,
      bit-zero i,
      memcpy_zerout_lem backing q src count size b,
      restored-bit (memcpy_zerout backing q src count size) last (backing last) (len % 8) b i h
          (omega arith),
    )

write_aligned :
    (field : BufferField) (src : Memory) (size : ℕ)
    → field.bit_index % 8 ≡ 0
    → let start = field.bit_index / 8 in
      let count = round_up_bits_to_bytes field.bit_length in
      let last = start + count - 1 in
      write_buffer_field field src size
      ≡ restore_tail
          (memcpy_zerout field.backing start src count size)
          last
          (field.backing last)
          (field.bit_length % 8)
unfolding write_buffer_field
write_aligned field src size a = ground arith

write_misaligned :
    (field : BufferField) (src : Memory) (size : ℕ)
    → field.bit_index % 8 ≢ 0
    → write_buffer_field field src size ≡ do_write_misaligned_buffer_field field src size
unfolding write_buffer_field
write_misaligned field src size a = ground arith

-- For a field of fewer than 2 ^ 64 - 7 bits and a source whose size in bits is less than 2 ^ 64, a
-- write sets the field's bits to the first bits of the source, or to 0 behind the source's end, and
-- keeps every other bit of the buffer.
pub write_buffer_field-bit_at :
    (field : BufferField) (src : Memory) (size x : ℕ)
    → Bytes src
    → field.bit_length + 7 < 2 ^ 64
    → size * 8 < 2 ^ 64
    → bit_at (write_buffer_field field src size) x
      ≡ copied x field.bit_index field.bit_length src 0 (size * 8) (bit_at field.backing x)
unfolding do_write_misaligned_buffer_field
write_buffer_field-bit_at field src size x c l z =
    let back = field.backing in
    let len = field.bit_length in
    let start = field.bit_index / 8 in
    elim (ℕ_discrete (field.bit_index % 8) 0) [
      | yes a ↦
          let place : 8 * start ≡ field.bit_index = omega arith in
          let at : 8 * (x / 8) + x % 8 ≡ x = omega arith in
          ap (λ (m : Memory). bit_at m x) (write_aligned field src size a)
          ∙ ap
              (λ (k : ℕ).
                bit_at
                  (restore_tail (memcpy_zerout back start src k size) (start + k - 1)
                    (back (start + k - 1)) (len % 8))
                  x)
              (round_up_bits_to_bytes_lem len l)
          ∙ bit_at_split _ x
          ∙ aligned_write back start len src size (x / 8) (x % 8) (omega arith)
          ∙ ap (λ (t : ℕ). copied t (8 * start) len src 0 (size * 8) (bit (x % 8) (back (x / 8))))
              at
          ∙ ap (λ (t : ℕ). copied x t len src 0 (size * 8) (bit (x % 8) (back (x / 8)))) place
          ∙ ap (λ (t : ℕ). copied x field.bit_index len src 0 (size * 8) t)
              (sym (bit_at_split back x))
      | no a ↦
          let to : BitSpan = record { memory = back; index = field.bit_index; length = len } in
          let from : BitSpan = record { memory = src; index = 0; length = size * 8 % 2 ^ 64 } in
          let fits : size * 8 % 2 ^ 64 ≡ size * 8 = omega (arith, z) in
          ap (λ (m : Memory). bit_at m x) (write_misaligned field src size a)
          ∙ bit_copy-bit_at to from x c
          ∙ ap (λ (t : ℕ). copied x field.bit_index len src 0 t (bit_at back x)) fits
    ]

restore_tail-Bytes :
    (m : Memory) (last kept tail : ℕ)
    → Bytes m
    → kept < 2 ^ 8
    → Bytes (restore_tail m last kept tail)
unfolding restore_tail
restore_tail-Bytes m last kept tail h k b =
    let cut = m last * 2 ^ (8 - tail) % 2 ^ 8 in
    let whole = lt_of_bits (bit_or (cut / 2 ^ (8 - tail)) (kept / 2 ^ tail * 2 ^ tail)) 8 (λ i l.
      ground (
        arith,
        bit-or i (cut / 2 ^ (8 - tail)) (kept / 2 ^ tail * 2 ^ tail),
        bit-shr i cut (8 - tail),
        bit_high (i + (8 - tail)) cut 8,
        bit-shl i (kept / 2 ^ tail) tail,
        bit-shr (i - tail) kept tail,
        bit_high i kept 8 k,
      )) in
    ground (arith, whole, h b)

-- A write leaves bytes in the buffer.
pub write_buffer_field-Bytes :
    (field : BufferField) (src : Memory) (size : ℕ)
    → Bytes field.backing
    → Bytes src
    → Bytes (write_buffer_field field src size)
unfolding do_write_misaligned_buffer_field
write_buffer_field-Bytes field src size h c b =
    let start = field.bit_index / 8 in
    let count = round_up_bits_to_bytes field.bit_length in
    elim (ℕ_discrete (field.bit_index % 8) 0) [
      | yes a ↦
          let put : Bytes (memcpy_zerout field.backing start src count size) = λ j.
            ground
              (arith, memcpy_zerout_lem field.backing start src count size j, h j, c (j - start)) in
          rw (write_aligned field src size a) (
            restore_tail-Bytes (memcpy_zerout field.backing start src count size)
              (start + count - 1) (field.backing (start + count - 1)) (field.bit_length % 8) put
              (h (start + count - 1)) b)
      | no a ↦
          let to : BitSpan = record {
            memory = field.backing;
            index = field.bit_index;
            length = field.bit_length;
          } in
          let from : BitSpan = record { memory = src; index = 0; length = size * 8 % 2 ^ 64 } in
          rw (write_misaligned field src size a) (bit_copy-Bytes to from h b)
    ]

-- For a field of fewer than 2 ^ 64 - 7 bits, a read after a write of the whole field gives the
-- value's bits back, the first `bit_length` bits of what was written, if the source has that many
-- and its size in bits is less than 2 ^ 64.
pub read-write_buffer_field :
    (field : BufferField) (src dst : Memory) (size x : ℕ)
    → Bytes src
    → Bytes field.backing
    → field.bit_length + 7 < 2 ^ 64
    → x < field.bit_length
    → field.bit_length ≤ size * 8
    → size * 8 < 2 ^ 64
    → let written = record field { backing = write_buffer_field field src size } in
      bit_at (read_buffer_field written dst) x ≡ bit_at src x
read-write_buffer_field field src dst size x c d l h k z =
    let back = write_buffer_field field src size in
    let place : 0 + (field.bit_index + (x - 0) - field.bit_index) ≡ x = omega arith in
    ground (
      arith,
      read_buffer_field-bit_at (record field { backing = back }) dst x
          (write_buffer_field-Bytes field src size d c) l,
      write_buffer_field-bit_at field src size (field.bit_index + (x - 0)) c l z,
      ap (bit_at src) place,
    )
