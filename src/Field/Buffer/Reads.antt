-- ===== src/Field/Buffer/Reads.antt =====
-- What a read of a buffer field of source/io.c gives, by bits.
use u_acpi.Base.{
  ℕ, ◌+◌, ◌-◌, ◌*◌, ◌/◌, ◌%◌, ◌^◌, ◌<◌, ◌≡◌, ◌≢◌, ap, sym, ◌∙◌, ◌&&◌, ◌==◌, if◌then◌else◌, ltb, leb,
  arith,
}
use native.Mathlib.Decide.{ℕ_discrete}
use u_acpi.Base.Bits.{bit, bit-and, bit_lt_two}
use u_acpi.Base.Bits.Shift.{bit-ones, clear_low}
use u_acpi.Stdlib.Memory.{Memory, memcpy}
use u_acpi.Stdlib.Memory.Laws.{memcpy_lem}
use u_acpi.Field.Copy.{BitSpan, round_up_bits_to_bytes}
use u_acpi.Field.Copy.Rounds.{Bytes, bit_at, bit_at_byte, bit_at_split, copied}
use u_acpi.Field.Copy.Laws.{bit_copy-bit_at}
use u_acpi.Field.Buffer.{
  BufferField, cut_misaligned_tail, do_misaligned_buffer_read, read_buffer_field,
}

-- The bytes that hold `n` bits.
pub round_up_bits_to_bytes_lem : (n : ℕ) → n + 7 < 2 ^ 64 → round_up_bits_to_bytes n ≡ (n + 7) / 8
unfolding round_up_bits_to_bytes
round_up_bits_to_bytes_lem n h =
    let small : (n + 7) % 2 ^ 64 ≡ n + 7 = omega arith in
    rw (small, clear_low 64 3 (n + 7) h (omega arith)) (omega arith)

pub cut-bit :
    (m : Memory) (last len b i : ℕ)
    → i < 8
    → bit i (cut_misaligned_tail m last len b)
      ≡ (if (b == last) && leb (len % 8) i && ltb 0 (len % 8) then 0 else bit i (m b))
unfolding cut_misaligned_tail
cut-bit m last len b i h =
    ground
      (arith, bit-and i (m last) (2 ^ (len % 8) - 1), bit-ones i (len % 8), bit_lt_two i (m last))

aligned_read :
    (backing : Memory) (q len : ℕ) (dst : Memory) (b i : ℕ)
    → i < 8
    → let count = (len + 7) / 8 in
      bit i (cut_misaligned_tail (memcpy dst 0 backing q count) (count - 1) len b)
      ≡ copied (8 * b + i) 0 (count * 8) backing (8 * q) len (bit i (dst b))
aligned_read backing q len dst b i h =
    let count = (len + 7) / 8 in
    let place : 8 * q + (8 * b + i - 0) ≡ 8 * (q + (b - 0)) + i = omega arith in
    let here = ap (bit_at backing) place ∙ bit_at_byte backing (q + (b - 0)) i h in
    ground (
      arith,
      here,
      memcpy_lem count dst 0 backing q b,
      cut-bit (memcpy dst 0 backing q count) (count - 1) len b i h,
    )

read_aligned :
    (field : BufferField) (dst : Memory)
    → field.bit_index % 8 ≡ 0
    → let count = round_up_bits_to_bytes field.bit_length in
      read_buffer_field field dst
      ≡ cut_misaligned_tail
          (memcpy dst 0 field.backing (field.bit_index / 8) count)
          (count - 1)
          field.bit_length
unfolding read_buffer_field
read_aligned field dst a = ground arith

read_misaligned :
    (field : BufferField) (dst : Memory)
    → field.bit_index % 8 ≢ 0
    → read_buffer_field field dst ≡ do_misaligned_buffer_read field dst
unfolding read_buffer_field
read_misaligned field dst a = ground arith

-- For a field of fewer than 2 ^ 64 - 7 bits, a read fills the bytes that the field's bits need: the field's bits first, and 0 behind them; the
-- bytes behind those are kept.
pub read_buffer_field-bit_at :
    (field : BufferField) (dst : Memory) (x : ℕ)
    → Bytes field.backing
    → field.bit_length + 7 < 2 ^ 64
    → bit_at (read_buffer_field field dst) x
      ≡ copied x 0
          ((field.bit_length + 7) / 8 * 8)
          field.backing
          field.bit_index
          field.bit_length
          (bit_at dst x)
unfolding do_misaligned_buffer_read
read_buffer_field-bit_at field dst x c l =
    let old = bit_at dst x in
    let len = field.bit_length in
    let count = round_up_bits_to_bytes_lem len l in
    elim (ℕ_discrete (field.bit_index % 8) 0) [
      | yes a ↦
          let place : 8 * (field.bit_index / 8) ≡ field.bit_index = omega arith in
          let at : 8 * (x / 8) + x % 8 ≡ x = omega arith in
          ap (λ (m : Memory). bit_at m x) (read_aligned field dst a)
          ∙ ap
              (λ (k : ℕ).
                bit_at
                  (cut_misaligned_tail (memcpy dst 0 field.backing (field.bit_index / 8) k) (k - 1)
                    len)
                  x)
              count
          ∙ bit_at_split _ x
          ∙ aligned_read field.backing (field.bit_index / 8) len dst (x / 8) (x % 8) (omega arith)
          ∙ ap
              (λ (t : ℕ).
                copied t 0 ((len + 7) / 8 * 8) field.backing (8 * (field.bit_index / 8)) len
                  (bit (x % 8) (dst (x / 8))))
              at
          ∙ ap
              (λ (t : ℕ).
                copied x 0 ((len + 7) / 8 * 8) field.backing t len (bit (x % 8) (dst (x / 8))))
              place
          ∙ ap (λ (t : ℕ). copied x 0 ((len + 7) / 8 * 8) field.backing field.bit_index len t)
              (sym (bit_at_split dst x))
      | no a ↦
          let to : BitSpan = record {
            memory = dst;
            index = 0;
            length = round_up_bits_to_bytes len * 8;
          } in
          let from : BitSpan = record {
            memory = field.backing;
            index = field.bit_index;
            length = len;
          } in
          ap (λ (m : Memory). bit_at m x) (read_misaligned field dst a)
          ∙ bit_copy-bit_at to from x c
          ∙ ap (λ (k : ℕ). copied x 0 (k * 8) field.backing field.bit_index len old) count
    ]
