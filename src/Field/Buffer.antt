-- ===== src/Field/Buffer.antt =====
-- source/io.c: reads and writes of a buffer field, `struct uacpi_buffer_field` of
-- include/uacpi/internal/types.h. `backing` is the memory of the buffer.
pub mod Laws
pub mod Reads
use u_acpi.Base.{ℕ, ◌+◌, ◌-◌, ◌*◌, ◌/◌, ◌%◌, ◌^◌, ◌==◌, if◌then◌else◌, bit_and, bit_or}
use u_acpi.Stdlib.Memory.{Memory, set_byte, memcpy, memcpy_zerout}
use u_acpi.Field.Copy.{BitSpan, bit_copy, round_up_bits_to_bytes}

pub record BufferField : Type 0 where
  pub bit_index : ℕ
  pub bit_length : ℕ
  pub backing : Memory

pub cut_misaligned_tail : Memory → ℕ → ℕ → Memory
cut_misaligned_tail m offset bit_length =
    let remainder = bit_length % 8 in
    if remainder == 0 then m else set_byte m offset (bit_and (m offset) (2 ^ remainder - 1))

do_misaligned_buffer_read : BufferField → Memory → Memory
do_misaligned_buffer_read field dst =
    let to : BitSpan = record {
      memory = dst;
      index = 0;
      length = round_up_bits_to_bytes field.bit_length * 8;
    } in
    let from : BitSpan = record {
      memory = field.backing;
      index = field.bit_index;
      length = field.bit_length;
    } in
    bit_copy to from

-- The memory at `dst` after the call.
pub read_buffer_field : BufferField → Memory → Memory
unfolding cut_misaligned_tail do_misaligned_buffer_read
read_buffer_field field dst =
    let count = round_up_bits_to_bytes field.bit_length in
    let taken = memcpy dst 0 field.backing (field.bit_index / 8) count in
    if field.bit_index % 8 == 0
    then cut_misaligned_tail taken (count - 1) field.bit_length
    else do_misaligned_buffer_read field dst

do_write_misaligned_buffer_field : BufferField → Memory → ℕ → Memory
do_write_misaligned_buffer_field field src size =
    let to : BitSpan = record {
      memory = field.backing;
      index = field.bit_index;
      length = field.bit_length;
    } in
    let from : BitSpan = record { memory = src; index = 0; length = size * 8 % 2 ^ 64 } in
    bit_copy to from

-- The last byte of the field, with the bits behind the field's end as they were.
restore_tail : Memory → ℕ → ℕ → ℕ → Memory
restore_tail m last last_byte tail_shift =
    let last_shift = 8 - tail_shift in
    let cut = m last * 2 ^ last_shift % 2 ^ 8 / 2 ^ last_shift in
    if tail_shift == 0
    then m
    else set_byte m last (bit_or cut (last_byte / 2 ^ tail_shift * 2 ^ tail_shift))

-- The memory of the buffer after the call.
pub write_buffer_field : BufferField → Memory → ℕ → Memory
unfolding do_write_misaligned_buffer_field restore_tail
write_buffer_field field src size =
    let start = field.bit_index / 8 in
    let count = round_up_bits_to_bytes field.bit_length in
    let last = start + count - 1 in
    let put = memcpy_zerout field.backing start src count size in
    if field.bit_index % 8 == 0
    then restore_tail put last (field.backing last) (field.bit_length % 8)
    else do_write_misaligned_buffer_field field src size
