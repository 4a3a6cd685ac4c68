-- ===== src/Field/Copy.antt =====
-- source/io.c: `bit_copy`, the copy of a run of bits from one place in memory to another. Memory
-- behind a pointer is a function from the distance in bytes to the byte there; the source and the
-- destination are different memories.
pub mod Laws
pub mod Rounds
use u_acpi.Base.{
  ℕ, zero, suc, ◌+◌, ◌-◌, ◌*◌, ◌/◌, ◌%◌, ◌^◌, Bool, ◌&&◌, ◌==◌, if◌then◌else◌, ltb, min, bit_and,
  bit_or,
}
use u_acpi.Stdlib.Memory.{Memory, set_byte}

pub record BitSpan : Type 0 where
  pub memory : Memory
  pub index : ℕ
  pub length : ℕ

-- The number of bits skipped, and the rest of the span.
unfoldable pub bit_span_offset : BitSpan → ℕ → ℕ × BitSpan
bit_span_offset span bits =
    let delta = min span.length bits in
    (
      delta,
      record span {
        index = (span.index + delta) % 2 ^ 64;
        length = (span.length + 2 ^ 64 - delta) % 2 ^ 64;
      },
    )

-- UACPI_ALIGN_UP(bit_length, 8, uacpi_size) / 8.
unfoldable pub round_up_bits_to_bytes : ℕ → ℕ
round_up_bits_to_bytes n = bit_and ((n + 7) % 2 ^ 64) (2 ^ 64 - 1 - 7) / 8

-- What one round reads into `bits`: 8 bits, or as many as are left.
unfoldable pub next_bits : Memory → ℕ → ℕ → ℕ → ℕ
next_bits src p shift count =
    let first = src p / 2 ^ shift in
    let both = bit_or first (src (p + 1) * 2 ^ (8 - shift) % 2 ^ 8) in
    let bits = if ltb 0 shift && ltb (8 - shift) count then both else first in
    if count == 0 then 0 else (if ltb count 8 then bit_and bits (2 ^ count - 1) else bits)

-- ~mask, of which only the low byte is used.
abbrev clears : ℕ → ℕ
clears mask = 2 ^ 32 - 1 - mask

-- What one round writes.
unfoldable pub put_bits : Memory → ℕ → ℕ → ℕ → ℕ → Memory
put_bits dst p shift count bits =
    let mask = (if ltb count 8 then 2 ^ count - 1 else 0xff) * 2 ^ shift % 2 ^ 16 in
    let low = bit_or (bit_and (dst p) (clears mask)) (bit_and (bits * 2 ^ shift) mask) % 2 ^ 8 in
    let high =
      bit_or (bit_and (dst (p + 1)) (clears (mask / 2 ^ 8)))
        (bit_and (bits / 2 ^ (8 - shift)) (mask / 2 ^ 8)) in
    let written = set_byte dst p low in
    if ltb 0 shift && ltb (8 - shift) count then set_byte written (p + 1) high else written

-- `while (dst_count)`, with at most as many rounds as there are bits: each takes one at least.
pub copy_loop : ℕ → Memory → ℕ → ℕ → ℕ → Memory → ℕ → ℕ → ℕ → Memory
unfolding next_bits put_bits
copy_loop zero dst p d dc src q s sc = dst
copy_loop (suc n) dst p d dc src q s sc =
    let dst' = put_bits dst p d dc (next_bits src q s sc) in
    let rest =
      copy_loop n dst' (p + 1) d (if ltb 8 dc then dc - 8 else 0) src
        (if ltb sc 8 then q else q + 1) s (if ltb sc 8 then 0 else sc - 8) in
    if dc == 0 then dst else rest

-- The memory of the destination after the call.
unfoldable pub bit_copy : BitSpan → BitSpan → Memory
unfolding copy_loop
bit_copy dst src =
    copy_loop dst.length dst.memory (dst.index / 8) (dst.index % 8) dst.length src.memory
      (src.index / 8) (src.index % 8) src.length
