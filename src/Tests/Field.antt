-- ===== src/Tests/Field.antt =====
-- Concrete fields of source/io.c.
use u_acpi.Base.{ℕ, ◌+◌, ◌*◌, ◌/◌, ◌%◌, ◌≡◌, inl, inr, refl, false, ok, arith}
use u_acpi.Stdlib.Memory.{Memory}
use u_acpi.Field.Copy.{BitSpan, bit_copy}
use u_acpi.Field.Copy.Rounds.{Bytes, bit_at, copied}
use u_acpi.Field.Copy.Laws.{bit_copy-bit_at}
use u_acpi.Field.Buffer.{BufferField, read_buffer_field, write_buffer_field}
use u_acpi.Field.Buffer.Reads.{read_buffer_field-bit_at}
use u_acpi.Field.Buffer.Laws.{write_buffer_field-bit_at, read-write_buffer_field}
use u_acpi.Field.Unit.{FieldShape, Access, preserve, read_with}
use u_acpi.Field.Unit.Bytes.{from_bytes, to_bytes-from_bytes}
use u_acpi.Field.Unit.Laws.{Reads}
use u_acpi.Field.Unit.Reads.{read_with-bit_at}

-- Every byte differs from the next.
abbrev pattern : Memory
pattern = λ b. (b * 37 + 11) % 256

pattern-Bytes : Bytes pattern
pattern-Bytes b = omega arith

abbrev ones : Memory
ones = λ b. 0xff

ones-Bytes : Bytes ones
ones-Bytes b = omega arith

abbrev into : BitSpan
into = record { memory = ones; index = 3; length = 21 }

abbrev from : BitSpan
from = record { memory = pattern; index = 6; length = 14 }

abbrev field : BufferField
field = record { bit_index = 5; bit_length = 11; backing = pattern }

-- Thirteen bits across two accesses of two bytes.
abbrev wide_field : FieldShape
wide_field = record {
  byte_offset = 2;
  bit_length = 13;
  bit_offset_within_first_byte = 6;
  access_width_bytes = 2;
  lock_rule = false;
  update_rule = preserve;
}

-- Two bytes of the pattern at each offset.
abbrev device : Access ℕ
device offset op value w = (ok, from_bytes 2 (λ b. pattern (offset + b)), w)

device-Reads : Reads device pattern 2
device-Reads = record {
  status = λ o w. refl;
  value = λ o w b. to_bytes-from_bytes 2 (λ i. pattern (o + i)) b (λ i. pattern-Bytes (o + i));
}

bit_copy-bit_at_example :
    bit_at (bit_copy into from) 9
    ≡ copied 9 into.index into.length from.memory from.index from.length (bit_at into.memory 9)
bit_copy-bit_at_example = bit_copy-bit_at into from 9 pattern-Bytes

read_buffer_field-bit_at_example :
    bit_at (read_buffer_field field ones) 5
    ≡ copied 5 0
        ((field.bit_length + 7) / 8 * 8)
        field.backing
        field.bit_index
        field.bit_length
        (bit_at ones 5)
read_buffer_field-bit_at_example = read_buffer_field-bit_at field ones 5 pattern-Bytes (omega arith)

write_buffer_field-bit_at_example :
    bit_at (write_buffer_field field ones 2) 6
    ≡ copied 6 field.bit_index field.bit_length ones 0 (2 * 8) (bit_at field.backing 6)
write_buffer_field-bit_at_example =
    write_buffer_field-bit_at field ones 2 6 ones-Bytes (omega arith) (omega arith)

read-write_buffer_field_example :
    let written = record field { backing = write_buffer_field field ones 2 } in
    bit_at (read_buffer_field written pattern) 6 ≡ bit_at ones 6
read-write_buffer_field_example =
    read-write_buffer_field field ones pattern 2 6 ones-Bytes pattern-Bytes (omega arith)
      (omega arith) (omega arith) (omega arith)

read_with-bit_at_example :
    let r = read_with device wide_field ones 4 0 in
    (r.0 ≡ ok)
    × ((x : ℕ)
        → bit_at r.1 x
          ≡ copied x 0
              (4 * 8)
              pattern
              (8 * wide_field.byte_offset + wide_field.bit_offset_within_first_byte)
              wide_field.bit_length
              (bit_at ones x))
read_with-bit_at_example =
    read_with-bit_at device pattern wide_field ones 4 0 device-Reads (inr (inl refl)) (omega arith)
      (omega arith) (omega arith) (omega arith)
