-- ===== src/Gas/Transfer.antt =====
-- source/io.c: reading and writing through a Generic Address Structure, by ports or memory.
pub mod Laws
pub mod Single
use u_acpi.Base.{
  ℕ, zero, suc, ◌+◌, ◌-◌, ◌*◌, ◌/◌, ◌%◌, ◌^◌, Bool, true, false, Option, none, some, Status, ok,
  err, Error, invalid_argument, mapping_failed, ◌==◌, if◌then◌else◌, leb, ltb, ◌||◌, min, bit_and,
  bit_or,
}
use u_acpi.Host.{IoHost}
use u_acpi.Gas.Access.{Gas, system_io, gas_validate}

module _ {W : Type 0} (io : IoHost W) where
  -- In these the number is what is written to the output, where the status is OK.
  unfoldable pub system_io_read : ℕ → ℕ → W → Status × ℕ × W
  system_io_read address width w =
      let (ret, handle, w1) = io.io_map address width w in
      let (ret', value, w2) = io.io_read handle 0 width w1 in
      elim ret [ ok ↦ (ret', value, io.io_unmap handle w2) | err e ↦ (err e, 0, w1) ]

  unfoldable pub system_io_write : ℕ → ℕ → ℕ → W → Status × W
  system_io_write address width value w =
      let (ret, handle, w1) = io.io_map address width w in
      let (ret', w2) = io.io_write handle 0 width value w1 in
      elim ret [ ok ↦ (ret', io.io_unmap handle w2) | err e ↦ (err e, w1) ]

  -- The widths that a memory access may have, in bytes.
  unfoldable pub is_memory_width : ℕ → Bool
  is_memory_width width = (width == 1 || width == 2) || (width == 4 || width == 8)

  unfoldable pub system_memory_read : ℕ → ℕ → W → Status × ℕ × W
  unfolding is_memory_width
  system_memory_read pointer width w =
      let (value, w') = io.load pointer width w in
      if is_memory_width width
      then (ok, value % 2 ^ (width * 8), w')
      else (err invalid_argument, 0, w)

  unfoldable pub system_memory_write : ℕ → ℕ → ℕ → W → Status × W
  unfolding is_memory_width
  system_memory_write pointer width value w =
      if is_memory_width width
      then (ok, io.store pointer width (value % 2 ^ (width * 8)) w)
      else (err invalid_argument, w)

  -- One access of the loops. Memory is mapped by bytes, and unmapped with the width in bits.
  unfoldable pub read_unit : Gas → ℕ → ℕ → W → Status × ℕ × W
  unfolding system_io_read system_memory_read
  read_unit g bits index w =
      let bytes = bits / 8 in
      let address = (g.address + index * bytes) % 2 ^ 64 in
      let (virt, w1) = io.map_memory address bytes w in
      let (ret, value, w2) = system_memory_read virt bytes w1 in
      if g.address_space_id == system_io
      then system_io_read address bytes w
      else (if virt == 0
          then (err mapping_failed, 0, w1)
          else (ret, value, io.unmap_memory virt bits w2))

  unfoldable pub write_unit : Gas → ℕ → ℕ → ℕ → W → Status × W
  unfolding system_io_write system_memory_write
  write_unit g bits index value w =
      let bytes = bits / 8 in
      let address = (g.address + index * bytes) % 2 ^ 64 in
      let (virt, w1) = io.map_memory address bytes w in
      let (ret, w2) = system_memory_write virt bytes value w1 in
      if g.address_space_id == system_io
      then system_io_write address bytes value w
      else (if virt == 0 then (err mapping_failed, w1) else (ret, io.unmap_memory virt bits w2))

  -- The mask of an access, ~(mask << access_bit_width) or all ones.
  unfoldable pub access_mask : ℕ → ℕ
  access_mask bits = if ltb (bits / 8) 8 then 2 ^ bits - 1 else 2 ^ 64 - 1

  -- `while (bits_left)`, with as many rounds as there are bits: each round takes one at least.
  unfoldable pub read_loop : ℕ → Gas → ℕ → ℕ → ℕ → ℕ → ℕ → W → Status × ℕ × W
  unfolding access_mask
  read_loop zero g bits offset left index out w = (ok, out, w)
  read_loop (suc n) g bits offset left index out w =
      let (ret, value, w') = read_unit g bits index w in
      let merge =
        λ (d : ℕ). bit_or out (bit_and d (access_mask bits) * 2 ^ (index * bits) % 2 ^ 64) in
      let skipped =
        read_loop n g bits (offset - bits) (left - min left bits) (suc index) (merge 0) w in
      let taken = read_loop n g bits offset (left - min left bits) (suc index) (merge value) w' in
      if left == 0
      then (ok, out, w)
      else (if leb bits offset
          then skipped
          else (elim ret [ ok ↦ taken | err e ↦ (err e, out, w') ]))

  unfoldable pub write_loop : ℕ → Gas → ℕ → ℕ → ℕ → ℕ → ℕ → W → Status × W
  unfolding access_mask
  write_loop zero g bits offset left index value w = (ok, w)
  write_loop (suc n) g bits offset left index value w =
      let part = bit_and (value / 2 ^ (index * bits)) (access_mask bits) in
      let (ret, w') = write_unit g bits index part w in
      let skipped =
        write_loop n g bits (offset - bits) (left - min left bits) (suc index) value w in
      let taken = write_loop n g bits offset (left - min left bits) (suc index) value w' in
      if left == 0
      then (ok, w)
      else (if leb bits offset then skipped else (elim ret [ ok ↦ taken | err e ↦ (err e, w') ]))

  unfoldable pub gas_read : Option Gas → W → Status × ℕ × W
  gas_read none w = ((gas_validate none).0, 0, w)
  gas_read (some g) w =
      let (ret, bits) = gas_validate (some g) in
      let left = (g.register_bit_offset + g.register_bit_width) % 2 ^ 8 in
      elim ret [
        | ok ↦ read_loop left g bits g.register_bit_offset left 0 0 w
        | err e ↦ (err e, 0, w)
      ]

  unfoldable pub gas_write : Option Gas → ℕ → W → Status × W
  gas_write none value w = ((gas_validate none).0, w)
  gas_write (some g) value w =
      let (ret, bits) = gas_validate (some g) in
      let left = (g.register_bit_offset + g.register_bit_width) % 2 ^ 8 in
      elim ret [
        | ok ↦ write_loop left g bits g.register_bit_offset left 0 value w
        | err e ↦ (err e, w)
      ]
