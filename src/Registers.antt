-- ===== src/Registers.antt =====
-- source/registers.c: the fixed-hardware registers, their fields, and the masks that keep bits
-- apart. `uacpi_u64` complements are taken modulo 2 ^ 64; the spinlock of the fields is a parameter.
pub mod Table
pub mod Fields
use u_acpi.Base.{
  ℕ, ◌+◌, ◌-◌, ◌*◌, ◌/◌, ◌%◌, ◌^◌, Option, none, some, Status, ok, err, invalid_argument,
  out_of_memory, ◌==◌, if◌then◌else◌, ltb, bit_and, bit_or,
}
use u_acpi.Host.{IoHost}
use u_acpi.Gas.Access.{Gas}
use u_acpi.Gas.Transfer.{gas_read, gas_write, system_io_read, system_io_write}
use Table.{
  Accessor, gas, port, Blocks, RegisterSpec, kind_of, preserve, write_to_clear, register_count,
  registers, field_count, RegisterField, fields,
}

-- ~mask.
abbrev pub complement : ℕ → ℕ
complement mask = 2 ^ 64 - 1 - mask

-- The host's spinlock around the fields.
pub record SpinHost (W : Type 0) : Type 0 where
  pub create_spinlock : W → ℕ × W
  pub free_spinlock : ℕ → W → W
  pub lock : ℕ → W → W
  pub unlock : ℕ → W → W

module _ {W : Type 0} (io : IoHost W) (spin : SpinHost W) (blocks : Blocks) where
  -- A block without an address is skipped, and what the caller's variable held stays in it.
  unfoldable pub read_one : Accessor → ℕ → ℕ → W → Status × ℕ × W
  read_one (gas g) width before w =
      if g.address == 0 then (ok, before, w) else gas_read io (some g) w
  read_one (port address) width before w = system_io_read io address width w

  unfoldable pub write_one : Accessor → ℕ → ℕ → W → Status × W
  write_one (gas g) width value w =
      if g.address == 0 then (ok, w) else gas_write io (some g) value w
  write_one (port address) width value w = system_io_write io address width value w

  -- The second block's value, which starts as 0.
  unfoldable pub read_second : RegisterSpec → W → Status × ℕ × W
  unfolding read_one
  read_second reg w = elim reg.accessor1 [
    | none ↦ (ok, 0, w)
    | some a ↦ read_one a reg.access_width 0 w
  ]

  -- `before` is what the uninitialized `value0` held.
  unfoldable pub do_read_register : RegisterSpec → ℕ → W → Status × ℕ × W
  unfolding read_second
  do_read_register reg before w =
      let (ret, value0, w1) = read_one reg.accessor0 reg.access_width before w in
      let (ret', value1, w2) = read_second reg w1 in
      let value = bit_or value0 value1 in
      let visible =
        if reg.write_only_mask == 0
        then value
        else bit_and value (complement reg.write_only_mask) in
      elim ret [
        | err e ↦ (err e, 0, w1)
        | ok ↦ elim ret' [ err e ↦ (err e, 0, w2) | ok ↦ (ok, visible, w2) ]
      ]

  pub read_register : ℕ → ℕ → W → Status × ℕ × W
  read_register index before w =
      if ltb (index % 2 ^ 8) register_count
      then do_read_register (registers blocks (index % 2 ^ 8)) before w
      else (err invalid_argument, 0, w)

  -- The second block is written only after the first.
  pub write_both : RegisterSpec → ℕ → ℕ → W → Status × W
  unfolding write_one
  write_both reg value0 value1 w =
      let (ret, w1) = write_one reg.accessor0 reg.access_width value0 w in
      elim ret [
        | err e ↦ (err e, w1)
        | ok ↦ elim reg.accessor1 [
          | none ↦ (ok, w1)
          | some a ↦ write_one a reg.access_width value1 w1
        ]
      ]

  pub do_write_register : RegisterSpec → ℕ → ℕ → W → Status × W
  unfolding write_both
  do_write_register reg before value w =
      let cleared = bit_and value (complement reg.preserve_mask) in
      let (ret, current, w1) = do_read_register reg before w in
      let merged = bit_or cleared (bit_and current reg.preserve_mask) in
      if reg.preserve_mask == 0
      then write_both reg value value w
      else (if reg.access_kind == preserve
          then (elim ret [ err e ↦ (err e, w1) | ok ↦ write_both reg merged merged w1 ])
          else write_both reg cleared cleared w)

  pub write_register : ℕ → ℕ → ℕ → W → Status × W
  write_register index before value w =
      if ltb (index % 2 ^ 8) register_count
      then do_write_register (registers blocks (index % 2 ^ 8)) before value w
      else (err invalid_argument, w)

  pub write_registers : ℕ → ℕ → ℕ → W → Status × W
  unfolding write_both
  write_registers index value0 value1 w =
      if ltb (index % 2 ^ 8) register_count
      then write_both (registers blocks (index % 2 ^ 8)) value0 value1 w
      else (err invalid_argument, w)

  -- `g_reg_lock`: creation and end, with the handle that is stored.
  pub initialize_registers : W → Status × ℕ × W
  initialize_registers w =
      let (handle, w') = spin.create_spinlock w in
      if handle == 0 then (err out_of_memory, handle, w') else (ok, handle, w')

  pub deinitialize_registers : ℕ → W → ℕ × W
  deinitialize_registers handle w =
      if handle == 0 then (handle, w) else (0, spin.free_spinlock handle w)

  pub read_register_field : ℕ → ℕ → W → Status × ℕ × W
  read_register_field index before w =
      let field = fields (index % 2 ^ 8) in
      let (ret, value, w') = do_read_register (registers blocks field.reg) before w in
      if ltb (index % 2 ^ 8) field_count
      then (elim ret [
        | ok ↦ (ok, bit_and value field.mask / 2 ^ field.offset, w')
        | err e ↦ (err e, value, w')
      ])
      else (err invalid_argument, 0, w)

  -- What the field's bits are replaced by, and the value with them replaced.
  pub placed : RegisterField → ℕ → ℕ
  placed field value = bit_and (value * 2 ^ field.offset % 2 ^ 64) field.mask

  pub merged_field : RegisterField → ℕ → ℕ → ℕ
  unfolding placed
  merged_field field current value =
      bit_or (bit_and current (complement field.mask)) (placed field value)

  -- The `else` path of the field write: read, replace, write.
  pub modify_field : RegisterField → ℕ → ℕ → W → Status × W
  modify_field field before value w =
      let reg = registers blocks field.reg in
      let (ret, current, w1) = do_read_register reg before w in
      elim ret [
        | ok ↦ do_write_register reg before (merged_field field current value) w1
        | err e ↦ (err e, w1)
      ]

  clear_field : RegisterField → ℕ → ℕ → W → Status × W
  unfolding placed
  clear_field field before value w =
      if placed field value == 0
      then (ok, w)
      else do_write_register (registers blocks field.reg) before (placed field value) w

  -- The test compares the register's kind, where its access kind is meant.
  pub write_register_field : ℕ → ℕ → ℕ → ℕ → W → Status × W
  unfolding clear_field modify_field
  write_register_field handle index before value w =
      let field = fields (index % 2 ^ 8) in
      let reg = registers blocks field.reg in
      let locked = spin.lock handle w in
      let (ret, w') =
        if kind_of reg.accessor0 == write_to_clear
        then clear_field field before value locked
        else modify_field field before value locked in
      if ltb (index % 2 ^ 8) field_count
      then (ret, spin.unlock handle w')
      else (err invalid_argument, w)
