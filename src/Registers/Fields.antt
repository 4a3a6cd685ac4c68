-- ===== src/Registers/Fields.antt =====
-- Which bits the writes of source/registers.c change.
use u_acpi.Base.{
  ℕ, ◌*◌, ◌%◌, ◌^◌, ◌<◌, ◌≡◌, ◌≢◌, refl, Bool, true, ◌&&◌, ok, ◌==◌, ltb, if◌then◌else◌,
  holds_below, holds_below-test, arith, bit_and, bit_or,
}
use u_acpi.Base.Bits.{bit, bit-select}
use u_acpi.Host.{IoHost}
use u_acpi.Registers.Table.{Blocks, RegisterSpec, preserve, fields, field_count}
use u_acpi.Registers.{
  SpinHost, complement, do_read_register, do_write_register, write_both, merged_field,
}

-- Every field's mask fits 16 bits, and its register is one of those with a GAS.
field_ok : ℕ → Bool
field_ok i = ltb (fields i).mask (2 ^ 16) && ltb (fields i).reg 8

fields_ok : holds_below 23 field_ok ≡ true
unfolding holds_below field_ok fields
fields_ok = refl

field_bounds : (i : ℕ) → i < field_count → ((fields i).mask < 2 ^ 16) × ((fields i).reg < 8)
field_bounds i b = unfold field_ok in ground (arith, holds_below-test 23 i field_ok fields_ok b)

module _ {W : Type 0} (io : IoHost W) (spin : SpinHost W) (blocks : Blocks) where
  -- The value that a field write stores takes the field's bits from the new value, moved to their
  -- place, and each other bit from the register's present value.
  pub merged_field-bit :
      (i index current value : ℕ)
      → index < field_count
      → i < 64
      → let field = fields index in
        bit i (merged_field io spin blocks field current value) ≡ (
          if bit i field.mask == 0
          then bit i current
          else bit i (value * 2 ^ field.offset % 2 ^ 64))
  unfolding merged_field
  merged_field-bit i index current value b l =
      let field = fields index in
      bit-select i field.mask current (value * 2 ^ field.offset % 2 ^ 64)
        (omega (arith, field_bounds index b)) l

  -- A write to a register with bits to preserve, if the register could be read, stores one value
  -- in its blocks: the preserved bits as they were read, and the others as they were given.
  pub do_write_register-preserves :
      (reg : RegisterSpec) (before value : ℕ) (w : W)
      → reg.access_kind ≡ preserve
      → reg.preserve_mask ≢ 0
      → reg.preserve_mask < 2 ^ 64
      → (do_read_register io spin blocks reg before w).0 ≡ ok
      → let (ret, current, w1) = do_read_register io spin blocks reg before w in
        (m : ℕ) × (do_write_register io spin blocks reg before value w
          ≡ write_both io spin blocks reg m m w1)
        × ((i : ℕ)
            → i < 64
            → bit i m ≡ (if bit i reg.preserve_mask == 0 then bit i value else bit i current))
  unfolding do_write_register
  do_write_register-preserves reg before value w a p b e =
      let current = (do_read_register io spin blocks reg before w).1 in
      (
        bit_or (bit_and value (complement reg.preserve_mask)) (bit_and current reg.preserve_mask),
        ground arith,
        λ i l. bit-select i reg.preserve_mask value current b l,
      )
