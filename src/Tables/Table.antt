-- ===== src/Tables/Table.antt =====
-- source/tables.c: one table that is installed, its checksum, and the references to it.
pub mod Laws
use u_acpi.Base.{
  ℕ, zero, suc, ◌+◌, ◌-◌, ◌%◌, ◌^◌, Bool, true, false, ◌&&◌, ◌||◌, not, ◌==◌, if◌then◌else◌,
  bit_and, bit_or, Status, ok, err, mapping_failed, bad_checksum, invalid_signature,
  invalid_argument,
}
use u_acpi.Base.Int.{ℤ, pos, negsuc}
use u_acpi.Stdlib.Memory.{Memory, memcmp}

-- `struct acpi_sdt_hdr`, by the fields that the code reads; texts are their bytes.
pub record SdtHdr : Type 0 where
  pub signature : Memory
  pub length : ℕ
  pub revision : ℕ
  pub oemid : Memory
  pub oem_table_id : Memory

pub data Origin : Type 0 where
  firmware_virtual firmware_physical host_virtual host_physical : Origin

pub record InstalledTable : Type 0 where
  pub phys_addr : ℕ
  pub hdr : SdtHdr
  pub ptr : ℕ
  pub reference_count : ℕ
  pub flags : ℕ
  pub origin : Origin

-- UACPI_TABLE_LOADED, UACPI_TABLE_CSUM_VERIFIED and UACPI_TABLE_INVALID.
abbrev pub loaded : ℕ
loaded = 1

abbrev pub csum_verified : ℕ
csum_verified = 2

abbrev pub invalid : ℕ
invalid = 4

abbrev pub has : ℕ → ℕ → Bool
has flags flag = not (bit_and flags flag == 0)

unfoldable pub is_physical : Origin → Bool
is_physical firmware_virtual = false
is_physical firmware_physical = true
is_physical host_virtual = false
is_physical host_physical = true

-- `uacpi_kernel_map` and `uacpi_kernel_unmap`, and the bytes behind a pointer;
-- the flags are UACPI_FLAG_BAD_CSUM_FATAL and UACPI_FLAG_BAD_TBL_SIGNATURE_FATAL.
pub record TableHost (W : Type 0) : Type 0 where
  pub map_table : ℕ → ℕ → W → ℕ × W
  pub unmap_table : ℕ → ℕ → W → W
  pub bytes_at : ℕ → W → Memory
  pub bad_csum_fatal : Bool
  pub bad_tbl_signature_fatal : Bool

-- `table_checksum`: the loop from byte `i` with `n` bytes left.
unfoldable pub checksum_from : Memory → ℕ → ℕ → ℕ → ℕ
checksum_from bytes i zero csum = csum
checksum_from bytes i (suc n) csum = checksum_from bytes (i + 1) n ((csum + bytes i) % 2 ^ 8)

unfoldable pub table_checksum : Memory → ℕ → ℕ
table_checksum bytes size = checksum_from bytes 0 size 0

unfoldable pub is_zero : ℤ → Bool
is_zero (pos n) = n == 0
is_zero (negsuc n) = false

unfoldable pub signatures_match : Memory → Memory → Bool
unfolding is_zero
signatures_match lhs rhs = is_zero (memcmp lhs rhs 4)

module _ {W : Type 0} (h : TableHost W) where
  unfoldable pub verify_table_checksum : Memory → ℕ → Status
  unfolding table_checksum
  verify_table_checksum bytes size =
      if not (table_checksum bytes size == 0) && h.bad_csum_fatal then err bad_checksum else ok

  unfoldable pub check_table_signature : Memory → Memory → Status
  unfolding signatures_match
  check_table_signature table expect =
      if not (signatures_match table expect) && h.bad_tbl_signature_fatal
      then err invalid_signature
      else ok

  -- The first reference to a physical table maps it, and verifies its checksum once.
  unfoldable pub map_first : InstalledTable → W → Status × InstalledTable × W
  unfolding verify_table_checksum is_physical
  map_first tbl w =
      let (ptr, w1) = h.map_table tbl.phys_addr tbl.hdr.length w in
      let mapped : InstalledTable = record tbl { ptr = ptr } in
      let verified : InstalledTable = record tbl {
        ptr = ptr;
        flags = bit_or tbl.flags csum_verified;
      } in
      let bad : InstalledTable = record tbl { ptr = 0; flags = bit_or tbl.flags invalid } in
      let ret = verify_table_checksum (h.bytes_at ptr w1) tbl.hdr.length in
      if has tbl.flags invalid
      then (err invalid_argument, tbl, w)
      else (if not (is_physical tbl.origin)
          then (ok, tbl, w)
          else (if ptr == 0
              then (err mapping_failed, mapped, w1)
              else (if has tbl.flags csum_verified then (ok, mapped, w1) else (elim ret [
                | ok ↦ (ok, verified, w1)
                | err e ↦ (err e, bad, h.unmap_table ptr tbl.hdr.length w1)
              ]))))

  -- A count of 0xFFFF stays: the table is mapped for good.
  unfoldable pub table_ref : InstalledTable → W → Status × InstalledTable × W
  unfolding map_first
  table_ref tbl w =
      let (ret, tbl', w') = if tbl.reference_count == 0 then map_first tbl w else (ok, tbl, w) in
      let counted : InstalledTable =
        if tbl'.reference_count == 0xffff
        then tbl'
        else record tbl' { reference_count = (tbl'.reference_count + 1) % 2 ^ 16 } in
      elim ret [ ok ↦ (ok, counted, w') | err e ↦ (err e, tbl', w') ]

  unfoldable pub table_unref : InstalledTable → W → Status × InstalledTable × W
  unfolding is_physical
  table_unref tbl w =
      let last = (tbl.reference_count == 1) && is_physical tbl.origin in
      let counted : InstalledTable = record tbl {
        ptr = if last then 0 else tbl.ptr;
        reference_count = tbl.reference_count - 1;
      } in
      if tbl.reference_count == 0
      then (err invalid_argument, tbl, w)
      else (if tbl.reference_count == 0xffff
          then (ok, tbl, w)
          else (ok, counted, if last then h.unmap_table tbl.ptr tbl.hdr.length w else w))
