-- ===== src/Tables/Fadt/Laws.antt =====
-- The corrections of the FADT in source/tables.c.
use u_acpi.Base.{ℕ, ◌+◌, ◌/◌, ◌%◌, ◌^◌, ◌≤◌, ◌<◌, ◌≡◌, ◌==◌, if◌then◌else◌, leb, arith}
use u_acpi.Gas.Access.{Gas}
use u_acpi.Tables.Fadt.{
  Fadt, first_size, ensure_correct_revision, gas_init_system_io, convert_one, split_one_block,
}

-- The length of a FADT decides its revision; of 3 and 4, which have the same length, the revision
-- that the table itself has decides. Lengths above the last revision's count as that one.
pub ensure_correct_revision_lem :
    (fadt : Fadt)
    → let n = fadt.hdr_length in
      (ensure_correct_revision fadt).hdr_revision ≡ (
        if leb n 116
        then 1
        else (if leb n 132
            then 2
            else (if leb n 244
                then (if fadt.hdr_revision == 4 then 4 else 3)
                else (if leb n 268 then 5 else 6))))
unfolding ensure_correct_revision first_size
ensure_correct_revision_lem fadt = ground arith

-- The status and the enable block that are cut from a legacy event block of an even number of bytes,
-- up to 31, without an extended address: they lie one behind the other and cover the whole block.
pub split-convert_one :
    (legacy_addr len : ℕ) (gas dst0 dst1 : Gas)
    → gas.address ≡ 0
    → 0 < legacy_addr
    → legacy_addr < 2 ^ 32
    → len ≤ 31
    → len % 2 ≡ 0
    → let (status, enable) = split_one_block (convert_one legacy_addr len gas) dst0 dst1 in
      (status.address ≡ legacy_addr)
      × (status.address + status.register_bit_width / 8 ≡ enable.address)
      × (enable.address + enable.register_bit_width / 8 ≡ legacy_addr + len)
unfolding split_one_block convert_one gas_init_system_io
split-convert_one a len gas dst0 dst1 z p b l e = ground (arith, z, p, b, l, e)
