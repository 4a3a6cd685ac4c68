-- ===== src/Tables/Fadt.antt =====
-- source/tables.c: how the FADT is corrected, and its registers brought into one form.
pub mod Laws
use u_acpi.Base.{
  ℕ, ◌+◌, ◌-◌, ◌*◌, ◌/◌, ◌%◌, ◌^◌, Bool, true, false, ◌&&◌, not, ◌==◌, if◌then◌else◌, ltb, leb, min,
  List, [], ◌∷◌, length,
}
use u_acpi.Gas.Access.{Gas, system_io}

-- `struct acpi_fadt`, by the fields that this code reads and writes.
pub record Fadt : Type 0 where
  pub hdr_length : ℕ
  pub hdr_revision : ℕ
  pub firmware_ctrl : ℕ
  pub dsdt : ℕ
  pub flags : ℕ
  pub x_firmware_ctrl : ℕ
  pub x_dsdt : ℕ
  pub preferred_pm_profile : ℕ
  pub pstate_cnt : ℕ
  pub cst_cnt : ℕ
  pub iapc_boot_arch : ℕ
  pub pm1a_evt_blk : ℕ
  pub pm1b_evt_blk : ℕ
  pub pm1a_cnt_blk : ℕ
  pub pm1b_cnt_blk : ℕ
  pub pm2_cnt_blk : ℕ
  pub pm_tmr_blk : ℕ
  pub gpe0_blk : ℕ
  pub gpe1_blk : ℕ
  pub pm1_evt_len : ℕ
  pub pm1_cnt_len : ℕ
  pub pm2_cnt_len : ℕ
  pub pm_tmr_len : ℕ
  pub gpe0_blk_len : ℕ
  pub gpe1_blk_len : ℕ
  pub x_pm1a_evt_blk : Gas
  pub x_pm1b_evt_blk : Gas
  pub x_pm1a_cnt_blk : Gas
  pub x_pm1b_cnt_blk : Gas
  pub x_pm2_cnt_blk : Gas
  pub x_pm_tmr_blk : Gas
  pub x_gpe0_blk : Gas
  pub x_gpe1_blk : Gas

abbrev pub fadt_version_sizes : List ℕ
fadt_version_sizes = 116 ∷ 132 ∷ 244 ∷ 244 ∷ 268 ∷ 276 ∷ []

-- The loop over the sizes: the index of the first one that the length does not exceed.
unfoldable pub first_size : List ℕ → ℕ → ℕ → ℕ
first_size [] rev len = rev
first_size (n ∷ ns) rev len = if leb len n then rev else first_size ns (rev + 1) len

unfoldable pub ensure_correct_revision : Fadt → Fadt
unfolding first_size
ensure_correct_revision fadt =
    let found = first_size fadt_version_sizes 0 fadt.hdr_length in
    let rev = found + 1 in
    let current_rev = fadt.hdr_revision in
    let differs = not (current_rev == rev) && not ((rev == 3) && (current_rev == 4)) in
    if found == length fadt_version_sizes
    then record fadt { hdr_revision = found }
    else (if differs then record fadt { hdr_revision = rev } else fadt)

-- The part of `initialize_fadt` behind the revision: what was reserved before version 3.
unfoldable pub clear_reserved : Fadt → Fadt
clear_reserved fadt =
    if leb fadt.hdr_revision 2
    then record fadt { preferred_pm_profile = 0; pstate_cnt = 0; cst_cnt = 0; iapc_boot_arch = 0 }
    else fadt

unfoldable pub gas_init_system_io : ℕ → ℕ → Gas
gas_init_system_io address byte_size = record {
  address_space_id = system_io;
  register_bit_width = min 255 (byte_size * 8);
  register_bit_offset = 0;
  access_size = 0;
  address = address;
}

-- One round of `convert_registers_to_gas`.
unfoldable pub convert_one : ℕ → ℕ → Gas → Gas
unfolding gas_init_system_io
convert_one legacy_addr len gas =
    if gas.address == 0 then gas_init_system_io legacy_addr len else gas

unfoldable pub convert_registers_to_gas : Fadt → Fadt
unfolding convert_one
convert_registers_to_gas f = record f {
  x_pm1a_evt_blk = convert_one f.pm1a_evt_blk f.pm1_evt_len f.x_pm1a_evt_blk;
  x_pm1b_evt_blk = convert_one f.pm1b_evt_blk f.pm1_evt_len f.x_pm1b_evt_blk;
  x_pm1a_cnt_blk = convert_one f.pm1a_cnt_blk f.pm1_cnt_len f.x_pm1a_cnt_blk;
  x_pm1b_cnt_blk = convert_one f.pm1b_cnt_blk f.pm1_cnt_len f.x_pm1b_cnt_blk;
  x_pm2_cnt_blk = convert_one f.pm2_cnt_blk f.pm2_cnt_len f.x_pm2_cnt_blk;
  x_pm_tmr_blk = convert_one f.pm_tmr_blk f.pm_tmr_len f.x_pm_tmr_blk;
  x_gpe0_blk = convert_one f.gpe0_blk f.gpe0_blk_len f.x_gpe0_blk;
  x_gpe1_blk = convert_one f.gpe1_blk f.gpe1_blk_len f.x_gpe1_blk;
}

-- A block of status and enable registers is cut in halves, unless it has no address.
unfoldable pub split_one_block : Gas → Gas → Gas → Gas × Gas
unfolding gas_init_system_io
split_one_block src dst0 dst1 =
    let byte_length = src.register_bit_width / 8 / 2 in
    if src.address == 0 then (dst0, dst1) else (
      gas_init_system_io src.address byte_length,
      gas_init_system_io ((src.address + byte_length) % 2 ^ 64) byte_length,
    )
