-- ===== src/Registers/Table.antt =====
-- source/registers.c: the tables of registers and of their fields, with the masks of
-- include/uacpi/acpi.h. The kind of a register is that of its accessors.
use u_acpi.Base.{ℕ, ◌-◌, ◌*◌, ◌^◌, Option, none, some, List, [], ◌∷◌, get_or}
use u_acpi.Gas.Access.{Gas}

-- `accessor0` and `accessor1`: a GAS, or the `uacpi_u32` port of REGISTER_KIND_IO.
pub data Accessor : Type 0 where
  gas : Gas → Accessor
  port : ℕ → Accessor

-- REGISTER_KIND_GAS and REGISTER_KIND_IO.
abbrev pub kind_of : Accessor → ℕ
kind_of (gas g) = 0
kind_of (port p) = 1

-- REGISTER_ACCESS_KIND_PRESERVE, REGISTER_ACCESS_KIND_WRITE_TO_CLEAR, REGISTER_ACCESS_KIND_NORMAL.
abbrev pub preserve : ℕ
preserve = 0

abbrev pub write_to_clear : ℕ
write_to_clear = 1

abbrev pub normal : ℕ
normal = 2

pub record RegisterSpec : Type 0 where
  pub access_kind : ℕ
  pub access_width : ℕ
  pub accessor0 : Accessor
  pub accessor1 : Option Accessor
  pub write_only_mask : ℕ
  pub preserve_mask : ℕ

-- The blocks of `g_uacpi_rt_ctx` that the registers lie in.
pub record Blocks : Type 0 where
  pub pm1a_status : Gas
  pub pm1b_status : Gas
  pub pm1a_enable : Gas
  pub pm1b_enable : Gas
  pub pm1a_control : Gas
  pub pm1b_control : Gas
  pub pm_timer : Gas
  pub pm2_control : Gas
  pub sleep_control : Gas
  pub sleep_status : Gas
  pub reset : Gas
  pub smi_cmd : ℕ

abbrev one_block : ℕ → Gas → ℕ → ℕ → RegisterSpec
one_block access g hidden kept = record {
  access_kind = access;
  access_width = 0;
  accessor0 = gas g;
  accessor1 = none;
  write_only_mask = hidden;
  preserve_mask = kept;
}

abbrev two_blocks : ℕ → Gas → Gas → ℕ → ℕ → RegisterSpec
two_blocks access g g' hidden kept = record (one_block access g hidden kept) {
  accessor1 = some (gas g');
}

abbrev smi_cmd_spec : ℕ → RegisterSpec
smi_cmd_spec address = record {
  access_kind = normal;
  access_width = 1;
  accessor0 = port address;
  accessor1 = none;
  write_only_mask = 0;
  preserve_mask = 0;
}

-- The masks: SLP_EN and GBL_RLS of PM1_CNT, its reserved bits, all but ARB_DIS of PM2_CNT, and
-- the like; ~ is taken at 64 bits.
abbrev register_list : Blocks → List RegisterSpec
register_list b =
    two_blocks write_to_clear b.pm1a_status b.pm1b_status 0 0x800
    ∷ two_blocks preserve b.pm1a_enable b.pm1b_enable 0 0
    ∷ two_blocks preserve b.pm1a_control b.pm1b_control 0x2004 0xc3f8
    ∷ one_block preserve b.pm_timer 0 0
    ∷ one_block preserve b.pm2_control 0 (2 ^ 64 - 1 - 1)
    ∷ one_block preserve b.sleep_control 0x20 0xc3
    ∷ one_block write_to_clear b.sleep_status 0 (2 ^ 64 - 1 - 0x80)
    ∷ one_block normal b.reset 0 0
    ∷ smi_cmd_spec b.smi_cmd
    ∷ []

-- UACPI_REGISTER_MAX + 1.
abbrev pub register_count : ℕ
register_count = 9

unfoldable pub registers : Blocks → ℕ → RegisterSpec
registers b i = get_or (register_list b) i (smi_cmd_spec b.smi_cmd)

pub record RegisterField : Type 0 where
  pub reg : ℕ
  pub offset : ℕ
  pub mask : ℕ

abbrev field_of : ℕ → ℕ → ℕ → RegisterField
field_of reg offset bits = record { reg = reg; offset = offset; mask = bits * 2 ^ offset }

abbrev pub pm1_sts : ℕ
pm1_sts = 0

abbrev pub pm1_en : ℕ
pm1_en = 1

abbrev pub pm1_cnt : ℕ
pm1_cnt = 2

abbrev pub pm2_cnt : ℕ
pm2_cnt = 4

abbrev pub slp_cnt : ℕ
slp_cnt = 5

abbrev pub slp_sts : ℕ
slp_sts = 6

-- In the order of `enum uacpi_register_field`: eight of PM1_STS and one of SLP_STS, then PM1_EN,
-- PM1_CNT with SLP_CNT between, and PM2_CNT.
abbrev field_list : List RegisterField
field_list =
    field_of pm1_sts 0 1
    ∷ field_of pm1_sts 4 1
    ∷ field_of pm1_sts 5 1
    ∷ field_of pm1_sts 8 1
    ∷ field_of pm1_sts 9 1
    ∷ field_of pm1_sts 10 1
    ∷ field_of pm1_sts 14 1
    ∷ field_of slp_sts 7 1
    ∷ field_of pm1_sts 15 1
    ∷ field_of pm1_en 0 1
    ∷ field_of pm1_en 5 1
    ∷ field_of pm1_en 8 1
    ∷ field_of pm1_en 9 1
    ∷ field_of pm1_en 10 1
    ∷ field_of pm1_en 14 1
    ∷ field_of pm1_cnt 0 1
    ∷ field_of pm1_cnt 1 1
    ∷ field_of pm1_cnt 2 1
    ∷ field_of pm1_cnt 10 7
    ∷ field_of slp_cnt 2 7
    ∷ field_of pm1_cnt 13 1
    ∷ field_of slp_cnt 5 1
    ∷ field_of pm2_cnt 0 1
    ∷ []

-- UACPI_REGISTER_FIELD_MAX + 1.
abbrev pub field_count : ℕ
field_count = 23

unfoldable pub fields : ℕ → RegisterField
fields i = get_or field_list i (field_of pm1_sts 0 1)
