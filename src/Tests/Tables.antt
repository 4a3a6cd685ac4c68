-- ===== src/Tests/Tables.antt =====
-- Concrete tables of source/tables.c.
use u_acpi.Base.{
  ℕ, ◌+◌, ◌-◌, ◌≡◌, ◌≢◌, refl, true, false, some, none, [], ◌∷◌, ok, err, bad_checksum,
  invalid_argument, ◌==◌, if◌then◌else◌, leb, arith, ◌≤◌, ◌<◌,
}
use u_acpi.Base.{ap, sym}
use u_acpi.Mutex.Native.{acquire_native_may_be_null}
use u_acpi.Gas.Access.{Gas, system_io}
use u_acpi.Tables.Array.{DynamicArray, at, put}
use u_acpi.Stdlib.Memory.{memcmp, memcmp_from}
use u_acpi.Tables.Table.{
  check_table_signature, signatures_match, is_zero, SdtHdr, InstalledTable, TableHost,
  firmware_physical, is_physical, has, invalid, checksum_from, table_ref,
}
use u_acpi.Tables.Table.Laws.{MapLaws, uses, get, put_back, run, run-mappings}
use u_acpi.Tables.Control.{State, load_request, get_request, table_ctl}
use u_acpi.Tables.Control.Laws.{MapLocks, table_ctl-held, table_ctl-keeps}
use u_acpi.Tables.Search.{SearchType, match_cb, Found, is_sought, search_tables}
use u_acpi.Tables.Search.Laws.{Sought, Passed, search_tables-first, search_tables-not_found}
use u_acpi.Tables.Install.{
  check_expected_signature, InstallHost, InstallState, deny, physical, get_external_table_header,
  install,
}
use u_acpi.Tables.Install.Laws.{install-hides}
use u_acpi.Tables.Fadt.{Fadt, ensure_correct_revision}
use u_acpi.Tables.Fadt.Laws.{ensure_correct_revision_lem}
use u_acpi.Tests.World.{World, all_free, locks, lock_laws, blocks_of_memory}

-- A kernel whose world counts the mappings.
abbrev counting : TableHost ℕ
counting = record {
  map_table = λ a n w. (a, if a == 0 then w else w + 1);
  unmap_table = λ p n w. w - 1;
  bytes_at = λ p w b. 0;
  bad_csum_fatal = true;
  bad_tbl_signature_fatal = true;
}

counted : (a w : ℕ) → a ≢ 0 → (if a == 0 then w else w + 1) ≡ w + 1
counted a w p = ground (arith, p)

not_counted : (a w : ℕ) → a ≡ 0 → (if a == 0 then w else w + 1) ≡ w
not_counted a w p = ground (arith, p)

abbrev counting_laws : MapLaws counting
counting_laws = record {
  mappings = λ w. w;
  map_some = λ a n w p. counted a w p;
  map_none = λ a n w p. not_counted a w p;
  unmap_one = λ p n w. refl;
}

-- Where a table lies at 100, its bytes sum up to 0.
abbrev tables_host : TableHost World
tables_host = record {
  map_table = λ a n w. (a, w);
  unmap_table = λ p n w. w;
  bytes_at = λ p w b. if p == 100 then 0 else 1;
  bad_csum_fatal = true;
  bad_tbl_signature_fatal = true;
}

abbrev map_locks : MapLocks tables_host lock_laws.held
map_locks = record { map_held = λ a n w j. refl; unmap_held = λ p n w j. refl }

abbrev header : SdtHdr
header = record {
  signature = λ i. 65;
  length = 36;
  revision = 1;
  oemid = λ i. 66;
  oem_table_id = λ i. 67;
}

abbrev one_table : InstalledTable
one_table = record {
  phys_addr = 100;
  hdr = header;
  ptr = 0;
  reference_count = 0;
  flags = 0;
  origin = firmware_physical;
}

abbrev bad_table : InstalledTable
bad_table = record one_table { phys_addr = 200 }

abbrev broken_table : InstalledTable
broken_table = record one_table { flags = invalid }

abbrev stored : ℕ → InstalledTable
stored i = if i == 0 then bad_table else (if i == 1 then broken_table else one_table)

abbrev state : State World
state = record {
  world = all_free;
  init_level = 1;
  tables = record {
    inline_storage = stored;
    dynamic_storage = λ i. one_table;
    dynamic_capacity = 0;
    size_including_inline = 3;
  };
  early_table_access = false;
  installation_handler = 0;
  table_mutex = 7;
}

-- Only the first two tables are installed.
abbrev bad_state : State World
bad_state = record state {
  tables = record {
    inline_storage = stored;
    dynamic_storage = λ i. one_table;
    dynamic_capacity = 0;
    size_including_inline = 2;
  };
}

state_valid : (t : InstalledTable) → at state.tables 0 ≡ some t → has t.flags invalid ≡ false
unfolding at
state_valid t e = ap (λ o. elim o [ none ↦ false | some x ↦ has x.flags invalid ]) (sym e)

abbrev any_table : SearchType
any_table = match_cb (λ t. true)

abbrev nowhere : Found
nowhere = record { ptr = 0; index = 0 }

abbrev full_array : DynamicArray ℕ
full_array = record {
  inline_storage = λ i. i;
  dynamic_storage = λ i. i;
  dynamic_capacity = 4;
  size_including_inline = 20;
}

abbrev no_gas : Gas
no_gas = record {
  address_space_id = system_io;
  register_bit_width = 0;
  register_bit_offset = 0;
  access_size = 0;
  address = 0;
}

abbrev fadt : Fadt
fadt = record {
  hdr_length = 244;
  hdr_revision = 4;
  firmware_ctrl = 0;
  dsdt = 0;
  flags = 0;
  x_firmware_ctrl = 0;
  x_dsdt = 0;
  preferred_pm_profile = 0;
  pstate_cnt = 0;
  cst_cnt = 0;
  iapc_boot_arch = 0;
  pm1a_evt_blk = 0x600;
  pm1b_evt_blk = 0;
  pm1a_cnt_blk = 0x604;
  pm1b_cnt_blk = 0;
  pm2_cnt_blk = 0;
  pm_tmr_blk = 0x608;
  gpe0_blk = 0x620;
  gpe1_blk = 0;
  pm1_evt_len = 4;
  pm1_cnt_len = 2;
  pm2_cnt_len = 0;
  pm_tmr_len = 4;
  gpe0_blk_len = 16;
  gpe1_blk_len = 0;
  x_pm1a_evt_blk = no_gas;
  x_pm1b_evt_blk = no_gas;
  x_pm1a_cnt_blk = no_gas;
  x_pm1b_cnt_blk = no_gas;
  x_pm2_cnt_blk = no_gas;
  x_pm_tmr_blk = no_gas;
  x_gpe0_blk = no_gas;
  x_gpe1_blk = no_gas;
}

-- A handler that denies every table.
abbrev denying : InstallHost World
denying = record {
  header_at = λ p w. header;
  fadt_at = λ p w f. f;
  call_handler = λ handler virt w. (deny, 0, w);
  proactive_tbl_csum = false;
}

abbrev install_state : InstallState World
install_state = record {
  state = record state { installation_handler = 1 };
  fadt = fadt;
  is_rev1 = true;
  is_hardware_reduced = false;
  pm1a_status_blk = no_gas;
  pm1a_enable_blk = no_gas;
  pm1b_status_blk = no_gas;
  pm1b_enable_blk = no_gas;
}

run-mappings_example :
    let r = run counting (get ∷ get ∷ put_back ∷ []) one_table 0 in
    counting_laws.mappings r.1 ≡ 0 + uses r.0
unfolding is_physical
run-mappings_example =
    run-mappings counting counting_laws (get ∷ get ∷ put_back ∷ []) one_table 0 0 (omega arith)
      (ground arith)

table_ctl-held_example :
    lock_laws.held (table_ctl locks tables_host 0 load_request state).2.world 7
    ≡ lock_laws.held state.world 7
table_ctl-held_example =
    table_ctl-held locks lock_laws tables_host map_locks 0 load_request state 7 state_valid

table_ctl-keeps_example :
    let r = table_ctl locks tables_host 1 get_request state in
    (r.0 ≡ err invalid_argument) × (lock_laws.held r.2.world state.table_mutex ≡ 1)
unfolding acquire_native_may_be_null at
table_ctl-keeps_example =
    table_ctl-keeps locks lock_laws tables_host map_locks 1 get_request state broken_table refl
      (omega arith) refl refl refl

search_tables-first_example :
    let i = (search_tables locks tables_host 0 any_table nowhere state).1.index in
    (0 ≤ i)
    × (i < state.tables.size_including_inline)
    × Sought tables_host any_table state.tables
        (search_tables locks tables_host 0 any_table nowhere state).1
    × ((j : ℕ) → 0 ≤ j → j < i → Passed tables_host any_table state.tables j)
unfolding acquire_native_may_be_null search_tables at is_sought table_ref checksum_from put
search_tables-first_example =
    search_tables-first locks tables_host 0 any_table nowhere state refl refl (omega arith) refl

search_tables-not_found_example :
    (w : World) × ((table_ref tables_host bad_table w).0 ≡ err bad_checksum)
unfolding acquire_native_may_be_null search_tables at is_sought table_ref checksum_from put
search_tables-not_found_example =
    search_tables-not_found locks tables_host 0 any_table nowhere bad_state refl refl refl 0
      bad_table (omega arith) (omega arith) refl refl refl

ensure_correct_revision_lem_example :
    let n = fadt.hdr_length in
    (ensure_correct_revision fadt).hdr_revision ≡ (
      if leb n 116
      then 1
      else (if leb n 132
          then 2
          else (if leb n 244
              then (if fadt.hdr_revision == 4 then 4 else 3)
              else (if leb n 268 then 5 else 6))))
ensure_correct_revision_lem_example = ensure_correct_revision_lem fadt

install-hides_example :
    (install locks tables_host blocks_of_memory denying one_table 4
      (physical 100 (some header.signature))
      firmware_physical
      false
      install_state).0
    ≡ ok
unfolding get_external_table_header check_expected_signature check_table_signature signatures_match
    is_zero memcmp memcmp_from
install-hides_example =
    install-hides locks tables_host blocks_of_memory denying one_table 3 100 (some header.signature)
      firmware_physical false install_state refl (omega arith) refl (omega arith)
