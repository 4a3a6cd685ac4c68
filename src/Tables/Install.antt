-- ===== src/Tables/Install.antt =====
-- source/tables.c: the installation of tables. A FADT installs the DSDT that it points to, and the
-- host's handler may put another table in a table's place, so each call has a depth left.
pub mod Laws
use u_acpi.Base.{
  ℕ, zero, suc, ◌+◌, ◌-◌, ◌%◌, ◌^◌, Bool, true, false, ◌&&◌, ◌||◌, not, ◌==◌, if◌then◌else◌, ltb,
  bit_and, bit_or, List, [], ◌∷◌, get_or, Option, none, some, Status, ok, err, Error,
  mapping_failed, invalid_table_length, denied, overridden, internal_error, init_level_mismatch,
}
use u_acpi.Host.{LockHost, MemoryHost}
use u_acpi.Mutex.Native.{acquire_native_may_be_null}
use u_acpi.Stdlib.Memory.{Memory}
use u_acpi.Gas.Access.{Gas}
use u_acpi.Tables.Array.{put}
use u_acpi.Tables.Table.{
  SdtHdr, Origin, host_virtual, host_physical, firmware_physical, firmware_virtual, InstalledTable,
  csum_verified, TableHost, signatures_match, verify_table_checksum, check_table_signature,
}
use u_acpi.Tables.Control.{State, table_alloc, unlock, is_open}
use u_acpi.Tables.Search.{Found}
use u_acpi.Tables.Fadt.{
  Fadt, ensure_correct_revision, clear_reserved, convert_registers_to_gas, split_one_block,
}

-- `uacpi_table_installation_disposition`.
pub data Disposition : Type 0 where
  allow deny virtual_override physical_override other_disposition : Disposition

-- The header and the FADT behind a pointer, the FADT's bytes laid over the one that is there; the
-- call of the installation handler; and UACPI_FLAG_PROACTIVE_TBL_CSUM.
pub record InstallHost (W : Type 0) : Type 0 where
  pub header_at : ℕ → W → SdtHdr
  pub fadt_at : ℕ → W → Fadt → Fadt
  pub call_handler : ℕ → ℕ → W → Disposition × ℕ × W
  pub proactive_tbl_csum : Bool

-- The state of the tables, and what `g_uacpi_rt_ctx` has of the FADT.
pub record InstallState (W : Type 0) : Type 0 where
  pub state : State W
  pub fadt : Fadt
  pub is_rev1 : Bool
  pub is_hardware_reduced : Bool
  pub pm1a_status_blk : Gas
  pub pm1a_enable_blk : Gas
  pub pm1b_status_blk : Gas
  pub pm1b_enable_blk : Gas

-- ACPI_FADT_SIGNATURE, ACPI_FACS_SIGNATURE and ACPI_DSDT_SIGNATURE.
abbrev pub fadt_signature : Memory
fadt_signature i = get_or (b'F' ∷ b'A' ∷ b'C' ∷ b'P' ∷ []) i 0

abbrev pub facs_signature : Memory
facs_signature i = get_or (b'F' ∷ b'A' ∷ b'C' ∷ b'S' ∷ []) i 0

abbrev pub dsdt_signature : Memory
dsdt_signature i = get_or (b'D' ∷ b'S' ∷ b'D' ∷ b'T' ∷ []) i 0

-- What is to be installed: a table at a physical address, with the signature that is expected, or one
-- that is mapped already.
pub data Target : Type 0 where
  physical : ℕ → Option Memory → Target
  virtual : ℕ → Target

unfoldable pub is_firmware_physical : Origin → Bool
is_firmware_physical firmware_physical = true
is_firmware_physical o = false

unfoldable pub is_firmware_virtual : Origin → Bool
is_firmware_virtual firmware_virtual = true
is_firmware_virtual o = false

-- sizeof(struct acpi_sdt_hdr).
abbrev pub hdr_size : ℕ
hdr_size = 36

module _ {W : Type 0} (l : LockHost W) (h : TableHost W) (m : MemoryHost W) (i : InstallHost W)
    (junk : InstalledTable) where
  -- A result is the status and, if a table was asked for, what was found.
  abbrev pub Result : Type 0
  Result = Status × Option Found × InstallState W

  abbrev pub in_world : InstallState W → W → InstallState W
  in_world s w = record s { state = record (s.state) { world = w } }

  unfoldable pub split_event_blocks : InstallState W → InstallState W
  split_event_blocks s =
      let (a_status, a_enable) =
        split_one_block (s.fadt.x_pm1a_evt_blk) s.pm1a_status_blk s.pm1a_enable_blk in
      let (b_status, b_enable) =
        split_one_block (s.fadt.x_pm1b_evt_blk) s.pm1b_status_blk s.pm1b_enable_blk in
      record s {
        pm1a_status_blk = a_status;
        pm1a_enable_blk = a_enable;
        pm1b_status_blk = b_status;
        pm1b_enable_blk = b_enable;
      }

  -- `initialize_fadt`, given the installation of the DSDT.
  unfoldable pub initialize_fadt :
      (ℕ → InstallState W → Result) → ℕ → InstallState W → Status × InstallState W
  unfolding split_event_blocks
  initialize_fadt install_dsdt virt s =
      let raw = i.fadt_at virt (s.state.world) s.fadt in
      let reduced = not (bit_and raw.flags (2 ^ 20) == 0) in
      let fixed = clear_reserved (ensure_correct_revision raw) in
      let pointed : Fadt = record fixed {
        x_dsdt = if fixed.x_dsdt == 0 then fixed.dsdt else fixed.x_dsdt;
      } in
      let s1 : InstallState W = record s { fadt = pointed; is_hardware_reduced = reduced } in
      let (ret, found, s2) = install_dsdt pointed.x_dsdt s1 in
      let after = λ (t : InstallState W).
        let f = t.fadt in
        let f1 : Fadt = record f {
          x_firmware_ctrl = if f.firmware_ctrl == 0 then f.x_firmware_ctrl else f.firmware_ctrl;
        } in
        let t1 : InstallState W = record t { fadt = f1 } in
        let t2 : InstallState W = record t { fadt = convert_registers_to_gas f1 } in
        let r : Status × InstallState W =
          (ok, if t.is_hardware_reduced then t1 else split_event_blocks t2) in
        r in
      if pointed.x_dsdt == 0
      then after s1
      else (elim ret [ ok ↦ after s2 | err overridden ↦ after s2 | err e ↦ (err e, s2) ])

  -- The part of `verify_and_install_table` from the allocation on.
  unfoldable pub store_table : SdtHdr → ℕ → ℕ → ℕ → Origin → Bool → InstallState W → Result
  store_table hdr phys virt flags origin wanted s =
      let (ret, idx, t) = table_alloc l h m junk s.state in
      let tbl : InstalledTable = record {
        phys_addr = phys;
        hdr = hdr;
        ptr = virt;
        reference_count = if wanted then 1 else 0;
        flags = flags;
        origin = origin;
      } in
      let stored : InstallState W = record s {
        state = record t { tables = put t.tables idx tbl };
      } in
      let found : Option Found =
        if wanted then some (record { ptr = virt; index = idx }) else none in
      elim ret [ ok ↦ (ok, found, stored) | err e ↦ (err e, none, record s { state = t }) ]

  unfoldable pub verify_and_install_table :
      (ℕ → InstallState W → Result) → SdtHdr → ℕ → ℕ → Origin → Bool → InstallState W → Result
  unfolding initialize_fadt store_table
  verify_and_install_table install_dsdt hdr phys virt origin wanted s =
      let is_fadt = signatures_match hdr.signature fadt_signature in
      let is_facs = signatures_match hdr.signature facs_signature in
      let (mapping, w1) =
        if virt == 0 then h.map_table phys hdr.length (s.state.world) else (virt, s.state.world) in
      let s1 = in_world s w1 in
      let unmapped = λ (t : InstallState W).
        if virt == 0 then in_world t (h.unmap_table mapping hdr.length (t.state.world)) else t in
      let (ret, s2) = if is_fadt then initialize_fadt install_dsdt mapping s1 else (ok, s1) in
      let install = λ (flags : ℕ) (t : InstallState W).
        let rev1 =
          if signatures_match hdr.signature dsdt_signature then ltb hdr.revision 2 else t.is_rev1 in
        let r : Result =
          store_table hdr phys virt flags origin wanted (record t { is_rev1 = rev1 }) in
        r in
      let verified : Result = elim (verify_table_checksum h (h.bytes_at mapping w1) hdr.length) [
        | ok ↦ elim ret [
          | ok ↦ install csum_verified (unmapped s2)
          | err e ↦ (err e, none, unmapped s2)
        ]
        | err e ↦ (err e, none, unmapped s1)
      ] in
      if is_facs
      then install csum_verified s
      else (if i.proactive_tbl_csum || is_fadt || wanted
          then (if mapping == 0 then (err mapping_failed, none, s1) else verified)
          else install 0 s)

  -- `get_external_table_header`.
  unfoldable pub get_external_table_header : ℕ → W → Status × SdtHdr × W
  get_external_table_header phys w =
      let (virt, w1) = h.map_table phys hdr_size w in
      let hdr = i.header_at virt w1 in
      if virt == 0 then (err mapping_failed, hdr, w1) else (ok, hdr, h.unmap_table virt hdr_size w1)

  -- What a handler's answer leads to: the installation goes on, ends, or is that of another table.
  unfoldable pub ask_handler :
      (Disposition → ℕ → InstallState W → Result)
      → (InstallState W → Result)
      → ℕ
      → InstallState W
      → Result
  ask_handler override go_on virt s =
      let (disposition, address, w) =
        i.call_handler (s.state.installation_handler) virt (s.state.world) in
      let t = in_world s w in
      let (ret, found, t') = override disposition address t in
      let replaced : Result = elim ret [
        | ok ↦ (err overridden, found, t')
        | err e ↦ (err e, found, t')
      ] in
      elim disposition [
        | allow ↦ go_on t
        | deny ↦ (err denied, none, t)
        | virtual_override ↦ replaced
        | physical_override ↦ replaced
        | other_disposition ↦ replaced
      ]

  -- `out:` of the installation by a physical address. The mapping is kept only for a table that was
  -- asked for and installed.
  unfoldable pub conclude : Bool → ℕ → ℕ → Result → Result
  conclude wanted virt len result =
      let (done, found, t) = result in
      let unmapped = if virt == 0 then t else in_world t (h.unmap_table virt len (t.state.world)) in
      elim done [ ok ↦ (ok, found, if wanted then t else unmapped) | err e ↦ (ok, found, unmapped) ]

  -- The checks before it, in their order: the header, its length, its signature, and the mapping.
  unfoldable pub physical_checks :
      Status → Bool → Status → Bool → InstallState W → InstallState W → Result → Result
  physical_checks ret is_short signed is_unmapped s1 s2 ends =
      let mapped : Result = if is_unmapped then (err mapping_failed, none, s2) else ends in
      let long : Result = elim signed [ ok ↦ mapped | err e ↦ (err e, none, s1) ] in
      elim ret [
        | ok ↦ if is_short then (err invalid_table_length, none, s1) else long
        | err e ↦ (err e, none, s1)
      ]

  -- The check of a header's signature, where one is expected.
  unfoldable pub check_expected_signature : SdtHdr → Option Memory → Status
  check_expected_signature hdr expected = elim expected [
    | none ↦ ok
    | some signature ↦ check_table_signature h hdr.signature signature
  ]

  -- `table_install_physical_with_origin_unlocked`, given the two further installations.
  unfoldable pub install_physical_by :
      (ℕ → InstallState W → Result)
      → (Disposition → ℕ → InstallState W → Result)
      → ℕ
      → Option Memory
      → Origin
      → Bool
      → InstallState W
      → Result
  unfolding verify_and_install_table get_external_table_header ask_handler is_firmware_physical
      conclude physical_checks check_expected_signature
  install_physical_by install_dsdt override phys expected origin wanted s =
      let (ret, hdr, w1) = get_external_table_header phys (s.state.world) in
      let signed = check_expected_signature hdr expected in
      let has_handler = not (s.state.installation_handler == 0) in
      let maps = has_handler || wanted in
      let (virt, w2) = if maps then h.map_table phys hdr.length w1 else (0, w1) in
      let go_on = λ (t : InstallState W).
        verify_and_install_table install_dsdt hdr phys virt origin wanted t in
      let asks = is_firmware_physical origin && has_handler in
      let ends =
        conclude wanted virt hdr.length (
          if asks
          then ask_handler override go_on virt (in_world s w2)
          else go_on (in_world s w2)) in
      physical_checks ret (ltb hdr.length hdr_size) signed (maps && (virt == 0)) (in_world s w1)
        (in_world s w2) ends

  -- `table_install_with_origin_unlocked`, in the same way.
  unfoldable pub install_virtual_by :
      (ℕ → InstallState W → Result)
      → (Disposition → ℕ → InstallState W → Result)
      → ℕ
      → Origin
      → Bool
      → InstallState W
      → Result
  unfolding verify_and_install_table ask_handler is_firmware_virtual
  install_virtual_by install_dsdt override virt origin wanted s =
      let hdr = i.header_at virt (s.state.world) in
      let go_on =
        λ (t : InstallState W). verify_and_install_table install_dsdt hdr 0 virt origin wanted t in
      let asks = is_firmware_virtual origin && not (s.state.installation_handler == 0) in
      if ltb hdr.length hdr_size
      then (err invalid_table_length, none, s)
      else (if asks then ask_handler override go_on virt s else go_on s)

  -- `handle_table_override`, given the installation of a table.
  unfoldable pub handle_table_override :
      (Target → Origin → Bool → InstallState W → Result)
      → Bool
      → Disposition
      → ℕ
      → InstallState W
      → Result
  handle_table_override install wanted disposition address s = elim disposition [
    | allow ↦ (err internal_error, none, s)
    | deny ↦ (err internal_error, none, s)
    | virtual_override ↦ install (virtual address) host_virtual wanted s
    | physical_override ↦ install (physical address none) host_physical wanted s
    | other_disposition ↦ (err internal_error, none, s)
  ]

  -- Both installations, with `n` nested ones left; at none it gives up, where the code goes on.
  unfoldable pub install : ℕ → Target → Origin → Bool → InstallState W → Result
  unfolding install_physical_by install_virtual_by handle_table_override
  install zero target origin wanted s = (err internal_error, none, s)
  install (suc n) target origin wanted s =
      let dsdt = λ (address : ℕ) (t : InstallState W).
        install n (physical address (some dsdt_signature)) firmware_physical false t in
      let override = handle_table_override (install n) wanted in
      elim target [
        | physical phys expected ↦ install_physical_by dsdt override phys expected origin wanted s
        | virtual virt ↦ install_virtual_by dsdt override virt origin wanted s
      ]

  -- `uacpi_table_install_physical_with_origin` and `uacpi_table_install_with_origin`.
  unfoldable pub install_with_origin : ℕ → Target → Origin → Bool → InstallState W → Result
  unfolding install
  install_with_origin n target origin wanted s =
      let (ret, w) = acquire_native_may_be_null l (s.state.table_mutex) (s.state.world) in
      let (ret', found, t) = install n target origin wanted (in_world s w) in
      elim ret [
        | ok ↦ (ret', found, record t { state = unlock l h (t.state) })
        | err e ↦ (err e, none, in_world s w)
      ]

  -- `uacpi_table_install` and `uacpi_table_install_physical`.
  unfoldable pub table_install : ℕ → Target → Bool → InstallState W → Result
  unfolding install_with_origin
  table_install n target wanted s =
      let origin : Origin = elim target [
        | physical a e ↦ host_physical
        | virtual v ↦ host_virtual
      ] in
      if is_open l h (s.state)
      then install_with_origin n target origin wanted s
      else (err init_level_mismatch, none, s)
