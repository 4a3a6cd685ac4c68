-- ===== src/Tables/Control.antt =====
-- source/tables.c: the list of tables under the table mutex, and the requests to one table.
pub mod Laws
use u_acpi.Base.{
  ℕ, ◌-◌, Bool, true, false, ◌&&◌, ◌||◌, not, ◌==◌, if◌then◌else◌, ltb, leb, bit_and, bit_or,
  Option, none, some, Status, ok, err, out_of_memory, invalid_argument, already_exists,
  init_level_mismatch,
}
use u_acpi.Host.{LockHost, MemoryHost}
use u_acpi.Mutex.Native.{acquire_native_may_be_null, release_native_may_be_null}
use u_acpi.Tables.Array.{DynamicArray, capacity, at, put, alloc}
use u_acpi.Tables.Table.{InstalledTable, TableHost, has, loaded, invalid, table_ref, table_unref}

-- The handler that the host sets is a number, 0 for UACPI_NULL.
pub record State (W : Type 0) : Type 0 where
  pub world : W
  pub init_level : ℕ
  pub tables : DynamicArray InstalledTable
  pub early_table_access : Bool
  pub installation_handler : ℕ
  pub table_mutex : ℕ

-- `struct table_ctl_request`, with one Boolean for each bit of `type`.
pub record Request : Type 0 where
  pub set_flags : Bool
  pub clear_flags : Bool
  pub validate_set_flags : Bool
  pub validate_clear_flags : Bool
  pub get : Bool
  pub put : Bool
  pub expect_set : ℕ
  pub expect_clear : ℕ
  pub set : ℕ
  pub clear : ℕ

abbrev no_request : Request
no_request = record {
  set_flags = false;
  clear_flags = false;
  validate_set_flags = false;
  validate_clear_flags = false;
  get = false;
  put = false;
  expect_set = 0;
  expect_clear = 0;
  set = 0;
  clear = 0;
}

abbrev pub load_request : Request
load_request = record no_request {
  set_flags = true;
  validate_clear_flags = true;
  get = true;
  set = loaded;
  expect_clear = loaded;
}

abbrev pub mark_request : Request
mark_request = record no_request { set_flags = true; set = loaded }

abbrev pub get_request : Request
get_request = record no_request { get = true }

abbrev pub put_request : Request
put_request = record no_request { put = true }

module _ {W : Type 0} (l : LockHost W) (h : TableHost W) where
  abbrev pub unlock : State W → State W
  unlock s = record s { world = (release_native_may_be_null l s.table_mutex s.world).1 }

  -- What the early access or the level must allow.
  abbrev pub is_open : State W → Bool
  is_open s = s.early_table_access || leb 1 s.init_level

  unfoldable pub set_table_installation_handler : ℕ → State W → Status × State W
  set_table_installation_handler handler s =
      let (ret, w) = acquire_native_may_be_null l s.table_mutex s.world in
      let inside : State W = record s { world = w } in
      let updated : State W = record inside { installation_handler = handler } in
      let kept = not (s.installation_handler == 0) && not (handler == 0) in
      elim ret [ ok ↦ (ok, unlock (if kept then inside else updated)) | err e ↦ (err e, inside) ]

  -- A new table, at the end of the array; the buffer for early access cannot grow.
  unfoldable pub table_alloc : MemoryHost W → InstalledTable → State W → Status × ℕ × State W
  table_alloc m junk s =
      let exhausted =
        s.early_table_access && (s.tables.size_including_inline == capacity s.tables) in
      let (success, tables, w) = alloc m junk s.tables s.world in
      let t : State W = record s { tables = tables; world = w } in
      if exhausted
      then (err out_of_memory, 0, s)
      else (if success
          then (ok, tables.size_including_inline - 1, t)
          else (err out_of_memory, 0, t))

  -- The part of a request behind the two checks of the flags. It answers the table's pointer.
  unfoldable pub take_references : Request → InstalledTable → W → Status × ℕ × InstalledTable × W
  take_references req tbl w =
      let (ret, tbl1, w1) = if req.get then table_ref h tbl w else (ok, tbl, w) in
      let (ret', tbl2, w2) = if req.put then table_unref h tbl1 w1 else (ok, tbl1, w1) in
      let with_set = if req.set_flags then bit_or tbl2.flags req.set else tbl2.flags in
      let flags = if req.clear_flags then bit_and with_set (0xff - req.clear) else with_set in
      let done : InstalledTable = record tbl2 { flags = flags } in
      elim ret [
        | ok ↦ elim ret' [ ok ↦ (ok, tbl1.ptr, done, w2) | err e ↦ (err e, tbl1.ptr, tbl2, w2) ]
        | err e ↦ (err e, 0, tbl1, w1)
      ]

  unfoldable pub request_on : Request → InstalledTable → W → Status × ℕ × InstalledTable × W
  unfolding take_references
  request_on req tbl w =
      if req.validate_set_flags && not (bit_and tbl.flags req.expect_set == req.expect_set)
      then (err invalid_argument, 0, tbl, w)
      else (if req.validate_clear_flags && not (bit_and tbl.flags req.expect_clear == 0)
          then (err already_exists, 0, tbl, w)
          else take_references req tbl w)

  -- `table_ctl`, with the pointer that `out_tbl` gets. An invalid table returns at once.
  unfoldable pub table_ctl : ℕ → Request → State W → Status × ℕ × State W
  unfolding request_on
  table_ctl idx req s =
      let (ret, w) = acquire_native_may_be_null l s.table_mutex s.world in
      let inside : State W = record s { world = w } in
      let answer = λ (tbl : InstalledTable).
        let (ret', out, tbl', w') = request_on req tbl w in
        let t : State W = record s { world = w'; tables = put s.tables idx tbl' } in
        let r : Status × ℕ × State W = (ret', out, unlock t) in
        if has tbl.flags invalid then (err invalid_argument, 0, inside) else r in
      let locked : Status × ℕ × State W = elim (at s.tables idx) [
        | none ↦ (err invalid_argument, 0, unlock inside)
        | some tbl ↦ answer tbl
      ] in
      if not (is_open s)
      then (err init_level_mismatch, 0, s)
      else (elim ret [ ok ↦ locked | err e ↦ (err e, 0, inside) ])

  -- `execute` is `uacpi_execute_table`, given the table and the cause of its loading.
  unfoldable pub table_load_with_cause :
      (ℕ → ℕ → State W → Status × State W) → ℕ → ℕ → State W → Status × State W
  unfolding table_ctl
  table_load_with_cause execute idx cause s =
      let (ret, out, s1) = table_ctl idx load_request s in
      let (ret', s2) = execute out cause s1 in
      let (ignored, out', s3) = table_ctl idx put_request s2 in
      elim ret [ ok ↦ (ret', s3) | err e ↦ (err e, s1) ]

  unfoldable pub table_mark_as_loaded : ℕ → State W → State W
  unfolding table_ctl
  table_mark_as_loaded idx s = (table_ctl idx mark_request s).2

  -- `uacpi_table_ref` and `uacpi_table_unref`, of the table with this index.
  unfoldable pub ref_at : ℕ → State W → Status × State W
  unfolding table_ctl
  ref_at idx s = let (ret, out, t) = table_ctl idx get_request s in (ret, t)

  unfoldable pub unref_at : ℕ → State W → Status × State W
  unfolding table_ctl
  unref_at idx s = let (ret, out, t) = table_ctl idx put_request s in (ret, t)
