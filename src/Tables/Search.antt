-- ===== src/Tables/Search.antt =====
-- source/tables.c: searches through the tables.
pub mod Laws
use u_acpi.Base.{
  ℕ, zero, suc, ◌+◌, ◌-◌, Bool, true, false, ◌&&◌, ◌||◌, not, ◌==◌, if◌then◌else◌, Option, none,
  some, Status, ok, err, Error, not_found, bad_checksum, invalid_argument, init_level_mismatch,
}
use u_acpi.Host.{LockHost}
use u_acpi.Mutex.Native.{acquire_native_may_be_null, release_native_may_be_null}
use u_acpi.Stdlib.Memory.{Memory, memcmp}
use u_acpi.Tables.Array.{DynamicArray, at, put}
use u_acpi.Tables.Table.{
  InstalledTable, TableHost, has, invalid, is_zero, signatures_match, table_ref,
}
use u_acpi.Tables.Control.{State, is_open, unlock, unref_at}

-- `uacpi_table_identifiers`.
pub record Identifiers : Type 0 where
  pub signature : Memory
  pub oemid : Memory
  pub oem_table_id : Memory

-- `union` and `search_type` of `struct table_search_ctx`.
pub data SearchType : Type 0 where
  by_id : Identifiers → SearchType
  match_cb : (InstalledTable → Bool) → SearchType

-- A text of `n` bytes that is empty is not compared.
unfoldable pub same_or_empty : Memory → Memory → ℕ → Bool
unfolding is_zero
same_or_empty wanted text n = (wanted 0 == 0) || is_zero (memcmp wanted text n)

unfoldable pub is_sought : SearchType → InstalledTable → Bool
unfolding signatures_match same_or_empty
is_sought (by_id id) tbl =
    signatures_match id.signature tbl.hdr.signature
    && same_or_empty id.oemid tbl.hdr.oemid 6
    && same_or_empty id.oem_table_id tbl.hdr.oem_table_id 8
is_sought (match_cb f) tbl = f tbl

-- What a search gives: the table's pointer and index.
pub record Found : Type 0 where
  pub ptr : ℕ
  pub index : ℕ

unfoldable pub is_bad_checksum : Error → Bool
is_bad_checksum bad_checksum = true
is_bad_checksum e = false

module _ {W : Type 0} (l : LockHost W) (h : TableHost W) where
  -- A callback of `uacpi_for_each_table`: whether to break, its result, the table and the world.
  abbrev pub Callback : Type 0 → Type 0
  Callback U = U → InstalledTable → ℕ → W → Bool × U × InstalledTable × W

  -- The loop from table `idx`, with `n` tables left.
  unfoldable pub each_from :
      {U : Type 0}
      → Callback U
      → ℕ
      → ℕ
      → U
      → DynamicArray InstalledTable
      → W
      → U × DynamicArray InstalledTable × W
  each_from cb zero idx u tables w = (u, tables, w)
  each_from cb (suc n) idx u tables w = elim (at tables idx) [
    | none ↦ (u, tables, w)
    | some tbl ↦
        let (stop, u', tbl', w') = cb u tbl idx w in
        let tables' = put tables idx tbl' in
        let skipped = each_from cb n (idx + 1) u tables w in
        let rest = each_from cb n (idx + 1) u' tables' w' in
        if has tbl.flags invalid then skipped else (if stop then (u', tables', w') else rest)
  ]

  unfoldable pub for_each_table : {U : Type 0} → ℕ → Callback U → U → State W → Status × U × State W
  unfolding each_from
  for_each_table base cb u s =
      let (ret, w) = acquire_native_may_be_null l s.table_mutex s.world in
      let count = s.tables.size_including_inline - base in
      let (u', tables, w') = each_from cb count base u s.tables w in
      if not (is_open l h s) then (err init_level_mismatch, u, s) else (elim ret [
        | ok ↦ (ok, u', unlock l h (record s { world = w'; tables = tables }))
        | err e ↦ (err e, u, record s { world = w })
      ])

  -- The result is the search's status and, if that is OK, the table found.
  unfoldable pub do_search_tables : SearchType → Callback (Status × Found)
  unfolding is_bad_checksum
  do_search_tables search u tbl idx w =
      let (ret, tbl', w') = table_ref h tbl w in
      let found : Found = record { ptr = tbl'.ptr; index = idx } in
      let failed : Bool × (Status × Found) × InstalledTable × W = elim ret [
        | ok ↦ (true, (ok, found), tbl', w')
        | err e ↦ if is_bad_checksum e then (false, u, tbl', w') else (true, (err e, u.1), tbl', w')
      ] in
      if is_sought search tbl then failed else (false, u, tbl, w)

  -- `uacpi_table_match` and `find_table`.
  unfoldable pub search_tables : ℕ → SearchType → Found → State W → Status × Found × State W
  unfolding for_each_table do_search_tables
  search_tables base search out s =
      let (ret, (status, found), t) =
        for_each_table base (do_search_tables search) (err not_found, out) s in
      elim ret [ ok ↦ (status, found, t) | err e ↦ (err e, out, t) ]

  unfoldable pub table_find : Identifiers → Found → State W → Status × Found × State W
  unfolding search_tables
  table_find id out s =
      if is_open l h s then search_tables 0 (by_id id) out s else (err init_level_mismatch, out, s)

  -- `signature` is the table's own one, through its pointer.
  unfoldable pub find_next_with_same_signature : Memory → Found → State W → Status × Found × State W
  unfolding search_tables
  find_next_with_same_signature signature tbl s =
      let (ignored, t) = unref_at l h tbl.index s in
      let id : Identifiers = record {
        signature = signature;
        oemid = λ i. 0;
        oem_table_id = λ i. 0;
      } in
      if not (is_open l h s)
      then (err init_level_mismatch, tbl, s)
      else (if tbl.ptr == 0
          then (err invalid_argument, tbl, s)
          else search_tables (tbl.index + 1) (by_id id) tbl t)

  unfoldable pub find_by_signature : Memory → Found → State W → Status × Found × State W
  unfolding search_tables
  find_by_signature text out s =
      let id : Identifiers = record { signature = text; oemid = λ i. 0; oem_table_id = λ i. 0 } in
      if is_open l h s then search_tables 0 (by_id id) out s else (err init_level_mismatch, out, s)
