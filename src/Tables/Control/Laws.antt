-- ===== src/Tables/Control/Laws.antt =====
-- What the requests to a table in source/tables.c promise, and where they keep the mutex.
use u_acpi.Base.{
  ℕ, ◌≡◌, ◌≢◌, refl, ap, inl, inr, true, false, bit_and, bit_or, some, Option-cases, Status-cases,
  ok, err, Error, invalid_argument, already_exists, arith,
}
use u_acpi.Base.Bits.{bit, bit-and, bit-or, bit-zero}
use u_acpi.Host.{LockHost, LockLaws}
use u_acpi.Mutex.Native.{acquire_native_may_be_null, release_native_may_be_null}
use u_acpi.Tables.Array.{at}
use u_acpi.Tables.Table.{
  InstalledTable, TableHost, has, invalid, loaded, map_first, table_ref, table_unref,
}
use u_acpi.Tables.Control.{
  State, Request, load_request, is_open, take_references, request_on, table_ctl,
}

-- Mapping acquires and releases no mutex that `held` counts.
pub record MapLocks {W : Type 0} (h : TableHost W) (held : W → ℕ → ℕ) : Type 0 where
  pub map_held : (a n : ℕ) (w : W) (j : ℕ) → held (h.map_table a n w).1 j ≡ held w j
  pub unmap_held : (p n : ℕ) (w : W) (j : ℕ) → held (h.unmap_table p n w) j ≡ held w j

module _ {W : Type 0} (l : LockHost W) (laws : LockLaws l) (h : TableHost W)
    (locks : MapLocks h laws.held) where
  open laws use {held, acquire_ok, acquire_free, acquire_err, release_held}
  open locks use {map_held, unmap_held}

  pub table_ref-held : (t : InstalledTable) (w : W) (j : ℕ) → held (table_ref h t w).2 j ≡ held w j
  unfolding table_ref map_first
  table_ref-held t w j =
      let p = h.map_table t.phys_addr t.hdr.length w in
      ground (arith, map_held t.phys_addr t.hdr.length w j, unmap_held p.0 t.hdr.length p.1 j)

  table_unref-held : (t : InstalledTable) (w : W) (j : ℕ) → held (table_unref h t w).2 j ≡ held w j
  unfolding table_unref
  table_unref-held t w j = ground (arith, unmap_held t.ptr t.hdr.length w j)

  request_on-held :
      (req : Request) (t : InstalledTable) (w : W) (j : ℕ)
      → held (request_on l h req t w).3 j ≡ held w j
  unfolding request_on take_references
  request_on-held req t w j =
      let r = table_ref h t w in
      ground (
        arith,
        table_ref-held t w j,
        table_unref-held t w j,
        table_unref-held r.1 r.2 j,
        Status-cases r.0,
        Status-cases (table_unref h r.1 r.2).0,
        Status-cases (table_unref h t w).0,
      )

  -- Acquiring the mutex, if there is one, and releasing it behind steps that touch no mutex.
  pub around-held :
      (m : ℕ) (w v : W) (j : ℕ)
      → (acquire_native_may_be_null l m w).0 ≡ ok
      → ((i : ℕ) → held v i ≡ held (acquire_native_may_be_null l m w).1 i)
      → held (release_native_may_be_null l m v).1 j ≡ held w j
  unfolding acquire_native_may_be_null release_native_may_be_null
  around-held m w v j e same =
      ground
        (arith, e, same j, acquire_ok m 0xffff w j, acquire_free m 0xffff w, release_held m v j)

  pub acquire_fails-held :
      (m : ℕ) (w : W) (x : Error) (j : ℕ)
      → (acquire_native_may_be_null l m w).0 ≡ err x
      → held (acquire_native_may_be_null l m w).1 j ≡ held w j
  unfolding acquire_native_may_be_null
  acquire_fails-held m w x j e = ground (arith, e, acquire_err m 0xffff w x j)

  -- A request leaves held what was held before it, whatever its outcome, if the table that it asks
  -- for is not invalid.
  pub table_ctl-held :
      (idx : ℕ) (req : Request) (s : State W) (j : ℕ)
      → ((t : InstalledTable) → at s.tables idx ≡ some t → has t.flags invalid ≡ false)
      → held (table_ctl l h idx req s).2.world j ≡ held s.world j
  unfolding table_ctl
  table_ctl-held idx req s j valid =
      let a = acquire_native_may_be_null l s.table_mutex s.world in
      elim (Status-cases a.0) [
        | inl e ↦ elim (Option-cases (at s.tables idx)) [
          | inl n ↦ ground (arith, e, n, around-held s.table_mutex s.world a.1 j e (λ i. refl))
          | inr (t, q) ↦
              let r = request_on l h req t a.1 in
              ground (
                arith,
                e,
                q,
                valid t q,
                around-held s.table_mutex s.world r.3 j e (λ i. request_on-held req t a.1 i),
              )
        ]
        | inr (x, e) ↦ ground (arith, e, acquire_fails-held s.table_mutex s.world x j e)
      ]

  -- A request to an invalid table is refused, and the table mutex stays acquired.
  pub table_ctl-keeps :
      (idx : ℕ) (req : Request) (s : State W) (t : InstalledTable)
      → is_open l h s ≡ true
      → s.table_mutex ≢ 0
      → (acquire_native_may_be_null l s.table_mutex s.world).0 ≡ ok
      → at s.tables idx ≡ some t
      → has t.flags invalid ≡ true
      → let r = table_ctl l h idx req s in
        (r.0 ≡ err invalid_argument) × (held r.2.world s.table_mutex ≡ 1)
  unfolding table_ctl acquire_native_may_be_null
  table_ctl-keeps idx req s t o p e q v =
      ground (arith, o, p, e, q, v, acquire_ok s.table_mutex 0xffff s.world s.table_mutex)

loaded_bit : (flags : ℕ) → bit_and (bit_or flags loaded) loaded ≢ 0
loaded_bit flags e =
    let b = bit-and 0 (bit_or flags 1) 1 in
    omega (arith, b, bit-or 0 flags 1, ap (bit 0) e, bit-zero 0)

-- A table is loaded once: a request that marks it as loaded and succeeds makes every later one for
-- the same fail, and take no reference.
pub request_on_twice :
    {W : Type 0} (l : LockHost W) (h : TableHost W) (t : InstalledTable) (w v : W)
    → (request_on l h load_request t w).0 ≡ ok
    → let t' = (request_on l h load_request t w).2 in
      (request_on l h load_request t' v).0 ≡ err already_exists
      × ((request_on l h load_request t' v).2 ≡ t')
unfolding request_on take_references
request_on_twice l h t w v e =
    ground (arith, e, loaded_bit (table_ref h t w).1.flags, Status-cases (table_ref h t w).0)
