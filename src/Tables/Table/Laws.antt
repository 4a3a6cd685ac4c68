-- ===== src/Tables/Table/Laws.antt =====
-- What the references to a table of source/tables.c promise.
use u_acpi.Base.{
  ℕ, zero, suc, ◌+◌, ◌-◌, ◌%◌, ◌^◌, ◌≤◌, ◌<◌, ◌≡◌, ◌≢◌, ◌∙◌, inl, inr, ◌||◌, not, ◌==◌,
  if◌then◌else◌, leb, List, [], ◌∷◌, Status-cases, ok, err, Error, arith,
}
use u_acpi.Stdlib.Memory.{Memory}
use u_acpi.Tables.Table.{
  InstalledTable, is_physical, TableHost, checksum_from, table_checksum, verify_table_checksum,
  map_first, table_ref, table_unref,
}

-- The sum of `n` bytes from byte `i`.
abbrev pub sum_from : Memory → ℕ → ℕ → ℕ
sum_from bytes i zero = 0
sum_from bytes i (suc n) = bytes i + sum_from bytes (i + 1) n

checksum_from_lem :
    (n : ℕ) (bytes : Memory) (i c : ℕ)
    → c < 2 ^ 8
    → checksum_from bytes i n c ≡ (c + sum_from bytes i n) % 2 ^ 8
unfolding checksum_from
checksum_from_lem zero bytes i c h = omega arith
checksum_from_lem (suc n) bytes i c h =
    checksum_from_lem n bytes (i + 1) ((c + bytes i) % 2 ^ 8) (omega arith) ∙ omega arith

-- The checksum is the sum of all bytes, without its carries.
pub table_checksum_lem :
    (bytes : Memory) (size : ℕ) → table_checksum bytes size ≡ sum_from bytes 0 size % 2 ^ 8
unfolding table_checksum
table_checksum_lem bytes size = checksum_from_lem size bytes 0 0 (omega arith) ∙ omega arith

-- A count of the mappings that are in use: a mapping that succeeds adds one, an unmapping ends one.
pub record MapLaws {W : Type 0} (h : TableHost W) : Type 0 where
  pub mappings : W → ℕ
  pub map_some :
      (a n : ℕ) (w : W)
      → (h.map_table a n w).0 ≢ 0
      → mappings (h.map_table a n w).1 ≡ mappings w + 1
  pub map_none :
      (a n : ℕ) (w : W) → (h.map_table a n w).0 ≡ 0 → mappings (h.map_table a n w).1 ≡ mappings w
  pub unmap_one : (p n : ℕ) (w : W) → mappings (h.unmap_table p n w) ≡ mappings w - 1

-- What a table holds of them.
abbrev pub uses : InstalledTable → ℕ
uses t = if (t.reference_count == 0) || not (is_physical t.origin) then 0 else 1

pub data RefCall : Type 0 where
  get put_back : RefCall

module _ {W : Type 0} (h : TableHost W) where
  pub run : List RefCall → InstalledTable → W → InstalledTable × W
  run [] t w = (t, w)
  run (get ∷ cs) t w = let (r, t', w') = table_ref h t w in run cs t' w'
  run (put_back ∷ cs) t w = let (r, t', w') = table_unref h t w in run cs t' w'

module _ {W : Type 0} (h : TableHost W) (laws : MapLaws h) where
  open laws use {mappings, map_some, map_none, unmap_one}

  -- The mapping before the first reference.
  map_first-mappings :
      (t : InstalledTable) (w : W)
      → let r = map_first h t w in
        (r.1.origin ≡ t.origin)
        × (r.1.reference_count ≡ t.reference_count)
        × (r.0 ≡ ok → mappings r.2 ≡ mappings w + (if is_physical t.origin then 1 else 0))
        × ((e : Error) → r.0 ≡ err e → mappings r.2 ≡ mappings w)
  unfolding map_first verify_table_checksum
  map_first-mappings t w =
      let p = (h.map_table t.phys_addr t.hdr.length w).0 in
      let w1 = (h.map_table t.phys_addr t.hdr.length w).1 in
      ground (
        arith,
        map_some t.phys_addr t.hdr.length w,
        map_none t.phys_addr t.hdr.length w,
        unmap_one p t.hdr.length w1,
      )

  table_ref-mappings :
      (t : InstalledTable) (w : W) (k : ℕ)
      → t.reference_count < 2 ^ 16
      → mappings w ≡ k + uses t
      → let r = table_ref h t w in (r.1.reference_count < 2 ^ 16) × (mappings r.2 ≡ k + uses r.1)
  unfolding table_ref
  table_ref-mappings t w k c e =
      let (origin, count, good, bad) = map_first-mappings t w in
      elim (Status-cases (map_first h t w).0) [
        | inl q ↦ ground (arith, q, origin, count, good q)
        | inr (x, q) ↦ ground (arith, q, origin, count, bad x q)
      ]

  table_unref-mappings :
      (t : InstalledTable) (w : W) (k : ℕ)
      → t.reference_count < 2 ^ 16
      → mappings w ≡ k + uses t
      → let r = table_unref h t w in (r.1.reference_count < 2 ^ 16) × (mappings r.2 ≡ k + uses r.1)
  unfolding table_unref
  table_unref-mappings t w k c e = ground (arith, unmap_one t.ptr t.hdr.length w)

  -- Whatever references are taken and dropped, in any order and however many, of a table whose count
  -- has 16 bits and which holds what its count says: a physical table holds
  -- one mapping while its count is positive and none while it is 0, so no mapping is lost.
  pub run-mappings :
      (cs : List RefCall) (t : InstalledTable) (w : W) (k : ℕ)
      → t.reference_count < 2 ^ 16
      → mappings w ≡ k + uses t
      → let r = run h cs t w in mappings r.1 ≡ k + uses r.0
  unfolding run
  run-mappings [] t w k c e = e
  run-mappings (get ∷ cs) t w k c e =
      let r = table_ref h t w in
      let (c', e') = table_ref-mappings t w k c e in run-mappings cs r.1 r.2 k c' e'
  run-mappings (put_back ∷ cs) t w k c e =
      let r = table_unref h t w in
      let (c', e') = table_unref-mappings t w k c e in run-mappings cs r.1 r.2 k c' e'

-- After a reference that was given, dropping one succeeds and leaves the count as it was, unless the
-- count has reached 0xFFFF: then it stays, for a table that is mapped for good.
pub table_unref-table_ref :
    {W : Type 0} (h : TableHost W) (t : InstalledTable) (w v : W)
    → t.reference_count ≤ 0xffff
    → (table_ref h t w).0 ≡ ok
    → let t' = (table_ref h t w).1 in
      let r = table_unref h t' v in
      (r.0 ≡ ok)
      × (r.1.reference_count ≡ (if leb 0xfffe t.reference_count then 0xffff else t.reference_count))
unfolding table_ref table_unref map_first
table_unref-table_ref h t w v l e = ground (arith, l, e)
