-- ===== src/Tables/Search/Laws.antt =====
-- What a search through the tables of source/tables.c finds.
use u_acpi.Base.{
  ℕ, zero, suc, ◌+◌, ◌-◌, ◌≡◌, ◌≢◌, ◌≤◌, ◌<◌, refl, ap, sym, subst, ◌∙◌, inl, inr, true, false,
  Bool-cases, if◌then◌else◌, ltb, none, some, Option-cases, Status, Status-cases, ok, err, Error,
  not_found, bad_checksum, arith,
}
use native.Mathlib.Decide.{ℕ_discrete}
use u_acpi.Host.{LockHost, LockLaws}
use u_acpi.Mutex.Native.{acquire_native_may_be_null}
use u_acpi.Tables.Array.{DynamicArray, inline_capacity, at, put}
use u_acpi.Tables.Array.Laws.{at-put}
use u_acpi.Tables.Table.{
  InstalledTable, TableHost, has, invalid, map_first, verify_table_checksum, table_ref,
}
use u_acpi.Tables.Control.{State, is_open}
use u_acpi.Tables.Control.Laws.{MapLocks, table_ref-held, around-held, acquire_fails-held}
use u_acpi.Tables.Search.{
  Callback, SearchType, Found, is_sought, is_bad_checksum, each_from, for_each_table,
  do_search_tables, search_tables,
}

bad_lem : (x : Error) → is_bad_checksum x ≡ true → x ≡ bad_checksum
unfolding is_bad_checksum
bad_lem x e = ground (arith, e)

some-injective : {A : Type 0} {x y : A} → some x ≡ some y → x ≡ y
some-injective {x} e = ap (λ o. elim o [ none ↦ x | some z ↦ z ]) e

err-injective : {x y : Error} → err x ≡ err y → x ≡ y
err-injective {x} e = ap (λ o. elim o [ ok ↦ x | err z ↦ z ]) e

at-some :
    {A : Type 0} (a : DynamicArray A) (i : ℕ)
    → i < a.size_including_inline
    → (x : A) × (at a i ≡ some x)
unfolding at
at-some a i h = (
  if ltb i inline_capacity then a.inline_storage i else a.dynamic_storage (i - inline_capacity),
  ground (arith, h),
)

put-size :
    {A : Type 0} (a : DynamicArray A) (i : ℕ) (x : A)
    → (put a i x).size_including_inline ≡ a.size_including_inline
unfolding put
put-size a i x = ground arith

module _ {W : Type 0} (h : TableHost W) where
  -- The table is invalid, or not sought, or its checksum is wrong.
  abbrev pub Passed : SearchType → DynamicArray InstalledTable → ℕ → Type 0
  Passed wanted tables j =
      (t : InstalledTable)
      → at tables j ≡ some t
      → has t.flags invalid ≡ false
      → is_sought wanted t ≡ true
      → (w : W) × ((table_ref h t w).0 ≡ err bad_checksum)

  -- At the index is a table that is not invalid and is what was sought, and a reference to it
  -- succeeded with the pointer.
  abbrev pub Sought : SearchType → DynamicArray InstalledTable → Found → Type 0
  Sought wanted tables found =
      (t : InstalledTable) × (at tables found.index ≡ some t)
      × (has t.flags invalid ≡ false)
      × (is_sought wanted t ≡ true)
      × ((w : W) × ((table_ref h t w).0 ≡ ok) × (found.ptr ≡ (table_ref h t w).1.ptr))

  -- What the tables from `idx` to `stop` say of a search's outcome.
  abbrev pub Outcome : SearchType → DynamicArray InstalledTable → ℕ → ℕ → Status × Found → Type 0
  Outcome wanted tables idx stop r =
      (r.0 ≡ ok
        → (idx ≤ r.1.index)
          × (r.1.index < stop)
          × Sought wanted tables r.1
          × ((j : ℕ) → idx ≤ j → j < r.1.index → Passed wanted tables j))
      × (r.0 ≡ err not_found → (j : ℕ) → idx ≤ j → j < stop → Passed wanted tables j)

  table_ref-found : (t : InstalledTable) (w : W) → (table_ref h t w).0 ≢ err not_found
  unfolding table_ref map_first verify_table_checksum
  table_ref-found t w e = ground (arith, e)

  -- A table that was passed, and then the outcome for the rest.
  one_more :
      (wanted : SearchType) (tables tables' : DynamicArray InstalledTable) (idx stop : ℕ)
      (r : Status × Found)
      → Passed wanted tables idx
      → ((j : ℕ) → idx < j → at tables' j ≡ at tables j)
      → Outcome wanted tables' (idx + 1) stop r
      → Outcome wanted tables idx stop r
  one_more wanted tables tables' idx stop r p same (found, missing) =
      let passed : (j : ℕ)
          → idx ≤ j
          → (idx < j → Passed wanted tables' j)
          → Passed wanted tables j =
        λ j a q. elim (ℕ_discrete j idx) [
          | yes e ↦ λ t at_j. p t (ap (at tables) (sym e) ∙ at_j)
          | no n ↦ let b : idx < j = omega (arith, a, n) in λ t at_j. q b t (same j b ∙ at_j)
        ] in
      (
        λ e.
            let (low, high, (t, at_i, v, m, ref), before) = found e in
            (
              omega (arith, low),
              high,
              (t, sym (same r.1.index (omega (arith, low))) ∙ at_i, v, m, ref),
              λ j a b. passed j a (λ c. before j (omega (arith, c)) b),
            ),
        λ e j a b. passed j a (λ c. missing e j (omega (arith, c)) b),
      )

module _ {W : Type 0} (l : LockHost W) (h : TableHost W) where
  found_here :
      (wanted : SearchType) (tables : DynamicArray InstalledTable) (idx stop p : ℕ)
      → idx < stop
      → Sought h wanted tables (record { ptr = p; index = idx })
      → Outcome h wanted tables idx stop (ok, record { ptr = p; index = idx })
  found_here wanted tables idx stop p a t = (
    λ e. (omega arith, a, t, λ j b c. absurd (omega (arith, b, c))),
    λ e. absurd (ground (arith, e)),
  )

  Passed-by :
      (wanted : SearchType) (tables : DynamicArray InstalledTable) (idx : ℕ) (t : InstalledTable)
      → at tables idx ≡ some t
      → (has t.flags invalid ≡ false
          → is_sought wanted t ≡ true
          → (v : W) × ((table_ref h t v).0 ≡ err bad_checksum))
      → Passed h wanted tables idx
  Passed-by wanted tables idx t e f x q =
      subst
        (λ (y : InstalledTable).
          has y.flags invalid ≡ false
          → is_sought wanted y ≡ true
          → (v : W) × ((table_ref h y v).0 ≡ err bad_checksum))
        (some-injective (sym e ∙ q)) f

  refused_here :
      (wanted : SearchType) (tables : DynamicArray InstalledTable) (idx stop : ℕ) (out : Found)
      (x : Error)
      → x ≢ not_found
      → Outcome h wanted tables idx stop (err x, out)
  refused_here wanted tables idx stop out x n =
      (λ e. absurd (ground (arith, e)), λ e. absurd (n (err-injective e)))

  module _ {U : Type 0} (cb : Callback l h U) (n idx : ℕ) (u : U)
      (tables : DynamicArray InstalledTable) (w : W) (t : InstalledTable) where
    each_skips :
        at tables idx ≡ some t
        → has t.flags invalid ≡ true
        → each_from l h cb (suc n) idx u tables w ≡ each_from l h cb n (idx + 1) u tables w
    unfolding each_from
    each_skips e v = ground (arith, e, v)

    each_reads :
        at tables idx ≡ some t
        → has t.flags invalid ≡ false
        → let r = cb u t idx w in
          each_from l h cb (suc n) idx u tables w ≡ (
            if r.0
            then (r.1, put tables idx r.2, r.3)
            else each_from l h cb n (idx + 1) r.1 (put tables idx r.2) r.3)
    unfolding each_from
    each_reads e v = ground (arith, e, v)

  -- The step at a table that is not invalid.
  read_step :
      (wanted : SearchType) (n idx : ℕ) (out : Found) (tables : DynamicArray InstalledTable) (w : W)
      (t : InstalledTable)
      → idx + suc n ≤ tables.size_including_inline
      → at tables idx ≡ some t
      → has t.flags invalid ≡ false
      → ((tables' : DynamicArray InstalledTable) (w' : W)
          → tables'.size_including_inline ≡ tables.size_including_inline
          → Outcome h wanted tables'
              (idx + 1)
              (idx + suc n)
              (each_from l h
                (do_search_tables l h wanted)
                n
                (idx + 1)
                (err not_found, out)
                tables'
                w').0)
      → let r = do_search_tables l h wanted (err not_found, out) t idx w in
        Outcome h wanted tables idx
          (idx + suc n)
          (if r.0
            then (r.1, put tables idx r.2, r.3)
            else each_from l h
                (do_search_tables l h wanted)
                n
                (idx + 1)
                r.1
                (put tables idx r.2)
                r.3).0
  unfolding do_search_tables
  read_step wanted n idx out tables w t a e v rest =
      let stop = idx + suc n in
      let go = each_from l h (do_search_tables l h wanted) n (idx + 1) (err not_found, out) in
      let on =
        λ (x : InstalledTable) (w' : W)
            (p : has t.flags invalid ≡ false
              → is_sought wanted t ≡ true
              → (v' : W) × ((table_ref h t v').0 ≡ err bad_checksum)).
          one_more h wanted tables (put tables idx x) idx stop (go (put tables idx x) w').0
            (Passed-by wanted tables idx t e p)
            (λ j b. at-put tables idx j x (omega (arith, a)) ∙ ground (arith, b))
            (rest (put tables idx x) w' (put-size tables idx x)) in
      let r = table_ref h t w in
      elim (Bool-cases (is_sought wanted t)) [
        | inr m ↦ rw m (on t w (λ f g. absurd (ground (arith, m, g))))
        | inl m ↦ elim (Status-cases r.0) [
          | inl q ↦
              rw (m, q)
                (found_here wanted tables idx stop r.1.ptr (omega arith) (t, e, v, m, (w, q, refl)))
          | inr (x, q) ↦ elim (Bool-cases (is_bad_checksum x)) [
            | inl b ↦ rw (m, q, b) (on r.1 r.2 (λ f g. (w, q ∙ ap err (bad_lem x b))))
            | inr b ↦
                rw (m, q, b)
                  (refused_here wanted tables idx stop out x
                    (λ z. table_ref-found h t w (q ∙ ap err z)))
          ]
        ]
      ]

  each_from-Outcome :
      (wanted : SearchType) (n idx : ℕ) (out : Found) (tables : DynamicArray InstalledTable) (w : W)
      → idx + n ≤ tables.size_including_inline
      → Outcome h wanted tables idx
          (idx + n)
          (each_from l h (do_search_tables l h wanted) n idx (err not_found, out) tables w).0
  unfolding each_from
  each_from-Outcome wanted zero idx out tables w a =
      (λ e. absurd (ground (arith, e)), λ e j b c. absurd (omega (arith, b, c)))
  each_from-Outcome wanted (suc n) idx out tables w a =
      let (t, e) = at-some tables idx (omega (arith, a)) in
      let cb = do_search_tables l h wanted in
      let start : Status × Found = (err not_found, out) in
      let stop : idx + 1 + n ≡ idx + suc n = omega arith in
      let ends = λ (z : Status × Found). Outcome h wanted tables idx (idx + suc n) z in
      let rest =
        λ (tables' : DynamicArray InstalledTable) (w' : W)
            (z : tables'.size_including_inline ≡ tables.size_including_inline).
          subst
            (λ (k : ℕ).
              Outcome h wanted tables' (idx + 1) k
                (each_from l h cb n (idx + 1) start tables' w').0)
            stop (each_from-Outcome wanted n (idx + 1) out tables' w' (omega (arith, a, z))) in
      elim (Bool-cases (has t.flags invalid)) [
        | inl v ↦
            subst (λ (z : (Status × Found) × DynamicArray InstalledTable × W). ends z.0)
              (sym (each_skips cb n idx start tables w t e v))
              (one_more h wanted tables tables idx (idx + suc n)
                (each_from l h cb n (idx + 1) start tables w).0
                (Passed-by wanted tables idx t e (λ f. absurd (ground (arith, v, f)))) (λ j b. refl)
                (rest tables w refl))
        | inr v ↦
            subst (λ (z : (Status × Found) × DynamicArray InstalledTable × W). ends z.0)
              (sym (each_reads cb n idx start tables w t e v))
              (read_step wanted n idx out tables w t a e v rest)
      ]

  module _ (base : ℕ) (wanted : SearchType) (out : Found) (s : State W) where
    search_result :
        is_open l h s ≡ true
        → (acquire_native_may_be_null l s.table_mutex s.world).0 ≡ ok
        → let r = search_tables l h base wanted out s in
          let w = (acquire_native_may_be_null l s.table_mutex s.world).1 in
          let n = s.tables.size_including_inline - base in
          (each_from l h (do_search_tables l h wanted) n base (err not_found, out) s.tables w).0
          ≡ (r.0, r.1)
    unfolding search_tables for_each_table
    search_result o e = ground (arith, o, e)

    search-Outcome :
        is_open l h s ≡ true
        → (acquire_native_may_be_null l s.table_mutex s.world).0 ≡ ok
        → base ≤ s.tables.size_including_inline
        → let r = search_tables l h base wanted out s in
          Outcome h wanted s.tables base s.tables.size_including_inline (r.0, r.1)
    search-Outcome o e b =
        let w = (acquire_native_may_be_null l s.table_mutex s.world).1 in
        let n = s.tables.size_including_inline - base in
        let whole : base + n ≡ s.tables.size_including_inline = omega (arith, b) in
        subst
          (λ (z : Status × Found). Outcome h wanted s.tables base s.tables.size_including_inline z)
          (search_result o e)
          (subst
            (λ (k : ℕ).
              Outcome h wanted s.tables base k
                (each_from l h (do_search_tables l h wanted) n base (err not_found, out) s.tables
                  w).0)
            whole (each_from-Outcome wanted n base out s.tables w (omega (arith, b))))

    -- With the tables open, the mutex acquired and a base that is no more than their number, a search
    -- that succeeds answers the first table: its index is from the base on and below the number of
    -- tables, the table there is not invalid and is what was sought, a reference to it succeeded with
    -- the pointer that is answered, and each one before it, from the base on, that is sought and not
    -- invalid has a wrong checksum.
    pub search_tables-first :
        is_open l h s ≡ true
        → (acquire_native_may_be_null l s.table_mutex s.world).0 ≡ ok
        → base ≤ s.tables.size_including_inline
        → (search_tables l h base wanted out s).0 ≡ ok
        → let i = (search_tables l h base wanted out s).1.index in
          (base ≤ i)
          × (i < s.tables.size_including_inline)
          × Sought h wanted s.tables (search_tables l h base wanted out s).1
          × ((j : ℕ) → base ≤ j → j < i → Passed h wanted s.tables j)
    search_tables-first o e b q = (search-Outcome o e b).0 q

    -- With the tables open and the mutex acquired, a search that answers NOT_FOUND has missed
    -- none: each table from its base on that is sought and not invalid has a wrong checksum.
    pub search_tables-not_found :
        is_open l h s ≡ true
        → (acquire_native_may_be_null l s.table_mutex s.world).0 ≡ ok
        → (search_tables l h base wanted out s).0 ≡ err not_found
        → (j : ℕ) (t : InstalledTable) → base ≤ j
        → j < s.tables.size_including_inline
        → at s.tables j ≡ some t
        → has t.flags invalid ≡ false
        → is_sought wanted t ≡ true
        → (w : W) × ((table_ref h t w).0 ≡ err bad_checksum)
    search_tables-not_found o e q j t low high =
        (search-Outcome o e (omega (arith, low, high))).1 q j low high t

-- A search takes and drops the mutex, on every branch.
module _ {W : Type 0} (l : LockHost W) (laws : LockLaws l) (h : TableHost W)
    (locks : MapLocks h laws.held) where
  open laws use {held}

  do_search_tables-held :
      (wanted : SearchType) (u : Status × Found) (t : InstalledTable) (idx : ℕ) (w : W) (j : ℕ)
      → held (do_search_tables l h wanted u t idx w).3 j ≡ held w j
  unfolding do_search_tables
  do_search_tables-held wanted u t idx w j =
      ground (arith, table_ref-held l laws h locks t w j, Status-cases (table_ref h t w).0)

  each_from-held :
      (wanted : SearchType) (n idx : ℕ) (u : Status × Found) (tables : DynamicArray InstalledTable)
      (w : W) (j : ℕ)
      → held (each_from l h (do_search_tables l h wanted) n idx u tables w).2 j ≡ held w j
  unfolding each_from
  each_from-held wanted zero idx u tables w j = refl
  each_from-held wanted (suc n) idx u tables w j =
      let cb = do_search_tables l h wanted in
      elim (Option-cases (at tables idx)) [
        | inl e ↦ ground (arith, e)
        | inr (t, e) ↦
            let r = cb u t idx w in
            ground (
              arith,
              e,
              do_search_tables-held wanted u t idx w j,
              each_from-held wanted n (idx + 1) u tables w j,
              each_from-held wanted n (idx + 1) r.1 (put tables idx r.2) r.3 j,
            )
      ]

  -- A search leaves held what was held before it, on every branch.
  pub search_tables-held :
      (base : ℕ) (wanted : SearchType) (out : Found) (s : State W) (j : ℕ)
      → held (search_tables l h base wanted out s).2.world j ≡ held s.world j
  unfolding search_tables for_each_table
  search_tables-held base wanted out s j =
      let a = acquire_native_may_be_null l s.table_mutex s.world in
      let n = s.tables.size_including_inline - base in
      let start : Status × Found = (err not_found, out) in
      let v = (each_from l h (do_search_tables l h wanted) n base start s.tables a.1).2 in
      elim (Status-cases a.0) [
        | inl e ↦ ground (
          arith,
          e,
          around-held l laws h locks s.table_mutex s.world v j e
              (λ i. each_from-held wanted n base start s.tables a.1 i),
        )
        | inr (x, e) ↦
            ground (arith, e, acquire_fails-held l laws h locks s.table_mutex s.world x j e)
      ]
