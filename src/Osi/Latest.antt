-- ===== src/Osi/Latest.antt =====
-- The latest vendor interface that AML asked for, in source/osi.c.
use u_acpi.Base.{ℕ, ◌≡◌, refl, ap, ◌∙◌, List, [], ◌∷◌, none, some, ok, max, arith}
use u_acpi.Host.{LockHost, MemoryHost}
use u_acpi.Osi.Table.{Interface, find_interface}
use u_acpi.Osi.{State, handle_osi, latest_queried_vendor_interface}

-- The weight of the interface that has the name, and 0 if none has.
abbrev pub weight_of : List ℕ → List Interface → ℕ
weight_of n is = elim (find_interface n is) [ none ↦ 0 | some i ↦ i.weight ]

module _ {W : Type 0} (h : LockHost W) (m : MemoryHost W) where
  -- A series of _OSI queries.
  pub ask_all : List (List ℕ) → State W → State W
  ask_all [] s = s
  ask_all (n ∷ ns) s = ask_all ns (handle_osi h m n s).2

  -- Each of them gets the mutex.
  abbrev pub Answered : List (List ℕ) → State W → Type 0
  Answered [] s = Unit {0}
  Answered (n ∷ ns) s = ((handle_osi h m n s).0 ≡ ok) × Answered ns (handle_osi h m n s).2

  abbrev pub greatest : List (List ℕ) → List Interface → ℕ → ℕ
  greatest [] is k = k
  greatest (n ∷ ns) is k = greatest ns is (max k (weight_of n is))

  handle_osi-latest :
      (n : List ℕ) (s : State W)
      → (handle_osi h m n s).0 ≡ ok
      → (latest_queried_vendor_interface h m (handle_osi h m n s).2
          ≡ max (latest_queried_vendor_interface h m s) (weight_of n s.registered))
        × ((handle_osi h m n s).2.registered ≡ s.registered)
  unfolding handle_osi latest_queried_vendor_interface
  handle_osi-latest n s e = ground arith

  -- After queries that all got the mutex, in whatever order, the latest queried vendor interface
  -- is the greatest weight among the interfaces asked for and the one recorded before.
  pub latest-ask_all :
      (ns : List (List ℕ)) (s : State W)
      → Answered ns s
      → latest_queried_vendor_interface h m (ask_all ns s)
        ≡ greatest ns s.registered (latest_queried_vendor_interface h m s)
  unfolding ask_all
  latest-ask_all [] s a = refl
  latest-ask_all (n ∷ ns) s a =
      let s' = (handle_osi h m n s).2 in
      let e = handle_osi-latest n s a.0 in
      latest-ask_all ns s' a.1
      ∙ ap (λ is. greatest ns is (latest_queried_vendor_interface h m s')) e.1
      ∙ ap (greatest ns s.registered) e.0
