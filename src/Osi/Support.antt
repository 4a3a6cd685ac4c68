-- ===== src/Osi/Support.antt =====
-- The _OSI answers as a map from names to supported or not, and how the calls move that map.
use u_acpi.Base.{
  ℕ, ◌≤◌, ◌≡◌, ◌≢◌, refl, Bool, true, false, not, ◌&&◌, none, some, List, ◌==◌, bit_and,
  if◌then◌else◌, arith, Status, ok, err, already_exists, not_found,
}
use u_acpi.Host.{LockHost, MemoryHost}
use u_acpi.Mutex.Native.{acquire_native}
use u_acpi.Osi.Table.{Interface, find_interface, set_disabled, unlink, same}
use u_acpi.Osi.Names.{
  Distinct, find-unlink, find-configure, find-set_disabled, find_same, same_self,
}
use u_acpi.Osi.{
  State, install_locked, install_interface, uninstall_acquired, uninstall_interface,
  bulk_configure_interfaces, handle_osi,
}

-- What _OSI answers for a name when the host has set no handler.
abbrev pub supported : List ℕ → List Interface → Bool
supported n is = elim (find_interface n is) [ none ↦ false | some i ↦ not i.disabled ]

-- The statuses of `uacpi_install_interface` after which the interface is there.
abbrev pub is_granted : Status → Bool
is_granted ok = true
is_granted (err already_exists) = true
is_granted (err _) = false

abbrev pub is_ok : Status → Bool
is_ok ok = true
is_ok (err _) = false

abbrev registers : List ℕ → List Interface → Bool
registers n is = elim (find_interface n is) [ none ↦ false | some i ↦ true ]

supported-set_disabled :
    (n m : List ℕ) (d : Bool) (is : List Interface)
    → supported n (set_disabled m d is)
      ≡ (if same m n && registers m is then not d else supported n is)
supported-set_disabled n m d is = ground (arith, find-set_disabled n m d is, find_same m n is)

supported-unlink :
    (n m : List ℕ) (is : List Interface)
    → Distinct is
    → supported n (unlink m is) ≡ (if same m n then false else supported n is)
supported-unlink n m is d = ground (arith, find-unlink n m is d)

is_granted_cases : (r : Status) → r ≢ err already_exists → is_granted r ≡ is_ok r
is_granted_cases ok p = refl
is_granted_cases (err e) p = ground arith

module _ {W : Type 0} (h : LockHost W) (m : MemoryHost W) where
  supported-install_locked :
      (name n : List ℕ) (kind : ℕ) (s : State W)
      → supported n (install_locked h m name kind s).1.registered ≡ (
          if is_granted (install_locked h m name kind s).0 && same name n
          then true
          else supported n s.registered)
  unfolding install_locked find_interface
  supported-install_locked name n kind s =
      ground (arith, supported-set_disabled n name false s.registered)

  -- Where the kernel does not answer ALREADY_EXISTS to the acquire, `uacpi_install_interface` on
  -- every branch makes _OSI answer yes for the name if it returns OK or ALREADY_EXISTS, and changes
  -- no other answer; with another status it changes none.
  pub supported-install :
      (name n : List ℕ) (kind : ℕ) (s : State W)
      → (acquire_native h s.interface_mutex s.world).0 ≢ err already_exists
      → supported n (install_interface h m name kind s).1.registered ≡ (
          if is_granted (install_interface h m name kind s).0 && same name n
          then true
          else supported n s.registered)
  unfolding install_interface
  supported-install name n kind s p = ground (
    arith,
    is_granted_cases (acquire_native h s.interface_mutex s.world).0,
    supported-install_locked name n kind
        (record s { world = (acquire_native h s.interface_mutex s.world).1 }),
  )

  supported-uninstall_acquired :
      (name n : List ℕ) (s : State W)
      → Distinct s.registered
      → supported n (uninstall_acquired h m name s).1.registered ≡ (
          if is_ok (uninstall_acquired h m name s).0 && same name n
          then false
          else supported n s.registered)
  unfolding uninstall_acquired
  supported-uninstall_acquired name n s d = ground (
    arith,
    supported-set_disabled n name true s.registered,
    supported-unlink n name s.registered d,
  )

  -- Where no two interfaces have one name, `uacpi_uninstall_interface` on every branch makes _OSI
  -- answer no for the name if it returns OK, and changes no other answer; with another status it
  -- changes none.
  pub supported-uninstall :
      (name n : List ℕ) (s : State W)
      → Distinct s.registered
      → supported n (uninstall_interface h m name s).1.registered ≡ (
          if is_ok (uninstall_interface h m name s).0 && same name n
          then false
          else supported n s.registered)
  unfolding uninstall_interface
  supported-uninstall name n s d = ground (
    arith,
    supported-uninstall_acquired name n
        (record s { world = (acquire_native h s.interface_mutex s.world).1 }) d,
  )

  -- What a successful call leaves: nothing under the name, or a disabled predefined interface.
  abbrev IsGone : List ℕ → State W → Type 0
  IsGone name s = elim (find_interface name s.registered) [
    | none ↦ 1 ≤ s.init_level
    | some i ↦ (1 ≤ s.init_level) × (i.disabled ≡ true) × (i.dynamic ≡ false)
  ]

  uninstall-IsGone :
      (name : List ℕ) (s : State W)
      → Distinct s.registered
      → (uninstall_interface h m name s).0 ≡ ok
      → IsGone name (uninstall_interface h m name s).1
  unfolding uninstall_interface
  uninstall-IsGone name s d e = ground (
    arith,
    find-unlink name name s.registered d,
    find-set_disabled name name true s.registered,
    same_self name,
  )

  uninstall_gone :
      (name : List ℕ) (s : State W)
      → IsGone name s
      → (acquire_native h s.interface_mutex s.world).0 ≡ ok
      → (uninstall_interface h m name s).0 ≡ err not_found
  unfolding uninstall_interface
  uninstall_gone name s g e = ground arith

  -- Where no two interfaces have one name, a second `uacpi_uninstall_interface` after one that
  -- returned OK returns NOT_FOUND, provided that it gets the mutex.
  pub uninstall_twice :
      (name : List ℕ) (s : State W)
      → Distinct s.registered
      → (uninstall_interface h m name s).0 ≡ ok
      → let s' = (uninstall_interface h m name s).1 in
        (acquire_native h s'.interface_mutex s'.world).0 ≡ ok
        → (uninstall_interface h m name s').0 ≡ err not_found
  uninstall_twice name s d e a = uninstall_gone name _ (uninstall-IsGone name s d e) a

  -- With no handler set and the mutex at hand, the answer to a query is the map's; a handler that
  -- is set gives its own answer, and is shown the map's.
  pub handle_osi-supported :
      (name : List ℕ) (s : State W)
      → (acquire_native h s.interface_mutex s.world).0 ≡ ok
      → let known = supported name s.registered in
        let w = (acquire_native h s.interface_mutex s.world).1 in
        (handle_osi h m name s).1 ≡ (elim (find_interface name s.registered) [
          | none ↦ some false
          | some i ↦ elim s.handler [ none ↦ some known | some ask ↦ some (ask name known w).0 ]
        ])
  unfolding handle_osi
  handle_osi-supported name s e = ground arith

  -- `uacpi_bulk_configure_interfaces`, if it returns OK, sets the answer for each interface whose
  -- kind shares a bit with `kind`, and no other; otherwise it changes no answer.
  pub supported-bulk_configure :
      (disable : Bool) (kind : ℕ) (n : List ℕ) (s : State W)
      → supported n (bulk_configure_interfaces h m disable kind s).1.registered
        ≡ (elim (find_interface n s.registered) [
          | none ↦ false
          | some i ↦
              if is_ok (bulk_configure_interfaces h m disable kind s).0
                && not (bit_and kind i.kind == 0)
              then not disable
              else not i.disabled
        ])
  unfolding bulk_configure_interfaces
  supported-bulk_configure disable kind n s =
      ground (arith, find-configure n disable kind s.registered)
