-- ===== src/Osi.antt =====
-- source/osi.c: the interfaces that _OSI reports. The file's static variables are the record
-- `State`, with the kernel's world in it; the query handler of the host acts on that world.
pub mod Table
pub mod Names
pub mod Calls
pub mod Support
pub mod Locks
pub mod Restore
pub mod Latest
use u_acpi.Base.{
  ℕ, ◌+◌, ◌%◌, ◌^◌, Bool, true, false, not, Option, none, some, List, [], ◌∷◌, ◌++◌, ◌==◌,
  if◌then◌else◌, ltb, length, drop, take, Status, ok, err, Error, init_level_mismatch, not_found,
  already_exists, out_of_memory,
}
use u_acpi.Host.{LockHost, MemoryHost}
use u_acpi.Mutex.Native.{acquire_native, release_native}
use Table.{
  Interface, predefined_interfaces, find_interface, find_host_interface, set_disabled,
  set_host_disabled, configure, reset_all, unlink,
}

pub record State (W : Type 0) : Type 0 where
  pub world : W
  pub init_level : ℕ
  pub interface_mutex : ℕ
  -- The static array, as it stands while it is not linked.
  pub predefined : List Interface
  pub registered : List Interface
  pub handler : Option (List ℕ → Bool → W → Bool × W)
  pub latest_queried : ℕ

-- UACPI_INIT_LEVEL_SUBSYSTEM_INITIALIZED.
abbrev pub subsystem_initialized : ℕ
subsystem_initialized = 1

-- The sizes of `struct registered_interface` and, by its length, of a copied name.
abbrev pub interface_size : ℕ
interface_size = 24

abbrev pub Result : Type 0 → Type 0
Result W = Status × State W

module _ {W : Type 0} (h : LockHost W) (m : MemoryHost W) where
  abbrev pub in_world : State W → W → State W
  in_world s w = record s { world = w }

  -- `uacpi_initialize_interfaces`. The links are written after the mutex was created, so a failure
  -- leaves a list of one.
  pub initialize : State W → Result W
  initialize s =
      let (mutex, w) = h.create_mutex s.world in
      if mutex == 0
      then (
        err out_of_memory,
        record s { world = w; interface_mutex = 0; registered = take 1 s.predefined },
      )
      else (ok, record s { world = w; interface_mutex = mutex; registered = s.predefined })

  -- Two blocks are freed for each dynamic interface.
  pub free_dynamic : List Interface → W → W
  free_dynamic [] w = w
  free_dynamic (i ∷ is) w =
      free_dynamic is
        (if i.dynamic then m.free interface_size (m.free (length i.name + 1) w) else w)

  -- `uacpi_deinitialize_interfaces`. The entries of the static array that are linked come back
  -- reset, at the front of the array.
  pub deinitialize : State W → State W
  unfolding free_dynamic
  deinitialize s =
      let kept = reset_all s.registered in
      let w = free_dynamic s.registered s.world in
      record s {
        world = if s.interface_mutex == 0 then w else h.free_mutex s.interface_mutex w;
        predefined = kept ++ drop (length kept) s.predefined;
        interface_mutex = 0;
        handler = none;
        latest_queried = 0;
        registered = [];
      }

  -- `out:` and the like: the mutex is released, and its status dropped.
  unfoldable pub unlock : Result W → Result W
  unlock (ret, s) = (ret, in_world s (release_native h s.interface_mutex s.world).1)

  -- `uacpi_acquire_native_mutex` on the interface mutex, and its error return.
  unfoldable pub acquired : State W → (State W → Result W) → Result W
  acquired s body =
      let (ret, w) = acquire_native h s.interface_mutex s.world in
      elim ret [ ok ↦ body (in_world s w) | err e ↦ (err e, in_world s w) ]

  -- A body between the acquire and the release.
  unfoldable pub locked : State W → (State W → Result W) → Result W
  unfolding acquired unlock
  locked s body = acquired s (λ s'. unlock (body s'))

  -- UACPI_ENSURE_INIT_LEVEL_AT_LEAST(UACPI_INIT_LEVEL_SUBSYSTEM_INITIALIZED).
  unfoldable pub ensure_initialized : State W → Result W → Result W
  ensure_initialized s r =
      if ltb s.init_level subsystem_initialized then (err init_level_mismatch, s) else r

  abbrev new_interface : List ℕ → ℕ → Interface
  new_interface name kind = record {
    name = name;
    weight = 0;
    kind = kind % 2 ^ 8;
    host_type = 0;
    disabled = false;
    dynamic = true;
  }

  -- The two allocations, and the first one freed when the second fails.
  allocate : List ℕ → ℕ → State W → Result W
  allocate name kind s =
      let (got, w) = m.alloc interface_size s.world in
      let (got_name, w') = m.alloc (length name + 1) w in
      if got
      then (if got_name
          then (ok, record s { world = w'; registered = new_interface name kind ∷ s.registered })
          else (err out_of_memory, in_world s (m.free interface_size w')))
      else (err out_of_memory, in_world s w)

  install_locked : List ℕ → ℕ → State W → Result W
  unfolding allocate
  install_locked name kind s = elim (find_interface name s.registered) [
    | some i ↦ (err already_exists, record s { registered = set_disabled name false s.registered })
    | none ↦ allocate name kind s
  ]

  pub install_interface : List ℕ → ℕ → State W → Result W
  unfolding ensure_initialized locked install_locked
  install_interface name kind s = ensure_initialized s (locked s (install_locked name kind))

  -- The mutex is released before the blocks of a dynamic interface are freed. A predefined one
  -- that is disabled counts as not found.
  unfoldable pub uninstall_acquired : List ℕ → State W → Result W
  unfolding unlock
  uninstall_acquired name s = elim (find_interface name s.registered) [
    | none ↦ unlock (err not_found, s)
    | some i ↦
        let (ret, s') = unlock (ok, record s { registered = unlink name s.registered }) in
        if i.dynamic
        then (ret, in_world s' (m.free interface_size (m.free (length i.name + 1) s'.world)))
        else (if i.disabled
            then unlock (err not_found, s)
            else unlock (ok, record s { registered = set_disabled name true s.registered }))
  ]

  unfoldable pub uninstall_interface : List ℕ → State W → Result W
  unfolding ensure_initialized acquired uninstall_acquired
  uninstall_interface name s = ensure_initialized s (acquired s (uninstall_acquired name))

  configure_host_locked : ℕ → Bool → State W → Result W
  configure_host_locked type enabled s = elim (find_host_interface type s.registered) [
    | none ↦ (err not_found, s)
    | some i ↦ (ok, record s { registered = set_host_disabled type (not enabled) s.registered })
  ]

  configure_host_interface : ℕ → Bool → State W → Result W
  unfolding ensure_initialized locked configure_host_locked
  configure_host_interface type enabled s =
      ensure_initialized s (locked s (configure_host_locked type enabled))

  pub enable_host_interface : ℕ → State W → Result W
  unfolding configure_host_interface
  enable_host_interface type s = configure_host_interface type true s

  pub disable_host_interface : ℕ → State W → Result W
  unfolding configure_host_interface
  disable_host_interface type s = configure_host_interface type false s

  set_handler_locked : Option (List ℕ → Bool → W → Bool × W) → State W → Result W
  set_handler_locked handler s = elim s.handler [
    | none ↦ (ok, record s { handler = handler })
    | some old ↦ elim handler [
      | none ↦ (ok, record s { handler = none })
      | some new ↦ (err already_exists, s)
    ]
  ]

  pub set_query_handler : Option (List ℕ → Bool → W → Bool × W) → State W → Result W
  unfolding ensure_initialized locked set_handler_locked
  set_query_handler handler s = ensure_initialized s (locked s (set_handler_locked handler))

  -- `disable` says that the action is UACPI_INTERFACE_ACTION_DISABLE.
  pub bulk_configure_interfaces : Bool → ℕ → State W → Result W
  unfolding ensure_initialized locked
  bulk_configure_interfaces disable kind s =
      ensure_initialized s
        (locked s (λ t. (ok, record t { registered = configure disable kind t.registered })))

  -- The store to `latest_queried_interface` is atomic and done under the mutex.
  unfoldable pub raise_latest : Interface → State W → State W
  raise_latest i s = record s {
    latest_queried = if ltb s.latest_queried i.weight then i.weight else s.latest_queried;
  }

  -- What the host's handler, if one is set, makes of the answer.
  unfoldable pub ask_handler : List ℕ → Bool → State W → Bool × State W
  ask_handler string supported s = elim s.handler [
    | none ↦ (supported, s)
    | some ask ↦ let (answer, w) = ask string supported s.world in (answer, in_world s w)
  ]

  unfoldable pub query_locked : List ℕ → State W → Bool × State W
  unfolding raise_latest ask_handler
  query_locked string s = elim (find_interface string s.registered) [
    | none ↦ (false, s)
    | some i ↦ ask_handler string (not i.disabled) (raise_latest i s)
  ]

  -- The value is what is written to `*out_value`, if anything is.
  unfoldable pub handle_osi : List ℕ → State W → Status × Option Bool × State W
  unfolding query_locked
  handle_osi string s =
      let (ret, w) = acquire_native h s.interface_mutex s.world in
      let (answer, s') = query_locked string (in_world s w) in
      elim ret [
        | ok ↦ (ok, some answer, in_world s' (release_native h s'.interface_mutex s'.world).1)
        | err e ↦ (err e, none, in_world s w)
      ]

  pub latest_queried_vendor_interface : State W → ℕ
  latest_queried_vendor_interface s = s.latest_queried
