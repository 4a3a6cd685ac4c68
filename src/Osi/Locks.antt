-- ===== src/Osi/Locks.antt =====
-- The calls of source/osi.c leave every mutex as they found it.
use u_acpi.Base.{
  ℕ, ◌+◌, ◌≡◌, refl, Bool, false, not, List, Option, none, some, Status, Status-cases, Option-cases,
  not_found, true, ok, err, inl, inr, arith, length,
}
use u_acpi.Host.{LockHost, LockLaws, MemoryHost, MemoryLaws}
use u_acpi.Mutex.Native.{acquire_native}
use u_acpi.Mutex.Native.Laws.{held-release-acquire, acquire_native_err}
use u_acpi.Osi.{
  State, install_interface, uninstall_interface, enable_host_interface, disable_host_interface,
  set_query_handler, bulk_configure_interfaces, handle_osi, locked, acquired, unlock,
  install_locked, uninstall_acquired, configure_host_locked, set_handler_locked, ask_handler,
  raise_latest, ensure_initialized, query_locked, in_world, interface_size,
}
use u_acpi.Osi.Table.{Interface, find_interface, unlink, set_disabled, configure}
use u_acpi.Osi.Calls.{
  Call, installs, uninstalls, enables, disables, sets_handler, configures, queries, step,
}

module _ {W : Type 0} (h : LockHost W) (laws : LockLaws h) (m : MemoryHost W)
    (memory : MemoryLaws m laws.held) where
  open laws use {held}
  open memory use {alloc_held, free_held}

  -- A handler of the host that acquires and releases nothing of the library's.
  abbrev pub IsQuiet : Option (List ℕ → Bool → W → Bool × W) → Type 0
  IsQuiet none = Unit {0}
  IsQuiet (some ask) = (n : List ℕ) (b : Bool) (w : W) (j : ℕ) → held (ask n b w).1 j ≡ held w j

  -- The bodies that run under the mutex keep it in its field, and leave what is held.
  abbrev Keeps : State W → State W → Type 0
  Keeps s t = (t.interface_mutex ≡ s.interface_mutex) × ((j : ℕ) → held t.world j ≡ held s.world j)

  unlock-held :
      (s t : State W) (r : Status) (j : ℕ)
      → (acquire_native h s.interface_mutex s.world).0 ≡ ok
      → Keeps (in_world h m s (acquire_native h s.interface_mutex s.world).1) t
      → held (unlock h m (r, t)).1.world j ≡ held s.world j
  unfolding unlock
  unlock-held s t r j e k =
      rw k.0 (held-release-acquire h laws s.interface_mutex s.world t.world j e k.1)

  acquired-held :
      (s : State W) (body : State W → Status × State W) (j : ℕ)
      → ((acquire_native h s.interface_mutex s.world).0 ≡ ok
          → held (body (in_world h m s (acquire_native h s.interface_mutex s.world).1)).1.world j
            ≡ held s.world j)
      → held (acquired h m s body).1.world j ≡ held s.world j
  acquired-held s body j k = elim (Status-cases (acquire_native h s.interface_mutex s.world).0) [
    | inl e ↦ unfold acquired in rw (e, acquired) (k e)
    | inr (x, e) ↦
        unfold acquired in
        rw (e, acquired) (acquire_native_err h laws s.interface_mutex s.world x j e)
  ]

  locked-held :
      (s : State W) (body : State W → Status × State W) (j : ℕ)
      → ((t : State W) → Keeps t (body t).1)
      → held (locked h m s body).1.world j ≡ held s.world j
  unfolding locked
  locked-held s body j k =
      acquired-held s (λ t. unlock h m (body t)) j
        (λ e.
          let t = in_world h m s (acquire_native h s.interface_mutex s.world).1 in
          unlock-held s (body t).1 (body t).0 j e (k t))

  install_locked-Keeps :
      (name : List ℕ) (kind : ℕ) (s : State W) → Keeps s (install_locked h m name kind s).1
  unfolding install_locked
  install_locked-Keeps name kind s = (
    ground arith,
    λ j. ground (
      arith,
      alloc_held interface_size s.world j,
      alloc_held (length name + 1) (m.alloc interface_size s.world).1 j,
      free_held interface_size (m.alloc (length name + 1) (m.alloc interface_size s.world).1).1 j,
    ),
  )

  unlocked-held :
      (s : State W) (r : Status) (is : List Interface) (j : ℕ)
      → (acquire_native h s.interface_mutex s.world).0 ≡ ok
      → held
          (unlock h m (
            r,
            record s { world = (acquire_native h s.interface_mutex s.world).1; registered = is },
          )).1.world
          j
        ≡ held s.world j
  unlocked-held s r is j e = unlock-held s _ r j e (refl, λ i. refl)

  uninstall_acquired-held :
      (name : List ℕ) (s : State W) (j : ℕ)
      → (acquire_native h s.interface_mutex s.world).0 ≡ ok
      → held
          (uninstall_acquired h m name
            (in_world h m s (acquire_native h s.interface_mutex s.world).1)).1.world
          j
        ≡ held s.world j
  unfolding uninstall_acquired
  uninstall_acquired-held name s j e = elim (Option-cases (find_interface name s.registered)) [
    | inl f ↦ rw (f, uninstall_acquired) (unlocked-held s (err not_found) s.registered j e)
    | inr (i, f) ↦
        let t : State W = record s {
          world = (acquire_native h s.interface_mutex s.world).1;
          registered = unlink name s.registered;
        } in
        let w = (unlock h m (ok, t)).1.world in
        rw (f, uninstall_acquired)
          (ground (
            arith,
            unlocked-held s ok (unlink name s.registered) j e,
            unlocked-held s ok (set_disabled name true s.registered) j e,
            unlocked-held s (err not_found) s.registered j e,
            free_held interface_size (m.free (length i.name + 1) w) j,
            free_held (length i.name + 1) w j,
          ))
  ]

  configure_host_locked-Keeps :
      (type : ℕ) (b : Bool) (s : State W) → Keeps s (configure_host_locked h m type b s).1
  unfolding configure_host_locked
  configure_host_locked-Keeps type b s = (ground arith, λ j. ground arith)

  set_handler_locked-Keeps :
      (handler : Option (List ℕ → Bool → W → Bool × W)) (s : State W)
      → Keeps s (set_handler_locked h m handler s).1
  unfolding set_handler_locked
  set_handler_locked-Keeps handler s = (ground arith, λ j. ground arith)

  ask_handler-Keeps :
      (name : List ℕ) (b : Bool) (s : State W) (handler : Option (List ℕ → Bool → W → Bool × W))
      → s.handler ≡ handler
      → IsQuiet handler
      → Keeps s (ask_handler h m name b s).1
  unfolding ask_handler
  ask_handler-Keeps name b s none e q = rw (e, ask_handler) (refl, λ j. refl)
  ask_handler-Keeps name b s (some ask) e q = rw (e, ask_handler) (refl, λ j. q name b s.world j)

  query_locked-Keeps :
      (name : List ℕ) (s : State W) → IsQuiet s.handler → Keeps s (query_locked h m name s).1
  unfolding query_locked
  query_locked-Keeps name s q = elim (Option-cases (find_interface name s.registered)) [
    | inl f ↦ rw (f, query_locked) (refl, λ j. refl)
    | inr (i, f) ↦
        rw (f, query_locked)
          (ask_handler-Keeps name (not i.disabled) (raise_latest h m i s) s.handler refl q)
  ]

  handle_osi-held :
      (name : List ℕ) (s : State W) (j : ℕ)
      → IsQuiet s.handler
      → held (handle_osi h m name s).2.world j ≡ held s.world j
  unfolding handle_osi unlock
  handle_osi-held name s j q = elim (Status-cases (acquire_native h s.interface_mutex s.world).0) [
    | inl e ↦
        let t = in_world h m s (acquire_native h s.interface_mutex s.world).1 in
        let k = query_locked-Keeps name t q in
        rw (e, handle_osi) (unlock-held s (query_locked h m name t).1 ok j e k)
    | inr (x, e) ↦ rw (e, handle_osi) (acquire_native_err h laws s.interface_mutex s.world x j e)
  ]

  ensure-held :
      (s : State W) (r : Status × State W) (j : ℕ)
      → held r.1.world j ≡ held s.world j
      → held (ensure_initialized h m s r).1.world j ≡ held s.world j
  unfolding ensure_initialized
  ensure-held s r j e = ground arith

  guarded-held :
      (s : State W) (body : State W → Status × State W) (j : ℕ)
      → ((t : State W) → Keeps t (body t).1)
      → held (ensure_initialized h m s (locked h m s body)).1.world j ≡ held s.world j
  guarded-held s body j k = ensure-held s (locked h m s body) j (locked-held s body j k)

  -- No call of the interface API acquires a mutex without releasing it, or releases one that it
  -- did not acquire, on any branch, if the host's query handler does not either.
  pub step-held :
      (c : Call W) (s : State W) (j : ℕ)
      → IsQuiet s.handler
      → held (step h m c s).world j ≡ held s.world j
  unfolding step install_interface uninstall_interface enable_host_interface disable_host_interface
      set_query_handler bulk_configure_interfaces
  step-held (installs name kind) s j q =
      guarded-held s (install_locked h m name kind) j (install_locked-Keeps name kind)
  step-held (uninstalls name) s j q =
      ensure-held s (acquired h m s (uninstall_acquired h m name)) j
        (acquired-held s (uninstall_acquired h m name) j (uninstall_acquired-held name s j))
  step-held (enables type) s j q =
      guarded-held s (configure_host_locked h m type true) j (configure_host_locked-Keeps type true)
  step-held (disables type) s j q =
      guarded-held s (configure_host_locked h m type false) j
        (configure_host_locked-Keeps type false)
  step-held (sets_handler handler) s j q =
      guarded-held s (set_handler_locked h m handler) j (set_handler_locked-Keeps handler)
  step-held (configures disable kind) s j q =
      guarded-held s (λ t. (ok, record t { registered = configure disable kind t.registered })) j
        (λ t. (refl, λ i. refl))
  step-held (queries name) s j q = handle_osi-held name s j q
