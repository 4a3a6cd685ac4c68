-- ===== src/Event/Fixed.antt =====
-- source/event.c: the fixed events, and the interrupt of the firmware's global lock.
pub mod Laws
pub mod Interrupt
use u_acpi.Base.{
  ℕ, zero, suc, ◌+◌, ◌-◌, Bool, true, false, ◌&&◌, ◌||◌, not, Status, ok, err, Error,
  hardware_timeout, no_handler, already_exists, invalid_argument, init_level_mismatch, not_found,
  ◌==◌, ltb, if◌then◌else◌, bit_or, List, [], ◌∷◌, get_or,
}
use u_acpi.Registers.{read_register, read_register_field, write_register_field}
use u_acpi.Registers.Table.{pm1_sts, pm1_en}
use u_acpi.Event.{
  EventHost, Platform, State, in_world, FixedEventHandler, InterruptHandler, no_function,
  global_lock_function, function, fixed_event_max, not_handled, handled,
}
use u_acpi.Event.Gpe.{overlaps}
use u_acpi.Event.Lock.{locked}

pub record FixedEvent : Type 0 where
  pub enable_field : ℕ
  pub status_field : ℕ
  pub enable_mask : ℕ
  pub status_mask : ℕ

-- An event's fields, and its masks, which are the same in both registers.
abbrev event_of : ℕ → ℕ → ℕ → FixedEvent
event_of enable status mask = record {
  enable_field = enable;
  status_field = status;
  enable_mask = mask;
  status_mask = mask;
}

-- `fixed_events`: the global lock, the timer, the power and the sleep button, and the RTC. The
-- fields are positions in `enum uacpi_register_field`.
unfoldable pub fixed_events : ℕ → FixedEvent
fixed_events i =
    get_or
      (event_of 10 2 0x20
        ∷ event_of 9 0 0x1
        ∷ event_of 11 3 0x100
        ∷ event_of 12 4 0x200
        ∷ event_of 13 5 0x400
        ∷ [])
      i (event_of 0 0 0)

abbrev pub is_null : InterruptHandler → Bool
is_null no_function = true
is_null _ = false

module _ {W : Type 0} (h : EventHost W) (p : Platform) where
  unfoldable pub write_field : ℕ → ℕ → W → Status × W
  write_field field value w =
      write_register_field h.io h.spin p.blocks p.reg_lock field p.before value w

  -- The loop from `i` on, `left` rounds: its bound is UACPI_FIXED_EVENT_MAX, the last event.
  pub disable_from : ℕ → ℕ → W → W
  unfolding write_field
  disable_from zero i w = w
  disable_from (suc left) i w =
      disable_from left (suc i) (write_field (fixed_events i).enable_field 0 w).1

  pub initialize_fixed_events : W → Status × W
  unfolding disable_from
  initialize_fixed_events w = (ok, disable_from fixed_event_max 0 w)

  unfoldable pub set_event : ℕ → ℕ → W → Status × W
  unfolding write_field
  set_event event value w =
      let ev = fixed_events event in
      let (ret, w1) = write_field ev.enable_field value w in
      let (ret', raw_value, w2) =
        read_register_field h.io h.spin p.blocks ev.enable_field p.before w1 in
      elim ret [
        | err e ↦ (err e, w1)
        | ok ↦ elim ret' [
          | err e ↦ (err e, w2)
          | ok ↦ if raw_value == value then (ok, w2) else (err hardware_timeout, w2)
        ]
      ]

  -- The guards of the calls on one fixed event, above the lock: the level, the number, which is
  -- not negative here, and hardware-reduced platforms, which get `reduced`.
  abbrev pub fixed_guard {ℓ} : {A : Type ℓ} → State W → ℕ → (Status → A) → Status → A → A
  fixed_guard s event stop reduced go =
      if ltb s.init_level 1
      then stop (err init_level_mismatch)
      else (if ltb fixed_event_max event
          then stop (err invalid_argument)
          else (if p.is_hardware_reduced then stop reduced else go))

  abbrev returns : State W → Status → Status × State W
  returns s ret = (ret, s)

  abbrev pub run_set_event : ℕ → ℕ → State W → Status × State W
  run_set_event event value s = let (ret, w) = set_event event value s.world in (ret, in_world s w)

  unfoldable pub enable_body : ℕ → State W → Status × State W
  enable_body event s =
      if is_null (s.handlers event).handler then (err no_handler, s) else run_set_event event 1 s

  unfoldable pub enable_fixed_event : ℕ → State W → Status × State W
  unfolding enable_body
  enable_fixed_event event s = fixed_guard s event (returns s) ok (locked h (enable_body event) s)

  unfoldable pub disable_fixed_event : ℕ → State W → Status × State W
  disable_fixed_event event s =
      fixed_guard s event (returns s) ok (locked h (run_set_event event 0) s)

  -- ACPI_PM1_STS_CLEAR is 1.
  unfoldable pub clear_fixed_event : ℕ → State W → Status × State W
  clear_fixed_event event s =
      let (ret, w) = write_field (fixed_events event).status_field 1 s.world in
      fixed_guard s event (returns s) ok (ret, in_world s w)

  unfoldable pub set_handler : ℕ → FixedEventHandler → State W → State W
  set_handler event new s = record s { handlers = λ i. if i == event then new else s.handlers i }

  abbrev pub null_handler : FixedEventHandler
  null_handler = record { handler = no_function; ctx = 0 }

  unfoldable pub install_fixed_body : ℕ → InterruptHandler → ℕ → State W → Status × State W
  unfolding set_handler
  install_fixed_body event handler user s =
      let s1 = set_handler event (record { handler = handler; ctx = user }) s in
      let (ret, s2) = run_set_event event 1 s1 in
      if is_null (s.handlers event).handler
      then (elim ret [ ok ↦ (ok, s2) | err e ↦ (err e, set_handler event null_handler s2) ])
      else (err already_exists, s)

  unfoldable pub install_fixed_event_handler : ℕ → InterruptHandler → ℕ → State W → Status × State W
  unfolding install_fixed_body
  install_fixed_event_handler event handler user s =
      fixed_guard s event (returns s) ok (locked h (install_fixed_body event handler user) s)

  unfoldable pub uninstall_fixed_body : ℕ → State W → Status × State W
  unfolding set_handler
  uninstall_fixed_body event s =
      let (ret, s1) = run_set_event event 0 s in
      elim ret [
        | ok ↦ (ok, set_handler event null_handler (in_world s1 (h.wait_for_work s1.world)))
        | err e ↦ (err e, s1)
      ]

  unfoldable pub uninstall_fixed_event_handler : ℕ → State W → Status × State W
  unfolding uninstall_fixed_body
  uninstall_fixed_event_handler event s =
      fixed_guard s event (returns s) ok (locked h (uninstall_fixed_body event) s)
