-- ===== src/Event/Fixed/Laws.antt =====
-- The handlers of the fixed events: what a failed installation leaves, and which events their
-- interrupt reaches.
use u_acpi.Base.{
  ℕ, zero, suc, ◌+◌, ◌≤◌, ◌≡◌, ◌≢◌, refl, ap, ◌∙◌, sym, Bool, true, false, ◌&&◌, Status, ok, err,
  Error, ◌==◌, if◌then◌else◌, arith, inl, inr, Status-cases, Bool-cases, bit_or,
}
use u_acpi.Registers.{read_register}
use u_acpi.Registers.Table.{pm1_sts, pm1_en}
use u_acpi.Event.{
  EventHost, Platform, State, in_world, FixedEventHandler, InterruptHandler, fixed_event_max,
  not_handled,
}
use u_acpi.Event.Gpe.{overlaps}
use u_acpi.Event.Fixed.{
  fixed_events, is_null, set_handler, null_handler, set_event, install_fixed_body,
  uninstall_fixed_body,
}
use u_acpi.Event.Fixed.Interrupt.{
  dispatch_fixed_event, call_interrupt_handler, handle_global_lock, handle_from,
  handle_fixed_events,
}

module _ {W : Type 0} (h : EventHost W) (p : Platform) where
  null-back :
      (event i : ℕ) (s : State W)
      → s.handlers event ≡ null_handler h p
      → (if i == event then null_handler h p else s.handlers i) ≡ s.handlers i
  null-back event i s n = elim (Bool-cases (i == event)) [
    | inl e ↦ let q : event ≡ i = ground arith in rw e (sym n ∙ ap s.handlers q)
    | inr e ↦ rw e refl
  ]

  over :
      (b : Bool) (x y z : FixedEventHandler)
      → (if b then x else (if b then y else z)) ≡ (if b then x else z)
  over true x y z = refl
  over false x y z = refl

  -- An installation that returns an error leaves each event's handler as it was, where an event
  -- without a handler has no context either.
  pub install_fixed_body_err :
      (event user i : ℕ) (handler : InterruptHandler) (e : Error) (s : State W)
      → (is_null (s.handlers event).handler ≡ true → s.handlers event ≡ null_handler h p)
      → (install_fixed_body h p event handler user s).0 ≡ err e
      → (install_fixed_body h p event handler user s).1.handlers i ≡ s.handlers i
  unfolding install_fixed_body set_handler
  install_fixed_body_err event user i handler e s n x =
      let back : (is_null (s.handlers event).handler ≡ true)
          → (if i == event then null_handler h p else s.handlers i) ≡ s.handlers i =
        λ q. null-back event i s (n q) in
      let r = set_event h p event 1 s.world in
      elim (Bool-cases (is_null (s.handlers event).handler)) [
        | inl q ↦ elim (Status-cases r.0) [
          | inl o ↦ absurd (ground (arith, q, o, x))
          | inr (f, o) ↦ rw (q, o) (over (i == event) _ _ _ ∙ back q)
        ]
        | inr q ↦ rw q refl
      ]

  -- An installation for an event without a handler and the removal after it, if both return OK,
  -- leave each event's handler as it was; between them the event has the new one.
  pub uninstall-install_fixed_body :
      (event user i : ℕ) (handler : InterruptHandler) (s : State W)
      → s.handlers event ≡ null_handler h p
      → (install_fixed_body h p event handler user s).0 ≡ ok
      → (uninstall_fixed_body h p event (install_fixed_body h p event handler user s).1).0 ≡ ok
      → let s1 = (install_fixed_body h p event handler user s).1 in
        (s1.handlers event ≡ record { handler = handler; ctx = user })
        × ((uninstall_fixed_body h p event s1).1.handlers i ≡ s.handlers i)
  unfolding install_fixed_body uninstall_fixed_body set_handler
  uninstall-install_fixed_body event user i handler s n e e' =
      let none : is_null (s.handlers event).handler ≡ true =
        ap (λ (f : FixedEventHandler). is_null f.handler) n in
      let r = set_event h p event 1 s.world in
      let o : r.0 ≡ ok = ground (arith, none, e) in
      let new : FixedEventHandler = record { handler = handler; ctx = user } in
      let s1 : State W = in_world (set_handler h p event new s) r.1 in
      let step : install_fixed_body h p event handler user s ≡ (ok, s1) = rw (none, o) refl in
      let o2 : (set_event h p event 0 s1.world).0 ≡ ok = ground (
        arith,
        ap (λ (t : State W). (uninstall_fixed_body h p event t).0)
            (ap (λ (t : Status × State W). t.1) step),
        e',
      ) in
      rw step (
        ground arith,
        rw (uninstall_fixed_body, o2) (over (i == event) _ _ _ ∙ null-back event i s n),
      )

  -- A handler that another event gets plays no part in the dispatch of an event.
  dispatch-set_handler :
      (event other : ℕ) (new : FixedEventHandler) (s : State W)
      → event ≢ other
      → dispatch_fixed_event h p event (set_handler h p other new s) ≡ (
        (dispatch_fixed_event h p event s).0,
        set_handler h p other new (dispatch_fixed_event h p event s).1,
      )
  unfolding dispatch_fixed_event set_handler call_interrupt_handler handle_global_lock
  dispatch-set_handler event other new s n = ground arith

  handle_from-set_handler :
      (left i status enable int_ret : ℕ) (new : FixedEventHandler) (s : State W)
      → i + left ≤ fixed_event_max
      → handle_from h p left i status enable int_ret (set_handler h p fixed_event_max new s) ≡ (
        (handle_from h p left i status enable int_ret s).0,
        set_handler h p fixed_event_max new (handle_from h p left i status enable int_ret s).1,
      )
  unfolding handle_from
  handle_from-set_handler zero i status enable int_ret new s b = refl
  handle_from-set_handler (suc left) i status enable int_ret new s b =
      let ev = fixed_events i in
      let r = dispatch_fixed_event h p i s in
      elim (Bool-cases (overlaps status ev.status_mask && overlaps enable ev.enable_mask)) [
        | inl e ↦
            rw (e, dispatch-set_handler i fixed_event_max new s (omega arith))
              (handle_from-set_handler left (suc i) status enable (bit_or int_ret r.0) new r.1
                (omega arith))
        | inr e ↦
            rw e (handle_from-set_handler left (suc i) status enable int_ret new s (omega arith))
      ]

  -- The interrupt of the fixed events never calls the handler of the last one, the RTC: with any
  -- other handler there it answers the same and leaves the same state, but for that handler.
  pub handle_fixed_events-set_handler :
      (new : FixedEventHandler) (s : State W)
      → handle_fixed_events h p (set_handler h p fixed_event_max new s) ≡ (
        (handle_fixed_events h p s).0,
        set_handler h p fixed_event_max new (handle_fixed_events h p s).1,
      )
  unfolding handle_fixed_events set_handler
  handle_fixed_events-set_handler new s =
      let r = read_register h.io h.spin p.blocks pm1_sts p.before s.world in
      let r' = read_register h.io h.spin p.blocks pm1_en p.before r.2 in
      ground (
        arith,
        handle_from-set_handler fixed_event_max 0 r.1 r'.1 not_handled new (in_world s r'.2)
            (omega arith),
      )
