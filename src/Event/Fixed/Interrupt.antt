-- ===== src/Event/Fixed/Interrupt.antt =====
-- source/event.c: the interrupt of the fixed events, and that of the firmware's global lock.
use u_acpi.Base.{ℕ, zero, suc, false, ◌&&◌, not, ok, err, if◌then◌else◌, bit_or}
use u_acpi.Registers.{read_register}
use u_acpi.Registers.Table.{pm1_sts, pm1_en}
use u_acpi.Event.{
  EventHost, Platform, State, in_world, FixedEventHandler, no_function, global_lock_function,
  function, fixed_event_max, not_handled, handled,
}
use u_acpi.Event.Gpe.{overlaps}
use u_acpi.Event.Fixed.{fixed_events, is_null, write_field}

module _ {W : Type 0} (h : EventHost W) (p : Platform) where
  unfoldable pub handle_global_lock : State W → ℕ × State W
  handle_global_lock s =
      let w1 = h.spin.lock s.global_lock_spinlock s.world in
      let w2 = h.signal_event s.global_lock_event w1 in
      if not s.has_global_lock
      then (handled, s)
      else (if s.global_lock_pending
          then (
            handled,
            record s {
              world = h.spin.unlock s.global_lock_spinlock w2;
              global_lock_pending = false;
            },
          )
          else (handled, in_world s (h.spin.unlock s.global_lock_spinlock w1)))

  unfoldable pub call_interrupt_handler : FixedEventHandler → State W → ℕ × State W
  unfolding handle_global_lock
  call_interrupt_handler evh s = elim evh.handler [
    | no_function ↦ (not_handled, s)
    | global_lock_function ↦ handle_global_lock s
    | function cb ↦ let (ret, w) = h.call_handler cb evh.ctx s.world in (ret, in_world s w)
  ]

  unfoldable pub dispatch_fixed_event : ℕ → State W → ℕ × State W
  unfolding call_interrupt_handler
  dispatch_fixed_event event s =
      let ev = fixed_events event in
      let evh = s.handlers event in
      let (ret, w1) = write_field h p ev.status_field 1 s.world in
      let off = (write_field h p ev.enable_field 0 w1).1 in
      elim ret [
        | err e ↦ (not_handled, in_world s w1)
        | ok ↦
            if is_null evh.handler
            then (not_handled, in_world s off)
            else call_interrupt_handler evh (in_world s w1)
      ]

  -- The loop of `handle_fixed_events` from `i` on, with the same bound.
  unfoldable pub handle_from : ℕ → ℕ → ℕ → ℕ → ℕ → State W → ℕ × State W
  unfolding dispatch_fixed_event
  handle_from zero i status enable int_ret s = (int_ret, s)
  handle_from (suc left) i status enable int_ret s =
      let ev = fixed_events i in
      let (ret, s') = dispatch_fixed_event i s in
      let fired = handle_from left (suc i) status enable (bit_or int_ret ret) s' in
      let quiet = handle_from left (suc i) status enable int_ret s in
      if overlaps status ev.status_mask && overlaps enable ev.enable_mask then fired else quiet

  unfoldable pub handle_fixed_events : State W → ℕ × State W
  unfolding handle_from
  handle_fixed_events s =
      let (ret, status, w1) = read_register h.io h.spin p.blocks pm1_sts p.before s.world in
      let (ret', enable, w2) = read_register h.io h.spin p.blocks pm1_en p.before w1 in
      elim ret [
        | err e ↦ (not_handled, in_world s w1)
        | ok ↦ elim ret' [
          | err e ↦ (not_handled, in_world s w2)
          | ok ↦ handle_from fixed_event_max 0 status enable not_handled (in_world s w2)
        ]
      ]
