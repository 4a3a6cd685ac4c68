-- ===== src/Event/Wake.antt =====
-- source/event.c: events that wake the machine, the calls on all events, and what is known of one.
pub mod Laws
pub mod Info
use u_acpi.Base.{
  ℕ, ◌||◌, Bool, true, false, not, Option, none, some, Status, ok, err, Error, invalid_argument,
  already_exists, internal_error, ◌==◌, ltb, if◌then◌else◌, bit_and, bit_or, List, [], ◌∷◌,
}
use u_acpi.Registers.{write_register}
use u_acpi.Registers.Table.{pm1_sts}
use u_acpi.Event.{
  EventHost, Platform, GpEvent, GpeView, State, at_world, in_world, AnyHandler, implicit, type_none,
  type_aml, type_native, type_native_raw, type_implicit, level_triggering,
}
use u_acpi.Event.Gpe.{gpe_get_mask, gpe_remove_user, gpe_mask_unmask, gpe_mask_safe}
use u_acpi.Event.Store.{for_each_block, all_blocks}
use u_acpi.Event.Lock.{loaded, locked}
use u_acpi.Event.Block.{
  BlockAction, disable_all, enable_all_for_runtime, enable_all_for_wake, clear_all,
  gpe_block_apply_action, sizeof_implicit_handler,
}
use u_acpi.Event.Handlers.{with_gpe}

-- The devices that an event of the implicit type notifies, none for UACPI_NULL.
abbrev pub devices_of : AnyHandler → List ℕ
devices_of (implicit devices) = devices
devices_of _ = []

unfoldable pub has_device : List ℕ → ℕ → Bool
has_device [] device = false
has_device (d ∷ ds) device = if d == device then true else has_device ds device

module _ {W : Type 0} (h : EventHost W) (slock : ℕ) where
  -- The device joins those that the event notifies; without memory it does not, and the status is
  -- OK all the same.
  unfoldable pub add_implicit : ℕ → GpeView W → Status × GpeView W
  unfolding has_device
  add_implicit wake_device g =
      let (got, w) = h.memory.alloc sizeof_implicit_handler g.world in
      let devices = devices_of g.event.any_handler in
      let added = record g.event { any_handler = implicit (wake_device ∷ devices) } in
      if has_device devices wake_device
      then (err already_exists, g)
      else (ok, if got then (record g { event = added; world = w }) else at_world g w)

  -- The switch on the handler's type, for a device to wake.
  unfoldable pub configure_implicit : ℕ → GpeView W → Status × GpeView W
  unfolding add_implicit
  configure_implicit wake_device g =
      let type = g.event.handler_type in
      let fresh = record g.event { handler_type = type_implicit; triggering = level_triggering } in
      if type == type_none
      then add_implicit wake_device (record g { event = fresh })
      else (if type == type_aml
          then (ok, (gpe_remove_user h slock g).1)
          else (if type == type_native || type == type_native_raw
              then (ok, g)
              else (if type == type_implicit
                  then add_implicit wake_device g
                  else (err internal_error, g))))

  -- A `wake_device` of 0 is UACPI_NULL.
  unfoldable pub configure_wake : ℕ → GpeView W → Status × GpeView W
  unfolding configure_implicit
  configure_wake wake_device g =
      if wake_device == 0 then (ok, g) else configure_implicit wake_device g

  -- `event->wake = UACPI_TRUE`, which an error jumps over.
  unfoldable pub set_wake : Status → GpeView W → GpeView W
  set_wake ok g = record g { event = record g.event { wake = true } }
  set_wake (err e) g = g

  unfoldable pub setup_wake_event : ℕ → GpeView W → Status × GpeView W
  unfolding configure_wake set_wake
  setup_wake_event wake_device g =
      let (did_mask, g1) = gpe_mask_safe h slock g in
      let (ret, g2) = configure_wake wake_device g1 in
      let g3 = set_wake ret g2 in
      (ret, if did_mask then (gpe_mask_unmask h slock false g3).1 else g3)

  -- Without `enabled` the mask is taken by `&= mask`, without the complement.
  unfoldable pub enable_disable_wake_event : Bool → GpeView W → Status × GpeView W
  enable_disable_wake_event enabled g =
      let mask = gpe_get_mask g.event g.reg in
      let wake_mask =
        if enabled then bit_or g.reg.wake_mask mask else bit_and g.reg.wake_mask mask in
      if g.event.wake
      then (ok, record g { reg = record g.reg { wake_mask = wake_mask } })
      else (err invalid_argument, g)

module _ {W : Type 0} (h : EventHost W) (p : Platform) where
  unfoldable pub setup_gpe_for_wake : ℕ → ℕ → ℕ → State W → Status × State W
  unfolding setup_wake_event
  setup_gpe_for_wake device idx wake_device s =
      let (ret, is_dev) = h.node_is_device wake_device s.world in
      let r = with_gpe h p (λ d slock. setup_wake_event h slock wake_device) device idx s in
      if wake_device == 0 || wake_device == p.root_node
      then r
      else loaded s
          (elim ret [ err e ↦ (err e, s) | ok ↦ if is_dev then r else (err invalid_argument, s) ])

  -- `uacpi_enable_gpe_for_wake` with `true`, and `uacpi_disable_gpe_for_wake` with `false`.
  unfoldable pub gpe_enable_disable_for_wake : Bool → ℕ → ℕ → State W → Status × State W
  unfolding enable_disable_wake_event
  gpe_enable_disable_for_wake enabled device idx s =
      with_gpe h p (λ d slock. enable_disable_wake_event h slock enabled) device idx s

  -- The walk's callback, which stops at an error. The context's status starts as OK.
  unfoldable pub do_for_all_gpes : BlockAction → ℕ → Status × State W → Bool × (Status × State W)
  do_for_all_gpes action block (old, s) =
      let (ret, s') = gpe_block_apply_action h p block action s in
      (elim ret [ ok ↦ false | err e ↦ true ], (ret, s'))

  unfoldable pub for_all_gpes : BlockAction → State W → Status × State W
  unfolding do_for_all_gpes
  for_all_gpes action s = for_each_block (do_for_all_gpes action) (all_blocks s s.contexts) (ok, s)

  unfoldable pub for_all_gpes_locked : BlockAction → State W → Status × State W
  unfolding for_all_gpes
  for_all_gpes_locked action s = loaded s (locked h (for_all_gpes action) s)

  unfoldable pub disable_all_gpes : State W → Status × State W
  unfolding for_all_gpes_locked
  disable_all_gpes s = for_all_gpes_locked disable_all s

  unfoldable pub enable_all_runtime_gpes : State W → Status × State W
  unfolding for_all_gpes_locked
  enable_all_runtime_gpes s = for_all_gpes_locked enable_all_for_runtime s

  unfoldable pub enable_all_wake_gpes : State W → Status × State W
  unfolding for_all_gpes_locked
  enable_all_wake_gpes s = for_all_gpes_locked enable_all_for_wake s

  -- PM1_STATUS_BITS: bits 0, 4, 5, 8, 9, 10, 14 and 15.
  abbrev pub pm1_status_bits : ℕ
  pm1_status_bits = 0xc731

  unfoldable pub clear_all_body : State W → Status × State W
  clear_all_body s =
      let (ret, w) = write_register h.io h.spin p.blocks pm1_sts p.before pm1_status_bits s.world in
      elim ret [ ok ↦ for_all_gpes clear_all (in_world s w) | err e ↦ (err e, in_world s w) ]

  unfoldable pub clear_all_events : State W → Status × State W
  unfolding clear_all_body
  clear_all_events s = loaded s (locked h clear_all_body s)
