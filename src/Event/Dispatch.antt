-- ===== src/Event/Dispatch.antt =====
-- source/event.c: what runs when a general purpose event fires. `slock` is `g_gpe_state_slock`, and
-- `device` the node that the event's block belongs to.
use u_acpi.Base.{ℕ, true, ◌||◌, Status, ok, err, ◌==◌, if◌then◌else◌, List, [], ◌∷◌, some}
use u_acpi.Gas.Transfer.{gas_read}
use u_acpi.Event.{
  EventHost, at_world, GpEvent, GpeView, aml, implicit, native, not_handled, handled, gpe_reenable,
  type_aml, type_native, type_native_raw, type_implicit, edge_triggering,
}
use u_acpi.Event.Gpe.{
  gpe_get_mask, overlaps, disabled, enabled_conditionally, set_gpe_state, clear_gpe, restore_gpe,
}

module _ {W : Type 0} (h : EventHost W) (slock : ℕ) where
  pub async_restore_gpe : GpeView W → GpeView W
  async_restore_gpe g = (restore_gpe h slock g).1

  pub notify_devices : List ℕ → W → W
  notify_devices [] w = w
  notify_devices (device ∷ devices) w = notify_devices devices (h.notify_all device 2 w).1

  -- The switch of `async_run_gpe_handler`. The union is read as the type says.
  pub run_handler : GpEvent → W → W
  unfolding notify_devices
  run_handler event w =
      if event.handler_type == type_aml
      then (elim event.any_handler [
        | aml node ↦ if h.has_method node w then (h.execute_control_method node w).1 else w
        | _ ↦ w
      ])
      else (if event.handler_type == type_implicit
          then (elim event.any_handler [ implicit devices ↦ notify_devices devices w | _ ↦ w ])
          else w)

  -- UACPI_WORK_GPE_EXECUTION and UACPI_WORK_NOTIFICATION.
  abbrev pub work_gpe_execution : ℕ
  work_gpe_execution = 0

  abbrev pub work_notification : ℕ
  work_notification = 1

  pub async_run_gpe_handler : GpeView W → GpeView W
  unfolding run_handler async_restore_gpe
  async_run_gpe_handler g =
      let (ret, w1) = h.namespace_write_lock g.world in
      let w2 : W = elim ret [
        | ok ↦ h.namespace_write_unlock (run_handler g.event w1)
        | err e ↦ w1
      ] in
      let (ret', w3) = h.schedule_work work_notification g.event.idx w2 in
      elim ret' [ ok ↦ at_world g w3 | err e ↦ async_restore_gpe (at_world g w3) ]

  -- The call of a native handler, if the union holds one.
  unfoldable pub call_native : ℕ → GpeView W → ℕ × GpeView W
  call_native device g = elim g.event.any_handler [
    | native cb ctx p t k e ↦
        let (int_ret, w) = h.call_gpe_handler cb ctx device g.event.idx g.world in
        (int_ret, at_world g w)
    | _ ↦ (not_handled, g)
  ]

  -- The second switch of `dispatch_gpe`. The answer is HANDLED whatever the handler returned.
  unfoldable pub dispatch_managed : ℕ → GpeView W → ℕ × GpeView W
  unfolding call_native
  dispatch_managed device g =
      let (int_ret, g') = call_native device g in
      let scheduled = at_world g (h.schedule_work work_gpe_execution g.event.idx g.world).1 in
      if g.event.handler_type == type_native
      then (handled, if overlaps int_ret gpe_reenable then (restore_gpe h slock g').1 else g')
      else (if g.event.handler_type == type_aml || g.event.handler_type == type_implicit
          then (handled, scheduled)
          else (handled, g))

  -- After the event was disabled: an edge-triggered one is cleared before its handler runs.
  unfoldable pub dispatch_disabled : ℕ → GpeView W → ℕ × GpeView W
  unfolding dispatch_managed
  dispatch_disabled device g =
      let (ret, w) = clear_gpe h slock g.event g.reg g.world in
      let failed = (set_gpe_state h slock g.event g.reg enabled_conditionally w).1 in
      if g.event.triggering == edge_triggering
      then (elim ret [
        | ok ↦ dispatch_managed device (at_world g w)
        | err e ↦ (not_handled, at_world g failed)
      ])
      else dispatch_managed device g

  unfoldable pub dispatch_gpe : ℕ → GpeView W → ℕ × GpeView W
  unfolding dispatch_disabled call_native
  dispatch_gpe device g =
      let (ret, w) = set_gpe_state h slock g.event g.reg disabled g.world in
      let blocked = record g { world = w; event = record g.event { block_interrupts = true } } in
      if g.event.handler_type == type_native_raw then call_native device g else (elim ret [
        | ok ↦ dispatch_disabled device blocked
        | err e ↦ (not_handled, at_world g w)
      ])

  unfoldable pub maybe_dispatch_gpe : ℕ → GpeView W → Status × GpeView W
  unfolding dispatch_gpe
  maybe_dispatch_gpe device g =
      let (ret, status, w) = gas_read h.io (some g.reg.status) g.world in
      let g' = at_world g w in
      elim ret [
        | err e ↦ (err e, g')
        | ok ↦ (
          ok,
          if overlaps status (gpe_get_mask g.event g.reg) then (dispatch_gpe device g').1 else g',
        )
      ]
