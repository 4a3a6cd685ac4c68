-- ===== src/Event/Handlers.antt =====
-- source/event.c: the calls on one general purpose event, found by its device and index: handlers,
-- enabling, clearing, suspension and masking.
pub mod Laws
pub mod Restore
use u_acpi.Base.{
  ℕ, ◌-◌, Bool, true, false, ◌&&◌, ◌||◌, not, Option, none, some, Status, ok, err, invalid_argument,
  not_found, already_exists, out_of_memory, no_handler, ◌==◌, ltb, if◌then◌else◌,
}
use u_acpi.Event.{
  EventHost, Platform, GpEvent, GpeView, State, at_world, in_world, AnyHandler, native, type_none,
  type_aml, type_native, type_native_raw, type_implicit,
}
use u_acpi.Event.Gpe.{
  GpeState, disabled, enabled, set_gpe_state, clear_gpe, restore_gpe, gpe_needs_polling,
  gpe_remove_user, gpe_add_user, gpe_mask_unmask, gpe_mask_safe, is_disabled,
}
use u_acpi.Event.Dispatch.{maybe_dispatch_gpe}
use u_acpi.Event.Store.{get_gpe, on_event}
use u_acpi.Event.Lock.{loaded, locked}
use u_acpi.Event.Block.{sizeof_native_handler}

abbrev pub is_native : GpEvent → Bool
is_native event = event.handler_type == type_native || event.handler_type == type_native_raw

-- The types of handlers that the code enables by itself.
abbrev pub is_automatic : ℕ → Bool
is_automatic handler_type = handler_type == type_aml || handler_type == type_implicit

module _ {W : Type 0} (h : EventHost W) (slock : ℕ) where
  -- With the new handler in place. The removal's status is not looked at.
  unfoldable pub install_native : ℕ → ℕ → ℕ → ℕ → GpeView W → GpeView W
  install_native triggering type handler ctx g =
      let (did_mask, g1) = gpe_mask_safe h slock g in
      let was_enabled = is_automatic g1.event.handler_type && not (g1.event.num_users == 0) in
      let g2 = if was_enabled then (gpe_remove_user h slock g1).1 else g1 in
      let saved =
        native handler ctx g.event.any_handler g.event.triggering g.event.handler_type
          was_enabled in
      let event = record g2.event {
        any_handler = saved;
        handler_type = type;
        triggering = triggering;
      } in
      let g3 = record g2 { event = event } in
      if did_mask then (gpe_mask_unmask h slock false g3).1 else g3

  unfoldable pub install_event : ℕ → ℕ → ℕ → ℕ → GpeView W → Status × GpeView W
  unfolding install_native
  install_event triggering type handler ctx g =
      let (got, w) = h.memory.alloc sizeof_native_handler g.world in
      if is_native g.event
      then (err already_exists, g)
      else (if got
          then (ok, install_native triggering type handler ctx (at_world g w))
          else (err out_of_memory, at_world g w))

  -- The event after a native handler, with what that preserved; an automatic one is enabled again.
  unfoldable pub uninstall_native : AnyHandler → ℕ → ℕ → Bool → GpeView W → GpeView W
  uninstall_native previous triggering type was_enabled g =
      let (did_mask, g1) = gpe_mask_safe h slock g in
      let event = record g1.event {
        any_handler = previous;
        triggering = triggering;
        handler_type = type;
      } in
      let g2 = record g1 { event = event } in
      let g3 = if is_automatic type && was_enabled then (gpe_add_user h slock false g2).1 else g2 in
      let g4 = at_world g3 (h.memory.free sizeof_native_handler g3.world) in
      if did_mask then (gpe_mask_unmask h slock false g4).1 else g4

  abbrev poll : ℕ → GpeView W → GpeView W
  poll device g = if gpe_needs_polling g.event then (maybe_dispatch_gpe h slock device g).1 else g

  -- The union of a native event holds a native handler.
  unfoldable pub uninstall_found : ℕ → ℕ → AnyHandler → GpeView W → Status × GpeView W
  unfolding uninstall_native
  uninstall_found device handler (native cb ctx previous triggering type was_enabled) g =
      if cb == handler
      then (ok, poll device (uninstall_native previous triggering type was_enabled g))
      else (err invalid_argument, g)
  uninstall_found device handler _ g = (err not_found, g)

  unfoldable pub uninstall_event : ℕ → ℕ → GpeView W → Status × GpeView W
  unfolding uninstall_found
  uninstall_event device handler g =
      if is_native g.event
      then uninstall_found device handler g.event.any_handler g
      else (err not_found, g)

  unfoldable pub enable_event : ℕ → GpeView W → Status × GpeView W
  enable_event device g =
      let (ret, g1) = gpe_add_user h slock true g in
      if g.event.handler_type == type_none
      then (err no_handler, g)
      else (elim ret [ ok ↦ (ok, poll device g1) | err e ↦ (err e, g1) ])

  unfoldable pub clear_event : GpeView W → Status × GpeView W
  clear_event g = let (ret, w) = clear_gpe h slock g.event g.reg g.world in (ret, at_world g w)

  unfoldable pub suspend_resume_event : GpeState → GpeView W → Status × GpeView W
  suspend_resume_event state g =
      let event = record g.event { block_interrupts = is_disabled state } in
      let (ret, w) = set_gpe_state h slock event g.reg state g.world in
      (ret, record g { event = event; world = w })

module _ {W : Type 0} (h : EventHost W) (p : Platform) where
  -- A device of 0 is UACPI_NULL, which stands for \_GPE.
  abbrev pub sanitized : ℕ → ℕ
  sanitized device = if device == 0 then p.gpe_node else device

  -- The frame of the calls on one event: the level, the lock, and the search for the event. The
  -- body gets the device and `g_gpe_state_slock`.
  unfoldable pub on_found :
      (ℕ → ℕ → GpeView W → Status × GpeView W) → ℕ → ℕ → State W → Status × State W
  on_found body device idx s = elim (get_gpe s (sanitized device) idx) [
    | some (block, offset) ↦ on_event (body (sanitized device) s.gpe_state_slock) block offset s
    | none ↦ (err not_found, s)
  ]

  unfoldable pub with_gpe :
      (ℕ → ℕ → GpeView W → Status × GpeView W) → ℕ → ℕ → State W → Status × State W
  unfolding on_found
  with_gpe body device idx s = loaded s (locked h (on_found body device idx) s)

  -- The callback is a number; UACPI_GPE_TRIGGERING_MAX is UACPI_GPE_TRIGGERING_EDGE, 1.
  unfoldable pub do_install_gpe_handler : ℕ → ℕ → ℕ → ℕ → ℕ → ℕ → State W → Status × State W
  unfolding with_gpe install_event
  do_install_gpe_handler device idx triggering type handler ctx s =
      let r =
        with_gpe (λ d slock. install_event h slock triggering type handler ctx) device idx s in
      if ltb 1 triggering then loaded s (err invalid_argument, s) else r

  unfoldable pub install_gpe_handler : ℕ → ℕ → ℕ → ℕ → ℕ → State W → Status × State W
  unfolding do_install_gpe_handler
  install_gpe_handler device idx triggering handler ctx s =
      do_install_gpe_handler device idx triggering type_native handler ctx s

  unfoldable pub install_gpe_handler_raw : ℕ → ℕ → ℕ → ℕ → ℕ → State W → Status × State W
  unfolding do_install_gpe_handler
  install_gpe_handler_raw device idx triggering handler ctx s =
      do_install_gpe_handler device idx triggering type_native_raw handler ctx s

  unfoldable pub uninstall_gpe_handler : ℕ → ℕ → ℕ → State W → Status × State W
  unfolding with_gpe uninstall_event
  uninstall_gpe_handler device idx handler s =
      with_gpe (λ d slock. uninstall_event h slock d handler) device idx s

  unfoldable pub enable_gpe : ℕ → ℕ → State W → Status × State W
  unfolding with_gpe enable_event
  enable_gpe device idx s = with_gpe (λ d slock. enable_event h slock d) device idx s

  unfoldable pub disable_gpe : ℕ → ℕ → State W → Status × State W
  unfolding with_gpe
  disable_gpe device idx s = with_gpe (λ d slock. gpe_remove_user h slock) device idx s

  unfoldable pub clear_gpe_status : ℕ → ℕ → State W → Status × State W
  unfolding with_gpe clear_event
  clear_gpe_status device idx s = with_gpe (λ d slock. clear_event h slock) device idx s

  unfoldable pub gpe_suspend_resume : GpeState → ℕ → ℕ → State W → Status × State W
  unfolding with_gpe suspend_resume_event
  gpe_suspend_resume state device idx s =
      with_gpe (λ d slock. suspend_resume_event h slock state) device idx s

  unfoldable pub suspend_gpe : ℕ → ℕ → State W → Status × State W
  unfolding gpe_suspend_resume
  suspend_gpe device idx s = gpe_suspend_resume disabled device idx s

  unfoldable pub resume_gpe : ℕ → ℕ → State W → Status × State W
  unfolding gpe_suspend_resume
  resume_gpe device idx s = gpe_suspend_resume enabled device idx s

  -- The event is looked for twice, with the same result.
  unfoldable pub finish_handling_gpe : ℕ → ℕ → State W → Status × State W
  unfolding with_gpe
  finish_handling_gpe device idx s = with_gpe (λ d slock. restore_gpe h slock) device idx s

  -- `uacpi_mask_gpe` with `true`, and `uacpi_unmask_gpe` with `false`.
  unfoldable pub gpe_get_mask_unmask : Bool → ℕ → ℕ → State W → Status × State W
  unfolding with_gpe
  gpe_get_mask_unmask should_mask device idx s =
      with_gpe (λ d slock. gpe_mask_unmask h slock should_mask) device idx s
