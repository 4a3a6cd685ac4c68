-- ===== src/Event/Handlers/Restore.antt =====
-- Installing a native handler for an event and removing it gives the event back what it had.
use u_acpi.Base.{
  ℕ, ◌≡◌, refl, ap, ◌∙◌, Bool, true, false, not, ◌&&◌, ◌||◌, ok, arith, if◌then◌else◌, ◌==◌,
}
use u_acpi.Event.{
  EventHost, GpEvent, GpeView, AnyHandler, native, at_world, type_native, type_native_raw,
}
use u_acpi.Event.Gpe.{
  gpe_mask_unmask, gpe_mask_safe, gpe_remove_user, gpe_add_user, gpe_needs_polling,
}
use u_acpi.Event.Gpe.Masks.{maybe_dispatch_gpe-Quiet}
use u_acpi.Event.Dispatch.{maybe_dispatch_gpe}
use u_acpi.Event.Block.{sizeof_native_handler}
use u_acpi.Event.Handlers.{
  is_native, is_automatic, install_native, install_event, uninstall_native, uninstall_found,
  uninstall_event,
}

-- The parts of an event that a handler is made of.
abbrev pub HasHandler : GpEvent → AnyHandler → ℕ → ℕ → Type 0
HasHandler event any triggering type =
    (event.any_handler ≡ any) × (event.triggering ≡ triggering) × (event.handler_type ≡ type)

if-HasHandler :
    {W : Type 0} (b : Bool) (g g' : GpeView W) (any : AnyHandler) (triggering type : ℕ)
    → HasHandler g.event any triggering type
    → HasHandler g'.event any triggering type
    → HasHandler (if b then g else g').event any triggering type
if-HasHandler true g g' any triggering type k k' = k
if-HasHandler false g g' any triggering type k k' = k'

module _ {W : Type 0} (h : EventHost W) (slock : ℕ) where
  mask_unmask-HasHandler :
      (b : Bool) (g : GpeView W)
      → HasHandler
          (gpe_mask_unmask h slock b g).1.event
          g.event.any_handler
          g.event.triggering
          g.event.handler_type
  unfolding gpe_mask_unmask
  mask_unmask-HasHandler b g = ground arith

  add_user-HasHandler :
      (g : GpeView W)
      → HasHandler
          (gpe_add_user h slock false g).1.event
          g.event.any_handler
          g.event.triggering
          g.event.handler_type
  unfolding gpe_add_user
  add_user-HasHandler g = ground arith

  install_native-HasHandler :
      (triggering type handler ctx : ℕ) (g : GpeView W)
      → (was : Bool) × HasHandler
          (install_native h slock triggering type handler ctx g).event
          (native handler ctx g.event.any_handler g.event.triggering g.event.handler_type was)
          triggering
          type
  unfolding install_native
  install_native-HasHandler triggering type handler ctx g =
      let r = gpe_mask_safe h slock g in
      let g1 = r.1 in
      let was_enabled = is_automatic g1.event.handler_type && not (g1.event.num_users == 0) in
      let g2 = if was_enabled then (gpe_remove_user h slock g1).1 else g1 in
      let saved =
        native handler ctx g.event.any_handler g.event.triggering g.event.handler_type
          was_enabled in
      let event : GpEvent = record g2.event {
        any_handler = saved;
        handler_type = type;
        triggering = triggering;
      } in
      let g3 : GpeView W = record g2 { event = event } in
      (
        was_enabled,
        if-HasHandler r.0 (gpe_mask_unmask h slock false g3).1 g3 saved triggering type
            (mask_unmask-HasHandler false g3) (refl, refl, refl),
      )

  uninstall_native-HasHandler :
      (any : AnyHandler) (triggering type : ℕ) (was : Bool) (g : GpeView W)
      → HasHandler (uninstall_native h slock any triggering type was g).event any triggering type
  unfolding uninstall_native
  uninstall_native-HasHandler any triggering type was g =
      let r = gpe_mask_safe h slock g in
      let event : GpEvent = record r.1.event {
        any_handler = any;
        triggering = triggering;
        handler_type = type;
      } in
      let g2 : GpeView W = record r.1 { event = event } in
      let added = (gpe_add_user h slock false g2).1 in
      let g3 = if is_automatic type && was then added else g2 in
      let k3 : HasHandler g3.event any triggering type =
        if-HasHandler (is_automatic type && was) added g2 any triggering type
          (add_user-HasHandler g2) (refl, refl, refl) in
      let g4 : GpeView W = at_world g3 (h.memory.free sizeof_native_handler g3.world) in
      let m = mask_unmask-HasHandler false g4 in
      if-HasHandler r.0 (gpe_mask_unmask h slock false g4).1 g4 any triggering type
        (m.0 ∙ k3.0, m.1 ∙ k3.1, m.2 ∙ k3.2) k3

  abbrev polled : ℕ → GpeView W → GpeView W
  polled device g = if gpe_needs_polling g.event then (maybe_dispatch_gpe h slock device g).1 else g

  polled-HasHandler :
      (device : ℕ) (g : GpeView W)
      → HasHandler
          (polled device g).event
          g.event.any_handler
          g.event.triggering
          g.event.handler_type
  polled-HasHandler device g =
      let g' = (maybe_dispatch_gpe h slock device g).1 in
      let e = (maybe_dispatch_gpe-Quiet h slock device g).0 in
      if-HasHandler (gpe_needs_polling g.event) g' g g.event.any_handler g.event.triggering
        g.event.handler_type
        (
          ap (λ (x : GpEvent). x.any_handler) e,
          ap (λ (x : GpEvent). x.triggering) e,
          ap (λ (x : GpEvent). x.handler_type) e,
        )
        (refl, refl, refl)

  -- Installing a native handler, of either type, for an event and removing it again: the
  -- installation returning OK, the removal of the same handler returns OK too, and the event has
  -- the handler, the triggering and the type of handler that it had before.
  pub uninstall_event-install_event :
      (device triggering type handler ctx : ℕ) (g : GpeView W)
      → (type == type_native || type == type_native_raw) ≡ true
      → (install_event h slock triggering type handler ctx g).0 ≡ ok
      → let g1 = (install_event h slock triggering type handler ctx g).1 in
        let r = uninstall_event h slock device handler g1 in
        (r.0 ≡ ok)
        × HasHandler r.1.event g.event.any_handler g.event.triggering g.event.handler_type
  unfolding install_event uninstall_event uninstall_found
  uninstall_event-install_event device triggering type handler ctx g t e =
      let r = h.memory.alloc sizeof_native_handler g.world in
      let g0 : GpeView W = at_world g r.1 in
      let gi = install_native h slock triggering type handler ctx g0 in
      let k = install_native-HasHandler triggering type handler ctx g0 in
      let foreign : is_native g.event ≡ false = ground (arith, e) in
      let got : r.0 ≡ true = ground (arith, e, foreign) in
      let step : install_event h slock triggering type handler ctx g ≡ (ok, gi) =
        rw (foreign, got) refl in
      let own : is_native gi.event ≡ true = rw k.1.2 t in
      let self : (handler == handler) ≡ true = ground arith in
      let old = g.event in
      let back = uninstall_native h slock old.any_handler old.triggering old.handler_type k.0 gi in
      let done : uninstall_event h slock device handler gi ≡ (ok, polled device back) =
        rw (uninstall_event, own, k.1.0, uninstall_found, self) refl in
      let b = uninstall_native-HasHandler old.any_handler old.triggering old.handler_type k.0 gi in
      let q = polled-HasHandler device back in
      rw (step, done) (refl, (q.0 ∙ b.0, q.1 ∙ b.1, q.2 ∙ b.2))
