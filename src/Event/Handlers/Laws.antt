-- ===== src/Event/Handlers/Laws.antt =====
-- What the calls on one event do to its users, and what removing a native handler gives back.
use u_acpi.Base.{
  ℕ, refl, Bool, true, false, not, ◌&&◌, if◌then◌else◌, inl, inr, Status-cases, Bool-cases, ◌==◌,
}
use u_acpi.Event.{
  EventHost, GpEvent, GpeView, AnyHandler, no_pointer, aml, implicit, native, at_world, type_none,
}
use u_acpi.Event.Gpe.{
  gpe_mask_unmask, gpe_mask_safe, gpe_remove_user, gpe_add_user, gpe_needs_polling,
}
use u_acpi.Event.Gpe.Users.{
  Counted, Step, Same, Same-Step, Step-trans, gpe_add_user-Step, gpe_remove_user-Step,
}
use u_acpi.Event.Gpe.Masks.{gpe_mask_unmask-Same, gpe_mask_safe-Same, maybe_dispatch_gpe-Same}
use u_acpi.Event.Dispatch.{maybe_dispatch_gpe}
use u_acpi.Event.Block.{sizeof_native_handler}
use u_acpi.Event.Handlers.{
  is_native, is_automatic, install_native, install_event, uninstall_native, uninstall_found,
  uninstall_event, enable_event,
}

module _ {W : Type 0} where
  -- Changes that nothing counted sees, before, between and after a step.
  pub Step-Same : (g g1 g2 : GpeView W) → Step g g1 → Same g1 g2 → Step g g2
  Step-Same g g1 g2 s e = Step-trans g g1 g2 s (Same-Step g1 g2 s.0 e)

  pub Step-if :
      (b : Bool) (g g1 g2 : GpeView W) → Step g g1 → Step g g2 → Step g (if b then g1 else g2)
  Step-if true g g1 g2 s t = s
  Step-if false g g1 g2 s t = t

  pub Same-refl : (g : GpeView W) → Same g g
  Same-refl g = (refl, refl, refl, refl, refl)

module _ {W : Type 0} (h : EventHost W) (slock : ℕ) where
  install_native-Step :
      (triggering type handler ctx : ℕ) (g : GpeView W)
      → Counted g
      → Step g (install_native h slock triggering type handler ctx g)
  unfolding install_native
  install_native-Step triggering type handler ctx g c =
      let r = gpe_mask_safe h slock g in
      let g1 = r.1 in
      let was_enabled = is_automatic g1.event.handler_type && not (g1.event.num_users == 0) in
      let s1 = Same-Step g g1 c (gpe_mask_safe-Same h slock g) in
      let removed = (gpe_remove_user h slock g1).1 in
      let g2 = if was_enabled then removed else g1 in
      let s2 : Step g g2 =
        Step-if was_enabled g removed g1
          (Step-trans g g1 removed s1 (gpe_remove_user-Step h slock g1 s1.0)) s1 in
      let saved =
        native handler ctx g.event.any_handler g.event.triggering g.event.handler_type
          was_enabled in
      let event : GpEvent = record g2.event {
        any_handler = saved;
        handler_type = type;
        triggering = triggering;
      } in
      let g3 : GpeView W = record g2 { event = event } in
      let s3 = Step-Same g g2 g3 s2 (refl, refl, refl, refl, refl) in
      let g4 = (gpe_mask_unmask h slock false g3).1 in
      Step-if r.0 g g4 g3 (Step-Same g g3 g4 s3 (gpe_mask_unmask-Same h slock false g3)) s3

  pub install_event-Step :
      (triggering type handler ctx : ℕ) (g : GpeView W)
      → Counted g
      → Step g (install_event h slock triggering type handler ctx g).1
  unfolding install_event
  install_event-Step triggering type handler ctx g c =
      let r = h.memory.alloc sizeof_native_handler g.world in
      let s = install_native-Step triggering type handler ctx (at_world g r.1) c in
      let same = Same-Step g g c (Same-refl g) in
      elim (Bool-cases (is_native g.event)) [
        | inl e ↦ rw e same
        | inr e ↦ elim (Bool-cases r.0) [ inl a ↦ rw (e, a) s | inr a ↦ rw (e, a) same ]
      ]

  uninstall_native-Step :
      (previous : AnyHandler) (triggering type : ℕ) (was_enabled : Bool) (g : GpeView W)
      → Counted g
      → Step g (uninstall_native h slock previous triggering type was_enabled g)
  unfolding uninstall_native
  uninstall_native-Step previous triggering type was_enabled g c =
      let r = gpe_mask_safe h slock g in
      let g1 = r.1 in
      let s1 = Same-Step g g1 c (gpe_mask_safe-Same h slock g) in
      let event : GpEvent = record g1.event {
        any_handler = previous;
        triggering = triggering;
        handler_type = type;
      } in
      let g2 : GpeView W = record g1 { event = event } in
      let s2 = Step-Same g g1 g2 s1 (refl, refl, refl, refl, refl) in
      let added = (gpe_add_user h slock false g2).1 in
      let g3 = if is_automatic type && was_enabled then added else g2 in
      let s3 : Step g g3 =
        Step-if (is_automatic type && was_enabled) g added g2
          (Step-trans g g2 added s2 (gpe_add_user-Step h slock false g2 s2.0)) s2 in
      let g4 : GpeView W = at_world g3 (h.memory.free sizeof_native_handler g3.world) in
      let s4 = Step-Same g g3 g4 s3 (refl, refl, refl, refl, refl) in
      let g5 = (gpe_mask_unmask h slock false g4).1 in
      Step-if r.0 g g5 g4 (Step-Same g g4 g5 s4 (gpe_mask_unmask-Same h slock false g4)) s4

  polled-Step :
      (device : ℕ) (g g1 : GpeView W)
      → Step g g1
      → Step g (if gpe_needs_polling g1.event then (maybe_dispatch_gpe h slock device g1).1 else g1)
  polled-Step device g g1 s =
      let g2 = (maybe_dispatch_gpe h slock device g1).1 in
      Step-if (gpe_needs_polling g1.event) g g2 g1
        (Step-Same g g1 g2 s (maybe_dispatch_gpe-Same h slock device g1)) s

  uninstall_found-Step :
      (device handler : ℕ) (any : AnyHandler) (g : GpeView W)
      → Counted g
      → Step g (uninstall_found h slock device handler any g).1
  unfolding uninstall_found
  uninstall_found-Step device handler (native cb ctx previous triggering type was_enabled) g c =
      let g1 = uninstall_native h slock previous triggering type was_enabled g in
      let s = uninstall_native-Step previous triggering type was_enabled g c in
      elim (Bool-cases (cb == handler)) [
        | inl e ↦ rw e (polled-Step device g g1 s)
        | inr e ↦ rw e (Same-Step g g c (Same-refl g))
      ]
  uninstall_found-Step device handler no_pointer g c = Same-Step g g c (Same-refl g)
  uninstall_found-Step device handler (aml node) g c = Same-Step g g c (Same-refl g)
  uninstall_found-Step device handler (implicit devices) g c = Same-Step g g c (Same-refl g)

  pub uninstall_event-Step :
      (device handler : ℕ) (g : GpeView W)
      → Counted g
      → Step g (uninstall_event h slock device handler g).1
  unfolding uninstall_event
  uninstall_event-Step device handler g c = elim (Bool-cases (is_native g.event)) [
    | inl e ↦ rw e (uninstall_found-Step device handler g.event.any_handler g c)
    | inr e ↦ rw e (Same-Step g g c (Same-refl g))
  ]

  pub enable_event-Step :
      (device : ℕ) (g : GpeView W) → Counted g → Step g (enable_event h slock device g).1
  unfolding enable_event
  enable_event-Step device g c =
      let r = gpe_add_user h slock true g in
      let s = gpe_add_user-Step h slock true g c in
      elim (Bool-cases (g.event.handler_type == type_none)) [
        | inl e ↦ rw e (Same-Step g g c (Same-refl g))
        | inr e ↦ elim (Status-cases r.0) [
          | inl o ↦ rw (e, o) (polled-Step device g r.1 s)
          | inr (x, o) ↦ rw (e, o) s
        ]
      ]
