-- ===== src/Event/Gpe/Masks.antt =====
-- The operations on one general purpose event that leave its users and their bit as they are.
use u_acpi.Base.{ℕ, ◌≡◌, refl, Bool, true, false, arith, inl, inr, Bool-cases, some, ◌∙◌, ap}
use u_acpi.Gas.Transfer.{gas_read}
use u_acpi.Event.{EventHost, GpEvent, GpeView, at_world}
use u_acpi.Event.Gpe.{
  set_gpe_state, disabled, restore_gpe, reenable, clear_gpe, gpe_mask_unmask, gpe_mask_safe,
  overlaps, gpe_get_mask,
}
use u_acpi.Event.Gpe.Users.{Same}
use u_acpi.Event.Dispatch.{
  call_native, dispatch_managed, dispatch_disabled, dispatch_gpe, maybe_dispatch_gpe,
}

-- The event changes in nothing but `block_interrupts`.
abbrev pub Quiet : {W : Type 0} → GpeView W → GpeView W → Type 0
Quiet g g' =
    (g'.event ≡ record g.event { block_interrupts = g'.event.block_interrupts })
    × (g'.reg.base_idx ≡ g.reg.base_idx)
    × (g'.reg.runtime_mask ≡ g.reg.runtime_mask)

module _ {W : Type 0} where
  Quiet-Same : (g g' : GpeView W) → Quiet g g' → Same g g'
  Quiet-Same g g' (e, b, m) = (
    ap (λ (x : GpEvent). x.reg) e,
    ap (λ (x : GpEvent). x.idx) e,
    ap (λ (x : GpEvent). x.num_users) e,
    b,
    m,
  )

  pub Same-trans : (g g1 g2 : GpeView W) → Same g g1 → Same g1 g2 → Same g g2
  Same-trans g g1 g2 (a, b, c, d, e) (a', b', c', d', e') = (a' ∙ a, b' ∙ b, c' ∙ c, d' ∙ d, e' ∙ e)

module _ {W : Type 0} (h : EventHost W) (slock : ℕ) where
  pub gpe_mask_unmask-Same :
      (should_mask : Bool) (g : GpeView W) → Same g (gpe_mask_unmask h slock should_mask g).1
  unfolding gpe_mask_unmask
  gpe_mask_unmask-Same true g =
      elim (Bool-cases (overlaps g.reg.masked_mask (gpe_get_mask g.event g.reg))) [
        | inl e ↦ rw e (refl, refl, refl, refl, refl)
        | inr e ↦ rw e (refl, refl, refl, refl, refl)
      ]
  gpe_mask_unmask-Same false g =
      elim (Bool-cases (overlaps g.reg.masked_mask (gpe_get_mask g.event g.reg))) [
        | inl e ↦ rw e (refl, refl, refl, refl, refl)
        | inr e ↦ rw e (refl, refl, refl, refl, refl)
      ]

  pub gpe_mask_safe-Same : (g : GpeView W) → Same g (gpe_mask_safe h slock g).1
  unfolding gpe_mask_safe
  gpe_mask_safe-Same g =
      elim (Bool-cases (overlaps g.reg.current_mask (gpe_get_mask g.event g.reg))) [
        | inl e ↦ rw e (gpe_mask_unmask-Same true g)
        | inr e ↦ rw e (refl, refl, refl, refl, refl)
      ]

  reenable-Quiet : (g : GpeView W) → Quiet g (reenable h slock g).1
  unfolding reenable
  reenable-Quiet g = (refl, refl, refl)

  pub restore_gpe-Quiet : (g : GpeView W) → Quiet g (restore_gpe h slock g).1
  unfolding restore_gpe reenable
  restore_gpe-Quiet g = ground arith

  call_native-Quiet : (device : ℕ) (g : GpeView W) → Quiet g (call_native h slock device g).1
  unfolding call_native
  call_native-Quiet device g = ground arith

  dispatch_managed-Quiet :
      (device : ℕ) (g : GpeView W) → Quiet g (dispatch_managed h slock device g).1
  unfolding dispatch_managed
  dispatch_managed-Quiet device g =
      let g' = (call_native h slock device g).1 in
      ground (arith, call_native-Quiet device g, restore_gpe-Quiet g')

  dispatch_disabled-Quiet :
      (device : ℕ) (g : GpeView W) → Quiet g (dispatch_disabled h slock device g).1
  unfolding dispatch_disabled
  dispatch_disabled-Quiet device g =
      let w = (clear_gpe h slock g.event g.reg g.world).1 in
      ground (arith, dispatch_managed-Quiet device g, dispatch_managed-Quiet device (at_world g w))

  pub dispatch_gpe-Quiet : (device : ℕ) (g : GpeView W) → Quiet g (dispatch_gpe h slock device g).1
  unfolding dispatch_gpe
  dispatch_gpe-Quiet device g =
      let w = (set_gpe_state h slock g.event g.reg disabled g.world).1 in
      let blocked : GpeView W = record g {
        world = w;
        event = record g.event { block_interrupts = true };
      } in
      ground (arith, call_native-Quiet device g, dispatch_disabled-Quiet device blocked)

  pub maybe_dispatch_gpe-Quiet :
      (device : ℕ) (g : GpeView W) → Quiet g (maybe_dispatch_gpe h slock device g).1
  unfolding maybe_dispatch_gpe
  maybe_dispatch_gpe-Quiet device g =
      let w = (gas_read h.io (some g.reg.status) g.world).2 in
      ground (arith, dispatch_gpe-Quiet device (at_world g w))

  pub restore_gpe-Same : (g : GpeView W) → Same g (restore_gpe h slock g).1
  restore_gpe-Same g = Quiet-Same g (restore_gpe h slock g).1 (restore_gpe-Quiet g)

  pub dispatch_gpe-Same : (device : ℕ) (g : GpeView W) → Same g (dispatch_gpe h slock device g).1
  dispatch_gpe-Same device g =
      Quiet-Same g (dispatch_gpe h slock device g).1 (dispatch_gpe-Quiet device g)

  pub maybe_dispatch_gpe-Same :
      (device : ℕ) (g : GpeView W) → Same g (maybe_dispatch_gpe h slock device g).1
  maybe_dispatch_gpe-Same device g =
      Quiet-Same g (maybe_dispatch_gpe h slock device g).1 (maybe_dispatch_gpe-Quiet device g)
