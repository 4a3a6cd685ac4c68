-- ===== src/Event/Gpe/Laws.antt =====
-- What enabling and masking one general purpose event do together.
use u_acpi.Base.{
  ℕ, ◌+◌, ◌-◌, ◌^◌, ◌≤◌, ◌<◌, ◌≡◌, ◌≢◌, refl, ap, ◌∙◌, Bool, true, false, not, ok, err, ◌==◌, ◌||◌,
  if◌then◌else◌, ltb, arith, bit_or, inl, inr, Bool-cases, invalid_argument, some,
}
use u_acpi.Base.Bits.{bit, bit_ext}
use u_acpi.Base.Bits.Shift.{bit_high}
use u_acpi.Gas.Transfer.{gas_read, gas_write}
use u_acpi.Event.{EventHost, GpEvent, GpeRegister, GpeView}
use u_acpi.Event.Gpe.{
  GpeState, disabled, is_disabled, is_conditional, change_enable, overlaps, without, gpe_get_mask,
  next_enable_mask, set_gpe_state, gpe_remove_user, gpe_add_user, gpe_mask_unmask,
}
use u_acpi.Event.Gpe.Users.{Counted, Step-trans, gpe_add_user-Step, gpe_remove_user-Step}
use u_acpi.Event.Gpe.Bits.{next-bit, or-overlaps, without-or}

module _ {W : Type 0} (h : EventHost W) (slock : ℕ) where
  add_ok :
      (clear : Bool) (g : GpeView W)
      → (gpe_add_user h slock clear g).0 ≡ ok
      → ((gpe_add_user h slock clear g).1.event
          ≡ record g.event { num_users = g.event.num_users + 1 })
        × (g.event.num_users ≢ 0xff)
  unfolding gpe_add_user
  add_ok clear g e = ground arith

  remove_ok :
      (g : GpeView W)
      → (gpe_remove_user h slock g).0 ≡ ok
      → (gpe_remove_user h slock g).1.event ≡ record g.event { num_users = g.event.num_users - 1 }
  unfolding gpe_remove_user
  remove_ok g e = ground arith

  -- For an event that is counted, an enabling that returns OK and a disabling after it that
  -- returns OK give back the event and its register's runtime mask.
  pub remove_user-add_user :
      (clear : Bool) (g : GpeView W)
      → Counted g
      → (gpe_add_user h slock clear g).0 ≡ ok
      → (gpe_remove_user h slock (gpe_add_user h slock clear g).1).0 ≡ ok
      → let g' = (gpe_remove_user h slock (gpe_add_user h slock clear g).1).1 in
        (g'.event ≡ g.event) × (g'.reg.runtime_mask ≡ g.reg.runtime_mask)
  remove_user-add_user clear g c e e' =
      let g1 = (gpe_add_user h slock clear g).1 in
      let g2 = (gpe_remove_user h slock g1).1 in
      let s1 = gpe_add_user-Step h slock clear g c in
      let s = Step-trans g g1 g2 s1 (gpe_remove_user-Step h slock g1 s1.0) in
      let a = add_ok clear g e in
      let back : g2.event ≡ g.event =
        remove_ok g1 e'
        ∙ ap (λ (e : GpEvent). record e { num_users = e.num_users - 1 }) a.0
        ∙ ap (λ (n : ℕ). record g.event { num_users = n }) (omega arith) in
      let users : g2.event.num_users ≡ g.event.num_users = ap (λ (e : GpEvent). e.num_users) back in
      (
        back,
        bit_ext g2.reg.runtime_mask g.reg.runtime_mask (λ i. elim (Bool-cases (ltb i 8)) [
          | inl small ↦ elim (Bool-cases (i == g.event.idx - g.reg.base_idx)) [
            | inl here ↦ ground (arith, here, s.0.4, c.4, users, s.2, s.3)
            | inr other ↦ s.4 i (ground arith) (ground arith)
          ]
          | inr large ↦ omega (
            arith,
            bit_high i g2.reg.runtime_mask 8 s.0.2 (ground arith),
            bit_high i g.reg.runtime_mask 8 c.2 (ground arith),
          )
        ]),
      )

  -- For an event that is one of its register's eight, a masking that returns OK keeps any state
  -- but DISABLED from touching the hardware, a second masking is refused, and the unmasking
  -- returns OK and gives back the register's masks. The register's masks fit a byte.
  pub unmask-mask :
      (state : GpeState) (w : W) (g : GpeView W)
      → Counted g
      → g.reg.masked_mask < 2 ^ 8
      → is_disabled state ≡ false
      → (gpe_mask_unmask h slock true g).0 ≡ ok
      → let g' = (gpe_mask_unmask h slock true g).1 in
        let g'' = (gpe_mask_unmask h slock false g').1 in
        (set_gpe_state h slock g'.event g'.reg state w ≡ (ok, w))
        × (gpe_mask_unmask h slock true g' ≡ (err invalid_argument, g'))
        × ((gpe_mask_unmask h slock false g').0 ≡ ok)
        × (g''.event ≡ g.event)
        × (g''.reg ≡ g.reg)
  unfolding gpe_mask_unmask set_gpe_state gpe_get_mask
  unmask-mask state w g c b d e =
      let m = g.reg.masked_mask in
      let bits = gpe_get_mask g.event g.reg in
      let open_before : overlaps m bits ≡ false = ground arith in
      let shut = or-overlaps g.event g.reg m c.0 c.1 in
      let back = without-or g.event g.reg m c.0 c.1 b open_before in
      let masked = record g.reg { masked_mask = bit_or m bits } in
      let same : record g.reg { masked_mask = without (bit_or m bits) bits } ≡ g.reg =
        ap (λ (n : ℕ). record g.reg { masked_mask = n }) back in
      let w2 =
        h.wait_for_work
          (set_gpe_state h slock g.event masked disabled (h.wait_for_work g.world)).1 in
      let step : gpe_mask_unmask h slock true g ≡ (ok, record g { reg = masked; world = w2 }) =
        rw open_before refl in
      rw step (rw (d, shut) refl, rw shut refl, rw shut refl, rw shut refl, rw shut same)

  -- For an event that is one of its register's eight, and a state ENABLED whose event is not
  -- masked, or DISABLED: if the enable register can be read, one value is written to it, under the
  -- lock, whose bit of the event is as the state says and whose other bits are as they were read.
  pub set_gpe_state-bit :
      (event : GpEvent) (reg : GpeRegister) (state : GpeState) (i : ℕ) (w : W)
      → reg.base_idx ≤ event.idx
      → event.idx < reg.base_idx + 8
      → (is_disabled state || not (overlaps reg.masked_mask (gpe_get_mask event reg))) ≡ true
      → is_conditional state ≡ false
      → (gas_read h.io (some reg.enable) (h.spin.lock slock w)).0 ≡ ok
      → i < 64
      → let (ret, m, w1) = gas_read h.io (some reg.enable) (h.spin.lock slock w) in
        (n : ℕ) × (set_gpe_state h slock event reg state w ≡ (
          (gas_write h.io (some reg.enable) n w1).0,
          h.spin.unlock slock (gas_write h.io (some reg.enable) n w1).1,
        ))
        × (bit i n ≡ (
            if i == event.idx - reg.base_idx
            then (if is_disabled state then 0 else 1)
            else bit i m))
  unfolding set_gpe_state change_enable
  set_gpe_state-bit event reg state i w lo hi a s e b =
      let m = (gas_read h.io (some reg.enable) (h.spin.lock slock w)).1 in
      (
        next_enable_mask state (gpe_get_mask event reg) m,
        ground arith,
        next-bit state event reg m i hi b,
      )
