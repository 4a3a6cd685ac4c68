-- ===== src/Event/Gpe.antt =====
-- source/event.c: the operations on one general purpose event and its register. `slock` is
-- `g_gpe_state_slock`, and `device` the node that the event's block belongs to.
pub mod Users
pub mod Masks
pub mod Bits
pub mod Laws
use u_acpi.Base.{
  ℕ, ◌+◌, ◌-◌, ◌%◌, ◌^◌, Bool, true, false, ◌&&◌, ◌||◌, not, Status, ok, err, invalid_argument,
  ◌==◌, if◌then◌else◌, ltb, bit_and, bit_or, List, [], ◌∷◌, some,
}
use u_acpi.Gas.Transfer.{gas_read, gas_write}
use u_acpi.Registers.{complement}
use u_acpi.Event.{
  EventHost, at_world, GpEvent, GpeRegister, GpeView, AnyHandler, no_pointer, aml, implicit, native,
  not_handled, handled, gpe_reenable, type_none, type_aml, type_native, type_native_raw,
  type_implicit, level_triggering, edge_triggering,
}

-- An event's index is at least its register's; below it the shift of the source is undefined.
unfoldable pub gpe_get_mask : GpEvent → GpeRegister → ℕ
gpe_get_mask event reg = 2 ^ (event.idx - reg.base_idx) % 2 ^ 8

-- `mask & bits` as a condition.
unfoldable pub overlaps : ℕ → ℕ → Bool
overlaps mask bits = not (bit_and mask bits == 0)

pub data GpeState : Type 0 where
  enabled enabled_conditionally disabled : GpeState

abbrev pub is_disabled : GpeState → Bool
is_disabled disabled = true
is_disabled _ = false

abbrev pub is_conditional : GpeState → Bool
is_conditional enabled_conditionally = true
is_conditional _ = false

-- The switch on the state, after ENABLED_CONDITIONALLY became ENABLED; ~ is taken at 64 bits.
unfoldable pub next_enable_mask : GpeState → ℕ → ℕ → ℕ
next_enable_mask disabled event_bit enable_mask = bit_and enable_mask (complement event_bit)
next_enable_mask _ event_bit enable_mask = bit_or enable_mask event_bit

-- `reg->runtime_mask &= ~this_mask` at 8 bits.
unfoldable pub without : ℕ → ℕ → ℕ
without mask bits = bit_and mask (2 ^ 8 - 1 - bits)

unfoldable pub gp_event_toggle_masks : GpEvent → Bool → GpeRegister → GpeRegister
unfolding without
gp_event_toggle_masks event set_on reg =
    let this_mask = gpe_get_mask event reg in
    let runtime =
      if set_on then bit_or reg.runtime_mask this_mask else without reg.runtime_mask this_mask in
    record reg { runtime_mask = runtime; current_mask = runtime }

unfoldable pub gpe_needs_polling : GpEvent → Bool
gpe_needs_polling event = not (event.num_users == 0) && (event.triggering == edge_triggering)

module _ {W : Type 0} (h : EventHost W) (slock : ℕ) where
  -- Reading the enable register, and writing it with the event's bit changed.
  unfoldable pub change_enable : GpeRegister → GpeState → ℕ → W → Status × W
  unfolding next_enable_mask
  change_enable reg state event_bit w =
      let (ret, enable_mask, w1) = gas_read h.io (some reg.enable) w in
      elim ret [
        | ok ↦ gas_write h.io (some reg.enable) (next_enable_mask state event_bit enable_mask) w1
        | err e ↦ (err e, w1)
      ]

  unfoldable pub set_gpe_state : GpEvent → GpeRegister → GpeState → W → Status × W
  unfolding overlaps change_enable
  set_gpe_state event reg state w =
      let event_bit = gpe_get_mask event reg in
      let (ret, w') = change_enable reg state event_bit (h.spin.lock slock w) in
      if not (is_disabled state) && overlaps reg.masked_mask event_bit
      then (ok, w)
      else (if is_conditional state && not (overlaps reg.current_mask event_bit)
          then (ok, w)
          else (ret, h.spin.unlock slock w'))

  unfoldable pub clear_gpe : GpEvent → GpeRegister → W → Status × W
  clear_gpe event reg w = gas_write h.io (some reg.status) (gpe_get_mask event reg) w

  -- The end of `restore_gpe`, which a level-triggered event reaches only if it could be cleared.
  unfoldable pub reenable : GpeView W → Status × GpeView W
  reenable g =
      let (ret, w) = set_gpe_state g.event g.reg enabled_conditionally g.world in
      (ret, record g { world = w; event = record g.event { block_interrupts = false } })

  unfoldable pub restore_gpe : GpeView W → Status × GpeView W
  unfolding reenable
  restore_gpe g =
      let (ret, w) = clear_gpe g.event g.reg g.world in
      if g.event.triggering == level_triggering
      then (elim ret [ ok ↦ reenable (at_world g w) | err e ↦ (err e, at_world g w) ])
      else reenable g

  -- The count down, and back up with the masks if the event cannot be disabled.
  unfoldable pub gpe_remove_user : GpeView W → Status × GpeView W
  gpe_remove_user g =
      let fewer = record g.event { num_users = g.event.num_users - 1 } in
      let off = gp_event_toggle_masks fewer false g.reg in
      let (ret, w) = set_gpe_state fewer off disabled g.world in
      let last : Status × GpeView W = elim ret [
        | ok ↦ (ok, record { event = fewer; reg = off; world = w })
        | err e ↦ (
          err e,
          record { event = g.event; reg = gp_event_toggle_masks fewer true off; world = w },
        )
      ] in
      if g.event.num_users == 0
      then (err invalid_argument, g)
      else (if fewer.num_users == 0 then last else (ok, record g { event = fewer }))

  unfoldable pub gpe_add_user : Bool → GpeView W → Status × GpeView W
  gpe_add_user clear_if_first g =
      let more = record g.event { num_users = g.event.num_users + 1 } in
      let w1 = if clear_if_first then (clear_gpe more g.reg g.world).1 else g.world in
      let on = gp_event_toggle_masks more true g.reg in
      let (ret, w) = set_gpe_state more on enabled w1 in
      let first : Status × GpeView W = elim ret [
        | ok ↦ (ok, record { event = more; reg = on; world = w })
        | err e ↦ (
          err e,
          record { event = g.event; reg = gp_event_toggle_masks more false on; world = w },
        )
      ] in
      if g.event.num_users == 0xff
      then (err invalid_argument, g)
      else (if more.num_users == 1 then first else (ok, record g { event = more }))

  unfoldable pub gpe_mask_unmask : Bool → GpeView W → Status × GpeView W
  gpe_mask_unmask should_mask g =
      let mask = gpe_get_mask g.event g.reg in
      let is_masked = overlaps g.reg.masked_mask mask in
      let masked = record g.reg { masked_mask = bit_or g.reg.masked_mask mask } in
      let unmasked = record g.reg { masked_mask = without g.reg.masked_mask mask } in
      let w1 = h.wait_for_work g.world in
      let w2 = h.wait_for_work (set_gpe_state g.event masked disabled w1).1 in
      let w3 =
        if not g.event.block_interrupts && not (g.event.num_users == 0)
        then (set_gpe_state g.event unmasked enabled_conditionally g.world).1
        else g.world in
      if should_mask
      then (if is_masked
          then (err invalid_argument, g)
          else (ok, record g { reg = masked; world = w2 }))
      else (if is_masked
          then (ok, record g { reg = unmasked; world = w3 })
          else (err invalid_argument, g))

  unfoldable pub gpe_mask_safe : GpeView W → Bool × GpeView W
  gpe_mask_safe g =
      if overlaps g.reg.current_mask (gpe_get_mask g.event g.reg)
      then (true, (gpe_mask_unmask true g).1)
      else (false, g)
