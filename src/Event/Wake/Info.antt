-- ===== src/Event/Wake/Info.antt =====
-- source/event.c: `uacpi_fixed_event_info` and `uacpi_gpe_info`.
use u_acpi.Base.{
  ℕ, ◌+◌, Bool, not, Status, ok, err, not_found, init_level_mismatch, ltb, ◌==◌, if◌then◌else◌,
  none, some,
}
use u_acpi.Gas.Transfer.{gas_read}
use u_acpi.Registers.{read_register_field}
use u_acpi.Event.{EventHost, Platform, GpeView, State, in_world, type_none}
use u_acpi.Event.Gpe.{gpe_get_mask, overlaps}
use u_acpi.Event.Fixed.{fixed_events, is_null, fixed_guard}
use u_acpi.Event.Store.{get_gpe, view}
use u_acpi.Event.Lock.{acquire_event_lock, release_event_lock}
use u_acpi.Event.Handlers.{sanitized}

-- The bits of `uacpi_event_info`, each or 0.
abbrev flag : Bool → ℕ → ℕ
flag test value = if test then value else 0

abbrev pub info_enabled : ℕ
info_enabled = 1

abbrev pub info_enabled_for_wake : ℕ
info_enabled_for_wake = 2

abbrev pub info_masked : ℕ
info_masked = 4

abbrev pub info_has_handler : ℕ
info_has_handler = 8

abbrev pub info_hw_enabled : ℕ
info_hw_enabled = 16

abbrev pub info_hw_status : ℕ
info_hw_status = 32

-- The frame of `Lock.locked`, with a number for the caller; 0 where the status is an error, since
-- nothing is written then.
unfoldable pub locked_value :
    {W : Type 0} (h : EventHost W)
    → (State W → Status × ℕ × State W)
    → State W
    → Status × ℕ × State W
locked_value h body s =
    let (ret, s1) = acquire_event_lock h s in
    let (ret', value, s2) = body s1 in
    elim ret [ ok ↦ (ret', value, release_event_lock h s2) | err e ↦ (err e, 0, s1) ]

module _ {W : Type 0} (h : EventHost W) (p : Platform) where
  unfoldable pub fixed_info_body : ℕ → State W → Status × ℕ × State W
  fixed_info_body event s =
      let ev = fixed_events event in
      let has = flag (not (is_null (s.handlers event).handler)) info_has_handler in
      let (ret, raw, w1) =
        read_register_field h.io h.spin p.blocks ev.enable_field p.before s.world in
      let on = flag (not (raw == 0)) (info_enabled + info_hw_enabled) in
      let (ret', raw', w2) = read_register_field h.io h.spin p.blocks ev.status_field p.before w1 in
      let fired = flag (not (raw' == 0)) info_hw_status in
      elim ret [
        | err e ↦ (err e, 0, in_world s w1)
        | ok ↦ elim ret' [
          | err e ↦ (err e, 0, in_world s w2)
          | ok ↦ (ok, has + on + fired, in_world s w2)
        ]
      ]

  unfoldable pub fixed_event_info : ℕ → State W → Status × ℕ × State W
  unfolding locked_value fixed_info_body
  fixed_event_info event s =
      fixed_guard h p s event (λ ret. (ret, 0, s)) (err not_found)
        (locked_value h (fixed_info_body event) s)

  unfoldable pub gpe_info_event : GpeView W → Status × ℕ × W
  gpe_info_event g =
      let mask = gpe_get_mask g.event g.reg in
      let known =
        flag (not (g.event.handler_type == type_none)) info_has_handler
        + flag (overlaps g.reg.runtime_mask mask) info_enabled
        + flag (overlaps g.reg.masked_mask mask) info_masked
        + flag (overlaps g.reg.wake_mask mask) info_enabled_for_wake in
      let (ret, raw, w1) = gas_read h.io (some g.reg.enable) g.world in
      let (ret', raw', w2) = gas_read h.io (some g.reg.status) w1 in
      let on = flag (overlaps raw mask) info_hw_enabled in
      let fired = flag (overlaps raw' mask) info_hw_status in
      elim ret [
        | err e ↦ (err e, 0, w1)
        | ok ↦ elim ret' [ err e ↦ (err e, 0, w2) | ok ↦ (ok, known + on + fired, w2) ]
      ]

  unfoldable pub gpe_info_body : ℕ → ℕ → State W → Status × ℕ × State W
  unfolding gpe_info_event
  gpe_info_body device idx s = elim (get_gpe s (sanitized h p device) idx) [
    | none ↦ (err not_found, 0, s)
    | some (block, offset) ↦
        let (ret, info, w) = gpe_info_event (view s block offset) in (ret, info, in_world s w)
  ]

  unfoldable pub gpe_info : ℕ → ℕ → State W → Status × ℕ × State W
  unfolding locked_value gpe_info_body
  gpe_info device idx s =
      if ltb s.init_level 2
      then (err init_level_mismatch, 0, s)
      else locked_value h (gpe_info_body device idx) s
