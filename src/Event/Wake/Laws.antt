-- ===== src/Event/Wake/Laws.antt =====
-- What the setup of wake events does to the users of an event, and what the wake masks become.
use u_acpi.Base.{
  ℕ, ◌+◌, ◌-◌, ◌≤◌, ◌<◌, ◌≡◌, refl, Bool, true, false, ◌||◌, Status, ok, err, arith, if◌then◌else◌,
  inl, inr, Bool-cases, ◌==◌,
}
use u_acpi.Base.Bits.{bit, bit-and, bit-or, bit_lt_two}
use u_acpi.Event.{
  EventHost, GpeView, type_none, type_aml, type_native, type_native_raw, type_implicit,
  level_triggering,
}
use u_acpi.Event.Gpe.{gpe_get_mask, gpe_mask_unmask, gpe_mask_safe}
use u_acpi.Event.Gpe.Users.{
  Counted, Step, Same, Same-Step, Step-trans, gpe_remove_user-Step, mask-bit,
}
use u_acpi.Event.Gpe.Masks.{gpe_mask_unmask-Same, gpe_mask_safe-Same}
use u_acpi.Event.Handlers.Laws.{Step-Same, Step-if, Same-refl}
use u_acpi.Event.Wake.{
  add_implicit, configure_implicit, configure_wake, set_wake, setup_wake_event,
  enable_disable_wake_event,
}

module _ {W : Type 0} (h : EventHost W) (slock : ℕ) where
  add_implicit-Same :
      (wake_device : ℕ) (g : GpeView W) → Same g (add_implicit h slock wake_device g).1
  unfolding add_implicit
  add_implicit-Same wake_device g = ground arith

  configure_implicit-Step :
      (wake_device : ℕ) (g : GpeView W)
      → Counted g
      → Step g (configure_implicit h slock wake_device g).1
  unfolding configure_implicit
  configure_implicit-Step wake_device g c =
      let type = g.event.handler_type in
      let g1 : GpeView W = record g {
        event = record g.event { handler_type = type_implicit; triggering = level_triggering };
      } in
      let same = Same-Step g g c (Same-refl g) in
      let added =
        Same-Step g (add_implicit h slock wake_device g).1 c (add_implicit-Same wake_device g) in
      let added1 =
        Same-Step g (add_implicit h slock wake_device g1).1 c (add_implicit-Same wake_device g1) in
      elim (Bool-cases (type == type_none)) [
        | inl e ↦ rw e added1
        | inr e ↦ elim (Bool-cases (type == type_aml)) [
          | inl e1 ↦ rw (e, e1) (gpe_remove_user-Step h slock g c)
          | inr e1 ↦ elim (Bool-cases (type == type_native || type == type_native_raw)) [
            | inl e2 ↦ rw (e, e1, e2) same
            | inr e2 ↦ elim (Bool-cases (type == type_implicit)) [
              | inl e3 ↦ rw (e, e1, e2, e3) added
              | inr e3 ↦ rw (e, e1, e2, e3) same
            ]
          ]
        ]
      ]

  configure_wake-Step :
      (wake_device : ℕ) (g : GpeView W)
      → Counted g
      → Step g (configure_wake h slock wake_device g).1
  unfolding configure_wake
  configure_wake-Step wake_device g c = elim (Bool-cases (wake_device == 0)) [
    | inl e ↦ rw e (Same-Step g g c (Same-refl g))
    | inr e ↦ rw e (configure_implicit-Step wake_device g c)
  ]

  set_wake-Same : (ret : Status) (g : GpeView W) → Same g (set_wake h slock ret g)
  unfolding set_wake
  set_wake-Same ok g = (refl, refl, refl, refl, refl)
  set_wake-Same (err e) g = (refl, refl, refl, refl, refl)

  pub setup_wake_event-Step :
      (wake_device : ℕ) (g : GpeView W)
      → Counted g
      → Step g (setup_wake_event h slock wake_device g).1
  unfolding setup_wake_event
  setup_wake_event-Step wake_device g c =
      let r = gpe_mask_safe h slock g in
      let s1 = Same-Step g r.1 c (gpe_mask_safe-Same h slock g) in
      let q = configure_wake h slock wake_device r.1 in
      let s2 = Step-trans g r.1 q.1 s1 (configure_wake-Step wake_device r.1 s1.0) in
      let g3 = set_wake h slock q.0 q.1 in
      let s3 = Step-Same g q.1 g3 s2 (set_wake-Same q.0 q.1) in
      let g4 = (gpe_mask_unmask h slock false g3).1 in
      Step-if r.0 g g4 g3 (Step-Same g g3 g4 s3 (gpe_mask_unmask-Same h slock false g3)) s3

  -- The wake mask of an event that is set up for waking, one of its register's eight: enabling it
  -- sets its bit and keeps the others; disabling it keeps its bit and clears all others.
  pub enable_disable_wake_event-bit :
      (enabled : Bool) (g : GpeView W) (i : ℕ)
      → g.reg.base_idx ≤ g.event.idx
      → g.event.idx < g.reg.base_idx + 8
      → g.event.wake ≡ true
      → let r = enable_disable_wake_event h slock enabled g in
        (r.0 ≡ ok)
        × (bit i r.1.reg.wake_mask ≡ (
            if i == g.event.idx - g.reg.base_idx
            then (if enabled then 1 else bit i g.reg.wake_mask)
            else (if enabled then bit i g.reg.wake_mask else 0)))
  unfolding enable_disable_wake_event
  enable_disable_wake_event-bit enabled g i lo hi wake = ground (
    arith,
    mask-bit g.event g.reg i hi,
    bit-and i g.reg.wake_mask (gpe_get_mask g.event g.reg),
    bit-or i g.reg.wake_mask (gpe_get_mask g.event g.reg),
    bit_lt_two i g.reg.wake_mask,
  )
