-- ===== src/Event/Gpe/Users.antt =====
-- The users of one general purpose event: its bit of the register's runtime mask.
use u_acpi.Base.{
  ℕ, ◌+◌, ◌-◌, ◌^◌, ◌≤◌, ◌<◌, ◌≡◌, ◌≢◌, ◌∙◌, refl, Bool, true, false, ◌==◌, if◌then◌else◌, arith,
  bit_and, bit_or, inl, inr, Status-cases, Bool-cases,
}
use u_acpi.Base.Bits.{bit, bit-and, bit-or, bit-complement, bit_lt_two}
use u_acpi.Base.Bits.Shift.{bit-shl, bit_high, lt_of_bits, bit-mod}
use u_acpi.Event.{EventHost, GpEvent, GpeRegister, GpeView}
use u_acpi.Event.Gpe.{
  gpe_get_mask, without, gp_event_toggle_masks, set_gpe_state, gpe_remove_user, gpe_add_user,
  clear_gpe, enabled, disabled,
}

-- The event is one of its register's eight, and its bit of the runtime mask is set exactly while
-- it has users.
abbrev pub Counted : {W : Type 0} → GpeView W → Type 0
Counted g =
    (g.reg.base_idx ≤ g.event.idx)
    × (g.event.idx < g.reg.base_idx + 8)
    × (g.reg.runtime_mask < 2 ^ 8)
    × (g.event.num_users < 2 ^ 8)
    × (bit (g.event.idx - g.reg.base_idx) g.reg.runtime_mask
        ≡ (if g.event.num_users == 0 then 0 else 1))

-- The second is counted, in the place of the first, and the other events' bits are as they were.
abbrev pub Step : {W : Type 0} → GpeView W → GpeView W → Type 0
Step g g' =
    Counted g'
    × (g'.event.reg ≡ g.event.reg)
    × (g'.event.idx ≡ g.event.idx)
    × (g'.reg.base_idx ≡ g.reg.base_idx)
    × ((i : ℕ)
        → i < 8
        → i ≢ g.event.idx - g.reg.base_idx
        → bit i g'.reg.runtime_mask ≡ bit i g.reg.runtime_mask)

-- Nothing of what is counted changes.
abbrev pub Same : {W : Type 0} → GpeView W → GpeView W → Type 0
Same g g' =
    (g'.event.reg ≡ g.event.reg)
    × (g'.event.idx ≡ g.event.idx)
    × (g'.event.num_users ≡ g.event.num_users)
    × (g'.reg.base_idx ≡ g.reg.base_idx)
    × (g'.reg.runtime_mask ≡ g.reg.runtime_mask)

pub bit_pow : (i k : ℕ) → bit i (2 ^ k) ≡ (if i == k then 1 else 0)
bit_pow i k = ground (arith, bit-shl i 1 k, bit_high (i - k) 1 1)

pub mask-bit :
    (event : GpEvent) (reg : GpeRegister) (i : ℕ)
    → event.idx < reg.base_idx + 8
    → bit i (gpe_get_mask event reg) ≡ (if i == event.idx - reg.base_idx then 1 else 0)
unfolding gpe_get_mask
mask-bit event reg i b =
    let k = event.idx - reg.base_idx in ground (arith, bit-mod i (2 ^ k) 8, bit_pow i k)

pub mask_bound : (event : GpEvent) (reg : GpeRegister) → gpe_get_mask event reg < 2 ^ 8
unfolding gpe_get_mask
mask_bound event reg = omega arith

or-bit :
    (m b i k : ℕ)
    → bit i b ≡ (if i == k then 1 else 0)
    → bit i (bit_or m b) ≡ (if i == k then 1 else bit i m)
or-bit m b i k e = ground (arith, e, bit-or i m b, bit_lt_two i m)

pub without-bit :
    (m b i k : ℕ)
    → i < 8
    → b < 2 ^ 8
    → bit i b ≡ (if i == k then 1 else 0)
    → bit i (without m b) ≡ (if i == k then 0 else bit i m)
unfolding without
without-bit m b i k l h e =
    ground (arith, e, bit-and i m (2 ^ 8 - 1 - b), bit-complement 8 i b h l, bit_lt_two i m)

pub or_bound : (m b : ℕ) → m < 2 ^ 8 → b < 2 ^ 8 → bit_or m b < 2 ^ 8
or_bound m b hm hb =
    lt_of_bits (bit_or m b) 8
      λ i l. omega (arith, bit-or i m b, bit_high i m 8 hm l, bit_high i b 8 hb l)

pub without_bound : (m b : ℕ) → m < 2 ^ 8 → without m b < 2 ^ 8
unfolding without
without_bound m b hm =
    lt_of_bits (bit_and m (2 ^ 8 - 1 - b)) 8
      λ i l. omega (arith, bit-and i m (2 ^ 8 - 1 - b), bit_high i m 8 hm l)

pub toggle-bit :
    (event : GpEvent) (set_on : Bool) (reg : GpeRegister) (i : ℕ)
    → event.idx < reg.base_idx + 8
    → i < 8
    → bit i (gp_event_toggle_masks event set_on reg).runtime_mask ≡ (
        if i == event.idx - reg.base_idx then (if set_on then 1 else 0) else bit i reg.runtime_mask)
unfolding gp_event_toggle_masks
toggle-bit event true reg i b l =
    or-bit reg.runtime_mask (gpe_get_mask event reg) i (event.idx - reg.base_idx)
      (mask-bit event reg i b)
toggle-bit event false reg i b l =
    without-bit reg.runtime_mask (gpe_get_mask event reg) i (event.idx - reg.base_idx) l
      (mask_bound event reg) (mask-bit event reg i b)

pub toggle_bound :
    (event : GpEvent) (set_on : Bool) (reg : GpeRegister)
    → reg.runtime_mask < 2 ^ 8
    → (gp_event_toggle_masks event set_on reg).runtime_mask < 2 ^ 8
unfolding gp_event_toggle_masks
toggle_bound event true reg b =
    or_bound reg.runtime_mask (gpe_get_mask event reg) b (mask_bound event reg)
toggle_bound event false reg b = without_bound reg.runtime_mask (gpe_get_mask event reg) b

module _ {W : Type 0} where
  pub Same-Step : (g g' : GpeView W) → Counted g → Same g g' → Step g g'
  Same-Step g g' c (er, ei, en, eb, em) = (rw (ei, en, eb, em) c, er, ei, eb, λ i l n. rw em refl)

  pub Step-trans : (g g1 g2 : GpeView W) → Step g g1 → Step g1 g2 → Step g g2
  Step-trans g g1 g2 (c, er, ei, eb, k) (c', er', ei', eb', k') =
      (c', er' ∙ er, ei' ∙ ei, eb' ∙ eb, λ i l n. k' i l (ground (arith, n, ei, eb)) ∙ k i l n)

  -- The count changes, but not from or to 0.
  Step-count :
      (g : GpeView W) (n : ℕ)
      → Counted g
      → n < 2 ^ 8
      → n ≢ 0
      → g.event.num_users ≢ 0
      → Step g (record g { event = record g.event { num_users = n } })
  Step-count g n (lo, hi, rb, nb, e) b p q =
      ((lo, hi, rb, b, ground arith), refl, refl, refl, λ i l k. refl)

  -- The masks follow the count from 0 to 1, and from 1 to 0.
  pub Step-toggle :
      (g : GpeView W) (set_on : Bool) (event : GpEvent) (w : W)
      → Counted g
      → event.reg ≡ g.event.reg
      → event.idx ≡ g.event.idx
      → event.num_users ≡ (if set_on then 1 else 0)
      → Step g (record { event = event; reg = gp_event_toggle_masks event set_on g.reg; world = w })
  unfolding gp_event_toggle_masks
  Step-toggle g set_on event w (lo, hi, rb, nb, e) er ei en =
      let at = λ (i : ℕ). toggle-bit event set_on g.reg i (omega arith) in
      let k = event.idx - g.reg.base_idx in
      (
        (
          omega arith,
          omega arith,
          toggle_bound event set_on g.reg rb,
          ground arith,
          ground (arith, at k (omega arith)),
        ),
        er,
        ei,
        refl,
        λ i l n. ground (arith, at i l),
      )

module _ {W : Type 0} (h : EventHost W) (slock : ℕ) where
  pub gpe_add_user-Step :
      (clear : Bool) (g : GpeView W) → Counted g → Step g (gpe_add_user h slock clear g).1
  unfolding gpe_add_user gp_event_toggle_masks gpe_get_mask
  gpe_add_user-Step clear g c =
      let more = record g.event { num_users = g.event.num_users + 1 } in
      let on = gp_event_toggle_masks more true g.reg in
      let w1 = if clear then (clear_gpe h slock more g.reg g.world).1 else g.world in
      let r = set_gpe_state h slock more on enabled w1 in
      let g1 : GpeView W = record { event = more; reg = on; world = r.1 } in
      let g2 : GpeView W = record {
        event = g.event;
        reg = gp_event_toggle_masks more false on;
        world = r.1;
      } in
      elim (Bool-cases (g.event.num_users == 0xff)) [
        | inl full ↦ rw full (Same-Step g g c (refl, refl, refl, refl, refl))
        | inr full ↦ elim (Bool-cases (more.num_users == 1)) [
          | inl one ↦
              let s1 = Step-toggle g true more r.1 c refl refl (ground arith) in
              let s2 = Step-toggle g1 false g.event r.1 s1.0 refl refl (ground arith) in
              elim (Status-cases r.0) [
                | inl e ↦ rw (full, one, e) s1
                | inr (x, e) ↦ rw (full, one, e) (Step-trans g g1 g2 s1 s2)
              ]
          | inr many ↦
              rw (full, many)
                (Step-count g (g.event.num_users + 1) c (ground (arith, c.3)) (ground arith)
                  (ground arith))
        ]
      ]

  pub gpe_remove_user-Step : (g : GpeView W) → Counted g → Step g (gpe_remove_user h slock g).1
  unfolding gpe_remove_user gp_event_toggle_masks gpe_get_mask
  gpe_remove_user-Step g c =
      let fewer = record g.event { num_users = g.event.num_users - 1 } in
      let off = gp_event_toggle_masks fewer false g.reg in
      let r = set_gpe_state h slock fewer off disabled g.world in
      let g1 : GpeView W = record { event = fewer; reg = off; world = r.1 } in
      let g2 : GpeView W = record {
        event = g.event;
        reg = gp_event_toggle_masks fewer true off;
        world = r.1;
      } in
      elim (Bool-cases (g.event.num_users == 0)) [
        | inl none ↦ rw none (Same-Step g g c (refl, refl, refl, refl, refl))
        | inr some ↦ elim (Bool-cases (fewer.num_users == 0)) [
          | inl last ↦
              let s1 = Step-toggle g false fewer r.1 c refl refl (ground arith) in
              let s2 = Step-toggle g1 true g.event r.1 s1.0 refl refl (ground arith) in
              elim (Status-cases r.0) [
                | inl e ↦ rw (some, last, e) s1
                | inr (x, e) ↦ rw (some, last, e) (Step-trans g g1 g2 s1 s2)
              ]
          | inr many ↦
              rw (some, many)
                (Step-count g (g.event.num_users - 1) c (ground (arith, c.3)) (ground arith)
                  (ground arith))
        ]
      ]
