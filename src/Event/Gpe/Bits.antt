-- ===== src/Event/Gpe/Bits.antt =====
-- The bits of the masks that an event's operations write.
use u_acpi.Base.{
  ℕ, ◌+◌, ◌-◌, ◌^◌, ◌≤◌, ◌<◌, ◌≡◌, refl, ap, ◌∙◌, true, false, ◌==◌, if◌then◌else◌, ltb, arith,
  bit_and, bit_or, inl, inr, Bool-cases,
}
use u_acpi.Base.Bits.{bit, bit_ext, bit-and, bit-or, bit-zero, bit_lt_two, bit-complement}
use u_acpi.Base.Bits.Shift.{bit_high}
use u_acpi.Registers.{complement}
use u_acpi.Event.{GpEvent, GpeRegister}
use u_acpi.Event.Gpe.{
  GpeState, enabled, enabled_conditionally, disabled, is_disabled, overlaps, without, gpe_get_mask,
  next_enable_mask,
}
use u_acpi.Event.Gpe.Users.{mask-bit, mask_bound, or_bound, without_bound, without-bit}

pub next-bit :
    (state : GpeState) (event : GpEvent) (reg : GpeRegister) (m i : ℕ)
    → event.idx < reg.base_idx + 8
    → i < 64
    → bit i (next_enable_mask state (gpe_get_mask event reg) m)
      ≡ (if i == event.idx - reg.base_idx then (if is_disabled state then 0 else 1) else bit i m)
unfolding next_enable_mask
next-bit disabled event reg m i hi b =
    let bits = gpe_get_mask event reg in
    ground (
      arith,
      mask-bit event reg i hi,
      bit-and i m (complement bits),
      bit-complement 64 i bits (omega (arith, mask_bound event reg)) b,
      bit_lt_two i m,
    )
next-bit enabled event reg m i hi b =
    ground (arith, mask-bit event reg i hi, bit-or i m (gpe_get_mask event reg), bit_lt_two i m)
next-bit enabled_conditionally event reg m i hi b =
    ground (arith, mask-bit event reg i hi, bit-or i m (gpe_get_mask event reg), bit_lt_two i m)

-- A mask with an event's bit overlaps it, and one without does not.
pub overlaps-bit :
    (event : GpEvent) (reg : GpeRegister) (m : ℕ)
    → reg.base_idx ≤ event.idx
    → event.idx < reg.base_idx + 8
    → overlaps m (gpe_get_mask event reg) ≡ (bit (event.idx - reg.base_idx) m == 1)
unfolding overlaps
overlaps-bit event reg m lo hi =
    let k = event.idx - reg.base_idx in
    let bits = gpe_get_mask event reg in
    let all : (i : ℕ) → bit i (bit_and m bits) ≡ (if i == k then bit k m else 0) =
      λ i. ground (arith, bit-and i m bits, mask-bit event reg i hi, bit_lt_two i m) in
    elim (Bool-cases (bit k m == 1)) [
      | inl set ↦ elim (Bool-cases (bit_and m bits == 0)) [
        | inl zero ↦
            let z : bit_and m bits ≡ 0 = ground arith in
            absurd (ground (arith, all k, ap (bit k) z ∙ bit-zero k, set))
        | inr nonzero ↦ rw (set, nonzero) refl
      ]
      | inr clear ↦
          let none : bit_and m bits ≡ 0 =
            bit_ext (bit_and m bits) 0 λ i. ground (arith, all i, bit-zero i, bit_lt_two k m) in
          rw (clear, none) refl
    ]

-- With an event's bit added a mask overlaps it.
pub or-overlaps :
    (event : GpEvent) (reg : GpeRegister) (m : ℕ)
    → reg.base_idx ≤ event.idx
    → event.idx < reg.base_idx + 8
    → overlaps (bit_or m (gpe_get_mask event reg)) (gpe_get_mask event reg) ≡ true
or-overlaps event reg m lo hi =
    let bits = gpe_get_mask event reg in
    let k = event.idx - reg.base_idx in
    overlaps-bit event reg (bit_or m bits) lo hi
    ∙ ground (arith, bit-or k m bits, mask-bit event reg k hi, bit_lt_two k m, bit_lt_two k bits)

-- Adding an event's bit to a mask without it, and taking it out again.
pub without-or :
    (event : GpEvent) (reg : GpeRegister) (m : ℕ)
    → reg.base_idx ≤ event.idx
    → event.idx < reg.base_idx + 8
    → m < 2 ^ 8
    → overlaps m (gpe_get_mask event reg) ≡ false
    → without (bit_or m (gpe_get_mask event reg)) (gpe_get_mask event reg) ≡ m
without-or event reg m lo hi b clear =
    let bits = gpe_get_mask event reg in
    let k = event.idx - reg.base_idx in
    let bound = mask_bound event reg in
    bit_ext (without (bit_or m bits) bits) m λ i. elim (Bool-cases (ltb i 8)) [
      | inl small ↦ ground (
        arith,
        without-bit (bit_or m bits) bits i k (ground arith) bound (mask-bit event reg i hi),
        bit-or i m bits,
        mask-bit event reg i hi,
        overlaps-bit event reg m lo hi,
        clear,
        bit_lt_two i m,
      )
      | inr large ↦ omega (
        arith,
        bit_high i m 8 b (ground arith),
        bit_high i (without (bit_or m bits) bits) 8
            (without_bound (bit_or m bits) bits (or_bound m bits b bound)) (ground arith),
      )
    ]
