-- ===== src/Field/Unit/Reads.antt =====
-- `uacpi_read_field_unit` of source/io.c, by its fast and its slow path.
use u_acpi.Base.{
  ℕ, zero, suc, ◌+◌, ◌-◌, ◌*◌, ◌/◌, ◌%◌, ◌^◌, ◌≤◌, ◌<◌, ◌≡◌, ◌⊎◌, inl, inr, refl, ap, ◌∙◌, true,
  ◌&&◌, ◌==◌, if◌then◌else◌, ltb, leb, bit_and, Status, ok, Bool-cases, arith,
}
use native.Mathlib.Nat.{pow-le-pow_right, mul-suc, mul_comm}
use u_acpi.Base.Bits.{bit, bit-zero}
use u_acpi.Base.Bits.Shift.{clear_low}
use u_acpi.Stdlib.Memory.{Memory, memcpy_zerout}
use u_acpi.Stdlib.Memory.Laws.{memcpy_zerout_lem}
use u_acpi.Field.Copy.{BitSpan, round_up_bits_to_bytes}
use u_acpi.Field.Copy.Rounds.{bit_at, bit_at_split, copied}
use u_acpi.Field.Buffer.{cut_misaligned_tail}
use u_acpi.Field.Buffer.Reads.{cut-bit, round_up_bits_to_bytes_lem}
use u_acpi.Field.Unit.Bytes.{to_bytes}
use u_acpi.Field.Unit.Laws.{Reads, read_rounds_lem}
use u_acpi.Field.Unit.{
  FieldShape, read, Access, reads_to_do, do_read_misaligned_field_unit, read_with,
}

abbrev pub IsWidth : ℕ → Type 0
IsWidth k = (k ≡ 1) ⊎ (k ≡ 2) ⊎ (k ≡ 4) ⊎ (k ≡ 8)

-- The rounds of the slow read: the bits, rounded up to the width.
rounds_at :
    (j x : ℕ)
    → j ≤ 6
    → x + 63 < 2 ^ 32
    → bit_and ((x % 2 ^ 32 + (2 ^ j - 1)) % 2 ^ 32) (2 ^ 32 - 1 - (2 ^ j - 1))
      ≡ (x + (2 ^ j - 1)) / 2 ^ j * 2 ^ j
rounds_at j x l h =
    let small : 2 ^ j ≤ 2 ^ 6 = pow-le-pow_right {n = 2} (omega arith) {i = j} {j = 6} l in
    let sum : (x % 2 ^ 32 + (2 ^ j - 1)) % 2 ^ 32 ≡ x + (2 ^ j - 1) = omega (arith, small) in
    rw sum (clear_low 32 j (x + (2 ^ j - 1)) (omega (arith, small)) (omega arith))

reads_to_do_lem :
    (s : FieldShape)
    → IsWidth s.access_width_bytes
    → let x = s.bit_offset_within_first_byte + s.bit_length in
      x + 63 < 2 ^ 32
      → (reads_to_do s * (8 * s.access_width_bytes) < x + 8 * s.access_width_bytes)
        × (x ≤ reads_to_do s * (8 * s.access_width_bytes))
unfolding reads_to_do
reads_to_do_lem s (inl e) h =
    let q = rounds_at 3 (s.bit_offset_within_first_byte + s.bit_length) (omega arith) h in
    rw e (omega (arith, q), omega (arith, q))
reads_to_do_lem s (inr (inl e)) h =
    let q = rounds_at 4 (s.bit_offset_within_first_byte + s.bit_length) (omega arith) h in
    rw e (omega (arith, q), omega (arith, q))
reads_to_do_lem s (inr (inr (inl e))) h =
    let q = rounds_at 5 (s.bit_offset_within_first_byte + s.bit_length) (omega arith) h in
    rw e (omega (arith, q), omega (arith, q))
reads_to_do_lem s (inr (inr (inr e))) h =
    let q = rounds_at 6 (s.bit_offset_within_first_byte + s.bit_length) (omega arith) h in
    rw e (omega (arith, q), omega (arith, q))

one_round : (q m x : ℕ) → 0 < x → x ≤ q * m → q ≡ suc (q - 1)
one_round zero m x a b = omega (arith, a, b)
one_round (suc q) m x a b = omega arith

-- The copy of an aligned value of at most one access into the destination.
fast_bit :
    (out region : Memory) (o k len size : ℕ) (dst : Memory) (x : ℕ)
    → ((b : ℕ) → out b ≡ (if ltb b k then region (o + b) else 0))
    → let count = (len + 7) / 8 in
      count ≤ k
      → let taken = memcpy_zerout dst 0 out size count in
        bit_at (if leb count size then cut_misaligned_tail taken (count - 1) len else taken) x
        ≡ copied x 0 (size * 8) region (8 * o + 0) len (bit_at dst x)
fast_bit out region o k len size dst x r l =
    let count = (len + 7) / 8 in
    let b = x / 8 in
    let taken = memcpy_zerout dst 0 out size count in
    let byte : (8 * o + 0 + (x - 0)) / 8 ≡ o + b = omega arith in
    let place : (8 * o + 0 + (x - 0)) % 8 ≡ x % 8 = omega arith in
    let target : bit_at region (8 * o + 0 + (x - 0)) ≡ bit (x % 8) (region (o + b)) =
      bit_at_split region (8 * o + 0 + (x - 0)) ∙ rw (byte, place) refl in
    let first : taken b
        ≡ (if ltb b size then (if ltb b count then region (o + b) else 0) else dst b) =
      ground (arith, memcpy_zerout_lem dst 0 out size count b, r b) in
    let old = bit_at_split dst x in
    let none = bit-zero (x % 8) in
    elim (Bool-cases (leb count size)) [
      | inl t ↦ rw t (
          bit_at_split (cut_misaligned_tail taken (count - 1) len) x
          ∙ cut-bit taken (count - 1) len b (x % 8) (omega arith)
          ∙ ground (arith, first, target, old, none))
      | inr f ↦ rw f (bit_at_split taken x ∙ ground (arith, first, target, old, none))
    ]

module _ {W : Type 0} where
  -- What a read returns: its status, and the destination's bits.
  abbrev Returns : Memory → FieldShape → Memory → ℕ → Status × Memory × W → Type 0
  Returns region s dst size r =
      (r.0 ≡ ok)
      × ((x : ℕ)
          → bit_at r.1 x
            ≡ copied x 0 (size * 8) region (8 * s.byte_offset + s.bit_offset_within_first_byte)
                s.bit_length (bit_at dst x))

  read_fast :
      (access : Access W) (region : Memory) (s : FieldShape) (dst : Memory) (size : ℕ) (w : W)
      → Reads access region s.access_width_bytes
      → s.bit_length + 7 < 2 ^ 64
      → (s.bit_offset_within_first_byte == 0)
          && leb (round_up_bits_to_bytes s.bit_length) s.access_width_bytes
        ≡ true
      → Returns region s dst size (read_with access s dst size w)
  unfolding read_with
  read_fast access region s dst size w r l e =
      let count = round_up_bits_to_bytes_lem s.bit_length l in
      let at : s.bit_offset_within_first_byte ≡ 0 = ground (arith, e) in
      let few : (s.bit_length + 7) / 8 ≤ s.access_width_bytes = ground (arith, e, count) in
      let good = r.status s.byte_offset w in
      let out = to_bytes (access s.byte_offset read 0 w).1 in
      rw (e, good, at, count)
        (
          refl,
          λ x.
              fast_bit out region s.byte_offset s.access_width_bytes s.bit_length size dst x
                (r.value s.byte_offset w) few,
        )

  read_slow :
      (access : Access W) (region : Memory) (s : FieldShape) (dst : Memory) (size : ℕ) (w : W)
      → Reads access region s.access_width_bytes
      → IsWidth s.access_width_bytes
      → s.bit_offset_within_first_byte < 8 * s.access_width_bytes
      → 0 < s.bit_offset_within_first_byte + s.bit_length
      → 8 * s.byte_offset + s.bit_offset_within_first_byte + s.bit_length < 2 ^ 35 - 64
      → s.bit_offset_within_first_byte + s.bit_length + 63 < 2 ^ 32
      → size * 8 < 2 ^ 64
      → Returns region s dst size (do_read_misaligned_field_unit access s dst size w)
  unfolding do_read_misaligned_field_unit
  read_slow access region s dst size w r wd a p b c d =
      let k = s.access_width_bytes in
      let at = s.bit_offset_within_first_byte in
      let bits = s.bit_length in
      let (below, above) = reads_to_do_lem s wd c in
      let wide : (1 ≤ k) × (k ≤ 8) = ground (arith, wd) in
      let n = reads_to_do s - 1 in
      let step : reads_to_do s ≡ suc n = one_round (reads_to_do s) (8 * k) (at + bits) p above in
      let product : reads_to_do s * (8 * k) ≡ 8 * k * n + 8 * k =
        ap (λ (t : ℕ). t * (8 * k)) step ∙ mul_comm (suc n) (8 * k) ∙ mul-suc (8 * k) n in
      let span : BitSpan = record { memory = dst; index = 0; length = size * 8 } in
      rw step (
        read_rounds_lem n access region s span at bits s.byte_offset w r wide.0 wide.1 a
          (omega (arith, below, product)) (omega (arith, above, product)) (omega (arith, c)) b
          (omega (arith, d)))

  -- A read of a field unit, by the fast path and by the slow one: where each access returns OK and
  -- as many bytes of a memory as the field's width of 1, 2, 4 or 8, the field starts within its first
  -- access, and no place or size exceeds the code's integers, the read returns OK, and the
  -- destination has the field's bits first, which may cross accesses, and 0 behind them.
  pub read_with-bit_at :
      (access : Access W) (region : Memory) (s : FieldShape) (dst : Memory) (size : ℕ) (w : W)
      → Reads access region s.access_width_bytes
      → IsWidth s.access_width_bytes
      → s.bit_offset_within_first_byte < 8 * s.access_width_bytes
      → 8 * s.byte_offset + s.bit_offset_within_first_byte + s.bit_length < 2 ^ 35 - 64
      → s.bit_offset_within_first_byte + s.bit_length + 63 < 2 ^ 32
      → size * 8 < 2 ^ 64
      → let r = read_with access s dst size w in
        (r.0 ≡ ok)
        × ((x : ℕ)
            → bit_at r.1 x
              ≡ copied x 0
                  (size * 8)
                  region
                  (8 * s.byte_offset + s.bit_offset_within_first_byte)
                  s.bit_length
                  (bit_at dst x))
  unfolding read_with
  read_with-bit_at access region s dst size w r wd a b c d =
      let count = round_up_bits_to_bytes s.bit_length in
      let fast = (s.bit_offset_within_first_byte == 0) && leb count s.access_width_bytes in
      elim (Bool-cases fast) [
        | inl t ↦ read_fast access region s dst size w r (omega (arith, c)) t
        | inr f ↦ rw f (
            read_slow access region s dst size w r wd a
              (ground (arith, f, wd, round_up_bits_to_bytes_lem s.bit_length (omega (arith, c)))) b
              c d)
      ]
