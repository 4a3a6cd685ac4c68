-- ===== src/Field/Copy/Laws.antt =====
-- What `bit_copy` of source/io.c does to each bit.
use u_acpi.Base.{
  ℕ, zero, suc, ◌+◌, ◌-◌, ◌*◌, ◌/◌, ◌%◌, ◌^◌, ◌≤◌, ◌<◌, ◌≡◌, refl, ap, sym, ◌∙◌, if◌then◌else◌, ltb,
  bit_and, bit_or, arith,
}
use u_acpi.Base.{◌≢◌}
use u_acpi.Base.Bits.{bit, bit-and, bit-or}
use u_acpi.Base.Bits.Shift.{bit-shr, bit_high, lt_of_bits}
use u_acpi.Stdlib.Memory.{Memory}
use u_acpi.Field.Copy.{BitSpan, next_bits, put_bits, clears, copy_loop, bit_copy}
use u_acpi.Field.Copy.Rounds.{Bytes, bit_at, put_bits-bit, copied, copied_step, round-bit}

copy_loop_round :
    (n : ℕ) (dst : Memory) (p d dc : ℕ) (src : Memory) (q s sc : ℕ)
    → dc ≢ 0
    → copy_loop (suc n) dst p d dc src q s sc
      ≡ copy_loop n
          (put_bits dst p d dc (next_bits src q s sc))
          (p + 1)
          d
          (if ltb 8 dc then dc - 8 else 0)
          src
          (if ltb sc 8 then q else q + 1)
          s
          (if ltb sc 8 then 0 else sc - 8)
unfolding copy_loop
copy_loop_round n dst p d dc src q s sc h = ground arith

copy_loop_done :
    (n : ℕ) (dst : Memory) (p d : ℕ) (src : Memory) (q s sc : ℕ)
    → copy_loop n dst p d 0 src q s sc ≡ dst
unfolding copy_loop
copy_loop_done zero dst p d src q s sc = refl
copy_loop_done (suc n) dst p d src q s sc = refl

copied_none : (x o : ℕ) (src : Memory) (q sc old : ℕ) → copied x o 0 src q sc old ≡ old
copied_none x o src q sc old = ground arith

copy_loop-bit :
    (n b i : ℕ) (dst : Memory) (p d dc : ℕ) (src : Memory) (q s sc : ℕ)
    → Bytes src
    → i < 8
    → d < 8
    → s < 8
    → dc ≤ n
    → bit i (copy_loop n dst p d dc src q s sc b)
      ≡ copied (8 * b + i) (8 * p + d) dc src (8 * q + s) sc (bit i (dst b))
copy_loop-bit n b i dst p d zero src q s sc c e f g h =
    ap (λ (m : Memory). bit i (m b)) (copy_loop_done n dst p d src q s sc)
    ∙ sym (copied_none (8 * b + i) (8 * p + d) src (8 * q + s) sc (bit i (dst b)))
copy_loop-bit zero b i dst p d (suc dc) src q s sc c e f g h = absurd (omega arith)
copy_loop-bit (suc n) b i dst p d (suc dc) src q s sc c e f g h =
    let v = next_bits src q s sc in
    let dst' = put_bits dst p d (suc dc) v in
    let x = 8 * b + i in
    let o = 8 * p + d in
    let left = if ltb 8 (suc dc) then suc dc - 8 else 0 in
    let q' = if ltb sc 8 then q else q + 1 in
    let sc' = if ltb sc 8 then 0 else sc - 8 in
    ap (λ (m : Memory). bit i (m b)) (copy_loop_round n dst p d (suc dc) src q s sc (omega arith))
    ∙ copy_loop-bit n b i dst' (p + 1) d left src q' s sc' c e f g (ground arith)
    ∙ ap (λ (t : ℕ). copied x (8 * (p + 1) + d) left src (8 * q' + s) sc' t)
        (put_bits-bit b i dst p d (suc dc) v e f
          ∙ round-bit x src o (suc dc) q s sc (bit i (dst b)) c g)
    ∙ copied_step x p d (suc dc) src q s sc (bit i (dst b)) (omega arith)

-- `bit_copy` on spans in bytes: each bit of the destination's span becomes the source's bit at the
-- same distance, or 0 behind the end of the source's span, and every other bit is kept.
pub bit_copy-bit_at :
    (dst src : BitSpan) (x : ℕ)
    → Bytes src.memory
    → bit_at (bit_copy dst src) x
      ≡ copied x dst.index dst.length src.memory src.index src.length (bit_at dst.memory x)
unfolding bit_copy bit_at
bit_copy-bit_at dst src x c =
    let whole : (t : ℕ) → 8 * (t / 8) + t % 8 ≡ t = λ t. omega arith in
    let h =
      copy_loop-bit dst.length (x / 8) (x % 8) dst.memory (dst.index / 8) (dst.index % 8) dst.length
        src.memory (src.index / 8) (src.index % 8) src.length c (omega arith) (omega arith)
        (omega arith) (omega arith) in
    let old = bit_at dst.memory x in
    let len = dst.length in
    h
    ∙ ap
        (λ (t : ℕ).
          copied t (8 * (dst.index / 8) + dst.index % 8) len src.memory
            (8 * (src.index / 8) + src.index % 8) src.length old)
        (whole x)
    ∙ ap (λ (t : ℕ). copied x t len src.memory (8 * (src.index / 8) + src.index % 8) src.length old)
        (whole dst.index)
    ∙ ap (λ (t : ℕ). copied x dst.index len src.memory t src.length old) (whole src.index)

high_byte :
    (old v c d : ℕ)
    → old < 2 ^ 8
    → let mask = (if ltb c 8 then 2 ^ c - 1 else 0xff) * 2 ^ d % 2 ^ 16 in
      bit_or (bit_and old (clears (mask / 2 ^ 8))) (bit_and (v / 2 ^ (8 - d)) (mask / 2 ^ 8))
      < 2 ^ 8
high_byte old v c d h =
    let mask = (if ltb c 8 then 2 ^ c - 1 else 0xff) * 2 ^ d % 2 ^ 16 in
    lt_of_bits _ 8 (λ i k. ground (
      arith,
      bit-or i (bit_and old (clears (mask / 2 ^ 8))) (bit_and (v / 2 ^ (8 - d)) (mask / 2 ^ 8)),
      bit-and i old (clears (mask / 2 ^ 8)),
      bit-and i (v / 2 ^ (8 - d)) (mask / 2 ^ 8),
      bit-shr i mask 8,
      bit_high (i + 8) mask 16,
      bit_high i old 8 h,
    ))

put_bits-Bytes : (dst : Memory) (p d c v : ℕ) → Bytes dst → Bytes (put_bits dst p d c v)
unfolding put_bits
put_bits-Bytes dst p d c v h b = ground (arith, h b, high_byte (dst (p + 1)) v c d (h (p + 1)))

copy_loop-Bytes :
    (n : ℕ) (dst : Memory) (p d dc : ℕ) (src : Memory) (q s sc : ℕ)
    → Bytes dst
    → Bytes (copy_loop n dst p d dc src q s sc)
copy_loop-Bytes n dst p d zero src q s sc h b = rw (copy_loop_done n dst p d src q s sc) (h b)
copy_loop-Bytes zero dst p d (suc dc) src q s sc h b = unfold copy_loop in h b
copy_loop-Bytes (suc n) dst p d (suc dc) src q s sc h b =
    rw (copy_loop_round n dst p d (suc dc) src q s sc (omega arith)) (
      copy_loop-Bytes n (put_bits dst p d (suc dc) (next_bits src q s sc)) (p + 1) d
        (if ltb 8 (suc dc) then suc dc - 8 else 0) src (if ltb sc 8 then q else q + 1) s
        (if ltb sc 8 then 0 else sc - 8) (put_bits-Bytes dst p d (suc dc) (next_bits src q s sc) h)
        b)

pub bit_copy-Bytes : (dst src : BitSpan) → Bytes dst.memory → Bytes (bit_copy dst src)
unfolding bit_copy
bit_copy-Bytes dst src h =
    copy_loop-Bytes dst.length dst.memory (dst.index / 8) (dst.index % 8) dst.length src.memory
      (src.index / 8) (src.index % 8) src.length h
