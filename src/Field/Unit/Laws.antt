-- ===== src/Field/Unit/Laws.antt =====
-- What a read of a field unit of source/io.c returns, where the region is memory.
use u_acpi.Base.{
  ℕ, zero, suc, ◌+◌, ◌-◌, ◌*◌, ◌/◌, ◌%◌, ◌^◌, ◌≤◌, ◌<◌, ◌≡◌, refl, ap, sym, ◌∙◌, if◌then◌else◌, ltb,
  min, Status, ok, arith,
}
use native.Mathlib.Nat.{mul-suc}
use u_acpi.Base.Bits.{bit}
use u_acpi.Stdlib.Memory.{Memory}
use u_acpi.Field.Copy.{BitSpan, bit_copy, bit_span_offset}
use u_acpi.Field.Copy.Rounds.{bit_at, bit_at_split, copied}
use u_acpi.Field.Copy.Laws.{bit_copy-bit_at}
use u_acpi.Field.Unit.Bytes.{to_bytes, to_bytes-lt}
use u_acpi.Field.Unit.{FieldShape, read, Access, width_bits, read_rounds}

-- A first round that fills its access, and a copy of the rest behind it, are a copy.
rounds_join :
    (x i dl : ℕ) (region : Memory) (o at k bits old : ℕ)
    → at < 8 * k
    → 8 * k < at + bits
    → let len = 8 * k - at in
      copied x
        (i + min dl len)
        (dl - min dl len)
        region
        (8 * (o + k) + 0)
        (bits - len)
        (copied x i dl region (8 * o + at) len old)
      ≡ copied x i dl region (8 * o + at) bits old
rounds_join x i dl region o at k bits old a b =
    let len = 8 * k - at in
    let place : i + len ≤ x
        → len ≤ dl
        → 8 * (o + k) + 0 + (x - (i + min dl len)) ≡ 8 * o + at + (x - i) =
      λ h l. omega arith in
    ground (arith, place)

module _ {W : Type 0} where
  -- Reads that return OK and `k` bytes of a memory that they do not change.
  pub record Reads (access : Access W) (region : Memory) (k : ℕ) : Type 0 where
    pub status : (o : ℕ) (w : W) → (access o read 0 w).0 ≡ ok
    pub value :
        (o : ℕ) (w : W) (b : ℕ)
        → to_bytes (access o read 0 w).1 b ≡ (if ltb b k then region (o + b) else 0)

  -- The bits of a value read are the region's.
  value-bit :
      (access : Access W) (region : Memory) (k o : ℕ) (w : W) (x : ℕ)
      → Reads access region k
      → x < 8 * k
      → bit_at (to_bytes (access o read 0 w).1) x ≡ bit_at region (8 * o + x)
  value-bit access region k o w x r h =
      let byte : (8 * o + x) / 8 ≡ o + x / 8 = omega arith in
      let place : (8 * o + x) % 8 ≡ x % 8 = omega arith in
      let whole : to_bytes (access o read 0 w).1 (x / 8) ≡ region (o + x / 8) =
        ground (arith, r.value o w (x / 8)) in
      bit_at_split (to_bytes (access o read 0 w).1) x
      ∙ ap (bit (x % 8)) whole
      ∙ ap (λ (t : ℕ). bit (x % 8) (region t)) (sym byte)
      ∙ ap (λ (t : ℕ). bit t (region ((8 * o + x) / 8))) (sym place)
      ∙ sym (bit_at_split region (8 * o + x))

  -- One round of the slow read: what the copy writes, in terms of the region.
  round_copied :
      (access : Access W) (region : Memory) (k o at len : ℕ) (dst : BitSpan) (w : W) (x : ℕ)
      → Reads access region k
      → at + len ≤ 8 * k
      → bit_at
          (bit_copy dst
            (record { memory = to_bytes (access o read 0 w).1; index = at; length = len }))
          x
        ≡ copied x dst.index dst.length region (8 * o + at) len (bit_at dst.memory x)
  round_copied access region k o at len dst w x r h =
      let out = (access o read 0 w).1 in
      let src : BitSpan = record { memory = to_bytes out; index = at; length = len } in
      let same : x - dst.index < len
          → bit_at (to_bytes out) (at + (x - dst.index))
            ≡ bit_at region (8 * o + at + (x - dst.index)) =
        λ l.
          value-bit access region k o w (at + (x - dst.index)) r (omega arith)
          ∙ ap (bit_at region) (omega arith) in
      bit_copy-bit_at dst src x (λ b. to_bytes-lt b out) ∙ ground (arith, same)

  -- The round after a read that returned OK, with `len` bits taken from it.
  after_round : Access W → FieldShape → ℕ → BitSpan → ℕ → ℕ → ℕ → W → ℕ → Status × Memory × W
  after_round access s n dst at bits offset w len =
      let r = access offset read 0 w in
      let src : BitSpan = record { memory = to_bytes r.1; index = at; length = len } in
      read_rounds access s n (bit_span_offset (record dst { memory = bit_copy dst src }) len).1 0
        ((bits + 2 ^ 32 - len) % 2 ^ 32) ((offset + s.access_width_bytes) % 2 ^ 32) r.2

  read_rounds_ok :
      (n : ℕ) (access : Access W) (s : FieldShape) (dst : BitSpan) (at bits offset : ℕ) (w : W)
      → (access offset read 0 w).0 ≡ ok
      → read_rounds access s (suc n) dst at bits offset w
        ≡ after_round access s n dst at bits offset w
            (min bits ((width_bits s + 2 ^ 64 - at) % 2 ^ 64))
  unfolding read_rounds after_round
  read_rounds_ok n access s dst at bits offset w e = ground (arith, e)

  -- The slow read with `n + 1` rounds left, as many as the bits need: its status is OK, and each bit
  -- of the destination's rest becomes the field's, or 0 behind the field's end.
  pub read_rounds_lem :
      (n : ℕ) (access : Access W) (region : Memory) (s : FieldShape) (dst : BitSpan)
      (at bits offset : ℕ) (w : W)
      → let k = s.access_width_bytes in
        Reads access region k
        → 1 ≤ k
        → k ≤ 8
        → at < 8 * k
        → 8 * k * n < at + bits
        → at + bits ≤ 8 * k * n + 8 * k
        → bits < 2 ^ 32
        → 8 * offset + at + bits < 2 ^ 35 - 64
        → dst.index + dst.length < 2 ^ 64
        → let r = read_rounds access s (suc n) dst at bits offset w in
          (r.0 ≡ ok)
          × ((x : ℕ)
              → bit_at r.1 x
                ≡ copied x dst.index dst.length region (8 * offset + at) bits (bit_at dst.memory x))
  unfolding after_round bit_span_offset
  read_rounds_lem zero access region s dst at bits offset w r a b c d e f g h =
      let k = s.access_width_bytes in
      let len : min bits ((width_bits s + 2 ^ 64 - at) % 2 ^ 64) ≡ bits =
        omega (arith, a, b, c, e) in
      let whole =
        read_rounds_ok zero access s dst at bits offset w (r.status offset w)
        ∙ ap (after_round access s zero dst at bits offset w) len in
      rw whole (
        unfold read_rounds in
        (refl, λ x. round_copied access region k offset at bits dst w x r (omega (arith, e))))
  read_rounds_lem (suc n) access region s dst at bits offset w r a b c d e f g h =
      let k = s.access_width_bytes in
      let step : 8 * k * suc n ≡ 8 * k * n + 8 * k = mul-suc (8 * k) n in
      let l = 8 * k - at in
      let len : min bits ((width_bits s + 2 ^ 64 - at) % 2 ^ 64) ≡ l =
        omega (arith, a, b, c, d, step) in
      let whole =
        read_rounds_ok (suc n) access s dst at bits offset w (r.status offset w)
        ∙ ap (after_round access s (suc n) dst at bits offset w) len in
      let src : BitSpan = record {
        memory = to_bytes (access offset read 0 w).1;
        index = at;
        length = l;
      } in
      let next : BitSpan = record {
        memory = bit_copy dst src;
        index = dst.index + min dst.length l;
        length = dst.length - min dst.length l;
      } in
      let w' = (access offset read 0 w).2 in
      let rest =
        read_rounds_lem n access region s next 0 (bits - l) (offset + k) w' r a b (omega (arith, a))
          (omega (arith, c, d, step)) (omega (arith, c, e, step)) (omega (arith, f))
          (omega (arith, c, g)) (omega (arith, h)) in
      let go : ℕ → ℕ → ℕ → ℕ → Status × Memory × W = λ i m t o.
        read_rounds access s (suc n) (record { memory = bit_copy dst src; index = i; length = m }) 0
          t o w' in
      let m = min dst.length l in
      let index : (dst.index + m) % 2 ^ 64 ≡ dst.index + m = omega (arith, h) in
      let length : (dst.length + 2 ^ 64 - m) % 2 ^ 64 ≡ dst.length - m = omega (arith, h) in
      let left : (bits + 2 ^ 32 - l) % 2 ^ 32 ≡ bits - l = omega (arith, c, d, f, step) in
      let later : (offset + k) % 2 ^ 32 ≡ offset + k = omega (arith, b, g) in
      let all =
        whole
        ∙ ap
            (λ (t : ℕ).
              go t ((dst.length + 2 ^ 64 - m) % 2 ^ 64) ((bits + 2 ^ 32 - l) % 2 ^ 32)
                ((offset + k) % 2 ^ 32))
            index
        ∙ ap
            (λ (t : ℕ). go (dst.index + m) t ((bits + 2 ^ 32 - l) % 2 ^ 32) ((offset + k) % 2 ^ 32))
            length
        ∙ ap (λ (t : ℕ). go (dst.index + m) (dst.length - m) t ((offset + k) % 2 ^ 32)) left
        ∙ ap (λ (t : ℕ). go (dst.index + m) (dst.length - m) (bits - l) t) later in
      let old = λ (x : ℕ). bit_at dst.memory x in
      rw all (
        rest.0,
        λ x.
            rest.1 x
            ∙ ap
                (λ (t : ℕ).
                  copied x next.index next.length region (8 * (offset + k) + 0) (bits - l) t)
                (round_copied access region k offset at l dst w x r (omega arith))
            ∙ rounds_join x dst.index dst.length region offset at k bits (old x) c
                (omega (arith, d, step)),
      )
