-- ===== src/Field/Unit/Bytes.antt =====
-- A 64-bit number in memory, lowest byte first.
use u_acpi.Base.{
  ℕ, zero, suc, ◌+◌, ◌*◌, ◌/◌, ◌%◌, ◌<◌, ◌^◌, ◌≡◌, refl, ap, ◌∙◌, ltb, if◌then◌else◌, arith,
}
use u_acpi.Stdlib.Memory.{Memory}

unfoldable pub to_bytes : ℕ → Memory
to_bytes value zero = value % 256
to_bytes value (suc b) = to_bytes (value / 256) b

-- The number in the first `n` bytes.
unfoldable pub from_bytes : ℕ → Memory → ℕ
from_bytes zero m = 0
from_bytes (suc n) m = m 0 + 256 * from_bytes n (λ b. m (suc b))

pub to_bytes-lt : (b value : ℕ) → to_bytes value b < 2 ^ 8
unfolding to_bytes
to_bytes-lt zero value = omega arith
to_bytes-lt (suc b) value = to_bytes-lt b (value / 256)

to_bytes-zero : (b : ℕ) → to_bytes 0 b ≡ 0
unfolding to_bytes
to_bytes-zero zero = refl
to_bytes-zero (suc b) = to_bytes-zero b

pub to_bytes-from_bytes :
    (n : ℕ) (m : Memory) (b : ℕ)
    → ((i : ℕ) → m i < 2 ^ 8)
    → to_bytes (from_bytes n m) b ≡ (if ltb b n then m b else 0)
unfolding to_bytes from_bytes
to_bytes-from_bytes zero m b h = ground (arith, to_bytes-zero b)
to_bytes-from_bytes (suc n) m zero h = ground (arith, h 0)
to_bytes-from_bytes (suc n) m (suc b) h =
    let rest = from_bytes n (λ i. m (suc i)) in
    let shifted : (m 0 + 256 * rest) / 256 ≡ rest = omega (arith, h 0) in
    ap (λ (v : ℕ). to_bytes v b) shifted
    ∙ to_bytes-from_bytes n (λ i. m (suc i)) b (λ i. h (suc i))
    ∙ ground arith
