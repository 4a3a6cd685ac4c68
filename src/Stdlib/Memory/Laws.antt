-- ===== src/Stdlib/Memory/Laws.antt =====
-- What the memory functions of source/stdlib.c do to each byte.
use u_acpi.Base.{
  ℕ, zero, suc, ◌+◌, ◌-◌, ◌%◌, ◌^◌, ◌≤◌, ◌<◌, ◌≡◌, ◌≢◌, ◌↔◌, refl, ◌&&◌, if◌then◌else◌, leb, ltb,
  min, arith,
}
use native.Mathlib.Decide.{ℕ_discrete}
use u_acpi.Base.Int.{pos, sub_ℕ}
use u_acpi.Stdlib.Memory.{
  Memory, set_byte, memcpy, copy_down, copy_up, memmove, fill, memset, memcmp_from, memcmp,
  strnlen_from, strnlen, memcpy_zerout,
}

-- `memcpy` sets the bytes of the destination's run to the source's, and keeps every other byte.
pub memcpy_lem :
    (n : ℕ) (dst : Memory) (d : ℕ) (src : Memory) (s b : ℕ)
    → memcpy dst d src s n b ≡ (if leb d b && ltb b (d + n) then src (s + (b - d)) else dst b)
unfolding memcpy
memcpy_lem zero dst d src s b = ground arith
memcpy_lem (suc n) dst d src s b =
    let first : b ≡ d → s + (b - d) ≡ s = λ e. omega arith in
    let later : d < b → s + 1 + (b - (d + 1)) ≡ s + (b - d) = λ e. omega arith in
    ground (arith, first, later, memcpy_lem n (set_byte dst d (src s)) (d + 1) src (s + 1) b)

fill_lem :
    (n : ℕ) (m : Memory) (p v b : ℕ)
    → fill m p v n b ≡ (if leb p b && ltb b (p + n) then v else m b)
unfolding fill
fill_lem zero m p v b = ground arith
fill_lem (suc n) m p v b = ground (arith, fill_lem n (set_byte m p v) (p + 1) v b)

pub memset_lem :
    (n : ℕ) (m : Memory) (p v b : ℕ)
    → memset m p v n b ≡ (if leb p b && ltb b (p + n) then v % 2 ^ 8 else m b)
unfolding memset
memset_lem n m p v b = fill_lem n m p (v % 2 ^ 8) b

copy_down_lem :
    (n : ℕ) (m : Memory) (d s b : ℕ)
    → s ≤ d
    → copy_down m d s n b ≡ (if leb d b && ltb b (d + n) then m (s + (b - d)) else m b)
unfolding copy_down
copy_down_lem zero m d s b h = ground arith
copy_down_lem (suc n) m d s b h =
    let last : b ≡ d + n → s + (b - d) ≡ s + n = λ e. omega arith in
    ground (arith, last, copy_down_lem n (set_byte m (d + n) (m (s + n))) d s b h)

copy_up_lem :
    (n : ℕ) (m : Memory) (d s b : ℕ)
    → d ≤ s
    → copy_up m d s n b ≡ (if leb d b && ltb b (d + n) then m (s + (b - d)) else m b)
unfolding copy_up
copy_up_lem zero m d s b h = ground arith
copy_up_lem (suc n) m d s b h =
    let first : b ≡ d → s + (b - d) ≡ s = λ e. omega arith in
    let later : d < b → s + 1 + (b - (d + 1)) ≡ s + (b - d) = λ e. omega arith in
    ground (arith, first, later, copy_up_lem n (set_byte m d (m s)) (d + 1) (s + 1) b)

-- `memmove` sets each byte of the destination's run to what the source's run held before the call,
-- however the two overlap, and keeps every other byte.
pub memmove_lem :
    (m : Memory) (dest src count b : ℕ)
    → memmove m dest src count b
      ≡ (if leb dest b && ltb b (dest + count) then m (src + (b - dest)) else m b)
unfolding memmove
memmove_lem m dest src count b =
    ground (arith, copy_down_lem count m dest src b, copy_up_lem count m dest src b)

-- The destination's run holds the source's bytes, and zeroes behind them.
pub memcpy_zerout_lem :
    (dst : Memory) (d : ℕ) (src : Memory) (dst_size src_size b : ℕ)
    → memcpy_zerout dst d src dst_size src_size b ≡ (
        if leb d b && ltb b (d + dst_size)
        then (if ltb (b - d) src_size then src (b - d) else 0)
        else dst b)
unfolding memcpy_zerout
memcpy_zerout_lem dst d src dst_size src_size b =
    let n = min src_size dst_size in
    ground (
      arith,
      memcpy_lem n dst d src 0 b,
      memset_lem (dst_size - n) (memcpy dst d src 0 n) (d + n) 0 b,
    )

-- The bytes from `i` on agree.
abbrev pub SameFrom : Memory → Memory → ℕ → ℕ → Type 0
SameFrom a b i zero = Unit
SameFrom a b i (suc n) = (a i ≡ b i) × SameFrom a b (i + 1) n

sub-zero : (a b : ℕ) → sub_ℕ a b ≡ pos 0 → a ≡ b
sub-zero a b e = ground arith

memcmp_from-zero : (n : ℕ) (a b : Memory) (i : ℕ) → (memcmp_from a b i n ≡ pos 0) ↔ SameFrom a b i n
unfolding memcmp_from
memcmp_from-zero zero a b i = (λ e. tt, λ u. refl)
memcmp_from-zero (suc n) a b i =
    ground (arith, memcmp_from-zero n a b (i + 1), sub-zero (a i) (b i))

-- `memcmp` is zero exactly when the two runs hold the same bytes.
pub memcmp_iff : (a b : Memory) (count : ℕ) → (memcmp a b count ≡ pos 0) ↔ SameFrom a b 0 count
unfolding memcmp
memcmp_iff a b count = memcmp_from-zero count a b 0

strnlen_from_lem :
    (n : ℕ) (str : Memory) (i : ℕ)
    → let r = strnlen_from str i n in
      (i ≤ r) × (r ≤ i + n) × ((j : ℕ) → i ≤ j → j < r → str j ≢ 0) × (r < i + n → str r ≡ 0)
unfolding strnlen_from
strnlen_from_lem zero str i =
    (omega arith, omega arith, λ j a b. absurd (omega arith), λ h. absurd (omega arith))
strnlen_from_lem (suc n) str i =
    let (low, high, nonzero, ends) = strnlen_from_lem n str (i + 1) in
    elim (ℕ_discrete (str i) 0) [
      | yes z ↦ (ground arith, ground arith, λ j a b. ground arith, λ h. ground arith)
      | no k ↦ (
        ground (arith, low),
        ground (arith, high),
        λ j a b. elim (ℕ_discrete j i) [
          | yes e ↦ rw e k
          | no d ↦ nonzero j (omega arith) (ground arith)
        ],
        λ h. ground (arith, ends),
      )
    ]

-- `strnlen` returns the distance to the first NUL, or the limit if there is none before it.
pub strnlen_lem :
    (str : Memory) (limit : ℕ)
    → let r = strnlen str limit in
      (r ≤ limit) × ((j : ℕ) → j < r → str j ≢ 0) × (r < limit → str r ≡ 0)
unfolding strnlen
strnlen_lem str limit =
    let (low, high, nonzero, ends) = strnlen_from_lem limit str 0 in
    (omega (arith, high), λ j h. nonzero j (omega arith) h, λ h. ends (omega (arith, h)))
