-- ===== src/Stdlib/Memory.antt =====
-- source/stdlib.c: copies, fills and comparisons of memory. Memory is a function from addresses to
-- bytes; where a function takes a source and a destination that may not overlap, they are two
-- memories, with the distance that each pointer has into its own.
pub mod Laws
use u_acpi.Base.{ℕ, zero, suc, ◌+◌, ◌-◌, ◌%◌, ◌^◌, ◌==◌, if◌then◌else◌, ltb, min, ◌&&◌, not}
use u_acpi.Base.Int.{ℤ, pos, sub_ℕ}

abbrev pub Memory : Type 0
Memory = ℕ → ℕ

abbrev pub set_byte : Memory → ℕ → ℕ → Memory
set_byte m p v = λ b. if b == p then v else m b

pub memcpy : Memory → ℕ → Memory → ℕ → ℕ → Memory
memcpy dst d src s zero = dst
memcpy dst d src s (suc n) = memcpy (set_byte dst d (src s)) (d + 1) src (s + 1) n

-- `while (count--) *--cd = *--cs;`, from the end.
copy_down : Memory → ℕ → ℕ → ℕ → Memory
copy_down m d s zero = m
copy_down m d s (suc n) = copy_down (set_byte m (d + n) (m (s + n))) d s n

-- `while (count--) *cd++ = *cs++;` in one memory.
copy_up : Memory → ℕ → ℕ → ℕ → Memory
copy_up m d s zero = m
copy_up m d s (suc n) = copy_up (set_byte m d (m s)) (d + 1) (s + 1) n

pub memmove : Memory → ℕ → ℕ → ℕ → Memory
unfolding copy_down copy_up
memmove m dest src count =
    if ltb src dest then copy_down m dest src count else copy_up m dest src count

fill : Memory → ℕ → ℕ → ℕ → Memory
fill m p v zero = m
fill m p v (suc n) = fill (set_byte m p v) (p + 1) v n

pub memset : Memory → ℕ → ℕ → ℕ → Memory
unfolding fill
memset m dest ch count = fill m dest (ch % 2 ^ 8) count

-- From byte `i` on, with `n` bytes left.
unfoldable pub memcmp_from : Memory → Memory → ℕ → ℕ → ℤ
memcmp_from a b i zero = pos 0
memcmp_from a b i (suc n) = if a i == b i then memcmp_from a b (i + 1) n else sub_ℕ (a i) (b i)

unfoldable pub memcmp : Memory → Memory → ℕ → ℤ
memcmp lhs rhs count = memcmp_from lhs rhs 0 count

pub strnlen_from : Memory → ℕ → ℕ → ℕ
strnlen_from str i zero = i
strnlen_from str i (suc n) = let rest = strnlen_from str (i + 1) n in if str i == 0 then i else rest

pub strnlen : Memory → ℕ → ℕ
strnlen str limit = strnlen_from str 0 limit

-- `dst_size` bytes of the destination, from `d` on.
unfoldable pub memcpy_zerout : Memory → ℕ → Memory → ℕ → ℕ → Memory
memcpy_zerout dst d src dst_size src_size =
    let bytes_to_copy = min src_size dst_size in
    let copied = memcpy dst d src 0 bytes_to_copy in
    if ltb bytes_to_copy dst_size
    then memset copied (d + bytes_to_copy) 0 (dst_size - bytes_to_copy)
    else copied
