-- ===== src/Tables/Array/Laws.antt =====
-- The array of source/tables.c: its bounds, and that it keeps its elements as it grows.
use u_acpi.Base.{ℕ, ◌+◌, ◌/◌, ◌^◌, ◌≤◌, ◌<◌, ◌≡◌, true, some, ◌==◌, if◌then◌else◌, arith}
use u_acpi.Host.{MemoryHost}
use u_acpi.Tables.Array.{
  DynamicArray, inline_capacity, type_size, at, put, grown_bytes, grow, alloc,
}

-- A larger block has room for one more element at least.
grown_bytes_lem : (c : ℕ) → c < 2 ^ 48 → c < grown_bytes c / type_size
unfolding grown_bytes
grown_bytes_lem c h = ground arith

module _ {A : Type 0} where
  pub at-put :
      (a : DynamicArray A) (i j : ℕ) (x : A)
      → i < a.size_including_inline
      → at (put a i x) j ≡ (if j == i then some x else at a j)
  unfolding at put
  at-put a i j x h = ground arith

  -- In an array that has room for its elements, fewer than 2 ^ 48 of them in its block, an allocation
  -- that succeeds adds one element behind the others, which stay what they are, and
  -- the array still has room for all of them, as a block that grows or not.
  pub alloc-at :
      {W : Type 0} (m : MemoryHost W) (junk : A) (a : DynamicArray A) (w : W) (i : ℕ)
      → a.size_including_inline ≤ inline_capacity + a.dynamic_capacity
      → a.dynamic_capacity < 2 ^ 48
      → (alloc m junk a w).0 ≡ true
      → i < a.size_including_inline
      → let r = (alloc m junk a w).1 in
        (r.size_including_inline ≡ a.size_including_inline + 1)
        × (r.size_including_inline ≤ inline_capacity + r.dynamic_capacity)
        × (at r i ≡ at a i)
  unfolding alloc grow at
  alloc-at m junk a w i f g e h =
      let more = grown_bytes_lem a.dynamic_capacity g in ground (arith, more)
