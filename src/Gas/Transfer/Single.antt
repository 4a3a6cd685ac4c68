-- ===== src/Gas/Transfer/Single.antt =====
-- Registers of source/io.c that one access covers.
use u_acpi.Base.{
  ℕ, zero, suc, ◌+◌, ◌-◌, ◌*◌, ◌/◌, ◌%◌, ◌^◌, ◌≤◌, ◌<◌, ◌≡◌, ◌≢◌, ◌⊎◌, refl, ◌∙◌, Bool, true, some,
  Status, ok, ◌==◌, ◌&&◌, ◌||◌, not, holds_below, holds_below-test, arith, bit_and, bit_or,
}
use native.Mathlib.Nat.{mod-eq_of_lt}
use u_acpi.Base.Bits.{and_mask, zero_or}
use u_acpi.Host.{IoHost}
use u_acpi.Gas.Access.{
  Gas, system_memory, access_bit_width, gas_validate, is_aligned, is_power_of_two, align_up,
}
use u_acpi.Gas.Transfer.{
  read_unit, system_memory_read, read_loop, gas_read, access_mask, is_memory_width,
}

is_access : ℕ → Bool
is_access k = (k == 1 || k == 2) || (k == 4 || k == 8)

is_whole : ℕ → Bool
unfolding is_access
is_whole k =
    not (is_access k)
    || (is_power_of_two (k * 8) && is_aligned (k * 8) 8 && (align_up (0 + k * 8) (k * 8) == k * 8))

all_whole : holds_below 9 is_whole ≡ true
unfolding holds_below is_whole is_access is_power_of_two is_aligned align_up
all_whole = refl

whole :
    (k : ℕ)
    → is_access k ≡ true
    → (is_power_of_two (k * 8) ≡ true)
      × (is_aligned (k * 8) 8 ≡ true)
      × (align_up (0 + k * 8) (k * 8) ≡ k * 8)
unfolding is_access is_whole
whole k m = let w = holds_below-test 9 k is_whole all_whole (ground arith) in ground (arith, w)

-- A register of 8, 16, 32 or 64 bits that starts at bit 0 is accessed at its own width.
access_bit_width_whole :
    (g : Gas) (k : ℕ)
    → is_access k ≡ true
    → g.address_space_id ≡ system_memory
    → g.register_bit_offset ≡ 0
    → g.register_bit_width ≡ k * 8
    → access_bit_width g ≡ k * 8
unfolding access_bit_width is_access
access_bit_width_whole g k m a o b = let (p, q, r) = whole k m in rw (o, b) (ground (arith, p, q))

gas_validate_whole :
    (g : Gas) (k : ℕ)
    → is_access k ≡ true
    → g.address_space_id ≡ system_memory
    → g.register_bit_offset ≡ 0
    → g.register_bit_width ≡ k * 8
    → g.access_size ≤ 4
    → g.address ≢ 0
    → gas_validate (some g) ≡ (ok, k * 8)
unfolding gas_validate is_access
gas_validate_whole g k m a o b s p =
    let (x, y, r) = whole k m in
    let width = access_bit_width_whole g k m a o b in
    let up : align_up (g.register_bit_offset + g.register_bit_width) (access_bit_width g) ≡ k * 8 =
      rw (width, o, b) r in
    ground (arith, width, up)

module _ {W : Type 0} (io : IoHost W) where
  access_mask_low : (bits : ℕ) → bits ≤ 64 → access_mask io bits ≡ 2 ^ bits - 1
  unfolding access_mask
  access_mask_low bits b = ground arith

  masked :
      (bits v : ℕ)
      → bits ≤ 64
      → v < 2 ^ bits
      → v < 2 ^ 64
      → bit_or 0 (bit_and v (access_mask io bits) * 2 ^ (0 * bits) % 2 ^ 64) ≡ v
  masked bits v b p q =
      zero_or (bit_and v (access_mask io bits) * 2 ^ (0 * bits) % 2 ^ 64)
      ∙ rw (access_mask_low bits b, and_mask bits v, mod-eq_of_lt p)
          (ground (arith, mod-eq_of_lt q))

  read_loop_done :
      (n : ℕ) (g : Gas) (bits offset index out : ℕ) (w : W)
      → read_loop io n g bits offset 0 index out w ≡ (ok, out, w)
  unfolding read_loop
  read_loop_done zero g bits offset index out w = refl
  read_loop_done (suc n) g bits offset index out w = refl

  read_loop_once :
      (n : ℕ) (g : Gas) (bits offset left v : ℕ) (w w' : W)
      → 0 < n
      → offset ≡ 0
      → left ≡ bits
      → 0 < bits
      → bits ≤ 64
      → v < 2 ^ bits
      → v < 2 ^ 64
      → read_unit io g bits 0 w ≡ (ok, v, w')
      → read_loop io n g bits offset left 0 0 w ≡ (ok, v, w')
  unfolding read_loop
  read_loop_once zero g bits offset left v w w' i o l a b p q e = ground arith
  read_loop_once (suc n) g bits offset left v w w' i o l a b p q e =
      let out = bit_or 0 (bit_and v (access_mask io bits) * 2 ^ (0 * bits) % 2 ^ 64) in
      ground (arith, e, masked bits v b p q, read_loop_done n g bits 0 1 out w')

  read_unit_whole :
      (g : Gas) (k : ℕ) (w : W)
      → is_access k ≡ true
      → g.address_space_id ≡ system_memory
      → g.address < 2 ^ 64
      → let (virt, w1) = io.map_memory g.address k w in
        let (value, w2) = io.load virt k w1 in
        virt ≢ 0
        → read_unit io g (k * 8) 0 w ≡ (ok, value % 2 ^ (k * 8), io.unmap_memory virt (k * 8) w2)
  unfolding read_unit system_memory_read is_memory_width is_access
  read_unit_whole g k w c m t v =
      let bytes : k * 8 / 8 ≡ k = omega arith in
      let address : (g.address + 0 * k) % 2 ^ 64 ≡ g.address = omega arith in
      ground (arith, bytes, address)

  truncated :
      (k v : ℕ) → is_access k ≡ true → (v % 2 ^ (k * 8) < 2 ^ (k * 8)) × (v % 2 ^ (k * 8) < 2 ^ 64)
  unfolding is_access
  truncated k v c = ground arith

  gas_read_loop :
      (g : Gas) (bits : ℕ) (w : W) (r : Status × ℕ × W)
      → gas_validate (some g) ≡ (ok, bits)
      → let left = (g.register_bit_offset + g.register_bit_width) % 2 ^ 8 in
        read_loop io left g bits g.register_bit_offset left 0 0 w ≡ r → gas_read io (some g) w ≡ r
  unfolding gas_read
  gas_read_loop g bits w r v e = ground (arith, v, e)

  -- A register of 1, 2, 4 or 8 whole bytes in memory that starts at bit 0 of its address, with any
  -- access size that is allowed, is read by one access: its bytes are mapped, loaded once, cut to
  -- the register's width and unmapped with the width in bits; nothing else is done.
  pub gas_read_whole :
      (g : Gas) (k : ℕ) (w : W)
      → (k ≡ 1) ⊎ (k ≡ 2) ⊎ (k ≡ 4) ⊎ (k ≡ 8)
      → g.address_space_id ≡ system_memory
      → g.register_bit_offset ≡ 0
      → g.register_bit_width ≡ k * 8
      → g.access_size ≤ 4
      → g.address ≢ 0
      → g.address < 2 ^ 64
      → (io.map_memory g.address k w).0 ≢ 0
      → let (virt, w1) = io.map_memory g.address k w in
        let (value, w2) = io.load virt k w1 in
        gas_read io (some g) w ≡ (ok, value % 2 ^ (k * 8), io.unmap_memory virt (k * 8) w2)
  unfolding gas_read is_access
  gas_read_whole g k w c m o b s p t v =
      let access : is_access k ≡ true = ground arith in
      let valid = gas_validate_whole g k access m o b s p in
      let virt = (io.map_memory g.address k w).0 in
      let (value, w2) = io.load virt k (io.map_memory g.address k w).1 in
      let left = (g.register_bit_offset + g.register_bit_width) % 2 ^ 8 in
      let (below, fits) = truncated k value access in
      let once =
        read_loop_once left g (k * 8) g.register_bit_offset left (value % 2 ^ (k * 8)) w
          (io.unmap_memory virt (k * 8) w2) (ground arith) o (ground arith) (ground arith)
          (ground arith) below fits (read_unit_whole g k w access m t v) in
      gas_read_loop g (k * 8) w _ valid once
