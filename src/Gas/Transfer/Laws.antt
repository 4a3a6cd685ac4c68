-- ===== src/Gas/Transfer/Laws.antt =====
-- What reading and writing through a Generic Address Structure promise, in source/io.c.
use u_acpi.Base.{
  ℕ, zero, suc, ◌+◌, ◌-◌, ◌*◌, ◌/◌, ◌%◌, ◌^◌, ◌≤◌, ◌<◌, ◌≡◌, ◌≢◌, refl, ◌∙◌, some, ok, err,
  invalid_argument, arith, min, bit_and, bit_or,
}
use u_acpi.Host.{IoHost}
use u_acpi.Gas.Access.{Gas, system_memory, gas_validate}
use u_acpi.Gas.Width.{access_bit_width-double_word, gas_validate-width}
use u_acpi.Gas.Transfer.{
  read_unit, system_memory_read, write_unit, read_loop, write_loop, gas_read, access_mask,
  is_memory_width,
}

module _ {W : Type 0} (io : IoHost W) where
  -- Once the rounds suffice for the bits, more of them change nothing: the loop ends by its test.
  pub read_loop_enough :
      (n k : ℕ) (g : Gas) (bits offset left index out : ℕ) (w : W)
      → 0 < bits
      → left ≤ n
      → left ≤ k
      → read_loop io n g bits offset left index out w
        ≡ read_loop io k g bits offset left index out w
  unfolding read_loop
  read_loop_enough zero zero g bits offset left index out w p a b = refl
  read_loop_enough zero (suc k) g bits offset left index out w p a b = ground arith
  read_loop_enough (suc n) zero g bits offset left index out w p a b = ground arith
  read_loop_enough (suc n) (suc k) g bits offset left index out w p a b =
      let (ret, value, w') = read_unit io g bits index w in
      let merge =
        λ (d : ℕ). bit_or out (bit_and d (access_mask io bits) * 2 ^ (index * bits) % 2 ^ 64) in
      ground (
        arith,
        read_loop_enough n k g bits (offset - bits) (left - min left bits) (suc index) (merge 0) w,
        read_loop_enough n k g bits offset (left - min left bits) (suc index) (merge value) w',
      )

  -- The loop that writes ends by its test in the same way: more rounds than bits change nothing.
  pub write_loop_enough :
      (n k : ℕ) (g : Gas) (bits offset left index value : ℕ) (w : W)
      → 0 < bits
      → left ≤ n
      → left ≤ k
      → write_loop io n g bits offset left index value w
        ≡ write_loop io k g bits offset left index value w
  unfolding write_loop
  write_loop_enough zero zero g bits offset left index value w p a b = refl
  write_loop_enough zero (suc k) g bits offset left index value w p a b = ground arith
  write_loop_enough (suc n) zero g bits offset left index value w p a b = ground arith
  write_loop_enough (suc n) (suc k) g bits offset left index value w p a b =
      let part = bit_and (value / 2 ^ (index * bits)) (access_mask io bits) in
      let w' = (write_unit io g bits index part w).1 in
      ground (
        arith,
        write_loop_enough n k g bits (offset - bits) (left - min left bits) (suc index) value w,
        write_loop_enough n k g bits offset (left - min left bits) (suc index) value w',
      )

  read_unit_24 :
      (g : Gas) (w : W)
      → g.address_space_id ≡ system_memory
      → (io.map_memory ((g.address + 0 * 3) % 2 ^ 64) 3 w).0 ≢ 0
      → (read_unit io g 24 0 w).0 ≡ err invalid_argument
  unfolding read_unit system_memory_read is_memory_width
  read_unit_24 g w m p = ground arith

  read_loop_24 :
      (n : ℕ) (g : Gas) (offset left : ℕ) (w : W)
      → 0 < n
      → 0 < left
      → offset < 24
      → (read_unit io g 24 0 w).0 ≡ err invalid_argument
      → (read_loop io n g 24 offset left 0 0 w).0 ≡ err invalid_argument
  unfolding read_loop
  read_loop_24 zero g offset left w a b o p = ground arith
  read_loop_24 (suc n) g offset left w a b o p = ground arith

  -- The access size 3 stands for double words, but the width taken from it is 24 bits: a valid
  -- register in memory with that access size and a bit offset below 24 cannot be read, since the
  -- first access fails with INVALID_ARGUMENT, wherever its mapping succeeds.
  pub gas_read_double_word :
      (g : Gas) (w : W)
      → g.address_space_id ≡ system_memory
      → g.access_size ≡ 3
      → 0 < g.register_bit_offset
      → g.register_bit_offset < 24
      → g.register_bit_width < 128
      → (gas_validate (some g)).0 ≡ ok
      → (io.map_memory ((g.address + 0 * 3) % 2 ^ 64) 3 w).0 ≢ 0
      → (gas_read io (some g) w).0 ≡ err invalid_argument
  unfolding gas_read
  gas_read_double_word g w m a o l b v p =
      let bits : (gas_validate (some g)).1 ≡ 24 =
        gas_validate-width g v ∙ access_bit_width-double_word g m a o in
      let left = (g.register_bit_offset + g.register_bit_width) % 2 ^ 8 in
      let failed =
        read_loop_24 left g g.register_bit_offset left w (omega arith) (omega arith) l
          (read_unit_24 g w m p) in
      ground (arith, bits, failed)
