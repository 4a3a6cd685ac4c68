-- ===== src/Event/Setup/Laws.antt =====
-- A new block's events are at their places, without users; and a lock that is released without
-- having been acquired.
use u_acpi.Base.{
  ℕ, zero, suc, ◌+◌, ◌*◌, ◌/◌, ◌%◌, ◌^◌, ◌≤◌, ◌<◌, ◌≡◌, refl, ap, ◌∙◌, ok, ◌==◌, arith, inl, inr,
  Bool-cases, some,
}
use u_acpi.Base.Bits.{bit, bit-zero}
use u_acpi.Gas.Access.{Gas}
use u_acpi.Gas.Transfer.{gas_write}
use u_acpi.Event.{EventHost, Platform, GpeBlock}
use u_acpi.Event.Block.{set_register}
use u_acpi.Event.Block.Create.{made_register, add_register, init_registers, empty_block, zero_gas}
use u_acpi.Event.Invariant.{IsWellFormed}

-- One byte at an address.
abbrev byte_gas : ℕ → ℕ → Gas
byte_gas space address = record zero_gas {
  address = address % 2 ^ 64;
  address_space_id = space;
  register_bit_width = 8;
}

-- No event of the block has users, and no register has a runtime bit.
abbrev HasNoUsers : GpeBlock → Type 0
HasNoUsers b = (o : ℕ) → ((b.events o).num_users ≡ 0) × ((b.registers (o / 8)).runtime_mask ≡ 0)

-- The events of the first `n` registers are at their places, their indices counted from the block's
-- first one.
abbrev IsPlaced : ℕ → GpeBlock → ℕ → Type 0
IsPlaced base_idx b n =
    (o : ℕ)
    → o < n * 8
    → ((b.events o).reg ≡ o / 8)
      × ((b.events o).idx ≡ base_idx + o)
      × ((b.registers (o / 8)).base_idx ≡ base_idx + o / 8 * 8)

-- The first `n` of a block's `num` registers: the bytes of the status are at the block's address, one
-- after the other, and those of the enable bits follow behind all of the status.
abbrev pub AreAddressed : ℕ → ℕ → ℕ → GpeBlock → ℕ → Type 0
AreAddressed address space num b n =
    (k : ℕ)
    → k < n
    → ((b.registers k).status ≡ byte_gas space (address + k))
      × ((b.registers k).enable ≡ byte_gas space (address + num + k))

module _ {W : Type 0} (h : EventHost W) (p : Platform) where
  add-HasNoUsers :
      (base_idx address space num i : ℕ) (b : GpeBlock)
      → HasNoUsers b
      → HasNoUsers (add_register (made_register base_idx address space num i) i b)
  unfolding add_register made_register set_register
  add-HasNoUsers base_idx address space num i b n o = ground (arith, n o)

  add-IsPlaced :
      (base_idx address space num i : ℕ) (b : GpeBlock)
      → base_idx + i * 8 + 8 ≤ 2 ^ 16
      → IsPlaced base_idx b i
      → IsPlaced base_idx (add_register (made_register base_idx address space num i) i b) (suc i)
  unfolding add_register made_register set_register
  add-IsPlaced base_idx address space num i b l k o c = elim (Bool-cases (o / 8 == i)) [
    | inl e ↦ rw e (ground arith, ground arith, ground arith)
    | inr e ↦ rw e (k o (ground arith))
  ]

  add-AreAddressed :
      (base_idx address space num i : ℕ) (b : GpeBlock)
      → AreAddressed address space num b i
      → AreAddressed address space num
          (add_register (made_register base_idx address space num i) i b)
          (suc i)
  unfolding add_register made_register set_register
  add-AreAddressed base_idx address space num i b k j c = elim (Bool-cases (j == i)) [
    | inl e ↦ let q : j ≡ i = ground arith in rw (e, q) (refl, refl)
    | inr e ↦ rw e (k j (ground arith))
  ]

  num_events-add :
      (base_idx address space num i : ℕ) (b : GpeBlock)
      → (add_register (made_register base_idx address space num i) i b).num_events ≡ b.num_events
  unfolding add_register set_register
  num_events-add base_idx address space num i b = refl

  init-fresh :
      (left i base_idx address space num : ℕ) (b : GpeBlock) (w : W)
      → base_idx + (i + left) * 8 ≤ 2 ^ 16
      → HasNoUsers b
      → IsPlaced base_idx b i
      → AreAddressed address space num b i
      → (init_registers h p left i base_idx address space num b w).0 ≡ ok
      → let b' = (init_registers h p left i base_idx address space num b w).1 in
        HasNoUsers b'
        × IsPlaced base_idx b' (i + left)
        × AreAddressed address space num b' (i + left)
        × (b'.num_events ≡ b.num_events)
  unfolding init_registers
  init-fresh zero i base_idx address space num b w l u k a e =
      (u, λ o c. k o (omega arith), λ j c. a j (omega arith), refl)
  init-fresh (suc left) i base_idx address space num b w l u k a e =
      let reg = made_register base_idx address space num i in
      let b1 = add_register reg i b in
      let r = gas_write h.io (some reg.enable) 0 w in
      let r' = gas_write h.io (some reg.status) 0xff r.1 in
      let o : r.0 ≡ ok = ground (arith, e) in
      let o' : r'.0 ≡ ok = ground (arith, e, o) in
      let e1 : (init_registers h p left (suc i) base_idx address space num b1 r'.1).0 ≡ ok =
        ground (arith, e, o, o') in
      let ih =
        init-fresh left (suc i) base_idx address space num b1 r'.1 (omega arith)
          (add-HasNoUsers base_idx address space num i b u)
          (add-IsPlaced base_idx address space num i b (omega arith) k)
          (add-AreAddressed base_idx address space num i b a) e1 in
      let step : init_registers h p (suc left) i base_idx address space num b w
          ≡ init_registers h p left (suc i) base_idx address space num b1 r'.1 =
        rw (init_registers, o, o') refl in
      rw step (
        ih.0,
        λ x c. ih.1 x (omega arith),
        λ j c. ih.2 j (omega arith),
        ih.3 ∙ num_events-add base_idx address space num i b,
      )

  -- A block whose registers and events `create_gpe_block` has filled in, all writes to them
  -- returning OK, has each event at its place and without users, its bit of the runtime mask clear,
  -- if the indices of its events fit 16 bits. The event at offset `o` has the index `o` behind the
  -- block's first one, and its register the index of its own first event. The status bytes are at
  -- the block's address, one after the other, and the enable bytes behind all of them, modulo
  -- 2^64.
  pub init_registers-IsWellFormed :
      (device base_idx address space num : ℕ) (w : W)
      → base_idx + num * 8 ≤ 2 ^ 16
      → let b = record (empty_block h p device base_idx) {
        num_registers = num;
        num_events = num * 8;
      } in
        let r = init_registers h p num 0 base_idx address space num b w in
        r.0 ≡ ok
        → IsWellFormed r.1
          × ((o : ℕ)
              → o < num * 8
              → ((r.1.events o).idx ≡ base_idx + o)
                × ((r.1.registers (o / 8)).base_idx ≡ base_idx + o / 8 * 8))
          × AreAddressed address space num r.1 num
  init_registers-IsWellFormed device base_idx address space num w l e =
      let b : GpeBlock = record (empty_block h p device base_idx) {
        num_registers = num;
        num_events = num * 8;
      } in
      let f =
        init-fresh num 0 base_idx address space num b w (omega arith) (λ x. (refl, refl))
          (λ x d. absurd (omega arith)) (λ x d. absurd (omega arith)) e in
      (
        λ o c.
            let placed = f.1 o (omega (arith, f.3)) in
            let unused = f.0 o in
            (
              placed.0,
              omega (arith, placed.1, placed.2),
              omega (arith, unused.1),
              omega (arith, unused.0),
              ground (arith, unused, ap (bit (o % 8)) unused.1, bit-zero (o % 8)),
            ),
        λ o c. let placed = f.1 o (omega arith) in (placed.1, placed.2),
        λ k c. f.2 k (omega arith),
      )
