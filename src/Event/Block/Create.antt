-- ===== src/Event/Block/Create.antt =====
-- source/event.c: the making of a block of general purpose events, with the context of its
-- interrupt.
use u_acpi.Base.{
  ℕ, zero, suc, ◌+◌, ◌*◌, ◌/◌, ◌%◌, ◌^◌, true, false, Option, none, some, Status, ok, err,
  out_of_memory, ◌==◌, if◌then◌else◌, List, [], ◌∷◌,
}
use u_acpi.Gas.Transfer.{gas_write}
use u_acpi.Gas.Access.{Gas}
use u_acpi.Event.{
  EventHost, Platform, GpEvent, GpeRegister, GpeBlock, State, in_world, no_pointer, type_none,
  level_triggering,
}
use u_acpi.Event.Block.Match.{match_block}
use u_acpi.Event.Block.{
  sizeof_register, sizeof_event, sizeof_block, sizeof_ctx, update_block, set_register,
  uninstall_gpe_block,
}

-- The context of an interrupt among those of the list.
unfoldable pub find_context : {W : Type 0} → State W → List ℕ → ℕ → Option ℕ
find_context s [] irq = none
find_context s (c ∷ cs) irq = if (s.context_at c).irq == irq then some c else find_context s cs irq

-- All bits 0, as `uacpi_kernel_alloc_zeroed` leaves them.
abbrev pub zero_gas : Gas
zero_gas = record {
  address_space_id = 0;
  register_bit_width = 0;
  register_bit_offset = 0;
  access_size = 0;
  address = 0;
}

abbrev pub zero_register : GpeRegister
zero_register = record {
  status = zero_gas;
  enable = zero_gas;
  runtime_mask = 0;
  wake_mask = 0;
  masked_mask = 0;
  current_mask = 0;
  base_idx = 0;
}

abbrev pub zero_event : GpEvent
zero_event = record {
  any_handler = no_pointer;
  reg = 0;
  idx = 0;
  num_users = 0;
  handler_type = type_none;
  triggering = level_triggering;
  wake = false;
  block_interrupts = false;
}

-- The register pair `i` and its events, as the loop fills them in.
unfoldable pub made_register : ℕ → ℕ → ℕ → ℕ → ℕ → GpeRegister
made_register base_idx address space num_registers i = record zero_register {
  base_idx = (base_idx + i * 8) % 2 ^ 16;
  status = record zero_gas {
    address = (address + i) % 2 ^ 64;
    address_space_id = space;
    register_bit_width = 8;
  };
  enable = record zero_gas {
    address = (address + num_registers + i) % 2 ^ 64;
    address_space_id = space;
    register_bit_width = 8;
  };
}

unfoldable pub add_register : GpeRegister → ℕ → GpeBlock → GpeBlock
unfolding set_register
add_register reg i b = record (set_register i reg b) {
  events = λ k.
      if k / 8 == i
      then (record (b.events k) { idx = (reg.base_idx + k % 8) % 2 ^ 16; reg = i })
      else b.events k;
}

module _ {W : Type 0} (h : EventHost W) (p : Platform) where
  -- The answer is the context, if the status is OK. The interrupt of the SCI is installed
  -- elsewhere.
  unfoldable pub find_or_create_gpe_interrupt_ctx : ℕ → State W → Status × ℕ × State W
  unfolding find_context
  find_or_create_gpe_interrupt_ctx irq s =
      let (got, w1) = h.memory.alloc sizeof_ctx s.world in
      let (ret, handle, w2) = h.install_interrupt_handler irq w1 in
      let c = s.next_pointer in
      let new = λ (handle : ℕ) (w : W). record s {
        world = w;
        contexts = c ∷ s.contexts;
        context_at = λ k.
            if k == c
            then (record { blocks = []; irq_handle = handle; irq = irq })
            else s.context_at k;
        next_pointer = suc c;
      } in
      elim (find_context s s.contexts irq) [
        | some found ↦ (ok, found, s)
        | none ↦
            if got
            then (if irq == p.sci_int then (ok, c, new 0 w1) else (elim ret [
              | ok ↦ (ok, c, new handle w2)
              | err e ↦ (err e, 0, in_world s (h.memory.free sizeof_ctx w2))
            ]))
            else (err out_of_memory, 0, in_world s w1)
      ]

  -- The loop from register `i` on: each pair is filled in, disabled and cleared.
  unfoldable pub init_registers : ℕ → ℕ → ℕ → ℕ → ℕ → ℕ → GpeBlock → W → Status × GpeBlock × W
  unfolding made_register add_register
  init_registers zero i base_idx address space num b w = (ok, b, w)
  init_registers (suc left) i base_idx address space num b w =
      let reg = made_register base_idx address space num i in
      let b1 = add_register reg i b in
      let (ret, w1) = gas_write h.io (some reg.enable) 0 w in
      let (ret', w2) = gas_write h.io (some reg.status) 0xff w1 in
      let rest = init_registers left (suc i) base_idx address space num b1 w2 in
      elim ret [ err e ↦ (err e, b1, w1) | ok ↦ elim ret' [ err e ↦ (err e, b1, w2) | ok ↦ rest ] ]

  abbrev pub empty_block : ℕ → ℕ → GpeBlock
  empty_block device base_idx = record {
    device_node = device;
    registers = λ i. zero_register;
    has_registers = false;
    events = λ i. zero_event;
    has_events = false;
    irq_ctx = 0;
    num_registers = 0;
    num_events = 0;
    base_idx = base_idx;
  }

  -- The block joins its context's list in front, and its methods are looked for.
  unfoldable pub join_context : ℕ → ℕ → State W → State W
  unfolding update_block
  join_context block c s =
      let ctx = s.context_at c in
      let linked = record ctx { blocks = block ∷ ctx.blocks } in
      let s1 = update_block s block (record (s.block_at block) { irq_ctx = c }) in
      record s1 { context_at = λ k. if k == c then linked else s.context_at k }

  -- After the allocations. An error uninstalls what there is.
  unfoldable pub fill_block : ℕ → ℕ → ℕ → ℕ → ℕ → ℕ → State W → Status × State W
  unfolding join_context init_registers find_or_create_gpe_interrupt_ctx update_block
  fill_block block irq base_idx address space num s =
      let (ret, b, w) =
        init_registers num 0 base_idx address space num (s.block_at block) s.world in
      let s1 = in_world (update_block s block b) w in
      let (ret', c, s2) = find_or_create_gpe_interrupt_ctx irq s1 in
      elim ret [
        | err e ↦ (err e, uninstall_gpe_block h p block s1)
        | ok ↦ elim ret' [
          | err e ↦ (err e, uninstall_gpe_block h p block s2)
          | ok ↦ (ok, match_block h p block (join_context block c s2))
        ]
      ]

  unfoldable pub create_gpe_block : ℕ → ℕ → ℕ → ℕ → ℕ → ℕ → State W → Status × State W
  unfolding fill_block update_block
  create_gpe_block device irq base_idx address space num s =
      let block = s.next_pointer in
      let num_events = num * 8 % 2 ^ 16 in
      let (got, w1) = h.memory.alloc sizeof_block s.world in
      let (got', w2) = h.memory.alloc (num * sizeof_register) w1 in
      let (got'', w3) = h.memory.alloc (num_events * sizeof_event) w2 in
      let at : GpeBlock → W → State W =
        λ b w. update_block (record s { world = w; next_pointer = suc block }) block b in
      let b1 = record (empty_block device base_idx) { num_registers = num } in
      let b2 = record b1 { has_registers = true; num_events = num_events } in
      let b3 = record b2 { has_events = true } in
      if got
      then (if got'
          then (if got''
              then fill_block block irq base_idx address space num (at b3 w3)
              else (err out_of_memory, uninstall_gpe_block h p block (at b2 w3)))
          else (err out_of_memory, uninstall_gpe_block h p block (at b1 w2)))
      else (err out_of_memory, in_world s w1)
