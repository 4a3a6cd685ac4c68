-- ===== src/Event/Block.antt =====
-- source/event.c: the blocks of general purpose events, made, unmade and acted upon as a whole. The
-- sizes are those of the source's structures with 64-bit pointers.
pub mod Laws
pub mod Match
pub mod Create
use u_acpi.Base.{
  ℕ, zero, suc, ◌+◌, ◌-◌, ◌*◌, ◌%◌, ◌^◌, Bool, true, false, ◌||◌, not, Option, none, some, Status,
  ok, err, invalid_argument, ◌==◌, if◌then◌else◌, bit_and, List, [], ◌∷◌,
}
use u_acpi.Gas.Transfer.{gas_write}
use u_acpi.Event.{
  EventHost, Platform, GpEvent, GpeRegister, GpeBlock, GpeInterruptCtx, State, in_world, AnyHandler,
  implicit, type_native, type_native_raw, type_implicit,
}

abbrev pub sizeof_register : ℕ
sizeof_register = 30

abbrev pub sizeof_event : ℕ
sizeof_event = 24

abbrev pub sizeof_block : ℕ
sizeof_block = 56

abbrev pub sizeof_ctx : ℕ
sizeof_ctx = 40

abbrev pub sizeof_native_handler : ℕ
sizeof_native_handler = 32

abbrev pub sizeof_implicit_handler : ℕ
sizeof_implicit_handler = 16

pub data BlockAction : Type 0 where
  disable_all enable_all_for_runtime enable_all_for_wake clear_all : BlockAction

-- What an action but CLEAR_ALL writes to an enable register.
unfoldable pub action_value : BlockAction → GpeRegister → Option ℕ
action_value disable_all reg = some 0
action_value enable_all_for_runtime reg =
    some (bit_and reg.runtime_mask (2 ^ 8 - 1 - reg.masked_mask))
action_value enable_all_for_wake reg = some reg.wake_mask
action_value clear_all reg = none

unfoldable pub set_register : ℕ → GpeRegister → GpeBlock → GpeBlock
set_register i reg b = record b { registers = λ k. if k == i then reg else b.registers k }

unfoldable pub update_block : {W : Type 0} → State W → ℕ → GpeBlock → State W
update_block s block b = record s { block_at = λ k. if k == block then b else s.block_at k }

-- The unlinking of a block from its context's list, the first or a later one.
unfoldable pub unlink_block : List ℕ → ℕ → List ℕ
unlink_block [] block = []
unlink_block (b ∷ bs) block = if b == block then bs else b ∷ unlink_block bs block

unfoldable pub is_empty : List ℕ → Bool
is_empty [] = true
is_empty (b ∷ bs) = false

module _ {W : Type 0} (h : EventHost W) (p : Platform) where
  -- One round of the loop, on one register.
  unfoldable pub apply_to_register : BlockAction → GpeRegister → W → Status × GpeRegister × W
  unfolding action_value
  apply_to_register action reg w = elim (action_value action reg) [
    | some value ↦
        let (ret, w') = gas_write h.io (some reg.enable) value w in
        (ret, record reg { current_mask = value }, w')
    | none ↦ let (ret, w') = gas_write h.io (some reg.status) 0xff w in (ret, reg, w')
  ]

  -- The loop from register `i` on, `left` of them.
  unfoldable pub apply_from : ℕ → ℕ → BlockAction → GpeBlock → W → Status × GpeBlock × W
  unfolding apply_to_register set_register
  apply_from zero i action b w = (ok, b, w)
  apply_from (suc left) i action b w =
      let (ret, reg, w1) = apply_to_register action (b.registers i) w in
      let b1 = set_register i reg b in
      let rest = apply_from left (suc i) action b1 w1 in
      elim ret [ ok ↦ rest | err e ↦ (err e, b1, w1) ]

  unfoldable pub gpe_block_apply_action : ℕ → BlockAction → State W → Status × State W
  unfolding apply_from update_block
  gpe_block_apply_action block action s =
      let b = s.block_at block in
      let (ret, b', w) = apply_from b.num_registers 0 action b s.world in
      (ret, in_world (update_block s block b') w)

  -- The loop of `gpe_block_mask_safe` from register `i` on.
  unfoldable pub mask_from : ℕ → ℕ → GpeBlock → W → GpeBlock × W
  unfolding set_register
  mask_from zero i b w = (b, w)
  mask_from (suc left) i b w =
      let reg = b.registers i in
      let b1 = set_register i (record reg { masked_mask = 0xff }) b in
      let w1 = (gas_write h.io (some reg.enable) 0 (h.wait_for_work w)).1 in
      let masked = mask_from left (suc i) b1 (h.wait_for_work w1) in
      let skipped = mask_from left (suc i) b w in if reg.current_mask == 0 then skipped else masked

  unfoldable pub gpe_block_mask_safe : ℕ → State W → State W
  unfolding mask_from update_block
  gpe_block_mask_safe block s =
      let b = s.block_at block in
      let (b', w) = mask_from b.num_registers 0 b s.world in in_world (update_block s block b') w

  pub free_all : List ℕ → W → W
  free_all [] w = w
  free_all (device ∷ devices) w = free_all devices (h.memory.free sizeof_implicit_handler w)

  -- `gpe_release_implicit_notify_handlers`; the caller stores UACPI_NULL.
  pub release_implicit : AnyHandler → W → W
  unfolding free_all
  release_implicit (implicit devices) w = free_all devices w
  release_implicit _ w = w

  release_handler : GpEvent → W → W
  unfolding release_implicit
  release_handler event w =
      if event.handler_type == type_native || event.handler_type == type_native_raw
      then h.memory.free sizeof_native_handler w
      else (if event.handler_type == type_implicit then release_implicit event.any_handler w else w)

  release_from : ℕ → ℕ → GpeBlock → W → W
  unfolding release_handler
  release_from zero i b w = w
  release_from (suc left) i b w = release_from left (suc i) b (release_handler (b.events i) w)

  -- The block taken out of its context. A context without blocks is freed, but stays in the
  -- list of contexts: `ctx->prev` is never set, and `g_gpe_interrupt_head` is not compared.
  unfoldable pub leave_context : ℕ → State W → State W
  unfolding unlink_block is_empty
  leave_context block s =
      let c = (s.block_at block).irq_ctx in
      let ctx = s.context_at c in
      let bs = unlink_block ctx.blocks block in
      let s1 = record s {
        context_at = λ k. if k == c then (record ctx { blocks = bs }) else s.context_at k;
      } in
      let w1 =
        if ctx.irq == p.sci_int
        then s.world
        else h.uninstall_interrupt_handler ctx.irq_handle s.world in
      let s2 = record s1 {
        world = h.memory.free sizeof_ctx w1;
        freed = λ k. if k == c then true else s.freed k;
      } in
      if c == 0 then s else (if is_empty bs then s2 else s1)

  unfoldable pub free_block : ℕ → State W → State W
  unfolding release_from
  free_block block s =
      let b = s.block_at block in
      let w1 = if b.has_events then release_from b.num_events 0 b s.world else s.world in
      let w2 = h.memory.free (sizeof_register * b.num_registers) w1 in
      let w3 = h.memory.free (sizeof_event * b.num_events) w2 in
      record s {
        world = h.memory.free sizeof_block w3;
        freed = λ k. if k == block then true else s.freed k;
      }

  unfoldable pub uninstall_gpe_block : ℕ → State W → State W
  unfolding leave_context free_block gpe_block_mask_safe
  uninstall_gpe_block block s =
      let s1 = if (s.block_at block).has_registers then gpe_block_mask_safe block s else s in
      free_block block (leave_context block s1)
