-- ===== src/Event/Store.antt =====
-- source/event.c: the events in the store of blocks, and the loops over them.
pub mod Laws
use u_acpi.Base.{
  ℕ, zero, suc, ◌+◌, ◌-◌, ◌*◌, ◌/◌, ◌%◌, ◌^◌, Bool, true, false, ◌&&◌, not, Option, none, some,
  Status, ok, err, ◌==◌, ltb, if◌then◌else◌, bit_and, bit_or, List, [], ◌∷◌, ◌++◌, map,
}
use u_acpi.Gas.Transfer.{gas_read}
use u_acpi.Event.{EventHost, GpEvent, GpeBlock, GpeView, State, in_world, not_handled}
use u_acpi.Event.Gpe.{overlaps}
use u_acpi.Event.Dispatch.{dispatch_gpe}

-- The event at an offset of a block, with its register, and the same put back.
unfoldable pub view : {W : Type 0} → State W → ℕ → ℕ → GpeView W
view s block offset =
    let b = s.block_at block in
    let event = b.events offset in
    record { event = event; reg = b.registers event.reg; world = s.world }

unfoldable pub set_event_at : GpeBlock → ℕ → GpEvent → GpeBlock
set_event_at b offset event = record b { events = λ i. if i == offset then event else b.events i }

unfoldable pub put_event : {W : Type 0} → GpeBlock → ℕ → GpeView W → GpeBlock
unfolding set_event_at
put_event b offset g =
    let r = (b.events offset).reg in
    record (set_event_at b offset g.event) {
      registers = λ i. if i == r then g.reg else b.registers i;
    }

unfoldable pub put : {W : Type 0} → State W → ℕ → ℕ → GpeView W → State W
unfolding put_event
put s block offset g =
    let b' = put_event (s.block_at block) offset g in
    record s { world = g.world; block_at = λ i. if i == block then b' else s.block_at i }

unfoldable pub on_event :
    {A : Type 0} {W : Type 0} → (GpeView W → A × GpeView W) → ℕ → ℕ → State W → A × State W
unfolding view put
on_event f block offset s = let (a, g) = f (view s block offset) in (a, put s block offset g)

-- A block has no event behind its last one, but the comparison admits the index just behind it.
unfoldable pub gpe_from_block : GpeBlock → ℕ → Option ℕ
gpe_from_block block idx =
    let offset = idx - block.base_idx in
    if ltb idx block.base_idx
    then none
    else (if ltb block.num_events offset then none else some offset)

-- `do_find_gpe` over the blocks of one context: the last block of the device that was seen, and
-- the event if one was found, with its block. The walk stops at an event.
pub record Search : Type 0 where
  pub out_block : Option ℕ
  pub out_event : Option (ℕ × ℕ)

unfoldable pub do_find_gpe : (ℕ → GpeBlock) → ℕ → ℕ → ℕ → Search → Bool × Search
unfolding gpe_from_block
do_find_gpe block_at device idx block found =
    let b = block_at block in
    if b.device_node == device
    then (elim (gpe_from_block b idx) [
      | some offset ↦ (true, record { out_block = some block; out_event = some (block, offset) })
      | none ↦ (false, record { out_block = some block; out_event = none })
    ])
    else (false, found)

-- `for_each_gpe_block`: all blocks in the order of the walk, and the walk with a callback that
-- may stop it.
unfoldable pub all_blocks : {W : Type 0} → State W → List ℕ → List ℕ
all_blocks s [] = []
all_blocks s (c ∷ cs) = (s.context_at c).blocks ++ all_blocks s cs

unfoldable pub for_each_block {ℓ} : {A : Type ℓ} → (ℕ → A → Bool × A) → List ℕ → A → A
for_each_block cb [] a = a
for_each_block cb (b ∷ bs) a =
    let (stop, a') = cb b a in let rest = for_each_block cb bs a' in if stop then a' else rest

unfoldable pub search : {W : Type 0} → State W → ℕ → ℕ → Search
unfolding for_each_block all_blocks do_find_gpe
search s device idx =
    for_each_block (do_find_gpe s.block_at device idx) (all_blocks s s.contexts)
      (record { out_block = none; out_event = none })

unfoldable pub get_gpe : {W : Type 0} → State W → ℕ → ℕ → Option (ℕ × ℕ)
unfolding search
get_gpe s device idx = (search s device idx).out_event

module _ {W : Type 0} (h : EventHost W) where
  -- The inner loop of `detect_gpes`: `left` events of the register remain, and `pending` is
  -- `status & enable`.
  unfoldable pub detect_register : ℕ → ℕ → ℕ → ℕ → ℕ → State W → ℕ × State W
  detect_register zero block i pending int_ret s = (int_ret, s)
  detect_register (suc left) block i pending int_ret s =
      let j = 8 - suc left in
      let device = (s.block_at block).device_node in
      let (ret, s') = on_event (dispatch_gpe h s.gpe_state_slock device) block (j + i * 8) s in
      let fired = detect_register left block i pending (bit_or int_ret ret) s' in
      let quiet = detect_register left block i pending int_ret s in
      if overlaps pending (2 ^ j) then fired else quiet

  -- The loop over the registers from `i` on; the flag says that a read failed, which returns.
  unfoldable pub detect_block : ℕ → ℕ → ℕ → ℕ → State W → Bool × ℕ × State W
  unfolding detect_register
  detect_block zero block i int_ret s = (false, int_ret, s)
  detect_block (suc left) block i int_ret s =
      let reg = (s.block_at block).registers i in
      let (ret, status, w1) = gas_read h.io (some reg.status) s.world in
      let (ret', enable, w2) = gas_read h.io (some reg.enable) w1 in
      let s2 = in_world s w2 in
      let (int_ret', s3) = detect_register 8 block i (bit_and status enable) int_ret s2 in
      let unused = detect_block left block (suc i) int_ret s in
      let idle = detect_block left block (suc i) int_ret s2 in
      let rest = detect_block left block (suc i) int_ret' s3 in
      if (reg.runtime_mask == 0) && (reg.wake_mask == 0) then unused else (elim ret [
        | err e ↦ (true, int_ret, in_world s w1)
        | ok ↦ elim ret' [ err e ↦ (true, int_ret, s2) | ok ↦ if status == 0 then idle else rest ]
      ])

  unfoldable pub detect_gpes : List ℕ → ℕ → State W → ℕ × State W
  unfolding detect_block
  detect_gpes [] int_ret s = (int_ret, s)
  detect_gpes (block ∷ blocks) int_ret s =
      let (failed, int_ret', s') =
        detect_block (s.block_at block).num_registers block 0 int_ret s in
      let rest = detect_gpes blocks int_ret' s' in if failed then (int_ret', s') else rest

  -- A context of 0 is UACPI_NULL.
  pub handle_gpes : ℕ → State W → ℕ × State W
  unfolding detect_gpes
  handle_gpes context s =
      if context == 0
      then (not_handled, s)
      else detect_gpes (s.context_at context).blocks not_handled s
