-- ===== src/Tests/Event.antt =====
-- Concrete runs of source/event.c.
use u_acpi.Base.{
  ℕ, ◌-◌, ◌%◌, ◌<◌, ◌≡◌, inl, inr, refl, true, false, some, List, [], ◌∷◌, ok, err,
  invalid_argument, ◌==◌, if◌then◌else◌, arith, Bool-cases, ◌*◌, ◌/◌, ◌+◌,
}
use u_acpi.Base.Bits.{bit}
use u_acpi.Gas.Access.{Gas, access_bit_width, gas_validate, align_up, is_aligned, is_power_of_two}
use u_acpi.Gas.Transfer.{
  gas_read, read_loop, read_unit, system_memory_read, is_memory_width, access_mask, gas_write,
  write_loop, write_unit, system_memory_write,
}
use u_acpi.Mutex.Recursive.{thread_id_none}
use u_acpi.Registers.Table.{Blocks}
use u_acpi.Event.{
  EventHost, Platform, GpEvent, GpeRegister, GpeBlock, GpeView, State, FixedEventHandler, function,
  no_function, fixed_event_max, type_native,
}
use u_acpi.Event.Gpe.{
  enabled, is_disabled, overlaps, set_gpe_state, gpe_mask_unmask, gpe_add_user, gpe_remove_user,
  gpe_get_mask,
}
use u_acpi.Event.Gpe.Users.{Counted, bit_pow}
use u_acpi.Event.Gpe.Laws.{set_gpe_state-bit, unmask-mask, remove_user-add_user}
use u_acpi.Event.Wake.{enable_disable_wake_event}
use u_acpi.Event.Wake.Laws.{enable_disable_wake_event-bit}
use u_acpi.Event.Fixed.{set_handler}
use u_acpi.Event.Fixed.Interrupt.{handle_fixed_events}
use u_acpi.Event.Fixed.Laws.{handle_fixed_events-set_handler}
use u_acpi.Event.Store.{get_gpe, search, for_each_block, all_blocks, do_find_gpe, gpe_from_block}
use u_acpi.Event.Store.Laws.{IsEventOf, get_gpe-IsEventOf}
use u_acpi.Event.Handlers.{install_event, uninstall_event}
use u_acpi.Event.Handlers.Restore.{HasHandler, uninstall_event-install_event}
use u_acpi.Event.Block.Create.{
  zero_event, zero_register, empty_block, init_registers, made_register,
}
use u_acpi.Event.Setup.Laws.{AreAddressed, init_registers-IsWellFormed}
use u_acpi.Event.Invariant.{
  IsWellFormed, IsCounted, At, AreInRange, no_calls, next_call, run, run-IsWellFormed,
}
use u_acpi.Event.Invariant.Calls
use u_acpi.Event.Api.{enable, api}
use u_acpi.Event.Api.Balance.{api-event_lock}
use u_acpi.Tests.World.{World, all_free, locks, blocks_of_memory, ports, spins}

abbrev host : EventHost World
host = record {
  locks = locks;
  memory = blocks_of_memory;
  io = ports;
  spin = spins;
  wait_for_work = λ w. w;
  schedule_work = λ kind idx w. (ok, w);
  call_handler = λ cb ctx w. (1, w);
  call_gpe_handler = λ cb ctx device idx w. (1, w);
  install_interrupt_handler = λ irq w. (ok, 4, w);
  uninstall_interrupt_handler = λ handle w. w;
  create_event = λ w. (6, w);
  signal_event = λ event w. w;
  namespace_write_lock = λ w. (ok, w);
  namespace_write_unlock = λ w. w;
  has_method = λ node w. true;
  execute_control_method = λ node w. (ok, w);
  notify_all = λ node value w. (ok, w);
  node_is_device = λ node w. (ok, true);
  each_method = λ node w. ([], w);
}

abbrev gas_at : ℕ → Gas
gas_at address = record {
  address_space_id = 0;
  register_bit_width = 8;
  register_bit_offset = 0;
  access_size = 0;
  address = address;
}

abbrev register_blocks : Blocks
register_blocks = record {
  pm1a_status = gas_at 0x400;
  pm1b_status = gas_at 0;
  pm1a_enable = gas_at 0x402;
  pm1b_enable = gas_at 0;
  pm1a_control = gas_at 0x404;
  pm1b_control = gas_at 0;
  pm_timer = gas_at 0x408;
  pm2_control = gas_at 0x40c;
  sleep_control = gas_at 0x410;
  sleep_status = gas_at 0x411;
  reset = gas_at 0x412;
  smi_cmd = 0xb2;
}

abbrev platform : Platform
platform = record {
  sci_int = 9;
  gpe0_blk = gas_at 0x100;
  gpe0_blk_len = 2;
  gpe1_blk = gas_at 0;
  gpe1_blk_len = 0;
  gpe1_base = 0;
  has_facs = true;
  is_hardware_reduced = false;
  blocks = register_blocks;
  reg_lock = 9;
  before = 0;
  gpe_node = 1;
  root_node = 2;
}

-- A block of one register, whose event 3 has a user.
abbrev register : GpeRegister
register = record zero_register {
  status = gas_at 0x100;
  enable = gas_at 0x101;
  runtime_mask = 8;
  wake_mask = 12;
  current_mask = 8;
}

abbrev event3 : GpEvent
event3 = record zero_event { idx = 3; num_users = 1; wake = true }

abbrev gpe3 : GpeView World
gpe3 = record { event = event3; reg = register; world = all_free }

gpe3-Counted : Counted gpe3
gpe3-Counted = (omega arith, omega arith, omega arith, omega arith, refl)

abbrev block : GpeBlock
block = record (empty_block host platform 1 0) {
  registers = λ i. register;
  has_registers = true;
  events = λ o. if o == 3 then event3 else (record zero_event { idx = o });
  has_events = true;
  irq_ctx = 5;
  num_registers = 1;
  num_events = 8;
}

abbrev no_block : GpeBlock
no_block = empty_block host platform 0 0

abbrev button : FixedEventHandler
button = record { handler = function 8; ctx = 0 }

abbrev state : State World
state = record {
  world = all_free;
  init_level = 2;
  event_lock = record { mutex = 7; depth = 0; owner = thread_id_none };
  gpe_state_slock = 9;
  gpes_finalized = false;
  handlers = λ event. if event == 2 then button else (record { handler = no_function; ctx = 0 });
  contexts = 5 ∷ [];
  context_at = λ c. record { blocks = 1 ∷ []; irq_handle = 0; irq = 9 };
  block_at = λ b. if b == 1 then block else no_block;
  next_pointer = 6;
  freed = λ k. false;
  sci_handle = 0;
  sci_handle_valid = false;
  has_global_lock = false;
  global_lock_pending = false;
  global_lock_event = 0;
  global_lock_spinlock = 0;
}

event_IsCounted : (o : ℕ) → o < 8 → IsCounted block o
event_IsCounted o l = ground (arith, bit_pow (o % 8) 3)

blocks_IsWellFormed : (b : ℕ) → IsWellFormed (state.block_at b)
blocks_IsWellFormed b = elim (Bool-cases (b == 1)) [
  | inl e ↦ λ o l. rw e (event_IsCounted o (ground (arith, e)))
  | inr e ↦ λ o l. absurd (ground (arith, e))
]

abbrev on_three : Calls.Call → At
on_three call = record { block = 1; offset = 3; what = call }

abbrev calls : List At
calls =
    on_three Calls.interrupt
    ∷ on_three (Calls.install 0 type_native 12 0)
    ∷ on_three Calls.disable
    ∷ []

calls-AreInRange : AreInRange (λ b. (state.block_at b).num_events) calls
calls-AreInRange =
    next_call _ _ (omega arith) (next_call _ _ (omega arith) (next_call _ _ (omega arith) no_calls))

run-IsWellFormed_example : IsWellFormed ((run host calls state).block_at 1)
run-IsWellFormed_example = run-IsWellFormed host calls state 1 blocks_IsWellFormed calls-AreInRange

api-event_lock_example : (api host platform (enable 1 3) state).1.event_lock ≡ state.event_lock
api-event_lock_example = api-event_lock host platform (enable 1 3) state (inl (refl, refl))

set_gpe_state-bit_example :
    let (ret, m, w1) = gas_read host.io (some register.enable) (host.spin.lock 9 all_free) in
    (n : ℕ) × (set_gpe_state host 9 event3 register enabled all_free ≡ (
      (gas_write host.io (some register.enable) n w1).0,
      host.spin.unlock 9 (gas_write host.io (some register.enable) n w1).1,
    ))
    × (bit 3 n ≡ (
        if 3 == event3.idx - register.base_idx
        then (if is_disabled enabled then 0 else 1)
        else bit 3 m))
unfolding gas_read read_loop read_unit system_memory_read is_memory_width access_mask gas_validate
    access_bit_width align_up is_aligned is_power_of_two overlaps gpe_get_mask
set_gpe_state-bit_example =
    set_gpe_state-bit host 9 event3 register enabled 3 all_free (omega arith) (omega arith) refl
      refl refl (omega arith)

unmask-mask_example :
    let g' = (gpe_mask_unmask host 9 true gpe3).1 in
    let g'' = (gpe_mask_unmask host 9 false g').1 in
    (set_gpe_state host 9 g'.event g'.reg enabled all_free ≡ (ok, all_free))
    × (gpe_mask_unmask host 9 true g' ≡ (err invalid_argument, g'))
    × ((gpe_mask_unmask host 9 false g').0 ≡ ok)
    × (g''.event ≡ gpe3.event)
    × (g''.reg ≡ gpe3.reg)
unfolding gpe_mask_unmask overlaps gpe_get_mask
unmask-mask_example =
    unmask-mask host 9 enabled all_free gpe3 gpe3-Counted (omega arith) refl (ground arith)

remove_user-add_user_example :
    let g' = (gpe_remove_user host 9 (gpe_add_user host 9 true gpe3).1).1 in
    (g'.event ≡ gpe3.event) × (g'.reg.runtime_mask ≡ gpe3.reg.runtime_mask)
unfolding gpe_add_user gpe_remove_user
remove_user-add_user_example =
    remove_user-add_user host 9 true gpe3 gpe3-Counted (ground arith) (ground arith)

enable_disable_wake_event-bit_example :
    let r = enable_disable_wake_event host 9 false gpe3 in
    (r.0 ≡ ok)
    × (bit 2 r.1.reg.wake_mask ≡ (
        if 2 == gpe3.event.idx - gpe3.reg.base_idx
        then (if false then 1 else bit 2 gpe3.reg.wake_mask)
        else (if false then bit 2 gpe3.reg.wake_mask else 0)))
enable_disable_wake_event-bit_example =
    enable_disable_wake_event-bit host 9 false gpe3 2 (omega arith) (omega arith) refl

handle_fixed_events-set_handler_example :
    handle_fixed_events host platform (set_handler host platform fixed_event_max button state) ≡ (
      (handle_fixed_events host platform state).0,
      set_handler host platform fixed_event_max button (handle_fixed_events host platform state).1,
    )
handle_fixed_events-set_handler_example = handle_fixed_events-set_handler host platform button state

get_gpe-IsEventOf_example : IsEventOf state.block_at 1 3 (1, 3)
unfolding get_gpe search for_each_block all_blocks do_find_gpe gpe_from_block
get_gpe-IsEventOf_example = get_gpe-IsEventOf state 1 3 (1, 3) (ground arith)

uninstall_event-install_event_example :
    let g1 = (install_event host 9 1 type_native 12 0 gpe3).1 in
    let r = uninstall_event host 9 1 12 g1 in
    (r.0 ≡ ok)
    × HasHandler r.1.event gpe3.event.any_handler gpe3.event.triggering gpe3.event.handler_type
unfolding install_event
uninstall_event-install_event_example =
    uninstall_event-install_event host 9 1 1 type_native 12 0 gpe3 refl (ground arith)

init_registers-IsWellFormed_example :
    let b : GpeBlock = record (empty_block host platform 1 0) {
      num_registers = 1;
      num_events = 8;
    } in
    let r = init_registers host platform 1 0 0 0x100 0 1 b all_free in
    IsWellFormed r.1
    × ((o : ℕ)
        → o < 1 * 8
        → ((r.1.events o).idx ≡ 0 + o) × ((r.1.registers (o / 8)).base_idx ≡ 0 + o / 8 * 8))
    × AreAddressed 0x100 0 1 r.1 1
unfolding init_registers made_register gas_write write_loop write_unit system_memory_write
    is_memory_width access_mask gas_validate access_bit_width align_up is_aligned is_power_of_two
init_registers-IsWellFormed_example =
    init_registers-IsWellFormed host platform 1 0 0x100 0 1 all_free (omega arith) refl
