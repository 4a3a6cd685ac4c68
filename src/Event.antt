-- ===== src/Event.antt =====
-- source/event.c: the data of the fixed events and of the general purpose events, with the hosts
-- that they use. The source's pointers to blocks and to interrupt contexts are numbers, 0 for
-- UACPI_NULL; a pointer to an event is its block and its offset there, and its register is an
-- index into the block's registers.
pub mod Fixed
pub mod Gpe
pub mod Dispatch
pub mod Block
pub mod Store
pub mod Lock
pub mod Handlers
pub mod Wake
pub mod Setup
pub mod Invariant
pub mod Api
use u_acpi.Base.{ℕ, Bool, List, Status}
use u_acpi.Host.{LockHost, MemoryHost, IoHost}
use u_acpi.Gas.Access.{Gas}
use u_acpi.Mutex.Recursive.{RecursiveLock}
use u_acpi.Registers.{SpinHost}
use u_acpi.Registers.Table.{Blocks}

-- What the event code calls: the kernel's functions, a driver's callbacks, and the namespace and
-- the interpreter. `each_method` gives the methods below a node that
-- `uacpi_namespace_do_for_each_child` visits, each with the four bytes of its name.
pub record EventHost (W : Type 0) : Type 0 where
  pub locks : LockHost W
  pub memory : MemoryHost W
  pub io : IoHost W
  pub spin : SpinHost W
  pub wait_for_work : W → W
  pub schedule_work : ℕ → ℕ → W → Status × W
  pub call_handler : ℕ → ℕ → W → ℕ × W
  pub call_gpe_handler : ℕ → ℕ → ℕ → ℕ → W → ℕ × W
  pub install_interrupt_handler : ℕ → W → Status × ℕ × W
  pub uninstall_interrupt_handler : ℕ → W → W
  pub create_event : W → ℕ × W
  pub signal_event : ℕ → W → W
  pub namespace_write_lock : W → Status × W
  pub namespace_write_unlock : W → W
  pub has_method : ℕ → W → Bool
  pub execute_control_method : ℕ → W → Status × W
  pub notify_all : ℕ → ℕ → W → Status × W
  pub node_is_device : ℕ → W → Status × Bool
  pub each_method : ℕ → W → List (ℕ × List ℕ) × W

-- What stays as it is while events are handled: the fields of `g_uacpi_rt_ctx` that come from the
-- FADT, the register blocks and the registers' lock, the nodes \_GPE and \, and what the
-- uninitialized variables of the register code hold.
pub record Platform : Type 0 where
  pub sci_int : ℕ
  pub gpe0_blk : Gas
  pub gpe0_blk_len : ℕ
  pub gpe1_blk : Gas
  pub gpe1_blk_len : ℕ
  pub gpe1_base : ℕ
  pub has_facs : Bool
  pub is_hardware_reduced : Bool
  pub blocks : Blocks
  pub reg_lock : ℕ
  pub before : ℕ
  pub gpe_node : ℕ
  pub root_node : ℕ

-- UACPI_FIXED_EVENT_MAX, which is UACPI_FIXED_EVENT_RTC.
abbrev pub fixed_event_max : ℕ
fixed_event_max = 4

-- UACPI_INTERRUPT_NOT_HANDLED, UACPI_INTERRUPT_HANDLED and UACPI_GPE_REENABLE.
abbrev pub not_handled : ℕ
not_handled = 0

abbrev pub handled : ℕ
handled = 1

abbrev pub gpe_reenable : ℕ
gpe_reenable = 0x80

-- `uacpi_interrupt_handler`: none, `handle_global_lock`, or a driver's function.
pub data InterruptHandler : Type 0 where
  no_function global_lock_function : InterruptHandler
  function : ℕ → InterruptHandler

pub record FixedEventHandler : Type 0 where
  pub handler : InterruptHandler
  pub ctx : ℕ

-- The union of `struct gp_event`: UACPI_NULL, the node of a method, the devices to notify, or a
-- `struct gpe_native_handler` with what it preserves.
pub data AnyHandler : Type 0 where
  no_pointer : AnyHandler
  aml : ℕ → AnyHandler
  implicit : List ℕ → AnyHandler
  native :
      (cb ctx : ℕ) (previous_handler : AnyHandler) (previous_triggering previous_handler_type : ℕ)
      (previously_enabled : Bool)
      → AnyHandler

-- `enum gpe_handler_type`.
abbrev pub type_none : ℕ
type_none = 0

abbrev pub type_aml : ℕ
type_aml = 1

abbrev pub type_native : ℕ
type_native = 2

abbrev pub type_native_raw : ℕ
type_native_raw = 3

abbrev pub type_implicit : ℕ
type_implicit = 4

-- UACPI_GPE_TRIGGERING_LEVEL and UACPI_GPE_TRIGGERING_EDGE.
abbrev pub level_triggering : ℕ
level_triggering = 0

abbrev pub edge_triggering : ℕ
edge_triggering = 1

pub record GpEvent : Type 0 where
  pub any_handler : AnyHandler
  pub reg : ℕ
  pub idx : ℕ
  pub num_users : ℕ
  pub handler_type : ℕ
  pub triggering : ℕ
  pub wake : Bool
  pub block_interrupts : Bool

pub record GpeRegister : Type 0 where
  pub status : Gas
  pub enable : Gas
  pub runtime_mask : ℕ
  pub wake_mask : ℕ
  pub masked_mask : ℕ
  pub current_mask : ℕ
  pub base_idx : ℕ

-- `has_registers` and `has_events` say whether those pointers are not UACPI_NULL, and `irq_ctx`
-- is 0 for UACPI_NULL. No code sets the source's `prev` of a block, which stays UACPI_NULL.
pub record GpeBlock : Type 0 where
  pub device_node : ℕ
  pub registers : ℕ → GpeRegister
  pub has_registers : Bool
  pub events : ℕ → GpEvent
  pub has_events : Bool
  pub irq_ctx : ℕ
  pub num_registers : ℕ
  pub num_events : ℕ
  pub base_idx : ℕ

-- `blocks` is the list at `gpe_head`. No code sets the source's `prev`, which stays UACPI_NULL.
pub record GpeInterruptCtx : Type 0 where
  pub blocks : List ℕ
  pub irq_handle : ℕ
  pub irq : ℕ

-- The static variables of event.c and the fields of `g_uacpi_rt_ctx` that it writes; `contexts` is
-- the list at `g_gpe_interrupt_head`. `next_pointer` is the address of the next allocated block or
-- context, and `freed` says which addresses were freed.
pub record State (W : Type 0) : Type 0 where
  pub world : W
  pub init_level : ℕ
  pub event_lock : RecursiveLock
  pub gpe_state_slock : ℕ
  pub gpes_finalized : Bool
  pub handlers : ℕ → FixedEventHandler
  pub contexts : List ℕ
  pub context_at : ℕ → GpeInterruptCtx
  pub block_at : ℕ → GpeBlock
  pub next_pointer : ℕ
  pub freed : ℕ → Bool
  pub sci_handle : ℕ
  pub sci_handle_valid : Bool
  pub has_global_lock : Bool
  pub global_lock_pending : Bool
  pub global_lock_event : ℕ
  pub global_lock_spinlock : ℕ

-- An event with its register, for the operations on one event.
pub record GpeView (W : Type 0) : Type 0 where
  pub event : GpEvent
  pub reg : GpeRegister
  pub world : W

abbrev pub in_world : {W : Type 0} → State W → W → State W
in_world s w = record s { world = w }

abbrev pub at_world : {W : Type 0} → GpeView W → W → GpeView W
at_world g w = record g { world = w }
