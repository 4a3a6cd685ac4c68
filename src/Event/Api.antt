-- ===== src/Event/Api.antt =====
-- source/event.c: the calls of include/uacpi/event.h, and what each does to `g_event_lock`.
pub mod Locks
pub mod Balance
use u_acpi.Base.{ℕ, Bool, Status, List}
use u_acpi.Event.{EventHost, Platform, State, InterruptHandler}
use u_acpi.Event.Fixed.{
  enable_fixed_event, disable_fixed_event, clear_fixed_event, install_fixed_event_handler,
  uninstall_fixed_event_handler,
}
use u_acpi.Event.Handlers.{
  install_gpe_handler, install_gpe_handler_raw, uninstall_gpe_handler, enable_gpe, disable_gpe,
  clear_gpe_status, suspend_gpe, resume_gpe, finish_handling_gpe, gpe_get_mask_unmask,
}
use u_acpi.Event.Wake.{
  setup_gpe_for_wake, gpe_enable_disable_for_wake, disable_all_gpes, enable_all_runtime_gpes,
  enable_all_wake_gpes, clear_all_events,
}
use u_acpi.Event.Wake.Info.{fixed_event_info, gpe_info}
use u_acpi.Event.Setup.{finalize_gpe_initialization, install_gpe_block, uninstall_gpe_block_of}

-- A call and its arguments; the text of a triggering, which takes no lock, is not among them.
-- `uacpi_clear_all_events`, which only the library itself calls, is.
pub data Api : Type 0 where
  finalize disable_all enable_all_runtime enable_all_wake clear_events : Api
  enable_fixed disable_fixed clear_fixed uninstall_fixed fixed_info : (event : ℕ) → Api
  install_fixed : (event : ℕ) (handler : InterruptHandler) (user : ℕ) → Api
  install install_raw : (device idx triggering handler ctx : ℕ) → Api
  uninstall : (device idx handler : ℕ) → Api
  enable disable clear suspend resume finish info : (device idx : ℕ) → Api
  mask_unmask enable_disable_wake : (on : Bool) (device idx : ℕ) → Api
  setup_wake : (device idx wake_device : ℕ) → Api
  install_block : (device address address_space num_registers irq : ℕ) → Api
  uninstall_block : (device : ℕ) → Api

-- A call's status and state, without the information for the caller.
abbrev pub status_of : {W : Type 0} → Status × ℕ × State W → Status × State W
status_of (ret, value, s) = (ret, s)

module _ {W : Type 0} (h : EventHost W) (p : Platform) where
  unfoldable pub api : Api → State W → Status × State W
  api finalize s = finalize_gpe_initialization h p s
  api disable_all s = disable_all_gpes h p s
  api enable_all_runtime s = enable_all_runtime_gpes h p s
  api enable_all_wake s = enable_all_wake_gpes h p s
  api clear_events s = clear_all_events h p s
  api (enable_fixed event) s = enable_fixed_event h p event s
  api (disable_fixed event) s = disable_fixed_event h p event s
  api (clear_fixed event) s = clear_fixed_event h p event s
  api (uninstall_fixed event) s = uninstall_fixed_event_handler h p event s
  api (fixed_info event) s = status_of (fixed_event_info h p event s)
  api (install_fixed event handler user) s = install_fixed_event_handler h p event handler user s
  api (install device idx triggering handler ctx) s =
      install_gpe_handler h p device idx triggering handler ctx s
  api (install_raw device idx triggering handler ctx) s =
      install_gpe_handler_raw h p device idx triggering handler ctx s
  api (uninstall device idx handler) s = uninstall_gpe_handler h p device idx handler s
  api (enable device idx) s = enable_gpe h p device idx s
  api (disable device idx) s = disable_gpe h p device idx s
  api (clear device idx) s = clear_gpe_status h p device idx s
  api (suspend device idx) s = suspend_gpe h p device idx s
  api (resume device idx) s = resume_gpe h p device idx s
  api (finish device idx) s = finish_handling_gpe h p device idx s
  api (info device idx) s = status_of (gpe_info h p device idx s)
  api (mask_unmask on device idx) s = gpe_get_mask_unmask h p on device idx s
  api (enable_disable_wake on device idx) s = gpe_enable_disable_for_wake h p on device idx s
  api (setup_wake device idx wake_device) s = setup_gpe_for_wake h p device idx wake_device s
  api (install_block device address address_space num_registers irq) s =
      install_gpe_block h p device address address_space num_registers irq s
  api (uninstall_block device) s = uninstall_gpe_block_of h p device s
