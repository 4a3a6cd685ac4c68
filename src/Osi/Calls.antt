-- ===== src/Osi/Calls.antt =====
-- The public calls of source/osi.c as data, for statements about every call and every history.
use u_acpi.Base.{ℕ, Bool, List, [], ◌∷◌, Option}
use u_acpi.Host.{LockHost, MemoryHost}
use u_acpi.Osi.{
  State, install_interface, uninstall_interface, enable_host_interface, disable_host_interface,
  set_query_handler, bulk_configure_interfaces, handle_osi,
}

pub data Call (W : Type 0) : Type 0 where
  installs : List ℕ → ℕ → Call W
  uninstalls : List ℕ → Call W
  enables disables : ℕ → Call W
  sets_handler : Option (List ℕ → Bool → W → Bool × W) → Call W
  configures : Bool → ℕ → Call W
  queries : List ℕ → Call W

module _ {W : Type 0} (h : LockHost W) (m : MemoryHost W) where
  unfoldable pub step : Call W → State W → State W
  step (installs name kind) s = (install_interface h m name kind s).1
  step (uninstalls name) s = (uninstall_interface h m name s).1
  step (enables type) s = (enable_host_interface h m type s).1
  step (disables type) s = (disable_host_interface h m type s).1
  step (sets_handler handler) s = (set_query_handler h m handler s).1
  step (configures disable kind) s = (bulk_configure_interfaces h m disable kind s).1
  step (queries name) s = (handle_osi h m name s).2

  unfoldable pub run : List (Call W) → State W → State W
  run [] s = s
  run (c ∷ cs) s = run cs (step c s)
