-- ===== src/Tests/Osi.antt =====
-- Concrete runs of source/osi.c.
use u_acpi.Base.{ℕ, ◌≡◌, refl, true, false, ◌&&◌, none, List, [], ◌∷◌, ok, if◌then◌else◌, arith}
use u_acpi.Mutex.Native.{acquire_native}
use u_acpi.Text.CString.{strcmp}
use u_acpi.Osi.{State, initialize, deinitialize, install_interface, uninstall_interface}
use u_acpi.Osi.Table.{Interface, same, reset_all}
use u_acpi.Osi.Names.{Distinct}
use u_acpi.Osi.Calls.{Call, installs, uninstalls, queries, step, run}
use u_acpi.Osi.Support.{supported, is_granted, is_ok, supported-install, supported-uninstall}
use u_acpi.Osi.Restore.{deinitialize-run}
use u_acpi.Osi.Locks.{step-held}
use u_acpi.Tests.World.{World, all_free, locks, lock_laws, blocks_of_memory, memory_laws}

abbrev windows : List ℕ
windows = 87 ∷ 105 ∷ []

abbrev module_device : List ℕ
module_device = 77 ∷ []

abbrev linux : List ℕ
linux = 76 ∷ 105 ∷ []

abbrev table : List Interface
table =
    record {
      name = windows;
      weight = 3;
      kind = 1;
      host_type = 0;
      disabled = false;
      dynamic = false;
    }
    ∷ record {
      name = module_device;
      weight = 0;
      kind = 2;
      host_type = 1;
      disabled = true;
      dynamic = false;
    }
    ∷ []

abbrev state : State World
state = record {
  world = all_free;
  init_level = 1;
  interface_mutex = 7;
  predefined = table;
  registered = table;
  handler = none;
  latest_queried = 0;
}

abbrev calls : List (Call World)
calls = installs linux 1 ∷ uninstalls windows ∷ queries windows ∷ []

state-Distinct : Distinct table
unfolding same strcmp
state-Distinct = ground arith

supported-install_example :
    supported linux (install_interface locks blocks_of_memory linux 1 state).1.registered ≡ (
      if is_granted (install_interface locks blocks_of_memory linux 1 state).0 && same linux linux
      then true
      else supported linux state.registered)
unfolding acquire_native
supported-install_example =
    supported-install locks blocks_of_memory linux linux 1 state (ground arith)

supported-uninstall_example :
    supported windows (uninstall_interface locks blocks_of_memory windows state).1.registered ≡ (
      if is_ok (uninstall_interface locks blocks_of_memory windows state).0 && same windows windows
      then false
      else supported windows state.registered)
supported-uninstall_example =
    supported-uninstall locks blocks_of_memory windows windows state state-Distinct

deinitialize-run_example :
    let t = deinitialize locks blocks_of_memory (run locks blocks_of_memory calls state) in
    (t.registered ≡ [])
    × (t.predefined ≡ state.predefined)
    × ((initialize locks blocks_of_memory t).0 ≡ ok
        → (initialize locks blocks_of_memory t).1.registered ≡ state.predefined)
unfolding reset_all
deinitialize-run_example = deinitialize-run locks blocks_of_memory calls state refl (ground arith)

step-held_example :
    lock_laws.held (step locks blocks_of_memory (installs linux 1) state).world 7
    ≡ lock_laws.held state.world 7
step-held_example =
    step-held locks lock_laws blocks_of_memory memory_laws (installs linux 1) state 7 tt
