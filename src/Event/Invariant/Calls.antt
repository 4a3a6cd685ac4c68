-- ===== src/Event/Invariant/Calls.antt =====
-- The calls on single events of source/event.c as data, and what each keeps of the counts.
use u_acpi.Base.{ℕ, refl, Bool, arith}
use u_acpi.Event.{EventHost, GpeView}
use u_acpi.Event.Gpe.{GpeState, gpe_remove_user, restore_gpe, gpe_mask_unmask}
use u_acpi.Event.Gpe.Users.{Counted, Step, Same-Step, gpe_remove_user-Step}
use u_acpi.Event.Gpe.Masks.{restore_gpe-Same, gpe_mask_unmask-Same, dispatch_gpe-Same}
use u_acpi.Event.Dispatch.{dispatch_gpe}
use u_acpi.Event.Handlers.{
  install_event, uninstall_event, enable_event, clear_event, suspend_resume_event,
}
use u_acpi.Event.Handlers.Laws.{install_event-Step, uninstall_event-Step, enable_event-Step}
use u_acpi.Event.Wake.{setup_wake_event, enable_disable_wake_event}
use u_acpi.Event.Wake.Laws.{setup_wake_event-Step}

-- The calls on one event, each with its arguments: `interrupt` is the event firing.
pub data Call : Type 0 where
  enable disable clear finish interrupt : Call
  install : (triggering type handler ctx : ℕ) → Call
  uninstall : (handler : ℕ) → Call
  suspend_resume : GpeState → Call
  mask_unmask enable_disable_wake : Bool → Call
  setup_wake : (wake_device : ℕ) → Call

module _ {W : Type 0} (h : EventHost W) (slock device : ℕ) where
  unfoldable pub call : Call → GpeView W → GpeView W
  call enable g = (enable_event h slock device g).1
  call disable g = (gpe_remove_user h slock g).1
  call clear g = (clear_event h slock g).1
  call finish g = (restore_gpe h slock g).1
  call interrupt g = (dispatch_gpe h slock device g).1
  call (install triggering type handler ctx) g =
      (install_event h slock triggering type handler ctx g).1
  call (uninstall handler) g = (uninstall_event h slock device handler g).1
  call (suspend_resume state) g = (suspend_resume_event h slock state g).1
  call (mask_unmask should_mask) g = (gpe_mask_unmask h slock should_mask g).1
  call (enable_disable_wake on) g = (enable_disable_wake_event h slock on g).1
  call (setup_wake wake_device) g = (setup_wake_event h slock wake_device g).1

  pub call-Step : (c : Call) (g : GpeView W) → Counted g → Step g (call c g)
  unfolding call clear_event suspend_resume_event enable_disable_wake_event
  call-Step enable g k = enable_event-Step h slock device g k
  call-Step disable g k = gpe_remove_user-Step h slock g k
  call-Step clear g k = Same-Step g (call clear g) k (refl, refl, refl, refl, refl)
  call-Step finish g k = Same-Step g (call finish g) k (restore_gpe-Same h slock g)
  call-Step interrupt g k = Same-Step g (call interrupt g) k (dispatch_gpe-Same h slock device g)
  call-Step (install triggering type handler ctx) g k =
      install_event-Step h slock triggering type handler ctx g k
  call-Step (uninstall handler) g k = uninstall_event-Step h slock device handler g k
  call-Step (suspend_resume state) g k =
      Same-Step g (call (suspend_resume state) g) k (refl, refl, refl, refl, refl)
  call-Step (mask_unmask should_mask) g k =
      Same-Step g (call (mask_unmask should_mask) g) k (gpe_mask_unmask-Same h slock should_mask g)
  call-Step (enable_disable_wake on) g k =
      Same-Step g (call (enable_disable_wake on) g) k (ground arith)
  call-Step (setup_wake wake_device) g k = setup_wake_event-Step h slock wake_device g k
