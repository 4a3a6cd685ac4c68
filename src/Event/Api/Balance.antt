-- ===== src/Event/Api/Balance.antt =====
-- Every call of include/uacpi/event.h gives back `g_event_lock` as it was.
use u_acpi.Base.{
  ℕ, zero, suc, ◌*◌, ◌≡◌, refl, ◌∙◌, Bool, true, false, ◌||◌, Status, ok, arith, inl, inr,
  Option-cases,
}
use u_acpi.Registers.{write_register}
use u_acpi.Registers.Table.{pm1_sts}
use u_acpi.Event.{
  EventHost, Platform, State, in_world, InterruptHandler, not_handled, type_native, type_native_raw,
}
use u_acpi.Event.Gpe.{enabled, disabled, gpe_remove_user, restore_gpe, gpe_mask_unmask}
use u_acpi.Event.Lock.{loaded, locked}
use u_acpi.Event.Lock.Laws.{IsReady, Keeps, locked-event_lock}
use u_acpi.Event.Fixed.{
  enable_body, install_fixed_body, uninstall_fixed_body, enable_fixed_event, disable_fixed_event,
  clear_fixed_event, install_fixed_event_handler, uninstall_fixed_event_handler, set_handler,
  run_set_event, fixed_guard,
}
use u_acpi.Event.Store.{on_event, search, all_blocks, for_each_block, get_gpe}
use u_acpi.Event.Handlers.{
  do_install_gpe_handler, install_gpe_handler, install_gpe_handler_raw, uninstall_gpe_handler,
  enable_gpe, disable_gpe, clear_gpe_status, gpe_suspend_resume, suspend_gpe, resume_gpe,
  finish_handling_gpe, gpe_get_mask_unmask, install_event, uninstall_event, enable_event,
  clear_event, suspend_resume_event,
}
use u_acpi.Event.Block.{BlockAction, clear_all, gpe_block_apply_action, update_block}
use u_acpi.Event.Wake.{
  setup_wake_event, enable_disable_wake_event, setup_gpe_for_wake, gpe_enable_disable_for_wake,
  do_for_all_gpes, for_all_gpes, for_all_gpes_locked, disable_all_gpes, enable_all_runtime_gpes,
  enable_all_wake_gpes, clear_all_body, clear_all_events, pm1_status_bits,
}
use u_acpi.Event.Setup.{
  initialize_event, initialize_from, do_initialize_gpe_block, finalize_body,
  finalize_gpe_initialization, install_block_body, install_gpe_block, uninstall_block_body,
  uninstall_gpe_block_of, head_or_null,
}
use u_acpi.Event.Api.{
  Api, finalize, disable_all, enable_all_runtime, enable_all_wake, enable_fixed, disable_fixed,
  clear_fixed, uninstall_fixed, install_fixed, install, install_raw, uninstall, enable, disable,
  clear, suspend, resume, finish, mask_unmask, enable_disable_wake, setup_wake, install_block,
  clear_events, uninstall_block, fixed_info, info, api,
}
use u_acpi.Event.Api.Locks.{
  loaded-event_lock, walk-event_lock, on_event-event_lock, detect_gpes-event_lock,
  uninstall_gpe_block-event_lock, create_gpe_block-event_lock, with_gpe-event_lock,
  fixed_event_info-event_lock, gpe_info-event_lock,
}

module _ {W : Type 0} (h : EventHost W) (p : Platform) where
  enable_body-event_lock : (event : ℕ) → Keeps h (enable_body h p event)
  unfolding enable_body
  enable_body-event_lock event s = ground arith

  install_fixed_body-event_lock :
      (event : ℕ) (handler : InterruptHandler) (user : ℕ)
      → Keeps h (install_fixed_body h p event handler user)
  unfolding install_fixed_body set_handler
  install_fixed_body-event_lock event handler user s = ground arith

  uninstall_fixed_body-event_lock : (event : ℕ) → Keeps h (uninstall_fixed_body h p event)
  unfolding uninstall_fixed_body set_handler
  uninstall_fixed_body-event_lock event s = ground arith

  initialize_from-event_lock :
      (left block i : ℕ) (poll : Bool) (s : State W)
      → (initialize_from h p left block i poll s).1.event_lock ≡ s.event_lock
  unfolding initialize_from
  initialize_from-event_lock zero block i poll s = refl
  initialize_from-event_lock (suc left) block i poll s =
      let r = on_event (initialize_event h p s.gpe_state_slock) block i s in
      initialize_from-event_lock left block (suc i) (poll || r.0) r.1
      ∙ on_event-event_lock h p (initialize_event h p s.gpe_state_slock) block i s

  finalize_body-event_lock : Keeps h (finalize_body h p)
  unfolding finalize_body do_initialize_gpe_block
  finalize_body-event_lock s =
      let s1 : State W = record s { gpes_finalized = true } in
      let r =
        for_each_block (do_initialize_gpe_block h p) (all_blocks s1 s1.contexts) (false, s1) in
      let walked : r.1.event_lock ≡ s.event_lock =
        walk-event_lock h p (λ (a : Bool × State W). a.1) (do_initialize_gpe_block h p)
          (λ b a. initialize_from-event_lock ((a.1.block_at b).num_registers * 8) b 0 a.0 a.1)
          (all_blocks s1 s1.contexts) (false, s1) in
      let head = (r.1.context_at (head_or_null r.1.contexts)).blocks in
      ground (arith, walked, detect_gpes-event_lock h p head not_handled r.1)

  for_all_gpes-event_lock : (action : BlockAction) → Keeps h (for_all_gpes h p action)
  unfolding for_all_gpes do_for_all_gpes gpe_block_apply_action update_block
  for_all_gpes-event_lock action s =
      walk-event_lock h p (λ (a : Status × State W). a.1) (do_for_all_gpes h p action) (λ b a. refl)
        (all_blocks s s.contexts) (ok, s)

  clear_all_body-event_lock : Keeps h (clear_all_body h p)
  unfolding clear_all_body
  clear_all_body-event_lock s =
      let r = write_register h.io h.spin p.blocks pm1_sts p.before (pm1_status_bits h p) s.world in
      ground (arith, for_all_gpes-event_lock clear_all (in_world s r.1))

  install_block_body-event_lock :
      (device address space num irq : ℕ)
      → Keeps h (install_block_body h p device address space num irq)
  unfolding install_block_body
  install_block_body-event_lock device address space num irq s =
      elim (Option-cases (get_gpe s device 0)) [
        | inl e ↦
            rw (install_block_body, e)
              (create_gpe_block-event_lock h p device irq 0 address space num s)
        | inr (x, e) ↦ rw (install_block_body, e) refl
      ]

  uninstall_block_body-event_lock : (device : ℕ) → Keeps h (uninstall_block_body h p device)
  unfolding uninstall_block_body
  uninstall_block_body-event_lock device s = elim (Option-cases (search s device 0).out_block) [
    | inl e ↦ rw (uninstall_block_body, e) refl
    | inr (b, e) ↦ rw (uninstall_block_body, e) (uninstall_gpe_block-event_lock h p b s)
  ]

  framed-event_lock :
      (body : State W → Status × State W) (s : State W)
      → IsReady s.event_lock (h.locks.thread_id s.world)
      → Keeps h body
      → (loaded s (locked h body s)).1.event_lock ≡ s.event_lock
  framed-event_lock body s i k =
      loaded-event_lock h p s (locked h body s) (locked-event_lock h body s i k)

  install-event_lock :
      (device idx triggering type handler ctx : ℕ) (s : State W)
      → IsReady s.event_lock (h.locks.thread_id s.world)
      → (do_install_gpe_handler h p device idx triggering type handler ctx s).1.event_lock
        ≡ s.event_lock
  unfolding do_install_gpe_handler
  install-event_lock device idx triggering type handler ctx s i =
      let body = λ (d slock : ℕ). install_event h slock triggering type handler ctx in
      ground (arith, with_gpe-event_lock h p body device idx s i)

  fixed-event_lock :
      (event : ℕ) (reduced : Status) (body : State W → Status × State W) (s : State W)
      → IsReady s.event_lock (h.locks.thread_id s.world)
      → Keeps h body
      → (fixed_guard h p s event (λ ret. (ret, s)) reduced (locked h body s)).1.event_lock
        ≡ s.event_lock
  fixed-event_lock event reduced body s i k = ground (arith, locked-event_lock h body s i k)

  -- Every call of include/uacpi/event.h, those that report on an event and
  -- `uacpi_clear_all_events` included, gives back the recursive event lock as it was on every branch,
  -- if the lock was idle, or held by the calling thread fewer than 2^64 - 1 times.
  pub api-event_lock :
      (call : Api) (s : State W)
      → IsReady s.event_lock (h.locks.thread_id s.world)
      → (api h p call s).1.event_lock ≡ s.event_lock
  unfolding api finalize_gpe_initialization disable_all_gpes enable_all_runtime_gpes
      enable_all_wake_gpes for_all_gpes_locked clear_all_events install_gpe_handler
      install_gpe_handler_raw do_install_gpe_handler uninstall_gpe_handler enable_gpe disable_gpe
      clear_gpe_status suspend_gpe resume_gpe gpe_suspend_resume finish_handling_gpe
      gpe_get_mask_unmask gpe_enable_disable_for_wake enable_fixed_event disable_fixed_event
      clear_fixed_event install_fixed_event_handler uninstall_fixed_event_handler setup_gpe_for_wake
      install_gpe_block uninstall_gpe_block_of
  api-event_lock finalize s i = framed-event_lock (finalize_body h p) s i finalize_body-event_lock
  api-event_lock disable_all s i = framed-event_lock _ s i (for_all_gpes-event_lock _)
  api-event_lock enable_all_runtime s i = framed-event_lock _ s i (for_all_gpes-event_lock _)
  api-event_lock enable_all_wake s i = framed-event_lock _ s i (for_all_gpes-event_lock _)
  api-event_lock clear_events s i =
      framed-event_lock (clear_all_body h p) s i clear_all_body-event_lock
  api-event_lock (enable_fixed event) s i =
      fixed-event_lock event ok (enable_body h p event) s i (enable_body-event_lock event)
  api-event_lock (disable_fixed event) s i =
      fixed-event_lock event ok (run_set_event h p event 0) s i (λ t. refl)
  api-event_lock (clear_fixed event) s i = ground arith
  api-event_lock (uninstall_fixed event) s i =
      fixed-event_lock event ok (uninstall_fixed_body h p event) s i
        (uninstall_fixed_body-event_lock event)
  api-event_lock (fixed_info event) s i = fixed_event_info-event_lock h p event s i
  api-event_lock (install_fixed event handler user) s i =
      fixed-event_lock event ok (install_fixed_body h p event handler user) s i
        (install_fixed_body-event_lock event handler user)
  api-event_lock (install device idx triggering handler ctx) s i =
      install-event_lock device idx triggering type_native handler ctx s i
  api-event_lock (install_raw device idx triggering handler ctx) s i =
      install-event_lock device idx triggering type_native_raw handler ctx s i
  api-event_lock (uninstall device idx handler) s i =
      with_gpe-event_lock h p (λ d slock. uninstall_event h slock d handler) device idx s i
  api-event_lock (enable device idx) s i =
      with_gpe-event_lock h p (λ d slock. enable_event h slock d) device idx s i
  api-event_lock (disable device idx) s i =
      with_gpe-event_lock h p (λ d slock. gpe_remove_user h slock) device idx s i
  api-event_lock (clear device idx) s i =
      with_gpe-event_lock h p (λ d slock. clear_event h slock) device idx s i
  api-event_lock (suspend device idx) s i =
      with_gpe-event_lock h p (λ d slock. suspend_resume_event h slock disabled) device idx s i
  api-event_lock (resume device idx) s i =
      with_gpe-event_lock h p (λ d slock. suspend_resume_event h slock enabled) device idx s i
  api-event_lock (finish device idx) s i =
      with_gpe-event_lock h p (λ d slock. restore_gpe h slock) device idx s i
  api-event_lock (info device idx) s i = gpe_info-event_lock h p device idx s i
  api-event_lock (mask_unmask on device idx) s i =
      with_gpe-event_lock h p (λ d slock. gpe_mask_unmask h slock on) device idx s i
  api-event_lock (enable_disable_wake on device idx) s i =
      with_gpe-event_lock h p (λ d slock. enable_disable_wake_event h slock on) device idx s i
  api-event_lock (setup_wake device idx wake_device) s i = ground (
    arith,
    with_gpe-event_lock h p (λ d slock. setup_wake_event h slock wake_device) device idx s i,
  )
  api-event_lock (install_block device address space num irq) s i =
      let body = install_block_body h p device address space num irq in
      ground (
        arith,
        locked-event_lock h body s i (install_block_body-event_lock device address space num irq),
      )
  api-event_lock (uninstall_block device) s i =
      let body = uninstall_block_body h p device in
      ground (arith, locked-event_lock h body s i (uninstall_block_body-event_lock device))
