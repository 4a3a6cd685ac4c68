-- ===== src/Event/Api/Locks.antt =====
-- The parts of the calls of include/uacpi/event.h give back `g_event_lock` as it was.
use u_acpi.Base.{
  ℕ, zero, suc, ◌+◌, ◌-◌, ◌*◌, ◌%◌, ◌^◌, ◌≡◌, refl, Bool, true, some, Status, arith, inl, inr, List,
  [], ◌∷◌, Bool-cases, Option-cases, bit_or, bit_and, Status-cases, ap, ◌∙◌,
}
use u_acpi.Gas.Transfer.{gas_read}
use u_acpi.Event.{EventHost, Platform, GpeBlock, GpeView, State, in_world}
use u_acpi.Event.Gpe.{overlaps}
use u_acpi.Event.Wake.Info.{
  locked_value, fixed_info_body, fixed_event_info, gpe_info_event, gpe_info_body, gpe_info,
}
use u_acpi.Event.Api.{status_of}
use u_acpi.Event.Lock.{loaded, locked, acquire_event_lock}
use u_acpi.Event.Lock.Laws.{IsReady, Keeps, locked-event_lock}
use u_acpi.Event.Store.{
  on_event, get_gpe, for_each_block, put, detect_register, detect_block, detect_gpes,
}
use u_acpi.Event.Dispatch.{dispatch_gpe}
use u_acpi.Event.Handlers.{on_found, with_gpe, sanitized}
use u_acpi.Event.Block.{
  gpe_block_mask_safe, leave_context, free_block, uninstall_gpe_block, update_block, sizeof_block,
  sizeof_register, sizeof_event,
}
use u_acpi.Event.Block.Match.{assign_method, do_match_gpe_methods, match_all, match_block}
use u_acpi.Event.Block.Create.{
  find_or_create_gpe_interrupt_ctx, init_registers, join_context, fill_block, create_gpe_block,
  empty_block,
}

module _ {W : Type 0} (h : EventHost W) (p : Platform) where
  pub on_event-event_lock :
      {A : Type 0} (f : GpeView W → A × GpeView W) (block offset : ℕ) (s : State W)
      → (on_event f block offset s).1.event_lock ≡ s.event_lock
  unfolding on_event put
  on_event-event_lock f block offset s = refl

  on_found-event_lock :
      (body : ℕ → ℕ → GpeView W → Status × GpeView W) (device idx : ℕ)
      → Keeps h (on_found h p body device idx)
  unfolding on_found
  on_found-event_lock body device idx s =
      elim (Option-cases (get_gpe s (sanitized h p device) idx)) [
        | inl e ↦ rw (on_found, e) refl
        | inr ((b, o), e) ↦
            rw (on_found, e)
              (on_event-event_lock (body (sanitized h p device) s.gpe_state_slock) b o s)
      ]

  pub loaded-event_lock :
      (s : State W) (r : Status × State W)
      → r.1.event_lock ≡ s.event_lock
      → (loaded s r).1.event_lock ≡ s.event_lock
  loaded-event_lock s r e = ground arith

  pub with_gpe-event_lock :
      (body : ℕ → ℕ → GpeView W → Status × GpeView W) (device idx : ℕ) (s : State W)
      → IsReady s.event_lock (h.locks.thread_id s.world)
      → (with_gpe h p body device idx s).1.event_lock ≡ s.event_lock
  unfolding with_gpe
  with_gpe-event_lock body device idx s i =
      loaded-event_lock s (locked h (on_found h p body device idx) s) (
        locked-event_lock h (on_found h p body device idx) s i
          (on_found-event_lock body device idx))

  fixed_info_body-event_lock :
      (event : ℕ) (s : State W) → (fixed_info_body h p event s).2.event_lock ≡ s.event_lock
  unfolding fixed_info_body
  fixed_info_body-event_lock event s = ground arith

  gpe_info_body-event_lock :
      (device idx : ℕ) (s : State W) → (gpe_info_body h p device idx s).2.event_lock ≡ s.event_lock
  unfolding gpe_info_body gpe_info_event
  gpe_info_body-event_lock device idx s =
      elim (Option-cases (get_gpe s (sanitized h p device) idx)) [
        | inl e ↦ rw (gpe_info_body, e) refl
        | inr (x, e) ↦ rw (gpe_info_body, e) refl
      ]

  -- The frame with a number for the caller is the other frame, but for that number.
  locked_value_lem :
      (body : State W → Status × ℕ × State W) (s : State W)
      → status_of (locked_value h body s) ≡ locked h (λ t. status_of (body t)) s
  unfolding locked_value locked
  locked_value_lem body s = ground (arith, Status-cases (acquire_event_lock h s).0)

  locked_value-event_lock :
      (body : State W → Status × ℕ × State W) (s : State W)
      → IsReady s.event_lock (h.locks.thread_id s.world)
      → ((t : State W) → (body t).2.event_lock ≡ t.event_lock)
      → (locked_value h body s).2.event_lock ≡ s.event_lock
  locked_value-event_lock body s i k =
      ap (λ (r : Status × State W). r.1.event_lock) (locked_value_lem body s)
      ∙ locked-event_lock h (λ t. status_of (body t)) s i k

  pub fixed_event_info-event_lock :
      (event : ℕ) (s : State W)
      → IsReady s.event_lock (h.locks.thread_id s.world)
      → (fixed_event_info h p event s).2.event_lock ≡ s.event_lock
  unfolding fixed_event_info
  fixed_event_info-event_lock event s i =
      let body = fixed_info_body h p event in
      ground (arith, locked_value-event_lock body s i (fixed_info_body-event_lock event))

  pub gpe_info-event_lock :
      (device idx : ℕ) (s : State W)
      → IsReady s.event_lock (h.locks.thread_id s.world)
      → (gpe_info h p device idx s).2.event_lock ≡ s.event_lock
  unfolding gpe_info
  gpe_info-event_lock device idx s i =
      let body = gpe_info_body h p device idx in
      ground (arith, locked_value-event_lock body s i (gpe_info_body-event_lock device idx))

  -- A walk over the blocks keeps what its callback keeps.
  pub walk-event_lock :
      {A : Type 0} (lock : A → State W) (cb : ℕ → A → Bool × A)
      → ((b : ℕ) (a : A) → (lock (cb b a).1).event_lock ≡ (lock a).event_lock)
      → (blocks : List ℕ) (a : A)
      → (lock (for_each_block cb blocks a)).event_lock ≡ (lock a).event_lock
  unfolding for_each_block
  walk-event_lock lock cb k [] a = refl
  walk-event_lock lock cb k (b ∷ blocks) a = elim (Bool-cases (cb b a).0) [
    | inl e ↦ rw e (k b a)
    | inr e ↦ rw e (walk-event_lock lock cb k blocks (cb b a).1 ∙ k b a)
  ]

  detect_register-event_lock :
      (left block i pending int_ret : ℕ) (s : State W)
      → (detect_register h left block i pending int_ret s).1.event_lock ≡ s.event_lock
  unfolding detect_register
  detect_register-event_lock zero block i pending int_ret s = refl
  detect_register-event_lock (suc left) block i pending int_ret s =
      let j = 8 - suc left in
      let device = (s.block_at block).device_node in
      let r = on_event (dispatch_gpe h s.gpe_state_slock device) block (j + i * 8) s in
      elim (Bool-cases (overlaps pending (2 ^ j))) [
        | inl e ↦ rw e (
            detect_register-event_lock left block i pending (bit_or int_ret r.0) r.1
            ∙ on_event-event_lock (dispatch_gpe h s.gpe_state_slock device) block (j + i * 8) s)
        | inr e ↦ rw e (detect_register-event_lock left block i pending int_ret s)
      ]

  detect_block-event_lock :
      (left block i int_ret : ℕ) (s : State W)
      → (detect_block h left block i int_ret s).2.event_lock ≡ s.event_lock
  unfolding detect_block
  detect_block-event_lock zero block i int_ret s = refl
  detect_block-event_lock (suc left) block i int_ret s =
      let reg = (s.block_at block).registers i in
      let (ret, status, w1) = gas_read h.io (some reg.status) s.world in
      let (ret', enable, w2) = gas_read h.io (some reg.enable) w1 in
      let s2 = in_world s w2 in
      let r = detect_register h 8 block i (bit_and status enable) int_ret s2 in
      ground (
        arith,
        detect_block-event_lock left block (suc i) int_ret s,
        detect_block-event_lock left block (suc i) int_ret s2,
        detect_block-event_lock left block (suc i) r.0 r.1,
        detect_register-event_lock 8 block i (bit_and status enable) int_ret s2,
      )

  pub detect_gpes-event_lock :
      (blocks : List ℕ) (int_ret : ℕ) (s : State W)
      → (detect_gpes h blocks int_ret s).1.event_lock ≡ s.event_lock
  unfolding detect_gpes
  detect_gpes-event_lock [] int_ret s = refl
  detect_gpes-event_lock (block ∷ blocks) int_ret s =
      let r = detect_block h (s.block_at block).num_registers block 0 int_ret s in
      ground (
        arith,
        detect_block-event_lock (s.block_at block).num_registers block 0 int_ret s,
        detect_gpes-event_lock blocks r.1 r.2,
      )

  pub uninstall_gpe_block-event_lock :
      (block : ℕ) (s : State W) → (uninstall_gpe_block h p block s).event_lock ≡ s.event_lock
  unfolding uninstall_gpe_block leave_context free_block gpe_block_mask_safe update_block
  uninstall_gpe_block-event_lock block s = ground arith

module _ {W : Type 0} (h : EventHost W) (p : Platform) where
  match_all-event_lock :
      (block : ℕ) (methods : List (ℕ × List ℕ)) (s : State W)
      → (match_all h p block methods s).event_lock ≡ s.event_lock
  unfolding match_all do_match_gpe_methods assign_method update_block
  match_all-event_lock block [] s = refl
  match_all-event_lock block ((node, name) ∷ methods) s =
      let s' = do_match_gpe_methods h p block node name s in
      match_all-event_lock block methods s' ∙ ground arith

  find_or_create-event_lock :
      (irq : ℕ) (s : State W)
      → (find_or_create_gpe_interrupt_ctx h p irq s).2.event_lock ≡ s.event_lock
  unfolding find_or_create_gpe_interrupt_ctx
  find_or_create-event_lock irq s = ground arith

  fill_block-event_lock :
      (block irq base_idx address space num : ℕ) (s : State W)
      → (fill_block h p block irq base_idx address space num s).1.event_lock ≡ s.event_lock
  unfolding fill_block match_block join_context update_block
  fill_block-event_lock block irq base_idx address space num s =
      let r = init_registers h p num 0 base_idx address space num (s.block_at block) s.world in
      let s1 : State W = in_world (update_block s block r.1) r.2 in
      let q = find_or_create_gpe_interrupt_ctx h p irq s1 in
      let s3 = join_context h p block q.1 q.2 in
      let m = h.each_method (s3.block_at block).device_node s3.world in
      ground (
        arith,
        find_or_create-event_lock irq s1,
        uninstall_gpe_block-event_lock h p block s1,
        uninstall_gpe_block-event_lock h p block q.2,
        match_all-event_lock block m.0 (in_world s3 m.1),
      )

  pub create_gpe_block-event_lock :
      (device irq base_idx address space num : ℕ) (s : State W)
      → (create_gpe_block h p device irq base_idx address space num s).1.event_lock ≡ s.event_lock
  unfolding create_gpe_block update_block
  create_gpe_block-event_lock device irq base_idx address space num s =
      let block = s.next_pointer in
      let r1 = h.memory.alloc sizeof_block s.world in
      let r2 = h.memory.alloc (num * sizeof_register) r1.1 in
      let events = num * 8 % 2 ^ 16 in
      let r3 = h.memory.alloc (events * sizeof_event) r2.1 in
      let b1 : GpeBlock = record (empty_block h p device base_idx) { num_registers = num } in
      let b2 : GpeBlock = record b1 { has_registers = true; num_events = events } in
      let b3 : GpeBlock = record b2 { has_events = true } in
      let at : GpeBlock → W → State W =
        λ b w. update_block (record s { world = w; next_pointer = suc block }) block b in
      ground (
        arith,
        uninstall_gpe_block-event_lock h p block (at b1 r2.1),
        uninstall_gpe_block-event_lock h p block (at b2 r3.1),
        fill_block-event_lock block irq base_idx address space num (at b3 r3.1),
      )
