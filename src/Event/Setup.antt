-- ===== src/Event/Setup.antt =====
-- source/event.c: the start and the end of the event code, its interrupt, and the calls that add and
-- remove blocks.
pub mod Laws
use u_acpi.Base.{
  ℕ, zero, suc, ◌+◌, ◌-◌, ◌*◌, ◌/◌, Bool, true, false, ◌&&◌, ◌||◌, not, Option, none, some, Status,
  ok, err, Error, invalid_argument, not_found, already_exists, out_of_memory, hardware_timeout,
  ◌==◌, ltb, if◌then◌else◌, bit_or, List, [], ◌∷◌, get_or,
}
use u_acpi.Mutex.Recursive.{recursive_lock_init, recursive_lock_deinit}
use u_acpi.Event.{
  EventHost, Platform, GpEvent, GpeView, State, at_world, in_world, type_aml, not_handled,
  fixed_event_max, no_function, global_lock_function,
}
use u_acpi.Event.Gpe.{gpe_add_user, gpe_needs_polling}
use u_acpi.Event.Fixed.{
  initialize_fixed_events, install_fixed_event_handler, uninstall_fixed_event_handler, is_null,
}
use u_acpi.Event.Fixed.Interrupt.{handle_fixed_events}
use u_acpi.Event.Store.{
  get_gpe, on_event, search, for_each_block, all_blocks, detect_gpes, handle_gpes,
}
use u_acpi.Event.Lock.{loaded, locked, acquire_event_lock, release_event_lock}
use u_acpi.Event.Block.{uninstall_gpe_block}
use u_acpi.Event.Block.Match.{match_block}
use u_acpi.Event.Block.Create.{create_gpe_block}

abbrev pub head_or_null : List ℕ → ℕ
head_or_null xs = get_or xs 0 0

module _ {W : Type 0} (h : EventHost W) (p : Platform) where
  -- One event of `do_initialize_gpe_block`: whether it has to be polled.
  unfoldable pub initialize_event : ℕ → GpeView W → Bool × GpeView W
  initialize_event slock g =
      let (ret, g') = gpe_add_user h slock false g in
      if not g.event.wake && (g.event.handler_type == type_aml)
      then (elim ret [ ok ↦ (gpe_needs_polling g'.event, g') | err e ↦ (false, g') ])
      else (false, g)

  -- The two loops of `do_initialize_gpe_block` as one, over the events from `i` on.
  unfoldable pub initialize_from : ℕ → ℕ → ℕ → Bool → State W → Bool × State W
  unfolding initialize_event
  initialize_from zero block i poll s = (poll, s)
  initialize_from (suc left) block i poll s =
      let (needs, s') = on_event (initialize_event s.gpe_state_slock) block i s in
      initialize_from left block (suc i) (poll || needs) s'

  unfoldable pub do_initialize_gpe_block : ℕ → Bool × State W → Bool × (Bool × State W)
  unfolding initialize_from
  do_initialize_gpe_block block (poll, s) =
      (false, initialize_from ((s.block_at block).num_registers * 8) block 0 poll s)

  -- Only the first context's blocks are polled.
  unfoldable pub finalize_body : State W → Status × State W
  unfolding do_initialize_gpe_block
  finalize_body s =
      let s1 = record s { gpes_finalized = true } in
      let (poll, s2) =
        for_each_block do_initialize_gpe_block (all_blocks s1 s1.contexts) (false, s1) in
      let polled = detect_gpes h (s2.context_at (head_or_null s2.contexts)).blocks not_handled s2 in
      if s.gpes_finalized then (ok, s) else (ok, if poll then polled.1 else s2)

  unfoldable pub finalize_gpe_initialization : State W → Status × State W
  unfolding finalize_body
  finalize_gpe_initialization s = loaded s (locked h finalize_body s)

  match_contexts : List ℕ → State W → State W
  match_contexts [] s = s
  match_contexts (block ∷ blocks) s = match_contexts blocks (match_block h p block s)

  -- The lock is released also when it could not be acquired.
  unfoldable pub events_match_post_dynamic_table_load : State W → State W
  unfolding match_contexts
  events_match_post_dynamic_table_load s =
      let (ret, s1) = acquire_event_lock h (in_world s (h.namespace_write_unlock s.world)) in
      let s2 : State W = elim ret [
        | ok ↦ match_contexts (all_blocks s1 s1.contexts) s1
        | err e ↦ s1
      ] in
      let s3 = release_event_lock h s2 in in_world s3 (h.namespace_write_lock s3.world).1

  -- The length is a byte, so that the number of registers is one too.
  first_block : State W → State W
  first_block s =
      let (ret, s1) =
        create_gpe_block h p p.gpe_node p.sci_int 0 p.gpe0_blk.address p.gpe0_blk.address_space_id
          (p.gpe0_blk_len / 2) s in
      if (p.gpe0_blk.address == 0) || (p.gpe0_blk_len == 0) then s else s1

  second_block : State W → State W
  second_block s =
      let gpe0_regs =
        if (p.gpe0_blk.address == 0) || (p.gpe0_blk_len == 0) then 0 else p.gpe0_blk_len / 2 in
      let (ret, s1) =
        create_gpe_block h p p.gpe_node p.sci_int p.gpe1_base p.gpe1_blk.address
          p.gpe1_blk.address_space_id (p.gpe1_blk_len / 2) s in
      if (p.gpe1_blk.address == 0) || (p.gpe1_blk_len == 0)
      then s
      else (if ltb p.gpe1_base (gpe0_regs * 8) then s else s1)

  -- Errors are logged.
  pub initialize_gpes : State W → Status × State W
  unfolding first_block second_block
  initialize_gpes s = (ok, second_block (first_block s))

  unfoldable pub install_block_body : ℕ → ℕ → ℕ → ℕ → ℕ → State W → Status × State W
  install_block_body device address space num irq s = elim (get_gpe s device 0) [
    | some e ↦ (err already_exists, s)
    | none ↦ create_gpe_block h p device irq 0 address space num s
  ]

  unfoldable pub install_gpe_block : ℕ → ℕ → ℕ → ℕ → ℕ → State W → Status × State W
  unfolding install_block_body
  install_gpe_block device address space num irq s =
      let (ret, is_dev) = h.node_is_device device s.world in
      loaded s (elim ret [
        | err e ↦ (err e, s)
        | ok ↦
            if is_dev
            then locked h (install_block_body device address space num irq) s
            else (err invalid_argument, s)
      ])

  unfoldable pub uninstall_block_body : ℕ → State W → Status × State W
  uninstall_block_body device s = elim (search s device 0).out_block [
    | none ↦ (err not_found, s)
    | some block ↦ (ok, uninstall_gpe_block h p block s)
  ]

  unfoldable pub uninstall_gpe_block_of : ℕ → State W → Status × State W
  unfolding uninstall_block_body
  uninstall_gpe_block_of device s =
      let (ret, is_dev) = h.node_is_device device s.world in
      loaded s (elim ret [
        | err e ↦ (err e, s)
        | ok ↦
            if is_dev then locked h (uninstall_block_body device) s else (err invalid_argument, s)
      ])

  pub handle_sci : ℕ → State W → ℕ × State W
  handle_sci context s =
      let (ret, s1) = handle_fixed_events h p s in
      let (ret', s2) = handle_gpes h context s1 in (bit_or ret ret', s2)

  pub initialize_events_early : State W → Status × State W
  initialize_events_early s =
      let (slock, w1) = h.spin.create_spinlock s.world in
      let s1 = record s { world = w1; gpe_state_slock = slock } in
      let (ret, l, w2) = recursive_lock_init h.locks s.event_lock w1 in
      let s2 = record s1 { world = w2; event_lock = l } in
      let (ret', w3) = initialize_fixed_events h p w2 in
      if p.is_hardware_reduced
      then (ok, s)
      else (if slock == 0
          then (err out_of_memory, s1)
          else (elim ret [ err e ↦ (err e, s2) | ok ↦ (ret', in_world s2 w3) ]))

  abbrev is_timeout : Error → Bool
  is_timeout hardware_timeout = true
  is_timeout _ = false

  -- The end of `uacpi_initialize_events`, from the handler of the global lock on.
  install_global_lock : State W → Status × State W
  install_global_lock s =
      let (ret, s1) = install_fixed_event_handler h p 0 global_lock_function 0 s in
      elim ret [
        | ok ↦
            if p.has_facs
            then (ok, record s1 { has_global_lock = true })
            else (ok, (uninstall_fixed_event_handler h p 0 s1).1)
        | err e ↦ (if is_timeout e then ok else err e, s1)
      ]

  pub initialize_events : State W → Status × State W
  unfolding install_global_lock initialize_gpes
  initialize_events s =
      let s1 = (initialize_gpes s).1 in
      let (ret, handle, w2) = h.install_interrupt_handler p.sci_int s1.world in
      let s2 = record s1 { world = w2; sci_handle = handle; sci_handle_valid = true } in
      let (event, w3) = h.create_event w2 in
      let s3 = record s2 { world = w3; global_lock_event = event } in
      let (slock, w4) = h.spin.create_spinlock w3 in
      let s4 = record s3 { world = w4; global_lock_spinlock = slock } in
      if p.is_hardware_reduced then (ok, s) else (elim ret [
        | err e ↦ (err e, in_world s1 w2)
        | ok ↦
            if event == 0
            then (err out_of_memory, s3)
            else (if slock == 0 then (err out_of_memory, s4) else install_global_lock s4)
      ])

  uninstall_blocks : List ℕ → State W → State W
  uninstall_blocks [] s = s
  uninstall_blocks (block ∷ blocks) s = uninstall_blocks blocks (uninstall_gpe_block h p block s)

  -- The loop over the fixed events from `i` on.
  uninstall_handlers : ℕ → ℕ → State W → State W
  uninstall_handlers zero i s = s
  uninstall_handlers (suc left) i s =
      let s' = (uninstall_fixed_event_handler h p i s).1 in
      uninstall_handlers left (suc i) (if is_null (s.handlers i).handler then s else s')

  pub deinitialize_events : State W → State W
  unfolding uninstall_blocks uninstall_handlers
  deinitialize_events s =
      let s1 = record s { gpes_finalized = false } in
      let off = h.uninstall_interrupt_handler s.sci_handle s.world in
      let s2 = record s1 { world = off; sci_handle_valid = false } in
      let s3 = if s.sci_handle_valid then s2 else s1 in
      let s4 =
        uninstall_handlers fixed_event_max 0 (uninstall_blocks (all_blocks s3 s3.contexts) s3) in
      let w5 =
        if s4.gpe_state_slock == 0
        then s4.world
        else h.spin.free_spinlock s4.gpe_state_slock s4.world in
      let (ret, l, w6) = recursive_lock_deinit h.locks s4.event_lock w5 in
      record s4 { world = w6; gpe_state_slock = 0; event_lock = l; contexts = [] }
