-- ===== src/Notify/Laws.antt =====
-- What the locking of source/notify.c promises, and what it does to the lists.
use u_acpi.Base.{
  ℕ, ◌≡◌, ◌≢◌, ◌⊎◌, inl, inr, refl, true, false, none, Status, ok, err, ◌≤◌, out_of_memory, ◌==◌,
  if◌then◌else◌, arith, List, [], ◌∷◌, ◌++◌, Status-cases,
}
use u_acpi.Host.{LockHost, LockLaws, MemoryHost, MemoryLaws}
use u_acpi.Mutex.Native.{acquire_native}
use u_acpi.Mutex.Native.Laws.{
  acquire_native_err, acquire_native_ok, acquire_native_free, release_native_held,
}
use u_acpi.Notify.{
  NodeHost, NodeLaws, State, Handler, handler_container, unlink, drop_object, unlock, with_object,
  install_body, install_notify_handler, uninstall_body, uninstall_notify_handler, notify_locked,
  notify_all, call_all, do_notify, block_size,
}

-- A scheduled notification calls the device's handlers first, and then the root's, each in the
-- order of its list, and lets go of the node and of its own memory after them.
pub do_notify-call_all :
    {W : Type 0} (h : LockHost W) (m : MemoryHost W) (n : NodeHost W) (call : Handler → W → W)
    (node : ℕ) (root xs : List Handler) (w : W)
    → do_notify h m n call node root xs w
      ≡ m.free block_size (n.let_go node (call_all h m n call (xs ++ root) w))
unfolding do_notify call_all
do_notify-call_all h m n call node root [] w = refl
do_notify-call_all h m n call node root (x ∷ xs) w =
    do_notify-call_all h m n call node root xs (call x w)

module _ {W : Type 0} (h : LockHost W) (laws : LockLaws h) (m : MemoryHost W)
    (memory : MemoryLaws m laws.held) (n : NodeHost W) (nodes : NodeLaws n laws.held) where
  open laws use {held}
  open memory use {alloc_held, free_held}
  open nodes use {
    acquire_object_held, unref_object_held, hold_held, let_go_held, schedule_work_held,
    wait_for_work_held,
  }

  drop_object-held :
      (node obj : ℕ) (s : State W) (j : ℕ)
      → held (drop_object h m n node obj s).world j ≡ held s.world j
  unfolding drop_object
  drop_object-held node obj s j = ground (arith, unref_object_held obj s.world j)

  unlock-held :
      (s : State W) (j : ℕ)
      → s.notify_mutex ≢ 0
      → held (unlock h m n s).world j ≡ (if s.notify_mutex == j then 0 else held s.world j)
  unfolding unlock
  unlock-held s j p = release_native_held h laws s.notify_mutex s.world j p

  uninstall_body-held :
      (node callback obj : ℕ) (s : State W) (j : ℕ)
      → s.notify_mutex ≢ 0
      → held (uninstall_body h m n node callback obj s).1.world j
        ≡ (if s.notify_mutex == j then 0 else held s.world j)
  unfolding uninstall_body
  uninstall_body-held node callback obj s j p =
      let t : State W = record s {
        handlers = λ o. if o == obj then unlink (s.handlers obj) callback else s.handlers o;
      } in
      ground (
        arith,
        unlock-held s j p,
        unlock-held t j p,
        drop_object-held node obj (unlock h m n s) j,
        drop_object-held node obj (unlock h m n t) j,
        free_held block_size (drop_object h m n node obj (unlock h m n t)).world j,
      )

  notify_locked-held :
      (node value : ℕ) (s : State W) (j : ℕ)
      → s.notify_mutex ≢ 0
      → held (notify_locked h m n node value s).1.world j
        ≡ (if s.notify_mutex == j then 0 else held s.world j)
  unfolding notify_locked
  notify_locked-held node value s j p =
      let w1 = (m.alloc block_size s.world).1 in
      let w3 = (n.schedule_work node value (n.hold node w1)).1 in
      let at : W → State W = λ w. record s { world = w } in
      ground (
        arith,
        unlock-held s j p,
        unlock-held (at w1) j p,
        unlock-held (at w3) j p,
        unlock-held (at (m.free block_size (n.let_go node w3))) j p,
        alloc_held block_size s.world j,
        hold_held node w1 j,
        schedule_work_held node value (n.hold node w1) j,
        let_go_held node w3 j,
        free_held block_size (n.let_go node w3) j,
      )

  -- `uacpi_notify_all` leaves held what was held before it, on every branch.
  pub notify_all-held :
      (node value : ℕ) (s : State W) (j : ℕ)
      → held (notify_all h m n node value s).1.world j ≡ held s.world j
  unfolding notify_all
  notify_all-held node value s j =
      let w = (acquire_native h s.notify_mutex s.world).1 in
      elim (Status-cases (acquire_native h s.notify_mutex s.world).0) [
        | inl e ↦ ground (
          arith,
          e,
          acquire_native_ok h laws s.notify_mutex s.world j e,
          acquire_native_free h laws s.notify_mutex s.world e,
          notify_locked-held node value (record s { world = w }) j,
        )
        | inr (x, e) ↦ ground (arith, e, acquire_native_err h laws s.notify_mutex s.world x j e)
      ]

  abbrev Releases : (ℕ → State W → Status × State W) → Type 0
  Releases body =
      (obj : ℕ) (t : State W) (j : ℕ)
      → t.notify_mutex ≢ 0
      → held (body obj t).1.world j ≡ (if t.notify_mutex == j then 0 else held t.world j)

  body-held :
      (body : ℕ → State W → Status × State W) (obj : ℕ) (s : State W) (j : ℕ)
      → Releases body
      → (acquire_native h s.notify_mutex s.world).0 ≡ ok
      → let w = (acquire_native h s.notify_mutex s.world).1 in
        held (body obj (record s { world = n.wait_for_work w })).1.world j ≡ held s.world j
  body-held body obj s j k e =
      let w = (acquire_native h s.notify_mutex s.world).1 in
      ground (
        arith,
        acquire_native_ok h laws s.notify_mutex s.world j e,
        acquire_native_free h laws s.notify_mutex s.world e,
        wait_for_work_held w j,
        k obj (record s { world = n.wait_for_work w }) j,
      )

  acquire_fails :
      (s : State W) (j : ℕ)
      → ((acquire_native h s.notify_mutex s.world).0 ≡ ok)
        ⊎ (held (acquire_native h s.notify_mutex s.world).1 j ≡ held s.world j)
  acquire_fails s j = elim (Status-cases (acquire_native h s.notify_mutex s.world).0) [
    | inl e ↦ inl e
    | inr (x, e) ↦ inr (acquire_native_err h laws s.notify_mutex s.world x j e)
  ]

  with_object-held :
      (node : ℕ) (s : State W) (body : ℕ → State W → Status × State W) (j : ℕ)
      → Releases body
      → held (with_object h m n node s body).1.world j ≡ held s.world j
  unfolding with_object
  with_object-held node s body j k =
      let obj = (n.acquire_object node s.world).1 in
      let t : State W = record s { world = (n.acquire_object node s.world).2 } in
      let w = (acquire_native h s.notify_mutex s.world).1 in
      let w' = (acquire_native h t.notify_mutex t.world).1 in
      ground (
        arith,
        body-held body s.root_object s j k,
        body-held body obj t j k,
        acquire_object_held node s.world j,
        drop_object-held node s.root_object (record s { world = w }) j,
        drop_object-held node obj (record s { world = w' }) j,
        acquire_fails s j,
        acquire_fails t j,
      )

  -- `uacpi_uninstall_notify_handler` leaves held what was held before it, on every branch.
  pub uninstall_notify_handler-held :
      (node callback : ℕ) (s : State W) (j : ℕ)
      → held (uninstall_notify_handler h m n node callback s).1.world j ≡ held s.world j
  unfolding uninstall_notify_handler
  uninstall_notify_handler-held node callback s j =
      with_object-held node s (uninstall_body h m n node callback) j
        (λ obj t i p. uninstall_body-held node callback obj t i p)

  install_body-held :
      (node callback context obj : ℕ) (s : State W) (j : ℕ)
      → ((k : ℕ) (w : W) → (m.alloc k w).0 ≡ true)
      → s.notify_mutex ≢ 0
      → held (install_body h m n node callback context obj s).1.world j
        ≡ (if s.notify_mutex == j then 0 else held s.world j)
  unfolding install_body
  install_body-held node callback context obj s j enough p =
      let new : Handler = record { callback = callback; user_context = context } in
      let t : State W = record s {
        world = (m.alloc block_size s.world).1;
        handlers = λ o. if o == obj then new ∷ s.handlers obj else s.handlers o;
      } in
      ground (
        arith,
        enough block_size s.world,
        alloc_held block_size s.world j,
        unlock-held s j p,
        unlock-held t j p,
        drop_object-held node obj (unlock h m n s) j,
        drop_object-held node obj (unlock h m n t) j,
      )

  -- Where no allocation fails, `uacpi_install_notify_handler` leaves held what was held before it,
  -- on every branch.
  pub install_notify_handler-held :
      (node callback context : ℕ) (s : State W) (j : ℕ)
      → ((k : ℕ) (w : W) → (m.alloc k w).0 ≡ true)
      → held (install_notify_handler h m n node callback context s).1.world j ≡ held s.world j
  unfolding install_notify_handler
  install_notify_handler-held node callback context s j enough =
      with_object-held node s (install_body h m n node callback context) j
        (λ obj t i p. install_body-held node callback context obj t i enough p)

  -- Without memory for the handler it leaves its mutex held: an installation on the root, with the
  -- mutex free and a callback that is new, returns OUT_OF_MEMORY, and
  -- the mutex is held afterwards.
  pub install_notify_handler-leaks :
      (callback context : ℕ) (s : State W)
      → 1 ≤ s.init_level
      → (acquire_native h s.notify_mutex s.world).0 ≡ ok
      → handler_container (s.handlers s.root_object) callback ≡ none
      → ((k : ℕ) (w : W) → (m.alloc k w).0 ≡ false)
      → let r = install_notify_handler h m n s.root_node callback context s in
        (r.0 ≡ err out_of_memory)
        × (held s.world s.notify_mutex ≡ 0)
        × (held r.1.world s.notify_mutex ≡ 1)
  unfolding install_notify_handler with_object install_body
  install_notify_handler-leaks callback context s i e new none_left =
      let w = (acquire_native h s.notify_mutex s.world).1 in
      ground (
        arith,
        none_left block_size (n.wait_for_work w),
        acquire_native_ok h laws s.notify_mutex s.world s.notify_mutex e,
        acquire_native_free h laws s.notify_mutex s.world e,
        wait_for_work_held w s.notify_mutex,
        alloc_held block_size (n.wait_for_work w) s.notify_mutex,
      )
