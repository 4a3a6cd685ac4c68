-- ===== src/Notify.antt =====
-- source/notify.c: the handlers of Notify(). Objects are numbers, and `handlers` gives the list
-- `handlers->notify_head` of each, newest first; callbacks and contexts are numbers too.
pub mod Laws
use u_acpi.Base.{
  ℕ, Bool, true, false, List, [], ◌∷◌, ◌++◌, ◌≡◌, Option, none, some, Status, ok, err, Error, ◌==◌,
  if◌then◌else◌, ltb, not, ◌&&◌, init_level_mismatch, already_exists, out_of_memory, not_found,
  invalid_argument, no_handler,
}
use u_acpi.Host.{LockHost, MemoryHost}
use u_acpi.Mutex.Native.{acquire_native, release_native}

pub record Handler : Type 0 where
  pub callback : ℕ
  pub user_context : ℕ

-- The namespace's part, and the work queue: `acquire_object` is
-- `uacpi_namespace_node_acquire_object_typed` for devices, thermal zones and processors,
-- `get_object` is `uacpi_namespace_node_get_object_typed` for the same, 0 if it has none;
-- `hold` and `let_go` take and drop the references to a node and its object.
pub record NodeHost (W : Type 0) : Type 0 where
  pub acquire_object : ℕ → W → Status × ℕ × W
  pub unref_object : ℕ → W → W
  pub get_object : ℕ → W → ℕ
  pub hold : ℕ → W → W
  pub let_go : ℕ → W → W
  pub schedule_work : ℕ → ℕ → W → Status × W
  pub wait_for_work : W → W

-- Those calls acquire and release no mutex that `held` counts.
pub record NodeLaws {W : Type 0} (n : NodeHost W) (held : W → ℕ → ℕ) : Type 0 where
  pub acquire_object_held :
      (node : ℕ) (w : W) (j : ℕ) → held (n.acquire_object node w).2 j ≡ held w j
  pub unref_object_held : (obj : ℕ) (w : W) (j : ℕ) → held (n.unref_object obj w) j ≡ held w j
  pub hold_held : (node : ℕ) (w : W) (j : ℕ) → held (n.hold node w) j ≡ held w j
  pub let_go_held : (node : ℕ) (w : W) (j : ℕ) → held (n.let_go node w) j ≡ held w j
  pub schedule_work_held :
      (node value : ℕ) (w : W) (j : ℕ) → held (n.schedule_work node value w).1 j ≡ held w j
  pub wait_for_work_held : (w : W) (j : ℕ) → held (n.wait_for_work w) j ≡ held w j

pub record State (W : Type 0) : Type 0 where
  pub world : W
  pub init_level : ℕ
  pub notify_mutex : ℕ
  pub root_node : ℕ
  pub root_object : ℕ
  pub handlers : ℕ → List Handler

-- sizeof(struct notification_ctx) and sizeof(uacpi_device_notify_handler).
abbrev pub block_size : ℕ
block_size = 24

unfoldable pub handler_container : List Handler → ℕ → Option Handler
handler_container [] target = none
handler_container (x ∷ xs) target =
    if x.callback == target then some x else handler_container xs target

-- The unlinking of the handler that was found, at the head or behind it.
unfoldable pub unlink : List Handler → ℕ → List Handler
unlink [] target = []
unlink (x ∷ xs) target = if x.callback == target then xs else x ∷ unlink xs target

module _ {W : Type 0} (h : LockHost W) (m : MemoryHost W) (n : NodeHost W) where
  abbrev pub in_world : State W → W → State W
  in_world s w = record s { world = w }

  pub initialize_notify : State W → Status × State W
  initialize_notify s =
      let (mutex, w) = h.create_mutex s.world in
      (if mutex == 0 then err out_of_memory else ok, record s { world = w; notify_mutex = mutex })

  pub deinitialize_notify : State W → State W
  deinitialize_notify s = record s {
    world = if s.notify_mutex == 0 then s.world else h.free_mutex s.notify_mutex s.world;
    notify_mutex = 0;
  }

  abbrev set_handlers : State W → ℕ → List Handler → State W
  set_handlers s obj xs = record s { handlers = λ o. if o == obj then xs else s.handlers o }

  -- `out_no_mutex:`, and `out:` above it.
  drop_object : ℕ → ℕ → State W → State W
  drop_object node obj s =
      if node == s.root_node then s else in_world s (n.unref_object obj s.world)

  unlock : State W → State W
  unlock s = in_world s (release_native h s.notify_mutex s.world).1

  -- The object of the node, the mutex, and the wait, before the body; each error returns.
  with_object : ℕ → State W → (ℕ → State W → Status × State W) → Status × State W
  unfolding drop_object
  with_object node s body =
      let is_root = node == s.root_node in
      let (ret, obj, w1) = n.acquire_object node s.world in
      let object = if is_root then s.root_object else obj in
      let s1 = if is_root then s else in_world s w1 in
      let (ret', w2) = acquire_native h s1.notify_mutex s1.world in
      let s2 = in_world s1 w2 in
      let inside : Status × State W = elim ret' [
        | ok ↦ body object (in_world s2 (n.wait_for_work w2))
        | err e ↦ (err e, drop_object node object s2)
      ] in
      if ltb s.init_level 1
      then (err init_level_mismatch, s)
      else (if is_root then inside else (elim ret [ ok ↦ inside | err e ↦ (err e, s1) ]))

  -- Without memory for the new handler the source returns at once, with the mutex still held and
  -- the reference to the object still taken.
  install_body : ℕ → ℕ → ℕ → ℕ → State W → Status × State W
  unfolding unlock drop_object
  install_body node callback context obj s =
      let new : Handler = record { callback = callback; user_context = context } in
      let (got, w) = m.alloc block_size s.world in
      let s' = in_world s w in
      elim (handler_container (s.handlers obj) callback) [
        | some x ↦ (err already_exists, drop_object node obj (unlock s))
        | none ↦
            if got
            then (ok, drop_object node obj (unlock (set_handlers s' obj (new ∷ s.handlers obj))))
            else (err out_of_memory, s')
      ]

  pub install_notify_handler : ℕ → ℕ → ℕ → State W → Status × State W
  unfolding with_object install_body
  install_notify_handler node callback context s =
      with_object node s (install_body node callback context)

  uninstall_body : ℕ → ℕ → ℕ → State W → Status × State W
  unfolding unlock drop_object
  uninstall_body node callback obj s = elim (handler_container (s.handlers obj) callback) [
    | none ↦ (err not_found, drop_object node obj (unlock s))
    | some x ↦
        let s' =
          drop_object node obj (unlock (set_handlers s obj (unlink (s.handlers obj) callback))) in
        (ok, in_world s' (m.free block_size s'.world))
  ]

  pub uninstall_notify_handler : ℕ → ℕ → State W → Status × State W
  unfolding with_object uninstall_body
  uninstall_notify_handler node callback s = with_object node s (uninstall_body node callback)

  pub call_all : (Handler → W → W) → List Handler → W → W
  call_all call [] w = w
  call_all call (x ∷ xs) w = call_all call xs (call x w)

  -- `do_notify`: the device's handlers, then the root's, in the order of their lists, and then
  -- `free_notification_ctx`.
  pub do_notify : (Handler → W → W) → ℕ → List Handler → List Handler → W → W
  do_notify call node root [] w = m.free block_size (n.let_go node (call_all call root w))
  do_notify call node root (x ∷ xs) w = do_notify call node root xs (call x w)

  is_empty : List Handler → Bool
  is_empty [] = true
  is_empty (x ∷ xs) = false

  notify_locked : ℕ → ℕ → State W → Status × State W
  unfolding unlock is_empty
  notify_locked node value s =
      let obj = n.get_object node s.world in
      let (got, w1) = m.alloc block_size s.world in
      let w2 = n.hold node w1 in
      let (ret, w3) = n.schedule_work node value w2 in
      if is_empty (s.handlers obj) && is_empty (s.handlers s.root_object)
      then (err no_handler, unlock s)
      else (if not got then (err out_of_memory, unlock (in_world s w1)) else (elim ret [
        | ok ↦ (ok, unlock (in_world s w3))
        | err e ↦ (err e, unlock (in_world s (m.free block_size (n.let_go node w3))))
      ]))

  pub notify_all : ℕ → ℕ → State W → Status × State W
  unfolding notify_locked
  notify_all node value s =
      let (ret, w) = acquire_native h s.notify_mutex s.world in
      if n.get_object node s.world == 0 then (err invalid_argument, s) else (elim ret [
        | ok ↦ notify_locked node value (in_world s w)
        | err e ↦ (err e, in_world s w)
      ])
