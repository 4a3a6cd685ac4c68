-- ===== src/Mutex/Aml/Laws.antt =====
-- What the AML mutexes of source/mutex.c promise.
use u_acpi.Base.{ℕ, ◌<◌, ◌≤◌, ◌≡◌, ◌≢◌, ◌⊎◌, ok, err, denied, ◌==◌, if◌then◌else◌, arith}
use u_acpi.Host.{LockHost, LockLaws}
use u_acpi.Mutex.Native.{acquire_native_with_timeout}
use u_acpi.Mutex.Native.Laws.{
  with_timeout_ok, with_timeout_free, with_timeout_fail, release_native_held,
}
use u_acpi.Mutex.GlobalLock.{Firmware, acquire_from_firmware_n, release_to_firmware}
use u_acpi.Mutex.GlobalLock.Handshake.{FirmwareLaws, acquire_from_firmware-held}
use u_acpi.Mutex.RwLock.Laws.{rw_lock_write-held, rw_unlock_write-held}
use u_acpi.Mutex.GlobalLock.Sequence.{release_to_firmware-held}
use u_acpi.Mutex.Aml.{
  AmlState, acquire_aml_mutex_n, release_aml_mutex, wait_and_claim, claim, namespace_write_unlock,
  thread_id_none,
}

module _ {W : Type 0} (h : LockHost W) (f : Firmware W) where
  -- The owner acquires again: below the greatest depth the call returns OK, touches neither the
  -- kernel nor the namespace lock, and a release takes it back; at the greatest depth it returns
  -- DENIED and changes nothing.
  pub release-acquire_nested :
      (spins timeout : ℕ) (s : AmlState W)
      → s.mutex.owner ≡ h.thread_id s.context.world
      → 1 ≤ s.mutex.depth
      → s.mutex.depth ≤ 0xffff
      → let r = acquire_aml_mutex_n h f spins timeout s in
        ((s.mutex.depth < 0xffff)
          × (r.0 ≡ ok)
          × (r.1.context ≡ s.context)
          × (release_aml_mutex h f r.1 ≡ (ok, s)))
        ⊎ (s.mutex.depth ≡ 0xffff) × (r ≡ (err denied, s))
  unfolding acquire_aml_mutex_n release_aml_mutex
  release-acquire_nested spins timeout s o lo hi = ground arith

module _ {W : Type 0} (h : LockHost W) (laws : LockLaws h) (f : Firmware W)
    (firmware : FirmwareLaws f laws.held) where
  open laws use {held}

  claim-held :
      (spins this_id : ℕ) (s : AmlState W) (j : ℕ)
      → s.mutex.handle ≢ 0
      → let r = claim h f spins this_id s in
        (r.1.namespace_lock ≡ s.namespace_lock)
        × ((r.0 ≡ ok)
              × (r.1.mutex ≡ record s.mutex { owner = this_id; depth = 1 })
              × (held r.1.context.world j ≡ held s.context.world j)
            ⊎ (r.0 ≢ ok)
              × (r.1.mutex ≡ s.mutex)
              × (held r.1.context.world j
                  ≡ (if s.mutex.handle == j then 0 else held s.context.world j)))
  unfolding claim
  claim-held spins this_id s j p =
      let c = (acquire_from_firmware_n h f spins s.context).1 in
      ground (
        arith,
        acquire_from_firmware-held h laws f firmware spins s.context j,
        release_native_held h laws s.mutex.handle c.world j,
      )

  wait_and_claim-held :
      (spins timeout this_id : ℕ) (s : AmlState W) (j : ℕ)
      → let r = wait_and_claim h f spins timeout this_id s in
        (r.1.namespace_lock ≡ s.namespace_lock)
        × ((r.0 ≡ ok)
              × (held s.context.world s.mutex.handle ≡ 0)
              × (r.1.mutex ≡ record s.mutex { owner = this_id; depth = 1 })
              × (held r.1.context.world j
                  ≡ (if s.mutex.handle == j then 1 else held s.context.world j))
            ⊎ (r.0 ≢ ok)
              × (r.1.mutex ≡ s.mutex)
              × (held r.1.context.world j ≡ held s.context.world j))
  unfolding wait_and_claim
  wait_and_claim-held spins timeout this_id s j =
      let w = (acquire_native_with_timeout h s.mutex.handle timeout s.context.world).1 in
      ground (
        arith,
        with_timeout_ok h laws s.mutex.handle timeout s.context.world j,
        with_timeout_free h laws s.mutex.handle timeout s.context.world,
        with_timeout_fail h laws s.mutex.handle timeout s.context.world j,
        claim-held spins this_id (record s { context = record s.context { world = w } }) j,
      )

  -- A thread that does not own the mutex acquires it, with the namespace lock let go meanwhile. On
  -- OK the mutex was free, the thread owns it once and the kernel's mutex is held; with any other
  -- status the object is as it was and no mutex is left held, the global lock's included. The
  -- namespace lock's own mutex is left out, since its statuses are ignored.
  pub acquire_aml_mutex-held :
      (spins timeout : ℕ) (s : AmlState W) (j : ℕ)
      → s.mutex.owner ≢ h.thread_id s.context.world
      → s.namespace_lock.write_mutex ≢ 0
      → s.namespace_lock.write_mutex ≢ s.mutex.handle
      → s.namespace_lock.write_mutex ≢ j
      → let r = acquire_aml_mutex_n h f spins timeout s in
        ((r.0 ≡ ok)
          × (held s.context.world s.mutex.handle ≡ 0)
          × (r.1.mutex ≡ record s.mutex { owner = h.thread_id s.context.world; depth = 1 })
          × (held r.1.context.world j
              ≡ (if s.mutex.handle == j then 1 else held s.context.world j)))
        ⊎ (r.0 ≢ ok) × (r.1.mutex ≡ s.mutex) × (held r.1.context.world j ≡ held s.context.world j)
  unfolding acquire_aml_mutex_n
  acquire_aml_mutex-held spins timeout s j o z d e =
      let id = h.thread_id s.context.world in
      let t = namespace_write_unlock h f s in
      let r = wait_and_claim h f spins timeout id t in
      ground (
        arith,
        rw_unlock_write-held h laws s.namespace_lock s.context.world j,
        rw_unlock_write-held h laws s.namespace_lock s.context.world s.mutex.handle,
        wait_and_claim-held spins timeout id t j,
        rw_lock_write-held h laws r.1.namespace_lock r.1.context.world j,
      )

  -- The last release of an AML mutex that was created gives the kernel's mutex back and leaves no
  -- owner; it moves no other mutex.
  pub release_aml_mutex-held :
      (s : AmlState W) (j : ℕ)
      → s.mutex.depth ≡ 1
      → s.mutex.handle ≢ 0
      → let r = release_aml_mutex h f s in
        (r.0 ≡ ok)
        × (r.1.mutex ≡ record s.mutex { owner = thread_id_none; depth = 0 })
        × (held r.1.context.world j ≡ (if s.mutex.handle == j then 0 else held s.context.world j))
  unfolding release_aml_mutex
  release_aml_mutex-held s j d p =
      let c = release_to_firmware h f s.context in
      ground (
        arith,
        release_to_firmware-held h laws f firmware s.context j,
        release_native_held h laws s.mutex.handle s.context.world j,
        release_native_held h laws s.mutex.handle c.world j,
      )
