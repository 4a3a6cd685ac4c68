-- ===== src/Mutex/Aml.antt =====
-- source/mutex.c: the mutex objects of AML, which also take the global lock and let the namespace
-- go while they wait.
pub mod Laws
use u_acpi.Base.{ℕ, ◌+◌, ◌-◌, ◌%◌, ◌^◌, Bool, Status, ok, err, denied, ◌==◌, if◌then◌else◌, ltb}
use u_acpi.Host.{LockHost}
use u_acpi.Mutex.Native.{acquire_native_with_timeout, release_native}
use u_acpi.Mutex.GlobalLock.{
  Context, Firmware, acquire_from_firmware_n, release_to_firmware, max_spins,
}
use u_acpi.Mutex.RwLock.{RwLock, rw_lock_write, rw_unlock_write}

pub record AmlMutex : Type 0 where
  pub handle : ℕ
  pub owner : ℕ
  pub depth : ℕ

abbrev pub thread_id_none : ℕ
thread_id_none = 0xffffffffffffffff

-- `namespace_lock` of source/namespace.c stands beside the context. Its two calls below ignore
-- their statuses, as the source does; a write lock call changes no field of the lock.
pub record AmlState (W : Type 0) : Type 0 where
  pub mutex : AmlMutex
  pub context : Context W
  pub namespace_lock : RwLock

module _ {W : Type 0} (h : LockHost W) (f : Firmware W) where
  abbrev in_world : Context W → W → Context W
  in_world c w = record c { world = w }

  namespace_write_unlock : AmlState W → AmlState W
  namespace_write_unlock s = record s {
    context = in_world s.context (rw_unlock_write h s.namespace_lock s.context.world).2;
  }

  namespace_write_lock : AmlState W → AmlState W
  namespace_write_lock s = record s {
    context = in_world s.context (rw_lock_write h s.namespace_lock s.context.world).2;
  }

  pub this_thread_owns_aml_mutex : AmlState W → Bool
  this_thread_owns_aml_mutex s = s.mutex.owner == h.thread_id s.context.world

  -- After the kernel's mutex: the firmware's part for the global lock, and its error return.
  claim : ℕ → ℕ → AmlState W → Status × AmlState W
  claim spins this_id s =
      let owned = record s.mutex { owner = this_id; depth = 1 } in
      let (ret, c) = acquire_from_firmware_n h f spins s.context in
      if s.mutex.handle == s.context.mutex_handle
      then (elim ret [
        | ok ↦ (ok, record s { context = c; mutex = owned })
        | err e ↦
            (err e, record s { context = in_world c (release_native h s.mutex.handle c.world).1 })
      ])
      else (ok, record s { mutex = owned })

  wait_and_claim : ℕ → ℕ → ℕ → AmlState W → Status × AmlState W
  unfolding claim
  wait_and_claim spins timeout this_id s =
      let (ret, w) = acquire_native_with_timeout h s.mutex.handle timeout s.context.world in
      let s' = record s { context = in_world s.context w } in
      elim ret [ ok ↦ claim spins this_id s' | err e ↦ (err e, s') ]

  -- `out:`.
  relock : Status × AmlState W → Status × AmlState W
  unfolding namespace_write_lock
  relock (ret, s) = (ret, namespace_write_lock s)

  -- The depth is a `uacpi_u16`; the first branch tests it before it grows.
  pub acquire_aml_mutex_n : ℕ → ℕ → AmlState W → Status × AmlState W
  unfolding wait_and_claim relock namespace_write_unlock
  acquire_aml_mutex_n spins timeout s =
      let this_id = h.thread_id s.context.world in
      if s.mutex.owner == this_id
      then (if s.mutex.depth == 0xffff
          then (err denied, s)
          else (ok, record s { mutex = record s.mutex { depth = s.mutex.depth + 1 } }))
      else relock (wait_and_claim spins timeout this_id (namespace_write_unlock s))

  pub acquire_aml_mutex : ℕ → AmlState W → Status × AmlState W
  acquire_aml_mutex timeout s = acquire_aml_mutex_n (max_spins h f) timeout s

  let_go : AmlState W → AmlState W
  let_go s =
      let c =
        if s.mutex.handle == s.context.mutex_handle
        then release_to_firmware h f s.context
        else s.context in
      record s {
        mutex = record s.mutex {
          owner = thread_id_none;
          depth = (s.mutex.depth + 2 ^ 16 - 1) % 2 ^ 16;
        };
        context = in_world c (release_native h s.mutex.handle c.world).1;
      }

  pub release_aml_mutex : AmlState W → Status × AmlState W
  unfolding let_go
  release_aml_mutex s =
      if ltb 1 s.mutex.depth
      then (ok, record s { mutex = record s.mutex { depth = s.mutex.depth - 1 } })
      else (ok, let_go s)
