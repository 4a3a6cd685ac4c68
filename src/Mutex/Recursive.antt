-- ===== src/Mutex/Recursive.antt =====
-- source/mutex.c: `struct uacpi_recursive_lock`.
pub mod Laws
use u_acpi.Base.{ℕ, ◌+◌, ◌-◌, ◌%◌, ◌^◌, Status, ok, err, out_of_memory, ◌==◌, if◌then◌else◌, ltb}
use u_acpi.Host.{LockHost}
use u_acpi.Mutex.Native.{acquire_native, release_native}

pub record RecursiveLock : Type 0 where
  pub mutex : ℕ
  pub depth : ℕ
  pub owner : ℕ

-- UACPI_THREAD_ID_NONE, (uacpi_thread_id)-1 at 64 bits.
abbrev pub thread_id_none : ℕ
thread_id_none = 0xffffffffffffffff

module _ {W : Type 0} (h : LockHost W) where
  pub recursive_lock_init : RecursiveLock → W → Status × RecursiveLock × W
  recursive_lock_init l w =
      let (mutex, w') = h.create_mutex w in
      if mutex == 0
      then (err out_of_memory, record l { mutex = 0 }, w')
      else (ok, record { mutex = mutex; owner = thread_id_none; depth = 0 }, w')

  pub recursive_lock_deinit : RecursiveLock → W → Status × RecursiveLock × W
  recursive_lock_deinit l w = (
    ok,
    record { mutex = 0; owner = thread_id_none; depth = 0 },
    if l.mutex == 0 then w else h.free_mutex l.mutex w,
  )

  unfoldable pub first_acquire : RecursiveLock → W → Status × RecursiveLock × W
  first_acquire l w =
      let (ret, w') = acquire_native h l.mutex w in
      elim ret [
        | ok ↦ (ok, record l { owner = h.thread_id w; depth = 1 }, w')
        | err e ↦ (err e, l, w')
      ]

  -- The depth is a 64-bit `uacpi_size`.
  unfoldable pub recursive_lock_acquire : RecursiveLock → W → Status × RecursiveLock × W
  unfolding first_acquire
  recursive_lock_acquire l w =
      if l.owner == h.thread_id w
      then (ok, record l { depth = (l.depth + 1) % 2 ^ 64 }, w)
      else first_acquire l w

  unfoldable pub recursive_lock_release : RecursiveLock → W → Status × RecursiveLock × W
  recursive_lock_release l w =
      let depth = (l.depth + 2 ^ 64 - 1) % 2 ^ 64 in
      let (ret, w') = release_native h l.mutex w in
      if ltb 1 l.depth
      then (ok, record l { depth = depth }, w)
      else (ret, record l { depth = depth; owner = thread_id_none }, w')
