-- ===== src/Mutex/RwLock.antt =====
-- source/mutex.c: `struct uacpi_rw_lock`, a lock for many readers or one writer over two mutexes.
pub mod Laws
use u_acpi.Base.{ℕ, ◌+◌, ◌-◌, ◌%◌, ◌^◌, Status, ok, err, out_of_memory, ◌==◌, if◌then◌else◌}
use u_acpi.Host.{LockHost}
use u_acpi.Mutex.Native.{acquire_native, release_native}

pub record RwLock : Type 0 where
  pub read_mutex : ℕ
  pub write_mutex : ℕ
  pub num_readers : ℕ

module _ {W : Type 0} (h : LockHost W) where
  pub rw_lock_init : RwLock → W → Status × RwLock × W
  rw_lock_init l w =
      let (read, w1) = h.create_mutex w in
      let (write, w2) = h.create_mutex w1 in
      if read == 0
      then (err out_of_memory, record l { read_mutex = 0 }, w1)
      else (if write == 0
          then (
            err out_of_memory,
            record l { read_mutex = 0; write_mutex = 0 },
            h.free_mutex read w2,
          )
          else (ok, record { read_mutex = read; write_mutex = write; num_readers = 0 }, w2))

  free_unless_null : ℕ → W → W
  free_unless_null m w = if m == 0 then w else h.free_mutex m w

  pub rw_lock_deinit : RwLock → W → Status × RwLock × W
  unfolding free_unless_null
  rw_lock_deinit l w = (
    ok,
    record { read_mutex = 0; write_mutex = 0; num_readers = 0 },
    free_unless_null l.write_mutex (free_unless_null l.read_mutex w),
  )

  -- The count is a 64-bit `uacpi_size`.
  first_reader : RwLock → W → Status × RwLock × W
  first_reader l w =
      let (ret, w') = acquire_native h l.write_mutex w in
      elim ret [
        | ok ↦ (ok, record l { num_readers = 1 }, w')
        | err e ↦ (err e, record l { num_readers = 0 }, w')
      ]

  enter_read : RwLock → W → Status × RwLock × W
  unfolding first_reader
  enter_read l w =
      if l.num_readers == 0
      then first_reader l w
      else (ok, record l { num_readers = (l.num_readers + 1) % 2 ^ 64 }, w)

  unlock_read_mutex : Status × RwLock × W → Status × RwLock × W
  unlock_read_mutex (ret, l, w) = (ret, l, h.release_mutex l.read_mutex w)

  pub rw_lock_read : RwLock → W → Status × RwLock × W
  unfolding enter_read unlock_read_mutex
  rw_lock_read l w =
      let (ret, w') = acquire_native h l.read_mutex w in
      elim ret [ ok ↦ unlock_read_mutex (enter_read l w') | err e ↦ (err e, l, w') ]

  leave_read : RwLock → W → Status × RwLock × W
  leave_read l w = (
    ok,
    record l { num_readers = (l.num_readers + 2 ^ 64 - 1) % 2 ^ 64 },
    if l.num_readers == 1 then (release_native h l.write_mutex w).1 else w,
  )

  pub rw_unlock_read : RwLock → W → Status × RwLock × W
  unfolding leave_read unlock_read_mutex
  rw_unlock_read l w =
      let (ret, w') = acquire_native h l.read_mutex w in
      elim ret [ ok ↦ unlock_read_mutex (leave_read l w') | err e ↦ (err e, l, w') ]

  pub rw_lock_write : RwLock → W → Status × RwLock × W
  rw_lock_write l w = let (ret, w') = acquire_native h l.write_mutex w in (ret, l, w')

  pub rw_unlock_write : RwLock → W → Status × RwLock × W
  rw_unlock_write l w = let (ret, w') = release_native h l.write_mutex w in (ret, l, w')
