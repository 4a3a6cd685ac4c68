-- ===== src/Mutex/RwLock/Laws.antt =====
-- What the readers-writer lock of source/mutex.c promises.
use u_acpi.Base.{ℕ, ◌+◌, ◌-◌, ◌≤◌, ◌<◌, ◌^◌, ◌≡◌, ◌≢◌, ◌⊎◌, ok, ◌==◌, if◌then◌else◌, arith}
use u_acpi.Host.{LockHost, LockLaws}
use u_acpi.Mutex.Native.{acquire_native, release_native}
use u_acpi.Mutex.Native.Laws.{
  acquire_native_ok, acquire_native_free, acquire_native_fail, release_native_held,
}
use u_acpi.Mutex.RwLock.{RwLock, rw_lock_read, rw_unlock_read, rw_lock_write, rw_unlock_write}

-- Who is inside, as a user of the lock sees it.
pub data Mode : Type 0 where
  nobody writer : Mode
  readers : ℕ → Mode

-- From the number of readers, and how often the write mutex is held.
abbrev pub mode_of : ℕ → ℕ → Mode
mode_of n held = if n == 0 then (if held == 0 then nobody else writer) else readers n

-- The moves that the lock allows: a reader comes in, or goes.
abbrev pub Enters : Mode → Mode → Type 0
Enters nobody (readers n) = n ≡ 1
Enters (readers n) (readers k) = k ≡ n + 1
Enters _ _ = ⊥

abbrev pub Leaves : Mode → Mode → Type 0
Leaves (readers n) nobody = n ≡ 1
Leaves (readers n) (readers k) = (1 < n) × (k ≡ n - 1)
Leaves _ _ = ⊥

module _ {W : Type 0} (h : LockHost W) (laws : LockLaws h) where
  open laws use {held, release_held}

  abbrev pub mode : RwLock → W → Mode
  mode l w = mode_of l.num_readers (held w l.write_mutex)

  -- Between two calls: the lock was created, nobody holds the read mutex, and the readers hold
  -- the write mutex together.
  pub record IsRwLock (l : RwLock) (w : W) : Type 0 where
    pub read_created : l.read_mutex ≢ 0
    pub write_created : l.write_mutex ≢ 0
    pub mutexes_differ : l.read_mutex ≢ l.write_mutex
    pub read_idle : held w l.read_mutex ≡ 0
    pub readers_hold : l.num_readers ≢ 0 → held w l.write_mutex ≢ 0
    pub readers_fit : l.num_readers < 2 ^ 64

  -- `uacpi_rw_lock_write` lets a writer in only where nobody is inside, and changes nothing with
  -- any status but OK.
  pub rw_lock_write-mode :
      (l : RwLock) (w : W)
      → IsRwLock l w
      → let r = rw_lock_write h l w in
        IsRwLock r.1 r.2
        × ((r.0 ≡ ok) × (mode l w ≡ nobody) × (mode r.1 r.2 ≡ writer)
            ⊎ (r.0 ≢ ok) × (mode r.1 r.2 ≡ mode l w))
  unfolding rw_lock_write
  rw_lock_write-mode l w v = ground (
    arith,
    acquire_native_ok h laws l.write_mutex w l.write_mutex,
    acquire_native_ok h laws l.write_mutex w l.read_mutex,
    acquire_native_free h laws l.write_mutex w,
    acquire_native_fail h laws l.write_mutex w l.write_mutex,
    acquire_native_fail h laws l.write_mutex w l.read_mutex,
  )

  -- `uacpi_rw_unlock_write` by the writer leaves nobody inside.
  pub rw_unlock_write-mode :
      (l : RwLock) (w : W)
      → IsRwLock l w
      → mode l w ≡ writer
      → let r = rw_unlock_write h l w in IsRwLock r.1 r.2 × (r.0 ≡ ok) × (mode r.1 r.2 ≡ nobody)
  unfolding rw_unlock_write release_native
  rw_unlock_write-mode l w v e = ground (
    arith,
    release_native_held h laws l.write_mutex w l.write_mutex,
    release_native_held h laws l.write_mutex w l.read_mutex,
  )

  -- `uacpi_rw_lock_read` with room in the counter: on OK one more reader is inside, and none comes
  -- in beside a writer; with any other status nothing has changed. The lock stays well formed.
  pub rw_lock_read-mode :
      (l : RwLock) (w : W)
      → IsRwLock l w
      → l.num_readers + 1 < 2 ^ 64
      → let r = rw_lock_read h l w in
        IsRwLock r.1 r.2
        × ((r.0 ≡ ok) × Enters (mode l w) (mode r.1 r.2) ⊎ (r.0 ≢ ok) × (mode r.1 r.2 ≡ mode l w))
  unfolding rw_lock_read
  rw_lock_read-mode l w v b =
      let w1 = (acquire_native h l.read_mutex w).1 in
      let w2 = (acquire_native h l.write_mutex w1).1 in
      ground (
        arith,
        acquire_native_ok h laws l.read_mutex w l.read_mutex,
        acquire_native_ok h laws l.read_mutex w l.write_mutex,
        acquire_native_fail h laws l.read_mutex w l.write_mutex,
        acquire_native_fail h laws l.read_mutex w l.read_mutex,
        acquire_native_ok h laws l.write_mutex w1 l.write_mutex,
        acquire_native_free h laws l.write_mutex w1,
        acquire_native_fail h laws l.write_mutex w1 l.write_mutex,
        release_held l.read_mutex w1 l.write_mutex,
        release_held l.read_mutex w2 l.write_mutex,
        release_held l.read_mutex w1 l.read_mutex,
        release_held l.read_mutex w2 l.read_mutex,
      )

  -- `uacpi_rw_unlock_read` by a reader: on OK one reader less is inside, and the last one leaves
  -- the lock to anybody; with any other status nothing has changed.
  pub rw_unlock_read-mode :
      (l : RwLock) (w : W)
      → IsRwLock l w
      → 1 ≤ l.num_readers
      → let r = rw_unlock_read h l w in
        IsRwLock r.1 r.2
        × ((r.0 ≡ ok) × Leaves (mode l w) (mode r.1 r.2) ⊎ (r.0 ≢ ok) × (mode r.1 r.2 ≡ mode l w))
  unfolding rw_unlock_read
  rw_unlock_read-mode l w v b =
      let w1 = (acquire_native h l.read_mutex w).1 in
      let w2 = (release_native h l.write_mutex w1).1 in
      ground (
        arith,
        acquire_native_ok h laws l.read_mutex w l.read_mutex,
        acquire_native_ok h laws l.read_mutex w l.write_mutex,
        acquire_native_fail h laws l.read_mutex w l.write_mutex,
        acquire_native_fail h laws l.read_mutex w l.read_mutex,
        release_native_held h laws l.write_mutex w1 l.write_mutex,
        release_held l.read_mutex w1 l.write_mutex,
        release_held l.read_mutex w2 l.write_mutex,
        release_held l.read_mutex w1 l.read_mutex,
        release_held l.read_mutex w2 l.read_mutex,
      )

  -- The write side of the lock moves its write mutex only.
  pub rw_lock_write-held :
      (l : RwLock) (w : W) (j : ℕ) → l.write_mutex ≢ j → held (rw_lock_write h l w).2 j ≡ held w j
  unfolding rw_lock_write
  rw_lock_write-held l w j p = ground (
    arith,
    acquire_native_ok h laws l.write_mutex w j,
    acquire_native_fail h laws l.write_mutex w j,
  )

  pub rw_unlock_write-held :
      (l : RwLock) (w : W) (j : ℕ)
      → l.write_mutex ≢ 0
      → l.write_mutex ≢ j
      → held (rw_unlock_write h l w).2 j ≡ held w j
  unfolding rw_unlock_write
  rw_unlock_write-held l w j q p = ground (arith, release_native_held h laws l.write_mutex w j)
