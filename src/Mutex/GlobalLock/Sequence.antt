-- ===== src/Mutex/GlobalLock/Sequence.antt =====
-- The sequence numbers of the global lock in source/mutex.c.
use u_acpi.Base.{
  ℕ, ◌+◌, ◌≤◌, ◌≡◌, ◌≢◌, Bool, true, false, some, ok, err, invalid_argument, ◌⊎◌, arith,
  if◌then◌else◌, ◌==◌,
}
use u_acpi.Host.{LockHost, LockLaws}
use u_acpi.Mutex.Native.{acquire_native_with_timeout}
use u_acpi.Mutex.Native.Laws.{
  with_timeout_ok, with_timeout_free, with_timeout_fail, release_native_held,
}
use u_acpi.Mutex.GlobalLock.{
  acquire_from_firmware_n, Context, Firmware, acquire_global_lock_n, release_global_lock,
  release_to_firmware,
}
use u_acpi.Mutex.GlobalLock.Handshake.{
  acquire_from_firmware-SameLock, acquire_from_firmware-held, FirmwareLaws,
}

module _ {W : Type 0} (h : LockHost W) (f : Firmware W) where
  acquired_state :
      (spins timeout seq : ℕ) (out_is_null : Bool) (c c' : Context W)
      → acquire_global_lock_n h f spins timeout out_is_null c ≡ (ok, some seq, c')
      → (c'.seq_num ≡ seq + 1) × (c'.acquired ≡ true) × (1 ≤ c'.init_level)
  unfolding acquire_global_lock_n
  acquired_state spins timeout seq out_is_null c c' e = ground (
    arith,
    acquire_from_firmware-SameLock h f spins
        (record c { world = (acquire_native_with_timeout h c.mutex_handle timeout c.world).1 }),
  )

  -- The number that a successful acquire hands out never releases the lock: the counter was moved
  -- on, so the release returns INVALID_ARGUMENT and changes nothing.
  pub release-acquire_rejects :
      (spins timeout seq : ℕ) (out_is_null : Bool) (c c' : Context W)
      → acquire_global_lock_n h f spins timeout out_is_null c ≡ (ok, some seq, c')
      → release_global_lock h f seq c' ≡ (err invalid_argument, c')
  unfolding release_global_lock
  release-acquire_rejects spins timeout seq out_is_null c c' e =
      ground (arith, acquired_state spins timeout seq out_is_null c c' e)

module _ {W : Type 0} (h : LockHost W) (laws : LockLaws h) (f : Firmware W)
    (firmware : FirmwareLaws f laws.held) where
  pub release_to_firmware-held :
      (c : Context W) (j : ℕ) → laws.held (release_to_firmware h f c).world j ≡ laws.held c.world j
  unfolding release_to_firmware
  release_to_firmware-held c j =
      ground (arith, firmware.stores_held c.world j, firmware.signal_held (f.stores c.world).1 j)

  release_to_firmware-keeps :
      (c : Context W)
      → ((release_to_firmware h f c).mutex_handle ≡ c.mutex_handle)
        × ((release_to_firmware h f c).acquired ≡ c.acquired)
  unfolding release_to_firmware
  release_to_firmware-keeps c = ground arith

  -- What `uacpi_acquire_global_lock` does to the set of acquired mutexes: on OK it has gained the
  -- global lock's mutex, which was free, and with any other status it is what it was.
  pub acquire_global_lock-held :
      (spins timeout : ℕ) (out_is_null : Bool) (c : Context W) (j : ℕ)
      → let r = acquire_global_lock_n h f spins timeout out_is_null c in
        ((r.0 ≡ ok)
          × (laws.held c.world c.mutex_handle ≡ 0)
          × (laws.held r.2.world j ≡ (if c.mutex_handle == j then 1 else laws.held c.world j)))
        ⊎ (r.0 ≢ ok) × (laws.held r.2.world j ≡ laws.held c.world j)
  unfolding acquire_global_lock_n
  acquire_global_lock-held spins timeout out_is_null c j =
      let w = (acquire_native_with_timeout h c.mutex_handle timeout c.world).1 in
      let c1 = record c { world = w } in
      let c2 = (acquire_from_firmware_n h f spins c1).1 in
      ground (
        arith,
        with_timeout_ok h laws c.mutex_handle timeout c.world j,
        with_timeout_free h laws c.mutex_handle timeout c.world,
        with_timeout_fail h laws c.mutex_handle timeout c.world j,
        acquire_from_firmware-SameLock h f spins c1,
        acquire_from_firmware-held h laws f firmware spins c1 j,
        release_native_held h laws c2.mutex_handle c2.world j,
      )

  -- A release with the counter's present value, of a lock that was acquired, returns OK and gives
  -- the mutex back; with any other number it returns INVALID_ARGUMENT and changes nothing.
  pub release_global_lock_lem :
      (seq : ℕ) (c : Context W) (j : ℕ)
      → 1 ≤ c.init_level
      → c.acquired ≡ true
      → c.mutex_handle ≢ 0
      → let r = release_global_lock h f seq c in
        ((seq ≡ c.seq_num)
          × (r.0 ≡ ok)
          × (r.1.acquired ≡ false)
          × (laws.held r.1.world j ≡ (if c.mutex_handle == j then 0 else laws.held c.world j)))
        ⊎ (seq ≢ c.seq_num) × (r ≡ (err invalid_argument, c))
  unfolding release_global_lock
  release_global_lock_lem seq c j l a p =
      let c1 = release_to_firmware h f (record c { acquired = false }) in
      ground (
        arith,
        release_to_firmware-held (record c { acquired = false }) j,
        release_to_firmware-keeps (record c { acquired = false }),
        release_native_held h laws c1.mutex_handle c1.world j,
      )
