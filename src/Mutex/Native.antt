-- ===== src/Mutex/Native.antt =====
-- include/uacpi/internal/mutex.h, and the timed acquire of source/mutex.c: the kernel's mutexes
-- behind a test for UACPI_NULL. Logging is left out.
pub mod Laws
use u_acpi.Base.{ℕ, Status, ok, err, invalid_argument, ◌==◌, if◌then◌else◌}
use u_acpi.Host.{LockHost}

module _ {W : Type 0} (h : LockHost W) where
  unfoldable pub acquire_native : ℕ → W → Status × W
  acquire_native m w = if m == 0 then (err invalid_argument, w) else h.acquire_mutex m 0xffff w

  unfoldable pub release_native : ℕ → W → Status × W
  release_native m w = if m == 0 then (err invalid_argument, w) else (ok, h.release_mutex m w)

  unfoldable pub acquire_native_may_be_null : ℕ → W → Status × W
  acquire_native_may_be_null m w = if m == 0 then (ok, w) else h.acquire_mutex m 0xffff w

  unfoldable pub release_native_may_be_null : ℕ → W → Status × W
  release_native_may_be_null m w = if m == 0 then (ok, w) else (ok, h.release_mutex m w)

  unfoldable pub acquire_native_with_timeout : ℕ → ℕ → W → Status × W
  acquire_native_with_timeout m t w =
      if m == 0 then (err invalid_argument, w) else h.acquire_mutex m t w
