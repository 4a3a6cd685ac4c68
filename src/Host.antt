-- ===== src/Host.antt =====
-- include/uacpi/kernel_api.h: what the embedding kernel implements, as operations on a world `W`
-- that the library never looks into. A handle is a number, and UACPI_NULL is 0.
use u_acpi.Base.{ℕ, ◌≡◌, Bool, Status, ok, err, Error, ◌==◌, if◌then◌else◌}

pub record LockHost (W : Type 0) : Type 0 where
  pub create_mutex : W → ℕ × W
  pub free_mutex : ℕ → W → W
  pub acquire_mutex : ℕ → ℕ → W → Status × W
  pub release_mutex : ℕ → W → W
  pub thread_id : W → ℕ
  pub wait_for_event : ℕ → ℕ → W → Bool × W
  pub lock_spinlock : ℕ → W → W
  pub unlock_spinlock : ℕ → W → W

-- What the comments of kernel_api.h promise. `held w m` says how often mutex `m` has been acquired
-- and not yet released; mutexes are not recursive, so an acquired one was free.
pub record LockLaws {W : Type 0} (h : LockHost W) : Type 0 where
  pub held : W → ℕ → ℕ
  pub acquire_ok :
      (m t : ℕ) (w : W) (j : ℕ)
      → (h.acquire_mutex m t w).0 ≡ ok
      → held (h.acquire_mutex m t w).1 j ≡ (if m == j then 1 else held w j)
  pub acquire_free : (m t : ℕ) (w : W) → (h.acquire_mutex m t w).0 ≡ ok → held w m ≡ 0
  pub acquire_err :
      (m t : ℕ) (w : W) (e : Error) (j : ℕ)
      → (h.acquire_mutex m t w).0 ≡ err e
      → held (h.acquire_mutex m t w).1 j ≡ held w j
  pub release_held :
      (m : ℕ) (w : W) (j : ℕ) → held (h.release_mutex m w) j ≡ (if m == j then 0 else held w j)
  pub acquire-thread_id : (m t : ℕ) (w : W) → h.thread_id (h.acquire_mutex m t w).1 ≡ h.thread_id w
  pub release-thread_id : (m : ℕ) (w : W) → h.thread_id (h.release_mutex m w) ≡ h.thread_id w
  pub wait_held : (e t : ℕ) (w : W) (j : ℕ) → held (h.wait_for_event e t w).1 j ≡ held w j
  pub lock_spinlock_held : (l : ℕ) (w : W) (j : ℕ) → held (h.lock_spinlock l w) j ≡ held w j
  pub unlock_spinlock_held : (l : ℕ) (w : W) (j : ℕ) → held (h.unlock_spinlock l w) j ≡ held w j

-- Allocation, by size; the answer says whether there was memory.
pub record MemoryHost (W : Type 0) : Type 0 where
  pub alloc : ℕ → W → Bool × W
  pub free : ℕ → W → W

-- Allocation touches no mutex.
pub record MemoryLaws {W : Type 0} (m : MemoryHost W) (held : W → ℕ → ℕ) : Type 0 where
  pub alloc_held : (n : ℕ) (w : W) (j : ℕ) → held (m.alloc n w).1 j ≡ held w j
  pub free_held : (n : ℕ) (w : W) (j : ℕ) → held (m.free n w) j ≡ held w j

-- Ports and physical memory. `load` and `store` are the volatile accesses through a mapped pointer.
pub record IoHost (W : Type 0) : Type 0 where
  pub io_map : ℕ → ℕ → W → Status × ℕ × W
  pub io_unmap : ℕ → W → W
  pub io_read : ℕ → ℕ → ℕ → W → Status × ℕ × W
  pub io_write : ℕ → ℕ → ℕ → ℕ → W → Status × W
  pub map_memory : ℕ → ℕ → W → ℕ × W
  pub unmap_memory : ℕ → ℕ → W → W
  pub load : ℕ → ℕ → W → ℕ × W
  pub store : ℕ → ℕ → ℕ → W → W
