-- ===== src/Tests/World.antt =====
-- A kernel whose world is how often each mutex is held, for the tests.
use u_acpi.Base.{ℕ, ◌≡◌, refl, true, [], ok, err, Error, timeout, ◌==◌, if◌then◌else◌, arith}
use u_acpi.Host.{LockHost, LockLaws, MemoryHost, MemoryLaws, IoHost}
use u_acpi.Mutex.GlobalLock.{Firmware}
use u_acpi.Mutex.GlobalLock.Handshake.{FirmwareLaws}
use u_acpi.Registers.{SpinHost}

abbrev pub World : Type 0
World = ℕ → ℕ

abbrev pub all_free : World
all_free = λ j. 0

abbrev pub set : World → ℕ → ℕ → World
set w m v = λ j. if m == j then v else w j

abbrev pub locks : LockHost World
locks = record {
  create_mutex = λ w. (7, w);
  free_mutex = λ m w. w;
  acquire_mutex = λ m t w. if w m == 0 then (ok, set w m 1) else (err timeout, w);
  release_mutex = λ m w. set w m 0;
  thread_id = λ w. 5;
  wait_for_event = λ e t w. (true, w);
  lock_spinlock = λ l w. w;
  unlock_spinlock = λ l w. w;
}

pub locked :
    (m : ℕ) (t : ℕ) (w : World) (j : ℕ)
    → (locks.acquire_mutex m t w).0 ≡ ok
    → (locks.acquire_mutex m t w).1 j ≡ (if m == j then 1 else w j)
locked m t w j p = ground arith

pub locked_free : (m t : ℕ) (w : World) → (locks.acquire_mutex m t w).0 ≡ ok → w m ≡ 0
locked_free m t w p = ground arith

pub not_locked :
    (m t : ℕ) (w : World) (e : Error) (j : ℕ)
    → (locks.acquire_mutex m t w).0 ≡ err e
    → (locks.acquire_mutex m t w).1 j ≡ w j
not_locked m t w e j p = ground arith

abbrev pub lock_laws : LockLaws locks
lock_laws = record {
  held = λ w j. w j;
  acquire_ok = locked;
  acquire_free = locked_free;
  acquire_err = not_locked;
  release_held = λ m w j. refl;
  acquire-thread_id = λ m t w. refl;
  release-thread_id = λ m w. refl;
  wait_held = λ e t w j. refl;
  lock_spinlock_held = λ l w j. refl;
  unlock_spinlock_held = λ l w j. refl;
}

abbrev pub blocks_of_memory : MemoryHost World
blocks_of_memory = record { alloc = λ n w. (true, w); free = λ n w. w }

abbrev pub memory_laws : MemoryLaws blocks_of_memory (λ w j. w j)
memory_laws = record { alloc_held = λ n w j. refl; free_held = λ n w j. refl }

-- Firmware that leaves the lock alone, and lets go of it when it is waited for.
abbrev pub quiet_firmware : Firmware World
quiet_firmware = record { stores = λ w. ([], w); wakes = λ w word. (0, w); signal_release = λ w. w }

abbrev pub firmware_laws : FirmwareLaws quiet_firmware (λ w j. w j)
firmware_laws = record {
  stores_lt = λ w. tt;
  wakes_lt = λ w word. omega arith;
  stores_held = λ w j. refl;
  wakes_held = λ w word j. refl;
  signal_held = λ w j. refl;
}

abbrev pub ports : IoHost World
ports = record {
  io_map = λ a n w. (ok, 3, w);
  io_unmap = λ h w. w;
  io_read = λ h o n w. (ok, w h, w);
  io_write = λ h o n v w. (ok, set w h v);
  map_memory = λ a n w. (a, w);
  unmap_memory = λ p n w. w;
  load = λ p n w. (w p, w);
  store = λ p n v w. set w p v;
}

abbrev pub spins : SpinHost World
spins = record {
  create_spinlock = λ w. (9, w);
  free_spinlock = λ l w. w;
  lock = λ l w. w;
  unlock = λ l w. w;
}
