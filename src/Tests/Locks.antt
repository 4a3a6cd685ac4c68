-- ===== src/Tests/Locks.antt =====
-- Concrete runs of source/mutex.c, source/shareable.c and the strings.
use u_acpi.Base.{
  ℕ, suc, ◌%◌, ◌≡◌, ◌≢◌, ◌⊎◌, refl, true, false, some, List, [], ◌∷◌, ◌++◌, ok, err,
  invalid_argument, hardware_timeout, ◌==◌, if◌then◌else◌, arith,
}
use u_acpi.Mutex.Native.{acquire_native_with_timeout}
use u_acpi.Mutex.RwLock.{RwLock, rw_lock_read}
use u_acpi.Mutex.RwLock.Laws.{Enters, mode, IsRwLock, rw_lock_read-mode}
use u_acpi.Mutex.Recursive.{RecursiveLock}
use u_acpi.Mutex.GlobalLock.{
  Context, cmpxchg_loop, claimed, try_acquire, acquire_from_firmware_n, acquire_global_lock_n,
  release_global_lock, take_from_firmware, spin, attempt, taken, not_taken, was_owned,
}
use u_acpi.Mutex.GlobalLock.Handshake.{acquire_from_firmware_lem}
use u_acpi.Mutex.GlobalLock.Sequence.{release-acquire_rejects}
use u_acpi.Mutex.Aml.{AmlState, acquire_aml_mutex_n, thread_id_none}
use u_acpi.Mutex.Aml.Laws.{acquire_aml_mutex-held}
use u_acpi.Shareable.{init}
use u_acpi.Shareable.Laws.{run, references, run-StaysAlive}
use u_acpi.Tests.World.{World, all_free, set, locks, lock_laws, quiet_firmware, firmware_laws}

abbrev lock : RwLock
lock = record { read_mutex = 1; write_mutex = 2; num_readers = 0 }

abbrev read_lock : RwLock
read_lock = record { read_mutex = 1; write_mutex = 2; num_readers = 1 }

abbrev write_held : World
write_held = set all_free 2 1

lock-IsRwLock : IsRwLock locks lock_laws lock all_free
lock-IsRwLock = record {
  read_created = ground arith;
  write_created = ground arith;
  mutexes_differ = ground arith;
  read_idle = refl;
  readers_hold = ground arith;
  readers_fit = ground arith;
}

read_lock-IsRwLock : IsRwLock locks lock_laws read_lock write_held
read_lock-IsRwLock = record {
  read_created = ground arith;
  write_created = ground arith;
  mutexes_differ = ground arith;
  read_idle = refl;
  readers_hold = ground arith;
  readers_fit = ground arith;
}

written-IsRwLock : IsRwLock locks lock_laws lock write_held
written-IsRwLock = record {
  read_created = ground arith;
  write_created = ground arith;
  mutexes_differ = ground arith;
  read_idle = refl;
  readers_hold = ground arith;
  readers_fit = ground arith;
}

abbrev context : Context World
context = record {
  world = all_free;
  init_level = 1;
  has_global_lock = true;
  lock_word = 0;
  pending = false;
  acquired = false;
  seq_num = 0;
  mutex_handle = 4;
  event = 6;
  spinlock = 8;
}

abbrev acquired_context : Context World
acquired_context = record context {
  world = set all_free 4 1;
  lock_word = 2;
  acquired = true;
  seq_num = 1;
}

abbrev aml_state : AmlState World
aml_state = record {
  mutex = record { handle = 4; owner = thread_id_none; depth = 0 };
  context = record context { world = write_held; mutex_handle = 3 };
  namespace_lock = lock;
}

abbrev owned_state : AmlState World
owned_state = record aml_state {
  mutex = record { handle = 4; owner = 5; depth = 1 };
  context = record context { world = set write_held 4 1; mutex_handle = 3 };
}

abbrev word : List ℕ
word = 65 ∷ []

abbrev longer_word : List ℕ
longer_word = 65 ∷ 66 ∷ []

abbrev recursive : RecursiveLock
recursive = record { mutex = 1; depth = 0; owner = 0xffffffffffffffff }

rw_lock_read-mode_example :
    let r = rw_lock_read locks lock all_free in
    IsRwLock locks lock_laws r.1 r.2
    × ((r.0 ≡ ok) × Enters (mode locks lock_laws lock all_free) (mode locks lock_laws r.1 r.2)
        ⊎ (r.0 ≢ ok) × (mode locks lock_laws r.1 r.2 ≡ mode locks lock_laws lock all_free))
rw_lock_read-mode_example =
    rw_lock_read-mode locks lock_laws lock all_free lock-IsRwLock (omega arith)

acquire_aml_mutex-held_example :
    let r = acquire_aml_mutex_n locks quiet_firmware 3 0xffff aml_state in
    ((r.0 ≡ ok)
      × (lock_laws.held aml_state.context.world aml_state.mutex.handle ≡ 0)
      × (r.1.mutex
          ≡ record aml_state.mutex { owner = locks.thread_id aml_state.context.world; depth = 1 })
      × (lock_laws.held r.1.context.world 4
          ≡ (if aml_state.mutex.handle == 4 then 1 else lock_laws.held aml_state.context.world 4)))
    ⊎ (r.0 ≢ ok)
      × (r.1.mutex ≡ aml_state.mutex)
      × (lock_laws.held r.1.context.world 4 ≡ lock_laws.held aml_state.context.world 4)
acquire_aml_mutex-held_example =
    acquire_aml_mutex-held locks lock_laws quiet_firmware firmware_laws 3 0xffff aml_state 4
      (ground arith) (ground arith) (ground arith) (ground arith)

acquire_from_firmware_lem_example :
    let r = acquire_from_firmware_n locks quiet_firmware 3 context in
    (r.1.pending ≡ false)
    × ((r.0 ≡ ok) × (r.1.lock_word % 4 ≡ 2)
        ⊎ (r.0 ≡ err hardware_timeout) × (r.1.lock_word % 4 ≡ 3))
acquire_from_firmware_lem_example =
    acquire_from_firmware_lem locks lock_laws quiet_firmware firmware_laws 3 context (omega arith)
      (omega arith) refl

release-acquire_rejects_example :
    release_global_lock locks quiet_firmware 0
      (acquire_global_lock_n locks quiet_firmware 3 0xffff false context).2
    ≡ (err invalid_argument, (acquire_global_lock_n locks quiet_firmware 3 0xffff false context).2)
unfolding acquire_global_lock_n take_from_firmware acquire_native_with_timeout
    acquire_from_firmware_n spin attempt try_acquire cmpxchg_loop claimed taken not_taken was_owned
release-acquire_rejects_example =
    release-acquire_rejects locks quiet_firmware 3 0xffff 0 false context
      (acquire_global_lock_n locks quiet_firmware 3 0xffff false context).2 (ground arith)

run-StaysAlive_example :
    (run suc (true ∷ false ∷ []) (some init, 0)
      ≡ (some (record { reference_count = references 1 (true ∷ false ∷ []) }), 0))
    × (references 1 (true ∷ false ∷ []) ≡ 1
        → (run suc ((true ∷ false ∷ []) ++ false ∷ []) (some init, 0)).1 ≡ suc 0)
run-StaysAlive_example = run-StaysAlive suc (true ∷ false ∷ []) 0 (ground arith)
