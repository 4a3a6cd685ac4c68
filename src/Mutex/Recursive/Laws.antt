-- ===== src/Mutex/Recursive/Laws.antt =====
-- What the recursive lock of source/mutex.c promises.
use u_acpi.Base.{ℕ, zero, suc, ◌+◌, ◌-◌, ◌<◌, ◌^◌, ◌≡◌, ◌≢◌, sym, ok, arith}
use u_acpi.Host.{LockHost, LockLaws}
use u_acpi.Mutex.Native.{acquire_native, release_native}
use u_acpi.Mutex.Native.Laws.{
  acquire_native_ok, acquire_native_free, release_native_held, acquire_native-thread_id,
}
use u_acpi.Mutex.Recursive.{
  RecursiveLock, thread_id_none, recursive_lock_acquire, recursive_lock_release,
}

module _ {W : Type 0} (h : LockHost W) where
  -- `n` acquires, and `n` releases, in a row; each state is the lock and the world.
  pub acquires : ℕ → RecursiveLock × W → RecursiveLock × W
  acquires zero s = s
  acquires (suc n) (l, w) = let r = recursive_lock_acquire h l w in acquires n (r.1, r.2)

  pub releases : ℕ → RecursiveLock × W → RecursiveLock × W
  releases zero s = s
  releases (suc n) (l, w) = let r = recursive_lock_release h l w in releases n (r.1, r.2)

  acquires_nested :
      (n : ℕ) (l : RecursiveLock) (w : W)
      → l.owner ≡ h.thread_id w
      → l.depth + n < 2 ^ 64
      → acquires n (l, w) ≡ (record l { depth = l.depth + n }, w)
  unfolding acquires recursive_lock_acquire
  acquires_nested zero l w o b = ground arith
  acquires_nested (suc n) l w o b =
      ground (arith, acquires_nested n (record l { depth = l.depth + 1 }) w o)

  releases_all :
      (n : ℕ) (l : RecursiveLock) (w : W)
      → l.depth ≡ suc n
      → n < 2 ^ 64 - 1
      → releases (suc n) (l, w)
        ≡ (record l { depth = 0; owner = thread_id_none }, (release_native h l.mutex w).1)
  unfolding releases recursive_lock_release
  releases_all zero l w e b = ground arith
  releases_all (suc n) l w e b = ground (arith, releases_all n (record l { depth = suc n }) w)

module _ {W : Type 0} (h : LockHost W) (laws : LockLaws h) where
  first-acquire :
      (l : RecursiveLock) (w : W)
      → l.owner ≡ thread_id_none
      → h.thread_id w ≢ thread_id_none
      → (recursive_lock_acquire h l w).0 ≡ ok
      → ((acquire_native h l.mutex w).0 ≡ ok)
        × (recursive_lock_acquire h l w
            ≡ (ok, record l { owner = h.thread_id w; depth = 1 }, (acquire_native h l.mutex w).1))
  unfolding recursive_lock_acquire
  first-acquire l w o t e = ground arith

  -- A thread that does not own an idle lock acquires it `n + 1` times in a row: if the first
  -- acquire returns OK, the mutex was free and is held, the depth counts the calls, and as many
  -- releases give back the lock and every mutex as they were.
  pub releases-acquires :
      (n : ℕ) (l : RecursiveLock) (w : W)
      → l.owner ≡ thread_id_none
      → l.depth ≡ 0
      → h.thread_id w ≢ thread_id_none
      → n < 2 ^ 64 - 1
      → (recursive_lock_acquire h l w).0 ≡ ok
      → let s = acquires h (suc n) (l, w) in
        let t = releases h (suc n) s in
        (laws.held w l.mutex ≡ 0)
        × (laws.held s.1 l.mutex ≡ 1)
        × (s.0.depth ≡ suc n)
        × (t.0 ≡ l)
        × ((j : ℕ) → laws.held t.1 j ≡ laws.held w j)
  releases-acquires n l w o d t b e =
      let w1 = (acquire_native h l.mutex w).1 in
      let taken = record l { owner = h.thread_id w; depth = 1 } in
      let got = first-acquire l w o t e in
      let full = record taken { depth = 1 + n } in
      let s_eq : acquires h (suc n) (l, w) ≡ (full, w1) =
        unfold acquires in
        rw got.1 (
          acquires_nested h n taken w1 (sym (acquire_native-thread_id h laws l.mutex w))
            (omega arith)) in
      let t_eq : releases h (suc n) (full, w1)
          ≡ (record l { depth = 0; owner = thread_id_none }, (release_native h l.mutex w1).1) =
        releases_all h n full w1 (omega arith) b in
      rw (s_eq, t_eq)
        (
          (acquire_native_free h laws l.mutex w got.0).1,
          ground (arith, acquire_native_ok h laws l.mutex w l.mutex got.0),
          omega arith,
          ground arith,
          λ j. ground (
            arith,
            acquire_native_ok h laws l.mutex w j,
            acquire_native_free h laws l.mutex w,
            release_native_held h laws l.mutex w1 j,
          ),
        )
