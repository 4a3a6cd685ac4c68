-- ===== src/Event/Lock/Laws.antt =====
-- The calls' frame gives back `g_event_lock` as it was.
use u_acpi.Base.{
  ℕ, ◌+◌, ◌-◌, ◌^◌, ◌≤◌, ◌<◌, ◌≡◌, ◌≢◌, ◌⊎◌, inl, inr, ap, ◌∙◌, ◌%◌, Status, ok, ◌==◌,
  if◌then◌else◌, arith, Status-cases,
}
use u_acpi.Mutex.Recursive.{
  RecursiveLock, thread_id_none, recursive_lock_acquire, recursive_lock_release, first_acquire,
}
use u_acpi.Event.{EventHost, State}
use u_acpi.Event.Lock.{acquire_event_lock, release_event_lock, locked}

-- Idle, or held by the thread itself with room for one more acquisition.
abbrev pub IsReady : RecursiveLock → ℕ → Type 0
IsReady l thread =
    ((l.owner ≡ thread_id_none) × (l.depth ≡ 0))
    ⊎ ((l.owner ≡ thread) × (1 ≤ l.depth) × (l.depth < 2 ^ 64 - 1))

module _ {W : Type 0} (h : EventHost W) where
  abbrev taken : RecursiveLock → ℕ → RecursiveLock
  taken l thread =
      if l.owner == thread
      then (record l { depth = (l.depth + 1) % 2 ^ 64 })
      else (record l { owner = thread; depth = 1 })

  acquire-taken :
      (l : RecursiveLock) (w : W)
      → (recursive_lock_acquire h.locks l w).0 ≡ ok
      → (recursive_lock_acquire h.locks l w).1 ≡ taken l (h.locks.thread_id w)
  unfolding recursive_lock_acquire first_acquire
  acquire-taken l w e = ground arith

  release-taken :
      (l : RecursiveLock) (thread : ℕ) (w : W)
      → IsReady l thread
      → (recursive_lock_release h.locks (taken l thread) w).1 ≡ l
  unfolding recursive_lock_release
  release-taken l thread w (inl i) = ground arith
  release-taken l thread w (inr i) = ground arith

  acquire_err :
      (l : RecursiveLock) (w : W)
      → (recursive_lock_acquire h.locks l w).0 ≢ ok
      → (recursive_lock_acquire h.locks l w).1 ≡ l
  unfolding recursive_lock_acquire first_acquire
  acquire_err l w n = ground arith

  abbrev pub Keeps : {A : Type 0} → (State W → A × State W) → Type 0
  Keeps f = (t : State W) → (f t).1.event_lock ≡ t.event_lock

  pub locked-event_lock :
      (body : State W → Status × State W) (s : State W)
      → IsReady s.event_lock (h.locks.thread_id s.world)
      → Keeps body
      → (locked h body s).1.event_lock ≡ s.event_lock
  unfolding locked acquire_event_lock release_event_lock
  locked-event_lock body s i k =
      let r = recursive_lock_acquire h.locks s.event_lock s.world in
      let s1 : State W = record s { event_lock = r.1; world = r.2 } in
      elim (Status-cases r.0) [
        | inl e ↦
            let s2 = (body s1).1 in
            let l : s2.event_lock ≡ taken s.event_lock (h.locks.thread_id s.world) =
              k s1 ∙ acquire-taken s.event_lock s.world e in
            rw (locked, e)
              (ap (λ (m : RecursiveLock). (recursive_lock_release h.locks m s2.world).1) l
                ∙ release-taken s.event_lock (h.locks.thread_id s.world) s2.world i)
        | inr (x, e) ↦ rw (locked, e) (acquire_err s.event_lock s.world (ground arith))
      ]
