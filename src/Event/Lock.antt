-- ===== src/Event/Lock.antt =====
-- source/event.c: the calls' common frame, which holds `g_event_lock` around a body; `goto out`
-- is a body that returns.
pub mod Laws
use u_acpi.Base.{ℕ, Status, ok, err, Error, init_level_mismatch, ltb, if◌then◌else◌}
use u_acpi.Mutex.Recursive.{RecursiveLock, recursive_lock_acquire, recursive_lock_release}
use u_acpi.Event.{EventHost, State}

-- UACPI_ENSURE_INIT_LEVEL_AT_LEAST(UACPI_INIT_LEVEL_NAMESPACE_LOADED).
abbrev pub loaded : {W : Type 0} → State W → Status × State W → Status × State W
loaded s r = if ltb s.init_level 2 then (err init_level_mismatch, s) else r

module _ {W : Type 0} (h : EventHost W) where
  unfoldable pub acquire_event_lock : State W → Status × State W
  acquire_event_lock s =
      let (ret, l, w) = recursive_lock_acquire h.locks s.event_lock s.world in
      (ret, record s { event_lock = l; world = w })

  unfoldable pub release_event_lock : State W → State W
  release_event_lock s =
      let (ret, l, w) = recursive_lock_release h.locks s.event_lock s.world in
      record s { event_lock = l; world = w }

  unfoldable pub locked : (State W → Status × State W) → State W → Status × State W
  unfolding acquire_event_lock release_event_lock
  locked body s =
      let (ret, s1) = acquire_event_lock s in
      let (ret', s2) = body s1 in
      elim ret [ ok ↦ (ret', release_event_lock s2) | err e ↦ (err e, s1) ]
