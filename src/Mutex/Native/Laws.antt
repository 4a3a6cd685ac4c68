-- ===== src/Mutex/Native/Laws.antt =====
-- How the wrappers of include/uacpi/internal/mutex.h move the set of acquired mutexes.
use u_acpi.Base.{
  ℕ, ◌≡◌, ◌≢◌, refl, inl, inr, Status-cases, ok, err, Error, ◌==◌, if◌then◌else◌, arith,
}
use u_acpi.Host.{LockHost, LockLaws}
use u_acpi.Mutex.Native.{acquire_native, release_native, acquire_native_with_timeout}

module _ {W : Type 0} (h : LockHost W) (laws : LockLaws h) where
  open laws use {held, acquire_ok, acquire_free, acquire_err, release_held}

  pub with_timeout_ok :
      (m t : ℕ) (w : W) (j : ℕ)
      → (acquire_native_with_timeout h m t w).0 ≡ ok
      → held (acquire_native_with_timeout h m t w).1 j ≡ (if m == j then 1 else held w j)
  unfolding acquire_native_with_timeout
  with_timeout_ok m t w j e = ground (arith, acquire_ok m t w j)

  pub with_timeout_free :
      (m t : ℕ) (w : W) → (acquire_native_with_timeout h m t w).0 ≡ ok → (m ≢ 0) × (held w m ≡ 0)
  unfolding acquire_native_with_timeout
  with_timeout_free m t w e = ground (arith, acquire_free m t w)

  pub with_timeout_err :
      (m t : ℕ) (w : W) (e : Error) (j : ℕ)
      → (acquire_native_with_timeout h m t w).0 ≡ err e
      → held (acquire_native_with_timeout h m t w).1 j ≡ held w j
  unfolding acquire_native_with_timeout
  with_timeout_err m t w e j p = ground (arith, acquire_err m t w e j)

  acquire_native_infinite :
      (m : ℕ) (w : W) → acquire_native h m w ≡ acquire_native_with_timeout h m 0xffff w
  unfolding acquire_native acquire_native_with_timeout
  acquire_native_infinite m w = refl

  pub acquire_native_ok :
      (m : ℕ) (w : W) (j : ℕ)
      → (acquire_native h m w).0 ≡ ok
      → held (acquire_native h m w).1 j ≡ (if m == j then 1 else held w j)
  unfolding acquire_native
  acquire_native_ok m w j e = ground (arith, acquire_ok m 0xffff w j)

  pub acquire_native_free :
      (m : ℕ) (w : W) → (acquire_native h m w).0 ≡ ok → (m ≢ 0) × (held w m ≡ 0)
  unfolding acquire_native
  acquire_native_free m w e = ground (arith, acquire_free m 0xffff w)

  pub acquire_native_err :
      (m : ℕ) (w : W) (e : Error) (j : ℕ)
      → (acquire_native h m w).0 ≡ err e
      → held (acquire_native h m w).1 j ≡ held w j
  unfolding acquire_native
  acquire_native_err m w e j p = ground (arith, acquire_err m 0xffff w e j)

  -- With a mutex at hand the release does what the kernel's does.
  pub release_native_held :
      (m : ℕ) (w : W) (j : ℕ)
      → m ≢ 0
      → held (release_native h m w).1 j ≡ (if m == j then 0 else held w j)
  unfolding release_native
  release_native_held m w j p = ground (arith, release_held m w j)

  -- Acquiring and releasing leaves what is held as it was.
  pub held-release-acquire :
      (m : ℕ) (w w' : W) (j : ℕ)
      → (acquire_native h m w).0 ≡ ok
      → ((i : ℕ) → held w' i ≡ held (acquire_native h m w).1 i)
      → held (release_native h m w').1 j ≡ held w j
  held-release-acquire m w w' j e same = ground (
    arith,
    release_native_held m w' j,
    acquire_native_ok m w j e,
    acquire_native_free m w e,
    same j,
  )

  -- The same, for any status but OK.
  pub with_timeout_fail :
      (m t : ℕ) (w : W) (j : ℕ)
      → (acquire_native_with_timeout h m t w).0 ≢ ok
      → held (acquire_native_with_timeout h m t w).1 j ≡ held w j
  with_timeout_fail m t w j p = elim (Status-cases (acquire_native_with_timeout h m t w).0) [
    | inl q ↦ absurd (p q)
    | inr (e, q) ↦ with_timeout_err m t w e j q
  ]

  pub acquire_native_fail :
      (m : ℕ) (w : W) (j : ℕ)
      → (acquire_native h m w).0 ≢ ok
      → held (acquire_native h m w).1 j ≡ held w j
  acquire_native_fail m w j p = elim (Status-cases (acquire_native h m w).0) [
    | inl q ↦ absurd (p q)
    | inr (e, q) ↦ acquire_native_err m w e j q
  ]

  pub acquire_native-thread_id :
      (m : ℕ) (w : W) → h.thread_id (acquire_native h m w).1 ≡ h.thread_id w
  unfolding acquire_native
  acquire_native-thread_id m w = ground (arith, laws.acquire-thread_id m 0xffff w)

  pub with_timeout-thread_id :
      (m t : ℕ) (w : W) → h.thread_id (acquire_native_with_timeout h m t w).1 ≡ h.thread_id w
  unfolding acquire_native_with_timeout
  with_timeout-thread_id m t w = ground (arith, laws.acquire-thread_id m t w)
