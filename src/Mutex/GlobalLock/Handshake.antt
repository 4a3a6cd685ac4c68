-- ===== src/Mutex/GlobalLock/Handshake.antt =====
-- The handshake with the firmware in source/mutex.c.
use u_acpi.Base.{
  ℕ, zero, suc, ◌+◌, ◌/◌, ◌*◌, ◌%◌, ◌^◌, ◌<◌, ◌≡◌, ◌↔◌, ◌⊎◌, ◌==◌, not, List, [], ◌∷◌, refl, true,
  false, ok, err, hardware_timeout, ◌∙◌, arith, if◌then◌else◌,
}
use u_acpi.Host.{LockHost, LockLaws}
use u_acpi.Mutex.GlobalLock.{
  Context, Firmware, attempt, wait, spin, acquire_from_firmware_n, cmpxchg_loop, claimed, was_owned,
  freed, try_acquire, do_release,
}
use u_acpi.Base.Bits.{and_clear_two, and_one, and_two, or_one, or_two}

-- The fields that the handshake with the firmware leaves alone.
pub record SameLock {W : Type 0} (c c' : Context W) : Type 0 where
  pub same_level : c'.init_level ≡ c.init_level
  pub same_presence : c'.has_global_lock ≡ c.has_global_lock
  pub same_seq_num : c'.seq_num ≡ c.seq_num
  pub same_acquired : c'.acquired ≡ c.acquired
  pub same_handle : c'.mutex_handle ≡ c.mutex_handle

module _ {W : Type 0} (h : LockHost W) (f : Firmware W) where
  spin-SameLock : (left : ℕ) (c : Context W) → SameLock c (spin h f left c).1
  unfolding spin
  spin-SameLock zero c = ground arith
  spin-SameLock (suc left) c =
      let c' = (attempt h f c).1 in
      ground (arith, spin-SameLock left (wait h f (record c' { pending = true })))

  pub acquire_from_firmware-SameLock :
      (spins : ℕ) (c : Context W) → SameLock c (acquire_from_firmware_n h f spins c).1
  unfolding acquire_from_firmware_n
  acquire_from_firmware-SameLock spins c =
      ground (arith, spin-SameLock spins (record c { world = h.lock_spinlock c.spinlock c.world }))

abbrev pub AllBelow : ℕ → List ℕ → Type 0
AllBelow n [] = Unit {0}
AllBelow n (x ∷ xs) = (x < n) × AllBelow n xs

-- The compare-and-exchange loop acts like one atomic step: it exchanges a value that the word held
-- for the function of that value.
pub cmpxchg_loop_atomic :
    (new : ℕ → ℕ) (stores : List ℕ) (word : ℕ)
    → (cmpxchg_loop new stores word word).1 ≡ new (cmpxchg_loop new stores word word).0
unfolding cmpxchg_loop
cmpxchg_loop_atomic new [] word = ground arith
cmpxchg_loop_atomic new (store ∷ stores) word = ground (arith, cmpxchg_loop_atomic new stores store)

cmpxchg_loop-lt :
    (new : ℕ → ℕ) (stores : List ℕ) (word n : ℕ)
    → word < n
    → AllBelow n stores
    → (cmpxchg_loop new stores word word).0 < n
unfolding cmpxchg_loop
cmpxchg_loop-lt new [] word n h a = ground arith
cmpxchg_loop-lt new (store ∷ stores) word n h a =
    ground (arith, cmpxchg_loop-lt new stores store n a.0 a.1)

claimed_lem :
    (v : ℕ)
    → v < 2 ^ 32
    → (claimed v ≡ v / 4 * 4 + (if was_owned v then 3 else 2))
      × (was_owned v ≡ not (v / 2 % 2 == 0))
unfolding claimed was_owned
claimed_lem v h = ground (arith, and_clear_two v h, and_two v, or_two (v / 4), or_one (v / 4))

-- Whatever the other side stores meanwhile, an attempt to take the lock leaves it owned; it
-- succeeds if the lock was not owned at the exchange, and otherwise leaves the pending bit set too.
-- The other 30 bits are those of a value that the word held.
pub try_acquire_lem :
    (stores : List ℕ) (word : ℕ)
    → word < 2 ^ 32
    → AllBelow (2 ^ 32) stores
    → let r = try_acquire stores word in
      let v = (cmpxchg_loop claimed stores word word).0 in
      (r.1 / 4 ≡ v / 4)
      × ((r.0 ≡ true) × (v / 2 % 2 ≡ 0) × (r.1 % 4 ≡ 2)
          ⊎ (r.0 ≡ false) × (v / 2 % 2 ≡ 1) × (r.1 % 4 ≡ 3))
unfolding try_acquire
try_acquire_lem stores word h a =
    let v = (cmpxchg_loop claimed stores word word).0 in
    ground (
      arith,
      cmpxchg_loop_atomic claimed stores word,
      claimed_lem v (cmpxchg_loop-lt claimed stores word (2 ^ 32) h a),
    )

-- A release clears both bits, and reports whether the pending bit was set at the exchange.
pub do_release_lem :
    (stores : List ℕ) (word : ℕ)
    → word < 2 ^ 32
    → AllBelow (2 ^ 32) stores
    → let r = do_release stores word in
      let v = (cmpxchg_loop freed stores word word).0 in
      (r.1 ≡ v / 4 * 4) × ((r.0 ≡ true) ↔ (v % 2 ≡ 1))
unfolding do_release freed
do_release_lem stores word h a =
    let v = (cmpxchg_loop freed stores word word).0 in
    ground (
      arith,
      cmpxchg_loop_atomic freed stores word,
      and_clear_two v (cmpxchg_loop-lt freed stores word (2 ^ 32) h a),
      and_one v,
    )

-- What is assumed of the firmware: the lock word has 32 bits, and no mutex is touched.
pub record FirmwareLaws {W : Type 0} (f : Firmware W) (held : W → ℕ → ℕ) : Type 0 where
  pub stores_lt : (w : W) → AllBelow (2 ^ 32) (f.stores w).0
  pub wakes_lt : (w : W) (word : ℕ) → (f.wakes w word).0 < 2 ^ 32
  pub stores_held : (w : W) (j : ℕ) → held (f.stores w).1 j ≡ held w j
  pub wakes_held : (w : W) (word j : ℕ) → held (f.wakes w word).1 j ≡ held w j
  pub signal_held : (w : W) (j : ℕ) → held (f.signal_release w) j ≡ held w j

module _ {W : Type 0} (h : LockHost W) (laws : LockLaws h) (f : Firmware W)
    (firmware : FirmwareLaws f laws.held) where
  attempt_lem :
      (c : Context W)
      → c.lock_word < 2 ^ 32
      → ((attempt h f c).0 ≡ true) × ((attempt h f c).1.lock_word % 4 ≡ 2)
        ⊎ ((attempt h f c).0 ≡ false) × ((attempt h f c).1.lock_word % 4 ≡ 3)
  unfolding attempt
  attempt_lem c b =
      ground
        (arith, try_acquire_lem (f.stores c.world).0 c.lock_word b (firmware.stores_lt c.world))

  wait-lt : (c : Context W) → (wait h f c).lock_word < 2 ^ 32
  unfolding wait
  wait-lt c = firmware.wakes_lt _ c.lock_word

  spin_lem :
      (left : ℕ) (c : Context W)
      → c.lock_word < 2 ^ 32
      → ((spin h f (suc left) c).0 ≡ true) × ((spin h f (suc left) c).1.lock_word % 4 ≡ 2)
        ⊎ ((spin h f (suc left) c).0 ≡ false) × ((spin h f (suc left) c).1.lock_word % 4 ≡ 3)
  unfolding spin
  spin_lem zero c b = ground (arith, attempt_lem c b)
  spin_lem (suc left) c b =
      let c' = record (attempt h f c).1 { pending = true } in
      ground (arith, attempt_lem c b, spin_lem left (wait h f c'), wait-lt c')

  -- With at least one attempt, and a lock that firmware shares: on OK the lock is owned and not
  -- pending; on HARDWARE_TIMEOUT, the only other status, it is owned and pending, as the firmware
  -- must see it; either way nobody is left waiting for it.
  pub acquire_from_firmware_lem :
      (spins : ℕ) (c : Context W)
      → 0 < spins
      → c.lock_word < 2 ^ 32
      → c.has_global_lock ≡ true
      → let r = acquire_from_firmware_n h f spins c in
        (r.1.pending ≡ false)
        × ((r.0 ≡ ok) × (r.1.lock_word % 4 ≡ 2)
            ⊎ (r.0 ≡ err hardware_timeout) × (r.1.lock_word % 4 ≡ 3))
  unfolding acquire_from_firmware_n
  acquire_from_firmware_lem zero c p b g = absurd (omega arith)
  acquire_from_firmware_lem (suc left) c p b g =
      ground (arith, spin_lem left (record c { world = h.lock_spinlock c.spinlock c.world }) b)

  attempt-held : (c : Context W) (j : ℕ) → laws.held (attempt h f c).1.world j ≡ laws.held c.world j
  unfolding attempt
  attempt-held c j = firmware.stores_held c.world j

  wait-held : (c : Context W) (j : ℕ) → laws.held (wait h f c).world j ≡ laws.held c.world j
  unfolding wait
  wait-held c j =
      let w = h.unlock_spinlock c.spinlock c.world in
      let w' = (h.wait_for_event c.event 0xffff w).1 in
      laws.lock_spinlock_held c.spinlock (f.wakes w' c.lock_word).1 j
      ∙ firmware.wakes_held w' c.lock_word j
      ∙ laws.wait_held c.event 0xffff w j
      ∙ laws.unlock_spinlock_held c.spinlock c.world j

  spin-held :
      (left : ℕ) (c : Context W) (j : ℕ)
      → laws.held (spin h f left c).1.world j ≡ laws.held c.world j
  unfolding spin
  spin-held zero c j = refl
  spin-held (suc left) c j =
      let c' = record (attempt h f c).1 { pending = true } in
      ground (arith, attempt-held c j, wait-held c' j, spin-held left (wait h f c') j)

  -- The handshake leaves every mutex as it was.
  pub acquire_from_firmware-held :
      (spins : ℕ) (c : Context W) (j : ℕ)
      → laws.held (acquire_from_firmware_n h f spins c).1.world j ≡ laws.held c.world j
  unfolding acquire_from_firmware_n
  acquire_from_firmware-held spins c j =
      let c0 = record c { world = h.lock_spinlock c.spinlock c.world } in
      let c1 = (spin h f spins c0).1 in
      ground (
        arith,
        laws.unlock_spinlock_held c1.spinlock c1.world j,
        spin-held spins c0 j,
        laws.lock_spinlock_held c.spinlock c.world j,
      )
