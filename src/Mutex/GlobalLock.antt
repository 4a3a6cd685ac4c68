-- ===== src/Mutex/GlobalLock.antt =====
-- source/mutex.c: the global lock, which the firmware shares. Its word in the FACS is `lock_word`,
-- bit 0 pending and bit 1 owned.
pub mod Handshake
pub mod Sequence
use u_acpi.Base.{
  ℕ, zero, suc, ◌+◌, ◌-◌, ◌/◌, ◌%◌, ◌^◌, Bool, true, false, not, List, [], ◌∷◌, Status, ok, err,
  Error, init_level_mismatch, invalid_argument, hardware_timeout, ◌==◌, if◌then◌else◌, ltb, bit_and,
  bit_or, ◌||◌, Option, none, some,
}
use u_acpi.Host.{LockHost}
use u_acpi.Mutex.Native.{acquire_native_with_timeout, release_native}

-- The fields of `g_uacpi_rt_ctx` that the lock uses, and the kernel's world.
pub record Context (W : Type 0) : Type 0 where
  pub world : W
  pub init_level : ℕ
  pub has_global_lock : Bool
  pub lock_word : ℕ
  pub pending : Bool
  pub acquired : Bool
  pub seq_num : ℕ
  pub mutex_handle : ℕ
  pub event : ℕ
  pub spinlock : ℕ

-- What the firmware and the hardware do. `stores` lists the values that others store into the lock
-- word during one compare-and-exchange loop, each before one attempt; `signal_release` writes
-- GBL_RLS.
pub record Firmware (W : Type 0) : Type 0 where
  pub stores : W → List ℕ × W
  pub wakes : W → ℕ → ℕ × W
  pub signal_release : W → W

abbrev pub pending_bit : ℕ
pending_bit = 1

abbrev pub owned_bit : ℕ
owned_bit = 2

-- ~GLOBAL_LOCK_MASK at 32 bits.
abbrev pub keep_mask : ℕ
keep_mask = 0xfffffffc

unfoldable pub was_owned : ℕ → Bool
was_owned value = not (bit_and value owned_bit / 2 == 0)

unfoldable pub claimed : ℕ → ℕ
unfolding was_owned
claimed value =
    let new_value = bit_or (bit_and value keep_mask) owned_bit in
    if was_owned value then bit_or new_value pending_bit else new_value

unfoldable pub freed : ℕ → ℕ
freed value = bit_and value keep_mask

-- The loops `do … while (!uacpi_atomic_cmpxchg32(lock, &value, new_value))`: `value` was read,
-- `memory` is the word now. An attempt succeeds if they agree, and reloads `value` if not. With no
-- store left the attempt after a reload succeeds. The answer is the value exchanged and the word
-- after it.
unfoldable pub cmpxchg_loop : (ℕ → ℕ) → List ℕ → ℕ → ℕ → ℕ × ℕ
cmpxchg_loop new [] value memory =
    if value == memory then (value, new value) else (memory, new memory)
cmpxchg_loop new (store ∷ stores) value memory =
    let retry = cmpxchg_loop new stores store store in
    if value == store then (value, new value) else retry

unfoldable pub try_acquire : List ℕ → ℕ → Bool × ℕ
unfolding cmpxchg_loop claimed
try_acquire stores word =
    let (value, word') = cmpxchg_loop claimed stores word word in (not (was_owned value), word')

unfoldable pub do_release : List ℕ → ℕ → Bool × ℕ
unfolding cmpxchg_loop freed
do_release stores word =
    let (value, word') = cmpxchg_loop freed stores word word in
    (not (bit_and value pending_bit == 0), word')

module _ {W : Type 0} (h : LockHost W) (f : Firmware W) where
  -- One attempt, under the spinlock.
  unfoldable pub attempt : Context W → Bool × Context W
  attempt c =
      let (stores, w) = f.stores c.world in
      let (success, word) = try_acquire stores c.lock_word in
      (success, record c { world = w; lock_word = word })

  -- Between two attempts: the spinlock is let go, the wait may end by the firmware's release
  -- notification or by its time, and the word is what the firmware made of it by then.
  wait : Context W → Context W
  wait c =
      let w = h.unlock_spinlock c.spinlock c.world in
      let (woken, w') = h.wait_for_event c.event 0xffff w in
      let (word, w'') = f.wakes w' c.lock_word in
      record c { world = h.lock_spinlock c.spinlock w''; lock_word = word }

  -- The `for (;;)` loop with `left` attempts left; 0xFFFF are made at most.
  unfoldable pub spin : ℕ → Context W → Bool × Context W
  unfolding attempt wait
  spin zero c = (false, c)
  spin (suc left) c =
      let (success, c') = attempt c in
      let again = spin left (wait (record c' { pending = true })) in
      if success then (true, c') else (if left == 0 then (false, c') else again)

  abbrev pub max_spins : ℕ
  max_spins = 0xffff

  -- `uacpi_acquire_global_lock_from_firmware`.
  unfoldable pub acquire_from_firmware_n : ℕ → Context W → Status × Context W
  unfolding spin
  acquire_from_firmware_n spins c =
      let c0 = record c { world = h.lock_spinlock c.spinlock c.world } in
      let (success, c1) = spin spins c0 in
      let c2 = record c1 { pending = false; world = h.unlock_spinlock c1.spinlock c1.world } in
      if c.has_global_lock then (if success then ok else err hardware_timeout, c2) else (ok, c)

  pub acquire_from_firmware : Context W → Status × Context W
  acquire_from_firmware c = acquire_from_firmware_n max_spins c

  -- `uacpi_release_global_lock_to_firmware`.
  pub release_to_firmware : Context W → Context W
  release_to_firmware c =
      let (stores, w) = f.stores c.world in
      let (pending, word) = do_release stores c.lock_word in
      if c.has_global_lock
      then record c { lock_word = word; world = if pending then f.signal_release w else w }
      else c

  -- `uacpi_acquire_global_lock`; `out_is_null` says that `out_seq` is UACPI_NULL, and the number
  -- is what is written to it, if anything is.
  unfoldable pub taken : Context W → Status × Option ℕ × Context W
  taken c =
      let seq = if c.seq_num == 0xffffffff then 0 else c.seq_num in
      (ok, some seq, record c { seq_num = seq + 1; acquired = true })

  -- The error return after the firmware kept the lock.
  unfoldable pub not_taken : Error → Context W → Status × Option ℕ × Context W
  not_taken e c = (err e, none, record c { world = (release_native h c.mutex_handle c.world).1 })

  unfoldable pub take_from_firmware : ℕ → Context W → Status × Option ℕ × Context W
  unfolding taken not_taken acquire_from_firmware_n
  take_from_firmware spins c =
      let (ret, c') = acquire_from_firmware_n spins c in
      elim ret [ ok ↦ taken c' | err e ↦ not_taken e c' ]

  unfoldable pub acquire_global_lock_n : ℕ → ℕ → Bool → Context W → Status × Option ℕ × Context W
  unfolding take_from_firmware
  acquire_global_lock_n spins timeout out_is_null c =
      let (ret, w) = acquire_native_with_timeout h c.mutex_handle timeout c.world in
      let c' = record c { world = w } in
      if ltb c.init_level 1
      then (err init_level_mismatch, none, c)
      else (if out_is_null
          then (err invalid_argument, none, c)
          else (elim ret [ ok ↦ take_from_firmware spins c' | err e ↦ (err e, none, c') ]))

  pub acquire_global_lock : ℕ → Bool → Context W → Status × Option ℕ × Context W
  acquire_global_lock timeout out_is_null c = acquire_global_lock_n max_spins timeout out_is_null c

  -- `uacpi_release_global_lock`.
  pub release_global_lock : ℕ → Context W → Status × Context W
  release_global_lock seq c =
      let c' = release_to_firmware (record c { acquired = false }) in
      if ltb c.init_level 1
      then (err init_level_mismatch, c)
      else (if not c.acquired || not (seq == c.seq_num)
          then (err invalid_argument, c)
          else (ok, record c' { world = (release_native h c'.mutex_handle c'.world).1 }))
