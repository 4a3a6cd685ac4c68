-- ===== src/Shareable.antt =====
-- source/shareable.c: reference counts that saturate. A handle is its record; the deletion
-- callback `do_free` is a parameter that acts on a world `W`. The atomic operations are single
-- steps, and wrap at 32 bits.
pub mod Laws
use u_acpi.Base.{ℕ, ◌+◌, ◌-◌, ◌%◌, ◌^◌, Bool, true, false, Option, none, some, ◌==◌, if◌then◌else◌}

pub record Shareable : Type 0 where
  pub reference_count : ℕ

abbrev pub bugged_refcount : ℕ
bugged_refcount = 0xffffffff

pub init : Shareable
init = record { reference_count = 1 }

pub make_bugged : Shareable → Shareable
make_bugged s = record { reference_count = bugged_refcount }

-- The test repairs a zero count first, so it returns the shareable too.
pub bugged : Shareable → Bool × Shareable
unfolding make_bugged
bugged s =
    let s' = if s.reference_count == 0 then make_bugged s else s in
    (s'.reference_count == bugged_refcount, s')

-- `uacpi_atomic_inc32` returns the new value, from which the code takes 1 at 32 bits.
pub ref : Shareable → ℕ × Shareable
unfolding bugged
ref s =
    let (bad, s') = bugged s in
    let count = (s'.reference_count + 1) % 2 ^ 32 in
    if bad
    then (bugged_refcount, s')
    else ((count + 2 ^ 32 - 1) % 2 ^ 32, record { reference_count = count })

pub unref : Shareable → ℕ × Shareable
unfolding bugged
unref s =
    let (bad, s') = bugged s in
    let count = (s'.reference_count + 2 ^ 32 - 1) % 2 ^ 32 in
    if bad
    then (bugged_refcount, s')
    else ((count + 1) % 2 ^ 32, record { reference_count = count })

-- The record after the call and the world after the callback, if it ran.
pub unref_and_delete_if_last : {W : Type 0} → (W → W) → Option Shareable → W → Option Shareable × W
unfolding bugged unref
unref_and_delete_if_last do_free none w = (none, w)
unref_and_delete_if_last do_free (some s) w =
    let (bad, s') = bugged s in
    let (last, s'') = unref s' in
    if bad then (some s', w) else (some s'', if last == 1 then do_free w else w)

unfoldable pub refcount : Shareable → ℕ
refcount s = s.reference_count
