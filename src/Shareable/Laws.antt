-- ===== src/Shareable/Laws.antt =====
-- What the reference counts of source/shareable.c promise.
use u_acpi.Base.{
  ℕ, ◌+◌, ◌-◌, ◌≤◌, List, [], ◌∷◌, ◌++◌, ◌<◌, ◌≡◌, refl, Bool, true, false, Option, none, some,
  arith, ◌⊎◌, inr,
}
use u_acpi.Shareable.{
  Shareable, bugged_refcount, init, ref, unref, unref_and_delete_if_last, refcount,
}

-- Taking and dropping a reference is the identity on a count between 1 and 0xfffffffd, and the
-- two calls return the counts before them.
pub unref-ref :
    (s : Shareable)
    → 1 ≤ refcount s
    → refcount s < 0xfffffffe
    → ((ref s).0 ≡ refcount s) × (unref (ref s).1 ≡ (refcount s + 1, s))
unfolding ref unref refcount
unref-ref s lo hi = ground arith

-- One call of the reference API: `true` takes a reference, `false` drops one.
step : {W : Type 0} → (W → W) → Bool → Option Shareable × W → Option Shareable × W
unfolding ref unref_and_delete_if_last
step do_free true (none, w) = (none, w)
step do_free true (some s, w) = (some (ref s).1, w)
step do_free false (o, w) = unref_and_delete_if_last do_free o w

pub run : {W : Type 0} → (W → W) → List Bool → Option Shareable × W → Option Shareable × W
unfolding step
run do_free [] st = st
run do_free (c ∷ calls) st = run do_free calls (step do_free c st)

-- `n` references are out, and the calls neither drop the last one nor reach the bugged count.
abbrev pub StaysAlive : ℕ → List Bool → Type 0
StaysAlive n [] = (1 ≤ n) × (n < bugged_refcount)
StaysAlive n (true ∷ calls) = (1 ≤ n) × (n < bugged_refcount) × StaysAlive (n + 1) calls
StaysAlive n (false ∷ calls) = (1 ≤ n) × (n < bugged_refcount) × StaysAlive (n - 1) calls

abbrev pub references : ℕ → List Bool → ℕ
references n [] = n
references n (true ∷ calls) = references (n + 1) calls
references n (false ∷ calls) = references (n - 1) calls

counted : ℕ → Shareable
counted n = record { reference_count = n }

step-counted_ref :
    {W : Type 0} (do_free : W → W) (n : ℕ) (w : W)
    → 1 ≤ n
    → n < bugged_refcount
    → step do_free true (some (counted n), w) ≡ (some (counted (n + 1)), w)
unfolding step counted
step-counted_ref do_free n w lo hi = ground arith

step-counted_unref :
    {W : Type 0} (do_free : W → W) (n : ℕ) (w : W)
    → 2 ≤ n
    → n < bugged_refcount
    → step do_free false (some (counted n), w) ≡ (some (counted (n - 1)), w)
unfolding step counted
step-counted_unref do_free n w lo hi = ground arith

StaysAlive-pos : (n : ℕ) (calls : List Bool) → StaysAlive n calls → 1 ≤ n
StaysAlive-pos n [] h = h.0
StaysAlive-pos n (true ∷ calls) h = h.0
StaysAlive-pos n (false ∷ calls) h = h.0

run-counted :
    {W : Type 0} (do_free : W → W) (n : ℕ) (calls : List Bool) (w : W)
    → StaysAlive n calls
    → run do_free calls (some (counted n), w) ≡ (some (counted (references n calls)), w)
unfolding run
run-counted do_free n [] w h = refl
run-counted do_free n (true ∷ calls) w h =
    rw (step-counted_ref do_free n w h.0 h.1) (run-counted do_free (n + 1) calls w h.2)
run-counted do_free n (false ∷ calls) w h =
    rw (step-counted_unref do_free n w (omega (arith, StaysAlive-pos (n - 1) calls h.2)) h.1)
      (run-counted do_free (n - 1) calls w h.2)

run-append :
    {W : Type 0} (do_free : W → W) (xs ys : List Bool) (st : Option Shareable × W)
    → run do_free (xs ++ ys) st ≡ run do_free ys (run do_free xs st)
unfolding run
run-append do_free [] ys st = refl
run-append do_free (x ∷ xs) ys st = run-append do_free xs ys (step do_free x st)

run_last :
    {W : Type 0} (do_free : W → W) (n : ℕ) (w : W)
    → n ≡ 1
    → (run do_free (false ∷ []) (some (counted n), w)).1 ≡ do_free w
unfolding run step counted
run_last do_free n w e = ground arith

-- While references stay out, no history of calls runs the deletion callback, and the count is the
-- number of references; if that is one, dropping it runs the callback once.
pub run-StaysAlive :
    {W : Type 0} (do_free : W → W) (calls : List Bool) (w : W)
    → StaysAlive 1 calls
    → (run do_free calls (some init, w)
        ≡ (some (record { reference_count = references 1 calls }), w))
      × (references 1 calls ≡ 1 → (run do_free (calls ++ false ∷ []) (some init, w)).1 ≡ do_free w)
unfolding counted init
run-StaysAlive do_free calls w h = (
  run-counted do_free 1 calls w h,
  λ e.
      rw (run-append do_free calls (false ∷ []), run-counted do_free 1 calls w h)
        (run_last do_free (references 1 calls) w e),
)

step_bugged :
    {W : Type 0} (do_free : W → W) (c : Bool) (n : ℕ) (w : W)
    → (n ≡ 0) ⊎ (n ≡ bugged_refcount)
    → step do_free c (some (counted n), w) ≡ (some (counted bugged_refcount), w)
unfolding step counted
step_bugged do_free true n w h = ground arith
step_bugged do_free false n w h = ground arith

-- A count that was found zero, or that reached the bugged value, stays at the bugged value under
-- every history of at least one call, and the deletion callback never runs again.
pub run_bugged :
    {W : Type 0} (do_free : W → W) (c : Bool) (calls : List Bool) (s : Shareable) (w : W)
    → (refcount s ≡ 0) ⊎ (refcount s ≡ bugged_refcount)
    → run do_free (c ∷ calls) (some s, w) ≡ (some (record { reference_count = bugged_refcount }), w)
unfolding run counted refcount
run_bugged do_free c [] s w h = step_bugged do_free c s.reference_count w h
run_bugged do_free c (d ∷ calls) s w h =
    rw (step_bugged do_free c s.reference_count w h)
      (run_bugged do_free d calls (counted bugged_refcount) w (inr refl))
