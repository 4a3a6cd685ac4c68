-- ===== src/Stdlib/Printf/Laws.antt =====
-- The bounds of what `uacpi_vsnprintf` of source/stdlib.c writes.
use u_acpi.Base.{
  ℕ, zero, suc, ◌-◌, ◌≤◌, ◌<◌, ◌≡◌, ◌≢◌, refl, Bool, Option, none, some, List, [], ◌∷◌, min, length,
  arith,
}
use u_acpi.Stdlib.Memory.{Memory}
use u_acpi.Stdlib.Format.{FmtBufState}
use u_acpi.Stdlib.Printf.{
  Arg, directive, after_directive, turn, before_conversion, find_next_conversion, format_loop,
  vsnprintf,
}
use u_acpi.Stdlib.Printf.Steps.{Goes, directive-Goes, find_next-length}
use u_acpi.Stdlib.Printf.Within.{Within, Within-refl, Within-then, before-Within}

-- Two continuations that agree on every format with fewer than `m` characters, and keep what lies
-- behind the capacity.
abbrev Loop : Type 0
Loop = FmtBufState → List ℕ → List Arg → Bool × FmtBufState

abbrev Agree : ℕ → Loop → Loop → Type 0
Agree m f g =
    (s : FmtBufState) (fmt : List ℕ) (args : List Arg)
    → length fmt < m
    → Within s (f s fmt args).1 × (f s fmt args ≡ g s fmt args)

after_directive-Agree :
    (m : ℕ) (f g : Loop) (s : FmtBufState) (cs : List ℕ)
    (x : Option (FmtBufState × List ℕ × List Arg))
    → Agree m f g
    → length cs < m
    → Goes s cs x
    → Within s (after_directive f s x).1 × (after_directive f s x ≡ after_directive g s x)
unfolding after_directive
after_directive-Agree m f g s cs none a h w = (Within-refl s, refl)
after_directive-Agree m f g s cs (some (t, rest, args)) a h (w, l) =
    let (w', e) = a t rest args (omega (arith, h, l)) in (Within-then w w', e)

turn-Agree :
    (m : ℕ) (f g : Loop) (s : FmtBufState) (next : Option (List ℕ)) (args : List Arg)
    → Agree m f g
    → ((cs : List ℕ) → next ≡ some cs → length cs < m)
    → Within s (turn f s next args).1 × (turn f s next args ≡ turn g s next args)
unfolding turn
turn-Agree m f g s none args a h = (Within-refl s, refl)
turn-Agree m f g s (some cs) args a h =
    after_directive-Agree m f g s cs (directive s cs args) a (h cs refl) (directive-Goes s cs args)

format_loop_lem :
    (n k : ℕ) (s : FmtBufState) (fmt : List ℕ) (args : List Arg)
    → length fmt ≤ n
    → length fmt ≤ k
    → Within s (format_loop n s fmt args).1 × (format_loop n s fmt args ≡ format_loop k s fmt args)
unfolding format_loop
format_loop_lem zero zero s fmt args a b = (Within-refl s, refl)
format_loop_lem zero (suc k) s [] args a b =
    (Within-refl s, unfold find_next_conversion before_conversion turn in refl)
format_loop_lem zero (suc k) s (c ∷ fmt) args a b = absurd (omega arith)
format_loop_lem (suc n) zero s [] args a b = (
  unfold find_next_conversion before_conversion turn in Within-refl s,
  unfold find_next_conversion before_conversion turn in refl,
)
format_loop_lem (suc n) zero s (c ∷ fmt) args a b = absurd (omega arith)
format_loop_lem (suc n) (suc k) s fmt args a b =
    let (before, next) = find_next_conversion fmt in
    let s1 = before_conversion s before in
    let (w, e) =
      turn-Agree (length fmt) (format_loop n) (format_loop k) s1 next args
        (λ t rest args' h.
          format_loop_lem n k t rest args' (omega (arith, a, h)) (omega (arith, b, h)))
        (λ cs h. find_next-length fmt cs h) in
    (Within-then (before-Within s before) w, e)

-- As many turns as the format has characters are enough: more change nothing.
pub format_loop_enough :
    (n : ℕ) (s : FmtBufState) (fmt : List ℕ) (args : List Arg)
    → length fmt ≤ n
    → format_loop n s fmt args ≡ format_loop (length fmt) s fmt args
format_loop_enough n s fmt args h = (format_loop_lem n (length fmt) s fmt args h (omega arith)).1

module _ (buffer : Memory) (capacity : ℕ) (fmt : List ℕ) (args : List Arg) where
  abbrev start : FmtBufState
  start = record { buffer = buffer; capacity = capacity; bytes_written = 0 }

  loop-Within : Within start (format_loop (length fmt) start fmt args).1
  loop-Within =
      (format_loop_lem (length fmt) (length fmt) start fmt args (omega arith) (omega arith)).0

  -- Whatever the format and the arguments, `uacpi_vsnprintf` writes no byte at or behind the
  -- capacity.
  pub vsnprintf-bounds :
      (i : ℕ) → capacity ≤ i → (vsnprintf buffer capacity fmt args).1 i ≡ buffer i
  unfolding vsnprintf
  vsnprintf-bounds i h = let w = loop-Within in ground (arith, w.same_capacity, w.kept i h)

  -- If it returns a count and the capacity is not 0, there is a NUL before the capacity.
  pub vsnprintf-terminates :
      (vsnprintf buffer capacity fmt args).0 ≢ none
      → 0 < capacity
      → (i : ℕ) × (i < capacity) × ((vsnprintf buffer capacity fmt args).1 i ≡ 0)
  unfolding vsnprintf
  vsnprintf-terminates r h =
      let w = loop-Within in
      let st = (format_loop (length fmt) start fmt args).1 in
      (
        min st.bytes_written (st.capacity - 1),
        omega (arith, w.same_capacity),
        ground (arith, r, w.same_capacity),
      )
