-- ===== src/Event/Invariant.antt =====
-- The blocks of general purpose events under any sequence of the calls on single events, and of
-- interrupts between them.
pub mod Calls
use u_acpi.Base.{
  ℕ, ◌+◌, ◌-◌, ◌/◌, ◌%◌, ◌^◌, ◌<◌, ◌≡◌, refl, Bool, true, false, arith, if◌then◌else◌, inl, inr,
  Bool-cases, ◌==◌, List, [], ◌∷◌, sym, ap, subst, ◌∙◌,
}
use u_acpi.Base.Bits.{bit}
use u_acpi.Event.{EventHost, GpeBlock, GpeView, State}
use u_acpi.Event.Gpe.{GpeState, gpe_remove_user, restore_gpe, gpe_mask_unmask}
use u_acpi.Event.Gpe.Users.{Counted, Step, Same-Step, gpe_remove_user-Step}
use u_acpi.Event.Gpe.Masks.{restore_gpe-Same, gpe_mask_unmask-Same, dispatch_gpe-Same}
use u_acpi.Event.Dispatch.{dispatch_gpe}
use u_acpi.Event.Store.{view, put_event, set_event_at, put}
use u_acpi.Event.Handlers.{
  install_event, uninstall_event, enable_event, clear_event, suspend_resume_event,
}
use u_acpi.Event.Handlers.Laws.{install_event-Step, uninstall_event-Step, enable_event-Step}
use u_acpi.Event.Wake.{setup_wake_event, enable_disable_wake_event}
use u_acpi.Event.Wake.Laws.{setup_wake_event-Step}
use Calls.{Call, call, call-Step}

-- An event at its place in the block, its bit of its register's runtime mask set exactly while it
-- has users.
abbrev pub IsCounted : GpeBlock → ℕ → Type 0
IsCounted b o =
    let event = b.events o in
    let reg = b.registers (o / 8) in
    (event.reg ≡ o / 8)
    × (event.idx ≡ reg.base_idx + o % 8)
    × (reg.runtime_mask < 2 ^ 8)
    × (event.num_users < 2 ^ 8)
    × (bit (o % 8) reg.runtime_mask ≡ (if event.num_users == 0 then 0 else 1))

abbrev pub IsWellFormed : GpeBlock → Type 0
IsWellFormed b = (o : ℕ) → o < b.num_events → IsCounted b o

module _ {W : Type 0} where
  abbrev event_of : GpeBlock → ℕ → W → GpeView W
  event_of b o w = record { event = b.events o; reg = b.registers (o / 8); world = w }

  view-event_of :
      (s : State W) (block o : ℕ)
      → IsCounted (s.block_at block) o
      → view s block o ≡ event_of (s.block_at block) o s.world
  unfolding view
  view-event_of s block o c =
      let b = s.block_at block in
      let at : ℕ → GpeView W =
        λ r. record { event = b.events o; reg = b.registers r; world = s.world } in
      ap at c.0

  event_of-Counted : (b : GpeBlock) (o : ℕ) (w : W) → IsCounted b o → Counted (event_of b o w)
  event_of-Counted b o w (r, i, m, u, e) =
      let k : (b.events o).idx - (b.registers (o / 8)).base_idx ≡ o % 8 = omega (arith, i) in
      (omega (arith, i), omega (arith, i), m, u, rw k e)

  -- An event that takes a step leaves each event of its block counted.
  put_event-IsCounted :
      (b : GpeBlock) (o o' : ℕ) (w : W) (g : GpeView W)
      → IsCounted b o
      → IsCounted b o'
      → Step (event_of b o w) g
      → IsCounted (put_event b o g) o'
  unfolding put_event set_event_at
  put_event-IsCounted b o o' w g c c' ((lo, hi, m, u, e), er, ei, eb, others) =
      elim (Bool-cases (o' == o)) [
        | inl same ↦
            let q : o' ≡ o = ground arith in
            let here : (o' / 8 == (b.events o).reg) ≡ true = ground (arith, c.0) in
            let k : g.event.idx - g.reg.base_idx ≡ o' % 8 = omega (arith, c.1, ei, eb) in
            rw (same, here) (omega (arith, er, c.0), omega (arith, ei, eb, c.1), m, u, rw (sym k) e)
        | inr other ↦ elim (Bool-cases (o' / 8 == o / 8)) [
          | inl near ↦
              let here : (o' / 8 == (b.events o).reg) ≡ true = ground (arith, c.0) in
              let q : o' / 8 ≡ o / 8 = ground arith in
              let base : (b.registers (o' / 8)).base_idx ≡ (b.registers (o / 8)).base_idx =
                ap (λ (i : ℕ). (b.registers i).base_idx) q in
              let kept : bit (o' % 8) g.reg.runtime_mask
                  ≡ bit (o' % 8) (b.registers (o' / 8)).runtime_mask =
                others (o' % 8) (omega arith) (ground (arith, c.1))
                ∙ ap (λ (i : ℕ). bit (o' % 8) (b.registers i).runtime_mask) (sym q) in
              rw (other, here) (c'.0, omega (arith, c'.1, eb, base), m, c'.3, kept ∙ c'.4)
          | inr far ↦
              let there : (o' / 8 == (b.events o).reg) ≡ false = ground (arith, c.0) in
              rw (other, there) c'
        ]
      ]

-- A call on the event at an offset of a block.
pub record At : Type 0 where
  pub block : ℕ
  pub offset : ℕ
  pub what : Call

-- Each call is on an event that its block has.
pub data AreInRange (num_events : ℕ → ℕ) : List At → Type 0 where
  no_calls : AreInRange num_events []
  next_call :
      (a : At) (rest : List At)
      → a.offset < num_events a.block
      → AreInRange num_events rest
      → AreInRange num_events (a ∷ rest)

AreInRange-same :
    (n n' : ℕ → ℕ) (calls : List At)
    → ((b : ℕ) → n' b ≡ n b)
    → AreInRange n calls
    → AreInRange n' calls
AreInRange-same n n' _ same no_calls = no_calls
AreInRange-same n n' _ same (next_call a rest l r) =
    next_call a rest (omega (arith, same a.block)) (AreInRange-same n n' rest same r)

module _ {W : Type 0} (h : EventHost W) where
  unfoldable pub run_one : At → State W → State W
  unfolding put
  run_one a s =
      let device = (s.block_at a.block).device_node in
      put s a.block a.offset (call h s.gpe_state_slock device a.what (view s a.block a.offset))

  unfoldable pub run : List At → State W → State W
  run [] s = s
  run (a ∷ rest) s = run rest (run_one a s)

  run_one-num_events :
      (a : At) (s : State W) (block : ℕ)
      → ((run_one a s).block_at block).num_events ≡ (s.block_at block).num_events
  unfolding run_one put put_event set_event_at
  run_one-num_events a s block = elim (Bool-cases (block == a.block)) [
    | inl e ↦
        let q : block ≡ a.block = ground arith in
        rw e (ap (λ (b : ℕ). (s.block_at b).num_events) (sym q))
    | inr e ↦ rw e refl
  ]

  run_one-IsWellFormed :
      (a : At) (s : State W) (block : ℕ)
      → ((b : ℕ) → IsWellFormed (s.block_at b))
      → a.offset < (s.block_at a.block).num_events
      → IsWellFormed ((run_one a s).block_at block)
  unfolding run_one put
  run_one-IsWellFormed a s block wf b o l =
      let at = s.block_at a.block in
      let v = view s a.block a.offset in
      let device = at.device_node in
      let c = wf a.block a.offset b in
      let e = view-event_of s a.block a.offset c in
      let moved = call h s.gpe_state_slock device a.what v in
      let start = event_of at a.offset s.world in
      let stepped : Step start moved =
        subst (λ (g : GpeView W). Step g moved) e
          (call-Step h s.gpe_state_slock device a.what v (
            subst (λ (g : GpeView W). Counted g) (sym e)
              (event_of-Counted at a.offset s.world c))) in
      elim (Bool-cases (block == a.block)) [
        | inl t ↦
            let q : block ≡ a.block = ground arith in
            let l' : o < at.num_events =
              omega (
                arith,
                run_one-num_events a s block,
                ap (λ (b : ℕ). (s.block_at b).num_events) q,
              ) in
            rw t (put_event-IsCounted at a.offset o s.world moved c (wf a.block o l') stepped)
        | inr t ↦ rw t (wf block o (omega (arith, run_one-num_events a s block)))
      ]

  -- However often and in whatever order events are enabled, disabled, cleared, finished, suspended,
  -- resumed, masked and unmasked, set up for waking, given handlers and freed of them, and fire, if
  -- every call is on an event that its block has: where each event of each block was at its
  -- place and its bit of its register's runtime mask was set exactly while it had users, all that
  -- still holds, whether the accesses to the hardware fail or not.
  pub run-IsWellFormed :
      (calls : List At) (s : State W) (block : ℕ)
      → ((b : ℕ) → IsWellFormed (s.block_at b))
      → AreInRange (λ b. (s.block_at b).num_events) calls
      → IsWellFormed ((run calls s).block_at block)
  unfolding run
  run-IsWellFormed [] s block wf r = wf block
  run-IsWellFormed (a ∷ rest) s block wf (next_call _ _ l r) =
      let s' = run_one a s in
      run-IsWellFormed rest s' block (λ b. run_one-IsWellFormed a s b wf l)
        (AreInRange-same (λ b. (s.block_at b).num_events) (λ b. (s'.block_at b).num_events) rest
          (run_one-num_events a s) r)
