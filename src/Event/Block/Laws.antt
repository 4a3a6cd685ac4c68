-- ===== src/Event/Block/Laws.antt =====
-- Actions on all registers of a block, and what removing a block does to its context.
use u_acpi.Base.{
  ℕ, zero, suc, ◌+◌, ◌≡◌, ◌≢◌, refl, ap, ◌∙◌, sym, Bool, true, false, none, some, ok, ◌==◌, ltb,
  if◌then◌else◌, arith, inl, inr, Bool-cases, [], ◌∷◌,
}
use u_acpi.Gas.Transfer.{gas_write}
use u_acpi.Event.{EventHost, Platform, GpeBlock, GpeRegister, State}
use u_acpi.Event.Block.{
  BlockAction, disable_all, enable_all_for_runtime, enable_all_for_wake, clear_all, action_value,
  set_register, apply_to_register, apply_from, gpe_block_apply_action, update_block, leave_context,
  unlink_block, is_empty, free_block, uninstall_gpe_block, mask_from, gpe_block_mask_safe,
}

if-holds : {A : Type 0} (P : A → Type 0) (b : Bool) (x y : A) → P x → P y → P (if b then x else y)
if-holds P true x y px py = px
if-holds P false x y px py = py

-- What an action leaves of a register.
abbrev pub acted : BlockAction → GpeRegister → GpeRegister
acted action reg = elim (action_value action reg) [
  | some value ↦ record reg { current_mask = value }
  | none ↦ reg
]

module _ {W : Type 0} (h : EventHost W) (p : Platform) where
  apply_to_register-acted :
      (action : BlockAction) (reg : GpeRegister) (w : W)
      → (apply_to_register h p action reg w).1 ≡ acted action reg
  unfolding apply_to_register action_value
  apply_to_register-acted disable_all reg w = refl
  apply_to_register-acted enable_all_for_runtime reg w = refl
  apply_to_register-acted enable_all_for_wake reg w = refl
  apply_to_register-acted clear_all reg w = refl

  apply_from-registers :
      (left i : ℕ) (action : BlockAction) (b : GpeBlock) (w : W) (k : ℕ)
      → (apply_from h p left i action b w).0 ≡ ok
      → (apply_from h p left i action b w).1.registers k ≡ (
          if ltb k i
          then b.registers k
          else (if ltb k (i + left) then acted action (b.registers k) else b.registers k))
  unfolding apply_from set_register
  apply_from-registers zero i action b w k e = ground arith
  apply_from-registers (suc left) i action b w k e =
      let r = apply_to_register h p action (b.registers i) w in
      let b1 = set_register i r.1 b in
      let rest = apply_from h p left (suc i) action b1 r.2 in
      let o : r.0 ≡ ok = ground (arith, e) in
      let e1 : rest.0 ≡ ok = ground (arith, e, o) in
      let step : (apply_from h p (suc left) i action b w).1.registers k ≡ rest.1.registers k =
        rw (apply_from, o) refl in
      elim (Bool-cases (k == i)) [
        | inl q ↦
            let j : k ≡ i = ground arith in
            let now : b1.registers k ≡ acted action (b.registers k) = rw q (
              apply_to_register-acted action (b.registers i) w
              ∙ ap (λ (x : ℕ). acted action (b.registers x)) (sym j)) in
            step ∙ ground (arith, apply_from-registers left (suc i) action b1 r.2 k e1, now)
        | inr q ↦
            let same : b1.registers k ≡ b.registers k = rw q refl in
            step ∙ ground (arith, apply_from-registers left (suc i) action b1 r.2 k e1, same)
      ]

  -- An action on a block that returns OK has set, in each of the block's registers, the current
  -- mask to what the action writes, and left the rest of it, and every register behind them.
  pub gpe_block_apply_action-registers :
      (block k : ℕ) (action : BlockAction) (s : State W)
      → (gpe_block_apply_action h p block action s).0 ≡ ok
      → let b = s.block_at block in
        ((gpe_block_apply_action h p block action s).1.block_at block).registers k
        ≡ (if ltb k b.num_registers then acted action (b.registers k) else b.registers k)
  unfolding gpe_block_apply_action update_block
  gpe_block_apply_action-registers block k action s e =
      let b = s.block_at block in
      let here : (block == block) ≡ true = ground arith in
      rw here (ground (arith, apply_from-registers b.num_registers 0 action b s.world k e))

  mask_from-irq_ctx :
      (left i : ℕ) (b : GpeBlock) (w : W) → (mask_from h p left i b w).0.irq_ctx ≡ b.irq_ctx
  unfolding mask_from set_register
  mask_from-irq_ctx zero i b w = refl
  mask_from-irq_ctx (suc left) i b w =
      let reg = b.registers i in
      let b1 = set_register i (record reg { masked_mask = 0xff }) b in
      let w1 = (gas_write h.io (some reg.enable) 0 (h.wait_for_work w)).1 in
      ground (
        arith,
        mask_from-irq_ctx left (suc i) b1 (h.wait_for_work w1),
        mask_from-irq_ctx left (suc i) b w,
      )

  leave_context-dangles :
      (block c : ℕ) (s : State W)
      → (s.block_at block).irq_ctx ≡ c
      → c ≢ 0
      → (s.context_at c).blocks ≡ block ∷ []
      → ((leave_context h p block s).freed c ≡ true)
        × ((leave_context h p block s).contexts ≡ s.contexts)
  unfolding leave_context unlink_block is_empty
  leave_context-dangles block c s d n e =
      let some_context : ((s.block_at block).irq_ctx == 0) ≡ false = ground (arith, d) in
      let blocks : (s.context_at (s.block_at block).irq_ctx).blocks ≡ block ∷ [] =
        ap (λ (x : ℕ). (s.context_at x).blocks) d ∙ e in
      let same : (block == block) ≡ true = ground arith in
      let self : (c == (s.block_at block).irq_ctx) ≡ true = ground (arith, d) in
      rw (some_context, blocks, same, self) (refl, refl)

  masked-dangles :
      (block c : ℕ) (s : State W)
      → (s.block_at block).irq_ctx ≡ c
      → c ≢ 0
      → (s.context_at c).blocks ≡ block ∷ []
      → ((free_block h p block (leave_context h p block s)).freed c ≡ true)
        × ((free_block h p block (leave_context h p block s)).contexts ≡ s.contexts)
  unfolding free_block
  masked-dangles block c s d n e = ground (arith, leave_context-dangles block c s d n e)

  -- Removing the only block of an interrupt's context frees the context, and the list of the
  -- contexts stays as it was, with the freed context in it.
  pub uninstall_gpe_block-dangles :
      (block c : ℕ) (s : State W)
      → (s.block_at block).irq_ctx ≡ c
      → c ≢ 0
      → (s.context_at c).blocks ≡ block ∷ []
      → let s' = uninstall_gpe_block h p block s in (s'.freed c ≡ true) × (s'.contexts ≡ s.contexts)
  unfolding uninstall_gpe_block gpe_block_mask_safe update_block
  uninstall_gpe_block-dangles block c s d n e =
      let b = s.block_at block in
      let s1 = gpe_block_mask_safe h p block s in
      let same : (block == block) ≡ true = ground arith in
      let kept : (s1.block_at block).irq_ctx ≡ c =
        rw same (mask_from-irq_ctx b.num_registers 0 b s.world) ∙ d in
      if-holds
        (λ (t : State W).
          ((free_block h p block (leave_context h p block t)).freed c ≡ true)
          × ((free_block h p block (leave_context h p block t)).contexts ≡ s.contexts))
        b.has_registers s1 s (masked-dangles block c s1 kept n e) (masked-dangles block c s d n e)
