-- ===== src/Event/Store/Laws.antt =====
-- What the search for an event finds.
use u_acpi.Base.{
  ℕ, ◌+◌, ◌≤◌, ◌≡◌, subst, none, some, ◌==◌, arith, inl, inr, Bool-cases, Option-cases, List, [],
  ◌∷◌,
}
use u_acpi.Event.{GpeBlock, State}
use u_acpi.Event.Store.{
  gpe_from_block, Search, do_find_gpe, for_each_block, all_blocks, search, get_gpe,
}

-- An event that is found lies in a block of the device, at its index.
abbrev pub IsEventOf : (ℕ → GpeBlock) → ℕ → ℕ → ℕ × ℕ → Type 0
IsEventOf block_at device idx (block, offset) =
    let b = block_at block in
    (b.device_node ≡ device) × (idx ≡ b.base_idx + offset) × (offset ≤ b.num_events)

-- What `gpe_from_block` answers: the offset, up to the number of events, which is included.
gpe_from_block-some :
    (b : GpeBlock) (idx offset : ℕ)
    → gpe_from_block b idx ≡ some offset
    → (idx ≡ b.base_idx + offset) × (offset ≤ b.num_events)
unfolding gpe_from_block
gpe_from_block-some b idx offset e = ground arith

abbrev Finds : (ℕ → GpeBlock) → ℕ → ℕ → Search → Type 0
Finds block_at device idx found =
    (e : ℕ × ℕ) → found.out_event ≡ some e → IsEventOf block_at device idx e

do_find_gpe-Finds :
    (block_at : ℕ → GpeBlock) (device idx block : ℕ) (found : Search)
    → Finds block_at device idx found
    → Finds block_at device idx (do_find_gpe block_at device idx block found).1
unfolding do_find_gpe
do_find_gpe-Finds block_at device idx block found f e q =
    let b = block_at block in
    elim (Bool-cases (b.device_node == device)) [
      | inl d ↦ elim (Option-cases (gpe_from_block b idx)) [
        | inl n ↦ absurd (ground (arith, d, n, q))
        | inr (o, n) ↦
            let p : (block, o) ≡ e = ground (arith, d, n, q) in
            let here : b.device_node ≡ device = ground arith in
            let at = gpe_from_block-some b idx o n in
            subst (λ (z : ℕ × ℕ). IsEventOf block_at device idx z) p (here, at.0, at.1)
      ]
      | inr d ↦ f e (ground (arith, d, q))
    ]

for_each_block-Finds :
    (block_at : ℕ → GpeBlock) (device idx : ℕ) (blocks : List ℕ) (found : Search)
    → Finds block_at device idx found
    → Finds block_at device idx (for_each_block (do_find_gpe block_at device idx) blocks found)
unfolding for_each_block
for_each_block-Finds block_at device idx [] found f = f
for_each_block-Finds block_at device idx (b ∷ bs) found f =
    let r = do_find_gpe block_at device idx b found in
    let g = do_find_gpe-Finds block_at device idx b found f in
    elim (Bool-cases r.0) [
      | inl e ↦ rw e g
      | inr e ↦ rw e (for_each_block-Finds block_at device idx bs r.1 g)
    ]

-- An event that the search finds belongs to the device and has the index that was asked for;
-- but its offset may be the number of the block's events, one behind the last.
pub get_gpe-IsEventOf :
    {W : Type 0} (s : State W) (device idx : ℕ) (e : ℕ × ℕ)
    → get_gpe s device idx ≡ some e
    → IsEventOf s.block_at device idx e
unfolding get_gpe search
get_gpe-IsEventOf s device idx e q =
    let none_yet : Search = record { out_block = none; out_event = none } in
    for_each_block-Finds s.block_at device idx (all_blocks s s.contexts) none_yet
      (λ x y. absurd (ground (arith, y))) e q

-- For the device of the first block of all, the index just behind its events is found
-- as an event.
pub get_gpe-behind :
    {W : Type 0} (s : State W) (block : ℕ) (blocks : List ℕ)
    → all_blocks s s.contexts ≡ block ∷ blocks
    → let b = s.block_at block in
      get_gpe s b.device_node (b.base_idx + b.num_events) ≡ some (block, b.num_events)
unfolding get_gpe search for_each_block do_find_gpe gpe_from_block
get_gpe-behind s block blocks e = ground (arith, e)
