-- ===== src/Paged/Slots.antt =====
-- Slots of pace/llm/attention/paged: the place of a token in the paged tensors. `none` is the slot -1
-- of a position that no block covers, at which the kernel writes nothing.
use mathlib.Core.Option.{some-injective}
use amd_pace.Common.{
  ℕ, zero, suc, ◌+◌, ◌-◌, ◌*◌, ◌/◌, ◌%◌, ◌≤◌, ◌<◌, ◌≡◌, sym, ap, ◌∙◌, min, Option, none, some, List,
  [], ◌++◌, arith, ltb, if◌then◌else◌, length, get_or, tabulate, count, lt→ltb, get_elem?-some,
  get_or-get_elem?, place_unique,
}
use amd_pace.Paged.Blocks.{block_index-lt, slot-block, slot-offset, position_eq}

-- The slot of one position, in a table of physical blocks: the index is clamped to the table before
-- it is read, and the position is then masked out if the index was not in the table.
unfoldable pub slot_of : List ℕ → ℕ → ℕ → ℕ → Option ℕ
slot_of blocks block_size block_offset_for_seq position =
    let index = position / block_size + block_offset_for_seq in
    let physical = get_or blocks (min index (length blocks - 1)) 0 in
    if ltb index (length blocks) then some (physical * block_size + position % block_size) else none

-- The slots of `n` positions from `past` on.
unfoldable pub seq_slots : List ℕ → ℕ → ℕ → ℕ → ℕ → List (Option ℕ)
unfolding slot_of
seq_slots blocks block_size block_offset_for_seq past n =
    tabulate (slot_of blocks block_size block_offset_for_seq) past n

-- The loop over the sequences of a batch.
unfoldable pub batch_slots : List ℕ → ℕ → ℕ → ℕ → ℕ → ℕ → ℕ → List (Option ℕ)
unfolding seq_slots
batch_slots blocks block_size blocks_per_seq past n seq_idx zero = []
batch_slots blocks block_size blocks_per_seq past n seq_idx (suc more) =
    seq_slots blocks block_size (if ltb 0 blocks_per_seq then seq_idx * blocks_per_seq else 0) past
      n
    ++ batch_slots blocks block_size blocks_per_seq past n (seq_idx + 1) more

-- The place of a position that a block covers.
abbrev pub place : List ℕ → ℕ → ℕ → ℕ
place blocks b p = get_or blocks (p / b) 0 * b + p % b

-- Every block stands in the table once.
abbrev pub IsDistinct : List ℕ → Type 0
IsDistinct blocks = (x : ℕ) → count x blocks ≤ 1

module _ (blocks : List ℕ) (b : ℕ) (pos : 0 < b) where
  pub slot_of-place :
      (p : ℕ) → p < length blocks * b → slot_of blocks b 0 p ≡ some (place blocks b p)
  unfolding slot_of
  slot_of-place p h =
      let i : p / b + 0 ≡ p / b = omega arith in
      let lt = block_index-lt b pos p (length blocks) h in
      let m : min (p / b) (length blocks - 1) ≡ p / b = omega arith in
      rw (i, lt→ltb (p / b) (length blocks) lt, m)

  -- Two positions never share a slot.
  pub place_injective :
      (p q : ℕ)
      → IsDistinct blocks
      → p < length blocks * b
      → q < length blocks * b
      → place blocks b p ≡ place blocks b q
      → p ≡ q
  place_injective p q distinct hp hq e =
      let (x, ex) = get_elem?-some blocks (p / b) (block_index-lt b pos p (length blocks) hp) in
      let (y, ey) = get_elem?-some blocks (q / b) (block_index-lt b pos q (length blocks) hq) in
      let px = get_or-get_elem? blocks (p / b) 0 x ex in
      let qy = get_or-get_elem? blocks (q / b) 0 y ey in
      let same : x * b + p % b ≡ y * b + q % b = rw (px, qy) at e in
      let rp : p % b < b = omega arith in
      let rq : q % b < b = omega arith in
      let blk : x ≡ y =
        sym (slot-block b pos x (p % b) rp)
        ∙ ap (λ s. s / b) same
        ∙ slot-block b pos y (q % b) rq in
      let off : p % b ≡ q % b =
        sym (slot-offset b pos x (p % b) rp)
        ∙ ap (λ s. s % b) same
        ∙ slot-offset b pos y (q % b) rq in
      position_eq b pos p q
        (place_unique blocks (p / b) (q / b) x ex (rw (← blk) at ey) (distinct x)) off

  -- In a table of distinct blocks, two positions that the table covers never get the same slot.
  pub slot_of_injective :
      (p q : ℕ)
      → IsDistinct blocks
      → p < length blocks * b
      → q < length blocks * b
      → slot_of blocks b 0 p ≡ slot_of blocks b 0 q
      → p ≡ q
  slot_of_injective p q distinct hp hq e = place_injective p q distinct hp hq (
      some-injective (place blocks b p) (place blocks b q)
        (sym (slot_of-place p hp) ∙ e ∙ slot_of-place q hq))
