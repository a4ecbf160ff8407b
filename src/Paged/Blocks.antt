-- ===== src/Paged/Blocks.antt =====
-- The number of blocks for a number of tokens, as every file of pace/llm/attention/paged computes it.
use amd_pace.Common.{ap, ◌∙◌, ℕ, ◌+◌, ◌-◌, ◌*◌, ◌/◌, ◌%◌, ◌≤◌, ◌<◌, ◌≡◌, arith}

-- (length + block_size - 1) // block_size
unfoldable pub blocks_for : ℕ → ℕ → ℕ
blocks_for len block_size = (len + block_size - 1) / block_size

module _ (b : ℕ) (pos : 0 < b) where
  -- Enough blocks, and less than one block too many.
  pub blocks_for_bounds : (n : ℕ) → (n ≤ blocks_for n b * b) × (blocks_for n b * b < n + b)
  unfolding blocks_for
  blocks_for_bounds n = (omega arith, omega arith)

  pub blocks_for_mono : (m n : ℕ) → m ≤ n → blocks_for m b ≤ blocks_for n b
  unfolding blocks_for
  blocks_for_mono m n h = grind arith

  pub block_index-lt : (p k : ℕ) → p < k * b → p / b < k
  block_index-lt p k h = grind arith

  pub lt-block_index : (p n : ℕ) → p < n → p / b < blocks_for n b
  lt-block_index p n h = block_index-lt p (blocks_for n b) (omega (arith, blocks_for_bounds n))

  -- Block and offset are read off a slot.
  pub slot-block : (x r : ℕ) → r < b → (x * b + r) / b ≡ x
  slot-block x r h = grind arith

  -- Whole blocks need as many.
  pub blocks_for-whole : (k : ℕ) → blocks_for (k * b) b ≡ k
  unfolding blocks_for
  blocks_for-whole k =
      let e : k * b + b - 1 ≡ k * b + (b - 1) = omega arith in
      ap (λ n. n / b) e ∙ slot-block k (b - 1) (omega arith)

  pub slot-offset : (x r : ℕ) → r < b → (x * b + r) % b ≡ r
  slot-offset x r h = grind arith

  pub position_eq : (p q : ℕ) → p / b ≡ q / b → p % b ≡ q % b → p ≡ q
  position_eq p q d m = grind arith

  pub blocks_for-le : (n k : ℕ) → n ≤ k * b → blocks_for n b ≤ k
  unfolding blocks_for
  blocks_for-le n k h = grind arith
