-- ===== src/Kv/Segments.antt =====
-- The sizes of the BMC cache in pace/llm/attention/contiguous/cache.py.
use amd_pace.Common.{
  refl, ◌≡◌, ℕ, zero, suc, ◌+◌, ◌-◌, ◌*◌, ◌/◌, ◌≤◌, ◌<◌, arith, ◌==◌, leb, if◌then◌else◌, Option,
  none, some, ◌≡◌, pos-eq-false,
}

-- int(math.sqrt(n)), exact for the sequence lengths in use.
pub isqrt : ℕ → ℕ
isqrt zero = 0
isqrt (suc n) = let r = isqrt n in if leb ((r + 1) * (r + 1)) (n + 1) then r + 1 else r

pub isqrt_bounds : (n : ℕ) → (isqrt n * isqrt n ≤ n) × (n < (isqrt n + 1) * (isqrt n + 1))
unfolding isqrt
isqrt_bounds zero = omega arith
isqrt_bounds (suc n) = ground (arith, isqrt_bounds n)

-- int(os.getenv("PACE_BMC_NUM_SPLITS", int(math.sqrt(max_seq_length))))
unfoldable pub num_splits : Option ℕ → ℕ → ℕ
num_splits none max_seq_length = isqrt max_seq_length
num_splits (some n) max_seq_length = n

-- (segment_idx + 1) * tokens_per_split, for segment_idx = (updated_seq_len - 1) // tokens_per_split;
-- Python's `-1 // n` is -1, so an empty sequence gets an empty segment.
unfoldable pub segment_len : ℕ → ℕ → ℕ
segment_len tokens_per_split updated =
    if updated == 0 then 0 else ((updated - 1) / tokens_per_split + 1) * tokens_per_split

pub le-segment_len : (t n : ℕ) → 0 < t → n ≤ segment_len t n
unfolding segment_len
le-segment_len t n h = ground arith

pub segment_len-lt : (t n : ℕ) → 0 < t → segment_len t n < n + t
unfolding segment_len
segment_len-lt t n h = ground arith

whole_splits : (t n : ℕ) → (splits : ℕ) × (segment_len t n ≡ splits * t)
unfolding segment_len
whole_splits t zero = (0, omega arith)
whole_splits t (suc n) = ((suc n - 1) / t + 1, rw (pos-eq-false (suc n) (omega arith)) refl)

-- For a positive split the segment has room for the sequence, by less than one split too much, and is
-- made of whole splits.
pub segment_len_bounds :
    (tokens_per_split updated : ℕ)
    → 0 < tokens_per_split
    → (updated ≤ segment_len tokens_per_split updated)
      × (segment_len tokens_per_split updated < updated + tokens_per_split)
      × ((splits : ℕ) × (segment_len tokens_per_split updated ≡ splits * tokens_per_split))
segment_len_bounds t n h = (le-segment_len t n h, segment_len-lt t n h, whole_splits t n)

-- An environment that gives a number of splits, or none.
abbrev pub IsSensible : Option ℕ → ℕ → Type 0
IsSensible none max_seq_length = 0 < max_seq_length
IsSensible (some n) max_seq_length = (0 < n) × (n ≤ max_seq_length)

-- The number of splits is the environment's, or else the rounded square root of the length.
abbrev pub IsChosen : Option ℕ → ℕ → ℕ → Type 0
IsChosen none max_seq_length splits =
    (splits * splits ≤ max_seq_length) × (max_seq_length < (splits + 1) * (splits + 1))
IsChosen (some n) max_seq_length splits = splits ≡ n

root_pos : (r n : ℕ) → 0 < n → n < (r + 1) * (r + 1) → 0 < r
root_pos zero n pos h = absurd (omega (arith, pos, h))
root_pos (suc r) n pos h = omega arith

root_le : (r n : ℕ) → r * r ≤ n → r ≤ n
root_le zero n h = omega arith
root_le (suc r) n h = ground (arith, h)

pub chosen :
    (env : Option ℕ) (n : ℕ)
    → IsSensible env n
    → IsChosen env n (num_splits env n) × (0 < num_splits env n) × (num_splits env n ≤ n)
unfolding num_splits
chosen none n pos =
    let (low, high) = isqrt_bounds n in
    ((low, high), root_pos (isqrt n) n pos high, root_le (isqrt n) n low)
chosen (some k) n (pos, le) = (refl, pos, le)

-- Whole splits of the size that division gives.
pub split_size : (n k : ℕ) → 0 < k → (k * (n / k) ≤ n) × (n < k * (n / k + 1))
split_size n k pos = (ground arith, ground arith)
