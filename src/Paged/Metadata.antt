-- ===== src/Paged/Metadata.antt =====
-- pace/llm/attention/paged/utils.py: the block table of a batch over one PagedKVCache, and the
-- metadata of ragged sequences that are packed behind one another.
pub mod Laws
mod Examples
use amd_pace.Common.{
  ℕ, zero, suc, ◌+◌, ◌-◌, ◌*◌, min, max, Bool, true, false, ◌&&◌, Option, List, [], ◌∷◌, ◌++◌, ltb,
  ◌==◌, if◌then◌else◌, length, take, drop, replicate, map, tabulate, ok, err, Result, Action, ◌>>◌,
}
use amd_pace.Kv.{Error, bad_tensor, index_error}
use amd_pace.Paged.Blocks.{blocks_for}
use amd_pace.Paged.Slots.{seq_slots}
use amd_pace.Paged.Cache.{init, PagedKvCache, ensure_blocks_allocated}

pub record PagedAttentionMetadata : Type 0 where
  pub num_actual_tokens : ℕ
  pub max_query_len : ℕ
  pub query_start_loc : List ℕ
  pub max_seq_len : ℕ
  pub seq_lens : List ℕ
  pub block_table : List (List ℕ)
  pub slot_mapping : List (Option ℕ)

-- A row of a block table, with zeros behind it.
abbrev pub padded_row : ℕ → List ℕ → List ℕ
padded_row n row = row ++ replicate (n - length row) 0

-- xs[start : start + n]
abbrev pub slice : ℕ → ℕ → List ℕ → List ℕ
slice start n xs = take n (drop start xs)

-- A sequence of a batch: its new tokens and the tokens that are cached.
pub record Query : Type 0 where
  pub actual_length : ℕ
  pub past_length : ℕ

abbrev pub total_of : Query → ℕ
total_of q = q.past_length + q.actual_length

abbrev pub max_by : (Query → ℕ) → List Query → ℕ
max_by f [] = 0
max_by f (q ∷ qs) = max (f q) (max_by f qs)

abbrev pub total_tokens : List Query → ℕ
total_tokens [] = 0
total_tokens (q ∷ qs) = q.actual_length + total_tokens qs

-- torch.cumsum, behind `start`.
abbrev pub cumsum : ℕ → List Query → List ℕ
cumsum start [] = []
cumsum start (q ∷ qs) = (start + q.actual_length) ∷ cumsum (start + q.actual_length) qs

abbrev pub table_rows : ℕ → ℕ → ℕ → List ℕ → List (List ℕ)
table_rows batch_size max_blocks_per_seq blocks_per_seq blocks =
    if length blocks == 0
    then replicate batch_size (replicate max_blocks_per_seq 0)
    else (if ltb 0 blocks_per_seq && ltb 1 batch_size
        then tabulate
            (λ seq_idx.
              padded_row max_blocks_per_seq
                (slice (seq_idx * blocks_per_seq) (min max_blocks_per_seq blocks_per_seq) blocks))
            0 batch_size
        else replicate batch_size
            (padded_row max_blocks_per_seq (take (min max_blocks_per_seq (length blocks)) blocks)))

-- The loop over the sequences, from `seq_idx` on: their slots and their rows.
abbrev pub packed_slots : List ℕ → ℕ → ℕ → ℕ → List Query → List (Option ℕ)
packed_slots blocks block_size blocks_per_seq seq_idx [] = []
packed_slots blocks block_size blocks_per_seq seq_idx (q ∷ qs) =
    seq_slots blocks block_size (seq_idx * blocks_per_seq) q.past_length q.actual_length
    ++ packed_slots blocks block_size blocks_per_seq (seq_idx + 1) qs

abbrev pub packed_rows : List ℕ → ℕ → ℕ → ℕ → ℕ → List Query → List (List ℕ)
packed_rows blocks block_size blocks_per_seq max_blocks seq_idx [] = []
packed_rows blocks block_size blocks_per_seq max_blocks seq_idx (q ∷ qs) =
    take max_blocks (
      padded_row max_blocks
        (slice (seq_idx * blocks_per_seq) (blocks_for (total_of q) block_size) blocks))
    ∷ packed_rows blocks block_size blocks_per_seq max_blocks (seq_idx + 1) qs

module _ {A : Type 0} where
  -- create_paged_kv_cache_manager: a layer's cache for a batch, and the blocks for each sequence;
  -- `blank` is a slice of zeros.
  unfoldable pub create_paged_kv_cache : A → ℕ → ℕ → ℕ → PagedKvCache A × ℕ
  create_paged_kv_cache blank max_seq_length block_size batch_size =
      let blocks_per_seq = blocks_for max_seq_length block_size in
      (init blank (blocks_per_seq * batch_size * block_size) block_size, blocks_per_seq)

  -- What both builders ask of the cache first.
  unfoldable pub ensure_batch : ℕ → ℕ → ℕ → ℕ → Action (PagedKvCache A) Error Unit
  ensure_batch block_size batch_size blocks_per_seq len c =
      ensure_blocks_allocated
        (if ltb 1 batch_size && ltb 0 blocks_per_seq
          then blocks_per_seq * batch_size * block_size
          else len)
        c

  unfoldable pub build_block_table : ℕ → ℕ → ℕ → Action (PagedKvCache A) Error (List (List ℕ))
  build_block_table batch_size total_seq_len blocks_per_seq c0 =
      (ensure_batch c0.block_size batch_size blocks_per_seq total_seq_len >> λ c. (
        c,
        ok (
            table_rows batch_size (blocks_for total_seq_len c.block_size) blocks_per_seq
              c.allocated_blocks),
      ))
        c0

  unfoldable pub packed_metadata : ℕ → ℕ → List Query → PagedKvCache A → PagedAttentionMetadata
  packed_metadata block_size blocks_per_seq qs c = record {
    num_actual_tokens = total_tokens qs;
    max_query_len = max_by (λ q. q.actual_length) qs;
    query_start_loc = 0 ∷ cumsum 0 qs;
    max_seq_len = max_by total_of qs;
    seq_lens = map total_of qs;
    block_table =
        packed_rows c.allocated_blocks block_size blocks_per_seq
          (blocks_for (max_by total_of qs) block_size) 0 qs;
    slot_mapping = packed_slots c.allocated_blocks block_size blocks_per_seq 0 qs;
  }

  abbrev pub with_length : ℕ → PagedKvCache A → PagedKvCache A
  with_length n c = record c { seq_len = n }

  -- build_paged_attention_metadata, with the caches of the layers: the first one has the blocks, each
  -- one gets the new length. The maximum of no lengths, or no layer, raises, and so does a lookup for a
  -- token in a table without blocks.
  unfoldable pub build_paged_attention_metadata :
      ℕ
      → ℕ
      → List Query
      → Action (PagedKvCache A × List (PagedKvCache A)) Error PagedAttentionMetadata
  build_paged_attention_metadata block_size blocks_per_seq [] layers = (layers, err bad_tensor)
  build_paged_attention_metadata block_size blocks_per_seq (q ∷ qs) (c, others) =
      let n = max_by total_of (q ∷ qs) in
      let (d, r) = ensure_batch block_size (length (q ∷ qs)) blocks_per_seq n c in
      finish r ((length d.allocated_blocks == 0) && ltb 0 (total_tokens (q ∷ qs)))
        (
          (with_length n d, map (with_length n) others),
          packed_metadata block_size blocks_per_seq (q ∷ qs) d,
        )
        (d, others)
    where
      finish :
          Result Error Unit
          → Bool
          → (PagedKvCache A × List (PagedKvCache A)) × PagedAttentionMetadata
          → PagedKvCache A × List (PagedKvCache A)
          → (PagedKvCache A × List (PagedKvCache A)) × Result Error PagedAttentionMetadata
      finish (err e) missing done raised = (raised, err e)
      finish (ok _) true done raised = (raised, err index_error)
      finish (ok _) false (layers, meta) raised = (layers, ok meta)
