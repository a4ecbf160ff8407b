-- ===== src/Paged/Engine.antt =====
-- PagedCache and SharedPagedKVCache of pace/llm/attention/paged/cache.py: the contexts of the
-- requests that a server decodes together, over one pool.
pub mod Merge
pub mod Lifetime
mod Examples
use amd_pace.Common.{
  ℕ, zero, suc, ◌+◌, ◌-◌, ◌*◌, ◌/◌, ◌%◌, max, Option, none, some, List, [], ◌∷◌, ◌++◌, ltb, leb,
  length, replicate, map, if◌then◌else◌, tabulate, get_or, ok, err, Result, Action, ◌>>=◌, ◌>>◌,
  pure, gets, take, require,
}
use amd_pace.Kv.{Error, index_error, too_many_removed, not_supported}
use amd_pace.Paged.Blocks.{blocks_for}
use amd_pace.Paged.Metadata.{PagedAttentionMetadata}
use amd_pace.Paged.Pool.{
  PagedKvCachePool, init, get_blocks_for_request, ensure_blocks_for_request,
  free_blocks_for_request,
}

pub record PagedCache : Type 0 where
  pub pool : PagedKvCachePool
  pub next_request_id : ℕ

-- A context: its id in the pool, and the `seq_len` of each layer's SharedPagedKVCache.
pub record Context : Type 0 where
  pub pool_request_id : ℕ
  pub seq_lens : List ℕ

abbrev pub seq_len : Context → ℕ
seq_len ctx = get_or ctx.seq_lens 0 0

-- `__init__`
unfoldable pub init_cache : ℕ → ℕ → PagedCache
init_cache max_total_tokens block_size = record {
  pool = init (blocks_for max_total_tokens block_size) block_size;
  next_request_id = 0;
}

unfoldable pub create_context : ℕ → PagedCache → PagedCache × Context
create_context num_layers c = (
  record c { next_request_id = c.next_request_id + 1 },
  record { pool_request_id = c.next_request_id; seq_lens = replicate num_layers 0 },
)

unfoldable pub remove_context : Context → PagedCache → PagedCache
remove_context ctx c = record c { pool = free_blocks_for_request ctx.pool_request_id c.pool }

-- SharedPagedKVCache.remove_cache on each layer, up to one that raises.
abbrev pub remove_layers : ℕ → List ℕ → List ℕ × Result Error Unit
remove_layers m [] = ([], ok tt)
remove_layers m (n ∷ ns) =
    let rest = remove_layers m ns in
    if ltb n m then (n ∷ ns, err too_many_removed) else ((n - m) ∷ rest.0, rest.1)

unfoldable pub remove_cache : ℕ → Action Context Error Unit
remove_cache m ctx = let (ns, r) = remove_layers m ctx.seq_lens in (record ctx { seq_lens = ns }, r)

-- SharedPagedKVCache.update_cache: the paged attention path writes the slices instead.
unfoldable pub update_cache : Action Context Error Unit
update_cache ctx = (ctx, err not_supported)

-- The slot of a position in merge_contexts; `none` is -1.
abbrev pub slot_at : List ℕ → ℕ → ℕ → Option ℕ
slot_at blocks block_size pos =
    if ltb (pos / block_size) (length blocks)
    then some (get_or blocks (pos / block_size) 0 * block_size + pos % block_size)
    else none

-- What the first loop of merge_contexts computes for a context.
pub record Row : Type 0 where
  pub total_seq_len : ℕ
  pub slots : List (Option ℕ)
  pub num_blocks : ℕ

-- layer_cache._ensure_blocks_allocated(total_seq_len), if the blocks do not cover the length.
unfoldable pub ensure_context : ℕ → Context → Action PagedKvCachePool Error Unit
ensure_context total_seq_len ctx p =
    if ltb (length (get_blocks_for_request ctx.pool_request_id p))
      (blocks_for total_seq_len p.block_size)
    then (ensure_blocks_for_request ctx.pool_request_id (blocks_for total_seq_len p.block_size)
          >> pure tt)
        p
    else (p, ok tt)

unfoldable pub row_of : ℕ → Context → PagedKvCachePool → Row
row_of query_len ctx p =
    let blocks = get_blocks_for_request ctx.pool_request_id p in
    record {
      total_seq_len = seq_len ctx + query_len;
      slots = tabulate (slot_at blocks p.block_size) (seq_len ctx) query_len;
      num_blocks = length blocks;
    }

-- mgr.cache_objects[0]
abbrev pub require_layer : Context → Action PagedKvCachePool Error Unit
require_layer ctx = require (ltb 0 (length ctx.seq_lens)) index_error

-- kv_managers[0]
abbrev pub require_context : List Context → Action PagedKvCachePool Error Unit
require_context ctxs = require (ltb 0 (length ctxs)) index_error

unfoldable pub merge_rows : ℕ → List Context → Action PagedKvCachePool Error (List Row)
merge_rows query_len [] = pure []
merge_rows query_len (ctx ∷ ctxs) =
    require_layer ctx
    >> ensure_context (seq_len ctx + query_len) ctx
    >> (gets (row_of query_len ctx) >>= λ row.
        merge_rows query_len ctxs >>= λ rows. pure (row ∷ rows))

abbrev pub max_of : (Row → ℕ) → List Row → ℕ
max_of f [] = 0
max_of f (row ∷ rows) = max (f row) (max_of f rows)

abbrev pub all_slots : List Row → List (Option ℕ)
all_slots [] = []
all_slots (row ∷ rows) = row.slots ++ all_slots rows

-- A row of the block table, with zeros behind it.
abbrev pub padded : ℕ → List ℕ → List ℕ
padded n blocks = take n blocks ++ replicate (n - length blocks) 0

unfoldable pub metadata : ℕ → List Context → List Row → PagedKvCachePool → PagedAttentionMetadata
metadata query_len ctxs rows p = record {
  num_actual_tokens = length ctxs * query_len;
  max_query_len = query_len;
  query_start_loc = tabulate (λ i. i * query_len) 0 (length ctxs + 1);
  max_seq_len = max_of (λ row. row.total_seq_len) rows;
  seq_lens = map (λ row. row.total_seq_len) rows;
  block_table =
      map
        (λ ctx.
          padded (max_of (λ row. row.num_blocks) rows)
            (get_blocks_for_request ctx.pool_request_id p))
        ctxs;
  slot_mapping = all_slots rows;
}

-- The last loop: each layer of a context gets the new length.
abbrev pub with_lengths : List Context → List Row → List Context
with_lengths (ctx ∷ ctxs) (row ∷ rows) =
    record ctx { seq_lens = map (λ n. row.total_seq_len) ctx.seq_lens } ∷ with_lengths ctxs rows
with_lengths _ _ = []

-- merge_contexts: the metadata, and the contexts behind the call. Without contexts the loops do nothing
-- before the last statements raise.
unfoldable pub merge_contexts :
    ℕ → List Context → Action PagedKvCachePool Error (PagedAttentionMetadata × List Context)
merge_contexts query_len ctxs = merge_rows query_len ctxs >>= λ rows.
    require_context ctxs >> gets (λ p. (metadata query_len ctxs rows p, with_lengths ctxs rows))
