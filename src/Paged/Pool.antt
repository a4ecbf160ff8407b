-- ===== src/Paged/Pool.antt =====
-- PagedKVCachePool of pace/llm/attention/paged/cache.py: the blocks that all requests share.
pub mod Invariant
use amd_pace.Common.{
  ℕ, ◌+◌, ◌-◌, List, [], ◌++◌, ltb, leb, length, take, drop, if◌then◌else◌, range_from, ok, err,
  Action, ◌>>=◌, ◌>>◌, Dict, find_or, put, erase, sum_of, gets, has, modify,
}
use amd_pace.Kv.{Error, no_free_blocks}

pub record PagedKvCachePool : Type 0 where
  pub total_blocks : ℕ
  pub block_size : ℕ
  pub free_blocks : List ℕ
  pub allocated_blocks : Dict (List ℕ)

-- `__init__`, without the tensors.
unfoldable pub init : ℕ → ℕ → PagedKvCachePool
init total_blocks block_size = record {
  total_blocks = total_blocks;
  block_size = block_size;
  free_blocks = range_from 0 total_blocks;
  allocated_blocks = [];
}

pub record PoolStats : Type 0 where
  pub total : ℕ
  pub free : ℕ
  pub allocated : ℕ
  pub active_requests : ℕ

unfoldable pub get_stats : PagedKvCachePool → PoolStats
get_stats p = record {
  total = p.total_blocks;
  free = length p.free_blocks;
  allocated = sum_of length p.allocated_blocks;
  active_requests = length p.allocated_blocks;
}

unfoldable pub reset_allocations : PagedKvCachePool → PagedKvCachePool
reset_allocations p = record p { free_blocks = range_from 0 p.total_blocks; allocated_blocks = [] }

abbrev pub get_blocks_for_request : ℕ → PagedKvCachePool → List ℕ
get_blocks_for_request request_id p = find_or [] request_id p.allocated_blocks

-- The `popleft`s take the first blocks of the queue.
unfoldable pub allocate_blocks : ℕ → ℕ → Action PagedKvCachePool Error (List ℕ)
allocate_blocks request_id num_blocks p =
    if ltb (length p.free_blocks) num_blocks then (p, err no_free_blocks) else (
      record p {
        free_blocks = drop num_blocks p.free_blocks;
        allocated_blocks =
            put request_id
              (find_or [] request_id p.allocated_blocks ++ take num_blocks p.free_blocks)
              p.allocated_blocks;
      },
      ok (take num_blocks p.free_blocks),
    )

-- Without blocks of the request it only warns.
unfoldable pub free_blocks_for_request : ℕ → PagedKvCachePool → PagedKvCachePool
free_blocks_for_request request_id p =
    if has request_id p.allocated_blocks
    then record p {
      free_blocks = p.free_blocks ++ find_or [] request_id p.allocated_blocks;
      allocated_blocks = erase request_id p.allocated_blocks;
    }
    else p

unfoldable pub ensure_blocks_for_request : ℕ → ℕ → Action PagedKvCachePool Error (List ℕ)
ensure_blocks_for_request request_id required_blocks p =
    if leb required_blocks (length (get_blocks_for_request request_id p))
    then (p, ok (get_blocks_for_request request_id p))
    else (allocate_blocks request_id
            (required_blocks - length (get_blocks_for_request request_id p))
          >> gets (get_blocks_for_request request_id))
        p
