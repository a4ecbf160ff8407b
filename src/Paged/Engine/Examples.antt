-- ===== src/Paged/Engine/Examples.antt =====
-- Two requests in a pool of eight blocks, and the theorems about the pool and its contexts at these.
use amd_pace.Common.{ℕ, ◌+◌, ◌≤◌, ◌≡◌, ◌≢◌, refl, List, [], ◌∷◌, arith, ok, err, count}
use amd_pace.Kv.{no_free_blocks}
use amd_pace.Paged.Blocks.{blocks_for}
use amd_pace.Paged.Slots.{place}
use amd_pace.Paged.Pool.{
  PagedKvCachePool, get_blocks_for_request, allocate_blocks, free_blocks_for_request,
  ensure_blocks_for_request,
}
use amd_pace.Paged.Pool.Invariant.{
  IsValid, Allocated, Freed, allocate_blocks-Allocated, free_blocks-Freed, ensure_blocks_short,
  block-owner,
}
use amd_pace.Paged.Engine.{
  PagedCache, Context, Row, create_context, remove_context, merge_contexts, metadata, seq_len,
}
use amd_pace.Paged.Engine.Merge.{Merged, AreDistinct, requests-apart}
use amd_pace.Paged.Engine.Lifetime.{
  IsReady, Known, AllAdvanced, create_context-IsReady, remove_context-IsReady,
  merge_contexts-IsReady,
}

abbrev shared : PagedKvCachePool
shared = record {
  total_blocks = 8;
  block_size = 2;
  free_blocks = 2 ∷ 4 ∷ 5 ∷ 6 ∷ 7 ∷ [];
  allocated_blocks = (0, 3 ∷ 1 ∷ []) ∷ (1, 0 ∷ []) ∷ [];
}

shared-IsValid : IsValid shared
shared-IsValid = record {
  block_pos = omega arith;
  partition = λ b. unfold count in ground arith;
  total = refl;
  unique = (refl, (refl, tt));
}

allocate_blocks-Allocated_example :
    ((more : List ℕ) × ((allocate_blocks 1 2 shared).1 ≡ ok more))
    × Allocated 1 2 shared (allocate_blocks 1 2 shared).0
allocate_blocks-Allocated_example =
    allocate_blocks-Allocated 1 2 shared shared-IsValid (omega arith)

free_blocks-Freed_example : Freed 0 shared (free_blocks_for_request 0 shared)
free_blocks-Freed_example = free_blocks-Freed 0 shared shared-IsValid

short_test : ensure_blocks_for_request 1 9 shared ≡ (shared, err no_free_blocks)
short_test = ensure_blocks_short 1 9 shared (omega arith)

owner_test :
    count 1 (get_blocks_for_request 0 shared)
      + count 1 (get_blocks_for_request 1 shared)
      + count 1 shared.free_blocks
    ≤ 1
owner_test = block-owner shared 0 1 1 shared-IsValid (omega arith)

requests-apart_example : place (3 ∷ 1 ∷ []) 2 2 ≢ place (0 ∷ []) 2 1
requests-apart_example =
    requests-apart shared 0 1 2 1 shared-IsValid (omega arith) (omega arith) (omega arith)

abbrev cache : PagedCache
cache = record { pool = shared; next_request_id = 2 }

cache-IsReady : IsReady cache
cache-IsReady = record { valid = shared-IsValid; fresh = λ r le. ground arith }

abbrev first : Context
first = record { pool_request_id = 0; seq_lens = 4 ∷ 4 ∷ [] }

abbrev second : Context
second = record { pool_request_id = 1; seq_lens = 1 ∷ 1 ∷ [] }

abbrev batch : List Context
batch = first ∷ second ∷ []

batch-Known : Known cache batch
batch-Known = (omega arith, (omega arith, tt))

batch-AreDistinct : AreDistinct batch
batch-AreDistinct = ((omega arith, tt), (tt, tt))

merge_contexts-IsReady_example :
    (rows : List Row) × (news : List Context) × ((merge_contexts 2 batch shared).1
      ≡ ok (metadata 2 batch rows (merge_contexts 2 batch shared).0, news))
    × Merged 2 shared (merge_contexts 2 batch shared).0 batch rows
    × AllAdvanced 2 batch news
    × IsReady (record cache { pool = (merge_contexts 2 batch shared).0 })
merge_contexts-IsReady_example =
    merge_contexts-IsReady 2 batch cache cache-IsReady batch-Known batch-AreDistinct (omega arith)
      (omega arith, (omega arith, tt)) (unfold blocks_for in omega arith)

create_context-IsReady_example :
    IsReady (create_context 2 cache).0
    × Known (create_context 2 cache).0 ((create_context 2 cache).1 ∷ batch)
    × AreDistinct ((create_context 2 cache).1 ∷ batch)
    × (get_blocks_for_request (create_context 2 cache).1.pool_request_id shared ≡ [])
    × (seq_len (create_context 2 cache).1 ≡ 0)
create_context-IsReady_example =
    create_context-IsReady 2 cache batch cache-IsReady batch-Known batch-AreDistinct

remove_context-IsReady_example :
    IsReady (remove_context first cache) × Freed 0 shared (remove_context first cache).pool
remove_context-IsReady_example = remove_context-IsReady first cache cache-IsReady (omega arith)
