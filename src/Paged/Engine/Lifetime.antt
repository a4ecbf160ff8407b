-- ===== src/Paged/Engine/Lifetime.antt =====
-- The lifetime of a context in PagedCache: its id is new, its blocks are its own, and they come back.
use amd_pace.Paged.Blocks.{blocks_for}
use amd_pace.Common.{
  ℕ, zero, suc, ◌+◌, ◌≤◌, ◌<◌, ◌≡◌, refl, ap, ◌∙◌, List, [], ◌∷◌, arith, length, map, ok, get_or,
  replicate, lt→ltb,
}
use amd_pace.Paged.Pool.{init, PagedKvCachePool, get_blocks_for_request}
use amd_pace.Paged.Pool.Invariant.{IsValid, Freed, free_blocks-Freed, init_pool-IsValid}
use amd_pace.Paged.Engine.{
  PagedCache, Context, Row, init_cache, create_context, remove_context, merge_contexts, metadata,
  with_lengths, seq_len, init, blocks_for,
}
use amd_pace.Paged.Engine.Merge.{
  AreDistinct, NotIn, Merged, AllPlaced, AllLayered, all_lack, merge_rows-Merged,
}

-- The pool is valid, and ids that are still to be given out have no blocks.
pub record IsReady (c : PagedCache) : Type 0 where
  pub valid : IsValid c.pool
  pub fresh : (r : ℕ) → c.next_request_id ≤ r → get_blocks_for_request r c.pool ≡ []

abbrev pub Known : PagedCache → List Context → Type 0
Known c [] = Unit {0}
Known c (ctx ∷ ctxs) = (ctx.pool_request_id < c.next_request_id) × Known c ctxs

pub init_cache-IsReady :
    (tokens block_size : ℕ) → 0 < block_size → IsReady (init_cache tokens block_size)
unfolding init_cache init
init_cache-IsReady tokens b pos = record {
  valid = init_pool-IsValid (blocks_for tokens b) b pos;
  fresh = λ r le. refl;
}

Known-NotIn :
    (c : PagedCache) (ctxs : List Context) (r : ℕ)
    → Known c ctxs
    → c.next_request_id ≤ r
    → NotIn r ctxs
Known-NotIn c [] r k le = tt
Known-NotIn c (ctx ∷ ctxs) r (lt, k) le = (λ e. absurd (omega arith), Known-NotIn c ctxs r k le)

Known-more :
    (c d : PagedCache) (ctxs : List Context)
    → c.next_request_id ≤ d.next_request_id
    → Known c ctxs
    → Known d ctxs
Known-more c d [] le k = tt
Known-more c d (ctx ∷ ctxs) le (lt, k) = (omega arith, Known-more c d ctxs le k)

-- A new context holds nothing, has no blocks, and differs from the known ones; the cache stays ready
-- and knows it with them.
pub create_context-IsReady :
    (num_layers : ℕ) (c : PagedCache) (ctxs : List Context)
    → IsReady c
    → Known c ctxs
    → AreDistinct ctxs
    → IsReady (create_context num_layers c).0
      × Known (create_context num_layers c).0 ((create_context num_layers c).1 ∷ ctxs)
      × AreDistinct ((create_context num_layers c).1 ∷ ctxs)
      × (get_blocks_for_request (create_context num_layers c).1.pool_request_id c.pool ≡ [])
      × (seq_len (create_context num_layers c).1 ≡ 0)
unfolding create_context
create_context-IsReady n c ctxs i k d = (
  record { valid = i.valid; fresh = λ r le. i.fresh r (omega arith) },
  (
    omega arith,
    Known-more c (record c { next_request_id = c.next_request_id + 1 }) ctxs (omega arith) k,
  ),
  (Known-NotIn c ctxs c.next_request_id k (omega arith), d),
  i.fresh c.next_request_id (omega arith),
  zero_len n,
)
  where
    zero_len : (n : ℕ) → ◌≡◌ {A = ℕ} (get_or (replicate n 0) 0 0) 0
    zero_len zero = refl
    zero_len (suc n) = refl

-- Removing a known context gives its blocks back and leaves the cache ready.
pub remove_context-IsReady :
    (ctx : Context) (c : PagedCache)
    → IsReady c
    → ctx.pool_request_id < c.next_request_id
    → IsReady (remove_context ctx c) × Freed ctx.pool_request_id c.pool (remove_context ctx c).pool
unfolding remove_context
remove_context-IsReady ctx c i lt =
    let f = free_blocks-Freed ctx.pool_request_id c.pool i.valid in
    (
      record {
        valid = f.valid;
        fresh = λ r le. f.others r (λ e. absurd (omega arith)) ∙ i.fresh r le;
      },
      f,
    )

-- Every layer of a context behind the call has the new length.
abbrev pub AllAdvanced : ℕ → List Context → List Context → Type 0
AllAdvanced q [] [] = Unit {0}
AllAdvanced q (ctx ∷ ctxs) (new ∷ news) =
    (new.pool_request_id ≡ ctx.pool_request_id)
    × (new.seq_lens ≡ map (λ n. seq_len ctx + q) ctx.seq_lens)
    × AllAdvanced q ctxs news
AllAdvanced q _ _ = ⊥

with_lengths-AllAdvanced :
    (q : ℕ) (p : PagedKvCachePool) (ctxs : List Context) (rows : List Row)
    → AllPlaced q p ctxs rows
    → AllAdvanced q ctxs (with_lengths ctxs rows)
with_lengths-AllAdvanced q p [] [] a = tt
with_lengths-AllAdvanced q p [] (row ∷ rows) a = absurd a
with_lengths-AllAdvanced q p (ctx ∷ ctxs) [] a = absurd a
with_lengths-AllAdvanced q p (ctx ∷ ctxs) (row ∷ rows) (x, a) = (
  refl,
  ap (λ k. map (λ (n : ℕ). k) ctx.seq_lens) x.length_eq,
  with_lengths-AllAdvanced q p ctxs rows a,
)

-- For one or more known and different contexts, each with a layer, whose lacking blocks are free,
-- merge_contexts does not raise: the new tokens of each are covered and placed, each is longer by them, and the cache stays ready.
pub merge_contexts-IsReady :
    (query_len : ℕ) (ctxs : List Context) (c : PagedCache)
    → IsReady c
    → Known c ctxs
    → AreDistinct ctxs
    → 0 < length ctxs
    → AllLayered ctxs
    → all_lack query_len ctxs c.pool ≤ length c.pool.free_blocks
    → (rows : List Row) × (news : List Context) × ((merge_contexts query_len ctxs c.pool).1
        ≡ ok (metadata query_len ctxs rows (merge_contexts query_len ctxs c.pool).0, news))
      × Merged query_len c.pool (merge_contexts query_len ctxs c.pool).0 ctxs rows
      × AllAdvanced query_len ctxs news
      × IsReady (record c { pool = (merge_contexts query_len ctxs c.pool).0 })
unfolding merge_contexts
merge_contexts-IsReady q ctxs c i k d some_context t le =
    let (rows, done, m) = merge_rows-Merged q ctxs c.pool i.valid d t le in
    rw (done, lt→ltb 0 (length ctxs) some_context)
      (
        rows,
        with_lengths ctxs rows,
        refl,
        m,
        with_lengths-AllAdvanced q _ ctxs rows m.placed,
        record {
          valid = m.valid;
          fresh = λ r le. m.others r (Known-NotIn c ctxs r k le) ∙ i.fresh r le;
        },
      )
