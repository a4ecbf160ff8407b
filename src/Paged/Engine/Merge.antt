-- ===== src/Paged/Engine/Merge.antt =====
-- merge_contexts: each request gets the blocks for its new tokens, and no two tokens share a slot.
use amd_pace.Common.{
  ℕ, ◌+◌, ◌-◌, ◌*◌, ◌/◌, ◌%◌, ◌≤◌, ◌<◌, ◌≡◌, ◌≢◌, refl, sym, ap, ◌∙◌, some, List, [], ◌∷◌, arith,
  length, tabulate, ok, Bool-cases, inl, inr, ltb, append-nil, length-append, lt→ltb, tabulate-eq,
  get_elem?-some, ap₂, get_or-get_elem?, count_pos,
}
use amd_pace.Paged.Blocks.{blocks_for, blocks_for_bounds, block_index-lt, slot-block}
use amd_pace.Paged.Slots.{place}
use amd_pace.Paged.Pool.{PagedKvCachePool, get_blocks_for_request}
use amd_pace.Paged.Pool.Invariant.{IsValid, Others, Allocated, ensure_blocks-Allocated, block-owner}
use amd_pace.Paged.Engine.{Context, seq_len, Row, slot_at, ensure_context, row_of, merge_rows}

slot_at-place :
    (blocks : List ℕ) (b pos : ℕ)
    → 0 < b
    → pos < length blocks * b
    → slot_at blocks b pos ≡ some (place blocks b pos)
slot_at-place blocks b pos h lt =
    rw (lt→ltb (pos / b) (length blocks) (block_index-lt b h pos (length blocks) lt)) refl

-- The blocks that a context lacks for `query_len` more tokens.
abbrev pub lacks : ℕ → Context → PagedKvCachePool → ℕ
lacks query_len ctx p =
    blocks_for (seq_len ctx + query_len) p.block_size
    - length (get_blocks_for_request ctx.pool_request_id p)

abbrev pub all_lack : ℕ → List Context → PagedKvCachePool → ℕ
all_lack query_len [] p = 0
all_lack query_len (ctx ∷ ctxs) p = lacks query_len ctx p + all_lack query_len ctxs p

ensure_context-Allocated :
    (q : ℕ) (ctx : Context) (p : PagedKvCachePool)
    → IsValid p
    → lacks q ctx p ≤ length p.free_blocks
    → ((ensure_context (seq_len ctx + q) ctx p).1 ≡ ok tt)
      × Allocated ctx.pool_request_id (lacks q ctx p) p (ensure_context (seq_len ctx + q) ctx p).0
unfolding ensure_context
ensure_context-Allocated q ctx p v le =
    let need = blocks_for (seq_len ctx + q) p.block_size in
    elim (Bool-cases (ltb (length (get_blocks_for_request ctx.pool_request_id p)) need)) [
      | inl e ↦
          let (done, a) = ensure_blocks-Allocated ctx.pool_request_id need p v le in
          rw (e, done) (refl, a)
      | inr e ↦ rw e (
        refl,
        record {
          valid = v;
          more = [];
          length-more = ground arith;
          blocks = sym (append-nil (get_blocks_for_request ctx.pool_request_id p));
          others = λ s ne. refl;
          same_size = refl;
          same_total = refl;
          free_left = ground arith;
        },
      )
    ]

-- In a valid pool, covered positions of different requests never have the same place.
pub requests-apart :
    (p : PagedKvCachePool) (r s i j : ℕ)
    → IsValid p
    → r ≢ s
    → i < length (get_blocks_for_request r p) * p.block_size
    → j < length (get_blocks_for_request s p) * p.block_size
    → place (get_blocks_for_request r p) p.block_size i
      ≢ place (get_blocks_for_request s p) p.block_size j
requests-apart p r s i j v ne hi hj e =
    let b = p.block_size in
    let pos = v.block_pos in
    let xs = get_blocks_for_request r p in
    let ys = get_blocks_for_request s p in
    let (x, ex) = get_elem?-some xs (i / b) (block_index-lt b pos i (length xs) hi) in
    let (y, ey) = get_elem?-some ys (j / b) (block_index-lt b pos j (length ys) hj) in
    let same : x * b + i % b ≡ y * b + j % b =
      rw (get_or-get_elem? xs (i / b) 0 x ex, get_or-get_elem? ys (j / b) 0 y ey) at e in
    let ri : i % b < b = omega arith in
    let rj : j % b < b = omega arith in
    let blk : x ≡ y =
      sym (slot-block b pos x (i % b) ri) ∙ ap (λ n. n / b) same ∙ slot-block b pos y (j % b) rj in
    omega (
      arith,
      block-owner p r s x v ne,
      count_pos xs (i / b) x ex,
      count_pos ys (j / b) x (rw (← blk) at ey),
    )

abbrev pub NotIn : ℕ → List Context → Type 0
NotIn r [] = Unit {0}
NotIn r (ctx ∷ ctxs) = (r ≢ ctx.pool_request_id) × NotIn r ctxs

abbrev pub AreDistinct : List Context → Type 0
AreDistinct [] = Unit {0}
AreDistinct (ctx ∷ ctxs) = NotIn ctx.pool_request_id ctxs × AreDistinct ctxs

-- The blocks of a context cover its new tokens, which have their slots in them.
pub record Placed (query_len : ℕ) (p : PagedKvCachePool) (ctx : Context) (row : Row) : Type 0 where
  pub length_eq : row.total_seq_len ≡ seq_len ctx + query_len
  pub covered :
      seq_len ctx + query_len ≤ length (get_blocks_for_request ctx.pool_request_id p) * p.block_size
  pub slots_eq :
      row.slots
      ≡ tabulate
          (λ pos. some (place (get_blocks_for_request ctx.pool_request_id p) p.block_size pos))
          (seq_len ctx)
          query_len

abbrev pub AllPlaced : ℕ → PagedKvCachePool → List Context → List Row → Type 0
AllPlaced q p [] [] = Unit {0}
AllPlaced q p (ctx ∷ ctxs) (row ∷ rows) = Placed q p ctx row × AllPlaced q p ctxs rows
AllPlaced q p _ _ = ⊥

pub record Merged (query_len : ℕ) (p p' : PagedKvCachePool) (ctxs : List Context) (rows : List Row)
    : Type 0 where
  pub valid : IsValid p'
  pub others : (r : ℕ) → NotIn r ctxs → get_blocks_for_request r p' ≡ get_blocks_for_request r p
  pub same_size : p'.block_size ≡ p.block_size
  pub placed : AllPlaced query_len p' ctxs rows

Placed-same :
    (q : ℕ) (p p' : PagedKvCachePool) (ctx : Context) (row : Row)
    → get_blocks_for_request ctx.pool_request_id p' ≡ get_blocks_for_request ctx.pool_request_id p
    → p'.block_size ≡ p.block_size
    → Placed q p ctx row
    → Placed q p' ctx row
Placed-same q p p' ctx row e b x = record {
  length_eq = x.length_eq;
  covered = rw (e, b) x.covered;
  slots_eq = rw (e, b) x.slots_eq;
}

row_of-Placed :
    (q : ℕ) (ctx : Context) (p p' : PagedKvCachePool)
    → IsValid p
    → Allocated ctx.pool_request_id (lacks q ctx p) p p'
    → Placed q p' ctx (row_of q ctx p')
unfolding row_of
row_of-Placed q ctx p p' v a =
    let blocks = get_blocks_for_request ctx.pool_request_id p' in
    let bound = (blocks_for_bounds p.block_size v.block_pos (seq_len ctx + q)).0 in
    let len : blocks_for (seq_len ctx + q) p.block_size ≤ length blocks = omega (
      arith,
      ap length a.blocks,
      length-append (get_blocks_for_request ctx.pool_request_id p) a.more,
      a.length-more,
    ) in
    let room : seq_len ctx + q ≤ length blocks * p'.block_size =
      grind (arith, bound, len, a.same_size) in
    record {
      length_eq = refl;
      covered = room;
      slots_eq =
          tabulate-eq (slot_at blocks p'.block_size) (λ pos. some (place blocks p'.block_size pos))
            (seq_len ctx) q
            λ pos lt. slot_at-place blocks p'.block_size pos a.valid.block_pos (omega arith);
    }

all_lack-same :
    (q r : ℕ) (ctxs : List Context) (p p' : PagedKvCachePool)
    → NotIn r ctxs
    → Others r p p'
    → p'.block_size ≡ p.block_size
    → all_lack q ctxs p' ≡ all_lack q ctxs p
all_lack-same q r [] p p' ni o b = refl
all_lack-same q r (ctx ∷ ctxs) p p' (ne, ni) o b =
    ap₂ (λ (x y : ℕ). x + y) (rw (o ctx.pool_request_id (λ e. ne (sym e)), b) refl)
      (all_lack-same q r ctxs p p' ni o b)

abbrev pub AllLayered : List Context → Type 0
AllLayered [] = Unit {0}
AllLayered (ctx ∷ ctxs) = (0 < length ctx.seq_lens) × AllLayered ctxs

-- If each context has a layer and the free blocks are enough for what the contexts lack, the first loop does not raise; then all
-- new tokens are covered and placed, and requests outside the batch keep their blocks.
pub merge_rows-Merged :
    (query_len : ℕ) (ctxs : List Context) (p : PagedKvCachePool)
    → IsValid p
    → AreDistinct ctxs
    → AllLayered ctxs
    → all_lack query_len ctxs p ≤ length p.free_blocks
    → (rows : List Row) × ((merge_rows query_len ctxs p).1 ≡ ok rows)
      × Merged query_len p (merge_rows query_len ctxs p).0 ctxs rows
unfolding merge_rows
merge_rows-Merged q [] p v d t le =
    ([], refl, record { valid = v; others = λ r ni. refl; same_size = refl; placed = tt })
merge_rows-Merged q (ctx ∷ ctxs) p v (ni, d) (layer, t) le =
    let (done, a) = ensure_context-Allocated q ctx p v (omega arith) in
    let p1 = (ensure_context (seq_len ctx + q) ctx p).0 in
    let same = all_lack-same q ctx.pool_request_id ctxs p p1 ni a.others a.same_size in
    let (rows, rest_done, m) =
      merge_rows-Merged q ctxs p1 a.valid d t (omega (arith, same, a.free_left)) in
    rw (lt→ltb 0 (length ctx.seq_lens) layer, done, rest_done)
      (
        row_of q ctx p1 ∷ rows,
        refl,
        record {
          valid = m.valid;
          others = λ r (ne, rest). m.others r rest ∙ a.others r ne;
          same_size = m.same_size ∙ a.same_size;
          placed = (
            Placed-same q p1 _ ctx _ (m.others ctx.pool_request_id ni) m.same_size
                (row_of-Placed q ctx p p1 v a),
            m.placed,
          );
        },
      )
