-- ===== src/Paged/Pool/Invariant.antt =====
-- The pool neither loses a block nor hands one out twice.
use amd_pace.Common.{
  ℕ, ◌+◌, ◌-◌, ◌≤◌, ◌<◌, ◌≡◌, ◌≢◌, refl, sym, ap, List, [], ◌++◌, arith, leb, length, take, ok, err,
  find_or, sum_of, has, count, below_once, IsUnique, sum_of-put, sum_of-erase, sum_of-two,
  put-IsUnique, erase-IsUnique, find_or-put_self, find_or-put_ne, find_or-erase_self,
  find_or-erase_ne, find_or-has, count-append, count-nil, count-take-drop, count-range,
  length-range_from, length-append, length-take, length-drop, Bool-cases, inl, inr, ltb-eq-false,
  append-nil, leb-eq-false, lt→ltb,
}
use amd_pace.Kv.{no_free_blocks}
use amd_pace.Paged.Pool.{
  PagedKvCachePool, init, reset_allocations, get_blocks_for_request, allocate_blocks,
  free_blocks_for_request, ensure_blocks_for_request,
}

pub record IsValid (p : PagedKvCachePool) : Type 0 where
  pub block_pos : 0 < p.block_size
  -- Each block below `total_blocks` is free, or allocated to one request, once.
  pub partition :
      (b : ℕ)
      → count b p.free_blocks + sum_of (count b) p.allocated_blocks ≡ below_once p.total_blocks b
  pub total : length p.free_blocks + sum_of length p.allocated_blocks ≡ p.total_blocks
  pub unique : IsUnique p.allocated_blocks

pub init_pool-IsValid : (n b : ℕ) → 0 < b → IsValid (init n b)
unfolding init
init_pool-IsValid n b pos = record {
  block_pos = pos;
  partition = λ x. omega (arith, count-range x n);
  total = omega (arith, length-range_from 0 n);
  unique = tt;
}

-- The other requests' blocks are the same.
abbrev pub Others : ℕ → PagedKvCachePool → PagedKvCachePool → Type 0
Others request_id p q =
    (r : ℕ) → r ≢ request_id → get_blocks_for_request r q ≡ get_blocks_for_request r p

pub record Allocated (request_id n : ℕ) (p q : PagedKvCachePool) : Type 0 where
  pub valid : IsValid q
  pub more : List ℕ
  pub length-more : length more ≡ n
  pub blocks : get_blocks_for_request request_id q ≡ get_blocks_for_request request_id p ++ more
  pub others : Others request_id p q
  pub same_size : q.block_size ≡ p.block_size
  pub same_total : q.total_blocks ≡ p.total_blocks
  pub free_left : length q.free_blocks + n ≡ length p.free_blocks

-- An allocation of at most the free blocks of a valid pool does not raise; it puts that many blocks
-- behind the request's, changes no other request's, and leaves the pool valid.
pub allocate_blocks-Allocated :
    (request_id n : ℕ) (p : PagedKvCachePool)
    → IsValid p
    → n ≤ length p.free_blocks
    → ((more : List ℕ) × ((allocate_blocks request_id n p).1 ≡ ok more))
      × Allocated request_id n p (allocate_blocks request_id n p).0
unfolding allocate_blocks
allocate_blocks-Allocated r n p v le =
    let old = find_or [] r p.allocated_blocks in
    let new = take n p.free_blocks in
    rw (ltb-eq-false (length p.free_blocks) n le) (
      (new, refl),
      record {
        valid = record {
          block_pos = v.block_pos;
          partition = λ b. omega (
            arith,
            v.partition b,
            sum_of-put (count b) [] (count-nil b) r (old ++ new) p.allocated_blocks,
            count-append b old new,
            count-take-drop b n p.free_blocks,
          );
          total = omega (
            arith,
            v.total,
            sum_of-put length [] refl r (old ++ new) p.allocated_blocks,
            length-append old new,
            length-take n p.free_blocks,
            length-drop n p.free_blocks,
          );
          unique = put-IsUnique r (old ++ new) p.allocated_blocks v.unique;
        };
        more = new;
        length-more = omega (arith, length-take n p.free_blocks);
        blocks = find_or-put_self [] r (old ++ new) p.allocated_blocks;
        others = λ s ne. find_or-put_ne [] r s (old ++ new) p.allocated_blocks ne;
        same_size = refl;
        same_total = refl;
        free_left = omega (arith, length-drop n p.free_blocks);
      },
    )

pub record Freed (request_id : ℕ) (p q : PagedKvCachePool) : Type 0 where
  pub valid : IsValid q
  pub none_left : get_blocks_for_request request_id q ≡ []
  pub others : Others request_id p q
  pub given_back :
      length q.free_blocks ≡ length p.free_blocks + length (get_blocks_for_request request_id p)

-- Freeing a request of a valid pool gives all of its blocks back, changes no other request's, and
-- leaves the pool valid.
pub free_blocks-Freed :
    (request_id : ℕ) (p : PagedKvCachePool)
    → IsValid p
    → Freed request_id p (free_blocks_for_request request_id p)
unfolding free_blocks_for_request
free_blocks-Freed r p v = elim (Bool-cases (has r p.allocated_blocks)) [
  | inl e ↦
      let old = find_or [] r p.allocated_blocks in
      rw e (record {
        valid = record {
          block_pos = v.block_pos;
          partition = λ b. omega (
            arith,
            v.partition b,
            sum_of-erase (count b) [] (count-nil b) r p.allocated_blocks,
            count-append b p.free_blocks old,
          );
          total = omega (
            arith,
            v.total,
            sum_of-erase length [] refl r p.allocated_blocks,
            length-append p.free_blocks old,
          );
          unique = erase-IsUnique r p.allocated_blocks v.unique;
        };
        none_left = find_or-erase_self [] r p.allocated_blocks v.unique;
        others = λ s ne. find_or-erase_ne [] r s p.allocated_blocks ne;
        given_back = length-append p.free_blocks old;
      })
  | inr e ↦
      let gone = find_or-has [] r p.allocated_blocks e in
      rw e (record {
        valid = v;
        none_left = gone;
        others = λ s ne. refl;
        given_back = omega (arith, ap length gone);
      })
]

-- A block of a valid pool belongs to one request at most, once, and is then not free.
pub block-owner :
    (p : PagedKvCachePool) (r s b : ℕ)
    → IsValid p
    → r ≢ s
    → count b (get_blocks_for_request r p)
        + count b (get_blocks_for_request s p)
        + count b p.free_blocks
      ≤ 1
block-owner p r s b v ne =
    ground (arith, v.partition b, sum_of-two (count b) [] (count-nil b) r s p.allocated_blocks ne)

-- With free blocks for what a request lacks, it gets as many blocks as it requires, behind those it
-- has, and the call returns them.
pub ensure_blocks-Allocated :
    (request_id required : ℕ) (p : PagedKvCachePool)
    → IsValid p
    → required - length (get_blocks_for_request request_id p) ≤ length p.free_blocks
    → ((ensure_blocks_for_request request_id required p).1
        ≡ ok
            (get_blocks_for_request request_id (ensure_blocks_for_request request_id required p).0))
      × Allocated request_id
          (required - length (get_blocks_for_request request_id p))
          p
          (ensure_blocks_for_request request_id required p).0
unfolding ensure_blocks_for_request
ensure_blocks-Allocated r n p v le =
    elim (Bool-cases (leb n (length (get_blocks_for_request r p)))) [
      | inl e ↦ rw e (
        refl,
        record {
          valid = v;
          more = [];
          length-more = ground arith;
          blocks = sym (append-nil (get_blocks_for_request r p));
          others = λ s ne. refl;
          same_size = refl;
          same_total = refl;
          free_left = ground arith;
        },
      )
      | inr e ↦
          let ((more, done), a) =
            allocate_blocks-Allocated r (n - length (get_blocks_for_request r p)) p v le in
          rw (e, done) (refl, a)
    ]

-- Without them it raises, and the pool is what it was.
pub ensure_blocks_short :
    (request_id required : ℕ) (p : PagedKvCachePool)
    → length p.free_blocks < required - length (get_blocks_for_request request_id p)
    → ensure_blocks_for_request request_id required p ≡ (p, err no_free_blocks)
unfolding ensure_blocks_for_request allocate_blocks
ensure_blocks_short r n p lt =
    rw
      (
        leb-eq-false n (length (get_blocks_for_request r p)) (omega arith),
        lt→ltb (length p.free_blocks) (n - length (get_blocks_for_request r p)) lt,
      )
      refl

pub reset_allocations-IsValid :
    (p : PagedKvCachePool) → 0 < p.block_size → IsValid (reset_allocations p)
unfolding reset_allocations
reset_allocations-IsValid p pos = record {
  block_pos = pos;
  partition = λ x. omega (arith, count-range x p.total_blocks);
  total = omega (arith, length-range_from 0 p.total_blocks);
  unique = tt;
}
