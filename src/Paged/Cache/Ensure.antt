-- ===== src/Paged/Cache/Ensure.antt =====
-- The block accounting of PagedKVCache: no block is lost, none is handed out twice.
use amd_pace.Common.{
  ℕ, ◌+◌, ◌-◌, ◌*◌, ◌≤◌, ◌<◌, ◌≡◌, refl, sym, ap, ◌∙◌, List, [], ◌++◌, Option, none, some, arith,
  ok, err, take, drop, length, count, below_once, leb, ◌&&◌, true, false, Bool-cases, inl, inr,
  append-nil, count-nil, count-append, count-take-drop, length-append, length-take, length-drop,
  take-append_le, take_all, count-range, length-range_from, append_assoc, leb-eq-false, Bool,
  if◌then◌else◌,
}
use amd_pace.Kv.{no_free_blocks}
use amd_pace.Paged.Blocks.{blocks_for, blocks_for_bounds}
use amd_pace.Paged.Slots.{IsDistinct}
use amd_pace.Paged.Cache.{PagedKvCache, init, allocate_more, ensure_blocks_allocated, covers}
use amd_pace.Paged.Cache.Loops.{with_blocks, allocate_more_enough, allocate_more_short}

-- The block table, if there is one, is a first part of the allocated blocks.
abbrev pub IsTableOf : Option (List ℕ) → List ℕ → Type 0
IsTableOf none blocks = Unit {0}
IsTableOf (some table) blocks = table ≡ take (length table) blocks

IsTableOf-append : (t : Option (List ℕ)) (xs ys : List ℕ) → IsTableOf t xs → IsTableOf t (xs ++ ys)
IsTableOf-append none xs ys h = tt
IsTableOf-append (some t) xs ys h =
    h
    ∙ sym (take-append_le (length t) xs ys (omega (arith, ap length h, length-take (length t) xs)))

pub IsTableOf-take : (n : ℕ) (xs : List ℕ) → n ≤ length xs → IsTableOf (some (take n xs)) xs
IsTableOf-take n xs h = ap (λ (k : ℕ). take k xs) (omega (arith, length-take n xs))

pub IsTableOf-if : (b : Bool) (xs : List ℕ) → IsTableOf (if b then some xs else none) xs
IsTableOf-if true xs = sym (take_all (length xs) xs (omega arith))
IsTableOf-if false xs = tt

module _ {A : Type 0} where
  pub record IsValid (c : PagedKvCache A) : Type 0 where
    pub block_pos : 0 < c.block_size
    -- Each block below `num_blocks` is free or allocated, once.
    pub partition :
        (b : ℕ) → count b c.free_blocks + count b c.allocated_blocks ≡ below_once c.num_blocks b
    pub total : length c.free_blocks + length c.allocated_blocks ≡ c.num_blocks
    pub covered : c.seq_len ≤ length c.allocated_blocks * c.block_size
    pub tabled : IsTableOf c.block_table c.allocated_blocks

  pub IsValid-IsDistinct : (c : PagedKvCache A) → IsValid c → IsDistinct c.allocated_blocks
  IsValid-IsDistinct c v x = ground (arith, v.partition x)

  pub init-IsValid :
      (blank : A) (max_seq_length block_size : ℕ)
      → 0 < block_size
      → IsValid (init blank max_seq_length block_size)
  unfolding init
  init-IsValid blank n b h = record {
    block_pos = h;
    partition = λ x. omega (arith, count-range x (blocks_for n b), count-nil x);
    total = omega (arith, length-range_from 0 (blocks_for n b));
    covered = omega arith;
    tabled = tt;
  }

  -- Only the block lists and the table have changed, and no allocated block has moved.
  pub record Grows (c d : PagedKvCache A) : Type 0 where
    pub more : List ℕ
    pub blocks : d.allocated_blocks ≡ c.allocated_blocks ++ more
    pub same_len : d.seq_len ≡ c.seq_len
    pub same_size : d.block_size ≡ c.block_size
    pub same_num : d.num_blocks ≡ c.num_blocks
    pub same_keys : d.key_cache ≡ c.key_cache
    pub same_values : d.value_cache ≡ c.value_cache

  -- The allocation of the first `n` free blocks.
  module _ (c : PagedKvCache A) (n : ℕ) (v : IsValid c) (h : n ≤ length c.free_blocks) where
    abbrev allocated : Option (List ℕ) → PagedKvCache A
    allocated table = record c {
      free_blocks = drop n c.free_blocks;
      allocated_blocks = c.allocated_blocks ++ take n c.free_blocks;
      block_table = table;
    }

    length-allocated :
        length (c.allocated_blocks ++ take n c.free_blocks) ≡ length c.allocated_blocks + n
    length-allocated = omega (
      arith,
      length-append c.allocated_blocks (take n c.free_blocks),
      length-take n c.free_blocks,
    )

    allocated-IsValid :
        (table : Option (List ℕ))
        → IsTableOf table (c.allocated_blocks ++ take n c.free_blocks)
        → IsValid (allocated table)
    allocated-IsValid table t = record {
      block_pos = v.block_pos;
      partition = λ b. omega (
        arith,
        v.partition b,
        count-append b c.allocated_blocks (take n c.free_blocks),
        count-take-drop b n c.free_blocks,
      );
      total = omega (arith, v.total, length-allocated, length-drop n c.free_blocks);
      covered = grind (arith, v.covered, length-allocated);
      tabled = t;
    }

  pub Grows-refl : (c : PagedKvCache A) → Grows c c
  Grows-refl c = record {
    more = [];
    blocks = sym (append-nil c.allocated_blocks);
    same_len = refl;
    same_size = refl;
    same_num = refl;
    same_keys = refl;
    same_values = refl;
  }

  pub Grows-trans : {c d e : PagedKvCache A} → Grows c d → Grows d e → Grows c e
  Grows-trans {c} {d} {e} g h = record {
    more = g.more ++ h.more;
    blocks =
        h.blocks ∙ ap (λ l. l ++ h.more) g.blocks ∙ append_assoc c.allocated_blocks g.more h.more;
    same_len = h.same_len ∙ g.same_len;
    same_size = h.same_size ∙ g.same_size;
    same_num = h.same_num ∙ g.same_num;
    same_keys = h.same_keys ∙ g.same_keys;
    same_values = h.same_values ∙ g.same_values;
  }

  enough-from_test :
      (c : PagedKvCache A) (n : ℕ)
      → (leb n (length c.allocated_blocks) && covers c.block_table n) ≡ true
      → n ≤ length c.allocated_blocks
  enough-from_test c n h = ground arith

  -- Tokens that fit into the cache get their blocks; the blocks that were allocated stay in place.
  pub ensure_enough :
      (c : PagedKvCache A) (len : ℕ)
      → IsValid c
      → blocks_for len c.block_size ≤ c.num_blocks
      → ((ensure_blocks_allocated len c).1 ≡ ok tt)
        × IsValid (ensure_blocks_allocated len c).0
        × Grows c (ensure_blocks_allocated len c).0
        × (len ≤ length (ensure_blocks_allocated len c).0.allocated_blocks * c.block_size)
  unfolding ensure_blocks_allocated
  ensure_enough c len v fits =
      let need = blocks_for len c.block_size in
      let n = need - length c.allocated_blocks in
      let bound = (blocks_for_bounds c.block_size v.block_pos len).0 in
      let room : n ≤ length c.free_blocks = omega (arith, v.total) in
      elim (Bool-cases (leb need (length c.allocated_blocks) && covers c.block_table need)) [
        | inl test ↦
            let le = enough-from_test c need test in
            rw test (refl, v, Grows-refl c, grind (arith, bound))
        | inr test ↦
            let e : allocate_more n c ≡ (allocated c n v room c.block_table, ok tt) =
              allocate_more_enough c n c.free_blocks c.allocated_blocks room in
            let le : need ≤ length (c.allocated_blocks ++ take n c.free_blocks) =
              omega (arith, length-allocated c n v room) in
            rw (test, e)
              (
                refl,
                allocated-IsValid c n v room _ (IsTableOf-take need _ le),
                record {
                  more = take n c.free_blocks;
                  blocks = refl;
                  same_len = refl;
                  same_size = refl;
                  same_num = refl;
                  same_keys = refl;
                  same_values = refl;
                },
                grind (arith, bound),
              )
      ]

  -- Tokens that do not fit raise; every block is then allocated, and none is lost.
  pub ensure_short :
      (c : PagedKvCache A) (len : ℕ)
      → IsValid c
      → c.num_blocks < blocks_for len c.block_size
      → ((ensure_blocks_allocated len c).1 ≡ err no_free_blocks)
        × IsValid (ensure_blocks_allocated len c).0
        × Grows c (ensure_blocks_allocated len c).0
        × ((ensure_blocks_allocated len c).0.free_blocks ≡ [])
  unfolding ensure_blocks_allocated
  ensure_short c len v short =
      let need = blocks_for len c.block_size in
      let n = need - length c.allocated_blocks in
      let lack : length c.free_blocks < n = omega (arith, v.total) in
      let e : allocate_more n c
          ≡ (with_blocks c [] (c.allocated_blocks ++ c.free_blocks), err no_free_blocks) =
        allocate_more_short c n c.free_blocks c.allocated_blocks lack in
      let test : (leb need (length c.allocated_blocks) && covers c.block_table need) ≡ false =
        rw (leb-eq-false need (length c.allocated_blocks) (omega (arith, v.total))) refl in
      let len_all = length-append c.allocated_blocks c.free_blocks in
      rw (test, e)
        (
          refl,
          record {
            block_pos = v.block_pos;
            partition = λ b. omega (
              arith,
              v.partition b,
              count-nil b,
              count-append b c.allocated_blocks c.free_blocks,
            );
            total = omega (arith, v.total, len_all);
            covered = grind (arith, v.covered, len_all);
            tabled = IsTableOf-append c.block_table c.allocated_blocks c.free_blocks v.tabled;
          },
          record {
            more = c.free_blocks;
            blocks = refl;
            same_len = refl;
            same_size = refl;
            same_num = refl;
            same_keys = refl;
            same_values = refl;
          },
          refl,
        )
