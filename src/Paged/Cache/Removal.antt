-- ===== src/Paged/Cache/Removal.antt =====
-- remove_cache of PagedKVCache cuts the sequence and gives blocks back.
use amd_pace.Common.{
  ℕ, ◌+◌, ◌-◌, ◌*◌, ◌/◌, ◌≤◌, ◌<◌, ◌≡◌, refl, sym, ap, ◌∙◌, List, arith, ok, err, take, length,
  count, ltb, tabulate, length-take, tabulate-eq, take-tabulate, ◌%◌, get_or-take, lt→ltb,
  ltb-eq-false,
}
use amd_pace.Kv.{too_many_removed}
use amd_pace.Paged.Blocks.{
  blocks_for, blocks_for_bounds, block_index-lt, blocks_for-le, blocks_for_mono,
}
use amd_pace.Paged.Slots.{place}
use amd_pace.Paged.Cache.{PagedKvCache, remove_cache, release_blocks}
use amd_pace.Paged.Cache.Loops.{with_blocks, release_blocks_lem}
use amd_pace.Paged.Cache.Ensure.{IsValid, IsTableOf-if}
use amd_pace.Paged.Cache.Contents.{read, keys, values}

module _ {A : Type 0} where
  -- What `remove_cache` leaves: the sequence without its last slices.
  pub record Truncates (c d : PagedKvCache A) (m : ℕ) : Type 0 where
    pub valid : IsValid d
    pub keys_cut : keys d ≡ take (c.seq_len - m) (keys c)
    pub values_cut : values d ≡ take (c.seq_len - m) (values c)
    -- Blocks that no token needs any more are free again.
    pub released : length d.allocated_blocks ≤ blocks_for (c.seq_len - m) c.block_size

  read-take :
      (t : ℕ → A) (blocks : List ℕ) (b k n m : ℕ)
      → 0 < b
      → m ≤ n
      → m ≤ k * b
      → read t (take k blocks) b m ≡ take m (read t blocks b n)
  read-take t blocks b k n m pos le fits =
      tabulate-eq (λ p. t (place (take k blocks) b p)) (λ p. t (place blocks b p)) 0 m
        (λ p lt.
          ap (λ (x : ℕ). t (x * b + p % b))
            (get_or-take blocks k (p / b) 0 (block_index-lt b pos p k (omega arith))))
      ∙ sym (take-tabulate (λ p. t (place blocks b p)) 0 m (n - m))
      ∙ ap (λ k. take m (tabulate (λ p. t (place blocks b p)) 0 k)) (omega arith)

  -- Removing at most what is there cuts the sequence's end and frees the blocks behind it.
  pub remove_paged-Truncates :
      (c : PagedKvCache A) (m : ℕ)
      → IsValid c
      → m ≤ c.seq_len
      → ((remove_cache m c).1 ≡ ok tt) × Truncates c (remove_cache m c).0 m
  unfolding remove_cache
  remove_paged-Truncates c m v le =
      let need = blocks_for (c.seq_len - m) c.block_size in
      let n = length c.allocated_blocks - need in
      let fits =
        blocks_for-le c.block_size v.block_pos c.seq_len (length c.allocated_blocks) v.covered in
      let less = blocks_for_mono c.block_size v.block_pos (c.seq_len - m) c.seq_len (omega arith) in
      let bound = (blocks_for_bounds c.block_size v.block_pos (c.seq_len - m)).0 in
      let kept : length c.allocated_blocks - n ≡ need = omega (arith, fits, less) in
      let (left, e, cs, len) =
        release_blocks_lem c n c.free_blocks c.allocated_blocks (omega arith) in
      let held : length (take need c.allocated_blocks) ≡ need =
        omega (arith, length-take need c.allocated_blocks, fits, less) in
      let e' : release_blocks n c ≡ with_blocks c left (take need c.allocated_blocks) =
        e ∙ ap (λ k. with_blocks c left (take k c.allocated_blocks)) kept in
      rw (ltb-eq-false c.seq_len m le, e')
        (
          refl,
          record {
            valid = record {
              block_pos = v.block_pos;
              partition = λ b. omega (
                arith,
                v.partition b,
                cs b,
                ap (λ (k : ℕ). count b (take k c.allocated_blocks)) kept,
              );
              total = omega (arith, v.total, len, length-take need c.allocated_blocks, fits, less);
              covered = rw held bound;
              tabled = IsTableOf-if (ltb 0 (c.seq_len - m)) (take need c.allocated_blocks);
            };
            keys_cut =
                read-take c.key_cache c.allocated_blocks c.block_size need c.seq_len (c.seq_len - m)
                  v.block_pos (omega arith) bound;
            values_cut =
                read-take c.value_cache c.allocated_blocks c.block_size need c.seq_len
                  (c.seq_len - m) v.block_pos (omega arith) bound;
            released = omega (arith, length-take need c.allocated_blocks);
          },
        )

  -- Removing more than is there raises and changes nothing.
  pub remove_cache_too_many :
      (c : PagedKvCache A) (m : ℕ) → c.seq_len < m → remove_cache m c ≡ (c, err too_many_removed)
  unfolding remove_cache
  remove_cache_too_many c m h = rw (lt→ltb c.seq_len m h)
