-- ===== src/Paged/Cache/Contents.antt =====
-- PagedKVCache holds a sequence: the tensors, read through the block table, are the tokens stored.
use amd_pace.Common.{
  ℕ, zero, suc, ◌+◌, ◌*◌, ◌/◌, ◌≤◌, ◌<◌, ◌≡◌, refl, ap, ap₂, ◌∙◌, List, [], ◌++◌, Option, arith, ok,
  err, length, append-nil, tabulate, length-append, length-tabulate, tabulate-append, tabulate-eq,
  tabulate_list, ◌%◌, get_or-append_left, pos-eq-false, Result,
}
use amd_pace.Kv.{Error, no_free_blocks}
use amd_pace.Paged.Blocks.{blocks_for, block_index-lt}
use amd_pace.Paged.Slots.{place, seq_slots, batch_slots, IsDistinct}
use amd_pace.Paged.Store.{written, written_before, written_at, reshape_and_cache}
use amd_pace.Paged.Cache.{PagedKvCache, update_cache, compute_slot_mapping, ensure_blocks_allocated}
use amd_pace.Paged.Cache.Ensure.{
  IsValid, IsValid-IsDistinct, Grows, Grows-refl, Grows-trans, ensure_enough, ensure_short,
}

module _ {A : Type 0} where
  -- The slices of a tensor at the places of the first `n` positions.
  abbrev pub read : (ℕ → A) → List ℕ → ℕ → ℕ → List A
  read t blocks b n = tabulate (λ p. t (place blocks b p)) 0 n

  abbrev pub keys : PagedKvCache A → List A
  keys c = read c.key_cache c.allocated_blocks c.block_size c.seq_len

  abbrev pub values : PagedKvCache A → List A
  values c = read c.value_cache c.allocated_blocks c.block_size c.seq_len

  pub length-keys : (c : PagedKvCache A) → length (keys c) ≡ c.seq_len
  length-keys c =
      length-tabulate (λ p. c.key_cache (place c.allocated_blocks c.block_size p)) 0 c.seq_len

  pub length-values : (c : PagedKvCache A) → length (values c) ≡ c.seq_len
  length-values c =
      length-tabulate (λ p. c.value_cache (place c.allocated_blocks c.block_size p)) 0 c.seq_len

  -- More blocks behind the table leave the places in front where they are.
  read-more :
      (t : ℕ → A) (blocks more : List ℕ) (b n : ℕ)
      → 0 < b
      → n ≤ length blocks * b
      → read t (blocks ++ more) b n ≡ read t blocks b n
  read-more t blocks more b n pos h =
      tabulate-eq (λ p. t (place (blocks ++ more) b p)) (λ p. t (place blocks b p)) 0 n
        λ p lt.
          ap (λ (x : ℕ). t (x * b + p % b))
            (get_or-append_left blocks more (p / b) 0
              (block_index-lt b pos p (length blocks) (omega arith)))

  -- Reading back what `reshape_and_cache` has written behind the first `n` positions.
  read-written :
      (blocks : List ℕ) (b : ℕ) (pos : 0 < b) (distinct : IsDistinct blocks) (xs : List A) (n : ℕ)
      (t : ℕ → A)
      → n + length xs ≤ length blocks * b
      → read (written blocks b pos distinct xs n t) blocks b (n + length xs)
        ≡ read t blocks b n ++ xs
  read-written blocks b pos distinct xs n t h =
      tabulate-append (λ p. written blocks b pos distinct xs n t (place blocks b p)) 0 n (length xs)
        n (omega arith)
      ∙ ap₂ (λ l m. l ++ m)
          (tabulate-eq (λ p. written blocks b pos distinct xs n t (place blocks b p))
            (λ p. t (place blocks b p)) 0 n
            (λ p lt. written_before blocks b pos distinct xs n p t h (omega arith)))
          (tabulate_list (λ p. written blocks b pos distinct xs n t (place blocks b p)) n xs
            (λ i x g. written_at blocks b pos distinct xs n i x t h g))

  compute_none : (c : PagedKvCache A) (past : ℕ) → compute_slot_mapping 1 0 past 0 c ≡ (c, ok [])
  unfolding compute_slot_mapping
  compute_none c past = refl

  compute_some :
      (c : PagedKvCache A) (n past : ℕ)
      → (ensure_blocks_allocated (past + suc n) c).1 ≡ ok tt
      → 0 < length (ensure_blocks_allocated (past + suc n) c).0.allocated_blocks
      → compute_slot_mapping 1 (suc n) past 0 c ≡ (
        (ensure_blocks_allocated (past + suc n) c).0,
        ok (
            seq_slots
              (ensure_blocks_allocated (past + suc n) c).0.allocated_blocks
              (ensure_blocks_allocated (past + suc n) c).0.block_size
              0
              past
              (suc n)
            ++ []),
      )
  unfolding compute_slot_mapping batch_slots
  compute_some c n past done some_block =
      rw (pos-eq-false (1 * suc n) (omega arith), done, pos-eq-false _ some_block)

  -- The slots of one sequence, once its blocks are allocated.
  pub record Mapped (c d : PagedKvCache A) (n past : ℕ) (r : Result Error (List (Option ℕ)))
      : Type 0 where
    pub slots : r ≡ ok (seq_slots d.allocated_blocks d.block_size 0 past n)
    pub valid : IsValid d
    pub grows : Grows c d

  compute_lem :
      (c : PagedKvCache A) (n past : ℕ)
      → IsValid c
      → blocks_for (past + n) c.block_size ≤ c.num_blocks
      → Mapped c (compute_slot_mapping 1 n past 0 c).0 n past (compute_slot_mapping 1 n past 0 c).1
  unfolding seq_slots
  compute_lem c zero past v fits =
      rw (compute_none c past) (record { slots = refl; valid = v; grows = Grows-refl c })
  compute_lem c (suc n) past v fits =
      let (done, vd, g, room) = ensure_enough c (past + suc n) v fits in
      let d = (ensure_blocks_allocated (past + suc n) c).0 in
      let some_block : 0 < length d.allocated_blocks = grind (arith, room) in
      rw (compute_some c n past done some_block) (record {
        slots = ap ok (append-nil (seq_slots d.allocated_blocks d.block_size 0 past (suc n)));
        valid = vd;
        grows = g;
      })

  Grows-room :
      (c d : PagedKvCache A) (n : ℕ)
      → Grows c d
      → n ≤ length c.allocated_blocks * c.block_size
      → n ≤ length d.allocated_blocks * d.block_size
  Grows-room c d n g h =
      rw (g.blocks, g.same_size) (grind (arith, h, length-append c.allocated_blocks g.more))

  -- What `update_cache` makes of the stored sequence: the new slices are appended.
  pub record Appends (c d : PagedKvCache A) (ks vs : List A) : Type 0 where
    pub valid : IsValid d
    pub keys_grown : keys d ≡ keys c ++ ks
    pub values_grown : values d ≡ values c ++ vs

  -- One tensor after the writes: what was read before, and the new slices.
  read-stored :
      (c d : PagedKvCache A) (xs : List A) (t u : ℕ → A) (n : ℕ)
      → IsValid c
      → IsValid d
      → Grows c d
      → u ≡ t
      → length xs ≡ n
      → c.seq_len + n ≤ length d.allocated_blocks * d.block_size
      → read
          (reshape_and_cache (seq_slots d.allocated_blocks d.block_size 0 c.seq_len n) xs u)
          d.allocated_blocks
          d.block_size
          (d.seq_len + n)
        ≡ read t c.allocated_blocks c.block_size c.seq_len ++ xs
  read-stored c d xs t u n vc vd g same e room =
      rw (g.same_len, ← e)
        (read-written d.allocated_blocks d.block_size vd.block_pos (IsValid-IsDistinct d vd) xs
            c.seq_len u (omega arith)
          ∙ ap (λ l. l ++ xs) before)
    where
      before :
          read u d.allocated_blocks d.block_size c.seq_len
          ≡ read t c.allocated_blocks c.block_size c.seq_len
      before =
          rw (same, g.blocks, g.same_size)
            (read-more t c.allocated_blocks g.more c.block_size c.seq_len vc.block_pos vc.covered)

  -- The last step of `update_cache`, with every position covered.
  stored-Appends :
      (c d : PagedKvCache A) (ks vs : List A) (mapping : Option (List (Option ℕ)))
      → IsValid c
      → IsValid d
      → Grows c d
      → length vs ≡ length ks
      → c.seq_len + length ks ≤ length d.allocated_blocks * d.block_size
      → let slots = seq_slots d.allocated_blocks d.block_size 0 c.seq_len (length ks) in
        Appends c
          (record d {
            key_cache = reshape_and_cache slots ks d.key_cache;
            value_cache = reshape_and_cache slots vs d.value_cache;
            seq_len = d.seq_len + length ks;
            slot_mapping = mapping;
          })
          ks
          vs
  stored-Appends c d ks vs mapping vc vd g e room = record {
    valid = record {
      block_pos = vd.block_pos;
      partition = vd.partition;
      total = vd.total;
      covered = omega (arith, g.same_len);
      tabled = vd.tabled;
    };
    keys_grown =
        read-stored c d ks c.key_cache d.key_cache (length ks) vc vd g g.same_keys refl room;
    values_grown =
        read-stored c d vs c.value_cache d.value_cache (length ks) vc vd g g.same_values e room;
  }

  -- Tokens that fit into the cache are stored behind those that are there, without raising.
  pub update_paged-Appends :
      (c : PagedKvCache A) (ks vs : List A)
      → IsValid c
      → length vs ≡ length ks
      → blocks_for (c.seq_len + length ks) c.block_size ≤ c.num_blocks
      → ((update_cache 1 2 ks vs c).1 ≡ ok tt) × Appends c (update_cache 1 2 ks vs c).0 ks vs
  unfolding update_cache
  update_paged-Appends c ks vs v e fits =
      let total = c.seq_len + length ks in
      let (done, v1, g1, room) = ensure_enough c total v fits in
      let c1 = (ensure_blocks_allocated total c).0 in
      let fits1 : blocks_for (c.seq_len + length ks) c1.block_size ≤ c1.num_blocks =
        rw (g1.same_size, g1.same_num) fits in
      let m = compute_lem c1 (length ks) c.seq_len v1 fits1 in
      let d = (compute_slot_mapping 1 (length ks) c.seq_len 0 c1).0 in
      let room2 : c.seq_len + length ks ≤ length d.allocated_blocks * d.block_size =
        Grows-room c1 d total m.grows (rw g1.same_size room) in
      rw (done, m.slots)
        (refl, stored-Appends c d ks vs _ v m.valid (Grows-trans g1 m.grows) e room2)

  keys-Grows :
      (c d : PagedKvCache A) → IsValid c → Grows c d → (keys d ≡ keys c) × (values d ≡ values c)
  keys-Grows c d v g = (
    rw (g.same_keys, g.blocks, g.same_size, g.same_len)
        (read-more c.key_cache c.allocated_blocks g.more c.block_size c.seq_len v.block_pos
          v.covered),
    rw (g.same_values, g.blocks, g.same_size, g.same_len)
        (read-more c.value_cache c.allocated_blocks g.more c.block_size c.seq_len v.block_pos
          v.covered),
  )

  -- Tokens that do not fit raise; the cache then still holds what it held.
  pub update_paged_full :
      (c : PagedKvCache A) (ks vs : List A)
      → IsValid c
      → c.num_blocks < blocks_for (c.seq_len + length ks) c.block_size
      → ((update_cache 1 2 ks vs c).1 ≡ err no_free_blocks)
        × IsValid (update_cache 1 2 ks vs c).0
        × (keys (update_cache 1 2 ks vs c).0 ≡ keys c)
        × (values (update_cache 1 2 ks vs c).0 ≡ values c)
  unfolding update_cache
  update_paged_full c ks vs v short =
      let (raised, valid, g, _) = ensure_short c (c.seq_len + length ks) v short in
      let (same_keys, same_values) =
        keys-Grows c (ensure_blocks_allocated (c.seq_len + length ks) c).0 v g in
      rw raised (refl, valid, same_keys, same_values)
