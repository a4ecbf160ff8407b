-- ===== src/Paged/Metadata/Laws.antt =====
-- The metadata gives every new token of a batch a slot of its own.
use amd_pace.Common.{
  pos-eq-false, ℕ, zero, suc, ◌+◌, ◌-◌, ◌*◌, ◌/◌, ◌%◌, ◌≤◌, ◌<◌, ◌≡◌, refl, sym, ap, ◌∙◌, min,
  Option, some, List, [], ◌∷◌, ◌++◌, arith, length, take, replicate, map, tabulate, ok, ltb,
  tabulate-eq, lt→ltb, subst, length-take, append-nil, and-false,
}
use amd_pace.Paged.Blocks.{blocks_for, slot-block, slot-offset, blocks_for-whole, blocks_for-le}
use amd_pace.Paged.Slots.{seq_slots, slot_of, place, IsDistinct, slot_of_injective, slot_of-place}
use amd_pace.Paged.Cache.{PagedKvCache, ensure_blocks_allocated}
use amd_pace.Paged.Cache.Ensure.{IsValid, Grows, ensure_enough}
use amd_pace.Paged.Metadata.{
  PagedAttentionMetadata, Query, total_of, max_by, ensure_batch, packed_slots, packed_metadata,
  build_paged_attention_metadata, with_length, table_rows, build_block_table,
}

-- A slot in a sequence's own range of blocks is the one of a later position in the whole table.
slot_of_offset :
    (blocks : List ℕ) (b off pos : ℕ)
    → 0 < b
    → slot_of blocks b off pos ≡ slot_of blocks b 0 (off * b + pos)
unfolding slot_of
slot_of_offset blocks b off pos h =
    let lt : pos % b < b = omega arith in
    let whole : off * b + pos ≡ (pos / b + off) * b + pos % b = grind arith in
    let e : pos / b + off ≡ (off * b + pos) / b + 0 =
      omega
        (arith, sym (slot-block b h (pos / b + off) (pos % b) lt) ∙ ap (λ n. n / b) (sym whole)) in
    let r : pos % b ≡ (off * b + pos) % b =
      sym (slot-offset b h (pos / b + off) (pos % b) lt) ∙ ap (λ n. n % b) (sym whole) in
    rw (e, r) refl

mul_mono : (i j n : ℕ) → i ≤ j → i * n ≤ j * n
mul_mono i j n h = grind arith

mul_cancel : (k len b : ℕ) → 0 < b → k * b ≤ len * b → k ≤ len
mul_cancel k len b h le = grind arith

covers_longest :
    (n batch len b longest : ℕ) → 0 < batch → longest ≤ n * b → n * batch ≤ len → longest ≤ len * b
covers_longest n zero len b longest pos le room = absurd (omega arith)
covers_longest n (suc batch) len b longest pos le room =
    let e : n * suc batch ≡ n + n * batch = grind arith in
    omega (arith, mul_mono n len b (omega (arith, e)))

-- A position in the range of sequence `i` lies in the whole table.
range_lt :
    (b n batch len i p : ℕ) → n * batch ≤ len → i < batch → p < n * b → i * n * b + p < len * b
range_lt b n batch len i p room hi hp =
    let assoc : i * n * b ≡ i * (n * b) = grind arith in
    let next : suc i * (n * b) ≡ i * (n * b) + n * b = grind arith in
    let up = mul_mono (suc i) batch (n * b) (omega arith) in
    let whole : batch * (n * b) ≡ n * batch * b = grind arith in
    omega (arith, assoc, next, up, whole, mul_mono (n * batch) len b room)

-- Two tokens of a batch, each within its sequence's range of distinct blocks, get the same slot only
-- if they are of one sequence and at one position.
pub batch_slots_injective :
    (blocks : List ℕ) (b blocks_per_seq batch_size i j p q : ℕ)
    → 0 < b
    → IsDistinct blocks
    → blocks_per_seq * batch_size ≤ length blocks
    → i < batch_size
    → j < batch_size
    → p < blocks_per_seq * b
    → q < blocks_per_seq * b
    → slot_of blocks b (i * blocks_per_seq) p ≡ slot_of blocks b (j * blocks_per_seq) q
    → (i ≡ j) × (p ≡ q)
batch_slots_injective blocks b n batch i j p q pos distinct room hi hj hp hq e =
    let same : i * n * b + p ≡ j * n * b + q =
      slot_of_injective blocks b pos (i * n * b + p) (j * n * b + q) distinct
        (range_lt b n batch (length blocks) i p room hi hp)
        (range_lt b n batch (length blocks) j q room hj hq)
        (sym (slot_of_offset blocks b (i * n) p pos) ∙ e ∙ slot_of_offset blocks b (j * n) q pos) in
    let span : 0 < n * b = omega arith in
    let all : i * (n * b) + p ≡ j * (n * b) + q = grind arith in
    (
      sym (slot-block (n * b) span i p hp)
          ∙ ap (λ k. k / (n * b)) all
          ∙ slot-block (n * b) span j q hq,
      sym (slot-offset (n * b) span i p hp)
          ∙ ap (λ k. k % (n * b)) all
          ∙ slot-offset (n * b) span j q hq,
    )

-- The new tokens of the sequences, and what they have of the blocks.
abbrev pub AllWithin : ℕ → List Query → Type 0
AllWithin room [] = Unit {0}
AllWithin room (q ∷ qs) = (total_of q ≤ room) × AllWithin room qs

max_by-le : (room : ℕ) (qs : List Query) → AllWithin room qs → max_by total_of qs ≤ room
max_by-le room [] w = omega arith
max_by-le room (q ∷ qs) (h, w) = omega (arith, max_by-le room qs w)

-- Entry for entry, the slots of the sequences from `seq_idx` on are places in their own ranges.
abbrev pub AllPlaces : List ℕ → ℕ → ℕ → ℕ → List Query → List (Option ℕ) → Type 0
AllPlaces blocks b blocks_per_seq seq_idx [] slots = slots ≡ []
AllPlaces blocks b blocks_per_seq seq_idx (q ∷ qs) slots =
    (rest : List (Option ℕ)) × (slots
      ≡ tabulate (λ pos. some (place blocks b (seq_idx * blocks_per_seq * b + pos))) q.past_length
          q.actual_length
        ++ rest)
    × AllPlaces blocks b blocks_per_seq (seq_idx + 1) qs rest

packed_slots-AllPlaces :
    (blocks : List ℕ) (b n seq_idx : ℕ) (qs : List Query)
    → 0 < b
    → n * (seq_idx + length qs) ≤ length blocks
    → AllWithin (n * b) qs
    → AllPlaces blocks b n seq_idx qs (packed_slots blocks b n seq_idx qs)
unfolding seq_slots
packed_slots-AllPlaces blocks b n idx [] pos room w = refl
packed_slots-AllPlaces blocks b n idx (q ∷ qs) pos room (h, w) =
    let e : idx + 1 + length qs ≡ idx + suc (length qs) = omega arith in
    (
      packed_slots blocks b n (idx + 1) qs,
      ap (λ l. l ++ packed_slots blocks b n (idx + 1) qs)
          (tabulate-eq (slot_of blocks b (idx * n)) (λ p. some (place blocks b (idx * n * b + p)))
            q.past_length q.actual_length
            λ p lt.
              slot_of_offset blocks b (idx * n) p pos
              ∙ slot_of-place blocks b pos (idx * n * b + p) (
                  range_lt b n (idx + suc (length qs)) (length blocks) idx p room (omega arith)
                    (omega arith))),
      packed_slots-AllPlaces blocks b n (idx + 1) qs pos (rw e room) w,
    )

full_rows :
    (batch need : ℕ) (blocks : List ℕ)
    → need ≤ length blocks
    → table_rows batch need 0 blocks ≡ replicate batch (take need blocks)
full_rows batch zero [] le = refl
full_rows batch (suc need) [] le = absurd (omega arith)
full_rows batch need (x ∷ xs) le =
    let m : min need (length (x ∷ xs)) ≡ need = omega arith in
    let none_left : need - length (take need (x ∷ xs)) ≡ 0 =
      omega (arith, length-take need (x ∷ xs)) in
    rw (pos-eq-false (suc (length xs)) (omega arith), m, none_left)
      (ap (replicate batch) (append-nil (take need (x ∷ xs))))

some_blocks_lem : (n batch blocks : ℕ) → 0 < n → 1 < batch → n * batch ≤ blocks → 0 < blocks
some_blocks_lem zero batch blocks pos many le = absurd (omega (arith, pos))
some_blocks_lem (suc n) zero blocks pos many le = absurd (omega (arith, many))
some_blocks_lem (suc n) (suc batch) blocks pos many le = ground (arith, le)

module _ {A : Type 0} where
  -- What the call makes of the first layer's cache, and the metadata.
  pub record Built (blocks_per_seq : ℕ) (qs : List Query) (c d : PagedKvCache A)
      (meta : PagedAttentionMetadata) : Type 0 where
    pub valid : IsValid d
    pub synced : d.seq_len ≡ max_by total_of qs
    pub lengths : meta.seq_lens ≡ map total_of qs
    pub kept : (more : List ℕ) × (d.allocated_blocks ≡ c.allocated_blocks ++ more)
    pub enough : blocks_per_seq * length qs ≤ length d.allocated_blocks
    pub places : AllPlaces d.allocated_blocks d.block_size blocks_per_seq 0 qs meta.slot_mapping

  with_length-IsValid :
      (n : ℕ) (c : PagedKvCache A)
      → IsValid c
      → n ≤ length c.allocated_blocks * c.block_size
      → IsValid (with_length n c)
  with_length-IsValid n c v h = record {
    block_pos = v.block_pos;
    partition = v.partition;
    total = v.total;
    covered = h;
    tabled = v.tabled;
  }

  ensure_batch-enough :
      (c : PagedKvCache A) (batch n len : ℕ)
      → IsValid c
      → 1 < batch
      → 0 < n
      → n * batch ≤ c.num_blocks
      → ((ensure_batch c.block_size batch n len c).1 ≡ ok tt)
        × IsValid (ensure_batch c.block_size batch n len c).0
        × Grows c (ensure_batch c.block_size batch n len c).0
        × (n * batch ≤ length (ensure_batch c.block_size batch n len c).0.allocated_blocks)
  unfolding ensure_batch
  ensure_batch-enough c batch n len v many some_blocks fits =
      let whole = n * batch * c.block_size in
      let exact : blocks_for whole c.block_size ≡ n * batch =
        blocks_for-whole c.block_size v.block_pos (n * batch) in
      let (done, valid, g, room) = ensure_enough c whole v (omega (arith, exact)) in
      rw (lt→ltb 1 batch many, lt→ltb 0 n some_blocks)
        (done, valid, g, mul_cancel (n * batch) _ c.block_size v.block_pos room)

  same_size-Built :
      (blocks_per_seq : ℕ) (qs : List Query) (c : PagedKvCache A) (others : List (PagedKvCache A))
      → IsValid c
      → 1 < length qs
      → 0 < blocks_per_seq
      → blocks_per_seq * length qs ≤ c.num_blocks
      → AllWithin (blocks_per_seq * c.block_size) qs
      → (meta : PagedAttentionMetadata) × ((build_paged_attention_metadata c.block_size
            blocks_per_seq qs
            (c, others)).1
          ≡ ok meta)
        × Built blocks_per_seq qs c
            (build_paged_attention_metadata c.block_size blocks_per_seq qs (c, others)).0.0
            meta
  unfolding build_paged_attention_metadata packed_metadata
  same_size-Built n [] c others v many some_blocks fits w = absurd (omega arith)
  same_size-Built n (q ∷ qs) c others v many some_blocks fits w =
      let len = max_by total_of (q ∷ qs) in
      let (done, valid, g, room) =
        ensure_batch-enough c (length (q ∷ qs)) n len v many some_blocks fits in
      let d = (ensure_batch c.block_size (length (q ∷ qs)) n len c).0 in
      let longest = max_by-le (n * c.block_size) (q ∷ qs) w in
      let some_room : 0 < length d.allocated_blocks =
        some_blocks_lem n (length (q ∷ qs)) (length d.allocated_blocks) some_blocks many room in
      rw (done, pos-eq-false (length d.allocated_blocks) some_room)
        (
          packed_metadata c.block_size n (q ∷ qs) d,
          refl,
          record {
            valid = with_length-IsValid len d valid (
                rw g.same_size (
                  covers_longest n (length (q ∷ qs)) (length d.allocated_blocks) c.block_size len
                    (omega arith) longest room));
            synced = refl;
            lengths = refl;
            kept = (g.more, g.blocks);
            enough = room;
            places =
                subst
                  (λ b.
                    AllPlaces d.allocated_blocks d.block_size n 0 (q ∷ qs)
                      (packed_slots d.allocated_blocks b n 0 (q ∷ qs)))
                  g.same_size
                  (packed_slots-AllPlaces d.allocated_blocks d.block_size n 0 (q ∷ qs)
                    valid.block_pos (omega (arith, room))
                    (subst (λ b. AllWithin (n * b) (q ∷ qs)) (sym g.same_size) w));
          },
        )

  -- For a batch of two or more sequences whose blocks fit into a valid cache, each sequence within its
  -- share, the call with the cache's block size does not raise; the slots of each sequence's new tokens are places in its own range of the blocks, blocks
  -- that were allocated stay in place, and the cache is valid with the longest length.
  pub build_metadata-Built :
      (block_size blocks_per_seq : ℕ) (qs : List Query) (c : PagedKvCache A)
      (others : List (PagedKvCache A))
      → IsValid c
      → block_size ≡ c.block_size
      → 1 < length qs
      → 0 < blocks_per_seq
      → blocks_per_seq * length qs ≤ c.num_blocks
      → AllWithin (blocks_per_seq * c.block_size) qs
      → (meta : PagedAttentionMetadata) × ((build_paged_attention_metadata block_size blocks_per_seq
            qs
            (c, others)).1
          ≡ ok meta)
        × Built blocks_per_seq qs c
            (build_paged_attention_metadata block_size blocks_per_seq qs (c, others)).0.0
            meta
  build_metadata-Built b n qs c others v e many some_blocks fits w =
      subst
        (λ b.
          (meta : PagedAttentionMetadata) × ((build_paged_attention_metadata b n qs (c, others)).1
            ≡ ok meta)
          × Built n qs c (build_paged_attention_metadata b n qs (c, others)).0.0 meta)
        (sym e) (same_size-Built n qs c others v many some_blocks fits w)

  -- Without shares of the blocks, every row of the block table holds the first blocks of the cache, as
  -- many as the tokens need; the cache stays valid.
  pub build_block_table-take :
      (batch_size total_seq_len : ℕ) (c : PagedKvCache A)
      → IsValid c
      → blocks_for total_seq_len c.block_size ≤ c.num_blocks
      → let d = (build_block_table batch_size total_seq_len 0 c).0 in
        IsValid d
        × (blocks_for total_seq_len c.block_size ≤ length d.allocated_blocks)
        × ((build_block_table batch_size total_seq_len 0 c).1
            ≡ ok (
                replicate batch_size
                  (take (blocks_for total_seq_len c.block_size) d.allocated_blocks)))
  unfolding build_block_table ensure_batch
  build_block_table-take batch len c v fits =
      let (done, valid, g, room) = ensure_enough c len v fits in
      let held =
        blocks_for-le c.block_size v.block_pos len
          (length (ensure_blocks_allocated len c).0.allocated_blocks) room in
      rw (and-false (ltb 1 batch), done)
        (
          valid,
          held,
          rw (g.same_size) (ap ok (full_rows batch (blocks_for len c.block_size) _ held)),
        )
