-- ===== src/Paged/Cache.antt =====
-- PagedKVCache of pace/llm/attention/paged/cache.py: one sequence (or one padded batch) in blocks of
-- its own tensors.
mod Examples
pub mod Loops
pub mod Ensure
pub mod Contents
pub mod Removal
pub mod Instance
use amd_pace.Common.{
  ℕ, zero, suc, ◌+◌, ◌-◌, ◌*◌, ◌≤◌, ◌≡◌, Bool, true, false, ◌&&◌, ◌||◌, not, Option, none, some,
  List, [], ◌∷◌, ◌++◌, ltb, leb, ◌==◌, if◌then◌else◌, length, take, replicate, count, range_from,
  ok, err, Action, ◌>>=◌, ◌>>◌, pure, modify, require,
}
use amd_pace.Kv.{Error, too_many_removed, assertion, no_free_blocks}
use amd_pace.Paged.Blocks.{blocks_for}
use amd_pace.Paged.Slots.{batch_slots}
use amd_pace.Paged.Store.{reshape_and_cache}

pub record PagedKvCache (A : Type 0) : Type 0 where
  pub block_size : ℕ
  pub num_blocks : ℕ
  pub allocated_blocks : List ℕ
  pub free_blocks : List ℕ
  pub seq_len : ℕ
  pub block_table : Option (List ℕ)
  pub slot_mapping : Option (List (Option ℕ))
  pub key_cache : ℕ → A
  pub value_cache : ℕ → A

-- `self.block_table is not None and self.block_table.size(0) >= required_blocks`
abbrev pub covers : Option (List ℕ) → ℕ → Bool
covers none required_blocks = false
covers (some table) required_blocks = leb required_blocks (length table)

-- list.remove: the first occurrence.
abbrev pub remove_first : ℕ → List ℕ → List ℕ
remove_first b [] = []
remove_first b (x ∷ xs) = if b == x then xs else x ∷ remove_first b xs

-- list.pop of the last block.
abbrev pub drop_last : List ℕ → List ℕ
drop_last [] = []
drop_last (x ∷ []) = []
drop_last (x ∷ y ∷ xs) = x ∷ drop_last (y ∷ xs)

abbrev pub last_of : List ℕ → List ℕ
last_of [] = []
last_of (x ∷ []) = x ∷ []
last_of (x ∷ y ∷ xs) = last_of (y ∷ xs)

module _ {A : Type 0} where
  -- `__init__`; `blank` is a slice of zeros.
  pub init : A → ℕ → ℕ → PagedKvCache A
  init blank max_seq_length block_size = record {
    block_size = block_size;
    num_blocks = blocks_for max_seq_length block_size;
    allocated_blocks = [];
    free_blocks = range_from 0 (blocks_for max_seq_length block_size);
    seq_len = 0;
    block_table = none;
    slot_mapping = none;
    key_cache = λ slot. blank;
    value_cache = λ slot. blank;
  }

  -- popleft, append
  abbrev pub take_block : List ℕ → Action (PagedKvCache A) Error ℕ
  take_block [] c = (c, err no_free_blocks)
  take_block (b ∷ rest) c =
      (record c { free_blocks = rest; allocated_blocks = c.allocated_blocks ++ b ∷ [] }, ok b)

  pub allocate_block : Action (PagedKvCache A) Error ℕ
  allocate_block c = take_block c.free_blocks c

  pub free_block : ℕ → PagedKvCache A → PagedKvCache A
  free_block b c =
      if ltb 0 (count b c.allocated_blocks)
      then record c {
        allocated_blocks = remove_first b c.allocated_blocks;
        free_blocks = c.free_blocks ++ b ∷ [];
      }
      else c

  -- The `while` loop of `_ensure_blocks_allocated`, with the rounds that are left.
  pub allocate_more : ℕ → Action (PagedKvCache A) Error Unit
  allocate_more zero c = (c, ok tt)
  allocate_more (suc more) c = (allocate_block >>= λ b. allocate_more more) c

  pub ensure_blocks_allocated : ℕ → Action (PagedKvCache A) Error Unit
  ensure_blocks_allocated required_len c =
      let required_blocks = blocks_for required_len c.block_size in
      if leb required_blocks (length c.allocated_blocks) && covers c.block_table required_blocks
      then (c, ok tt)
      else (allocate_more (required_blocks - length c.allocated_blocks)
            >> modify
                λ d. record d { block_table = some (take required_blocks d.allocated_blocks) })
          c

  -- The `while` loop of `remove_cache`, with the rounds that are left.
  pub release_blocks : ℕ → PagedKvCache A → PagedKvCache A
  release_blocks zero c = c
  release_blocks (suc more) c = release_blocks more (record c {
    allocated_blocks = drop_last c.allocated_blocks;
    free_blocks = c.free_blocks ++ last_of c.allocated_blocks;
  })

  abbrev pub finish_removal : ℕ → PagedKvCache A → PagedKvCache A
  finish_removal new_seq_len c = record c {
    seq_len = new_seq_len;
    block_table = if ltb 0 new_seq_len then some c.allocated_blocks else none;
  }

  pub remove_cache : ℕ → Action (PagedKvCache A) Error Unit
  remove_cache remove_len c =
      let new_seq_len = c.seq_len - remove_len in
      let new_blocks_needed = blocks_for new_seq_len c.block_size in
      if ltb c.seq_len remove_len then (c, err too_many_removed) else (
        finish_removal new_seq_len
            (release_blocks (length c.allocated_blocks - new_blocks_needed) c),
        ok tt,
      )

  -- compute_slot_mapping: the slots of `n` new tokens for each sequence of a batch.
  pub compute_slot_mapping : ℕ → ℕ → ℕ → ℕ → Action (PagedKvCache A) Error (List (Option ℕ))
  compute_slot_mapping batch_size n past blocks_per_seq c =
      if batch_size * n == 0
      then (c, ok [])
      else (ensure_blocks_allocated (
              if ltb 1 batch_size && ltb 0 blocks_per_seq
              then blocks_per_seq * batch_size * c.block_size
              else past + n)
            >> λ d. (
              d,
              ok (
                  if length d.allocated_blocks == 0
                  then replicate (batch_size * n) none
                  else batch_slots d.allocated_blocks d.block_size blocks_per_seq past n 0
                      batch_size),
            ))
          c

  -- The end of `update_cache`, once the slots are known.
  abbrev pub store_states : List A → List A → List (Option ℕ) → Action (PagedKvCache A) Error Unit
  store_states ks vs slots c = (
    record c {
      key_cache = reshape_and_cache slots ks c.key_cache;
      value_cache = reshape_and_cache slots vs c.value_cache;
      seq_len = c.seq_len + length ks;
      slot_mapping = some slots;
    },
    ok tt,
  )

  -- `update_cache` with states of `batch_size` sequences, along the dimension `concat_dim`.
  pub update_cache : ℕ → ℕ → List A → List A → Action (PagedKvCache A) Error Unit
  update_cache batch_size concat_dim ks vs =
      require (batch_size == 1) assertion
      >> (require (concat_dim == 2) assertion >> λ c.
          (ensure_blocks_allocated (c.seq_len + length ks)
              >> (compute_slot_mapping 1 (length ks) c.seq_len 0 >>= store_states ks vs))
            c)
