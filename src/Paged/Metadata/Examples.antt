-- ===== src/Paged/Metadata/Examples.antt =====
-- A batch of two sequences over one cache, and the theorems about its metadata at these.
use amd_pace.Common.{
  ℕ, ◌≤◌, ◌≡◌, refl, List, [], ◌∷◌, arith, length, take, replicate, ok, none, some, count,
}
use amd_pace.Paged.Blocks.{blocks_for}
use amd_pace.Paged.Slots.{IsDistinct}
use amd_pace.Paged.Cache.{PagedKvCache}
use amd_pace.Paged.Cache.Ensure.{IsValid}
use amd_pace.Paged.Metadata.{
  PagedAttentionMetadata, Query, build_paged_attention_metadata, build_block_table,
}
use amd_pace.Paged.Metadata.Laws.{
  Built, batch_slots_injective, build_metadata-Built, build_block_table-take,
}

-- Six blocks of two slices, one of which is in use.
abbrev started : PagedKvCache ℕ
started = record {
  block_size = 2;
  num_blocks = 6;
  allocated_blocks = 4 ∷ [];
  free_blocks = 0 ∷ 1 ∷ 2 ∷ 3 ∷ 5 ∷ [];
  seq_len = 1;
  block_table = some (4 ∷ []);
  slot_mapping = none;
  key_cache = λ slot. slot;
  value_cache = λ slot. slot;
}

started-IsValid : IsValid started
started-IsValid = record {
  block_pos = omega arith;
  partition = λ b. unfold count in ground arith;
  total = refl;
  covered = omega arith;
  tabled = refl;
}

abbrev two : List Query
two =
    record { actual_length = 4; past_length = 0 }
    ∷ record { actual_length = 1; past_length = 5 }
    ∷ []

build_metadata-Built_example :
    (meta : PagedAttentionMetadata) × ((build_paged_attention_metadata 2 3 two (started, [])).1
      ≡ ok meta)
    × Built 3 two started (build_paged_attention_metadata 2 3 two (started, [])).0.0 meta
build_metadata-Built_example =
    build_metadata-Built 2 3 two started [] started-IsValid refl (omega arith) (omega arith)
      (omega arith) (omega arith, (omega arith, tt))

unshared_test :
    IsValid (build_block_table 2 5 0 started).0
    × (blocks_for 5 2 ≤ length (build_block_table 2 5 0 started).0.allocated_blocks)
    × ((build_block_table 2 5 0 started).1
        ≡ ok (
            replicate 2
              (take (blocks_for 5 2) (build_block_table 2 5 0 started).0.allocated_blocks)))
unshared_test =
    build_block_table-take 2 5 started started-IsValid (unfold blocks_for in omega arith)

four-IsDistinct : IsDistinct (3 ∷ 1 ∷ 0 ∷ 2 ∷ [])
four-IsDistinct x = unfold count in ground arith

batch_slots_injective_example : (◌≡◌ {A = ℕ} 1 1) × (◌≡◌ {A = ℕ} 3 3)
batch_slots_injective_example =
    batch_slots_injective (3 ∷ 1 ∷ 0 ∷ 2 ∷ []) 2 2 2 1 1 3 3 (omega arith) four-IsDistinct
      (omega arith) (omega arith) (omega arith) (omega arith) (omega arith) refl
