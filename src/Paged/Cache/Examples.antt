-- ===== src/Paged/Cache/Examples.antt =====
-- Concrete paged caches, and the theorems about them at these.
use amd_pace.Common.{
  ℕ, ◌≡◌, ◌≤◌, ◌<◌, ◌*◌, ◌+◌, refl, List, [], ◌∷◌, length, ok, err, none, some, arith, count,
}
use amd_pace.Kv.{no_free_blocks}
use amd_pace.Paged.Blocks.{blocks_for}
use amd_pace.Paged.Slots.{IsDistinct, slot_of, slot_of_injective, place, batch_slots, seq_slots}
use amd_pace.Paged.Store.{written, written_at}
use amd_pace.Paged.Cache.{
  PagedKvCache, ensure_blocks_allocated, update_cache, remove_cache, allocate_more, allocate_block,
  compute_slot_mapping, batch_slots,
}
use amd_pace.Paged.Cache.Ensure.{IsValid, Grows, ensure_enough, ensure_short}
use amd_pace.Paged.Cache.Contents.{keys, values, Appends, update_paged-Appends, update_paged_full}
use amd_pace.Paged.Cache.Removal.{Truncates, remove_paged-Truncates}

-- Four blocks of two slices each, of which three slices are in use, in the blocks 2 and 0.
abbrev filled : PagedKvCache ℕ
filled = record {
  block_size = 2;
  num_blocks = 4;
  allocated_blocks = 2 ∷ 0 ∷ [];
  free_blocks = 3 ∷ 1 ∷ [];
  seq_len = 3;
  block_table = some (2 ∷ 0 ∷ []);
  slot_mapping = none;
  key_cache = λ slot. slot;
  value_cache = λ slot. slot + 10;
}

filled-IsValid : IsValid filled
filled-IsValid = record {
  block_pos = omega arith;
  partition = λ b. unfold count in ground arith;
  total = refl;
  covered = omega arith;
  tabled = refl;
}

abbrev three : List ℕ
three = 7 ∷ 8 ∷ 9 ∷ []

fits_six : blocks_for 6 2 ≤ 4
unfolding blocks_for
fits_six = omega arith

lacks_ten : 4 < blocks_for 10 2
unfolding blocks_for
lacks_ten = omega arith

update_paged-Appends_example :
    ((update_cache 1 2 three three filled).1 ≡ ok tt)
    × Appends filled (update_cache 1 2 three three filled).0 three three
update_paged-Appends_example = update_paged-Appends filled three three filled-IsValid refl fits_six

abbrev seven : List ℕ
seven = 1 ∷ 2 ∷ 3 ∷ 4 ∷ three

update_paged_full_example :
    ((update_cache 1 2 seven seven filled).1 ≡ err no_free_blocks)
    × IsValid (update_cache 1 2 seven seven filled).0
    × (keys (update_cache 1 2 seven seven filled).0 ≡ keys filled)
    × (values (update_cache 1 2 seven seven filled).0 ≡ values filled)
update_paged_full_example = update_paged_full filled seven seven filled-IsValid lacks_ten

remove_paged-Truncates_example :
    ((remove_cache 2 filled).1 ≡ ok tt) × Truncates filled (remove_cache 2 filled).0 2
remove_paged-Truncates_example = remove_paged-Truncates filled 2 filled-IsValid (omega arith)

ensure_enough_example :
    ((ensure_blocks_allocated 6 filled).1 ≡ ok tt)
    × IsValid (ensure_blocks_allocated 6 filled).0
    × Grows filled (ensure_blocks_allocated 6 filled).0
    × (6 ≤ length (ensure_blocks_allocated 6 filled).0.allocated_blocks * 2)
ensure_enough_example = ensure_enough filled 6 filled-IsValid fits_six

ensure_short_example :
    ((ensure_blocks_allocated 10 filled).1 ≡ err no_free_blocks)
    × IsValid (ensure_blocks_allocated 10 filled).0
    × Grows filled (ensure_blocks_allocated 10 filled).0
    × ((ensure_blocks_allocated 10 filled).0.free_blocks ≡ [])
ensure_short_example = ensure_short filled 10 filled-IsValid lacks_ten

table-IsDistinct : IsDistinct (2 ∷ 0 ∷ [])
table-IsDistinct x = unfold count in ground arith

slots_differ_test : ◌≡◌ {A = ℕ} 3 3
slots_differ_test =
    slot_of_injective (2 ∷ 0 ∷ []) 2 (omega arith) 3 3 table-IsDistinct (omega arith) (omega arith)
      refl

written_at_example :
    written
      (2 ∷ 0 ∷ [])
      2
      (omega arith)
      table-IsDistinct
      three
      1
      (λ slot. slot)
      (place (2 ∷ 0 ∷ []) 2 (1 + 2))
    ≡ 9
written_at_example =
    written_at (2 ∷ 0 ∷ []) 2 (omega arith) table-IsDistinct three 1 2 9 (λ slot. slot)
      (omega arith) refl

-- A token behind the first three goes to the second slot of block 0, the next one to block 3.
update_run :
    (update_cache 1 2 (5 ∷ 6 ∷ []) (5 ∷ 6 ∷ []) filled).0.slot_mapping ≡ some (some 1 ∷ some 6 ∷ [])
unfolding update_cache ensure_blocks_allocated allocate_more allocate_block compute_slot_mapping
    blocks_for batch_slots seq_slots slot_of
update_run = refl
