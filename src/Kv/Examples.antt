-- ===== src/Kv/Examples.antt =====
-- Concrete contiguous caches, and the theorems about them at these.
use amd_pace.Common.{ℕ, ◌≡◌, ◌≤◌, ◌<◌, ◌*◌, ◌+◌, refl, List, [], ◌∷◌, ok, some, arith, none}
use amd_pace.Kv.Segments.{IsChosen, segment_len, segment_len_bounds}
use amd_pace.Kv.Bmc
use amd_pace.Kv.Bmc.{BmcKvCache}
use amd_pace.Kv.Bmc.Laws as BmcLaws
use amd_pace.Kv.Dynamic
use amd_pace.Kv.Dynamic.{DynamicKvCache}
use amd_pace.Kv.Dynamic.Laws as DynamicLaws
use amd_pace.Kv.Instances.{dynamic_cache}
use amd_pace.Kv.Manager.{forward, remove_cache}
use amd_pace.Kv.Manager.Laws.{InStep, Cut, Extended, forward-InStep, remove_cache-InStep}

-- Splits of two slices, of which the second is half full.
abbrev bmc : BmcKvCache ℕ
bmc = record {
  tokens_per_split = 2;
  key = some (7 ∷ 8 ∷ 9 ∷ 0 ∷ []);
  value = some (1 ∷ 2 ∷ 3 ∷ 0 ∷ []);
  seq_len = 3;
  concat_dim = some 2;
}

bmc-IsValid : BmcLaws.IsValid bmc
bmc-IsValid = record { split_pos = omega arith; sized = (omega arith, refl) }

update_bmc-Appends_example :
    ((Bmc.update_cache 0 (5 ∷ 6 ∷ []) (5 ∷ 6 ∷ []) 2 bmc).1 ≡ ok tt)
    × BmcLaws.Appends bmc
        (Bmc.update_cache 0 (5 ∷ 6 ∷ []) (5 ∷ 6 ∷ []) 2 bmc).0
        (5 ∷ 6 ∷ [])
        (5 ∷ 6 ∷ [])
        2
update_bmc-Appends_example =
    BmcLaws.update_bmc-Appends 0 bmc (5 ∷ 6 ∷ []) (5 ∷ 6 ∷ []) 2 bmc-IsValid refl refl

remove_bmc-Truncates_example :
    ((Bmc.remove_cache 2 bmc).1 ≡ ok tt) × BmcLaws.Truncates bmc (Bmc.remove_cache 2 bmc).0 2
remove_bmc-Truncates_example = BmcLaws.remove_bmc-Truncates bmc 2 bmc-IsValid (omega arith)

init_bmc-IsValid_example :
    (c : BmcKvCache ℕ) × (splits : ℕ) × (Bmc.init none 10 ≡ ok c)
    × IsChosen none 10 splits
    × (splits * c.tokens_per_split ≤ 10)
    × (10 < splits * (c.tokens_per_split + 1))
    × BmcLaws.IsValid c
    × (BmcLaws.keys c ≡ [])
    × (BmcLaws.values c ≡ [])
init_bmc-IsValid_example = BmcLaws.init_bmc-IsValid none 10 (omega arith)

segment_len_test :
    (9 ≤ segment_len 4 9)
    × (segment_len 4 9 < 9 + 4)
    × ((splits : ℕ) × (segment_len 4 9 ≡ splits * 4))
segment_len_test = segment_len_bounds 4 9 (omega arith)

abbrev dynamic : DynamicKvCache ℕ
dynamic = record {
  key = some (7 ∷ 8 ∷ []);
  value = some (1 ∷ 2 ∷ []);
  seq_len = 2;
  concat_dim = some 1;
}

update_dynamic-Appends_example :
    ((Dynamic.update_cache (9 ∷ []) (3 ∷ []) 1 dynamic).1 ≡ ok tt)
    × DynamicLaws.Appends dynamic
        (Dynamic.update_cache (9 ∷ []) (3 ∷ []) 1 dynamic).0
        (9 ∷ [])
        (3 ∷ [])
        1
update_dynamic-Appends_example =
    DynamicLaws.update_dynamic-Appends dynamic (9 ∷ []) (3 ∷ []) 1 (refl, refl) refl refl

remove_dynamic-Truncates_example :
    ((Dynamic.remove_cache 1 dynamic).1 ≡ ok tt)
    × DynamicLaws.Truncates dynamic (Dynamic.remove_cache 1 dynamic).0 1
remove_dynamic-Truncates_example =
    DynamicLaws.remove_dynamic-Truncates dynamic 1 (refl, refl) (omega arith)

-- Two layers.
abbrev layers : List (DynamicKvCache ℕ)
layers = dynamic ∷ dynamic ∷ []

abbrev computed : List (List ℕ × List ℕ)
computed = (9 ∷ [], 3 ∷ []) ∷ (4 ∷ [], 5 ∷ []) ∷ []

forward_done : (forward (dynamic_cache 1) computed layers).1 ≡ ok tt
unfolding forward Dynamic.update_cache
forward_done = refl

forward-InStep_example :
    InStep (dynamic_cache 1) 3 (forward (dynamic_cache 1) computed layers).0
    × Extended (dynamic_cache 1) computed layers (forward (dynamic_cache 1) computed layers).0
forward-InStep_example =
    forward-InStep (dynamic_cache 1) computed layers 2 1 refl ((refl, refl, (refl, refl, tt)))
      ((((refl, refl), refl), refl, (((refl, refl), refl), refl, tt))) forward_done

remove_cache-InStep_example :
    ((remove_cache (dynamic_cache 1) 1 layers).1 ≡ ok tt)
    × InStep (dynamic_cache 1) 1 (remove_cache (dynamic_cache 1) 1 layers).0
    × Cut (dynamic_cache 1) 1 layers (remove_cache (dynamic_cache 1) 1 layers).0
remove_cache-InStep_example =
    remove_cache-InStep (dynamic_cache 1) layers 2 1
      ((((refl, refl), refl), refl, (((refl, refl), refl), refl, tt))) (omega arith)
