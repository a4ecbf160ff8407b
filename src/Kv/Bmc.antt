-- ===== src/Kv/Bmc.antt =====
-- BMCKVCache of pace/llm/attention/contiguous/cache.py: tensors that grow by whole segments, of
-- which the first `seq_len` slices are in use.
pub mod Laws
use amd_pace.Common.{
  ℕ, ◌+◌, ◌-◌, ◌/◌, ◌≡◌, Bool, true, false, ◌||◌, ◌&&◌, Option, none, some, List, ◌++◌, ◌==◌, ltb,
  leb, length, replicate, if◌then◌else◌, Result, ok, err, Action, ◌>>=◌, ◌>>◌,
}
use amd_pace.Kv.{
  Error, division_by_zero, too_many_removed, assertion, bad_tensor, overwrite, dim_matches,
}
use amd_pace.Kv.Segments.{num_splits, segment_len}

pub record BmcKvCache (A : Type 0) : Type 0 where
  pub tokens_per_split : ℕ
  pub key : Option (List A)
  pub value : Option (List A)
  pub seq_len : ℕ
  pub concat_dim : Option ℕ

module _ {A : Type 0} where
  -- `__init__`; the first argument is the environment's PACE_BMC_NUM_SPLITS.
  pub init : Option ℕ → ℕ → Result Error (BmcKvCache A)
  unfolding num_splits
  init env max_seq_length =
      if num_splits env max_seq_length == 0
      then err division_by_zero
      else ok (record {
        tokens_per_split = max_seq_length / num_splits env max_seq_length;
        key = none;
        value = none;
        seq_len = 0;
        concat_dim = none;
      })

  -- `self.key is not None and self.value is not None`
  abbrev pub both : Option (List A) → Option (List A) → Bool
  both (some k) (some v) = true
  both _ _ = false

  pub remove_cache : ℕ → Action (BmcKvCache A) Error Unit
  remove_cache remove_len c =
      if both c.key c.value
      then (if ltb c.seq_len remove_len
          then (c, err too_many_removed)
          else (record c { seq_len = c.seq_len - remove_len }, ok tt))
      else (c, ok tt)

  -- A tensor of `new_len` slices: the old ones, then zeros.
  abbrev pub extended : A → Option (List A) → ℕ → List A
  extended blank none new_len = replicate new_len blank
  extended blank (some t) new_len = t ++ replicate (new_len - length t) blank

  -- self.key.size(self.concat_dim)
  abbrev pub size : Option (List A) → ℕ
  size none = 0
  size (some t) = length t

  -- `_create_new_segment`; copying an old tensor needs room for it.
  pub create_new_segment : A → ℕ → Action (BmcKvCache A) Error Unit
  create_new_segment blank new_len c =
      if both c.key c.value
      then (if leb (size c.key) new_len && leb (size c.value) new_len
          then (
            record c {
              key = some (extended blank c.key new_len);
              value = some (extended blank c.value new_len);
            },
            ok tt,
          )
          else (c, err bad_tensor))
      else (
        record c {
          key = some (extended blank none new_len);
          value = some (extended blank none new_len);
        },
        ok tt,
      )

  -- `need_segment`
  abbrev pub need_segment : Option (List A) → Option (List A) → ℕ → Bool
  need_segment (some k) (some v) updated = ltb (length k) updated
  need_segment _ _ updated = true

  pub grow : A → ℕ → Action (BmcKvCache A) Error Unit
  unfolding segment_len create_new_segment
  grow blank updated c =
      if need_segment c.key c.value updated
      then (if c.tokens_per_split == 0
          then (c, err division_by_zero)
          else create_new_segment blank (segment_len c.tokens_per_split updated) c)
      else (c, ok tt)

  -- The two `narrow(…).copy_(…)`: what does not fit is an error, the first write staying in place.
  abbrev pub copy_states :
      Option (List A) → Option (List A) → List A → List A → Action (BmcKvCache A) Error Unit
  copy_states (some k) (some v) ks vs c =
      if leb (c.seq_len + length ks) (length k)
      then (if (length vs == length ks) && leb (c.seq_len + length ks) (length v)
          then (
            record c {
              key = some (overwrite k c.seq_len ks);
              value = some (overwrite v c.seq_len vs);
              seq_len = c.seq_len + length ks;
            },
            ok tt,
          )
          else (record c { key = some (overwrite k c.seq_len ks) }, err bad_tensor))
      else (c, err bad_tensor)
  copy_states _ _ ks vs c = (c, err bad_tensor)

  pub write : List A → List A → Action (BmcKvCache A) Error Unit
  unfolding overwrite
  write ks vs c = copy_states c.key c.value ks vs c

  pub set_concat_dim : ℕ → Action (BmcKvCache A) Error Unit
  set_concat_dim dim c =
      if dim_matches c.concat_dim dim
      then (record c { concat_dim = some dim }, ok tt)
      else (c, err assertion)

  -- `update_cache`; `blank` is a slice of zeros.
  pub update_cache : A → List A → List A → ℕ → Action (BmcKvCache A) Error Unit
  unfolding set_concat_dim grow write
  update_cache blank ks vs dim =
      set_concat_dim dim >> (λ c. (grow blank (c.seq_len + length ks) >> write ks vs) c)
