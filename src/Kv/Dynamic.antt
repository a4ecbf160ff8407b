-- ===== src/Kv/Dynamic.antt =====
-- DynamicKVCache of pace/llm/attention/contiguous/cache.py: tensors that are concatenated and cut.
pub mod Laws
use amd_pace.Common.{
  ℕ, ◌-◌, Bool, true, false, Option, none, some, List, ◌++◌, ltb, length, take, if◌then◌else◌, ok,
  err, Action, ◌>>=◌, ◌>>◌,
}
use amd_pace.Kv.{Error, too_many_removed, assertion, dim_matches}

pub record DynamicKvCache (A : Type 0) : Type 0 where
  pub key : Option (List A)
  pub value : Option (List A)
  pub seq_len : ℕ
  pub concat_dim : Option ℕ

module _ {A : Type 0} where
  unfoldable pub init : DynamicKvCache A
  init = record { key = none; value = none; seq_len = 0; concat_dim = none }

  abbrev narrowed : Option (List A) → Option (List A) → ℕ → Action (DynamicKvCache A) Error Unit
  narrowed (some k) (some v) remove_len c =
      if ltb c.seq_len remove_len then (c, err too_many_removed) else (
        record c {
          seq_len = c.seq_len - remove_len;
          key = some (take (c.seq_len - remove_len) k);
          value = some (take (c.seq_len - remove_len) v);
        },
        ok tt,
      )
  narrowed _ _ remove_len c = (c, ok tt)

  pub remove_cache : ℕ → Action (DynamicKvCache A) Error Unit
  remove_cache remove_len c = narrowed c.key c.value remove_len c

  abbrev joined :
      Option (List A) → Option (List A) → List A → List A → DynamicKvCache A → DynamicKvCache A
  joined (some k) (some v) ks vs c = record c {
    key = some (k ++ ks);
    value = some (v ++ vs);
    seq_len = length (k ++ ks);
  }
  joined _ _ ks vs c = record c { key = some ks; value = some vs; seq_len = length ks }

  unfoldable pub update_cache : List A → List A → ℕ → Action (DynamicKvCache A) Error Unit
  update_cache ks vs dim c =
      if dim_matches c.concat_dim dim
      then (joined c.key c.value ks vs (record c { concat_dim = some dim }), ok tt)
      else (c, err assertion)
