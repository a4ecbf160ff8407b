-- ===== src/Kv/Interface.antt =====
-- KVCacheBase of pace/llm/attention/base.py: what every key-value cache promises its callers. A
-- cache holds a sequence of key slices and one of value slices, of the same length.
use amd_pace.Common.{ℕ, ◌-◌, ◌≤◌, ◌≡◌, List, ◌++◌, length, take, ok, Action}
use amd_pace.Kv.{Error}

pub record KvCache (A : Type 0) : Type 1 where
  pub Cache : Type 0
  pub IsValid : Cache → Type 0
  pub keys : Cache → List A
  pub values : Cache → List A
  pub seq_len : Cache → ℕ
  pub update_cache : List A → List A → Action Cache Error Unit
  pub remove_cache : ℕ → Action Cache Error Unit
  pub length-keys : (c : Cache) → IsValid c → length (keys c) ≡ seq_len c
  pub length-values : (c : Cache) → IsValid c → length (values c) ≡ seq_len c
  -- An update that does not raise appends.
  pub update_law :
      (c : Cache) (ks vs : List A)
      → IsValid c
      → length vs ≡ length ks
      → (update_cache ks vs c).1 ≡ ok tt
      → IsValid (update_cache ks vs c).0
        × (keys (update_cache ks vs c).0 ≡ keys c ++ ks)
        × (values (update_cache ks vs c).0 ≡ values c ++ vs)
  -- A removal of what is there does not raise, and cuts the end.
  pub remove_law :
      (c : Cache) (m : ℕ)
      → IsValid c
      → m ≤ seq_len c
      → ((remove_cache m c).1 ≡ ok tt)
        × IsValid (remove_cache m c).0
        × (keys (remove_cache m c).0 ≡ take (seq_len c - m) (keys c))
        × (values (remove_cache m c).0 ≡ take (seq_len c - m) (values c))
