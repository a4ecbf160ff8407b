-- ===== src/Paged/Cache/Instance.antt =====
-- PagedKVCache keeps the promise of KVCacheBase.
use amd_pace.Paged.Blocks.{blocks_for}
use amd_pace.Paged.Cache.Contents.{
  keys, values, length-keys, length-values, update_paged_full, update_paged-Appends,
}
use amd_pace.Paged.Cache.Removal.{remove_paged-Truncates}
use amd_pace.Paged.Cache.Ensure.{IsValid}
use amd_pace.Common.{ℕ, ◌-◌, ◌≤◌, ◌≡◌, List, ◌++◌, length, take, ok, arith, dec_lt, ◌+◌, err-ne-ok}
use amd_pace.Kv.Interface.{KvCache}
use amd_pace.Paged.Cache.{PagedKvCache, blocks_for, no_free_blocks}
use amd_pace.Paged.Cache

module _ {A : Type 0} where
  pub paged_update :
      (c : PagedKvCache A) (ks vs : List A)
      → IsValid c
      → length vs ≡ length ks
      → (Cache.update_cache 1 2 ks vs c).1 ≡ ok tt
      → IsValid (Cache.update_cache 1 2 ks vs c).0
        × (keys (Cache.update_cache 1 2 ks vs c).0 ≡ keys c ++ ks)
        × (values (Cache.update_cache 1 2 ks vs c).0 ≡ values c ++ vs)
  paged_update c ks vs v e done =
      elim (dec_lt c.num_blocks (blocks_for (c.seq_len + length ks) c.block_size)) [
        | yes short ↦
            absurd (err-ne-ok no_free_blocks tt (rw (update_paged_full c ks vs v short).0 at done))
        | no fits ↦
            let a = (update_paged-Appends c ks vs v e (omega arith)).1 in
            (a.valid, a.keys_grown, a.values_grown)
      ]

  pub paged_remove :
      (c : PagedKvCache A) (m : ℕ)
      → IsValid c
      → m ≤ c.seq_len
      → ((Cache.remove_cache m c).1 ≡ ok tt)
        × IsValid (Cache.remove_cache m c).0
        × (keys (Cache.remove_cache m c).0 ≡ take (c.seq_len - m) (keys c))
        × (values (Cache.remove_cache m c).0 ≡ take (c.seq_len - m) (values c))
  paged_remove c m v le =
      let (done, t) = remove_paged-Truncates c m v le in (done, t.valid, t.keys_cut, t.values_cut)

  -- PagedKVCache with states of one sequence, along its one dimension.
  abbrev pub paged_cache : KvCache A
  paged_cache = record {
    Cache = PagedKvCache A;
    IsValid = IsValid;
    keys = keys;
    values = values;
    seq_len = λ c. c.seq_len;
    update_cache = Cache.update_cache 1 2;
    remove_cache = Cache.remove_cache;
    length-keys = λ c v. length-keys c;
    length-values = λ c v. length-values c;
    update_law = paged_update;
    remove_law = paged_remove;
  }
