-- ===== src/Kv/Instances.antt =====
-- The contiguous caches keep the promise of KVCacheBase.
use amd_pace.Common.{
  refl, ℕ, ◌≡◌, true, List, length, ◌≤◌, Option, ok, some, take, ◌++◌, ==-eq-true, ◌-◌, ◌∙◌, ap,
}
use amd_pace.Kv.{dim_matches}
use amd_pace.Kv.Interface.{KvCache}
use amd_pace.Kv.Bmc
use amd_pace.Kv.Bmc.{BmcKvCache}
use amd_pace.Kv.Bmc.Laws as BmcLaws
use amd_pace.Kv.Dynamic
use amd_pace.Kv.Dynamic.{DynamicKvCache}
use amd_pace.Kv.Dynamic.Laws as DynamicLaws

same_dim : (d : Option ℕ) (dim : ℕ) → d ≡ some dim → dim_matches d dim ≡ true
same_dim d dim e = rw e (==-eq-true dim dim refl)

module _ {A : Type 0} where
  abbrev pub BmcReady : ℕ → BmcKvCache A → Type 0
  BmcReady dim c = BmcLaws.IsValid c × (dim_matches c.concat_dim dim ≡ true)

  abbrev pub DynamicReady : ℕ → DynamicKvCache A → Type 0
  DynamicReady dim c =
      DynamicLaws.Sized c.key c.value c.seq_len × (dim_matches c.concat_dim dim ≡ true)

  pub bmc_update :
      (blank : A) (dim : ℕ) (c : BmcKvCache A) (ks vs : List A)
      → BmcReady dim c
      → length vs ≡ length ks
      → (Bmc.update_cache blank ks vs dim c).1 ≡ ok tt
      → BmcReady dim (Bmc.update_cache blank ks vs dim c).0
        × (BmcLaws.keys (Bmc.update_cache blank ks vs dim c).0 ≡ BmcLaws.keys c ++ ks)
        × (BmcLaws.values (Bmc.update_cache blank ks vs dim c).0 ≡ BmcLaws.values c ++ vs)
  bmc_update blank dim c ks vs i e h =
      let a = (BmcLaws.update_bmc-Appends blank c ks vs dim i.0 i.1 e).1 in
      ((a.valid, same_dim _ dim a.dim_kept), a.keys_grown, a.values_grown)

  pub bmc_remove :
      (dim : ℕ) (c : BmcKvCache A) (m : ℕ)
      → BmcReady dim c
      → m ≤ c.seq_len
      → ((Bmc.remove_cache m c).1 ≡ ok tt)
        × BmcReady dim (Bmc.remove_cache m c).0
        × (BmcLaws.keys (Bmc.remove_cache m c).0 ≡ take (c.seq_len - m) (BmcLaws.keys c))
        × (BmcLaws.values (Bmc.remove_cache m c).0 ≡ take (c.seq_len - m) (BmcLaws.values c))
  bmc_remove dim c m i le =
      let (done, t) = BmcLaws.remove_bmc-Truncates c m i.0 le in
      (
        done,
        (t.valid, rw t.dim_kept i.1),
        t.keys_cut ∙ ap (λ n. take (n - m) (BmcLaws.keys c)) (BmcLaws.length-keys c i.0),
        t.values_cut ∙ ap (λ n. take (n - m) (BmcLaws.values c)) (BmcLaws.length-values c i.0),
      )

  -- BMCKVCache, with `blank` a slice of zeros, along the dimension `dim`.
  abbrev pub bmc_cache : A → ℕ → KvCache A
  bmc_cache blank dim = record {
    Cache = BmcKvCache A;
    IsValid = BmcReady dim;
    keys = BmcLaws.keys;
    values = BmcLaws.values;
    seq_len = λ c. c.seq_len;
    update_cache = λ ks vs. Bmc.update_cache blank ks vs dim;
    remove_cache = Bmc.remove_cache;
    length-keys = λ c i. BmcLaws.length-keys c i.0;
    length-values = λ c i. BmcLaws.length-values c i.0;
    update_law = bmc_update blank dim;
    remove_law = bmc_remove dim;
  }

  pub dynamic_update :
      (dim : ℕ) (c : DynamicKvCache A) (ks vs : List A)
      → DynamicReady dim c
      → length vs ≡ length ks
      → (Dynamic.update_cache ks vs dim c).1 ≡ ok tt
      → DynamicReady dim (Dynamic.update_cache ks vs dim c).0
        × (DynamicLaws.keys (Dynamic.update_cache ks vs dim c).0 ≡ DynamicLaws.keys c ++ ks)
        × (DynamicLaws.values (Dynamic.update_cache ks vs dim c).0 ≡ DynamicLaws.values c ++ vs)
  dynamic_update dim c ks vs i e h =
      let a = (DynamicLaws.update_dynamic-Appends c ks vs dim i.0 i.1 e).1 in
      ((a.sized, same_dim _ dim a.dim_kept), a.keys_grown, a.values_grown)

  pub dynamic_remove :
      (dim : ℕ) (c : DynamicKvCache A) (m : ℕ)
      → DynamicReady dim c
      → m ≤ c.seq_len
      → ((Dynamic.remove_cache m c).1 ≡ ok tt)
        × DynamicReady dim (Dynamic.remove_cache m c).0
        × (DynamicLaws.keys (Dynamic.remove_cache m c).0
            ≡ take (c.seq_len - m) (DynamicLaws.keys c))
        × (DynamicLaws.values (Dynamic.remove_cache m c).0
            ≡ take (c.seq_len - m) (DynamicLaws.values c))
  dynamic_remove dim c m i le =
      let (done, t) = DynamicLaws.remove_dynamic-Truncates c m i.0 le in
      (
        done,
        (t.sized, rw t.dim_kept i.1),
        t.keys_cut ∙ ap (λ n. take (n - m) (DynamicLaws.keys c)) (DynamicLaws.length-keys c i.0),
        t.values_cut
            ∙ ap (λ n. take (n - m) (DynamicLaws.values c)) (DynamicLaws.length-values c i.0),
      )

  -- DynamicKVCache, along the dimension `dim`.
  abbrev pub dynamic_cache : ℕ → KvCache A
  dynamic_cache dim = record {
    Cache = DynamicKvCache A;
    IsValid = DynamicReady dim;
    keys = DynamicLaws.keys;
    values = DynamicLaws.values;
    seq_len = λ c. c.seq_len;
    update_cache = λ ks vs. Dynamic.update_cache ks vs dim;
    remove_cache = Dynamic.remove_cache;
    length-keys = λ c i. DynamicLaws.length-keys c i.0;
    length-values = λ c i. DynamicLaws.length-values c i.0;
    update_law = dynamic_update dim;
    remove_law = dynamic_remove dim;
  }
