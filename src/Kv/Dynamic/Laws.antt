-- ===== src/Kv/Dynamic/Laws.antt =====
-- DynamicKVCache is the sequence that was stored.
use amd_pace.Common.{
  ℕ, ◌-◌, ◌≤◌, ◌≡◌, refl, sym, Option, none, some, List, ◌++◌, arith, true, length, take,
  length-append, length-take, take_all, take_nil, take_less, ltb-eq-false, ok,
}
use amd_pace.Kv.{contents, dim_matches}
use amd_pace.Kv.Dynamic.{DynamicKvCache, joined, narrowed, remove_cache, update_cache}

module _ {A : Type 0} where
  -- Both tensors or none, and as long as the sequence.
  abbrev pub Sized : Option (List A) → Option (List A) → ℕ → Type 0
  Sized none none n = n ≡ 0
  Sized (some k) (some v) n = (length k ≡ n) × (length v ≡ n)
  Sized _ _ n = ⊥

  abbrev pub keys : DynamicKvCache A → List A
  keys c = contents c.key c.seq_len

  abbrev pub values : DynamicKvCache A → List A
  values c = contents c.value c.seq_len

  -- What `update_cache` makes of the stored sequence: the new slices are appended.
  pub record Appends (c d : DynamicKvCache A) (ks vs : List A) (dim : ℕ) : Type 0 where
    pub sized : Sized d.key d.value d.seq_len
    pub keys_grown : keys d ≡ keys c ++ ks
    pub values_grown : values d ≡ values c ++ vs
    pub dim_kept : d.concat_dim ≡ some dim

  joined-Appends :
      (k v : Option (List A)) (n : ℕ) (old : Option ℕ) (ks vs : List A) (dim : ℕ)
      → Sized k v n
      → length vs ≡ length ks
      → Appends
          (record { key = k; value = v; seq_len = n; concat_dim = old })
          (joined k v ks vs (record { key = k; value = v; seq_len = n; concat_dim = some dim }))
          ks
          vs
          dim
  joined-Appends none none n old ks vs dim s e = record {
    sized = (refl, e);
    keys_grown = take_all (length ks) ks (omega arith);
    values_grown = take_all (length ks) vs (omega arith);
    dim_kept = refl;
  }
  joined-Appends (some k) (some v) n old ks vs dim s e = record {
    sized = (refl, omega (arith, length-append k ks, length-append v vs));
    keys_grown =
        rw (take_all n k (omega arith)) (take_all (length (k ++ ks)) (k ++ ks) (omega arith));
    values_grown = rw (take_all n v (omega arith)) (
        take_all (length (k ++ ks)) (v ++ vs)
          (omega (arith, length-append k ks, length-append v vs)));
    dim_kept = refl;
  }
  joined-Appends none (some v) n old ks vs dim s e = absurd s
  joined-Appends (some k) none n old ks vs dim s e = absurd s

  -- Slices that arrive along the cache's dimension are appended, and nothing else changes.
  pub update_dynamic-Appends :
      (c : DynamicKvCache A) (ks vs : List A) (dim : ℕ)
      → Sized c.key c.value c.seq_len
      → dim_matches c.concat_dim dim ≡ true
      → length vs ≡ length ks
      → ((update_cache ks vs dim c).1 ≡ ok tt) × Appends c (update_cache ks vs dim c).0 ks vs dim
  unfolding update_cache
  update_dynamic-Appends c ks vs dim s m e =
      rw m (refl, joined-Appends c.key c.value c.seq_len c.concat_dim ks vs dim s e)

  -- What `remove_cache` leaves: the sequence without its last slices.
  pub record Truncates (c d : DynamicKvCache A) (n : ℕ) : Type 0 where
    pub sized : Sized d.key d.value d.seq_len
    pub keys_cut : keys d ≡ take (length (keys c) - n) (keys c)
    pub values_cut : values d ≡ take (length (values c) - n) (values c)
    pub dim_kept : d.concat_dim ≡ c.concat_dim

  length-contents :
      (k v : Option (List A)) (n : ℕ)
      → Sized k v n
      → (length (contents k n) ≡ n) × (length (contents v n) ≡ n)
  length-contents none none n s = (sym s, sym s)
  length-contents (some k) (some v) n s =
      (omega (arith, length-take n k), omega (arith, length-take n v))
  length-contents none (some v) n s = absurd s
  length-contents (some k) none n s = absurd s

  pub length-keys :
      (c : DynamicKvCache A) → Sized c.key c.value c.seq_len → length (keys c) ≡ c.seq_len
  length-keys c i = (length-contents c.key c.value c.seq_len i).0

  pub length-values :
      (c : DynamicKvCache A) → Sized c.key c.value c.seq_len → length (values c) ≡ c.seq_len
  length-values c i = (length-contents c.key c.value c.seq_len i).1

  narrowed-Truncates :
      (k v : Option (List A)) (n : ℕ) (dim : Option ℕ) (m : ℕ)
      → Sized k v n
      → m ≤ n
      → let c : DynamicKvCache A = record { key = k; value = v; seq_len = n; concat_dim = dim } in
        ((narrowed k v m c).1 ≡ ok tt) × Truncates c (narrowed k v m c).0 m
  narrowed-Truncates none none n dim m s h = (
    refl,
    record {
      sized = s;
      keys_cut = sym (take_nil (0 - m));
      values_cut = sym (take_nil (0 - m));
      dim_kept = refl;
    },
  )
  narrowed-Truncates (some k) (some v) n dim m s h = rw (ltb-eq-false n m h) (
    refl,
    record {
      sized = (omega (arith, length-take (n - m) k), omega (arith, length-take (n - m) v));
      keys_cut = take_less n m k s.0;
      values_cut = take_less n m v s.1;
      dim_kept = refl;
    },
  )
  narrowed-Truncates none (some v) n dim m s h = absurd s
  narrowed-Truncates (some k) none n dim m s h = absurd s

  -- Removing at most what is there cuts the sequence's end.
  pub remove_dynamic-Truncates :
      (c : DynamicKvCache A) (m : ℕ)
      → Sized c.key c.value c.seq_len
      → m ≤ c.seq_len
      → ((remove_cache m c).1 ≡ ok tt) × Truncates c (remove_cache m c).0 m
  unfolding remove_cache
  remove_dynamic-Truncates c m = narrowed-Truncates c.key c.value c.seq_len c.concat_dim m
