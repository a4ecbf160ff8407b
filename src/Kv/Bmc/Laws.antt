-- ===== src/Kv/Bmc/Laws.antt =====
-- BMCKVCache keeps the sequence that was stored, whatever the segments.
use amd_pace.Kv.Segments.{IsSensible, IsChosen, chosen, split_size, le-segment_len, num_splits}
use amd_pace.Common.{
  refl, ℕ, ◌-◌, ◌≤◌, ◌<◌, ◌≡◌, Option, none, some, List, arith, length, take, replicate,
  length-append, length-replicate, take-append_le, ok, Bool-cases, ltb, inl, inr, pos-eq-false,
  ltb→lt, leb-eq-true, sym, length-take, take-take, true, ◌+◌, ◌++◌, ==-eq-true, take_nil,
  ltb-eq-false, [], ◌∙◌, ap, ◌*◌,
}
use amd_pace.Kv.{contents, dim_matches, length-overwrite, take-overwrite, take-overwrite_eq}
use amd_pace.Kv.Bmc.{
  BmcKvCache, extended, grow, create_new_segment, segment_len, update_cache, remove_cache, init,
  num_splits,
}

module _ {A : Type 0} where
  -- Both tensors or none; as long as one another, and with room for the sequence.
  abbrev pub Sized : Option (List A) → Option (List A) → ℕ → Type 0
  Sized none none n = n ≡ 0
  Sized (some k) (some v) n = (n ≤ length k) × (length v ≡ length k)
  Sized _ _ n = ⊥

  pub record IsValid (c : BmcKvCache A) : Type 0 where
    pub split_pos : 0 < c.tokens_per_split
    pub sized : Sized c.key c.value c.seq_len

  abbrev pub keys : BmcKvCache A → List A
  keys c = contents c.key c.seq_len

  abbrev pub values : BmcKvCache A → List A
  values c = contents c.value c.seq_len

  length-extended :
      (blank : A) (t : List A) (n : ℕ) → length t ≤ n → length (extended blank (some t) n) ≡ n
  length-extended blank t n h = omega (
    arith,
    length-append t (replicate (n - length t) blank),
    length-replicate (n - length t) blank,
  )

  -- After `grow` there is room for `updated` slices, and the sequence is what it was.
  abbrev Grown : A → BmcKvCache A → ℕ → Type 0
  Grown blank c updated =
      (k v : List A) × (grow blank updated c ≡ (record c { key = some k; value = some v }, ok tt))
      × (updated ≤ length k)
      × (length v ≡ length k)
      × (take c.seq_len k ≡ keys c)
      × (take c.seq_len v ≡ values c)

  take-extended :
      (blank : A) (t : List A) (n m : ℕ)
      → n ≤ length t
      → take n (extended blank (some t) m) ≡ take n t
  take-extended blank t n m h = take-append_le n t (replicate (m - length t) blank) h

  grow-Grown :
      (blank : A) (t : ℕ) (k v : Option (List A)) (n : ℕ) (dim : Option ℕ) (updated : ℕ)
      → 0 < t
      → Sized k v n
      → Grown blank
          (record { tokens_per_split = t; key = k; value = v; seq_len = n; concat_dim = dim })
          updated
  unfolding grow create_new_segment
  grow-Grown blank t none none n dim updated h s = (
    replicate (segment_len t updated) blank,
    replicate (segment_len t updated) blank,
    rw (pos-eq-false t h),
    omega (arith, length-replicate (segment_len t updated) blank, le-segment_len t updated),
    refl,
    rw s,
    rw s,
  )
  grow-Grown blank t (some k) (some v) n dim updated h s =
      elim (Bool-cases (ltb (length k) updated)) [
        | inl short ↦
            let m = segment_len t updated in
            let le = le-segment_len t updated h in
            let long : length k ≤ m = omega (arith, ltb→lt (length k) updated short) in
            let same : length v ≤ m = omega (arith, s.1) in
            (
              extended blank (some k) m,
              extended blank (some v) m,
              rw (
                short,
                pos-eq-false t h,
                leb-eq-true (length k) m long,
                leb-eq-true (length v) m same,
              ),
              omega (arith, length-extended blank k m long),
              omega (arith, length-extended blank k m long, length-extended blank v m same),
              take-extended blank k n m s.0,
              take-extended blank v n m (omega arith),
            )
        | inr fits ↦ (k, v, rw fits, ground arith, s.1, refl, refl)
      ]
  grow-Grown blank t none (some v) n dim updated h s = absurd s
  grow-Grown blank t (some k) none n dim updated h s = absurd s

  -- What `update_cache` makes of the stored sequence: the new slices are appended.
  pub record Appends (c d : BmcKvCache A) (ks vs : List A) (dim : ℕ) : Type 0 where
    pub valid : IsValid d
    pub keys_grown : keys d ≡ keys c ++ ks
    pub values_grown : values d ≡ values c ++ vs
    pub dim_kept : d.concat_dim ≡ some dim

  -- Slices that arrive along the cache's dimension are appended, whether or not the tensors have to
  -- grow by segments first, and the call does not fail.
  pub update_bmc-Appends :
      (blank : A) (c : BmcKvCache A) (ks vs : List A) (dim : ℕ)
      → IsValid c
      → dim_matches c.concat_dim dim ≡ true
      → length vs ≡ length ks
      → ((update_cache blank ks vs dim c).1 ≡ ok tt)
        × Appends c (update_cache blank ks vs dim c).0 ks vs dim
  unfolding update_cache
  update_bmc-Appends blank c ks vs dim i m e =
      let (k, v, grown, room, equal, old_keys, old_values) =
        grow-Grown blank c.tokens_per_split c.key c.value c.seq_len (some dim)
          (c.seq_len + length ks) i.split_pos i.sized in
      rw
        (
          m,
          grown,
          leb-eq-true (c.seq_len + length ks) (length k) room,
          ==-eq-true (length vs) (length ks) e,
          leb-eq-true (c.seq_len + length ks) (length v) (omega arith),
        )
        (
          refl,
          record {
            valid = record {
              split_pos = i.split_pos;
              sized = (
                omega (arith, length-overwrite k c.seq_len ks room),
                omega (
                  arith,
                  length-overwrite k c.seq_len ks room,
                  length-overwrite v c.seq_len vs (omega arith),
                ),
              );
            };
            keys_grown = take-overwrite k c.seq_len ks room ∙ ap (λ l. l ++ ks) old_keys;
            values_grown =
                take-overwrite_eq v c.seq_len (length ks) vs e (omega arith)
                ∙ ap (λ l. l ++ vs) old_values;
            dim_kept = refl;
          },
        )

  length-contents :
      (k v : Option (List A)) (n : ℕ)
      → Sized k v n
      → (length (contents k n) ≡ n) × (length (contents v n) ≡ n)
  length-contents none none n s = (sym s, sym s)
  length-contents (some k) (some v) n s =
      (omega (arith, length-take n k), omega (arith, length-take n v))
  length-contents none (some v) n s = absurd s
  length-contents (some k) none n s = absurd s

  pub length-keys : (c : BmcKvCache A) → IsValid c → length (keys c) ≡ c.seq_len
  length-keys c i = (length-contents c.key c.value c.seq_len i.sized).0

  pub length-values : (c : BmcKvCache A) → IsValid c → length (values c) ≡ c.seq_len
  length-values c i = (length-contents c.key c.value c.seq_len i.sized).1

  -- What `remove_cache` leaves: the sequence without its last slices.
  pub record Truncates (c d : BmcKvCache A) (m : ℕ) : Type 0 where
    pub valid : IsValid d
    pub keys_cut : keys d ≡ take (length (keys c) - m) (keys c)
    pub values_cut : values d ≡ take (length (values c) - m) (values c)
    pub dim_kept : d.concat_dim ≡ c.concat_dim

  take_cut :
      (t : List A) (n m : ℕ)
      → n ≤ length t
      → take (n - m) t ≡ take (length (take n t) - m) (take n t)
  take_cut t n m h =
      let e : length (take n t) ≡ n = omega (arith, length-take n t) in
      rw e (sym (take-take (n - m) n t (omega arith)))

  removed-Truncates :
      (t : ℕ) (k v : Option (List A)) (n : ℕ) (dim : Option ℕ) (m : ℕ)
      → 0 < t
      → Sized k v n
      → m ≤ n
      → let c : BmcKvCache A = record {
        tokens_per_split = t;
        key = k;
        value = v;
        seq_len = n;
        concat_dim = dim;
      } in
        ((remove_cache m c).1 ≡ ok tt) × Truncates c (remove_cache m c).0 m
  unfolding remove_cache
  removed-Truncates t none none n dim m h s le = (
    refl,
    record {
      valid = record { split_pos = h; sized = s };
      keys_cut = sym (take_nil (0 - m));
      values_cut = sym (take_nil (0 - m));
      dim_kept = refl;
    },
  )
  removed-Truncates t (some k) (some v) n dim m h s le = rw (ltb-eq-false n m le) (
    refl,
    record {
      valid = record { split_pos = h; sized = (omega arith, s.1) };
      keys_cut = take_cut k n m s.0;
      values_cut = take_cut v n m (omega arith);
      dim_kept = refl;
    },
  )
  removed-Truncates t none (some v) n dim m h s le = absurd s
  removed-Truncates t (some k) none n dim m h s le = absurd s

  -- Removing at most what is there cuts the sequence's end.
  pub remove_bmc-Truncates :
      (c : BmcKvCache A) (m : ℕ)
      → IsValid c
      → m ≤ c.seq_len
      → ((remove_cache m c).1 ≡ ok tt) × Truncates c (remove_cache m c).0 m
  remove_bmc-Truncates c m i =
      removed-Truncates c.tokens_per_split c.key c.value c.seq_len c.concat_dim m i.split_pos
        i.sized

  -- With the environment's number of splits between 1 and the maximal length, or without one and a
  -- positive length, a new cache is made, valid and empty. Its splits are that many, or as many as the
  -- rounded root of the length, and together they are as long as whole splits of one size can be
  -- within the maximal length.
  pub init_bmc-IsValid :
      (env : Option ℕ) (max_seq_length : ℕ)
      → IsSensible env max_seq_length
      → (c : BmcKvCache A) × (splits : ℕ) × (init env max_seq_length ≡ ok c)
        × IsChosen env max_seq_length splits
        × (splits * c.tokens_per_split ≤ max_seq_length)
        × (max_seq_length < splits * (c.tokens_per_split + 1))
        × IsValid c
        × (keys c ≡ [])
        × (values c ≡ [])
  unfolding init
  init_bmc-IsValid env n h =
      let (is, pos, le) = chosen env n h in
      rw (pos-eq-false (num_splits env n) pos) (
        _,
        num_splits env n,
        refl,
        is,
        (split_size n (num_splits env n) pos).0,
        (split_size n (num_splits env n) pos).1,
        record { split_pos = ground (arith, pos, le); sized = refl },
        refl,
        refl,
      )
