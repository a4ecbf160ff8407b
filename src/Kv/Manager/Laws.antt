-- ===== src/Kv/Manager/Laws.antt =====
-- The layers of a KVCacheManager stay in step: after a forward pass and after a rollback they all
-- hold equally many tokens.
use amd_pace.Common.{
  ℕ, ◌+◌, ◌-◌, ◌≤◌, ◌≡◌, refl, ap, ◌∙◌, List, [], ◌∷◌, ◌++◌, ok, take, length, length-take,
  length-append, inl, inr, Result-cases, arith, err-ne-ok,
}
use amd_pace.Kv.Interface.{KvCache}
use amd_pace.Kv.Manager.{remove_cache, forward}

module _ {A : Type 0} (kv : KvCache A) where
  open kv use {Cache, IsValid, keys, values, seq_len, update_cache}

  -- Every layer is valid and holds `n` tokens.
  abbrev pub InStep : ℕ → List Cache → Type 0
  InStep n [] = Unit {0}
  InStep n (c ∷ cs) = IsValid c × (seq_len c ≡ n) × InStep n cs

  -- Every layer of `ds` holds the first `n` tokens of its counterpart.
  abbrev pub Cut : ℕ → List Cache → List Cache → Type 0
  Cut n [] [] = Unit {0}
  Cut n (c ∷ cs) (d ∷ ds) =
      (keys d ≡ take n (keys c)) × (values d ≡ take n (values c)) × Cut n cs ds
  Cut n _ _ = ⊥

  -- Taking back at most what the layers hold does not fail, leaves them in step, and cuts the same
  -- tokens off each.
  pub remove_cache-InStep :
      (cs : List Cache) (n m : ℕ)
      → InStep n cs
      → m ≤ n
      → ((remove_cache kv m cs).1 ≡ ok tt)
        × InStep (n - m) (remove_cache kv m cs).0
        × Cut (n - m) cs (remove_cache kv m cs).0
  unfolding remove_cache
  remove_cache-InStep [] n m s le = (refl, tt, tt)
  remove_cache-InStep (c ∷ cs) n m (valid, len, rest) le =
      let (done, still, ks, vs) = kv.remove_law c m valid (omega arith) in
      let cut_len : seq_len (kv.remove_cache m c).0 ≡ n - m = omega (
        arith,
        kv.length-keys _ still,
        ap length ks,
        length-take (seq_len c - m) (keys c),
        kv.length-keys c valid,
      ) in
      let (all_done, in_step, cut) = remove_cache-InStep cs n m rest le in
      rw done (
        all_done,
        (still, cut_len, in_step),
        (ks ∙ ap (λ k. take (k - m) (keys c)) len, vs ∙ ap (λ k. take (k - m) (values c)) len, cut),
      )

  -- Every layer computes key and value slices for `t` tokens.
  abbrev pub Computes : ℕ → List (List A × List A) → Type 0
  Computes t [] = Unit {0}
  Computes t (kvs ∷ more) = (length kvs.0 ≡ t) × (length kvs.1 ≡ t) × Computes t more

  -- Every layer of `ds` holds what its counterpart held, and behind it what the layer computed.
  abbrev pub Extended : List (List A × List A) → List Cache → List Cache → Type 0
  Extended (kvs ∷ more) (c ∷ cs) (d ∷ ds) =
      (keys d ≡ keys c ++ kvs.0) × (values d ≡ values c ++ kvs.1) × Extended more cs ds
  Extended [] [] [] = Unit {0}
  Extended _ _ _ = ⊥

  -- A forward pass over all layers that does not raise leaves the layers in step, each with the new
  -- slices appended.
  pub forward-InStep :
      (kvs : List (List A × List A)) (cs : List Cache) (n t : ℕ)
      → length kvs ≡ length cs
      → Computes t kvs
      → InStep n cs
      → (forward kv kvs cs).1 ≡ ok tt
      → InStep (n + t) (forward kv kvs cs).0 × Extended kvs cs (forward kv kvs cs).0
  unfolding forward
  forward-InStep [] [] n t same comp s done = (tt, tt)
  forward-InStep [] (c ∷ cs) n t same comp s done = absurd (omega arith)
  forward-InStep (kvs ∷ more) [] n t same comp s done = absurd (omega arith)
  forward-InStep (kvs ∷ more) (c ∷ cs) n t same comp (valid, len, rest) done =
      elim (Result-cases (update_cache kvs.0 kvs.1 c).1) [
        | inl (_, e) ↦
            let (still, ks, vs) = kv.update_law c kvs.0 kvs.1 valid (omega arith) e in
            let (in_step, extended) =
              forward-InStep more cs n t (omega arith) comp.2 rest (rw e at done) in
            let grown : seq_len (update_cache kvs.0 kvs.1 c).0 ≡ n + t = omega (
              arith,
              kv.length-keys _ still,
              ap length ks,
              length-append (keys c) kvs.0,
              kv.length-keys c valid,
            ) in
            rw e ((still, grown, in_step), (ks, vs, extended))
        | inr (x, e) ↦ absurd (err-ne-ok x tt (rw e at done))
      ]
