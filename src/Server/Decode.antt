-- ===== src/Server/Decode.antt =====
-- A decode call of the server: a round of its conversations, or the failure of the batch.
use amd_pace.Decoding.Stopping.{is_in}
use amd_pace.Common.{
  ℕ, ◌≡◌, refl, ap, sym, ◌∙◌, subst, Bool, Option, none, some, List, [], ◌∷◌, Dict, has, inl, inr,
  ok, Bool-cases, ◌⊎◌,
}
use amd_pace.Kv.{Error}
use amd_pace.Server.Sequences.{Engine, Sequence}
use amd_pace.Server.Executor.{
  ModelExecutor, Results, all_fast, remove_sequences, remove_each, remove_one, refresh,
}
use amd_pace.Server.Steps.{keys, fail_batch, finish_batch, standard_decode}
use amd_pace.Server.Queues.{
  IsUnique-shape, shape, IsKept, IsExact, all_true-shape, remove_each-Kept, refresh_lem,
  remove_one_prefill, remove_one_decode, remove_one_none, refresh_kept, refresh_recomputed,
  all_true,
}
use amd_pace.Server.Ready.{AllReady}
use amd_pace.Server.Valid.{IsValid}
use amd_pace.Server.Failure.{Failed, fail_batch-Failed, is_in-keys}
use amd_pace.Server.Conversations.{conversations, serve, IsClean}
use amd_pace.Server.Batch.{
  caught, forward_batch, choose_all, next_tokens-choose, nan-cases, shape-caught,
}
use amd_pace.Server.Rounds.{
  turned_all, staying, completed_ids, outcomes, shape-turned_all, commit_lem, serve_lem,
  remove_completed, staying-AllReady,
}

remove_one-rng : (id : ℕ) (ex : ModelExecutor) → (remove_one id ex).rng ≡ ex.rng
remove_one-rng id ex = elim (Bool-cases (has id ex.prefill_queue)) [
  | inl e ↦ rw (remove_one_prefill id ex e) refl
  | inr e ↦ elim (Bool-cases (has id ex.decode_queue)) [
    | inl f ↦ rw (remove_one_decode id ex e f) refl
    | inr f ↦ rw (remove_one_none id ex e f) refl
  ]
]

remove_each-rng : (ids : List ℕ) (ex : ModelExecutor) → (remove_each ids ex).rng ≡ ex.rng
remove_each-rng [] ex = refl
remove_each-rng (id ∷ ids) ex = remove_each-rng ids (remove_one id ex) ∙ remove_one-rng id ex

refresh-rng : (ex : ModelExecutor) → (refresh ex).rng ≡ ex.rng
refresh-rng ex = elim (Bool-cases ex.all_greedy) [
  | inl e ↦ rw (refresh_kept ex e) refl
  | inr e ↦ rw (refresh_recomputed ex e) refl
]

-- The flag is as exact for a queue with the same ids and samplers.
pub same_flags :
    (q q' : Dict Sequence) (flag : Bool)
    → shape q' ≡ shape q
    → flag ≡ all_fast q
    → flag ≡ all_fast q'
same_flags q q' flag e h = h ∙ sym (all_true-shape q) ∙ ap all_true (sym e) ∙ all_true-shape q'

-- The end of the loop: the completed requests leave, and the flag is exact.
finish_lem :
    (ids : List ℕ) (queue : Dict Sequence) (results : Results) (done : List ℕ) (ex : ModelExecutor)
    → IsKept (record ex { decode_queue = queue })
    → IsExact (record ex { decode_queue = queue })
    → (out : ModelExecutor) × (finish_batch ids (queue, results, ok done) ex ≡ (out, results))
      × IsKept out
      × IsExact out
      × (out.decode_queue ≡ (remove_each done (record ex { decode_queue = queue })).decode_queue)
      × (out.rng ≡ ex.rng)
finish_lem ids queue results [] ex k x =
    (record ex { decode_queue = queue }, refl, k, x, refl, refl)
finish_lem ids queue results (id ∷ more) ex k x =
    let ex' = remove_each (id ∷ more) (record ex { decode_queue = queue }) in
    let (kept, exact, d, p) = refresh_lem ex' (remove_each-Kept (id ∷ more) _ k) in
    (
      refresh ex',
      unfold remove_sequences in refl,
      kept,
      exact,
      d,
      refresh-rng ex' ∙ remove_each-rng (id ∷ more) _,
    )

keys-shape : (queue : Dict Sequence) → keys (shape queue) ≡ keys queue
keys-shape [] = refl
keys-shape ((id, s) ∷ queue) = ap (λ l. id ∷ l) (keys-shape queue)

pub same_keys : (q q' : Dict Sequence) → shape q ≡ shape q' → keys q ≡ keys q'
same_keys q q' e = sym (keys-shape q) ∙ ap keys e ∙ keys-shape q'

module _ (engine : Engine) where
  -- A decode call does what a round of the conversations does.
  pub record Serves (ex : ModelExecutor) (out : ModelExecutor × Results) : Type 0 where
    pub valid : IsValid engine out.0
    pub left :
        out.0.decode_queue
        ≡ staying engine (choose_all engine ex.decode_queue ex.rng).0 ex.decode_queue
    pub talks :
        conversations out.0.decode_queue ≡ (serve engine (conversations ex.decode_queue) ex.rng).0
    pub answers : out.1 ≡ (serve engine (conversations ex.decode_queue) ex.rng).1
    pub random : out.0.rng ≡ (serve engine (conversations ex.decode_queue) ex.rng).2

  -- On a valid executor of whose next logits none is NaN, a standard decode call does what a round of
  -- the conversations does: the conversations that are left, the answers and the random numbers are
  -- the round's, and the executor stays valid.
  pub standard_decode-Serves :
      (ex : ModelExecutor)
      → IsValid engine ex
      → IsClean engine ex.decode_queue
      → Serves ex (standard_decode engine none ex)
  unfolding standard_decode
  standard_decode-Serves ex v c =
      let queue = ex.decode_queue in
      let ts = (choose_all engine queue ex.rng).0 in
      let rng = (choose_all engine queue ex.rng).1 in
      let behind = record ex { decode_queue = turned_all engine ts queue; rng = rng } in
      let unique = IsUnique-shape queue v.kept.decode_unique in
      let kept : IsKept behind = rw (shape-turned_all engine ts queue) v.kept in
      let exact : IsExact behind =
        same_flags queue (turned_all engine ts queue) ex.all_greedy
          (shape-turned_all engine ts queue) v.exact in
      let (out, ended, kept', exact', d, same) =
        finish_lem (keys (caught queue)) (turned_all engine ts queue) (outcomes engine ts queue)
          (completed_ids engine ts queue) (record ex { decode_queue = caught queue; rng = rng })
          kept exact in
      let left : out.decode_queue ≡ staying engine ts queue =
        d ∙ remove_completed engine ts queue [] behind refl kept in
      rw
        (
          forward_batch engine queue v.ready,
          next_tokens-choose engine ex.all_greedy queue ex.rng v.exact c,
          commit_lem engine ts queue [] v.ready unique (λ j h. refl),
          ended,
        )
        (record {
          valid = record {
            kept = kept';
            exact = exact';
            ready =
                subst (AllReady engine) (sym left) (staying-AllReady engine queue ex.rng v.ready);
          };
          left = left;
          talks = ap conversations left ∙ sym (ap (λ r. r.0) (serve_lem engine queue ex.rng));
          answers = sym (ap (λ r. r.1) (serve_lem engine queue ex.rng));
          random = same ∙ sym (ap (λ r. r.2) (serve_lem engine queue ex.rng));
        })

  -- A failure of the batch behind changes of its sequences only.
  pub fails_behind :
      (e : Error) (ex : ModelExecutor) (queue : Dict Sequence) (rng : ℕ)
      → IsValid engine ex
      → shape queue ≡ shape ex.decode_queue
      → Failed
          (keys ex.decode_queue)
          ex
          e
          (fail_batch (keys queue) e [] (record ex { decode_queue = queue; rng = rng }))
  fails_behind e ex queue rng v same =
      let f =
        fail_batch-Failed e (keys queue) [] (record ex { decode_queue = queue; rng = rng })
          (rw same v.kept) (same_flags ex.decode_queue queue ex.all_greedy same v.exact)
          (λ id h. is_in-keys id queue ∙ h) in
      record {
        kept = f.kept;
        exact = f.exact;
        emptied = f.emptied;
        others = f.others;
        told = λ id h. f.told id (ap (is_in id) (same_keys queue ex.decode_queue same) ∙ h);
      }

  -- When the model's step raises, or merge_contexts does, or logits hold a NaN, every request of the
  -- batch gets the error and leaves the decode queue, and what is in the prefill queue stays.
  pub standard_decode-Failed :
      (e : Error) (ex : ModelExecutor)
      → IsValid engine ex
      → Failed (keys ex.decode_queue) ex e (standard_decode engine (some e) ex)
  unfolding standard_decode
  standard_decode-Failed e ex v = fails_behind e ex ex.decode_queue ex.rng v refl

  pub decode-cases :
      (ex : ModelExecutor)
      → IsValid engine ex
      → IsClean engine ex.decode_queue
        ⊎ ((e : Error) × Failed (keys ex.decode_queue) ex e (standard_decode engine none ex))
  unfolding standard_decode
  decode-cases ex v = elim (nan-cases engine ex.all_greedy ex.decode_queue ex.rng) [
    | inl c ↦ inl c
    | inr (rng, e, h) ↦ inr (
      e,
      rw (forward_batch engine ex.decode_queue v.ready, h)
          (fails_behind e ex (caught ex.decode_queue) rng v (shape-caught ex.decode_queue)),
    )
  ]

  pub Failed-IsValid :
      (ids : List ℕ) (ex : ModelExecutor) (e : Error) (out : ModelExecutor × Results)
      → Failed ids ex e out
      → IsValid engine out.0
  Failed-IsValid ids ex e out f = record {
    kept = f.kept;
    exact = f.exact;
    ready = subst (AllReady engine) (sym f.emptied) tt;
  }

  pub standard_decode-IsValid :
      (failure : Option Error) (ex : ModelExecutor)
      → IsValid engine ex
      → IsValid engine (standard_decode engine failure ex).0
  standard_decode-IsValid (some e) ex v =
      Failed-IsValid (keys ex.decode_queue) ex e _ (standard_decode-Failed e ex v)
  standard_decode-IsValid none ex v = elim (decode-cases ex v) [
    | inl c ↦ let s = standard_decode-Serves ex v c in s.valid
    | inr (e, f) ↦ Failed-IsValid (keys ex.decode_queue) ex e _ f
  ]
