-- ===== src/Server/Valid.antt =====
-- The invariant of ModelExecutor, and that prefill keeps it.
use amd_pace.Decoding.Generator.{DraftState}
use amd_pace.Decoding.Sampler.{Logits}
use amd_pace.Common.{
  ℕ, ◌+◌, ◌≡◌, refl, ap, sym, ◌∙◌, subst, true, false, ◌&&◌, Option, List, [], ◌∷◌, ◌++◌, Dict, has,
  put, erase, arith, length, inl, inr, ok, Result-cases, Option-cases, put_new, put-put,
  erase-put_new, err-ne-ok, ok-injective, has-put_self, Bool-cases, ◌==◌,
}
use amd_pace.Kv.{Error, type_error}
use amd_pace.Decoding.Stopping.Laws.{Limit, init-Limit, init_ok}
use amd_pace.Decoding.Generator.Entries.{zip-compute_positions}
use amd_pace.Server.Sequences.{
  Engine, Sequence, PrefillRequest, init_sequence, with_limit, positions_of, with_criteria,
}
use amd_pace.Server.Executor.{
  ModelExecutor, remove_sequences, remove_one, move_to_decode_queue, set_decoding, remove_each,
  seeded_rng,
}
use amd_pace.Server.Steps.{
  forward, count_computed, sample_first, finish_prefill, run_prompt, prefill, PrefillFailure,
  in_step, in_draft,
}
use amd_pace.Server.Queues.{
  fast, IsKept, IsExact, enqueue-Kept, move-Kept, remove_one_prefill, remove_one-Kept, refresh_lem,
  all_fast-snoc, remove_each-Kept, remove_one_decode, remove_one_none,
}
use amd_pace.Server.Ready.{Ready, AllReady}
use amd_pace.Server.Prefilled.{Filled, sample_first-Ready}

-- Sequence.__init__ starts with an empty cache and the limit of its buffer.
pub record Fresh (s : Sequence) : Type 0 where
  pub cached : s.kv_cache ≡ []
  pub counted : s.num_computed_tokens ≡ 0
  pub limited : Limit s.capacity s.stopping_criteria

init_sequence-Fresh :
    (request : PrefillRequest) (s : Sequence) → init_sequence request ≡ ok s → Fresh s
unfolding init_sequence
init_sequence-Fresh request s h = elim (Option-cases request.sampling_config.max_new_tokens) [
  | inl e ↦ absurd (err-ne-ok type_error s (sym (ap (with_limit request) e) ∙ h))
  | inr (m, e) ↦
      let (c, made) = init_ok request.sampling_config (length request.prompt) in
      let capacity = m + length request.prompt in
      let built : with_criteria request capacity (ok c) ≡ ok s =
        sym (ap (with_criteria request capacity) made) ∙ sym (ap (with_limit request) e) ∙ h in
      subst Fresh (ok-injective _ s built) (record {
        cached = refl;
        counted = refl;
        limited = init-Limit request.sampling_config (length request.prompt) m true c made e;
      })
]

AllReady-append :
    (engine : Engine) (q r : Dict Sequence)
    → AllReady engine q
    → AllReady engine r
    → AllReady engine (q ++ r)
AllReady-append engine [] r hq hr = hr
AllReady-append engine ((id, s) ∷ q) r (h, hq) hr = (h, AllReady-append engine q r hq hr)

set_decoding-Ready :
    (engine : Engine) (s : Sequence) → Ready engine s → Ready engine (set_decoding s)
set_decoding-Ready engine s r = record {
  done = r.done;
  last = r.last;
  tokens = r.tokens;
  cached = r.cached;
  counted = r.counted;
  limited = r.limited;
  room = r.room;
  draft_ready = λ h.
      let d = r.draft_ready h in
      record {
        state = d.state;
        made = d.made;
        seen = d.seen;
        input = d.input;
        some_input = d.some_input;
        split = d.split;
        drafted = d.drafted;
      };
}

module _ (engine : Engine) where
  pub record IsValid (ex : ModelExecutor) : Type 0 where
    pub kept : IsKept ex
    pub exact : IsExact ex
    pub ready : AllReady engine ex.decode_queue

  forward-Filled :
      (s : Sequence)
      → Fresh s
      → Filled engine false (count_computed (length s.tokens) (forward s.tokens s.tokens s).0)
  unfolding forward positions_of
  forward-Filled s f = record {
    cached = rw (f.cached, f.counted) (zip-compute_positions s.tokens 0);
    counted = omega (arith, f.counted);
    limited = f.limited;
    draft_filled = λ h. absurd (ground (arith, h));
  }

  -- The request leaves the prefill queue again.
  removed-IsValid :
      (id : ℕ) (ex : ModelExecutor)
      → IsKept ex
      → AllReady engine ex.decode_queue
      → has id ex.prefill_queue ≡ true
      → IsValid (remove_sequences (id ∷ []) ex)
  unfolding remove_sequences
  removed-IsValid id ex k r h =
      let (kept, exact, d, _) = refresh_lem (remove_one id ex) (remove_one-Kept id ex k) in
      record {
        kept = kept;
        exact = exact;
        ready =
            subst (AllReady engine)
              (sym (d ∙ ap (λ x. x.decode_queue) (remove_one_prefill id ex h))) r;
      }

  -- The request moves to the decode queue.
  moved-IsValid :
      (id : ℕ) (s s' : Sequence) (ex : ModelExecutor) (rng : ℕ)
      → IsValid ex
      → has id ex.prefill_queue ≡ false
      → has id ex.decode_queue ≡ false
      → Ready engine s'
      → IsValid (
          move_to_decode_queue id s' (record ex {
            prefill_queue = put id s' (put id s ex.prefill_queue);
            open_contexts = ex.open_contexts + 1;
            rng = rng;
          }))
  unfolding move_to_decode_queue
  moved-IsValid id s s' ex rng v hp hq r =
      rw (put-put id s s' ex.prefill_queue, erase-put_new id s' ex.prefill_queue hp)
        (record {
          kept = move-Kept id (set_decoding s') _ _ ex.all_greedy _ v.kept hp hq;
          exact =
              rw
                (
                  put_new id (set_decoding s') ex.decode_queue hq,
                  all_fast-snoc ex.decode_queue id (set_decoding s'),
                )
                (ap (λ b. b && fast s') v.exact);
          ready = rw (put_new id (set_decoding s') ex.decode_queue hq) (
              AllReady-append engine ex.decode_queue _ v.ready
                (set_decoding-Ready engine s' r, tt));
        })

  finish-IsValid :
      (failure : Option (Error × Option DraftState)) (id : ℕ) (s s0 : Sequence)
      (logits : Option Logits) (ex : ModelExecutor)
      → IsValid ex
      → has id ex.prefill_queue ≡ false
      → has id ex.decode_queue ≡ false
      → Filled engine false s0
      → IsValid
          (finish_prefill engine id (sample_first engine failure logits (s0, ex.rng)) (record ex {
            prefill_queue = put id s ex.prefill_queue;
            open_contexts = ex.open_contexts + 1;
          })).0
  finish-IsValid failure id s s0 logits ex v hp hq f =
      elim (sample_first-Ready engine failure s0 ex.rng logits f) [
        | inl (e, (s', rng), h) ↦
            rw (h, put-put id s s' ex.prefill_queue)
              (record {
                kept = enqueue-Kept id s' _ _ ex.all_greedy _ v.kept hp hq;
                exact = v.exact;
                ready = v.ready;
              })
        | inr (t, s', rng, true, h, r) ↦
            rw (h, put-put id s s' ex.prefill_queue)
              (removed-IsValid id _ (enqueue-Kept id s' _ _ ex.all_greedy _ v.kept hp hq) v.ready
                (has-put_self id s' ex.prefill_queue))
        | inr (t, s', rng, false, h, r) ↦ rw h (moved-IsValid id s s' ex rng v hp hq (r refl))
      ]

  run_prompt-IsValid :
      (id : ℕ) (s : Sequence) (failure : PrefillFailure) (ex : ModelExecutor)
      → IsValid ex
      → has id ex.prefill_queue ≡ false
      → has id ex.decode_queue ≡ false
      → Fresh s
      → IsValid
          (run_prompt engine id s failure (record ex {
            prefill_queue = put id s ex.prefill_queue;
            open_contexts = ex.open_contexts + 1;
          })).0
  run_prompt-IsValid id s (in_step e) ex v hp hq f =
      removed-IsValid id _ (enqueue-Kept id s _ _ ex.all_greedy _ v.kept hp hq) v.ready
        (has-put_self id s ex.prefill_queue)
  run_prompt-IsValid id s (in_draft failure) ex v hp hq f =
      finish-IsValid failure id s _ _ ex v hp hq (forward-Filled s f)

  reseeded-IsValid : (ex : ModelExecutor) (rng : ℕ) → IsValid ex → IsValid (record ex { rng = rng })
  reseeded-IsValid ex rng v =
      let k = v.kept in
      record {
        kept = record {
          prefill_unique = k.prefill_unique;
          decode_unique = k.decode_unique;
          apart = k.apart;
          promised = k.promised;
          counted = k.counted;
        };
        exact = v.exact;
        ready = v.ready;
      }

  -- prefill of a request that is in no queue keeps the invariant, whether the model's step raises or
  -- not, and whatever the call itself raises.
  pub prefill-IsValid :
      (failure : PrefillFailure) (request : PrefillRequest) (ex : ModelExecutor)
      → IsValid ex
      → has request.request_id ex.prefill_queue ≡ false
      → has request.request_id ex.decode_queue ≡ false
      → IsValid (prefill engine failure request ex).0
  unfolding prefill
  prefill-IsValid failure request ex v hp hq =
      let rng =
        seeded_rng engine.manual_seed request.sampling_config.max_new_tokens
          request.params.sampling_seed ex.rng in
      let v' = reseeded-IsValid ex rng v in
      elim (Result-cases (init_sequence request)) [
        | inr (e, h) ↦ rw h v'
        | inl (s, h) ↦ rw h (
            run_prompt-IsValid request.request_id s failure (record ex { rng = rng }) v' hp hq
              (init_sequence-Fresh request s h))
      ]

  erase-AllReady :
      (id : ℕ) (queue : Dict Sequence) → AllReady engine queue → AllReady engine (erase id queue)
  erase-AllReady id [] h = h
  erase-AllReady id ((j, s) ∷ queue) (r, h) = elim (Bool-cases (id == j)) [
    | inl e ↦ rw e h
    | inr e ↦ rw e (r, erase-AllReady id queue h)
  ]

  remove_one-AllReady :
      (id : ℕ) (ex : ModelExecutor)
      → AllReady engine ex.decode_queue
      → AllReady engine (remove_one id ex).decode_queue
  remove_one-AllReady id ex h = elim (Bool-cases (has id ex.prefill_queue)) [
    | inl e ↦ rw (remove_one_prefill id ex e) h
    | inr e ↦ elim (Bool-cases (has id ex.decode_queue)) [
      | inl f ↦ rw (remove_one_decode id ex e f) (erase-AllReady id ex.decode_queue h)
      | inr f ↦ rw (remove_one_none id ex e f) h
    ]
  ]

  remove_each-AllReady :
      (ids : List ℕ) (ex : ModelExecutor)
      → AllReady engine ex.decode_queue
      → AllReady engine (remove_each ids ex).decode_queue
  remove_each-AllReady [] ex h = h
  remove_each-AllReady (id ∷ ids) ex h =
      remove_each-AllReady ids (remove_one id ex) (remove_one-AllReady id ex h)

  -- Removing any requests keeps the invariant.
  pub remove_sequences-IsValid :
      (ids : List ℕ) (ex : ModelExecutor) → IsValid ex → IsValid (remove_sequences ids ex)
  unfolding remove_sequences
  remove_sequences-IsValid ids ex v =
      let (kept, exact, d, _) = refresh_lem (remove_each ids ex) (remove_each-Kept ids ex v.kept) in
      record {
        kept = kept;
        exact = exact;
        ready = subst (AllReady engine) (sym d) (remove_each-AllReady ids ex v.ready);
      }
