-- ===== src/Server/Steps.antt =====
-- prefill, decode and _standard_decode of pace/server/engine/server.py. Whether a context cannot grow
-- or the model's step raises is up to each call, which gets the exception as an argument.
use amd_pace.Decoding.Sampler.{Logits, is_greedy}
use amd_pace.Decoding.Generator.{logits_behind}
use amd_pace.Common.{
  ℕ, ◌+◌, ◌-◌, max, Bool, true, false, Option, none, some, List, [], ◌∷◌, ◌++◌, map, replicate,
  length, Dict, has, put, if◌then◌else◌, Result, ok, err, Action, ◌>>=◌, ◌>>◌, pure, gets, modify,
  require, or_raise, ◌||◌, not,
}
use amd_pace.Kv.{Error, assertion, bad_tensor}
use amd_pace.Decoding.Speculative.{last_n, compute_positions}
use amd_pace.Decoding.Generator.{zip, DraftState}
use amd_pace.Server.Sequences.{
  Engine, Sequence, PrefillRequest, last_logits, positions_of, sample, append_token, stops,
}
use amd_pace.Server.Executor.{
  ModelExecutor, Outcome, Results, error, completed, prefill_completed, decoding_in_progress, start,
  remove_sequences, move_to_decode_queue,
}

-- The queue's keys, list(self.decode_queue.keys()).
abbrev pub keys : {A : Type 0} → Dict A → List ℕ
keys [] = []
keys ((id, s) ∷ queue) = id ∷ keys queue

abbrev pub max_len : List (List ℕ) → ℕ
max_len [] = 0
max_len (ids ∷ rows) = max (length ids) (max_len rows)

abbrev pub left_padded : ℕ → ℕ → List ℕ → List ℕ
left_padded pad_token n ids = replicate (n - length ids) pad_token ++ ids

-- batch_input_ids
unfoldable pub batch_input_ids : List (List ℕ) → ℕ → List (List ℕ)
batch_input_ids rows pad_token = map (left_padded pad_token (max_len rows)) rows

-- The share of a sequence in a pass of the model: its cache grows by its row of the batch, at the
-- positions of the tokens `input` that are its own.
unfoldable pub forward : List ℕ → List ℕ → Sequence → Sequence × List Logits
forward row input s =
    let entries = zip row (positions_of s (length input)) in
    (record s { kv_cache = s.kv_cache ++ entries }, logits_behind s.kv_cache entries)

-- A pass over the queue.
abbrev pub forward_rows :
    List (List ℕ) → List (List ℕ) → Dict Sequence → Dict Sequence × List (List Logits)
forward_rows (row ∷ rows) (input ∷ inputs) ((id, s) ∷ queue) =
    let (s', logits) = forward row input s in
    let (queue', rest) = forward_rows rows inputs queue in ((id, s') ∷ queue', logits ∷ rest)
forward_rows _ _ _ = ([], [])

abbrev pub count_computed : ℕ → Sequence → Sequence
count_computed n s = record s { num_computed_tokens = s.num_computed_tokens + n }

-- A failed batch: each of its requests gets the error and leaves its queue.
abbrev pub fail_batch : List ℕ → Error → Results → ModelExecutor → ModelExecutor × Results
fail_batch [] e results ex = (ex, results)
fail_batch (id ∷ ids) e results ex =
    fail_batch ids e (put id (error e) results)
      (if has id ex.decode_queue then remove_sequences (id ∷ []) ex else ex)

-- A method of the sequence, and the sampler with the random numbers.
abbrev pub on_sequence : {A : Type 0} → Action Sequence Error A → Action (Sequence × ℕ) Error A
on_sequence act (s, rng) = let (s', r) = act s in ((s', rng), r)

-- draft_prefill and the counter behind it, for a sequence that has computed nothing before.
unfoldable pub draft_prefilled : Sequence → Sequence
draft_prefilled s = record s {
  draft = some (record {
    draft_cache = zip s.tokens (compute_positions (length s.tokens) 0);
    num_computed = length s.tokens;
    total_accepted = [];
  });
}

abbrev pub outcome_of_first : Bool → ℕ → Sequence → Outcome
outcome_of_first true token s = completed (token ∷ []) s.stopping_criteria.stop_reason
outcome_of_first false token s = prefill_completed (token ∷ [])

abbrev pub outcome_of : Bool → List ℕ → Sequence → Outcome
outcome_of true tokens s = completed tokens s.stopping_criteria.stop_reason
outcome_of false tokens s = decoding_in_progress tokens

abbrev pub add_completed : Bool → ℕ → Result Error (List ℕ) → Result Error (List ℕ)
add_completed done id (err e) = err e
add_completed true id (ok ids) = ok (id ∷ ids)
add_completed false id (ok ids) = ok ids

abbrev pub finish_batch :
    List ℕ
    → Dict Sequence × Results × Result Error (List ℕ)
    → ModelExecutor
    → ModelExecutor × Results
finish_batch ids (queue, results, err e) ex =
    fail_batch ids e results (record ex { decode_queue = queue })
finish_batch ids (queue, results, ok []) ex = (record ex { decode_queue = queue }, results)
finish_batch ids (queue, results, ok (id ∷ more)) ex =
    (remove_sequences (id ∷ more) (record ex { decode_queue = queue }), results)

-- What is raised in a call of prefill: by the model's step, or behind it in the draft model's part, with
-- the draft's state that is left, or nothing.
pub data PrefillFailure : Type 0 where
  in_step : Error → PrefillFailure
  in_draft : Option (Error × Option DraftState) → PrefillFailure

module _ (engine : Engine) where
  open engine use {models, has_spec_decoder, has_nan}
  open models use {target_model}

  abbrev pub on_rng : Logits → Action (Sequence × ℕ) Error ℕ
  on_rng logits (s, rng) =
      let (rng', r) = sample engine s.sampler s.tokens logits rng in ((s, rng'), r)

  -- What create_draft_kv_cache, build_prefill_metadata and draft_prefill leave: the draft filled, or what
  -- is there when one of them raises.
  abbrev pub fill_draft : Option (Error × Option DraftState) → Action (Sequence × ℕ) Error Unit
  fill_draft none (s, rng) = ((draft_prefilled s, rng), ok tt)
  fill_draft (some (e, left)) (s, rng) = ((record s { draft = left }, rng), err e)

  -- The draft model's part of prefill, if there is one.
  abbrev pub prefill_draft :
      Bool → Option (Error × Option DraftState) → Action (Sequence × ℕ) Error Unit
  prefill_draft false failure = pure tt
  prefill_draft true failure =
      gets (λ st. is_greedy st.0.sampler.params.sampling_mode) >>= λ greedy.
      require greedy assertion >> fill_draft failure

  -- The sampled token, and whether it is the last.
  unfoldable pub sample_last : Option Logits → Action (Sequence × ℕ) Error (ℕ × Bool)
  sample_last logits = or_raise logits bad_tensor >>= on_rng >>= λ token.
      on_sequence (append_token token) >> on_sequence (stops engine 1) >>= λ done.
      pure (token, done)

  -- What prefill does to its sequence behind the model's step, which left the logits.
  unfoldable pub sample_first :
      Option (Error × Option DraftState) → Option Logits → Action (Sequence × ℕ) Error (ℕ × Bool)
  sample_first failure logits = prefill_draft has_spec_decoder failure >> sample_last logits

  -- The sequence is the queue's, so that the queue keeps what a raise left of it.
  abbrev pub finish_prefill :
      ℕ → (Sequence × ℕ) × Result Error (ℕ × Bool) → Action ModelExecutor Error Results
  finish_prefill id ((s, rng), err e) ex =
      (record ex { prefill_queue = put id s ex.prefill_queue; rng = rng }, err e)
  finish_prefill id ((s, rng), ok (token, done)) ex =
      let ex' = record ex { prefill_queue = put id s ex.prefill_queue; rng = rng } in
      (
        if done then remove_sequences (id ∷ []) ex' else move_to_decode_queue id s ex',
        ok ((id, outcome_of_first done token s) ∷ []),
      )

  -- The prompt in a pass of the model, unless it raised.
  abbrev pub run_prompt : ℕ → Sequence → PrefillFailure → Action ModelExecutor Error Results
  run_prompt id s (in_step e) ex = (remove_sequences (id ∷ []) ex, ok ((id, error e) ∷ []))
  run_prompt id s (in_draft draft_failure) ex =
      let (s', logits) = forward s.tokens s.tokens s in
      finish_prefill id
        (sample_first draft_failure (last_logits logits)
          (count_computed (length s.tokens) s', ex.rng))
        ex

  unfoldable pub prefill : PrefillFailure → PrefillRequest → Action ModelExecutor Error Results
  prefill failure request =
      start engine.manual_seed request >>= λ s. run_prompt request.request_id s failure

  abbrev pub any_nan : List (Option Logits) → Bool
  any_nan [] = false
  any_nan (none ∷ rows) = any_nan rows
  any_nan (some l ∷ rows) = has_nan l || any_nan rows

  abbrev pub argmax_rows : List (Option Logits) → List ℕ
  argmax_rows [] = []
  argmax_rows (none ∷ rows) = argmax_rows rows
  argmax_rows (some l ∷ rows) = target_model l ∷ argmax_rows rows

  -- Sampling of a batch with each sequence's own sampler.
  abbrev pub sample_rows : Dict Sequence → List (Option Logits) → Action ℕ Error (List ℕ)
  sample_rows ((id, s) ∷ queue) (some l ∷ rows) = sample engine s.sampler s.tokens l >>= λ token.
      sample_rows queue rows >>= λ rest. pure (token ∷ rest)
  sample_rows _ _ = pure []

  abbrev pub next_tokens_batch :
      Bool → Dict Sequence → List (Option Logits) → Action ℕ Error (List ℕ)
  next_tokens_batch true queue rows =
      require (not (any_nan rows)) assertion >> pure (argmax_rows rows)
  next_tokens_batch false queue rows = sample_rows queue rows

  -- The loop behind sampling, for one sequence.
  unfoldable pub advance : ℕ → Action Sequence Error Bool
  advance token = append_token token >> modify (count_computed 1) >> stops engine 1

  -- That loop: the queue's sequences, result_buffer, and completed_ids.
  abbrev pub commit_row :
      ℕ
      → Sequence × Result Error Bool
      → ℕ
      → (Dict Sequence → Results → Dict Sequence × Results × Result Error (List ℕ))
      → Dict Sequence
      → Results
      → Dict Sequence × Results × Result Error (List ℕ)
  commit_row id (s, err e) token rest queue results = ((id, s) ∷ queue, results, err e)
  commit_row id (s, ok done) token rest queue results =
      let (queue', results', r) = rest queue (put id (outcome_of done (token ∷ []) s) results) in
      ((id, s) ∷ queue', results', add_completed done id r)

  abbrev pub commit :
      List ℕ → Dict Sequence → Results → Dict Sequence × Results × Result Error (List ℕ)
  commit (token ∷ tokens) ((id, s) ∷ queue) results =
      commit_row id (advance token s) token (commit tokens) queue results
  commit _ queue results = (queue, results, ok [])

  abbrev pub with_tokens : ℕ × Result Error (List ℕ) → ModelExecutor → ModelExecutor × Results
  with_tokens (rng, err e) ex = fail_batch (keys ex.decode_queue) e [] (record ex { rng = rng })
  with_tokens (rng, ok tokens) ex =
      finish_batch (keys ex.decode_queue) (commit tokens ex.decode_queue [])
        (record ex { rng = rng })

  -- _standard_decode
  abbrev pub run_batch : Option Error → ModelExecutor → ModelExecutor × Results
  run_batch (some e) ex = fail_batch (keys ex.decode_queue) e [] ex
  run_batch none ex =
      let queue = ex.decode_queue in
      let inputs = map (λ row. last_n 1 row.1.tokens) queue in
      let (queue', logits) = forward_rows (batch_input_ids inputs 0) inputs queue in
      let rows = map last_logits logits in
      with_tokens (next_tokens_batch ex.all_greedy queue' rows ex.rng)
        (record ex { decode_queue = queue' })

  unfoldable pub standard_decode : Option Error → ModelExecutor → ModelExecutor × Results
  standard_decode failure ex = run_batch failure ex
