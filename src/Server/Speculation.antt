-- ===== src/Server/Speculation.antt =====
-- _speculative_decode of pace/server/engine/server.py, with the three phases of its comments: the draft
-- model's pass for each sequence, the target's pass over the batch, and the check of each proposal.
-- `failure` is what draft_step, merge_contexts or the model's step raises.
use amd_pace.Decoding.Sampler.{Logits, nan_in}
use amd_pace.Common.{
  ℕ, ◌+◌, ◌-◌, min, Bool, true, false, Option, none, some, List, [], ◌∷◌, ◌++◌, length, take, drop,
  leb, Dict, put, if◌then◌else◌, Result, ok, err, Action, ◌>>=◌, ◌>>◌, pure, modify, tabulate,
}
use amd_pace.Kv.{Error, assertion, type_error}
use amd_pace.Decoding.Speculative.{
  prepare_draft_input, compute_positions, last_n, accept_proposal, VerificationOutput,
}
use amd_pace.Decoding.Generator.{DraftState, zip, argmaxes, clean_draft, trim_target, last_rows}
use amd_pace.Server.Sequences.{Engine, Sequence, stops}
use amd_pace.Server.Executor.{ModelExecutor, Results, remove_sequences}
use amd_pace.Server.Steps.{
  keys, batch_input_ids, forward_rows, count_computed, fail_batch, on_sequence, outcome_of,
  standard_decode,
}

-- input_ids[:, -n_missing:], where a negative n_missing cuts the front.
unfoldable pub draft_context : List ℕ → ℕ → List ℕ
draft_context tokens computed =
    if leb computed (length tokens)
    then last_n (length tokens - computed) tokens
    else drop (computed - length tokens) tokens

-- A call that does not change the sequence.
abbrev pub checked : {S A : Type 0} → Result Error A → Action S Error A
checked r s = (s, r)

abbrev pub with_draft :
    {A : Type 0}
    → Option DraftState
    → (DraftState → Action Sequence Error A)
    → Action Sequence Error A
with_draft none f s = (s, err type_error)
with_draft (some d) f s = f d s

abbrev pub set_draft : DraftState → Sequence → Sequence
set_draft d s = record s { draft = some d }

-- The accepted tokens that fit the buffer go behind the others.
unfoldable pub append_accepted : List ℕ → Action Sequence Error (List ℕ)
append_accepted accepted s =
    let n_acc = min (length accepted) (s.capacity - length s.tokens) in
    (record s { tokens = s.tokens ++ take n_acc accepted }, ok (take n_acc accepted))

abbrev pub with_last : Dict Sequence → List (List ℕ) → List (List ℕ)
with_last ((id, s) ∷ queue) (ts ∷ rows) = (last_n 1 s.tokens ++ ts) ∷ with_last queue rows
with_last _ _ = []

abbrev pub count_rows : Dict Sequence → List (List ℕ) → Dict Sequence
count_rows ((id, s) ∷ queue) (input ∷ inputs) =
    (id, count_computed (length input) s) ∷ count_rows queue inputs
count_rows queue _ = queue

abbrev pub propose_row :
    ℕ
    → Sequence × Result Error (List ℕ)
    → Dict Sequence
    → Dict Sequence × Result Error (List (List ℕ))
    → Dict Sequence × Result Error (List (List ℕ))
propose_row id (s, err e) queue rest = ((id, s) ∷ queue, err e)
propose_row id (s, ok ts) queue (queue', err e) = ((id, s) ∷ queue', err e)
propose_row id (s, ok ts) queue (queue', ok rows) = ((id, s) ∷ queue', ok (ts ∷ rows))

-- Phase 3 for a request: a stop removes it at once.
abbrev pub settle :
    ℕ → (Sequence × ℕ) × Result Error (List ℕ × Bool) → Action (ModelExecutor × Results) Error Unit
settle id ((s, rng), err e) (ex, results) =
    ((record ex { decode_queue = put id s ex.decode_queue; rng = rng }, results), err e)
settle id ((s, rng), ok (accepted, done)) (ex, results) =
    let ex' = record ex { decode_queue = put id s ex.decode_queue; rng = rng } in
    (
      (
        if done then remove_sequences (id ∷ []) ex' else ex',
        put id (outcome_of done accepted s) results,
      ),
      ok tt,
    )

abbrev pub finish_speculation :
    List ℕ → (ModelExecutor × Results) × Result Error Unit → ModelExecutor × Results
finish_speculation ids ((ex, results), err e) = fail_batch ids e results ex
finish_speculation ids ((ex, results), ok _) = (ex, results)

module _ (engine : Engine) where
  open engine use {models, has_spec_decoder, has_nan, draw_candidates}
  open models use {target_model, draft_model, pard_token, draft_size}

  -- The draft model's pass: its state, and the tokens that it proposes.
  unfoldable pub draft_step : List ℕ → DraftState → DraftState × List ℕ
  draft_step context d =
      let pard_input = prepare_draft_input pard_token draft_size context in
      let entries = zip pard_input (compute_positions (length pard_input) d.num_computed) in
      (
        record d {
          draft_cache = d.draft_cache ++ entries;
          num_computed = d.num_computed + length pard_input;
        },
        last_n draft_size (argmaxes draft_model d.draft_cache entries),
      )

  -- Phase 1 for a sequence.
  unfoldable pub propose : Action Sequence Error (List ℕ)
  propose s =
      with_draft s.draft
        (λ d s'.
          let (d', spec_toks) = draft_step (draft_context s.tokens d.num_computed) d in
          (set_draft d' s', ok spec_toks))
        s

  -- Phase 1.
  abbrev pub propose_rows : Dict Sequence → Dict Sequence × Result Error (List (List ℕ))
  propose_rows [] = ([], ok [])
  propose_rows ((id, s) ∷ queue) = propose_row id (propose s) queue (propose_rows queue)

  abbrev pub argmax_all : List Logits → List ℕ
  argmax_all [] = []
  argmax_all (l ∷ rows) = target_model l ∷ argmax_all rows

  abbrev pub with_drawn :
      ℕ → Sequence → ℕ × Result Error (ℕ → ℕ) → (Sequence × ℕ) × Result Error (List ℕ)
  with_drawn n s (rng, err e) = ((s, rng), err e)
  with_drawn n s (rng, ok tokens) = ((s, rng), ok (tabulate tokens 0 n))

  -- Sampler.sample for the logits of several positions; a NaN is found before it is called.
  unfoldable pub sample_all : List Logits → Action (Sequence × ℕ) Error (List ℕ)
  sample_all rows (s, rng) =
      if nan_in has_nan rows
      then ((s, rng), err assertion)
      else if s.sampler.greedy_fast_path
      then ((s, rng), ok (argmax_all rows))
      else with_drawn (length rows) s (draw_candidates s.sampler s.tokens rows rng)

  -- What `verify` takes back from the draft model.
  unfoldable pub clean_own : VerificationOutput → Action Sequence Error Unit
  clean_own out s =
      with_draft s.draft (λ d. checked (clean_draft models out d) >>= λ d'. modify (set_draft d')) s

  -- Trim target KV cache
  unfoldable pub trim_own : ℕ → Action Sequence Error Unit
  trim_own trim s =
      (checked (trim_target models trim s.kv_cache s.num_computed_tokens) >>= λ left.
      modify (λ s'. record s' { kv_cache = left.0; num_computed_tokens = left.1 }))
        s

  -- Phase 3 for a sequence behind sampling.
  unfoldable pub accept : List ℕ → List ℕ → Action Sequence Error (List ℕ × Bool)
  accept extended next_tokens = checked (accept_proposal draft_size next_tokens extended) >>= λ out.
      clean_own out
      >> trim_own out.target_kv_cache_trim
      >> append_accepted out.accepted_tokens
      >>= λ accepted. stops engine (length accepted) >>= λ done. pure (accepted, done)

  unfoldable pub verify_row : List ℕ → List Logits → Action (Sequence × ℕ) Error (List ℕ × Bool)
  verify_row extended logits = sample_all (last_rows (draft_size + 1) logits) >>= λ next_tokens.
      on_sequence (accept extended next_tokens)

  -- Phase 3.
  abbrev pub verify_rows :
      List (List ℕ)
      → List (List Logits)
      → Dict Sequence
      → Action (ModelExecutor × Results) Error Unit
  verify_rows (extended ∷ more) (logits ∷ rows) ((id, s) ∷ queue) =
      (λ st. settle id (verify_row extended logits (s, st.0.rng)) st) >> verify_rows more rows queue
  verify_rows _ _ _ = pure tt

  abbrev pub with_proposals :
      List ℕ
      → Dict Sequence × Result Error (List (List ℕ))
      → Option Error
      → ModelExecutor
      → ModelExecutor × Results
  with_proposals ids (queue, err e) failure ex =
      fail_batch ids e [] (record ex { decode_queue = queue })
  with_proposals ids (queue, ok rows) (some e) ex =
      fail_batch ids e [] (record ex { decode_queue = queue })
  with_proposals ids (queue, ok rows) none ex =
      let extended = with_last queue rows in
      let (queue', logits) = forward_rows (batch_input_ids extended 0) extended queue in
      let counted = count_rows queue' extended in
      finish_speculation ids
        (verify_rows extended logits counted (record ex { decode_queue = counted }, []))

  -- _speculative_decode
  unfoldable pub speculative_decode : Option Error → ModelExecutor → ModelExecutor × Results
  speculative_decode failure ex =
      with_proposals (keys ex.decode_queue) (propose_rows ex.decode_queue) failure ex

  abbrev pub decode_queued :
      Bool → Dict Sequence → Option Error → ModelExecutor → ModelExecutor × Results
  decode_queued spec [] failure ex = (ex, [])
  decode_queued true (row ∷ queue) failure ex = speculative_decode failure ex
  decode_queued false (row ∷ queue) failure ex = standard_decode engine failure ex

  -- decode
  unfoldable pub decode : Option Error → ModelExecutor → ModelExecutor × Results
  decode failure ex = decode_queued has_spec_decoder ex.decode_queue failure ex
