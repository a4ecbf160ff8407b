-- ===== src/Server/Sequences.antt =====
-- Sequence of pace/server/engine/server.py, with the sampler that it owns.
use amd_pace.Common.{
  ℕ, ◌+◌, ltb, Bool, true, Option, none, some, List, [], ◌∷◌, ◌++◌, length, if◌then◌else◌, Result,
  ok, err, Action, ◌>>=◌, ◌>>◌, gets, modify, require,
}
use amd_pace.Kv.{Error, assertion, type_error}
use amd_pace.Decoding.Stopping.{StoppingCriteria, SamplingConfig, init, stop_now, any}
use amd_pace.Decoding.Speculative.{compute_positions}
use amd_pace.Decoding.Generator.{Entry, Setup, DraftState}
use amd_pace.Decoding.Sampler.{Logits, SamplingParams, Sampler, init_sampler}

pub data State : Type 0 where
  in_prefill : State
  in_decoding : State

-- What the engine runs: the models, whether there is a speculative decoder, the logits that hold a
-- NaN, and sampling beside the fast path: from the sampler, the tokens, the logits and the state of
-- torch's random numbers, the token and the new state. For the logits of several candidates at once the
-- filters and the draw may raise; otherwise there is a token for each index. manual_seed is torch's, the
-- state that it sets.
pub record Engine : Type 0 where
  pub models : Setup
  pub has_spec_decoder : Bool
  pub has_nan : Logits → Bool
  pub draw : Sampler → List ℕ → Logits → ℕ → ℕ × ℕ
  pub draw_candidates : Sampler → List ℕ → List Logits → ℕ → ℕ × Result Error (ℕ → ℕ)
  pub manual_seed : ℕ → ℕ

-- A PrefillRequest; of its gen_config what _prepare_sampling_config makes of it.
pub record PrefillRequest : Type 0 where
  pub request_id : ℕ
  pub prompt : List ℕ
  pub sampling_config : SamplingConfig
  pub params : SamplingParams

-- `tokens` are the first `_token_len` of `_token_buffer`, `capacity` is the width of the buffer;
-- `draft` is the draft model's cache with draft_num_computed_tokens.
pub record Sequence : Type 0 where
  pub state : State
  pub tokens : List ℕ
  pub capacity : ℕ
  pub sampler : Sampler
  pub kv_cache : List Entry
  pub stopping_criteria : StoppingCriteria
  pub num_computed_tokens : ℕ
  pub draft : Option DraftState

abbrev pub with_criteria :
    PrefillRequest → ℕ → Result Error StoppingCriteria → Result Error Sequence
with_criteria request capacity (err e) = err e
with_criteria request capacity (ok criteria) = ok (record {
  state = in_prefill;
  tokens = request.prompt;
  capacity = capacity;
  sampler = init_sampler request.sampling_config request.params (length request.prompt);
  kv_cache = [];
  stopping_criteria = criteria;
  num_computed_tokens = 0;
  draft = none;
})

abbrev pub with_limit : PrefillRequest → Option ℕ → Result Error Sequence
with_limit request none = err type_error
with_limit request (some max_new_tokens) =
    with_criteria request (max_new_tokens + length request.prompt)
      (init request.sampling_config (length request.prompt) true)

-- Sequence.__init__: without max_new_tokens the addition raises. The tokenizer is the engine's.
unfoldable pub init_sequence : PrefillRequest → Result Error Sequence
init_sequence request = with_limit request request.sampling_config.max_new_tokens

unfoldable pub append_token : ℕ → Action Sequence Error Unit
append_token token_id = gets (λ s. ltb (length s.tokens) s.capacity) >>= λ fits.
    require fits assertion >> modify (λ s. record s { tokens = s.tokens ++ token_id ∷ [] })

-- compute_positions
unfoldable pub positions_of : Sequence → ℕ → List ℕ
positions_of s num_tokens = compute_positions num_tokens s.num_computed_tokens

-- logits[:, -1, :]
abbrev pub last_logits : List Logits → Option Logits
last_logits [] = none
last_logits (l ∷ []) = some l
last_logits (l ∷ k ∷ ls) = last_logits (k ∷ ls)

module _ (engine : Engine) where
  open engine use {models, has_nan, draw}
  open models use {target_model, has_stop_string}

  -- Sampler.sample for the logits of one position; the state is that of the random numbers.
  unfoldable pub sample : Sampler → List ℕ → Logits → Action ℕ Error ℕ
  sample sampler tokens logits rng =
      if has_nan logits
      then (rng, err assertion)
      else if sampler.greedy_fast_path
      then (rng, ok (target_model logits))
      else (let (token, rng') = draw sampler tokens logits rng in (rng', ok token))

  -- stopping_criteria.stop_now(input_ids, num_new_tokens).item()
  unfoldable pub stops : ℕ → Action Sequence Error Bool
  stops num_new_tokens s =
      let (criteria, is_done) =
        stop_now has_stop_string (s.tokens ∷ []) num_new_tokens s.stopping_criteria in
      (record s { stopping_criteria = criteria }, ok (any is_done))
