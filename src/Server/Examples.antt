-- ===== src/Server/Examples.antt =====
-- A server with two requests, and the theorems about it at these.
use amd_pace.Decoding.Sampler.{
  init_sampler, SamplingParams, greedy_search, random_sampling, SamplingMode,
}
use amd_pace.Decoding.Generator.{logits_behind}
use amd_pace.Common.{
  ℕ, ◌+◌, ◌≡◌, refl, min, Bool, true, false, Option, none, some, List, [], ◌∷◌, Dict, arith, length,
  if◌then◌else◌, ok,
}
use amd_pace.Kv.{no_free_blocks}
use amd_pace.Decoding.Stopping.{
  stop, stop_if_max_len, stop_if_eos_token, init, stop_now, check_for_conditions, condition,
  check_conditions, check_strings, SamplingConfig,
}
use amd_pace.Decoding.Speculative.{compute_positions}
use amd_pace.Decoding.Generator.{Entry, Setup, DraftState}
use amd_pace.Server.Sequences.{
  sample, append_token, stops, positions_of, init_sequence, Engine, Sequence, PrefillRequest,
  in_decoding,
}
use amd_pace.Server.Executor.{ModelExecutor, init_executor, move_to_decode_queue}
use amd_pace.Server.Steps.{
  keys, prefill, standard_decode, forward, sample_first, sample_last, draft_prefilled, in_draft,
}
use amd_pace.Server.Valid.{IsValid}
use amd_pace.Server.Failure.{Failed}
use amd_pace.Server.Decode.{Serves, standard_decode-Serves}
use amd_pace.Server.Speculation.{decode}
use amd_pace.Server.Speculate.{Fits, decode-Failed}
use amd_pace.Server.Runs.{
  reachable-IsValid, decode_calls, decode_calls-drain, prefilled, decoded, started, called,
}

-- The target counts its entries, the draft model does so up to 4.
abbrev models : Setup
models = record {
  target_model = λ es. length es;
  draft_model = λ es. min (length es) 4;
  pard_token = 99;
  draft_size = 2;
  has_stop_string = λ ss row. false;
}

abbrev engine : Bool → Engine
engine spec = record {
  models = models;
  has_spec_decoder = spec;
  has_nan = λ l. false;
  draw = λ sampler tokens l rng. (rng + length tokens, rng + 1);
  draw_candidates = λ sampler tokens rows rng. (rng + 1, ok (λ i. rng + i));
  manual_seed = λ seed. seed;
}

abbrev params : SamplingMode → SamplingParams
params mode = record {
  sampling_mode = mode;
  sampling_seed = some 17;
  repetition_penalty = 1;
  has_repetition_penalty = false;
  frequency_penalty = 0;
  has_frequency_penalty = false;
  temperature = 1;
  top_k = 0;
  top_p = 1;
  min_p = 0;
  return_probs = false;
  return_logprobs = false;
}

abbrev any_length : SamplingConfig
any_length = record {
  max_new_tokens = some 4;
  min_new_tokens = some 0;
  ignore_eos = true;
  eos_token_id = none;
  stop_strings = none;
}

abbrev sequence : Bool → List ℕ → ℕ → List Entry → Option DraftState → Sequence
sequence fast tokens computed cached draft = record {
  state = in_decoding;
  tokens = tokens;
  capacity = 5;
  sampler = record {
    config = any_length;
    initial_input_length = 1;
    params = params (if fast then greedy_search else random_sampling);
    greedy_fast_path = fast;
  };
  kv_cache = cached;
  stopping_criteria = record {
    min_length = 2;
    max_length = some 5;
    stop_reason = stop;
    stop_conditions = stop_if_max_len 5 ∷ stop_if_eos_token (11 ∷ []) ∷ [];
    hf_stop_conditions = [];
  };
  num_computed_tokens = computed;
  draft = draft;
}

abbrev greedy_one : Sequence
greedy_one = sequence true (7 ∷ 8 ∷ 2 ∷ []) 2 ((7, 0) ∷ (8, 1) ∷ []) none

abbrev random_one : Sequence
random_one = sequence false (9 ∷ 1 ∷ []) 1 ((9, 0) ∷ []) none

abbrev executor : Dict Sequence → Bool → ModelExecutor
executor queue flag = record {
  prefill_queue = [];
  decode_queue = queue;
  all_greedy = flag;
  open_contexts = length queue;
  rng = 40;
}

abbrev mixed : ModelExecutor
mixed = executor ((1, greedy_one) ∷ (2, random_one) ∷ []) false

mixed-IsValid : IsValid (engine false) mixed
mixed-IsValid = record {
  kept = record {
    prefill_unique = tt;
    decode_unique = (refl, (refl, tt));
    apart = λ id h. absurd (ground (arith, h));
    promised = λ h. absurd (ground (arith, h));
    counted = refl;
  };
  exact = refl;
  ready = (
    record {
      done = 7 ∷ 8 ∷ [];
      last = 2;
      tokens = refl;
      cached = refl;
      counted = refl;
      limited = (refl, _, refl);
      room = omega arith;
      draft_ready = λ h. absurd (ground (arith, h));
    },
    (
      record {
        done = 9 ∷ [];
        last = 1;
        tokens = refl;
        cached = refl;
        counted = refl;
        limited = (refl, _, refl);
        room = omega arith;
        draft_ready = λ h. absurd (ground (arith, h));
      },
      tt,
    ),
  );
}

no_decoder : Fits (engine false)
no_decoder h = absurd (ground (arith, h))

standard_decode-Serves_example :
    Serves (engine false) mixed (standard_decode (engine false) none mixed)
standard_decode-Serves_example =
    standard_decode-Serves (engine false) mixed mixed-IsValid (refl, (refl, tt))

decode-Failed_example :
    Failed (1 ∷ 2 ∷ []) mixed no_free_blocks (decode (engine false) (some no_free_blocks) mixed)
decode-Failed_example = decode-Failed (engine false) no_free_blocks mixed no_decoder mixed-IsValid

decode_calls-drain_example :
    (decode_calls (engine false) (none ∷ none ∷ none ∷ []) mixed).decode_queue ≡ []
decode_calls-drain_example =
    decode_calls-drain (engine false) (none ∷ none ∷ none ∷ []) mixed no_decoder mixed-IsValid
      (omega arith, (omega arith, tt))

-- The first request has a proposal pending of which the draft model knows all but the last token.
abbrev speculating : ModelExecutor
speculating =
    executor
      ((
        1,
        sequence true (7 ∷ 8 ∷ 2 ∷ []) 2 ((7, 0) ∷ (8, 1) ∷ []) (
            some (record {
              draft_cache = (7, 0) ∷ (8, 1) ∷ [];
              num_computed = 2;
              total_accepted = [];
            })),
      )
        ∷ [])
      true

abbrev request : PrefillRequest
request = record {
  request_id = 3;
  prompt = 7 ∷ 8 ∷ [];
  sampling_config = any_length;
  params = params greedy_search;
}

abbrev after_prefill : ModelExecutor
after_prefill = (prefill (engine true) (in_draft none) request (init_executor 0)).0

reachable-IsValid_example : IsValid (engine true) (decode (engine true) none after_prefill).0
reachable-IsValid_example =
    reachable-IsValid (engine true) _ (λ h. (omega arith, omega arith))
      (called (called (started 0) (prefilled (in_draft none) request refl refl)) (decoded none))

-- The prefill of the request samples 2, the number of the prompt's tokens, and queues it.
prefilled_test : keys after_prefill.decode_queue ≡ 3 ∷ []
unfolding prefill init_sequence init forward positions_of compute_positions logits_behind
    sample_first sample_last sample append_token stops stop_now check_for_conditions
    check_conditions check_strings condition move_to_decode_queue init_sampler draft_prefilled
prefilled_test = refl
