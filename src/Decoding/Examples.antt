-- ===== src/Decoding/Examples.antt =====
-- A small target and draft model, and the theorems about decoding at these.
use amd_pace.Decoding.Stopping.Reported.{stop_now-reason}
use amd_pace.Common.{
  ℕ, ◌≡◌, ◌≤◌, ◌+◌, ◌-◌, ◌↔◌, refl, List, [], ◌∷◌, length, map, ok, none, some, arith, true, false,
  min, Bool, String, if◌then◌else◌, ◌&&◌, not,
}
use amd_pace.Decoding.Stopping.{
  SamplingConfig, StoppingCriteria, stop, stop_if_max_len, stop_if_eos_token, init, stop_now, is_in,
  any, length_reached,
}
use amd_pace.Decoding.Stopping.Laws.{
  wants_stop, reached, stop_now-wants_stop, stop_now-short, stop_now-Limit, strings_seen,
}
use amd_pace.Decoding.Speculative.{
  VerificationOutput, prepare_draft_input, length-prepare_draft_input,
}
use amd_pace.Decoding.Speculative.Greedy.{sampled_from, Accepts}
use amd_pace.Decoding.Generator.Drafts.{verify-Accepts}
use amd_pace.Decoding.Sampler.{SamplingParams, greedy_search, init_sampler}
use amd_pace.Decoding.Generator.{
  Setup, Numerics, DraftState, GenState, decode_step, generate, verify,
}
use amd_pace.Decoding.Generator.Rounds.{InSync, Extends, decode_step-Extends}
use amd_pace.Decoding.Generator.Loop.{Running, generate-Greedy}

-- The target counts the tokens, and the draft model does so up to 4.
abbrev setup : Setup
setup = record {
  target_model = λ es. length es;
  draft_model = λ es. min (length es) 4;
  pard_token = 99;
  draft_size = 2;
  has_stop_string = λ ss row. false;
}

abbrev config : SamplingConfig
config = record {
  max_new_tokens = some 4;
  min_new_tokens = some 2;
  ignore_eos = false;
  eos_token_id = some (11 ∷ []);
  stop_strings = none;
}

-- Logits without NaN; beside the fast path the sampler makes a fixed token.
abbrev numerics : Numerics
numerics = record { has_nan = λ l. false; sample_filtered = λ sampler tokens rows. ok (λ i. 5) }

-- Greedy search without anything else; the bits of the numbers are not read.
abbrev plain : SamplingParams
plain = record {
  sampling_mode = greedy_search;
  sampling_seed = none;
  repetition_penalty = 1;
  has_repetition_penalty = false;
  frequency_penalty = 0;
  has_frequency_penalty = false;
  temperature = 1;
  top_k = 0;
  top_p = 1;
  min_p = 0;
  return_probs = false;
  return_logprobs = false;
}

abbrev any_length : SamplingConfig
any_length = record config { min_new_tokens = some 0 }

generate-Greedy_example :
    (g : GenState) × (generate setup numerics plain 3 any_length (7 ∷ 8 ∷ []) ≡ some (ok g))
    × (g.unfinished ≡ false)
    × Running setup (7 ∷ 8 ∷ []) (4 + 2) g
unfolding init_sampler
generate-Greedy_example =
    generate-Greedy setup numerics plain any_length (7 ∷ 8 ∷ []) 4 3 refl (λ l. refl) (omega arith)
      (omega arith) (omega arith) refl (omega arith) (omega arith)

abbrev next : List ℕ → ℕ
next ts = length ts

-- The draft model's state behind its pass over 8 and the padding.
abbrev padded : DraftState
padded = record {
  draft_cache = (7, 0) ∷ (8, 1) ∷ (99, 2) ∷ [];
  num_computed = 3;
  total_accepted = [];
}

verify-Accepts_example :
    (out : VerificationOutput) × (d : DraftState) × (verify setup
        (sampled_from next (7 ∷ 8 ∷ []) (2 ∷ 9 ∷ []))
        (8 ∷ 2 ∷ 9 ∷ [])
        padded
      ≡ ok (out, d))
    × Accepts next 2 (2 ∷ 9 ∷ []) (7 ∷ 8 ∷ []) out
    × (d.draft_cache ≡ (7, 0) ∷ (8, 1) ∷ [])
    × (d.num_computed + (2 - 1) ≡ 3)
    × (d.total_accepted ≡ length out.accepted_tokens ∷ [])
verify-Accepts_example =
    verify-Accepts setup next (8 ∷ []) (2 ∷ 9 ∷ []) (7 ∷ 8 ∷ []) padded (omega arith) refl
      (omega arith) (omega arith)

abbrev criteria : StoppingCriteria
criteria = record {
  min_length = 4;
  max_length = some 6;
  stop_reason = stop;
  stop_conditions = stop_if_max_len 6 ∷ stop_if_eos_token (11 ∷ []) ∷ [];
  hf_stop_conditions = [];
}

-- Behind the first pass over 7, 8.
abbrev after_prefill : GenState
after_prefill = record {
  all_tokens = 7 ∷ 8 ∷ 2 ∷ 3 ∷ [];
  model_input = 2 ∷ 3 ∷ [];
  kv_cache = (7, 0) ∷ (8, 1) ∷ (2, 2) ∷ [];
  num_computed_tokens = 3;
  draft = record { draft_cache = (7, 0) ∷ (8, 1) ∷ []; num_computed = 2; total_accepted = 2 ∷ [] };
  stopping_criteria = record criteria { min_length = 2 };
  unfinished = true;
}

after_prefill-InSync : InSync setup after_prefill
after_prefill-InSync = record {
  done = 7 ∷ 8 ∷ 2 ∷ [];
  last = 3;
  tokens = refl;
  cached = refl;
  counted = refl;
  seen = 7 ∷ 8 ∷ [];
  before = 2 ∷ [];
  input = refl;
  split = refl;
  drafted = record { draft_cached = refl; draft_counted = refl };
}

decode_step-Extends_example :
    (g : GenState) × (decode_step setup numerics (init_sampler any_length plain 2) after_prefill
      ≡ ok g)
    × Extends setup (7 ∷ 8 ∷ 2 ∷ 3 ∷ []) g (record criteria { min_length = 2 })
unfolding init_sampler
decode_step-Extends_example =
    decode_step-Extends setup numerics (init_sampler any_length plain 2) refl (λ l. refl)
      after_prefill (omega arith) (omega arith) after_prefill-InSync

length-prepare_draft_input_example :
    (length (prepare_draft_input 99 34 (5 ∷ [])) ≡ length {A = ℕ} (5 ∷ []) + (34 - 1)) ↔ (34 ≤ 33)
length-prepare_draft_input_example = length-prepare_draft_input 99 34 (5 ∷ []) (omega arith)

abbrev ends_in_3 : List String → List ℕ → Bool
ends_in_3 ss row = is_in 3 row

made : init config 2 true ≡ ok criteria
unfolding init
made = refl

abbrev long : List (List ℕ)
long = (7 ∷ 8 ∷ 2 ∷ 11 ∷ []) ∷ (7 ∷ 8 ∷ 2 ∷ 3 ∷ []) ∷ []

stop_now-wants_stop_example :
    (stop_now ends_in_3 long 1 criteria).1 ≡ map (wants_stop ends_in_3 config 2 1 4) long
stop_now-wants_stop_example =
    stop_now-wants_stop ends_in_3 config 2 true criteria long 1 made (omega arith)

abbrev short : List (List ℕ)
short = (7 ∷ 8 ∷ 11 ∷ []) ∷ []

too_short_test : (stop_now ends_in_3 short 1 criteria).1 ≡ map (λ row. reached (some 4) 2 3) short
too_short_test = stop_now-short ends_in_3 config 2 true criteria short 1 made (omega arith)

abbrev full : List (List ℕ)
full = (7 ∷ 8 ∷ 2 ∷ 3 ∷ 4 ∷ 5 ∷ []) ∷ []

longest_test : (stop_now ends_in_3 full 1 criteria).1 ≡ map (λ row. true) full
longest_test =
    stop_now-Limit ends_in_3 6 1 full criteria (refl, stop_if_eos_token (11 ∷ []) ∷ [], refl)
      (omega arith)

-- The last token is an end token too.
abbrev ended : List ℕ
ended = 7 ∷ 8 ∷ 2 ∷ 4 ∷ 9 ∷ 11 ∷ []

ended_done : any (stop_now ends_in_3 (ended ∷ []) 1 criteria).1 ≡ true
ended_done =
    rw
      (stop_now-Limit ends_in_3 6 1 (ended ∷ []) criteria
        (refl, stop_if_eos_token (11 ∷ []) ∷ [], refl) (omega arith))
      refl

stop_now-reason_example : (stop_now ends_in_3 (ended ∷ []) 1 criteria).0.stop_reason ≡ (
    if reached (some 4) 2 6 && not (any (map (strings_seen ends_in_3 none) (ended ∷ [])))
    then length_reached
    else stop)
stop_now-reason_example =
    stop_now-reason ends_in_3 config 2 true criteria ended [] 1 made (omega arith) ended_done
