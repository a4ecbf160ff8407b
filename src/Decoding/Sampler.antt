-- ===== src/Decoding/Sampler.antt =====
-- Sampler of pace/llm/sampler.py: what it is built from, and its fast path. What the model computes for a
-- position is named by the entries that the position attends to; logits are such entries. The
-- filters beside the fast path work on floating-point numbers and are parameters of those who sample.
use amd_pace.Common.{ℕ, ◌==◌, Bool, true, false, not, ◌&&◌, ◌||◌, Option, none, some, List, [], ◌∷◌}
use amd_pace.Decoding.Stopping.{SamplingConfig}

-- The tokens attended to, with their positions.
abbrev pub Logits : Type 0
Logits = List (ℕ × ℕ)

pub data SamplingMode : Type 0 where
  greedy_search : SamplingMode
  random_sampling : SamplingMode

abbrev pub is_greedy : SamplingMode → Bool
is_greedy greedy_search = true
is_greedy random_sampling = false

-- What a Sampler reads of its SamplingConfig beside the stopping parameters. A floating-point number is
-- given by its bits, the penalties with their tests against 1.0 and 0.0 too.
pub record SamplingParams : Type 0 where
  pub sampling_mode : SamplingMode
  pub sampling_seed : Option ℕ
  pub repetition_penalty : ℕ
  pub has_repetition_penalty : Bool
  pub frequency_penalty : ℕ
  pub has_frequency_penalty : Bool
  pub temperature : ℕ
  pub top_k : ℕ
  pub top_p : ℕ
  pub min_p : ℕ
  pub return_probs : Bool
  pub return_logprobs : Bool

pub record Sampler : Type 0 where
  pub config : SamplingConfig
  pub params : SamplingParams
  pub initial_input_length : ℕ
  pub greedy_fast_path : Bool

abbrev pub is_zero : Option ℕ → Bool
is_zero none = false
is_zero (some n) = n == 0

-- Sampler.__init__ but for the seed.
unfoldable pub init_sampler : SamplingConfig → SamplingParams → ℕ → Sampler
init_sampler config params initial_input_length = record {
  config = config;
  params = params;
  initial_input_length = initial_input_length;
  greedy_fast_path =
      is_greedy params.sampling_mode
      && (not params.has_repetition_penalty
          && (not params.has_frequency_penalty
              && (is_zero config.min_new_tokens
                  && (not params.return_probs && not params.return_logprobs))));
}

-- _set_sampling_seed, for the state of torch's random numbers; manual_seed is torch's.
abbrev pub set_sampling_seed : (ℕ → ℕ) → Option ℕ → ℕ → ℕ
set_sampling_seed manual_seed none rng = rng
set_sampling_seed manual_seed (some seed) rng = manual_seed seed

module _ (has_nan : Logits → Bool) where
  -- torch.isnan(logits).any()
  abbrev pub nan_in : List Logits → Bool
  nan_in [] = false
  nan_in (l ∷ rows) = has_nan l || nan_in rows
