-- ===== src/Config/Checks.antt =====
-- verify_max_new_tokens and finalize of pace/llm/configs.py, as Generator's config for a prompt calls
-- them behind merge_from (pace/llm/generator.py).
use amd_pace.Common.{
  ℕ, ◌+◌, ◌-◌, max, Bool, true, false, not, ◌&&◌, ◌||◌, Option, none, some, List, [], ◌∷◌, leb, ltb,
  if◌then◌else◌, ok, err, Action, require, modify, ◌>>◌,
}
use amd_pace.Config.Sampling.{
  Floats, Failure, assertion_error, index_error, greedy_search, random_sampling, Ids, one_id,
  id_list, Config, or_default, Tokenizer, merge_config,
}

module _ (N : Floats) where
  -- verify_max_new_tokens
  unfoldable pub verify_max_new_tokens : ℕ → ℕ → Config N.Float → Config N.Float
  verify_max_new_tokens initial_length max_position c =
      let n = or_default c.max_new_tokens 20 in
      record c {
        max_new_tokens = some (
            if ltb max_position (initial_length + n)
            then max 1 (max_position - initial_length)
            else n);
      }

  abbrev pub check : (Config N.Float → Bool) → Action (Config N.Float) Failure Unit
  check p c = require (p c) assertion_error c

  abbrev pub positive_length : Config N.Float → Bool
  positive_length c = leb 1 (or_default c.max_new_tokens 0)

  -- 0 <= x <= 1.0
  abbrev pub is_share : N.Float → Bool
  is_share x = not (N.below x N.zero_float) && not (N.below N.one_float x)

  abbrev pub override_zero_temperature : Config N.Float → Config N.Float
  override_zero_temperature c =
      let greedy = record c {
        temperature = N.one_float;
        top_k = 0;
        top_p = N.one_float;
        min_p = N.zero_float;
        do_sample = false;
      } in
      if N.below c.temperature N.sampling_eps then greedy else c

  -- eos_token_id[0] of the tensor, which has no dimension when it is made from a number.
  abbrev pub first_id : Option Ids → Option ℕ
  first_id none = none
  first_id (some (one_id t)) = none
  first_id (some (id_list [])) = none
  first_id (some (id_list (t ∷ ts))) = some t

  abbrev pub is_given : Option Ids → Bool
  is_given none = false
  is_given (some x) = true

  abbrev pub put_pad : Option ℕ → Action (Config N.Float) Failure Unit
  put_pad none c = (c, err index_error)
  put_pad (some t) c = (record c { pad_token_id = some (one_id t) }, ok tt)

  -- The source's first element of the list, the number, or the first end token.
  abbrev pub pad_id : Option Ids → Option Ids → Option ℕ
  pad_id none eos = first_id eos
  pad_id (some (one_id t)) eos = some t
  pad_id (some (id_list ts)) eos = first_id (some (id_list ts))

  abbrev pub check_all : List (Config N.Float → Bool) → Action (Config N.Float) Failure Unit
  check_all [] c = (c, ok tt)
  check_all (p ∷ ps) c = (check p >> check_all ps) c

  -- The conversion of the temperature to float is the first assignment, which a finalized config
  -- refuses.
  abbrev pub number_checks : List (Config N.Float → Bool)
  number_checks =
      positive_length
      ∷ (λ c. not c.finalized)
      ∷ (λ c. not (N.below c.temperature N.zero_float))
      ∷ (λ c. is_share c.top_p)
      ∷ (λ c. is_share c.min_p)
      ∷ (λ c. N.below N.zero_float c.repetition_penalty)
      ∷ (λ c. N.is_finite c.frequency_penalty)
      ∷ []

  -- What follows the checks of the numbers.
  abbrev pub put_tokens : Action (Config N.Float) Failure Unit
  put_tokens =
      check (λ c. is_given c.eos_token_id) >> λ c. put_pad (pad_id c.pad_token_id c.eos_token_id) c

  -- _verify_sampling_config
  abbrev pub verify_sampling_config : Action (Config N.Float) Failure Unit
  verify_sampling_config = check_all number_checks >> λ c. put_tokens (override_zero_temperature c)

  -- _set_sampling_method
  abbrev pub set_sampling_method : Config N.Float → Config N.Float
  set_sampling_method c = record c {
    sampling_mode = some (
        if not c.do_sample || N.equals c.temperature N.zero_float
        then greedy_search
        else random_sampling);
  }

  -- finalize
  unfoldable pub finalize : Action (Config N.Float) Failure Unit
  finalize =
      verify_sampling_config
      >> modify set_sampling_method
      >> modify (λ c. record c { finalized = true })

  -- The config of a prompt: the arguments of the user, the tokenizer, the length of the prompt and the
  -- largest position of the model, from the config of the model's directory.
  abbrev pub prepare_sampling_config :
      Option (Config N.Float) → Option Tokenizer → ℕ → ℕ → Action (Config N.Float) Failure Unit
  prepare_sampling_config user tokenizer initial_length max_position =
      modify
        (λ c. verify_max_new_tokens initial_length max_position (merge_config user tokenizer c))
      >> finalize
