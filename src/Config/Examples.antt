-- ===== src/Config/Examples.antt =====
-- Configs of the sampling parameters at work. Floating-point numbers are counted in steps of 1/100000.
use amd_pace.Common.{ℕ, ◌≡◌, refl, true, false, Option, none, some, [], ◌∷◌, ltb, ◌==◌, arith, ok}
use amd_pace.Config.Sampling.{
  Floats, one_id, id_list, Args, Config, ids_of, merge_lists, Tokenizer, init_config, merge_config,
}
use amd_pace.Config.Merging.{Overridden, Union, merge_config-Merged}
use amd_pace.Config.Prepared.{Ready, prepare_sampling_config-Ready}
use amd_pace.Config.Checks.{prepare_sampling_config, verify_max_new_tokens}

abbrev steps : Floats
steps = record {
  Float = ℕ;
  zero_float = 0;
  one_float = 100000;
  sampling_eps = 1;
  below = ltb;
  equals = λ a b. a == b;
  is_finite = λ a. true;
}

abbrev nothing_passed : Args ℕ
nothing_passed = record {
  max_new_tokens = none;
  min_new_tokens = none;
  ignore_eos = none;
  repetition_penalty = none;
  frequency_penalty = none;
  do_sample = none;
  temperature = none;
  top_k = none;
  top_p = none;
  min_p = none;
  seed = none;
  pad_token_id = none;
  eos_token_id = none;
  stop_strings = none;
  kwargs_sampling_seed = false;
}

-- A model's directory asks for samples and has two end tokens; the user a temperature, a seed, a
-- limit and an end token.
abbrev from_model : Config ℕ
from_model = init_config steps (record nothing_passed {
  do_sample = some true;
  temperature = some 60000;
  eos_token_id = some (id_list (9 ∷ 2 ∷ []));
})

abbrev by_user : Args ℕ
by_user = record nothing_passed {
  max_new_tokens = some 50;
  temperature = some 80000;
  seed = some 42;
  eos_token_id = some (one_id 5);
}

abbrev tokenizer : Option Tokenizer
tokenizer =
    some (record { tokenizer_pad = none; tokenizer_eos = some (one_id 2); vocab_size = 100 })

merged_test :
    ((merge_config (some (init_config steps by_user)) tokenizer from_model).eos_token_id
      ≡ some (id_list (2 ∷ 5 ∷ 9 ∷ [])))
    × ((merge_config (some (init_config steps by_user)) tokenizer from_model).top_k ≡ 100)
unfolding merge_config merge_lists
merged_test = (refl, refl)

merge_config-Merged_example :
    Overridden steps by_user tokenizer from_model
      (merge_config (some (init_config steps by_user)) tokenizer from_model)
    × Union steps
        (9 ∷ 2 ∷ [])
        (2 ∷ [])
        (5 ∷ [])
        (ids_of (merge_config (some (init_config steps by_user)) tokenizer from_model).eos_token_id)
    × Union steps [] [] []
        (ids_of (merge_config (some (init_config steps by_user)) tokenizer from_model).pad_token_id)
merge_config-Merged_example = merge_config-Merged steps by_user tokenizer from_model refl

prepare_sampling_config-Ready_example :
    ((prepare_sampling_config steps
        (some (init_config steps by_user))
        tokenizer
        90
        100
        from_model).1
      ≡ ok tt)
    × Ready steps 90 100
        (merge_config (some (init_config steps by_user)) tokenizer from_model)
        2
        (prepare_sampling_config steps
          (some (init_config steps by_user))
          tokenizer
          90
          100
          from_model).0
unfolding merge_config merge_lists verify_max_new_tokens
prepare_sampling_config-Ready_example =
    prepare_sampling_config-Ready steps (some (init_config steps by_user)) tokenizer 90 100
      from_model 2 refl (omega arith) (refl, refl, refl)
