-- ===== src/Config/Sampling.antt =====
-- SamplingConfig of pace/llm/configs.py: its construction, its merging and its checks. Counts are not
-- negative, and floating-point numbers with their comparisons are a parameter. Token ids are numbers or
-- lists of them, not tensors; an argument that is passed is not None. What the methods here only store
-- (the return_* arguments, vocab_size) is left out.
use amd_pace.Common.{
  ℕ, Bool, true, false, ◌&&◌, Option, none, some, List, [], ◌∷◌, ◌++◌, ltb, ◌==◌, if◌then◌else◌,
  String,
}

pub record Floats : Type 1 where
  pub Float : Type 0
  pub zero_float : Float
  pub one_float : Float
  pub sampling_eps : Float
  pub below : Float → Float → Bool
  pub equals : Float → Float → Bool
  pub is_finite : Float → Bool

pub data Failure : Type 0 where
  -- AssertionError of PACE_LLM_ASSERT
  assertion_error : Failure
  index_error : Failure

pub data SamplingMode : Type 0 where
  greedy_search : SamplingMode
  random_sampling : SamplingMode

pub data Ids : Type 0 where
  one_id : ℕ → Ids
  id_list : List ℕ → Ids

-- The arguments that the caller passes.
pub record Args (F : Type 0) : Type 0 where
  pub max_new_tokens : Option ℕ
  pub min_new_tokens : Option ℕ
  pub ignore_eos : Option Bool
  pub repetition_penalty : Option F
  pub frequency_penalty : Option F
  pub do_sample : Option Bool
  pub temperature : Option F
  pub top_k : Option ℕ
  pub top_p : Option F
  pub min_p : Option F
  pub seed : Option ℕ
  pub pad_token_id : Option Ids
  pub eos_token_id : Option Ids
  pub stop_strings : Option (List String)
  -- Is there a keyword argument sampling_seed, which is no parameter?
  pub kwargs_sampling_seed : Bool

-- The attributes, and which of them are in _explicit_keys.
pub record Config (F : Type 0) : Type 0 where
  pub max_new_tokens : Option ℕ
  pub min_new_tokens : ℕ
  pub ignore_eos : Bool
  pub repetition_penalty : F
  pub frequency_penalty : F
  pub do_sample : Bool
  pub temperature : F
  pub top_k : ℕ
  pub top_p : F
  pub min_p : F
  pub sampling_seed : Option ℕ
  pub pad_token_id : Option Ids
  pub eos_token_id : Option Ids
  pub stop_strings : Option (List String)
  pub sampling_mode : Option SamplingMode
  pub finalized : Bool
  pub explicit : Args F

abbrev pub or_default {ℓ} : {A : Type ℓ} → Option A → A → A
or_default none d = d
or_default (some a) d = a

abbrev pub as_list : Option Ids → Option Ids
as_list none = none
as_list (some (one_id t)) = some (id_list (t ∷ []))
as_list (some (id_list ts)) = some (id_list ts)

-- _merge_lists
abbrev pub ids_of : Option Ids → List ℕ
ids_of none = []
ids_of (some (one_id t)) = t ∷ []
ids_of (some (id_list ts)) = ts

abbrev pub same_lists : List ℕ → List ℕ → Bool
same_lists [] [] = true
same_lists [] (t ∷ ts) = false
same_lists (s ∷ ss) [] = false
same_lists (s ∷ ss) (t ∷ ts) = (s == t) && same_lists ss ts

abbrev pub same_ids : Option Ids → Option Ids → Bool
same_ids none none = true
same_ids none (some y) = false
same_ids (some x) none = false
same_ids (some (one_id s)) (some (one_id t)) = s == t
same_ids (some (one_id s)) (some (id_list ts)) = false
same_ids (some (id_list ss)) (some (one_id t)) = false
same_ids (some (id_list ss)) (some (id_list ts)) = same_lists ss ts

-- sorted(list(set(...)))
abbrev pub insert_id : ℕ → List ℕ → List ℕ
insert_id t [] = t ∷ []
insert_id t (s ∷ ss) = if t == s then s ∷ ss else if ltb t s then t ∷ s ∷ ss else s ∷ insert_id t ss

abbrev pub sorted_set : List ℕ → List ℕ
sorted_set [] = []
sorted_set (t ∷ ts) = insert_id t (sorted_set ts)

unfoldable pub merge_lists : Option Ids → Option Ids → Option Ids
merge_lists self none = self
merge_lists self (some other) =
    if same_ids self (some other)
    then self
    else some (id_list (sorted_set (ids_of (some other) ++ ids_of self)))

-- The value of a parameter that the caller passed, or the attribute as it is.
abbrev pub if_passed {ℓ} : {A B : Type ℓ} → Option A → B → B → B
if_passed none value own = own
if_passed (some a) value own = value

pub record Tokenizer : Type 0 where
  pub tokenizer_pad : Option Ids
  pub tokenizer_eos : Option Ids
  pub vocab_size : ℕ

module _ (N : Floats) where
  abbrev pub init_config : Args N.Float → Config N.Float
  init_config a = record {
    max_new_tokens = a.max_new_tokens;
    min_new_tokens = or_default a.min_new_tokens 0;
    ignore_eos = or_default a.ignore_eos false;
    repetition_penalty = or_default a.repetition_penalty N.one_float;
    frequency_penalty = or_default a.frequency_penalty N.zero_float;
    do_sample = or_default a.do_sample false;
    temperature = or_default a.temperature N.one_float;
    top_k = or_default a.top_k 0;
    top_p = or_default a.top_p N.one_float;
    min_p = or_default a.min_p N.zero_float;
    sampling_seed = a.seed;
    pad_token_id = a.pad_token_id;
    eos_token_id = as_list a.eos_token_id;
    stop_strings = a.stop_strings;
    sampling_mode = none;
    finalized = false;
    explicit = a;
  }

module _ {F : Type 0} where
  abbrev pub merge_tokenizer : Option Tokenizer → Config F → Config F
  merge_tokenizer none c = c
  merge_tokenizer (some t) c = record c {
    pad_token_id = merge_lists c.pad_token_id t.tokenizer_pad;
    eos_token_id = merge_lists c.eos_token_id t.tokenizer_eos;
    top_k = if c.top_k == 0 then t.vocab_size else c.top_k;
  }

  -- The attribute sampling_seed is looked up by its own name, not by the parameter's.
  abbrev pub merge_other : Option (Config F) → Config F → Config F
  merge_other none c = c
  merge_other (some o) c = record c {
    max_new_tokens = if_passed o.explicit.max_new_tokens o.max_new_tokens c.max_new_tokens;
    min_new_tokens = if_passed o.explicit.min_new_tokens o.min_new_tokens c.min_new_tokens;
    ignore_eos = if_passed o.explicit.ignore_eos o.ignore_eos c.ignore_eos;
    repetition_penalty =
        if_passed o.explicit.repetition_penalty o.repetition_penalty c.repetition_penalty;
    frequency_penalty =
        if_passed o.explicit.frequency_penalty o.frequency_penalty c.frequency_penalty;
    do_sample = if_passed o.explicit.do_sample o.do_sample c.do_sample;
    temperature = if_passed o.explicit.temperature o.temperature c.temperature;
    top_k = if_passed o.explicit.top_k o.top_k c.top_k;
    top_p = if_passed o.explicit.top_p o.top_p c.top_p;
    min_p = if_passed o.explicit.min_p o.min_p c.min_p;
    sampling_seed = if o.explicit.kwargs_sampling_seed then o.sampling_seed else c.sampling_seed;
    pad_token_id = merge_lists c.pad_token_id o.pad_token_id;
    eos_token_id = merge_lists c.eos_token_id o.eos_token_id;
    stop_strings = if_passed o.explicit.stop_strings o.stop_strings c.stop_strings;
  }

  -- merge_from
  unfoldable pub merge_config : Option (Config F) → Option Tokenizer → Config F → Config F
  merge_config other tokenizer c = merge_other other (merge_tokenizer tokenizer c)
