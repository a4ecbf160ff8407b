-- ===== src/Decoding/Stopping.antt =====
-- StoppingCriteria of pace/llm/stopping_criteria.py: when the sequences of a batch are done, and for
-- which reason. The batch is the list of its rows, which have one length. The tokenizer's stop
-- strings are checked by transformers' StopStringCriteria, a parameter: the strings and a row.
pub mod Laws
pub mod Reported
use amd_pace.Common.{
  ℕ, zero, suc, ◌+◌, ◌≡◌, Bool, true, false, not, ◌&&◌, ◌||◌, Option, none, some, List, [], ◌∷◌,
  ◌++◌, ◌==◌, leb, ltb, if◌then◌else◌, length, map, String, Result, ok, err,
}
use amd_pace.Kv.{Error, assertion}
use amd_pace.Decoding.Speculative.{last_n}

pub data Reason : Type 0 where
  stop : Reason
  length_reached : Reason

pub data Condition : Type 0 where
  stop_if_max_len : (max_length : ℕ) → Condition
  stop_if_eos_token : (eos_token_id : List ℕ) → Condition

pub record SamplingConfig : Type 0 where
  pub max_new_tokens : Option ℕ
  pub min_new_tokens : Option ℕ
  pub ignore_eos : Bool
  pub eos_token_id : Option (List ℕ)
  pub stop_strings : Option (List String)

pub record StoppingCriteria : Type 0 where
  pub min_length : ℕ
  pub max_length : Option ℕ
  pub stop_reason : Reason
  pub stop_conditions : List Condition
  pub hf_stop_conditions : List (List String)

abbrev pub or_zero : Option ℕ → ℕ
or_zero none = 0
or_zero (some n) = n

abbrev pub max_len_conditions : Option ℕ → ℕ → List Condition
max_len_conditions none prompt_length = []
max_len_conditions (some n) prompt_length = stop_if_max_len (n + prompt_length) ∷ []

abbrev pub eos_conditions : Bool → Option (List ℕ) → List Condition
eos_conditions true eos = []
eos_conditions false none = []
eos_conditions false (some ids) = stop_if_eos_token ids ∷ []

-- Stop strings need a tokenizer.
abbrev pub string_conditions : Bool → Option (List String) → Result Error (List (List String))
string_conditions tokenizer none = ok []
string_conditions tokenizer (some []) = ok []
string_conditions true (some (s ∷ ss)) = ok ((s ∷ ss) ∷ [])
string_conditions false (some (s ∷ ss)) = err assertion

abbrev pub with_strings :
    StoppingCriteria → Result Error (List (List String)) → Result Error StoppingCriteria
with_strings c (err e) = err e
with_strings c (ok hf) = ok (record {
  min_length = c.min_length;
  max_length = c.max_length;
  stop_reason = c.stop_reason;
  stop_conditions = c.stop_conditions;
  hf_stop_conditions = hf;
})

abbrev pub total_length : Option ℕ → ℕ → Option ℕ
total_length none prompt_length = none
total_length (some n) prompt_length = some (n + prompt_length)

-- __init__: the configuration, the length of the prompts, and whether there is a tokenizer.
unfoldable pub init : SamplingConfig → ℕ → Bool → Result Error StoppingCriteria
init config prompt_length tokenizer =
    with_strings
      (record {
        min_length = or_zero config.min_new_tokens + prompt_length;
        max_length = total_length config.max_new_tokens prompt_length;
        stop_reason = stop;
        stop_conditions =
            max_len_conditions config.max_new_tokens prompt_length
            ++ eos_conditions config.ignore_eos config.eos_token_id;
        hf_stop_conditions = [];
      })
      (string_conditions tokenizer config.stop_strings)

-- logits.shape[-1]
abbrev pub width : List (List ℕ) → ℕ
width [] = 0
width (row ∷ rows) = length row

-- torch.isin for one token
abbrev pub is_in : ℕ → List ℕ → Bool
is_in t [] = false
is_in t (id ∷ ids) = (t == id) || is_in t ids

-- torch.isin(tokens, ids).any(dim=-1) for one row
abbrev pub any_in : List ℕ → List ℕ → Bool
any_in [] ids = false
any_in (t ∷ ts) ids = is_in t ids || any_in ts ids

-- result.any()
abbrev pub any : List Bool → Bool
any [] = false
any (b ∷ bs) = b || any bs

-- is_done | result
abbrev pub or_rows : List Bool → List Bool → List Bool
or_rows (x ∷ xs) (y ∷ ys) = (x || y) ∷ or_rows xs ys
or_rows _ _ = []

-- _stop_if_max_len and _stop_if_eos_token
unfoldable pub condition : Condition → List (List ℕ) → ℕ → List Bool
condition (stop_if_max_len max_length) logits n = map (λ row. leb max_length (width logits)) logits
condition (stop_if_eos_token ids) logits n = map (λ row. any_in (last_n n row) ids) logits

abbrev pub reason_of : Condition → Reason
reason_of (stop_if_max_len _) = length_reached
reason_of (stop_if_eos_token _) = stop

abbrev pub is_length : Reason → Bool
is_length stop = false
is_length length_reached = true

-- The loop over stop_conditions.
unfoldable pub check_conditions :
    List Condition → List (List ℕ) → ℕ → List Bool × Reason → List Bool × Reason
check_conditions [] logits n (is_done, reason) = (is_done, reason)
check_conditions (c ∷ cs) logits n (is_done, reason) =
    let result = condition c logits n in
    check_conditions cs logits n
      (or_rows is_done result, if any result && not (any is_done) then reason_of c else reason)

abbrev pub set_reason : Reason → StoppingCriteria → StoppingCriteria
set_reason reason c = record {
  min_length = c.min_length;
  max_length = c.max_length;
  stop_reason = reason;
  stop_conditions = c.stop_conditions;
  hf_stop_conditions = c.hf_stop_conditions;
}

module _ (has_stop_string : List String → List ℕ → Bool) where
  -- The loop over hf_stop_conditions.
  unfoldable pub check_strings :
      List (List String) → List (List ℕ) → List Bool × Reason → List Bool × Reason
  check_strings [] logits (is_done, reason) = (is_done, reason)
  check_strings (ss ∷ more) logits (is_done, reason) =
      let result = map (has_stop_string ss) logits in
      check_strings more logits
        (or_rows is_done result, if any result && is_length reason then stop else reason)

  -- _check_for_conditions
  unfoldable pub check_for_conditions :
      List (List ℕ) → ℕ → StoppingCriteria → StoppingCriteria × List Bool
  check_for_conditions logits n c =
      let first = check_conditions c.stop_conditions logits n (map (λ row. false) logits, stop) in
      let (is_done, reason) = check_strings c.hf_stop_conditions logits first in
      (if any is_done then set_reason reason c else c, is_done)

  abbrev pub stop_short : Option ℕ → List (List ℕ) → StoppingCriteria → StoppingCriteria × List Bool
  stop_short none logits c = (c, map (λ row. false) logits)
  stop_short (some max_length) logits c =
      let result = condition (stop_if_max_len max_length) logits 1 in
      (if any result then set_reason length_reached c else c, result)

  unfoldable pub stop_now : List (List ℕ) → ℕ → StoppingCriteria → StoppingCriteria × List Bool
  stop_now logits n c =
      if ltb (width logits) c.min_length
      then stop_short c.max_length logits c
      else check_for_conditions logits n c
