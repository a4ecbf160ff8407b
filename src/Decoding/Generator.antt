-- ===== src/Decoding/Generator.antt =====
-- Generator of pace/llm/generator.py with a PardSpeculativeDecoder: `generate` for one unpadded
-- prompt and greedy search. A cache is the list of its entries, an entry being a token with the
-- position that the model was called with; a model is the token with the largest logit behind the
-- entries that it attends to.
pub mod Entries
pub mod Drafts
pub mod Rounds
pub mod Loop
use amd_pace.Common.{
  ℕ, zero, suc, ◌+◌, ◌-◌, ◌≡◌, List, [], ◌∷◌, ◌++◌, ◌==◌, leb, ltb, if◌then◌else◌, length, take,
  Bool, true, false, map, drop, tabulate, Result, ok, err, Option, none, some, not, String,
}
use amd_pace.Kv.{Error, too_many_removed, assertion}
use amd_pace.Decoding.Sampler.{Logits, SamplingParams, Sampler, init_sampler, nan_in}
use amd_pace.Decoding.Stopping.{StoppingCriteria, SamplingConfig, init, stop_now, any}
use amd_pace.Decoding.Speculative.{
  prepare_draft_input, compute_positions, last_n, accept_proposal, VerificationOutput,
}

abbrev pub Entry : Type 0
Entry = ℕ × ℕ

-- The tokens and their positions, as the model takes them.
abbrev pub zip : List ℕ → List ℕ → List Entry
zip (t ∷ ts) (p ∷ ps) = (t, p) ∷ zip ts ps
zip _ _ = []

-- logits.argmax(dim=-1) of a forward pass over `entries` behind the `cached` ones.
unfoldable pub argmaxes : (List Entry → ℕ) → List Entry → List Entry → List ℕ
argmaxes model cached [] = []
argmaxes model cached (e ∷ es) = model (cached ++ e ∷ []) ∷ argmaxes model (cached ++ e ∷ []) es

-- A pass of a model over entries behind the cached ones: the logits of each.
unfoldable pub logits_behind : List Entry → List Entry → List Logits
logits_behind cached [] = []
logits_behind cached (e ∷ es) = (cached ++ e ∷ []) ∷ logits_behind (cached ++ e ∷ []) es

-- logits[:, -n:]
unfoldable pub last_rows : ℕ → List Logits → List Logits
last_rows n rows = drop (length rows - n) rows

-- KVCacheManager.remove_cache, for layers that hold the same.
unfoldable pub remove_cache : ℕ → List Entry → Result Error (List Entry)
remove_cache m cached =
    if leb m (length cached) then ok (take (length cached - m) cached) else err too_many_removed

pub record DraftState : Type 0 where
  pub draft_cache : List Entry
  pub num_computed : ℕ
  pub total_accepted : List ℕ

pub record GenState : Type 0 where
  pub all_tokens : List ℕ
  pub model_input : List ℕ
  pub kv_cache : List Entry
  pub num_computed_tokens : ℕ
  pub draft : DraftState
  pub stopping_criteria : StoppingCriteria
  pub unfinished : Bool

abbrev pub bind : {A B : Type 0} → Result Error A → (A → Result Error B) → Result Error B
bind (ok a) f = f a
bind (err e) f = err e

-- What the logits are to the sampler: whether they hold a NaN, and the tokens that it makes of those of
-- several positions beside the fast path, by the index of the position, from the tokens so far; the
-- penalties and filters may raise. Greedy search draws no random numbers.
pub record Numerics : Type 0 where
  pub has_nan : Logits → Bool
  pub sample_filtered : Sampler → List ℕ → List Logits → Result Error (ℕ → ℕ)

-- What `Generator` and its decoder are built with: the two models, the PARD token,
-- num_speculative_tokens, and the tokenizer's test of stop strings.
pub record Setup : Type 0 where
  pub target_model : List Entry → ℕ
  pub draft_model : List Entry → ℕ
  pub pard_token : ℕ
  pub draft_size : ℕ
  pub has_stop_string : List String → List ℕ → Bool

module _ (setup : Setup) where
  open setup use {target_model, draft_model, pard_token, draft_size, has_stop_string}

  -- speculate: the state of the draft model, and `extended_input`.
  unfoldable pub speculate : List ℕ → DraftState → DraftState × List ℕ
  speculate model_input d =
      let pard_input = prepare_draft_input pard_token draft_size model_input in
      let pard_positions = compute_positions (length pard_input) d.num_computed in
      let entries = zip pard_input pard_positions in
      let speculated_tokens = last_n draft_size (argmaxes draft_model d.draft_cache entries) in
      (
        record {
          draft_cache = d.draft_cache ++ entries;
          num_computed = d.num_computed + length pard_input;
          total_accepted = d.total_accepted;
        },
        model_input ++ speculated_tokens,
      )

  -- The part of `verify` that changes the draft model's state.
  pub clean_draft : VerificationOutput → DraftState → Result Error DraftState
  clean_draft out d = bind (remove_cache (draft_size - 1) d.draft_cache) λ cached. ok (record {
    draft_cache = cached;
    num_computed = d.num_computed - (draft_size - 1);
    total_accepted = d.total_accepted ++ length out.accepted_tokens ∷ [];
  })

  -- verify
  unfoldable pub verify :
      List ℕ → List ℕ → DraftState → Result Error (VerificationOutput × DraftState)
  verify sampled_tokens speculated_input d =
      bind (accept_proposal draft_size sampled_tokens speculated_input)
        λ out. bind (clean_draft out d) λ d'. ok (out, d')

  -- The target's pass over `target_input`: its logits, its cache and its counter.
  pub target_forward : List ℕ → List Entry → ℕ → List Logits × List Entry × ℕ
  target_forward target_input cached num_computed =
      let entries = zip target_input (compute_positions (length target_input) num_computed) in
      (logits_behind cached entries, cached ++ entries, num_computed + length target_input)

  abbrev pub trim_target : ℕ → List Entry → ℕ → Result Error (List Entry × ℕ)
  trim_target zero cached n = ok (cached, n)
  trim_target (suc m) cached n =
      bind (remove_cache (suc m) cached) λ cached'. ok (cached', n - suc m)

module _ (setup : Setup) (numerics : Numerics) (sampler : Sampler) where
  open setup use {target_model, draft_model, pard_token, draft_size, has_stop_string}
  open numerics use {has_nan, sample_filtered}

  -- Sampler.sample for the logits of several positions.
  unfoldable pub sample_candidates : List ℕ → List Logits → Result Error (List ℕ)
  sample_candidates all_tokens rows =
      if nan_in has_nan rows
      then err assertion
      else if sampler.greedy_fast_path
      then ok (map target_model rows)
      else bind (sample_filtered sampler all_tokens rows)
          λ tokens. ok (tabulate tokens 0 (length rows))

  -- _sample_and_postprocess
  unfoldable pub sample_and_postprocess :
      List Logits × List Entry × ℕ
      → List ℕ
      → DraftState
      → StoppingCriteria
      → List ℕ
      → Result Error GenState
  sample_and_postprocess (logits, cached, num_computed) speculated_inputs d criteria all_tokens =
      bind (sample_candidates all_tokens (last_rows (draft_size + 1) logits)) λ sampled.
        bind (verify setup sampled speculated_inputs d) λ (out, d').
          bind (trim_target setup out.target_kv_cache_trim cached num_computed) λ trimmed.
            let next_tokens = out.accepted_tokens in
            let (criteria', is_done) =
              stop_now has_stop_string ((all_tokens ++ next_tokens) ∷ []) (length next_tokens)
                criteria in
            ok (record {
              all_tokens = all_tokens ++ next_tokens;
              model_input = next_tokens;
              kv_cache = trimmed.0;
              num_computed_tokens = trimmed.1;
              draft = d';
              stopping_criteria = criteria';
              unfinished = not (any is_done);
            })

  -- _prefill_forward: the whole prompt with the proposal behind it goes through the target.
  unfoldable pub prefill : List ℕ → DraftState → StoppingCriteria → Result Error GenState
  prefill inputs d criteria =
      let (d', speculated_inputs) = speculate setup inputs d in
      sample_and_postprocess (target_forward setup speculated_inputs [] 0) speculated_inputs d'
        criteria inputs

  -- _decode_forward: of the extended input the target takes the last `1 + draft_size` tokens, which
  -- are the ones that its cache lacks.
  unfoldable pub decode_step : GenState → Result Error GenState
  decode_step g =
      let (d', speculated_inputs) = speculate setup g.model_input g.draft in
      let target_input = last_n (1 + draft_size) speculated_inputs in
      sample_and_postprocess (target_forward setup target_input g.kv_cache g.num_computed_tokens)
        speculated_inputs d' g.stopping_criteria g.all_tokens

  -- while unfinished_sequences.max() != 0, `fuel` times at most; none is the end of the fuel.
  unfoldable pub decode_loop : ℕ → Result Error GenState → Option (Result Error GenState)
  decode_loop fuel (err e) = some (err e)
  decode_loop zero (ok g) = if g.unfinished then none else some (ok g)
  decode_loop (suc fuel) (ok g) =
      let rest = decode_loop fuel (decode_step g) in if g.unfinished then rest else some (ok g)

-- StoppingCriteria and the sampler are made for the prompt first; the draft model's state is
-- `prepare`'s.
unfoldable pub generate :
    Setup → Numerics → SamplingParams → ℕ → SamplingConfig → List ℕ → Option (Result Error GenState)
generate setup numerics params fuel config inputs =
    let sampler = init_sampler config params (length inputs) in
    decode_loop setup numerics sampler fuel (
      bind (init config (length inputs) true) λ criteria.
        prefill setup numerics sampler inputs
          (record { draft_cache = []; num_computed = 0; total_accepted = [] }) criteria)
