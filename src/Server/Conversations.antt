-- ===== src/Server/Conversations.antt =====
-- The server as its callers see it: a conversation per request, which gets its tokens from the model
-- and its own sampler, without caches, positions, batches or queue flags.
use amd_pace.Decoding.Sampler.{Sampler}
use amd_pace.Common.{ℕ, ◌≡◌, Bool, true, false, List, [], ◌∷◌, ◌++◌, Dict, if◌then◌else◌}
use amd_pace.Decoding.Stopping.{StoppingCriteria, stop_now, any}
use amd_pace.Decoding.Generator.Entries.{numbered}
use amd_pace.Server.Sequences.{Engine, Sequence}
use amd_pace.Server.Executor.{Results, Outcome, completed, decoding_in_progress}

pub record Conversation : Type 0 where
  pub tokens : List ℕ
  pub sampler : Sampler
  pub stopping_criteria : StoppingCriteria

abbrev pub conversation : Sequence → Conversation
conversation s = record {
  tokens = s.tokens;
  sampler = s.sampler;
  stopping_criteria = s.stopping_criteria;
}

abbrev pub conversations : Dict Sequence → Dict Conversation
conversations [] = []
conversations ((id, s) ∷ queue) = (id, conversation s) ∷ conversations queue

abbrev pub turn_outcome : Bool → ℕ → StoppingCriteria → Outcome
turn_outcome true t criteria = completed (t ∷ []) criteria.stop_reason
turn_outcome false t criteria = decoding_in_progress (t ∷ [])

module _ (engine : Engine) where
  open engine use {models, has_nan, draw}
  open models use {target_model, has_stop_string}

  -- The next token of a conversation: the model's argmax behind its tokens if the sampler is greedy,
  -- otherwise a draw, which moves the random numbers on.
  abbrev pub choose : Conversation → ℕ → ℕ × ℕ
  choose c rng =
      if c.sampler.greedy_fast_path
      then (target_model (numbered 0 c.tokens), rng)
      else draw c.sampler c.tokens (numbered 0 c.tokens) rng

  -- The conversation with its next token, and whether that ends it.
  abbrev pub turn : ℕ → Conversation → Conversation × Bool
  turn t c =
      let tokens = c.tokens ++ t ∷ [] in
      let (criteria, is_done) = stop_now has_stop_string (tokens ∷ []) 1 c.stopping_criteria in
      (record { tokens = tokens; sampler = c.sampler; stopping_criteria = criteria }, any is_done)

  -- A round: each conversation in its order gets a token; those that it ends leave.
  unfoldable pub serve : Dict Conversation → ℕ → Dict Conversation × Results × ℕ
  serve [] rng = ([], [], rng)
  serve ((id, c) ∷ cs) rng =
      let (t, rng') = choose c rng in
      let (c', done) = turn t c in
      let (rest, results, rng'') = serve cs rng' in
      (
        if done then rest else (id, c') ∷ rest,
        (id, turn_outcome done t c'.stopping_criteria) ∷ results,
        rng'',
      )

  -- No logits of the round hold a NaN.
  abbrev pub IsClean : Dict Sequence → Type 0
  IsClean [] = Unit {0}
  IsClean ((id, s) ∷ queue) = (has_nan (numbered 0 s.tokens) ≡ false) × IsClean queue
