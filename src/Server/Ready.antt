-- ===== src/Server/Ready.antt =====
-- What holds of a sequence of the server between its steps, and what the steps do to it.
use amd_pace.Decoding.Generator.{logits_behind}
use amd_pace.Common.{
  ℕ, ◌+◌, ◌≡◌, ◌≤◌, ◌<◌, refl, ap, sym, ◌∙◌, Bool, true, false, some, List, [], ◌∷◌, ◌++◌, arith,
  length, Dict, ok, lt→ltb, length-append, dec_lt, append_assoc,
}
use amd_pace.Decoding.Stopping.{StoppingCriteria, stop_now, any}
use amd_pace.Decoding.Stopping.Laws.{Limit, stop_now-keeps, stop_now-Limit}
use amd_pace.Decoding.Speculative.{compute_positions}
use amd_pace.Decoding.Generator.{DraftState, zip}
use amd_pace.Decoding.Generator.Entries.{numbered, zip-compute_positions, numbered-snoc}
use amd_pace.Decoding.Generator.Drafts.{Drafted}
use amd_pace.Server.Sequences.{Engine, Sequence, positions_of, append_token, stops}
use amd_pace.Server.Steps.{forward, advance}

-- An element fits: append_token puts it behind the others.
pub append_token_ok :
    (t : ℕ) (s : Sequence)
    → length s.tokens < s.capacity
    → append_token t s ≡ (record s { tokens = s.tokens ++ t ∷ [] }, ok tt)
unfolding append_token
append_token_ok t s lt = rw (lt→ltb (length s.tokens) s.capacity lt) refl

-- No sequence has room for more than `n` tokens.
abbrev pub Bounded : ℕ → Dict Sequence → Type 0
Bounded n [] = Unit {0}
Bounded n ((id, s) ∷ queue) = (s.capacity ≤ n + length s.tokens) × Bounded n queue

module _ (engine : Engine) where
  open engine use {models, has_spec_decoder, has_nan, draw}
  open models use {target_model, has_stop_string}

  -- The draft model has computed all tokens but some of the last.
  pub record DraftReady (s : Sequence) : Type 0 where
    pub state : DraftState
    pub made : s.draft ≡ some state
    pub seen : List ℕ
    pub input : List ℕ
    pub some_input : 0 < length input
    pub split : s.tokens ≡ seen ++ input
    pub drafted : Drafted models seen state

  -- All tokens but the last are in the cache at their positions, the counter says so, and there is
  -- room for a token, which the stopping criteria know the limit of.
  pub record Ready (s : Sequence) : Type 0 where
    pub done : List ℕ
    pub last : ℕ
    pub tokens : s.tokens ≡ done ++ last ∷ []
    pub cached : s.kv_cache ≡ numbered 0 done
    pub counted : s.num_computed_tokens ≡ length done
    pub limited : Limit s.capacity s.stopping_criteria
    pub room : length s.tokens < s.capacity
    pub draft_ready : has_spec_decoder ≡ true → DraftReady s

  abbrev pub AllReady : Dict Sequence → Type 0
  AllReady [] = Unit {0}
  AllReady ((id, s) ∷ queue) = Ready s × AllReady queue

  -- The sequence with all of its tokens in the cache.
  abbrev pub caught_up : Sequence → Sequence
  caught_up s = record s { kv_cache = numbered 0 s.tokens }

  -- A pass over the last token.
  pub forward_last :
      (s : Sequence) (r : Ready s)
      → forward (r.last ∷ []) (r.last ∷ []) s ≡ (caught_up s, numbered 0 s.tokens ∷ [])
  unfolding forward positions_of logits_behind
  forward_last s r =
      let one : zip (r.last ∷ []) (compute_positions 1 s.num_computed_tokens)
          ≡ (r.last, length r.done) ∷ [] =
        ap (λ n. zip (r.last ∷ []) (compute_positions 1 n)) r.counted
        ∙ zip-compute_positions (r.last ∷ []) (length r.done) in
      let all : s.kv_cache ++ (r.last, length r.done) ∷ [] ≡ numbered 0 s.tokens =
        ap (λ c. c ++ (r.last, length r.done) ∷ []) r.cached
        ∙ numbered-snoc r.done r.last
        ∙ ap (numbered 0) (sym r.tokens) in
      ap (λ es. (record s { kv_cache = s.kv_cache ++ es }, logits_behind s.kv_cache es)) one
      ∙ ap (λ c. (record s { kv_cache = c }, c ∷ [])) all

  -- A token more, and whether the sequence stops with it.
  abbrev pub longer : ℕ → Sequence → Sequence
  longer t s = record s { tokens = s.tokens ++ t ∷ [] }

  abbrev pub judged : Sequence → StoppingCriteria × List Bool
  judged s = stop_now has_stop_string (s.tokens ∷ []) 1 s.stopping_criteria

  stops_lem :
      (s : Sequence)
      → stops engine 1 s ≡ (record s { stopping_criteria = (judged s).0 }, ok (any (judged s).1))
  unfolding stops
  stops_lem s = refl

  -- Behind a token that does not stop the sequence there is room for another.
  pub going :
      (s : Sequence)
      → Limit s.capacity s.stopping_criteria
      → any (judged s).1 ≡ false
      → length s.tokens < s.capacity
  going s l e = elim (dec_lt (length s.tokens) s.capacity) [
    | yes lt ↦ lt
    | no ge ↦ absurd (
        ground (
          arith,
          e,
          stop_now-Limit has_stop_string s.capacity 1 (s.tokens ∷ []) s.stopping_criteria l
              (omega arith),
        ))
  ]

  -- The sequence behind `advance`, and whether it is done.
  abbrev pub turned : ℕ → Sequence → Sequence
  turned t s = record s {
    tokens = s.tokens ++ t ∷ [];
    num_computed_tokens = s.num_computed_tokens + 1;
    stopping_criteria = (judged (longer t s)).0;
  }

  abbrev pub stopped : ℕ → Sequence → Bool
  stopped t s = any (judged (longer t s)).1

  pub advance_lem :
      (t : ℕ) (s : Sequence)
      → length s.tokens < s.capacity
      → advance engine t s ≡ (turned t s, ok (stopped t s))
  unfolding advance stops
  advance_lem t s lt = rw (append_token_ok t s lt) refl

  pub turned-Ready :
      (t : ℕ) (s : Sequence) → Ready s → stopped t s ≡ false → Ready (turned t (caught_up s))
  turned-Ready t s r e = record {
    done = s.tokens;
    last = t;
    tokens = refl;
    cached = refl;
    counted = omega (arith, r.counted, ap length r.tokens, length-append r.done (r.last ∷ []));
    limited =
        stop_now-keeps has_stop_string s.capacity 1 ((s.tokens ++ t ∷ []) ∷ []) s.stopping_criteria
          r.limited;
    room = going (longer t s) r.limited e;
    draft_ready = λ h.
        let d = r.draft_ready h in
        record {
          state = d.state;
          made = d.made;
          seen = d.seen;
          input = d.input ++ t ∷ [];
          some_input = omega (arith, length-append d.input (t ∷ []));
          split = ap (λ l. l ++ t ∷ []) d.split ∙ append_assoc d.seen d.input (t ∷ []);
          drafted = d.drafted;
        };
  }
