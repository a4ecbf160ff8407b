-- ===== src/Decoding/Generator/Loop.antt =====
-- `generate` ends, and its tokens are those of greedy decoding.
use amd_pace.Common.{
  ℕ, zero, suc, ◌+◌, ◌≡◌, ◌≤◌, ◌<◌, refl, ap, ◌∙◌, sym, List, [], ◌∷◌, ◌++◌, arith, length,
  append_assoc, ok, true, false, inl, inr, Bool-cases, some, dec_lt, length-append, if◌then◌else◌,
  none,
}
use amd_pace.Decoding.Speculative.{pard_list_len}
use amd_pace.Decoding.Speculative.Greedy.{greedy, greedy-add, length-greedy}
use amd_pace.Decoding.Stopping.{StoppingCriteria, SamplingConfig}
use amd_pace.Decoding.Stopping.Laws.{Limit, init-Limit, init_ok, stop_now-keeps, stop_now-Limit}
use amd_pace.Decoding.Generator.{Setup, Numerics, GenState, decode_step, decode_loop, generate}
use amd_pace.Decoding.Sampler.{Logits, Sampler, SamplingParams, init_sampler}
use amd_pace.Decoding.Generator.Entries.{next_token}
use amd_pace.Decoding.Generator.Rounds.{InSync, Extends, decode_step-Extends, prefill-Extends}

true-false : ¬ (true ≡ false)
true-false e = cc

module _ (setup : Setup) where
  open setup use {target_model, draft_size, has_stop_string}

  -- A state on the way: greedy decoding's tokens behind the prompt, at most `draft_size` of them
  -- beyond the limit.
  pub record Running (prompt : List ℕ) (limit : ℕ) (g : GenState) : Type 0 where
    pub steps : ℕ
    pub some_steps : 0 < steps
    pub grown : g.all_tokens ≡ prompt ++ greedy (next_token target_model) steps prompt
    pub bound : length g.all_tokens ≤ limit + draft_size
    pub in_sync : InSync setup g
    pub limited : Limit limit g.stopping_criteria
    pub stops : limit ≤ length g.all_tokens → g.unfinished ≡ false

  stops_at :
      (limit : ℕ) (all : List ℕ) (g : GenState) (c : StoppingCriteria)
      → Limit limit c
      → Extends setup all g c
      → limit ≤ length g.all_tokens
      → g.unfinished ≡ false
  stops_at limit all g c l x le =
      rw (x.going, stop_now-Limit has_stop_string limit (suc x.accepted) (g.all_tokens ∷ []) c l le)
        refl

  grow_length :
      (all : List ℕ) (g : GenState) (c : StoppingCriteria) (x : Extends setup all g c)
      → length g.all_tokens ≡ length all + suc x.accepted
  grow_length all g c x =
      ap length x.grown
      ∙ length-append all _
      ∙ ap (λ n. length all + n) (length-greedy (next_token target_model) (suc x.accepted) all)

  -- A step from a state on the way leads to one, with more tokens.
  step-Running :
      (prompt : List ℕ) (limit : ℕ) (g g' : GenState)
      → Running prompt limit g
      → length g.all_tokens < limit
      → Extends setup g.all_tokens g' g.stopping_criteria
      → Running prompt limit g'
  step-Running prompt limit g g' r lt x =
      let f = next_token target_model in
      record {
        steps = r.steps + suc x.accepted;
        some_steps = omega (arith, r.some_steps);
        grown =
            x.grown
            ∙ ap (λ l. l ++ greedy f (suc x.accepted) l) r.grown
            ∙ append_assoc prompt (greedy f r.steps prompt) _
            ∙ ap (λ l. prompt ++ l) (sym (greedy-add f r.steps (suc x.accepted) prompt));
        bound = omega (arith, grow_length g.all_tokens g' g.stopping_criteria x, x.accepted_le);
        in_sync = x.in_sync;
        limited =
            rw x.criteria (
              stop_now-keeps has_stop_string limit (suc x.accepted) _ g.stopping_criteria
                r.limited);
        stops = stops_at limit g.all_tokens g' g.stopping_criteria r.limited x;
      }

  module _ (numerics : Numerics) (sampler : Sampler) (fast : sampler.greedy_fast_path ≡ true)
      (no_nan : (l : Logits) → numerics.has_nan l ≡ false) where
    loop-Running :
        (prompt : List ℕ) (limit fuel : ℕ) (g : GenState)
        → 0 < draft_size
        → draft_size ≤ pard_list_len + 1
        → limit ≤ fuel + length g.all_tokens
        → Running prompt limit g
        → (g' : GenState) × (decode_loop setup numerics sampler fuel (ok g) ≡ some (ok g'))
          × (g'.unfinished ≡ false)
          × Running prompt limit g'
    unfolding decode_loop
    loop-Running prompt limit zero g pos fits enough r = (
      g,
      ap (λ b. if b then none else some (ok g)) (r.stops (omega arith)),
      r.stops (omega arith),
      r,
    )
    loop-Running prompt limit (suc fuel) g pos fits enough r = elim (Bool-cases g.unfinished) [
      | inl e ↦ elim (dec_lt (length g.all_tokens) limit) [
        | yes lt ↦
            let (g', stepped, x) =
              decode_step-Extends setup numerics sampler fast no_nan g pos fits r.in_sync in
            let (g'', looped, ended, r') =
              loop-Running prompt limit fuel g' pos fits
                (omega (arith, grow_length g.all_tokens g' g.stopping_criteria x))
                (step-Running prompt limit g g' r lt x) in
            (
              g'',
              ap
                    (λ b.
                      if b
                      then decode_loop setup numerics sampler fuel
                          (decode_step setup numerics sampler g)
                      else some (ok g))
                    e
                  ∙ ap (decode_loop setup numerics sampler fuel) stepped
                  ∙ looped,
              ended,
              r',
            )
        | no ge ↦ absurd (true-false (sym e ∙ r.stops (omega arith)))
      ]
      | inr e ↦ (
        g,
        ap
            (λ b.
              if b
              then decode_loop setup numerics sampler fuel (decode_step setup numerics sampler g)
              else some (ok g))
            e,
        e,
        r,
      )
    ]

  -- For a config whose sampler takes the fast path, that is greedy search without penalties, minimal
  -- length and returned probabilities, logits without NaN, a prompt that is not empty and a positive
  -- number of new tokens, and with at most 33 speculative tokens, `generate` ends without raising when
  -- it may do as many passes as tokens are wanted. Its result is the prompt and, behind it, one or more
  -- of the tokens that the target model alone would choose, at most `draft_size` of them beyond the
  -- limit.
  pub generate-Greedy :
      (numerics : Numerics) (params : SamplingParams) (config : SamplingConfig) (prompt : List ℕ)
      (max_new_tokens fuel : ℕ)
      → (init_sampler config params (length prompt)).greedy_fast_path ≡ true
      → ((l : Logits) → numerics.has_nan l ≡ false)
      → 0 < draft_size
      → draft_size ≤ pard_list_len + 1
      → 0 < length prompt
      → config.max_new_tokens ≡ some max_new_tokens
      → 0 < max_new_tokens
      → max_new_tokens ≤ suc fuel
      → (g : GenState) × (generate setup numerics params fuel config prompt ≡ some (ok g))
        × (g.unfinished ≡ false)
        × Running prompt (max_new_tokens + length prompt) g
  unfolding generate
  generate-Greedy numerics params config prompt m fuel fast no_nan pos fits some_prompt e some_new
        enough =
      let sampler = init_sampler config params (length prompt) in
      let (c, made) = init_ok config (length prompt) in
      let l = init-Limit config (length prompt) m true c made e in
      let (g, filled, x) =
        prefill-Extends setup numerics sampler fast no_nan prompt
          (record { draft_cache = []; num_computed = 0; total_accepted = [] }) c pos fits
          some_prompt (record { draft_cached = refl; draft_counted = refl }) in
      let len = grow_length prompt g c x in
      rw (made, filled)
        (loop-Running numerics sampler fast no_nan prompt (m + length prompt) fuel g pos fits
          (omega arith)
          (record {
            steps = suc x.accepted;
            some_steps = omega arith;
            grown = x.grown;
            bound = omega (arith, x.accepted_le);
            in_sync = x.in_sync;
            limited =
                rw x.criteria
                  (stop_now-keeps has_stop_string (m + length prompt) (suc x.accepted) _ c l);
            stops = stops_at (m + length prompt) prompt g c l x;
          }))
