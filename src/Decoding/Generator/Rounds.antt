-- ===== src/Decoding/Generator/Rounds.antt =====
-- What one pass of the decode loop does: the tokens it adds are greedy decoding's, and the caches of
-- both models stay in step with the tokens.
use amd_pace.Common.{
  ℕ, zero, suc, ◌+◌, ◌-◌, ◌≡◌, ◌≤◌, ◌<◌, refl, ap, sym, ◌∙◌, List, [], ◌∷◌, ◌++◌, arith, length,
  take, append_assoc, ok, not, length-append, append-nil, drop, take-append-drop, subst,
  length-drop, snoc-cases, true, false,
}
use amd_pace.Decoding.Speculative.{last_n, pard_list_len, last_n-append}
use amd_pace.Decoding.Speculative.Greedy.{
  greedy, sampled_from, accept_proposal-Accepts, length-greedy, greedy-snoc,
}
use amd_pace.Decoding.Stopping.{StoppingCriteria, stop_now, any}
use amd_pace.Decoding.Generator.{
  Setup, DraftState, GenState, target_forward, trim_target, sample_and_postprocess, prefill,
  decode_step, Numerics, sample_candidates, verify, logits_behind, last_rows,
}
use amd_pace.Decoding.Sampler.{Logits, Sampler, nan_in}
use amd_pace.Decoding.Generator.Entries.{
  numbered, zip-compute_positions, next_token, numbered-extend, remove_cache-numbered, candidates,
  length-candidates, map-candidates, logits_behind-candidates, logits_behind-append,
  last_rows-append,
}
use amd_pace.Decoding.Generator.Drafts.{Drafted, Proposes, speculate-Proposes, clean_draft_lem}

module _ (setup : Setup) where
  open setup use {target_model, draft_model, pard_token, draft_size, has_stop_string}

  -- All tokens but the last are in the target's cache at their positions, all but the input of the
  -- next step in the draft model's, and the counters say so.
  pub record InSync (g : GenState) : Type 0 where
    pub done : List ℕ
    pub last : ℕ
    pub tokens : g.all_tokens ≡ done ++ last ∷ []
    pub cached : g.kv_cache ≡ numbered 0 done
    pub counted : g.num_computed_tokens ≡ length done
    pub seen : List ℕ
    pub before : List ℕ
    pub input : g.model_input ≡ before ++ last ∷ []
    pub split : g.all_tokens ≡ seen ++ g.model_input
    pub drafted : Drafted setup seen g.draft

  trim_target_lem :
      (xs zs : List ℕ) (m : ℕ)
      → length zs ≡ m
      → trim_target setup m (numbered 0 (xs ++ zs)) (length (xs ++ zs))
        ≡ ok (numbered 0 xs, length xs)
  trim_target_lem xs [] zero h = ap (λ l. ok (numbered 0 l, length l)) (append-nil xs)
  trim_target_lem xs (z ∷ zs) zero h = absurd (omega arith)
  trim_target_lem xs zs (suc m) h =
      let e : length (xs ++ zs) - suc m ≡ length xs = omega (arith, length-append xs zs) in
      rw (remove_cache-numbered xs zs (suc m) h, e) refl

  -- The tokens that a step adds, and the state behind it.
  pub record Extends (all : List ℕ) (g : GenState) (before : StoppingCriteria) : Type 0 where
    pub accepted : ℕ
    pub accepted_le : accepted ≤ draft_size
    pub grown : g.all_tokens ≡ all ++ greedy (next_token target_model) (suc accepted) all
    pub in_sync : InSync g
    pub criteria :
        g.stopping_criteria ≡ (stop_now has_stop_string (g.all_tokens ∷ []) (suc accepted) before).0
    pub going :
        g.unfinished
        ≡ not (any (stop_now has_stop_string (g.all_tokens ∷ []) (suc accepted) before).1)

  pub trimmed :
      (all ys : List ℕ) (k : ℕ)
      → length ys ≡ draft_size
      → k ≤ draft_size
      → trim_target setup (draft_size - k) (numbered 0 (all ++ ys)) (length (all ++ ys))
        ≡ ok (numbered 0 (all ++ take k ys), length (all ++ take k ys))
  trimmed all ys k len le =
      let split : (all ++ take k ys) ++ drop k ys ≡ all ++ ys =
        append_assoc all (take k ys) (drop k ys) ∙ ap (λ l. all ++ l) (take-append-drop k ys) in
      subst
        (λ l.
          trim_target setup (draft_size - k) (numbered 0 l) (length l)
          ≡ ok (numbered 0 (all ++ take k ys), length (all ++ take k ys)))
        split
        (trim_target_lem (all ++ take k ys) (drop k ys) (draft_size - k)
          (omega (arith, length-drop k ys)))

  target_forward_lem :
      (done ts : List ℕ)
      → target_forward setup ts (numbered 0 done) (length done) ≡ (
        logits_behind (numbered 0 done) (numbered (length done) ts),
        numbered 0 (done ++ ts),
        length (done ++ ts),
      )
  unfolding target_forward
  target_forward_lem done ts =
      rw (zip-compute_positions ts (length done), numbered-extend done ts, length-append done ts)
        refl

  target_input_lem :
      (before : List ℕ) (t : ℕ) (input ys : List ℕ)
      → input ≡ before ++ t ∷ []
      → length ys ≡ draft_size
      → last_n (1 + draft_size) (input ++ ys) ≡ t ∷ ys
  target_input_lem before t input ys e h =
      rw (e, append_assoc before (t ∷ []) ys)
        (last_n-append (1 + draft_size) before (t ∷ ys) (omega arith) (omega arith))

  module _ (numerics : Numerics) (sampler : Sampler) (fast : sampler.greedy_fast_path ≡ true)
      (no_nan : (l : Logits) → numerics.has_nan l ≡ false) where
    no_nan_in : (rows : List Logits) → nan_in numerics.has_nan rows ≡ false
    no_nan_in [] = refl
    no_nan_in (l ∷ rows) = rw (no_nan l, no_nan_in rows) refl

    -- The fast path takes the target's tokens.
    sample_candidates_lem :
        (all_tokens tokens ys : List ℕ)
        → sample_candidates setup numerics sampler all_tokens (candidates tokens ys)
          ≡ ok (sampled_from (next_token target_model) tokens ys)
    unfolding sample_candidates
    sample_candidates_lem all_tokens tokens ys =
        rw (no_nan_in (candidates tokens ys), fast) (ap ok (map-candidates target_model tokens ys))

    sample-Extends :
        (logits : List Logits) (seen input : List ℕ) (d : DraftState) (spec : List ℕ)
        (c : StoppingCriteria)
        → 0 < draft_size
        → (p : Proposes setup seen input d spec)
        → last_rows (draft_size + 1) logits ≡ candidates (seen ++ input) p.proposal
        → (g : GenState) × (sample_and_postprocess setup numerics sampler
              (
                logits,
                numbered 0 ((seen ++ input) ++ p.proposal),
                length ((seen ++ input) ++ p.proposal),
              )
              (input ++ p.proposal)
              d
              c
              (seen ++ input)
            ≡ ok g)
          × Extends (seen ++ input) g c
    unfolding sample_and_postprocess verify
    sample-Extends logits seen input d spec c pos p e =
        let f = next_token target_model in
        let all = seen ++ input in
        let (out, verified, a) =
          accept_proposal-Accepts f draft_size input p.proposal (seen ++ input) pos
            p.length-proposal in
        let (d', cleaned, drafted) = clean_draft_lem setup seen input d spec out p in
        let len = length-greedy f (suc a.accepted) (seen ++ input) in
        rw
          (
            e,
            sample_candidates_lem all all p.proposal,
            verified,
            cleaned,
            a.trim,
            trimmed (seen ++ input) p.proposal a.accepted p.length-proposal a.accepted_le,
            a.proposed,
            a.tokens,
            len,
          )
          (
            _,
            refl,
            record {
              accepted = a.accepted;
              accepted_le = a.accepted_le;
              grown = refl;
              in_sync = record {
                done = all ++ greedy f a.accepted all;
                last = f (all ++ greedy f a.accepted all);
                tokens =
                    ap (λ l. all ++ l) (greedy-snoc f a.accepted all)
                    ∙ sym (append_assoc all (greedy f a.accepted all) _);
                cached = refl;
                counted = refl;
                seen = all;
                before = greedy f a.accepted all;
                input = greedy-snoc f a.accepted all;
                split = refl;
                drafted = drafted;
              };
              criteria = refl;
              going = refl;
            },
          )

    all_rows :
        (tokens ys : List ℕ)
        → length ys ≡ draft_size
        → last_rows (draft_size + 1) (candidates tokens ys) ≡ candidates tokens ys
    all_rows tokens ys h =
        last_rows-append (draft_size + 1) [] (candidates tokens ys)
          (omega (arith, length-candidates tokens ys))

    -- With a sampler on the fast path, logits without NaN and 1 to 33 speculative tokens, a pass of the
    -- decode loop from a state in step with its tokens does not raise, adds greedy decoding's tokens, and
    -- leaves such a state.
    pub decode_step-Extends :
        (g : GenState)
        → 0 < draft_size
        → draft_size ≤ pard_list_len + 1
        → InSync g
        → (g' : GenState) × (decode_step setup numerics sampler g ≡ ok g')
          × Extends g.all_tokens g' g.stopping_criteria
    unfolding decode_step
    decode_step-Extends g pos fits s =
        let some_input : 0 < length g.model_input =
          omega (arith, ap length s.input, length-append s.before (s.last ∷ [])) in
        let p =
          speculate-Proposes setup s.seen g.model_input g.draft pos fits some_input s.drafted in
        let same : s.done ++ s.last ∷ p.proposal ≡ (s.seen ++ g.model_input) ++ p.proposal =
          sym (append_assoc s.done (s.last ∷ []) p.proposal)
          ∙ ap (λ l. l ++ p.proposal) (sym s.tokens ∙ s.split) in
        let logits =
          logits_behind (numbered 0 s.done) (numbered (length s.done) (s.last ∷ p.proposal)) in
        let sampled : last_rows (draft_size + 1) logits
            ≡ candidates (s.seen ++ g.model_input) p.proposal =
          ap (last_rows (draft_size + 1)) (logits_behind-candidates s.done s.last p.proposal)
          ∙ all_rows (s.done ++ s.last ∷ []) p.proposal p.length-proposal
          ∙ ap (λ l. candidates l p.proposal) (sym s.tokens ∙ s.split) in
        rw
          (
            p.extended,
            target_input_lem s.before s.last g.model_input p.proposal s.input p.length-proposal,
            s.cached,
            s.counted,
            target_forward_lem s.done (s.last ∷ p.proposal),
            same,
            s.split,
          )
          (sample-Extends logits s.seen g.model_input _ _ g.stopping_criteria pos p sampled)

    -- The logits of the first pass, of which only those behind the prompt count.
    first_rows :
        (before : List ℕ) (t : ℕ) (prompt ys : List ℕ)
        → prompt ≡ before ++ t ∷ []
        → length ys ≡ draft_size
        → last_rows (draft_size + 1) (logits_behind [] (numbered 0 (prompt ++ ys)))
          ≡ candidates prompt ys
    first_rows before t prompt ys e h =
        rw
          (
            e,
            append_assoc before (t ∷ []) ys,
            ← numbered-extend before (t ∷ ys),
            logits_behind-append (numbered 0 before) (numbered (length before) (t ∷ ys)) [],
            logits_behind-candidates before t ys,
          )
          (last_rows-append (draft_size + 1) _ _
            (omega (arith, length-candidates (before ++ t ∷ []) ys)))

    -- Neither does the pass over the prompt.
    pub prefill-Extends :
        (prompt : List ℕ) (d : DraftState) (c : StoppingCriteria)
        → 0 < draft_size
        → draft_size ≤ pard_list_len + 1
        → 0 < length prompt
        → Drafted setup [] d
        → (g : GenState) × (prefill setup numerics sampler prompt d c ≡ ok g) × Extends prompt g c
    unfolding prefill
    prefill-Extends prompt d c pos fits some_input drafted =
        let (before, t, e) = snoc-cases prompt some_input in
        let p = speculate-Proposes setup [] prompt d pos fits some_input drafted in
        let logits = logits_behind [] (numbered 0 (prompt ++ p.proposal)) in
        rw (p.extended, target_forward_lem [] (prompt ++ p.proposal))
          (sample-Extends logits [] prompt _ _ c pos p
            (first_rows before t prompt p.proposal e p.length-proposal))
