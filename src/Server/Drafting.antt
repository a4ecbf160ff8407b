-- ===== src/Server/Drafting.antt =====
-- Phases 1 and 2 of _speculative_decode for a sequence that is ready.
use amd_pace.Decoding.Generator.{logits_behind}
use amd_pace.Common.{
  ℕ, suc, ◌+◌, ◌-◌, ◌≡◌, ◌≤◌, ◌<◌, refl, ap, sym, ◌∙◌, List, [], ◌∷◌, ◌++◌, arith, length, drop, ok,
  leb-eq-true, length-append, append_assoc, drop-append,
}
use amd_pace.Decoding.Speculative.{last_n-append, pard_list_len, compute_positions}
use amd_pace.Decoding.Speculative.Greedy.{sampled_from}
use amd_pace.Decoding.Generator.{Entry, DraftState, zip, argmaxes, speculate}
use amd_pace.Decoding.Generator.Entries.{
  numbered, zip-compute_positions, numbered-extend, argmaxes-sampled_from, next_token,
  length-numbered, candidates, logits_behind-candidates,
}
use amd_pace.Decoding.Generator.Drafts.{Proposes, speculate-Proposes}
use amd_pace.Server.Sequences.{Engine, Sequence, positions_of}
use amd_pace.Server.Steps.{forward, count_computed}
use amd_pace.Server.Ready.{Ready, DraftReady}
use amd_pace.Server.Speculation.{draft_context, draft_step, propose, set_draft, argmax_all}
use amd_pace.Server.Proposals.{Pending}

append_cancel : (xs ys zs : List ℕ) → xs ++ ys ≡ xs ++ zs → ys ≡ zs
append_cancel xs ys zs e = sym (drop-append xs ys) ∙ ap (drop (length xs)) e ∙ drop-append xs zs

draft_context_lem :
    (seen input : List ℕ) → 0 < length input → draft_context (seen ++ input) (length seen) ≡ input
unfolding draft_context
draft_context_lem seen input pos =
    let e : length (seen ++ input) - length seen ≡ length input =
      omega (arith, length-append seen input) in
    rw
      (
        leb-eq-true (length seen) (length (seen ++ input))
            (omega (arith, length-append seen input)),
        e,
      )
      (last_n-append (length input) seen input pos refl)

length-logits_behind : (cached es : List Entry) → length (logits_behind cached es) ≡ length es
unfolding logits_behind
length-logits_behind cached [] = refl
length-logits_behind cached (e ∷ es) = ap suc (length-logits_behind (cached ++ e ∷ []) es)

module _ (engine : Engine) where
  open engine use {models, has_spec_decoder, has_nan, draw}
  open models use {target_model, draft_size}

  pub record Proposed (s : Sequence) : Type 0 where
    pub proposal : List ℕ
    pub length-proposal : length proposal ≡ draft_size
    pub state : DraftState
    pub seen : List ℕ
    pub input : List ℕ
    pub split : s.tokens ≡ seen ++ input
    pub proposes : Proposes models seen input state (input ++ proposal)
    pub result : propose engine s ≡ (set_draft state s, ok proposal)

  pub propose-Proposed :
      (s : Sequence)
      → 0 < draft_size
      → draft_size ≤ pard_list_len + 1
      → DraftReady engine s
      → Proposed s
  unfolding propose draft_step speculate
  propose-Proposed s pos fits d =
      let p = speculate-Proposes models d.seen d.input d.state pos fits d.some_input d.drafted in
      let spec = draft_step engine d.input d.state in
      let same : spec.1 ≡ p.proposal = append_cancel d.input spec.1 p.proposal p.extended in
      record {
        proposal = spec.1;
        length-proposal = ap length same ∙ p.length-proposal;
        state = spec.0;
        seen = d.seen;
        input = d.input;
        split = d.split;
        proposes = p;
        result =
            let context : draft_context s.tokens d.state.num_computed ≡ d.input =
              ap (λ n. draft_context s.tokens n) d.drafted.draft_counted
              ∙ ap (λ l. draft_context l (length d.seen)) d.split
              ∙ draft_context_lem d.seen d.input d.some_input in
            rw (d.made, context) refl;
      }

  argmax_all_lem :
      (cached es : List Entry)
      → argmax_all engine (logits_behind cached es) ≡ argmaxes target_model cached es
  unfolding logits_behind argmaxes
  argmax_all_lem cached [] = refl
  argmax_all_lem cached (e ∷ es) =
      ap (λ l. target_model (cached ++ e ∷ []) ∷ l) (argmax_all_lem (cached ++ e ∷ []) es)

  -- The target's pass over the last token and the proposal.
  pub forward-Pending :
      (s : Sequence) (r : Ready engine s) (p : Proposed s)
      → let input = r.last ∷ p.proposal in
        let (s', logits) = forward input input (set_draft p.state s) in
        Pending engine (count_computed (length input) s') p.proposal
        × (argmax_all engine logits ≡ sampled_from (next_token target_model) s.tokens p.proposal)
        × (length logits ≡ suc draft_size)
        × (logits ≡ candidates s.tokens p.proposal)
  unfolding forward positions_of
  forward-Pending s r p =
      let input = r.last ∷ p.proposal in
      let ys = p.proposal in
      let entries : zip input (compute_positions (length input) s.num_computed_tokens)
          ≡ numbered (length r.done) input =
        ap (λ n. zip input (compute_positions (length input) n)) r.counted
        ∙ zip-compute_positions input (length r.done) in
      let behind : r.done ++ input ≡ s.tokens ++ ys =
        sym (append_assoc r.done (r.last ∷ []) ys) ∙ ap (λ l. l ++ ys) (sym r.tokens) in
      let rows : logits_behind s.kv_cache
            (zip input (compute_positions (length input) s.num_computed_tokens))
          ≡ logits_behind (numbered 0 r.done) (numbered (length r.done) input) =
        ap (logits_behind s.kv_cache) entries
        ∙ ap (λ c. logits_behind c (numbered (length r.done) input)) r.cached in
      (
        record {
          length-proposal = p.length-proposal;
          cached =
              ap (λ es. s.kv_cache ++ es) entries
              ∙ ap (λ c. c ++ numbered (length r.done) input) r.cached
              ∙ numbered-extend r.done input
              ∙ ap (numbered 0) behind;
          counted = omega (arith, r.counted, ap length behind, length-append r.done input);
          limited = r.limited;
          room = r.room;
          state = p.state;
          made = refl;
          seen = p.seen;
          input = p.input;
          split = p.split;
          proposes = p.proposes;
        },
        ap (argmax_all engine) rows
            ∙ argmax_all_lem (numbered 0 r.done) (numbered (length r.done) input)
            ∙ argmaxes-sampled_from target_model r.done r.last ys
            ∙ ap (λ l. sampled_from (next_token target_model) l ys) (sym r.tokens),
        ap length rows
            ∙ length-logits_behind (numbered 0 r.done) (numbered (length r.done) input)
            ∙ length-numbered (length r.done) input
            ∙ ap suc p.length-proposal,
        rows ∙ logits_behind-candidates r.done r.last ys ∙ ap (λ l. candidates l ys) (sym r.tokens),
      )
