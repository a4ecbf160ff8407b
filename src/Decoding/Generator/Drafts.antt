-- ===== src/Decoding/Generator/Drafts.antt =====
-- What a pass of the draft model does to its cache, and what `verify` takes back of it.
use amd_pace.Common.{
  ℕ, ◌+◌, ◌-◌, ◌≡◌, ◌≤◌, ◌<◌, refl, ap, sym, ◌∙◌, List, ◌++◌, arith, length, take, replicate,
  append_assoc, ok, length-take, length-append, length-replicate, leb-eq-true, [], ◌∷◌,
}
use amd_pace.Decoding.Speculative.{
  prepare_draft_input, VerificationOutput, pard_list_len, compute_positions, length-last_n,
}
use amd_pace.Decoding.Generator.{
  Entry, Setup, zip, DraftState, speculate, clean_draft, compute_positions, verify, remove_cache,
}
use amd_pace.Decoding.Speculative.Greedy.{Accepts, accept_proposal-Accepts, sampled_from}
use amd_pace.Decoding.Generator.Entries.{
  numbered, zip-compute_positions, length-numbered, remove_cache-append, length-argmaxes,
  numbered-extend,
}

module _ (setup : Setup) where
  open setup use {target_model, draft_model, pard_token, draft_size, has_stop_string}

  -- The draft model's cache and counter stand at the tokens `seen`.
  pub record Drafted (seen : List ℕ) (d : DraftState) : Type 0 where
    pub draft_cached : d.draft_cache ≡ numbered 0 seen
    pub draft_counted : d.num_computed ≡ length seen

  pub record Proposes (seen input : List ℕ) (d : DraftState) (extended_input : List ℕ)
      : Type 0 where
    pub proposal : List ℕ
    pub length-proposal : length proposal ≡ draft_size
    pub extended : extended_input ≡ input ++ proposal
    pub padding : List Entry
    pub length-padding : length padding ≡ draft_size - 1
    pub draft_cached : d.draft_cache ≡ numbered 0 (seen ++ input) ++ padding
    pub draft_counted : d.num_computed ≡ length (seen ++ input) + (draft_size - 1)

  -- The padding: the tokens, and the entries behind `n` others.
  pads : List ℕ
  pads = take (draft_size - 1) (replicate pard_list_len pard_token)

  length-pads : draft_size ≤ pard_list_len + 1 → length pads ≡ draft_size - 1
  unfolding pads
  length-pads fits = omega (
    arith,
    length-take (draft_size - 1) (replicate pard_list_len pard_token),
    length-replicate pard_list_len pard_token,
  )

  -- The entries of the draft model's pass.
  draft_entries :
      (seen input : List ℕ) (d : DraftState)
      → Drafted seen d
      → zip (input ++ pads) (compute_positions (length (input ++ pads)) d.num_computed)
        ≡ numbered (length seen) (input ++ pads)
  draft_entries seen input d drafted =
      zip-compute_positions (input ++ pads) d.num_computed
      ∙ ap (λ k. numbered k (input ++ pads)) drafted.draft_counted

  -- speculate proposes `draft_size` tokens, and leaves the padding in the draft model's cache.
  pub speculate-Proposes :
      (seen input : List ℕ) (d : DraftState)
      → 0 < draft_size
      → draft_size ≤ pard_list_len + 1
      → 0 < length input
      → Drafted seen d
      → Proposes seen input (speculate setup input d).0 (speculate setup input d).1
  unfolding speculate prepare_draft_input pads
  speculate-Proposes seen input d pos fits some_input drafted =
      let len : length (prepare_draft_input pard_token draft_size input)
          ≡ length input + length pads =
        length-append input pads in
      let pad_len = length-pads fits in
      rw (draft_entries seen input d drafted) (record {
        proposal = _;
        length-proposal = length-last_n draft_size _ pos (
            omega (
              arith,
              length-argmaxes draft_model (numbered (length seen) (input ++ pads)) d.draft_cache,
              length-numbered (length seen) (input ++ pads),
            ));
        extended = refl;
        padding = numbered (length (seen ++ input)) pads;
        length-padding = length-numbered (length (seen ++ input)) pads ∙ pad_len;
        draft_cached =
            ap (λ c. c ++ numbered (length seen) (input ++ pads)) drafted.draft_cached
            ∙ numbered-extend seen (input ++ pads)
            ∙ ap (numbered 0) (sym (append_assoc seen input pads))
            ∙ sym (numbered-extend (seen ++ input) pads);
        draft_counted = omega (arith, drafted.draft_counted, length-append seen input);
      })

  -- The entries of the draft model's cache without the padding.
  pub clean_draft_lem :
      (seen input : List ℕ) (d : DraftState) (extended_input : List ℕ) (out : VerificationOutput)
      → Proposes seen input d extended_input
      → (d' : DraftState) × (clean_draft setup out d ≡ ok d') × Drafted (seen ++ input) d'
  unfolding clean_draft
  clean_draft_lem seen input d extended_input out p =
      rw
        (
          p.draft_cached,
          p.draft_counted,
          remove_cache-append (numbered 0 (seen ++ input)) p.padding (draft_size - 1)
              p.length-padding,
        )
        (_, refl, record { draft_cached = refl; draft_counted = omega arith })

  -- Whatever the draft model proposes, `verify` does not raise on the samples that a function of the
  -- tokens makes of a proposal, if the draft's cache holds the padding, which is one token less than
  -- the proposal, and the counter counts it: it returns the part of the proposal that agrees with the
  -- samples and one more, with the trim that is the part that does not, and takes the padding back.
  pub verify-Accepts :
      (next : List ℕ → ℕ) (input ys context : List ℕ) (d : DraftState)
      → 0 < draft_size
      → length ys ≡ draft_size
      → draft_size - 1 ≤ length d.draft_cache
      → draft_size - 1 ≤ d.num_computed
      → (out : VerificationOutput) × (d' : DraftState) × (verify setup
            (sampled_from next context ys)
            (input ++ ys)
            d
          ≡ ok (out, d'))
        × Accepts next draft_size ys context out
        × (d'.draft_cache ≡ take (length d.draft_cache - (draft_size - 1)) d.draft_cache)
        × (d'.num_computed + (draft_size - 1) ≡ d.num_computed)
        × (d'.total_accepted ≡ d.total_accepted ++ length out.accepted_tokens ∷ [])
  unfolding verify clean_draft remove_cache
  verify-Accepts next input ys context d pos len held counted =
      let (out, done, a) = accept_proposal-Accepts next draft_size input ys context pos len in
      rw (done, leb-eq-true (draft_size - 1) (length d.draft_cache) held)
        (out, _, refl, a, refl, omega (arith, counted), refl)
