-- ===== src/Server/Batch.antt =====
-- The passes of _standard_decode over a queue of ready sequences: the input of the model, the sampled
-- tokens, and the loop behind them, each in terms of the sequences alone.
use amd_pace.Decoding.Sampler.{Logits}
use amd_pace.Kv.{Error, assertion}
use amd_pace.Common.{
  ℕ, ◌-◌, ◌≡◌, ◌≤◌, refl, ap, sym, ◌∙◌, Bool, true, false, Option, List, [], ◌∷◌, ◌++◌, Dict, arith,
  length, map, replicate, inl, inr, ok, err, Bool-cases, ◌⊎◌,
}
use amd_pace.Decoding.Speculative.{last_n, last_n-append}
use amd_pace.Decoding.Generator.Entries.{numbered}
use amd_pace.Server.Sequences.{Engine, Sequence, sample, last_logits}
use amd_pace.Server.Executor.{all_fast}
use amd_pace.Server.Steps.{
  forward_rows, batch_input_ids, left_padded, max_len, next_tokens_batch, sample_rows, argmax_rows,
  any_nan,
}
use amd_pace.Server.Queues.{shape, fast}
use amd_pace.Server.Ready.{Ready, AllReady, forward_last}
use amd_pace.Server.Conversations.{conversation, choose, IsClean}

-- The input of a batch: the last tokens.
abbrev pub inputs : Dict Sequence → List (List ℕ)
inputs queue = map (λ row. last_n 1 row.1.tokens) queue

abbrev pub caught : Dict Sequence → Dict Sequence
caught [] = []
caught ((id, s) ∷ queue) = (id, record s { kv_cache = numbered 0 s.tokens }) ∷ caught queue

abbrev pub whole_logits : Dict Sequence → List (List Logits)
whole_logits [] = []
whole_logits ((id, s) ∷ queue) = (numbered 0 s.tokens ∷ []) ∷ whole_logits queue

abbrev pub rows : Dict Sequence → List (Option Logits)
rows queue = map last_logits (whole_logits queue)

last_input : (engine : Engine) (s : Sequence) (r : Ready engine s) → last_n 1 s.tokens ≡ r.last ∷ []
last_input engine s r =
    ap (last_n 1) r.tokens ∙ last_n-append 1 r.done (r.last ∷ []) (omega arith) refl

no_padding : (m t : ℕ) → m ≤ 1 → left_padded 0 m (t ∷ []) ≡ t ∷ []
no_padding m t h = let e : m - 1 ≡ 0 = omega arith in ap (λ n. replicate n 0 ++ t ∷ []) e

module _ (engine : Engine) where
  open engine use {models, has_nan, draw}
  open models use {target_model, has_stop_string}

  short_inputs : (queue : Dict Sequence) → AllReady engine queue → max_len (inputs queue) ≤ 1
  short_inputs [] h = omega arith
  short_inputs ((id, s) ∷ queue) (r, h) =
      omega (arith, short_inputs queue h, ap length (last_input engine s r))

  padded_rows :
      (m : ℕ) (queue : Dict Sequence)
      → m ≤ 1
      → AllReady engine queue
      → forward_rows (map (left_padded 0 m) (inputs queue)) (inputs queue) queue
        ≡ (caught queue, whole_logits queue)
  padded_rows m [] le h = refl
  padded_rows m ((id, s) ∷ queue) le (r, h) =
      rw
        (
          last_input engine s r,
          no_padding m r.last le,
          forward_last engine s r,
          padded_rows m queue le h,
        )
        refl

  -- A batch's pass puts each sequence's last token into its cache, and its last logits are behind
  -- all of its tokens.
  pub forward_batch :
      (queue : Dict Sequence)
      → AllReady engine queue
      → forward_rows (batch_input_ids (inputs queue) 0) (inputs queue) queue
        ≡ (caught queue, whole_logits queue)
  unfolding batch_input_ids
  forward_batch queue h = padded_rows (max_len (inputs queue)) queue (short_inputs queue h) h

  -- The tokens that the conversations choose.
  abbrev pub choose_all : Dict Sequence → ℕ → List ℕ × ℕ
  choose_all [] rng = ([], rng)
  choose_all ((id, s) ∷ queue) rng =
      let (t, rng') = choose engine (conversation s) rng in
      let (ts, rng'') = choose_all queue rng' in (t ∷ ts, rng'')

  sample-choose :
      (s : Sequence) (rng : ℕ)
      → has_nan (numbered 0 s.tokens) ≡ false
      → sample engine s.sampler s.tokens (numbered 0 s.tokens) rng
        ≡ ((choose engine (conversation s) rng).1, ok (choose engine (conversation s) rng).0)
  unfolding sample
  sample-choose s rng h = elim (Bool-cases s.sampler.greedy_fast_path) [
    | inl e ↦ rw (h, e) refl
    | inr e ↦ rw (h, e) refl
  ]

  sample_rows-choose :
      (queue : Dict Sequence) (rng : ℕ)
      → IsClean engine queue
      → sample_rows engine (caught queue) (rows queue) rng
        ≡ ((choose_all queue rng).1, ok (choose_all queue rng).0)
  sample_rows-choose [] rng h = refl
  sample_rows-choose ((id, s) ∷ queue) rng (h, hs) =
      rw (sample-choose s rng h, sample_rows-choose queue (choose engine (conversation s) rng).1 hs)
        refl

  clean_rows : (queue : Dict Sequence) → IsClean engine queue → any_nan engine (rows queue) ≡ false
  clean_rows [] h = refl
  clean_rows ((id, s) ∷ queue) (h, hs) = rw (h, clean_rows queue hs) refl

  fast_rows :
      (queue : Dict Sequence) (rng : ℕ)
      → all_fast queue ≡ true
      → choose_all queue rng ≡ (argmax_rows engine (rows queue), rng)
  fast_rows [] rng h = refl
  fast_rows ((id, s) ∷ queue) rng h = elim (Bool-cases (fast s)) [
    | inl e ↦ rw (e, fast_rows queue rng (ground (arith, h, e))) refl
    | inr e ↦ absurd (ground (arith, h, e))
  ]

  -- Sampling of a batch, on the path that the flag takes.
  pub next_tokens-choose :
      (flag : Bool) (queue : Dict Sequence) (rng : ℕ)
      → flag ≡ all_fast queue
      → IsClean engine queue
      → next_tokens_batch engine flag (caught queue) (rows queue) rng
        ≡ ((choose_all queue rng).1, ok (choose_all queue rng).0)
  next_tokens-choose true queue rng h c = rw (clean_rows queue c, fast_rows queue rng (sym h)) refl
  next_tokens-choose false queue rng h c = sample_rows-choose queue rng c

  none_nan : (queue : Dict Sequence) → any_nan engine (rows queue) ≡ false → IsClean engine queue
  none_nan [] h = tt
  none_nan ((id, s) ∷ queue) h = elim (Bool-cases (has_nan (numbered 0 s.tokens))) [
    | inl e ↦ absurd (ground (arith, h, e))
    | inr e ↦ (e, none_nan queue (ground (arith, h, e)))
  ]

  sample_rows-nan :
      (queue : Dict Sequence) (rng : ℕ)
      → any_nan engine (rows queue) ≡ true
      → (rng' : ℕ) × (e : Error) × (sample_rows engine (caught queue) (rows queue) rng
          ≡ (rng', err e))
  sample_rows-nan [] rng h = absurd (ground (arith, h))
  sample_rows-nan ((id, s) ∷ queue) rng h = elim (Bool-cases (has_nan (numbered 0 s.tokens))) [
    | inl e ↦ (rng, assertion, unfold sample in rw e refl)
    | inr e ↦
        let (rng', x, r) =
          sample_rows-nan queue (choose engine (conversation s) rng).1 (ground (arith, h, e)) in
        (rng', x, rw (sample-choose s rng e, r) refl)
  ]

  -- Either no logits hold a NaN, or sampling raises.
  pub nan-cases :
      (flag : Bool) (queue : Dict Sequence) (rng : ℕ)
      → IsClean engine queue
        ⊎ ((rng' : ℕ) × (e : Error) × (next_tokens_batch engine flag (caught queue) (rows queue) rng
              ≡ (rng', err e)))
  nan-cases flag queue rng = elim (Bool-cases (any_nan engine (rows queue))) [
    | inr h ↦ inl (none_nan queue h)
    | inl h ↦ inr (raised flag h)
  ]
    where
      raised :
          (flag : Bool)
          → any_nan engine (rows queue) ≡ true
          → (rng' : ℕ) × (e : Error) × (next_tokens_batch engine flag
                (caught queue)
                (rows queue)
                rng
              ≡ (rng', err e))
      raised true h = (rng, assertion, rw h refl)
      raised false h = sample_rows-nan queue rng h

pub shape-caught : (queue : Dict Sequence) → shape (caught queue) ≡ shape queue
shape-caught [] = refl
shape-caught ((id, s) ∷ queue) = ap (λ l. (id, fast s) ∷ l) (shape-caught queue)
