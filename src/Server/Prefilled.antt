-- ===== src/Server/Prefilled.antt =====
-- What prefill leaves of its sequence: one that is ready for decoding, unless it stops or the call
-- raises.
use amd_pace.Decoding.Sampler.{Logits, is_greedy}
use amd_pace.Common.{
  ℕ, ◌≡◌, ◌<◌, refl, Bool, true, false, Option, none, some, [], ◌∷◌, ◌++◌, arith, length, ok, err,
  inl, inr, ◌⊎◌, Bool-cases, Result-cases, ltb-eq-false, dec_lt, ◌≤◌,
}
use amd_pace.Kv.{Error, bad_tensor, assertion}
use amd_pace.Decoding.Stopping.{any}
use amd_pace.Decoding.Stopping.Laws.{Limit, stop_now-keeps}
use amd_pace.Decoding.Generator.{DraftState}
use amd_pace.Decoding.Generator.Entries.{numbered, zip-compute_positions}
use amd_pace.Decoding.Generator.Drafts.{Drafted}
use amd_pace.Server.Sequences.{Engine, Sequence, sample, append_token, stops}
use amd_pace.Server.Steps.{sample_first, sample_last, prefill_draft, draft_prefilled}
use amd_pace.Server.Ready.{Ready, append_token_ok, judged, longer, going}

append_token_full :
    (t : ℕ) (s : Sequence) → s.capacity ≤ length s.tokens → append_token t s ≡ (s, err assertion)
unfolding append_token
append_token_full t s le = rw (ltb-eq-false (length s.tokens) s.capacity le) refl

module _ (engine : Engine) where
  open engine use {models, has_spec_decoder}

  -- The prompt has been through the model, and through the draft model if `b`.
  pub record Filled (b : Bool) (s : Sequence) : Type 0 where
    pub cached : s.kv_cache ≡ numbered 0 s.tokens
    pub counted : s.num_computed_tokens ≡ length s.tokens
    pub limited : Limit s.capacity s.stopping_criteria
    pub draft_filled : b ≡ true → (d : DraftState) × (s.draft ≡ some d) × Drafted models s.tokens d

  draft_cases :
      (b : Bool) (failure : Option (Error × Option DraftState)) (s : Sequence) (rng : ℕ)
      → Filled false s
      → ((e : Error) × (out : Sequence × ℕ) × (prefill_draft engine b failure (s, rng)
            ≡ (out, err e)))
        ⊎ ((s0 : Sequence) × (prefill_draft engine b failure (s, rng) ≡ ((s0, rng), ok tt))
            × Filled b s0)
  unfolding draft_prefilled
  draft_cases false failure s rng f = inr (s, refl, f)
  draft_cases true (some (e, left)) s rng f =
      elim (Bool-cases (is_greedy s.sampler.params.sampling_mode)) [
        | inr h ↦ inl (assertion, (s, rng), rw h refl)
        | inl h ↦ inl (e, (record s { draft = left }, rng), rw h refl)
      ]
  draft_cases true none s rng f = elim (Bool-cases (is_greedy s.sampler.params.sampling_mode)) [
    | inr e ↦ inl (assertion, (s, rng), rw e refl)
    | inl e ↦ inr (
      draft_prefilled s,
      rw e refl,
      record {
        cached = f.cached;
        counted = f.counted;
        limited = f.limited;
        draft_filled = λ _. (
          _,
          refl,
          record { draft_cached = zip-compute_positions s.tokens 0; draft_counted = refl },
        );
      },
    )
  ]

  -- The sequence with the sampled token behind it.
  abbrev pub ended : ℕ → Sequence → Sequence
  ended t s = record (longer engine t s) {
    stopping_criteria = (judged engine (longer engine t s)).0;
  }

  sample_cases :
      (s : Sequence) (rng : ℕ) (logits : Option Logits)
      → ((e : Error) × (out : Sequence × ℕ) × (sample_last engine logits (s, rng) ≡ (out, err e)))
        ⊎ ((t : ℕ) × (rng' : ℕ) × (length s.tokens < s.capacity)
            × (sample_last engine logits (s, rng)
                ≡ ((ended t s, rng'), ok (t, any (judged engine (longer engine t s)).1))))
  unfolding sample_last stops
  sample_cases s rng none = inl (bad_tensor, _, refl)
  sample_cases s rng (some l) = elim (Result-cases (sample engine s.sampler s.tokens l rng).1) [
    | inr (e, h) ↦ inl (e, (s, (sample engine s.sampler s.tokens l rng).0), rw h refl)
    | inl (t, h) ↦ elim (dec_lt (length s.tokens) s.capacity) [
      | yes lt ↦
          inr
            (t, (sample engine s.sampler s.tokens l rng).0, lt, rw (h, append_token_ok t s lt) refl)
      | no ge ↦ inl (
        assertion,
        (s, (sample engine s.sampler s.tokens l rng).0),
        rw (h, append_token_full t s (omega arith)) refl,
      )
    ]
  ]

  ended-Ready :
      (t : ℕ) (s : Sequence)
      → Filled has_spec_decoder s
      → any (judged engine (longer engine t s)).1 ≡ false
      → Ready engine (ended t s)
  ended-Ready t s f e = record {
    done = s.tokens;
    last = t;
    tokens = refl;
    cached = f.cached;
    counted = f.counted;
    limited =
        stop_now-keeps _ s.capacity 1 ((s.tokens ++ t ∷ []) ∷ []) s.stopping_criteria f.limited;
    room = going engine (longer engine t s) f.limited e;
    draft_ready = λ h.
        let (d, made, drafted) = f.draft_filled h in
        record {
          state = d;
          made = made;
          seen = s.tokens;
          input = t ∷ [];
          some_input = omega arith;
          split = refl;
          drafted = drafted;
        };
  }

  -- A sequence that has been through the models gets a token, and is ready unless that stops it; or
  -- the call raises.
  pub sample_first-Ready :
      (failure : Option (Error × Option DraftState)) (s : Sequence) (rng : ℕ)
      (logits : Option Logits)
      → Filled false s
      → ((e : Error) × (out : Sequence × ℕ) × (sample_first engine failure logits (s, rng)
            ≡ (out, err e)))
        ⊎ ((t : ℕ) × (s' : Sequence) × (rng' : ℕ) × (done : Bool) × (sample_first engine failure
                logits
                (s, rng)
              ≡ ((s', rng'), ok (t, done)))
            × (done ≡ false → Ready engine s'))
  unfolding sample_first
  sample_first-Ready failure s rng logits f = elim (draft_cases has_spec_decoder failure s rng f) [
    | inl (e, out, h) ↦ inl (e, out, rw h refl)
    | inr (s0, h, f0) ↦ elim (sample_cases s0 rng logits) [
      | inl (e, out, h') ↦ inl (e, out, rw h h')
      | inr (t, rng', lt, h') ↦ inr (t, ended t s0, rng', _, rw h h', ended-Ready t s0 f0)
    ]
  ]
