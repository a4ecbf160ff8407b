-- ===== src/Config/Prepared.antt =====
-- What the config of a prompt is when Generator has prepared it (pace/llm/configs.py, pace/llm/generator.py).
use amd_pace.Common.{
  ℕ, ◌+◌, ◌-◌, ◌≡◌, ◌≤◌, max, refl, ap, ◌∙◌, Bool, true, false, not, ◌&&◌, ◌||◌, Option, some, List,
  [], ◌∷◌, ltb, if◌then◌else◌, arith, inl, inr, ◌⊎◌, Bool-cases, or-false, ok, err, Action, ◌>>◌,
  or-true, ltb→lt, dec_lt,
}
use amd_pace.Config.Sampling.{
  Floats, Failure, assertion_error, greedy_search, random_sampling, one_id, Config, or_default,
  Tokenizer, merge_config,
}
use amd_pace.Config.Checks.{
  verify_max_new_tokens, override_zero_temperature, is_given, pad_id, check_all, number_checks,
  put_tokens, verify_sampling_config, set_sampling_method, finalize, prepare_sampling_config,
}

module _ (N : Floats) where
  abbrev pub all_hold : List (Config N.Float → Bool) → Config N.Float → Bool
  all_hold [] c = true
  all_hold (p ∷ ps) c = p c && all_hold ps c

  check_all-eq :
      (ps : List (Config N.Float → Bool)) (c : Config N.Float)
      → check_all N ps c ≡ (c, if all_hold ps c then ok tt else err assertion_error)
  check_all-eq [] c = refl
  check_all-eq (p ∷ ps) c = elim (Bool-cases (p c)) [
    | inl e ↦ rw e (check_all-eq ps c)
    | inr e ↦ rw e refl
  ]

  abbrev pub verified : Config N.Float → ℕ → Config N.Float
  verified c pad = record (override_zero_temperature N c) { pad_token_id = some (one_id pad) }

  put_tokens-eq :
      (c : Config N.Float) (pad : ℕ)
      → is_given N c.eos_token_id ≡ true
      → pad_id N c.pad_token_id c.eos_token_id ≡ some pad
      → put_tokens N (override_zero_temperature N c) ≡ (verified c pad, ok tt)
  put_tokens-eq c pad h k = elim (Bool-cases (N.below c.temperature N.sampling_eps)) [
    | inl e ↦ rw (e, h, k) refl
    | inr e ↦ rw (e, h, k) refl
  ]

  goes_on :
      (m k : Action (Config N.Float) Failure Unit) (c d : Config N.Float)
      → m c ≡ (d, ok tt)
      → (m >> k) c ≡ k d
  goes_on m k c d h = rw h refl

  -- What finalize demands: the numbers pass their tests, the end tokens are given, and the padding
  -- token can be chosen.
  abbrev pub Acceptable : Config N.Float → ℕ → Type 0
  Acceptable c pad =
      (all_hold (number_checks N) c ≡ true)
      × (is_given N c.eos_token_id ≡ true)
      × (pad_id N c.pad_token_id c.eos_token_id ≡ some pad)

  verify-eq :
      (c : Config N.Float) (pad : ℕ)
      → Acceptable c pad
      → verify_sampling_config N c ≡ (verified c pad, ok tt)
  verify-eq c pad (a, h, k) =
      goes_on (check_all N (number_checks N)) (λ c. put_tokens N (override_zero_temperature N c)) c
        c
        (check_all-eq (number_checks N) c
          ∙ ap (λ b. (c, if b then ok tt else err assertion_error)) a)
      ∙ put_tokens-eq c pad h k

  -- Are the samples drawn greedily?
  abbrev pub wants_greedy : Config N.Float → Bool
  wants_greedy c =
      (not c.do_sample || N.below c.temperature N.sampling_eps)
      || N.equals c.temperature N.zero_float

  -- What a finalized config is, behind the tokens' limit.
  abbrev pub Ready : ℕ → ℕ → Config N.Float → ℕ → Config N.Float → Type 0
  Ready initial_length max_position m pad r =
      ((n : ℕ) × (r.max_new_tokens ≡ some n)
        × (1 ≤ n)
        × (n ≤ or_default m.max_new_tokens 20)
        × ((initial_length + n ≤ max_position) ⊎ (n ≡ 1)))
      × (r.finalized ≡ true)
      × (r.pad_token_id ≡ some (one_id pad))
      × (r.sampling_mode ≡ some (if wants_greedy m then greedy_search else random_sampling))
      × (N.below r.temperature N.sampling_eps ≡ false)

  mode-override :
      (c : Config N.Float) (pad : ℕ)
      → (set_sampling_method N (verified c pad)).sampling_mode
        ≡ some (if wants_greedy c then greedy_search else random_sampling)
  mode-override c pad = elim (Bool-cases (N.below c.temperature N.sampling_eps)) [
    | inl e ↦ rw (e, or-true (not c.do_sample)) refl
    | inr e ↦ rw (e, or-false (not c.do_sample)) refl
  ]

  temperature-override :
      (c : Config N.Float)
      → N.below N.one_float N.sampling_eps ≡ false
      → N.below (override_zero_temperature N c).temperature N.sampling_eps ≡ false
  temperature-override c one = elim (Bool-cases (N.below c.temperature N.sampling_eps)) [
    | inl e ↦ rw e one
    | inr e ↦ rw e e
  ]

  limit-override :
      (c : Config N.Float) → (override_zero_temperature N c).max_new_tokens ≡ c.max_new_tokens
  limit-override c = elim (Bool-cases (N.below c.temperature N.sampling_eps)) [
    | inl e ↦ rw e refl
    | inr e ↦ rw e refl
  ]

  limit_tokens :
      (l p n : ℕ)
      → 1 ≤ n
      → let k = if ltb p (l + n) then max 1 (p - l) else n in
        (1 ≤ k) × (k ≤ n) × ((l + k ≤ p) ⊎ (k ≡ 1))
  limit_tokens l p n h = elim (Bool-cases (ltb p (l + n))) [
    | inl e ↦
        let lt = ltb→lt p (l + n) e in
        rw e (
          omega arith,
          omega (arith, h, lt),
          elim (dec_lt l p) [
            | yes below ↦ inl (omega (arith, below))
            | no full ↦ inr (omega (arith, full))
          ],
        )
    | inr e ↦ rw e (h, omega arith, inl (ground (arith, e)))
  ]

  abbrev sealed : Config N.Float → Config N.Float
  sealed c = record (set_sampling_method N c) { finalized = true }

  finalize-eq :
      (c : Config N.Float) (pad : ℕ)
      → Acceptable c pad
      → finalize N c ≡ (sealed (verified c pad), ok tt)
  unfolding finalize
  finalize-eq c pad a = rw (verify-eq c pad a) refl

  -- If 1.0 is not below the source's epsilon, a config that is not finalized yet, whose limit is at
  -- least one (20 if none is given), whose other numbers are in range, whose end tokens are given
  -- and whose padding token can be chosen is finalized without raising: the limit of the tokens is
  -- at least one, at most the given one, and fits behind the prompt unless it is one; sampling is
  -- greedy exactly if it was not asked for or the temperature is zero or below epsilon; and the
  -- temperature that divides the logits is not below epsilon.
  pub prepare_sampling_config-Ready :
      (user : Option (Config N.Float)) (tokenizer : Option Tokenizer)
      (initial_length max_position : ℕ) (c : Config N.Float) (pad : ℕ)
      → N.below N.one_float N.sampling_eps ≡ false
      → 1 ≤ or_default (merge_config user tokenizer c).max_new_tokens 20
      → Acceptable
          (verify_max_new_tokens N initial_length max_position (merge_config user tokenizer c))
          pad
      → ((prepare_sampling_config N user tokenizer initial_length max_position c).1 ≡ ok tt)
        × Ready initial_length max_position
            (merge_config user tokenizer c)
            pad
            (prepare_sampling_config N user tokenizer initial_length max_position c).0
  unfolding verify_max_new_tokens
  prepare_sampling_config-Ready user tokenizer initial_length max_position c pad one n a =
      let m = merge_config user tokenizer c in
      let v = verify_max_new_tokens N initial_length max_position m in
      let done = finalize-eq v pad a in
      let (low, high, fits) =
        limit_tokens initial_length max_position (or_default m.max_new_tokens 20) n in
      rw done (
        refl,
        (
          (_, limit-override v, low, high, fits),
          refl,
          refl,
          mode-override v pad,
          temperature-override v one,
        ),
      )
