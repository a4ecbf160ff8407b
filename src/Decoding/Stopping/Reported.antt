-- ===== src/Decoding/Stopping/Reported.antt =====
-- The reason that StoppingCriteria records.
use amd_pace.Common.{
  ℕ, ◌+◌, ◌≡◌, ◌≤◌, refl, ap, ◌∙◌, Bool, true, false, ◌||◌, Option, none, some, List, [], ◌∷◌, ◌++◌,
  leb, if◌then◌else◌, map, String, ok, arith, ok-injective, ltb-eq-false, length, ◌&&◌, if-same,
  not, and-false,
}
use amd_pace.Decoding.Stopping.{
  Reason, stop, length_reached, stop_if_eos_token, SamplingConfig, StoppingCriteria, or_zero,
  max_len_conditions, eos_conditions, string_conditions, init, any, or_rows, condition,
  check_conditions, check_strings, check_for_conditions, stop_now, is_length,
}
use amd_pace.Decoding.Stopping.Laws.{reached, strings_seen, init-Built}

any-false : (rows : List (List ℕ)) → any (map (λ r. false) rows) ≡ false
any-false [] = refl
any-false (row ∷ rows) = any-false rows

reached_first :
    (b : Bool) (rows : List (List ℕ))
    → (if (b || any (map (λ r. b) rows)) && not (any (map (λ r. false) rows))
        then length_reached
        else stop)
      ≡ (if b then length_reached else stop)
reached_first true rows = rw (any-false rows) refl
reached_first false rows = rw (any-false rows) refl

reached_then :
    (b x : Bool) (rows : List (List ℕ))
    → (if x && not (b || any (or_rows (map (λ r. false) rows) (map (λ r. b) rows)))
        then stop
        else (if (b || any (map (λ r. b) rows)) && not (any (map (λ r. false) rows))
            then length_reached
            else stop))
      ≡ (if b then length_reached else stop)
reached_then true x rows = rw (any-false rows, and-false x) refl
reached_then false x rows = rw (any-false rows) (if-same _ stop)

-- The reason that the PACE conditions leave: the length, if it is reached.
conditions_reason :
    (m : Option ℕ) (p : ℕ) (ignore : Bool) (eos : Option (List ℕ)) (row : List ℕ)
    (rows : List (List ℕ)) (n : ℕ)
    → (check_conditions
        (max_len_conditions m p ++ eos_conditions ignore eos)
        (row ∷ rows)
        n
        (map (λ r. false) (row ∷ rows), stop)).1
      ≡ (if reached m p (length row) then length_reached else stop)
unfolding check_conditions condition
conditions_reason none p true eos row rows n = refl
conditions_reason none p false none row rows n = refl
conditions_reason none p false (some ids) row rows n = if-same _ stop
conditions_reason (some m) p true eos row rows n = reached_first (leb (m + p) (length row)) rows
conditions_reason (some m) p false none row rows n = reached_first (leb (m + p) (length row)) rows
conditions_reason (some m) p false (some ids) row rows n =
    reached_then (leb (m + p) (length row)) (any (condition (stop_if_eos_token ids) (row ∷ rows) n))
      rows

reasons-agree :
    (b x : Bool)
    → (if x && is_length (if b then length_reached else stop)
        then stop
        else (if b then length_reached else stop))
      ≡ (if b && not x then length_reached else stop)
reasons-agree true true = refl
reasons-agree true false = refl
reasons-agree false true = refl
reasons-agree false false = refl

module _ (has : List String → List ℕ → Bool) where
  strings_reason :
      (tokenizer : Bool) (ss : Option (List String)) (hf : List (List String))
      (logits : List (List ℕ)) (d : List Bool) (r : Reason)
      → string_conditions tokenizer ss ≡ ok hf
      → (check_strings has hf logits (d, r)).1
        ≡ (if any (map (strings_seen has ss) logits) && is_length r then stop else r)
  unfolding check_strings
  strings_reason tokenizer none hf logits d r h = rw (← ok-injective [] hf h, any-false logits) refl
  strings_reason tokenizer (some []) hf logits d r h =
      rw (← ok-injective [] hf h, any-false logits) refl
  strings_reason true (some (s ∷ ss)) hf logits d r h =
      rw (← ok-injective ((s ∷ ss) ∷ []) hf h) refl
  strings_reason false (some (s ∷ ss)) hf logits d r h = cc

  -- When `stop_now`, at `min_length` or beyond, stops a row, the recorded reason is the length exactly
  -- if the maximal length is reached and no row has a stop string: an end token that comes with the
  -- last token is reported as the length, a stop string is not.
  pub stop_now-reason :
      (config : SamplingConfig) (p : ℕ) (tokenizer : Bool) (c : StoppingCriteria) (row : List ℕ)
      (rows : List (List ℕ)) (n : ℕ)
      → init config p tokenizer ≡ ok c
      → or_zero config.min_new_tokens + p ≤ length row
      → any (stop_now has (row ∷ rows) n c).1 ≡ true
      → (stop_now has (row ∷ rows) n c).0.stop_reason ≡ (
          if reached config.max_new_tokens p (length row)
            && not (any (map (strings_seen has config.stop_strings) (row ∷ rows)))
          then length_reached
          else stop)
  unfolding stop_now check_for_conditions
  stop_now-reason config p tokenizer c row rows n h le done =
      let b = init-Built config p tokenizer c h in
      let late = ltb-eq-false (length row) c.min_length (omega (arith, b.min_eq)) in
      let first =
        check_conditions c.stop_conditions (row ∷ rows) n (map (λ r. false) (row ∷ rows), stop) in
      let fired : any (check_strings has c.hf_stop_conditions (row ∷ rows) first).0 ≡ true =
        (rw late at done) in
      let first_reason : first.1
          ≡ (if reached config.max_new_tokens p (length row) then length_reached else stop) =
        rw b.conditions_eq (
          conditions_reason config.max_new_tokens p config.ignore_eos config.eos_token_id row rows
            n) in
      rw (late, fired)
        (strings_reason tokenizer config.stop_strings c.hf_stop_conditions (row ∷ rows) first.0
            first.1 b.strings_eq
          ∙ ap
              (λ r.
                if any (map (strings_seen has config.stop_strings) (row ∷ rows)) && is_length r
                then stop
                else r)
              first_reason
          ∙ reasons-agree (reached config.max_new_tokens p (length row))
              (any (map (strings_seen has config.stop_strings) (row ∷ rows))))
