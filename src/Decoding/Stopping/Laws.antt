-- ===== src/Decoding/Stopping/Laws.antt =====
-- When StoppingCriteria stops a sequence, against a description of it.
use amd_pace.Common.{
  ℕ, ◌+◌, ◌≡◌, ◌≤◌, ◌<◌, refl, ap, ap₂, ◌∙◌, Bool, true, false, ◌||◌, Option, none, some, List, [],
  ◌∷◌, ◌++◌, leb, ltb, if◌then◌else◌, map, String, ok, arith, Result-cases, inl, inr, err-ne-ok,
  subst, sym, ok-injective, or-false, ltb-eq-false, lt→ltb, Bool-cases, leb-eq-true,
}
use amd_pace.Decoding.Speculative.{last_n}
use amd_pace.Decoding.Stopping.{
  Reason, stop, length_reached, Condition, stop_if_max_len, stop_if_eos_token, SamplingConfig,
  StoppingCriteria, or_zero, max_len_conditions, eos_conditions, string_conditions, total_length,
  init, width, any_in, any, or_rows, condition, check_conditions, check_strings,
  check_for_conditions, stop_short, stop_now, set_reason,
}

abbrev pub reached : Option ℕ → ℕ → ℕ → Bool
reached none prompt_length w = false
reached (some m) prompt_length w = leb (m + prompt_length) w

abbrev pub eos_seen : Bool → Option (List ℕ) → ℕ → List ℕ → Bool
eos_seen true eos n row = false
eos_seen false none n row = false
eos_seen false (some ids) n row = any_in (last_n n row) ids

abbrev pub strings_seen : (List String → List ℕ → Bool) → Option (List String) → List ℕ → Bool
strings_seen has none row = false
strings_seen has (some []) row = false
strings_seen has (some (s ∷ ss)) row = has (s ∷ ss) row

-- Whether a configuration stops a row: it has its new tokens, an end token is among the last `n`,
-- or a stop string is in it.
pub wants_stop : (List String → List ℕ → Bool) → SamplingConfig → ℕ → ℕ → ℕ → List ℕ → Bool
wants_stop has config prompt_length n w row =
    (reached config.max_new_tokens prompt_length w
      || eos_seen config.ignore_eos config.eos_token_id n row)
    || strings_seen has config.stop_strings row

or_rows-map :
    (f g : List ℕ → Bool) (rows : List (List ℕ))
    → or_rows (map f rows) (map g rows) ≡ map (λ row. f row || g row) rows
or_rows-map f g [] = refl
or_rows-map f g (row ∷ rows) = ap (λ l. (f row || g row) ∷ l) (or_rows-map f g rows)

map-eq :
    (f g : List ℕ → Bool) (rows : List (List ℕ))
    → ((row : List ℕ) → f row ≡ g row)
    → map f rows ≡ map g rows
map-eq f g [] e = refl
map-eq f g (row ∷ rows) e = ap₂ (λ b l. b ∷ l) (e row) (map-eq f g rows e)

abbrev holds : Condition → ℕ → ℕ → List ℕ → Bool
holds (stop_if_max_len m) w n row = leb m w
holds (stop_if_eos_token ids) w n row = any_in (last_n n row) ids

condition-holds :
    (c : Condition) (logits : List (List ℕ)) (n : ℕ)
    → condition c logits n ≡ map (holds c (width logits) n) logits
unfolding condition
condition-holds (stop_if_max_len m) logits n = refl
condition-holds (stop_if_eos_token ids) logits n = refl

abbrev any_holds : List Condition → ℕ → ℕ → List ℕ → Bool → Bool
any_holds [] w n row b = b
any_holds (c ∷ cs) w n row b = any_holds cs w n row (b || holds c w n row)

check_conditions_rows :
    (cs : List Condition) (logits : List (List ℕ)) (n : ℕ) (f : List ℕ → Bool) (r : Reason)
    → (check_conditions cs logits n (map f logits, r)).0
      ≡ map (λ row. any_holds cs (width logits) n row (f row)) logits
unfolding check_conditions
check_conditions_rows [] logits n f r = refl
check_conditions_rows (c ∷ cs) logits n f r =
    rw
      (
        check_conditions,
        condition-holds c logits n,
        or_rows-map f (holds c (width logits) n) logits,
      )
      (check_conditions_rows cs logits n (λ row. f row || holds c (width logits) n row) _)

module _ (has : List String → List ℕ → Bool) where
  abbrev any_string : List (List String) → List ℕ → Bool → Bool
  any_string [] row b = b
  any_string (ss ∷ more) row b = any_string more row (b || has ss row)

  check_strings_rows :
      (hf : List (List String)) (logits : List (List ℕ)) (f : List ℕ → Bool) (r : Reason)
      → (check_strings has hf logits (map f logits, r)).0
        ≡ map (λ row. any_string hf row (f row)) logits
  unfolding check_strings
  check_strings_rows [] logits f r = refl
  check_strings_rows (ss ∷ more) logits f r =
      rw (check_strings, or_rows-map f (has ss) logits)
        (check_strings_rows more logits (λ row. f row || has ss row) _)

  check_rows :
      (logits : List (List ℕ)) (n : ℕ) (c : StoppingCriteria)
      → (check_for_conditions has logits n c).1
        ≡ map
            (λ row.
              any_string c.hf_stop_conditions row
                (any_holds c.stop_conditions (width logits) n row false))
            logits
  unfolding check_for_conditions
  check_rows logits n c =
      let first = check_conditions c.stop_conditions logits n (map (λ row. false) logits, stop) in
      ap (λ l. (check_strings has c.hf_stop_conditions logits (l, first.1)).0)
        (check_conditions_rows c.stop_conditions logits n (λ row. false) stop)
      ∙ check_strings_rows c.hf_stop_conditions logits
          (λ row. any_holds c.stop_conditions (width logits) n row false) first.1

  strings_ok :
      (tokenizer : Bool) (ss : Option (List String)) (hf : List (List String)) (row : List ℕ)
      (b : Bool)
      → string_conditions tokenizer ss ≡ ok hf
      → any_string hf row b ≡ (b || strings_seen has ss row)
  strings_ok tokenizer none hf row b h = rw (← ok-injective [] hf h) (sym (or-false b))
  strings_ok tokenizer (some []) hf row b h = rw (← ok-injective [] hf h) (sym (or-false b))
  strings_ok true (some (s ∷ ss)) hf row b h = rw (← ok-injective ((s ∷ ss) ∷ []) hf h) refl
  strings_ok false (some (s ∷ ss)) hf row b h = cc

  conditions_ok :
      (m : Option ℕ) (p : ℕ) (ignore : Bool) (eos : Option (List ℕ)) (w n : ℕ) (row : List ℕ)
      → any_holds (max_len_conditions m p ++ eos_conditions ignore eos) w n row false
        ≡ (reached m p w || eos_seen ignore eos n row)
  conditions_ok none p true eos w n row = refl
  conditions_ok none p false none w n row = refl
  conditions_ok none p false (some ids) w n row = refl
  conditions_ok (some m) p true eos w n row = sym (or-false (leb (m + p) w))
  conditions_ok (some m) p false none w n row = sym (or-false (leb (m + p) w))
  conditions_ok (some m) p false (some ids) w n row = refl

-- What a configuration builds.
pub record Built (config : SamplingConfig) (p : ℕ) (tokenizer : Bool) (c : StoppingCriteria)
    : Type 0 where
  pub min_eq : c.min_length ≡ or_zero config.min_new_tokens + p
  pub max_eq : c.max_length ≡ total_length config.max_new_tokens p
  pub conditions_eq :
      c.stop_conditions
      ≡ max_len_conditions config.max_new_tokens p
        ++ eos_conditions config.ignore_eos config.eos_token_id
  pub strings_eq : string_conditions tokenizer config.stop_strings ≡ ok c.hf_stop_conditions

pub init-Built :
    (config : SamplingConfig) (p : ℕ) (tokenizer : Bool) (c : StoppingCriteria)
    → init config p tokenizer ≡ ok c
    → Built config p tokenizer c
unfolding init
init-Built config p tokenizer c h =
    elim (Result-cases (string_conditions tokenizer config.stop_strings)) [
      | inl (hf, e) ↦
          subst (Built config p tokenizer) (ok-injective _ c (rw e at h))
            (record { min_eq = refl; max_eq = refl; conditions_eq = refl; strings_eq = e })
      | inr (x, e) ↦ absurd (err-ne-ok x c (rw e at h))
    ]

module _ (has : List String → List ℕ → Bool) where
  -- At `min_length` and beyond, `stop_now` says of each row whether the configuration wants to stop it.
  pub stop_now-wants_stop :
      (config : SamplingConfig) (p : ℕ) (tokenizer : Bool) (c : StoppingCriteria)
      (logits : List (List ℕ)) (n : ℕ)
      → init config p tokenizer ≡ ok c
      → or_zero config.min_new_tokens + p ≤ width logits
      → (stop_now has logits n c).1 ≡ map (wants_stop has config p n (width logits)) logits
  unfolding stop_now wants_stop
  stop_now-wants_stop config p tokenizer c logits n h le =
      let b = init-Built config p tokenizer c h in
      rw (ltb-eq-false (width logits) c.min_length (omega (arith, b.min_eq))) (
        check_rows has logits n c
        ∙ map-eq
            (λ row.
              any_string has c.hf_stop_conditions row
                (any_holds c.stop_conditions (width logits) n row false))
            (wants_stop has config p n (width logits)) logits
            λ row. rw b.conditions_eq (
              strings_ok has tokenizer config.stop_strings c.hf_stop_conditions row _ b.strings_eq
              ∙ ap (λ x. x || strings_seen has config.stop_strings row)
                  (conditions_ok has config.max_new_tokens p config.ignore_eos config.eos_token_id
                    (width logits) n row)))

  short_rows :
      (m : Option ℕ) (p : ℕ) (logits : List (List ℕ)) (c : StoppingCriteria)
      → (stop_short has (total_length m p) logits c).1
        ≡ map (λ row. reached m p (width logits)) logits
  unfolding condition
  short_rows none p logits c = refl
  short_rows (some m) p logits c = refl

  -- Short of `min_length` neither end tokens nor stop strings stop a row, the maximal length does.
  pub stop_now-short :
      (config : SamplingConfig) (p : ℕ) (tokenizer : Bool) (c : StoppingCriteria)
      (logits : List (List ℕ)) (n : ℕ)
      → init config p tokenizer ≡ ok c
      → width logits < or_zero config.min_new_tokens + p
      → (stop_now has logits n c).1
        ≡ map (λ row. reached config.max_new_tokens p (width logits)) logits
  unfolding stop_now condition
  stop_now-short config p tokenizer c logits n h lt =
      let b = init-Built config p tokenizer c h in
      rw (lt→ltb (width logits) c.min_length (omega (arith, b.min_eq))) (
        ap (λ m. (stop_short has m logits c).1) b.max_eq
        ∙ short_rows config.max_new_tokens p logits c)

-- The limit on the length is the first condition.
abbrev pub Limit : ℕ → StoppingCriteria → Type 0
Limit m c =
    (c.max_length ≡ some m)
    × (rest : List Condition) × (c.stop_conditions ≡ stop_if_max_len m ∷ rest)

pub init-Limit :
    (config : SamplingConfig) (p m : ℕ) (tokenizer : Bool) (c : StoppingCriteria)
    → init config p tokenizer ≡ ok c
    → config.max_new_tokens ≡ some m
    → Limit (m + p) c
init-Limit config p m tokenizer c h e =
    let b = init-Built config p tokenizer c h in
    (
      b.max_eq ∙ ap (λ o. total_length o p) e,
      eos_conditions config.ignore_eos config.eos_token_id,
      b.conditions_eq
          ∙ ap (λ o. max_len_conditions o p ++ eos_conditions config.ignore_eos config.eos_token_id)
              e,
    )

any_holds-true : (cs : List Condition) (w n : ℕ) (row : List ℕ) → any_holds cs w n row true ≡ true
any_holds-true [] w n row = refl
any_holds-true (c ∷ cs) w n row = any_holds-true cs w n row

if-Limit :
    (m : ℕ) (b : Bool) (r : Reason) (c : StoppingCriteria)
    → Limit m c
    → Limit m (if b then set_reason r c else c)
if-Limit m true r c l = l
if-Limit m false r c l = l

module _ (has : List String → List ℕ → Bool) where
  any_string-true : (hf : List (List String)) (row : List ℕ) → any_string has hf row true ≡ true
  any_string-true [] row = refl
  any_string-true (ss ∷ more) row = any_string-true more row

  pub stop_now-keeps :
      (m n : ℕ) (logits : List (List ℕ)) (c : StoppingCriteria)
      → Limit m c
      → Limit m (stop_now has logits n c).0
  unfolding stop_now check_for_conditions
  stop_now-keeps m n logits c l = elim (Bool-cases (ltb (width logits) c.min_length)) [
    | inl e ↦ rw e (
        subst (λ o. Limit m (stop_short has o logits c).0) (sym l.0)
          (if-Limit m (any (condition (stop_if_max_len m) logits 1)) length_reached c l))
    | inr e ↦ rw e (if-Limit m _ _ c l)
  ]

  -- A sequence of the maximal length stops, whatever the minimal length is.
  pub stop_now-Limit :
      (m n : ℕ) (logits : List (List ℕ)) (c : StoppingCriteria)
      → Limit m c
      → m ≤ width logits
      → (stop_now has logits n c).1 ≡ map (λ row. true) logits
  unfolding stop_now
  stop_now-Limit m n logits c l le = elim (Bool-cases (ltb (width logits) c.min_length)) [
    | inl e ↦ rw e (
        subst (λ o. (stop_short has o logits c).1 ≡ map (λ row. true) logits) (sym l.0)
          (unfold condition in rw (leb-eq-true m (width logits) le) refl))
    | inr e ↦ rw e (
        check_rows has logits n c
        ∙ map-eq
            (λ row.
              any_string has c.hf_stop_conditions row
                (any_holds c.stop_conditions (width logits) n row false))
            (λ row. true) logits
            λ row.
              rw (l.2, leb-eq-true m (width logits) le, any_holds-true l.1 (width logits) n row)
                (any_string-true c.hf_stop_conditions row))
  ]

-- With a tokenizer the construction does not raise.
pub init_ok :
    (config : SamplingConfig) (p : ℕ) → (c : StoppingCriteria) × (init config p true ≡ ok c)
unfolding init
init_ok config p = let (hf, e) = strings_known config.stop_strings in rw e (_, refl)
  where
    strings_known :
        (ss : Option (List String))
        → (hf : List (List String)) × (string_conditions true ss ≡ ok hf)
    strings_known none = (_, refl)
    strings_known (some []) = (_, refl)
    strings_known (some (s ∷ ss)) = (_, refl)
