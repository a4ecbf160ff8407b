-- ===== src/Config/Merging.antt =====
-- merge_from of pace/llm/configs.py: whose values a merged config has.
use amd_pace.Common.{
  zero, suc, ℕ, ◌≡◌, refl, sym, ap, ap₂, ◌∙◌, Bool, true, false, ◌||◌, Option, none, some, List, [],
  ◌∷◌, ◌++◌, ◌==◌, ==_iff, arith, inl, inr, Bool-cases, or-false, suc, if◌then◌else◌,
}
use amd_pace.Config.Sampling.{
  Floats, Ids, one_id, id_list, Args, Config, or_default, as_list, ids_of, same_lists, same_ids,
  insert_id, sorted_set, merge_lists, if_passed, Tokenizer, init_config, merge_tokenizer,
  merge_other, merge_config,
}

-- Is the token one of them?
abbrev pub includes : ℕ → List ℕ → Bool
includes t [] = false
includes t (s ∷ ss) = (t == s) || includes t ss

includes-append :
    (t : ℕ) (xs ys : List ℕ) → includes t (xs ++ ys) ≡ (includes t xs || includes t ys)
includes-append t [] ys = refl
includes-append t (x ∷ xs) ys = elim (Bool-cases (t == x)) [
  | inl e ↦ rw e refl
  | inr e ↦ rw e (includes-append t xs ys)
]

includes-insert_id :
    (t x : ℕ) (ys : List ℕ) → includes t (insert_id x ys) ≡ ((t == x) || includes t ys)
includes-insert_id t x [] = refl
includes-insert_id t x (y ∷ ys) = ground (arith, includes-insert_id t x ys)

includes-sorted_set : (t : ℕ) (xs : List ℕ) → includes t (sorted_set xs) ≡ includes t xs
includes-sorted_set t [] = refl
includes-sorted_set t (x ∷ xs) =
    includes-insert_id t x (sorted_set xs) ∙ ap (λ b. (t == x) || b) (includes-sorted_set t xs)

same_lists-eq : (xs ys : List ℕ) → same_lists xs ys ≡ true → xs ≡ ys
same_lists-eq [] [] h = refl
same_lists-eq [] (y ∷ ys) h = absurd cc
same_lists-eq (x ∷ xs) [] h = absurd cc
same_lists-eq (x ∷ xs) (y ∷ ys) h = elim (Bool-cases (x == y)) [
  | inl e ↦ ap₂ ◌∷◌ ((==_iff x y).0 e) (same_lists-eq xs ys (ground (arith, h, e)))
  | inr e ↦ absurd (ground (arith, h, e))
]

same_ids-eq : (x y : Option Ids) → same_ids x y ≡ true → ids_of x ≡ ids_of y
same_ids-eq none none h = refl
same_ids-eq none (some y) h = absurd cc
same_ids-eq (some x) none h = absurd cc
same_ids-eq (some (one_id s)) (some (one_id t)) h = ap (λ t. t ∷ []) ((==_iff s t).0 h)
same_ids-eq (some (one_id s)) (some (id_list ts)) h = absurd cc
same_ids-eq (some (id_list ss)) (some (one_id t)) h = absurd cc
same_ids-eq (some (id_list ss)) (some (id_list ts)) h = same_lists-eq ss ts h

or_same : (b : Bool) → b ≡ (b || b)
or_same true = refl
or_same false = refl

or_comm : (a b : Bool) → (a || b) ≡ (b || a)
or_comm a b = ground arith

pub includes-merge_lists :
    (t : ℕ) (self other : Option Ids)
    → includes t (ids_of (merge_lists self other))
      ≡ (includes t (ids_of self) || includes t (ids_of other))
unfolding merge_lists
includes-merge_lists t self none = sym (or-false _)
includes-merge_lists t self (some other) = elim (Bool-cases (same_ids self (some other))) [
  | inl e ↦ rw e (
      or_same _
      ∙ ap (λ l. includes t (ids_of self) || includes t l) (same_ids-eq self (some other) e))
  | inr e ↦ rw e (
      includes-sorted_set t _
      ∙ includes-append t (ids_of (some other)) (ids_of self)
      ∙ or_comm (includes t (ids_of (some other))) (includes t (ids_of self)))
]

abbrev pub tokenizer_ids : (Tokenizer → Option Ids) → Option Tokenizer → List ℕ
tokenizer_ids f none = []
tokenizer_ids f (some t) = ids_of (f t)

module _ (N : Floats) where
  -- A limit of 0 is the size of the vocabulary.
  abbrev pub limited_by : Option Tokenizer → ℕ → ℕ
  limited_by none k = k
  limited_by (some t) zero = t.vocab_size
  limited_by (some t) (suc k) = suc k

  -- The values that the user passed, or else the other config's; the seed is the other config's.
  abbrev pub Overridden : Args N.Float → Option Tokenizer → Config N.Float → Config N.Float → Type 0
  Overridden a tokenizer c m =
      (m.max_new_tokens ≡ (if_passed a.max_new_tokens a.max_new_tokens c.max_new_tokens))
      × (m.min_new_tokens ≡ or_default a.min_new_tokens c.min_new_tokens)
      × (m.ignore_eos ≡ or_default a.ignore_eos c.ignore_eos)
      × (m.repetition_penalty ≡ or_default a.repetition_penalty c.repetition_penalty)
      × (m.frequency_penalty ≡ or_default a.frequency_penalty c.frequency_penalty)
      × (m.do_sample ≡ or_default a.do_sample c.do_sample)
      × (m.temperature ≡ or_default a.temperature c.temperature)
      × (m.top_k ≡ or_default a.top_k (limited_by tokenizer c.top_k))
      × (m.top_p ≡ or_default a.top_p c.top_p)
      × (m.min_p ≡ or_default a.min_p c.min_p)
      × (m.stop_strings ≡ if_passed a.stop_strings a.stop_strings c.stop_strings)
      × (m.sampling_seed ≡ c.sampling_seed)

  -- The tokens of all three.
  abbrev pub Union : List ℕ → List ℕ → List ℕ → List ℕ → Type 0
  Union xs ys zs all =
      (t : ℕ) → includes t all ≡ ((includes t xs || includes t ys) || includes t zs)

  passed :
      {A : Type 0} (o : Option A) (d own : A) → if_passed o (or_default o d) own ≡ or_default o own
  passed none d own = refl
  passed (some a) d own = refl

  includes-as_list :
      (t : ℕ) (o : Option Ids) → includes t (ids_of (as_list o)) ≡ includes t (ids_of o)
  includes-as_list t none = refl
  includes-as_list t (some (one_id s)) = refl
  includes-as_list t (some (id_list ts)) = refl

  merged_eos :
      (t : ℕ) (tokenizer : Option Tokenizer) (c : Config N.Float)
      → includes t (ids_of (merge_tokenizer tokenizer c).eos_token_id) ≡ (
          includes t (ids_of c.eos_token_id)
          || includes t (tokenizer_ids (λ k. k.tokenizer_eos) tokenizer))
  merged_eos t none c = sym (or-false (includes t (ids_of c.eos_token_id)))
  merged_eos t (some k) c = includes-merge_lists t c.eos_token_id k.tokenizer_eos

  merged_pad :
      (t : ℕ) (tokenizer : Option Tokenizer) (c : Config N.Float)
      → includes t (ids_of (merge_tokenizer tokenizer c).pad_token_id) ≡ (
          includes t (ids_of c.pad_token_id)
          || includes t (tokenizer_ids (λ k. k.tokenizer_pad) tokenizer))
  merged_pad t none c = sym (or-false (includes t (ids_of c.pad_token_id)))
  merged_pad t (some k) c = includes-merge_lists t c.pad_token_id k.tokenizer_pad

  merge_other-Overridden :
      (a : Args N.Float) (c : Config N.Float)
      → a.kwargs_sampling_seed ≡ false
      → Overridden a none c (merge_other (some (init_config N a)) c)
  merge_other-Overridden a c h = (
    refl,
    passed a.min_new_tokens 0 c.min_new_tokens,
    passed a.ignore_eos false c.ignore_eos,
    passed a.repetition_penalty N.one_float c.repetition_penalty,
    passed a.frequency_penalty N.zero_float c.frequency_penalty,
    passed a.do_sample false c.do_sample,
    passed a.temperature N.one_float c.temperature,
    passed a.top_k 0 c.top_k,
    passed a.top_p N.one_float c.top_p,
    passed a.min_p N.zero_float c.min_p,
    refl,
    rw h refl,
  )

  merge_tokenizer-Overridden :
      (a : Args N.Float) (tokenizer : Option Tokenizer) (c m : Config N.Float)
      → Overridden a none (merge_tokenizer tokenizer c) m
      → Overridden a tokenizer c m
  merge_tokenizer-Overridden a none c m h = h
  merge_tokenizer-Overridden a (some k) c m (l, n, i, r, f, d, t, tk, p, q, s, e) =
      (l, n, i, r, f, d, t, tk ∙ ap (or_default a.top_k) (vocabulary k c.top_k), p, q, s, e)
    where
      vocabulary :
          (k : Tokenizer) (n : ℕ) → (if n == 0 then k.vocab_size else n) ≡ limited_by (some k) n
      vocabulary k zero = refl
      vocabulary k (suc n) = ground arith

  -- A config of a user's arguments, merged into another config, overrides its values with those that
  -- the user passed, but for the seed, which stays the other config's; a limit top_k of 0 in the other
  -- config is the tokenizer's vocabulary; and the merged config has the end and padding tokens of the
  -- other config, of the tokenizer and of the user, and no more. The user passes no argument
  -- `sampling_seed`.
  pub merge_config-Merged :
      (a : Args N.Float) (tokenizer : Option Tokenizer) (c : Config N.Float)
      → a.kwargs_sampling_seed ≡ false
      → Overridden a tokenizer c (merge_config (some (init_config N a)) tokenizer c)
        × Union
            (ids_of c.eos_token_id)
            (tokenizer_ids (λ k. k.tokenizer_eos) tokenizer)
            (ids_of a.eos_token_id)
            (ids_of (merge_config (some (init_config N a)) tokenizer c).eos_token_id)
        × Union
            (ids_of c.pad_token_id)
            (tokenizer_ids (λ k. k.tokenizer_pad) tokenizer)
            (ids_of a.pad_token_id)
            (ids_of (merge_config (some (init_config N a)) tokenizer c).pad_token_id)
  unfolding merge_config
  merge_config-Merged a tokenizer c h =
      let c' = merge_tokenizer tokenizer c in
      (
        merge_tokenizer-Overridden a tokenizer c (merge_other (some (init_config N a)) c')
            (merge_other-Overridden a c' h),
        λ t.
            includes-merge_lists t c'.eos_token_id (as_list a.eos_token_id)
            ∙ ap₂ ◌||◌ (merged_eos t tokenizer c) (includes-as_list t a.eos_token_id),
        λ t.
            includes-merge_lists t c'.pad_token_id a.pad_token_id
            ∙ ap (λ b. b || includes t (ids_of a.pad_token_id)) (merged_pad t tokenizer c),
      )
