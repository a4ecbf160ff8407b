-- ===== src/Decoding/Speculative/Greedy.antt =====
-- Speculative decoding produces the tokens of plain greedy decoding. The target model is a function
-- from the tokens so far to the next one, and what the draft model proposes is arbitrary.
use amd_pace.Common.{
  ℕ, zero, suc, ◌+◌, ◌-◌, ◌*◌, ◌≤◌, ◌<◌, ◌≡◌, refl, sym, ap, ap₂, ◌∙◌, List, [], ◌∷◌, ◌++◌, arith,
  ok, true, false, inl, inr, Bool-cases, length, take, append_assoc, append-nil, if◌then◌else◌,
  ◌==◌, ==_iff, leb-eq-true, length-take,
}
use amd_pace.Decoding.Speculative.{
  matches, cumprod_from, sum, num_accepted, accept_proposal, VerificationOutput, last_n-append,
}

module _ (next : List ℕ → ℕ) where
  -- Plain greedy decoding.
  unfoldable pub greedy : ℕ → List ℕ → List ℕ
  greedy zero context = []
  greedy (suc n) context = next context ∷ greedy n (context ++ next context ∷ [])

  -- What the target model samples in one pass over the context and the proposal: a token behind
  -- the context and one behind each proposed token.
  unfoldable pub sampled_from : List ℕ → List ℕ → List ℕ
  sampled_from context [] = next context ∷ []
  sampled_from context (y ∷ ys) = next context ∷ sampled_from (context ++ y ∷ []) ys

  pub length-sampled_from :
      (ys context : List ℕ) → length (sampled_from context ys) ≡ suc (length ys)
  unfolding sampled_from
  length-sampled_from [] context = refl
  length-sampled_from (y ∷ ys) context = ap suc (length-sampled_from ys (context ++ y ∷ []))

  pub length-greedy : (n : ℕ) (context : List ℕ) → length (greedy n context) ≡ n
  unfolding greedy
  length-greedy zero context = refl
  length-greedy (suc n) context = ap suc (length-greedy n (context ++ next context ∷ []))

  pub greedy-add :
      (m n : ℕ) (context : List ℕ)
      → greedy (m + n) context ≡ greedy m context ++ greedy n (context ++ greedy m context)
  unfolding greedy
  greedy-add zero n context = ap₂ (λ (k : ℕ) c. greedy k c) (omega arith) (sym (append-nil context))
  greedy-add (suc m) n context =
      let e : suc m + n ≡ suc (m + n) = omega arith in
      rw (e, ← append_assoc context (next context ∷ []) (greedy m (context ++ next context ∷ [])))
        (ap (λ l. next context ∷ l) (greedy-add m n (context ++ next context ∷ [])))

  pub greedy-snoc :
      (n : ℕ) (context : List ℕ)
      → greedy (suc n) context ≡ greedy n context ++ next (context ++ greedy n context) ∷ []
  unfolding greedy
  greedy-snoc n context =
      let e : suc n ≡ n + 1 = omega arith in
      ap (λ (k : ℕ). greedy k context) e ∙ greedy-add n 1 context

cumprod_zero : (xs : List ℕ) → sum (cumprod_from 0 xs) ≡ 0
cumprod_zero [] = refl
cumprod_zero (x ∷ xs) = let e : 0 * x ≡ 0 = omega arith in rw e (omega (arith, cumprod_zero xs))

-- The length of the common first part.
agreeing : List ℕ → List ℕ → ℕ
agreeing xs ys = sum (cumprod_from 1 (matches xs ys))

agreeing-cons_eq :
    (x y : ℕ) (xs ys : List ℕ) → (x == y) ≡ true → agreeing (x ∷ xs) (y ∷ ys) ≡ suc (agreeing xs ys)
unfolding agreeing
agreeing-cons_eq x y xs ys t = let e : 1 * 1 ≡ 1 = omega arith in rw (t, e) (omega arith)

agreeing-cons_ne : (x y : ℕ) (xs ys : List ℕ) → (x == y) ≡ false → agreeing (x ∷ xs) (y ∷ ys) ≡ 0
unfolding agreeing
agreeing-cons_ne x y xs ys t =
    let e : 1 * 0 ≡ 0 = omega arith in rw (t, e) (omega (arith, cumprod_zero (matches xs ys)))

agreeing-le : (xs ys : List ℕ) → agreeing xs ys ≤ length ys
agreeing-le [] ys = unfold agreeing in omega arith
agreeing-le (x ∷ xs) [] = unfold agreeing in omega arith
agreeing-le (x ∷ xs) (y ∷ ys) = elim (Bool-cases (x == y)) [
  | inl t ↦ omega (arith, agreeing-cons_eq x y xs ys t, agreeing-le xs ys)
  | inr t ↦ omega (arith, agreeing-cons_ne x y xs ys t)
]

-- Everything agrees with itself.
agreeing_self : (ys : List ℕ) (z : ℕ) → agreeing (ys ++ z ∷ []) ys ≡ length ys
agreeing_self [] z = unfold agreeing in refl
agreeing_self (y ∷ ys) z =
    agreeing-cons_eq y y (ys ++ z ∷ []) ys ((==_iff y y).1 refl) ∙ ap suc (agreeing_self ys z)

matches-take :
    (n : ℕ) (xs ys : List ℕ) → length ys ≤ n → matches (take n xs) (take n ys) ≡ matches xs ys
matches-take zero [] [] h = refl
matches-take zero (x ∷ xs) [] h = refl
matches-take zero xs (y ∷ ys) h = absurd (omega arith)
matches-take (suc n) [] [] h = refl
matches-take (suc n) [] (y ∷ ys) h = refl
matches-take (suc n) (x ∷ xs) [] h = refl
matches-take (suc n) (x ∷ xs) (y ∷ ys) h =
    ap (λ l. (if x == y then 1 else 0) ∷ l) (matches-take n xs ys (omega arith))

module _ (next : List ℕ → ℕ) where
  agreeing-greedy :
      (ys context : List ℕ)
      → take (suc (agreeing (sampled_from next context ys) ys)) (sampled_from next context ys)
        ≡ greedy next (suc (agreeing (sampled_from next context ys) ys)) context
  unfolding greedy sampled_from
  agreeing-greedy [] context = unfold agreeing in refl
  agreeing-greedy (y ∷ ys) context = elim (Bool-cases (next context == y)) [
    | inl t ↦
        let same : next context ≡ y = (==_iff (next context) y).0 t in
        rw (agreeing-cons_eq (next context) y (sampled_from next (context ++ y ∷ []) ys) ys t, same)
          (ap (λ l. y ∷ l) (agreeing-greedy ys (context ++ y ∷ [])))
    | inr t ↦
        rw (agreeing-cons_ne (next context) y (sampled_from next (context ++ y ∷ []) ys) ys t) refl
  ]

  -- What is accepted of the proposal are greedy decoding's tokens.
  agreeing_proposed :
      (ys context : List ℕ)
      → take (agreeing (sampled_from next context ys) ys) ys
        ≡ greedy next (agreeing (sampled_from next context ys) ys) context
  unfolding greedy sampled_from
  agreeing_proposed [] context = unfold agreeing in refl
  agreeing_proposed (y ∷ ys) context = elim (Bool-cases (next context == y)) [
    | inl t ↦
        let same : next context ≡ y = (==_iff (next context) y).0 t in
        rw (agreeing-cons_eq (next context) y (sampled_from next (context ++ y ∷ []) ys) ys t, same)
          (ap (λ l. y ∷ l) (agreeing_proposed ys (context ++ y ∷ [])))
    | inr t ↦
        rw (agreeing-cons_ne (next context) y (sampled_from next (context ++ y ∷ []) ys) ys t) refl
  ]

  accepted_lem :
      (draft_size : ℕ) (ys context : List ℕ)
      → length ys ≡ draft_size
      → num_accepted draft_size (sampled_from next context ys) ys
        ≡ agreeing (sampled_from next context ys) ys
  unfolding num_accepted agreeing
  accepted_lem n ys context h =
      ap (λ l. sum (cumprod_from 1 l))
        (matches-take n (sampled_from next context ys) ys (omega arith))

  accepted-le :
      (n : ℕ) (ys context : List ℕ)
      → length ys ≡ n
      → num_accepted n (sampled_from next context ys) ys ≤ n
  accepted-le n ys context h =
      omega (arith, accepted_lem n ys context h, agreeing-le (sampled_from next context ys) ys)

  pub record Accepts (draft_size : ℕ) (ys context : List ℕ) (out : VerificationOutput)
      : Type 0 where
    pub accepted : ℕ
    pub accepted_le : accepted ≤ draft_size
    pub tokens : out.accepted_tokens ≡ greedy next (suc accepted) context
    pub trim : out.target_kv_cache_trim ≡ draft_size - accepted
    pub proposed : take accepted ys ≡ greedy next accepted context

  -- Whatever the draft model proposes, `accept_proposal` does not raise on the target's samples, and returns
  -- the tokens of greedy decoding: the part of the proposal that agrees with them, and one more.
  -- The trim is the part of the proposal that does not.
  pub accept_proposal-Accepts :
      (draft_size : ℕ) (input ys context : List ℕ)
      → 0 < draft_size
      → length ys ≡ draft_size
      → (out : VerificationOutput) × (accept_proposal draft_size
            (sampled_from next context ys)
            (input ++ ys)
          ≡ ok out)
        × Accepts draft_size ys context out
  accept_proposal-Accepts n input ys context pos h =
      let kept = accepted_lem n ys context h in
      let few = agreeing-le (sampled_from next context ys) ys in
      let count = length-sampled_from next ys context in
      let len = length-greedy next (suc (agreeing (sampled_from next context ys) ys)) context in
      unfold accept_proposal in
      rw
        (
          last_n-append n input ys pos h,
          kept,
          leb-eq-true (n + 1) (length (sampled_from next context ys)) (omega arith),
        )
        (
          _,
          refl,
          record {
            accepted = agreeing (sampled_from next context ys) ys;
            accepted_le = omega arith;
            tokens =
                let e : agreeing (sampled_from next context ys) ys + 1
                    ≡ suc (agreeing (sampled_from next context ys) ys) =
                  omega arith in
                rw e (agreeing-greedy ys context);
            trim = omega (
              arith,
              length-take (agreeing (sampled_from next context ys) ys + 1)
                  (sampled_from next context ys),
            );
            proposed = agreeing_proposed ys context;
          },
        )
