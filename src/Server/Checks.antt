-- ===== src/Server/Checks.antt =====
-- Phase 3 of _speculative_decode for a sequence, whatever its sampler makes of the logits.
use amd_pace.Decoding.Sampler.{Logits, nan_in}
use amd_pace.Decoding.Generator.{last_rows}
use amd_pace.Common.{
  ℕ, suc, zero, ◌+◌, ◌-◌, ◌≡◌, ◌<◌, refl, ap, sym, ◌∙◌, subst, Bool, true, false, List, [], ◌∷◌,
  ◌++◌, arith, length, drop, ok, err, inl, inr, ◌⊎◌, Bool-cases, if◌then◌else◌, get_or,
  length-append, Result, Result-cases, tabulate, length-tabulate,
}
use amd_pace.Kv.{Error, assertion}
use amd_pace.Decoding.Speculative.Greedy.{sampled_from}
use amd_pace.Decoding.Generator.Entries.{next_token}
use amd_pace.Server.Sequences.{Engine, Sequence}
use amd_pace.Server.Steps.{on_sequence}
use amd_pace.Server.Speculation.{sample_all, argmax_all, with_drawn, verify_row, accept}
use amd_pace.Server.Proposals.{Pending, Answered, accept-Answered}

drop_step : (all : List ℕ) (i : ℕ) → i < length all → drop i all ≡ get_or all i 0 ∷ drop (suc i) all
drop_step [] i lt = absurd (omega arith)
drop_step (x ∷ xs) zero lt = refl
drop_step (x ∷ xs) (suc i) lt = drop_step xs i (omega arith)

drop_end : (all : List ℕ) → drop (length all) all ≡ []
drop_end [] = refl
drop_end (x ∷ xs) = drop_end xs

-- Any samples are those of some function of the context.
abbrev as_function : List ℕ → ℕ → List ℕ → ℕ
as_function all base context = get_or all (length context - base) 0

sampled-drop :
    (all : List ℕ) (base i : ℕ) (ys context : List ℕ)
    → length context ≡ base + i
    → length all ≡ i + suc (length ys)
    → sampled_from (as_function all base) context ys ≡ drop i all
unfolding sampled_from
sampled-drop all base i [] context h len =
    let at : length context - base ≡ i = omega (arith, h) in
    let end : suc i ≡ length all = omega (arith, len) in
    rw at (
      sym (
        drop_step all i (omega (arith, len))
        ∙ ap (λ n. get_or all i 0 ∷ drop n all) end
        ∙ ap (λ l. get_or all i 0 ∷ l) (drop_end all)))
sampled-drop all base i (y ∷ ys) context h len =
    let at : length context - base ≡ i = omega (arith, h) in
    let rest =
      sampled-drop all base (suc i) ys (context ++ y ∷ [])
        (omega (arith, h, length-append context (y ∷ []))) (omega (arith, len)) in
    rw at (ap (λ l. get_or all i 0 ∷ l) rest ∙ sym (drop_step all i (omega (arith, len))))

module _ (engine : Engine) where
  open engine use {models, has_nan, draw_candidates}
  open models use {target_model, draft_size}

  -- Why the check of logits raises: a NaN, or the sampler beside the fast path.
  pub data Raises (s : Sequence) (rows : List Logits) : Error → Type 0 where
    by_nan : nan_in has_nan rows ≡ true → Raises s rows assertion
    by_sampler :
        (e : Error) (rng : ℕ)
        → s.sampler.greedy_fast_path ≡ false
        → (draw_candidates s.sampler s.tokens rows rng).1 ≡ err e
        → Raises s rows e

  length-argmax_all : (rows : List Logits) → length (argmax_all engine rows) ≡ length rows
  length-argmax_all [] = refl
  length-argmax_all (l ∷ rows) = ap suc (length-argmax_all rows)

  slow_samples :
      (s : Sequence) (rows : List Logits) (rng : ℕ) (r : Result Error (ℕ → ℕ))
      → nan_in has_nan rows ≡ false
      → s.sampler.greedy_fast_path ≡ false
      → (draw_candidates s.sampler s.tokens rows rng).1 ≡ r
      → sample_all engine rows (s, rng)
        ≡ with_drawn engine (length rows) s ((draw_candidates s.sampler s.tokens rows rng).0, r)
  unfolding sample_all
  slow_samples s rows rng r e f h =
      let drawn = draw_candidates s.sampler s.tokens rows rng in
      let slow = with_drawn engine (length rows) s drawn in
      let quick : (Sequence × ℕ) × Result Error (List ℕ) =
        ((s, rng), ok (argmax_all engine rows)) in
      ap
        (λ b.
          if b
          then ((s, rng), err assertion)
          else if s.sampler.greedy_fast_path
          then quick
          else slow)
        e
      ∙ ap (λ b. if b then quick else slow) f
      ∙ ap (λ r. with_drawn engine (length rows) s (drawn.0, r)) h

  -- What the sampler makes of the logits: an exception, or samples.
  sample_all-cases :
      (s : Sequence) (rows : List Logits) (rng : ℕ)
      → ((e : Error) × (rng' : ℕ) × (sample_all engine rows (s, rng) ≡ ((s, rng'), err e))
          × Raises s rows e)
        ⊎ ((ts : List ℕ) × (rng' : ℕ) × (sample_all engine rows (s, rng) ≡ ((s, rng'), ok ts))
            × (length ts ≡ length rows)
            × (s.sampler.greedy_fast_path ≡ true → (ts ≡ argmax_all engine rows) × (rng' ≡ rng)))
  unfolding sample_all
  sample_all-cases s rows rng = elim (Bool-cases (nan_in has_nan rows)) [
    | inl e ↦ inl (assertion, rng, rw e refl, by_nan e)
    | inr e ↦ elim (Bool-cases s.sampler.greedy_fast_path) [
      | inl f ↦
          inr
            (argmax_all engine rows, rng, rw (e, f) refl, length-argmax_all rows, λ _. (refl, refl))
      | inr f ↦
          let drawn = draw_candidates s.sampler s.tokens rows rng in
          elim (Result-cases drawn.1) [
            | inl (tokens, h) ↦ inr (
              tabulate tokens 0 (length rows),
              drawn.0,
              slow_samples s rows rng (ok tokens) e f h,
              length-tabulate tokens 0 (length rows),
              λ g. absurd (ground (arith, f, g)),
            )
            | inr (x, h) ↦
                inl (x, drawn.0, slow_samples s rows rng (err x) e f h, by_sampler x rng f h)
          ]
    ]
  ]

  -- Behind the check of a pending sequence: an exception for a NaN, or an answer, which is greedy
  -- decoding's on the fast path.
  pub record Checked (s : Sequence) (ys : List ℕ) (rng : ℕ) (logits : List Logits)
      (out : (Sequence × ℕ) × Result Error (List ℕ × Bool)) : Type 0 where
    pub next : List ℕ → ℕ
    pub state : ℕ
    pub call : Sequence × Result Error (List ℕ × Bool)
    pub made : Answered engine next s ys call
    pub result : out ≡ ((call.0, state), call.1)
    pub fast_path :
        s.sampler.greedy_fast_path ≡ true → (next ≡ next_token target_model) × (state ≡ rng)

  verified :
      (next : List ℕ → ℕ) (s : Sequence) (ys front : List ℕ) (logits : List Logits) (rng rng' : ℕ)
      (ts : List ℕ)
      → 0 < draft_size
      → Pending engine s ys
      → ts ≡ sampled_from next s.tokens ys
      → (s.sampler.greedy_fast_path ≡ true → (next ≡ next_token target_model) × (rng' ≡ rng))
      → Checked s ys rng logits (on_sequence (accept engine (front ++ ys) ts) (s, rng'))
  verified next s ys front logits rng rng' ts pos p e f = record {
    next = next;
    state = rng';
    call = accept engine (front ++ ys) ts s;
    made =
        subst (λ l. Answered engine next s ys (accept engine (front ++ ys) l s)) (sym e)
          (accept-Answered engine next s ys front pos p);
    result = refl;
    fast_path = f;
  }

  pub verify_row-cases :
      (s : Sequence) (ys front : List ℕ) (logits : List Logits) (rng : ℕ)
      → 0 < draft_size
      → Pending engine s ys
      → (argmax_all engine logits ≡ sampled_from (next_token target_model) s.tokens ys)
      → (length logits ≡ suc draft_size)
      → ((e : Error) × (rng' : ℕ) × (verify_row engine (front ++ ys) logits (s, rng)
            ≡ ((s, rng'), err e))
          × Raises s logits e)
        ⊎ Checked s ys rng logits (verify_row engine (front ++ ys) logits (s, rng))
  unfolding verify_row last_rows
  verify_row-cases s ys front logits rng pos p greedy_rows len =
      let all : length logits - (draft_size + 1) ≡ 0 = omega (arith, len) in
      rw all (elim (sample_all-cases s logits rng) [
        | inl (x, rng', e, why) ↦ inl (x, rng', rw e refl, why)
        | inr (ts, rng', e, l, f) ↦ inr (
            rw e (elim (Bool-cases s.sampler.greedy_fast_path) [
              | inl fast ↦
                  verified (next_token target_model) s ys front logits rng rng' ts pos p
                    ((f fast).0 ∙ greedy_rows) (λ _. (refl, (f fast).1))
              | inr slow ↦
                  verified (as_function ts (length s.tokens)) s ys front logits rng rng' ts pos p
                    (sym (
                      sampled-drop ts (length s.tokens) 0 ys s.tokens (omega arith)
                        (omega (arith, l, len, p.length-proposal))))
                    (λ g. absurd (ground (arith, slow, g)))
            ]))
      ])
