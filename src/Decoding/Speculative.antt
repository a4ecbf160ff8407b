-- ===== src/Decoding/Speculative.antt =====
-- PardSpeculativeDecoder of pace/llm/speculative.py, for one sequence: the tokens of `speculate`, the
-- acceptance test of `verify`, and the bookkeeping of the draft cache.
pub mod Greedy
use amd_pace.Common.{
  ℕ, zero, suc, ◌+◌, ◌-◌, ◌*◌, ◌≡◌, List, [], ◌∷◌, ◌++◌, arith, ◌==◌, leb, if◌then◌else◌, length,
  take, drop, replicate, tabulate, Result, ok, err, ◌<◌, length-append, drop-append, ◌≤◌,
  length-drop, ◌↔◌, length-take, length-replicate,
}
use amd_pace.Kv.{Error, assertion}

-- `_pard_token_list` holds 32 copies of the PARD token.
abbrev pub pard_list_len : ℕ
pard_list_len = 32

-- prepare_draft_input: the slice [: draft_size - 1] of that list behind the input.
unfoldable pub prepare_draft_input : ℕ → ℕ → List ℕ → List ℕ
prepare_draft_input pard_token draft_size model_input =
    model_input ++ take (draft_size - 1) (replicate pard_list_len pard_token)

-- The draft model's input is `draft_size - 1` tokens longer than the model's, which `speculate` and
-- `verify` count on, exactly if there are at most 33 speculative tokens.
pub length-prepare_draft_input :
    (pard_token draft_size : ℕ) (model_input : List ℕ)
    → 0 < draft_size
    → (length (prepare_draft_input pard_token draft_size model_input)
        ≡ length model_input + (draft_size - 1))
      ↔ (draft_size ≤ 33)
unfolding prepare_draft_input
length-prepare_draft_input t n input pos =
    let all = length-append input (take (n - 1) (replicate pard_list_len t)) in
    let cut = length-take (n - 1) (replicate pard_list_len t) in
    let kept = length-replicate pard_list_len t in
    (λ e. omega (arith, all, cut, kept), λ e. omega (arith, all, cut, kept))

-- `t[-n:]`, which is all of `t` for 0.
unfoldable pub last_n : ℕ → List ℕ → List ℕ
last_n zero xs = xs
last_n (suc n) xs = drop (length xs - suc n) xs

pub last_n-append : (n : ℕ) (xs ys : List ℕ) → 0 < n → length ys ≡ n → last_n n (xs ++ ys) ≡ ys
unfolding last_n
last_n-append zero xs ys pos h = absurd (omega arith)
last_n-append (suc n) xs ys pos h =
    let e : length (xs ++ ys) - suc n ≡ length xs = omega (arith, length-append xs ys) in
    rw e (drop-append xs ys)

pub length-last_n : (n : ℕ) (xs : List ℕ) → 0 < n → n ≤ length xs → length (last_n n xs) ≡ n
unfolding last_n
length-last_n zero xs pos h = absurd (omega arith)
length-last_n (suc n) xs pos h = omega (arith, length-drop (length xs - suc n) xs)

-- sampled_tokens[0, :n] == speculated_tokens[0, :n], as 0 and 1.
abbrev pub matches : List ℕ → List ℕ → List ℕ
matches (x ∷ xs) (y ∷ ys) = (if x == y then 1 else 0) ∷ matches xs ys
matches _ _ = []

-- torch.cumprod
abbrev pub cumprod_from : ℕ → List ℕ → List ℕ
cumprod_from p [] = []
cumprod_from p (x ∷ xs) = (p * x) ∷ cumprod_from (p * x) xs

abbrev pub sum : List ℕ → ℕ
sum [] = 0
sum (x ∷ xs) = x + sum xs

unfoldable pub num_accepted : ℕ → List ℕ → List ℕ → ℕ
num_accepted draft_size sampled speculated =
    sum (cumprod_from 1 (matches (take draft_size sampled) (take draft_size speculated)))

pub record VerificationOutput : Type 0 where
  pub accepted_tokens : List ℕ
  pub target_kv_cache_trim : ℕ

-- `verify` up to the draft cache, which the generator's `verify` adds. The count of kept tokens is at most
-- `draft_size + 1`, so the trim is `draft_size + 1` less that count, computed without going below 0.
pub accept_proposal : ℕ → List ℕ → List ℕ → Result Error VerificationOutput
accept_proposal draft_size sampled_tokens speculated_input =
    let speculated_tokens = last_n draft_size speculated_input in
    let accepted = num_accepted draft_size sampled_tokens speculated_tokens in
    let keep_token_ids = take (accepted + 1) sampled_tokens in
    if leb (draft_size + 1) (length sampled_tokens)
    then ok (record {
      accepted_tokens = keep_token_ids;
      target_kv_cache_trim = draft_size + 1 - length keep_token_ids;
    })
    else err assertion

-- _compute_positions
unfoldable pub compute_positions : ℕ → ℕ → List ℕ
compute_positions num_tokens num_computed = tabulate (λ i. num_computed + i) 0 num_tokens
