-- ===== src/Decoding/Generator/Entries.antt =====
-- The entries of a cache: the positions of consecutive tokens, and what a model says behind them.
use amd_pace.Common.{
  ℕ, suc, ◌+◌, ◌≡◌, refl, ap, List, [], ◌∷◌, ◌++◌, arith, length, tabulate, append_assoc, ok, sym,
  ◌-◌, append-nil, length-append, leb-eq-true, take-append, ◌∙◌, map, drop-append,
}
use amd_pace.Decoding.Speculative.{compute_positions}
use amd_pace.Decoding.Speculative.Greedy.{sampled_from}
use amd_pace.Decoding.Sampler.{Logits}
use amd_pace.Decoding.Generator.{Entry, zip, argmaxes, remove_cache, logits_behind, last_rows}

-- The tokens at the positions from `n` on.
abbrev pub numbered : ℕ → List ℕ → List Entry
numbered n [] = []
numbered n (t ∷ ts) = (t, n) ∷ numbered (suc n) ts

zip-tabulate :
    (ts : List ℕ) (n s : ℕ) → zip ts (tabulate (λ i. n + i) s (length ts)) ≡ numbered (n + s) ts
zip-tabulate [] n s = refl
zip-tabulate (t ∷ ts) n s =
    let e : suc (n + s) ≡ n + (s + 1) = omega arith in
    rw e (ap (λ l. (t, n + s) ∷ l) (zip-tabulate ts n (s + 1)))

pub zip-compute_positions :
    (ts : List ℕ) (n : ℕ) → zip ts (compute_positions (length ts) n) ≡ numbered n ts
unfolding compute_positions
zip-compute_positions ts n = zip-tabulate ts n 0 ∙ ap (λ k. numbered k ts) (omega arith)

pub numbered-append :
    (n : ℕ) (xs ys : List ℕ) → numbered n (xs ++ ys) ≡ numbered n xs ++ numbered (n + length xs) ys
numbered-append n [] ys = ap (λ k. numbered k ys) (omega arith)
numbered-append n (x ∷ xs) ys =
    let e : n + length (x ∷ xs) ≡ suc n + length xs = omega arith in
    rw e (ap (λ l. (x, n) ∷ l) (numbered-append (suc n) xs ys))

pub numbered-extend :
    (xs ys : List ℕ) → numbered 0 xs ++ numbered (length xs) ys ≡ numbered 0 (xs ++ ys)
numbered-extend xs ys =
    ap (λ k. numbered 0 xs ++ numbered k ys) (omega arith) ∙ sym (numbered-append 0 xs ys)

pub numbered-snoc :
    (ts : List ℕ) (t : ℕ) → numbered 0 ts ++ (t, length ts) ∷ [] ≡ numbered 0 (ts ++ t ∷ [])
numbered-snoc ts t =
    ap (λ k. numbered 0 ts ++ (t, k) ∷ []) (omega arith) ∙ sym (numbered-append 0 ts (t ∷ []))

pub length-numbered : (n : ℕ) (xs : List ℕ) → length (numbered n xs) ≡ length xs
length-numbered n [] = refl
length-numbered n (x ∷ xs) = ap suc (length-numbered (suc n) xs)

pub remove_cache-append :
    (xs ys : List Entry) (m : ℕ) → length ys ≡ m → remove_cache m (xs ++ ys) ≡ ok xs
unfolding remove_cache
remove_cache-append xs ys m h =
    let e : length (xs ++ ys) - m ≡ length xs = omega (arith, length-append xs ys) in
    rw (leb-eq-true m (length (xs ++ ys)) (omega (arith, length-append xs ys)), e)
      (ap ok (take-append xs ys))

module _ (model : List Entry → ℕ) where
  -- The model as a function of the tokens alone.
  abbrev pub next_token : List ℕ → ℕ
  next_token ts = model (numbered 0 ts)

  pub length-argmaxes : (es cached : List Entry) → length (argmaxes model cached es) ≡ length es
  unfolding argmaxes
  length-argmaxes [] cached = refl
  length-argmaxes (e ∷ es) cached = ap suc (length-argmaxes es (cached ++ e ∷ []))

  pub argmaxes-append :
      (es fs cached : List Entry)
      → argmaxes model cached (es ++ fs)
        ≡ argmaxes model cached es ++ argmaxes model (cached ++ es) fs
  unfolding argmaxes
  argmaxes-append [] fs cached = ap (λ c. argmaxes model c fs) (sym (append-nil cached))
  argmaxes-append (e ∷ es) fs cached =
      rw (← append_assoc cached (e ∷ []) es)
        (ap (λ l. model (cached ++ e ∷ []) ∷ l) (argmaxes-append es fs (cached ++ e ∷ [])))

  -- Behind tokens that the cache holds at their positions, and one more, a pass over a proposal
  -- samples what the model says of the tokens.
  pub argmaxes-sampled_from :
      (done : List ℕ) (t : ℕ) (ys : List ℕ)
      → argmaxes model (numbered 0 done) (numbered (length done) (t ∷ ys))
        ≡ sampled_from next_token (done ++ t ∷ []) ys
  unfolding argmaxes sampled_from
  argmaxes-sampled_from done t [] = ap (λ c. model c ∷ []) (numbered-snoc done t)
  argmaxes-sampled_from done t (y ∷ ys) =
      let len : suc (length done) ≡ length (done ++ t ∷ []) =
        omega (arith, length-append done (t ∷ [])) in
      rw (numbered-snoc done t, len)
        (ap (λ l. model (numbered 0 (done ++ t ∷ [])) ∷ l)
          (argmaxes-sampled_from (done ++ t ∷ []) y ys))

-- The logits behind tokens and each part of a proposal, the tokens at their positions.
abbrev pub candidates : List ℕ → List ℕ → List Logits
candidates tokens [] = numbered 0 tokens ∷ []
candidates tokens (y ∷ ys) = numbered 0 tokens ∷ candidates (tokens ++ y ∷ []) ys

pub length-candidates : (tokens ys : List ℕ) → length (candidates tokens ys) ≡ suc (length ys)
length-candidates tokens [] = refl
length-candidates tokens (y ∷ ys) = ap suc (length-candidates (tokens ++ y ∷ []) ys)

pub map-candidates :
    (model : List Entry → ℕ) (tokens ys : List ℕ)
    → map model (candidates tokens ys) ≡ sampled_from (next_token model) tokens ys
unfolding sampled_from
map-candidates model tokens [] = refl
map-candidates model tokens (y ∷ ys) =
    ap (λ l. model (numbered 0 tokens) ∷ l) (map-candidates model (tokens ++ y ∷ []) ys)

-- A pass over a last token and a proposal, behind the others.
pub logits_behind-candidates :
    (done : List ℕ) (t : ℕ) (ys : List ℕ)
    → logits_behind (numbered 0 done) (numbered (length done) (t ∷ ys))
      ≡ candidates (done ++ t ∷ []) ys
unfolding logits_behind
logits_behind-candidates done t [] = ap (λ c. c ∷ []) (numbered-snoc done t)
logits_behind-candidates done t (y ∷ ys) =
    let len : suc (length done) ≡ length (done ++ t ∷ []) =
      omega (arith, length-append done (t ∷ [])) in
    rw (numbered-snoc done t, len)
      (ap (λ l. numbered 0 (done ++ t ∷ []) ∷ l) (logits_behind-candidates (done ++ t ∷ []) y ys))

pub logits_behind-append :
    (es fs cached : List Entry)
    → logits_behind cached (es ++ fs) ≡ logits_behind cached es ++ logits_behind (cached ++ es) fs
unfolding logits_behind
logits_behind-append [] fs cached = ap (λ c. logits_behind c fs) (sym (append-nil cached))
logits_behind-append (e ∷ es) fs cached =
    rw (← append_assoc cached (e ∷ []) es)
      (ap (λ l. (cached ++ e ∷ []) ∷ l) (logits_behind-append es fs (cached ++ e ∷ [])))

pub last_rows-append : (n : ℕ) (xs ys : List Logits) → length ys ≡ n → last_rows n (xs ++ ys) ≡ ys
unfolding last_rows
last_rows-append n xs ys h =
    let e : length (xs ++ ys) - n ≡ length xs = omega (arith, length-append xs ys) in
    rw e (drop-append xs ys)

-- Taking back the last tokens of a cache takes back their entries.
pub remove_cache-numbered :
    (xs zs : List ℕ) (m : ℕ)
    → length zs ≡ m
    → remove_cache m (numbered 0 (xs ++ zs)) ≡ ok (numbered 0 xs)
remove_cache-numbered xs zs m h = rw (← numbered-extend xs zs) (
    remove_cache-append (numbered 0 xs) (numbered (length xs) zs) m
      (length-numbered (length xs) zs ∙ h))
