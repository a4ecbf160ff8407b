-- ===== src/Server/Runs.antt =====
-- Runs of the server: prefill of new requests and decode calls in any order.
use amd_pace.Common.{
  ℕ, suc, ◌≡◌, refl, sym, subst, true, false, Option, none, some, List, [], ◌∷◌, Dict, has, length,
  arith, inl, inr, Bool-cases, length-append,
}
use amd_pace.Kv.{Error}
use amd_pace.Server.Sequences.{Engine, Sequence, PrefillRequest}
use amd_pace.Server.Executor.{ModelExecutor, init_executor, remove_sequences}
use amd_pace.Server.Steps.{prefill, standard_decode, PrefillFailure}
use amd_pace.Server.Ready.{AllReady, Bounded, stopped}
use amd_pace.Server.Valid.{IsValid, prefill-IsValid, remove_sequences-IsValid}
use amd_pace.Server.Conversations.{conversation, choose}
use amd_pace.Server.Batch.{choose_all}
use amd_pace.Server.Rounds.{staying}
use amd_pace.Server.Decode.{standard_decode-Failed, decode-cases, standard_decode-Serves}
use amd_pace.Server.Speculation.{decode, speculative_decode}
use amd_pace.Server.Speculate.{
  Fits, decode-IsValid, list-cases, speculative_decode-Failed, decode_empty, decode_speculative,
  speculative_decode-Speculated, talked, decode_standard, failed,
}

module _ (engine : Engine) where
  open engine use {has_spec_decoder}

  -- A call of the router: the prefill of a request that is new, a decode, or a removal; what the
  -- model's step raises is arbitrary.
  infix 20 ◌⟶◌
  pub data ◌⟶◌ : ModelExecutor → ModelExecutor → Type 0 where
    prefilled :
        {ex : ModelExecutor} (failure : PrefillFailure) (request : PrefillRequest)
        → has request.request_id ex.prefill_queue ≡ false
        → has request.request_id ex.decode_queue ≡ false
        → ex ⟶ (prefill engine failure request ex).0
    removed : {ex : ModelExecutor} (ids : List ℕ) → ex ⟶ remove_sequences ids ex
    decoded : {ex : ModelExecutor} (failure : Option Error) → ex ⟶ (decode engine failure ex).0

  pub data Reaches : ModelExecutor → Type 0 where
    started : (rng : ℕ) → Reaches (init_executor rng)
    called : {ex ex' : ModelExecutor} → Reaches ex → ex ⟶ ex' → Reaches ex'

  init-IsValid : (rng : ℕ) → IsValid engine (init_executor rng)
  init-IsValid rng = record {
    kept = record {
      prefill_unique = tt;
      decode_unique = tt;
      apart = λ id h. refl;
      promised = λ h. refl;
      counted = refl;
    };
    exact = refl;
    ready = tt;
  }

  call-IsValid :
      (ex ex' : ModelExecutor) → Fits engine → IsValid engine ex → ex ⟶ ex' → IsValid engine ex'
  call-IsValid ex ex' fit v (prefilled failure request p d) =
      prefill-IsValid engine failure request ex v p d
  call-IsValid ex ex' fit v (removed ids) = remove_sequences-IsValid engine ids ex v
  call-IsValid ex ex' fit v (decoded failure) = decode-IsValid engine failure ex fit v

  -- What the server reaches from its start by prefills of new requests, decode calls and removals is
  -- valid, whatever is raised in the calls, if it proposes no more than 33 tokens at once.
  pub reachable-IsValid : (ex : ModelExecutor) → Fits engine → Reaches ex → IsValid engine ex
  reachable-IsValid ex fit (started rng) = init-IsValid rng
  reachable-IsValid ex fit (called {ex = ex0} r s) =
      call-IsValid ex0 ex fit (reachable-IsValid ex0 fit r) s

  staying-Bounded :
      (n : ℕ) (queue : Dict Sequence) (rng : ℕ)
      → Bounded (suc n) queue
      → Bounded n (staying engine (choose_all engine queue rng).0 queue)
  staying-Bounded n [] rng b = tt
  staying-Bounded n ((id, s) ∷ queue) rng (b, bs) =
      let (t, rng') = choose engine (conversation s) rng in
      elim (Bool-cases (stopped engine t s)) [
        | inl e ↦ rw e (staying-Bounded n queue rng' bs)
        | inr e ↦
            rw e
              (omega (arith, b, length-append s.tokens (t ∷ [])), staying-Bounded n queue rng' bs)
      ]

  none_Bounded : (n : ℕ) (queue : Dict Sequence) → queue ≡ [] → Bounded n queue
  none_Bounded n queue e = subst (Bounded n) (sym e) tt

  standard-Bounded :
      (failure : Option Error) (ex : ModelExecutor) (n : ℕ)
      → IsValid engine ex
      → Bounded (suc n) ex.decode_queue
      → Bounded n (standard_decode engine failure ex).0.decode_queue
  standard-Bounded (some e) ex n v b =
      let f = standard_decode-Failed engine e ex v in none_Bounded n _ f.emptied
  standard-Bounded none ex n v b = elim (decode-cases engine ex v) [
    | inl c ↦
        let s = standard_decode-Serves engine ex v c in
        subst (Bounded n) (sym s.left) (staying-Bounded n ex.decode_queue ex.rng b)
    | inr (e, f) ↦ none_Bounded n _ f.emptied
  ]

  speculative-Bounded :
      (failure : Option Error) (ex : ModelExecutor) (n : ℕ)
      → Fits engine
      → has_spec_decoder ≡ true
      → IsValid engine ex
      → Bounded (suc n) ex.decode_queue
      → Bounded n (speculative_decode engine failure ex).0.decode_queue
  speculative-Bounded (some e) ex n fit spec v b =
      let (pos, fits) = fit spec in
      let f = speculative_decode-Failed engine pos fits spec e ex v in none_Bounded n _ f.emptied
  speculative-Bounded none ex n fit spec v b =
      let (pos, fits) = fit spec in
      elim (speculative_decode-Speculated engine pos fits spec ex v) [
        | talked v' shorter t ↦ shorter n b
        | failed e f why ↦ none_Bounded n _ f.emptied
      ]

  -- A decode call takes room for a token from every sequence that stays.
  decode-Bounded :
      (failure : Option Error) (ex : ModelExecutor) (n : ℕ)
      → Fits engine
      → IsValid engine ex
      → Bounded (suc n) ex.decode_queue
      → Bounded n (decode engine failure ex).0.decode_queue
  decode-Bounded failure ex n fit v b = elim (list-cases ex.decode_queue) [
    | inl e ↦ rw (decode_empty engine failure ex e) (none_Bounded n ex.decode_queue e)
    | inr (row, queue, e) ↦ elim (Bool-cases has_spec_decoder) [
      | inl h ↦
          rw (decode_speculative engine failure ex row queue e h)
            (speculative-Bounded failure ex n fit h v b)
      | inr h ↦
          rw (decode_standard engine failure ex row queue e h) (standard-Bounded failure ex n v b)
    ]
  ]

  full_none : (queue : Dict Sequence) → AllReady engine queue → Bounded 0 queue → queue ≡ []
  full_none [] h b = refl
  full_none ((id, s) ∷ queue) (r, h) (b, bs) = absurd (omega (arith, r.room, b))

  -- Decode calls one behind the other, with what is raised in each.
  abbrev pub decode_calls : List (Option Error) → ModelExecutor → ModelExecutor
  decode_calls [] ex = ex
  decode_calls (failure ∷ failures) ex = decode_calls failures (decode engine failure ex).0

  -- When no sequence of the decode queue of a valid executor has room for more tokens than decode
  -- calls follow, the queue is empty behind them, whatever is raised in the calls.
  pub decode_calls-drain :
      (failures : List (Option Error)) (ex : ModelExecutor)
      → Fits engine
      → IsValid engine ex
      → Bounded (length failures) ex.decode_queue
      → (decode_calls failures ex).decode_queue ≡ []
  decode_calls-drain [] ex fit v b = full_none ex.decode_queue v.ready b
  decode_calls-drain (failure ∷ failures) ex fit v b =
      decode_calls-drain failures (decode engine failure ex).0 fit
        (decode-IsValid engine failure ex fit v)
        (decode-Bounded failure ex (length failures) fit v b)
