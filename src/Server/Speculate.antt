-- ===== src/Server/Speculate.antt =====
-- A speculative decode call of the server, and decode calls of either kind.
use amd_pace.Common.{
  ℕ, ◌+◌, ◌≡◌, ◌≤◌, ◌<◌, ◌⊎◌, refl, ap, sym, ◌∙◌, subst, true, false, Option, none, some, List, [],
  ◌∷◌, Dict, has, arith, inl, inr, ok, err, Bool-cases, Result, err-ne-ok, suc,
}
use amd_pace.Kv.{Error}
use amd_pace.Decoding.Speculative.{pard_list_len}
use amd_pace.Decoding.Stopping.{is_in}
use amd_pace.Server.Sequences.{Engine, Sequence}
use amd_pace.Server.Executor.{ModelExecutor, Results, all_fast}
use amd_pace.Server.Steps.{keys, fail_batch, standard_decode}
use amd_pace.Server.Queues.{shape, IsUnique-shape, has-shape, fast}
use amd_pace.Server.Ready.{AllReady, Bounded}
use amd_pace.Server.Valid.{IsValid}
use amd_pace.Server.Failure.{Failed, fail_batch-Failed, is_in-keys}
use amd_pace.Server.Decode.{
  fails_behind, Failed-IsValid, standard_decode-IsValid, same_flags, standard_decode-Failed,
  same_keys,
}
use amd_pace.Server.Speculation.{finish_speculation, speculative_decode, decode, decode_queued}
use amd_pace.Server.Phases.{
  propose_rows_lem, with_last_lem, forward_extended, count_rows_lem, shape-pending, pending_queue,
  drafted_queue,
}
use amd_pace.Server.Answers.{Talked, Settled, Fails}
use amd_pace.Server.Settling.{verify_rows-Settled}

pub list-cases : {A : Type 0} (xs : List A) → (xs ≡ []) ⊎ ((x : A) × (ys : List A) × (xs ≡ x ∷ ys))
list-cases [] = inl refl
list-cases (x ∷ xs) = inr (x, xs, refl)

module _ (engine : Engine) where
  open engine use {models, has_spec_decoder, has_nan}
  open models use {draft_size}

  -- A speculative call either answers every request, or fails the batch because of one of them.
  pub data Speculated (ex : ModelExecutor) (out : ModelExecutor × Results) : Type 0 where
    talked :
        IsValid engine out.0
        → ((n : ℕ) → Bounded (suc n) ex.decode_queue → Bounded n out.0.decode_queue)
        → (all_fast ex.decode_queue ≡ true → Talked engine ex.decode_queue out.0.decode_queue out.1)
        → Speculated ex out
    failed :
        (e : Error)
        → Failed (keys ex.decode_queue) ex e out
        → Fails engine ex.decode_queue e
        → Speculated ex out

  module _ (pos : 0 < draft_size) (fits : draft_size ≤ pard_list_len + 1)
      (spec : has_spec_decoder ≡ true) where
    finished :
        (ex : ModelExecutor) (out : (ModelExecutor × Results) × Result Error Unit)
        → Settled engine ex.prefill_queue ex.decode_queue [] [] (keys ex.decode_queue) out
        → Speculated ex (finish_speculation (keys ex.decode_queue) out)
    finished ex ((ex', results), err e) st = elim st.outcome [
      | inl (e', same, why) ↦
          let f =
            fail_batch-Failed e (keys ex.decode_queue) results ex' st.kept st.exact st.covers in
          failed e
            (record {
              kept = f.kept;
              exact = f.exact;
              emptied = f.emptied;
              others = f.others ∙ st.others;
              told = f.told;
            })
            (let is : e' ≡ e = cc in subst (Fails engine ex.decode_queue) is why)
      | inr (stay, told, same, d, h, b, a, t) ↦ absurd (err-ne-ok e tt same)
    ]
    finished ex ((ex', results), ok tt) st = elim st.outcome [
      | inl (e, same, why) ↦ absurd (err-ne-ok e tt (sym same))
      | inr (stay, told, same, d, h, b, a, t) ↦
          talked
            (record { kept = st.kept; exact = st.exact; ready = subst (AllReady engine) (sym d) h })
            (λ n b'. subst (Bounded n) (sym d) (b n b'))
            (λ f.
              subst (Talked engine ex.decode_queue ex'.decode_queue) (sym a)
                (subst (λ q. Talked engine ex.decode_queue q told) (sym d) (t f)))
    ]

    pub speculative_decode-Speculated :
        (ex : ModelExecutor) → IsValid engine ex → Speculated ex (speculative_decode engine none ex)
    unfolding speculative_decode
    speculative_decode-Speculated ex v =
        let queue = ex.decode_queue in
        let h = v.ready in
        let pend = pending_queue engine pos fits spec queue h in
        let same = shape-pending engine pos fits spec queue h in
        rw
          (
            propose_rows_lem engine pos fits spec queue h,
            with_last_lem engine pos fits spec queue h,
            forward_extended engine pos fits spec queue h,
            count_rows_lem engine pos fits spec queue h,
          )
          (finished ex _ (
            verify_rows-Settled engine pos fits spec (keys queue) queue h ex.prefill_queue [] []
              (record ex { decode_queue = pend }) refl refl (rw same v.kept)
              (same_flags queue pend ex.all_greedy same v.exact)
              (λ id t.
                is_in-keys id queue
                ∙ sym (has-shape id queue)
                ∙ ap (has id) (sym same)
                ∙ has-shape id pend
                ∙ t)
              (λ j t. refl) (IsUnique-shape queue v.kept.decode_unique)))

    shape-drafted :
        (queue : Dict Sequence) (h : AllReady engine queue)
        → shape (drafted_queue engine pos fits spec queue h) ≡ shape queue
    shape-drafted [] h = refl
    shape-drafted ((id, s) ∷ queue) (r, h) = ap (λ l. (id, fast s) ∷ l) (shape-drafted queue h)

    pub speculative_decode-Failed :
        (e : Error) (ex : ModelExecutor)
        → IsValid engine ex
        → Failed (keys ex.decode_queue) ex e (speculative_decode engine (some e) ex)
    unfolding speculative_decode
    speculative_decode-Failed e ex v =
        let queue = ex.decode_queue in
        let drafted = drafted_queue engine pos fits spec queue v.ready in
        let same = shape-drafted queue v.ready in
        rw (propose_rows_lem engine pos fits spec queue v.ready) (
          subst
            (λ ids.
              Failed (keys queue) ex e (fail_batch ids e [] (record ex { decode_queue = drafted })))
            (same_keys drafted queue same) (fails_behind engine e ex drafted ex.rng v same))

  -- The speculative decoder, if there is one, proposes as many tokens as its padding allows.
  abbrev pub Fits : Type 0
  Fits = has_spec_decoder ≡ true → (0 < draft_size) × (draft_size ≤ pard_list_len + 1)

  speculative_decode-IsValid :
      (failure : Option Error) (ex : ModelExecutor)
      → Fits
      → has_spec_decoder ≡ true
      → IsValid engine ex
      → IsValid engine (speculative_decode engine failure ex).0
  speculative_decode-IsValid (some e) ex fit spec v =
      let (pos, fits) = fit spec in
      Failed-IsValid engine (keys ex.decode_queue) ex e _
        (speculative_decode-Failed pos fits spec e ex v)
  speculative_decode-IsValid none ex fit spec v =
      let (pos, fits) = fit spec in
      elim (speculative_decode-Speculated pos fits spec ex v) [
        | talked v' b t ↦ v'
        | failed e f why ↦ Failed-IsValid engine (keys ex.decode_queue) ex e _ f
      ]

  -- The three ways of a decode call.
  pub decode_empty :
      (failure : Option Error) (ex : ModelExecutor)
      → ex.decode_queue ≡ []
      → decode engine failure ex ≡ (ex, [])
  unfolding decode
  decode_empty failure ex e = ap (λ q. decode_queued engine has_spec_decoder q failure ex) e

  pub decode_standard :
      (failure : Option Error) (ex : ModelExecutor) (row : ℕ × Sequence) (queue : Dict Sequence)
      → ex.decode_queue ≡ row ∷ queue
      → has_spec_decoder ≡ false
      → decode engine failure ex ≡ standard_decode engine failure ex
  unfolding decode
  decode_standard failure ex row queue e h =
      ap (λ q. decode_queued engine has_spec_decoder q failure ex) e
      ∙ ap (λ b. decode_queued engine b (row ∷ queue) failure ex) h

  pub decode_speculative :
      (failure : Option Error) (ex : ModelExecutor) (row : ℕ × Sequence) (queue : Dict Sequence)
      → ex.decode_queue ≡ row ∷ queue
      → has_spec_decoder ≡ true
      → decode engine failure ex ≡ speculative_decode engine failure ex
  unfolding decode
  decode_speculative failure ex row queue e h =
      ap (λ q. decode_queued engine has_spec_decoder q failure ex) e
      ∙ ap (λ b. decode_queued engine b (row ∷ queue) failure ex) h

  pub decode-IsValid :
      (failure : Option Error) (ex : ModelExecutor)
      → Fits
      → IsValid engine ex
      → IsValid engine (decode engine failure ex).0
  decode-IsValid failure ex fit v = elim (list-cases ex.decode_queue) [
    | inl e ↦ rw (decode_empty failure ex e) v
    | inr (row, queue, e) ↦ elim (Bool-cases has_spec_decoder) [
      | inl h ↦
          rw (decode_speculative failure ex row queue e h)
            (speculative_decode-IsValid failure ex fit h v)
      | inr h ↦
          rw (decode_standard failure ex row queue e h)
            (standard_decode-IsValid engine failure ex v)
    ]
  ]

  -- When draft_step, merge_contexts or the model's step raises, every request in the decode queue is
  -- answered with the error and leaves it, and the prefill queue stays as it is.
  pub decode-Failed :
      (e : Error) (ex : ModelExecutor)
      → Fits
      → IsValid engine ex
      → Failed (keys ex.decode_queue) ex e (decode engine (some e) ex)
  decode-Failed e ex fit v = elim (list-cases ex.decode_queue) [
    | inl q ↦ rw (decode_empty (some e) ex q) (record {
      kept = v.kept;
      exact = v.exact;
      emptied = q;
      others = refl;
      told = λ id t. absurd (ground (arith, t, ap (λ l. is_in id (keys l)) q));
    })
    | inr (row, queue, q) ↦ elim (Bool-cases has_spec_decoder) [
      | inl h ↦
          let (pos, fits) = fit h in
          subst (Failed (keys ex.decode_queue) ex e)
            (sym (decode_speculative (some e) ex row queue q h))
            (speculative_decode-Failed pos fits h e ex v)
      | inr h ↦
          subst (Failed (keys ex.decode_queue) ex e)
            (sym (decode_standard (some e) ex row queue q h)) (standard_decode-Failed engine e ex v)
    ]
  ]
