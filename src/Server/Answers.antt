-- ===== src/Server/Answers.antt =====
-- What the requests get from phase 3 of _speculative_decode, one of them at a time.
use amd_pace.Decoding.Sampler.{Logits}
use amd_pace.Common.{
  ℕ, suc, ◌≡◌, ◌≤◌, ◌<◌, ◌⊎◌, refl, ap, ap₂, sym, ◌∙◌, subst, Bool, true, false, List, [], ◌∷◌,
  ◌++◌, arith, length, Dict, has, put, erase, ok, err, inl, inr, Bool-cases, ==-eq-true,
  append_assoc, put_new, Result, IsUnique,
}
use amd_pace.Kv.{Error}
use amd_pace.Decoding.Stopping.{stop_now, any}
use amd_pace.Decoding.Speculative.Greedy.{greedy}
use amd_pace.Decoding.Generator.Entries.{next_token, candidates}
use amd_pace.Server.Sequences.{Engine, Sequence}
use amd_pace.Server.Executor.{
  ModelExecutor, Results, completed, decoding_in_progress, all_fast, remove_sequences,
}
use amd_pace.Server.Queues.{
  shape, fast, IsKept, IsExact, has-shape, shape-append, all_true-shape, all_true, IsUnique-shape,
  remove_sequences-Kept,
}
use amd_pace.Server.Ready.{Ready, AllReady, Bounded}
use amd_pace.Server.Failure.{Covers, remove_known, after_erase}
use amd_pace.Server.Rounds.{erase-append, has-append, unique_prefix}
use amd_pace.Server.Speculation.{propose}
use amd_pace.Server.Proposals.{fitting}
use amd_pace.Server.Checks.{Raises, by_nan, by_sampler}

-- The object of a request has changed, its sampler has not.
pub put-append :
    (id : ℕ) (s u : Sequence) (p q : Dict Sequence)
    → has id p ≡ false
    → put id s (p ++ (id, u) ∷ q) ≡ p ++ (id, s) ∷ q
put-append id s u [] q h = rw (==-eq-true id id refl) refl
put-append id s u ((j, v) ∷ p) q h = ground (arith, put-append id s u p q)

-- The same ids and samplers keep what holds of the queues.
pub same_shape :
    (ids : List ℕ) (ex : ModelExecutor) (queue : Dict Sequence) (rng : ℕ)
    → shape queue ≡ shape ex.decode_queue
    → IsKept ex
    → IsExact ex
    → Covers ids ex
    → let ex' = record ex { decode_queue = queue; rng = rng } in
      IsKept ex' × IsExact ex' × Covers ids ex'
same_shape ids ex queue rng e k x c = (
  rw e k,
  x ∙ sym (all_true-shape ex.decode_queue) ∙ ap all_true (sym e) ∙ all_true-shape queue,
  λ j h. c j (sym (has-shape j ex.decode_queue) ∙ ap (has j) (sym e) ∙ has-shape j queue ∙ h),
)

pub swapped :
    (id : ℕ) (s u : Sequence) (p q : Dict Sequence)
    → fast s ≡ fast u
    → shape (p ++ (id, s) ∷ q) ≡ shape (p ++ (id, u) ∷ q)
swapped id s u p q e =
    shape-append p ((id, s) ∷ q)
    ∙ ap (λ b. shape p ++ (id, b) ∷ shape q) e
    ∙ sym (shape-append p ((id, u) ∷ q))

-- Has the queue this sequence under the id?
abbrev pub Holds : ℕ → Sequence → Dict Sequence → Type 0
Holds id s [] = ⊥
Holds id s ((j, u) ∷ queue) = ((j ≡ id) × (u ≡ s)) ⊎ Holds id s queue

module _ (engine : Engine) where
  open engine use {models, has_spec_decoder, has_nan}
  open models use {target_model, draft_size, has_stop_string}

  -- What a request gets: greedy decoding's tokens, one more than are accepted of the proposal, as far
  -- as the buffer has room, and the verdict of the stopping criteria on them.
  pub record Reply (s : Sequence) (ts : List ℕ) (done : Bool) (s' : Sequence) : Type 0 where
    pub accepted : ℕ
    pub accepted_le : accepted ≤ draft_size
    pub greedily : ts ≡ fitting engine (greedy (next_token target_model) (suc accepted) s.tokens) s
    pub grown : s'.tokens ≡ s.tokens ++ ts
    pub verdict :
        (stop_now has_stop_string ((s.tokens ++ ts) ∷ []) (length ts) s.stopping_criteria).0
        ≡ s'.stopping_criteria
    pub stopped :
        any (stop_now has_stop_string ((s.tokens ++ ts) ∷ []) (length ts) s.stopping_criteria).1
        ≡ done

  -- A round of speculative decoding: the queue, what stays of it, and the answers.
  pub data Talked : Dict Sequence → Dict Sequence → Results → Type 0 where
    silent : Talked [] [] []
    goes_on :
        {id : ℕ} {s s' : Sequence} {ts : List ℕ} {queue stay : Dict Sequence} {told : Results}
        → Reply s ts false s'
        → Talked queue stay told
        → Talked ((id, s) ∷ queue) ((id, s') ∷ stay) ((id, decoding_in_progress ts) ∷ told)
    ends_with :
        {id : ℕ} {s s' : Sequence} {ts : List ℕ} {queue stay : Dict Sequence} {told : Results}
        → Reply s ts true s'
        → Talked queue stay told
        → Talked ((id, s) ∷ queue) stay ((id, completed ts s'.stopping_criteria.stop_reason) ∷ told)

  -- A request of the queue fails a call: the logits behind its tokens and each part of its proposal
  -- hold a NaN, or its sampler raises on them.
  pub record Fails (queue : Dict Sequence) (e : Error) : Type 0 where
    pub id : ℕ
    pub s : Sequence
    pub queued : Holds id s queue
    pub proposal : List ℕ
    pub drafted : (propose engine s).1 ≡ ok proposal
    pub why : Raises engine s (candidates s.tokens proposal) e

  pub renamed :
      (s u : Sequence) (rows : List Logits) (e : Error)
      → u.sampler ≡ s.sampler
      → u.tokens ≡ s.tokens
      → Raises engine u rows e
      → Raises engine s rows e
  renamed s u rows e same tokens (by_nan h) = by_nan h
  renamed s u rows e same tokens (by_sampler x rng slow h) =
      by_sampler x rng (ap (λ k. k.greedy_fast_path) (sym same) ∙ slow)
        (ap₂ (λ k ts. (engine.draw_candidates k ts rows rng).1) (sym same) (sym tokens) ∙ h)

  pub later :
      (id : ℕ) (s : Sequence) (queue : Dict Sequence) (e : Error)
      → Fails queue e
      → Fails ((id, s) ∷ queue) e
  later id s queue e f = record {
    id = f.id;
    s = f.s;
    queued = inr f.queued;
    proposal = f.proposal;
    drafted = f.drafted;
    why = f.why;
  }

  -- What the loop leaves.
  pub record Settled (waiting queue p : Dict Sequence) (results : Results) (ids : List ℕ)
      (out : (ModelExecutor × Results) × Result Error Unit) : Type 0 where
    pub kept : IsKept out.0.0
    pub exact : IsExact out.0.0
    pub covers : Covers ids out.0.0
    pub others : out.0.0.prefill_queue ≡ waiting
    pub outcome :
        ((e : Error) × (out.1 ≡ err e) × Fails queue e)
        ⊎ ((stay : Dict Sequence) × (told : Results) × (out.1 ≡ ok tt)
            × (out.0.0.decode_queue ≡ p ++ stay)
            × AllReady engine stay
            × ((n : ℕ) → Bounded (suc n) queue → Bounded n stay)
            × (out.0.1 ≡ results ++ told)
            × (all_fast queue ≡ true → Talked queue stay told))

  pub fast_rest :
      (id : ℕ) (s : Sequence) (queue : Dict Sequence)
      → all_fast ((id, s) ∷ queue) ≡ true
      → all_fast queue ≡ true
  fast_rest id s queue f = elim (Bool-cases (fast s)) [
    | inl e ↦ ground (arith, f, e)
    | inr e ↦ absurd (ground (arith, f, e))
  ]

  pub fast_front :
      (id : ℕ) (s : Sequence) (queue : Dict Sequence)
      → all_fast ((id, s) ∷ queue) ≡ true
      → fast s ≡ true
  fast_front id s queue f = elim (Bool-cases (fast s)) [
    | inl e ↦ e
    | inr e ↦ absurd (ground (arith, f, e))
  ]

  -- The reply of the request at the front, in front of those of the others.
  pub going :
      (id : ℕ) (s s' : Sequence) (ts : List ℕ) (waiting queue p : Dict Sequence) (results : Results)
      (ids : List ℕ) (out : (ModelExecutor × Results) × Result Error Unit)
      → Ready engine s'
      → s'.capacity ≡ s.capacity
      → length s.tokens < length s'.tokens
      → (all_fast ((id, s) ∷ queue) ≡ true → Reply s ts false s')
      → has id results ≡ false
      → Settled waiting queue
          (p ++ (id, s') ∷ [])
          (put id (decoding_in_progress ts) results)
          ids
          out
      → Settled waiting ((id, s) ∷ queue) p results ids out
  going id s s' ts waiting queue p results ids out r same longer reply absent st = record {
    kept = st.kept;
    exact = st.exact;
    covers = st.covers;
    others = st.others;
    outcome = elim st.outcome [
      | inl (x, at, f) ↦ inl (x, at, later id s queue x f)
      | inr (stay, told, e, d, h, b, a, t) ↦ inr (
        (id, s') ∷ stay,
        (id, decoding_in_progress ts) ∷ told,
        e,
        d ∙ append_assoc p ((id, s') ∷ []) stay,
        (r, h),
        (λ n c. (omega (arith, c.0, longer, same), b n c.1)),
        a
            ∙ ap (λ l. l ++ told) (put_new id (decoding_in_progress ts) results absent)
            ∙ append_assoc results ((id, decoding_in_progress ts) ∷ []) told,
        λ f. goes_on (reply f) (t (fast_rest id s queue f)),
      )
    ];
  }

  pub ending :
      (id : ℕ) (s s' : Sequence) (ts : List ℕ) (waiting queue p : Dict Sequence) (results : Results)
      (ids : List ℕ) (out : (ModelExecutor × Results) × Result Error Unit)
      → (all_fast ((id, s) ∷ queue) ≡ true → Reply s ts true s')
      → has id results ≡ false
      → Settled waiting queue p
          (put id (completed ts s'.stopping_criteria.stop_reason) results)
          ids
          out
      → Settled waiting ((id, s) ∷ queue) p results ids out
  ending id s s' ts waiting queue p results ids out reply absent st =
      let o = completed ts s'.stopping_criteria.stop_reason in
      record {
        kept = st.kept;
        exact = st.exact;
        covers = st.covers;
        others = st.others;
        outcome = elim st.outcome [
          | inl (x, at, f) ↦ inl (x, at, later id s queue x f)
          | inr (stay, told, e, d, h, b, a, t) ↦ inr (
            stay,
            (id, o) ∷ told,
            e,
            d,
            h,
            (λ n c. b n c.1),
            a
                ∙ ap (λ l. l ++ told) (put_new id o results absent)
                ∙ append_assoc results ((id, o) ∷ []) told,
            λ f. ends_with (reply f) (t (fast_rest id s queue f)),
          )
        ];
      }

  -- The request at the front has been removed.
  pub removed :
      (ids : List ℕ) (id : ℕ) (s : Sequence) (p q : Dict Sequence) (ex : ModelExecutor)
      → ex.decode_queue ≡ p ++ (id, s) ∷ q
      → IsKept ex
      → Covers ids ex
      → let ex' = remove_sequences (id ∷ []) ex in
        (ex'.decode_queue ≡ p ++ q)
        × (ex'.prefill_queue ≡ ex.prefill_queue)
        × IsKept ex'
        × IsExact ex'
        × Covers ids ex'
  removed ids id s p q ex e k c =
      let here : has id ex.decode_queue ≡ true =
        ap (has id) e ∙ has-append id p ((id, s) ∷ q) (rw (==-eq-true id id refl) refl) in
      let (d, same) = remove_known id ex k here in
      let (kept, exact) = remove_sequences-Kept (id ∷ []) ex k in
      let absent =
        unique_prefix id s p q
          (subst IsUnique e (IsUnique-shape ex.decode_queue k.decode_unique)) in
      (
        d ∙ ap (erase id) e ∙ erase-append id s p q absent,
        same,
        kept,
        exact,
        λ j t. c j (after_erase id j ex.decode_queue (sym (ap (has j) d) ∙ t)),
      )
