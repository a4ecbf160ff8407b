-- ===== src/Server/Settling.antt =====
-- Phase 3 of _speculative_decode for a queue of pending sequences: the loop over the requests.
use amd_pace.Common.{
  ℕ, suc, ◌+◌, ◌-◌, ◌≡◌, ◌≤◌, ◌<◌, refl, ap, sym, ◌∙◌, subst, Bool, true, false, List, [], ◌∷◌,
  ◌++◌, arith, length, Dict, has, put, inl, inr, Bool-cases, ==-eq-true, append_assoc, append-nil,
  IsUnique, take, length-append, length-take, min,
}
use amd_pace.Decoding.Speculative.{pard_list_len}
use amd_pace.Decoding.Speculative.Greedy.{greedy, length-greedy}
use amd_pace.Server.Sequences.{Engine, Sequence}
use amd_pace.Server.Executor.{ModelExecutor, Results, all_fast}
use amd_pace.Server.Steps.{forward}
use amd_pace.Server.Queues.{shape, IsKept, IsExact, IsUnique-shape}
use amd_pace.Server.Ready.{AllReady}
use amd_pace.Server.Failure.{Covers}
use amd_pace.Server.Rounds.{unique_prefix, new}
use amd_pace.Server.Speculation.{verify_rows}
use amd_pace.Server.Proposals.{answered-Ready, fitting, answered, ends, trimmed_to}
use amd_pace.Server.Drafting.{forward-Pending}
use amd_pace.Server.Checks.{verify_row-cases, Raises}
use amd_pace.Server.Phases.{proposed, pending, pending_queue, extended_rows, logits_rows}
use amd_pace.Server.Answers.{
  silent, Reply, Settled, put-append, same_shape, swapped, renamed, going, ending, removed,
  fast_front,
}

module _ (engine : Engine) where
  open engine use {models, has_spec_decoder, has_nan}
  open models use {target_model, draft_size, has_stop_string}

  module _ (pos : 0 < draft_size) (fits : draft_size ≤ pard_list_len + 1)
      (spec : has_spec_decoder ≡ true) where
    pub verify_rows-Settled :
        (ids : List ℕ) (queue : Dict Sequence) (h : AllReady engine queue)
        (waiting p : Dict Sequence) (results : Results) (ex : ModelExecutor)
        → ex.prefill_queue ≡ waiting
        → ex.decode_queue ≡ p ++ pending_queue engine pos fits spec queue h
        → IsKept ex
        → IsExact ex
        → Covers ids ex
        → ((j : ℕ) → has j queue ≡ true → has j results ≡ false)
        → IsUnique queue
        → Settled engine waiting queue p results ids (
            verify_rows engine
              (extended_rows engine pos fits spec queue h)
              (logits_rows engine pos fits spec queue h)
              (pending_queue engine pos fits spec queue h)
              (ex, results))
    unfolding forward
    verify_rows-Settled ids [] h waiting p results ex w e k x c n u = record {
      kept = k;
      exact = x;
      covers = c;
      others = w;
      outcome = inr ([], [], refl, e, tt, (λ n b. tt), sym (append-nil results), λ _. silent);
    }
    verify_rows-Settled ids ((id, s) ∷ queue) (r, h) waiting p results ex w e k x c n (nh, u) =
        let prop = proposed engine pos fits spec s r in
        let s3 = pending engine pos fits spec s r in
        let rest = pending_queue engine pos fits spec queue h in
        let (pend, rows, len, names) = forward-Pending engine s r prop in
        let absent : has id p ≡ false =
          unique_prefix id s3 p rest
            (subst IsUnique e (IsUnique-shape ex.decode_queue k.decode_unique)) in
        let answered_new = n id (rw (==-eq-true id id refl) refl) in
        elim (verify_row-cases engine s3 prop.proposal (r.last ∷ []) _ ex.rng pos pend rows len) [
          | inl (fault, rng', v, why) ↦
              let d : put id s3 ex.decode_queue ≡ p ++ (id, s3) ∷ rest =
                ap (put id s3) e ∙ put-append id s3 s3 p rest absent in
              let (kept, exact, covers) =
                same_shape ids ex (put id s3 ex.decode_queue) rng' (ap shape (d ∙ sym e)) k x c in
              rw v (record {
                kept = kept;
                exact = exact;
                covers = covers;
                others = w;
                outcome = inl (
                  fault,
                  refl,
                  record {
                    id = id;
                    s = s;
                    queued = inl (refl, refl);
                    proposal = prop.proposal;
                    drafted = ap (λ o. o.1) prop.result;
                    why =
                        subst (λ rows. Raises engine s rows fault) names
                          (renamed engine s s3 _ fault refl refl why);
                  },
                );
              })
          | inr checked ↦
              let a = checked.made in
              let base =
                trimmed_to engine (s3.tokens ++ take a.accepted prop.proposal) a.draft s3 in
              let ts = fitting engine (greedy checked.next (suc a.accepted) s3.tokens) s3 in
              let s' = answered engine ts base in
              let v = checked.result ∙ ap (λ o. ((o.0, checked.state), o.1)) a.result in
              let d : put id s' ex.decode_queue ≡ p ++ (id, s') ∷ rest =
                ap (put id s') e ∙ put-append id s' s3 p rest absent in
              let (kept, exact, covers) =
                same_shape ids ex (put id s' ex.decode_queue) checked.state
                  (ap shape d ∙ swapped id s' s3 p rest refl ∙ ap shape (sym e)) k x c in
              let ex' = record ex {
                decode_queue = put id s' ex.decode_queue;
                rng = checked.state;
              } in
              let g = greedy checked.next (suc a.accepted) s3.tokens in
              let longer : length s.tokens < length (s.tokens ++ ts) = omega (
                arith,
                length-append s.tokens ts,
                length-take (min (length g) (s.capacity - length s.tokens)) g,
                length-greedy checked.next (suc a.accepted) s3.tokens,
                r.room,
              ) in
              let reply : all_fast ((id, s) ∷ queue) ≡ true
                  → (done : Bool) → ends engine ts base ≡ done
                  → Reply engine s ts done s' =
                λ f done b. record {
                  accepted = a.accepted;
                  accepted_le = a.accepted_le;
                  greedily =
                      ap (λ g. fitting engine (greedy g (suc a.accepted) s.tokens) s)
                        (checked.fast_path (fast_front engine id s queue f)).0;
                  grown = refl;
                  verdict = refl;
                  stopped = b;
                } in
              elim (Bool-cases (ends engine ts base)) [
                | inr b ↦
                    rw (v, b)
                      (going engine id s s' ts waiting queue p results ids _
                        (answered-Ready engine checked.next s3 prop.proposal _ pend a b) refl longer
                        (λ f. reply f false b) answered_new
                        (verify_rows-Settled ids queue h waiting (p ++ (id, s') ∷ []) _ ex' w
                          (d ∙ sym (append_assoc p ((id, s') ∷ []) rest)) kept exact covers
                          (new id s queue results _ nh n) u))
                | inl b ↦
                    let (d', same', kept', exact', covers') =
                      removed engine ids id s' p rest ex' d kept covers in
                    rw (v, b)
                      (ending engine id s s' ts waiting queue p results ids _ (λ f. reply f true b)
                        answered_new
                        (verify_rows-Settled ids queue h waiting p _ _ (same' ∙ w) d' kept' exact'
                          covers' (new id s queue results _ nh n) u))
              ]
        ]
