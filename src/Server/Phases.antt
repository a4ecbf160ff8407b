-- ===== src/Server/Phases.antt =====
-- Phases 1 and 2 of _speculative_decode for a queue of ready sequences.
use amd_pace.Decoding.Sampler.{Logits}
use amd_pace.Common.{
  ℕ, suc, ◌+◌, ◌-◌, ◌≡◌, ◌≤◌, ◌<◌, refl, ap, ◌∙◌, true, List, [], ◌∷◌, ◌++◌, arith, length, map,
  replicate, Dict, ok,
}
use amd_pace.Decoding.Speculative.{last_n, last_n-append, pard_list_len}
use amd_pace.Server.Sequences.{Engine, Sequence}
use amd_pace.Server.Steps.{
  forward, forward_rows, batch_input_ids, left_padded, max_len, count_computed,
}
use amd_pace.Server.Queues.{shape, fast}
use amd_pace.Server.Ready.{Ready, AllReady}
use amd_pace.Server.Speculation.{set_draft, propose_rows, with_last, count_rows}
use amd_pace.Server.Drafting.{Proposed, propose-Proposed}

module _ (engine : Engine) where
  open engine use {models, has_spec_decoder}
  open models use {draft_size}

  module _ (pos : 0 < draft_size) (fits : draft_size ≤ pard_list_len + 1)
      (spec : has_spec_decoder ≡ true) where
    abbrev pub proposed : (s : Sequence) → Ready engine s → Proposed engine s
    proposed s r = propose-Proposed engine s pos fits (r.draft_ready spec)

    -- The last token and the proposal.
    abbrev pub extended : (s : Sequence) → Ready engine s → List ℕ
    extended s r = let p = proposed s r in r.last ∷ p.proposal

    -- The sequence behind its proposal.
    abbrev pub drafted : (s : Sequence) → Ready engine s → Sequence
    drafted s r = let p = proposed s r in set_draft p.state s

    -- The sequence behind the target's pass.
    abbrev pub pending : (s : Sequence) → Ready engine s → Sequence
    pending s r =
        count_computed (length (extended s r))
          (forward (extended s r) (extended s r) (drafted s r)).0

    abbrev pub drafted_queue : (queue : Dict Sequence) → AllReady engine queue → Dict Sequence
    drafted_queue [] h = []
    drafted_queue ((id, s) ∷ queue) (r, h) = (id, drafted s r) ∷ drafted_queue queue h

    abbrev pub proposals : (queue : Dict Sequence) → AllReady engine queue → List (List ℕ)
    proposals [] h = []
    proposals ((id, s) ∷ queue) (r, h) = (let p = proposed s r in p.proposal) ∷ proposals queue h

    abbrev pub extended_rows : (queue : Dict Sequence) → AllReady engine queue → List (List ℕ)
    extended_rows [] h = []
    extended_rows ((id, s) ∷ queue) (r, h) = extended s r ∷ extended_rows queue h

    abbrev pub forwarded : (queue : Dict Sequence) → AllReady engine queue → Dict Sequence
    forwarded [] h = []
    forwarded ((id, s) ∷ queue) (r, h) =
        (id, (forward (extended s r) (extended s r) (drafted s r)).0) ∷ forwarded queue h

    abbrev pub pending_queue : (queue : Dict Sequence) → AllReady engine queue → Dict Sequence
    pending_queue [] h = []
    pending_queue ((id, s) ∷ queue) (r, h) = (id, pending s r) ∷ pending_queue queue h

    abbrev pub logits_rows : (queue : Dict Sequence) → AllReady engine queue → List (List Logits)
    logits_rows [] h = []
    logits_rows ((id, s) ∷ queue) (r, h) =
        (forward (extended s r) (extended s r) (drafted s r)).1 ∷ logits_rows queue h

    pub propose_rows_lem :
        (queue : Dict Sequence) (h : AllReady engine queue)
        → propose_rows engine queue ≡ (drafted_queue queue h, ok (proposals queue h))
    propose_rows_lem [] h = refl
    propose_rows_lem ((id, s) ∷ queue) (r, h) =
        let p = proposed s r in rw (p.result, propose_rows_lem queue h) refl

    pub with_last_lem :
        (queue : Dict Sequence) (h : AllReady engine queue)
        → with_last (drafted_queue queue h) (proposals queue h) ≡ extended_rows queue h
    with_last_lem [] h = refl
    with_last_lem ((id, s) ∷ queue) (r, h) =
        let p = proposed s r in
        let last : last_n 1 s.tokens ≡ r.last ∷ [] =
          ap (last_n 1) r.tokens ∙ last_n-append 1 r.done (r.last ∷ []) (omega arith) refl in
        rw (last, with_last_lem queue h) refl

    length-extended : (s : Sequence) (r : Ready engine s) → length (extended s r) ≡ suc draft_size
    length-extended s r = let p = proposed s r in ap suc p.length-proposal

    short_rows :
        (queue : Dict Sequence) (h : AllReady engine queue)
        → max_len (extended_rows queue h) ≤ suc draft_size
    short_rows [] h = omega arith
    short_rows ((id, s) ∷ queue) (r, h) = omega (arith, short_rows queue h, length-extended s r)

    unpadded : (m : ℕ) (ids : List ℕ) → m ≤ length ids → left_padded 0 m ids ≡ ids
    unpadded m ids le = let e : m - length ids ≡ 0 = omega arith in ap (λ n. replicate n 0 ++ ids) e

    forward_padded :
        (m : ℕ) (queue : Dict Sequence) (h : AllReady engine queue)
        → m ≤ suc draft_size
        → forward_rows
            (map (left_padded 0 m) (extended_rows queue h))
            (extended_rows queue h)
            (drafted_queue queue h)
          ≡ (forwarded queue h, logits_rows queue h)
    forward_padded m [] h le = refl
    forward_padded m ((id, s) ∷ queue) (r, h) le =
        rw
          (
            unpadded m (extended s r) (omega (arith, length-extended s r)),
            forward_padded m queue h le,
          )
          refl

    -- No row of the batch is padded.
    pub forward_extended :
        (queue : Dict Sequence) (h : AllReady engine queue)
        → forward_rows
            (batch_input_ids (extended_rows queue h) 0)
            (extended_rows queue h)
            (drafted_queue queue h)
          ≡ (forwarded queue h, logits_rows queue h)
    unfolding batch_input_ids
    forward_extended queue h =
        forward_padded (max_len (extended_rows queue h)) queue h (short_rows queue h)

    pub count_rows_lem :
        (queue : Dict Sequence) (h : AllReady engine queue)
        → count_rows (forwarded queue h) (extended_rows queue h) ≡ pending_queue queue h
    count_rows_lem [] h = refl
    count_rows_lem ((id, s) ∷ queue) (r, h) =
        ap (λ l. (id, pending s r) ∷ l) (count_rows_lem queue h)

    pub shape-pending :
        (queue : Dict Sequence) (h : AllReady engine queue)
        → shape (pending_queue queue h) ≡ shape queue
    unfolding forward
    shape-pending [] h = refl
    shape-pending ((id, s) ∷ queue) (r, h) = ap (λ l. (id, fast s) ∷ l) (shape-pending queue h)
