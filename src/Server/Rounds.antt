-- ===== src/Server/Rounds.antt =====
-- The loop of _standard_decode behind sampling, and the removal of what it completes.
use amd_pace.Common.{
  ℕ, ◌≡◌, refl, ap, sym, ◌∙◌, subst, Bool, true, false, List, [], ◌∷◌, ◌++◌, Dict, has, put, erase,
  arith, inl, inr, ok, if◌then◌else◌, Bool-cases, append_assoc, append-nil, put_new, IsUnique,
  ==-eq-true, has-put_other, ℕ_discrete,
}
use amd_pace.Server.Sequences.{Engine, Sequence}
use amd_pace.Server.Executor.{ModelExecutor, Results, Outcome, remove_one, remove_each}
use amd_pace.Server.Steps.{commit, add_completed, outcome_of}
use amd_pace.Server.Queues.{
  shape, fast, IsKept, remove_one_decode, remove_one-Kept, IsUnique-shape, absent_prefill,
  absent_prefill,
}
use amd_pace.Server.Ready.{AllReady, caught_up, turned, stopped, advance_lem, turned-Ready}
use amd_pace.Server.Conversations.{conversation, conversations, choose, serve}
use amd_pace.Server.Batch.{caught, choose_all}

-- Where the first key of a dictionary's part stands.
pub erase-append :
    (id : ℕ) (s : Sequence) (p q : Dict Sequence)
    → has id p ≡ false
    → erase id (p ++ (id, s) ∷ q) ≡ p ++ q
erase-append id s [] q h = rw (==-eq-true id id refl) refl
erase-append id s ((j, u) ∷ p) q h = ground (arith, erase-append id s p q)

pub has-append : (id : ℕ) (p q : Dict Sequence) → has id q ≡ true → has id (p ++ q) ≡ true
has-append id [] q h = h
has-append id ((j, u) ∷ p) q h = ground (arith, has-append id p q h)

pub unique_prefix :
    (id : ℕ) (s : Sequence) (p q : Dict Sequence) → IsUnique (p ++ (id, s) ∷ q) → has id p ≡ false
unique_prefix id s [] q u = refl
unique_prefix id s ((j, v) ∷ p) q (h, u) = elim (ℕ_discrete id j) [
  | yes same ↦ absurd (
      ground (
        arith,
        h,
        ap (λ i. has i (p ++ (id, s) ∷ q)) same,
        has-append id p ((id, s) ∷ q) (rw (==-eq-true id id refl) refl),
      ))
  | no ne ↦ ground (arith, unique_prefix id s p q u)
]

-- What is answered so far has no other request of the queue.
pub new :
    (id : ℕ) (s : Sequence) (queue : Dict Sequence) (results : Results) (out : Outcome)
    → has id queue ≡ false
    → ((j : ℕ) → has j ((id, s) ∷ queue) ≡ true → has j results ≡ false)
    → (j : ℕ) → has j queue ≡ true
    → has j (put id out results) ≡ false
new id s queue results out x n j h = elim (ℕ_discrete j id) [
  | yes same ↦ absurd (ground (arith, h, x, ap (λ i. has i queue) same))
  | no ne ↦ has-put_other id j out results ne ∙ n j (ground arith)
]

module _ (engine : Engine) where
  -- The sequences behind the loop, those that stay, the ids of the others, and what is answered.
  abbrev pub turned_all : List ℕ → Dict Sequence → Dict Sequence
  turned_all (t ∷ ts) ((id, s) ∷ queue) =
      (id, turned engine t (caught_up engine s)) ∷ turned_all ts queue
  turned_all _ queue = caught queue

  abbrev pub staying : List ℕ → Dict Sequence → Dict Sequence
  staying (t ∷ ts) ((id, s) ∷ queue) =
      if stopped engine t s
      then staying ts queue
      else (id, turned engine t (caught_up engine s)) ∷ staying ts queue
  staying _ queue = caught queue

  abbrev pub completed_ids : List ℕ → Dict Sequence → List ℕ
  completed_ids (t ∷ ts) ((id, s) ∷ queue) =
      if stopped engine t s then id ∷ completed_ids ts queue else completed_ids ts queue
  completed_ids _ queue = []

  abbrev pub outcomes : List ℕ → Dict Sequence → Results
  outcomes (t ∷ ts) ((id, s) ∷ queue) =
      (id, outcome_of (stopped engine t s) (t ∷ []) (turned engine t (caught_up engine s)))
      ∷ outcomes ts queue
  outcomes _ queue = []

  pub shape-turned_all :
      (ts : List ℕ) (queue : Dict Sequence) → shape (turned_all ts queue) ≡ shape queue
  shape-turned_all [] [] = refl
  shape-turned_all (t ∷ ts) [] = refl
  shape-turned_all [] ((id, s) ∷ queue) = ap (λ l. (id, fast s) ∷ l) (shape-turned_all [] queue)
  shape-turned_all (t ∷ ts) ((id, s) ∷ queue) =
      ap (λ l. (id, fast s) ∷ l) (shape-turned_all ts queue)

  add_completed_lem :
      (b : Bool) (id : ℕ) (ids : List ℕ)
      → add_completed b id (ok ids) ≡ ok (if b then id ∷ ids else ids)
  add_completed_lem true id ids = refl
  add_completed_lem false id ids = refl

  -- The loop does not raise on ready sequences.
  pub commit_lem :
      (ts : List ℕ) (queue : Dict Sequence) (results : Results)
      → AllReady engine queue
      → IsUnique queue
      → ((j : ℕ) → has j queue ≡ true → has j results ≡ false)
      → commit engine ts (caught queue) results
        ≡ (turned_all ts queue, results ++ outcomes ts queue, ok (completed_ids ts queue))
  commit_lem [] [] results h u n = ap (λ l. ([], l, ok [])) (sym (append-nil results))
  commit_lem (t ∷ ts) [] results h u n = ap (λ l. ([], l, ok [])) (sym (append-nil results))
  commit_lem [] ((id, s) ∷ queue) results h u n =
      ap (λ l. (caught ((id, s) ∷ queue), l, ok [])) (sym (append-nil results))
  commit_lem (t ∷ ts) ((id, s) ∷ queue) results (r, h) (x, u) n =
      let out = outcome_of (stopped engine t s) (t ∷ []) (turned engine t (caught_up engine s)) in
      let absent : has id results ≡ false = n id (rw (==-eq-true id id refl) refl) in
      rw
        (
          advance_lem engine t (caught_up engine s) r.room,
          commit_lem ts queue (put id out results) h u (new id s queue results out x n),
          put_new id out results absent,
          add_completed_lem (stopped engine t s) id (completed_ids ts queue),
          append_assoc results ((id, out) ∷ []) (outcomes ts queue),
        )
        refl

  pub serve_lem :
      (queue : Dict Sequence) (rng : ℕ)
      → serve engine (conversations queue) rng ≡ (
        conversations (staying (choose_all engine queue rng).0 queue),
        outcomes (choose_all engine queue rng).0 queue,
        (choose_all engine queue rng).1,
      )
  unfolding serve
  serve_lem [] rng = refl
  serve_lem ((id, s) ∷ queue) rng =
      let (t, rng') = choose engine (conversation s) rng in
      elim (Bool-cases (stopped engine t s)) [
        | inl e ↦ rw (serve_lem queue rng', e) refl
        | inr e ↦ rw (serve_lem queue rng', e) refl
      ]

  pub remove_completed :
      (ts : List ℕ) (q p : Dict Sequence) (ex : ModelExecutor)
      → ex.decode_queue ≡ p ++ turned_all ts q
      → IsKept ex
      → (remove_each (completed_ids ts q) ex).decode_queue ≡ p ++ staying ts q
  remove_completed [] [] p ex e k = e
  remove_completed (t ∷ ts) [] p ex e k = e
  remove_completed [] ((id, s) ∷ q) p ex e k = e
  remove_completed (t ∷ ts) ((id, s) ∷ q) p ex e k =
      let s' = turned engine t (caught_up engine s) in
      elim (Bool-cases (stopped engine t s)) [
        | inl b ↦
            let here : has id ex.decode_queue ≡ true =
              ap (has id) e
              ∙ has-append id p ((id, s') ∷ turned_all ts q) (rw (==-eq-true id id refl) refl) in
            let left : (remove_one id ex).decode_queue ≡ p ++ turned_all ts q =
              ap (λ x. x.decode_queue) (remove_one_decode id ex (absent_prefill id ex k here) here)
              ∙ ap (erase id) e
              ∙ erase-append id s' p (turned_all ts q) (
                  unique_prefix id s' p (turned_all ts q)
                    (subst IsUnique e (IsUnique-shape ex.decode_queue k.decode_unique))) in
            rw b (remove_completed ts q p (remove_one id ex) left (remove_one-Kept id ex k))
        | inr b ↦ rw b (
            remove_completed ts q (p ++ (id, s') ∷ []) ex
              (e ∙ sym (append_assoc p ((id, s') ∷ []) (turned_all ts q))) k
            ∙ append_assoc p ((id, s') ∷ []) (staying ts q))
      ]

  -- What stays is ready for the next round.
  pub staying-AllReady :
      (queue : Dict Sequence) (rng : ℕ)
      → AllReady engine queue
      → AllReady engine (staying (choose_all engine queue rng).0 queue)
  staying-AllReady [] rng h = tt
  staying-AllReady ((id, s) ∷ queue) rng (r, h) =
      let (t, rng') = choose engine (conversation s) rng in
      elim (Bool-cases (stopped engine t s)) [
        | inl e ↦ rw e (staying-AllReady queue rng' h)
        | inr e ↦ rw e (turned-Ready engine t s r e, staying-AllReady queue rng' h)
      ]
