-- ===== src/Router/Runs.antt =====
-- Runs of a worker of the router: submissions, answers of the engine, cancellations and cleanups in any
-- order.
use amd_pace.Common.{
  ℕ, ◌≡◌, ◌≤◌, refl, sym, ap, ◌∙◌, Bool, true, false, ◌||◌, List, [], ◌∷◌, ◌++◌, Dict, arith, count,
  count-nil, count-cons, ℕ_discrete, count-append, ◌⊎◌, map, inl, append-nil, inr, erase,
  ==-eq-true, append_assoc,
}
use amd_pace.Server.Steps.{keys}
use amd_pace.Router.Requests.{Request, Reply, end_item, is_error, raised, refused, put_item}
use amd_pace.Router.Worker.{
  Worker, init_worker, submit_request, drain_queue, prefill_next, decode_step, cancel,
  clear_cancelled, cleanup_request, fail_all, finalize_decode_request,
}
use amd_pace.Router.Streams.{IsWaiting, IsSound, IsSound-more, All-append}
use amd_pace.Router.Sound.{
  fails_in, prefill_front-IsSound, decode_step-IsSound, clear_cancelled-IsSound,
}
use amd_pace.Router.Conserved.{
  ids_of, held, count_snoc, ids_of-append, held-prefill_front, held-decode_step,
  held-clear_cancelled,
}

-- What a worker reaches, with the ids that were submitted to it, and which were in a failed batch. Ids are fresh, as uuid4 makes them.
pub data Reaches : List ℕ → (ℕ → Bool) → Worker → Type 0 where
  started : Reaches [] (λ j. false) init_worker
  submitted :
      {ids : List ℕ} {broken : ℕ → Bool} {w : Worker} (r : Request)
      → Reaches ids broken w
      → IsWaiting r
      → count r.request_id ids ≡ 0
      → Reaches (r.request_id ∷ ids) broken (submit_request r w)
  drained :
      {ids : List ℕ} {broken : ℕ → Bool} {w : Worker}
      → Reaches ids broken w
      → Reaches ids broken (drain_queue w)
  prefilled :
      {ids : List ℕ} {broken : ℕ → Bool} {w : Worker} (reply : Reply)
      → Reaches ids broken w
      → Reaches ids broken (prefill_next reply w)
  decoded :
      {ids : List ℕ} {broken : ℕ → Bool} {w : Worker} (reply : Reply)
      → Reaches ids broken w
      → Reaches ids (λ j. broken j || fails_in reply w j) (decode_step reply w)
  cancelled :
      {ids : List ℕ} {broken : ℕ → Bool} {w : Worker} (id : ℕ)
      → Reaches ids broken w
      → Reaches ids broken (cancel id w)
  cleared :
      {ids : List ℕ} {broken : ℕ → Bool} {w : Worker}
      → Reaches ids broken w
      → Reaches ids broken (clear_cancelled w.cancelled_requests w)
  cleaned :
      {ids : List ℕ} {broken : ℕ → Bool} {w : Worker} (id : ℕ)
      → Reaches ids broken w
      → Reaches ids broken (cleanup_request id w)

-- Sound streams, and each submitted request held once.
pub record Keeps (ids : List ℕ) (broken : ℕ → Bool) (w : Worker) : Type 0 where
  pub sound : IsSound broken w
  pub conserved : (j : ℕ) → held j w ≡ count j ids
  pub single : (j : ℕ) → count j ids ≤ 1

init-Keeps : Keeps [] (λ j. false) init_worker
init-Keeps = record {
  sound = record { waiting = tt; prefilling = tt; decoding = tt; ended = tt; given_up = tt };
  conserved = λ j. omega (arith, count-nil j);
  single = λ j. omega (arith, count-nil j);
}

submit_request-Keeps :
    (ids : List ℕ) (broken : ℕ → Bool) (r : Request) (w : Worker)
    → Keeps ids broken w
    → IsWaiting r
    → count r.request_id ids ≡ 0
    → Keeps (r.request_id ∷ ids) broken (submit_request r w)
submit_request-Keeps ids broken r w k h fresh =
    let s = k.sound in
    record {
      sound = record {
        waiting = All-append IsWaiting w.request_queue _ s.waiting (h, tt);
        prefilling = s.prefilling;
        decoding = s.decoding;
        ended = s.ended;
        given_up = s.given_up;
      };
      conserved = λ j.
          omega
            (arith, count_snoc j w.request_queue r, k.conserved j, count-cons j r.request_id ids);
      single = λ j. elim (ℕ_discrete j r.request_id) [
        | yes same ↦ rw same (grind (arith, count-cons r.request_id r.request_id ids, fresh))
        | no ne ↦ grind (arith, count-cons j r.request_id ids, k.single j)
      ];
    }

drain_queue-Keeps :
    (ids : List ℕ) (broken : ℕ → Bool) (w : Worker)
    → Keeps ids broken w
    → Keeps ids broken (drain_queue w)
drain_queue-Keeps ids broken w k =
    let s = k.sound in
    record {
      sound = record {
        waiting = tt;
        prefilling = All-append IsWaiting w.pending w.request_queue s.prefilling s.waiting;
        decoding = s.decoding;
        ended = s.ended;
        given_up = s.given_up;
      };
      conserved = λ j. omega (
        arith,
        count-nil j,
        ap (count j) (ids_of-append w.pending w.request_queue),
        count-append j (ids_of w.pending) (ids_of w.request_queue),
        k.conserved j,
      );
      single = k.single;
    }

orl : (a b : Bool) → a ≡ true → (a || b) ≡ true
orl a b h = ground (arith, h)

orr : (a b : Bool) → b ≡ true → (a || b) ≡ true
orr a b h = ground (arith, h)

-- A worker that runs in any order of its steps, whatever the engine answers, holds each submitted
-- request exactly once: waiting with an empty stream, streaming tokens in the decode queue, cancelled,
-- or concluded, and then the stream has its tokens and one end that fits the request's status: for
-- COMPLETED the plain end; for ERROR the item "ERROR", with the end behind it or not, or the plain end,
-- but that only if a batch with the request in it failed as a whole.
pub reachable-Keeps :
    (ids : List ℕ) (broken : ℕ → Bool) (w : Worker) → Reaches ids broken w → Keeps ids broken w
unfolding prefill_next
reachable-Keeps ids broken w started = init-Keeps
reachable-Keeps ids broken w (submitted {ids = ids'} {w = w'} r c h fresh) =
    submit_request-Keeps ids' broken r w' (reachable-Keeps ids' broken w' c) h fresh
reachable-Keeps ids broken w (drained {w = w'} c) =
    drain_queue-Keeps ids broken w' (reachable-Keeps ids broken w' c)
reachable-Keeps ids broken w (prefilled {w = w'} reply c) =
    let k = reachable-Keeps ids broken w' c in
    record {
      sound = prefill_front-IsSound broken reply w'.pending w' refl k.sound;
      conserved = λ j.
          held-prefill_front broken j reply w'.pending w' refl k.sound
            (λ i. omega (arith, k.conserved i, k.single i))
          ∙ k.conserved j;
      single = k.single;
    }
reachable-Keeps ids broken w (decoded {broken = earlier} {w = w'} reply c) =
    let k = reachable-Keeps ids earlier w' c in
    let more = λ (j : ℕ). orl (earlier j) (fails_in reply w' j) in
    record {
      sound =
          decode_step-IsSound broken reply w' (λ j. orr (earlier j) (fails_in reply w' j))
            (IsSound-more earlier broken w' more k.sound);
      conserved = λ j. held-decode_step earlier j reply w' k.sound ∙ k.conserved j;
      single = k.single;
    }
reachable-Keeps ids broken w (cancelled {w = w'} id c) =
    let k = reachable-Keeps ids broken w' c in
    let s = k.sound in
    record {
      sound = record {
        waiting = s.waiting;
        prefilling = s.prefilling;
        decoding = s.decoding;
        ended = s.ended;
        given_up = s.given_up;
      };
      conserved = k.conserved;
      single = k.single;
    }
reachable-Keeps ids broken w (cleared {w = w'} c) =
    let k = reachable-Keeps ids broken w' c in
    record {
      sound = clear_cancelled-IsSound broken w'.cancelled_requests w' k.sound;
      conserved =
          λ j. held-clear_cancelled broken j w'.cancelled_requests w' k.sound ∙ k.conserved j;
      single = k.single;
    }
reachable-Keeps ids broken w (cleaned {w = w'} id c) =
    let k = reachable-Keeps ids broken w' c in
    let s = k.sound in
    record {
      sound = record {
        waiting = s.waiting;
        prefilling = s.prefilling;
        decoding = s.decoding;
        ended = s.ended;
        given_up = s.given_up;
      };
      conserved = k.conserved;
      single = k.single;
    }

-- A request when its whole batch failed: it is marked as an error, and its stream ends.
abbrev pub broken_off : Request → Request
broken_off r = put_item end_item (record r { status = is_error; is_finished = true })

abbrev pub requests : Dict Request → List Request
requests [] = []
requests ((id, r) ∷ queue) = r ∷ requests queue

fail_all-concludes :
    (queue : Dict Request) (w : Worker)
    → w.decode_queue ≡ queue
    → ((fail_all queue w).decode_queue ≡ [])
      × ((fail_all queue w).concluded ≡ w.concluded ++ map broken_off (requests queue))
      × ((fail_all queue w).cleared ≡ w.cleared ++ keys queue)
      × ((fail_all queue w).cleanups ≡ w.cleanups ++ keys queue)
fail_all-concludes [] w e =
    (e, sym (append-nil w.concluded), sym (append-nil w.cleared), sym (append-nil w.cleanups))
fail_all-concludes ((id, r) ∷ queue) w e =
    let w' = finalize_decode_request r id is_error end_item w in
    let rest : w'.decode_queue ≡ queue = ap (erase id) e ∙ rw (==-eq-true id id refl) refl in
    let (d, c, l, t) = fail_all-concludes queue w' rest in
    (
      d,
      c ∙ append_assoc w.concluded (broken_off r ∷ []) (map broken_off (requests queue)),
      l ∙ append_assoc w.cleared (id ∷ []) (keys queue),
      t ∙ append_assoc w.cleanups (id ∷ []) (keys queue),
    )

-- When the answer to a decode step is no success, or the call raises, every request of the decode
-- queue is concluded in its order: the queue is empty, each request has the status ERROR, its stream
-- has the end and nothing else behind its tokens, the engine is told to drop it, and its cleanup is
-- scheduled.
pub decode_step-fails :
    (reply : Reply) (w : Worker)
    → (reply ≡ raised) ⊎ (reply ≡ refused)
    → ((decode_step reply w).decode_queue ≡ [])
      × ((decode_step reply w).concluded ≡ w.concluded ++ map broken_off (requests w.decode_queue))
      × ((decode_step reply w).cleared ≡ w.cleared ++ keys w.decode_queue)
      × ((decode_step reply w).cleanups ≡ w.cleanups ++ keys w.decode_queue)
unfolding decode_step
decode_step-fails reply w (inl e) = rw e (fail_all-concludes w.decode_queue w refl)
decode_step-fails reply w (inr e) = rw e (fail_all-concludes w.decode_queue w refl)
