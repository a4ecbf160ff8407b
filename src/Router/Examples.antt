-- ===== src/Router/Examples.antt =====
-- A worker with two requests, and the theorems about it at these.
use amd_pace.Router.Metrics.{calculate_active_time, tally, within_any, calculate_active_time-tally}
use amd_pace.Router.Engines.{assigned, Engines, assigned-count}
use amd_pace.Common.{◌||◌, ℕ, ◌≡◌, refl, [], ◌∷◌, map, inr, false, count, ◌*◌, arith}
use amd_pace.Decoding.Stopping.{stop}
use amd_pace.Server.Executor.{prefill_completed, decoding_in_progress}
use amd_pace.Router.Requests.{
  Request, is_queued, is_processing, answered, refused, token_ids, perform_prefill,
}
use amd_pace.Router.Worker.{
  Worker, init_worker, submit_request, drain_queue, prefill_next, decode_step, cancel,
  clear_cancelled,
}
use amd_pace.Router.Runs.{
  started, submitted, drained, prefilled, decoded, cancelled, cleared, Keeps, reachable-Keeps,
  decode_step-fails, broken_off,
}

abbrev request : ℕ → Request
request id = record {
  request_id = id;
  status = is_queued;
  token_queue = [];
  finish_reason = stop;
  generated_tokens_count = 0;
  is_finished = false;
}

abbrev queued : Worker
queued = drain_queue (submit_request (request 2) (submit_request (request 1) init_worker))

-- Both are prefilled, the first is refused, the second is cancelled behind a decode step.
abbrev first_prefilled : Worker
first_prefilled = prefill_next refused queued

abbrev second_prefilled : Worker
second_prefilled = prefill_next (answered ((2, prefill_completed (7 ∷ [])) ∷ [])) first_prefilled

abbrev decoding : Worker
decoding =
    cancel 2 (decode_step (answered ((2, decoding_in_progress (8 ∷ 9 ∷ [])) ∷ [])) second_prefilled)

reachable-Keeps_example :
    Keeps (2 ∷ 1 ∷ []) (λ j. false || false) (clear_cancelled decoding.cancelled_requests decoding)
unfolding count
reachable-Keeps_example = reachable-Keeps (2 ∷ 1 ∷ []) _ _ (
    cleared (
      cancelled 2 (
        decoded _ (
          prefilled _ (
            prefilled _ (
              drained (
                submitted (request 2)
                  (submitted (request 1) started (record { still = refl; empty = refl }) refl)
                  (record { still = refl; empty = refl }) refl)))))))

abbrev streaming : ℕ → Request
streaming id = record (request id) {
  status = is_processing;
  token_queue = token_ids (7 ∷ []) ∷ [];
  generated_tokens_count = 1;
}

abbrev busy : Worker
busy = record init_worker {
  decode_queue = (1, streaming 1) ∷ (2, streaming 2) ∷ [];
  active_requests = 1 ∷ 2 ∷ [];
}

decode_step-fails_example :
    ((decode_step refused busy).decode_queue ≡ [])
    × ((decode_step refused busy).concluded
        ≡ broken_off (streaming 1) ∷ broken_off (streaming 2) ∷ [])
    × ((decode_step refused busy).cleared ≡ 1 ∷ 2 ∷ [])
    × ((decode_step refused busy).cleanups ≡ 1 ∷ 2 ∷ [])
decode_step-fails_example = decode_step-fails refused busy (inr refl)

-- The cancelled request leaves with its tokens.
decoding_test :
    map (λ r. r.token_queue) (clear_cancelled decoding.cancelled_requests decoding).dropped
    ≡ (token_ids (7 ∷ []) ∷ token_ids (8 ∷ 9 ∷ []) ∷ []) ∷ []
unfolding prefill_next perform_prefill decode_step
decoding_test = refl

-- The first two intervals overlap, the third one starts before them.
calculate_active_time-tally_example :
    calculate_active_time ((2, 5) ∷ (4, 8) ∷ (0, 1) ∷ [])
    ≡ tally (λ t. within_any t ((2, 5) ∷ (4, 8) ∷ (0, 1) ∷ [])) 9
calculate_active_time-tally_example =
    calculate_active_time-tally 9 ((2, 5) ∷ (4, 8) ∷ (0, 1) ∷ [])
      ((omega arith, omega arith), ((omega arith, omega arith), ((omega arith, omega arith), tt)))

calculate_active_time_test : calculate_active_time ((2, 5) ∷ (4, 8) ∷ (0, 1) ∷ []) ≡ 7
unfolding calculate_active_time
calculate_active_time_test = refl

abbrev three_engines : Engines
three_engines = record { num_engines = 3; current_engine_index = 2 }

assigned-count_example : count 1 (assigned (4 * 3) three_engines) ≡ 4
assigned-count_example = assigned-count 4 three_engines 1 (omega arith) (omega arith)
