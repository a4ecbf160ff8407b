-- ===== src/Router/Worker.antt =====
-- A worker of PrefillFirstScheduler of pace/server/router/scheduler.py, and decode_step of
-- pace/server/router/engine_client.py. The requests of a worker are in its queue, among those that it is
-- prefilling, or in its decode queue; `concluded` and `dropped` are those that only their clients still
-- hold, the latter cancelled ones. An await lets other tasks run; the model's steps are what runs
-- between the answers of the engine.
use amd_pace.Common.{
  ℕ, Bool, true, false, Option, none, some, List, [], ◌∷◌, ◌++◌, Dict, find, put, erase,
  if◌then◌else◌, ◌==◌,
}
use amd_pace.Server.Executor.{
  Outcome, Results, error, completed, prefill_completed, decoding_in_progress,
}
use amd_pace.Router.Requests.{
  Request, RequestStatus, Item, Reply, PrefillStatus, error_item, end_item, is_error, is_completed,
  raised, refused, answered, prefill_ok, prefill_done, prefill_error, put_item, put_tokens,
  perform_prefill,
}

pub record Worker : Type 0 where
  pub request_queue : List Request
  pub pending : List Request
  pub decode_queue : Dict Request
  pub concluded : List Request
  pub dropped : List Request
  pub cancelled_requests : List ℕ
  pub active_requests : List ℕ
  -- The cleanup tasks that were created, and what the engine was told to drop.
  pub cleanups : List ℕ
  pub cleared : List ℕ

abbrev pub init_worker : Worker
init_worker = record {
  request_queue = [];
  pending = [];
  decode_queue = [];
  concluded = [];
  dropped = [];
  cancelled_requests = [];
  active_requests = [];
  cleanups = [];
  cleared = [];
}

-- list.remove, dict.pop
abbrev pub remove_id : ℕ → List ℕ → List ℕ
remove_id id [] = []
remove_id id (j ∷ js) = if id == j then js else j ∷ remove_id id js

-- submit_request, for a request that is assigned to this worker.
abbrev pub submit_request : Request → Worker → Worker
submit_request r w = record w {
  request_queue = w.request_queue ++ r ∷ [];
  active_requests = w.active_requests ++ r.request_id ∷ [];
}

-- The worker takes all that waits.
abbrev pub drain_queue : Worker → Worker
drain_queue w = record w { pending = w.pending ++ w.request_queue; request_queue = [] }

abbrev pub add_if : Bool → ℕ → List ℕ → List ℕ
add_if true id ids = ids ++ id ∷ []
add_if false id ids = ids

-- What the worker does with the result of perform_prefill.
abbrev pub place_prefilled : Request × PrefillStatus × Bool → Worker → Worker
place_prefilled (r, prefill_ok, clear) w = record w {
  decode_queue = put r.request_id r w.decode_queue;
  cleared = add_if clear r.request_id w.cleared;
}
place_prefilled (r, prefill_done, clear) w = record w {
  concluded = w.concluded ++ r ∷ [];
  cleared = add_if clear r.request_id w.cleared;
}
place_prefilled (r, prefill_error, clear) w = record w {
  concluded =
      w.concluded
      ++ put_item end_item
          (put_item error_item (record r { status = is_error; is_finished = true }))
        ∷ [];
  cleared = add_if clear r.request_id w.cleared;
  cleanups = w.cleanups ++ r.request_id ∷ [];
}

abbrev pub prefill_front : Reply → List Request → Worker → Worker
prefill_front reply [] w = w
prefill_front reply (r ∷ rest) w =
    place_prefilled (perform_prefill reply r) (record w { pending = rest })

-- The loop over `pending`, for one request.
unfoldable pub prefill_next : Reply → Worker → Worker
prefill_next reply w = prefill_front reply w.pending w

-- _finalize_decode_request
abbrev pub finalize_decode_request : Request → ℕ → RequestStatus → Item → Worker → Worker
finalize_decode_request r id status final_token w = record w {
  decode_queue = erase id w.decode_queue;
  concluded =
      w.concluded ++ put_item final_token (record r { status = status; is_finished = true }) ∷ [];
  cleared = w.cleared ++ id ∷ [];
  cleanups = w.cleanups ++ id ∷ [];
}

-- The result of a decode step for a request in the decode queue.
abbrev pub conclude : ℕ → Outcome → Request → Worker → Worker
conclude id (completed ts reason) r w =
    finalize_decode_request (record (put_tokens ts r) { finish_reason = reason }) id is_completed
      end_item w
conclude id (error e) r w = finalize_decode_request r id is_error error_item w
conclude id (decoding_in_progress ts) r w = record w {
  decode_queue = put id (put_tokens ts r) w.decode_queue;
}
conclude id (prefill_completed ts) r w = record w {
  decode_queue = put id (put_tokens ts r) w.decode_queue;
}

abbrev pub conclude_known : ℕ → Outcome → Option Request → Worker → Worker
conclude_known id outcome none w = w
conclude_known id outcome (some r) w = conclude id outcome r w

-- The loop over the results.
abbrev pub conclude_all : Results → Worker → Worker
conclude_all [] w = w
conclude_all ((id, outcome) ∷ results) w =
    conclude_all results (conclude_known id outcome (find id w.decode_queue) w)

-- The whole batch failed; each request of the queue is finalized.
abbrev pub fail_all : Dict Request → Worker → Worker
fail_all [] w = w
fail_all ((id, r) ∷ queue) w = fail_all queue (finalize_decode_request r id is_error end_item w)

-- decode_step, and what decode_loop does when it raises.
unfoldable pub decode_step : Reply → Worker → Worker
decode_step raised w = fail_all w.decode_queue w
decode_step refused w = fail_all w.decode_queue w
decode_step (answered results) w = conclude_all results w

-- A client that is gone: the stream's handler.
abbrev pub cancel : ℕ → Worker → Worker
cancel id w = record w {
  cancelled_requests = w.cancelled_requests ++ id ∷ [];
  active_requests = remove_id id w.active_requests;
}

-- _clear_cancelled_request
abbrev pub clear_known : ℕ → Option Request → Worker → Worker
clear_known id none w = w
clear_known id (some r) w = record w {
  decode_queue = erase id w.decode_queue;
  dropped = w.dropped ++ r ∷ [];
  cleared = w.cleared ++ id ∷ [];
  cancelled_requests = remove_id id w.cancelled_requests;
}

-- decode_loop, the loop over the cancelled requests.
abbrev pub clear_cancelled : List ℕ → Worker → Worker
clear_cancelled [] w = w
clear_cancelled (id ∷ ids) w = clear_cancelled ids (clear_known id (find id w.decode_queue) w)

-- The cleanup task of a request.
abbrev pub cleanup_request : ℕ → Worker → Worker
cleanup_request id w = record w {
  cleanups = remove_id id w.cleanups;
  active_requests = remove_id id w.active_requests;
}
