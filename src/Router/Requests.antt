-- ===== src/Router/Requests.antt =====
-- Request of pace/server/router/utils.py as the scheduler and pace/server/router/engine_client.py use it,
-- and perform_prefill of the latter. The engine's answer is that of the server's model; the token queue
-- is the list of what was put into it.
use amd_pace.Common.{
  ℕ, ◌+◌, Bool, true, false, Option, none, some, List, [], ◌∷◌, ◌++◌, length, find,
}
use amd_pace.Decoding.Stopping.{Reason}
use amd_pace.Server.Executor.{
  Outcome, Results, error, completed, prefill_completed, decoding_in_progress,
}

-- What is put into a token queue: token ids, "ERROR", or None.
pub data Item : Type 0 where
  token_ids : (ids : List ℕ) → Item
  error_item : Item
  end_item : Item

pub data RequestStatus : Type 0 where
  is_queued : RequestStatus
  is_processing : RequestStatus
  is_completed : RequestStatus
  is_error : RequestStatus

pub record Request : Type 0 where
  pub request_id : ℕ
  pub status : RequestStatus
  pub token_queue : List Item
  pub finish_reason : Reason
  pub generated_tokens_count : ℕ
  pub is_finished : Bool

-- What came back from the engine's /step: an exception, an answer that is no success, or one result per
-- request.
pub data Reply : Type 0 where
  raised : Reply
  refused : Reply
  answered : Results → Reply

-- What perform_prefill returns.
pub data PrefillStatus : Type 0 where
  prefill_ok : PrefillStatus
  prefill_done : PrefillStatus
  prefill_error : PrefillStatus

abbrev pub put_item : Item → Request → Request
put_item item r = record r { token_queue = r.token_queue ++ item ∷ [] }

abbrev pub put_tokens : List ℕ → Request → Request
put_tokens [] r = r
put_tokens (t ∷ ts) r = record r {
  token_queue = r.token_queue ++ token_ids (t ∷ ts) ∷ [];
  generated_tokens_count = r.generated_tokens_count + length (t ∷ ts);
}

abbrev pub set_processing : Request → Request
set_processing r = record r { status = is_processing }

-- The end of perform_prefill, by the result for the request; the Boolean tells whether the engine is
-- told to drop the sequence.
abbrev pub prefilled_by : Option Outcome → Request → Request × PrefillStatus × Bool
prefilled_by (some (completed ts reason)) r = (
  put_item end_item (
      put_tokens ts
        (record r { status = is_completed; finish_reason = reason; is_finished = true })),
  prefill_done,
  false,
)
prefilled_by (some (prefill_completed ts)) r = (put_tokens ts r, prefill_ok, false)
prefilled_by (some (decoding_in_progress ts)) r = (r, prefill_error, true)
prefilled_by (some (error e)) r = (r, prefill_error, true)
prefilled_by none r = (r, prefill_error, true)

unfoldable pub perform_prefill : Reply → Request → Request × PrefillStatus × Bool
perform_prefill raised r = (set_processing r, prefill_error, false)
perform_prefill refused r = (set_processing r, prefill_error, true)
perform_prefill (answered results) r = prefilled_by (find r.request_id results) (set_processing r)
