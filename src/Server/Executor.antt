-- ===== src/Server/Executor.antt =====
-- ModelExecutor of pace/server/engine/server.py: its queues, and what enters and leaves them. A
-- request's UUID is a number; of the cache backend the model keeps the number of contexts that are
-- open, and of torch the state of its random numbers.
use amd_pace.Common.{
  ℕ, ◌+◌, ◌-◌, Bool, true, ◌&&◌, Option, none, some, List, [], ◌∷◌, Dict, has, put, erase,
  if◌then◌else◌, Result, ok, err, Action,
}
use amd_pace.Kv.{Error}
use amd_pace.Decoding.Stopping.{Reason}
use amd_pace.Decoding.Sampler.{set_sampling_seed}
use amd_pace.Server.Sequences.{Sequence, PrefillRequest, in_decoding, init_sequence}

pub record ModelExecutor : Type 0 where
  pub prefill_queue : Dict Sequence
  pub decode_queue : Dict Sequence
  pub all_greedy : Bool
  pub open_contexts : ℕ
  pub rng : ℕ

-- An entry of result_buffer, by its status.
pub data Outcome : Type 0 where
  error : Error → Outcome
  completed : (token_ids : List ℕ) (stop_reason : Reason) → Outcome
  prefill_completed : (token_ids : List ℕ) → Outcome
  decoding_in_progress : (token_ids : List ℕ) → Outcome

-- result_buffer. Some keys are the UUID and some its string, which are one key in the answer.
abbrev pub Results : Type 0
Results = Dict Outcome

-- all(r.sampler._greedy_fast_path for r in queue.values())
abbrev pub all_fast : Dict Sequence → Bool
all_fast [] = true
all_fast ((id, s) ∷ queue) = s.sampler.greedy_fast_path && all_fast queue

-- ModelExecutor.__init__
abbrev pub init_executor : ℕ → ModelExecutor
init_executor rng = record {
  prefill_queue = [];
  decode_queue = [];
  all_greedy = true;
  open_contexts = 0;
  rng = rng;
}

-- Sequence(...) with its context, and self.prefill_queue[req.id] = req.
abbrev pub enqueue : ℕ → Result Error Sequence → Action ModelExecutor Error Sequence
enqueue id (err e) ex = (ex, err e)
enqueue id (ok s) ex = (
  record ex { prefill_queue = put id s ex.prefill_queue; open_contexts = ex.open_contexts + 1 },
  ok s,
)

-- The random numbers behind Sequence(...), whose sampler sets the seed unless max_new_tokens is missing.
abbrev pub seeded_rng : (ℕ → ℕ) → Option ℕ → Option ℕ → ℕ → ℕ
seeded_rng manual_seed none seed rng = rng
seeded_rng manual_seed (some max_new_tokens) seed rng = set_sampling_seed manual_seed seed rng

-- The start of prefill.
abbrev pub start : (ℕ → ℕ) → PrefillRequest → Action ModelExecutor Error Sequence
start manual_seed request ex = enqueue request.request_id (init_sequence request) (record ex {
  rng =
      seeded_rng manual_seed request.sampling_config.max_new_tokens request.params.sampling_seed
        ex.rng;
})

-- set_decoding
abbrev pub set_decoding : Sequence → Sequence
set_decoding s = record s { state = in_decoding }

unfoldable pub move_to_decode_queue : ℕ → Sequence → ModelExecutor → ModelExecutor
move_to_decode_queue id s ex = record ex {
  prefill_queue = erase id ex.prefill_queue;
  decode_queue = put id (set_decoding s) ex.decode_queue;
  all_greedy = ex.all_greedy && s.sampler.greedy_fast_path;
}

-- The loop of remove_sequences for one id.
unfoldable pub remove_one : ℕ → ModelExecutor → ModelExecutor
remove_one id ex =
    if has id ex.prefill_queue
    then record ex {
      prefill_queue = erase id ex.prefill_queue;
      open_contexts = ex.open_contexts - 1;
    }
    else if has id ex.decode_queue
    then record ex { decode_queue = erase id ex.decode_queue; open_contexts = ex.open_contexts - 1 }
    else ex

abbrev pub remove_each : List ℕ → ModelExecutor → ModelExecutor
remove_each [] ex = ex
remove_each (id ∷ ids) ex = remove_each ids (remove_one id ex)

-- The end of remove_sequences.
unfoldable pub refresh : ModelExecutor → ModelExecutor
refresh ex = if ex.all_greedy then ex else record ex { all_greedy = all_fast ex.decode_queue }

unfoldable pub remove_sequences : List ℕ → ModelExecutor → ModelExecutor
remove_sequences ids ex = refresh (remove_each ids ex)
