-- ===== src/Store/Memory/Writes.antt =====
-- internal/store/memory.go: AppendEvent, SaveCheckpoint and FinishRun, which a lease guards.

use reliable_agent_runtime.Prelude.{
  Bool, Option, Result, String, [], err, false, if◌then◌else◌, insert, lookup, ltb, none, ok,
  or_zero, some, u64, ℕ, ◌++◌, ◌+◌, ◌∷◌,
}
use reliable_agent_runtime.Domain.{EventType, FinalResult, RawMessage, RunEvent, Time, zero_time}
use reliable_agent_runtime.Store.{
  Checkpoint, Encoders, RunRecord, StoreError, checkpoint_ahead, stale_checkpoint,
  validate_terminal_event,
}
use reliable_agent_runtime.Store.Memory.Repository.{MemoryRepository, valid_lease}

unfoldable pub next_event : RunRecord → EventType → RawMessage → Time → RunEvent
next_event r event_type payload now = record {
  run_id = r.id;
  sequence = u64 (r.last_event_seq + 1);
  type = event_type;
  occurred_at = now;
  payload = payload;
}

-- Writes the record back and adds the event to the run's list, as two methods end.
unfoldable pub written : MemoryRepository → String → RunRecord → RunEvent → MemoryRepository
written repo run_id r event = record repo {
  runs = insert run_id r repo.runs;
  events = insert run_id (or_zero [] (lookup run_id repo.events) ++ event ∷ []) repo.events;
}

unfoldable pub appended : RunRecord → EventType → RawMessage → Time → RunRecord
unfolding next_event
appended r event_type payload now = record r {
  last_event_seq = (next_event r event_type payload now).sequence;
  updated_at = now;
}

unfoldable pub append_event :
    MemoryRepository
    → String
    → String
    → ℕ
    → EventType
    → RawMessage
    → Time
    → MemoryRepository × Result StoreError RunEvent
append_event repo run_id worker fence event_type payload now =
    elim (valid_lease repo run_id worker fence now) [
      | err e ↦ (repo, err e)
      | ok r ↦
          let event = next_event r event_type payload now in
          (written repo run_id (appended r event_type payload now) event, ok event)
    ]

-- Whether an existing checkpoint is ahead of the one to be saved.
unfoldable pub is_stale : Option Checkpoint → Checkpoint → Bool
is_stale none checkpoint = false
is_stale (some existing) checkpoint = ltb checkpoint.event_sequence existing.event_sequence

unfoldable pub save_checkpoint :
    MemoryRepository → String → Checkpoint → MemoryRepository × Result StoreError (Unit {0})
save_checkpoint repo worker checkpoint =
    elim (valid_lease repo checkpoint.run_id worker checkpoint.fence_token checkpoint.created_at) [
      | err e ↦ (repo, err e)
      | ok r ↦
          if ltb r.last_event_seq checkpoint.event_sequence
          then (repo, err checkpoint_ahead)
          else if is_stale (lookup checkpoint.run_id repo.checkpoints) checkpoint
          then (repo, err stale_checkpoint)
          else (
            record repo { checkpoints = insert checkpoint.run_id checkpoint repo.checkpoints },
            ok tt,
          )
    ]

unfoldable pub finished : RunRecord → FinalResult → RunEvent → Time → RunRecord
finished r result event now = record r {
  status = result.status;
  last_event_seq = event.sequence;
  final_result = some result;
  lease_owner = "";
  lease_until = zero_time;
  updated_at = now;
}

unfoldable pub finish_locked :
    MemoryRepository
    → String
    → String
    → ℕ
    → FinalResult
    → EventType
    → RawMessage
    → Time
    → MemoryRepository × Result StoreError RunEvent
finish_locked repo run_id worker fence result event_type payload now =
    elim (valid_lease repo run_id worker fence now) [
      | err e ↦ (repo, err e)
      | ok r ↦
          let event = next_event r event_type payload now in
          (written repo run_id (finished r result event now) event, ok event)
    ]

unfoldable pub finish_run :
    Encoders
    → MemoryRepository
    → String
    → String
    → ℕ
    → FinalResult
    → EventType
    → Time
    → MemoryRepository × Result StoreError RunEvent
finish_run enc repo run_id worker fence result event_type now =
    elim (validate_terminal_event result event_type) [
      | err e ↦ (repo, err e)
      | ok _ ↦ elim (enc.marshal_result result) [
        | err e ↦ (repo, err e)
        | ok payload ↦ finish_locked repo run_id worker fence result event_type payload now
      ]
    ]
