-- ===== src/Scenarios/Messages.antt =====
-- A worker that ends a run, and an outbox batch of which a message fails.
use reliable_agent_runtime.Prelude.{
  List, Option, [], arith, insert, insert_sorted, lookup, none, ok, pos, refl, some, sort_slice,
  values, ℤ, ◌*◌, ◌++◌, ◌^◌, ◌∷◌, ◌≡◌,
}
use reliable_agent_runtime.Domain.{EventType, RunEvent, model_started, run_succeeded, same_event}
use reliable_agent_runtime.Engine.State.{ExecutionState}
use reliable_agent_runtime.Outbox.{OutboxMessage, other_error}
use reliable_agent_runtime.Outbox.Backoff.{backoff_lem, min}
use reliable_agent_runtime.Outbox.Batch.{IsLog, batch_of, run_once_log}
use reliable_agent_runtime.Outbox.Publisher.{Surroundings, backoff, default_config, run_once}
use reliable_agent_runtime.Scenarios.Runs.{after_calls, done_result, encoders, run_of, until_leased}
use reliable_agent_runtime.Store.{
  Lease, is_terminal, request_hash, terminal_event_for_status, validate_terminal_event,
}
use reliable_agent_runtime.Store.History.{history, step}
use reliable_agent_runtime.Store.Implementation.{
  finish_run-IsOver, memory_repository, memory_repository-Contract,
}
use reliable_agent_runtime.Store.Interface.{IsOver, Repository}
use reliable_agent_runtime.Store.Memory.{
  added, append_event, appended, candidates, create_existing, create_locked, create_new, create_run,
  finish_locked, finish_run, finished, get_checkpoint, grant, holds_lease, idempotency_map_key,
  is_candidate, lease_next, lease_of, leased, new_memory_repository, next_event, older,
  queued_record, valid_lease, written,
}
use reliable_agent_runtime.Worker.Attempt.{
  Codec, Receipt, attempt, execute_lease, finish, finish_valid, load_checkpoint, output, persist,
  request_from, returned, save_state,
}
use reliable_agent_runtime.Worker.Completion.{IsDone, execute_lease-IsDone}
use reliable_agent_runtime.Worker.Config.{default_worker_config}
use reliable_agent_runtime.Worker.Events.{terminal_event}

abbrev repository : Repository
repository = memory_repository encoders

abbrev codec : Codec
codec = record {
  decode_result = λ text. some done_result;
  encode_state = λ state. some "state";
  decode_state = λ text. none;
}

abbrev event_of : EventType → RunEvent
event_of type = record {
  run_id = "run_1";
  sequence = 1;
  type = type;
  occurred_at = 21;
  payload = "hi";
}

abbrev receipts : List (Receipt repository codec (default_worker_config "w1"))
receipts =
    output (record { event = event_of model_started; checkpoint = none }) 21 (λ st. st) 21
    ∷ output (record { event = event_of run_succeeded; checkpoint = none }) 22 (λ st. st) 22
    ∷ []

abbrev the_lease : Lease
the_lease = lease_of (run_of (after_calls until_leased)) "w1"

returns_ok :
    (execute_lease repository codec
      (default_worker_config "w1")
      (λ request checkpoint. receipts)
      (after_calls until_leased)
      the_lease).1
    ≡ returned (ok tt)
unfolding execute_lease load_checkpoint attempt finish finish_valid persist save_state
    default_worker_config terminal_event request_from history step new_memory_repository create_run
    create_locked create_new create_existing added queued_record idempotency_map_key request_hash
    lookup insert lease_next grant older candidates is_candidate leased values sort_slice
    insert_sorted append_event finish_run finish_locked valid_lease holds_lease written appended
    finished next_event validate_terminal_event terminal_event_for_status same_event is_terminal
    get_checkpoint
returns_ok = refl

finishes_ok :
    (finish_run encoders (after_calls until_leased) "run_1" "w1" 1 done_result run_succeeded 22).1
    ≡ ok (next_event (run_of (after_calls until_leased)) run_succeeded "hi" 22)
unfolding history step new_memory_repository create_run create_locked create_new create_existing
    added queued_record idempotency_map_key request_hash lookup insert lease_next grant older
    candidates is_candidate leased values sort_slice insert_sorted append_event finish_run
    finish_locked valid_lease holds_lease written appended finished next_event
    validate_terminal_event terminal_event_for_status same_event is_terminal get_checkpoint
finishes_ok = refl

execute_lease-IsDone_example :
    (checkpoint : Option ExecutionState) × (load_checkpoint repository codec
        (default_worker_config "w1")
        (after_calls until_leased)
        the_lease.run.id
      ≡ ok checkpoint)
    × IsDone repository
        (memory_repository-Contract encoders)
        codec
        (default_worker_config "w1")
        receipts
        (execute_lease repository codec
          (default_worker_config "w1")
          (λ request checkpoint. receipts)
          (after_calls until_leased)
          the_lease).0
        the_lease
execute_lease-IsDone_example =
    execute_lease-IsDone repository (memory_repository-Contract encoders) codec
      (default_worker_config "w1") (λ request checkpoint. receipts) (after_calls until_leased)
      the_lease returns_ok

finish_run-IsOver_example :
    IsOver
      (memory_repository encoders)
      (finish_run encoders (after_calls until_leased) "run_1" "w1" 1 done_result run_succeeded 22).0
      "run_1"
      done_result
finish_run-IsOver_example =
    finish_run-IsOver encoders (after_calls until_leased) "run_1" "w1" 1 done_result run_succeeded
      22 (next_event (run_of (after_calls until_leased)) run_succeeded "hi" 22) finishes_ok

abbrev letter : ℤ → OutboxMessage
letter id = record {
  id = id;
  aggregate_type = "run";
  aggregate_id = "run_1";
  event_type = "created";
  payload = "{}";
  attempts = pos 1;
  created_at = 0;
  lease_owner = "p";
  lease_until = 9;
  lease_token = 1;
}

-- The world is the list of the messages that the sink was given; it refuses every one.
abbrev refusing : Surroundings
refusing = record {
  World = List OutboxMessage;
  now = λ w. (5, w);
  lease_batch = λ id at_time ttl size w. (ok (letter (pos 1) ∷ letter (pos 2) ∷ []), w);
  publish = λ timeout m w. (some (other_error "down"), w ++ m ∷ []);
  mark_published = λ id publisher token at_time w. (none, w);
  mark_retry = λ id publisher token at_time e w. (none, w);
}

refusing-IsLog : IsLog refusing (default_config "p") (λ w. w)
refusing-IsLog = record {
  by_clock = λ w. refl;
  by_lease = λ id at_time ttl size w. refl;
  by_publish = λ timeout m w. refl;
  by_mark = λ id publisher token at_time w. refl;
  by_retry = λ id publisher token at_time e w. refl;
}

base_second : (default_config "p").base_backoff ≡ pos 1000000000
unfolding default_config
base_second = refl

max_minute : (default_config "p").max_backoff ≡ pos 60000000000
unfolding default_config
max_minute = refl

run_once_log_example :
    (run_once refusing (default_config "p") []).1
    ≡ batch_of refusing (default_config "p") (ok (letter (pos 1) ∷ letter (pos 2) ∷ []))
run_once_log_example = run_once_log refusing (default_config "p") (λ w. w) refusing-IsLog []

backoff_lem_example :
    backoff (default_config "p") (pos 3) ≡ pos (min (1000000000 * 2 ^ 2) 60000000000)
backoff_lem_example =
    backoff_lem (default_config "p") 60000000000 max_minute (omega arith) 1000000000 base_second
      (omega arith) (pos 3)
