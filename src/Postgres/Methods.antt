-- ===== src/Postgres/Methods.antt =====
-- internal/store/postgres/repository.go: the methods, each a transaction or a single statement on the
-- tables. A transaction that the database refuses or cannot commit is rolled back and changes
-- nothing: such errors, and violated constraints other than the keys of `runs`, are left out. The
-- isolation of transactions makes each method one step.
use reliable_agent_runtime.Prelude.{
  Bool, Result, String, [], eqb, err, fail_if, false, if◌then◌else◌, none, not, ok, some, true, ℕ,
  ◌&&◌, ◌++◌, ◌+◌, ◌==◌, ◌>>=◌, ◌∷◌,
}
use reliable_agent_runtime.Domain.{
  EventType, FinalResult, RawMessage, RunEvent, RunRequest, Time, queued,
}
use reliable_agent_runtime.Postgres.Tables.{
  AttemptRow, AttemptStatus, Database, RunRow, attempt_running, attempt_status_for, change_where,
  commit, first_where, insert_event_and_outbox, is_leased_to, nullable_string, nullable_time,
  scan_run,
}
use reliable_agent_runtime.Store.{
  Encoders, RunRecord, StoreError, idempotency_conflict, lease_lost, request_hash, run_exists,
  validate_terminal_event,
}
use reliable_agent_runtime.Store.Memory.{created_event}

unfoldable pub new_row : RunRequest → String → Time → RunRow
unfolding nullable_time
new_row request hash now = record {
  id = request.run_id;
  tenant_id = request.tenant_id;
  idempotency_key = request.idempotency_key;
  request_hash = hash;
  input = request.input;
  mode = request.mode;
  manifest = request.manifest;
  status = queued;
  deadline_at = nullable_time request.deadline;
  next_attempt_at = none;
  lease_owner = none;
  lease_until = none;
  fence_token = 0;
  attempt_no = 0;
  last_event_seq = 1;
  final_result = none;
  created_at = now;
  updated_at = now;
}

-- WHERE tenant_id = $1 AND idempotency_key = $2
abbrev pub has_key : RunRequest → RunRow → Bool
has_key request r = r.tenant_id == request.tenant_id && r.idempotency_key == request.idempotency_key

abbrev pub is_running_attempt : AttemptStatus → Bool
is_running_attempt attempt_running = true
is_running_attempt _ = false

abbrev pub is_open_attempt : String → AttemptRow → Bool
is_open_attempt run_id a = a.run_id == run_id && is_running_attempt a.status

module _ (enc : Encoders) (marshal_event : RunEvent → Result StoreError RawMessage) where
  -- CreateRun. `json.Marshal` of the manifest alone fails only if that of the payload with it does.
  unfoldable pub create_row :
      Database
      → RunRequest
      → String
      → RawMessage
      → Time
      → Result StoreError (Database × (RunRecord × Bool))
  unfolding new_row scan_run insert_event_and_outbox
  create_row db request hash payload now = elim (first_where (has_key request) db.runs) [
    | some r ↦
        if not (r.request_hash == hash)
        then err idempotency_conflict
        else ok (db, (scan_run r, false))
    | none ↦ elim (first_where (λ r. r.id == request.run_id) db.runs) [
      | some r ↦ err (run_exists request.run_id)
      | none ↦
          insert_event_and_outbox marshal_event
            (record db { runs = db.runs ++ new_row request hash now ∷ [] })
            (created_event request.run_id payload now)
          >>= (λ db'. ok (db', (scan_run (new_row request hash now), true)))
    ]
  ]

  unfoldable pub pg_create_run :
      Database → RunRequest → Time → Database × Result StoreError (RunRecord × Bool)
  unfolding create_row
  pg_create_run db request now = commit db (
      request_hash enc request >>= (λ hash.
        enc.marshal_created request.mode request.manifest
        >>= (λ payload. create_row db request hash payload now)))

  -- The transaction of AppendEvent, with advanceSequence.
  unfoldable pub append_row :
      Database
      → String
      → String
      → ℕ
      → EventType
      → RawMessage
      → Time
      → Result StoreError (Database × RunEvent)
  unfolding is_leased_to insert_event_and_outbox
  append_row db run_id worker fence type payload now =
      let held_now = is_leased_to run_id worker fence now in
      elim (first_where held_now db.runs) [
        | none ↦ err lease_lost
        | some r ↦
            let event : RunEvent = record {
              run_id = run_id;
              sequence = r.last_event_seq + 1;
              type = type;
              occurred_at = now;
              payload = payload;
            } in
            insert_event_and_outbox marshal_event
              (record db {
                runs =
                    change_where held_now
                      (λ r. record r { last_event_seq = r.last_event_seq + 1; updated_at = now })
                      db.runs;
              })
              event
            >>= (λ db'. ok (db', event))
      ]

  -- AppendEvent
  unfoldable pub pg_append_event :
      Database
      → String
      → String
      → ℕ
      → EventType
      → RawMessage
      → Time
      → Database × Result StoreError RunEvent
  unfolding append_row
  pg_append_event db run_id worker fence type payload now = commit db (
      fail_if (worker == "") lease_lost
      >>= (λ named. append_row db run_id worker fence type payload now))

  unfoldable pub ended_row : FinalResult → Time → RunRow → RunRow
  ended_row result now r = record r {
    status = result.status;
    final_result = some result;
    last_event_seq = r.last_event_seq + 1;
    lease_owner = none;
    lease_until = none;
    updated_at = now;
  }

  unfoldable pub closed_attempt : FinalResult → Time → AttemptRow → AttemptRow
  unfolding attempt_status_for nullable_string
  closed_attempt result now a = record a {
    status = attempt_status_for result.status;
    finished_at = some now;
    error = nullable_string result.error;
  }

  -- The transaction of FinishRun.
  unfoldable pub finish_row :
      Database
      → String
      → String
      → ℕ
      → FinalResult
      → EventType
      → RawMessage
      → Time
      → Result StoreError (Database × RunEvent)
  unfolding is_leased_to insert_event_and_outbox ended_row closed_attempt
  finish_row db run_id worker fence result type payload now =
      let held_now = is_leased_to run_id worker fence now in
      elim (first_where held_now db.runs) [
        | none ↦ err lease_lost
        | some r ↦
            let event : RunEvent = record {
              run_id = run_id;
              sequence = r.last_event_seq + 1;
              type = type;
              occurred_at = now;
              payload = payload;
            } in
            insert_event_and_outbox marshal_event
              (record db {
                runs = change_where held_now (ended_row result now) db.runs;
                attempts =
                    change_where (λ a. is_open_attempt run_id a && eqb a.attempt_no r.attempt_no)
                      (closed_attempt result now) db.attempts;
              })
              event
            >>= (λ db'. ok (db', event))
      ]

  unfoldable pub pg_finish_run :
      Database
      → String
      → String
      → ℕ
      → FinalResult
      → EventType
      → Time
      → Database × Result StoreError RunEvent
  unfolding finish_row
  pg_finish_run db run_id worker fence result type now = commit db (
      validate_terminal_event result type >>= (λ checked.
        enc.marshal_result result
        >>= (λ payload. finish_row db run_id worker fence result type payload now)))
