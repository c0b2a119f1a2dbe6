-- ===== src/Scenarios/Databases.antt =====
-- A run on PostgreSQL, and a publisher that takes its first message.
use reliable_agent_runtime.Prelude.{
  List, Result, [], add_int, arith, false, get_elem?, length, map, none, ok, pos, refl, some, suc,
  sym, zero, ℕ, ◌∙◌, ◌∷◌, ◌≡◌,
}
use reliable_agent_runtime.Domain.{
  RawMessage, RunEvent, live, model_started, run_succeeded, running, same_event, succeeded,
}
use reliable_agent_runtime.Outbox.Ownership.{apply, leases_batch}
use reliable_agent_runtime.Outbox.Table.{
  due_rows, is_due, lease_batch, leased_row, to_message, update_where,
}
use reliable_agent_runtime.Postgres.Fencing.{IsRefused, IsUnique, pg_lease_next-IsRefused}
use reliable_agent_runtime.Postgres.Leases.{expired_attempt, is_leasable, pg_lease_next, taken_row}
use reliable_agent_runtime.Postgres.Methods.{
  append_row, closed_attempt, create_row, ended_row, finish_row, new_row, pg_append_event,
  pg_create_run, pg_finish_run,
}
use reliable_agent_runtime.Postgres.Mirror.{Mirrors}
use reliable_agent_runtime.Postgres.Outboxed.{
  DatabaseCall, empty_database, pg_appends, pg_creates, pg_finishes, pg_history, pg_history-Mirrors,
  pg_leases, pg_step, publishes,
}
use reliable_agent_runtime.Postgres.Tables.{
  Database, RunRow, attempt_status_for, insert_event_and_outbox, is_leased_to, nullable_string,
  nullable_time, outbox_entry, scan_run,
}
use reliable_agent_runtime.Scenarios.Runs.{asked, done_result, encoders, release}
use reliable_agent_runtime.Store.{
  Lease, StoreError, request_hash, terminal_event_for_status, validate_terminal_event,
}

abbrev encoded_event : RunEvent → Result StoreError RawMessage
encoded_event event = ok event.payload

abbrev calls : List DatabaseCall
calls =
    pg_creates asked 10
    ∷ pg_leases (λ r. false) "w1" 20 (pos 5)
    ∷ pg_appends "run_1" "w1" 1 model_started "{}" 21
    ∷ publishes (leases_batch none (λ r. false) "p1" 22 (pos 30) (pos 10))
    ∷ pg_finishes "run_1" "w1" 1 done_result run_succeeded 23
    ∷ []

-- Three events, and the run has ended.
runs_well :
    let db = pg_history encoders encoded_event empty_database calls in
    (length db.events ≡ 3) × (length db.outbox ≡ 3) × (map (λ r. r.status) db.runs ≡ succeeded ∷ [])
unfolding pg_history pg_step pg_create_run create_row new_row nullable_time scan_run
    insert_event_and_outbox outbox_entry request_hash pg_lease_next is_leasable taken_row
    expired_attempt pg_append_event append_row is_leased_to pg_finish_run finish_row ended_row
    closed_attempt attempt_status_for nullable_string validate_terminal_event same_event
    terminal_event_for_status apply lease_batch due_rows is_due update_where leased_row to_message
    add_int
runs_well = (refl, refl, refl)

pg_history-Mirrors_example :
    Mirrors encoded_event
      (pg_history encoders encoded_event empty_database calls).events
      (pg_history encoders encoded_event empty_database calls).outbox
pg_history-Mirrors_example = pg_history-Mirrors encoders encoded_event calls

abbrev row : RunRow
row = record {
  id = "run_1";
  tenant_id = "acme";
  idempotency_key = "k";
  request_hash = "h";
  input = "hello";
  mode = live;
  manifest = release;
  status = running;
  deadline_at = none;
  next_attempt_at = none;
  lease_owner = some "w1";
  lease_until = some 15;
  fence_token = 1;
  attempt_no = 1;
  last_event_seq = 2;
  final_result = none;
  created_at = 5;
  updated_at = 10;
}

abbrev one_run : Database
one_run = record empty_database { runs = row ∷ [] }

abbrev taken_over : Database × Result StoreError Lease
taken_over = pg_lease_next (λ r. false) one_run "w2" 20 (pos 5)

abbrev second_lease : Lease
second_lease = record {
  run = record {
    id = "run_1";
    tenant_id = "acme";
    idempotency_key = "k";
    request_hash = "h";
    input = "hello";
    mode = live;
    manifest = release;
    status = running;
    deadline = 0;
    lease_owner = "w2";
    lease_until = 25;
    fence_token = 2;
    attempt = 2;
    last_event_seq = 2;
    final_result = none;
    created_at = 5;
    updated_at = 20;
  };
  worker_id = "w2";
  fence_token = 2;
  attempt = 2;
  lease_until = 25;
}

takes_over : taken_over ≡ (taken_over.0, ok second_lease)
unfolding pg_lease_next is_leasable taken_row scan_run expired_attempt
takes_over = refl

single-IsUnique : (r : RunRow) → IsUnique (r ∷ [])
single-IsUnique r j k s t at_j at_k same = sym (only k t at_k) ∙ only j s at_j
  where
    only : (k : ℕ) (s : RunRow) → get_elem? (r ∷ []) k ≡ some s → r ≡ s
    only zero s h = ground (arith, h)
    only (suc k) s h = absurd (ground (arith, h))

pg_lease_next-IsRefused_example : IsRefused encoders encoded_event taken_over.0 "run_1" "w1" 1 22
pg_lease_next-IsRefused_example =
    pg_lease_next-IsRefused encoders encoded_event one_run taken_over.0 (λ r. false) "w2" "w1" 20 22
      (pos 5) second_lease 1 (single-IsUnique row) takes_over (λ e. ground (arith, e))
