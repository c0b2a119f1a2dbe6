-- ===== src/Postgres/Tables.antt =====
-- internal/store/postgres/repository.go: the tables of migrations/001_runtime.up.sql, and what the
-- statements of several methods share. NULL is `none`; a `jsonb` column holds the value that was
-- encoded, and the text of a payload as it was written, where PostgreSQL prints a text of its own. Times are those that a `timestamptz` holds, and counters stay in the range of a `bigint`.
use reliable_agent_runtime.Prelude.{
  Bool, List, Option, Result, String, [], eqb, err, if◌then◌else◌, none, ok, pos, some, ℕ, ◌&&◌,
  ◌++◌, ◌+◌, ◌==◌, ◌∷◌,
}
use reliable_agent_runtime.Domain.{
  ExecutionMode, FinalResult, RawMessage, ReleaseManifest, RunEvent, RunStatus, Time, cancelled,
  is_running, is_zero, succeeded, zero_time,
}
use reliable_agent_runtime.Http.Events.{event_name}
use reliable_agent_runtime.Outbox.Table.{OutboxRow, Table, owned_by, unexpired}
use reliable_agent_runtime.Store.{Checkpoint, RunRecord, StoreError}

pub record RunRow : Type 0 where
  pub id : String
  pub tenant_id : String
  pub idempotency_key : String
  pub request_hash : String
  pub input : String
  pub mode : ExecutionMode
  pub manifest : ReleaseManifest
  pub status : RunStatus
  pub deadline_at : Option Time
  pub next_attempt_at : Option Time
  pub lease_owner : Option String
  pub lease_until : Option Time
  pub fence_token : ℕ
  pub attempt_no : ℕ
  pub last_event_seq : ℕ
  pub final_result : Option FinalResult
  pub created_at : Time
  pub updated_at : Time

pub data AttemptStatus : Type 0 where
  attempt_running attempt_succeeded attempt_failed attempt_expired attempt_cancelled : AttemptStatus

pub record AttemptRow : Type 0 where
  pub run_id : String
  pub attempt_no : ℕ
  pub worker_id : String
  pub fence_token : ℕ
  pub status : AttemptStatus
  pub started_at : Time
  pub finished_at : Option Time
  pub error : Option String

-- The tables, and the number of identifiers that the sequence of `outbox_events` has given out.
pub record Database : Type 0 where
  pub runs : List RunRow
  pub attempts : List AttemptRow
  pub events : List RunEvent
  pub checkpoints : List Checkpoint
  pub outbox : Table
  pub serial : ℕ

module _ {A : Type 0} where
  -- SELECT of one row.
  abbrev pub first_where : (A → Bool) → List A → Option A
  first_where p [] = none
  first_where p (x ∷ xs) = let found = first_where p xs in if p x then some x else found

  -- UPDATE
  abbrev pub change_where : (A → Bool) → (A → A) → List A → List A
  change_where p f [] = []
  change_where p f (x ∷ xs) = let rest = change_where p f xs in if p x then f x ∷ rest else x ∷ rest

abbrev or_default : {A : Type 0} → A → Option A → A
or_default z none = z
or_default z (some x) = x

-- `scanRun`
unfoldable pub scan_run : RunRow → RunRecord
scan_run r = record {
  id = r.id;
  tenant_id = r.tenant_id;
  idempotency_key = r.idempotency_key;
  request_hash = r.request_hash;
  input = r.input;
  mode = r.mode;
  manifest = r.manifest;
  status = r.status;
  deadline = or_default zero_time r.deadline_at;
  lease_owner = or_default "" r.lease_owner;
  lease_until = or_default zero_time r.lease_until;
  fence_token = r.fence_token;
  attempt = r.attempt_no;
  last_event_seq = r.last_event_seq;
  final_result = r.final_result;
  created_at = r.created_at;
  updated_at = r.updated_at;
}

unfoldable pub nullable_time : Time → Option Time
nullable_time t = if is_zero t then none else some t

unfoldable pub nullable_string : String → Option String
nullable_string s = if s == "" then none else some s

unfoldable pub attempt_status_for : RunStatus → AttemptStatus
attempt_status_for succeeded = attempt_succeeded
attempt_status_for cancelled = attempt_cancelled
attempt_status_for _ = attempt_failed

-- id = $1 AND status = 'RUNNING' AND lease_owner = $2 AND fence_token = $3 AND lease_until > $4
unfoldable pub is_leased_to : String → String → ℕ → Time → RunRow → Bool
is_leased_to run_id worker fence now r =
    r.id == run_id
    && is_running r.status
    && owned_by worker r.lease_owner
    && eqb r.fence_token fence
    && unexpired now r.lease_until

unfoldable pub outbox_entry : RunEvent → RawMessage → ℕ → OutboxRow
outbox_entry event payload serial = record {
  id = pos (serial + 1);
  aggregate_type = "RUN";
  aggregate_id = event.run_id;
  event_type = event_name event.type;
  payload = payload;
  attempts = pos 0;
  next_attempt_at = event.occurred_at;
  published_at = none;
  created_at = event.occurred_at;
  lease_owner = none;
  lease_until = none;
  lease_token = 0;
  last_error = none;
}

-- `insertEventAndOutbox`, for `json.Marshal` of an event.
unfoldable pub insert_event_and_outbox :
    (RunEvent → Result StoreError RawMessage) → Database → RunEvent → Result StoreError Database
unfolding outbox_entry
insert_event_and_outbox marshal_event db event = elim (marshal_event event) [
  | err e ↦ err e
  | ok payload ↦ ok (record db {
    events = db.events ++ event ∷ [];
    outbox = db.outbox ++ outbox_entry event payload db.serial ∷ [];
    serial = db.serial + 1;
  })
]

-- The end of a transaction: an error rolls it back.
abbrev pub commit :
    {A : Type 0} → Database → Result StoreError (Database × A) → Database × Result StoreError A
commit db (err e) = (db, err e)
commit db (ok (db', x)) = (db', ok x)
