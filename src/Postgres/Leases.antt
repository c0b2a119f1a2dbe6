-- ===== src/Postgres/Leases.antt =====
-- internal/store/postgres/repository.go: leases, checkpoints and reads.
use reliable_agent_runtime.Prelude.{
  Bool, List, Option, Result, String, [], eqb, err, false, if◌then◌else◌, leb, leb_ℤ, length, ltb,
  none, not, ok, pos, select, some, str_lt, ℕ, ◌&&◌, ◌++◌, ◌+◌, ◌==◌, ◌||◌, ◌∷◌,
}
use reliable_agent_runtime.Domain.{
  Duration, RunEvent, Time, add_time, is_running, is_waiting, running,
}
use reliable_agent_runtime.Outbox.Table.{is_null, lease_over, unexpired}
use reliable_agent_runtime.Postgres.Methods.{is_open_attempt}
use reliable_agent_runtime.Postgres.Tables.{
  AttemptRow, Database, RunRow, attempt_expired, attempt_running, change_where, first_where,
  is_leased_to, scan_run,
}
use reliable_agent_runtime.Store.{
  Checkpoint, Lease, RunRecord, StoreError, checkpoint_ahead, invalid_transition, lease_lost,
  no_run_available, not_found, stale_checkpoint,
}

-- The WHERE of the candidates of LeaseNext.
unfoldable pub is_leasable : Time → RunRow → Bool
is_leasable now r =
    ((is_waiting r.status && lease_over now r.next_attempt_at)
      || (is_running r.status && not (is_null r.lease_until) && lease_over now r.lease_until))
    && (is_null r.deadline_at || unexpired now r.deadline_at)

-- ORDER BY COALESCE(next_attempt_at, created_at), created_at, id
abbrev pub due_at : RunRow → Time
due_at r = elim r.next_attempt_at [ none ↦ r.created_at | some t ↦ t ]

abbrev pub is_before : RunRow → RunRow → Bool
is_before a b =
    ltb (due_at a) (due_at b)
    || eqb (due_at a) (due_at b)
      && (ltb a.created_at b.created_at || eqb a.created_at b.created_at && str_lt a.id b.id)

abbrev pub foremost : List RunRow → Option RunRow
foremost [] = none
foremost (r ∷ rows) = elim (foremost rows) [
  | none ↦ some r
  | some best ↦ some (if is_before best r then best else r)
]

unfoldable pub taken_row : String → Time → Time → RunRow → RunRow
taken_row worker until now r = record r {
  status = running;
  lease_owner = some worker;
  lease_until = some until;
  fence_token = r.fence_token + 1;
  attempt_no = r.attempt_no + 1;
  next_attempt_at = none;
  updated_at = now;
}

unfoldable pub expired_attempt : Time → AttemptRow → AttemptRow
expired_attempt now a = record a {
  status = attempt_expired;
  finished_at = some now;
  error = some "lease expired";
}

-- LeaseNext; `locked` are the rows that other transactions have locked, which SKIP LOCKED passes over.
unfoldable pub pg_lease_next :
    (RunRow → Bool) → Database → String → Time → Duration → Database × Result StoreError Lease
unfolding is_leasable taken_row expired_attempt scan_run
pg_lease_next locked db worker now ttl =
    if worker == "" || leb_ℤ ttl (pos 0)
    then (db, err invalid_transition)
    else elim (foremost (select (λ r. is_leasable now r && not (locked r)) db.runs)) [
      | none ↦ (db, err no_run_available)
      | some r ↦
          let until = add_time now ttl in
          let taken = taken_row worker until now r in
          let closed =
            if is_running r.status
            then change_where (is_open_attempt r.id) (expired_attempt now) db.attempts
            else db.attempts in
          (
            record db {
              runs = change_where (λ s. s.id == r.id) (taken_row worker until now) db.runs;
              attempts =
                  closed
                  ++ record {
                    run_id = r.id;
                    attempt_no = taken.attempt_no;
                    worker_id = worker;
                    fence_token = taken.fence_token;
                    status = attempt_running;
                    started_at = now;
                    finished_at = none;
                    error = none;
                  }
                    ∷ [];
            },
            ok (record {
              run = scan_run taken;
              worker_id = worker;
              fence_token = taken.fence_token;
              attempt = taken.attempt_no;
              lease_until = until;
            }),
          )
    ]

unfoldable pub pg_renew_lease :
    Database → String → String → ℕ → Time → Duration → Database × Result StoreError Time
unfolding is_leased_to
pg_renew_lease db run_id worker fence now ttl =
    let until = add_time now ttl in
    let held_now = is_leased_to run_id worker fence now in
    if worker == "" || leb_ℤ ttl (pos 0) then (db, err invalid_transition) else (
      record db {
        runs =
            change_where held_now (λ r. record r { lease_until = some until; updated_at = now })
              db.runs;
      },
      if eqb (length (select held_now db.runs)) 1 then ok until else err lease_lost,
    )

abbrev pub checkpoint_of : String → Checkpoint → Bool
checkpoint_of run_id c = c.run_id == run_id

-- INSERT ... ON CONFLICT (run_id) DO UPDATE
abbrev pub upsert : Checkpoint → List Checkpoint → List Checkpoint
upsert c [] = c ∷ []
upsert c (old ∷ rest) =
    let others = upsert c rest in if old.run_id == c.run_id then c ∷ rest else old ∷ others

abbrev pub is_ahead_of : Option Checkpoint → ℕ → Bool
is_ahead_of none sequence = false
is_ahead_of (some c) sequence = ltb sequence c.event_sequence

unfoldable pub pg_save_checkpoint :
    Database → String → Checkpoint → Database × Result StoreError (Unit {0})
unfolding is_leased_to
pg_save_checkpoint db worker c =
    if worker == ""
    then (db, err lease_lost)
    else elim (first_where (is_leased_to c.run_id worker c.fence_token c.created_at) db.runs) [
      | none ↦ (db, err lease_lost)
      | some r ↦
          if ltb r.last_event_seq c.event_sequence
          then (db, err checkpoint_ahead)
          else if is_ahead_of (first_where (checkpoint_of c.run_id) db.checkpoints) c.event_sequence
          then (db, err stale_checkpoint)
          else (record db { checkpoints = upsert c db.checkpoints }, ok tt)
    ]

unfoldable pub pg_get_checkpoint : Database → String → Result StoreError Checkpoint
pg_get_checkpoint db run_id = elim (first_where (checkpoint_of run_id) db.checkpoints) [
  | none ↦ err not_found
  | some c ↦ ok c
]

unfoldable pub pg_get_run : Database → String → Result StoreError RunRecord
unfolding scan_run
pg_get_run db run_id = elim (first_where (λ r. r.id == run_id) db.runs) [
  | none ↦ err not_found
  | some r ↦ ok (scan_run r)
]

-- ORDER BY seq
abbrev pub insert_event : RunEvent → List RunEvent → List RunEvent
insert_event e [] = e ∷ []
insert_event e (d ∷ ds) =
    let rest = insert_event e ds in if leb e.sequence d.sequence then e ∷ d ∷ ds else d ∷ rest

abbrev pub by_sequence : List RunEvent → List RunEvent
by_sequence [] = []
by_sequence (e ∷ es) = insert_event e (by_sequence es)

unfoldable pub pg_list_events : Database → String → ℕ → Result StoreError (List RunEvent)
pg_list_events db run_id after_sequence =
    elim (by_sequence
      (select (λ e. e.run_id == run_id && ltb after_sequence e.sequence) db.events)) [
        | [] ↦ elim (first_where (λ r. r.id == run_id) db.runs) [
          | none ↦ err not_found
          | some r ↦ ok []
        ]
        | e ∷ es ↦ ok (e ∷ es)
      ]
