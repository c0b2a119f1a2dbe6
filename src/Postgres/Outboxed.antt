-- ===== src/Postgres/Outboxed.antt =====
-- internal/store/postgres/repository.go and internal/outbox/postgres/repository.go: runs and outbox
-- over sequences of calls.
use reliable_agent_runtime.Prelude.{
  Bool, Bool-cases, List, Option-cases, Result, String, [], arith, fail_if, inl, inr, leb_ℤ, ltb,
  not, pos, select, ℕ, ◌&&◌, ◌==◌, ◌||◌, ◌∷◌,
}
use reliable_agent_runtime.Domain.{
  Duration, EventType, FinalResult, RawMessage, RunEvent, RunRequest, Time,
}
use reliable_agent_runtime.Outbox.Ownership.{OutboxCall, apply}
use reliable_agent_runtime.Postgres.Leases.{
  checkpoint_of, foremost, is_ahead_of, is_leasable, pg_lease_next, pg_renew_lease,
  pg_save_checkpoint,
}
use reliable_agent_runtime.Postgres.Methods.{
  append_row, create_row, finish_row, has_key, pg_append_event, pg_create_run, pg_finish_run,
}
use reliable_agent_runtime.Postgres.Mirror.{
  After, After-bind, InMirror, Mirrors, apply-Mirrors, commit-Mirrors,
  insert_event_and_outbox-After,
}
use reliable_agent_runtime.Postgres.Tables.{Database, RunRow, first_where, is_leased_to}
use reliable_agent_runtime.Store.{
  Checkpoint, Encoders, StoreError, lease_lost, request_hash, validate_terminal_event,
}

-- A writing call of one of the two repositories on the same database.
pub data DatabaseCall : Type 0 where
  pg_creates : RunRequest → Time → DatabaseCall
  pg_leases : (RunRow → Bool) → String → Time → Duration → DatabaseCall
  pg_renews : String → String → ℕ → Time → Duration → DatabaseCall
  pg_appends : String → String → ℕ → EventType → RawMessage → Time → DatabaseCall
  pg_saves : String → Checkpoint → DatabaseCall
  pg_finishes : String → String → ℕ → FinalResult → EventType → Time → DatabaseCall
  publishes : OutboxCall → DatabaseCall

abbrev pub empty_database : Database
empty_database = record {
  runs = [];
  attempts = [];
  events = [];
  checkpoints = [];
  outbox = [];
  serial = 0;
}

module _ (enc : Encoders) (marshal_event : RunEvent → Result StoreError RawMessage) where
  unfoldable pub pg_step : Database → DatabaseCall → Database
  unfolding apply
  pg_step db (pg_creates request now) = (pg_create_run enc marshal_event db request now).0
  pg_step db (pg_leases locked worker now ttl) = (pg_lease_next locked db worker now ttl).0
  pg_step db (pg_renews id worker fence now ttl) = (pg_renew_lease db id worker fence now ttl).0
  pg_step db (pg_appends id worker fence type payload now) =
      (pg_append_event enc marshal_event db id worker fence type payload now).0
  pg_step db (pg_saves worker checkpoint) = (pg_save_checkpoint db worker checkpoint).0
  pg_step db (pg_finishes id worker fence result type now) =
      (pg_finish_run enc marshal_event db id worker fence result type now).0
  pg_step db (publishes call) = record db { outbox = apply db.outbox call }

  unfoldable pub pg_history : Database → List DatabaseCall → Database
  unfolding pg_step
  pg_history db [] = db
  pg_history db (call ∷ calls) = pg_history (pg_step db call) calls

  create_row-After :
      (db : Database) (request : RunRequest) (hash : String) (payload : RawMessage) (now : Time)
      → InMirror marshal_event db
      → After marshal_event (create_row enc marshal_event db request hash payload now)
  unfolding create_row
  create_row-After db request hash payload now h =
      elim (Option-cases (first_where (has_key request) db.runs)) [
        | inr (r, known) ↦
            rw (known, create_row)
              (elim (Bool-cases (r.request_hash == hash)) [
                | inl same ↦ rw same h
                | inr other_request ↦ rw other_request tt
              ])
        | inl fresh ↦
            rw (fresh, create_row)
              (elim (Option-cases (first_where (λ r. r.id == request.run_id) db.runs)) [
                | inr (r, taken) ↦ rw taken tt
                | inl free ↦ rw free (insert_event_and_outbox-After marshal_event _ _ _ h)
              ])
      ]

  append_row-After :
      (db : Database) (id worker : String) (fence : ℕ) (type : EventType) (payload : RawMessage)
      (now : Time)
      → InMirror marshal_event db
      → After marshal_event (append_row enc marshal_event db id worker fence type payload now)
  unfolding append_row
  append_row-After db id worker fence type payload now h =
      elim (Option-cases (first_where (is_leased_to id worker fence now) db.runs)) [
        | inl lost ↦ rw (lost, append_row) tt
        | inr (r, found) ↦
            rw (found, append_row) (insert_event_and_outbox-After marshal_event _ _ _ h)
      ]

  finish_row-After :
      (db : Database) (id worker : String) (fence : ℕ) (result : FinalResult) (type : EventType)
      (payload : RawMessage) (now : Time)
      → InMirror marshal_event db
      → After marshal_event
          (finish_row enc marshal_event db id worker fence result type payload now)
  unfolding finish_row
  finish_row-After db id worker fence result type payload now h =
      elim (Option-cases (first_where (is_leased_to id worker fence now) db.runs)) [
        | inl lost ↦ rw (lost, finish_row) tt
        | inr (r, found) ↦
            rw (found, finish_row) (insert_event_and_outbox-After marshal_event _ _ _ h)
      ]

  pg_lease_next-InMirror :
      (locked : RunRow → Bool) (db : Database) (worker : String) (now : Time) (ttl : Duration)
      → InMirror marshal_event db
      → InMirror marshal_event (pg_lease_next locked db worker now ttl).0
  unfolding pg_lease_next
  pg_lease_next-InMirror locked db worker now ttl h =
      elim (Bool-cases (worker == "" || leb_ℤ ttl (pos 0))) [
        | inl invalid ↦ rw (invalid, pg_lease_next) h
        | inr valid ↦
            elim (Option-cases
              (foremost (select (λ r. is_leasable now r && not (locked r)) db.runs))) [
                | inl nothing ↦ rw (valid, pg_lease_next) (rw nothing h)
                | inr (r, found) ↦ rw (valid, pg_lease_next) (rw found h)
              ]
      ]

  pg_save_checkpoint-InMirror :
      (db : Database) (worker : String) (c : Checkpoint)
      → InMirror marshal_event db
      → InMirror marshal_event (pg_save_checkpoint db worker c).0
  unfolding pg_save_checkpoint
  pg_save_checkpoint-InMirror db worker c h =
      let held_now = is_leased_to c.run_id worker c.fence_token c.created_at in
      elim (Bool-cases (worker == "")) [
        | inl unnamed ↦ rw (unnamed, pg_save_checkpoint) h
        | inr named ↦ elim (Option-cases (first_where held_now db.runs)) [
          | inl lost ↦ rw (named, pg_save_checkpoint) (rw lost h)
          | inr (r, found) ↦
              rw (named, pg_save_checkpoint)
                (rw found (elim (Bool-cases (ltb r.last_event_seq c.event_sequence)) [
                  | inl ahead ↦ rw ahead h
                  | inr behind ↦
                      rw behind
                        (elim (Bool-cases (
                          is_ahead_of (first_where (checkpoint_of c.run_id) db.checkpoints)
                            c.event_sequence)) [ inl stale ↦ rw stale h | inr fresh ↦ rw fresh h ])
                ]))
        ]
      ]

  pg_step-InMirror :
      (db : Database) (call : DatabaseCall)
      → InMirror marshal_event db
      → InMirror marshal_event (pg_step db call)
  unfolding pg_step pg_create_run pg_lease_next pg_renew_lease pg_save_checkpoint pg_finish_run
      pg_append_event
  pg_step-InMirror db (pg_creates request now) h = commit-Mirrors marshal_event db _ h (
      After-bind marshal_event (request_hash enc request) _ (λ hash.
        After-bind marshal_event (enc.marshal_created request.mode request.manifest) _
          (λ payload. create_row-After db request hash payload now h)))
  pg_step-InMirror db (pg_leases locked worker now ttl) h =
      pg_lease_next-InMirror locked db worker now ttl h
  pg_step-InMirror db (pg_renews id worker fence now ttl) h = ground (arith, h)
  pg_step-InMirror db (pg_appends id worker fence type payload now) h =
      commit-Mirrors marshal_event db _ h (
        After-bind marshal_event (fail_if (worker == "") lease_lost) _
          (λ named. append_row-After db id worker fence type payload now h))
  pg_step-InMirror db (pg_saves worker checkpoint) h =
      pg_save_checkpoint-InMirror db worker checkpoint h
  pg_step-InMirror db (pg_finishes id worker fence result type now) h =
      commit-Mirrors marshal_event db _ h (
        After-bind marshal_event (validate_terminal_event result type) _ (λ checked.
          After-bind marshal_event (enc.marshal_result result) _
            (λ payload. finish_row-After db id worker fence result type payload now h)))
  pg_step-InMirror db (publishes call) h = apply-Mirrors marshal_event db.events db.outbox call h

  pg_history-InMirror :
      (db : Database) (calls : List DatabaseCall)
      → InMirror marshal_event db
      → InMirror marshal_event (pg_history db calls)
  unfolding pg_history
  pg_history-InMirror db [] h = h
  pg_history-InMirror db (call ∷ calls) h =
      pg_history-InMirror (pg_step db call) calls (pg_step-InMirror db call h)

  -- After any sequence of calls of both repositories on an empty database, those that fail included,
  -- the outbox has one message for each event of a run, in the order in which the events were added:
  -- with the run's identifier, the event's type and its encoding.
  pub pg_history-Mirrors :
      (calls : List DatabaseCall)
      → Mirrors marshal_event
          (pg_history empty_database calls).events
          (pg_history empty_database calls).outbox
  pg_history-Mirrors calls = pg_history-InMirror empty_database calls tt
