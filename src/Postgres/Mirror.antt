-- ===== src/Postgres/Mirror.antt =====
-- internal/store/postgres/repository.go and internal/outbox/postgres/repository.go: the outbox has
-- the events of the runs.
use reliable_agent_runtime.Prelude.{
  Bool, Bool-cases, List, Result, Result-cases, [], ap, err, inl, inr, none, ok, refl, some, subst,
  sym, ◌++◌, ◌>>=◌, ◌∙◌, ◌∷◌, ◌≡◌,
}
use reliable_agent_runtime.Domain.{RawMessage, RunEvent, add_time}
use reliable_agent_runtime.Http.Events.{event_name}
use reliable_agent_runtime.Outbox.Ownership.{
  OutboxCall, apply, leases_batch, marks_published, marks_retry,
}
use reliable_agent_runtime.Outbox.Rows.{lease_batch-cases}
use reliable_agent_runtime.Outbox.Table.{
  OutboxRow, Table, due_rows, is_chosen, leased_row, limit_of, mark_published, mark_retry,
  published_row, retried_row, update_one, update_where,
}
use reliable_agent_runtime.Postgres.Tables.{Database, commit, insert_event_and_outbox, outbox_entry}
use reliable_agent_runtime.Store.{StoreError}

module _ (marshal_event : RunEvent → Result StoreError RawMessage) where
  -- The message of an event, whatever publishers have done with it.
  pub record Announces (event : RunEvent) (row : OutboxRow) : Type 0 where
    pub about : row.aggregate_id ≡ event.run_id
    pub typed : row.event_type ≡ event_name event.type
    pub encoded : marshal_event event ≡ ok row.payload

  -- One message for each event, in the same order.
  abbrev pub Mirrors : List RunEvent → Table → Type 0
  Mirrors [] [] = Unit
  Mirrors [] (row ∷ rows) = ⊥
  Mirrors (event ∷ events) [] = ⊥
  Mirrors (event ∷ events) (row ∷ rows) = Announces event row × Mirrors events rows

  Mirrors-append :
      (events : List RunEvent) (rows : Table) (event : RunEvent) (row : OutboxRow)
      → Mirrors events rows
      → Announces event row
      → Mirrors (events ++ event ∷ []) (rows ++ row ∷ [])
  Mirrors-append [] [] event row h a = (a, tt)
  Mirrors-append [] (r ∷ rows) event row h a = absurd h
  Mirrors-append (e ∷ events) [] event row h a = absurd h
  Mirrors-append (e ∷ events) (r ∷ rows) event row h a =
      (h.0, Mirrors-append events rows event row h.1 a)

  -- What the statements of the publishers leave alone.
  record Keeps (f : OutboxRow → OutboxRow) : Type 0 where
    id_kept : (r : OutboxRow) → (f r).aggregate_id ≡ r.aggregate_id
    type_kept : (r : OutboxRow) → (f r).event_type ≡ r.event_type
    payload_kept : (r : OutboxRow) → (f r).payload ≡ r.payload

  Announces-kept :
      (f : OutboxRow → OutboxRow) (event : RunEvent) (row : OutboxRow)
      → Keeps f
      → Announces event row
      → Announces event (f row)
  Announces-kept f event row k a = record {
    about = k.id_kept row ∙ a.about;
    typed = k.type_kept row ∙ a.typed;
    encoded = a.encoded ∙ ap ok (sym (k.payload_kept row));
  }

  Mirrors-update :
      (p : OutboxRow → Bool) (f : OutboxRow → OutboxRow) (events : List RunEvent) (rows : Table)
      → Keeps f
      → Mirrors events rows
      → Mirrors events (update_where p f rows)
  unfolding update_where
  Mirrors-update p f [] [] k h = tt
  Mirrors-update p f [] (r ∷ rows) k h = absurd h
  Mirrors-update p f (e ∷ events) [] k h = absurd h
  Mirrors-update p f (e ∷ events) (r ∷ rows) k h = elim (Bool-cases (p r)) [
    | inl here ↦ rw here (Announces-kept f e r k h.0, Mirrors-update p f events rows k h.1)
    | inr there ↦ rw there (h.0, Mirrors-update p f events rows k h.1)
  ]

  pub apply-Mirrors :
      (events : List RunEvent) (table : Table) (call : OutboxCall)
      → Mirrors events table
      → Mirrors events (apply table call)
  unfolding apply leased_row mark_published mark_retry update_one published_row retried_row
  apply-Mirrors events table (leases_batch fault locked publisher now ttl limit) h =
      elim (lease_batch-cases fault locked table publisher now ttl limit) [
        | inl same ↦ subst (Mirrors events) (sym same) h
        | inr taking ↦ subst (Mirrors events) (sym taking) (
            Mirrors-update (is_chosen (due_rows locked now (limit_of limit) table))
              (leased_row publisher (add_time now ttl)) events table
              (record { id_kept = λ r. refl; type_kept = λ r. refl; payload_kept = λ r. refl }) h)
      ]
  apply-Mirrors events table (marks_published (some e) id publisher token now) h = h
  apply-Mirrors events table (marks_published none id publisher token now) h =
      Mirrors-update _ _ events table
        (record { id_kept = λ r. refl; type_kept = λ r. refl; payload_kept = λ r. refl }) h
  apply-Mirrors events table (marks_retry (some e) id publisher token next_attempt reason) h = h
  apply-Mirrors events table (marks_retry none id publisher token next_attempt reason) h =
      Mirrors-update _ _ events table
        (record { id_kept = λ r. refl; type_kept = λ r. refl; payload_kept = λ r. refl }) h

  abbrev pub InMirror : Database → Type 0
  InMirror db = Mirrors db.events db.outbox

  -- What a transaction that commits leaves.
  abbrev pub After : {A : Type 0} → Result StoreError (Database × A) → Type 0
  After (err e) = Unit
  After (ok p) = InMirror p.0

  pub commit-Mirrors :
      {A : Type 0} (db : Database) (result : Result StoreError (Database × A))
      → InMirror db
      → After result
      → InMirror (commit db result).0
  commit-Mirrors db (err e) h k = h
  commit-Mirrors db (ok p) h k = k

  pub After-bind :
      {A B : Type 0} (result : Result StoreError B) (f : B → Result StoreError (Database × A))
      → ((b : B) → After (f b))
      → After (result >>= f)
  After-bind (err e) f k = tt
  After-bind (ok b) f k = k b

  pub insert_event_and_outbox-After :
      {A : Type 0} (db : Database) (event : RunEvent) (x : A)
      → InMirror db
      → After (insert_event_and_outbox marshal_event db event >>= (λ db'. ok (db', x)))
  unfolding insert_event_and_outbox outbox_entry
  insert_event_and_outbox-After db event x h = elim (Result-cases (marshal_event event)) [
    | inr (e, bad) ↦ rw (bad, insert_event_and_outbox) tt
    | inl (payload, fine) ↦
        rw (fine, insert_event_and_outbox)
          (Mirrors-append db.events db.outbox event (outbox_entry event payload db.serial) h
            (record { about = refl; typed = refl; encoded = fine }))
  ]
