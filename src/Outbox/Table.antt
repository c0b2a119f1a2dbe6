-- ===== src/Outbox/Table.antt =====
-- internal/outbox/postgres/repository.go: the statements on the table `outbox_events` of
-- migrations/001_runtime.up.sql and 002_outbox_leasing.up.sql, as PostgreSQL executes them. NULL is
-- `none`; times are those that a `timestamptz` holds. An error of the database comes from outside,
-- and a statement that reports one has changed nothing.
use reliable_agent_runtime.Prelude.{
  Bool, List, Option, Result, String, [], add_int, eqb, eqb_ℤ, err, false, if◌then◌else◌, leb,
  leb_ℤ, length, ltb, map, none, not, ok, pos, pos_part, select, some, suc, true, zero, ℕ, ℤ, ◌&&◌,
  ◌+◌, ◌==◌, ◌||◌, ◌∷◌,
}
use reliable_agent_runtime.Domain.{Duration, RawMessage, Time, add_time}
use reliable_agent_runtime.Outbox.{
  OutboxError, OutboxMessage, invalid_publisher_config, no_messages, outbox_lease_lost,
}

pub record OutboxRow : Type 0 where
  pub id : ℤ
  pub aggregate_type : String
  pub aggregate_id : String
  pub event_type : String
  pub payload : RawMessage
  pub attempts : ℤ
  pub next_attempt_at : Time
  pub published_at : Option Time
  pub created_at : Time
  pub lease_owner : Option String
  pub lease_until : Option Time
  pub lease_token : ℕ
  pub last_error : Option String

abbrev pub Table : Type 0
Table = List OutboxRow

abbrev pub is_null : {A : Type 0} → Option A → Bool
is_null none = true
is_null (some x) = false

-- `lease_until IS NULL OR lease_until <= $1`
abbrev pub lease_over : Time → Option Time → Bool
lease_over now none = true
lease_over now (some until) = leb until now

-- `lease_owner = $2`, which NULL is not.
abbrev pub owned_by : String → Option String → Bool
owned_by publisher none = false
owned_by publisher (some owner) = owner == publisher

-- The WHERE of the due_rows.
unfoldable pub is_due : Time → OutboxRow → Bool
is_due now r = is_null r.published_at && leb r.next_attempt_at now && lease_over now r.lease_until

-- ORDER BY next_attempt_at, id
abbrev pub comes_first : OutboxRow → OutboxRow → Bool
comes_first a b =
    ltb a.next_attempt_at b.next_attempt_at
    || eqb a.next_attempt_at b.next_attempt_at && leb_ℤ a.id b.id

abbrev pub insert_row : OutboxRow → Table → Table
insert_row r [] = r ∷ []
insert_row r (s ∷ rows) =
    let rest = insert_row r rows in if comes_first r s then r ∷ s ∷ rows else s ∷ rest

abbrev pub ordered : Table → Table
ordered [] = []
ordered (r ∷ rows) = insert_row r (ordered rows)

-- LIMIT
abbrev pub take {ℓ} : {A : Type ℓ} → ℕ → List A → List A
take zero xs = []
take (suc n) [] = []
take (suc n) (x ∷ xs) = x ∷ take n xs

-- The due_rows: FOR UPDATE SKIP LOCKED passes over the rows that another transaction has locked.
unfoldable pub due_rows : (OutboxRow → Bool) → Time → ℕ → Table → Table
unfolding is_due
due_rows locked now limit table =
    take limit (ordered (select (λ r. is_due now r && not (locked r)) table))

abbrev pub is_chosen : Table → OutboxRow → Bool
is_chosen [] r = false
is_chosen (c ∷ rows) r = eqb_ℤ c.id r.id || is_chosen rows r

-- UPDATE: the rows after it, and `RowsAffected`.
unfoldable pub update_where : (OutboxRow → Bool) → (OutboxRow → OutboxRow) → Table → Table
update_where p f [] = []
update_where p f (r ∷ rows) =
    let rest = update_where p f rows in if p r then f r ∷ rest else r ∷ rest

abbrev pub rows_affected : (OutboxRow → Bool) → Table → ℕ
rows_affected p table = length (select p table)

unfoldable pub leased_row : String → Time → OutboxRow → OutboxRow
leased_row publisher until r = record r {
  lease_owner = some publisher;
  lease_until = some until;
  lease_token = r.lease_token + 1;
  attempts = add_int r.attempts (pos 1);
  last_error = none;
}

-- RETURNING and Scan.
unfoldable pub to_message : String → Time → OutboxRow → OutboxMessage
to_message publisher until r = record {
  id = r.id;
  aggregate_type = r.aggregate_type;
  aggregate_id = r.aggregate_id;
  event_type = r.event_type;
  payload = r.payload;
  attempts = r.attempts;
  created_at = r.created_at;
  lease_owner = publisher;
  lease_until = until;
  lease_token = r.lease_token;
}

abbrev pub limit_of : ℤ → ℕ
limit_of = pos_part

-- `LeaseBatch`. PostgreSQL fixes no order of the rows that an UPDATE returns: here it is that of the
-- table.
unfoldable pub lease_batch :
    Option OutboxError
    → (OutboxRow → Bool)
    → Table
    → String
    → Time
    → Duration
    → ℤ
    → Table × Result OutboxError (List OutboxMessage)
unfolding due_rows update_where leased_row to_message
lease_batch fault locked table publisher now ttl limit =
    if publisher == "" || leb_ℤ ttl (pos 0) || leb_ℤ limit (pos 0)
    then (table, err invalid_publisher_config)
    else elim fault [
      | some e ↦ (table, err e)
      | none ↦
          let until = add_time now ttl in
          let chosen = is_chosen (due_rows locked now (limit_of limit) table) in
          let table' = update_where chosen (leased_row publisher until) table in
          let messages =
            map (to_message publisher until)
              (map (leased_row publisher until) (select chosen table)) in
          (table', elim messages [ [] ↦ err no_messages | m ∷ ms ↦ ok (m ∷ ms) ])
    ]

-- The WHERE that the two other statements share.
unfoldable pub is_held : ℤ → String → ℕ → OutboxRow → Bool
is_held id publisher token r =
    eqb_ℤ r.id id
    && is_null r.published_at
    && owned_by publisher r.lease_owner
    && eqb r.lease_token token

abbrev pub unexpired : Time → Option Time → Bool
unexpired now none = false
unexpired now (some until) = ltb now until

unfoldable pub published_row : Time → OutboxRow → OutboxRow
published_row now r = record r {
  published_at = some now;
  lease_owner = none;
  lease_until = none;
  last_error = none;
}

unfoldable pub retried_row : Time → String → OutboxRow → OutboxRow
retried_row next_attempt reason r = record r {
  next_attempt_at = next_attempt;
  lease_owner = none;
  lease_until = none;
  last_error = some reason;
}

-- An UPDATE that has to change one row.
unfoldable pub update_one :
    Option OutboxError
    → (OutboxRow → Bool)
    → (OutboxRow → OutboxRow)
    → Table
    → Table × Option OutboxError
unfolding update_where
update_one (some e) p f table = (table, some e)
update_one none p f table =
    (update_where p f table, if eqb (rows_affected p table) 1 then none else some outbox_lease_lost)

unfoldable pub mark_published :
    Option OutboxError → Table → ℤ → String → ℕ → Time → Table × Option OutboxError
unfolding update_one is_held published_row
mark_published fault table id publisher token now =
    update_one fault (λ r. is_held id publisher token r && unexpired now r.lease_until)
      (published_row now) table

unfoldable pub mark_retry :
    Option OutboxError → Table → ℤ → String → ℕ → Time → String → Table × Option OutboxError
unfolding update_one is_held retried_row
mark_retry fault table id publisher token next_attempt reason =
    update_one fault (is_held id publisher token) (retried_row next_attempt reason) table
