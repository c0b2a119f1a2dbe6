-- ===== src/Outbox/Ownership.antt =====
-- internal/outbox/postgres/repository.go: who may change a message, and when.
use reliable_agent_runtime.Prelude.{
  Bool, Bool-cases, List, Option, String, [], ap, arith, false, get_elem?, if◌then◌else◌, inl, inr,
  none, refl, some, true, ℕ, ℤ, ◌&&◌, ◌∙◌, ◌∷◌, ◌≡◌, ◌≤◌,
}
use reliable_agent_runtime.Domain.{Duration, Time, add_time}
use reliable_agent_runtime.Outbox.{OutboxError}
use reliable_agent_runtime.Outbox.Rows.{
  HasPrimaryKey, chosen-is_due, lease_batch-cases, update_where-at,
}
use reliable_agent_runtime.Outbox.Table.{
  OutboxRow, Table, due_rows, is_chosen, is_due, is_held, lease_batch, leased_row, limit_of,
  mark_published, mark_retry, published_row, retried_row, unexpired, update_one, update_where,
}

-- A call with what comes from outside: an error of the database and the rows that others have
-- locked.
pub data OutboxCall : Type 0 where
  leases_batch : Option OutboxError → (OutboxRow → Bool) → String → Time → Duration → ℤ → OutboxCall
  marks_published : Option OutboxError → ℤ → String → ℕ → Time → OutboxCall
  marks_retry : Option OutboxError → ℤ → String → ℕ → Time → String → OutboxCall

unfoldable pub apply : Table → OutboxCall → Table
unfolding lease_batch mark_published mark_retry
apply table (leases_batch fault locked publisher now ttl limit) =
    (lease_batch fault locked table publisher now ttl limit).0
apply table (marks_published fault id publisher token now) =
    (mark_published fault table id publisher token now).0
apply table (marks_retry fault id publisher token next_attempt reason) =
    (mark_retry fault table id publisher token next_attempt reason).0

unfoldable pub apply_all : Table → List OutboxCall → Table
apply_all table [] = table
apply_all table (call ∷ calls) = apply_all (apply table call) calls

-- What a change of a row takes.
abbrev pub may_change : OutboxCall → OutboxRow → Bool
may_change (leases_batch fault locked publisher now ttl limit) r = is_due now r
may_change (marks_published fault id publisher token now) r =
    is_held id publisher token r && unexpired now r.lease_until
may_change (marks_retry fault id publisher token next_attempt reason) r =
    is_held id publisher token r

-- A row after a call: as before, or changed with the right to it and with no smaller token.
pub record Becomes (call : OutboxCall) (r r' : OutboxRow) : Type 0 where
  pub kept : may_change call r ≡ false → r' ≡ r
  pub same_id : r'.id ≡ r.id
  pub no_older : r.lease_token ≤ r'.lease_token

updated :
    (call : OutboxCall) (p : OutboxRow → Bool) (f : OutboxRow → OutboxRow) (r : OutboxRow)
    → (p r ≡ true → may_change call r ≡ true)
    → (f r).id ≡ r.id
    → r.lease_token ≤ (f r).lease_token
    → Becomes call r (if p r then f r else r)
updated call p f r right id token = elim (Bool-cases (p r)) [
  | inl e ↦ rw e (record {
    kept = λ wrong. absurd (ground (arith, wrong, right e));
    same_id = id;
    no_older = token;
  })
  | inr e ↦ rw e (record { kept = λ h. refl; same_id = refl; no_older = omega arith })
]

updated_at :
    (call : OutboxCall) (p : OutboxRow → Bool) (f : OutboxRow → OutboxRow) (table table' : Table)
    (k : ℕ) (r : OutboxRow)
    → table' ≡ update_where p f table
    → get_elem? table k ≡ some r
    → (p r ≡ true → may_change call r ≡ true)
    → (f r).id ≡ r.id
    → r.lease_token ≤ (f r).lease_token
    → (r' : OutboxRow) × (get_elem? table' k ≡ some r') × Becomes call r r'
updated_at call p f table table' k r e found right id token = (
  if p r then f r else r,
  ap (λ t. get_elem? t k) e ∙ update_where-at p f table k r found,
  updated call p f r right id token,
)

rests : (call : OutboxCall) (r : OutboxRow) → Becomes call r r
rests call r = record { kept = λ h. refl; same_id = refl; no_older = omega arith }

lease_batch-Becomes :
    (table : Table) (fault : Option OutboxError) (locked : OutboxRow → Bool) (publisher : String)
    (now : Time) (ttl : Duration) (limit : ℤ) (k : ℕ) (r : OutboxRow)
    → HasPrimaryKey table
    → get_elem? table k ≡ some r
    → (r' : OutboxRow) × (get_elem? (lease_batch fault locked table publisher now ttl limit).0 k
        ≡ some r')
      × Becomes (leases_batch fault locked publisher now ttl limit) r r'
unfolding lease_batch leased_row
lease_batch-Becomes table fault locked publisher now ttl limit k r keyed found =
    elim (lease_batch-cases fault locked table publisher now ttl limit) [
      | inl same ↦ (r, ap (λ t. get_elem? t k) same ∙ found, rests _ r)
      | inr taking ↦
          updated_at (leases_batch fault locked publisher now ttl limit)
            (is_chosen (due_rows locked now (limit_of limit) table))
            (leased_row publisher (add_time now ttl)) table
            (lease_batch fault locked table publisher now ttl limit).0 k r taking found
            (chosen-is_due locked now (limit_of limit) table k r keyed found) refl (omega arith)
    ]

pub apply-Becomes :
    (table : Table) (call : OutboxCall) (k : ℕ) (r : OutboxRow)
    → HasPrimaryKey table
    → get_elem? table k ≡ some r
    → (r' : OutboxRow) × (get_elem? (apply table call) k ≡ some r') × Becomes call r r'
unfolding apply lease_batch mark_published mark_retry update_one leased_row published_row
    retried_row
apply-Becomes table (leases_batch fault locked publisher now ttl limit) k r keyed found =
    lease_batch-Becomes table fault locked publisher now ttl limit k r keyed found
apply-Becomes table (marks_published (some e) id publisher token now) k r keyed found =
    (r, found, rests _ r)
apply-Becomes table (marks_published none id publisher token now) k r keyed found =
    updated_at (marks_published none id publisher token now)
      (λ r. is_held id publisher token r && unexpired now r.lease_until) (published_row now) table _
      k r refl found (λ right. right) refl (omega arith)
apply-Becomes table (marks_retry (some e) id publisher token next_attempt reason) k r keyed found =
    (r, found, rests _ r)
apply-Becomes table (marks_retry none id publisher token next_attempt reason) k r keyed found =
    updated_at (marks_retry none id publisher token next_attempt reason)
      (is_held id publisher token) (retried_row next_attempt reason) table _ k r refl found
      (λ right. right) refl (omega arith)
