-- ===== src/Outbox/Guarantees.antt =====
-- internal/outbox/postgres/repository.go: what holds over sequences of calls.
use reliable_agent_runtime.Prelude.{
  All, Bool, Bool-cases, List, String, [], ap, arith, eq_iff, false, get_elem?, if◌then◌else◌, inl,
  inr, none, refl, some, subst, sym, ℕ, ◌<◌, ◌∙◌, ◌∷◌, ◌≡◌, ◌≢◌, ◌≤◌, ◌⊎◌,
}
use reliable_agent_runtime.Domain.{Time, add_time}
use reliable_agent_runtime.Outbox.Ownership.{
  OutboxCall, apply, apply-Becomes, apply_all, leases_batch, marks_published, marks_retry,
  may_change,
}
use reliable_agent_runtime.Outbox.Rows.{HasPrimaryKey, lease_batch-cases, update_where-from}
use reliable_agent_runtime.Outbox.Table.{
  OutboxRow, Table, due_rows, is_chosen, is_due, is_held, is_null, lease_batch, leased_row,
  limit_of, mark_published, mark_retry, published_row, retried_row, update_one, update_where,
}

keyed_update :
    (p : OutboxRow → Bool) (f : OutboxRow → OutboxRow) (table : Table)
    → ((r : OutboxRow) → (f r).id ≡ r.id)
    → HasPrimaryKey table
    → HasPrimaryKey (update_where p f table)
keyed_update p f table same_ids keyed j k r s at_j at_k same =
    let (r0, found_j, from_r) = update_where-from p f table j r at_j in
    let (s0, found_k, from_s) = update_where-from p f table k s at_k in
    keyed j k r0 s0 found_j found_k (sym (kept_id r0 r from_r) ∙ same ∙ kept_id s0 s from_s)
  where
    kept_id : (r0 r : OutboxRow) → r ≡ (if p r0 then f r0 else r0) → r.id ≡ r0.id
    kept_id r0 r from = elim (Bool-cases (p r0)) [
      | inl e ↦ ap (λ x. x.id) (rw e at from) ∙ same_ids r0
      | inr e ↦ ap (λ x. x.id) (rw e at from)
    ]

pub apply-HasPrimaryKey :
    (table : Table) (call : OutboxCall) → HasPrimaryKey table → HasPrimaryKey (apply table call)
unfolding apply lease_batch leased_row mark_published mark_retry update_one published_row
    retried_row
apply-HasPrimaryKey table (leases_batch fault locked publisher now ttl limit) keyed =
    elim (lease_batch-cases fault locked table publisher now ttl limit) [
      | inl same ↦ subst HasPrimaryKey (sym same) keyed
      | inr taking ↦ subst HasPrimaryKey (sym taking) (
          keyed_update (is_chosen (due_rows locked now (limit_of limit) table))
            (leased_row publisher (add_time now ttl)) table (λ r. refl) keyed)
    ]
apply-HasPrimaryKey table (marks_published (some e) id publisher token now) keyed = keyed
apply-HasPrimaryKey table (marks_published none id publisher token now) keyed =
    keyed_update _ _ table (λ r. refl) keyed
apply-HasPrimaryKey table (marks_retry (some e) id publisher token next_attempt reason) keyed =
    keyed
apply-HasPrimaryKey table (marks_retry none id publisher token next_attempt reason) keyed =
    keyed_update _ _ table (λ r. refl) keyed

-- A row that no call has the right to change stays as it is.
apply_all_kept :
    (table : Table) (calls : List OutboxCall) (k : ℕ) (r : OutboxRow)
    → HasPrimaryKey table
    → get_elem? table k ≡ some r
    → All (λ call. may_change call r ≡ false) calls
    → get_elem? (apply_all table calls) k ≡ some r
unfolding apply_all
apply_all_kept table [] k r keyed found h = found
apply_all_kept table (call ∷ calls) k r keyed found h =
    let (r', found', b) = apply-Becomes table call k r keyed found in
    apply_all_kept (apply table call) calls k r (apply-HasPrimaryKey table call keyed)
      (found' ∙ ap some (b.kept h.0)) h.1

-- The identifier stays and the token never falls.
pub apply_all_token :
    (table : Table) (calls : List OutboxCall) (k : ℕ) (r : OutboxRow)
    → HasPrimaryKey table
    → get_elem? table k ≡ some r
    → (r' : OutboxRow) × (get_elem? (apply_all table calls) k ≡ some r')
      × (r'.id ≡ r.id)
      × (r.lease_token ≤ r'.lease_token)
      × HasPrimaryKey (apply_all table calls)
unfolding apply_all
apply_all_token table [] k r keyed found = (r, found, refl, omega arith, keyed)
apply_all_token table (call ∷ calls) k r keyed found =
    let (r', found', b) = apply-Becomes table call k r keyed found in
    let (r'', found'', same, newer, keyed') =
      apply_all_token (apply table call) calls k r' (apply-HasPrimaryKey table call keyed) found' in
    (r'', found'', same ∙ b.same_id, omega (arith, b.no_older, newer), keyed')

not_published :
    (call : OutboxCall) (r : OutboxRow) → is_null r.published_at ≡ false → may_change call r ≡ false
unfolding is_due is_held
not_published (leases_batch fault locked publisher now ttl limit) r h = ground (arith, h)
not_published (marks_published fault id publisher token now) r h = ground (arith, h)
not_published (marks_retry fault id publisher token next_attempt reason) r h = ground (arith, h)

-- A message that was published is never changed again, leased or rescheduled: whatever calls follow,
-- its row stays as it is, in a table whose identifiers are distinct.
pub apply_all_published :
    (table : Table) (calls : List OutboxCall) (k : ℕ) (r : OutboxRow)
    → HasPrimaryKey table
    → get_elem? table k ≡ some r
    → is_null r.published_at ≡ false
    → get_elem? (apply_all table calls) k ≡ some r
apply_all_published table calls k r keyed found done =
    apply_all_kept table calls k r keyed found (all_wrong calls)
  where
    all_wrong : (calls : List OutboxCall) → All (λ call. may_change call r ≡ false) calls
    all_wrong [] = tt
    all_wrong (call ∷ calls) = (not_published call r done, all_wrong calls)

-- Calls that are not made under the lease of a publisher with a token, and no lease after its end.
abbrev pub IsForeign : String → ℕ → Time → OutboxCall → Type 0
IsForeign owner token until (leases_batch fault locked publisher now ttl limit) = now < until
IsForeign owner token until (marks_published fault id publisher token' now) =
    (publisher ≢ owner) ⊎ (token' ≢ token)
IsForeign owner token until (marks_retry fault id publisher token' next_attempt reason) =
    (publisher ≢ owner) ⊎ (token' ≢ token)

IsForeign-may_change :
    (owner : String) (token : ℕ) (until : Time) (call : OutboxCall) (r : OutboxRow)
    → r.lease_owner ≡ some owner
    → r.lease_token ≡ token
    → r.lease_until ≡ some until
    → IsForeign owner token until call
    → may_change call r ≡ false
unfolding is_due is_held
IsForeign-may_change owner token until (leases_batch fault locked publisher now ttl limit) r a b c
      h =
    ground (arith, a, b, c, h)
IsForeign-may_change owner token until (marks_published fault id publisher token' now) r a b c h =
    ground (arith, a, b, c, h, eq_iff owner publisher)
IsForeign-may_change owner token until (marks_retry fault id publisher token' next_attempt reason) r
      a b c h =
    ground (arith, a, b, c, h, eq_iff owner publisher)

-- While a lease lasts, nobody else changes its message: its row stays as it is over any leases
-- that are taken before the end of this one and any marks by another publisher or with another token.
pub apply_all_leased :
    (table : Table) (calls : List OutboxCall) (k : ℕ) (r : OutboxRow) (owner : String)
    (until : Time)
    → HasPrimaryKey table
    → get_elem? table k ≡ some r
    → r.lease_owner ≡ some owner
    → r.lease_until ≡ some until
    → All (IsForeign owner r.lease_token until) calls
    → get_elem? (apply_all table calls) k ≡ some r
apply_all_leased table calls k r owner until keyed found owned lasts foreign =
    apply_all_kept table calls k r keyed found (all_wrong calls foreign)
  where
    all_wrong :
        (calls : List OutboxCall)
        → All (IsForeign owner r.lease_token until) calls
        → All (λ call. may_change call r ≡ false) calls
    all_wrong [] h = tt
    all_wrong (call ∷ calls) h = (
      IsForeign-may_change owner r.lease_token until call r owned refl lasts h.0,
      all_wrong calls h.1,
    )
