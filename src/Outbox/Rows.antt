-- ===== src/Outbox/Rows.antt =====
-- internal/outbox/postgres/repository.go: which rows a statement changes.
use reliable_agent_runtime.Prelude.{
  All, All-at, All-select, Bool, Bool-cases, Option, Option-cases, String, [], ap, arith, eqb_ℤ,
  eqb_ℤ-eq, false, get_elem?, if◌then◌else◌, inl, inr, leb_ℤ, not, pos, refl, some, suc, true, zero,
  ℕ, ℤ, ◌&&◌, ◌==◌, ◌||◌, ◌∷◌, ◌≡◌, ◌⊎◌,
}
use reliable_agent_runtime.Adapter.Fake.{failing}
use reliable_agent_runtime.Domain.{Duration, Time, add_time}
use reliable_agent_runtime.Outbox.{OutboxError}
use reliable_agent_runtime.Outbox.Table.{
  OutboxRow, Table, comes_first, due_rows, insert_row, is_chosen, is_due, lease_batch, leased_row,
  limit_of, ordered, rows_affected, take, update_where,
}

-- `id` is the primary key.
abbrev pub HasPrimaryKey : Table → Type 0
HasPrimaryKey table =
    (j k : ℕ) (r s : OutboxRow)
    → get_elem? table j ≡ some r
    → get_elem? table k ≡ some s
    → r.id ≡ s.id
    → j ≡ k

pub update_where-at :
    (p : OutboxRow → Bool) (f : OutboxRow → OutboxRow) (table : Table) (k : ℕ) (r : OutboxRow)
    → get_elem? table k ≡ some r
    → get_elem? (update_where p f table) k ≡ some (if p r then f r else r)
unfolding update_where
update_where-at p f [] k r h = absurd (ground (arith, h))
update_where-at p f (s ∷ rows) zero r h = ground (arith, h)
update_where-at p f (s ∷ rows) (suc k) r h = ground (arith, update_where-at p f rows k r h)

pub update_where-from :
    (p : OutboxRow → Bool) (f : OutboxRow → OutboxRow) (table : Table) (k : ℕ) (s : OutboxRow)
    → get_elem? (update_where p f table) k ≡ some s
    → (r : OutboxRow) × (get_elem? table k ≡ some r) × (s ≡ (if p r then f r else r))
unfolding update_where
update_where-from p f [] k s h = absurd (ground (arith, h))
update_where-from p f (r ∷ rows) zero s h = (r, refl, ground (arith, h))
update_where-from p f (r ∷ rows) (suc k) s h = update_where-from p f rows k s (ground (arith, h))

pub update_where-none :
    (p : OutboxRow → Bool) (f : OutboxRow → OutboxRow) (table : Table)
    → ((k : ℕ) (r : OutboxRow) → get_elem? table k ≡ some r → p r ≡ false)
    → (update_where p f table ≡ table) × (rows_affected p table ≡ 0)
unfolding update_where
update_where-none p f [] h = (refl, refl)
update_where-none p f (r ∷ rows) h =
    let (same, zero_rows) = update_where-none p f rows (λ k s e. h (suc k) s e) in
    rw (h 0 r refl) (ap (λ t. r ∷ t) same, zero_rows)

All-insert_row {κ} :
    (Q : OutboxRow → Type κ) (r : OutboxRow) (rows : Table)
    → Q r
    → All Q rows
    → All Q (insert_row r rows)
All-insert_row Q r [] q h = (q, tt)
All-insert_row Q r (s ∷ rows) q h = elim (Bool-cases (comes_first r s)) [
  | inl e ↦ rw e (q, h)
  | inr e ↦ rw e (h.0, All-insert_row Q r rows q h.1)
]

All-ordered {κ} : (Q : OutboxRow → Type κ) (rows : Table) → All Q rows → All Q (ordered rows)
All-ordered Q [] h = tt
All-ordered Q (r ∷ rows) h = All-insert_row Q r (ordered rows) h.0 (All-ordered Q rows h.1)

All-take {κ} : (Q : OutboxRow → Type κ) (n : ℕ) (rows : Table) → All Q rows → All Q (take n rows)
All-take Q zero rows h = tt
All-take Q (suc n) [] h = tt
All-take Q (suc n) (r ∷ rows) h = (h.0, All-take Q n rows h.1)

All-is_chosen {κ} :
    (Q : OutboxRow → Type κ) (rows : Table) (r : OutboxRow)
    → All Q rows
    → is_chosen rows r ≡ true
    → (c : OutboxRow) × Q c × (c.id ≡ r.id)
All-is_chosen Q [] r h e = absurd (ground (arith, e))
All-is_chosen Q (c ∷ rows) r h e = elim (Bool-cases (eqb_ℤ c.id r.id)) [
  | inl same ↦ (c, h.0, eqb_ℤ-eq c.id r.id same)
  | inr apart ↦ All-is_chosen Q rows r h.1 (rw apart at e)
]

-- What is leased was due.
pub chosen-is_due :
    (locked : OutboxRow → Bool) (now : Time) (limit : ℕ) (table : Table) (k : ℕ) (r : OutboxRow)
    → HasPrimaryKey table
    → get_elem? table k ≡ some r
    → is_chosen (due_rows locked now limit table) r ≡ true
    → is_due now r ≡ true
unfolding due_rows
chosen-is_due locked now limit table k r keyed found among =
    let At = λ (c : OutboxRow). (j : ℕ) × (get_elem? table j ≡ some c) in
    let Due = λ (c : OutboxRow). At c × ((is_due now c && not (locked c)) ≡ true) in
    let (c, ((j, there), due), same) =
      All-is_chosen Due (due_rows locked now limit table) r
        (All-take Due limit _ (
          All-ordered Due _ (
            All-select At (λ c. is_due now c && not (locked c)) table
              (All-at At table (λ j c e. (j, e))))))
        among in
    let here : j ≡ k = keyed j k c r there found same in ground (arith, due, there, found, here)

-- LeaseBatch leaves the table or leases the chosen rows.
pub lease_batch-cases :
    (fault : Option OutboxError) (locked : OutboxRow → Bool) (table : Table) (publisher : String)
    (now : Time) (ttl : Duration) (limit : ℤ)
    → ((lease_batch fault locked table publisher now ttl limit).0 ≡ table)
      ⊎ ((lease_batch fault locked table publisher now ttl limit).0
          ≡ update_where
              (is_chosen (due_rows locked now (limit_of limit) table))
              (leased_row publisher (add_time now ttl))
              table)
unfolding lease_batch
lease_batch-cases fault locked table publisher now ttl limit =
    elim (Bool-cases (publisher == "" || leb_ℤ ttl (pos 0) || leb_ℤ limit (pos 0))) [
      | inl invalid ↦ inl (rw (invalid, lease_batch) refl)
      | inr valid ↦ elim (Option-cases fault) [
        | inr (e, failing) ↦ inl (rw (valid, lease_batch) (rw failing refl))
        | inl fine ↦ inr (rw (valid, lease_batch) (rw fine refl))
      ]
    ]
