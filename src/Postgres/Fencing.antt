-- ===== src/Postgres/Fencing.antt =====
-- internal/store/postgres/repository.go: a lease that was taken over.
use reliable_agent_runtime.Prelude.{
  All, All-at, All-select, Bool, Bool-cases, List, Option-cases, Result, Result-cases, String, [],
  ap, arith, err, get_elem?, inl, inr, leb_ℤ, length, none, not, ok, pos, refl, select, some, subst,
  true, ℕ, ◌&&◌, ◌+◌, ◌==◌, ◌||◌, ◌∙◌, ◌∷◌, ◌≡◌, ◌≢◌,
}
use reliable_agent_runtime.Domain.{
  Duration, EventType, FinalResult, RawMessage, RunEvent, Time, add_time,
}
use reliable_agent_runtime.Postgres.Leases.{
  foremost, is_before, is_leasable, pg_lease_next, pg_renew_lease, pg_save_checkpoint, taken_row,
}
use reliable_agent_runtime.Postgres.Methods.{append_row, finish_row, pg_append_event, pg_finish_run}
use reliable_agent_runtime.Postgres.Tables.{
  Database, RunRow, change_where, first_where, is_leased_to, scan_run,
}
use reliable_agent_runtime.Store.{
  Checkpoint, Encoders, Lease, StoreError, lease_lost, validate_terminal_event,
}

-- `id` is the primary key of `runs`.
abbrev pub IsUnique : List RunRow → Type 0
IsUnique rows =
    (j k : ℕ) (r s : RunRow)
    → get_elem? rows j ≡ some r
    → get_elem? rows k ≡ some s
    → (s.id == r.id) ≡ true
    → s ≡ r

some_inj : (r s : RunRow) → some r ≡ some s → r ≡ s
some_inj r s e = cc e

foremost-All :
    (Q : RunRow → Type 0) (rows : List RunRow) (r : RunRow)
    → All Q rows
    → foremost rows ≡ some r
    → Q r
foremost-All Q [] r h e = absurd (ground (arith, e))
foremost-All Q (s ∷ rows) r h e = elim (Option-cases (foremost rows)) [
  | inl nothing ↦ subst Q (some_inj s r (rw nothing at e)) h.0
  | inr (best, found) ↦ elim (Bool-cases (is_before best s)) [
    | inl better ↦
        subst Q (some_inj best r (rw better at (rw found at e)))
          (foremost-All Q rows best h.1 found)
    | inr worse ↦ subst Q (some_inj s r (rw worse at (rw found at e))) h.0
  ]
]

-- The rows of a run that was leased have its new token.
fenced_rows :
    (rows : List RunRow) (r : RunRow) (worker worker' : String) (until now now' : Time) (fence : ℕ)
    → All (λ s. (s.id == r.id) ≡ true → s ≡ r) rows
    → fence ≢ r.fence_token + 1
    → first_where
        (is_leased_to r.id worker' fence now')
        (change_where (λ s. s.id == r.id) (taken_row worker until now) rows)
      ≡ none
unfolding is_leased_to taken_row
fenced_rows [] r worker worker' until now now' fence h old = refl
fenced_rows (s ∷ rows) r worker worker' until now now' fence h old =
    let rest = fenced_rows rows r worker worker' until now now' fence h.1 old in
    elim (Bool-cases (s.id == r.id)) [
      | inr apart ↦ rw apart (rw (apart, is_leased_to) rest)
      | inl same ↦ rw same (ground (arith, rest, ap (λ x. x.fence_token) (h.0 same), old))
    ]

alone :
    (rows : List RunRow) (p : RunRow → Bool) (r : RunRow)
    → IsUnique rows
    → foremost (select p rows) ≡ some r
    → All (λ s. (s.id == r.id) ≡ true → s ≡ r) rows
alone rows p r unique chosen =
    let Only = λ (c : RunRow). All (λ s. (s.id == c.id) ≡ true → s ≡ c) rows in
    let everywhere = All-at Only rows (λ j c at_j.
      All-at (λ s. (s.id == c.id) ≡ true → s ≡ c) rows (λ k s at_k. unique j k c s at_j at_k)) in
    (foremost-All (λ c. Only c × (p c ≡ true)) (select p rows) r (All-select Only p rows everywhere)
      chosen).0

abbrev leased_id : Result StoreError Lease → String
leased_id (err e) = ""
leased_id (ok lease) = lease.run.id

abbrev leased_token : Result StoreError Lease → ℕ
leased_token (err e) = 0
leased_token (ok lease) = lease.fence_token

-- What a worker with a fence token gets from the methods that check it.
pub record IsRefused (enc : Encoders) (marshal_event : RunEvent → Result StoreError RawMessage)
    (db : Database) (id worker : String) (fence : ℕ) (now : Time) : Type 0 where
  pub appends_nothing :
      (type : EventType) (payload : RawMessage)
      → pg_append_event enc marshal_event db id worker fence type payload now ≡ (db, err lease_lost)
  pub ends_nothing :
      (result : FinalResult) (type : EventType)
      → ((pg_finish_run enc marshal_event db id worker fence result type now).0 ≡ db)
        × ((event : RunEvent)
            → (pg_finish_run enc marshal_event db id worker fence result type now).1 ≢ ok event)
  pub saves_nothing :
      (c : Checkpoint)
      → c.run_id ≡ id
      → c.fence_token ≡ fence
      → c.created_at ≡ now
      → pg_save_checkpoint db worker c ≡ (db, err lease_lost)
  pub renews_nothing :
      (ttl : Duration)
      → ((pg_renew_lease db id worker fence now ttl).0 ≡ db)
        × ((until : Time) → (pg_renew_lease db id worker fence now ttl).1 ≢ ok until)

-- An UPDATE without a row to change.
unchanged :
    (p : RunRow → Bool) (f : RunRow → RunRow) (rows : List RunRow)
    → first_where p rows ≡ none
    → (change_where p f rows ≡ rows) × (length (select p rows) ≡ 0)
unchanged p f [] h = (refl, refl)
unchanged p f (r ∷ rows) h = elim (Bool-cases (p r)) [
  | inl hit ↦ absurd (ground (arith, rw hit at h))
  | inr free ↦
      let (same, nobody) = unchanged p f rows (rw free at h) in
      rw free (ap (λ rest. r ∷ rest) same, nobody)
]

module _ (enc : Encoders) (marshal_event : RunEvent → Result StoreError RawMessage) where
  nobody-IsRefused :
      (db : Database) (id worker : String) (fence : ℕ) (now : Time)
      → first_where (is_leased_to id worker fence now) db.runs ≡ none
      → IsRefused enc marshal_event db id worker fence now
  unfolding pg_append_event append_row pg_finish_run finish_row pg_save_checkpoint pg_renew_lease
  nobody-IsRefused db id worker fence now nobody = record {
    appends_nothing = λ type payload. elim (Bool-cases (worker == "")) [
      | inl unnamed ↦ rw unnamed refl
      | inr named ↦ rw named (rw (nobody, append_row) refl)
    ];
    ends_nothing = λ result type. elim (Result-cases (validate_terminal_event result type)) [
      | inr (e, invalid) ↦ rw invalid (refl, λ event h. ground (arith, h))
      | inl (checked, valid) ↦ rw valid (elim (Result-cases (enc.marshal_result result)) [
        | inr (e, bad) ↦ rw bad (refl, λ event h. ground (arith, h))
        | inl (payload, encoded) ↦
            rw encoded (rw (nobody, finish_row) (refl, λ event h. ground (arith, h)))
      ])
    ];
    saves_nothing = λ c same_run same_fence same_time. elim (Bool-cases (worker == "")) [
      | inl unnamed ↦ rw (unnamed, pg_save_checkpoint) refl
      | inr named ↦
          let nobody' : first_where (is_leased_to c.run_id worker c.fence_token c.created_at)
                db.runs
              ≡ none =
            rw (same_run, same_fence, same_time) nobody in
          rw (named, pg_save_checkpoint) (rw nobody' refl)
    ];
    renews_nothing = λ ttl. elim (Bool-cases (worker == "" || leb_ℤ ttl (pos 0))) [
      | inl invalid ↦ rw (invalid, pg_renew_lease) (refl, λ until h. ground (arith, h))
      | inr valid ↦
          let (same, none_held) =
            unchanged (is_leased_to id worker fence now)
              (λ r. record r { lease_until = some (add_time now ttl); updated_at = now }) db.runs
              nobody in
          rw (valid, pg_renew_lease)
            (
              ap (λ rows. record db { runs = rows }) same,
              λ until h. ground (arith, rw none_held at h),
            )
    ];
  }

  -- Once LeaseNext has granted a lease on PostgreSQL, every other fence token of the run is refused,
  -- whatever the worker and the time: appending an event or saving a checkpoint fails with the error
  -- of a lost lease, renewing the lease and finishing the run fail too, and nothing changes.
  pub pg_lease_next-IsRefused :
      (db db' : Database) (locked : RunRow → Bool) (worker worker' : String) (now now' : Time)
      (ttl : Duration) (lease : Lease) (fence : ℕ)
      → IsUnique db.runs
      → pg_lease_next locked db worker now ttl ≡ (db', ok lease)
      → fence ≢ lease.fence_token
      → IsRefused enc marshal_event db' lease.run.id worker' fence now'
  unfolding pg_lease_next taken_row scan_run
  pg_lease_next-IsRefused db db' locked worker worker' now now' ttl lease fence unique e
        other_fence =
      elim (Bool-cases (worker == "" || leb_ℤ ttl (pos 0))) [
        | inl invalid ↦ absurd (ground (arith, rw (invalid, pg_lease_next) at e))
        | inr valid ↦
            let p = λ (r : RunRow). is_leasable now r && not (locked r) in
            elim (Option-cases (foremost (select p db.runs))) [
              | inl nothing ↦
                  absurd (ground (arith, rw nothing at (rw (valid, pg_lease_next) at e)))
              | inr (r, found) ↦
                  let e' = rw found at (rw (valid, pg_lease_next) at e) in
                  let same_runs = ap (λ a. a.0.runs) e' in
                  let same_id = ap (λ a. leased_id a.1) e' in
                  let same_token = ap (λ a. leased_token a.1) e' in
                  nobody-IsRefused db' lease.run.id worker' fence now' (
                    subst (λ id. first_where (is_leased_to id worker' fence now') db'.runs ≡ none)
                      same_id
                      (subst
                        (λ rows. first_where (is_leased_to r.id worker' fence now') rows ≡ none)
                        same_runs
                        (fenced_rows db.runs r worker worker' (add_time now ttl) now now' fence
                          (alone db.runs p r unique found)
                          (λ old. other_fence (old ∙ same_token)))))
            ]
      ]
