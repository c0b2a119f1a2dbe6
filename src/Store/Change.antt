-- ===== src/Store/Change.antt =====
-- What a call may do to the in-memory repository: nothing, or one of six changes. The rest of the
-- proofs about memory.go go through this relation and not through the methods.
use reliable_agent_runtime.Prelude.{
  All, All-select, All-sort_slice, All-values, Bool-cases, Distinct, List, Option-cases,
  Result-cases, String, [], ap, arith, eq_iff, err, inl, inr, insert, leb_ℤ, lookup, ltb, none, ok,
  pos, refl, some, sort_slice, subst, sym, true, values, ℕ, ◌==◌, ◌||◌, ◌∷◌, ◌≡◌, ◌≢◌, ◌≤◌, ◌⊎◌,
}
use reliable_agent_runtime.Domain.{
  Duration, EventType, FinalResult, RawMessage, RunRequest, Time, same_event, same_event-eq,
}
use reliable_agent_runtime.Store.{
  Checkpoint, Encoders, RunRecord, StoreError, lease_lost, not_found, request_hash,
  terminal_event_for_status, validate_terminal_event,
}
use reliable_agent_runtime.Store.History.{
  Call, appends, creates, finishes, leases, renews, saves, step,
}
use reliable_agent_runtime.Store.Memory.{
  MemoryRepository, added, append_event, appended, candidates, create_locked, create_new,
  create_run, extended, finish_locked, finish_run, finished, grant, holds_lease,
  idempotency_map_key, is_candidate, is_stale, lease_next, leased, next_event, older, renew_lease,
  save_checkpoint, valid_lease, written,
}

pub data Change (repo repo' : MemoryRepository) : Type 0 where
  unchanged : repo' ≡ repo → Change repo repo'
  created :
      (request : RunRequest) (hash : String) (payload : RawMessage) (now : Time)
      → lookup (idempotency_map_key request) repo.by_idempotency ≡ none
      → lookup request.run_id repo.runs ≡ none
      → repo' ≡ added repo request hash payload now
      → Change repo repo'
  granted :
      (r : RunRecord) (worker : String) (now : Time) (ttl : Duration)
      → lookup r.id repo.runs ≡ some r
      → is_candidate now r ≡ true
      → worker ≢ ""
      → repo' ≡ record repo { runs = insert r.id (leased r worker now ttl) repo.runs }
      → Change repo repo'
  renewed :
      (id worker : String) (fence : ℕ) (r : RunRecord) (now : Time) (ttl : Duration)
      → lookup id repo.runs ≡ some r
      → holds_lease r worker fence now ≡ true
      → repo' ≡ record repo { runs = insert id (extended r now ttl) repo.runs }
      → Change repo repo'
  wrote :
      (id worker : String) (fence : ℕ) (r : RunRecord) (type : EventType) (payload : RawMessage)
      (now : Time)
      → lookup id repo.runs ≡ some r
      → holds_lease r worker fence now ≡ true
      → repo' ≡ written repo id (appended r type payload now) (next_event r type payload now)
      → Change repo repo'
  saved :
      (worker : String) (r : RunRecord) (c : Checkpoint)
      → lookup c.run_id repo.runs ≡ some r
      → holds_lease r worker c.fence_token c.created_at ≡ true
      → c.event_sequence ≤ r.last_event_seq
      → repo' ≡ record repo { checkpoints = insert c.run_id c repo.checkpoints }
      → Change repo repo'
  ended :
      (id worker : String) (fence : ℕ) (r : RunRecord) (result : FinalResult) (type : EventType)
      (payload : RawMessage) (now : Time)
      → lookup id repo.runs ≡ some r
      → holds_lease r worker fence now ≡ true
      → terminal_event_for_status result.status ≡ some type
      → repo'
        ≡ written repo id
            (finished r result (next_event r type payload now) now)
            (next_event r type payload now)
      → Change repo repo'

-- The two ways in which the lease check ends.
pub valid_lease-cases :
    (repo : MemoryRepository) (id worker : String) (fence : ℕ) (now : Time)
    → ((r : RunRecord) × (lookup id repo.runs ≡ some r)
        × (holds_lease r worker fence now ≡ true)
        × (valid_lease repo id worker fence now ≡ ok r))
      ⊎ ((e : StoreError) × (valid_lease repo id worker fence now ≡ err e))
unfolding valid_lease
valid_lease-cases repo id worker fence now = elim (Option-cases (lookup id repo.runs)) [
  | inl missing ↦ inr (not_found, rw (missing, valid_lease))
  | inr (r, found) ↦ elim (Bool-cases (holds_lease r worker fence now)) [
    | inl holds ↦ inl (r, found, holds, rw (found, valid_lease) (rw holds))
    | inr lost ↦ inr (lease_lost, rw (found, valid_lease) (rw lost))
  ]
]

module _ (enc : Encoders) (repo : MemoryRepository) where
  create_locked-Change :
      (request : RunRequest) (hash : String) (payload : RawMessage) (now : Time)
      → Change repo (create_locked repo request hash payload now).0
  unfolding create_locked create_new
  create_locked-Change request hash payload now =
      elim (Option-cases (lookup (idempotency_map_key request) repo.by_idempotency)) [
        | inr (id, known) ↦ rw (known, create_locked) (unchanged refl)
        | inl fresh ↦ elim (Option-cases (lookup request.run_id repo.runs)) [
          | inr (r, taken) ↦ rw (fresh, create_locked) (rw (taken, create_new) (unchanged refl))
          | inl free ↦
              rw (fresh, create_locked)
                (rw (free, create_new) (created request hash payload now fresh free refl))
        ]
      ]

  create_run-Change :
      (request : RunRequest) (now : Time) → Change repo (create_run enc repo request now).0
  unfolding create_run
  create_run-Change request now = elim (Result-cases (request_hash enc request)) [
    | inr (e, broken) ↦ rw (broken, create_run) (unchanged refl)
    | inl (hash, hashed) ↦ elim (Result-cases (enc.marshal_created request.mode request.manifest)) [
      | inr (e, broken) ↦ rw (hashed, create_run) (rw broken (unchanged refl))
      | inl (payload, encoded) ↦
          rw (hashed, create_run) (rw encoded (create_locked-Change request hash payload now))
    ]
  ]

  renew_lease-Change :
      (id worker : String) (fence : ℕ) (now : Time) (ttl : Duration)
      → Change repo (renew_lease repo id worker fence now ttl).0
  unfolding renew_lease
  renew_lease-Change id worker fence now ttl = elim (valid_lease-cases repo id worker fence now) [
    | inr (e, refused) ↦ rw (refused, renew_lease) (unchanged refl)
    | inl (r, found, holds, valid) ↦ elim (Bool-cases (leb_ℤ ttl (pos 0))) [
      | inl expired ↦ rw (valid, renew_lease) (rw expired (unchanged refl))
      | inr alive ↦
          rw (valid, renew_lease) (rw alive (renewed id worker fence r now ttl found holds refl))
    ]
  ]

  append_event-Change :
      (id worker : String) (fence : ℕ) (type : EventType) (payload : RawMessage) (now : Time)
      → Change repo (append_event repo id worker fence type payload now).0
  unfolding append_event
  append_event-Change id worker fence type payload now =
      elim (valid_lease-cases repo id worker fence now) [
        | inr (e, refused) ↦ rw (refused, append_event) (unchanged refl)
        | inl (r, found, holds, valid) ↦
            rw (valid, append_event) (wrote id worker fence r type payload now found holds refl)
      ]

  pub validate_terminal_event-ok :
      (result : FinalResult) (type : EventType)
      → validate_terminal_event result type ≡ ok tt
      → terminal_event_for_status result.status ≡ some type
  unfolding validate_terminal_event
  validate_terminal_event-ok result type h =
      elim (Option-cases (terminal_event_for_status result.status)) [
        | inl none_wanted ↦ absurd (ground (arith, rw (none_wanted, validate_terminal_event) at h))
        | inr (want, e) ↦ elim (Bool-cases (same_event type want)) [
          | inl same ↦ rw e (ap some (sym (same_event-eq type want same)))
          | inr differs ↦
              absurd (ground (arith, rw differs at (rw (e, validate_terminal_event) at h)))
        ]
      ]

  finish_locked-Change :
      (id worker : String) (fence : ℕ) (result : FinalResult) (type : EventType)
      (payload : RawMessage) (now : Time)
      → terminal_event_for_status result.status ≡ some type
      → Change repo (finish_locked repo id worker fence result type payload now).0
  unfolding finish_locked
  finish_locked-Change id worker fence result type payload now t =
      elim (valid_lease-cases repo id worker fence now) [
        | inr (e, refused) ↦ rw (refused, finish_locked) (unchanged refl)
        | inl (r, found, holds, valid) ↦
            rw (valid, finish_locked)
              (ended id worker fence r result type payload now found holds t refl)
      ]

  finish_run-Change :
      (id worker : String) (fence : ℕ) (result : FinalResult) (type : EventType) (now : Time)
      → Change repo (finish_run enc repo id worker fence result type now).0
  unfolding finish_run
  finish_run-Change id worker fence result type now =
      elim (Result-cases (validate_terminal_event result type)) [
        | inr (e, refused) ↦ rw (refused, finish_run) (unchanged refl)
        | inl (_, valid) ↦ elim (Result-cases (enc.marshal_result result)) [
          | inr (e, broken) ↦ rw (valid, finish_run) (rw broken (unchanged refl))
          | inl (payload, encoded) ↦
              rw (valid, finish_run)
                (rw encoded (
                  finish_locked-Change id worker fence result type payload now
                    (validate_terminal_event-ok result type valid)))
        ]
      ]

  save_checkpoint-Change :
      (worker : String) (c : Checkpoint) → Change repo (save_checkpoint repo worker c).0
  unfolding save_checkpoint
  save_checkpoint-Change worker c =
      elim (valid_lease-cases repo c.run_id worker c.fence_token c.created_at) [
        | inr (e, refused) ↦ rw (refused, save_checkpoint) (unchanged refl)
        | inl (r, found, holds, valid) ↦ elim (Bool-cases (ltb r.last_event_seq c.event_sequence)) [
          | inl ahead ↦ rw (valid, save_checkpoint) (rw ahead (unchanged refl))
          | inr within ↦ elim (Bool-cases (is_stale (lookup c.run_id repo.checkpoints) c)) [
            | inl stale ↦ rw (valid, save_checkpoint) (rw (within, stale) (unchanged refl))
            | inr newer ↦
                rw (valid, save_checkpoint)
                  (rw (within, newer) (saved worker r c found holds (ground (arith, within)) refl))
          ]
        ]
      ]

-- Every record in the map stands under its own identifier.
abbrev pub IsKeyed : MemoryRepository → Type 0
IsKeyed repo = (id : String) (r : RunRecord) → lookup id repo.runs ≡ some r → r.id ≡ id

-- What `LeaseNext` collects are records of the map that pass its test.
pub candidates-found :
    (repo : MemoryRepository) (now : Time)
    → Distinct repo.runs
    → IsKeyed repo
    → All
        (λ r. (lookup r.id repo.runs ≡ some r) × (is_candidate now r ≡ true))
        (candidates repo now)
unfolding candidates
candidates-found repo now d keyed =
    All-select (λ r. lookup r.id repo.runs ≡ some r) (is_candidate now) (values repo.runs)
      (All-values (λ r. lookup r.id repo.runs ≡ some r) repo.runs d
        (λ id r found. subst (λ k. lookup k repo.runs ≡ some r) (sym (keyed id r found)) found))

grant-Change :
    (repo : MemoryRepository) (rs : List RunRecord) (worker : String) (now : Time) (ttl : Duration)
    → worker ≢ ""
    → All (λ r. (lookup r.id repo.runs ≡ some r) × (is_candidate now r ≡ true)) rs
    → Change repo (grant repo rs worker now ttl).0
unfolding grant leased
grant-Change repo [] worker now ttl named h = unchanged refl
grant-Change repo (r ∷ rs) worker now ttl named h =
    rw (h.0.0, grant) (granted r worker now ttl h.0.0 h.0.1 named refl)

pub lease_next-Change :
    (repo : MemoryRepository) (worker : String) (now : Time) (ttl : Duration)
    → Distinct repo.runs
    → IsKeyed repo
    → Change repo (lease_next repo worker now ttl).0
unfolding lease_next
lease_next-Change repo worker now ttl d keyed =
    elim (Bool-cases (worker == "" || leb_ℤ ttl (pos 0))) [
      | inl refused ↦ rw refused (unchanged refl)
      | inr sound ↦ rw sound (
          grant-Change repo (sort_slice older (candidates repo now)) worker now ttl
            (ground (arith, eq_iff worker "", sound))
            (All-sort_slice older _ (candidates repo now) (candidates-found repo now d keyed)))
    ]

-- Every call makes one of the changes.
pub step-Change :
    (enc : Encoders) (repo : MemoryRepository) (call : Call)
    → Distinct repo.runs
    → IsKeyed repo
    → Change repo (step enc repo call)
unfolding step
step-Change enc repo (creates request now) d keyed = create_run-Change enc repo request now
step-Change enc repo (leases worker now ttl) d keyed = lease_next-Change repo worker now ttl d keyed
step-Change enc repo (renews id worker fence now ttl) d keyed =
    renew_lease-Change enc repo id worker fence now ttl
step-Change enc repo (appends id worker fence type payload now) d keyed =
    append_event-Change enc repo id worker fence type payload now
step-Change enc repo (saves worker c) d keyed = save_checkpoint-Change enc repo worker c
step-Change enc repo (finishes id worker fence result type now) d keyed =
    finish_run-Change enc repo id worker fence result type now
