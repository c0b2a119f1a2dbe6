-- ===== src/Store/Creation.antt =====
-- internal/store/memory.go: the outcomes of CreateRun.
use reliable_agent_runtime.Prelude.{
  Option-cases, Result-cases, String, arith, eq_refl, inl, inr, lookup, lookup-insert, ok, refl,
  true, ◌≡◌, ◌≢◌, ◌⊎◌,
}
use reliable_agent_runtime.Domain.{RawMessage, RunRequest, Time}
use reliable_agent_runtime.Store.{Encoders, RunRecord, request_hash}
use reliable_agent_runtime.Store.Memory.{
  MemoryRepository, added, create_existing, create_locked, create_new, create_run, get_run,
  idempotency_map_key, queued_record,
}

module _ (enc : Encoders) where
  create_locked-cases :
      (repo : MemoryRepository) (request : RunRequest) (hash : String) (payload : RawMessage)
      (now : Time)
      → (create_locked repo request hash payload now
          ≡ (added repo request hash payload now, ok (queued_record request hash now, true)))
        ⊎ ((create_locked repo request hash payload now).0 ≡ repo)
          × ((r : RunRecord) → (create_locked repo request hash payload now).1 ≢ ok (r, true))
  unfolding create_locked create_new create_existing
  create_locked-cases repo request hash payload now =
      elim (Option-cases (lookup (idempotency_map_key request) repo.by_idempotency)) [
        | inr (id, known) ↦ rw (known, create_locked) (inr (refl, λ r e. ground arith))
        | inl fresh ↦ elim (Option-cases (lookup request.run_id repo.runs)) [
          | inr (x, taken) ↦
              rw (fresh, create_locked) (rw (taken, create_new) (inr (refl, λ r e. ground arith)))
          | inl free ↦ rw (fresh, create_locked) (rw (free, create_new) (inl refl))
        ]
      ]

  -- Either the run is created or the repository is as before and no run is reported as new.
  pub create_run-cases :
      (repo : MemoryRepository) (request : RunRequest) (now : Time)
      → ((hash : String) × (payload : RawMessage) × (request_hash enc request ≡ ok hash)
          × (enc.marshal_created request.mode request.manifest ≡ ok payload)
          × (create_run enc repo request now
              ≡ (added repo request hash payload now, ok (queued_record request hash now, true))))
        ⊎ ((create_run enc repo request now).0 ≡ repo)
          × ((r : RunRecord) → (create_run enc repo request now).1 ≢ ok (r, true))
  unfolding create_run
  create_run-cases repo request now = elim (Result-cases (request_hash enc request)) [
    | inr (x, broken) ↦ rw (broken, create_run) (inr (refl, λ r e. ground arith))
    | inl (hash, hashed) ↦ elim (Result-cases (enc.marshal_created request.mode request.manifest)) [
      | inr (x, broken) ↦ rw (hashed, create_run) (rw broken (inr (refl, λ r e. ground arith)))
      | inl (payload, encoded) ↦
          rw (hashed, create_run)
            (rw encoded (elim (create_locked-cases repo request hash payload now) [
              | inl e ↦ inl (hash, payload, refl, refl, e)
              | inr kept ↦ inr kept
            ]))
    ]
  ]

  pub added-get_run :
      (repo : MemoryRepository) (request : RunRequest) (hash : String) (payload : RawMessage)
      (now : Time)
      → get_run (added repo request hash payload now) request.run_id
        ≡ ok (queued_record request hash now)
  unfolding get_run added
  added-get_run repo request hash payload now =
      rw
        (
          get_run,
          lookup-insert request.run_id request.run_id (queued_record request hash now) repo.runs,
        )
        (rw (eq_refl request.run_id) refl)
