-- ===== src/Worker/Completion.antt =====
-- When the worker may report that a run is done.
use reliable_agent_runtime.Prelude.{
  Bool-cases, List, Option, Option-cases, Result, Result-cases, [], arith, err, if◌then◌else◌, inl,
  inr, none, ok, refl, some, true, ◌∷◌, ◌≡◌, ◌⊎◌,
}
use reliable_agent_runtime.Domain.{
  EventType, FinalResult, RunEvent, RunRequest, Time, run_created, same_event,
}
use reliable_agent_runtime.Engine.State.{ExecutionState, Output}
use reliable_agent_runtime.Store.{Lease, validate_terminal_event}
use reliable_agent_runtime.Store.Interface.{Contract, IsOver, Repository}
use reliable_agent_runtime.Worker.Attempt.{
  AttemptEnd, Codec, Receipt, attempt, attempt_done, execute_lease, finish, finish_valid,
  heartbeat_error, load_checkpoint, meanwhile, output, outputs_closed, persist, request_from,
  returned,
}
use reliable_agent_runtime.Worker.Config.{WorkerConfig, WorkerError}
use reliable_agent_runtime.Worker.Events.{terminal_event}

module _ (repository : Repository) (contract : Contract repository) (codec : Codec)
    (config : WorkerConfig) where
  -- The event is one of the outputs received.
  abbrev pub IsReceived : RunEvent → List (Receipt repository codec config) → Type 0
  IsReceived event [] = ⊥
  IsReceived event (output out _ _ _ ∷ receipts) = (event ≡ out.event) ⊎ IsReceived event receipts
  IsReceived event (_ ∷ receipts) = IsReceived event receipts

  -- The run has ended with the result that a terminal event of those received carries.
  abbrev pub IsDone : List (Receipt repository codec config) → repository.State → Lease → Type 0
  IsDone receipts st lease =
      (event : RunEvent) × (result : FinalResult) × IsReceived event receipts
      × (terminal_event event.type ≡ true)
      × (codec.decode_result event.payload ≡ some result)
      × IsOver repository st lease.run.id result

  finish_valid-IsOver :
      (st : repository.State) (lease : Lease) (type : EventType) (result : FinalResult) (now : Time)
      → (finish_valid repository codec config st lease type result now).1 ≡ ok tt
      → IsOver repository
          (finish_valid repository codec config st lease type result now).0
          lease.run.id
          result
  unfolding finish_valid
  finish_valid-IsOver st lease type result now e =
      elim (Result-cases
        (repository.finish_run st lease.run.id config.worker_id lease.fence_token result type
          now).1) [
            | inl (event, took) ↦
                contract.finishing st lease.run.id config.worker_id lease.fence_token result type
                  now event took
            | inr (e', refused) ↦ absurd (ground (arith, rw refused at e))
          ]

  finish-IsDone :
      (receipts : List (Receipt repository codec config)) (st : repository.State) (lease : Lease)
      (event : RunEvent) (now : Time)
      → IsReceived event receipts
      → terminal_event event.type ≡ true
      → (finish repository codec config st lease event now).1 ≡ ok tt
      → IsDone receipts (finish repository codec config st lease event now).0 lease
  unfolding finish
  finish-IsDone receipts st lease event now got closing e =
      elim (Option-cases (codec.decode_result event.payload)) [
        | inl garbled ↦ absurd (ground (arith, rw (garbled, finish) at e))
        | inr (result, decoded) ↦ elim (Result-cases (validate_terminal_event result event.type)) [
          | inr (e', wrong) ↦ absurd (ground (arith, rw wrong at (rw (decoded, finish) at e)))
          | inl (_, valid) ↦
              rw (decoded, finish)
                (rw valid (
                  event,
                  result,
                  got,
                  closing,
                  decoded,
                  finish_valid-IsOver st lease event.type result now
                      (rw valid at (rw (decoded, finish) at e)),
                ))
        ]
      ]

  -- What the loop may end with.
  abbrev pub EndsDone :
      List (Receipt repository codec config)
      → Lease
      → repository.State × AttemptEnd repository codec config
      → Type 0
  EndsDone receipts lease r = r.1 ≡ returned (ok tt) → IsDone receipts r.0 lease

  output-EndsDone :
      (receipts : List (Receipt repository codec config)) (lease : Lease) (type : EventType)
      (skipped rest : repository.State × AttemptEnd repository codec config)
      (closed : repository.State × Result WorkerError (Unit {0}))
      (kept : repository.State × Result WorkerError (Unit {0}))
      → EndsDone receipts lease skipped
      → EndsDone receipts lease rest
      → (terminal_event type ≡ true → closed.1 ≡ ok tt → IsDone receipts closed.0 lease)
      → EndsDone receipts lease (
          if same_event type run_created
          then skipped
          else if terminal_event type
          then (closed.0, returned closed.1)
          else elim kept.1 [ ok _ ↦ rest | err e ↦ (kept.0, returned (err e)) ])
  output-EndsDone receipts lease type skipped rest closed kept hs hr hc =
      elim (Bool-cases (same_event type run_created)) [
        | inl first ↦ rw first hs
        | inr later ↦ rw later (elim (Bool-cases (terminal_event type)) [
          | inl closing ↦ rw closing (λ e. hc closing (ground (arith, e)))
          | inr goes_on ↦ rw goes_on (elim (Result-cases kept.1) [
            | inl (_, took) ↦ rw took hr
            | inr (e', refused) ↦ rw refused (λ e. absurd (ground (arith, e)))
          ])
        ])
      ]

  add_output :
      (lease : Lease) (st : repository.State) (out : Output) (now : Time)
      (others : repository.State → repository.State) (later : Time)
      (receipts : List (Receipt repository codec config))
      → IsDone receipts st lease
      → IsDone (output out now others later ∷ receipts) st lease
  add_output lease st out now others later receipts (event, result, got, closing, decoded, over) =
      (event, result, inr got, closing, decoded, over)

  attempt-EndsDone :
      (lease : Lease) (receipts : List (Receipt repository codec config)) (st : repository.State)
      → EndsDone receipts lease (attempt repository codec config lease receipts st)
  unfolding attempt
  attempt-EndsDone lease [] st = λ e. absurd (ground (arith, e))
  attempt-EndsDone lease (heartbeat_error none ∷ receipts) st = λ e. absurd (ground (arith, e))
  attempt-EndsDone lease (heartbeat_error (some x) ∷ receipts) st = λ e. absurd (ground (arith, e))
  attempt-EndsDone lease (attempt_done x ∷ receipts) st = λ e. absurd (ground (arith, e))
  attempt-EndsDone lease (outputs_closed ∷ receipts) st = λ e. absurd (ground (arith, e))
  attempt-EndsDone lease (meanwhile others ∷ receipts) st =
      attempt-EndsDone lease receipts (others st)
  attempt-EndsDone lease (output out now others later ∷ receipts) st =
      let receipts' = output out now others later ∷ receipts in
      let persisted = persist repository codec config st lease out now others later in
      output-EndsDone receipts' lease out.event.type
        (attempt repository codec config lease receipts st)
        (attempt repository codec config lease receipts persisted.0)
        (finish repository codec config st lease out.event now) persisted
        (λ e.
          add_output lease _ out now others later receipts (attempt-EndsDone lease receipts st e))
        (λ e.
          add_output lease _ out now others later receipts
            (attempt-EndsDone lease receipts persisted.0 e))
        (finish-IsDone receipts' st lease out.event now (inl refl))

  -- An attempt that returns no error has received an event that ends the run, and it leaves the run
  -- in the terminal status of the result in that event, with that result: whatever was received
  -- before, and whatever others did to the repository meanwhile.
  pub execute_lease-IsDone :
      (engine : RunRequest → Option ExecutionState → List (Receipt repository codec config))
      (st : repository.State) (lease : Lease)
      → (execute_lease repository codec config engine st lease).1 ≡ returned (ok tt)
      → (checkpoint : Option ExecutionState) × (load_checkpoint repository codec config st
            lease.run.id
          ≡ ok checkpoint)
        × IsDone
            (engine (request_from lease.run) checkpoint)
            (execute_lease repository codec config engine st lease).0
            lease
  unfolding execute_lease
  execute_lease-IsDone engine st lease e =
      elim (Result-cases (load_checkpoint repository codec config st lease.run.id)) [
        | inr (e', broken) ↦ absurd (ground (arith, rw (broken, execute_lease) at e))
        | inl (checkpoint, loaded) ↦ (
          checkpoint,
          loaded,
          rw (loaded, execute_lease)
              (attempt-EndsDone lease (engine (request_from lease.run) checkpoint) st
                (rw (loaded, execute_lease) at e)),
        )
      ]
