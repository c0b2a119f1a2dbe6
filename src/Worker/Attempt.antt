-- ===== src/Worker/Attempt.antt =====
-- internal/worker/worker.go: `RunOnce`, `executeLease` and what they call.
use reliable_agent_runtime.Prelude.{
  Bool, List, Option, Result, String, [], err, false, if◌then◌else◌, none, ok, some, true, ℕ, ◌∷◌,
}
use reliable_agent_runtime.Domain.{
  EventType, FinalResult, RawMessage, RunEvent, RunRequest, Time, run_created, same_event,
}
use reliable_agent_runtime.Engine.Environment.{EngineError}
use reliable_agent_runtime.Engine.State.{ExecutionState, Output}
use reliable_agent_runtime.Store.{
  Lease, RunRecord, lease_lost, no_run_available, not_found, validate_terminal_event,
}
use reliable_agent_runtime.Store.Interface.{Repository}
use reliable_agent_runtime.Worker.Config.{
  WorkerConfig, WorkerError, attempt_context, invalid_terminal, invalid_terminal_event,
  missing_terminal, store_error, undecodable_checkpoint, unencodable_checkpoint,
}
use reliable_agent_runtime.Worker.Events.{terminal_event}

-- `json.Unmarshal` of a result, and the encoding of states (state.go).
pub record Codec : Type 0 where
  pub decode_result : RawMessage → Option FinalResult
  pub encode_state : ExecutionState → Option RawMessage
  pub decode_state : RawMessage → Option ExecutionState

unfoldable pub request_from : RunRecord → RunRequest
request_from r = record {
  run_id = r.id;
  tenant_id = r.tenant_id;
  idempotency_key = r.idempotency_key;
  input = r.input;
  mode = r.mode;
  deadline = r.deadline;
  manifest = r.manifest;
}

module _ (repository : Repository) (codec : Codec) (config : WorkerConfig) where
  -- What the `select` of `executeLease` receives, in order. An output comes with the readings of the
  -- clock for its event and its checkpoint, and with what others do to the repository between the
  -- two writes; `meanwhile` is what they, and the heartbeat, do between two receives.
  pub data Receipt : Type 0 where
    heartbeat_error : Option WorkerError → Receipt
    attempt_done : EngineError → Receipt
    output : Output → Time → (repository.State → repository.State) → Time → Receipt
    outputs_closed : Receipt
    meanwhile : (repository.State → repository.State) → Receipt

  unfoldable pub finish_valid :
      repository.State
      → Lease
      → EventType
      → FinalResult
      → Time
      → repository.State × Result WorkerError (Unit {0})
  finish_valid st lease type result now =
      let (st', answer) =
        repository.finish_run st lease.run.id config.worker_id lease.fence_token result type now in
      (st', elim answer [ ok _ ↦ ok tt | err e ↦ err (store_error e) ])

  unfoldable pub finish :
      repository.State → Lease → RunEvent → Time → repository.State × Result WorkerError (Unit {0})
  unfolding finish_valid
  finish st lease event now = elim (codec.decode_result event.payload) [
    | none ↦ (st, err invalid_terminal)
    | some result ↦ elim (validate_terminal_event result event.type) [
      | err e ↦ (st, err (invalid_terminal_event e))
      | ok _ ↦ finish_valid st lease event.type result now
    ]
  ]

  unfoldable pub save_state :
      repository.State
      → Lease
      → ExecutionState
      → ℕ
      → Time
      → repository.State × Result WorkerError (Unit {0})
  save_state st lease checkpoint persisted_sequence now = elim (codec.encode_state checkpoint) [
    | none ↦ (st, err unencodable_checkpoint)
    | some state ↦
        let (st', answer) = repository.save_checkpoint st config.worker_id (record {
          run_id = lease.run.id;
          fence_token = lease.fence_token;
          event_sequence = persisted_sequence;
          state = state;
          created_at = now;
        }) in
        (st', elim answer [ ok _ ↦ ok tt | err e ↦ err (store_error e) ])
  ]

  unfoldable pub load_checkpoint :
      repository.State → String → Result WorkerError (Option ExecutionState)
  load_checkpoint st run_id = elim (repository.get_checkpoint st run_id) [
    | err not_found ↦ ok none
    | err e ↦ err (store_error e)
    | ok checkpoint ↦ elim (codec.decode_state checkpoint.state) [
      | none ↦ err undecodable_checkpoint
      | some state ↦ ok (some state)
    ]
  ]

  -- An event that does not end the run is appended, and then its checkpoint saved.
  unfoldable pub persist :
      repository.State
      → Lease
      → Output
      → Time
      → (repository.State → repository.State)
      → Time
      → repository.State × Result WorkerError (Unit {0})
  unfolding save_state
  persist st lease out now others later =
      let (st', answer) =
        repository.append_event st lease.run.id config.worker_id lease.fence_token out.event.type
          out.event.payload now in
      elim answer [
        | err e ↦ (st', err (store_error e))
        | ok persisted ↦ elim out.checkpoint [
          | none ↦ (st', ok tt)
          | some checkpoint ↦ save_state (others st') lease checkpoint persisted.sequence later
        ]
      ]

  -- How the loop ends; `keeps_waiting` if nothing more is received.
  pub data AttemptEnd : Type 0 where
    returned : Result WorkerError (Unit {0}) → AttemptEnd
    keeps_waiting : AttemptEnd

  -- The loop of `executeLease`.
  unfoldable pub attempt : Lease → List Receipt → repository.State → repository.State × AttemptEnd
  attempt lease [] st = (st, keeps_waiting)
  attempt lease (heartbeat_error none ∷ receipts) st = (st, returned (err (store_error lease_lost)))
  attempt lease (heartbeat_error (some e) ∷ receipts) st = (st, returned (err e))
  attempt lease (attempt_done e ∷ receipts) st = (st, returned (err (attempt_context e)))
  attempt lease (outputs_closed ∷ receipts) st = (st, returned (err missing_terminal))
  attempt lease (meanwhile others ∷ receipts) st = attempt lease receipts (others st)
  attempt lease (output out now others later ∷ receipts) st =
      let skipped = attempt lease receipts st in
      let (closed, answer) = finish st lease out.event now in
      let (kept, refused) = persist st lease out now others later in
      let rest = attempt lease receipts kept in
      if same_event out.event.type run_created
      then skipped
      else if terminal_event out.event.type
      then (closed, returned answer)
      else elim refused [ ok _ ↦ rest | err e ↦ (kept, returned (err e)) ]

  -- `executeLease`: `engine` is what is received once `Execute` is called with a request and a
  -- checkpoint.
  unfoldable pub execute_lease :
      (RunRequest → Option ExecutionState → List Receipt)
      → repository.State
      → Lease
      → repository.State × AttemptEnd
  execute_lease engine st lease = elim (load_checkpoint st lease.run.id) [
    | err e ↦ (st, returned (err e))
    | ok checkpoint ↦ attempt lease (engine (request_from lease.run) checkpoint) st
  ]

  -- `RunOnce`: false if no run was available.
  unfoldable pub run_once :
      (RunRequest → Option ExecutionState → List Receipt)
      → Time
      → repository.State
      → repository.State × Bool × AttemptEnd
  run_once engine now st =
      let (st', answer) = repository.lease_next st config.worker_id now config.lease_ttl in
      elim answer [
        | err no_run_available ↦ (st', false, returned (ok tt))
        | err e ↦ (st', false, returned (err (store_error e)))
        | ok lease ↦ let (st'', ending) = execute_lease engine st' lease in (st'', true, ending)
      ]
