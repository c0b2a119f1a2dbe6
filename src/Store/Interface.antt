-- ===== src/Store/Interface.antt =====
-- internal/store/store.go: the interface that the worker and the HTTP API use.
use reliable_agent_runtime.Prelude.{Bool, List, Result, String, ok, some, true, ℕ, ◌≡◌}
use reliable_agent_runtime.Domain.{
  Duration, EventType, FinalResult, RawMessage, RunEvent, RunRequest, Time,
}
use reliable_agent_runtime.Store.{Checkpoint, Lease, RunRecord, StoreError, is_terminal}

pub record Repository : Type 1 where
  pub State : Type 0
  pub create_run : State → RunRequest → Time → State × Result StoreError (RunRecord × Bool)
  pub get_run : State → String → Result StoreError RunRecord
  pub lease_next : State → String → Time → Duration → State × Result StoreError Lease
  pub renew_lease : State → String → String → ℕ → Time → Duration → State × Result StoreError Time
  pub append_event :
      State
      → String
      → String
      → ℕ
      → EventType
      → RawMessage
      → Time
      → State × Result StoreError RunEvent
  pub save_checkpoint : State → String → Checkpoint → State × Result StoreError (Unit {0})
  pub get_checkpoint : State → String → Result StoreError Checkpoint
  pub finish_run :
      State
      → String
      → String
      → ℕ
      → FinalResult
      → EventType
      → Time
      → State × Result StoreError RunEvent
  pub list_events : State → String → ℕ → Result StoreError (List RunEvent)

-- The run is over, with this result.
abbrev pub IsOver : (repository : Repository) → repository.State → String → FinalResult → Type 0
IsOver repository st id result =
    (r : RunRecord) × (repository.get_run st id ≡ ok r)
    × (is_terminal r.status ≡ true)
    × (r.status ≡ result.status)
    × (r.final_result ≡ some result)

-- What a worker relies on.
pub record Contract (repository : Repository) : Type 0 where
  pub finishing :
      (st : repository.State) (id worker : String) (fence : ℕ) (result : FinalResult)
      (type : EventType) (now : Time) (event : RunEvent)
      → (repository.finish_run st id worker fence result type now).1 ≡ ok event
      → IsOver repository (repository.finish_run st id worker fence result type now).0 id result
