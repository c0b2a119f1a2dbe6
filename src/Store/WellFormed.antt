-- ===== src/Store/WellFormed.antt =====
-- What holds of the in-memory repository between two calls.
use reliable_agent_runtime.Prelude.{
  Distinct, List, Option, String, [], length, lookup, none, or_zero, some, true, u64, ℕ, ◌+◌, ◌<◌,
  ◌^◌, ◌∷◌, ◌≡◌, ◌≢◌, ◌≤◌,
}
use reliable_agent_runtime.Domain.{EventType, FinalResult, RunEvent, queued, running}
use reliable_agent_runtime.Store.{Checkpoint, RunRecord, is_terminal, terminal_event_for_status}
use reliable_agent_runtime.Store.Memory.{MemoryRepository}

abbrev pub events_of : MemoryRepository → String → List RunEvent
events_of repo id = or_zero [] (lookup id repo.events)

-- The events of a run carry its identifier and are numbered upwards from n + 1, as a uint64 counts.
abbrev pub Numbered : String → ℕ → List RunEvent → Type 0
Numbered id n [] = Unit
Numbered id n (e ∷ es) = (e.run_id ≡ id) × (e.sequence ≡ u64 (n + 1)) × Numbered id (n + 1) es

abbrev pub last_type : List RunEvent → Option EventType
last_type [] = none
last_type (e ∷ []) = some e.type
last_type (e ∷ e' ∷ es) = last_type (e' ∷ es)

-- The three stages of a run that the repository produces.
pub data Life (r : RunRecord) (last : Option EventType) : Type 0 where
  unleased :
      r.status ≡ queued
      → r.lease_owner ≡ ""
      → r.final_result ≡ none
      → r.fence_token ≡ 0
      → Life r last
  held : r.status ≡ running → r.lease_owner ≢ "" → r.final_result ≡ none → Life r last
  settled :
      (f : FinalResult)
      → is_terminal r.status ≡ true
      → r.lease_owner ≡ ""
      → r.final_result ≡ some f
      → f.status ≡ r.status
      → last ≡ terminal_event_for_status r.status
      → Life r last

pub record IsConsistent (id : String) (r : RunRecord) (es : List RunEvent) : Type 0 where
  pub keyed : r.id ≡ id
  pub numbered : Numbered id 0 es
  pub counted : r.last_event_seq ≡ u64 (length es)
  pub attempts : r.attempt ≡ r.fence_token
  pub in_range : r.fence_token < 2 ^ 64
  pub life : Life r (last_type es)

pub record Covers (es : List RunEvent) (c : Checkpoint) : Type 0 where
  pub committed : c.event_sequence ≤ length es

pub record IsWellFormed (repo : MemoryRepository) : Type 0 where
  pub distinct : Distinct repo.runs
  pub consistent :
      (id : String) (r : RunRecord)
      → lookup id repo.runs ≡ some r
      → IsConsistent id r (events_of repo id)
  pub no_orphans : (id : String) → lookup id repo.runs ≡ none → events_of repo id ≡ []
  pub checkpoints :
      (id : String) (c : Checkpoint)
      → lookup id repo.checkpoints ≡ some c
      → Covers (events_of repo id) c
