-- ===== src/Store/History.antt =====
-- Calls of the repository's writing methods, and the repository after a sequence of them.
use reliable_agent_runtime.Prelude.{List, String, [], ℕ, ◌∷◌}
use reliable_agent_runtime.Domain.{Duration, EventType, FinalResult, RawMessage, RunRequest, Time}
use reliable_agent_runtime.Store.{Checkpoint, Encoders}
use reliable_agent_runtime.Store.Memory.{
  MemoryRepository, append_event, create_run, finish_run, lease_next, renew_lease, save_checkpoint,
}

pub data Call : Type 0 where
  creates : RunRequest → Time → Call
  leases : String → Time → Duration → Call
  renews : String → String → ℕ → Time → Duration → Call
  appends : String → String → ℕ → EventType → RawMessage → Time → Call
  saves : String → Checkpoint → Call
  finishes : String → String → ℕ → FinalResult → EventType → Time → Call

module _ (enc : Encoders) where
  unfoldable pub step : MemoryRepository → Call → MemoryRepository
  step repo (creates request now) = (create_run enc repo request now).0
  step repo (leases worker now ttl) = (lease_next repo worker now ttl).0
  step repo (renews id worker fence now ttl) = (renew_lease repo id worker fence now ttl).0
  step repo (appends id worker fence type payload now) =
      (append_event repo id worker fence type payload now).0
  step repo (saves worker checkpoint) = (save_checkpoint repo worker checkpoint).0
  step repo (finishes id worker fence result type now) =
      (finish_run enc repo id worker fence result type now).0

  unfoldable pub history : MemoryRepository → List Call → MemoryRepository
  history repo [] = repo
  history repo (call ∷ calls) = history (step repo call) calls
