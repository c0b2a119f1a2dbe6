-- ===== src/Store/Memory/Repository.antt =====
-- internal/store/memory.go: the state behind the mutex, the reads and the lease check.
use Prim.Native.String.{◌++◌ as append_str}
use reliable_agent_runtime.Prelude.{
  Bool, Dict, List, Result, String, [], eqb, err, if◌then◌else◌, lookup, ltb, none, not, ok,
  or_zero, select, some, ℕ, ◌==◌, ◌||◌,
}
use reliable_agent_runtime.Domain.{RunEvent, RunRequest, Time, after, is_running}
use reliable_agent_runtime.Store.{Checkpoint, RunRecord, StoreError, lease_lost, not_found}

pub record MemoryRepository : Type 0 where
  pub runs : Dict RunRecord
  pub by_idempotency : Dict String
  pub events : Dict (List RunEvent)
  pub checkpoints : Dict Checkpoint

unfoldable pub new_memory_repository : MemoryRepository
new_memory_repository = record { runs = []; by_idempotency = []; events = []; checkpoints = [] }

-- request.TenantID + "\x00" + request.IdempotencyKey
unfoldable pub idempotency_map_key : RunRequest → String
idempotency_map_key request = append_str request.tenant_id (append_str "\0" request.idempotency_key)

unfoldable pub get_run : MemoryRepository → String → Result StoreError RunRecord
get_run repo run_id = elim (lookup run_id repo.runs) [ none ↦ err not_found | some r ↦ ok r ]

-- `validLease` on the record that the map holds.
unfoldable pub holds_lease : RunRecord → String → ℕ → Time → Bool
holds_lease r worker fence now = not (
    worker == ""
    || not (is_running r.status)
    || not (r.lease_owner == worker)
    || not (eqb r.fence_token fence)
    || not (after r.lease_until now))

unfoldable pub valid_lease :
    MemoryRepository → String → String → ℕ → Time → Result StoreError RunRecord
unfolding holds_lease
valid_lease repo run_id worker fence now = elim (lookup run_id repo.runs) [
  | none ↦ err not_found
  | some r ↦ if holds_lease r worker fence now then ok r else err lease_lost
]

unfoldable pub get_checkpoint : MemoryRepository → String → Result StoreError Checkpoint
get_checkpoint repo run_id = elim (lookup run_id repo.checkpoints) [
  | none ↦ err not_found
  | some c ↦ ok c
]

unfoldable pub list_events : MemoryRepository → String → ℕ → Result StoreError (List RunEvent)
list_events repo run_id after_sequence = elim (lookup run_id repo.runs) [
  | none ↦ err not_found
  | some _ ↦
      ok (
        select (λ event. ltb after_sequence event.sequence)
          (or_zero [] (lookup run_id repo.events)))
]
