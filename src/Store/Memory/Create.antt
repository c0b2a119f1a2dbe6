-- ===== src/Store/Memory/Create.antt =====
-- internal/store/memory.go: CreateRun.

use reliable_agent_runtime.Prelude.{
  Bool, Result, String, [], err, false, if◌then◌else◌, insert, lookup, none, not, ok, or_zero, some,
  true, ◌==◌, ◌∷◌,
}
use reliable_agent_runtime.Domain.{
  RawMessage, RunEvent, RunRequest, Time, queued, run_created, zero_time,
}
use reliable_agent_runtime.Store.{
  Encoders, RunRecord, StoreError, idempotency_conflict, request_hash, run_exists, zero_run,
}
use reliable_agent_runtime.Store.Memory.Repository.{MemoryRepository, idempotency_map_key}

unfoldable pub queued_record : RunRequest → String → Time → RunRecord
queued_record request hash now = record {
  id = request.run_id;
  tenant_id = request.tenant_id;
  idempotency_key = request.idempotency_key;
  request_hash = hash;
  input = request.input;
  mode = request.mode;
  manifest = request.manifest;
  status = queued;
  deadline = request.deadline;
  lease_owner = "";
  lease_until = zero_time;
  fence_token = 0;
  attempt = 0;
  last_event_seq = 1;
  final_result = none;
  created_at = now;
  updated_at = now;
}

abbrev pub created_event : String → RawMessage → Time → RunEvent
created_event run_id payload now = record {
  run_id = run_id;
  sequence = 1;
  type = run_created;
  occurred_at = now;
  payload = payload;
}

abbrev pub CreateResult : Type 0
CreateResult = Result StoreError (RunRecord × Bool)

unfoldable pub create_existing : MemoryRepository → String → String → CreateResult
create_existing repo hash run_id =
    let existing = or_zero zero_run (lookup run_id repo.runs) in
    if not (existing.request_hash == hash) then err idempotency_conflict else ok (existing, false)

-- The writes of a creation: the record, its key and its first event.
unfoldable pub added : MemoryRepository → RunRequest → String → RawMessage → Time → MemoryRepository
unfolding queued_record idempotency_map_key
added repo request hash payload now = record {
  runs = insert request.run_id (queued_record request hash now) repo.runs;
  by_idempotency = insert (idempotency_map_key request) request.run_id repo.by_idempotency;
  events = insert request.run_id (created_event request.run_id payload now ∷ []) repo.events;
  checkpoints = repo.checkpoints;
}

unfoldable pub create_new :
    MemoryRepository → RunRequest → String → RawMessage → Time → MemoryRepository × CreateResult
create_new repo request hash payload now = elim (lookup request.run_id repo.runs) [
  | some _ ↦ (repo, err (run_exists request.run_id))
  | none ↦ (added repo request hash payload now, ok (queued_record request hash now, true))
]

-- The part under the mutex, with the hash and the payload computed before it.
unfoldable pub create_locked :
    MemoryRepository → RunRequest → String → RawMessage → Time → MemoryRepository × CreateResult
create_locked repo request hash payload now =
    elim (lookup (idempotency_map_key request) repo.by_idempotency) [
      | some run_id ↦ (repo, create_existing repo hash run_id)
      | none ↦ create_new repo request hash payload now
    ]

unfoldable pub create_run :
    Encoders → MemoryRepository → RunRequest → Time → MemoryRepository × CreateResult
create_run enc repo request now = elim (request_hash enc request) [
  | err e ↦ (repo, err e)
  | ok hash ↦ elim (enc.marshal_created request.mode request.manifest) [
    | err e ↦ (repo, err e)
    | ok payload ↦ create_locked repo request hash payload now
  ]
]
