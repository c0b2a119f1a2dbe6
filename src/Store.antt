-- ===== src/Store.antt =====
-- internal/store/store.go and hash.go: the records of the store, its errors, and which events end
-- a run. The in-memory implementation is in Store/Memory.antt.
pub mod Memory
pub mod Interface
pub mod Implementation
pub mod History
pub mod Change
pub mod WellFormed
pub mod Records
pub mod Preservation
pub mod RunStep
pub mod Leasing
pub mod Terminal
pub mod Fencing
pub mod Resume
pub mod Idempotency
pub mod Keys
pub mod Creation
use reliable_agent_runtime.Prelude.{
  ℕ, String, Bool, true, false, [], Option, none, some, Result, ok, err, if◌then◌else◌,
}
use reliable_agent_runtime.Domain.{
  Time, RawMessage, RunStatus, EventType, ExecutionMode, ReleaseManifest, RunRequest, FinalResult,
  succeeded, failed, cancelled, inconclusive, timed_out, run_succeeded, run_failed, run_cancelled,
  run_inconclusive, run_timed_out, other, other_mode, zero_time, same_event,
}

pub data StoreError : Type 0 where
  not_found no_run_available idempotency_conflict lease_lost invalid_transition stale_checkpoint
        checkpoint_ahead :
      StoreError
  run_exists : String → StoreError  -- "run id already exists: ..."
  encoding : String → StoreError  -- what `json.Marshal` reports

pub record RunRecord : Type 0 where
  pub id : String
  pub tenant_id : String
  pub idempotency_key : String
  pub request_hash : String
  pub input : String
  pub mode : ExecutionMode
  pub manifest : ReleaseManifest
  pub status : RunStatus
  pub deadline : Time
  pub lease_owner : String
  pub lease_until : Time
  pub fence_token : ℕ  -- uint64
  pub attempt : ℕ  -- int, as its 64-bit pattern: it is only ever counted up
  pub last_event_seq : ℕ  -- uint64
  pub final_result : Option FinalResult
  pub created_at : Time
  pub updated_at : Time

-- Go's zero value, which a map gives for a key that it has not.
abbrev pub zero_run : RunRecord
zero_run = record {
  id = "";
  tenant_id = "";
  idempotency_key = "";
  request_hash = "";
  input = "";
  mode = other_mode "";
  manifest = record {
    release_id = "";
    checksum = "";
    agent_version = "";
    prompt_version = "";
    skill_versions = [];
    toolset_version = "";
    model_profile_version = "";
    policy_version = "";
  };
  status = other "";
  deadline = zero_time;
  lease_owner = "";
  lease_until = zero_time;
  fence_token = 0;
  attempt = 0;
  last_event_seq = 0;
  final_result = none;
  created_at = zero_time;
  updated_at = zero_time;
}

pub record Lease : Type 0 where
  pub run : RunRecord
  pub worker_id : String
  pub fence_token : ℕ
  pub attempt : ℕ
  pub lease_until : Time

pub record Checkpoint : Type 0 where
  pub run_id : String
  pub fence_token : ℕ
  pub event_sequence : ℕ
  pub state : RawMessage
  pub created_at : Time

unfoldable pub is_terminal : RunStatus → Bool
is_terminal succeeded = true
is_terminal failed = true
is_terminal cancelled = true
is_terminal inconclusive = true
is_terminal timed_out = true
is_terminal _ = false

unfoldable pub terminal_event_for_status : RunStatus → Option EventType
terminal_event_for_status succeeded = some run_succeeded
terminal_event_for_status failed = some run_failed
terminal_event_for_status cancelled = some run_cancelled
terminal_event_for_status inconclusive = some run_inconclusive
terminal_event_for_status timed_out = some run_timed_out
terminal_event_for_status _ = none

unfoldable pub validate_terminal_event : FinalResult → EventType → Result StoreError (Unit {0})
unfolding terminal_event_for_status same_event
validate_terminal_event result event_type = elim (terminal_event_for_status result.status) [
  | none ↦ err invalid_transition
  | some want ↦ if same_event event_type want then ok tt else err invalid_transition
]

-- What `RequestHash` encodes: the run's identifier is not part of it.
pub record HashInput : Type 0 where
  pub tenant_id : String
  pub idempotency_key : String
  pub input : String
  pub mode : ExecutionMode
  pub deadline : String
  pub manifest : ReleaseManifest

-- The parts of encoding/json, crypto/sha256, encoding/hex and time that the store calls.
pub record Encoders : Type 0 where
  pub marshal_hash_input : HashInput → Result StoreError RawMessage
  pub marshal_created : ExecutionMode → ReleaseManifest → Result StoreError RawMessage
  pub marshal_result : FinalResult → Result StoreError RawMessage
  pub format_utc : Time → String
  pub sha256 : RawMessage → String
  pub hex : String → String

unfoldable pub request_hash : Encoders → RunRequest → Result StoreError String
request_hash enc request =
    elim (enc.marshal_hash_input (record {
      tenant_id = request.tenant_id;
      idempotency_key = request.idempotency_key;
      input = request.input;
      mode = request.mode;
      deadline = enc.format_utc request.deadline;
      manifest = request.manifest;
    })) [ err e ↦ err e | ok encoded ↦ ok (enc.hex (enc.sha256 encoded)) ]
