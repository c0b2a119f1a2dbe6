-- ===== src/Domain.antt =====
-- internal/domain/types.go: the statuses, events and records that every part shares.
-- A `time.Time` is the number of nanoseconds since the zero time, a `time.Duration` an integer;
-- `json.RawMessage` is its text.
use reliable_agent_runtime.Prelude.{
  Bool, List, String, arith, eqb, false, ltb, negsuc, pos, suc, true, ℕ, ℤ, ◌+◌, ◌-◌, ◌≡◌,
}

abbrev pub Time : Type 0
Time = ℕ

abbrev pub Duration : Type 0
Duration = ℤ

abbrev pub RawMessage : Type 0
RawMessage = String

abbrev pub zero_time : Time
zero_time = 0

-- time.Time.IsZero
abbrev pub is_zero : Time → Bool
is_zero t = eqb t 0

-- time.Time.After
abbrev pub after : Time → Time → Bool
after t u = ltb u t

-- time.Time.Add, for results not before the zero time.
abbrev pub add_time : Time → Duration → Time
add_time t (pos d) = t + d
add_time t (negsuc d) = t - suc d

-- Go's string types: `other` is any text that is none of the constants.
pub data RunStatus : Type 0 where
  queued running waiting_approval retry_wait succeeded failed cancelled inconclusive timed_out :
      RunStatus
  other : String → RunStatus

pub data EventType : Type 0 where
  run_created model_started model_delta usage_recorded tool_requested tool_completed tool_failed
        run_succeeded run_failed run_cancelled run_inconclusive run_timed_out :
      EventType

pub data ExecutionMode : Type 0 where
  live shadow eval replay : ExecutionMode
  other_mode : String → ExecutionMode

pub record ReleaseManifest : Type 0 where
  pub release_id : String
  pub checksum : String
  pub agent_version : String
  pub prompt_version : String
  pub skill_versions : List String
  pub toolset_version : String
  pub model_profile_version : String
  pub policy_version : String

pub record RunRequest : Type 0 where
  pub run_id : String
  pub tenant_id : String
  pub idempotency_key : String
  pub input : String
  pub mode : ExecutionMode
  pub deadline : Time
  pub manifest : ReleaseManifest

pub record RunEvent : Type 0 where
  pub run_id : String
  pub sequence : ℕ  -- uint64
  pub type : EventType
  pub occurred_at : Time
  pub payload : RawMessage

pub record FinalResult : Type 0 where
  pub status : RunStatus
  pub output : String
  pub error : String

-- The tests `status == RunStatusX` that the code makes.
abbrev pub is_running : RunStatus → Bool
is_running running = true
is_running _ = false

abbrev pub is_waiting : RunStatus → Bool
is_waiting queued = true
is_waiting retry_wait = true
is_waiting _ = false

-- `==` on event types.
unfoldable pub same_event : EventType → EventType → Bool
same_event run_created run_created = true
same_event model_started model_started = true
same_event model_delta model_delta = true
same_event usage_recorded usage_recorded = true
same_event tool_requested tool_requested = true
same_event tool_completed tool_completed = true
same_event tool_failed tool_failed = true
same_event run_succeeded run_succeeded = true
same_event run_failed run_failed = true
same_event run_cancelled run_cancelled = true
same_event run_inconclusive run_inconclusive = true
same_event run_timed_out run_timed_out = true
same_event _ _ = false

pub same_event-eq : (a b : EventType) → same_event a b ≡ true → a ≡ b
unfolding same_event
same_event-eq a b h = ground arith
