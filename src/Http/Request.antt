-- ===== src/Http/Request.antt =====
-- internal/httpapi/handler.go: requests, replies, the configuration, and what the handlers check
-- before they call the repository. net/http has matched the route; encoding/json is a parameter.
use Prim.Native.String.{◌++◌ as append_str}
use reliable_agent_runtime.Prelude.{
  Bool, Option, Result, String, arith, eq_iff, err, fail_if, false, if◌then◌else◌, leb_ℤ, none, not,
  ok, pos, some, true, ℕ, ◌<◌, ◌==◌, ◌>>◌, ◌^◌, ◌||◌, ◌≡◌,
}
use reliable_agent_runtime.Domain.{
  Duration, EventType, ExecutionMode, FinalResult, ReleaseManifest, RunEvent, RunStatus, Time,
  cancelled, eval, failed, inconclusive, is_zero, live, other_mode, replay, run_cancelled,
  run_failed, run_inconclusive, run_succeeded, run_timed_out, shadow, succeeded, timed_out,
}
use reliable_agent_runtime.Engine.Environment.{message}
use reliable_agent_runtime.Http.RoundTrip.{decimal_ne, parse_uint-decimal}
use reliable_agent_runtime.Http.Text.{decimal, parse_uint, trim_space}
use reliable_agent_runtime.Store.{RunRecord}

-- What `encoding/json` finds behind the first value of a body.
pub data Remainder : Type 0 where
  end_of_input malformed extra_value : Remainder

pub record CreateRunRequest : Type 0 where
  pub run_id : String
  pub input : String
  pub mode : ExecutionMode
  pub deadline : Option Time
  pub manifest : ReleaseManifest

-- encoding/json: `decode_create` reads a `createRunRequest` with unknown fields disallowed from a
-- body that `http.MaxBytesReader` cuts at a number of bytes, and `decode_rest` reads on behind it.
pub record JsonCodec : Type 0 where
  pub decode_create : ℕ → String → Option CreateRunRequest
  pub decode_rest : ℕ → String → Remainder
  pub marshal_event : RunEvent → Option String

-- A request as the handlers read it: `Header.Get`, `URL.Query().Get`, `PathValue("run_id")`, and
-- whether the response writer can flush.
pub record HttpRequest : Type 0 where
  pub header : String → String
  pub query : String → String
  pub run_id : String
  pub body : String
  pub can_flush : Bool

pub record RunResponse : Type 0 where
  pub id : String
  pub tenant_id : String
  pub idempotency_key : String
  pub status : RunStatus
  pub mode : ExecutionMode
  pub manifest : ReleaseManifest
  pub deadline : Option Time
  pub attempt : ℕ
  pub last_event_seq : ℕ
  pub final_result : Option FinalResult
  pub created_at : Time
  pub updated_at : Time

pub data ReplyBody : Type 0 where
  run_body : RunResponse → ReplyBody
  error_body : String → ReplyBody
  status_body : String → ReplyBody

pub record Reply : Type 0 where
  pub status : ℕ
  pub body : ReplyBody

unfoldable pub write_json : ℕ → ReplyBody → Reply
write_json status body = record { status = status; body = body }

unfoldable pub write_error : ℕ → String → Reply
unfolding write_json
write_error status message = write_json status (error_body message)

-- The function `GenerateID` is a field that may be nil.
pub record HttpConfig : Type 0 where
  pub poll_interval : Duration
  pub heartbeat_interval : Duration
  pub has_generate_id : Bool

unfoldable pub default_http_config : HttpConfig
default_http_config = record {
  poll_interval = pos 250000000;
  heartbeat_interval = pos 15000000000;
  has_generate_id = true;
}

-- The check of `New`; the first argument says whether the repository is not nil.
unfoldable pub new_handler : Bool → HttpConfig → Result String HttpConfig
new_handler has_repository config =
    if not has_repository
      || leb_ℤ config.poll_interval (pos 0)
      || leb_ℤ config.heartbeat_interval (pos 0)
      || not config.has_generate_id
    then err "invalid HTTP API configuration"
    else ok config

-- `randomID`, for `hex.EncodeToString` and the 16 bytes that `crypto/rand` gives.
unfoldable pub random_id : (String → String) → Option String → Option String
random_id encode_to_string read = elim read [
  | none ↦ none
  | some bytes ↦ some (append_str "run_" (encode_to_string bytes))
]

-- The `switch` on the execution mode.
unfoldable pub is_known_mode : ExecutionMode → Bool
is_known_mode live = true
is_known_mode shadow = true
is_known_mode eval = true
is_known_mode replay = true
is_known_mode (other_mode _) = false

unfoldable pub validate_create : CreateRunRequest → Result String (Unit {0})
unfolding is_known_mode
validate_create request =
    fail_if (trim_space request.input == "") "input is required"
    >> fail_if (not (is_known_mode request.mode)) "invalid execution mode"
    >> fail_if (request.manifest.release_id == "" || request.manifest.checksum == "")
        "manifest release_id and checksum are required"

unfoldable pub ensure_json_end : Remainder → Result String (Unit {0})
ensure_json_end end_of_input = ok tt
ensure_json_end malformed = err "malformed"
ensure_json_end extra_value = err "extra JSON value"

unfoldable pub require_tenant : HttpRequest → Result Reply String
unfolding write_error
require_tenant request =
    let tenant_id = trim_space (request.header "X-Tenant-ID") in
    if tenant_id == "" then err (write_error 400 "X-Tenant-ID header is required") else ok tenant_id

unfoldable pub cursor_text : HttpRequest → String
cursor_text request =
    let value = request.query "after_seq" in
    if value == "" then request.header "Last-Event-ID" else value

unfoldable pub event_cursor : HttpRequest → Result String ℕ
unfolding cursor_text
event_cursor request =
    if cursor_text request == "" then ok 0 else elim (parse_uint (cursor_text request)) [
      | none ↦ err "after_seq and Last-Event-ID must be unsigned integers"
      | some cursor ↦ ok cursor
    ]

unfoldable pub terminal_status : EventType → Option RunStatus
terminal_status run_succeeded = some succeeded
terminal_status run_failed = some failed
terminal_status run_cancelled = some cancelled
terminal_status run_inconclusive = some inconclusive
terminal_status run_timed_out = some timed_out
terminal_status _ = none

unfoldable pub to_run_response : RunRecord → RunResponse
to_run_response r = record {
  id = r.id;
  tenant_id = r.tenant_id;
  idempotency_key = r.idempotency_key;
  status = r.status;
  mode = r.mode;
  manifest = r.manifest;
  deadline = if is_zero r.deadline then none else some r.deadline;
  attempt = r.attempt;
  last_event_seq = r.last_event_seq;
  final_result = r.final_result;
  created_at = r.created_at;
  updated_at = r.updated_at;
}

-- A client that sends the last sequence number it saw, in the query or in Last-Event-ID, goes on
-- behind it.
pub event_cursor-decimal :
    (request : HttpRequest) (n : ℕ)
    → n < 2 ^ 64
    → cursor_text request ≡ decimal n
    → event_cursor request ≡ ok n
unfolding event_cursor
event_cursor-decimal request n fits sent =
    rw (sent, parse_uint-decimal n fits) (ground (arith, eq_iff (decimal n) "", decimal_ne n))
