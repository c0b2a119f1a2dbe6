-- ===== src/Http/Events.antt =====
-- internal/httpapi/handler.go: streamEvents and writeAvailableEvents. Between two calls of the
-- repository other clients and workers may change it, so each loop has the states that it finds.
use Prim.Native.String.{◌++◌ as append_str}
use reliable_agent_runtime.Prelude.{
  Bool, List, Option, Result, String, [], err, false, if◌then◌else◌, length, ltb, none, not, ok,
  some, true, ℕ, ◌++◌, ◌||◌, ◌∷◌,
}
use reliable_agent_runtime.Domain.{
  EventType, RunEvent, model_delta, model_started, run_cancelled, run_created, run_failed,
  run_inconclusive, run_succeeded, run_timed_out, tool_completed, tool_failed, tool_requested,
  usage_recorded,
}
use reliable_agent_runtime.Engine.Environment.{message}
use reliable_agent_runtime.Http.Request.{
  HttpRequest, JsonCodec, Reply, event_cursor, require_tenant, terminal_status, write_error,
}
use reliable_agent_runtime.Http.Runs.{own_run}
use reliable_agent_runtime.Http.Text.{decimal}
use reliable_agent_runtime.Store.{is_terminal}
use reliable_agent_runtime.Store.Interface.{Repository}

-- The values of the string type `EventType`.
unfoldable pub event_name : EventType → String
event_name run_created = "RUN_CREATED"
event_name model_started = "MODEL_STARTED"
event_name model_delta = "MODEL_DELTA"
event_name usage_recorded = "USAGE_RECORDED"
event_name tool_requested = "TOOL_REQUESTED"
event_name tool_completed = "TOOL_COMPLETED"
event_name tool_failed = "TOOL_FAILED"
event_name run_succeeded = "RUN_SUCCEEDED"
event_name run_failed = "RUN_FAILED"
event_name run_cancelled = "RUN_CANCELLED"
event_name run_inconclusive = "RUN_INCONCLUSIVE"
event_name run_timed_out = "RUN_TIMED_OUT"

-- What one write puts on the connection.
pub data Frame : Type 0 where
  event_frame : RunEvent → String → Frame
  heartbeat_frame : Frame

unfoldable pub frame_text : Frame → String
unfolding event_name
frame_text (event_frame event encoded) = append_str "id: " (
    append_str (decimal event.sequence) (
      append_str "\nevent: "
        (append_str (event_name event.type) (append_str "\ndata: " (append_str encoded "\n\n")))))
frame_text heartbeat_frame = ": heartbeat\n\n"

-- The connection: whether the n-th write succeeds, counted from 0, and what was written.
abbrev pub Connection : Type 0
Connection = ℕ → Bool

-- A write, with what was written before.
unfoldable pub write : Connection → List Frame → Frame → Option (List Frame)
write accepts sent frame = if accepts (length sent) then some (sent ++ frame ∷ []) else none

-- What the loop over the events gives: what was written, and if no error came, whether a terminal
-- event was among them and the last sequence number.
pub record Written : Type 0 where
  pub sent : List Frame
  pub outcome : Option (Bool × ℕ)

unfoldable pub ends_run : EventType → Bool
unfolding terminal_status
ends_run type = elim (terminal_status type) [ none ↦ false | some _ ↦ true ]

unfoldable pub write_events :
    JsonCodec → Connection → List RunEvent → List Frame → ℕ → Bool → Written
unfolding write ends_run
write_events json accepts [] sent latest terminal = record {
  sent = sent;
  outcome = some (terminal, latest);
}
write_events json accepts (event ∷ events) sent latest terminal = elim (json.marshal_event event) [
  | none ↦ record { sent = sent; outcome = none }
  | some encoded ↦ elim (write accepts sent (event_frame event encoded)) [
    | none ↦ record { sent = sent; outcome = none }
    | some sent' ↦
        write_events json accepts events sent' event.sequence (terminal || ends_run event.type)
  ]
]

-- How a stream is left: `terminal_seen` after the end of the run, `stream_broken` after an error,
-- `client_gone` after the request's context is done, or `still_open` while it waits.
pub data StreamEnd : Type 0 where
  terminal_seen stream_broken client_gone still_open : StreamEnd

-- What wakes the `select`.
pub data Wake : Type 0 where
  request_done poll_tick heartbeat_tick : Wake

-- The `select`: what was written before the next round, or why there is none.
unfoldable pub woken : Connection → Wake → List Frame → Result StreamEnd (List Frame)
unfolding write
woken accepts request_done sent = err client_gone
woken accepts poll_tick sent = ok sent
woken accepts heartbeat_tick sent = elim (write accepts sent heartbeat_frame) [
  | none ↦ err stream_broken
  | some sent' ↦ ok sent'
]

pub record Stream : Type 0 where
  pub frames : List Frame
  pub cursor : ℕ
  pub end : StreamEnd

module _ (repository : Repository) where
  -- writeAvailableEvents: the events are listed in one state, and the run is read in a later one.
  unfoldable pub write_available_events :
      JsonCodec
      → Connection
      → repository.State
      → repository.State
      → String
      → ℕ
      → List Frame
      → Written
  unfolding write_events
  write_available_events json accepts st st' run_id after_sequence sent =
      elim (repository.list_events st run_id after_sequence) [
        | err _ ↦ record { sent = sent; outcome = none }
        | ok [] ↦ elim (repository.get_run st' run_id) [
          | err _ ↦ record { sent = sent; outcome = none }
          | ok r ↦ record { sent = sent; outcome = some (is_terminal r.status, after_sequence) }
        ]
        | ok (event ∷ events) ↦ write_events json accepts (event ∷ events) sent after_sequence false
      ]

  -- What happens in a round besides the stream's own work: the changes between its two reads, what
  -- wakes it, and the changes until then.
  pub record StreamRound : Type 0 where
    pub meanwhile : repository.State → repository.State
    pub wake : Wake
    pub later : repository.State → repository.State

  -- The loop, for some rounds and the states that it finds in the last one.
  unfoldable pub stream_loop :
      JsonCodec
      → Connection
      → String
      → repository.State
      → ℕ
      → List Frame
      → List StreamRound
      → Stream
  unfolding write_available_events woken
  stream_loop json accepts run_id st after_sequence sent [] = record {
    frames = sent;
    cursor = after_sequence;
    end = still_open;
  }
  stream_loop json accepts run_id st after_sequence sent (round ∷ rounds) =
      let st' = round.meanwhile st in
      let w = write_available_events json accepts st st' run_id after_sequence sent in
      elim w.outcome [
        | none ↦ record { frames = w.sent; cursor = after_sequence; end = stream_broken }
        | some (terminal, next_sequence) ↦
            let cursor =
              if ltb after_sequence next_sequence then next_sequence else after_sequence in
            elim terminal [
              | true ↦ record { frames = w.sent; cursor = cursor; end = terminal_seen }
              | false ↦ elim (woken accepts round.wake w.sent) [
                | err end ↦ record { frames = w.sent; cursor = cursor; end = end }
                | ok frames ↦ stream_loop json accepts run_id (round.later st') cursor frames rounds
              ]
            ]
      ]

  -- streamEvents up to its loop: the cursor of a run of the tenant, or an error reply.
  unfoldable pub open_stream : repository.State → HttpRequest → Result Reply ℕ
  unfolding require_tenant own_run event_cursor write_error
  open_stream st request = elim (require_tenant request) [
    | err reply ↦ err reply
    | ok tenant_id ↦
        if not request.can_flush
        then err (write_error 500 "streaming is not supported")
        else elim (event_cursor request) [
          | err message ↦ err (write_error 400 message)
          | ok after_sequence ↦ elim (own_run tenant_id (repository.get_run st request.run_id)) [
            | err reply ↦ err reply
            | ok _ ↦ ok after_sequence
          ]
        ]
  ]

  unfoldable pub stream_events :
      JsonCodec
      → Connection
      → repository.State
      → (repository.State → repository.State)
      → HttpRequest
      → List StreamRound
      → Result Reply Stream
  unfolding open_stream stream_loop
  stream_events json accepts st later request rounds = elim (open_stream st request) [
    | err reply ↦ err reply
    | ok after_sequence ↦
        ok (stream_loop json accepts request.run_id (later st) after_sequence [] rounds)
  ]
