-- ===== src/Engine/Environment.antt =====
-- What engine.go takes from its surroundings: the clock, the context, the consumer of the output
-- channel, the model adapter and the tools. Every answer of these may depend on all that happened
-- before: it is kept in `World`, and a call returns the next one.
use Prim.Native.String.{◌++◌ as append_str}
use reliable_agent_runtime.Prelude.{Bool, List, Option, Result, String, false, pos, true, ℕ, ℤ}
use reliable_agent_runtime.Domain.{ExecutionMode, FinalResult, RawMessage, Time}
use reliable_agent_runtime.Engine.State.{Output}
use reliable_agent_runtime.Model.{ModelEvent, Request, ToolCall, ToolDefinition, Usage}

-- Errors by what `errors.Is` and `Error` tell of them. `external` is an error of an adapter or a
-- tool that is no context error, and `wrapped` is `fmt.Errorf` with a text before `%w`.
pub data EngineError : Type 0 where
  canceled deadline_exceeded invalid_request invalid_state max_turns_exceeded
        max_tool_calls_exceeded input_tokens_exceeded output_tokens_exceeded cost_exceeded
        empty_model_turn unsafe_tool_recovery :
      EngineError
  external : String → EngineError
  wrapped : String → EngineError → EngineError
  suffixed : EngineError → String → EngineError  -- "%w: %s"

unfoldable pub message : EngineError → String
message canceled = "context canceled"
message deadline_exceeded = "context deadline exceeded"
message invalid_request = "invalid run request"
message invalid_state = "invalid engine checkpoint state"
message max_turns_exceeded = "maximum turns exceeded"
message max_tool_calls_exceeded = "maximum tool calls exceeded"
message input_tokens_exceeded = "input token budget exceeded"
message output_tokens_exceeded = "output token budget exceeded"
message cost_exceeded = "cost budget exceeded"
message empty_model_turn = "model turn ended without final result or tool call"
message unsafe_tool_recovery = "cannot automatically replay a non-read-only tool after recovery"
message (external text) = text
message (wrapped text e) = append_str text (message e)
message (suffixed e text) = append_str (message e) (append_str ": " text)

-- errors.Is(err, context.DeadlineExceeded)
unfoldable pub is_deadline : EngineError → Bool
is_deadline deadline_exceeded = true
is_deadline (wrapped _ e) = is_deadline e
is_deadline (suffixed e _) = is_deadline e
is_deadline _ = false

-- errors.Is(err, context.Canceled)
unfoldable pub is_canceled : EngineError → Bool
is_canceled canceled = true
is_canceled (wrapped _ e) = is_canceled e
is_canceled (suffixed e _) = is_canceled e
is_canceled _ = false

-- What the engine hands to `json.Marshal`, a constructor for each literal.
pub data Payload : Type 0 where
  created_payload : String → ExecutionMode → Payload
  started_payload : String → ℤ → Payload
  delta_payload : ℤ → String → Payload
  usage_payload : ℤ → Usage → Usage → Payload
  requested_payload : ToolCall → Payload
  failed_payload : ToolCall → String → Payload
  completed_payload : ToolCall → String → Payload
  result_payload : FinalResult → Payload

-- What one `select` of a model turn receives: from the context, from the channel of events or from
-- that of errors, where a closed channel is received once.
pub data Received : Type 0 where
  context_done : EngineError → Received
  model_event : ModelEvent → Received
  events_closed : Received
  model_error : EngineError → Received
  nil_error : Received
  errors_closed : Received

pub record Environment : Type 1 where
  pub World : Type 0
  pub encode : Payload → RawMessage
  pub now : World → Time × World
  pub ctx_err : World → Option EngineError
  -- The `select` of `emit`: true if the output channel took the item, false if the context was done.
  -- It waits until one of them happens: a consumer receives or ends the context.
  pub offer : Output → World → Bool × World
  -- A plain send to the output channel: true if it is taken, by the buffer or by the consumer, false
  -- if the buffer is full and nobody ever receives again.
  pub push : Output → World → Bool × World
  pub adapter_name : String
  -- The receives of a turn in their order.
  pub stream : Request → World → List Received × World
  pub tool_definitions : List ToolDefinition
  -- `Registry.Definition`, of which the engine reads `ReadOnly`.
  pub read_only : String → Option Bool
  -- `Registry.Execute`, with the content of the result.
  pub execute_tool : String → RawMessage → World → Result EngineError String × World

pub record Limits : Type 0 where
  pub max_turns : ℤ
  pub max_tool_calls : ℤ
  pub max_input_tokens : ℤ
  pub max_output_tokens : ℤ
  pub max_cost_micros : ℤ

unfoldable pub default_limits : Limits
default_limits = record {
  max_turns = pos 8;
  max_tool_calls = pos 32;
  max_input_tokens = pos 0;
  max_output_tokens = pos 0;
  max_cost_micros = pos 0;
}

-- The goroutine as its sends leave it: what was sent, oldest first, the counter, and whether it waits
-- for ever in a plain send.
pub record Session (env : Environment) : Type 0 where
  pub world : env.World
  pub sequence : ℕ
  pub sent : List Output
  pub stuck : Bool
