-- ===== src/Engine/Turn.antt =====
-- internal/engine/engine.go: `runModelTurn`, which reads the adapter's two channels until both are
-- closed.
use Prim.Native.String.{◌++◌ as append_str}
use reliable_agent_runtime.Prelude.{
  Bool, List, Option, String, [], false, none, some, true, ℤ, ◌++◌, ◌∷◌,
}
use reliable_agent_runtime.Domain.{RunRequest, model_delta}
use reliable_agent_runtime.Engine.Emit.{emit}
use reliable_agent_runtime.Engine.Environment.{
  EngineError, Environment, Received, Session, context_done, delta_payload, errors_closed,
  events_closed, model_error, model_event, nil_error,
}
use reliable_agent_runtime.Model.{
  Message, ModelEvent, ModelEventType, ToolCall, Usage, add_usage, completed, other_type,
  text_delta, tool_call, usage, zero_usage,
}

pub record TurnResult : Type 0 where
  pub assistant_text : String
  pub tool_calls : List ToolCall
  pub final_output : Option String
  pub used : Usage

abbrev pub empty_turn : TurnResult
empty_turn = record { assistant_text = ""; tool_calls = []; final_output = none; used = zero_usage }

-- `blocked`: a channel is never closed, so the call does not return.
pub data TurnOutcome : Type 0 where
  completes : TurnResult → TurnOutcome
  breaks : EngineError → TurnOutcome
  blocked : TurnOutcome

-- `return turnResult{}, ctx.Err()`, where a nil error is no error.
unfoldable pub context_outcome : Option EngineError → TurnOutcome
context_outcome none = completes empty_turn
context_outcome (some e) = breaks e

module _ (env : Environment) (request : RunRequest) where
  -- The body of the case that receives a model event; false if the turn is over because of `emit`.
  unfoldable pub on_event :
      ℤ → ModelEventType → ModelEvent → TurnResult → Session env → Session env × TurnResult × Bool
  on_event turn text_delta event result s =
      let (s', took) = emit env request s model_delta (delta_payload turn event.delta) none in
      (s', record result { assistant_text = append_str result.assistant_text event.delta }, took)
  on_event turn tool_call event result s =
      (s, record result { tool_calls = result.tool_calls ++ event.call ∷ [] }, true)
  on_event turn usage event result s =
      (s, record result { used = add_usage result.used event.used }, true)
  on_event turn completed event result s =
      (s, record result { final_output = some event.output }, true)
  on_event turn (other_type _) event result s = (s, result, true)

  -- The loop: the two flags say that the channel of events and that of errors are not yet nil. A
  -- nil channel is never received from, so a receive that names one does not happen.
  unfoldable pub receive :
      ℤ → List Received → Bool → Bool → TurnResult → Session env → Session env × TurnOutcome
  receive turn items false false result s = (s, completes result)
  receive turn [] events errors result s = (s, blocked)
  receive turn (context_done e ∷ items) events errors result s = (s, breaks e)
  receive turn (model_event event ∷ items) false errors result s =
      receive turn items false errors result s
  receive turn (model_event event ∷ items) true errors result s =
      let (s', result', more) = on_event turn event.type event result s in
      elim more [
        | true ↦ receive turn items true errors result' s'
        | false ↦ (s', context_outcome (env.ctx_err s'.world))
      ]
  receive turn (events_closed ∷ items) events errors result s =
      receive turn items false errors result s
  receive turn (model_error e ∷ items) events false result s =
      receive turn items events false result s
  receive turn (model_error e ∷ items) events true result s = (s, breaks e)
  receive turn (nil_error ∷ items) events errors result s =
      receive turn items events errors result s
  receive turn (errors_closed ∷ items) events errors result s =
      receive turn items events false result s

  unfoldable pub run_model_turn : ℤ → List Message → Session env → Session env × TurnOutcome
  unfolding receive
  run_model_turn turn messages s =
      let (items, world) =
        env.stream
          (record {
            run_id = request.run_id;
            turn = turn;
            messages = messages;
            tools = env.tool_definitions;
          })
          s.world in
      receive turn items true true empty_turn (record s { world = world })
