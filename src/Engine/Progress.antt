-- ===== src/Engine/Progress.antt =====
-- What a model turn and a tool call leave behind.
use reliable_agent_runtime.Prelude.{
  Bool, List, Option, [], arith, false, length, length-append, none, refl, some, suc, true, ℕ, ℤ,
  ◌+◌, ◌-◌, ◌^◌, ◌∷◌, ◌≡◌, ◌≤◌,
}
use reliable_agent_runtime.Domain.{RunRequest, model_delta}
use reliable_agent_runtime.Engine.Environment.{
  EngineError, Environment, Limits, Received, Session, context_done, delta_payload, errors_closed,
  events_closed, model_error, model_event, nil_error,
}
use reliable_agent_runtime.Engine.Outputs.{IsOngoing, emit-IsOngoing}
use reliable_agent_runtime.Engine.Soundness.{IsModest, Laws, brings_end}
use reliable_agent_runtime.Engine.Turn.{
  TurnOutcome, TurnResult, blocked, breaks, completes, context_outcome, empty_turn, on_event,
  receive, run_model_turn,
}
use reliable_agent_runtime.Model.{
  Message, ModelEvent, ModelEventType, Request, completed, other_type, text_delta, tool_call, usage,
}
use reliable_agent_runtime.Worker.Events.{terminal_event}

-- The outcome of a turn that ends, with at most n tool calls.
abbrev pub EndsWithin : ℕ → TurnOutcome → Type 0
EndsWithin n (completes r) = length r.tool_calls ≤ n
EndsWithin n (breaks e) = Unit
EndsWithin n blocked = ⊥

context_outcome-EndsWithin : (n : ℕ) (e : Option EngineError) → EndsWithin n (context_outcome e)
unfolding context_outcome
context_outcome-EndsWithin n none = omega arith
context_outcome-EndsWithin n (some e) = tt

module _ (env : Environment) (limits : Limits) (modest : IsModest limits) (request : RunRequest)
    (laws : Laws env) where
  abbrev TurnOk : ℕ → Session env × TurnOutcome → Type 0
  TurnOk n r = IsOngoing env limits modest request r.0 × EndsWithin n r.1

  on_event-IsOngoing :
      (turn : ℤ) (type : ModelEventType) (event : ModelEvent) (result : TurnResult)
      (s : Session env)
      → IsOngoing env limits modest request s
      → IsOngoing env limits modest request (on_event env request turn type event result s).0
        × (length (on_event env request turn type event result s).1.tool_calls
            ≤ length result.tool_calls + 1)
  unfolding on_event
  on_event-IsOngoing turn text_delta event result s h = (
    emit-IsOngoing env limits modest request laws s h model_delta (delta_payload turn event.delta)
        none (unfold terminal_event in refl) tt,
    omega arith,
  )
  on_event-IsOngoing turn tool_call event result s h =
      (h, omega (arith, length-append result.tool_calls (event.call ∷ [])))
  on_event-IsOngoing turn usage event result s h = (h, omega arith)
  on_event-IsOngoing turn completed event result s h = (h, omega arith)
  on_event-IsOngoing turn (other_type _) event result s h = (h, omega arith)

  TurnOk-mono : {m n : ℕ} (r : Session env × TurnOutcome) → m ≤ n → TurnOk m r → TurnOk n r
  TurnOk-mono (s, completes r) le h = (h.0, omega (arith, le, h.1))
  TurnOk-mono (s, breaks e) le h = h
  TurnOk-mono (s, blocked) le h = h

  receive_lem :
      (turn : ℤ) (items : List Received) (events errors : Bool) (result : TurnResult)
      (s : Session env)
      → IsOngoing env limits modest request s
      → brings_end events errors items ≡ true
      → TurnOk
          (length result.tool_calls + length items)
          (receive env request turn items events errors result s)
  unfolding receive brings_end
  receive_lem turn items false false result s h e = (h, omega arith)
  receive_lem turn [] true errors result s h e = absurd (cc e)
  receive_lem turn [] false true result s h e = absurd (cc e)
  receive_lem turn (context_done x ∷ items) true errors result s h e = (h, tt)
  receive_lem turn (context_done x ∷ items) false true result s h e = (h, tt)
  receive_lem turn (model_event event ∷ items) false true result s h e =
      TurnOk-mono (receive env request turn (model_event event ∷ items) false true result s)
        (omega arith) (receive_lem turn items false true result s h e)
  receive_lem turn (model_event event ∷ items) true errors result s h e =
      let got = on_event env request turn event.type event result s in
      let (h', grown) = on_event-IsOngoing turn event.type event result s h in
      let rest : TurnOk (length got.1.tool_calls + length items)
          (receive env request turn items true errors got.1 got.0) =
        receive_lem turn items true errors got.1 got.0 h' e in
      go got.0 got.1 got.2 h' rest grown
    where
      go :
          (s' : Session env) (result' : TurnResult) (more : Bool)
          → IsOngoing env limits modest request s'
          → TurnOk
              (length result'.tool_calls + length items)
              (receive env request turn items true errors result' s')
          → length result'.tool_calls ≤ length result.tool_calls + 1
          → TurnOk (length result.tool_calls + suc (length items)) (elim more [
            | true ↦ receive env request turn items true errors result' s'
            | false ↦ (s', context_outcome (env.ctx_err s'.world))
          ])
      go s' result' true h' rest grown =
          TurnOk-mono (receive env request turn items true errors result' s') (omega (arith, grown))
            rest
      go s' result' false h' rest grown = (h', context_outcome-EndsWithin _ (env.ctx_err s'.world))
  receive_lem turn (events_closed ∷ items) true true result s h e =
      TurnOk-mono (receive env request turn items false true result s) (omega arith)
        (receive_lem turn items false true result s h e)
  receive_lem turn (events_closed ∷ items) true false result s h e = (h, omega arith)
  receive_lem turn (events_closed ∷ items) false true result s h e =
      TurnOk-mono (receive env request turn items false true result s) (omega arith)
        (receive_lem turn items false true result s h e)
  receive_lem turn (model_error x ∷ items) true false result s h e =
      TurnOk-mono (receive env request turn items true false result s) (omega arith)
        (receive_lem turn items true false result s h e)
  receive_lem turn (model_error x ∷ items) true true result s h e = (h, tt)
  receive_lem turn (model_error x ∷ items) false true result s h e = (h, tt)
  receive_lem turn (nil_error ∷ items) true errors result s h e =
      TurnOk-mono (receive env request turn items true errors result s) (omega arith)
        (receive_lem turn items true errors result s h e)
  receive_lem turn (nil_error ∷ items) false true result s h e =
      TurnOk-mono (receive env request turn items false true result s) (omega arith)
        (receive_lem turn items false true result s h e)
  receive_lem turn (errors_closed ∷ items) true errors result s h e =
      TurnOk-mono (receive env request turn items true false result s) (omega arith)
        (receive_lem turn items true false result s h e)
  receive_lem turn (errors_closed ∷ items) false true result s h e = (h, omega arith)

  -- A model turn ends, sends nothing that ends the run, and asks for fewer than 2^62 tools.
  pub run_model_turn_lem :
      (turn : ℤ) (messages : List Message) (s : Session env)
      → IsOngoing env limits modest request s
      → IsOngoing env limits modest request (run_model_turn env request turn messages s).0
        × EndsWithin (2 ^ 62 - 1) (run_model_turn env request turn messages s).1
  unfolding run_model_turn
  run_model_turn_lem turn messages s h =
      let asked : Request = record {
        run_id = request.run_id;
        turn = turn;
        messages = messages;
        tools = env.tool_definitions;
      } in
      let got = env.stream asked s.world in
      TurnOk-mono (receive env request turn got.0 true true empty_turn (record s { world = got.1 }))
        (omega (arith, laws.short asked s.world))
        (receive_lem turn got.0 true true empty_turn (record s { world = got.1 }) h
          (laws.ending asked s.world))
