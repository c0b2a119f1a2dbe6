-- ===== src/Engine/Recovery.antt =====
-- Pending tool calls of a resumed run: only tools declared read-only are called again.
use reliable_agent_runtime.Prelude.{
  Bool-cases, List, Option, Option-cases, Result, String, [], ap, drop, err, inl, inr, none, ok,
  pos_part, some, true, ◌∷◌, ◌≡◌,
}
use reliable_agent_runtime.Domain.{
  EventType, RawMessage, RunRequest, cancelled, failed, inconclusive, run_cancelled, run_failed,
  run_inconclusive, run_timed_out, timed_out, tool_completed, tool_failed, tool_requested,
}
use reliable_agent_runtime.Engine.Emit.{
  emit, emit_terminal, fail, failure, give_up, item, terminate_context,
}
use reliable_agent_runtime.Engine.Environment.{
  EngineError, Environment, Payload, Session, completed_payload, failed_payload, is_deadline,
  message, requested_payload,
}
use reliable_agent_runtime.Engine.State.{ExecutionState, Output}
use reliable_agent_runtime.Engine.Tools.{
  after_call, after_tool, call_tool, execute_call, execute_calls, execute_pending_tools, may_replay,
  request_tool,
}
use reliable_agent_runtime.Model.{ToolCall}

-- What holds of the surroundings stays so, whatever is called but a tool that is not read-only.
pub record IsKept (env : Environment) (P : env.World → Type 0) : Type 0 where
  pub by_clock : (w : env.World) → P w → P (env.now w).1
  pub by_offer : (out : Output) (w : env.World) → P w → P (env.offer out w).1
  pub by_push : (out : Output) (w : env.World) → P w → P (env.push out w).1
  pub by_tool :
      (name : String) (arguments : RawMessage) (w : env.World)
      → env.read_only name ≡ some true
      → P w
      → P (env.execute_tool name arguments w).1

module _ (env : Environment) (request : RunRequest) (P : env.World → Type 0)
    (kept : IsKept env P) where
  emit_kept :
      (s : Session env) (type : EventType) (payload : Payload) (checkpoint : Option ExecutionState)
      → P s.world
      → P (emit env request s type payload checkpoint).0.world
  unfolding emit item
  emit_kept s type payload checkpoint p = kept.by_offer _ _ (kept.by_clock s.world p)

  fail_kept : (s : Session env) (e : EngineError) → P s.world → P (fail env request s e).world
  unfolding fail
  fail_kept s e p = emit_kept s run_failed (failure env request failed e) none p

  give_up_kept : (s : Session env) (e : EngineError) → P s.world → P (give_up env request s e).world
  unfolding give_up
  give_up_kept s e p = emit_kept s run_inconclusive (failure env request inconclusive e) none p

  emit_terminal_kept :
      (s : Session env) (type : EventType) (payload : Payload)
      → P s.world
      → P (emit_terminal env request s type payload).world
  unfolding emit_terminal item
  emit_terminal_kept s type payload p = kept.by_push _ _ (kept.by_clock s.world p)

  terminate_context_kept :
      (s : Session env) (e : EngineError) → P s.world → P (terminate_context env request s e).world
  unfolding terminate_context
  terminate_context_kept s e p = elim (Bool-cases (is_deadline e)) [
    | inl late ↦ rw late (emit_terminal_kept s run_timed_out (failure env request timed_out e) p)
    | inr on_time ↦
        rw on_time (emit_terminal_kept s run_cancelled (failure env request cancelled e) p)
  ]

  after_tool_kept :
      (s : Session env) (st : ExecutionState) (call : ToolCall) (r : Result EngineError String)
      → P s.world
      → P (after_tool env request s st call r).0.world
  unfolding after_tool
  after_tool_kept s st call (err e) p = elim (Option-cases (env.ctx_err s.world)) [
    | inr (stopped, e') ↦ rw (e', after_tool) (terminate_context_kept s stopped p)
    | inl no_error ↦
        rw (no_error, after_tool)
          (fail_kept _ _ (emit_kept s tool_failed (failed_payload call (message e)) none p))
  ]
  after_tool_kept s st call (ok content) p =
      emit_kept s tool_completed (completed_payload call content)
        (some (after_call st call content)) p

  may_replay-read_only :
      (name : String) → may_replay env request name ≡ true → env.read_only name ≡ some true
  unfolding may_replay
  may_replay-read_only name may = elim (Option-cases (env.read_only name)) [
    | inl unknown ↦ absurd (cc (rw (unknown, may_replay) at may))
    | inr (flag, known) ↦ rw known (ap some (rw (known, may_replay) at may))
  ]

  request_tool_kept :
      (s : Session env) (st : ExecutionState) (call : ToolCall)
      → env.read_only call.name ≡ some true
      → P s.world
      → P (request_tool env request s st call).0.world
  unfolding request_tool call_tool
  request_tool_kept s st call may p =
      let p' = emit_kept s tool_requested (requested_payload call) (some st) p in
      elim (Bool-cases (emit env request s tool_requested (requested_payload call) (some st)).1) [
        | inl took ↦
            rw (took, request_tool)
              (after_tool_kept _ st call _ (kept.by_tool call.name call.arguments _ may p'))
        | inr refused ↦ rw (refused, request_tool) p'
      ]

  execute_call_kept :
      (s : Session env) (st : ExecutionState) (call : ToolCall)
      → P s.world
      → P (execute_call env request s st true call).0.world
  unfolding execute_call
  execute_call_kept s st call p = elim (Bool-cases (may_replay env request call.name)) [
    | inl may ↦ rw may (request_tool_kept s st call (may_replay-read_only call.name may) p)
    | inr never ↦ rw never (give_up_kept s _ p)
  ]

  execute_calls_kept :
      (calls : List ToolCall) (s : Session env) (st : ExecutionState)
      → P s.world
      → P (execute_calls env request calls s st true).0.world
  unfolding execute_calls
  execute_calls_kept [] s st p = p
  execute_calls_kept (call ∷ calls) s st p =
      go (λ s' st'. execute_calls_kept calls s' st') (execute_call env request s st true call)
        (execute_call_kept s st call p)
    where
      go :
          ((s' : Session env) (st' : ExecutionState)
            → P s'.world
            → P (execute_calls env request calls s' st' true).0.world)
          → (got : Session env × Option ExecutionState) → P got.0.world
          → P
              (elim got.1 as (λ _. Session env × Option ExecutionState) [
                | none ↦ (got.0, none)
                | some st' ↦ execute_calls env request calls got.0 st' true
              ]).0.world
      go rest (s', none) p' = p'
      go rest (s', some st') p' = rest s' st' p'

  -- Whatever holds of the surroundings, and is kept by the clock, by sending an output and by tools
  -- that are registered and read-only, still holds when the pending calls of a resumed run have been
  -- made: no other tool was called again.
  pub execute_pending_tools_kept :
      (s : Session env) (st : ExecutionState)
      → P s.world
      → P (execute_pending_tools env request s st true).0.world
  unfolding execute_pending_tools
  execute_pending_tools_kept s st p =
      execute_calls_kept (drop (pos_part st.next_tool_index) st.pending_tool_calls) s st p
