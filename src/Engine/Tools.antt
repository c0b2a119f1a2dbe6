-- ===== src/Engine/Tools.antt =====
-- internal/engine/engine.go: `executePendingTools`.

use Prim.Native.String.{◌++◌ as append_str}
use reliable_agent_runtime.Prelude.{
  Bool, List, Option, Result, String, [], add_int, drop, err, false, if◌then◌else◌, none, not, ok,
  pos, pos_part, some, ◌&&◌, ◌++◌, ◌∷◌,
}
use reliable_agent_runtime.Domain.{RunRequest, tool_completed, tool_failed, tool_requested}
use reliable_agent_runtime.Engine.Emit.{emit, fail, give_up, terminate_context}
use reliable_agent_runtime.Engine.Environment.{
  EngineError, Environment, Session, completed_payload, failed_payload, message, requested_payload,
  suffixed, unsafe_tool_recovery, wrapped,
}
use reliable_agent_runtime.Engine.State.{ExecutionState}
use reliable_agent_runtime.Model.{Message, ToolCall}

abbrev pub tool_message : ToolCall → String → Message
tool_message call content = record {
  role = "tool";
  content = content;
  tool_call_id = call.id;
  tool_name = call.name;
  tool_calls = [];
}

-- The state that a result leaves.
abbrev pub after_call : ExecutionState → ToolCall → String → ExecutionState
after_call state call content = record state {
  messages = state.messages ++ tool_message call content ∷ [];
  next_tool_index = add_int state.next_tool_index (pos 1);
}

module _ (env : Environment) (request : RunRequest) where
  -- `exists && definition.ReadOnly`
  unfoldable pub may_replay : String → Bool
  may_replay name = elim (env.read_only name) [ none ↦ false | some flag ↦ flag ]

  -- After the tool has returned. `none` means that the run is over.
  unfoldable pub after_tool :
      Session env
      → ExecutionState
      → ToolCall
      → Result EngineError String
      → Session env × Option ExecutionState
  after_tool s state call (err e) = elim (env.ctx_err s.world) [
    | some stopped ↦ (terminate_context env request s stopped, none)
    | none ↦
        let (s', _) = emit env request s tool_failed (failed_payload call (message e)) none in
        (
          fail env request s' (wrapped (append_str "execute tool " (append_str call.name ": ")) e),
          none,
        )
  ]
  after_tool s state call (ok content) =
      let (s', took) =
        emit env request s tool_completed (completed_payload call content)
          (some (after_call state call content)) in
      (s', if took then some (after_call state call content) else none)

  unfoldable pub call_tool :
      Session env → ExecutionState → ToolCall → Session env × Option ExecutionState
  unfolding after_tool
  call_tool s state call =
      let (result, world) = env.execute_tool call.name call.arguments s.world in
      after_tool (record s { world = world }) state call result

  unfoldable pub request_tool :
      Session env → ExecutionState → ToolCall → Session env × Option ExecutionState
  unfolding call_tool
  request_tool s state call =
      let (s', took) = emit env request s tool_requested (requested_payload call) (some state) in
      if took then call_tool s' state call else (s', none)

  -- One round of the loop.
  unfoldable pub execute_call :
      Session env → ExecutionState → Bool → ToolCall → Session env × Option ExecutionState
  unfolding request_tool may_replay
  execute_call s state recovering call =
      if recovering && not (may_replay call.name)
      then (give_up env request s (suffixed unsafe_tool_recovery call.name), none)
      else request_tool s state call

  -- The loop over the calls from NextToolIndex on, which each round moves by one.
  unfoldable pub execute_calls :
      List ToolCall → Session env → ExecutionState → Bool → Session env × Option ExecutionState
  execute_calls [] s state recovering = (s, some state)
  execute_calls (call ∷ calls) s state recovering =
      let (s', next) = execute_call s state recovering call in
      elim next [ none ↦ (s', none) | some state' ↦ execute_calls calls s' state' recovering ]

  unfoldable pub execute_pending_tools :
      Session env → ExecutionState → Bool → Session env × Option ExecutionState
  execute_pending_tools s state recovering =
      execute_calls (drop (pos_part state.next_tool_index) state.pending_tool_calls) s state
        recovering
