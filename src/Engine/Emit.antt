-- ===== src/Engine/Emit.antt =====
-- internal/engine/engine.go: the closures of `Execute` that send events.
use reliable_agent_runtime.Prelude.{
  Bool, Option, String, [], if◌then◌else◌, none, not, u64, ◌++◌, ◌+◌, ◌||◌, ◌∷◌,
}
use reliable_agent_runtime.Domain.{
  EventType, RunRequest, RunStatus, cancelled, failed, inconclusive, run_cancelled, run_failed,
  run_inconclusive, run_succeeded, run_timed_out, succeeded, timed_out,
}
use reliable_agent_runtime.Engine.Environment.{
  EngineError, Environment, Payload, Session, is_deadline, message, result_payload,
}
use reliable_agent_runtime.Engine.State.{ExecutionState, Output}

module _ (env : Environment) (request : RunRequest) where
  -- The event of the next number, with the time of the clock.
  unfoldable pub item :
      Session env → EventType → Payload → Option ExecutionState → Output × env.World
  item s type payload checkpoint =
      let (at_time, world) = env.now s.world in
      (
        record {
          event = record {
            run_id = request.run_id;
            sequence = u64 (s.sequence + 1);
            type = type;
            occurred_at = at_time;
            payload = env.encode payload;
          };
          checkpoint = checkpoint;
        },
        world,
      )

  -- The counter is raised whether or not the item is sent.
  unfoldable pub emit :
      Session env → EventType → Payload → Option ExecutionState → Session env × Bool
  emit s type payload checkpoint =
      let (out, world) = item s type payload checkpoint in
      let (took, world') = env.offer out world in
      (
        record {
          world = world';
          sequence = u64 (s.sequence + 1);
          sent = if took then s.sent ++ out ∷ [] else s.sent;
          stuck = s.stuck;
        },
        took,
      )

  -- All callers return behind it, so a goroutine that is stuck here does nothing more.
  unfoldable pub emit_terminal : Session env → EventType → Payload → Session env
  emit_terminal s type payload =
      let (out, world) = item s type payload none in
      let (took, world') = env.push out world in
      record {
        world = world';
        sequence = u64 (s.sequence + 1);
        sent = if took then s.sent ++ out ∷ [] else s.sent;
        stuck = s.stuck || not took;
      }

  abbrev pub failure : RunStatus → EngineError → Payload
  failure status e = result_payload (record { status = status; output = ""; error = message e })

  unfoldable pub fail : Session env → EngineError → Session env
  fail s e = (emit s run_failed (failure failed e) none).0

  unfoldable pub give_up : Session env → EngineError → Session env
  give_up s e = (emit s run_inconclusive (failure inconclusive e) none).0

  unfoldable pub succeed : Session env → String → Session env
  succeed s text =
      (emit s run_succeeded
        (result_payload (record { status = succeeded; output = text; error = "" })) none).0

  unfoldable pub terminate_context : Session env → EngineError → Session env
  terminate_context s e =
      if is_deadline e
      then emit_terminal s run_timed_out (failure timed_out e)
      else emit_terminal s run_cancelled (failure cancelled e)
