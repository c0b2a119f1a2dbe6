-- ===== src/Engine/Endings.antt =====
-- What the closures that send an event leave: the end of the run, or one that goes on.
use reliable_agent_runtime.Prelude.{Bool-cases, Option, false, inl, inr, refl, true, ◌≡◌, ◌⊎◌}
use reliable_agent_runtime.Domain.{
  EventType, RunRequest, cancelled, failed, inconclusive, run_cancelled, run_failed,
  run_inconclusive, run_timed_out, timed_out,
}
use reliable_agent_runtime.Engine.Emit.{emit, fail, failure, give_up, terminate_context}
use reliable_agent_runtime.Engine.Environment.{
  EngineError, Environment, Limits, Payload, Session, is_deadline,
}
use reliable_agent_runtime.Engine.Outputs.{
  IsFinished, IsOngoing, IsResumable, cut, emit-IsFinished, emit-IsOngoing, emit_refused,
  emit_terminal-IsFinished,
}
use reliable_agent_runtime.Engine.Soundness.{IsModest, IsSound, Laws}
use reliable_agent_runtime.Engine.State.{ExecutionState}
use reliable_agent_runtime.Worker.Events.{terminal_event}

module _ (env : Environment) (limits : Limits) (modest : IsModest limits) (request : RunRequest)
    (laws : Laws env) where
  abbrev Ongoing : Session env → Type 0
  Ongoing = IsOngoing env limits modest request

  abbrev Finished : Session env → Type 0
  Finished = IsFinished env limits modest request

  abbrev Sound : ExecutionState → Type 0
  Sound = IsSound limits modest request

  pub fail-IsFinished :
      (s : Session env) (e : EngineError) → Ongoing s → Finished (fail env request s e)
  unfolding fail
  fail-IsFinished s e h =
      emit-IsFinished env limits modest request laws s h run_failed (failure env request failed e)
        (unfold terminal_event in refl)

  pub give_up-IsFinished :
      (s : Session env) (e : EngineError) → Ongoing s → Finished (give_up env request s e)
  unfolding give_up
  give_up-IsFinished s e h =
      emit-IsFinished env limits modest request laws s h run_inconclusive
        (failure env request inconclusive e) (unfold terminal_event in refl)

  pub terminate_context-IsFinished :
      (s : Session env) (e : EngineError) → Ongoing s → Finished (terminate_context env request s e)
  unfolding terminate_context
  terminate_context-IsFinished s e h = elim (Bool-cases (is_deadline e)) [
    | inl late ↦ rw late (
        emit_terminal-IsFinished env limits modest request laws s h run_timed_out
          (failure env request timed_out e) (unfold terminal_event in refl))
    | inr on_time ↦ rw on_time (
        emit_terminal-IsFinished env limits modest request laws s h run_cancelled
          (failure env request cancelled e) (unfold terminal_event in refl))
  ]

  -- After an `emit` of an event that does not end the run: the caller goes on, or returns.
  pub emit_then :
      (s : Session env) (type : EventType) (payload : Payload) (checkpoint : Option ExecutionState)
      → Ongoing s
      → terminal_event type ≡ false
      → IsResumable env limits modest request checkpoint
      → (((emit env request s type payload checkpoint).1 ≡ true)
          × Ongoing (emit env request s type payload checkpoint).0)
        ⊎ (((emit env request s type payload checkpoint).1 ≡ false)
            × Finished (emit env request s type payload checkpoint).0)
  emit_then s type payload checkpoint h goes_on resumable =
      let h' =
        emit-IsOngoing env limits modest request laws s h type payload checkpoint goes_on
          resumable in
      elim (Bool-cases (emit env request s type payload checkpoint).1) [
        | inl took ↦ inl (took, h')
        | inr refused ↦ inr (
          refused,
          inl (
            cut h'.0
                (emit_refused env limits modest request laws s h type payload checkpoint refused),
            h'.1,
          ),
        )
      ]
