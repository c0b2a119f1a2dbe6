-- ===== src/Engine/Outputs.antt =====
-- What an execution has sent: events that do not end the run, and one that does, at the very end.
use reliable_agent_runtime.Prelude.{
  All, All-append, Bool, Bool-cases, List, Option, [], false, if◌then◌else◌, inl, inr, none, some,
  true, ◌++◌, ◌∷◌, ◌≡◌, ◌≢◌, ◌⊎◌,
}
use reliable_agent_runtime.Domain.{EventType, RunRequest}
use reliable_agent_runtime.Engine.Emit.{emit, emit_terminal, item}
use reliable_agent_runtime.Engine.Environment.{Environment, Limits, Payload, Session}
use reliable_agent_runtime.Engine.Soundness.{IsModest, IsSound, Laws}
use reliable_agent_runtime.Engine.State.{ExecutionState, Output}
use reliable_agent_runtime.Worker.Events.{terminal_event}

module _ (env : Environment) (limits : Limits) (modest : IsModest limits)
    (request : RunRequest) where
  abbrev pub IsResumable : Option ExecutionState → Type 0
  IsResumable none = Unit
  IsResumable (some st) = IsSound limits modest request st

  -- An event before the end: its checkpoint, if it has one, can be resumed.
  pub record IsIntermediate (out : Output) : Type 0 where
    pub goes_on : terminal_event out.event.type ≡ false
    pub resumable : IsResumable out.checkpoint

  abbrev pub IsOngoing : Session env → Type 0
  IsOngoing s = All IsIntermediate s.sent × (s.stuck ≡ false)

  -- The execution has sent its last event: or its context is done.
  pub data IsClosed (s : Session env) : Type 0 where
    cut : All IsIntermediate s.sent → env.ctx_err s.world ≢ none → IsClosed s
    closed_by :
        (before : List Output) (last : Output)
        → s.sent ≡ before ++ last ∷ []
        → All IsIntermediate before
        → terminal_event last.event.type ≡ true
        → IsClosed s

  -- The execution waits in the plain send of an event that ends the run, which is never taken.
  pub record IsStranded (s : Session env) : Type 0 where
    pub before : All IsIntermediate s.sent
    pub last : Output
    pub closing : terminal_event last.event.type ≡ true
    pub at_world : env.World
    pub untaken : (env.push last at_world).0 ≡ false

  abbrev pub IsFinished : Session env → Type 0
  IsFinished s = (IsClosed s × (s.stuck ≡ false)) ⊎ (IsStranded s × (s.stuck ≡ true))

  module _ (laws : Laws env) (s : Session env) (ongoing : IsOngoing s) (type : EventType)
      (payload : Payload) where
    pub emit-IsOngoing :
        (checkpoint : Option ExecutionState)
        → terminal_event type ≡ false
        → IsResumable checkpoint
        → IsOngoing (emit env request s type payload checkpoint).0
    unfolding emit item
    emit-IsOngoing checkpoint goes_on resumable = (
      added_if
          (env.offer (item env request s type payload checkpoint).0
            (item env request s type payload checkpoint).1).0,
      ongoing.1,
    )
      where
        out : Output
        out = (item env request s type payload checkpoint).0

        added_if : (took : Bool) → All IsIntermediate (if took then s.sent ++ out ∷ [] else s.sent)
        added_if true =
            All-append IsIntermediate s.sent (out ∷ []) ongoing.0
              (record { goes_on = goes_on; resumable = resumable }, tt)
        added_if false = ongoing.0

    pub emit_refused :
        (checkpoint : Option ExecutionState)
        → (emit env request s type payload checkpoint).1 ≡ false
        → env.ctx_err (emit env request s type payload checkpoint).0.world ≢ none
    unfolding emit
    emit_refused checkpoint refused = laws.done _ _ refused

    pub emit-IsFinished :
        terminal_event type ≡ true → IsFinished (emit env request s type payload none).0
    unfolding emit item
    emit-IsFinished closing = elim (Bool-cases (emit env request s type payload none).1) [
      | inl took ↦ inl (
        closed_by s.sent (item env request s type payload none).0 (rw took) ongoing.0 closing,
        ongoing.1,
      )
      | inr refused ↦ inl (cut (rw refused ongoing.0) (laws.done _ _ refused), ongoing.1)
    ]

    pub emit_terminal-IsFinished :
        terminal_event type ≡ true → IsFinished (emit_terminal env request s type payload)
    unfolding emit_terminal item
    emit_terminal-IsFinished closing =
        let (out, w) = item env request s type payload none in
        elim (Bool-cases (env.push out w).0) [
          | inl took ↦ inl (closed_by s.sent out (rw took) ongoing.0 closing, rw (took, ongoing.1))
          | inr untaken ↦ inr (
            record {
              before = rw untaken ongoing.0;
              last = out;
              closing = closing;
              at_world = w;
              untaken = untaken;
            },
            rw (untaken, ongoing.1),
          )
        ]
