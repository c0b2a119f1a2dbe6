-- ===== src/Engine/Calls.antt =====
-- The tool calls of a state are all made, in their order, or the run ends.
use reliable_agent_runtime.Prelude.{
  Bool, Bool-cases, List, Option, Option-cases, Result, String, [], ap, arith, drop, err, inl, inr,
  length, length-drop, none, not, ok, pos_part, refl, some, sym, true, ℕ, ◌&&◌, ◌+◌, ◌<◌, ◌∷◌, ◌≡◌,
}
use reliable_agent_runtime.Domain.{RunRequest, tool_completed, tool_failed, tool_requested}
use reliable_agent_runtime.Engine.Advance.{advanced-IsSound}
use reliable_agent_runtime.Engine.Emit.{emit}
use reliable_agent_runtime.Engine.Endings.{
  emit_then, fail-IsFinished, give_up-IsFinished, terminate_context-IsFinished,
}
use reliable_agent_runtime.Engine.Environment.{
  EngineError, Environment, Limits, Session, completed_payload, failed_payload, message,
  requested_payload,
}
use reliable_agent_runtime.Engine.Loop.{is_tools}
use reliable_agent_runtime.Engine.Outputs.{IsFinished, IsOngoing, emit-IsOngoing}
use reliable_agent_runtime.Engine.Soundness.{FitsPhase-index, IsModest, IsSound, Laws}
use reliable_agent_runtime.Engine.State.{ExecutionState, Phase}
use reliable_agent_runtime.Engine.Tools.{
  after_call, after_tool, call_tool, execute_call, execute_calls, execute_pending_tools, may_replay,
  request_tool, tool_message,
}
use reliable_agent_runtime.Model.{ToolCall}
use reliable_agent_runtime.Schema.Values.{below}
use reliable_agent_runtime.Worker.Events.{terminal_event}

module _ (env : Environment) (limits : Limits) (modest : IsModest limits) (request : RunRequest)
    (laws : Laws env) where
  abbrev Ongoing : Session env → Type 0
  Ongoing = IsOngoing env limits modest request

  abbrev Finished : Session env → Type 0
  Finished = IsFinished env limits modest request

  abbrev Sound : ExecutionState → Type 0
  Sound = IsSound limits modest request

  -- What tool calls leave: the end of the run, or a state in the same turn with that next index.
  abbrev pub ToolsOk : Phase → List ToolCall → ℕ → ℕ → Session env × Option ExecutionState → Type 0
  ToolsOk p pending i t (s, none) = Finished s
  ToolsOk p pending i t (s, some st) =
      Ongoing s
      × ((h : Sound st) × (h.i ≡ i)
          × (h.t ≡ t)
          × (st.phase ≡ p)
          × (st.pending_tool_calls ≡ pending))

  after_tool_lem :
      (s : Session env) (st : ExecutionState) (call : ToolCall) (r : Result EngineError String)
      (h : Sound st)
      → Ongoing s
      → is_tools st.phase ≡ true
      → h.i < length st.pending_tool_calls
      → ToolsOk st.phase st.pending_tool_calls (h.i + 1) h.t (after_tool env request s st call r)
  unfolding after_tool advanced-IsSound
  after_tool_lem s st call (err e) h o tools below = elim (Option-cases (env.ctx_err s.world)) [
    | inr (stopped, e') ↦
        rw (e', after_tool)
          (terminate_context-IsFinished env limits modest request laws s stopped o)
    | inl no_error ↦
        rw (no_error, after_tool)
          (fail-IsFinished env limits modest request laws
            (emit env request s tool_failed (failed_payload call (message e)) none).0 _
            (emit-IsOngoing env limits modest request laws s o tool_failed
              (failed_payload call (message e)) none (unfold terminal_event in refl) tt))
  ]
  after_tool_lem s st call (ok content) h o tools below =
      let h' =
        advanced-IsSound limits modest request st h (tool_message call content) tools below in
      elim (emit_then env limits modest request laws s tool_completed
        (completed_payload call content) (some (after_call st call content)) o
        (unfold terminal_event in refl) h') [
          | inl (took, o') ↦ rw (took, after_tool) (o', (h', refl, refl, refl, refl))
          | inr (refused, fin) ↦ rw (refused, after_tool) fin
        ]

  request_tool_lem :
      (s : Session env) (st : ExecutionState) (call : ToolCall) (h : Sound st)
      → Ongoing s
      → is_tools st.phase ≡ true
      → h.i < length st.pending_tool_calls
      → ToolsOk st.phase st.pending_tool_calls (h.i + 1) h.t (request_tool env request s st call)
  unfolding request_tool call_tool
  request_tool_lem s st call h o tools below =
      elim (emit_then env limits modest request laws s tool_requested (requested_payload call)
        (some st) o (unfold terminal_event in refl) h) [
          | inl (took, o') ↦ rw (took, request_tool) (after_tool_lem _ st call _ h o' tools below)
          | inr (refused, fin) ↦ rw (refused, request_tool) fin
        ]

  execute_call_lem :
      (s : Session env) (st : ExecutionState) (recovering : Bool) (call : ToolCall) (h : Sound st)
      → Ongoing s
      → is_tools st.phase ≡ true
      → h.i < length st.pending_tool_calls
      → ToolsOk st.phase st.pending_tool_calls
          (h.i + 1)
          h.t
          (execute_call env request s st recovering call)
  unfolding execute_call
  execute_call_lem s st recovering call h o tools below =
      elim (Bool-cases (recovering && not (may_replay env request call.name))) [
        | inl unsafe ↦ rw unsafe (give_up-IsFinished env limits modest request laws s _ o)
        | inr safe ↦ rw safe (request_tool_lem s st call h o tools below)
      ]

  same_place :
      {p p' : Phase} {c c' : List ToolCall} {t t' : ℕ} (got : Session env × Option ExecutionState)
      → p' ≡ p
      → c' ≡ c
      → t' ≡ t
      → ToolsOk p' c' (length c') t' got
      → ToolsOk p c (length c) t got
  same_place got ep ec et ok' = rw (sym ep, sym ec, sym et) ok'

  execute_calls_lem :
      (calls : List ToolCall) (s : Session env) (st : ExecutionState) (recovering : Bool)
      (h : Sound st)
      → Ongoing s
      → is_tools st.phase ≡ true
      → h.i + length calls ≡ length st.pending_tool_calls
      → ToolsOk st.phase st.pending_tool_calls
          (length st.pending_tool_calls)
          h.t
          (execute_calls env request calls s st recovering)
  unfolding execute_calls
  execute_calls_lem [] s st recovering h o tools e = (o, (h, omega (arith, e), refl, refl, refl))
  execute_calls_lem (call ∷ calls) s st recovering h o tools e =
      go (λ s' st'. execute_calls_lem calls s' st' recovering)
        (execute_call env request s st recovering call)
        (execute_call_lem s st recovering call h o tools (omega (arith, e)))
    where
      go :
          ((s' : Session env) (st' : ExecutionState) (h' : Sound st')
            → Ongoing s'
            → is_tools st'.phase ≡ true
            → h'.i + length calls ≡ length st'.pending_tool_calls
            → ToolsOk st'.phase st'.pending_tool_calls
                (length st'.pending_tool_calls)
                h'.t
                (execute_calls env request calls s' st' recovering))
          → (got : Session env × Option ExecutionState)
          → ToolsOk st.phase st.pending_tool_calls (h.i + 1) h.t got
          → ToolsOk st.phase st.pending_tool_calls (length st.pending_tool_calls) h.t (elim got.1 [
            | none ↦ (got.0, none)
            | some st' ↦ execute_calls env request calls got.0 st' recovering
          ])
      go rest (s', none) fin = fin
      go rest (s', some st') (o', (h', i', t', p', c')) =
          same_place (execute_calls env request calls s' st' recovering) p' c' t'
            (rest s' st' h' o' (rw p' tools) (rw (i', c') (omega (arith, e))))

  -- Pending calls are all made, in their order, or the run ends.
  pub execute_pending_tools_lem :
      (s : Session env) (st : ExecutionState) (recovering : Bool) (h : Sound st)
      → Ongoing s
      → is_tools st.phase ≡ true
      → ToolsOk st.phase st.pending_tool_calls
          (length st.pending_tool_calls)
          h.t
          (execute_pending_tools env request s st recovering)
  unfolding execute_pending_tools
  execute_pending_tools_lem s st recovering h o tools = rw (ap pos_part h.index) (
      execute_calls_lem (drop h.i st.pending_tool_calls) s st recovering h o tools (
        omega (
          arith,
          length-drop h.i st.pending_tool_calls,
          FitsPhase-index st.phase st.pending_tool_calls h.i h.t modest.turns h.fits,
        )))
