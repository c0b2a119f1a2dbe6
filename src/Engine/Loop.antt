-- ===== src/Engine/Loop.antt =====
-- internal/engine/engine.go: `Execute`, `Run` and the checks that they make first.
use reliable_agent_runtime.Prelude.{
  Bool, List, Option, [], add_int, false, if◌then◌else◌, leb_ℤ, length, ltb_ℤ, map, none, not, pos,
  pos_part, some, suc, true, zero, ℕ, ℤ, ◌&&◌, ◌*◌, ◌++◌, ◌+◌, ◌==◌, ◌||◌, ◌∷◌,
}
use reliable_agent_runtime.Domain.{RunEvent, RunRequest, model_started, run_created, usage_recorded}
use reliable_agent_runtime.Engine.Emit.{emit, fail, give_up, succeed, terminate_context}
use reliable_agent_runtime.Engine.Environment.{
  EngineError, Environment, Limits, Session, cost_exceeded, created_payload, empty_model_turn,
  input_tokens_exceeded, invalid_request, invalid_state, is_canceled, is_deadline,
  max_tool_calls_exceeded, max_turns_exceeded, output_tokens_exceeded, started_payload,
  usage_payload,
}
use reliable_agent_runtime.Engine.State.{
  ExecutionState, Phase, initial_state, is_empty, model_phase, tools_phase, validate_state,
}
use reliable_agent_runtime.Engine.Tools.{execute_pending_tools}
use reliable_agent_runtime.Engine.Turn.{
  TurnOutcome, TurnResult, blocked, breaks, completes, run_model_turn,
}
use reliable_agent_runtime.Model.{Usage, add_usage, same_usage, zero_usage}

-- validate: the fields that a request must have.
unfoldable pub validate : RunRequest → Bool
validate request = not (
    request.run_id == ""
    || request.tenant_id == ""
    || request.idempotency_key == ""
    || request.manifest.release_id == ""
    || request.manifest.checksum == ""
    || request.input == "")

-- The check of the engine's own limits.
unfoldable pub sound_limits : Limits → Bool
sound_limits limits = not (
    leb_ℤ limits.max_turns (pos 0)
    || ltb_ℤ limits.max_tool_calls (pos 0)
    || ltb_ℤ limits.max_input_tokens (pos 0)
    || ltb_ℤ limits.max_output_tokens (pos 0)
    || ltb_ℤ limits.max_cost_micros (pos 0))

abbrev exceeds : ℤ → ℤ → Bool
exceeds limit value = ltb_ℤ (pos 0) limit && ltb_ℤ limit value

unfoldable pub exceeded_budget : Limits → Usage → Option EngineError
exceeded_budget limits spent =
    if exceeds limits.max_input_tokens spent.input_tokens
    then some input_tokens_exceeded
    else if exceeds limits.max_output_tokens spent.output_tokens
    then some output_tokens_exceeded
    else if exceeds limits.max_cost_micros spent.cost_micros
    then some cost_exceeded
    else none

abbrev pub is_tools : Phase → Bool
is_tools tools_phase = true
is_tools _ = false

module _ (env : Environment) (limits : Limits) (request : RunRequest) where
  -- How one round of the loop ends: the goroutine returns, goes on, or waits for ever.
  pub data Round : Type 0 where
    returns : Session env → Round
    continues : Session env → ExecutionState → Round
    waits : Session env → Round

  -- The calls are taken into the state, if there is room for them.
  unfoldable pub plan_tools : Session env → ExecutionState → TurnResult → Round
  plan_tools s state result =
      let used = add_int state.tool_calls_used (pos (length result.tool_calls)) in
      if ltb_ℤ limits.max_tool_calls used
      then returns (fail env request s max_tool_calls_exceeded)
      else continues s (record state {
        tool_calls_used = used;
        messages =
            state.messages
            ++ record {
              role = "assistant";
              content = result.assistant_text;
              tool_call_id = "";
              tool_name = "";
              tool_calls = result.tool_calls;
            }
              ∷ [];
        phase = tools_phase;
        pending_tool_calls = result.tool_calls;
        next_tool_index = pos 0;
      })

  -- What the turn decides, once its usage is within the budget.
  unfoldable pub decide : Session env → ExecutionState → TurnResult → Round
  decide s state result = elim (exceeded_budget limits state.usage) [
    | some e ↦ returns (give_up env request s e)
    | none ↦ elim result.final_output [
      | some text ↦ returns (succeed env request s text)
      | none ↦
          if is_empty result.tool_calls
          then returns (fail env request s empty_model_turn)
          else plan_tools s state result
    ]
  ]

  -- The usage of the turn is added, and recorded if there is any.
  unfoldable pub account : Session env → ExecutionState → TurnResult → Round
  account s state result =
      let state' = record state { usage = add_usage state.usage result.used } in
      if same_usage result.used zero_usage
      then decide s state' result
      else let (s', took) =
          emit env request s usage_recorded (usage_payload state.turn result.used state'.usage)
            (some state') in
        if took then decide s' state' result else returns s'

  -- After `runModelTurn`.
  unfoldable pub after_turn : Session env → ExecutionState → TurnOutcome → Round
  after_turn s state (completes result) = account s state result
  after_turn s state (breaks e) =
      if is_canceled e || is_deadline e
      then returns (terminate_context env request s e)
      else returns (fail env request s e)
  after_turn s state blocked = waits s

  -- After MODEL_STARTED has been taken.
  unfoldable pub run_turn : Session env → ExecutionState → Round
  run_turn s state =
      let (s', outcome) = run_model_turn env request state.turn state.messages s in
      after_turn s' state outcome

  unfoldable pub model_round : Session env → ExecutionState → Round
  model_round s state =
      if ltb_ℤ limits.max_turns state.turn
      then returns (fail env request s max_turns_exceeded)
      else (let (s', took) =
            emit env request s model_started (started_payload env.adapter_name state.turn)
              (some state) in
          if took then run_turn s' state else returns s')

  -- The state after all pending calls have been made.
  unfoldable pub next_turn : ExecutionState → ExecutionState
  next_turn state = record state {
    phase = model_phase;
    pending_tool_calls = [];
    next_tool_index = pos 0;
    turn = add_int state.turn (pos 1);
  }

  unfoldable pub tools_round : Session env → ExecutionState → Bool → Round
  tools_round s state recovering =
      let (s', next) = execute_pending_tools env request s state recovering in
      elim next [ none ↦ returns s' | some state' ↦ continues s' (next_turn state') ]

  unfoldable pub one_round : Session env → ExecutionState → Bool → Round
  one_round s state recovering =
      if is_tools state.phase then tools_round s state recovering else model_round s state

  -- How the goroutine ends. `out_of_fuel` is of the model alone.
  pub data Ending : Type 0 where
    closes : Session env → Ending
    never_closes : Session env → Ending
    out_of_fuel : Ending

  -- The goroutine returns and closes its channel, unless it waits in a send.
  abbrev pub leave : Session env → Ending
  leave s = if s.stuck then never_closes s else closes s

  -- `recoveringTools` is reset when the tools of the first round are done.
  unfoldable pub run_loop : ℕ → Session env → ExecutionState → Bool → Ending
  run_loop zero s state recovering = out_of_fuel
  run_loop (suc fuel) s state recovering = elim (one_round s state recovering) [
    | returns s' ↦ leave s'
    | waits s' ↦ never_closes s'
    | continues s' state' ↦ run_loop fuel s' state' (recovering && not (is_tools state.phase))
  ]

  -- RUN_CREATED is sent on a first attempt only; false if it was not taken.
  unfoldable pub announce : Session env → Bool → Session env × Bool
  announce s true = (s, true)
  announce s false =
      emit env request s run_created (created_payload request.manifest.release_id request.mode) none

  -- The part of `Execute` after the state has been chosen.
  unfoldable pub execute_from : ℕ → Session env → ExecutionState → Bool → Ending
  execute_from fuel s state resumed =
      if not (validate request) || not (sound_limits limits)
      then leave (fail env request s invalid_request)
      else if not (validate_state state request)
      then leave (fail env request s invalid_state)
      else elim (env.ctx_err s.world) [
        | some e ↦ leave (terminate_context env request s e)
        | none ↦
            let (s', took) = announce s resumed in
            if took then run_loop fuel s' state (resumed && is_tools state.phase) else leave s'
      ]

  abbrev pub new_session : env.World → Session env
  new_session world = record { world = world; sequence = 0; sent = []; stuck = false }

  -- `Execute`, with the rounds that its loop may take.
  unfoldable pub execute : ℕ → env.World → Option ExecutionState → Ending
  execute fuel world none = execute_from fuel (new_session world) (initial_state request) false
  execute fuel world (some checkpoint) = execute_from fuel (new_session world) checkpoint true

  -- Rounds that are enough for these limits.
  unfoldable pub enough_rounds : ℕ
  enough_rounds = 2 * pos_part limits.max_turns + 3

  -- `Run`: the events of an execution with no checkpoint.
  unfoldable pub run_events : Session env → List RunEvent
  run_events s = map (λ out. out.event) s.sent
