-- ===== src/Engine/Rounds.antt =====
-- A round of the loop ends the run, or leads to a state that could be resumed.
use reliable_agent_runtime.Prelude.{
  Bool, Bool-cases, Option, Option-cases, add_int, add_int-pos, arith, false, inl, inr, length,
  ltb_ℤ, none, pos, refl, some, true, ℕ, ◌*◌, ◌+◌, ◌-◌, ◌^◌, ◌||◌, ◌≡◌, ◌≤◌,
}
use reliable_agent_runtime.Domain.{RunRequest, model_started, run_succeeded, usage_recorded}
use reliable_agent_runtime.Engine.Advance.{
  FitsPhase-turn, accounted-IsSound, is_empty-append, next_turn-IsSound,
}
use reliable_agent_runtime.Engine.Calls.{ToolsOk, execute_pending_tools_lem}
use reliable_agent_runtime.Engine.Emit.{succeed}
use reliable_agent_runtime.Engine.Endings.{
  emit_then, fail-IsFinished, give_up-IsFinished, terminate_context-IsFinished,
}
use reliable_agent_runtime.Engine.Environment.{
  Environment, Limits, Session, is_canceled, is_deadline, started_payload, usage_payload,
}
use reliable_agent_runtime.Engine.Fuel.{rounds_left, rounds_left-other, rounds_left-tools, within}
use reliable_agent_runtime.Engine.Loop.{
  Round, account, after_turn, continues, decide, exceeded_budget, is_tools, model_round, next_turn,
  one_round, plan_tools, returns, run_turn, tools_round, waits,
}
use reliable_agent_runtime.Engine.Outputs.{IsFinished, IsOngoing, emit-IsFinished}
use reliable_agent_runtime.Engine.Progress.{EndsWithin, run_model_turn_lem}
use reliable_agent_runtime.Engine.Soundness.{IsModest, IsSound, Laws}
use reliable_agent_runtime.Engine.State.{ExecutionState, is_empty}
use reliable_agent_runtime.Engine.Tools.{execute_pending_tools}
use reliable_agent_runtime.Engine.Turn.{TurnOutcome, TurnResult, blocked, breaks, completes}
use reliable_agent_runtime.Model.{add_usage, same_usage, zero_usage}
use reliable_agent_runtime.Worker.Events.{terminal_event}

module _ (env : Environment) (limits : Limits) (modest : IsModest limits) (request : RunRequest)
    (laws : Laws env) where
  abbrev Ongoing : Session env → Type 0
  Ongoing = IsOngoing env limits modest request

  abbrev Finished : Session env → Type 0
  Finished = IsFinished env limits modest request

  abbrev Sound : ExecutionState → Type 0
  Sound = IsSound limits modest request

  -- A round that ends the run, or after which n - 1 more are enough.
  abbrev pub RoundOk : ℕ → Round env limits request → Type 0
  RoundOk n (returns s) = Finished s
  RoundOk n (waits s) = ⊥
  RoundOk n (continues s st) =
      Ongoing s × ((h : Sound st) × (rounds_left st.phase h.t modest.turns + 1 ≤ n))

  plan_tools_lem :
      (s : Session env) (st : ExecutionState) (result : TurnResult) (h : Sound st)
      → Ongoing s
      → h.t ≤ modest.turns
      → is_empty result.tool_calls ≡ false
      → length result.tool_calls ≤ 2 ^ 62 - 1
      → RoundOk (2 * (modest.turns + 1 - h.t) + 1) (plan_tools env limits request s st result)
  unfolding plan_tools
  plan_tools_lem s st result h o below some_call few =
      elim (Bool-cases (
        ltb_ℤ limits.max_tool_calls
          (add_int st.tool_calls_used (pos (length result.tool_calls))))) [
            | inl over ↦ rw over (fail-IsFinished env limits modest request laws s _ o)
            | inr fits ↦ rw fits (
              o,
              (
                record {
                  versioned = h.versioned;
                  run = h.run;
                  checksum = h.checksum;
                  t = h.t;
                  turn = h.turn;
                  turn_pos = h.turn_pos;
                  u = h.u + length result.tool_calls;
                  used = total;
                  used_le = within modest.max_tool_calls total fits;
                  i = 0;
                  index = refl;
                  some_message = is_empty-append st.messages _;
                  few = omega (arith, few);
                  fits = (some_call, omega arith, below);
                },
                omega arith,
              ),
            )
          ]
    where
      total :
          add_int st.tool_calls_used (pos (length result.tool_calls))
          ≡ pos (h.u + length result.tool_calls)
      total = rw h.used (
          add_int-pos h.u (length result.tool_calls)
            (omega (arith, h.used_le, modest.calls_below, few)))

  decide_lem :
      (s : Session env) (st : ExecutionState) (result : TurnResult) (h : Sound st)
      → Ongoing s
      → h.t ≤ modest.turns
      → length result.tool_calls ≤ 2 ^ 62 - 1
      → RoundOk (2 * (modest.turns + 1 - h.t) + 1) (decide env limits request s st result)
  unfolding decide succeed
  decide_lem s st result h o below few = elim (Option-cases (exceeded_budget limits st.usage)) [
    | inr (e, over) ↦ rw (over, decide) (give_up-IsFinished env limits modest request laws s e o)
    | inl within_budget ↦
        rw (within_budget, decide)
          (elim (Option-cases result.final_output) [
            | inr (text, final) ↦ rw final (
                emit-IsFinished env limits modest request laws s o run_succeeded _
                  (unfold terminal_event in refl))
            | inl no_output ↦ rw no_output (elim (Bool-cases (is_empty result.tool_calls)) [
              | inl none_left ↦ rw none_left (fail-IsFinished env limits modest request laws s _ o)
              | inr some_call ↦ rw some_call (plan_tools_lem s st result h o below some_call few)
            ])
          ])
  ]

  account_lem :
      (s : Session env) (st : ExecutionState) (result : TurnResult) (h : Sound st)
      → Ongoing s
      → h.t ≤ modest.turns
      → length result.tool_calls ≤ 2 ^ 62 - 1
      → RoundOk (2 * (modest.turns + 1 - h.t) + 1) (account env limits request s st result)
  unfolding account accounted-IsSound
  account_lem s st result h o below few =
      let h' = accounted-IsSound limits modest request st h (add_usage st.usage result.used) in
      elim (Bool-cases (same_usage result.used zero_usage)) [
        | inl nothing ↦ rw nothing (decide_lem s _ result h' o below few)
        | inr something ↦
            rw something
              (elim (emit_then env limits modest request laws s usage_recorded
                (usage_payload st.turn result.used (add_usage st.usage result.used))
                (some (record st { usage = add_usage st.usage result.used })) o
                (unfold terminal_event in refl) h') [
                  | inl (took, o') ↦ rw took (decide_lem _ _ result h' o' below few)
                  | inr (refused, fin) ↦ rw refused fin
                ])
      ]

  after_turn_lem :
      (s : Session env) (st : ExecutionState) (outcome : TurnOutcome) (h : Sound st)
      → Ongoing s
      → h.t ≤ modest.turns
      → EndsWithin (2 ^ 62 - 1) outcome
      → RoundOk (2 * (modest.turns + 1 - h.t) + 1) (after_turn env limits request s st outcome)
  unfolding after_turn
  after_turn_lem s st (completes result) h o below few = account_lem s st result h o below few
  after_turn_lem s st (breaks e) h o below few =
      elim (Bool-cases (is_canceled e || is_deadline e)) [
        | inl context ↦
            rw context (terminate_context-IsFinished env limits modest request laws s e o)
        | inr not_context ↦ rw not_context (fail-IsFinished env limits modest request laws s e o)
      ]
  after_turn_lem s st blocked h o below few = few

  run_turn_lem :
      (s : Session env) (st : ExecutionState) (h : Sound st)
      → Ongoing s
      → h.t ≤ modest.turns
      → RoundOk (2 * (modest.turns + 1 - h.t) + 1) (run_turn env limits request s st)
  unfolding run_turn
  run_turn_lem s st h o below =
      let (o', few) = run_model_turn_lem env limits modest request laws st.turn st.messages s o in
      after_turn_lem _ st _ h o' below few

  model_round_lem :
      (s : Session env) (st : ExecutionState) (h : Sound st)
      → Ongoing s
      → RoundOk (2 * (modest.turns + 1 - h.t) + 1) (model_round env limits request s st)
  unfolding model_round
  model_round_lem s st h o = elim (Bool-cases (ltb_ℤ limits.max_turns st.turn)) [
    | inl over ↦ rw over (fail-IsFinished env limits modest request laws s _ o)
    | inr fits ↦
        rw fits
          (elim (emit_then env limits modest request laws s model_started
            (started_payload env.adapter_name st.turn) (some st) o (unfold terminal_event in refl)
            h) [
              | inl (took, o') ↦
                  rw took (run_turn_lem _ st h o' (within modest.max_turns h.turn fits))
              | inr (refused, fin) ↦ rw refused fin
            ])
  ]

  tools_round_lem :
      (s : Session env) (st : ExecutionState) (recovering : Bool) (h : Sound st)
      → Ongoing s
      → is_tools st.phase ≡ true
      → RoundOk (2 * (modest.turns + 1 - h.t)) (tools_round env limits request s st recovering)
  unfolding tools_round next_turn-IsSound next_turn
  tools_round_lem s st recovering h o tools =
      go (execute_pending_tools env request s st recovering)
        (execute_pending_tools_lem env limits modest request laws s st recovering h o tools)
    where
      go :
          (got : Session env × Option ExecutionState)
          → ToolsOk env limits modest request laws st.phase st.pending_tool_calls
              (length st.pending_tool_calls)
              h.t
              got
          → RoundOk (2 * (modest.turns + 1 - h.t)) (elim got.1 [
            | none ↦ returns got.0
            | some st' ↦ continues got.0 (next_turn env limits request st')
          ])
      go (s', none) fin = fin
      go (s', some st') (o', (h', i', t', p', c')) =
          let tools' : is_tools st'.phase ≡ true = rw p' tools in
          let below =
            FitsPhase-turn st.phase st.pending_tool_calls h.i h.t modest.turns tools h.fits in
          (
            o',
            (next_turn-IsSound limits modest request st' h' env tools', omega (arith, t', below)),
          )

  pub one_round_lem :
      (s : Session env) (st : ExecutionState) (recovering : Bool) (h : Sound st)
      → Ongoing s
      → RoundOk
          (rounds_left st.phase h.t modest.turns)
          (one_round env limits request s st recovering)
  unfolding one_round
  one_round_lem s st recovering h o = elim (Bool-cases (is_tools st.phase)) [
    | inl tools ↦
        rw (tools, rounds_left-tools st.phase h.t modest.turns tools)
          (tools_round_lem s st recovering h o tools)
    | inr not_tools ↦
        rw (not_tools, rounds_left-other st.phase h.t modest.turns not_tools)
          (model_round_lem s st h o)
  ]
