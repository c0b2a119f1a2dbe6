-- ===== src/Scenarios/Agent.antt =====
-- An agent that calls one tool and then answers; and one that is resumed before the call.
use reliable_agent_runtime.Prelude.{
  All, Bool, List, String, [], arith, eq_iff, eqb_ℤ, false, none, ok, pos, refl, some, true, ◌==◌,
  ◌∷◌, ◌≡◌,
}
use reliable_agent_runtime.Engine.Environment.{
  Environment, Session, default_limits, errors_closed, events_closed, model_event,
}
use reliable_agent_runtime.Engine.Execution.{
  EndsWell, execute-EndsWell, execute_closes, resume-EndsWell,
}
use reliable_agent_runtime.Engine.Loop.{closes, enough_rounds, execute, sound_limits}
use reliable_agent_runtime.Engine.Outputs.{IsClosed}
use reliable_agent_runtime.Engine.Recovery.{IsKept, execute_pending_tools_kept}
use reliable_agent_runtime.Engine.Refusal.{IsRefusal, other_run, resume-IsRefusal}
use reliable_agent_runtime.Engine.Soundness.{IsModest, IsSound, Laws, brings_end}
use reliable_agent_runtime.Engine.State.{ExecutionState, state_version, tools_phase, user_message}
use reliable_agent_runtime.Engine.Tools.{execute_pending_tools}
use reliable_agent_runtime.Model.{ModelEvent, ToolCall, completed, tool_call, zero_usage}
use reliable_agent_runtime.Scenarios.Runs.{asked}

abbrev the_call : ToolCall
the_call = record { id = "1"; name = "lookup"; arguments = "{}" }

-- The first turn asks for the tool, any other ends.
abbrev answer : Bool → ModelEvent
answer true = record {
  type = tool_call;
  delta = "";
  output = "";
  call = the_call;
  used = zero_usage;
}
answer false = record {
  type = completed;
  delta = "";
  output = "42";
  call = the_call;
  used = zero_usage;
}

-- The world is the list of the tools that have been called.
abbrev agent : Environment
agent = record {
  World = List String;
  encode = λ payload. "{}";
  now = λ w. (0, w);
  ctx_err = λ w. none;
  offer = λ out w. (true, w);
  push = λ out w. (true, w);
  adapter_name = "fake";
  stream = λ request w.
      (model_event (answer (eqb_ℤ request.turn (pos 1))) ∷ events_closed ∷ errors_closed ∷ [], w);
  tool_definitions = [];
  read_only = λ name. some (name == "lookup");
  execute_tool = λ name arguments w. (ok "42", name ∷ w);
}

agent_laws : Laws agent
unfolding brings_end
agent_laws = record {
  done = λ out w e. absurd (cc e);
  ending = λ request w. refl;
  short = λ request w. omega arith;
}

abbrev modest : IsModest default_limits
unfolding default_limits sound_limits
modest = record {
  turns = 8;
  max_turns = refl;
  turns_below = omega arith;
  calls = 32;
  max_tool_calls = refl;
  calls_below = omega arith;
  sound = refl;
}

abbrev saved_state : ExecutionState
saved_state = record {
  version = state_version;
  run_id = "run_1";
  manifest_checksum = "c1";
  phase = tools_phase;
  turn = pos 1;
  messages = user_message "hello" ∷ [];
  pending_tool_calls = the_call ∷ record the_call { name = "pay" } ∷ [];
  next_tool_index = pos 0;
  tool_calls_used = pos 2;
  usage = zero_usage;
}

saved_state-IsSound : IsSound default_limits modest asked saved_state
unfolding modest
saved_state-IsSound = record {
  versioned = refl;
  run = refl;
  checksum = refl;
  t = 1;
  turn = refl;
  turn_pos = omega arith;
  u = 2;
  used = refl;
  used_le = omega arith;
  i = 0;
  index = refl;
  some_message = refl;
  few = omega arith;
  fits = (refl, omega arith, omega arith);
}

abbrev OnlyLookups : List String → Type 0
OnlyLookups = All (λ name. name ≡ "lookup")

agent_keeps : IsKept agent OnlyLookups
agent_keeps = record {
  by_clock = λ w p. p;
  by_offer = λ out w p. p;
  by_push = λ out w p. p;
  by_tool = λ name arguments w may p. ((eq_iff name "lookup").0 (ground (arith, may)), p);
}

abbrev fresh : Session agent
fresh = record { world = []; sequence = 0; sent = []; stuck = false }

execute-EndsWell_example :
    EndsWell agent default_limits modest asked agent_laws
      (execute agent default_limits asked (enough_rounds agent default_limits asked) [] none)
execute-EndsWell_example = execute-EndsWell agent default_limits modest asked agent_laws []

resume-EndsWell_example : EndsWell agent default_limits modest asked agent_laws (
    execute agent default_limits asked
      (enough_rounds agent default_limits asked)
      []
      (some saved_state))
resume-EndsWell_example =
    resume-EndsWell agent default_limits modest asked agent_laws [] saved_state saved_state-IsSound

execute_closes_example :
    (s : Session agent) × (execute agent default_limits asked
        (enough_rounds agent default_limits asked)
        []
        (some saved_state)
      ≡ closes s)
    × IsClosed agent default_limits modest asked s
execute_closes_example =
    execute_closes agent default_limits modest asked agent_laws [] (some saved_state)
      saved_state-IsSound (λ out w. refl)

resume-IsRefusal_example :
    IsRefusal agent default_limits asked []
      (execute agent default_limits asked 0 [] (some (record saved_state { run_id = "run_2" })))
resume-IsRefusal_example =
    resume-IsRefusal agent default_limits asked [] 0 (record saved_state { run_id = "run_2" })
      (other_run (λ e. ground (arith, e, eq_iff "run_2" "run_1")))

execute_pending_tools_kept_example :
    OnlyLookups (execute_pending_tools agent asked fresh saved_state true).0.world
execute_pending_tools_kept_example =
    execute_pending_tools_kept agent asked OnlyLookups agent_keeps fresh saved_state tt
