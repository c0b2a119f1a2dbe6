-- ===== src/Engine/Execution.antt =====
-- An execution ends, with the rounds that its limits allow, and with one event that says how.
use reliable_agent_runtime.Prelude.{
  Bool, Bool-cases, Option, Option-cases, arith, false, if◌then◌else◌, inl, inr, none, not, refl,
  some, subst, suc, sym, true, zero, ℕ, ◌&&◌, ◌||◌, ◌≡◌, ◌≤◌, ◌⊎◌,
}
use reliable_agent_runtime.Domain.{RunRequest, run_created}
use reliable_agent_runtime.Engine.Endings.{emit_then, fail-IsFinished, terminate_context-IsFinished}
use reliable_agent_runtime.Engine.Environment.{Environment, Limits, Session}
use reliable_agent_runtime.Engine.Fuel.{rounds_left, rounds_left-enough, rounds_left-positive}
use reliable_agent_runtime.Engine.Loop.{
  Ending, Round, announce, closes, continues, enough_rounds, execute, execute_from, is_tools, leave,
  never_closes, new_session, one_round, out_of_fuel, returns, run_loop, sound_limits, validate,
  waits,
}
use reliable_agent_runtime.Engine.Outputs.{IsClosed, IsFinished, IsOngoing, IsStranded}
use reliable_agent_runtime.Engine.Rounds.{RoundOk, one_round_lem}
use reliable_agent_runtime.Engine.Soundness.{
  IsModest, IsSound, IsSound-validate_state, Laws, initial_state-IsSound,
}
use reliable_agent_runtime.Engine.State.{ExecutionState, Output, initial_state}
use reliable_agent_runtime.Worker.Events.{terminal_event}

module _ (env : Environment) (limits : Limits) (modest : IsModest limits) (request : RunRequest)
    (laws : Laws env) where
  -- The goroutine returns, with the run ended or the context done; or it waits in the plain send of
  -- the last event, because nobody receives any more.
  abbrev pub EndsWell : Ending env limits request → Type 0
  EndsWell (closes s) = IsClosed env limits modest request s
  EndsWell (never_closes s) = IsStranded env limits modest request s
  EndsWell out_of_fuel = ⊥

  leave-EndsWell :
      (s : Session env)
      → IsFinished env limits modest request s
      → EndsWell (leave env limits request s)
  leave-EndsWell s (inl (closed, free)) =
      subst (λ b. EndsWell (if b then never_closes s else closes s)) (sym free) closed
  leave-EndsWell s (inr (stranded, stuck)) =
      subst (λ b. EndsWell (if b then never_closes s else closes s)) (sym stuck) stranded

  run_loop_lem :
      (fuel : ℕ) (s : Session env) (st : ExecutionState) (recovering : Bool)
      (h : IsSound limits modest request st)
      → IsOngoing env limits modest request s
      → rounds_left st.phase h.t modest.turns ≤ fuel
      → EndsWell (run_loop env limits request fuel s st recovering)
  unfolding run_loop
  run_loop_lem zero s st recovering h o enough = absurd (
      omega (
        arith,
        enough,
        rounds_left-positive st.phase st.pending_tool_calls h.i h.t modest.turns h.fits,
      ))
  run_loop_lem (suc fuel) s st recovering h o enough =
      go (λ s' st'. run_loop_lem fuel s' st' (recovering && not (is_tools st.phase)))
        (one_round env limits request s st recovering)
        (one_round_lem env limits modest request laws s st recovering h o)
    where
      go :
          ((s' : Session env) (st' : ExecutionState) (h' : IsSound limits modest request st')
            → IsOngoing env limits modest request s'
            → rounds_left st'.phase h'.t modest.turns ≤ fuel
            → EndsWell
                (run_loop env limits request fuel s' st' (recovering && not (is_tools st.phase))))
          → (round : Round env limits request)
          → RoundOk env limits modest request laws (rounds_left st.phase h.t modest.turns) round
          → EndsWell (elim round [
            | returns s' ↦ leave env limits request s'
            | waits s' ↦ never_closes s'
            | continues s' st' ↦
                run_loop env limits request fuel s' st' (recovering && not (is_tools st.phase))
          ])
      go rest (returns s') fin = leave-EndsWell s' fin
      go rest (waits s') impossible = absurd impossible
      go rest (continues s' st') (o', (h', fewer)) =
          rest s' st' h' o' (omega (arith, fewer, enough))

  announce_lem :
      (s : Session env) (resumed : Bool)
      → IsOngoing env limits modest request s
      → (((announce env limits request s resumed).1 ≡ true)
          × IsOngoing env limits modest request (announce env limits request s resumed).0)
        ⊎ (((announce env limits request s resumed).1 ≡ false)
            × IsFinished env limits modest request (announce env limits request s resumed).0)
  unfolding announce
  announce_lem s true o = inl (refl, o)
  announce_lem s false o =
      emit_then env limits modest request laws s run_created _ none o
        (unfold terminal_event in refl) tt

  execute_from_lem :
      (s : Session env) (st : ExecutionState) (resumed : Bool)
      (h : IsSound limits modest request st)
      → IsOngoing env limits modest request s
      → EndsWell (execute_from env limits request (enough_rounds env limits request) s st resumed)
  unfolding execute_from enough_rounds
  execute_from_lem s st resumed h o =
      elim (Bool-cases (not (validate request) || not (sound_limits limits))) [
        | inl bad ↦ rw bad (leave-EndsWell _ (fail-IsFinished env limits modest request laws s _ o))
        | inr good ↦
            rw (good, IsSound-validate_state limits modest request st h)
              (elim (Option-cases (env.ctx_err s.world)) [
                | inr (e, ended_by) ↦
                    rw (ended_by, execute_from)
                      (leave-EndsWell _
                        (terminate_context-IsFinished env limits modest request laws s e o))
                | inl no_error ↦
                    rw (no_error, execute_from)
                      (elim (announce_lem s resumed o) [
                        | inr (refused, fin) ↦ rw refused (leave-EndsWell _ fin)
                        | inl (took, o') ↦ rw took (
                            run_loop_lem _ _ st _ h o'
                              (rw modest.max_turns (rounds_left-enough st.phase h.t modest.turns)))
                      ])
              ])
      ]

  -- With modest limits, and surroundings that keep `Laws`, a first attempt ends within the rounds
  -- of `enough_rounds`: every checkpoint that it has sent can be resumed from, and its goroutine
  -- returns or waits for ever. If it returns, its last event, and no other, ends the run, unless the
  -- context is done. If it waits, then in a plain send of an event that ends the run and that nobody
  -- takes, and none before it has ended the run.
  pub execute-EndsWell :
      (w : env.World)
      → EndsWell (execute env limits request (enough_rounds env limits request) w none)
  unfolding execute
  execute-EndsWell w =
      execute_from_lem (new_session env limits request w) (initial_state request) false
        (initial_state-IsSound limits modest request) (tt, refl)

  -- With modest limits, and surroundings that keep `Laws`, an attempt that resumes from a state that
  -- can be resumed ends as a first attempt does: its checkpoints can be resumed from, and it returns
  -- with one last event that ends the run, or with its context done, or waits for ever in the plain
  -- send of that last event, which nobody takes.
  pub resume-EndsWell :
      (w : env.World) (checkpoint : ExecutionState)
      → IsSound limits modest request checkpoint
      → EndsWell (execute env limits request (enough_rounds env limits request) w (some checkpoint))
  unfolding execute
  resume-EndsWell w checkpoint h =
      execute_from_lem (new_session env limits request w) checkpoint true h (tt, refl)

  -- The state from which an attempt starts can be resumed from.
  abbrev pub StartsSound : Option ExecutionState → Type 0
  StartsSound none = Unit
  StartsSound (some st) = IsSound limits modest request st

  closes_if_taken :
      (ending : Ending env limits request)
      → ((out : Output) (w : env.World) → (env.push out w).0 ≡ true)
      → EndsWell ending
      → (s : Session env) × (ending ≡ closes s) × IsClosed env limits modest request s
  closes_if_taken (closes s) taken h = (s, refl, h)
  closes_if_taken (never_closes s) taken h = absurd (cc (taken h.last h.at_world, h.untaken))
  closes_if_taken out_of_fuel taken h = absurd h

  -- With modest limits, and surroundings that keep `Laws`, if every plain send is taken, then an
  -- attempt, whether it is the first or resumes from a state that can be resumed, returns and closes
  -- its channel: with one event, the last, that ends the run, or with its context done.
  pub execute_closes :
      (w : env.World) (checkpoint : Option ExecutionState)
      → StartsSound checkpoint
      → ((out : Output) (w' : env.World) → (env.push out w').0 ≡ true)
      → (s : Session env) × (execute env limits request
            (enough_rounds env limits request)
            w
            checkpoint
          ≡ closes s)
        × IsClosed env limits modest request s
  execute_closes w none h taken = closes_if_taken _ taken (execute-EndsWell w)
  execute_closes w (some checkpoint) h taken =
      closes_if_taken _ taken (resume-EndsWell w checkpoint h)
