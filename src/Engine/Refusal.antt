-- ===== src/Engine/Refusal.antt =====
-- internal/engine: a checkpoint that no execution of the request can have saved is refused before
-- anything is done with it.
use reliable_agent_runtime.Prelude.{
  Bool-cases, List, [], arith, eq_iff, eqb_ℤ-eq, false, inl, inr, length, negsuc, none, not, pos,
  refl, some, true, ℕ, ℤ, ◌<◌, ◌||◌, ◌∷◌, ◌≡◌, ◌≢◌, ◌⊎◌,
}
use reliable_agent_runtime.Domain.{RunRequest, failed, run_failed}
use reliable_agent_runtime.Engine.Emit.{emit, fail, failure, item}
use reliable_agent_runtime.Engine.Environment.{
  EngineError, Environment, Limits, Session, invalid_request, invalid_state,
}
use reliable_agent_runtime.Engine.Loop.{
  Ending, closes, execute, execute_from, leave, new_session, sound_limits, validate,
}
use reliable_agent_runtime.Engine.State.{
  ExecutionState, Output, Phase, is_malformed, model_phase, phase_fits, state_version, tools_phase,
  validate_state,
}
use reliable_agent_runtime.Model.{ToolCall}

-- What is wrong with a checkpoint: it belongs to something else, or contradicts itself.
pub data IsUnusable (request : RunRequest) (st : ExecutionState) : Type 0 where
  other_version : st.version ≢ state_version → IsUnusable request st
  other_run : st.run_id ≢ request.run_id → IsUnusable request st
  other_manifest : st.manifest_checksum ≢ request.manifest.checksum → IsUnusable request st
  no_turn : st.turn ≡ pos 0 → IsUnusable request st
  negative_index : (n : ℕ) → st.next_tool_index ≡ negsuc n → IsUnusable request st
  no_messages : st.messages ≡ [] → IsUnusable request st
  index_beyond :
      (n : ℕ)
      → st.next_tool_index ≡ pos n
      → length st.pending_tool_calls < n
      → IsUnusable request st
  calls_left : st.phase ≡ model_phase → st.pending_tool_calls ≢ [] → IsUnusable request st
  no_calls : st.phase ≡ tools_phase → st.pending_tool_calls ≡ [] → IsUnusable request st

malformed-validate_state :
    (st : ExecutionState) (request : RunRequest)
    → is_malformed st request ≡ true
    → validate_state st request ≡ false
unfolding validate_state
malformed-validate_state st request bad = rw bad refl

unfit-validate_state :
    (st : ExecutionState) (request : RunRequest)
    → phase_fits st.phase st.pending_tool_calls st.next_tool_index ≡ false
    → validate_state st request ≡ false
unfolding validate_state
unfit-validate_state st request bad = elim (Bool-cases (is_malformed st request)) [
  | inl bad_state ↦ rw (bad_state, validate_state) refl
  | inr fine ↦ rw (fine, validate_state) bad
]

model_needs_none :
    (p : Phase) (pending : List ToolCall) (index : ℤ)
    → p ≡ model_phase
    → pending ≢ []
    → phase_fits p pending index ≡ false
unfolding phase_fits
model_needs_none p [] index e nonempty = absurd (nonempty refl)
model_needs_none p (call ∷ calls) index e nonempty = rw e refl

IsUnusable-validate_state :
    (request : RunRequest) (st : ExecutionState)
    → IsUnusable request st
    → validate_state st request ≡ false
unfolding is_malformed phase_fits
IsUnusable-validate_state request st (other_version h) =
    malformed-validate_state st request (ground (arith, h, eqb_ℤ-eq st.version state_version))
IsUnusable-validate_state request st (other_run h) =
    malformed-validate_state st request (ground (arith, h, eq_iff st.run_id request.run_id))
IsUnusable-validate_state request st (other_manifest h) =
    malformed-validate_state st request
      (ground (arith, h, eq_iff st.manifest_checksum request.manifest.checksum))
IsUnusable-validate_state request st (no_turn h) =
    malformed-validate_state st request (rw h (ground arith))
IsUnusable-validate_state request st (negative_index n h) =
    malformed-validate_state st request (rw h (ground arith))
IsUnusable-validate_state request st (no_messages h) =
    malformed-validate_state st request (rw h (ground arith))
IsUnusable-validate_state request st (index_beyond n h beyond) =
    malformed-validate_state st request (rw h (ground (arith, beyond)))
IsUnusable-validate_state request st (calls_left p pending) =
    unfit-validate_state st request
      (model_needs_none st.phase st.pending_tool_calls st.next_tool_index p pending)
IsUnusable-validate_state request st (no_calls p pending) =
    unfit-validate_state st request (rw (p, pending) refl)

module _ (env : Environment) (limits : Limits) (request : RunRequest) (w : env.World) where
  -- The attempt offers one RUN_FAILED event, with no checkpoint, and closes its channel. The world is
  -- the one after a look at the clock and that offer: no tool and no model was called.
  pub record IsRefusal (ending : Ending env limits request) : Type 0 where
    pub session : Session env
    pub returned : ending ≡ closes session
    pub offered : Output
    pub is_failure : offered.event.type ≡ run_failed
    pub no_checkpoint : offered.checkpoint ≡ none
    pub untouched : session.world ≡ (env.offer offered (env.now w).1).1
    pub at_most : (session.sent ≡ []) ⊎ (session.sent ≡ offered ∷ [])

  fail-IsRefusal :
      (e : EngineError)
      → IsRefusal (leave env limits request (fail env request (new_session env limits request w) e))
  unfolding fail emit item
  fail-IsRefusal e =
      let s = new_session env limits request w in
      let (out, w') = item env request s run_failed (failure env request failed e) none in
      record {
        session = fail env request s e;
        returned = refl;
        offered = out;
        is_failure = refl;
        no_checkpoint = refl;
        untouched = refl;
        at_most = elim (Bool-cases (env.offer out w').0) [
          | inl took ↦ inr (rw took refl)
          | inr refused ↦ inl (rw refused refl)
        ];
      }

  -- An attempt that is given a checkpoint of another version, run or manifest, without a turn or a
  -- message, with a next tool outside the pending calls, or with pending calls that contradict its
  -- phase, does nothing with it: whatever the limits and the fuel are, it offers one RUN_FAILED event
  -- and closes its channel, and calls no tool and no model.
  pub resume-IsRefusal :
      (fuel : ℕ) (checkpoint : ExecutionState)
      → IsUnusable request checkpoint
      → IsRefusal (execute env limits request fuel w (some checkpoint))
  unfolding execute execute_from
  resume-IsRefusal fuel checkpoint unusable =
      elim (Bool-cases (not (validate request) || not (sound_limits limits))) [
        | inl bad ↦ rw bad (fail-IsRefusal invalid_request)
        | inr good ↦
            rw (good, IsUnusable-validate_state request checkpoint unusable)
              (fail-IsRefusal invalid_state)
      ]
