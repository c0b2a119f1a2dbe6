-- ===== src/Engine/Soundness.antt =====
-- States from which an execution may be resumed, and what is assumed of the engine's surroundings.
use reliable_agent_runtime.Prelude.{
  Bool, List, [], arith, eq_iff, false, length, none, pos, refl, true, ℕ, ◌+◌, ◌<◌, ◌^◌, ◌∷◌, ◌≡◌,
  ◌≢◌, ◌≤◌,
}
use reliable_agent_runtime.Domain.{RunRequest}
use reliable_agent_runtime.Engine.Environment.{
  Environment, Limits, Received, context_done, errors_closed, events_closed, model_error,
  model_event, nil_error,
}
use reliable_agent_runtime.Engine.Loop.{sound_limits}
use reliable_agent_runtime.Engine.State.{
  ExecutionState, Output, Phase, initial_state, is_empty, is_malformed, model_phase, other_phase,
  phase_fits, state_version, tools_phase, validate_state,
}
use reliable_agent_runtime.Model.{Request, ToolCall}

-- The limits are numbers far below the range of their types.
pub record IsModest (limits : Limits) : Type 0 where
  pub turns : ℕ
  pub max_turns : limits.max_turns ≡ pos turns
  pub turns_below : turns + 1 < 2 ^ 63
  pub calls : ℕ
  pub max_tool_calls : limits.max_tool_calls ≡ pos calls
  pub calls_below : calls < 2 ^ 62
  pub sound : sound_limits limits ≡ true

abbrev pub FitsPhase : Phase → List ToolCall → ℕ → ℕ → ℕ → Type 0
FitsPhase model_phase pending i t turns = (pending ≡ []) × (i ≡ 0) × (t ≤ turns + 1)
FitsPhase tools_phase pending i t turns =
    (is_empty pending ≡ false) × (i ≤ length pending) × (t ≤ turns)
FitsPhase (other_phase _) pending i t turns = ⊥

-- A state of this request that stays within the limits.
pub record IsSound (limits : Limits) (modest : IsModest limits) (request : RunRequest)
    (st : ExecutionState) : Type 0 where
  pub versioned : st.version ≡ state_version
  pub run : st.run_id ≡ request.run_id
  pub checksum : st.manifest_checksum ≡ request.manifest.checksum
  pub t : ℕ
  pub turn : st.turn ≡ pos t
  pub turn_pos : 1 ≤ t
  pub u : ℕ
  pub used : st.tool_calls_used ≡ pos u
  pub used_le : u ≤ modest.calls
  pub i : ℕ
  pub index : st.next_tool_index ≡ pos i
  pub some_message : is_empty st.messages ≡ false
  pub few : length st.pending_tool_calls < 2 ^ 62
  pub fits : FitsPhase st.phase st.pending_tool_calls i t modest.turns

pub FitsPhase-index :
    (p : Phase) (pending : List ToolCall) (i t turns : ℕ)
    → FitsPhase p pending i t turns
    → i ≤ length pending
FitsPhase-index model_phase pending i t turns h = omega (arith, h.1)
FitsPhase-index tools_phase pending i t turns h = h.1
FitsPhase-index (other_phase _) pending i t turns h = absurd h

FitsPhase-phase_fits :
    (p : Phase) (pending : List ToolCall) (i t turns : ℕ)
    → FitsPhase p pending i t turns
    → phase_fits p pending (pos i) ≡ true
unfolding phase_fits
FitsPhase-phase_fits model_phase pending i t turns h = rw (h.0, h.1)
FitsPhase-phase_fits tools_phase pending i t turns h = rw h.0
FitsPhase-phase_fits (other_phase _) pending i t turns h = absurd h

module _ (limits : Limits) (modest : IsModest limits) (request : RunRequest) (st : ExecutionState)
    (h : IsSound limits modest request st) where
  not_malformed : is_malformed st request ≡ false
  unfolding is_malformed
  not_malformed =
      rw (h.versioned, h.turn, h.used, h.index, h.some_message)
        (ground (
          arith,
          h.run,
          h.checksum,
          h.turn_pos,
          eq_iff st.run_id request.run_id,
          eq_iff st.manifest_checksum request.manifest.checksum,
          FitsPhase-index st.phase st.pending_tool_calls h.i h.t modest.turns h.fits,
        ))

  -- Such a state passes the check of `Execute`.
  pub IsSound-validate_state : validate_state st request ≡ true
  unfolding validate_state
  IsSound-validate_state =
      rw not_malformed (
        rw h.index
          (FitsPhase-phase_fits st.phase st.pending_tool_calls h.i h.t modest.turns h.fits))

pub initial_state-IsSound :
    (limits : Limits) (modest : IsModest limits) (request : RunRequest)
    → IsSound limits modest request (initial_state request)
unfolding initial_state
initial_state-IsSound limits modest request = record {
  versioned = refl;
  run = refl;
  checksum = refl;
  t = 1;
  turn = refl;
  turn_pos = omega arith;
  u = 0;
  used = refl;
  used_le = omega arith;
  i = 0;
  index = refl;
  some_message = refl;
  few = omega arith;
  fits = (refl, refl, omega arith);
}

-- Whether the receives of a turn bring it to an end: a cancelled context, an error, or both channels
-- closed.
unfoldable pub brings_end : Bool → Bool → List Received → Bool
brings_end false false items = true
brings_end events errors [] = false
brings_end events errors (context_done _ ∷ items) = true
brings_end events errors (model_event _ ∷ items) = brings_end events errors items
brings_end events errors (events_closed ∷ items) = brings_end false errors items
brings_end events true (model_error _ ∷ items) = true
brings_end events false (model_error _ ∷ items) = brings_end events false items
brings_end events errors (nil_error ∷ items) = brings_end events errors items
brings_end events errors (errors_closed ∷ items) = brings_end events false items

-- What the engine relies on, beside an `offer` that returns: `ctx.Err()` is not nil once `Done` is closed, and an adapter closes
-- both channels, or reports an error, or the context ends, after fewer than 2^62 receives.
pub record Laws (env : Environment) : Type 0 where
  pub done :
      (out : Output) (w : env.World)
      → (env.offer out w).0 ≡ false
      → env.ctx_err (env.offer out w).1 ≢ none
  pub ending :
      (request : Request) (w : env.World) → brings_end true true (env.stream request w).0 ≡ true
  pub short : (request : Request) (w : env.World) → length (env.stream request w).0 < 2 ^ 62
