-- ===== src/Engine/State.antt =====
-- internal/engine/state.go: the state that a checkpoint keeps, and its validation.
use reliable_agent_runtime.Prelude.{
  Bool, List, Option, String, [], eqb_ℤ, false, if◌then◌else◌, length, ltb_ℤ, not, pos, true, ℤ,
  ◌&&◌, ◌==◌, ◌||◌, ◌∷◌,
}
use reliable_agent_runtime.Domain.{RunEvent, RunRequest}
use reliable_agent_runtime.Model.{Message, ToolCall, Usage, zero_usage}

-- `other_phase` is any text that is none of the constants.
pub data Phase : Type 0 where
  model_phase tools_phase : Phase
  other_phase : String → Phase

pub record ExecutionState : Type 0 where
  pub version : ℤ
  pub run_id : String
  pub manifest_checksum : String
  pub phase : Phase
  pub turn : ℤ
  pub messages : List Message
  pub pending_tool_calls : List ToolCall
  pub next_tool_index : ℤ
  pub tool_calls_used : ℤ
  pub usage : Usage

pub record Output : Type 0 where
  pub event : RunEvent
  pub checkpoint : Option ExecutionState

abbrev pub state_version : ℤ
state_version = pos 1

abbrev pub user_message : String → Message
user_message input = record {
  role = "user";
  content = input;
  tool_call_id = "";
  tool_name = "";
  tool_calls = [];
}

unfoldable pub initial_state : RunRequest → ExecutionState
initial_state request = record {
  version = state_version;
  run_id = request.run_id;
  manifest_checksum = request.manifest.checksum;
  phase = model_phase;
  turn = pos 1;
  messages = user_message request.input ∷ [];
  pending_tool_calls = [];
  next_tool_index = pos 0;
  tool_calls_used = pos 0;
  usage = zero_usage;
}

abbrev pub is_empty {ℓ} : {A : Type ℓ} → List A → Bool
is_empty [] = true
is_empty (_ ∷ _) = false

-- The first condition of `validateState`.
unfoldable pub is_malformed : ExecutionState → RunRequest → Bool
is_malformed state request =
    not (eqb_ℤ state.version state_version)
    || not (state.run_id == request.run_id)
    || not (state.manifest_checksum == request.manifest.checksum)
    || ltb_ℤ state.turn (pos 1)
    || ltb_ℤ state.tool_calls_used (pos 0)
    || ltb_ℤ state.next_tool_index (pos 0)
    || ltb_ℤ (pos (length state.pending_tool_calls)) state.next_tool_index
    || is_empty state.messages

-- The switch on the phase: whether it fits the pending calls.
unfoldable pub phase_fits : Phase → List ToolCall → ℤ → Bool
phase_fits model_phase pending index = is_empty pending && eqb_ℤ index (pos 0)
phase_fits tools_phase pending index = not (is_empty pending)
phase_fits (other_phase _) pending index = false

-- validateState, which fails only with ErrInvalidState.
unfoldable pub validate_state : ExecutionState → RunRequest → Bool
validate_state state request =
    if is_malformed state request
    then false
    else phase_fits state.phase state.pending_tool_calls state.next_tool_index
