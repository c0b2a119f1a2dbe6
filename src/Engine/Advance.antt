-- ===== src/Engine/Advance.antt =====
-- How the changes that a round makes to the state keep it one that could be resumed.
use reliable_agent_runtime.Prelude.{
  List, [], add_int, add_int-pos, arith, false, length, pos, refl, true, ℕ, ◌++◌, ◌+◌, ◌<◌, ◌∷◌,
  ◌≡◌, ◌≤◌,
}
use reliable_agent_runtime.Domain.{RunRequest}
use reliable_agent_runtime.Engine.Environment.{Environment, Limits}
use reliable_agent_runtime.Engine.Loop.{is_tools, next_turn}
use reliable_agent_runtime.Engine.Soundness.{FitsPhase, IsModest, IsSound}
use reliable_agent_runtime.Engine.State.{
  ExecutionState, Phase, is_empty, model_phase, other_phase, tools_phase,
}
use reliable_agent_runtime.Model.{Message, ToolCall, Usage}
use reliable_agent_runtime.Schema.Values.{below}

pub is_empty-append {ℓ} : {A : Type ℓ} (xs : List A) (x : A) → is_empty (xs ++ x ∷ []) ≡ false
is_empty-append [] x = refl
is_empty-append (y ∷ ys) x = refl

pub FitsPhase-advance :
    (p : Phase) (pending : List ToolCall) (i t turns : ℕ)
    → is_tools p ≡ true
    → i < length pending
    → FitsPhase p pending i t turns
    → FitsPhase p pending (i + 1) t turns
FitsPhase-advance tools_phase pending i t turns e below h = (h.0, omega arith, h.2)
FitsPhase-advance model_phase pending i t turns e below h = absurd (cc e)
FitsPhase-advance (other_phase _) pending i t turns e below h = h

pub FitsPhase-turn :
    (p : Phase) (pending : List ToolCall) (i t turns : ℕ)
    → is_tools p ≡ true
    → FitsPhase p pending i t turns
    → t ≤ turns
FitsPhase-turn tools_phase pending i t turns e h = h.2
FitsPhase-turn model_phase pending i t turns e h = absurd (cc e)
FitsPhase-turn (other_phase _) pending i t turns e h = absurd h

module _ (limits : Limits) (modest : IsModest limits) (request : RunRequest) (st : ExecutionState)
    (h : IsSound limits modest request st) where
  -- The state after a tool has returned.
  unfoldable pub advanced-IsSound :
      (m : Message)
      → is_tools st.phase ≡ true
      → h.i < length st.pending_tool_calls
      → IsSound limits modest request (record st {
        messages = st.messages ++ m ∷ [];
        next_tool_index = add_int st.next_tool_index (pos 1);
      })
  advanced-IsSound m tools below = record {
    versioned = h.versioned;
    run = h.run;
    checksum = h.checksum;
    t = h.t;
    turn = h.turn;
    turn_pos = h.turn_pos;
    u = h.u;
    used = h.used;
    used_le = h.used_le;
    i = h.i + 1;
    index = rw h.index (add_int-pos h.i 1 (omega (arith, below, h.few)));
    some_message = is_empty-append st.messages m;
    few = h.few;
    fits = FitsPhase-advance st.phase st.pending_tool_calls h.i h.t modest.turns tools below h.fits;
  }

  -- The state after the last tool.
  unfoldable pub next_turn-IsSound :
      (env : Environment)
      → is_tools st.phase ≡ true
      → IsSound limits modest request (next_turn env limits request st)
  unfolding next_turn
  next_turn-IsSound env tools =
      let below = FitsPhase-turn st.phase st.pending_tool_calls h.i h.t modest.turns tools h.fits in
      record {
        versioned = h.versioned;
        run = h.run;
        checksum = h.checksum;
        t = h.t + 1;
        turn = rw h.turn (add_int-pos h.t 1 (omega (arith, below, modest.turns_below)));
        turn_pos = omega arith;
        u = h.u;
        used = h.used;
        used_le = h.used_le;
        i = 0;
        index = refl;
        some_message = h.some_message;
        few = omega arith;
        fits = (refl, refl, omega (arith, below));
      }

  -- The state once the usage of a turn is added.
  unfoldable pub accounted-IsSound :
      (spent : Usage) → IsSound limits modest request (record st { usage = spent })
  accounted-IsSound spent = record {
    versioned = h.versioned;
    run = h.run;
    checksum = h.checksum;
    t = h.t;
    turn = h.turn;
    turn_pos = h.turn_pos;
    u = h.u;
    used = h.used;
    used_le = h.used_le;
    i = h.i;
    index = h.index;
    some_message = h.some_message;
    few = h.few;
    fits = h.fits;
  }
