-- ===== src/Engine/Fuel.antt =====
-- How many rounds of the loop a state leaves.
use reliable_agent_runtime.Prelude.{
  List, arith, false, ltb, ltb_ℤ, pos, refl, subst₂, true, ℕ, ℤ, ◌*◌, ◌+◌, ◌-◌, ◌≡◌, ◌≤◌,
}
use reliable_agent_runtime.Engine.Loop.{is_tools}
use reliable_agent_runtime.Engine.Soundness.{FitsPhase}
use reliable_agent_runtime.Engine.State.{Phase, model_phase, other_phase, tools_phase}
use reliable_agent_runtime.Model.{ToolCall}

-- Rounds after this state that are surely enough.
abbrev pub rounds_left : Phase → ℕ → ℕ → ℕ
rounds_left tools_phase t turns = 2 * (turns + 1 - t)
rounds_left _ t turns = 2 * (turns + 1 - t) + 1

pub rounds_left-tools :
    (p : Phase) (t turns : ℕ) → is_tools p ≡ true → rounds_left p t turns ≡ 2 * (turns + 1 - t)
rounds_left-tools tools_phase t turns e = refl
rounds_left-tools model_phase t turns e = absurd (cc e)
rounds_left-tools (other_phase _) t turns e = absurd (cc e)

pub rounds_left-other :
    (p : Phase) (t turns : ℕ) → is_tools p ≡ false → rounds_left p t turns ≡ 2 * (turns + 1 - t) + 1
rounds_left-other tools_phase t turns e = absurd (cc e)
rounds_left-other model_phase t turns e = refl
rounds_left-other (other_phase _) t turns e = refl

pub rounds_left-positive :
    (p : Phase) (pending : List ToolCall) (i t turns : ℕ)
    → FitsPhase p pending i t turns
    → 1 ≤ rounds_left p t turns
rounds_left-positive tools_phase pending i t turns h = omega (arith, h.2)
rounds_left-positive model_phase pending i t turns h = omega arith
rounds_left-positive (other_phase _) pending i t turns h = absurd h

pub rounds_left-enough : (p : Phase) (t turns : ℕ) → rounds_left p t turns ≤ 2 * turns + 3
rounds_left-enough tools_phase t turns = omega arith
rounds_left-enough model_phase t turns = omega arith
rounds_left-enough (other_phase _) t turns = omega arith

-- What a comparison that fails tells of the numbers.
pub within : {a b : ℤ} {m n : ℕ} → a ≡ pos m → b ≡ pos n → ltb_ℤ a b ≡ false → n ≤ m
within ea eb e = ltb-false (subst₂ (λ x y. ltb_ℤ x y ≡ false) ea eb e)
  where
    ltb-false : {m n : ℕ} → ltb m n ≡ false → n ≤ m
    ltb-false {m} {n} e = ground (arith, e)
