-- ===== src/Engine.antt =====
-- internal/engine: the agent loop. State.antt is state.go, Environment.antt what the loop takes from
-- its surroundings, Turn.antt, Tools.antt and Loop.antt are engine.go from the inside out.
pub mod State
pub mod Environment
pub mod Emit
pub mod Turn
pub mod Tools
pub mod Loop
pub mod Soundness
pub mod Outputs
pub mod Progress
pub mod Advance
pub mod Endings
pub mod Calls
pub mod Fuel
pub mod Rounds
pub mod Execution
pub mod Recovery
pub mod Refusal
