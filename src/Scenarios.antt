-- ===== src/Scenarios.antt =====
-- Tests: runs of the development's definitions on concrete inputs, and its theorems applied there.
mod Runs
mod Leases
mod Agent
mod Messages
mod Arguments
mod Api
mod Adapters
mod Outboxes
mod Databases
