-- ===== src/Worker/Events.antt =====
-- internal/worker/worker.go: which events of the engine end a run.
use reliable_agent_runtime.Prelude.{Bool, false, true}
use reliable_agent_runtime.Domain.{
  EventType, run_cancelled, run_failed, run_inconclusive, run_succeeded, run_timed_out,
}

-- terminalEvent
unfoldable pub terminal_event : EventType → Bool
terminal_event run_succeeded = true
terminal_event run_failed = true
terminal_event run_cancelled = true
terminal_event run_inconclusive = true
terminal_event run_timed_out = true
terminal_event _ = false
