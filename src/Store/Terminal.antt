-- ===== src/Store/Terminal.antt =====
-- A run that has ended is never changed again, and a run's status moves along the state machine of
-- docs/state-machine.md.
use reliable_agent_runtime.Prelude.{
  List, String, [], arith, lookup, refl, some, subst, sym, true, ◌||◌, ◌∙◌, ◌∷◌, ◌≡◌,
}
use reliable_agent_runtime.Domain.{RunStatus, is_running, is_waiting, queued, retry_wait, running}
use reliable_agent_runtime.Store.{Encoders, RunRecord, is_terminal}
use reliable_agent_runtime.Store.Change.{step-Change}
use reliable_agent_runtime.Store.History.{Call, history, step}
use reliable_agent_runtime.Store.Memory.{
  MemoryRepository, appended, extended, finished, is_candidate, leased,
}
use reliable_agent_runtime.Store.Preservation.{IsWellFormed-IsKeyed, step-IsWellFormed}
use reliable_agent_runtime.Store.Records.{
  holds_lease-running, is_candidate-not_terminal, leased_is_open,
  terminal_event_for_status-is_terminal,
}
use reliable_agent_runtime.Store.RunStep.{
  Change-RunStep, RunStep, ends, gains_event, is_leased, is_renewed, rests,
}
use reliable_agent_runtime.Store.WellFormed.{IsWellFormed, events_of}

RunStep-terminal :
    {repo repo' : MemoryRepository} {id : String} {r : RunRecord}
    → is_terminal r.status ≡ true
    → RunStep repo repo' id r
    → (lookup id repo'.runs ≡ some r) × (events_of repo' id ≡ events_of repo id)
RunStep-terminal t (rests a b) = (a, b)
RunStep-terminal {r} t (is_leased worker now ttl ready a b) =
    absurd (ground (arith, t, is_candidate-not_terminal now r ready))
RunStep-terminal {r} t (is_renewed worker fence now ttl holds a b) =
    absurd (leased_is_open r worker fence now holds t)
RunStep-terminal {r} t (gains_event worker fence type payload now holds a b) =
    absurd (leased_is_open r worker fence now holds t)
RunStep-terminal {r} t (ends worker fence result type payload now holds e a b) =
    absurd (leased_is_open r worker fence now holds t)

-- The edges that the repository takes: `QUEUED → RUNNING → ended`, and a lease that is taken over
-- or renewed keeps a run RUNNING.
pub data Edge : RunStatus → RunStatus → Type 0 where
  stay : (s : RunStatus) → Edge s s
  start : (s : RunStatus) → is_waiting s ≡ true → Edge s running
  finish : (s : RunStatus) → is_terminal s ≡ true → Edge running s

candidate-Edge : (s : RunStatus) → (is_waiting s || is_running s) ≡ true → Edge s running
candidate-Edge running h = stay running
candidate-Edge queued h = start queued refl
candidate-Edge retry_wait h = start retry_wait refl
candidate-Edge _ h = absurd (cc h)

RunStep-Edge :
    {repo repo' : MemoryRepository} {id : String} {r : RunRecord}
    → RunStep repo repo' id r
    → (r' : RunRecord) × (lookup id repo'.runs ≡ some r') × Edge r.status r'.status
unfolding leased extended appended finished
RunStep-Edge {r} (rests a b) = (r, a, stay r.status)
RunStep-Edge {r} (is_leased worker now ttl ready a b) =
    (_, a, candidate-Edge r.status (unfold is_candidate in ground (arith, ready)))
RunStep-Edge {r} (is_renewed worker fence now ttl holds a b) = (_, a, stay r.status)
RunStep-Edge {r} (gains_event worker fence type payload now holds a b) = (_, a, stay r.status)
RunStep-Edge {r} (ends worker fence result type payload now holds e a b) = (
  _,
  a,
  subst (λ s. Edge s result.status) (sym (holds_lease-running r worker fence now holds).0)
      (finish result.status (terminal_event_for_status-is_terminal result.status type e)),
)

module _ (enc : Encoders) where
  -- Whatever calls follow on a well-formed repository, a run that has ended keeps its record and its events.
  pub history-terminal :
      (repo : MemoryRepository) (calls : List Call) (id : String) (r : RunRecord)
      → IsWellFormed repo
      → lookup id repo.runs ≡ some r
      → is_terminal r.status ≡ true
      → (lookup id (history enc repo calls).runs ≡ some r)
        × (events_of (history enc repo calls) id ≡ events_of repo id)
  unfolding history
  history-terminal repo [] id r w found t = (found, refl)
  history-terminal repo (call ∷ calls) id r w found t =
      let (found', same) = RunStep-terminal t (
        Change-RunStep id r (step-Change enc repo call w.distinct (IsWellFormed-IsKeyed repo w))
          found) in
      let (found'', same') =
        history-terminal (step enc repo call) calls id r (step-IsWellFormed enc repo call w) found'
          t in
      (found'', same' ∙ same)

  -- A call on a well-formed repository keeps every run and moves its status along an edge at most.
  pub step-Edge :
      (repo : MemoryRepository) (call : Call) (id : String) (r : RunRecord)
      → IsWellFormed repo
      → lookup id repo.runs ≡ some r
      → (r' : RunRecord) × (lookup id (step enc repo call).runs ≡ some r') × Edge r.status r'.status
  step-Edge repo call id r w found = RunStep-Edge (
      Change-RunStep id r (step-Change enc repo call w.distinct (IsWellFormed-IsKeyed repo w))
        found)
