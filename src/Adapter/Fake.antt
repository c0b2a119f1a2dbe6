-- ===== src/Adapter/Fake.antt =====
-- internal/model/fake/adapter.go: an adapter that replays scripted events, and the way in which the
-- engine receives what an adapter sends.
use reliable_agent_runtime.Prelude.{
  Bool, List, Option, String, [], ap, append-nil, append_assoc, arith, false, get_elem?,
  if◌then◌else◌, length, none, or_zero, refl, some, sym, ℕ, ◌++◌, ◌+◌, ◌∙◌, ◌∷◌, ◌≡◌,
}
use reliable_agent_runtime.Adapter.Emission.{Selects, completed_event, delta_event}
use reliable_agent_runtime.Engine.Environment.{EngineError, external}
use reliable_agent_runtime.Model.{ModelEvent, Request}

-- The fields of the adapter, those behind the mutex included.
pub record FakeAdapter : Type 0 where
  pub events : List ModelEvent
  pub turns : List (List ModelEvent)
  pub failure_text : Option String
  pub blocks : Bool
  pub call_count : ℕ
  pub requests : List Request

abbrev idle : FakeAdapter
idle = record {
  events = [];
  turns = [];
  failure_text = none;
  blocks = false;
  call_count = 0;
  requests = [];
}

unfoldable pub successful : String → FakeAdapter
successful final = record idle { events = delta_event final ∷ completed_event final ∷ [] }

unfoldable pub scripted : List (List ModelEvent) → FakeAdapter
scripted script = record idle { turns = script }

unfoldable pub failing : String → FakeAdapter
failing reason = record idle { failure_text = some reason }

-- The events of a call: the turn of its number if there are turns.
unfoldable pub turn_events : FakeAdapter → List ModelEvent
turn_events a = elim a.turns [
  | [] ↦ a.events
  | turn ∷ turns ↦ or_zero [] (get_elem? (turn ∷ turns) a.call_count)
]

-- The part of `Stream` under the mutex.
unfoldable pub begin_call : FakeAdapter → Request → FakeAdapter × List ModelEvent
unfolding turn_events
begin_call a request = (
  record a { requests = a.requests ++ request ∷ []; call_count = a.call_count + 1 },
  turn_events a,
)

-- The loop of the goroutine: what it sent and the error that it reports.
unfoldable pub send_events :
    Selects → Option EngineError → ℕ → List ModelEvent → List ModelEvent × Option EngineError
send_events context last n [] = ([], last)
send_events context last n (event ∷ events) =
    let (sent, reported) = send_events context last (n + 1) events in
    elim (context n) [ some e ↦ ([], some e) | none ↦ (event ∷ sent, reported) ]

-- The goroutine; a blocking one waits for the end of the context, with this error.
unfoldable pub fake_stream :
    FakeAdapter → Selects → EngineError → List ModelEvent → List ModelEvent × Option EngineError
unfolding send_events
fake_stream a context at_end events =
    if a.blocks
    then ([], some at_end)
    else send_events context
        (elim a.failure_text [ none ↦ none | some reason ↦ some (external reason) ]) 0 events

-- The adapter after some calls.
unfoldable pub after_requests : FakeAdapter → List Request → FakeAdapter
unfolding begin_call
after_requests a [] = a
after_requests a (request ∷ requests) = after_requests (begin_call a request).0 requests

after_requests-kept :
    (a : FakeAdapter) (requests : List Request)
    → ((after_requests a requests).turns ≡ a.turns)
      × ((after_requests a requests).events ≡ a.events)
      × ((after_requests a requests).call_count ≡ a.call_count + length requests)
      × ((after_requests a requests).requests ≡ a.requests ++ requests)
unfolding after_requests begin_call
after_requests-kept a [] = (refl, refl, omega arith, sym (append-nil a.requests))
after_requests-kept a (request ∷ requests) =
    let (turns, events, counted, logged) = after_requests-kept (begin_call a request).0 requests in
    (
      turns,
      events,
      omega (arith, counted),
      logged ∙ append_assoc a.requests (request ∷ []) requests,
    )

turn_events-script :
    (a : FakeAdapter) (script : List (List ModelEvent)) (n : ℕ)
    → a.turns ≡ script
    → a.events ≡ []
    → a.call_count ≡ n
    → turn_events a ≡ or_zero [] (get_elem? script n)
unfolding turn_events
turn_events-script a [] n turns events counted = rw (turns, turn_events) events
turn_events-script a (turn ∷ script) n turns events counted =
    rw (turns, turn_events) (rw counted refl)

-- Each call of a scripted adapter replays the next turn of the script, and nothing once the script
-- is over; the requests are kept in their order.
pub begin_call-scripted :
    (script : List (List ModelEvent)) (requests : List Request) (request : Request)
    → let a = after_requests (scripted script) requests in
      ((begin_call a request).1 ≡ or_zero [] (get_elem? script (length requests)))
      × ((begin_call a request).0.requests ≡ requests ++ request ∷ [])
unfolding begin_call turn_events scripted
begin_call-scripted script requests request =
    let (turns, events, counted, logged) = after_requests-kept (scripted script) requests in
    (
      turn_events-script (after_requests (scripted script) requests) script (length requests) turns
          events (omega (arith, counted)),
      ap (λ rs. rs ++ request ∷ []) logged,
    )
