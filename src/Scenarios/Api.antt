-- ===== src/Scenarios/Api.antt =====
-- Requests to the HTTP API on a repository with one run.
use reliable_agent_runtime.Prelude.{
  List, String, [], ap, arith, drop, if◌then◌else◌, insert, insert_sorted, length, lookup, none, ok,
  refl, some, sort_slice, true, values, ◌<◌, ◌==◌, ◌^◌, ◌∷◌, ◌≡◌, ◌≢◌, ◌⊎◌,
}
use reliable_agent_runtime.Domain.{RunEvent, live, run_succeeded, same_event}
use reliable_agent_runtime.Http.Creation.{IsPosted, post, post-IsPosted}
use reliable_agent_runtime.Http.Cursors.{MemoryRound, after_rounds, rounds_of}
use reliable_agent_runtime.Http.Delivery.{IsDelivered, stream_loop-IsDelivered}
use reliable_agent_runtime.Http.Ending.{AllEncode, stream_loop_ends, stream_loop_race}
use reliable_agent_runtime.Http.Events.{
  Connection, open_stream, poll_tick, stream_loop, terminal_seen,
}
use reliable_agent_runtime.Http.Frames.{delivered}
use reliable_agent_runtime.Http.Isolation.{replies_isolated, tenant_of, view}
use reliable_agent_runtime.Http.Request.{
  HttpRequest, JsonCodec, cursor_text, end_of_input, ensure_json_end, event_cursor,
  event_cursor-decimal, is_known_mode, to_run_response, validate_create, write_json,
}
use reliable_agent_runtime.Http.Retry.{IsRetried, post-IsRetried}
use reliable_agent_runtime.Http.Runs.{
  created_reply, get_reply, post_run, read_body, read_creation, run_request, with_run_id,
}
use reliable_agent_runtime.Http.Text.{
  decimal, digit_char, digits_before, is_space, trim_left, trim_right, trim_space,
}
use reliable_agent_runtime.Scenarios.Runs.{
  after_calls, done_result, encoders, ended_found, few_first, late_calls, leased_found, release,
  run_of, until_ended, until_leased,
}
use reliable_agent_runtime.Store.{
  is_terminal, request_hash, terminal_event_for_status, validate_terminal_event,
}
use reliable_agent_runtime.Store.History.{finishes, history, step}
use reliable_agent_runtime.Store.Implementation.{memory_repository}
use reliable_agent_runtime.Store.Memory.{
  added, append_event, appended, candidates, create_existing, create_locked, create_new, create_run,
  finish_locked, finish_run, finished, get_run, grant, holds_lease, idempotency_map_key,
  is_candidate, lease_next, leased, list_events, new_memory_repository, next_event, older,
  queued_record, valid_lease, written,
}
use reliable_agent_runtime.Store.Preservation.{run_history-IsWellFormed}
use reliable_agent_runtime.Store.WellFormed.{IsWellFormed, events_of}

abbrev json : JsonCodec
json = record {
  decode_create = λ limit body.
      some (record { run_id = ""; input = body; mode = live; deadline = none; manifest = release });
  decode_rest = λ limit body. end_of_input;
  marshal_event = λ event. some event.payload;
}

abbrev header_of : String → String → String
header_of tenant name =
    if name == "X-Tenant-ID"
    then tenant
    else if name == "Idempotency-Key"
    then "k"
    else if name == "Last-Event-ID"
    then "17"
    else ""

abbrev request_of : String → HttpRequest
request_of tenant = record {
  header = header_of tenant;
  query = λ name. "";
  run_id = "run_1";
  body = "hello";
  can_flush = true;
}

abbrev all_accepted : Connection
all_accepted n = true

post-IsPosted_example :
    IsPosted encoders json
      (some "run_1")
      (request_of "acme")
      10
      (post encoders json (some "run_1") new_memory_repository (request_of "acme") 10)
    ⊎ ((post encoders json (some "run_1") new_memory_repository (request_of "acme") 10).0
        ≡ new_memory_repository)
      × ((post encoders json (some "run_1") new_memory_repository (request_of "acme") 10).1.status
          ≢ 201)
post-IsPosted_example =
    post-IsPosted encoders json (some "run_1") new_memory_repository (request_of "acme") 10

posted :
    (post encoders json (some "run_1") new_memory_repository (request_of "acme") 10).1.status ≡ 201
unfolding post_run read_creation read_body validate_create is_known_mode ensure_json_end with_run_id
    run_request created_reply write_json to_run_response trim_space trim_left trim_right is_space
    new_memory_repository create_run create_locked create_new idempotency_map_key request_hash
    lookup
posted = refl

fresh_repository : IsWellFormed new_memory_repository
unfolding history
fresh_repository = run_history-IsWellFormed encoders []

post-IsRetried_example :
    IsRetried
      (history encoders
        (post encoders json (some "run_1") new_memory_repository (request_of "acme") 10).0
        late_calls)
      (post encoders json (some "run_1") new_memory_repository (request_of "acme") 10).1
      (post encoders json
        (some "run_2")
        (history encoders
          (post encoders json (some "run_1") new_memory_repository (request_of "acme") 10).0
          late_calls)
        (request_of "acme")
        50)
post-IsRetried_example =
    post-IsRetried encoders json new_memory_repository late_calls "run_1" "run_2"
      (request_of "acme") 10 50 fresh_repository posted

unseen :
    view (tenant_of (request_of "umbrella")) (get_run (after_calls until_leased) "run_1")
    ≡ view (tenant_of (request_of "umbrella")) (get_run new_memory_repository "run_1")
unfolding history step new_memory_repository create_run create_locked create_new create_existing
    added queued_record idempotency_map_key request_hash lookup insert lease_next grant older
    candidates is_candidate leased values sort_slice insert_sorted get_run trim_space trim_left
    trim_right is_space
unseen = refl

replies_isolated_example :
    (get_reply (memory_repository encoders) (after_calls until_leased) (request_of "umbrella")
      ≡ get_reply (memory_repository encoders) new_memory_repository (request_of "umbrella"))
    × (open_stream (memory_repository encoders) (after_calls until_leased) (request_of "umbrella")
        ≡ open_stream (memory_repository encoders) new_memory_repository (request_of "umbrella"))
replies_isolated_example =
    replies_isolated (memory_repository encoders) (after_calls until_leased) new_memory_repository
      (request_of "umbrella") unseen

last_event_id : cursor_text (request_of "acme") ≡ decimal 17
unfolding cursor_text decimal digits_before digit_char
last_event_id = refl

event_cursor-decimal_example : event_cursor (request_of "acme") ≡ ok 17
event_cursor-decimal_example =
    event_cursor-decimal (request_of "acme") 17 (omega arith) last_event_id

-- The run ends while a stream from its first event waits.
abbrev ending_round : MemoryRound encoders
ending_round = record {
  between = [];
  awake = poll_tick;
  next = finishes "run_1" "w1" 1 done_result run_succeeded 22 ∷ [];
}

abbrev quiet_round : MemoryRound encoders
quiet_round = record { between = []; awake = poll_tick; next = [] }

abbrev racing_round : MemoryRound encoders
racing_round = record {
  between = finishes "run_1" "w1" 1 done_result run_succeeded 22 ∷ [];
  awake = poll_tick;
  next = [];
}

few_after_rounds :
    length (
      events_of
        (after_rounds encoders (after_calls until_leased) (ending_round ∷ quiet_round ∷ []))
        "run_1")
    < 2 ^ 64
unfolding history step new_memory_repository create_run create_locked create_new create_existing
    added queued_record idempotency_map_key request_hash lookup insert lease_next grant older
    candidates is_candidate leased values sort_slice insert_sorted append_event finish_run
    finish_locked valid_lease holds_lease written appended finished next_event
    validate_terminal_event terminal_event_for_status same_event is_terminal list_events
few_after_rounds = omega arith

few_in_the_end : length (events_of (after_calls until_ended) "run_1") < 2 ^ 64
unfolding history step new_memory_repository create_run create_locked create_new create_existing
    added queued_record idempotency_map_key request_hash lookup insert lease_next grant older
    candidates is_candidate leased values sort_slice insert_sorted append_event finish_run
    finish_locked valid_lease holds_lease written appended finished next_event
    validate_terminal_event terminal_event_for_status same_event is_terminal list_events
few_in_the_end = omega arith

stream_loop-IsDelivered_example :
    IsDelivered encoders json all_accepted "run_1" 0
      (after_rounds encoders (after_calls until_leased) (ending_round ∷ quiet_round ∷ []))
      (ending_round ∷ quiet_round ∷ [])
      (stream_loop
        (memory_repository encoders)
        json
        all_accepted
        "run_1"
        (after_calls until_leased)
        0
        []
        (rounds_of encoders (ending_round ∷ quiet_round ∷ [])))
stream_loop-IsDelivered_example =
    stream_loop-IsDelivered encoders json all_accepted "run_1" 0 (after_calls until_leased)
      (run_of (after_calls until_leased)) (ending_round ∷ quiet_round ∷ [])
      (run_history-IsWellFormed encoders until_leased) leased_found few_after_rounds

all_encode : (events : List RunEvent) → AllEncode json events
all_encode [] = tt
all_encode (event ∷ events) = (λ e. ground (arith, e), all_encode events)

stream_loop_ends_example :
    let stream =
      stream_loop
        (memory_repository encoders)
        json
        all_accepted
        "run_1"
        (after_calls until_ended)
        1
        []
        (rounds_of encoders (quiet_round ∷ [])) in
    (stream.end ≡ terminal_seen)
    × (delivered stream.frames ≡ drop 1 (events_of (after_calls until_ended) "run_1"))
unfolding is_terminal
stream_loop_ends_example =
    stream_loop_ends json all_accepted (λ n. refl) encoders "run_1" (after_calls until_ended)
      (run_of (after_calls until_ended)) 1 quiet_round []
      (run_history-IsWellFormed encoders until_ended) ended_found.0 (ap is_terminal ended_found.1)
      few_in_the_end (all_encode (drop 1 (events_of (after_calls until_ended) "run_1")))

abbrev success : RunEvent
success = record {
  run_id = "run_1";
  sequence = 2;
  type = run_succeeded;
  occurred_at = 22;
  payload = "hi";
}

finishes_well :
    (finish_run encoders (after_calls until_leased) "run_1" "w1" 1 done_result run_succeeded 22).1
    ≡ ok success
unfolding history step new_memory_repository create_run create_locked create_new create_existing
    added queued_record idempotency_map_key request_hash lookup insert lease_next grant older
    candidates is_candidate leased values sort_slice insert_sorted append_event finish_run
    finish_locked valid_lease holds_lease written appended finished next_event
    validate_terminal_event terminal_event_for_status same_event is_terminal list_events
finishes_well = refl

stream_loop_race_example :
    stream_loop
      (memory_repository encoders)
      json
      all_accepted
      "run_1"
      (after_calls until_leased)
      (length (events_of (after_calls until_leased) "run_1"))
      []
      (rounds_of encoders (racing_round ∷ []))
    ≡ record {
      frames = [];
      cursor = length (events_of (after_calls until_leased) "run_1");
      end = terminal_seen;
    }
stream_loop_race_example =
    stream_loop_race encoders json all_accepted (after_calls until_leased) "run_1" "w1" 1
      done_result run_succeeded 22 success (run_of (after_calls until_leased)) racing_round []
      (run_history-IsWellFormed encoders until_leased) leased_found few_first finishes_well refl
