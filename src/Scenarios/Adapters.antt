-- ===== src/Scenarios/Adapters.antt =====
-- A streamed response of the OpenAI-compatible adapter, and the calls of a scripted one.
use reliable_agent_runtime.Prelude.{
  Dict, List, Result, String, [], arith, get_elem?, if◌then◌else◌, length, none, ok, or_zero, pos,
  refl, some, ℕ, ℤ, ◌*◌, ◌+◌, ◌<◌, ◌==◌, ◌∷◌, ◌≡◌, ◌≢◌, ◌≤◌,
}
use reliable_agent_runtime.Adapter.Body.{HasTools, IsCommon, request_body-IsRequestBody}
use reliable_agent_runtime.Adapter.Builders.{builder_at-spelled, of_index, spelled}
use reliable_agent_runtime.Adapter.Call.{Adapter, BodyValue, request_body}
use reliable_agent_runtime.Adapter.Chunks.{StreamChunk, ToolDelta, after_prefix, line_kind}
use reliable_agent_runtime.Adapter.Consume.{
  HttpResponse, consume_stream, stream_response, take_choice, take_choices, take_chunk,
  take_content, take_end, take_finish, take_line, take_lines, take_usage,
}
use reliable_agent_runtime.Adapter.Cost.{cost_micros_of, cost_micros_of_bounds}
use reliable_agent_runtime.Adapter.Emission.{
  Outlet, Selects, add_delta, add_deltas, builder_at, complete_builder, completed_event,
  delta_event, emit_from, emit_tool_calls, extended_by, send,
}
use reliable_agent_runtime.Adapter.Emitted.{AreEmitted, emit_tool_calls-AreEmitted}
use reliable_agent_runtime.Adapter.Fake.{after_requests, begin_call, begin_call-scripted, scripted}
use reliable_agent_runtime.Adapter.Streams.{stream_response-Transcript}
use reliable_agent_runtime.Adapter.Transcript.{Transcript}
use reliable_agent_runtime.Domain.{RawMessage}
use reliable_agent_runtime.Http.Text.{is_space, trim_left, trim_right, trim_space}
use reliable_agent_runtime.Model.{ModelEvent, Request, ToolCall, Usage}

abbrev adapter : Adapter
adapter = record {
  endpoint = "https://models/chat/completions";
  config = record {
    base_url = "https://models";
    parsed_url = some ("https", "models");
    api_key = "key";
    model = "m";
    max_tokens = pos 100;
    input_micros_per_million = pos 270000;
    output_micros_per_million = pos 1100000;
    extra_body = ("model", "other") ∷ [];
  };
}

abbrev fragment : ℤ → String → String → String → ToolDelta
fragment index id name arguments = record {
  index = index;
  id = id;
  name = name;
  arguments = arguments;
}

abbrev fragments : List ToolDelta
fragments =
    fragment (pos 0) "c0" "lookup" "{\"q\":"
    ∷ fragment (pos 1) "c1" "list" "{}"
    ∷ fragment (pos 0) "" "" "1}"
    ∷ []

-- The first line speaks, the second calls the tools.
abbrev decoded : String → Result String StreamChunk
decoded payload =
    if payload == "1"
    then ok (record {
      choices = record { content = "hi"; tool_deltas = []; finish_reason = "" } ∷ [];
      token_counts = none;
    })
    else ok (record {
      choices = record { content = ""; tool_deltas = fragments; finish_reason = "tool_calls" } ∷ [];
      token_counts = some (pos 12, pos 5);
    })

abbrev lines : List String
lines = "data: 1" ∷ "" ∷ "data: 2" ∷ "data: [DONE]" ∷ []

abbrev all_go_on : Selects
all_go_on n = none

-- The stream ends without an error and with four events.
streams_well :
    ((consume_stream adapter all_go_on decoded none lines).1 ≡ none)
    × (length (consume_stream adapter all_go_on decoded none lines).0.out.sent ≡ 4)
unfolding consume_stream take_lines take_line take_chunk take_usage take_choices take_choice
    take_content take_finish take_end emit_tool_calls emit_from send complete_builder builder_at
    add_deltas add_delta extended_by line_kind after_prefix trim_space trim_left trim_right is_space
    cost_micros_of
streams_well = (refl, refl)

abbrev first_request : Request
first_request = record {
  run_id = "run_1";
  turn = pos 1;
  messages =
      record {
        role = "user";
        content = "hello";
        tool_call_id = "";
        tool_name = "";
        tool_calls = [];
      }
      ∷ [];
  tools = [];
}

abbrev answer : String → RawMessage → Result String HttpResponse
answer endpoint encoded =
    ok (record { status_code = 200; error_text = ""; body_lines = lines; scan_error = none })

abbrev encoded_body : Dict BodyValue → Result String RawMessage
encoded_body body = ok "{}"

stream_response-Transcript_example :
    (said : String) × Transcript adapter
      (stream_response adapter all_go_on decoded encoded_body answer first_request).0.out.sent
      said
stream_response-Transcript_example =
    stream_response-Transcript adapter all_go_on decoded encoded_body answer first_request

builder_at-spelled_example :
    builder_at (pos 0) (add_deltas fragments []) ≡ spelled (of_index (pos 0) fragments)
builder_at-spelled_example = builder_at-spelled (pos 0) fragments

abbrev silent : Outlet
silent = record { selects = 0; sent = [] }

emits_well : (emit_tool_calls all_go_on silent (add_deltas fragments [])).1 ≡ none
unfolding emit_tool_calls emit_from send complete_builder builder_at add_deltas add_delta
    extended_by
emits_well = refl

emit_tool_calls-AreEmitted_example :
    AreEmitted all_go_on
      (add_deltas fragments [])
      0
      (length (add_deltas fragments []))
      []
      (emit_tool_calls all_go_on silent (add_deltas fragments [])).0.sent
emit_tool_calls-AreEmitted_example =
    emit_tool_calls-AreEmitted all_go_on (add_deltas fragments []) silent emits_well

abbrev some_usage : Usage
some_usage = record { input_tokens = pos 1200; output_tokens = pos 340; cost_micros = pos 0 }

cost_micros_of_bounds_example :
    (cost : ℕ) × (cost_micros_of some_usage (pos 270000) (pos 1100000) ≡ pos cost)
    × (cost * 1000000 ≤ 1200 * 270000 + 340 * 1100000)
    × (1200 * 270000 + 340 * 1100000 < (cost + 2) * 1000000)
cost_micros_of_bounds_example =
    cost_micros_of_bounds 1200 340 270000 1100000 some_usage refl refl (omega arith) (omega arith)

abbrev lookup_call : ToolCall
lookup_call = record { id = "1"; name = "lookup"; arguments = "{}" }

-- The turn behind a tool call.
abbrev second_request : Request
second_request = record {
  run_id = "run_1";
  turn = pos 2;
  messages =
      record {
        role = "assistant";
        content = "";
        tool_call_id = "";
        tool_name = "";
        tool_calls = lookup_call ∷ [];
      }
      ∷ record {
        role = "tool";
        content = "42";
        tool_call_id = "1";
        tool_name = "lookup";
        tool_calls = [];
      }
      ∷ [];
  tools = record { name = "lookup"; description = "finds"; input_schema = "{}" } ∷ [];
}

request_body-IsRequestBody_example :
    IsCommon adapter second_request (request_body adapter second_request)
    × (second_request.tools ≢ []
        → HasTools second_request.tools (request_body adapter second_request))
request_body-IsRequestBody_example = request_body-IsRequestBody adapter second_request

abbrev script : List (List ModelEvent)
script = (delta_event "a" ∷ []) ∷ (completed_event "b" ∷ []) ∷ []

begin_call-scripted_example :
    ((begin_call (after_requests (scripted script) (first_request ∷ [])) first_request).1
      ≡ or_zero [] (get_elem? script 1))
    × ((begin_call (after_requests (scripted script) (first_request ∷ [])) first_request).0.requests
        ≡ first_request ∷ first_request ∷ [])
begin_call-scripted_example = begin_call-scripted script (first_request ∷ []) first_request
