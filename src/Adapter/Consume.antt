-- ===== src/Adapter/Consume.antt =====
-- internal/model/openaicompat/adapter.go: consumeStream.
use Prim.Native.String.{◌++◌ as append_str}
use reliable_agent_runtime.Prelude.{
  Bool, Dict, List, Option, Result, String, [], eqb, err, false, if◌then◌else◌, leb, length, ltb,
  none, not, ok, pos, some, true, ℕ, ℤ, ◌&&◌, ◌+◌, ◌==◌, ◌||◌, ◌∷◌,
}
use reliable_agent_runtime.Adapter.Call.{
  Adapter, AdapterError, BodyValue, http_error, incomplete_response, malformed_stream, request_body,
  request_error, scanner_error, stream_context,
}
use reliable_agent_runtime.Adapter.Chunks.{
  Choice, LineKind, StreamChunk, done_marker, line_kind, payload_line, skipped,
}
use reliable_agent_runtime.Adapter.Cost.{cost_micros_of}
use reliable_agent_runtime.Adapter.Emission.{
  Builders, Outlet, Selects, add_deltas, completed_event, delta_event, emit_tool_calls, next_if_ok,
  send, usage_event,
}
use reliable_agent_runtime.Domain.{RawMessage}
use reliable_agent_runtime.Http.Text.{trim_space}
use reliable_agent_runtime.Model.{Request, Usage}

-- The variables of `consumeStream`.
pub record Consumer : Type 0 where
  pub out : Outlet
  pub said : String
  pub builders : Builders
  pub calls_emitted : Bool
  pub has_completed : Bool

abbrev pub new_consumer : Consumer
new_consumer = record {
  out = record { selects = 0; sent = [] };
  said = "";
  builders = [];
  calls_emitted = false;
  has_completed = false;
}

-- A step that may fail: the variables and the error.
abbrev pub Step : Type 0
Step = Consumer × Option AdapterError

abbrev pub with_outlet : Consumer → Outlet × Option AdapterError → Step
with_outlet c (out, refused) = (record c { out = out }, refused)

module _ (a : Adapter) (context : Selects) where
  unfoldable pub take_usage : Consumer → Option (ℤ × ℤ) → Step
  unfolding send cost_micros_of
  take_usage c none = (c, none)
  take_usage c (some (prompt_tokens, completion_tokens)) =
      let counted : Usage = record {
        input_tokens = prompt_tokens;
        output_tokens = completion_tokens;
        cost_micros = pos 0;
      } in
      let used = record counted {
        cost_micros =
            cost_micros_of counted a.config.input_micros_per_million
              a.config.output_micros_per_million;
      } in
      with_outlet c (send context c.out (usage_event used))

  unfoldable pub take_content : Consumer → String → Step
  unfolding send
  take_content c content =
      if content == ""
      then (c, none)
      else with_outlet (record c { said = append_str c.said content })
          (send context c.out (delta_event content))

  -- The `switch` on the finish reason.
  unfoldable pub take_finish : Consumer → String → Step
  unfolding emit_tool_calls send
  take_finish c reason =
      if reason == "tool_calls"
      then next_if_ok (with_outlet c (emit_tool_calls context c.out c.builders))
          (λ c'. (record c' { calls_emitted = true; has_completed = true }, none))
      else if reason == "stop"
      then next_if_ok (with_outlet c (send context c.out (completed_event c.said)))
          (λ c'. (record c' { has_completed = true }, none))
      else if reason == "length"
          || reason == "content_filter"
          || reason == "insufficient_system_resource"
          || reason == "aborted"
      then (c, some (incomplete_response reason))
      else (c, none)

  unfoldable pub take_choice : Consumer → Choice → Step
  unfolding take_content take_finish add_deltas
  take_choice c choice = next_if_ok (take_content c choice.content) (λ c'.
      take_finish (record c' { builders = add_deltas choice.tool_deltas c'.builders })
        choice.finish_reason)

  unfoldable pub take_choices : Consumer → List Choice → Step
  unfolding take_choice
  take_choices c [] = (c, none)
  take_choices c (choice ∷ choices) =
      next_if_ok (take_choice c choice) (λ c'. take_choices c' choices)

  unfoldable pub take_chunk : Consumer → StreamChunk → Step
  unfolding take_usage take_choices
  take_chunk c chunk =
      next_if_ok (take_usage c chunk.token_counts) (λ c'. take_choices c' chunk.choices)

  -- What follows the loop.
  unfoldable pub take_end : Consumer → Option String → Step
  unfolding emit_tool_calls
  take_end c (some e) = (c, some (scanner_error e))
  take_end c none =
      next_if_ok
        (if not (eqb (length c.builders) 0) && not c.calls_emitted
          then next_if_ok (with_outlet c (emit_tool_calls context c.out c.builders))
              (λ c'. (record c' { has_completed = true }, none))
          else (c, none))
        (λ c'. (c', if c'.has_completed then none else some (incomplete_response "")))

  module _ (unmarshal : String → Result String StreamChunk) (scan_error : Option String) where
    -- The body of the loop for a line of a kind, and the way to the next line. `scan_error` is what
    -- `scanner.Err()` returns after the loop.
    unfoldable pub take_line : Consumer → LineKind → (Consumer → Step) → Step
    unfolding take_chunk take_end
    take_line c skipped next_line = next_line c
    take_line c done_marker next_line = take_end c scan_error
    take_line c (payload_line payload) next_line = elim (unmarshal payload) [
      | err e ↦ (c, some (malformed_stream e))
      | ok chunk ↦ next_if_ok (take_chunk c chunk) next_line
    ]

    -- The loop over the lines that the scanner gives, and what follows it.
    unfoldable pub take_lines : Consumer → List String → Step
    unfolding take_line line_kind take_end
    take_lines c [] = take_end c scan_error
    take_lines c (line ∷ lines) = elim (context c.out.selects) [
      | some e ↦ (c, some (stream_context e))
      | none ↦
          take_line (record c { out = record c.out { selects = c.out.selects + 1 } })
            (line_kind line) (λ c'. take_lines c' lines)
    ]

    -- `consumeStream` from its first line.
    unfoldable pub consume_stream : List String → Step
    unfolding take_lines
    consume_stream lines = take_lines new_consumer lines

-- What `client.Do` gives: the status, the start of the body for an error, and the lines of the body
-- with the error of the scanner behind them.
pub record HttpResponse : Type 0 where
  pub status_code : ℕ
  pub error_text : String
  pub body_lines : List String
  pub scan_error : Option String

-- The goroutine of `Stream`, for `json.Marshal` and the building and sending of the HTTP request.
unfoldable pub stream_response :
    Adapter
    → Selects
    → (String → Result String StreamChunk)
    → (Dict BodyValue → Result String RawMessage)
    → (String → RawMessage → Result String HttpResponse)
    → Request
    → Step
unfolding request_body consume_stream
stream_response a context unmarshal marshal do_request request =
    elim (marshal (request_body a request)) [
      | err e ↦ (new_consumer, some (request_error e))
      | ok encoded ↦ elim (do_request a.endpoint encoded) [
        | err e ↦ (new_consumer, some (request_error e))
        | ok response ↦
            if ltb response.status_code 200 || leb 300 response.status_code
            then (
              new_consumer,
              some (http_error response.status_code (trim_space response.error_text)),
            )
            else consume_stream a context unmarshal response.scan_error response.body_lines
      ]
    ]
