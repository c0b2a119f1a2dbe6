-- ===== src/Adapter/Streams.antt =====
-- internal/model/openaicompat/adapter.go: the events of a whole response.
use reliable_agent_runtime.Prelude.{
  Bool, Bool-cases, Dict, List, Option, Option-cases, Result, Result-cases, String, [], eqb, false,
  if◌then◌else◌, inl, inr, leb, length, ltb, none, not, some, true, ◌&&◌, ◌+◌, ◌||◌, ◌∷◌,
}
use reliable_agent_runtime.Adapter.Call.{Adapter, BodyValue, incomplete_response, request_body}
use reliable_agent_runtime.Adapter.Chunks.{
  Choice, LineKind, StreamChunk, done_marker, line_kind, payload_line, skipped,
}
use reliable_agent_runtime.Adapter.Consume.{
  Consumer, HttpResponse, Step, consume_stream, new_consumer, stream_response, take_choice,
  take_choices, take_chunk, take_end, take_line, take_lines, with_outlet,
}
use reliable_agent_runtime.Adapter.Emission.{Selects, add_deltas, emit_tool_calls, next_if_ok}
use reliable_agent_runtime.Adapter.Transcript.{
  Holds, Holds-next, Transcript, emit_from-Holds, nothing_sent, take_content-Holds,
  take_finish-Holds, take_usage-Holds,
}
use reliable_agent_runtime.Domain.{RawMessage}
use reliable_agent_runtime.Model.{Request}

module _ (a : Adapter) (context : Selects) where
  take_choice-Holds :
      (c : Consumer) (choice : Choice)
      → Transcript a c.out.sent c.said
      → Holds a (take_choice a context c choice)
  unfolding take_choice
  take_choice-Holds c choice h =
      Holds-next a _ _ (take_content-Holds a context c choice.content h) (λ c' h'.
        take_finish-Holds a context
          (record c' { builders = add_deltas choice.tool_deltas c'.builders }) choice.finish_reason
          h')

  take_choices-Holds :
      (c : Consumer) (choices : List Choice)
      → Transcript a c.out.sent c.said
      → Holds a (take_choices a context c choices)
  unfolding take_choices
  take_choices-Holds c [] h = h
  take_choices-Holds c (choice ∷ choices) h =
      Holds-next a _ _ (take_choice-Holds c choice h) (λ c' h'. take_choices-Holds c' choices h')

  take_end-Holds :
      (c : Consumer) (scan_error : Option String)
      → Transcript a c.out.sent c.said
      → Holds a (take_end a context c scan_error)
  unfolding take_end emit_tool_calls
  take_end-Holds c (some e) h = (c.said, h)
  take_end-Holds c none h =
      Holds-next a _ _ (rest_emitted (not (eqb (length c.builders) 0) && not c.calls_emitted))
        finally
    where
      rest_emitted :
          (b : Bool)
          → Holds a (
              if b
              then next_if_ok
                  (with_outlet c (emit_tool_calls context c.out c.builders))
                  (λ c'. (record c' { has_completed = true }, none))
              else (c, none))
      rest_emitted true =
          Holds-next a _ _ (emit_from-Holds a context c c.builders 0 (length c.builders) c.out h)
            (λ c' h'. h')
      rest_emitted false = h

      finally :
          (c' : Consumer)
          → Transcript a c'.out.sent c'.said
          → Holds a (c', if c'.has_completed then none else some (incomplete_response ""))
      finally c' h' = elim (Bool-cases c'.has_completed) [
        | inl complete ↦ rw complete h'
        | inr incomplete ↦ rw incomplete (c'.said, h')
      ]

  module _ (unmarshal : String → Result String StreamChunk) (scan_error : Option String) where
    by_line :
        (c : Consumer) (lines : List String) (kind : LineKind)
        → Transcript a c.out.sent c.said
        → ((c' : Consumer)
            → Transcript a c'.out.sent c'.said
            → Holds a (take_lines a context unmarshal scan_error c' lines))
        → Holds a (
            take_line a context unmarshal scan_error c kind
              (λ c'. take_lines a context unmarshal scan_error c' lines))
    unfolding take_line take_chunk
    by_line c lines skipped h go = go c h
    by_line c lines done_marker h go = take_end-Holds c scan_error h
    by_line c lines (payload_line payload) h go = elim (Result-cases (unmarshal payload)) [
      | inr (e, bad) ↦ rw (bad, take_line) (c.said, h)
      | inl (chunk, decoded) ↦
          rw (decoded, take_line)
            (Holds-next a _ _
              (Holds-next a _ _ (take_usage-Holds a context c chunk.token_counts h)
                (λ c' h'. take_choices-Holds c' chunk.choices h'))
              go)
    ]

    take_lines-Holds :
        (c : Consumer) (lines : List String)
        → Transcript a c.out.sent c.said
        → Holds a (take_lines a context unmarshal scan_error c lines)
    unfolding take_lines
    take_lines-Holds c [] h = take_end-Holds c scan_error h
    take_lines-Holds c (line ∷ lines) h = elim (Option-cases (context c.out.selects)) [
      | inr (e, done) ↦ rw (done, take_lines) (c.said, h)
      | inl goes_on ↦
          rw (goes_on, take_lines)
            (by_line (record c { out = record c.out { selects = c.out.selects + 1 } }) lines
              (line_kind line) h (λ c' h'. take_lines-Holds c' lines h'))
    ]

  sent_only : (s : Step) → Holds a s → (said : String) × Transcript a s.0.out.sent said
  sent_only (c, none) h = (c.said, h)
  sent_only (c, some e) h = h

  -- Whatever the response, the context and the channel do, in all that `Stream` sends: the output of
  -- each completion is the text of all deltas sent before it, each tool call has an identifier and a
  -- name, each usage has the cost of its tokens, and no delta is empty.
  pub stream_response-Transcript :
      (unmarshal : String → Result String StreamChunk)
      (marshal : Dict BodyValue → Result String RawMessage)
      (do_request : String → RawMessage → Result String HttpResponse) (request : Request)
      → (said : String) × Transcript a
          (stream_response a context unmarshal marshal do_request request).0.out.sent
          said
  unfolding stream_response consume_stream
  stream_response-Transcript unmarshal marshal do_request request =
      elim (Result-cases (marshal (request_body a request))) [
        | inr (e, bad) ↦ rw (bad, stream_response) ("", nothing_sent)
        | inl (encoded, fine) ↦ elim (Result-cases (do_request a.endpoint encoded)) [
          | inr (e, bad) ↦ rw (fine, stream_response) (rw bad ("", nothing_sent))
          | inl (response, answered) ↦
              rw (fine, stream_response)
                (rw answered
                  (elim (Bool-cases
                    (ltb response.status_code 200 || leb 300 response.status_code)) [
                      | inl refused ↦ rw refused ("", nothing_sent)
                      | inr accepted ↦ rw accepted (
                          sent_only
                            (take_lines a context unmarshal response.scan_error new_consumer
                              response.body_lines)
                            (take_lines-Holds unmarshal response.scan_error new_consumer
                              response.body_lines nothing_sent))
                    ]))
        ]
      ]
