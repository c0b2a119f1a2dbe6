-- ===== src/Adapter/Emission.antt =====
-- internal/model/openaicompat/adapter.go: the builders of tool calls, send and emitToolCalls.
use Prim.Native.String.{◌++◌ as append_str}
use reliable_agent_runtime.Prelude.{
  List, Option, String, [], eqb_ℤ, if◌then◌else◌, length, none, pos, some, suc, zero, ℕ, ℤ, ◌++◌,
  ◌+◌, ◌==◌, ◌||◌, ◌∷◌,
}
use reliable_agent_runtime.Adapter.Call.{AdapterError, malformed_stream, stream_context}
use reliable_agent_runtime.Adapter.Chunks.{ToolDelta}
use reliable_agent_runtime.Engine.Environment.{EngineError}
use reliable_agent_runtime.Model.{
  ModelEvent, ToolCall, Usage, completed, text_delta, tool_call, usage, zero_usage,
}

pub record ToolCallBuilder : Type 0 where
  pub id : String
  pub name : String
  pub arguments : String

-- `map[int]*toolCallBuilder`: an entry is changed in place or added at the end.
abbrev pub Builders : Type 0
Builders = List (ℤ × ToolCallBuilder)

unfoldable pub builder_at : ℤ → Builders → Option ToolCallBuilder
builder_at index [] = none
builder_at index ((key, builder) ∷ rest) =
    let found = builder_at index rest in if eqb_ℤ key index then some builder else found

-- The values that a delta gives to a builder.
unfoldable pub extended_by : ToolDelta → ToolCallBuilder → ToolCallBuilder
extended_by d builder = record {
  id = if d.id == "" then builder.id else d.id;
  name = if d.name == "" then builder.name else d.name;
  arguments = append_str builder.arguments d.arguments;
}

abbrev pub new_builder : ToolCallBuilder
new_builder = record { id = ""; name = ""; arguments = "" }

unfoldable pub add_delta : ToolDelta → Builders → Builders
unfolding extended_by
add_delta d [] = (d.index, extended_by d new_builder) ∷ []
add_delta d ((key, builder) ∷ rest) =
    let others = add_delta d rest in
    if eqb_ℤ key d.index then (key, extended_by d builder) ∷ rest else (key, builder) ∷ others

unfoldable pub add_deltas : List ToolDelta → Builders → Builders
unfolding add_delta
add_deltas [] builders = builders
add_deltas (d ∷ ds) builders = add_deltas ds (add_delta d builders)

-- The channel and the context: whether the n-th `select` finds the context done, with its error, or
-- goes on; a send that goes on hands its event to the engine.
abbrev pub Selects : Type 0
Selects = ℕ → Option EngineError

pub record Outlet : Type 0 where
  pub selects : ℕ
  pub sent : List ModelEvent

-- `if err != nil { return err }` after a step that changes a state.
abbrev pub next_if_ok :
    {S : Type 0} → S × Option AdapterError → (S → S × Option AdapterError) → S × Option AdapterError
next_if_ok (s, some e) f = (s, some e)
next_if_ok (s, none) f = f s

unfoldable pub send : Selects → Outlet → ModelEvent → Outlet × Option AdapterError
send context out event = elim (context out.selects) [
  | some e ↦ (record out { selects = out.selects + 1 }, some (stream_context e))
  | none ↦ (record { selects = out.selects + 1; sent = out.sent ++ event ∷ [] }, none)
]

abbrev pub no_call : ToolCall
no_call = record { id = ""; name = ""; arguments = "" }

abbrev pub delta_event : String → ModelEvent
delta_event delta = record {
  type = text_delta;
  delta = delta;
  output = "";
  call = no_call;
  used = zero_usage;
}

abbrev pub completed_event : String → ModelEvent
completed_event final = record {
  type = completed;
  delta = "";
  output = final;
  call = no_call;
  used = zero_usage;
}

abbrev pub call_event : ToolCallBuilder → ModelEvent
call_event builder = record {
  type = tool_call;
  delta = "";
  output = "";
  call = record { id = builder.id; name = builder.name; arguments = builder.arguments };
  used = zero_usage;
}

abbrev pub usage_event : Usage → ModelEvent
usage_event used = record { type = usage; delta = ""; output = ""; call = no_call; used = used }

-- `builder == nil || builder.id == "" || builder.name == ""`
unfoldable pub complete_builder : Option ToolCallBuilder → Option ToolCallBuilder
complete_builder none = none
complete_builder (some builder) =
    if builder.id == "" || builder.name == "" then none else some builder

-- The loop from an index, for a number of rounds.
unfoldable pub emit_from : Selects → Builders → ℕ → ℕ → Outlet → Outlet × Option AdapterError
unfolding send complete_builder builder_at
emit_from context builders index zero out = (out, none)
emit_from context builders index (suc rounds) out =
    elim (complete_builder (builder_at (pos index) builders)) [
      | none ↦ (out, some (malformed_stream "incomplete tool call"))
      | some builder ↦
          next_if_ok (send context out (call_event builder))
            (λ out'. emit_from context builders (index + 1) rounds out')
    ]

unfoldable pub emit_tool_calls : Selects → Outlet → Builders → Outlet × Option AdapterError
unfolding emit_from
emit_tool_calls context out builders = emit_from context builders 0 (length builders) out
