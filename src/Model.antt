-- ===== src/Model.antt =====
-- internal/model/model.go: what the engine and a model adapter exchange.
use reliable_agent_runtime.Prelude.{Bool, List, String, add_int, eqb_ℤ, pos, ℤ, ◌&&◌}
use reliable_agent_runtime.Domain.{RawMessage}

pub record ToolCall : Type 0 where
  pub id : String
  pub name : String
  pub arguments : RawMessage

pub record Message : Type 0 where
  pub role : String
  pub content : String
  pub tool_call_id : String
  pub tool_name : String
  pub tool_calls : List ToolCall

pub record ToolDefinition : Type 0 where
  pub name : String
  pub description : String
  pub input_schema : RawMessage

pub record Request : Type 0 where
  pub run_id : String
  pub turn : ℤ
  pub messages : List Message
  pub tools : List ToolDefinition

pub record Usage : Type 0 where
  pub input_tokens : ℤ
  pub output_tokens : ℤ
  pub cost_micros : ℤ

abbrev pub zero_usage : Usage
zero_usage = record { input_tokens = pos 0; output_tokens = pos 0; cost_micros = pos 0 }

-- Three `+=` on the fields.
unfoldable pub add_usage : Usage → Usage → Usage
add_usage a b = record {
  input_tokens = add_int a.input_tokens b.input_tokens;
  output_tokens = add_int a.output_tokens b.output_tokens;
  cost_micros = add_int a.cost_micros b.cost_micros;
}

unfoldable pub same_usage : Usage → Usage → Bool
same_usage a b =
    eqb_ℤ a.input_tokens b.input_tokens
    && eqb_ℤ a.output_tokens b.output_tokens
    && eqb_ℤ a.cost_micros b.cost_micros

-- `other_type` is any text that is none of the constants.
pub data ModelEventType : Type 0 where
  text_delta tool_call usage completed : ModelEventType
  other_type : String → ModelEventType

pub record ModelEvent : Type 0 where
  pub type : ModelEventType
  pub delta : String
  pub output : String
  pub call : ToolCall
  pub used : Usage
