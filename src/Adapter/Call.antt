-- ===== src/Adapter/Call.antt =====
-- internal/model/openaicompat/adapter.go: the configuration, the errors and the request.
use Prim.Native.String.{◌++◌ as append_str}
use reliable_agent_runtime.Prelude.{
  Bool, Dict, List, Option, Result, String, [], eqb, err, if◌then◌else◌, insert, leb, ltb_ℤ, map,
  none, ok, pos, some, true, ℕ, ℤ, ◌==◌, ◌||◌, ◌∷◌,
}
use reliable_agent_runtime.Domain.{RawMessage}
use reliable_agent_runtime.Engine.Environment.{EngineError}
use reliable_agent_runtime.Model.{Message, Request, ToolCall, ToolDefinition}
use reliable_agent_runtime.Tool.Registry.{definitions}

-- `BaseURL` after `strings.TrimRight(_, "/")`, with what `url.Parse` makes of it: the scheme and
-- the host, or none for an error.
pub record AdapterConfig : Type 0 where
  pub base_url : String
  pub parsed_url : Option (String × String)
  pub api_key : String
  pub model : String
  pub max_tokens : ℤ
  pub input_micros_per_million : ℤ
  pub output_micros_per_million : ℤ
  pub extra_body : Dict RawMessage

pub data AdapterError : Type 0 where
  invalid_adapter_config : AdapterError
  malformed_stream : String → AdapterError
  incomplete_response : String → AdapterError
  stream_context : EngineError → AdapterError
  scanner_error : String → AdapterError
  request_error : String → AdapterError
  http_error : ℕ → String → AdapterError

pub record Adapter : Type 0 where
  pub endpoint : String
  pub config : AdapterConfig

abbrev missing : AdapterConfig → Bool
missing config = elim config.parsed_url [
  | none ↦ true
  | some url ↦ url.0 == "" || url.1 == "" || config.api_key == "" || config.model == ""
]

-- `New`; the HTTP client is not part of the model.
unfoldable pub new_adapter : AdapterConfig → Result AdapterError Adapter
new_adapter config =
    if missing config
    then err invalid_adapter_config
    else ok (record { endpoint = append_str config.base_url "/chat/completions"; config = config })

unfoldable pub adapter_name : Adapter → String
adapter_name a = append_str "openai-compatible:" a.config.model

-- `HTTPError.Retryable`
unfoldable pub is_retryable : ℕ → Bool
is_retryable status_code = eqb status_code 408 || eqb status_code 429 || leb 500 status_code

pub record RequestToolCall : Type 0 where
  pub id : String
  pub type : String
  pub name : String
  pub arguments : String

pub record RequestMessage : Type 0 where
  pub role : String
  pub content : String
  pub tool_call_id : String
  pub tool_calls : List RequestToolCall

pub record RequestTool : Type 0 where
  pub type : String
  pub name : String
  pub description : String
  pub parameters : RawMessage

-- The values of the request object: those of `ExtraBody` and those that the adapter sets.
pub data BodyValue : Type 0 where
  extra_value : RawMessage → BodyValue
  text_value : String → BodyValue
  flag_value : Bool → BodyValue
  number_value : ℤ → BodyValue
  messages_value : List RequestMessage → BodyValue
  tools_value : List RequestTool → BodyValue
  options_value : Dict Bool → BodyValue

unfoldable pub convert_call : ToolCall → RequestToolCall
convert_call call = record {
  id = call.id;
  type = "function";
  name = call.name;
  arguments = call.arguments;
}

unfoldable pub convert_message : Message → RequestMessage
unfolding convert_call
convert_message m = record {
  role = m.role;
  content = m.content;
  tool_call_id = m.tool_call_id;
  tool_calls = map convert_call m.tool_calls;
}

unfoldable pub convert_tool : ToolDefinition → RequestTool
convert_tool definition = record {
  type = "function";
  name = definition.name;
  description = definition.description;
  parameters = definition.input_schema;
}

abbrev clone_map : Dict RawMessage → Dict BodyValue
clone_map [] = []
clone_map ((key, value) ∷ rest) = (key, extra_value value) ∷ clone_map rest

-- The fields that every request has.
unfoldable pub common_body : Adapter → Request → Dict BodyValue
unfolding convert_message
common_body a request = insert "stream_options" (options_value (("include_usage", true) ∷ [])) (
    insert "stream" (flag_value true) (
      insert "messages" (messages_value (map convert_message request.messages))
        (insert "model" (text_value a.config.model) (clone_map a.config.extra_body))))

unfoldable pub with_tools : List ToolDefinition → Dict BodyValue → Dict BodyValue
unfolding convert_tool
with_tools [] body = body
with_tools (definition ∷ definitions) body =
    insert "tool_choice" (text_value "auto")
      (insert "tools" (tools_value (map convert_tool (definition ∷ definitions))) body)

-- The object that `requestBody` encodes.
unfoldable pub request_body : Adapter → Request → Dict BodyValue
unfolding common_body with_tools
request_body a request =
    let body = with_tools request.tools (common_body a request) in
    if ltb_ℤ (pos 0) a.config.max_tokens
    then insert "max_tokens" (number_value a.config.max_tokens) body
    else body
