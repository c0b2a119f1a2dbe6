-- ===== src/Adapter/Body.antt =====
-- internal/model/openaicompat/adapter.go: the fields of the request object.
use reliable_agent_runtime.Prelude.{
  Bool-cases, Dict, List, String, [], eq_refl, false, inl, inr, insert, lookup, lookup-insert,
  ltb_ℤ, map, pos, refl, some, true, ◌==◌, ◌∙◌, ◌∷◌, ◌≡◌, ◌≢◌,
}
use reliable_agent_runtime.Adapter.Call.{
  Adapter, BodyValue, RequestMessage, RequestTool, RequestToolCall, common_body, convert_call,
  convert_message, convert_tool, flag_value, messages_value, options_value, request_body,
  text_value, tools_value, with_tools,
}
use reliable_agent_runtime.Model.{Message, Request, ToolCall, ToolDefinition}
use reliable_agent_runtime.Tool.Registry.{definitions}

-- Two lists that agree place by place.
abbrev pub Pairwise : {A B : Type 0} → (A → B → Type 0) → List A → List B → Type 0
Pairwise R [] [] = Unit
Pairwise R (x ∷ xs) (y ∷ ys) = R x y × Pairwise R xs ys
Pairwise R _ _ = ⊥

Pairwise-map :
    {A B : Type 0}
    → (R : A → B → Type 0) (f : A → B) (xs : List A) → ((x : A) → R x (f x))
    → Pairwise R xs (map f xs)
Pairwise-map R f [] h = tt
Pairwise-map R f (x ∷ xs) h = (h x, Pairwise-map R f xs h)

pub record IsCall (call : ToolCall) (sent : RequestToolCall) : Type 0 where
  pub same_id : sent.id ≡ call.id
  pub is_function : sent.type ≡ "function"
  pub same_name : sent.name ≡ call.name
  pub same_arguments : sent.arguments ≡ call.arguments

-- A message of the request, all of it but the tool's name.
pub record IsMessage (m : Message) (sent : RequestMessage) : Type 0 where
  pub same_role : sent.role ≡ m.role
  pub same_content : sent.content ≡ m.content
  pub same_call : sent.tool_call_id ≡ m.tool_call_id
  pub same_calls : Pairwise IsCall m.tool_calls sent.tool_calls

pub record IsTool (definition : ToolDefinition) (sent : RequestTool) : Type 0 where
  pub is_function : sent.type ≡ "function"
  pub same_name : sent.name ≡ definition.name
  pub same_description : sent.description ≡ definition.description
  pub same_schema : sent.parameters ≡ definition.input_schema

converted_messages :
    (messages : List Message) → Pairwise IsMessage messages (map convert_message messages)
unfolding convert_message convert_call
converted_messages messages = Pairwise-map IsMessage convert_message messages (λ m. record {
  same_role = refl;
  same_content = refl;
  same_call = refl;
  same_calls = Pairwise-map IsCall convert_call m.tool_calls (λ call. record {
    same_id = refl;
    is_function = refl;
    same_name = refl;
    same_arguments = refl;
  });
})

converted_tools : (tools : List ToolDefinition) → Pairwise IsTool tools (map convert_tool tools)
unfolding convert_tool
converted_tools tools = Pairwise-map IsTool convert_tool tools (λ definition. record {
  is_function = refl;
  same_name = refl;
  same_description = refl;
  same_schema = refl;
})

-- What the object says, whatever `ExtraBody` holds.
pub record IsCommon (a : Adapter) (request : Request) (body : Dict BodyValue) : Type 0 where
  pub names_model : lookup "model" body ≡ some (text_value a.config.model)
  pub messages : List RequestMessage
  pub has_messages : lookup "messages" body ≡ some (messages_value messages)
  pub are_messages : Pairwise IsMessage request.messages messages
  pub streams : lookup "stream" body ≡ some (flag_value true)
  pub counts_tokens :
      lookup "stream_options" body ≡ some (options_value (("include_usage", true) ∷ []))

pub record HasTools (tools : List ToolDefinition) (body : Dict BodyValue) : Type 0 where
  pub sent : List RequestTool
  pub has_tools : lookup "tools" body ≡ some (tools_value sent)
  pub are_tools : Pairwise IsTool tools sent
  pub chooses : lookup "tool_choice" body ≡ some (text_value "auto")

-- Inserting keeps what other keys find.
insert_other :
    (key wanted : String) (value : BodyValue) (body : Dict BodyValue)
    → (key == wanted) ≡ false
    → lookup wanted (insert key value body) ≡ lookup wanted body
insert_other key wanted value body apart = rw (lookup-insert key wanted value body, apart) refl

insert_here :
    (key : String) (value : BodyValue) (body : Dict BodyValue)
    → lookup key (insert key value body) ≡ some value
insert_here key value body = rw (lookup-insert key key value body, eq_refl key) refl

common_body-IsCommon :
    (a : Adapter) (request : Request) → IsCommon a request (common_body a request)
unfolding common_body
common_body-IsCommon a request = record {
  names_model =
      insert_other "stream_options" "model" _ _ refl
      ∙ insert_other "stream" "model" _ _ refl
      ∙ insert_other "messages" "model" _ _ refl
      ∙ insert_here "model" _ _;
  messages = map convert_message request.messages;
  are_messages = converted_messages request.messages;
  has_messages =
      insert_other "stream_options" "messages" _ _ refl
      ∙ insert_other "stream" "messages" _ _ refl
      ∙ insert_here "messages" _ _;
  streams = insert_other "stream_options" "stream" _ _ refl ∙ insert_here "stream" _ _;
  counts_tokens = insert_here "stream_options" _ _;
}

insert-IsCommon :
    (a : Adapter) (request : Request) (key : String) (value : BodyValue) (body : Dict BodyValue)
    → (key == "model") ≡ false
    → (key == "messages") ≡ false
    → (key == "stream") ≡ false
    → (key == "stream_options") ≡ false
    → IsCommon a request body
    → IsCommon a request (insert key value body)
insert-IsCommon a request key value body h1 h2 h3 h4 h = record {
  names_model = insert_other key "model" value body h1 ∙ h.names_model;
  messages = h.messages;
  are_messages = h.are_messages;
  has_messages = insert_other key "messages" value body h2 ∙ h.has_messages;
  streams = insert_other key "stream" value body h3 ∙ h.streams;
  counts_tokens = insert_other key "stream_options" value body h4 ∙ h.counts_tokens;
}

with_tools-IsCommon :
    (a : Adapter) (request : Request) (tools : List ToolDefinition) (body : Dict BodyValue)
    → IsCommon a request body
    → IsCommon a request (with_tools tools body)
unfolding with_tools
with_tools-IsCommon a request [] body h = h
with_tools-IsCommon a request (definition ∷ definitions) body h =
    insert-IsCommon a request "tool_choice" _ _ refl refl refl refl
      (insert-IsCommon a request "tools" _ _ refl refl refl refl h)

with_tools-HasTools :
    (tools : List ToolDefinition) (body : Dict BodyValue)
    → tools ≢ []
    → HasTools tools (with_tools tools body)
unfolding with_tools
with_tools-HasTools [] body h = absurd (h refl)
with_tools-HasTools (definition ∷ definitions) body h = record {
  sent = map convert_tool (definition ∷ definitions);
  has_tools = insert_other "tool_choice" "tools" _ _ refl ∙ insert_here "tools" _ _;
  are_tools = converted_tools (definition ∷ definitions);
  chooses = insert_here "tool_choice" _ _;
}

-- The request object names the model, has each message in its place with its role, content, tool
-- call identifier and tool calls, asks for a stream with the token counts, and if there are tools
-- has each in its place with its name, description and schema, and the choice `auto`: whatever
-- `ExtraBody` holds.
pub request_body-IsRequestBody :
    (a : Adapter) (request : Request)
    → IsCommon a request (request_body a request)
      × (request.tools ≢ [] → HasTools request.tools (request_body a request))
unfolding request_body
request_body-IsRequestBody a request =
    let common = with_tools-IsCommon a request request.tools _ (common_body-IsCommon a request) in
    let tools = with_tools-HasTools request.tools (common_body a request) in
    elim (Bool-cases (ltb_ℤ (pos 0) a.config.max_tokens)) [
      | inr unlimited ↦ rw unlimited (common, tools)
      | inl limited ↦ rw limited (
        insert-IsCommon a request "max_tokens" _ _ refl refl refl refl common,
        λ some_tools.
            let t = tools some_tools in
            record {
              sent = t.sent;
              has_tools = insert_other "max_tokens" "tools" _ _ refl ∙ t.has_tools;
              are_tools = t.are_tools;
              chooses = insert_other "max_tokens" "tool_choice" _ _ refl ∙ t.chooses;
            },
      )
    ]
