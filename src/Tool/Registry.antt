-- ===== src/Tool/Registry.antt =====
-- internal/tool/registry.go: the tools that a run may call.
use reliable_agent_runtime.Prelude.{
  Bool, Dict, List, Option, Result, String, [], err, if◌then◌else◌, insert, lookup, map, none, ok,
  some, sort_slice, str_lt, values, ◌==◌,
}
use reliable_agent_runtime.Domain.{RawMessage}
use reliable_agent_runtime.Schema.Validate.{Decoding, check, validate_json}
use reliable_agent_runtime.Schema.Values.{SchemaError}

pub record Definition : Type 0 where
  pub name : String
  pub description : String
  pub input_schema : RawMessage
  pub read_only : Bool

pub data ToolError : Type 0 where
  already_registered tool_not_found : String → ToolError
  invalid_definition : ToolError
  invalid_arguments : SchemaError → ToolError
  -- What a handler returns.
  handler_error : String → ToolError

-- A handler, whose definition is the same at every call, and whose runs change a world.
pub record Handler (World : Type 0) : Type 0 where
  pub definition : Definition
  pub run : RawMessage → World → Result ToolError String × World

abbrev pub Registry : Type 0 → Type 0
Registry World = Dict (Handler World)

unfoldable pub new_registry : {World : Type 0} → Registry World
new_registry = []

abbrev pub before : Definition → Definition → Bool
before a b = str_lt a.name b.name

module _ (dec : Decoding) {World : Type 0} where
  -- The part under the mutex.
  unfoldable pub add_handler :
      Registry World → Handler World → Registry World × Result ToolError (Unit {0})
  add_handler registry handler = elim (lookup handler.definition.name registry) [
    | some _ ↦ (registry, err (already_registered handler.definition.name))
    | none ↦ (insert handler.definition.name handler registry, ok tt)
  ]

  unfoldable pub register :
      Registry World → Handler World → Registry World × Result ToolError (Unit {0})
  register registry handler =
      if handler.definition.name == ""
      then (registry, err invalid_definition)
      else elim (check dec handler.definition.input_schema) [
        | err e ↦ (registry, err (invalid_arguments e))
        | ok _ ↦ add_handler registry handler
      ]

  unfoldable pub definitions : Registry World → List Definition
  definitions registry = sort_slice before (map (λ handler. handler.definition) (values registry))

  unfoldable pub find_definition : Registry World → String → Option Definition
  find_definition registry name = elim (lookup name registry) [
    | none ↦ none
    | some handler ↦ some handler.definition
  ]

  -- The handler runs if the arguments fit its schema.
  unfoldable pub run_checked : Handler World → RawMessage → World → Result ToolError String × World
  run_checked handler arguments world =
      elim (validate_json dec handler.definition.input_schema arguments) [
        | err e ↦ (err (invalid_arguments e), world)
        | ok _ ↦ handler.run arguments world
      ]

  unfoldable pub execute_registered :
      Registry World → String → RawMessage → World → Result ToolError String × World
  execute_registered registry name arguments world = elim (lookup name registry) [
    | none ↦ (err (tool_not_found name), world)
    | some handler ↦ run_checked handler arguments world
  ]
