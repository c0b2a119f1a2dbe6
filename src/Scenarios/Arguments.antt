-- ===== src/Scenarios/Arguments.antt =====
-- Tool arguments that are checked against a schema.
use reliable_agent_runtime.Prelude.{
  Bool-cases, List, String, [], err, false, if◌then◌else◌, inl, inr, lookup, ok, refl, some, subst,
  true, ◌==◌, ◌∷◌, ◌≡◌, ◌≢◌,
}
use reliable_agent_runtime.Domain.{RawMessage}
use reliable_agent_runtime.Schema.Check.{check_child, check_definition, check_type, supported_type}
use reliable_agent_runtime.Schema.Panic.{validate_json_safe}
use reliable_agent_runtime.Schema.Validate.{
  Decoding, allows_additional, as_definition, is_valid_type, properties_of, require_all,
  validate_enum, validate_json, validate_parts, validate_required, validate_self, validate_type,
  validate_value,
}
use reliable_agent_runtime.Schema.Values.{
  Fields, Verdict, array, element, end_of_array, end_of_object, entry, get, invalid_value, number,
  object, panics, text,
}
use reliable_agent_runtime.Tool.Registration.{
  IsRegistry, execute_registered_kept, register-IsRegistry,
}
use reliable_agent_runtime.Tool.Registry.{
  Handler, Registry, execute_registered, new_registry, register,
}

abbrev with_type : String → Fields → Fields
with_type name rest = entry "type" (text name) rest

abbrev the_schema : Fields
the_schema = with_type "object" (
    entry "properties"
      (object (entry "n" (object (with_type "integer" end_of_object)) end_of_object))
      (entry "required" (array (element (text "n") end_of_array)) end_of_object))

abbrev decoding : Decoding
decoding = record {
  decode = λ raw.
      if raw == "schema"
      then some (object the_schema)
      else some (object (entry "n" (number raw) end_of_object));
  deep_equal = λ a b. false;
  is_int64 = λ digits. digits == "7";
  index_text = λ i. "[]";
}

abbrev verdicts : Verdict × Verdict
verdicts = (validate_json decoding "schema" "7", validate_json decoding "schema" "7.5")

takes_integers : verdicts ≡ (ok tt, err (invalid_value "$.n"))
unfolding validate_json as_definition check_definition check_child check_type supported_type
    validate_value validate_self validate_parts validate_type validate_enum validate_required
    require_all properties_of allows_additional is_valid_type get
takes_integers = refl

validate_json_safe_example : validate_json decoding "schema" "7.5" ≢ err panics
validate_json_safe_example = validate_json_safe decoding "schema" "7.5"

-- A tool that answers with its arguments.
abbrev echo : Handler (List String)
echo = record {
  definition = record {
    name = "echo";
    description = "";
    input_schema = "schema";
    read_only = true;
  };
  run = λ arguments w. (ok arguments, w);
}

abbrev echo_only : Registry (List String)
echo_only = ("echo", echo) ∷ []

abbrev IsIdle : List String → Type 0
IsIdle w = w ≡ []

new_registry-IsRegistry : IsRegistry decoding (new_registry {World = List String})
unfolding new_registry lookup
new_registry-IsRegistry name handler e = absurd (cc e)

echo-IsIdle :
    (name : String) (handler : Handler (List String)) (arguments : RawMessage) (w : List String)
    → lookup name echo_only ≡ some handler
    → validate_json decoding handler.definition.input_schema arguments ≡ ok tt
    → IsIdle w
    → IsIdle (handler.run arguments w).1
unfolding lookup
echo-IsIdle name handler arguments w found valid p = elim (Bool-cases ("echo" == name)) [
  | inl same ↦
      let is_echo : echo ≡ handler = cc (rw same at found) in
      subst (λ (x : Handler (List String)). IsIdle (x.run arguments w).1) is_echo p
  | inr differs ↦ absurd (cc (rw differs at found))
]

register-IsRegistry_example : IsRegistry decoding (register decoding new_registry echo).0
register-IsRegistry_example = register-IsRegistry decoding new_registry echo new_registry-IsRegistry

execute_registered_kept_example : IsIdle (execute_registered decoding echo_only "echo" "7.5" []).1
execute_registered_kept_example =
    execute_registered_kept decoding echo_only IsIdle echo-IsIdle "echo" "7.5" [] refl
