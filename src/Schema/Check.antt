-- ===== src/Schema/Check.antt =====
-- internal/schema/validator.go: `checkDefinition`.
use reliable_agent_runtime.Prelude.{
  Bool, Option, String, err, false, if◌then◌else◌, none, ok, some, true, ◌==◌, ◌>>◌, ◌||◌,
}
use reliable_agent_runtime.Schema.Values.{
  Fields, Json, Verdict, below, end_of_object, entry, get, invalid_schema, object, text,
}

unfoldable pub supported_type : String → Bool
supported_type name =
    name == "object"
    || name == "array"
    || name == "string"
    || name == "boolean"
    || name == "number"
    || name == "integer"
    || name == "null"

unfoldable pub check_type : Option Json → String → Verdict
check_type none path = ok tt
check_type (some (text name)) path =
    if supported_type name then ok tt else err (invalid_schema (below path "type"))
check_type (some _) path = err (invalid_schema (below path "type"))

-- The reads of the map are scans of the fields, so that the recursion is structural.
unfoldable mutual
  pub check_properties_of : Fields → String → Verdict
  check_properties_of end_of_object path = ok tt
  check_properties_of (entry name value fields) path = elim (name == "properties") [
    | true ↦ check_properties value path
    | false ↦ check_properties_of fields path
  ]

  pub check_properties : Json → String → Verdict
  check_properties (object children) path = check_children children (below path "properties")
  check_properties _ path = err (invalid_schema (below path "properties"))

  pub check_children : Fields → String → Verdict
  check_children end_of_object path = ok tt
  check_children (entry name child children) path =
      check_child child (below path name) >> check_children children path

  pub check_child : Json → String → Verdict
  check_child (object fields) path =
      check_type (get "type" fields) path
      >> check_properties_of fields path
      >> check_items_of fields path
  check_child _ path = err (invalid_schema path)

  pub check_items_of : Fields → String → Verdict
  check_items_of end_of_object path = ok tt
  check_items_of (entry name value fields) path = elim (name == "items") [
    | true ↦ check_child value (below path "items")
    | false ↦ check_items_of fields path
  ]

unfoldable pub check_definition : Fields → String → Verdict
check_definition fields path =
    check_type (get "type" fields) path
    >> check_properties_of fields path
    >> check_items_of fields path
