-- ===== src/Schema/Validate.antt =====
-- internal/schema/validator.go: `Validate`, `Check`, `validateValue` and `validateType`.
use Prim.Native.String.{◌++◌ as append_str}
use reliable_agent_runtime.Prelude.{
  Bool, Option, String, err, false, if◌then◌else◌, none, ok, some, true, ℕ, ◌&&◌, ◌+◌, ◌==◌, ◌>>◌,
  ◌||◌,
}
use reliable_agent_runtime.Domain.{RawMessage}
use reliable_agent_runtime.Schema.Check.{check_definition}
use reliable_agent_runtime.Schema.Values.{
  Fields, Items, Json, Verdict, array, below, boolean, element, end_of_array, end_of_object, entry,
  get, invalid_schema, invalid_value, null, number, object, panics, text,
}
use reliable_agent_runtime.Store.Memory.{candidates}

-- What the validator takes from `encoding/json`, `reflect` and `fmt`.
pub record Decoding : Type 0 where
  -- The first value of a text, if there is one.
  pub decode : RawMessage → Option Json
  pub deep_equal : Json → Json → Bool
  -- Whether `Number.Int64` succeeds.
  pub is_int64 : String → Bool
  -- "[i]"
  pub index_text : ℕ → String

-- Decoding into a `map[string]any`, which null leaves nil.
unfoldable pub as_definition : Option Json → Option Fields
as_definition (some (object fields)) = some fields
as_definition (some null) = some end_of_object
as_definition _ = none

module _ (dec : Decoding) where
  unfoldable pub is_valid_type : String → Json → Bool
  is_valid_type name (object _) = name == "object"
  is_valid_type name (array _) = name == "array"
  is_valid_type name (text _) = name == "string"
  is_valid_type name (boolean _) = name == "boolean"
  is_valid_type name (number digits) = name == "number" || name == "integer" && dec.is_int64 digits
  is_valid_type name null = name == "null"

  unfoldable pub validate_type : Option Json → Json → String → Verdict
  validate_type none value path = ok tt
  validate_type (some (text name)) value path =
      if is_valid_type name value then ok tt else err (invalid_value path)
  validate_type (some _) value path = err panics

  unfoldable pub is_among : Items → Json → Bool
  is_among end_of_array value = false
  is_among (element candidate candidates) value =
      dec.deep_equal candidate value || is_among candidates value

  unfoldable pub validate_enum : Option Json → Json → String → Verdict
  validate_enum none value path = ok tt
  validate_enum (some (array candidates)) value path =
      if is_among candidates value then ok tt else err (invalid_value path)
  validate_enum (some _) value path = err (invalid_schema path)

  unfoldable pub require_all : Items → Fields → String → Verdict
  require_all end_of_array fields path = ok tt
  require_all (element (text name) names) fields path = elim (get name fields) [
    | none ↦ err (invalid_value (below path name))
    | some _ ↦ require_all names fields path
  ]
  require_all (element _ names) fields path = err (invalid_schema path)

  unfoldable pub validate_required : Option Json → Fields → String → Verdict
  validate_required none fields path = ok tt
  validate_required (some (array names)) fields path = require_all names fields path
  validate_required (some _) fields path = err (invalid_schema path)

  -- `properties`, where a value that is no object panics.
  unfoldable pub properties_of : Option Json → Option Fields
  properties_of none = some end_of_object
  properties_of (some (object properties)) = some properties
  properties_of (some _) = none

  unfoldable pub allows_additional : Option Json → Bool
  allows_additional (some (boolean allowed)) = allowed
  allows_additional _ = true

  -- The checks of `type` and `enum`.
  unfoldable pub validate_self : Fields → Json → String → Verdict
  validate_self definition value path =
      validate_type (get "type" definition) value path
      >> validate_enum (get "enum" definition) value path

  unfoldable mutual
    -- The rest of `validateValue`: the fields of an object, or the items of an array.
    pub validate_parts : Fields → Json → String → Verdict
    validate_parts definition (object fields) path =
        validate_required (get "required" definition) fields path
        >> elim (properties_of (get "properties" definition)) [
          | none ↦ err panics
          | some properties ↦
              validate_fields properties (allows_additional (get "additionalProperties" definition))
                fields path
        ]
    validate_parts definition (array items) path = elim (get "items" definition) [
      | none ↦ ok tt
      | some (object item_definition) ↦ validate_items item_definition items 0 path
      | some _ ↦ err panics
    ]
    validate_parts definition _ path = ok tt

    pub validate_fields : Fields → Bool → Fields → String → Verdict
    validate_fields properties allowed end_of_object path = ok tt
    validate_fields properties allowed (entry name child fields) path =
        elim (get name properties) [
          | none ↦ if allowed then ok tt else err (invalid_value (below path name))
          | some (object definition) ↦
              validate_self definition child (below path name)
              >> validate_parts definition child (below path name)
          | some _ ↦ err panics
        ]
        >> validate_fields properties allowed fields path

    pub validate_items : Fields → Items → ℕ → String → Verdict
    validate_items definition end_of_array index path = ok tt
    validate_items definition (element value items) index path =
        validate_self definition value (append_str path (dec.index_text index))
        >> validate_parts definition value (append_str path (dec.index_text index))
        >> validate_items definition items (index + 1) path

  unfoldable pub validate_value : Fields → Json → String → Verdict
  validate_value definition value path =
      validate_self definition value path >> validate_parts definition value path

  unfoldable pub check : RawMessage → Verdict
  check schema = elim (as_definition (dec.decode schema)) [
    | none ↦ err (invalid_schema "")
    | some definition ↦ check_definition definition "$schema"
  ]

  unfoldable pub validate_json : RawMessage → RawMessage → Verdict
  validate_json schema value = elim (as_definition (dec.decode schema)) [
    | none ↦ err (invalid_schema "")
    | some definition ↦ check_definition definition "$schema" >> elim (dec.decode value) [
      | none ↦ err (invalid_value "")
      | some json ↦ validate_value definition json "$"
    ]
  ]
