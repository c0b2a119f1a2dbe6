-- ===== src/Schema/Values.antt =====
-- What internal/schema/validator.go decodes: JSON with numbers kept as their text. An object is its
-- fields, whose order stands for the order in which Go's `range` meets them.

use Prim.Native.String.{◌++◌ as append_str}
use reliable_agent_runtime.Prelude.{Bool, Option, Result, String, if◌then◌else◌, none, some, ◌==◌}

mutual
  pub data Json : Type 0 where
    null : Json
    boolean : Bool → Json
    number : String → Json
    text : String → Json
    array : Items → Json
    object : Fields → Json

  pub data Items : Type 0 where
    end_of_array : Items
    element : Json → Items → Items

  pub data Fields : Type 0 where
    end_of_object : Fields
    entry : String → Json → Fields → Fields

-- A read of the map.
unfoldable pub get : String → Fields → Option Json
get wanted end_of_object = none
get wanted (entry name value fields) = if name == wanted then some value else get wanted fields

-- `invalid_schema` and `invalid_value` wrap the two errors of the package, with the path of the part
-- that is wrong; `panics` is a type assertion that fails.
pub data SchemaError : Type 0 where
  invalid_schema invalid_value : String → SchemaError
  panics : SchemaError

abbrev pub Verdict : Type 0
Verdict = Result SchemaError (Unit {0})

abbrev pub below : String → String → String
below path name = append_str path (append_str "." name)
