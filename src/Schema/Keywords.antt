-- ===== src/Schema/Keywords.antt =====
-- The keywords of an accepted definition that say nothing of parts never make `validateValue` panic.
use reliable_agent_runtime.Prelude.{Option, Option-cases, String, inl, inr, none, ok, some, ◌≡◌}
use reliable_agent_runtime.Schema.Check.{check_type}
use reliable_agent_runtime.Schema.Safety.{
  IsAccepted, NeverPanics, accepted_parts, if_safe, ok_safe, seq_safe,
}
use reliable_agent_runtime.Schema.Validate.{
  Decoding, is_among, is_valid_type, require_all, validate_enum, validate_required, validate_self,
  validate_type,
}
use reliable_agent_runtime.Schema.Values.{
  Fields, Items, Json, array, boolean, element, end_of_array, get, invalid_value, null, number,
  object, text,
}
use reliable_agent_runtime.Store.Memory.{candidates}

module _ (dec : Decoding) where
  validate_type_safe :
      (raw : Option Json) (value : Json) (path path' : String)
      → check_type raw path' ≡ ok tt
      → NeverPanics (validate_type dec raw value path)
  unfolding check_type validate_type
  validate_type_safe none value path path' h = ok_safe
  validate_type_safe (some (text name)) value path path' h =
      if_safe (is_valid_type dec name value) (invalid_value path) (λ e. cc e)
  validate_type_safe (some null) value path path' h = absurd (cc h)
  validate_type_safe (some (boolean _)) value path path' h = absurd (cc h)
  validate_type_safe (some (number _)) value path path' h = absurd (cc h)
  validate_type_safe (some (array _)) value path path' h = absurd (cc h)
  validate_type_safe (some (object _)) value path path' h = absurd (cc h)

  validate_enum_safe :
      (raw : Option Json) (value : Json) (path : String)
      → NeverPanics (validate_enum dec raw value path)
  unfolding validate_enum
  validate_enum_safe none value path = ok_safe
  validate_enum_safe (some (array candidates)) value path =
      if_safe (is_among dec candidates value) (invalid_value path) (λ e. cc e)
  validate_enum_safe (some null) value path = λ e. cc e
  validate_enum_safe (some (boolean _)) value path = λ e. cc e
  validate_enum_safe (some (number _)) value path = λ e. cc e
  validate_enum_safe (some (text _)) value path = λ e. cc e
  validate_enum_safe (some (object _)) value path = λ e. cc e

  require_all_safe :
      (names : Items) (fields : Fields) (path : String)
      → NeverPanics (require_all dec names fields path)
  unfolding require_all
  require_all_safe end_of_array fields path = ok_safe
  require_all_safe (element (text name) names) fields path = elim (Option-cases (get name fields)) [
    | inl missing ↦ rw (missing, require_all) (λ e. cc e)
    | inr (value, found) ↦ rw (found, require_all) (require_all_safe names fields path)
  ]
  require_all_safe (element null names) fields path = λ e. cc e
  require_all_safe (element (boolean _) names) fields path = λ e. cc e
  require_all_safe (element (number _) names) fields path = λ e. cc e
  require_all_safe (element (array _) names) fields path = λ e. cc e
  require_all_safe (element (object _) names) fields path = λ e. cc e

  pub validate_required_safe :
      (raw : Option Json) (fields : Fields) (path : String)
      → NeverPanics (validate_required dec raw fields path)
  unfolding validate_required
  validate_required_safe none fields path = ok_safe
  validate_required_safe (some (array names)) fields path = require_all_safe names fields path
  validate_required_safe (some null) fields path = λ e. cc e
  validate_required_safe (some (boolean _)) fields path = λ e. cc e
  validate_required_safe (some (number _)) fields path = λ e. cc e
  validate_required_safe (some (text _)) fields path = λ e. cc e
  validate_required_safe (some (object _)) fields path = λ e. cc e

  pub validate_self_safe :
      (definition : Fields) (value : Json) (path : String)
      → IsAccepted definition
      → NeverPanics (validate_self dec definition value path)
  unfolding validate_self
  validate_self_safe definition value path accepted =
      let (typed, properties, items) = accepted_parts definition accepted in
      seq_safe (validate_type dec (get "type" definition) value path)
        (validate_enum dec (get "enum" definition) value path)
        (validate_type_safe (get "type" definition) value path typed.0 typed.1)
        (validate_enum_safe (get "enum" definition) value path)
