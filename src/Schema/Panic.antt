-- ===== src/Schema/Panic.antt =====
-- A definition that `checkDefinition` accepts never makes `validateValue` panic.
use reliable_agent_runtime.Prelude.{
  Bool, Option, Option-cases, Result-cases, String, err, if◌then◌else◌, inl, inr, none, ok, some, ℕ,
  ◌+◌, ◌>>◌, ◌∙◌, ◌≢◌,
}
use reliable_agent_runtime.Domain.{RawMessage}
use reliable_agent_runtime.Schema.Check.{check_definition}
use reliable_agent_runtime.Schema.Keywords.{validate_required_safe, validate_self_safe}
use reliable_agent_runtime.Schema.Safety.{
  IsAccepted, IsChild, IsProperties, NeverPanics, accepted_parts, check_definition_safe, if_safe,
  ok_safe, seq_safe,
}
use reliable_agent_runtime.Schema.Validate.{
  Decoding, allows_additional, as_definition, properties_of, validate_fields, validate_items,
  validate_json, validate_parts, validate_required, validate_self, validate_value,
}
use reliable_agent_runtime.Schema.Values.{
  Fields, Items, Json, Verdict, array, below, boolean, element, end_of_array, end_of_object, entry,
  get, invalid_value, null, number, object, panics, text,
}
use Prim.Native.String.{◌++◌ as append_str}

module _ (dec : Decoding) where
  child_safe :
      (raw : Option Json) (allowed : Bool) (child : Json) (path : String)
      → IsChild raw
      → ((definition : Fields)
          → IsAccepted definition
          → NeverPanics (validate_parts dec definition child path))
      → NeverPanics (elim raw as (λ _. Verdict) [
        | none ↦ if allowed then ok tt else err (invalid_value path)
        | some (object definition) ↦
            validate_self dec definition child path >> validate_parts dec definition child path
        | some _ ↦ err panics
      ])
  child_safe none allowed child path h rest = if_safe allowed (invalid_value path) (λ e. cc e)
  child_safe (some (object definition)) allowed child path h rest =
      seq_safe (validate_self dec definition child path) (validate_parts dec definition child path)
        (validate_self_safe dec definition child path h) (rest definition h)
  child_safe (some null) allowed child path h rest = absurd h
  child_safe (some (boolean _)) allowed child path h rest = absurd h
  child_safe (some (number _)) allowed child path h rest = absurd h
  child_safe (some (text _)) allowed child path h rest = absurd h
  child_safe (some (array _)) allowed child path h rest = absurd h

  properties_safe :
      (raw : Option Json) (next : Fields → Verdict)
      → IsProperties raw
      → ((properties : Fields)
          → ((name : String) → IsChild (get name properties))
          → NeverPanics (next properties))
      → NeverPanics (elim (properties_of dec raw) as (λ _. Verdict) [
        | none ↦ err panics
        | some properties ↦ next properties
      ])
  unfolding properties_of get
  properties_safe none next h rest = rest end_of_object (λ name. tt)
  properties_safe (some (object properties)) next h rest = rest properties h
  properties_safe (some null) next h rest = absurd h
  properties_safe (some (boolean _)) next h rest = absurd h
  properties_safe (some (number _)) next h rest = absurd h
  properties_safe (some (text _)) next h rest = absurd h
  properties_safe (some (array _)) next h rest = absurd h

  array_safe :
      (raw : Option Json) (next : Fields → Verdict)
      → IsChild raw
      → ((definition : Fields) → IsAccepted definition → NeverPanics (next definition))
      → NeverPanics (elim raw as (λ _. Verdict) [
        | none ↦ ok tt
        | some (object definition) ↦ next definition
        | some _ ↦ err panics
      ])
  array_safe none next h rest = ok_safe
  array_safe (some (object definition)) next h rest = rest definition h
  array_safe (some null) next h rest = absurd h
  array_safe (some (boolean _)) next h rest = absurd h
  array_safe (some (number _)) next h rest = absurd h
  array_safe (some (text _)) next h rest = absurd h
  array_safe (some (array _)) next h rest = absurd h

  mutual
    unfolding validate_parts

    parts_safe :
        (definition : Fields) (value : Json) (path : String)
        → IsAccepted definition
        → NeverPanics (validate_parts dec definition value path)
    parts_safe definition (object fields) path accepted =
        seq_safe (validate_required dec (get "required" definition) fields path) _
          (validate_required_safe dec (get "required" definition) fields path)
          (properties_safe (get "properties" definition)
            (λ properties.
              validate_fields dec properties
                (allows_additional dec (get "additionalProperties" definition)) fields path)
            (accepted_parts definition accepted).1
            (λ properties.
              fields_safe properties (allows_additional dec (get "additionalProperties" definition))
                fields path))
    parts_safe definition (array items) path accepted =
        array_safe (get "items" definition)
          (λ item_definition. validate_items dec item_definition items 0 path)
          (accepted_parts definition accepted).2
          (λ item_definition. items_safe item_definition items 0 path)
    parts_safe definition null path accepted = ok_safe
    parts_safe definition (boolean _) path accepted = ok_safe
    parts_safe definition (number _) path accepted = ok_safe
    parts_safe definition (text _) path accepted = ok_safe

    fields_safe :
        (properties : Fields) (allowed : Bool) (fields : Fields) (path : String)
        → ((name : String) → IsChild (get name properties))
        → NeverPanics (validate_fields dec properties allowed fields path)
    fields_safe properties allowed end_of_object path h = ok_safe
    fields_safe properties allowed (entry name child fields) path h =
        seq_safe _ _
          (child_safe (get name properties) allowed child (below path name) (h name)
            (λ definition. parts_safe definition child (below path name)))
          (fields_safe properties allowed fields path h)

    items_safe :
        (definition : Fields) (items : Items) (index : ℕ) (path : String)
        → IsAccepted definition
        → NeverPanics (validate_items dec definition items index path)
    items_safe definition end_of_array index path accepted = ok_safe
    items_safe definition (element value items) index path accepted =
        let path' = append_str path (dec.index_text index) in
        seq_safe
          (validate_self dec definition value path' >> validate_parts dec definition value path')
          (validate_items dec definition items (index + 1) path)
          (seq_safe (validate_self dec definition value path')
            (validate_parts dec definition value path')
            (validate_self_safe dec definition value path' accepted)
            (parts_safe definition value path' accepted))
          (items_safe definition items (index + 1) path accepted)

  validate_value_safe :
      (definition : Fields) (value : Json) (path : String)
      → IsAccepted definition
      → NeverPanics (validate_value dec definition value path)
  unfolding validate_value
  validate_value_safe definition value path accepted =
      seq_safe (validate_self dec definition value path) (validate_parts dec definition value path)
        (validate_self_safe dec definition value path accepted)
        (parts_safe definition value path accepted)

  -- `Validate` never panics: no type assertion fails in it, whatever the texts of the schema and of
  -- the value are.
  pub validate_json_safe : (schema value : RawMessage) → validate_json dec schema value ≢ err panics
  unfolding validate_json
  validate_json_safe schema value = elim (Option-cases (as_definition (dec.decode schema))) [
    | inl broken ↦ rw (broken, validate_json) (λ e. cc e)
    | inr (definition, decoded) ↦
        rw (decoded, validate_json)
          (elim (Result-cases (check_definition definition "$schema")) [
            | inr (e, refused) ↦
                rw refused (λ h. check_definition_safe definition "$schema" (refused ∙ h))
            | inl (_, accepted) ↦ rw accepted (elim (Option-cases (dec.decode value)) [
              | inl broken ↦ rw broken (λ e. cc e)
              | inr (json, parsed) ↦
                  rw parsed (validate_value_safe definition json "$" ("$schema", accepted))
            ])
          ])
  ]
