-- ===== src/Schema/Safety.antt =====
-- What `checkDefinition` tells of a definition that it accepts.
use reliable_agent_runtime.Prelude.{
  Bool, Bool-cases, Option, String, arith, err, false, if◌then◌else◌, inl, inr, none, ok, refl,
  some, true, ◌==◌, ◌>>◌, ◌≡◌, ◌≢◌,
}
use reliable_agent_runtime.Schema.Check.{
  check_child, check_children, check_definition, check_items_of, check_properties,
  check_properties_of, check_type, supported_type,
}
use reliable_agent_runtime.Schema.Values.{
  Fields, Json, SchemaError, Verdict, array, below, boolean, end_of_object, entry, get,
  invalid_schema, null, number, object, panics, text,
}

abbrev pub NeverPanics : Verdict → Type 0
NeverPanics verdict = verdict ≢ err panics

pub ok_safe : NeverPanics (ok tt)
ok_safe e = cc e

pub seq_safe : (a b : Verdict) → NeverPanics a → NeverPanics b → NeverPanics (a >> b)
seq_safe (ok _) b h k = k
seq_safe (err x) b h k = h

pub if_safe :
    (test : Bool) (e : SchemaError) → e ≢ panics → NeverPanics (if test then ok tt else err e)
if_safe true e h k = cc k
if_safe false e h k = h (ground (arith, k))

-- Whichever case a test picks.
either :
    (test : Bool) {a b : Verdict}
    → NeverPanics a
    → NeverPanics b
    → NeverPanics (elim test as (λ _. Verdict) [ true ↦ a | false ↦ b ])
either true h k = h
either false h k = k

pub seq_ok : (a b : Verdict) → a >> b ≡ ok tt → (a ≡ ok tt) × (b ≡ ok tt)
seq_ok (ok tt) b h = (refl, h)
seq_ok (err x) b h = absurd (cc h)

-- A definition that the check accepts, under some path.
abbrev pub IsAccepted : Fields → Type 0
IsAccepted definition = (path : String) × (check_definition definition path ≡ ok tt)

-- A child that is missing, or a definition that the check accepts.
abbrev pub IsChild : Option Json → Type 0
IsChild none = Unit
IsChild (some (object definition)) = IsAccepted definition
IsChild (some _) = ⊥

abbrev pub IsProperties : Option Json → Type 0
IsProperties none = Unit
IsProperties (some (object children)) = (name : String) → IsChild (get name children)
IsProperties (some _) = ⊥

check_child-IsChild :
    (child : Json) (path : String) → check_child child path ≡ ok tt → IsChild (some child)
unfolding check_child check_definition
check_child-IsChild (object fields) path h = (path, h)
check_child-IsChild null path h = absurd (cc h)
check_child-IsChild (boolean _) path h = absurd (cc h)
check_child-IsChild (number _) path h = absurd (cc h)
check_child-IsChild (text _) path h = absurd (cc h)
check_child-IsChild (array _) path h = absurd (cc h)

check_children-IsChild :
    (children : Fields) (path : String)
    → check_children children path ≡ ok tt
    → (name : String) → IsChild (get name children)
unfolding check_children get
check_children-IsChild end_of_object path h name = tt
check_children-IsChild (entry key child children) path h name =
    let (first, rest) =
      seq_ok (check_child child (below path key)) (check_children children path) h in
    elim (Bool-cases (key == name)) [
      | inl same ↦ rw same (check_child-IsChild child (below path key) first)
      | inr other_key ↦ rw other_key (check_children-IsChild children path rest name)
    ]

check_properties-IsProperties :
    (value : Json) (path : String) → check_properties value path ≡ ok tt → IsProperties (some value)
unfolding check_properties
check_properties-IsProperties (object children) path h = check_children-IsChild children _ h
check_properties-IsProperties null path h = absurd (cc h)
check_properties-IsProperties (boolean _) path h = absurd (cc h)
check_properties-IsProperties (number _) path h = absurd (cc h)
check_properties-IsProperties (text _) path h = absurd (cc h)
check_properties-IsProperties (array _) path h = absurd (cc h)

check_properties_of-IsProperties :
    (fields : Fields) (path : String)
    → check_properties_of fields path ≡ ok tt
    → IsProperties (get "properties" fields)
unfolding check_properties_of get
check_properties_of-IsProperties end_of_object path h = tt
check_properties_of-IsProperties (entry key value fields) path h =
    elim (Bool-cases (key == "properties")) [
      | inl same ↦
          rw same (check_properties-IsProperties value path (rw (same, check_properties_of) at h))
      | inr other_key ↦
          rw other_key (
            check_properties_of-IsProperties fields path (rw (other_key, check_properties_of) at h))
    ]

check_items_of-IsChild :
    (fields : Fields) (path : String)
    → check_items_of fields path ≡ ok tt
    → IsChild (get "items" fields)
unfolding check_items_of get
check_items_of-IsChild end_of_object path h = tt
check_items_of-IsChild (entry key value fields) path h = elim (Bool-cases (key == "items")) [
  | inl same ↦ rw same (check_child-IsChild value _ (rw (same, check_items_of) at h))
  | inr other_key ↦
      rw other_key (check_items_of-IsChild fields path (rw (other_key, check_items_of) at h))
]

-- What the check of a definition tells of its parts.
pub accepted_parts :
    (definition : Fields)
    → IsAccepted definition
    → ((path : String) × (check_type (get "type" definition) path ≡ ok tt))
      × IsProperties (get "properties" definition)
      × IsChild (get "items" definition)
unfolding check_definition
accepted_parts definition (path, h) =
    let (front, items) =
      seq_ok (check_type (get "type" definition) path >> check_properties_of definition path)
        (check_items_of definition path) h in
    let (type, properties) =
      seq_ok (check_type (get "type" definition) path) (check_properties_of definition path)
        front in
    (
      (path, type),
      check_properties_of-IsProperties definition path properties,
      check_items_of-IsChild definition path items,
    )

check_type_safe : (raw : Option Json) (path : String) → NeverPanics (check_type raw path)
unfolding check_type
check_type_safe none path = ok_safe
check_type_safe (some (text name)) path =
    if_safe (supported_type name) (invalid_schema (below path "type")) (λ e. cc e)
check_type_safe (some null) path = λ e. cc e
check_type_safe (some (boolean _)) path = λ e. cc e
check_type_safe (some (number _)) path = λ e. cc e
check_type_safe (some (array _)) path = λ e. cc e
check_type_safe (some (object _)) path = λ e. cc e

-- The check itself does not panic.
mutual
  unfolding check_child

  check_properties_of_safe :
      (fields : Fields) (path : String) → NeverPanics (check_properties_of fields path)
  check_properties_of_safe end_of_object path = ok_safe
  check_properties_of_safe (entry key value fields) path =
      either (key == "properties") (check_properties_safe value path)
        (check_properties_of_safe fields path)

  check_properties_safe : (value : Json) (path : String) → NeverPanics (check_properties value path)
  check_properties_safe (object children) path =
      check_children_safe children (below path "properties")
  check_properties_safe null path = λ e. cc e
  check_properties_safe (boolean _) path = λ e. cc e
  check_properties_safe (number _) path = λ e. cc e
  check_properties_safe (text _) path = λ e. cc e
  check_properties_safe (array _) path = λ e. cc e

  check_children_safe :
      (children : Fields) (path : String) → NeverPanics (check_children children path)
  check_children_safe end_of_object path = ok_safe
  check_children_safe (entry key child children) path =
      seq_safe (check_child child (below path key)) (check_children children path)
        (check_child_safe child (below path key)) (check_children_safe children path)

  check_child_safe : (child : Json) (path : String) → NeverPanics (check_child child path)
  check_child_safe (object fields) path =
      seq_safe (check_type (get "type" fields) path >> check_properties_of fields path)
        (check_items_of fields path)
        (seq_safe (check_type (get "type" fields) path) (check_properties_of fields path)
          (check_type_safe (get "type" fields) path) (check_properties_of_safe fields path))
        (check_items_of_safe fields path)
  check_child_safe null path = λ e. cc e
  check_child_safe (boolean _) path = λ e. cc e
  check_child_safe (number _) path = λ e. cc e
  check_child_safe (text _) path = λ e. cc e
  check_child_safe (array _) path = λ e. cc e

  check_items_of_safe : (fields : Fields) (path : String) → NeverPanics (check_items_of fields path)
  check_items_of_safe end_of_object path = ok_safe
  check_items_of_safe (entry key value fields) path =
      either (key == "items") (check_child_safe value (below path "items"))
        (check_items_of_safe fields path)

pub check_definition_safe :
    (definition : Fields) (path : String) → NeverPanics (check_definition definition path)
unfolding check_definition check_child
check_definition_safe definition path = check_child_safe (object definition) path
