-- ===== src/Tool/Registration.antt =====
-- What a registration changes, and when a tool runs.
use reliable_agent_runtime.Prelude.{
  Bool-cases, Option-cases, Result-cases, String, arith, eq_iff, if◌then◌else◌, inl, inr, lookup,
  lookup-insert, ok, some, subst, sym, ◌==◌, ◌∙◌, ◌≡◌, ◌≢◌,
}
use reliable_agent_runtime.Domain.{RawMessage}
use reliable_agent_runtime.Schema.Validate.{Decoding, check, validate_json}
use reliable_agent_runtime.Tool.Registry.{
  Handler, Registry, add_handler, execute_registered, register, run_checked,
}

module _ (dec : Decoding) {World : Type 0} where
  -- A registry of handlers that stand under their names, which are not empty, with schemas that are
  -- well formed.
  abbrev pub IsRegistry : Registry World → Type 0
  IsRegistry registry =
      (name : String) (handler : Handler World)
      → lookup name registry ≡ some handler
      → (handler.definition.name ≡ name)
        × (name ≢ "")
        × (check dec handler.definition.input_schema ≡ ok tt)

  add_handler-IsRegistry :
      (registry : Registry World) (handler : Handler World)
      → IsRegistry registry
      → handler.definition.name ≢ ""
      → check dec handler.definition.input_schema ≡ ok tt
      → IsRegistry (add_handler dec registry handler).0
  unfolding add_handler
  add_handler-IsRegistry registry handler h named checked =
      elim (Option-cases (lookup handler.definition.name registry)) [
        | inr (taken_by, taken) ↦ rw (taken, add_handler) h
        | inl free ↦
            rw (free, add_handler)
              (λ name found e.
                let e' : (if handler.definition.name == name
                      then some handler
                      else lookup name registry)
                    ≡ some found =
                  sym (lookup-insert handler.definition.name name handler registry) ∙ e in
                elim (Bool-cases (handler.definition.name == name)) [
                  | inl same ↦
                      let is_name : handler.definition.name ≡ name =
                        (eq_iff handler.definition.name name).0 same in
                      let is_found : handler ≡ found = cc (rw same at e') in
                      subst
                        (λ (x : Handler World).
                          (x.definition.name ≡ name)
                          × (name ≢ "")
                          × (check dec x.definition.input_schema ≡ ok tt))
                        is_found (is_name, (λ empty. named (is_name ∙ empty)), checked)
                  | inr differs ↦ h name found (rw differs at e')
                ])
      ]

  -- A registration, accepted or refused, keeps every handler of the registry under its own name,
  -- which is not empty, and with a schema that `Check` accepts.
  pub register-IsRegistry :
      (registry : Registry World) (handler : Handler World)
      → IsRegistry registry
      → IsRegistry (register dec registry handler).0
  unfolding register
  register-IsRegistry registry handler h = elim (Bool-cases (handler.definition.name == "")) [
    | inl unnamed ↦ rw unnamed h
    | inr named ↦ rw named (elim (Result-cases (check dec handler.definition.input_schema)) [
      | inr (e, refused) ↦ rw refused h
      | inl (_, checked) ↦ rw checked (
          add_handler-IsRegistry registry handler h
            (λ empty. ground (arith, named, (eq_iff handler.definition.name "").1 empty)) checked)
    ])
  ]

  -- Whatever is kept by each registered handler on arguments that its schema accepts is kept by
  -- `Execute`: no handler runs on other arguments, and nothing runs for a name that is not registered.
  pub execute_registered_kept :
      (registry : Registry World) (P : World → Type 0)
      → ((name : String) (handler : Handler World) (arguments : RawMessage) (w : World)
          → lookup name registry ≡ some handler
          → validate_json dec handler.definition.input_schema arguments ≡ ok tt
          → P w
          → P (handler.run arguments w).1)
      → (name : String) (arguments : RawMessage) (w : World) → P w
      → P (execute_registered dec registry name arguments w).1
  unfolding execute_registered run_checked
  execute_registered_kept registry P kept name arguments w p =
      elim (Option-cases (lookup name registry)) [
        | inl missing ↦ rw (missing, execute_registered) p
        | inr (handler, found) ↦
            rw (found, execute_registered)
              (elim (Result-cases (validate_json dec handler.definition.input_schema arguments)) [
                | inr (e, refused) ↦ rw (refused, run_checked) p
                | inl (_, valid) ↦
                    rw (valid, run_checked) (kept name handler arguments w found valid p)
              ])
      ]
