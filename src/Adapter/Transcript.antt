-- ===== src/Adapter/Transcript.antt =====
-- internal/model/openaicompat/adapter.go: what consumeStream sends to the engine.
use Prim.Native.String.{◌++◌ as append_str}
use reliable_agent_runtime.Prelude.{
  Bool-cases, List, Option, Option-cases, String, [], arith, eq_iff, inl, inr, length, none, pos,
  refl, some, subst, suc, sym, zero, ℕ, ℤ, ◌++◌, ◌+◌, ◌==◌, ◌||◌, ◌∷◌, ◌≡◌, ◌≢◌, ◌⊎◌,
}
use reliable_agent_runtime.Adapter.Call.{Adapter, AdapterError, stream_context}
use reliable_agent_runtime.Adapter.Consume.{
  Consumer, Step, take_content, take_finish, take_usage, with_outlet,
}
use reliable_agent_runtime.Adapter.Cost.{cost_micros_of}
use reliable_agent_runtime.Adapter.Emission.{
  Builders, Outlet, Selects, ToolCallBuilder, builder_at, call_event, complete_builder,
  completed_event, delta_event, emit_from, emit_tool_calls, next_if_ok, send, usage_event,
}
use reliable_agent_runtime.Engine.Environment.{EngineError}
use reliable_agent_runtime.Model.{ModelEvent, Usage}
use reliable_agent_runtime.Tool.Registry.{before}

module _ (a : Adapter) where
  -- The events that were sent, with the text that their deltas make up.
  pub data Transcript : List ModelEvent → String → Type 0 where
    nothing_sent : Transcript [] ""
    text_sent :
        (sent : List ModelEvent) (said delta : String)
        → Transcript sent said
        → delta ≢ ""
        → Transcript (sent ++ delta_event delta ∷ []) (append_str said delta)
    usage_sent :
        (sent : List ModelEvent) (said : String) (used : Usage)
        → Transcript sent said
        → used.cost_micros
          ≡ cost_micros_of used a.config.input_micros_per_million a.config.output_micros_per_million
        → Transcript (sent ++ usage_event used ∷ []) said
    call_sent :
        (sent : List ModelEvent) (said : String) (builder : ToolCallBuilder)
        → Transcript sent said
        → builder.id ≢ ""
        → builder.name ≢ ""
        → Transcript (sent ++ call_event builder ∷ []) said
    completion_sent :
        (sent : List ModelEvent) (said : String)
        → Transcript sent said
        → Transcript (sent ++ completed_event said ∷ []) said

  -- A onwards without an error goes on from all that was said; an error ends the stream.
  abbrev pub Holds : Step → Type 0
  Holds (c, none) = Transcript c.out.sent c.said
  Holds (c, some e) = (said : String) × Transcript c.out.sent said

  pub Holds-next :
      (s : Step) (f : Consumer → Step)
      → Holds s
      → ((c : Consumer) → Transcript c.out.sent c.said → Holds (f c))
      → Holds (next_if_ok s f)
  Holds-next (c, some e) f h k = h
  Holds-next (c, none) f h k = k c h

  module _ (context : Selects) where
    send-cases :
        (out : Outlet) (event : ModelEvent)
        → (send context out event
            ≡ (record { selects = out.selects + 1; sent = out.sent ++ event ∷ [] }, none))
          ⊎ (e : EngineError) × (send context out event
              ≡ (record out { selects = out.selects + 1 }, some (stream_context e)))
    unfolding send
    send-cases out event = elim (Option-cases (context out.selects)) [
      | inl goes_on ↦ rw (goes_on, send) (inl refl)
      | inr (e, done) ↦ rw (done, send) (inr (e, refl))
    ]

    -- A send that fails leaves what was sent.
    send-Holds :
        (c : Consumer) (event : ModelEvent) (said : String)
        → Transcript c.out.sent said
        → Transcript (c.out.sent ++ event ∷ []) c.said
        → Holds (with_outlet c (send context c.out event))
    send-Holds c event said before after_send = elim (send-cases c.out event) [
      | inl goes_on ↦ subst (λ s. Holds (with_outlet c s)) (sym goes_on) after_send
      | inr (e, done) ↦ subst (λ s. Holds (with_outlet c s)) (sym done) (said, before)
    ]

    complete_builder-named :
        (found : Option ToolCallBuilder) (builder : ToolCallBuilder)
        → complete_builder found ≡ some builder
        → (builder.id ≢ "") × (builder.name ≢ "")
    unfolding complete_builder
    complete_builder-named none builder h = absurd (ground (arith, h))
    complete_builder-named (some b) builder h = elim (Bool-cases (b.id == "" || b.name == "")) [
      | inl unnamed ↦ absurd (ground (arith, rw unnamed at h))
      | inr named ↦
          ground (arith, rw named at h, named, eq_iff builder.id "", eq_iff builder.name "")
    ]

    pub emit_from-Holds :
        (c : Consumer) (builders : Builders) (index rounds : ℕ) (out : Outlet)
        → Transcript out.sent c.said
        → Holds (with_outlet c (emit_from context builders index rounds out))
    unfolding emit_from send
    emit_from-Holds c builders index zero out h = h
    emit_from-Holds c builders index (suc rounds) out h =
        elim (Option-cases (complete_builder (builder_at (pos index) builders))) [
          | inl incomplete ↦ rw (incomplete, emit_from) (c.said, h)
          | inr (builder, complete) ↦
              let (has_id, has_name) =
                complete_builder-named (builder_at (pos index) builders) builder complete in
              let onwards = λ (s : Outlet × Option AdapterError).
                Holds
                  (with_outlet c (next_if_ok s (emit_from context builders (index + 1) rounds))) in
              rw (complete, emit_from)
                (elim (send-cases out (call_event builder)) [
                  | inr (e, done) ↦ subst onwards (sym done) (c.said, h)
                  | inl goes_on ↦ subst onwards (sym goes_on) (
                      emit_from-Holds c builders (index + 1) rounds _
                        (call_sent out.sent c.said builder h has_id has_name))
                ])
        ]

    pub take_usage-Holds :
        (c : Consumer) (counts : Option (ℤ × ℤ))
        → Transcript c.out.sent c.said
        → Holds (take_usage a context c counts)
    unfolding take_usage cost_micros_of
    take_usage-Holds c none h = h
    take_usage-Holds c (some (prompt_tokens, completion_tokens)) h =
        send-Holds c _ c.said h (usage_sent c.out.sent c.said _ h refl)

    pub take_content-Holds :
        (c : Consumer) (content : String)
        → Transcript c.out.sent c.said
        → Holds (take_content a context c content)
    unfolding take_content
    take_content-Holds c content h = elim (Bool-cases (content == "")) [
      | inl silent ↦ rw silent h
      | inr said_now ↦ rw said_now (
          send-Holds (record c { said = append_str c.said content }) _ c.said h
            (text_sent c.out.sent c.said content h (ground (arith, eq_iff content "", said_now))))
    ]

    pub take_finish-Holds :
        (c : Consumer) (reason : String)
        → Transcript c.out.sent c.said
        → Holds (take_finish a context c reason)
    unfolding take_finish emit_tool_calls
    take_finish-Holds c reason h = elim (Bool-cases (reason == "tool_calls")) [
      | inl calls ↦ rw calls (
          Holds-next _ _ (emit_from-Holds c c.builders 0 (length c.builders) c.out h) (λ c' h'. h'))
      | inr other_reason ↦ rw other_reason (elim (Bool-cases (reason == "stop")) [
        | inl stops_now ↦ rw stops_now (
            Holds-next _ _ (send-Holds c _ c.said h (completion_sent c.out.sent c.said h))
              (λ c' h'. h'))
        | inr goes_on ↦
            rw goes_on
              (elim (Bool-cases (
                reason == "length"
                || reason == "content_filter"
                || reason == "insufficient_system_resource"
                || reason == "aborted")) [
                  | inl cut_off ↦ rw cut_off (c.said, h)
                  | inr fine ↦ rw fine h
                ])
      ])
    ]
