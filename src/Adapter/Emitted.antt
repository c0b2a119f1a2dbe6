-- ===== src/Adapter/Emitted.antt =====
-- internal/model/openaicompat/adapter.go: emitToolCalls that reports no error.
use reliable_agent_runtime.Prelude.{
  All, Bool-cases, List, Option, Option-cases, [], ap, append-nil, append_assoc, arith, eq_iff,
  get_elem?, inl, inr, length, map, none, pos, refl, some, subst, suc, sym, zero, ℕ, ◌++◌, ◌+◌, ◌<◌,
  ◌==◌, ◌||◌, ◌∙◌, ◌∷◌, ◌≡◌, ◌≢◌,
}
use reliable_agent_runtime.Adapter.Call.{AdapterError}
use reliable_agent_runtime.Adapter.Emission.{
  Builders, Outlet, Selects, ToolCallBuilder, builder_at, call_event, complete_builder, emit_from,
  emit_tool_calls, next_if_ok, send,
}
use reliable_agent_runtime.Model.{ModelEvent}

-- A tool call that the engine can make and answer.
pub record IsNamed (builder : ToolCallBuilder) : Type 0 where
  pub has_id : builder.id ≢ ""
  pub has_name : builder.name ≢ ""

some_builder_inj : (b c : ToolCallBuilder) → some b ≡ some c → b ≡ c
some_builder_inj b c e = cc e

complete_builder-IsNamed :
    (found : Option ToolCallBuilder) (builder : ToolCallBuilder)
    → complete_builder found ≡ some builder
    → (found ≡ some builder) × IsNamed builder
unfolding complete_builder
complete_builder-IsNamed none builder e = absurd (ground (arith, e))
complete_builder-IsNamed (some b) builder e = elim (Bool-cases (b.id == "" || b.name == "")) [
  | inl missing ↦ absurd (ground (arith, rw missing at e))
  | inr whole ↦
      let same : some b ≡ some builder = rw whole at e in
      (
        same,
        subst IsNamed (some_builder_inj b builder same) (record {
          has_id = λ h. ground (arith, whole, h, eq_iff b.id "");
          has_name = λ h. ground (arith, whole, h, eq_iff b.name "");
        }),
      )
]

module _ (context : Selects) (builders : Builders) where
  -- The builders from an index on, each with an identifier and a name, in the order of their indices.
  pub record AreEmitted (index : ℕ) (rounds : ℕ) (before after_all : List ModelEvent) : Type 0 where
    pub called : List ToolCallBuilder
    pub sends : after_all ≡ before ++ map call_event called
    pub counted : length called ≡ rounds
    pub in_place : (k : ℕ) → k < rounds → builder_at (pos (index + k)) builders ≡ get_elem? called k
    pub named : All IsNamed called

  send-accepted :
      (out : Outlet) (event : ModelEvent)
      → (send context out event).1 ≡ none
      → (send context out event).0.sent ≡ out.sent ++ event ∷ []
  unfolding send
  send-accepted out event fine = elim (Option-cases (context out.selects)) [
    | inl goes_on ↦ rw (goes_on, send) refl
    | inr (e, done) ↦ absurd (ground (arith, rw (done, send) at fine))
  ]

  next_if_ok-fine :
      (s : Outlet × Option AdapterError) (f : Outlet → Outlet × Option AdapterError)
      → (next_if_ok s f).1 ≡ none
      → (s.1 ≡ none) × (next_if_ok s f ≡ f s.0)
  next_if_ok-fine (out, some e) f h = absurd (ground (arith, h))
  next_if_ok-fine (out, none) f h = (refl, refl)

  emitted_next :
      (index rounds : ℕ) (builder : ToolCallBuilder) (before next after_all : List ModelEvent)
      → builder_at (pos index) builders ≡ some builder
      → IsNamed builder
      → next ≡ before ++ call_event builder ∷ []
      → AreEmitted (index + 1) rounds next after_all
      → AreEmitted index (suc rounds) before after_all
  emitted_next index rounds builder before next after_all found named e ih = record {
    called = builder ∷ ih.called;
    sends =
        ih.sends
        ∙ ap (λ es. es ++ map call_event ih.called) e
        ∙ append_assoc before (call_event builder ∷ []) (map call_event ih.called);
    counted = ap suc ih.counted;
    in_place = at_index;
    named = (named, ih.named);
  }
    where
      shift : (k : ℕ) → index + 1 + k ≡ index + suc k
      shift k = omega arith

      here : index + 0 ≡ index
      here = omega arith

      at_index :
          (k : ℕ)
          → k < suc rounds
          → builder_at (pos (index + k)) builders ≡ get_elem? (builder ∷ ih.called) k
      at_index zero small = ap (λ n. builder_at (pos n) builders) here ∙ found
      at_index (suc k) small =
          ap (λ n. builder_at (pos n) builders) (sym (shift k))
          ∙ ih.in_place k (omega (arith, small))

  emit_from-AreEmitted :
      (index rounds : ℕ) (out : Outlet)
      → (emit_from context builders index rounds out).1 ≡ none
      → AreEmitted index rounds out.sent (emit_from context builders index rounds out).0.sent
  unfolding emit_from
  emit_from-AreEmitted index zero out fine = record {
    called = [];
    sends = sym (append-nil out.sent);
    counted = refl;
    in_place = λ k small. absurd (omega (arith, small));
    named = tt;
  }
  emit_from-AreEmitted index (suc rounds) out fine =
      elim (Option-cases (complete_builder (builder_at (pos index) builders))) [
        | inl incomplete ↦ absurd (ground (arith, rw (incomplete, emit_from) at fine))
        | inr (builder, whole) ↦
            let (sent_one, same) =
              next_if_ok-fine (send context out (call_event builder))
                (emit_from context builders (index + 1) rounds) (rw (whole, emit_from) at fine) in
            let out' = (send context out (call_event builder)).0 in
            let (found, named) =
              complete_builder-IsNamed (builder_at (pos index) builders) builder whole in
            let fine' = ap (λ s. s.1) (sym same) ∙ rw (whole, emit_from) at fine in
            rw (whole, emit_from)
              (subst (λ s. AreEmitted index (suc rounds) out.sent s.0.sent) (sym same)
                (emitted_next index rounds builder out.sent out'.sent _ found named
                  (send-accepted out (call_event builder) sent_one)
                  (emit_from-AreEmitted (index + 1) rounds out' fine')))
      ]

  -- If emitToolCalls reports no error, it has sent one tool call for each builder of the map, whose
  -- indices are 0, 1, 2 and so on without a gap, in this order, each with an identifier and a name.
  pub emit_tool_calls-AreEmitted :
      (out : Outlet)
      → (emit_tool_calls context out builders).1 ≡ none
      → AreEmitted 0 (length builders) out.sent (emit_tool_calls context out builders).0.sent
  unfolding emit_tool_calls
  emit_tool_calls-AreEmitted out fine = emit_from-AreEmitted 0 (length builders) out fine
