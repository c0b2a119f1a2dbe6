-- ===== src/Adapter/Builders.antt =====
-- internal/model/openaicompat/adapter.go: the fragments of a tool call come together by index.
use Prim.Native.String.{◌++◌ as append_str}
use text.Mathlib.TextLemmas.{
  append-nil as append_str-nil, nil-append, append_assoc as append_str_assoc,
}
use reliable_agent_runtime.Prelude.{
  Bool-cases, List, Option, String, [], ap, arith, eq_iff, eqb_ℤ, eqb_ℤ-eq, eqb_ℤ_refl, false,
  if◌then◌else◌, inl, inr, none, refl, select, some, sym, ℤ, ◌==◌, ◌∙◌, ◌∷◌, ◌≡◌, ◌≢◌,
}
use reliable_agent_runtime.Adapter.Chunks.{ToolDelta}
use reliable_agent_runtime.Adapter.Emission.{
  Builders, ToolCallBuilder, add_delta, add_deltas, builder_at, extended_by, new_builder,
}

abbrev concat : List ToolDelta → String
concat [] = ""
concat (d ∷ ds) = append_str d.arguments (concat ds)

-- The last text that is not empty.
abbrev last_set : (ToolDelta → String) → List ToolDelta → String
last_set field [] = ""
last_set field (d ∷ ds) = let later = last_set field ds in if later == "" then field d else later

-- The call that the deltas of one index spell.
abbrev pub collected : List ToolDelta → ToolCallBuilder
collected ds = record {
  id = last_set (λ d. d.id) ds;
  name = last_set (λ d. d.name) ds;
  arguments = concat ds;
}

abbrev pub of_index : ℤ → List ToolDelta → List ToolDelta
of_index index ds = select (λ d. eqb_ℤ d.index index) ds

abbrev pub spelled : List ToolDelta → Option ToolCallBuilder
spelled [] = none
spelled (d ∷ ds) = some (collected (d ∷ ds))

apart_twice : (a b : ℤ) → a ≡ b → eqb_ℤ a b ≢ false
apart_twice a b e apart = ground (arith, rw e at apart, eqb_ℤ_refl b)

abbrev or_new : Option ToolCallBuilder → ToolCallBuilder
or_new none = new_builder
or_new (some builder) = builder

builder_at-add_delta :
    (index : ℤ) (d : ToolDelta) (builders : Builders)
    → builder_at index (add_delta d builders) ≡ (
        if eqb_ℤ d.index index
        then some (extended_by d (or_new (builder_at index builders)))
        else builder_at index builders)
unfolding builder_at add_delta
builder_at-add_delta index d [] = refl
builder_at-add_delta index d ((key, builder) ∷ rest) = elim (Bool-cases (eqb_ℤ key d.index)) [
  | inl same ↦
      rw (same, eqb_ℤ-eq key d.index same)
        (elim (Bool-cases (eqb_ℤ d.index index)) [
          | inl here ↦ rw here refl
          | inr there ↦ rw there refl
        ])
  | inr apart ↦ rw apart (elim (Bool-cases (eqb_ℤ key index)) [
    | inl here ↦ elim (Bool-cases (eqb_ℤ d.index index)) [
      | inl also ↦ absurd (
          apart_twice key d.index (eqb_ℤ-eq key index here ∙ sym (eqb_ℤ-eq d.index index also))
            apart)
      | inr there ↦ rw (here, there) refl
    ]
    | inr there ↦ rw there (builder_at-add_delta index d rest)
  ])
]

abbrev later_or : String → String → String
later_or earlier later = if later == "" then earlier else later

-- A builder with the deltas that come later.
abbrev finished_by : ToolCallBuilder → List ToolDelta → ToolCallBuilder
finished_by builder ds = record {
  id = later_or builder.id (last_set (λ d. d.id) ds);
  name = later_or builder.name (last_set (λ d. d.name) ds);
  arguments = append_str builder.arguments (concat ds);
}

later_or_assoc : (a b c : String) → later_or (later_or a b) c ≡ later_or a (later_or b c)
later_or_assoc a b c = elim (Bool-cases (c == "")) [
  | inl none_later ↦ rw none_later refl
  | inr set ↦ rw set (rw set refl)
]

finished_by-extended :
    (builder : ToolCallBuilder) (d : ToolDelta) (ds : List ToolDelta)
    → finished_by (extended_by d builder) ds ≡ finished_by builder (d ∷ ds)
unfolding extended_by
finished_by-extended builder d ds = λ i. record {
  id = later_or_assoc builder.id d.id (last_set (λ d. d.id) ds) i;
  name = later_or_assoc builder.name d.name (last_set (λ d. d.name) ds) i;
  arguments = append_str_assoc builder.arguments d.arguments (concat ds) i;
}

abbrev continued : Option ToolCallBuilder → List ToolDelta → Option ToolCallBuilder
continued none [] = none
continued none (d ∷ ds) = some (finished_by new_builder (d ∷ ds))
continued (some builder) ds = some (finished_by builder ds)

continued-some :
    (start : Option ToolCallBuilder) (d : ToolDelta) (ds : List ToolDelta)
    → some (finished_by (extended_by d (or_new start)) ds) ≡ continued start (d ∷ ds)
continued-some none d ds = ap some (finished_by-extended new_builder d ds)
continued-some (some builder) d ds = ap some (finished_by-extended builder d ds)

continued-nil : (start : Option ToolCallBuilder) → start ≡ continued start []
continued-nil none = refl
continued-nil (some builder) = λ i. some (record {
  id = builder.id;
  name = builder.name;
  arguments = sym (append_str-nil builder.arguments) i;
})

later_or_nil : (s : String) → later_or "" s ≡ s
later_or_nil s = ground (arith, eq_iff s "")

builder_at-continued :
    (index : ℤ) (ds : List ToolDelta) (builders : Builders)
    → builder_at index (add_deltas ds builders)
      ≡ continued (builder_at index builders) (of_index index ds)
unfolding add_deltas
builder_at-continued index [] builders = continued-nil (builder_at index builders)
builder_at-continued index (d ∷ ds) builders =
    builder_at-continued index ds (add_delta d builders)
    ∙ ap (λ b. continued b (of_index index ds)) (builder_at-add_delta index d builders)
    ∙ elim (Bool-cases (eqb_ℤ d.index index)) [
      | inl here ↦ rw here (continued-some (builder_at index builders) d (of_index index ds))
      | inr there ↦ rw there refl
    ]

spelled-continued : (ds : List ToolDelta) → continued none ds ≡ spelled ds
spelled-continued [] = refl
spelled-continued (d ∷ ds) = λ i. some (record {
  id = later_or_nil (last_set (λ d. d.id) (d ∷ ds)) i;
  name = later_or_nil (last_set (λ d. d.name) (d ∷ ds)) i;
  arguments = nil-append (concat (d ∷ ds)) i;
})

-- The builder of an index, after any deltas, is there if one of them has the index, and holds the
-- arguments of all that have it one after the other, the last identifier and the last name that are
-- not empty.
pub builder_at-spelled :
    (index : ℤ) (ds : List ToolDelta)
    → builder_at index (add_deltas ds []) ≡ spelled (of_index index ds)
unfolding builder_at
builder_at-spelled index ds =
    builder_at-continued index ds [] ∙ spelled-continued (of_index index ds)
