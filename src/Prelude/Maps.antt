-- ===== src/Prelude/Maps.antt =====
-- Go's `map[string]V` as an association list. A key is written in place or added at the end, so
-- that the keys stay distinct.
use Prim.Native.String.{String}
use mathlib.Core.Path.{◌≡◌, refl, sym, subst}
use mathlib.Core.Logic.{inl, inr}
use mathlib.Core.Option.{Option, none, some}
use mathlib.Core.List.{List, [], ◌∷◌}
use native.Mathlib.Omega.{arith}
use text.Mathlib.Text.{◌==◌}
use text.Mathlib.TextEquality.{eq_iff}
use text.Mathlib.TextPositions.{eq_refl}
use reliable_agent_runtime.Prelude.Lists.{All}
use reliable_agent_runtime.Prelude.Tests.{if◌then◌else◌, Bool-cases}

abbrev pub Dict {ℓ} : Type ℓ → Type ℓ
Dict V = List (String × V)

module _ {ℓ} {V : Type ℓ} where
  unfoldable pub lookup : String → Dict V → Option V
  lookup wanted [] = none
  lookup wanted ((key, found) ∷ rest) = if key == wanted then some found else lookup wanted rest

  unfoldable pub insert : String → V → Dict V → Dict V
  insert new value [] = (new, value) ∷ []
  insert new value ((key, old) ∷ rest) =
      if key == new then (new, value) ∷ rest else (key, old) ∷ insert new value rest

  -- Go's range over the values.
  unfoldable pub values : Dict V → List V
  values [] = []
  values ((j, v) ∷ m) = v ∷ values m

  abbrev pub or_zero : V → Option V → V
  or_zero z none = z
  or_zero z (some v) = v

  -- A write is seen at its own key, and nowhere else.
  pub lookup-insert :
      (new wanted : String) (value : V) (entries : Dict V)
      → lookup wanted (insert new value entries)
        ≡ (if new == wanted then some value else lookup wanted entries)
  unfolding lookup insert
  lookup-insert new wanted value [] = refl
  lookup-insert new wanted value ((key, old) ∷ rest) = ground (
    arith,
    lookup-insert new wanted value rest,
    eq_iff key new,
    eq_iff key wanted,
    eq_iff new wanted,
  )

  -- No key stands twice.
  abbrev pub Distinct : Dict V → Type ℓ
  Distinct [] = Unit
  Distinct ((j, v) ∷ m) = (lookup j m ≡ none) × Distinct m

module _ {ℓ} {V : Type ℓ} where
  pub insert-Distinct : (k : String) (v : V) (m : Dict V) → Distinct m → Distinct (insert k v m)
  unfolding lookup insert
  insert-Distinct k v [] h = (refl, tt)
  insert-Distinct k v ((j, w) ∷ m) h = elim (Bool-cases (j == k)) [
    | inl e ↦ rw (e, insert) (rw (sym ((eq_iff j k).0 e)) h)
    | inr e ↦
        rw (e, insert)
          (ground (arith, lookup-insert k j v m, eq_iff j k, eq_iff k j), insert-Distinct k v m h.1)
  ]

-- The values that a loop over the map meets are those that the keys find.
module _ {ℓ κ} {V : Type ℓ} (Q : V → Type κ) where
  pub All-values :
      (m : Dict V)
      → Distinct m
      → ((k : String) (v : V) → lookup k m ≡ some v → Q v)
      → All Q (values m)
  unfolding lookup values
  All-values [] d h = tt
  All-values ((j, w) ∷ m) d h = (
    h j w (rw eq_refl),
    All-values m d.1 (λ k v e. elim (Bool-cases (j == k)) [
      | inl same ↦ absurd (ground (arith, d.0, e, (eq_iff j k).0 same))
      | inr new ↦ h k v (rw new e)
    ]),
  )

  -- And every such value is met.
  pub All-lookup : (k : String) (v : V) (m : Dict V) → All Q (values m) → lookup k m ≡ some v → Q v
  unfolding lookup values
  All-lookup k v [] h e = absurd (ground arith)
  All-lookup k v ((j, w) ∷ m) h e = elim (Bool-cases (j == k)) [
    | inl same ↦ subst Q (ground (arith, same)) h.0
    | inr new ↦ All-lookup k v m h.1 (ground (arith, new))
  ]
