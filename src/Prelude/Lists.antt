-- ===== src/Prelude/Lists.antt =====
-- Lists measured by native numbers, and predicates on lists by recursion.
use Prim.Native.Nat.{ℕ, zero, suc, ◌+◌, ◌-◌}
use mathlib.Core.Path.{◌≡◌, refl}
use mathlib.Core.Bool.{Bool, true}
use mathlib.Core.Logic.{inl, inr}
use mathlib.Core.List.{List, [], ◌∷◌, ◌++◌}
use mathlib.Core.Option.{Option, none, some}
use native.Mathlib.Omega.{arith}
use reliable_agent_runtime.Prelude.Tests.{if◌then◌else◌, Bool-cases}

module _ {ℓ} {A : Type ℓ} where
  abbrev pub length : List A → ℕ
  length [] = 0
  length (x ∷ xs) = suc (length xs)

  abbrev pub get_elem? : List A → ℕ → Option A
  get_elem? [] i = none
  get_elem? (x ∷ xs) zero = some x
  get_elem? (x ∷ xs) (suc i) = get_elem? xs i

  abbrev pub drop : ℕ → List A → List A
  drop zero xs = xs
  drop (suc n) [] = []
  drop (suc n) (x ∷ xs) = drop n xs

  -- The elements that pass a Boolean test, as a Go loop collects them.
  abbrev pub select : (A → Bool) → List A → List A
  select p [] = []
  select p (x ∷ xs) = let rest = select p xs in if p x then x ∷ rest else rest

  pub length-append : (xs ys : List A) → length (xs ++ ys) ≡ length xs + length ys
  length-append [] ys = omega arith
  length-append (x ∷ xs) ys = omega (arith, length-append xs ys)

  pub length-drop : (n : ℕ) (xs : List A) → length (drop n xs) ≡ length xs - n
  length-drop zero xs = omega arith
  length-drop (suc n) [] = omega arith
  length-drop (suc n) (x ∷ xs) = omega (arith, length-drop n xs)

module _ {ℓ κ} {A : Type ℓ} where
  -- What holds of each element, as a tuple.
  abbrev pub All : (A → Type κ) → List A → Type κ
  All Q [] = Unit
  All Q (first ∷ rest) = Q first × All Q rest

  pub All-append :
      (Q : A → Type κ) (front back : List A) → All Q front → All Q back → All Q (front ++ back)
  All-append Q [] back h k = k
  All-append Q (first ∷ rest) back h k = (h.0, All-append Q rest back h.1 k)

module _ {ℓ κ} {A : Type ℓ} where
  -- What holds at every position holds of each element.
  pub All-at :
      (Q : A → Type κ) (xs : List A) → ((k : ℕ) (x : A) → get_elem? xs k ≡ some x → Q x) → All Q xs
  All-at Q [] h = tt
  All-at Q (x ∷ xs) h = (h 0 x refl, All-at Q xs (λ k y e. h (suc k) y e))

module _ {ℓ κ} {A : Type ℓ} (Q : A → Type κ) (p : A → Bool) where
  -- What is selected passes the test, and all that passes it is selected.
  pub All-select : (xs : List A) → All Q xs → All (λ x. Q x × (p x ≡ true)) (select p xs)
  All-select [] h = tt
  All-select (x ∷ xs) h = elim (Bool-cases (p x)) [
    | inl e ↦ rw e ((h.0, e), All-select xs h.1)
    | inr e ↦ rw e (All-select xs h.1)
  ]

  pub All-of-select : (xs : List A) → All Q (select p xs) → All (λ x. p x ≡ true → Q x) xs
  All-of-select [] h = tt
  All-of-select (x ∷ xs) h = elim (Bool-cases (p x)) [
    | inl e ↦ let h' = rw e at h in ((λ _. h'.0), All-of-select xs h'.1)
    | inr e ↦ let h' = rw e at h in ((λ e'. absurd (ground (arith, e, e'))), All-of-select xs h')
  ]
