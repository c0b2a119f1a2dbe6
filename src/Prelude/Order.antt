-- ===== src/Prelude/Order.antt =====
-- `sort.Slice` by a `less` function.
use mathlib.Core.Path.{◌≡◌}
use mathlib.Core.Bool.{Bool, true, false}
use mathlib.Core.List.{List, [], ◌∷◌}
use mathlib.Core.Logic.{inl, inr}
use reliable_agent_runtime.Prelude.Tests.{if◌then◌else◌, Bool-cases}
use reliable_agent_runtime.Prelude.Lists.{All}

module _ {ℓ} {A : Type ℓ} (less : A → A → Bool) where
  unfoldable pub insert_sorted : A → List A → List A
  insert_sorted x [] = x ∷ []
  insert_sorted x (y ∷ ys) = if less y x then y ∷ insert_sorted x ys else x ∷ y ∷ ys

  unfoldable pub sort_slice : List A → List A
  sort_slice [] = []
  sort_slice (x ∷ xs) = insert_sorted x (sort_slice xs)

module _ {ℓ κ} {A : Type ℓ} (less : A → A → Bool) (Q : A → Type κ) where
  All-insert_sorted : (x : A) (ys : List A) → Q x → All Q ys → All Q (insert_sorted less x ys)
  unfolding insert_sorted
  All-insert_sorted x [] q h = (q, tt)
  All-insert_sorted x (y ∷ ys) q h = elim (Bool-cases (less y x)) [
    | inl e ↦ rw e (h.0, All-insert_sorted x ys q h.1)
    | inr e ↦ rw e (q, h)
  ]

  -- Sorting keeps what holds of every element.
  pub All-sort_slice : (xs : List A) → All Q xs → All Q (sort_slice less xs)
  unfolding sort_slice
  All-sort_slice [] h = tt
  All-sort_slice (x ∷ xs) h = All-insert_sorted x (sort_slice less xs) h.0 (All-sort_slice xs h.1)

module _ {ℓ} {A : Type ℓ} (less : A → A → Bool)
    (asymm : (a b : A) → less a b ≡ true → less b a ≡ false) (irrefl : (a : A) → less a a ≡ false)
    (trans : (a b c : A) → less a b ≡ false → less b c ≡ false → less a c ≡ false) where
  -- Nothing in the list comes before `a`.
  abbrev pub Least : A → List A → Type 0
  Least a xs = All (λ x. less x a ≡ false) xs

  Least-mono : (a b : A) (xs : List A) → less b a ≡ false → Least b xs → Least a xs
  Least-mono a b [] h l = tt
  Least-mono a b (x ∷ xs) h l = (trans x b a l.0 h, Least-mono a b xs h l.1)

  Least-of_none : (a : A) (xs : List A) → All (λ _. ⊥) xs → Least a xs
  Least-of_none a [] h = tt
  Least-of_none a (x ∷ xs) h = absurd h.0

  -- The head of the first list is least in the second, which is empty with it.
  abbrev pub LeastFirst : List A → List A → Type 0
  LeastFirst [] xs = All (λ _. ⊥) xs
  LeastFirst (a ∷ _) xs = Least a xs

  LeastFirst-insert_sorted :
      (x : A) (ys xs : List A) → LeastFirst ys xs → LeastFirst (insert_sorted less x ys) (x ∷ xs)
  unfolding insert_sorted
  LeastFirst-insert_sorted x [] xs h = (irrefl x, Least-of_none x xs h)
  LeastFirst-insert_sorted x (y ∷ ys) xs h = elim (Bool-cases (less y x)) [
    | inl e ↦ rw e (asymm y x e, h)
    | inr e ↦ rw e (irrefl x, Least-mono x y xs e h)
  ]

  -- The first element of a sorted list is least.
  pub LeastFirst-sort_slice : (xs : List A) → LeastFirst (sort_slice less xs) xs
  unfolding sort_slice
  LeastFirst-sort_slice [] = tt
  LeastFirst-sort_slice (x ∷ xs) =
      LeastFirst-insert_sorted x (sort_slice less xs) xs (LeastFirst-sort_slice xs)
