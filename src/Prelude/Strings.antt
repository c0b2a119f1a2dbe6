-- ===== src/Prelude/Strings.antt =====
-- Go's order on strings.
use Prim.Native.Char.{Char, code}
use Prim.Native.Nat.{compare as compare_ℕ}
use Prim.Native.String.compare
use Prim.Native.String.{String, [], ◌∷◌, compare, then}
use mathlib.Core.Path.{◌≡◌, refl, ap}
use mathlib.Core.Bool.{Bool, true, false}
use native.Mathlib.Omega.{arith}
use text.Mathlib.Text.{is_lt}
use text.Mathlib.TextPositions.{compare_refl}

-- `s < t`: Go compares the bytes, and UTF-8 keeps the order of the code points.
abbrev pub str_lt : String → String → Bool
str_lt s t = is_lt (compare s t)

pub str_lt_irrefl : (s : String) → str_lt s s ≡ false
str_lt_irrefl s = rw (compare_refl s)

cons_lt :
    (c d : Char) (s t : String)
    → str_lt (c ∷ s) (d ∷ t) ≡ is_lt (then (compare_ℕ (code c) (code d)) (compare s t))
cons_lt c d s t = ap is_lt (compare.cons-cons c d s t)

-- The order is asymmetric, and what is not before is transitive.
pub str_lt_asymm : (s t : String) → str_lt s t ≡ true → str_lt t s ≡ false
str_lt_asymm [] [] h = refl
str_lt_asymm [] (d ∷ t) h = rw compare.cons-nil
str_lt_asymm (c ∷ s) [] h = absurd (ground (arith, ap is_lt (compare.cons-nil c s), h))
str_lt_asymm (c ∷ s) (d ∷ t) h = ground (arith, cons_lt c d s t, cons_lt d c t s, str_lt_asymm s t)

pub str_ge_trans : (s t u : String) → str_lt s t ≡ false → str_lt t u ≡ false → str_lt s u ≡ false
str_ge_trans [] [] [] h k = refl
str_ge_trans [] [] (e ∷ u) h k = k
str_ge_trans [] (d ∷ t) u h k = absurd (ground (arith, ap is_lt (compare.nil-cons d t), h))
str_ge_trans (c ∷ s) t [] h k = rw compare.cons-nil
str_ge_trans (c ∷ s) [] (e ∷ u) h k = absurd (ground (arith, ap is_lt (compare.nil-cons e u), k))
str_ge_trans (c ∷ s) (d ∷ t) (e ∷ u) h k =
    ground (arith, cons_lt c d s t, cons_lt d e t u, cons_lt c e s u, str_ge_trans s t u)
