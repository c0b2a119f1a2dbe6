-- ===== src/Prelude/Int.antt =====
-- Go's `int`, `int64` and `time.Duration`: integers over the native numbers, wrapped at 64 bits.
use Prim.Native.Nat.{ℕ, suc, ◌+◌, ◌-◌, ◌*◌, ◌/◌, ◌%◌, ◌^◌, ◌<◌}
use mathlib.Core.Path.{◌≡◌, ap}
use mathlib.Core.Bool.{Bool, true, false}
use native.Mathlib.Omega.{arith}
use reliable_agent_runtime.Prelude.Tests.{ltb, leb, eqb, if◌then◌else◌}

-- `negsuc n` is -(n + 1).
pub data ℤ : Type 0 where
  pos : ℕ → ℤ
  negsuc : ℕ → ℤ

-- a - b, as an integer.
abbrev pub sub_ℕ : ℕ → ℕ → ℤ
sub_ℕ a b = if leb b a then pos (a - b) else negsuc (b - a - 1)

abbrev pub ltb_ℤ : ℤ → ℤ → Bool
ltb_ℤ (pos a) (pos b) = ltb a b
ltb_ℤ (pos a) (negsuc b) = false
ltb_ℤ (negsuc a) (pos b) = true
ltb_ℤ (negsuc a) (negsuc b) = ltb b a

abbrev pub eqb_ℤ : ℤ → ℤ → Bool
eqb_ℤ (pos a) (pos b) = eqb a b
eqb_ℤ (negsuc a) (negsuc b) = eqb a b
eqb_ℤ _ _ = false

abbrev pub leb_ℤ : ℤ → ℤ → Bool
leb_ℤ (pos a) (pos b) = leb a b
leb_ℤ (pos a) (negsuc b) = false
leb_ℤ (negsuc a) (pos b) = true
leb_ℤ (negsuc a) (negsuc b) = leb b a

-- The value of an integer in 64-bit two's complement.
abbrev pub int64 : ℤ → ℤ
int64 (pos n) =
    if ltb (n % 2 ^ 64) (2 ^ 63) then pos (n % 2 ^ 64) else negsuc (2 ^ 64 - 1 - n % 2 ^ 64)
int64 (negsuc n) =
    if ltb (n % 2 ^ 64) (2 ^ 63) then negsuc (n % 2 ^ 64) else pos (2 ^ 64 - 1 - n % 2 ^ 64)

infixl 65 ◌+ℤ◌
abbrev pub ◌+ℤ◌ : ℤ → ℤ → ℤ
pos a +ℤ pos b = pos (a + b)
pos a +ℤ negsuc b = sub_ℕ a (suc b)
negsuc a +ℤ pos b = sub_ℕ b (suc a)
negsuc a +ℤ negsuc b = negsuc (a + b + 1)

-- Addition as the machine does it.
unfoldable pub add_int : ℤ → ℤ → ℤ
add_int a b = int64 (a +ℤ b)

infixl 70 ◌*ℤ◌
abbrev pub ◌*ℤ◌ : ℤ → ℤ → ℤ
pos a *ℤ pos b = pos (a * b)
pos a *ℤ negsuc b = if eqb a 0 then pos 0 else negsuc (a * suc b - 1)
negsuc a *ℤ pos b = if eqb b 0 then pos 0 else negsuc (suc a * b - 1)
negsuc a *ℤ negsuc b = pos (suc a * suc b)

-- Multiplication as the machine does it.
unfoldable pub mul_int : ℤ → ℤ → ℤ
mul_int a b = int64 (a *ℤ b)

-- Division by a positive number, which Go truncates towards zero.
unfoldable pub quot_int : ℤ → ℕ → ℤ
quot_int (pos n) d = pos (n / d)
quot_int (negsuc n) d = if eqb (suc n / d) 0 then pos 0 else negsuc (suc n / d - 1)

-- Sums of small non-negative numbers do not wrap.
pub add_int-pos : (a b : ℕ) → a + b < 2 ^ 63 → add_int (pos a) (pos b) ≡ pos (a + b)
unfolding add_int
add_int-pos a b h = ground arith

-- The index that a non-negative integer is.
abbrev pub pos_part : ℤ → ℕ
pos_part (pos n) = n
pos_part (negsuc n) = 0

-- The test is equality.
pub eqb_ℤ-eq : (a b : ℤ) → eqb_ℤ a b ≡ true → a ≡ b
eqb_ℤ-eq (pos a) (pos b) h = ap pos (ground (arith, h))
eqb_ℤ-eq (negsuc a) (negsuc b) h = ap negsuc (ground (arith, h))
eqb_ℤ-eq (pos a) (negsuc b) h = absurd (cc h)
eqb_ℤ-eq (negsuc a) (pos b) h = absurd (cc h)

pub eqb_ℤ_refl : (a : ℤ) → eqb_ℤ a a ≡ true
eqb_ℤ_refl (pos a) = ground arith
eqb_ℤ_refl (negsuc a) = ground arith
