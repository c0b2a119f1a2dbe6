-- ===== src/Http/RoundTrip.antt =====
-- A sequence number that was written in decimal is read back.
use Prim.Native.String.{◌∷◌ as cons_text}
use reliable_agent_runtime.Prelude.{
  Bool-cases, String, ap, arith, eq_iff, false, inl, inr, ltb, refl, some, suc, zero, ℕ, ◌%◌, ◌*◌,
  ◌+◌, ◌/◌, ◌<◌, ◌==◌, ◌^◌, ◌∙◌, ◌≡◌, ◌≢◌,
}
use reliable_agent_runtime.Http.Text.{
  decimal, digit_char, digit_value, digits_before, parse_uint, scan_digits,
}

digit_value-digit_char : (d : ℕ) → d < 10 → digit_value (digit_char d) ≡ some d
unfolding digit_value digit_char
digit_value-digit_char zero small = refl
digit_value-digit_char (suc zero) small = refl
digit_value-digit_char (suc (suc zero)) small = refl
digit_value-digit_char (suc (suc (suc zero))) small = refl
digit_value-digit_char (suc (suc (suc (suc zero)))) small = refl
digit_value-digit_char (suc (suc (suc (suc (suc zero))))) small = refl
digit_value-digit_char (suc (suc (suc (suc (suc (suc zero)))))) small = refl
digit_value-digit_char (suc (suc (suc (suc (suc (suc (suc zero))))))) small = refl
digit_value-digit_char (suc (suc (suc (suc (suc (suc (suc (suc zero)))))))) small = refl
digit_value-digit_char (suc (suc (suc (suc (suc (suc (suc (suc (suc zero))))))))) small = refl
digit_value-digit_char (suc (suc (suc (suc (suc (suc (suc (suc (suc (suc n)))))))))) small =
    absurd (omega (arith, small))

scan_digit :
    (d m : ℕ) (out : String)
    → d < 10
    → scan_digits (cons_text (digit_char d) out) m ≡ scan_digits out (m * 10 + d)
unfolding scan_digits
scan_digit d m out small = rw (digit_value-digit_char d small, scan_digits) refl

-- The least number with more than k digits.
abbrev bound : ℕ → ℕ
bound zero = 1
bound (suc k) = 10 * bound k

scan-digits_before :
    (fuel n : ℕ) (out : String)
    → n < bound (suc fuel)
    → scan_digits (digits_before (suc fuel) n out) 0 ≡ scan_digits out n
unfolding digits_before
scan-digits_before zero n out h = elim (Bool-cases (ltb n 10)) [
  | inl last ↦ rw last (scan_digit n 0 out h ∙ ap (scan_digits out) (omega arith))
  | inr more ↦ absurd (ground (arith, more, h))
]
scan-digits_before (suc fuel) n out h = elim (Bool-cases (ltb n 10)) [
  | inl last ↦
      rw last (scan_digit n 0 out (ground (arith, last)) ∙ ap (scan_digits out) (omega arith))
  | inr more ↦ rw more (
      scan-digits_before fuel (n / 10) (cons_text (digit_char (n % 10)) out) (omega (arith, h))
      ∙ scan_digit (n % 10) (n / 10) out (omega arith)
      ∙ ap (scan_digits out) (omega arith))
]

digits_before-ne : (fuel n : ℕ) (out : String) → out ≢ "" → digits_before fuel n out ≢ ""
unfolding digits_before
digits_before-ne zero n out h = h
digits_before-ne (suc fuel) n out h = elim (Bool-cases (ltb n 10)) [
  | inl last ↦ rw last (λ e. cc e)
  | inr more ↦ rw more (digits_before-ne fuel (n / 10) _ (λ e. cc e))
]

digits-ne : (fuel n : ℕ) → digits_before (suc fuel) n "" ≢ ""
unfolding digits_before
digits-ne fuel n = elim (Bool-cases (ltb n 10)) [
  | inl last ↦ rw last (λ e. cc e)
  | inr more ↦ rw more (digits_before-ne fuel (n / 10) _ (λ e. cc e))
]

ne_test : (s : String) → s ≢ "" → (s == "") ≡ false
ne_test s h = ground (arith, eq_iff s "")

parse-digits_before :
    (fuel n : ℕ)
    → n < bound (suc fuel)
    → n < 2 ^ 64
    → parse_uint (digits_before (suc fuel) n "") ≡ some n
unfolding parse_uint scan_digits
parse-digits_before fuel n h fits =
    rw (ne_test (digits_before (suc fuel) n "") (digits-ne fuel n), scan-digits_before fuel n "" h)
      (ground (arith, fits))

-- Every uint64 is read back from its decimal print.
pub parse_uint-decimal : (n : ℕ) → n < 2 ^ 64 → parse_uint (decimal n) ≡ some n
unfolding decimal
parse_uint-decimal n fits = parse-digits_before 19 n (omega (arith, fits)) fits

pub decimal_ne : (n : ℕ) → decimal n ≢ ""
unfolding decimal
decimal_ne n = digits-ne 19 n
