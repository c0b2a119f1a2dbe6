-- ===== src/Adapter/Cost.antt =====
-- internal/model/openaicompat/adapter.go: costMicros.
use reliable_agent_runtime.Prelude.{
  add_int, add_int-pos, arith, mul_int, pos, quot_int, ℕ, ℤ, ◌*◌, ◌+◌, ◌/◌, ◌<◌, ◌^◌, ◌≡◌, ◌≤◌,
}
use reliable_agent_runtime.Model.{Usage}

unfoldable pub cost_micros_of : Usage → ℤ → ℤ → ℤ
cost_micros_of used input_rate output_rate =
    add_int (quot_int (mul_int used.input_tokens input_rate) 1000000)
      (quot_int (mul_int used.output_tokens output_rate) 1000000)

mul_int-pos : (a b : ℕ) → a * b < 2 ^ 63 → mul_int (pos a) (pos b) ≡ pos (a * b)
unfolding mul_int
mul_int-pos a b fits = ground (arith, fits)

-- For token counts and rates that are not negative and whose products stay below 2^63, the cost is
-- not negative, at most the exact cost, and less than two micros below it.
pub cost_micros_of_bounds :
    (i o input_rate output_rate : ℕ) (used : Usage)
    → used.input_tokens ≡ pos i
    → used.output_tokens ≡ pos o
    → i * input_rate < 2 ^ 63
    → o * output_rate < 2 ^ 63
    → (cost : ℕ) × (cost_micros_of used (pos input_rate) (pos output_rate) ≡ pos cost)
      × (cost * 1000000 ≤ i * input_rate + o * output_rate)
      × (i * input_rate + o * output_rate < (cost + 2) * 1000000)
unfolding cost_micros_of quot_int
cost_micros_of_bounds i o input_rate output_rate used inputs outputs fits fits' =
    let cost = i * input_rate / 1000000 + o * output_rate / 1000000 in
    (
      cost,
      rw (inputs, outputs, mul_int-pos i input_rate fits, mul_int-pos o output_rate fits')
          (add_int-pos (i * input_rate / 1000000) (o * output_rate / 1000000)
            (omega (arith, fits, fits'))),
      omega arith,
      omega arith,
    )
