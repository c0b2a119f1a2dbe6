-- ===== src/Outbox/Backoff.antt =====
-- The delay before a message is published again.
use reliable_agent_runtime.Prelude.{
  Bool-cases, add_int-pos, arith, if◌then◌else◌, inl, inr, leb, ltb, negsuc, pos, pos_part, suc,
  zero, ℕ, ℤ, ◌*◌, ◌+◌, ◌-◌, ◌/◌, ◌<◌, ◌^◌, ◌≡◌, ◌≤◌,
}
use reliable_agent_runtime.Outbox.Publisher.{PublisherConfig, backoff, capped, doubled, half}

abbrev pub min : ℕ → ℕ → ℕ
min a b = if leb a b then a else b

doubles : (d n : ℕ) → d * 2 ^ suc n ≡ (d + d) * 2 ^ n
doubles d n = grind arith

grows : (d n : ℕ) → d ≤ d * 2 ^ n
grows d zero = omega arith
grows d (suc n) = omega (arith, doubles d n, grows (d + d) n)

module _ (config : PublisherConfig) (m : ℕ) (max : config.max_backoff ≡ pos m)
    (small : m < 2 ^ 63) where
  doubled_lem : (n d : ℕ) → d ≤ m → doubled config n (pos d) ≡ pos (min (d * 2 ^ n) m)
  unfolding doubled capped half
  doubled_lem zero d below = rw max (ground (arith, below))
  doubled_lem (suc n) d below = elim (Bool-cases (ltb d m)) [
    | inr at_most ↦ rw (max, at_most) (ground (arith, at_most, grows d (suc n)))
    | inl less ↦
        rw (max, less)
          (elim (Bool-cases (ltb (m / 2) d)) [
            | inl over ↦ rw over (ground (arith, over, doubles d n, grows (d + d) n))
            | inr fits ↦
                let fits' : d + d ≤ m = ground (arith, fits) in
                rw (fits, add_int-pos d d (omega (arith, fits', small)), doubles d n)
                  (doubled_lem n (d + d) fits')
          ])
  ]

  -- If 0 <= base <= maximum < 2^63, the delay is the base, doubled for every attempt after the first, and cut off at the maximum.
  pub backoff_lem :
      (b : ℕ)
      → config.base_backoff ≡ pos b
      → b ≤ m
      → (attempt : ℤ) → backoff config attempt ≡ pos (min (b * 2 ^ (pos_part attempt - 1)) m)
  unfolding backoff doubled capped
  backoff_lem b base below (negsuc n) = rw base (doubled_lem 0 b below)
  backoff_lem b base below (pos n) = elim (Bool-cases (ltb n 1)) [
    | inl first ↦
        let first' : n - 1 ≡ 0 = ground (arith, first) in
        rw (base, first, first') (doubled_lem 0 b below)
    | inr later ↦ rw (base, later) (doubled_lem (n - 1) b below)
  ]
