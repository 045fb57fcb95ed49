-- ===== src/Backoff/Tests.antt =====
-- Runs and theorems of commons/backoff at concrete inputs.
use lib_commons.Base.{ℕ, ◌-◌, ◌^◌, ◌≤◌, ◌<◌, ◌≡◌, refl, arith}
use lib_commons.Base.Int.{pos, negsuc}
use lib_commons.Backoff.{
  Draw, max_int64, clamp_attempt, int64, shift_multiplier, scale, exponential, drawn, full_jitter,
  exponential_with_jitter,
}
use lib_commons.Backoff.Saturated.{exact_delay, exponential-saturate, exponential_with_jitter_below}

third : exponential (pos 100) (pos 3) ≡ pos 800
unfolding exponential clamp_attempt shift_multiplier int64 scale
third = refl

-- Attempts past the shift, and negative ones.
cut : exponential (pos 3) (pos 70) ≡ pos max_int64
unfolding exponential clamp_attempt shift_multiplier int64 scale
cut = refl

negative_attempt : exponential (pos 3) (negsuc 4) ≡ pos 3
unfolding exponential clamp_attempt shift_multiplier int64 scale
negative_attempt = refl

-- Past the shift the word keeps its sign bit only, then nothing.
sign_bit : shift_multiplier 63 ≡ negsuc (2 ^ 63 - 1)
unfolding shift_multiplier int64
sign_bit = refl

no_bits : shift_multiplier 64 ≡ pos 0
unfolding shift_multiplier int64
no_bits = refl

exponential-saturate_example :
    (exponential (pos 100) (pos 3) ≡ pos (exact_delay (pos 100) (pos 3)))
    × ((n : ℕ) × (0 < n) × (n ≤ 2 ^ 62) × (shift_multiplier (clamp_attempt (pos 3)) ≡ pos n))
exponential-saturate_example = exponential-saturate (pos 100) (pos 3)

-- A generator that answers the greatest number below its bound.
abbrev greatest : Draw
greatest = drawn (λ bound. bound - 1)

jitter : exponential_with_jitter (pos 100) (pos 3) greatest ≡ 799
unfolding exponential_with_jitter full_jitter exponential clamp_attempt shift_multiplier int64 scale
jitter = refl

exponential_with_jitter_below_example :
    exponential_with_jitter (pos 100) (pos 3) greatest < exact_delay (pos 100) (pos 3)
exponential_with_jitter_below_example =
    exponential_with_jitter_below 100 (pos 3) greatest (omega arith) (λ bound h. omega (arith, h))
