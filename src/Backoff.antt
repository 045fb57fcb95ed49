-- ===== src/Backoff.antt =====
-- commons/backoff/backoff.go: Exponential and the jitter. A duration is a number of nanoseconds, and
-- the random generators are arguments. WaitContext is left out.
pub mod Saturated
mod Tests
use lib_commons.Base.{ℕ, ◌-◌, ◌*◌, ◌/◌, ◌%◌, ◌^◌, ltb, ◌==◌, if◌then◌else◌}
use lib_commons.Base.Int.{ℤ, pos, negsuc}

abbrev pub max_shift : ℕ
max_shift = 62

-- math.MaxInt64
abbrev pub max_int64 : ℕ
max_int64 = 2 ^ 63 - 1

-- The attempt, kept within [0, max_shift].
pub clamp_attempt : ℤ → ℕ
clamp_attempt (negsuc n) = 0
clamp_attempt (pos n) = if ltb max_shift n then max_shift else n

-- The int64 of a bit pattern below 2 ^ 64.
pub int64 : ℕ → ℤ
int64 w = if ltb w (2 ^ 63) then pos w else negsuc (2 ^ 64 - w - 1)

-- int64(1 << attempt): the bits that leave the word are lost.
pub shift_multiplier : ℕ → ℤ
shift_multiplier attempt = int64 (2 ^ attempt % 2 ^ 64)

-- The test by division and the product, on 64 bits. A quotient by a multiplier below 0 is at most 0, so
-- that a positive base is above it; with the multiplier 0 the division would panic.
pub scale : ℕ → ℤ → ℤ
scale base (negsuc n) = pos max_int64
scale base (pos multiplier) =
    if ltb (max_int64 / multiplier) base then pos max_int64 else int64 (base * multiplier % 2 ^ 64)

pub exponential : ℤ → ℤ → ℤ
exponential (negsuc n) attempt = pos 0
exponential (pos base) attempt =
    if base == 0 then pos 0 else scale base (shift_multiplier (clamp_attempt attempt))

-- Which generator answers, as a function of the bound that it is given: crypto/rand, else math/rand
-- seeded from crypto/rand, else none.
pub data Draw : Type 0 where
  drawn seeded : (ℕ → ℕ) → Draw
  unseeded : Draw

pub crypto_fallback_rand : ℕ → Draw → ℕ
crypto_fallback_rand max_value (drawn int_n) = int_n max_value
crypto_fallback_rand max_value (seeded int_n) = int_n max_value
crypto_fallback_rand max_value unseeded = max_value / 2

pub full_jitter : ℤ → Draw → ℕ
full_jitter (negsuc n) draw = 0
full_jitter (pos delay) (drawn int_n) = if delay == 0 then 0 else int_n delay
full_jitter (pos delay) draw = if delay == 0 then 0 else crypto_fallback_rand delay draw

pub exponential_with_jitter : ℤ → ℤ → Draw → ℕ
exponential_with_jitter base attempt draw = full_jitter (exponential base attempt) draw
