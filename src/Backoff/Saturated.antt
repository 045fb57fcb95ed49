-- ===== src/Backoff/Saturated.antt =====
-- commons/backoff/backoff.go: the delay is the exact product, cut at the largest duration.
use native.Mathlib.Nat.{div-lt_iff_lt-mul, one-le-pow, pow-le-pow_right, mul-le-mul_left}
use lib_commons.Base.{
  ℕ, ◌-◌, ◌*◌, ◌/◌, ◌%◌, ◌^◌, ◌≤◌, ◌<◌, ◌≡◌, refl, sym, ap, ◌∙◌, subst, ◌==◌, arith, leb, ltb,
  if-cases, if◌then◌else◌,
}
use lib_commons.Base.Int.{ℤ, pos, negsuc, pos_part}
use lib_commons.Backoff.{
  max_int64, clamp_attempt, int64, shift_multiplier, scale, exponential, Draw, drawn, seeded,
  unseeded, full_jitter, crypto_fallback_rand, exponential_with_jitter,
}

-- The largest number that fits a duration, if `n` does not.
abbrev saturate : ℕ → ℕ
saturate n = if leb n max_int64 then n else max_int64

abbrev least : ℕ → ℕ → ℕ
least n m = if leb n m then n else m

-- The delay that the doc comment promises, in numbers without bound.
abbrev pub exact_delay : ℤ → ℤ → ℕ
exact_delay base attempt = saturate (pos_part base * 2 ^ least (pos_part attempt) 62)

clamp-least : (attempt : ℤ) → clamp_attempt attempt ≡ least (pos_part attempt) 62
unfolding clamp_attempt
clamp-least (negsuc n) = refl
clamp-least (pos n) = ground arith

least-le : (n m : ℕ) → least n m ≤ m
least-le n m = ground arith

int64-fits : (n : ℕ) → n ≤ max_int64 → int64 (n % 2 ^ 64) ≡ pos n
unfolding int64
int64-fits n h = rw (wrapped) (
    if-cases (λ z. z ≡ pos n) (ltb n (2 ^ 63)) (pos n) (negsuc (2 ^ 64 - n - 1)) (λ e. refl)
      (λ e. absurd (ground (arith, e, h))))
  where
    wrapped : n % 2 ^ 64 ≡ n
    wrapped = omega (arith, h)

power-fits : (n : ℕ) → n ≤ 62 → 2 ^ n ≤ max_int64
power-fits n h = omega (arith, pow-le-pow_right {n = 2} (omega arith) h)

shift_multiplier-power : (n : ℕ) → n ≤ 62 → shift_multiplier n ≡ pos (2 ^ n)
unfolding shift_multiplier
shift_multiplier-power n h = int64-fits (2 ^ n) (power-fits n h)

scale-saturate : (b m : ℕ) → 0 < m → scale b (pos m) ≡ pos (saturate (b * m))
unfolding scale
scale-saturate b m h =
    if-cases (λ z. z ≡ pos (saturate (b * m))) (ltb (max_int64 / m) b) (pos max_int64)
      (int64 (b * m % 2 ^ 64))
      (λ e. ap pos (ground (arith, e, (div-lt_iff_lt-mul {k = m} {x = max_int64} {y = b} h).0)))
      (λ e.
        let fits : b * m ≤ max_int64 =
          ground (arith, e, (div-lt_iff_lt-mul {k = m} {x = max_int64} {y = b} h).1) in
        int64-fits (b * m) fits ∙ ap pos (ground (arith, fits)))

exponential-scaled :
    (b n : ℕ)
    → n ≤ 62
    → (if b == 0 then pos 0 else scale b (shift_multiplier n)) ≡ pos (saturate (b * 2 ^ n))
exponential-scaled b n h =
    if-cases (λ z. z ≡ pos (saturate (b * 2 ^ n))) (b == 0) (pos 0) (scale b (shift_multiplier n))
      (λ e. ap pos (ground (arith, e)))
      (λ e.
        ap (scale b) (shift_multiplier-power n h)
        ∙ scale-saturate b (2 ^ n) (one-le-pow n 2 (omega arith)))

exact_product : (base attempt : ℤ) → exponential base attempt ≡ pos (exact_delay base attempt)
unfolding exponential
exact_product (negsuc n) attempt = ap pos (ground arith)
exact_product (pos b) attempt =
    rw (clamp-least attempt)
      (exponential-scaled b (least (pos_part attempt) 62) (least-le (pos_part attempt) 62))

-- For every base and attempt Exponential is base * 2^attempt, for a base below 0 taken as 0 and an
-- attempt outside [0, 62] as the nearer end, cut at the largest duration; and its multiplier is between
-- 1 and 2^62: the 64 bits of the shift and of the product lose nothing, and the test before the
-- product does not divide by 0.
pub exponential-saturate :
    (base attempt : ℤ)
    → (exponential base attempt ≡ pos (exact_delay base attempt))
      × ((n : ℕ) × (0 < n) × (n ≤ 2 ^ 62) × (shift_multiplier (clamp_attempt attempt) ≡ pos n))
exponential-saturate base attempt = (exact_product base attempt, positive_multiplier)
  where
    positive_multiplier :
        (n : ℕ) × (0 < n) × (n ≤ 2 ^ 62) × (shift_multiplier (clamp_attempt attempt) ≡ pos n)
    positive_multiplier = (
      2 ^ least (pos_part attempt) 62,
      one-le-pow (least (pos_part attempt) 62) 2 (omega arith),
      pow-le-pow_right {n = 2} (omega arith) (least-le (pos_part attempt) 62),
      ap shift_multiplier (clamp-least attempt)
          ∙ shift_multiplier-power (least (pos_part attempt) 62) (least-le (pos_part attempt) 62),
    )

exact_delay_positive : (b : ℕ) (attempt : ℤ) → 0 < b → 0 < exact_delay (pos b) attempt
exact_delay_positive b attempt h =
    let power = one-le-pow (least (pos_part attempt) 62) 2 (omega arith) in
    ground (arith, h, mul-le-mul_left b power)

-- What the generators of the standard library promise: for every bound above 0, a number below it.
abbrev InRange : Draw → Type 0
InRange (drawn int_n) = (bound : ℕ) → 0 < bound → int_n bound < bound
InRange (seeded int_n) = (bound : ℕ) → 0 < bound → int_n bound < bound
InRange unseeded = Unit

full_jitter_below :
    (delay : ℕ) (draw : Draw) → 0 < delay → InRange draw → full_jitter (pos delay) draw < delay
unfolding full_jitter crypto_fallback_rand
full_jitter_below delay (drawn int_n) h r = ground (arith, h, r delay h)
full_jitter_below delay (seeded int_n) h r = ground (arith, h, r delay h)
full_jitter_below delay unseeded h r = ground (arith, h)

-- With generators that answer below any positive bound they are given, the delay with jitter for a
-- positive base is below base * 2^attempt, the attempt taken within [0, 62], and below the largest
-- duration.
pub exponential_with_jitter_below :
    (b : ℕ) (attempt : ℤ) (draw : Draw)
    → 0 < b
    → InRange draw
    → exponential_with_jitter (pos b) attempt draw < exact_delay (pos b) attempt
unfolding exponential_with_jitter
exponential_with_jitter_below b attempt draw h r =
    subst (λ z. full_jitter z draw < exact_delay (pos b) attempt)
      (sym (exponential-saturate (pos b) attempt).0)
      (full_jitter_below (exact_delay (pos b) attempt) draw (exact_delay_positive b attempt h) r)
