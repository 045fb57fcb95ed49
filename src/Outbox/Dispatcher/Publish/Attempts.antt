-- ===== src/Outbox/Dispatcher/Publish/Attempts.antt =====
-- publishEventWithRetry of commons/outbox/dispatcher.go: which publications succeed.
use lib_commons.Base.{
  ℕ, zero, suc, ◌-◌, ◌≡◌, ◌≢◌, refl, ap, ◌↔◌, ◌⊎◌, inl, inr, Bool, true, false, ◌||◌, Option, none,
  some, Bool-cases, arith,
}
use lib_commons.Base.Int.{pos}
use lib_commons.Backoff.{exponential_with_jitter}
use lib_commons.Outbox.Repository.{OutboxEvent}
use lib_commons.Outbox.Config.{DispatcherConfig, or_default, default_publish_backoff}
use lib_commons.Outbox.Handlers.{PublishError}
use lib_commons.Outbox.Dispatcher.{Environment}
use lib_commons.Outbox.Dispatcher.Publish.{
  publish_event, after_wait, after_attempt, publish_attempts, publish_max_attempts, start_attempts,
  publish_event_with_retry,
}

pub some_is_not_none : {A : Type 0} {a : A} → some a ≡ none → ⊥
some_is_not_none h = cc

pub suc_minus_one : (n : ℕ) → suc n - 1 ≡ n
suc_minus_one n = omega arith

module _ {W X : Type 0} (env : Environment W X) (cfg : DispatcherConfig) where
  -- The delay that the code draws before the attempt after number `attempt`.
  abbrev pub delay_after : ℕ → W → ℕ
  delay_after attempt w =
      exponential_with_jitter (pos (or_default cfg.publish_backoff default_publish_backoff))
        (pos attempt) (env.random w)

  -- Delivered event left attempt w w': from w, attempt number `attempt` or one of the `left` after it
  -- succeeds and ends in w'; every attempt before it fails with an error that may be retried, and no
  -- wait is interrupted.
  abbrev pub Delivered : OutboxEvent → ℕ → ℕ → W → W → Type 0
  Delivered event zero attempt w w' = publish_event env cfg event w ≡ (none, w')
  Delivered event (suc left) attempt w w' =
      (publish_event env cfg event w ≡ (none, w'))
      ⊎ ((error : PublishError X) × (failed : W) × (waited : W) × (publish_event env cfg event w
            ≡ (some error, failed))
          × (env.is_non_retryable error ≡ false)
          × (env.wait (delay_after attempt failed) failed ≡ (none, waited))
          × Delivered event left (suc attempt) waited w')

  publish_attempts-Delivered :
      (event : OutboxEvent) (most left attempt : ℕ) (w w' : W)
      → Delivered event left attempt w w'
      → publish_attempts env cfg most left attempt event w ≡ (none, w')
  unfolding publish_attempts after_attempt
  publish_attempts-Delivered event most zero attempt w w' h = rw (h) refl
  publish_attempts-Delivered event most (suc left) attempt w w' (inl h) = rw (h) refl
  publish_attempts-Delivered event most (suc left) attempt w w'
        (inr (error, failed, waited, h, r, k, d)) =
      rw (h, r, k) (publish_attempts-Delivered event most left (suc attempt) waited w' d)

  -- What an attempt comes to when no error is left.
  AfterAttempt :
      ℕ → Bool → (W → Option (PublishError X) × W) → Option (PublishError X) × W → W → Type 0
  AfterAttempt attempt is_last next o w' =
      (o ≡ (none, w'))
      ⊎ ((error : PublishError X) × (failed : W) × (waited : W) × (o ≡ (some error, failed))
          × (is_last ≡ false)
          × (env.is_non_retryable error ≡ false)
          × (env.wait (delay_after attempt failed) failed ≡ (none, waited))
          × (next waited ≡ (none, w')))

  after_wait-none :
      (next : W → Option (PublishError X) × W) (o : Option X × W) (w' : W)
      → after_wait env cfg next o ≡ (none, w')
      → (waited : W) × (o ≡ (none, waited)) × (next waited ≡ (none, w'))
  after_wait-none next (none, w) w' h = (w, refl, h)
  after_wait-none next (some x, w) w' h = absurd (some_is_not_none (ap (λ z. z.0) h))

  after_attempt-none :
      (most attempt : ℕ) (is_last : Bool) (next : W → Option (PublishError X) × W)
      (o : Option (PublishError X) × W) (w' : W)
      → after_attempt env cfg most attempt is_last next o ≡ (none, w')
      → AfterAttempt attempt is_last next o w'
  unfolding after_attempt AfterAttempt
  after_attempt-none most attempt is_last next (none, w) w' = λ h. inl h
  after_attempt-none most attempt is_last next (some error, w) w' =
      elim (Bool-cases (env.is_non_retryable error || is_last)) [
        | inl e ↦ rw (e) (λ h. absurd (some_is_not_none (ap (λ z. z.0) h)))
        | inr e ↦ rw (e) (λ h.
            let (waited, k, n) = after_wait-none next (env.wait (delay_after attempt w) w) w' h in
            inr (error, w, waited, refl, ground (arith, e), ground (arith, e), k, n))
      ]

  publish_attempts-none :
      (event : OutboxEvent) (most left attempt : ℕ) (w w' : W)
      → publish_attempts env cfg most left attempt event w ≡ (none, w')
      → Delivered event left attempt w w'
  unfolding publish_attempts AfterAttempt
  publish_attempts-none event most zero attempt w w' h =
      elim (after_attempt-none most attempt true _ (publish_event env cfg event w) w' h) [
        | inl e ↦ e
        | inr (error, failed, waited, e, last, r, k, n) ↦ cc last
      ]
  publish_attempts-none event most (suc left) attempt w w' h =
      elim (after_attempt-none most attempt false
        (λ v. publish_attempts env cfg most left (suc attempt) event v)
        (publish_event env cfg event w) w' h) [
          | inl e ↦ inl e
          | inr (error, failed, waited, e, last, r, k, n) ↦ inr (
            error,
            failed,
            waited,
            e,
            r,
            k,
            publish_attempts-none event most left (suc attempt) waited w' n,
          )
        ]

  start_attempts_iff :
      (event : OutboxEvent) (most : ℕ) (w w' : W)
      → most ≢ 0
      → (start_attempts env cfg most event w ≡ (none, w')) ↔ Delivered event (most - 1) 0 w w'
  unfolding start_attempts
  start_attempts_iff event zero w w' h = absurd (h refl)
  start_attempts_iff event (suc left) w w' h = rw (suc_minus_one left) (
    publish_attempts-none event (suc left) left 0 w w',
    publish_attempts-Delivered event (suc left) left 0 w w',
  )

  pub most_positive : publish_max_attempts env cfg ≢ 0
  most_positive h = ground arith

  -- A publication succeeds exactly if one of its attempts, at most PublishMaxAttempts or the default of
  -- 3 of them, succeeds, each attempt before it fails with an error that may be retried, and no wait
  -- between them is interrupted.
  pub publish_event_with_retry-Delivered :
      (event : OutboxEvent) (w w' : W)
      → (publish_event_with_retry env cfg event w ≡ (none, w'))
        ↔ Delivered event (publish_max_attempts env cfg - 1) 0 w w'
  unfolding publish_event_with_retry
  publish_event_with_retry-Delivered event w w' =
      start_attempts_iff event (publish_max_attempts env cfg) w w' most_positive
