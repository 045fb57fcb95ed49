-- ===== src/Outbox/Dispatcher/Publish/Undelivered.antt =====
-- publishEventWithRetry of commons/outbox/dispatcher.go: which publications fail, and with which error.
use lib_commons.Base.{
  ℕ, zero, suc, ◌-◌, ◌≡◌, ◌≢◌, refl, sym, ap, ◌∙◌, ◌↔◌, ◌⊎◌, inl, inr, Bool, true, false, ◌||◌,
  Option, none, some, Bool-cases, arith,
}
use lib_commons.Outbox.Repository.{OutboxEvent}
use lib_commons.Outbox.Config.{DispatcherConfig}
use lib_commons.Outbox.Handlers.{PublishError, attempt_failed, wait_interrupted}
use lib_commons.Outbox.Dispatcher.{Environment}
use lib_commons.Outbox.Dispatcher.Publish.{
  publish_event, after_wait, after_attempt, publish_attempts, publish_max_attempts, start_attempts,
  publish_event_with_retry,
}
use lib_commons.Outbox.Dispatcher.Publish.Attempts.{
  delay_after, some_is_not_none, suc_minus_one, most_positive,
}

module _ {W X : Type 0} (env : Environment W X) (cfg : DispatcherConfig) where
  abbrev Outcome : Type 0
  Outcome = Option (PublishError X) × W

  -- The retry that follows a failed attempt: `rest` says how the later attempts fail.
  abbrev FailsLater : ℕ → PublishError X → W → (W → Type 0) → PublishError X → W → Type 0
  FailsLater attempt cause failed rest error w' =
      (env.is_non_retryable cause ≡ false)
      × (((x : X) × (env.wait (delay_after env cfg attempt failed) failed ≡ (some x, w'))
            × (error ≡ wait_interrupted x))
          ⊎ ((waited : W) × (env.wait (delay_after env cfg attempt failed) failed ≡ (none, waited))
              × rest waited))

  -- Undelivered event most left attempt w error w': from w, attempt number `attempt` fails, and so does
  -- each of the `left` after it that is made. The publication gives up, in w', at an error that is not
  -- retryable or at the last attempt, and reports the number of the attempt; or at a wait that is
  -- interrupted, and reports that.
  abbrev pub Undelivered : OutboxEvent → ℕ → ℕ → ℕ → W → PublishError X → W → Type 0
  Undelivered event most zero attempt w error w' =
      (cause : PublishError X) × (publish_event env cfg event w ≡ (some cause, w'))
      × (error ≡ attempt_failed (suc attempt) most cause)
  Undelivered event most (suc left) attempt w error w' =
      (cause : PublishError X) × (failed : W) × (publish_event env cfg event w
        ≡ (some cause, failed))
      × (((env.is_non_retryable cause ≡ true)
            × (failed ≡ w')
            × (error ≡ attempt_failed (suc attempt) most cause))
          ⊎ FailsLater attempt cause failed
              (λ waited. Undelivered event most left (suc attempt) waited error w') error w')

  pair_some :
      {a b : PublishError X} {v w : W} → b ≡ a → v ≡ w → ◌≡◌ {A = Outcome} (some a, v) (some b, w)
  pair_some p q = cc

  some_pair :
      {a b : PublishError X} {v w : W}
      → ◌≡◌ {A = Outcome} (some a, v) (some b, w)
      → (v ≡ w) × (b ≡ a)
  some_pair h = (ap (λ z. z.1) h, sym (some-injective (ap (λ z. z.0) h)))
    where
      some-injective : {a b : PublishError X} → some a ≡ some b → a ≡ b
      some-injective e = cc

  publish_attempts-Undelivered :
      (event : OutboxEvent) (most left attempt : ℕ) (w : W) (error : PublishError X) (w' : W)
      → Undelivered event most left attempt w error w'
      → publish_attempts env cfg most left attempt event w ≡ (some error, w')
  unfolding publish_attempts after_attempt
  publish_attempts-Undelivered event most zero attempt w error w' (cause, h, e) =
      elim (Bool-cases (env.is_non_retryable cause)) [
        | inl r ↦ rw (h, r) (pair_some e refl)
        | inr r ↦ rw (h, r) (pair_some e refl)
      ]
  publish_attempts-Undelivered event most (suc left) attempt w error w'
        (cause, failed, h, inl (r, f, e)) =
      rw (h, r) (pair_some e f)
  publish_attempts-Undelivered event most (suc left) attempt w error w'
        (cause, failed, h, inr (r, inl (x, k, e))) =
      rw (h, r, k) (pair_some e refl)
  publish_attempts-Undelivered event most (suc left) attempt w error w'
        (cause, failed, h, inr (r, inr (waited, k, u))) =
      rw (h, r, k) (publish_attempts-Undelivered event most left (suc attempt) waited error w' u)

  -- What an attempt comes to when an error is left.
  AfterAttempt : ℕ → ℕ → Bool → (W → Outcome) → Outcome → PublishError X → W → Type 0
  AfterAttempt most attempt is_last next o error w' =
      (cause : PublishError X) × (failed : W) × (o ≡ (some cause, failed))
      × ((((env.is_non_retryable cause || is_last) ≡ true)
            × (failed ≡ w')
            × (error ≡ attempt_failed (suc attempt) most cause))
          ⊎ ((is_last ≡ false)
              × FailsLater attempt cause failed (λ waited. next waited ≡ (some error, w')) error
                  w'))

  after_wait-some :
      (next : W → Outcome) (o : Option X × W) (error : PublishError X) (w' : W)
      → after_wait env cfg next o ≡ (some error, w')
      → ((x : X) × (o ≡ (some x, w')) × (error ≡ wait_interrupted x))
        ⊎ ((waited : W) × (o ≡ (none, waited)) × (next waited ≡ (some error, w')))
  after_wait-some next (none, w) error w' h = inr (w, refl, h)
  after_wait-some next (some x, w) error w' h =
      let (f, q) = some_pair h in inl (x, ap (λ v. (some x, v)) f, q)

  after_attempt-some :
      (most attempt : ℕ) (is_last : Bool) (next : W → Outcome) (o : Outcome)
      (error : PublishError X) (w' : W)
      → after_attempt env cfg most attempt is_last next o ≡ (some error, w')
      → AfterAttempt most attempt is_last next o error w'
  unfolding after_attempt AfterAttempt
  after_attempt-some most attempt is_last next (none, w) error w' =
      λ h. absurd (some_is_not_none (sym (ap (λ z. z.0) h)))
  after_attempt-some most attempt is_last next (some cause, w) error w' =
      elim (Bool-cases (env.is_non_retryable cause || is_last)) [
        | inl e ↦ rw (e) (λ h. (cause, w, refl, (let (f, q) = some_pair h in inl (e, f, q))))
        | inr e ↦ rw (e) (λ h. (
          cause,
          w,
          refl,
          inr (
            ground (arith, e),
            (
              ground (arith, e),
              after_wait-some next (env.wait (delay_after env cfg attempt w) w) error w' h,
            ),
          ),
        ))
      ]

  publish_attempts-some :
      (event : OutboxEvent) (most left attempt : ℕ) (w : W) (error : PublishError X) (w' : W)
      → publish_attempts env cfg most left attempt event w ≡ (some error, w')
      → Undelivered event most left attempt w error w'
  unfolding publish_attempts AfterAttempt
  publish_attempts-some event most zero attempt w error w' h =
      let (cause, failed, e, k) =
        after_attempt-some most attempt true _ (publish_event env cfg event w) error w' h in
      elim k [ inl (r, f, q) ↦ (cause, e ∙ pair_some refl f, q) | inr (last, k) ↦ cc last ]
  publish_attempts-some event most (suc left) attempt w error w' h =
      let (cause, failed, e, k) =
        after_attempt-some most attempt false
          (λ v. publish_attempts env cfg most left (suc attempt) event v)
          (publish_event env cfg event w) error w' h in
      (
        cause,
        failed,
        e,
        elim k [
          | inl (r, f, q) ↦ inl (ground (arith, r), f, q)
          | inr (last, (r, later)) ↦ inr (
            r,
            elim later [
              | inl k ↦ inl k
              | inr (waited, k, n) ↦
                  inr (
                    waited,
                    k,
                    publish_attempts-some event most left (suc attempt) waited error w' n,
                  )
            ],
          )
        ],
      )

  start_attempts-Undelivered :
      (event : OutboxEvent) (most : ℕ) (w : W) (error : PublishError X) (w' : W)
      → most ≢ 0
      → (start_attempts env cfg most event w ≡ (some error, w'))
        ↔ Undelivered event most (most - 1) 0 w error w'
  unfolding start_attempts
  start_attempts-Undelivered event zero w error w' h = absurd (h refl)
  start_attempts-Undelivered event (suc left) w error w' h = rw (suc_minus_one left) (
    publish_attempts-some event (suc left) left 0 w error w',
    publish_attempts-Undelivered event (suc left) left 0 w error w',
  )

  -- A publication fails with an error exactly if each attempt that it makes fails, and it ends in one of
  -- three ways: an attempt fails with an error that is not retryable; the last of PublishMaxAttempts
  -- attempts, or of the default of 3, fails; both are reported with the number of the attempt and its
  -- error; or the wait after a retryable failure is interrupted, which is reported instead.
  pub publish_event_with_retry-Undelivered :
      (event : OutboxEvent) (w : W) (error : PublishError X) (w' : W)
      → (publish_event_with_retry env cfg event w ≡ (some error, w'))
        ↔ Undelivered event
            (publish_max_attempts env cfg)
            (publish_max_attempts env cfg - 1)
            0
            w
            error
            w'
  unfolding publish_event_with_retry
  publish_event_with_retry-Undelivered event w error w' =
      start_attempts-Undelivered event (publish_max_attempts env cfg) w error w'
        (most_positive env cfg)
