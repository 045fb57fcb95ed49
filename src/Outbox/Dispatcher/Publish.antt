-- ===== src/Outbox/Dispatcher/Publish.antt =====
-- commons/outbox/dispatcher.go: the publication of one event with its retries, and what follows a
-- publication that failed.
pub mod Attempts
pub mod Undelivered
use lib_commons.Base.{
  ℕ, zero, suc, ◌+◌, Bool, true, false, ◌||◌, List, [], ◌∷◌, Option, none, some, ◌==◌, leb,
  if◌then◌else◌,
}
use lib_commons.Base.Int.{pos}
use lib_commons.Base.Result.{Result, ok, err}
use lib_commons.Base.Runes.{Runes}
use lib_commons.Backoff.{exponential_with_jitter}
use lib_commons.Outbox.Repository.{OutboxEvent, RepositoryError}
use lib_commons.Outbox.Sanitizer.{sanitize_error_message_for_storage}
use lib_commons.Outbox.Config.{
  DispatcherConfig, or_default, default_publish_max_attempts, default_publish_backoff,
}
use lib_commons.Outbox.Handlers.{
  PublishError, payload_required, attempt_failed, wait_interrupted, handle,
}
use lib_commons.Outbox.Dispatcher.{Environment}

abbrev is_empty_payload : List ℕ → Bool
is_empty_payload [] = true
is_empty_payload (b ∷ bs) = false

abbrev pub call_back :
    {W X : Type 0}
    → Option (OutboxEvent → PublishError X → W → W)
    → OutboxEvent
    → PublishError X
    → W
    → W
call_back none event error w = w
call_back (some f) event error w = f event error w

module _ {W X : Type 0} (env : Environment W X) (cfg : DispatcherConfig) where
  unfoldable pub publish_event : OutboxEvent → W → Option (PublishError X) × W
  publish_event event w =
      if is_empty_payload event.payload
      then (some payload_required, w)
      else handle env.handlers event w

  -- After the wait before the next attempt.
  abbrev pub after_wait :
      (W → Option (PublishError X) × W) → Option X × W → Option (PublishError X) × W
  after_wait next (none, w) = next w
  after_wait next (some x, w) = (some (wait_interrupted x), w)

  -- After attempt number `attempt` of `most`, the last one or not.
  unfoldable pub after_attempt :
      ℕ
      → ℕ
      → Bool
      → (W → Option (PublishError X) × W)
      → Option (PublishError X) × W
      → Option (PublishError X) × W
  after_attempt most attempt is_last next (none, w) = (none, w)
  after_attempt most attempt is_last next (some error, w) =
      let base = or_default cfg.publish_backoff default_publish_backoff in
      let retried =
        after_wait next
          (env.wait (exponential_with_jitter (pos base) (pos attempt) (env.random w)) w) in
      if env.is_non_retryable error || is_last
      then (some (attempt_failed (suc attempt) most error), w)
      else retried

  -- The loop, with `left` attempts left after the coming one.
  unfoldable pub publish_attempts : ℕ → ℕ → ℕ → OutboxEvent → W → Option (PublishError X) × W
  publish_attempts most zero attempt event w =
      after_attempt most attempt true (λ w'. (none, w')) (publish_event event w)
  publish_attempts most (suc left) attempt event w =
      after_attempt most attempt false (λ w'. publish_attempts most left (suc attempt) event w')
        (publish_event event w)

  abbrev pub publish_max_attempts : ℕ
  publish_max_attempts = or_default cfg.publish_max_attempts default_publish_max_attempts

  -- `most` attempts from the first, at index 0; `most` is not 0.
  unfoldable pub start_attempts : ℕ → OutboxEvent → W → Option (PublishError X) × W
  start_attempts zero event w = (none, w)
  start_attempts (suc left) event w = publish_attempts (suc left) left 0 event w

  unfoldable pub publish_event_with_retry : OutboxEvent → W → Option (PublishError X) × W
  publish_event_with_retry event w = start_attempts publish_max_attempts event w

  -- A callback that panics is recovered: it is a function like any other here.
  unfoldable pub invoke_on_invalid : OutboxEvent → PublishError X → W → W
  invoke_on_invalid event error w = call_back env.on_invalid event error w

  unfoldable pub invoke_on_failed : OutboxEvent → PublishError X → W → W
  invoke_on_failed event error w = call_back env.on_failed event error w

  -- sanitizeErrorForStorage
  abbrev pub sanitize_error_for_storage : PublishError X → Runes
  sanitize_error_for_storage error =
      sanitize_error_message_for_storage env.redact (env.error_text error)

  unfoldable pub after_mark_invalid :
      OutboxEvent → PublishError X → Result RepositoryError (Unit {0}) × W → W
  after_mark_invalid event error (err e, w) = w
  after_mark_invalid event error (ok u, w) = invoke_on_invalid event error w

  unfoldable pub after_mark_failed :
      OutboxEvent → PublishError X → Result RepositoryError (Unit {0}) × W → W
  after_mark_failed event error (err e, w) = w
  after_mark_failed event error (ok u, w) =
      if leb cfg.max_dispatch_attempts (event.attempts + 1)
      then invoke_on_invalid event error w
      else invoke_on_failed event error w

  unfoldable pub handle_publish_error : OutboxEvent → PublishError X → W → W
  handle_publish_error event error w =
      if env.is_non_retryable error
      then after_mark_invalid event error
          (env.mark_invalid event.id (sanitize_error_for_storage error) w)
      else after_mark_failed event error
          (env.mark_failed event.id (sanitize_error_for_storage error) cfg.max_dispatch_attempts w)
