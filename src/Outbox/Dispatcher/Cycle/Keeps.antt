-- ===== src/Outbox/Dispatcher/Cycle/Keeps.antt =====
-- A relation between worlds that holds across every step that DispatchOnceResult can make in
-- commons/outbox/dispatcher.go holds across the whole cycle.
use lib_commons.Base.{
  ℕ, zero, suc, ◌+◌, inl, inr, Bool, true, false, ◌||◌, List, [], ◌∷◌, Option, none, some,
  Bool-cases, leb, arith,
}
use lib_commons.Base.Int.{pos}
use lib_commons.Base.Result.{Result, ok, err}
use lib_commons.Base.Runes.{Runes}
use lib_commons.Backoff.{exponential_with_jitter}
use lib_commons.Outbox.Repository.{OutboxEvent, RepositoryError}
use lib_commons.Outbox.Config.{DispatcherConfig, or_default, default_publish_backoff}
use lib_commons.Outbox.Handlers.{PublishError, handle}
use lib_commons.Outbox.Dispatcher.{Environment}
use lib_commons.Outbox.Dispatcher.Publish.{
  publish_event, after_wait, after_attempt, publish_attempts, publish_event_with_retry,
  start_attempts, publish_max_attempts, call_back, invoke_on_invalid, invoke_on_failed,
  after_mark_invalid, after_mark_failed, handle_publish_error, sanitize_error_for_storage,
}
use lib_commons.Outbox.Dispatcher.Cycle.{
  DispatchResult, after_mark_published, after_publish, dispatch_event, dispatch_events,
}

module _ {W : Type 0} (R : W → W → Type 0) where
  abbrev pub MovesTypes :
      Option (List Runes → ℕ → W → Result RepositoryError (List OutboxEvent) × W) → Type 0
  MovesTypes none = Unit
  MovesTypes (some list) = (types : List Runes) (limit : ℕ) (w : W) → R w (list types limit w).1

  abbrev pub MovesReclaim :
      Option (ℕ → ℕ → ℕ → W → Result RepositoryError (List OutboxEvent × List OutboxEvent) × W)
      → Type 0
  MovesReclaim none = Unit
  MovesReclaim (some reclaim) =
      (limit before most : ℕ) (w : W) → R w (reclaim limit before most w).1

-- The steps of a cycle, each within R.
pub record Moves {W X : Type 0} (env : Environment W X) (R : W → W → Type 0) : Type 0 where
  pub stays : (w : W) → R w w
  pub chains : (a b c : W) → R a b → R b c → R a c
  pub pending : (limit : ℕ) (w : W) → R w (env.list_pending limit w).1
  pub by_type :
      (event_type : Runes) (limit : ℕ) (w : W) → R w (env.list_pending_by_type event_type limit w).1
  pub by_types : MovesTypes R env.list_pending_by_types
  pub failed : (limit before most : ℕ) (w : W) → R w (env.reset_for_retry limit before most w).1
  pub stuck :
      (limit before most : ℕ) (w : W) → R w (env.reset_stuck_processing limit before most w).1
  pub reclaim : MovesReclaim R env.reclaim_stuck_processing
  pub published : (id at : ℕ) (w : W) → R w (env.mark_published id at w).1
  pub marked_failed :
      (id : ℕ) (message : Runes) (most : ℕ) (w : W) → R w (env.mark_failed id message most w).1
  pub marked_invalid : (id : ℕ) (message : Runes) (w : W) → R w (env.mark_invalid id message w).1
  pub handled : (event : OutboxEvent) (w : W) → R w (handle env.handlers event w).1
  pub waited : (delay : ℕ) (w : W) → R w (env.wait delay w).1
  pub told_invalid :
      (event : OutboxEvent) (error : PublishError X) (w : W)
      → R w (call_back env.on_invalid event error w)
  pub told_failed :
      (event : OutboxEvent) (error : PublishError X) (w : W)
      → R w (call_back env.on_failed event error w)

module _ {W X : Type 0} (env : Environment W X) (R : W → W → Type 0) (moves : Moves env R)
    (cfg : DispatcherConfig) where
  publish_event-R : (event : OutboxEvent) (w : W) → R w (publish_event env cfg event w).1
  unfolding publish_event
  publish_event-R event w = ground (arith, moves.stays w, moves.handled event w)

  after_wait-R :
      (next : W → Option (PublishError X) × W) (a : W) (o : Option X × W)
      → ((w : W) → R w (next w).1)
      → R a o.1
      → R a (after_wait env cfg next o).1
  after_wait-R next a (none, w) h k = moves.chains a w (next w).1 k (h w)
  after_wait-R next a (some x, w) h k = k

  after_attempt-R :
      (most attempt : ℕ) (is_last : Bool) (next : W → Option (PublishError X) × W) (a : W)
      (o : Option (PublishError X) × W)
      → ((w : W) → R w (next w).1)
      → R a o.1
      → R a (after_attempt env cfg most attempt is_last next o).1
  unfolding after_attempt
  after_attempt-R most attempt is_last next a (none, w) h k = k
  after_attempt-R most attempt is_last next a (some error, w) h k =
      let delay =
        exponential_with_jitter (pos (or_default cfg.publish_backoff default_publish_backoff))
          (pos attempt) (env.random w) in
      elim (Bool-cases (env.is_non_retryable error || is_last)) [
        | inl e ↦ rw (e) k
        | inr e ↦ rw (e) (
            after_wait-R next a (env.wait delay w) h
              (moves.chains a w (env.wait delay w).1 k (moves.waited delay w)))
      ]

  publish_attempts-R :
      (most left attempt : ℕ) (event : OutboxEvent) (w : W)
      → R w (publish_attempts env cfg most left attempt event w).1
  unfolding publish_attempts
  publish_attempts-R most zero attempt event w =
      after_attempt-R most attempt true (λ w'. (none, w')) w (publish_event env cfg event w)
        moves.stays (publish_event-R event w)
  publish_attempts-R most (suc left) attempt event w =
      after_attempt-R most attempt false _ w (publish_event env cfg event w)
        (λ w'. publish_attempts-R most left (suc attempt) event w') (publish_event-R event w)

  start_attempts-R :
      (most : ℕ) (event : OutboxEvent) (w : W) → R w (start_attempts env cfg most event w).1
  unfolding start_attempts
  start_attempts-R zero event w = moves.stays w
  start_attempts-R (suc left) event w = publish_attempts-R (suc left) left 0 event w

  after_mark_invalid-R :
      (event : OutboxEvent) (error : PublishError X) (a : W)
      (o : Result RepositoryError (Unit {0}) × W)
      → R a o.1
      → R a (after_mark_invalid env cfg event error o)
  unfolding after_mark_invalid invoke_on_invalid
  after_mark_invalid-R event error a (err e, w) h = h
  after_mark_invalid-R event error a (ok u, w) h =
      moves.chains a w (call_back env.on_invalid event error w) h (moves.told_invalid event error w)

  after_mark_failed-R :
      (event : OutboxEvent) (error : PublishError X) (a : W)
      (o : Result RepositoryError (Unit {0}) × W)
      → R a o.1
      → R a (after_mark_failed env cfg event error o)
  unfolding after_mark_failed invoke_on_invalid invoke_on_failed
  after_mark_failed-R event error a (err e, w) h = h
  after_mark_failed-R event error a (ok u, w) h =
      elim (Bool-cases (leb cfg.max_dispatch_attempts (event.attempts + 1))) [
        | inl e ↦ rw (e) (moves.chains a w _ h (moves.told_invalid event error w))
        | inr e ↦ rw (e) (moves.chains a w _ h (moves.told_failed event error w))
      ]

  handle_publish_error-R :
      (event : OutboxEvent) (error : PublishError X) (w : W)
      → R w (handle_publish_error env cfg event error w)
  unfolding handle_publish_error
  handle_publish_error-R event error w =
      let text = sanitize_error_for_storage env cfg error in
      elim (Bool-cases (env.is_non_retryable error)) [
        | inl e ↦ rw (e) (
            after_mark_invalid-R event error w (env.mark_invalid event.id text w)
              (moves.marked_invalid event.id text w))
        | inr e ↦ rw (e) (
            after_mark_failed-R event error w
              (env.mark_failed event.id text cfg.max_dispatch_attempts w)
              (moves.marked_failed event.id text cfg.max_dispatch_attempts w))
      ]

  after_publish-R :
      (event : OutboxEvent) (r : DispatchResult) (a : W) (o : Option (PublishError X) × W)
      → R a o.1
      → R a (after_publish env cfg event r o).1
  unfolding after_publish after_mark_published
  after_publish-R event r a (some error, w) h =
      moves.chains a w _ h (handle_publish_error-R event error w)
  after_publish-R event r a (none, w) h =
      let marked = env.mark_published event.id (env.now w) w in
      persisted marked (moves.chains a w marked.1 h (moves.published event.id (env.now w) w))
    where
      persisted :
          (m : Result RepositoryError (Unit {0}) × W)
          → R a m.1
          → R a (after_mark_published env cfg r m).1
      persisted (err e, w) k = k
      persisted (ok u, w) k = k

  pub dispatch_events-R :
      (events : List OutboxEvent) (r : DispatchResult) (w : W)
      → R w (dispatch_events env cfg events r w).1
  unfolding dispatch_events dispatch_event publish_event_with_retry
  dispatch_events-R [] r w = moves.stays w
  dispatch_events-R (event ∷ events) r w =
      let published = start_attempts env cfg (publish_max_attempts env cfg) event w in
      let next = after_publish env cfg event (record r { processed = r.processed + 1 }) published in
      elim (Bool-cases (env.context_done w)) [
        | inl e ↦ rw (e) (moves.stays w)
        | inr e ↦ rw (e) (
            moves.chains w next.1 (dispatch_events env cfg events next.0 next.1).1
              (after_publish-R event _ w published
                (start_attempts-R (publish_max_attempts env cfg) event w))
              (dispatch_events-R events next.0 next.1))
      ]
