-- ===== src/Outbox/OnPostgres/Delivery.antt =====
-- The dispatch of one claimed event, of commons/outbox/dispatcher.go over commons/outbox/postgres: its
-- row afterwards.
use lib_commons.Base.{
  ℕ, zero, suc, ◌+◌, ◌≡◌, ◌≢◌, refl, sym, subst, ◌∙◌, ◌⊎◌, inl, inr, Bool, true, false, ◌||◌,
  Option, none, some, In, Bool-cases, if-cases, leb, arith,
}
use lib_commons.Base.Int.{pos}
use lib_commons.Base.Result.{Result, ok, err}
use lib_commons.Base.Runes.{Runes}
use lib_commons.Backoff.{exponential_with_jitter}
use lib_commons.Outbox.Status.{OutboxEventStatus}
use OutboxEventStatus.{published, failed, invalid}
use lib_commons.Outbox.Repository.{OutboxEvent, Row, Table, RepositoryError}
use lib_commons.Outbox.LastError.{bound_error_cause}
use lib_commons.Outbox.Sanitizer.{sanitize_error_message_for_storage}
use lib_commons.Outbox.Repository.Finish.{in_processing, mark_failed, mark_invalid, set_failed}
use lib_commons.Outbox.Repository.Finish.Recorded.{
  Serves, Claimed, in_processing_lem, update-In, In-update, other_in_processing, mark_published-eq,
  mark_failed-eq, mark_invalid-eq,
}
use lib_commons.Outbox.Config.{DispatcherConfig, or_default, default_publish_backoff}
use lib_commons.Outbox.Handlers.{PublishError}
use lib_commons.Outbox.Dispatcher.Publish.{
  call_back, publish_event, after_wait, after_attempt, publish_attempts, start_attempts,
  publish_max_attempts, publish_event_with_retry, invoke_on_invalid, invoke_on_failed,
  after_mark_invalid, after_mark_failed, handle_publish_error, sanitize_error_for_storage,
}
use lib_commons.Outbox.Dispatcher.Cycle.{
  DispatchResult, after_mark_published, after_publish, dispatch_event,
}
use lib_commons.Outbox.OnPostgres.{Outside, lift_callback, on_postgres}
use lib_commons.Outbox.OnPostgres.Lifecycle.{handle-table}

module _ {L X : Type 0} (outside : Outside L X) (cfg : DispatcherConfig) where
  publish_event-table :
      (event : OutboxEvent) (w : Table × L)
      → (publish_event (on_postgres outside) cfg event w).1.0 ≡ w.0
  unfolding publish_event
  publish_event-table event w = ground (arith, handle-table outside.handlers event w.0 w.1)

  after_wait-table :
      (next : Table × L → Option (PublishError X) × (Table × L)) (t : Table)
      (o : Option X × (Table × L))
      → ((w : Table × L) → (next w).1.0 ≡ w.0)
      → o.1.0 ≡ t
      → (after_wait (on_postgres outside) cfg next o).1.0 ≡ t
  after_wait-table next t (none, w) h k = h w ∙ k
  after_wait-table next t (some x, w) h k = k

  after_attempt-table :
      (most attempt : ℕ) (is_last : Bool) (next : Table × L → Option (PublishError X) × (Table × L))
      (t : Table) (o : Option (PublishError X) × (Table × L))
      → ((w : Table × L) → (next w).1.0 ≡ w.0)
      → o.1.0 ≡ t
      → (after_attempt (on_postgres outside) cfg most attempt is_last next o).1.0 ≡ t
  unfolding after_attempt
  after_attempt-table most attempt is_last next t (none, w) h k = k
  after_attempt-table most attempt is_last next t (some error, w) h k =
      let delay =
        exponential_with_jitter (pos (or_default cfg.publish_backoff default_publish_backoff))
          (pos attempt) (outside.random w.1) in
      elim (Bool-cases (outside.is_non_retryable error || is_last)) [
        | inl e ↦ rw (e) k
        | inr e ↦ rw (e) (after_wait-table next t ((on_postgres outside).wait delay w) h k)
      ]

  publish_attempts-table :
      (most left attempt : ℕ) (event : OutboxEvent) (w : Table × L)
      → (publish_attempts (on_postgres outside) cfg most left attempt event w).1.0 ≡ w.0
  unfolding publish_attempts
  publish_attempts-table most zero attempt event w =
      after_attempt-table most attempt true (λ v. (none, v)) w.0
        (publish_event (on_postgres outside) cfg event w) (λ v. refl) (publish_event-table event w)
  publish_attempts-table most (suc left) attempt event w =
      after_attempt-table most attempt false _ w.0 (publish_event (on_postgres outside) cfg event w)
        (λ v. publish_attempts-table most left (suc attempt) event v) (publish_event-table event w)

  -- A publication does not touch the outbox table.
  start_attempts-table :
      (most : ℕ) (event : OutboxEvent) (w : Table × L)
      → (start_attempts (on_postgres outside) cfg most event w).1.0 ≡ w.0
  unfolding start_attempts
  start_attempts-table zero event w = refl
  start_attempts-table (suc left) event w = publish_attempts-table (suc left) left 0 event w

  -- The statuses that a publication with this outcome may leave.
  abbrev pub Settles : Option (PublishError X) → OutboxEventStatus → Type 0
  Settles none status = status ≡ published
  Settles (some error) status =
      (status ≡ invalid) ⊎ ((status ≡ failed) × (outside.is_non_retryable error ≡ false))

  -- The row of the event after its dispatch, and the others, as they were before it.
  abbrev pub Settled : Table → OutboxEvent → Option (PublishError X) → Table → Type 0
  Settled before event outcome t =
      ((r : Row) × In r t × (r.event.id ≡ event.id) × Settles outcome r.event.status)
      × ((r : Row) → In r before → r.event.id ≢ event.id → In r t)

  told-table :
      (f : Option (OutboxEvent → PublishError X → L → L)) (event : OutboxEvent)
      (error : PublishError X) (w : Table × L)
      → (call_back (lift_callback f) event error w).0 ≡ w.0
  told-table none event error w = refl
  told-table (some f) event error w = refl

  module _ (tn : Runes) (filter : Row → Bool) (event : OutboxEvent) where
    marked_published-Settled :
        (r : DispatchResult) (w : Table × L) (row : Row)
        → Serves (outside.session w.1) tn filter
        → Claimed event.id filter w.0 row
        → Settled w.0 event none (after_publish (on_postgres outside) cfg event r (none, w)).1.0
    unfolding after_publish after_mark_published
    marked_published-Settled r w row serves c =
        let s = outside.session w.1 in
        rw (mark_published-eq s tn filter event.id (outside.now w.1) w.0 row serves c) (
          (
            _,
            update-In (in_processing event.id filter) _ row w.0 c.stands (in_processing_lem c),
            c.named,
            refl,
          ),
          λ x m k.
              In-update (in_processing event.id filter) _ x w.0 m
                (other_in_processing event.id filter x k),
        )

    after_mark_invalid-Settled :
        (before : Table) (error : PublishError X)
        (o : Result RepositoryError (Unit {0}) × (Table × L))
        → Settled before event (some error) o.1.0
        → Settled before event
            (some error)
            (after_mark_invalid (on_postgres outside) cfg event error o).0
    unfolding after_mark_invalid invoke_on_invalid
    after_mark_invalid-Settled before error (err e, w) h = h
    after_mark_invalid-Settled before error (ok u, w) h =
        subst (Settled before event (some error))
          (sym (told-table outside.on_invalid event error w)) h

    after_mark_failed-Settled :
        (before : Table) (error : PublishError X)
        (o : Result RepositoryError (Unit {0}) × (Table × L))
        → Settled before event (some error) o.1.0
        → Settled before event
            (some error)
            (after_mark_failed (on_postgres outside) cfg event error o).0
    unfolding after_mark_failed invoke_on_invalid invoke_on_failed
    after_mark_failed-Settled before error (err e, w) h = h
    after_mark_failed-Settled before error (ok u, w) h =
        elim (Bool-cases (leb cfg.max_dispatch_attempts (event.attempts + 1))) [
          | inl e ↦ rw (e) (
              subst (Settled before event (some error))
                (sym (told-table outside.on_invalid event error w)) h)
          | inr e ↦ rw (e) (
              subst (Settled before event (some error))
                (sym (told-table outside.on_failed event error w)) h)
        ]

    marked_invalid-Settled :
        (error : PublishError X) (message : Runes) (w : Table × L) (row : Row)
        → Serves (outside.session w.1) tn filter
        → Claimed event.id filter w.0 row
        → Settled w.0 event
            (some error)
            (mark_invalid outside.redact (outside.session w.1) event.id message w.0).1
    marked_invalid-Settled error message w row serves c =
        let s = outside.session w.1 in
        rw (mark_invalid-eq outside.redact s tn filter event.id message w.0 row serves c) (
          (
            _,
            update-In (in_processing event.id filter) _ row w.0 c.stands (in_processing_lem c),
            c.named,
            inl refl,
          ),
          λ x m k.
              In-update (in_processing event.id filter) _ x w.0 m
                (other_in_processing event.id filter x k),
        )

    set_failed_status :
        (now most : ℕ) (message : Runes) (e : OutboxEvent)
        → ((set_failed now most message e).status ≡ invalid)
          ⊎ ((set_failed now most message e).status ≡ failed)
    unfolding set_failed
    set_failed_status now most message e = ground arith

    marked_failed-Settled :
        (error : PublishError X) (message : Runes) (w : Table × L) (row : Row)
        → Serves (outside.session w.1) tn filter
        → Claimed event.id filter w.0 row
        → cfg.max_dispatch_attempts ≢ 0
        → outside.is_non_retryable error ≡ false
        → Settled w.0 event
            (some error)
            (mark_failed outside.redact
              (outside.session w.1)
              event.id
              message
              cfg.max_dispatch_attempts
              w.0).1
    unfolding set_failed
    marked_failed-Settled error message w row serves c positive h =
        let s = outside.session w.1 in
        let most = cfg.max_dispatch_attempts in
        let cause = bound_error_cause (sanitize_error_message_for_storage outside.redact message) in
        rw
          (mark_failed-eq outside.redact s tn filter event.id message most w.0 row serves c
            positive)
          (
            (
              _,
              update-In (in_processing event.id filter) _ row w.0 c.stands (in_processing_lem c),
              c.named,
              elim (set_failed_status s.now most cause row.event) [
                | inl e ↦ inl e
                | inr e ↦ inr (e, h)
              ],
            ),
            λ x m k.
                In-update (in_processing event.id filter) _ x w.0 m
                  (other_in_processing event.id filter x k),
          )

    handle_publish_error-Settled :
        (error : PublishError X) (w : Table × L) (row : Row)
        → Serves (outside.session w.1) tn filter
        → Claimed event.id filter w.0 row
        → cfg.max_dispatch_attempts ≢ 0
        → Settled w.0 event
            (some error)
            (handle_publish_error (on_postgres outside) cfg event error w).0
    unfolding handle_publish_error
    handle_publish_error-Settled error w row serves c positive =
        let message = sanitize_error_for_storage (on_postgres outside) cfg error in
        if-cases (λ (v : Table × L). Settled w.0 event (some error) v.0)
          (outside.is_non_retryable error)
          (after_mark_invalid (on_postgres outside) cfg event error
            ((on_postgres outside).mark_invalid event.id message w))
          (after_mark_failed (on_postgres outside) cfg event error
            ((on_postgres outside).mark_failed event.id message cfg.max_dispatch_attempts w))
          (λ h.
            after_mark_invalid-Settled w.0 error
              ((on_postgres outside).mark_invalid event.id message w)
              (marked_invalid-Settled error message w row serves c))
          (λ h.
            after_mark_failed-Settled w.0 error
              ((on_postgres outside).mark_failed event.id message cfg.max_dispatch_attempts w)
              (marked_failed-Settled error message w row serves c positive h))

    after_publish-Settled :
        (r : DispatchResult) (o : Option (PublishError X) × (Table × L)) (row : Row)
        → Serves (outside.session o.1.1) tn filter
        → Claimed event.id filter o.1.0 row
        → cfg.max_dispatch_attempts ≢ 0
        → Settled o.1.0 event o.0 (after_publish (on_postgres outside) cfg event r o).1.0
    unfolding after_publish
    after_publish-Settled r (none, w) row serves c positive =
        marked_published-Settled r w row serves c
    after_publish-Settled r (some error, w) row serves c positive =
        handle_publish_error-Settled error w row serves c positive

  -- The dispatch of an event that is being processed, in sessions that serve its tenant, settles it,
  -- whatever its handler, the waits and the callbacks do: its row is then PUBLISHED if the publication
  -- succeeded; if it failed the row is FAILED, for an error that may be retried, or INVALID. The rows of other events
  -- stay as they were.
  pub dispatch_event-Settled :
      (tn : Runes) (filter : Row → Bool) (event : OutboxEvent) (r : DispatchResult) (w : Table × L)
      (row : Row)
      → ((l : L) → Serves (outside.session l) tn filter)
      → Claimed event.id filter w.0 row
      → cfg.max_dispatch_attempts ≢ 0
      → Settled w.0 event
          (publish_event_with_retry (on_postgres outside) cfg event w).0
          (dispatch_event (on_postgres outside) cfg event r w).1.0
  unfolding dispatch_event publish_event_with_retry
  dispatch_event-Settled tn filter event r w row serves c positive =
      let most = publish_max_attempts (on_postgres outside) cfg in
      let outcome = start_attempts (on_postgres outside) cfg most event w in
      let same = start_attempts-table most event w in
      subst
        (λ t.
          Settled t event outcome.0
            (after_publish (on_postgres outside) cfg event
              (record r { processed = r.processed + 1 }) outcome).1.0)
        same
        (after_publish-Settled tn filter event (record r { processed = r.processed + 1 }) outcome
          row (serves outcome.1.1) (subst (λ t. Claimed event.id filter t row) (sym same) c)
          positive)
