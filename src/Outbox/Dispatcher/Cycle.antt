-- ===== src/Outbox/Dispatcher/Cycle.antt =====
-- commons/outbox/dispatcher.go: DispatchOnceResult, one cycle of one tenant.
pub mod Counters
pub mod Keeps
pub mod Collected
use lib_commons.Base.{ℕ, ◌+◌, Bool, true, false, List, [], ◌∷◌, Option, none, some, if◌then◌else◌}
use lib_commons.Base.Result.{Result, ok, err}
use lib_commons.Base.Runes.{Runes}
use lib_commons.Outbox.Repository.{OutboxEvent, RepositoryError}
use lib_commons.Outbox.Config.{DispatcherConfig}
use lib_commons.Outbox.Handlers.{PublishError}
use lib_commons.Outbox.Dispatcher.{Environment, Dispatcher}
use lib_commons.Outbox.Dispatcher.Publish.{publish_event_with_retry, handle_publish_error}
use lib_commons.Outbox.Dispatcher.Failures.{tenant_metric_attribute}
use lib_commons.Outbox.Dispatcher.Collect.{collect_events}

pub record DispatchResult : Type 0 where
  pub processed : ℕ
  pub published : ℕ
  pub failed : ℕ
  pub state_update_failed : ℕ

abbrev pub no_result : DispatchResult
no_result = record { processed = 0; published = 0; failed = 0; state_update_failed = 0 }

module _ {W X : Type 0} (env : Environment W X) (cfg : DispatcherConfig) where
  -- The event was published; its state is persisted, or that failure is counted.
  unfoldable pub after_mark_published :
      DispatchResult → Result RepositoryError (Unit {0}) × W → DispatchResult × W
  after_mark_published r (ok u, w) = (record r { published = r.published + 1 }, w)
  after_mark_published r (err e, w) =
      (record r { published = r.published + 1; state_update_failed = r.state_update_failed + 1 }, w)

  unfoldable pub after_publish :
      OutboxEvent → DispatchResult → Option (PublishError X) × W → DispatchResult × W
  after_publish event r (some error, w) =
      (record r { failed = r.failed + 1 }, handle_publish_error env cfg event error w)
  after_publish event r (none, w) =
      after_mark_published r (env.mark_published event.id (env.now w) w)

  unfoldable pub dispatch_event : OutboxEvent → DispatchResult → W → DispatchResult × W
  dispatch_event event r w =
      after_publish event (record r { processed = r.processed + 1 })
        (publish_event_with_retry env cfg event w)

  -- The loop over the events; a context that ended stops it.
  unfoldable pub dispatch_events : List OutboxEvent → DispatchResult → W → DispatchResult × W
  dispatch_events [] r w = (r, w)
  dispatch_events (event ∷ events) r w =
      let next = dispatch_event event r w in
      let rest = dispatch_events events next.0 next.1 in if env.context_done w then (r, w) else rest

module _ {W X : Type 0} (env : Environment W X) where
  unfoldable pub dispatch_once_result : Dispatcher → Runes → W → DispatchResult × Dispatcher × W
  dispatch_once_result d tenant_key w =
      let collected = collect_events env d tenant_key w in
      let dispatched = dispatch_events env d.cfg collected.0 no_result collected.2 in
      (dispatched.0, tenant_metric_attribute collected.1 tenant_key, dispatched.1)
