-- ===== src/Outbox/Dispatcher/Cycle/Counters.antt =====
-- DispatchOnceResult of commons/outbox/dispatcher.go: its counters.
use lib_commons.Base.{
  ◌+◌, ◌≡◌, ◌≤◌, inl, inr, List, [], ◌∷◌, Option, none, some, length, Bool-cases, arith,
}
use lib_commons.Base.Result.{Result, ok, err}
use lib_commons.Base.Runes.{Runes}
use lib_commons.Outbox.Repository.{OutboxEvent, RepositoryError}
use lib_commons.Outbox.Config.{DispatcherConfig}
use lib_commons.Outbox.Handlers.{PublishError}
use lib_commons.Outbox.Dispatcher.{Environment, Dispatcher}
use lib_commons.Outbox.Dispatcher.Publish.{publish_event_with_retry}
use lib_commons.Outbox.Dispatcher.Collect.{collect_events}
use lib_commons.Outbox.Dispatcher.Collect.Batch.{RespectsLimits, collect_events-IsBatch}
use lib_commons.Outbox.Dispatcher.Cycle.{
  DispatchResult, no_result, after_mark_published, after_publish, dispatch_event, dispatch_events,
  dispatch_once_result,
}

-- Every event processed was published or failed, and only a published one can miss its mark.
pub record IsTally (r : DispatchResult) : Type 0 where
  pub split : r.processed ≡ r.published + r.failed
  pub missed : r.state_update_failed ≤ r.published

-- What processing one event does to the tally.
abbrev OneMore : DispatchResult → DispatchResult → Type 0
OneMore r r' =
    (r'.processed ≡ r.processed + 1)
    × (r'.published + r'.failed ≡ r.published + r.failed + 1)
    × (r'.state_update_failed + r.published ≤ r.state_update_failed + r'.published)

module _ {W X : Type 0} (env : Environment W X) where
  after_publish-OneMore :
      (cfg : DispatcherConfig) (event : OutboxEvent) (r : DispatchResult)
      (o : Option (PublishError X) × W)
      → OneMore r (after_publish env cfg event (record r { processed = r.processed + 1 }) o).0
  unfolding after_publish after_mark_published
  after_publish-OneMore cfg event r (some error, w) = omega arith
  after_publish-OneMore cfg event r (none, w) = marked (env.mark_published event.id (env.now w) w)
    where
      marked :
          (m : Result RepositoryError (Unit {0}) × W)
          → OneMore r (after_mark_published env cfg (record r { processed = r.processed + 1 }) m).0
      marked (err e, w) = omega arith
      marked (ok u, w) = omega arith

  dispatch_events-IsTally :
      (cfg : DispatcherConfig) (events : List OutboxEvent) (r : DispatchResult) (w : W)
      → IsTally r
      → IsTally (dispatch_events env cfg events r w).0
        × ((dispatch_events env cfg events r w).0.processed ≤ r.processed + length events)
  unfolding dispatch_events dispatch_event
  dispatch_events-IsTally cfg [] r w tally = (tally, omega arith)
  dispatch_events-IsTally cfg (event ∷ events) r w tally =
      let published = publish_event_with_retry env cfg event w in
      let next = after_publish env cfg event (record r { processed = r.processed + 1 }) published in
      let step = after_publish-OneMore cfg event r published in
      let tally' : IsTally next.0 = ground (arith, step, tally) in
      let rest = dispatch_events-IsTally cfg events next.0 next.1 tally' in
      elim (Bool-cases (env.context_done w)) [
        | inl e ↦ rw (e) (tally, omega arith)
        | inr e ↦ rw (e) (rest.0, omega (arith, rest.1, step.0))
      ]

  -- Over a repository that respects its limits: the events processed in a cycle are those published
  -- and those that failed, at most the batch size; the publications whose state was not persisted are
  -- among the published ones.
  pub dispatch_once_result-IsTally :
      (limits : RespectsLimits env) (d : Dispatcher) (tenant_key : Runes) (w : W)
      → IsTally (dispatch_once_result env d tenant_key w).0
        × ((dispatch_once_result env d tenant_key w).0.processed ≤ d.cfg.batch_size)
  unfolding dispatch_once_result
  dispatch_once_result-IsTally limits d tenant_key w =
      let collected = collect_events env d tenant_key w in
      let tally = dispatch_events-IsTally d.cfg collected.0 no_result collected.2 (omega arith) in
      (tally.0, omega (arith, tally.1, (collect_events-IsBatch env limits d tenant_key w).1))
