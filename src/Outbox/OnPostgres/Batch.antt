-- ===== src/Outbox/OnPostgres/Batch.antt =====
-- No operation of commons/outbox/postgres returns more events than its limit, so that a cycle of
-- commons/outbox/dispatcher.go over it has the batch that the dispatcher relies on.
use lib_commons.Base.{◌≤◌, true}
use lib_commons.Base.Result.{◌>>◌, refuse}
use lib_commons.Base.Runes.{Runes, trim_space, is_empty_text}
use lib_commons.Outbox.Status.{OutboxEventStatus}
use OutboxEventStatus.{pending, failed}
use lib_commons.Outbox.Repository.{Table, RepositoryError}
use RepositoryError.{event_type_required}
use lib_commons.Outbox.Repository.Select.{
  list_pending_rows, list_pending_by_type_rows, list_failed_for_retry_rows,
}
use lib_commons.Outbox.Repository.Claim.{
  pending_guards, retry_guards, list_pending, list_pending_by_type, reset_for_retry,
}
use lib_commons.Outbox.Repository.PendingTypes.{
  normalize_event_types, has_no_types, list_pending_by_types, list_pending_by_types_rows,
}
use lib_commons.Outbox.Repository.Reclaim.{reclaim_stuck_processing}
use lib_commons.Outbox.Dispatcher.{Dispatcher}
use lib_commons.Outbox.Dispatcher.Collect.{collect_events}
use lib_commons.Outbox.Dispatcher.Collect.Batch.{RespectsLimits, IsBatch, collect_events-IsBatch}
use lib_commons.Outbox.Dispatcher.Cycle.{dispatch_once_result}
use lib_commons.Outbox.Dispatcher.Cycle.Counters.{IsTally, dispatch_once_result-IsTally}
use lib_commons.Outbox.OnPostgres.{Outside, on_postgres}
use lib_commons.Outbox.OnPostgres.Limits.{
  claimed-AtMost, reclaim_stuck_processing-AtMost, reset_stuck-AtMost, list_pending_rows-IsLimited,
  list_pending_by_type_rows-IsLimited, list_pending_by_types_rows-IsLimited,
  list_failed_for_retry_rows-IsLimited,
}

on_postgres-RespectsLimits :
    {L X : Type 0} (outside : Outside L X) → RespectsLimits (on_postgres outside)
unfolding list_pending list_pending_by_type list_pending_by_types reset_for_retry
on_postgres-RespectsLimits outside = record {
  pending_within = λ limit w.
      let s = outside.session w.1 in
      claimed-AtMost s pending limit (λ s. list_pending_rows s limit) (pending_guards s limit) w.0
        (list_pending_rows-IsLimited limit);
  by_type_within = λ raw limit w.
      let s = outside.session w.1 in
      let t = trim_space raw in
      claimed-AtMost s pending limit (λ s. list_pending_by_type_rows s t limit)
        (pending_guards s limit >> refuse (is_empty_text t) event_type_required) w.0
        (list_pending_by_type_rows-IsLimited t limit);
  by_types_within = λ raws limit w.
      let s = outside.session w.1 in
      let types = normalize_event_types raws in
      claimed-AtMost s pending limit (λ s. list_pending_by_types_rows s types limit)
        (pending_guards s limit >> refuse (has_no_types types) event_type_required) w.0
        (list_pending_by_types_rows-IsLimited types limit);
  failed_within = λ limit before most w.
      let s = outside.session w.1 in
      claimed-AtMost s failed limit (λ s. list_failed_for_retry_rows s limit before most true)
        (retry_guards s limit most) w.0
        (list_failed_for_retry_rows-IsLimited limit before most true);
  stuck_within = λ limit before most w.
      let s = outside.session w.1 in
      reset_stuck-AtMost limit (reclaim_stuck_processing s limit before most w.0)
        (reclaim_stuck_processing-AtMost s limit before most w.0);
  reclaim_within = λ limit before most w.
      reclaim_stuck_processing-AtMost (outside.session w.1) limit before most w.0;
}

-- Over the Postgres repository a cycle dispatches events with distinct ids, at most the batch size.
pub collect_events-IsBatch-on_postgres :
    {L X : Type 0} (outside : Outside L X) (d : Dispatcher) (tenant_key : Runes) (w : Table × L)
    → IsBatch d.cfg.batch_size (collect_events (on_postgres outside) d tenant_key w).0
collect_events-IsBatch-on_postgres outside =
    collect_events-IsBatch (on_postgres outside) (on_postgres-RespectsLimits outside)

-- Over the Postgres repository the events that a cycle processed are those published and those that
-- failed, at most the batch size, and every publication whose state was not persisted is among the
-- published ones.
pub dispatch_once_result-IsTally-on_postgres :
    {L X : Type 0} (outside : Outside L X) (d : Dispatcher) (tenant_key : Runes) (w : Table × L)
    → IsTally (dispatch_once_result (on_postgres outside) d tenant_key w).0
      × ((dispatch_once_result (on_postgres outside) d tenant_key w).0.processed ≤ d.cfg.batch_size)
dispatch_once_result-IsTally-on_postgres outside =
    dispatch_once_result-IsTally (on_postgres outside) (on_postgres-RespectsLimits outside)
