-- ===== src/Outbox/Dispatcher/Collect/Batch.antt =====
-- collectEvents of commons/outbox/dispatcher.go: the batch of a cycle.
use lib_commons.Base.{
  ℕ, ◌-◌, ◌≤◌, inl, inr, ◌&&◌, not, List, [], ◌∷◌, ◌++◌, ◌==◌, Option, none, some, length,
  length-append, Bool-cases, arith,
}
use lib_commons.Base.Result.{Result, ok, err}
use lib_commons.Base.Runes.{Runes}
use lib_commons.Outbox.Repository.{OutboxEvent, RepositoryError}
use lib_commons.Outbox.Config.{DispatcherConfig}
use lib_commons.Outbox.Dispatcher.{Environment, Dispatcher}
use lib_commons.Outbox.Dispatcher.Collect.{
  events_of, min, deduplicate_events, list_by_each_type, list_priority, collect_priority_events,
  after_reclaim, reset_by, reset_stuck_processing, after_list_pending, collect_pending,
  collect_failed, collect_stuck, collect_events, is_scoped, is_nil,
}
use lib_commons.Outbox.Dispatcher.Collect.Distinct.{
  Distinct, deduplicate_events-Distinct, length-deduplicate_events,
}

abbrev pub Within : {W : Type 0} → ℕ → Result RepositoryError (List OutboxEvent) × W → Type 0
Within limit r = length (events_of r.0) ≤ limit

-- What a reclaim gives back for retry.
abbrev pub retry_of :
    Result RepositoryError (List OutboxEvent × List OutboxEvent) → List OutboxEvent
retry_of (err e) = []
retry_of (ok r) = r.0

abbrev pub WithinTypes :
    {W : Type 0}
    → Option (List Runes → ℕ → W → Result RepositoryError (List OutboxEvent) × W)
    → Type 0
WithinTypes none = Unit
WithinTypes {W} (some list) =
    (types : List Runes) (limit : ℕ) (w : W) → Within limit (list types limit w)

abbrev pub WithinReclaim :
    {W : Type 0}
    → Option (ℕ → ℕ → ℕ → W → Result RepositoryError (List OutboxEvent × List OutboxEvent) × W)
    → Type 0
WithinReclaim none = Unit
WithinReclaim {W} (some reclaim) =
    (limit before most : ℕ) (w : W) → length (retry_of (reclaim limit before most w).0) ≤ limit

-- A repository that never returns more events than it was asked for.
pub record RespectsLimits {W X : Type 0} (env : Environment W X) : Type 0 where
  pub pending_within : (limit : ℕ) (w : W) → Within limit (env.list_pending limit w)
  pub by_type_within :
      (event_type : Runes) (limit : ℕ) (w : W)
      → Within limit (env.list_pending_by_type event_type limit w)
  pub by_types_within : WithinTypes env.list_pending_by_types
  pub failed_within :
      (limit before most : ℕ) (w : W) → Within limit (env.reset_for_retry limit before most w)
  pub stuck_within :
      (limit before most : ℕ) (w : W)
      → Within limit (env.reset_stuck_processing limit before most w)
  pub reclaim_within : WithinReclaim env.reclaim_stuck_processing

-- A batch: distinct events, at most `most`.
abbrev pub IsBatch : ℕ → List OutboxEvent → Type 0
IsBatch most es = Distinct es × (length es ≤ most)

deduplicate_events-IsBatch :
    (most : ℕ) (es : List OutboxEvent) → length es ≤ most → IsBatch most (deduplicate_events es)
deduplicate_events-IsBatch most es h =
    (deduplicate_events-Distinct es, omega (arith, length-deduplicate_events es))

module _ {W X : Type 0} (env : Environment W X) (limits : RespectsLimits env) where
  list_by_each_type_within :
      (types : List Runes) (budget : ℕ) (result : List OutboxEvent) (w : W)
      → length result ≤ budget
      → length (list_by_each_type env types budget result w).0 ≤ budget
  unfolding list_by_each_type
  list_by_each_type_within [] budget result w h = h
  list_by_each_type_within (t ∷ types) budget result w h =
      let listed = env.list_pending_by_type t (budget - length result) w in
      elim (Bool-cases (budget - length result == 0)) [
        | inl e ↦ rw (e) h
        | inr e ↦ rw (e) (
            list_by_each_type_within types budget (result ++ events_of listed.0) listed.1 (
              rw (length-append result (events_of listed.0))
                (omega (arith, h, limits.by_type_within t (budget - length result) w))))
      ]

  list_priority_within :
      (list : Option (List Runes → ℕ → W → Result RepositoryError (List OutboxEvent) × W))
      (types : List Runes) (budget : ℕ) (w : W)
      → WithinTypes list
      → length (list_priority env list types budget w).0 ≤ budget
  list_priority_within none types budget w h =
      list_by_each_type_within types budget [] w (omega arith)
  list_priority_within (some list) types budget w h = h types budget w

  collect_priority_events_within :
      (cfg : DispatcherConfig) (budget : ℕ) (w : W)
      → length (collect_priority_events env cfg budget w).0 ≤ budget
  unfolding collect_priority_events
  collect_priority_events_within cfg budget w = ground (
    arith,
    list_priority_within env.list_pending_by_types cfg.priority_event_types budget w
        limits.by_types_within,
  )

  after_reclaim_within :
      (cfg : DispatcherConfig) (limit : ℕ)
      (r : Result RepositoryError (List OutboxEvent × List OutboxEvent) × W)
      → length (retry_of r.0) ≤ limit
      → length (after_reclaim env cfg r).0 ≤ limit
  after_reclaim_within cfg limit (err e, w) h = omega arith
  after_reclaim_within cfg limit (ok r, w) h = h

  reset_by_within :
      (by : Option
        (ℕ → ℕ → ℕ → W → Result RepositoryError (List OutboxEvent × List OutboxEvent) × W))
      (cfg : DispatcherConfig) (limit before : ℕ) (w : W)
      → WithinReclaim by
      → length (reset_by env by cfg limit before w).0 ≤ limit
  reset_by_within none cfg limit before w h =
      limits.stuck_within limit before cfg.max_dispatch_attempts w
  reset_by_within (some reclaim) cfg limit before w h =
      after_reclaim_within cfg limit (reclaim limit before cfg.max_dispatch_attempts w)
        (h limit before cfg.max_dispatch_attempts w)

  after_list_pending-IsBatch :
      (d : Dispatcher) (tenant_key : Runes) (collected : List OutboxEvent)
      (r : Result RepositoryError (List OutboxEvent) × W)
      → length collected ≤ d.cfg.batch_size
      → Within (d.cfg.batch_size - length collected) r
      → IsBatch d.cfg.batch_size (after_list_pending env d tenant_key collected r).0
  after_list_pending-IsBatch d tenant_key collected (err e, w) h k =
      deduplicate_events-IsBatch d.cfg.batch_size collected h
  after_list_pending-IsBatch d tenant_key collected (ok pending, w) h k =
      deduplicate_events-IsBatch d.cfg.batch_size (collected ++ pending)
        (rw (length-append collected pending) (omega (arith, h, k)))

  collect_pending-IsBatch :
      (d : Dispatcher) (tenant_key : Runes) (collected : List OutboxEvent) (w : W)
      → length collected ≤ d.cfg.batch_size
      → IsBatch d.cfg.batch_size (collect_pending env d tenant_key collected w).0
  unfolding collect_pending
  collect_pending-IsBatch d tenant_key collected w h =
      let remaining = d.cfg.batch_size - length collected in
      elim (Bool-cases (remaining == 0)) [
        | inl e ↦ rw (e) (deduplicate_events-IsBatch d.cfg.batch_size collected h)
        | inr e ↦ rw (e) (
            after_list_pending-IsBatch d tenant_key collected (env.list_pending remaining w) h
              (limits.pending_within remaining w))
      ]

  collect_failed-IsBatch :
      (d : Dispatcher) (tenant_key : Runes) (before : ℕ) (collected : List OutboxEvent) (w : W)
      → length collected ≤ d.cfg.batch_size
      → IsBatch d.cfg.batch_size (collect_failed env d tenant_key before collected w).0
  unfolding collect_failed
  collect_failed-IsBatch d tenant_key before collected w h =
      let limit = min (d.cfg.batch_size - length collected) d.cfg.max_failed_per_batch in
      let reset = env.reset_for_retry limit before d.cfg.max_dispatch_attempts w in
      elim (Bool-cases (limit == 0)) [
        | inl e ↦ rw (e) (deduplicate_events-IsBatch d.cfg.batch_size collected h)
        | inr e ↦ rw (e) (
            collect_pending-IsBatch d tenant_key (collected ++ events_of reset.0) reset.1 (
              rw (length-append collected (events_of reset.0)) (
                ground
                  (arith, h, limits.failed_within limit before d.cfg.max_dispatch_attempts w))))
      ]

  collect_stuck-IsBatch :
      (d : Dispatcher) (tenant_key : Runes) (failed_before before : ℕ) (priority : List OutboxEvent)
      (w : W)
      → length priority ≤ d.cfg.batch_size
      → IsBatch d.cfg.batch_size (collect_stuck env d tenant_key failed_before before priority w).0
  unfolding collect_stuck reset_stuck_processing
  collect_stuck-IsBatch d tenant_key failed_before before priority w h =
      let limit = d.cfg.batch_size - length priority in
      let reset = reset_by env env.reclaim_stuck_processing d.cfg limit before w in
      elim (Bool-cases (limit == 0)) [
        | inl e ↦ rw (e) (deduplicate_events-IsBatch d.cfg.batch_size priority h)
        | inr e ↦ rw (e) (
            collect_failed-IsBatch d tenant_key failed_before (priority ++ reset.0) reset.1 (
              rw (length-append priority reset.0) (
                omega (
                  arith,
                  h,
                  reset_by_within env.reclaim_stuck_processing d.cfg limit before w
                      limits.reclaim_within,
                ))))
      ]

  -- Over a repository that respects its limits a cycle collects distinct events, at most the batch
  -- size, whichever of its layers find events or fail.
  pub collect_events-IsBatch :
      (d : Dispatcher) (tenant_key : Runes) (w : W)
      → IsBatch d.cfg.batch_size (collect_events env d tenant_key w).0
  unfolding collect_events
  collect_events-IsBatch d tenant_key w =
      let budget = min d.cfg.priority_budget d.cfg.batch_size in
      let priority = collect_priority_events env d.cfg budget w in
      let h : length priority.0 ≤ d.cfg.batch_size =
        ground (arith, collect_priority_events_within d.cfg budget w) in
      elim (Bool-cases (is_scoped env && not (is_nil d.cfg.priority_event_types))) [
        | inl e ↦ rw (e) (deduplicate_events-IsBatch d.cfg.batch_size priority.0 h)
        | inr e ↦ rw (e) (
            collect_stuck-IsBatch d tenant_key (env.now w - d.cfg.retry_window)
              (env.now w - d.cfg.processing_timeout) priority.0 priority.1 h)
      ]
