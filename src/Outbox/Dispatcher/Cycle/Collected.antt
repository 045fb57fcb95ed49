-- ===== src/Outbox/Dispatcher/Cycle/Collected.antt =====
-- A relation that holds across the steps of commons/outbox/dispatcher.go holds across collectEvents,
-- and so across a whole cycle.
use lib_commons.Base.{
  ℕ, ◌-◌, inl, inr, ◌&&◌, not, List, [], ◌∷◌, ◌++◌, Option, none, some, length, Bool-cases, ◌==◌,
  arith,
}
use lib_commons.Base.Result.{Result, ok, err}
use lib_commons.Base.Runes.{Runes}
use lib_commons.Outbox.Repository.{OutboxEvent, RepositoryError}
use lib_commons.Outbox.Config.{DispatcherConfig}
use lib_commons.Outbox.Handlers.{stuck_attempts_exhausted}
use lib_commons.Outbox.Dispatcher.{Environment, Dispatcher}
use lib_commons.Outbox.Dispatcher.Publish.{call_back, invoke_on_invalid}
use lib_commons.Outbox.Dispatcher.Collect.{
  events_of, min, is_nil, is_scoped, list_by_each_type, list_priority, collect_priority_events,
  invoke_all, after_reclaim, reset_by, reset_stuck_processing, after_list_pending, collect_pending,
  collect_failed, collect_stuck, collect_events,
}
use lib_commons.Outbox.Dispatcher.Cycle.{dispatch_once_result, no_result}
use lib_commons.Outbox.Dispatcher.Cycle.Keeps.{Moves, MovesTypes, MovesReclaim, dispatch_events-R}

module _ {W X : Type 0} (env : Environment W X) (R : W → W → Type 0) (moves : Moves env R) where
  list_by_each_type-R :
      (types : List Runes) (budget : ℕ) (result : List OutboxEvent) (w : W)
      → R w (list_by_each_type env types budget result w).1
  unfolding list_by_each_type
  list_by_each_type-R [] budget result w = moves.stays w
  list_by_each_type-R (t ∷ types) budget result w =
      let listed = env.list_pending_by_type t (budget - length result) w in
      elim (Bool-cases (budget - length result == 0)) [
        | inl e ↦ rw (e) (moves.stays w)
        | inr e ↦ rw (e) (
            moves.chains w listed.1 _ (moves.by_type t (budget - length result) w)
              (list_by_each_type-R types budget (result ++ events_of listed.0) listed.1))
      ]

  list_priority-R :
      (list : Option (List Runes → ℕ → W → Result RepositoryError (List OutboxEvent) × W))
      (types : List Runes) (budget : ℕ) (w : W)
      → MovesTypes R list
      → R w (list_priority env list types budget w).1
  list_priority-R none types budget w h = list_by_each_type-R types budget [] w
  list_priority-R (some list) types budget w h = h types budget w

  collect_priority_events-R :
      (cfg : DispatcherConfig) (budget : ℕ) (w : W)
      → R w (collect_priority_events env cfg budget w).1
  unfolding collect_priority_events
  collect_priority_events-R cfg budget w = ground (
    arith,
    moves.stays w,
    list_priority-R env.list_pending_by_types cfg.priority_event_types budget w moves.by_types,
  )

  invoke_all-R :
      (cfg : DispatcherConfig) (es : List OutboxEvent) (w : W) → R w (invoke_all env cfg es w)
  unfolding invoke_all invoke_on_invalid
  invoke_all-R cfg [] w = moves.stays w
  invoke_all-R cfg (e ∷ es) w =
      moves.chains w _ _ (moves.told_invalid e stuck_attempts_exhausted w)
        (invoke_all-R cfg es (call_back env.on_invalid e stuck_attempts_exhausted w))

  after_reclaim-R :
      (cfg : DispatcherConfig) (a : W)
      (r : Result RepositoryError (List OutboxEvent × List OutboxEvent) × W)
      → R a r.1
      → R a (after_reclaim env cfg r).1
  after_reclaim-R cfg a (err e, w) h = h
  after_reclaim-R cfg a (ok (retry, invalid), w) h =
      moves.chains a w (invoke_all env cfg invalid w) h (invoke_all-R cfg invalid w)

  reset_by-R :
      (by : Option
        (ℕ → ℕ → ℕ → W → Result RepositoryError (List OutboxEvent × List OutboxEvent) × W))
      (cfg : DispatcherConfig) (limit before : ℕ) (w : W)
      → MovesReclaim R by
      → R w (reset_by env by cfg limit before w).1
  reset_by-R none cfg limit before w h = moves.stuck limit before cfg.max_dispatch_attempts w
  reset_by-R (some reclaim) cfg limit before w h =
      after_reclaim-R cfg w (reclaim limit before cfg.max_dispatch_attempts w)
        (h limit before cfg.max_dispatch_attempts w)

  after_list_pending-R :
      (d : Dispatcher) (tenant_key : Runes) (collected : List OutboxEvent) (a : W)
      (r : Result RepositoryError (List OutboxEvent) × W)
      → R a r.1
      → R a (after_list_pending env d tenant_key collected r).2
  after_list_pending-R d tenant_key collected a (err e, w) h = h
  after_list_pending-R d tenant_key collected a (ok es, w) h = h

  collect_pending-R :
      (d : Dispatcher) (tenant_key : Runes) (collected : List OutboxEvent) (w : W)
      → R w (collect_pending env d tenant_key collected w).2
  unfolding collect_pending
  collect_pending-R d tenant_key collected w =
      let remaining = d.cfg.batch_size - length collected in
      elim (Bool-cases (remaining == 0)) [
        | inl e ↦ rw (e) (moves.stays w)
        | inr e ↦ rw (e) (
            after_list_pending-R d tenant_key collected w (env.list_pending remaining w)
              (moves.pending remaining w))
      ]

  collect_failed-R :
      (d : Dispatcher) (tenant_key : Runes) (before : ℕ) (collected : List OutboxEvent) (w : W)
      → R w (collect_failed env d tenant_key before collected w).2
  unfolding collect_failed
  collect_failed-R d tenant_key before collected w =
      let limit = min (d.cfg.batch_size - length collected) d.cfg.max_failed_per_batch in
      let reset = env.reset_for_retry limit before d.cfg.max_dispatch_attempts w in
      elim (Bool-cases (limit == 0)) [
        | inl e ↦ rw (e) (moves.stays w)
        | inr e ↦ rw (e) (
            moves.chains w reset.1 _ (moves.failed limit before d.cfg.max_dispatch_attempts w)
              (collect_pending-R d tenant_key (collected ++ events_of reset.0) reset.1))
      ]

  collect_stuck-R :
      (d : Dispatcher) (tenant_key : Runes) (failed_before before : ℕ) (priority : List OutboxEvent)
      (w : W)
      → R w (collect_stuck env d tenant_key failed_before before priority w).2
  unfolding collect_stuck reset_stuck_processing
  collect_stuck-R d tenant_key failed_before before priority w =
      let limit = d.cfg.batch_size - length priority in
      let reset = reset_by env env.reclaim_stuck_processing d.cfg limit before w in
      elim (Bool-cases (limit == 0)) [
        | inl e ↦ rw (e) (moves.stays w)
        | inr e ↦ rw (e) (
            moves.chains w reset.1 _
              (reset_by-R env.reclaim_stuck_processing d.cfg limit before w moves.reclaim)
              (collect_failed-R d tenant_key failed_before (priority ++ reset.0) reset.1))
      ]

  collect_events-R :
      (d : Dispatcher) (tenant_key : Runes) (w : W) → R w (collect_events env d tenant_key w).2
  unfolding collect_events
  collect_events-R d tenant_key w =
      let budget = min d.cfg.priority_budget d.cfg.batch_size in
      let priority = collect_priority_events env d.cfg budget w in
      let h = collect_priority_events-R d.cfg budget w in
      elim (Bool-cases (is_scoped env && not (is_nil d.cfg.priority_event_types))) [
        | inl e ↦ rw (e) h
        | inr e ↦ rw (e) (
            moves.chains w priority.1 _ h (
              collect_stuck-R d tenant_key (env.now w - d.cfg.retry_window)
                (env.now w - d.cfg.processing_timeout) priority.0 priority.1))
      ]

  pub dispatch_once_result-R :
      (d : Dispatcher) (tenant_key : Runes) (w : W)
      → R w (dispatch_once_result env d tenant_key w).2
  unfolding dispatch_once_result
  dispatch_once_result-R d tenant_key w =
      let collected = collect_events env d tenant_key w in
      moves.chains w collected.2 _ (collect_events-R d tenant_key w)
        (dispatch_events-R env R moves d.cfg collected.0 no_result collected.2)
