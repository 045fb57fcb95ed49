-- ===== src/Outbox/Dispatcher/Collect.antt =====
-- commons/outbox/dispatcher.go: collectEvents, with its budgets and its layers of events. A time
-- before the epoch is 0.
pub mod Distinct
pub mod Batch
use lib_commons.Base.{
  ℕ, ◌+◌, ◌-◌, Bool, true, false, ◌&&◌, ◌||◌, not, List, [], ◌∷◌, ◌++◌, Option, none, some, ◌==◌,
  leb, ltb, length, if◌then◌else◌,
}
use lib_commons.Base.Result.{Result, ok, err}
use lib_commons.Base.Runes.{Runes}
use lib_commons.Outbox.Repository.{OutboxEvent, RepositoryError}
use lib_commons.Outbox.Config.{DispatcherConfig}
use lib_commons.Outbox.Handlers.{PublishError, stuck_attempts_exhausted}
use lib_commons.Outbox.Dispatcher.{Environment, Dispatcher}
use lib_commons.Outbox.Dispatcher.Publish.{invoke_on_invalid}
use lib_commons.Outbox.Dispatcher.Failures.{
  handle_list_pending_error, clear_list_pending_failure_count,
}

abbrev pub min : ℕ → ℕ → ℕ
min a b = if leb a b then a else b

-- `seen[id]`
unfoldable pub is_seen : ℕ → List ℕ → Bool
is_seen id [] = false
is_seen id (i ∷ is) = i == id || is_seen id is

-- The loop of deduplicateEvents, with the ids seen so far.
unfoldable pub deduplicate_from : List ℕ → List OutboxEvent → List OutboxEvent
deduplicate_from seen [] = []
deduplicate_from seen (e ∷ es) =
    let without = deduplicate_from seen es in
    let with_it = e ∷ deduplicate_from (e.id ∷ seen) es in
    if is_seen e.id seen then without else with_it

unfoldable pub deduplicate_events : List OutboxEvent → List OutboxEvent
deduplicate_events events = deduplicate_from [] events

-- With an error the list is nil.
abbrev pub events_of : Result RepositoryError (List OutboxEvent) → List OutboxEvent
events_of (err e) = []
events_of (ok es) = es

abbrev pub is_nil : List Runes → Bool
is_nil [] = true
is_nil (t ∷ ts) = false

module _ {W X : Type 0} (env : Environment W X) where
  -- The loop over the priority types; `result` are the events found so far.
  unfoldable pub list_by_each_type : List Runes → ℕ → List OutboxEvent → W → List OutboxEvent × W
  list_by_each_type [] budget result w = (result, w)
  list_by_each_type (event_type ∷ types) budget result w =
      let listed = env.list_pending_by_type event_type (budget - length result) w in
      let rest = list_by_each_type types budget (result ++ events_of listed.0) listed.1 in
      if budget - length result == 0 then (result, w) else rest

  abbrev pub list_priority :
      Option (List Runes → ℕ → W → Result RepositoryError (List OutboxEvent) × W)
      → List Runes
      → ℕ
      → W
      → List OutboxEvent × W
  list_priority none types budget w = list_by_each_type types budget [] w
  list_priority (some list) types budget w =
      let listed = list types budget w in (events_of listed.0, listed.1)

  unfoldable pub collect_priority_events : DispatcherConfig → ℕ → W → List OutboxEvent × W
  collect_priority_events cfg budget w =
      if budget == 0
      then ([], w)
      else (if is_nil cfg.priority_event_types
          then ([], w)
          else list_priority env.list_pending_by_types cfg.priority_event_types budget w)

  -- OnInvalid for each event of the list.
  unfoldable pub invoke_all : DispatcherConfig → List OutboxEvent → W → W
  invoke_all cfg [] w = w
  invoke_all cfg (e ∷ es) w =
      invoke_all cfg es (invoke_on_invalid env cfg e stuck_attempts_exhausted w)

  abbrev pub after_reclaim :
      DispatcherConfig
      → Result RepositoryError (List OutboxEvent × List OutboxEvent) × W
      → List OutboxEvent × W
  after_reclaim cfg (err e, w) = ([], w)
  after_reclaim cfg (ok (retry, invalid), w) = (retry, invoke_all cfg invalid w)

  abbrev pub reset_by :
      Option (ℕ → ℕ → ℕ → W → Result RepositoryError (List OutboxEvent × List OutboxEvent) × W)
      → DispatcherConfig
      → ℕ
      → ℕ
      → W
      → List OutboxEvent × W
  reset_by none cfg limit before w =
      let reset = env.reset_stuck_processing limit before cfg.max_dispatch_attempts w in
      (events_of reset.0, reset.1)
  reset_by (some reclaim) cfg limit before w =
      after_reclaim cfg (reclaim limit before cfg.max_dispatch_attempts w)

  unfoldable pub reset_stuck_processing : DispatcherConfig → ℕ → ℕ → W → List OutboxEvent × W
  reset_stuck_processing cfg limit before w =
      reset_by env.reclaim_stuck_processing cfg limit before w

  abbrev pub is_scoped : Bool
  is_scoped = elim env.list_pending_by_types [ none ↦ false | some list ↦ true ]

  -- After ListPending: its failures are counted, a success clears them.
  abbrev pub after_list_pending :
      Dispatcher
      → Runes
      → List OutboxEvent
      → Result RepositoryError (List OutboxEvent) × W
      → List OutboxEvent × Dispatcher × W
  after_list_pending d tenant_key collected (err e, w) =
      (deduplicate_events collected, (handle_list_pending_error d tenant_key).0, w)
  after_list_pending d tenant_key collected (ok pending, w) =
      (deduplicate_events (collected ++ pending), clear_list_pending_failure_count d tenant_key, w)

  unfoldable pub collect_pending :
      Dispatcher → Runes → List OutboxEvent → W → List OutboxEvent × Dispatcher × W
  collect_pending d tenant_key collected w =
      let remaining = d.cfg.batch_size - length collected in
      if remaining == 0
      then (deduplicate_events collected, d, w)
      else after_list_pending d tenant_key collected (env.list_pending remaining w)

  unfoldable pub collect_failed :
      Dispatcher → Runes → ℕ → List OutboxEvent → W → List OutboxEvent × Dispatcher × W
  collect_failed d tenant_key failed_before collected w =
      let limit = min (d.cfg.batch_size - length collected) d.cfg.max_failed_per_batch in
      let reset = env.reset_for_retry limit failed_before d.cfg.max_dispatch_attempts w in
      if limit == 0
      then (deduplicate_events collected, d, w)
      else collect_pending d tenant_key (collected ++ events_of reset.0) reset.1

  unfoldable pub collect_stuck :
      Dispatcher → Runes → ℕ → ℕ → List OutboxEvent → W → List OutboxEvent × Dispatcher × W
  collect_stuck d tenant_key failed_before processing_before priority w =
      let limit = d.cfg.batch_size - length priority in
      let reset = reset_stuck_processing d.cfg limit processing_before w in
      if limit == 0
      then (deduplicate_events priority, d, w)
      else collect_failed d tenant_key failed_before (priority ++ reset.0) reset.1

  unfoldable pub collect_events : Dispatcher → Runes → W → List OutboxEvent × Dispatcher × W
  collect_events d tenant_key w =
      let failed_before = env.now w - d.cfg.retry_window in
      let processing_before = env.now w - d.cfg.processing_timeout in
      let budget = min d.cfg.priority_budget d.cfg.batch_size in
      let priority = collect_priority_events d.cfg budget w in
      if is_scoped && not (is_nil d.cfg.priority_event_types)
      then (deduplicate_events priority.0, d, priority.1)
      else collect_stuck d tenant_key failed_before processing_before priority.0 priority.1
