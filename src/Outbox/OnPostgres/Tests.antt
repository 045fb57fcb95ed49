-- ===== src/Outbox/OnPostgres/Tests.antt =====
-- The theorems on commons/outbox/dispatcher.go at concrete inputs: a handler that fails before time 12,
-- over a table with one running event.
use lib_commons.Base.{
  ℕ, ◌+◌, ◌-◌, ◌*◌, ◌≤◌, ◌<◌, ◌≡◌, ◌≢◌, ◌↔◌, refl, true, false, List, [], ◌∷◌, none, some, In, All,
  length, ltb, if◌then◌else◌, arith,
}
use lib_commons.Base.Runes.{same_text, trim_space, trim_left, trim_right}
use lib_commons.Base.Assoc.{find}
use lib_commons.Backoff.{drawn}
use lib_commons.Outbox.Status.{OutboxEventStatus}
use lib_commons.Outbox.Tests.{
  event, same, tenant, tenant_session, of_tenant, running, running_rows, tenant_session-Serves,
  running-Claimed, cause,
}
use lib_commons.Outbox.Repository.{OutboxEvent, Row, Table}
use lib_commons.Outbox.Repository.Lifecycle.{History}
use lib_commons.Outbox.Repository.Trace.Kept.{IsTerminal}
use lib_commons.Outbox.Config.{DispatcherConfig, default_dispatcher_config, second}
use lib_commons.Outbox.Handlers.{Handler, handle, run_handler, attempt_failed, handler_failed}
use lib_commons.Outbox.Dispatcher.{
  Dispatcher, Scope, ScopeActivity, scope_key, default_tenant_failure_counter_fallback,
}
use lib_commons.Outbox.Dispatcher.Publish.{
  publish_event_with_retry, publish_max_attempts, start_attempts, publish_attempts, after_attempt,
  publish_event,
}
use lib_commons.Outbox.Dispatcher.Publish.Attempts.{Delivered, publish_event_with_retry-Delivered}
use lib_commons.Outbox.Dispatcher.Publish.Undelivered.{
  Undelivered, publish_event_with_retry-Undelivered,
}
use lib_commons.Outbox.Dispatcher.Failures.Bounded.{
  listing_failed, listing_done, metric, note_all, IsBounded, note_all-IsBounded,
}
use lib_commons.Outbox.Dispatcher.Collect.{collect_events}
use lib_commons.Outbox.Dispatcher.Collect.Batch.{IsBatch}
use lib_commons.Outbox.Dispatcher.Cycle.{
  DispatchResult, no_result, dispatch_event, dispatch_events, dispatch_once_result,
}
use lib_commons.Outbox.Dispatcher.Cycle.Counters.{IsTally}
use lib_commons.Outbox.Dispatcher.Scopes.{
  normalize_tenant_dispatch_scopes, tenant_dispatch_scope_order, should_dispatch_scope,
  record_scope_activity,
}
use lib_commons.Outbox.Dispatcher.Scopes.Turn.{
  IsRotation, after_cycles, tenant_dispatch_scope_order_fair,
}
use lib_commons.Outbox.Dispatcher.Scopes.Listed.{IsListed}
use lib_commons.Outbox.Dispatcher.Scopes.Polled.{record_scope_activity_polls}
use lib_commons.Outbox.Dispatcher.Retention.{claim_retention_sweep}
use lib_commons.Outbox.Dispatcher.Retention.Interval.{claim_all, claim_retention_sweep_once}
use lib_commons.Outbox.Dispatcher.Tenants.{Tenancy, dispatch_across_tenants}
use lib_commons.Outbox.Dispatcher.Tenants.Remembered.{next_turn, dispatch_across_tenants_remembers}
use lib_commons.Base.Result.{ok}
use lib_commons.Outbox.OnPostgres.{Outside, on_postgres}
use lib_commons.Outbox.OnPostgres.Lifecycle.{dispatch_once_result_advances}
use lib_commons.Outbox.OnPostgres.Batch.{
  collect_events-IsBatch-on_postgres, dispatch_once_result-IsTally-on_postgres,
}
use lib_commons.Outbox.OnPostgres.Dispatched.{IsDone, dispatch_events-IsDone}
use lib_commons.Outbox.OnPostgres.Delivery.{Settled, dispatch_event-Settled}

-- The rest of the world is the time.
abbrev late_handler : Handler ℕ ℕ
late_handler e now = if ltb now 12 then (some 0, now + 1) else (none, now + 1)

abbrev outside : Outside ℕ ℕ
outside = record {
  session = tenant_session;
  passes = λ now. now + 1;
  handlers = (116 ∷ [], late_handler) ∷ [];
  is_non_retryable = λ error. false;
  error_text = λ error. cause;
  redact = same;
  random = λ now. drawn (λ bound. 0);
  wait = λ delay now. (none, now + 1);
  context_done = λ now. false;
  now = λ now. now;
  on_invalid = none;
  on_failed = some (λ e error now. now + 1);
}

abbrev config : DispatcherConfig
config = record default_dispatcher_config {
  retention_sweep_interval = 3600 * second;
  max_tracked_list_pending_failure_tenants = 2;
  max_tenant_metric_dimensions = 1;
}

abbrev start : Dispatcher
start = record {
  cfg = config;
  list_pending_failure_counts = (default_tenant_failure_counter_fallback, 0) ∷ [];
  tenant_metric_keys = [];
  scope_activity = [];
  retention_swept_at = [];
  retention_pruned_at = none;
  retention_listed_at = none;
  running = false;
  stopped = false;
  tenant_turn = 0;
}

abbrev world : Table × ℕ
world = (running_rows, 10)

abbrev event_1 : OutboxEvent
event_1 = event 1 OutboxEventStatus.processing 5

dispatch_event-Settled_example :
    Settled outside config running_rows event_1
      (publish_event_with_retry (on_postgres outside) config event_1 world).0
      (dispatch_event (on_postgres outside) config event_1 no_result world).1.0
dispatch_event-Settled_example =
    dispatch_event-Settled outside config tenant of_tenant event_1 no_result world running
      tenant_session-Serves running-Claimed (λ e. omega (arith, e))

dispatch_once_result_advances_example :
    History running_rows (dispatch_once_result (on_postgres outside) start tenant world).2.0
    × ((r : Row)
        → IsTerminal r.event.status
        → In r running_rows
        → In r (dispatch_once_result (on_postgres outside) start tenant world).2.0)
dispatch_once_result_advances_example = dispatch_once_result_advances outside start tenant world

collect_events-IsBatch-on_postgres_example :
    IsBatch 50 (collect_events (on_postgres outside) start tenant world).0
collect_events-IsBatch-on_postgres_example =
    collect_events-IsBatch-on_postgres outside start tenant world

dispatch_once_result-IsTally-on_postgres_example :
    IsTally (dispatch_once_result (on_postgres outside) start tenant world).0
    × ((dispatch_once_result (on_postgres outside) start tenant world).0.processed ≤ 50)
dispatch_once_result-IsTally-on_postgres_example =
    dispatch_once_result-IsTally-on_postgres outside start tenant world

-- The second attempt, at time 12, succeeds.
publish_event_with_retry-Delivered_example :
    (publish_event_with_retry (on_postgres outside) config event_1 world
      ≡ (none, (running_rows, 13)))
    ↔ Delivered
        (on_postgres outside)
        config
        event_1
        (publish_max_attempts (on_postgres outside) config - 1)
        0
        world
        (running_rows, 13)
publish_event_with_retry-Delivered_example =
    publish_event_with_retry-Delivered (on_postgres outside) config event_1 world (running_rows, 13)

second_attempt :
    publish_event_with_retry (on_postgres outside) config event_1 world ≡ (none, (running_rows, 13))
unfolding publish_event_with_retry start_attempts publish_attempts after_attempt publish_event
    handle run_handler find same_text trim_space trim_left trim_right
second_attempt = refl

abbrev early_world : Table × ℕ
early_world = (running_rows, 0)

-- All three attempts, at times 0, 2 and 4, fail.
no_attempt_left :
    publish_event_with_retry (on_postgres outside) config event_1 early_world
    ≡ (some (attempt_failed 3 3 (handler_failed 0)), (running_rows, 5))
unfolding publish_event_with_retry start_attempts publish_attempts after_attempt publish_event
    handle run_handler find same_text trim_space trim_left trim_right
no_attempt_left = refl

publish_event_with_retry-Undelivered_example :
    (publish_event_with_retry (on_postgres outside) config event_1 early_world
      ≡ (some (attempt_failed 3 3 (handler_failed 0)), (running_rows, 5)))
    ↔ Undelivered
        (on_postgres outside)
        config
        event_1
        (publish_max_attempts (on_postgres outside) config)
        (publish_max_attempts (on_postgres outside) config - 1)
        0
        early_world
        (attempt_failed 3 3 (handler_failed 0))
        (running_rows, 5)
publish_event_with_retry-Undelivered_example =
    publish_event_with_retry-Undelivered (on_postgres outside) config event_1 early_world
      (attempt_failed 3 3 (handler_failed 0)) (running_rows, 5)

abbrev scope_a : Scope
scope_a = record { tenant_id = 97 ∷ []; pool_key = [] }

abbrev scope_b : Scope
scope_b = record { tenant_id = 98 ∷ []; pool_key = [] }

abbrev two_scopes : List Scope
two_scopes = scope_a ∷ scope_b ∷ []

tenant_dispatch_scope_order_fair_example :
    IsRotation two_scopes (tenant_dispatch_scope_order start two_scopes).0
    × ((s : Scope)
        → In s two_scopes
        → (i : ℕ) × (i < 2)
          × ((rest : List Scope) × ((tenant_dispatch_scope_order
                  (after_cycles i start two_scopes)
                  two_scopes).0
                ≡ s ∷ rest)))
tenant_dispatch_scope_order_fair_example = tenant_dispatch_scope_order_fair start two_scopes

abbrev one_processed : DispatchResult
one_processed = record no_result { processed = 1; published = 1 }

record_scope_activity_polls_example :
    (0 < 1
      → (should_dispatch_scope (record_scope_activity start scope_a one_processed 5) scope_a 7
          ≡ true)
        ↔ (5 + 2 * second ≤ 7))
    × (5 + 60 * second ≤ 7
        → should_dispatch_scope (record_scope_activity start scope_a one_processed 5) scope_a 7
          ≡ true)
    × (scope_a ≢ scope_b
        → should_dispatch_scope (record_scope_activity start scope_a one_processed 5) scope_b 7
          ≡ should_dispatch_scope start scope_b 7)
record_scope_activity_polls_example =
    record_scope_activity_polls start scope_a scope_b one_processed 5 7 (omega arith) (omega arith)

first_sweep : (claim_retention_sweep start scope_a 5).1 ≡ true
unfolding claim_retention_sweep find
first_sweep = refl

claim_retention_sweep_once_example :
    ((claim_retention_sweep
        (claim_all (claim_retention_sweep start scope_a 5).0 ((scope_b, 6) ∷ (scope_a, 7) ∷ []))
        scope_a
        8).1
      ≡ true)
    ↔ (5 + 3600 * second ≤ 8)
claim_retention_sweep_once_example =
    claim_retention_sweep_once start scope_a 5 8 ((scope_b, 6) ∷ (scope_a, 7) ∷ []) first_sweep
      (omega arith, (omega arith, tt))

start-IsBounded : IsBounded 2 1 start
unfolding find same_text
start-IsBounded = record {
  tenants_lem = refl;
  dimensions_lem = refl;
  shared = refl;
  counters = omega arith;
  labels = omega arith;
}

note_all-IsBounded_example : IsBounded 2 1 (
    note_all start
      (listing_failed tenant ∷ listing_failed cause ∷ metric cause ∷ listing_done tenant ∷ []))
note_all-IsBounded_example =
    note_all-IsBounded 2 1 start
      (listing_failed tenant ∷ listing_failed cause ∷ metric cause ∷ listing_done tenant ∷ [])
      start-IsBounded

-- Two scopes are listed; the dispatcher has a schedule for one that no longer is.
abbrev two_tenants : Tenancy (Table × ℕ)
two_tenants = record {
  list_tenant_dispatch_scopes = some (λ w. (ok two_scopes, w));
  enter_scope = λ scope w. w;
  list_tenants = λ w. (ok [], w);
  requires_tenant = none;
  context_tenant = λ w. some tenant;
  enter = λ t w. w;
  leave = λ w. w;
}

abbrev scheduled : Dispatcher
scheduled = record start {
  scope_activity =
      (
        record { tenant_id = 99 ∷ []; pool_key = [] },
        record { last_work_at = none; next_poll_at = some 3 },
      )
      ∷ [];
}

abbrev after_tick : Dispatcher
after_tick = (dispatch_across_tenants (on_postgres outside) two_tenants [] scheduled world).0

dispatch_across_tenants_remembers_example :
    ((s : Scope) (a : ScopeActivity)
      → find s after_tick.scope_activity ≡ some a
      → IsListed s two_scopes)
    × (after_tick.tenant_turn ≡ next_turn (length (normalize_tenant_dispatch_scopes two_scopes)) 0)
dispatch_across_tenants_remembers_example =
    dispatch_across_tenants_remembers (on_postgres outside) two_tenants [] scheduled world world
      two_scopes refl refl

dispatch_events-IsDone_example :
    All
      (IsDone (dispatch_events (on_postgres outside) config (event_1 ∷ []) no_result world).1.0)
      (event_1 ∷ [])
    × ((x : Row)
        → In x running_rows
        → All (λ e. x.event.id ≢ e.id) (event_1 ∷ [])
        → In x (dispatch_events (on_postgres outside) config (event_1 ∷ []) no_result world).1.0)
dispatch_events-IsDone_example =
    dispatch_events-IsDone outside config tenant of_tenant (event_1 ∷ []) no_result world
      tenant_session-Serves (λ l. refl) (λ e. omega (arith, e)) (tt, tt)
      ((running, running-Claimed), tt)
