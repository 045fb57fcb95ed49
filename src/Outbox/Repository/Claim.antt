-- ===== src/Outbox/Repository/Claim.antt =====
-- The operations of commons/outbox/postgres that select rows and take them: ListPending,
-- ListPendingByType, ResetForRetry and what they call; and ListFailedForRetry, which only reads. Limits and attempt budgets are natural numbers, so that the
-- test `limit <= 0` is a comparison with 0.
pub mod Listed
pub mod Disjoint
use lib_commons.Base.{
  ℕ, ◌+◌, Bool, true, false, ◌&&◌, ◌||◌, not, List, [], ◌∷◌, ◌==◌, leb, length, if◌then◌else◌, map,
}
use lib_commons.Base.Result.{Result, ok, err, ◌>>=◌, ◌>>◌, refuse}
use lib_commons.Base.Runes.{Runes, trim_space, is_empty_text}
use lib_commons.Outbox.Status.{OutboxEventStatus}
use OutboxEventStatus.{pending, processing, failed, invalid}
use lib_commons.Outbox.LastError.{accumulate_cause, append_error_cause, stuck_in_processing_cause}
use lib_commons.Outbox.Repository.{
  OutboxEvent, Row, Table, RepositoryError, Session, tenant_id_from_context, tenant_filter_clause,
  update, rows_affected, ensure_rows_affected_exact, validate_transition, with_tenant_tx, is_status,
  guarded,
}
use RepositoryError.{
  repository_not_initialized, limit_must_be_positive, max_attempts_must_be_positive,
  event_type_required,
}
use lib_commons.Outbox.Repository.Select.{
  list_pending_rows, list_pending_by_type_rows, list_failed_for_retry_rows,
  list_stuck_processing_rows,
}

unfoldable pub collect_event_ids : List OutboxEvent → List ℕ
collect_event_ids [] = []
collect_event_ids (e ∷ es) =
    let rest = collect_event_ids es in if e.id == 0 then rest else e.id ∷ rest

-- id = ANY(ids)
unfoldable pub has_id : List ℕ → ℕ → Bool
has_id [] id = false
has_id (i ∷ is) id = i == id || has_id is id

-- The WHERE of an UPDATE on ids: of one status, within the tenant.
abbrev pub among : List ℕ → OutboxEventStatus → (Row → Bool) → Row → Bool
among ids from filter r = has_id ids r.event.id && (is_status r.event.status from && filter r)

-- An UPDATE of the rows of `ids` that are in a status, and of exactly as many as there are ids.
unfoldable pub update_ids :
    Session
    → OutboxEventStatus
    → OutboxEventStatus
    → (OutboxEvent → OutboxEvent)
    → List ℕ
    → Runes
    → Table
    → Result RepositoryError Table
update_ids s from to set_ ids t table = do
  validate_transition from to
  filter ← tenant_filter_clause s t
  ensure_rows_affected_exact (rows_affected (among ids from filter) table) (length ids)
  ok (update (among ids from filter) set_ table)

unfoldable pub apply_processing_state : ℕ → OutboxEvent → OutboxEvent
apply_processing_state now e = record e { status = processing; updated_at = now }

unfoldable pub mark_events_with_status :
    Session
    → OutboxEventStatus
    → List ℕ
    → Runes
    → OutboxEventStatus
    → Table
    → Result RepositoryError Table
mark_events_with_status s status ids t from table =
    update_ids s from status (λ e. record e { status = status; updated_at = s.now }) ids t table

unfoldable pub mark_events_processing :
    Session → List ℕ → Runes → OutboxEventStatus → Table → Result RepositoryError Table
mark_events_processing s ids t from table = mark_events_with_status s processing ids t from table

-- Select, mark as processing, and return the events as they now are. A selection without ids is
-- returned as it is.
unfoldable pub claim_ids :
    Session
    → OutboxEventStatus
    → List OutboxEvent
    → List ℕ
    → Table
    → Result RepositoryError (List OutboxEvent × Table)
claim_ids s from events [] table = ok (events, table)
claim_ids s from events (i ∷ is) table = do
  t ← tenant_id_from_context s
  marked ← mark_events_processing s (i ∷ is) t from table
  ok (map (apply_processing_state s.now) events, marked)

unfoldable pub claim :
    Session
    → OutboxEventStatus
    → Result RepositoryError (List OutboxEvent)
    → Table
    → Result RepositoryError (List OutboxEvent × Table)
claim s from listed table = do
  events ← listed
  claim_ids s from events (collect_event_ids events) table

-- A tenant without an outbox table has no events.
abbrev pub unless_missing :
    {A : Type 0}
    → Result RepositoryError Bool
    → A
    → Table
    → Result RepositoryError A × Table
    → Result RepositoryError A × Table
unless_missing (err e) nothing table rest = (err e, table)
unless_missing (ok true) nothing table rest = (ok nothing, table)
unless_missing (ok false) nothing table rest = rest

unfoldable pub pending_guards : Session → ℕ → Result RepositoryError (Unit {0})
pending_guards s limit = do
  refuse (not s.initialized) repository_not_initialized
  refuse (limit == 0) limit_must_be_positive

unfoldable pub list_pending :
    Session → ℕ → Table → Result RepositoryError (List OutboxEvent) × Table
list_pending s limit table = guarded table (pending_guards s limit) (
    unless_missing s.table_missing [] table
      (with_tenant_tx s (λ tb. claim s pending (list_pending_rows s limit tb) tb) table))

unfoldable pub list_pending_by_type :
    Session → Runes → ℕ → Table → Result RepositoryError (List OutboxEvent) × Table
list_pending_by_type s raw_type limit table =
    let event_type = trim_space raw_type in
    guarded table (pending_guards s limit >> refuse (is_empty_text event_type) event_type_required)
      (unless_missing s.table_missing [] table (
        with_tenant_tx s
          (λ tb. claim s pending (list_pending_by_type_rows s event_type limit tb) tb) table))

unfoldable pub retry_guards : Session → ℕ → ℕ → Result RepositoryError (Unit {0})
retry_guards s limit max_attempts = do
  refuse (not s.initialized) repository_not_initialized
  refuse (limit == 0) limit_must_be_positive
  refuse (max_attempts == 0) max_attempts_must_be_positive

unfoldable pub list_failed_for_retry :
    Session → ℕ → ℕ → ℕ → Table → Result RepositoryError (List OutboxEvent) × Table
list_failed_for_retry s limit failed_before max_attempts table =
    guarded table (retry_guards s limit max_attempts) (
      with_tenant_tx s
        (λ tb. list_failed_for_retry_rows s limit failed_before max_attempts false tb >>= λ events.
          ok (events, tb))
        table)

unfoldable pub reset_for_retry :
    Session → ℕ → ℕ → ℕ → Table → Result RepositoryError (List OutboxEvent) × Table
reset_for_retry s limit failed_before max_attempts table =
    guarded table (retry_guards s limit max_attempts) (
      unless_missing s.table_missing [] table (
        with_tenant_tx s
          (λ tb.
            claim s failed (list_failed_for_retry_rows s limit failed_before max_attempts true tb)
              tb)
          table))
