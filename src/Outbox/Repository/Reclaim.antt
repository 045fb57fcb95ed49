-- ===== src/Outbox/Repository/Reclaim.antt =====
-- ReclaimStuckProcessing of commons/outbox/postgres: the events that a dispatcher left in processing
-- are taken again, or end as invalid when they have no attempts left. ResetStuckProcessing drops the
-- second list.
use lib_commons.Base.{ℕ, ◌+◌, List, [], ◌∷◌, ◌==◌, leb, if◌then◌else◌, map}
use lib_commons.Base.Result.{Result, ok, ◌>>=◌}
use lib_commons.Base.Runes.{Runes}
use lib_commons.Outbox.Status.{OutboxEventStatus}
use OutboxEventStatus.{processing, invalid}
use lib_commons.Outbox.LastError.{accumulate_cause, append_error_cause, stuck_in_processing_cause}
use lib_commons.Outbox.Repository.{
  OutboxEvent, Table, RepositoryError, Session, tenant_id_from_context, with_tenant_tx, guarded,
}
use lib_commons.Outbox.Repository.Select.{list_stuck_processing_rows}
use lib_commons.Outbox.Repository.Claim.{
  collect_event_ids, update_ids, unless_missing, retry_guards,
}

unfoldable pub apply_stuck_reprocessing_state : ℕ → OutboxEvent → OutboxEvent
apply_stuck_reprocessing_state now e = record e {
  attempts = e.attempts + 1;
  status = processing;
  updated_at = now;
}

unfoldable pub apply_stuck_invalid_state : ℕ → OutboxEvent → OutboxEvent
apply_stuck_invalid_state now e = record e {
  attempts = e.attempts + 1;
  status = invalid;
  last_error = append_error_cause e.last_error stuck_in_processing_cause;
  updated_at = now;
}

unfoldable pub mark_stuck_events_reprocessing :
    Session → List ℕ → Runes → Table → Result RepositoryError Table
mark_stuck_events_reprocessing s ids t table =
    update_ids s processing processing
      (λ e. record e { status = processing; attempts = e.attempts + 1; updated_at = s.now }) ids t
      table

-- The statement lacks the branch for an empty cause; its cause is not empty.
unfoldable pub mark_stuck_events_invalid :
    Session → List ℕ → Runes → Table → Result RepositoryError Table
mark_stuck_events_invalid s ids t table =
    update_ids s processing invalid
      (λ e. record e {
        status = invalid;
        attempts = e.attempts + 1;
        last_error = accumulate_cause e.last_error stuck_in_processing_cause;
        updated_at = s.now;
      })
      ids t table

-- Those with attempts left, and those without.
unfoldable pub split_stuck_events : ℕ → List OutboxEvent → List OutboxEvent × List OutboxEvent
split_stuck_events max_attempts [] = ([], [])
split_stuck_events max_attempts (e ∷ es) =
    let rest = split_stuck_events max_attempts es in
    if e.id == 0
    then rest
    else (if leb max_attempts (e.attempts + 1) then (rest.0, e ∷ rest.1) else (e ∷ rest.0, rest.1))

-- An UPDATE that runs only for a non-empty list of ids.
abbrev pub unless_empty :
    (List ℕ → Table → Result RepositoryError Table) → List ℕ → Table → Result RepositoryError Table
unless_empty mark [] table = ok table
unless_empty mark (i ∷ is) table = mark (i ∷ is) table

unfoldable pub reclaim_split :
    Session
    → List OutboxEvent
    → List OutboxEvent
    → Runes
    → Table
    → Result RepositoryError ((List OutboxEvent × List OutboxEvent) × Table)
reclaim_split s retry exhausted t table = do
  retried ←
      unless_empty (λ ids tb. mark_stuck_events_reprocessing s ids t tb) (collect_event_ids retry)
        table
  finished ←
      unless_empty (λ ids tb. mark_stuck_events_invalid s ids t tb) (collect_event_ids exhausted)
        retried
  ok (
    (
      map (apply_stuck_reprocessing_state s.now) retry,
      map (apply_stuck_invalid_state s.now) exhausted,
    ),
    finished,
  )

unfoldable pub reclaim :
    Session
    → ℕ
    → ℕ
    → ℕ
    → Table
    → Result RepositoryError ((List OutboxEvent × List OutboxEvent) × Table)
reclaim s limit processing_before max_attempts table = do
  events ← list_stuck_processing_rows s limit processing_before table
  t ← tenant_id_from_context s
  reclaim_split s (split_stuck_events max_attempts events).0
      (split_stuck_events max_attempts events).1 t table

unfoldable pub reclaim_stuck_processing :
    Session
    → ℕ
    → ℕ
    → ℕ
    → Table
    → Result RepositoryError (List OutboxEvent × List OutboxEvent) × Table
reclaim_stuck_processing s limit processing_before max_attempts table =
    guarded table (retry_guards s limit max_attempts) (
      unless_missing s.table_missing ([], []) table
        (with_tenant_tx s (λ tb. reclaim s limit processing_before max_attempts tb) table))
