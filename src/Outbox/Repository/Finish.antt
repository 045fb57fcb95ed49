-- ===== src/Outbox/Repository/Finish.antt =====
-- The operations of commons/outbox/postgres/state_transitions.go that end a dispatch: MarkPublished,
-- MarkFailed and MarkInvalid. `redact` is redactSensitiveData.
pub mod Recorded
use lib_commons.Base.{ℕ, ◌+◌, Bool, ◌&&◌, not, ◌==◌, leb, some, if◌then◌else◌}
use lib_commons.Base.Result.{Result, ok, ◌>>=◌, ◌>>◌, refuse}
use lib_commons.Base.Runes.{Runes}
use lib_commons.Outbox.Status.{OutboxEventStatus}
use OutboxEventStatus.{processing, published, failed, invalid}
use lib_commons.Outbox.Sanitizer.{sanitize_error_message_for_storage}
use lib_commons.Outbox.LastError.{accumulate_cause, bound_error_cause}
use lib_commons.Outbox.Repository.{
  OutboxEvent, Row, Table, RepositoryError, Session, tenant_id_from_context, tenant_filter_clause,
  update, rows_affected, ensure_rows_affected, validate_transition, with_tenant_tx, is_status,
  guarded,
}
use RepositoryError.{repository_not_initialized, id_required, max_attempts_must_be_positive}

-- The WHERE of the three statements: the id, while it is being processed, within the tenant.
abbrev pub in_processing : ℕ → (Row → Bool) → Row → Bool
in_processing id filter r = r.event.id == id && (is_status r.event.status processing && filter r)

-- The body of the three transactions, around their SET.
unfoldable pub finish_row :
    Session → ℕ → (OutboxEvent → OutboxEvent) → Table → Result RepositoryError (Unit {0} × Table)
finish_row s id set_ table = do
  t ← tenant_id_from_context s
  filter ← tenant_filter_clause s t
  ensure_rows_affected (rows_affected (in_processing id filter) table)
  ok (tt, update (in_processing id filter) set_ table)

unfoldable pub mark_published : Session → ℕ → ℕ → Table → Result RepositoryError (Unit {0}) × Table
mark_published s id at table =
    guarded table
      (do
        refuse (not s.initialized) repository_not_initialized
        validate_transition processing published
        refuse (id == 0) id_required)
      (with_tenant_tx s
        (finish_row s id
          (λ e. record e { status = published; published_at = some at; updated_at = s.now }))
        table)

-- The SET of MarkFailed.
unfoldable pub set_failed : ℕ → ℕ → Runes → OutboxEvent → OutboxEvent
set_failed now max_attempts message e = record e {
  status = if leb max_attempts (e.attempts + 1) then invalid else failed;
  attempts = e.attempts + 1;
  last_error = accumulate_cause e.last_error message;
  updated_at = now;
}

unfoldable pub mark_failed :
    (Runes → Runes) → Session → ℕ → Runes → ℕ → Table → Result RepositoryError (Unit {0}) × Table
mark_failed redact s id message max_attempts table =
    guarded table
      (do
        refuse (not s.initialized) repository_not_initialized
        validate_transition processing failed
        validate_transition processing invalid
        refuse (id == 0) id_required
        refuse (max_attempts == 0) max_attempts_must_be_positive)
      (with_tenant_tx s
        (finish_row s id (
          set_failed s.now max_attempts
            (bound_error_cause (sanitize_error_message_for_storage redact message))))
        table)

unfoldable pub mark_invalid :
    (Runes → Runes) → Session → ℕ → Runes → Table → Result RepositoryError (Unit {0}) × Table
mark_invalid redact s id message table =
    guarded table
      (do
        refuse (not s.initialized) repository_not_initialized
        validate_transition processing invalid
        refuse (id == 0) id_required)
      (with_tenant_tx s
        (finish_row s id (λ e. record e {
          status = invalid;
          last_error = sanitize_error_message_for_storage redact message;
          updated_at = s.now;
        }))
        table)
