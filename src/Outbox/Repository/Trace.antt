-- ===== src/Outbox/Repository/Trace.antt =====
-- Sequences of calls of the repository of commons/outbox/postgres that list, claim, reclaim or mark
-- events, each in a session of its own, and what they leave of a row. The calls that add or delete rows,
-- Create and those of retention.go, are not among them.
pub mod Kept
use lib_commons.Base.{
  ℕ, ◌+◌, ◌≤◌, ◌≡◌, refl, sym, subst, ◌∙◌, ◌⊎◌, inl, inr, Bool, true, false, List, [], ◌∷◌, In, leb,
  if◌then◌else◌, arith, ap, some, length, All,
}
use lib_commons.Base.Result.{Result, ok, err, ◌>>=◌, >>=-eq-ok, ok-injective}
use lib_commons.Base.Runes.{Runes}
use lib_commons.Outbox.Sanitizer.{
  sanitize_error_message_for_storage, length-sanitize_error_message_for_storage,
}
use lib_commons.Outbox.LastError.{
  max_last_error_length, stuck_in_processing_cause, bound_error_cause,
}
use lib_commons.Outbox.LastError.Bounded.{length-accumulate_cause, length-bound_error_cause}
use lib_commons.Outbox.Status.{OutboxEventStatus, can_transition_to}
use OutboxEventStatus.{pending, processing, published, failed, invalid}
use lib_commons.Outbox.Repository.{
  OutboxEvent, Row, Table, RepositoryError, Session, update, guarded, tenant_id_from_context,
  tenant_filter_clause, rows_affected, ensure_rows_affected,
}
use lib_commons.Outbox.Repository.Select.{list_failed_for_retry_rows, list_stuck_processing_rows}
use lib_commons.Outbox.Repository.Claim.{
  mark_events_with_status, mark_events_processing, claim, claim_ids, list_pending,
  list_pending_by_type, list_failed_for_retry, reset_for_retry, collect_event_ids,
}
use lib_commons.Outbox.Repository.Reclaim.{
  mark_stuck_events_reprocessing, mark_stuck_events_invalid, unless_empty, reclaim, reclaim_split,
  reclaim_stuck_processing, split_stuck_events,
}
use lib_commons.Outbox.Repository.PendingTypes.{list_pending_by_types}
use lib_commons.Outbox.Repository.Finish.{
  finish_row, mark_published, mark_failed, mark_invalid, in_processing, set_failed,
}
use lib_commons.Outbox.Repository.Lifecycle.{
  Fits, Advances, RowStep, TableStep, History, stay, then_step, one_step, chain, tx-History,
  guarded-History, unless_missing-History, update_ids-History, update-TableStep, is_status→≡,
}
use lib_commons.Outbox.Repository.Steps.{
  claimed-History, finish_row-History, set_failed-Advances, published-Advances, invalid-Advances,
  reclaim-History, list_pending_by_types-History,
}

-- A call of the repository that lists, claims, reclaims or marks events. ResetStuckProcessing calls
-- ReclaimStuckProcessing, so that both are `stuck_request`.
pub data Request : Type 0 where
  published_request : ℕ → ℕ → Request
  failed_request : ℕ → Runes → ℕ → Request
  invalid_request : ℕ → Runes → Request
  pending_request : ℕ → Request
  pending_by_type_request : Runes → ℕ → Request
  pending_by_types_request : List Runes → ℕ → Request
  failed_for_retry_request : ℕ → ℕ → ℕ → Request
  retry_request : ℕ → ℕ → ℕ → Request
  stuck_request : ℕ → ℕ → ℕ → Request

-- The table after a call.
unfoldable pub serve : (Runes → Runes) → Session → Request → Table → Table
serve redact s (published_request id at) t = (mark_published s id at t).1
serve redact s (failed_request id message most) t = (mark_failed redact s id message most t).1
serve redact s (invalid_request id message) t = (mark_invalid redact s id message t).1
serve redact s (pending_request limit) t = (list_pending s limit t).1
serve redact s (pending_by_type_request type_ limit) t = (list_pending_by_type s type_ limit t).1
serve redact s (pending_by_types_request types limit) t = (list_pending_by_types s types limit t).1
serve redact s (failed_for_retry_request limit before most) t =
    (list_failed_for_retry s limit before most t).1
serve redact s (retry_request limit before most) t = (reset_for_retry s limit before most t).1
serve redact s (stuck_request limit before most) t =
    (reclaim_stuck_processing s limit before most t).1

unfoldable pub serve_all : (Runes → Runes) → List (Session × Request) → Table → Table
serve_all redact [] t = t
serve_all redact (call ∷ calls) t = serve_all redact calls (serve redact call.0 call.1 t)

-- Every call that lists, claims, reclaims or marks events moves the rows along the lifecycle, by UPDATEs of which each leaves a row as it is, or
-- makes a transition that CanTransitionTo allows, loses no attempt, keeps the identity and the payload
-- of the event, and keeps last_error within its column.
pub serve-History :
    (redact : Runes → Runes) (s : Session) (request : Request) (t : Table)
    → History t (serve redact s request t)
unfolding serve mark_published mark_failed mark_invalid list_pending list_pending_by_type
    list_failed_for_retry reset_for_retry reclaim_stuck_processing
serve-History redact s (published_request id at) t =
    guarded-History t _ _
      (tx-History s _ t (λ out h. finish_row-History s id _ t out (published-Advances s.now at) h))
serve-History redact s (failed_request id message most) t = guarded-History t _ _ (
    tx-History s _ t (λ out h.
      finish_row-History s id _ t out
        (λ e.
          set_failed-Advances s.now most
            (bound_error_cause (sanitize_error_message_for_storage redact message)) e
            (length-bound_error_cause (sanitize_error_message_for_storage redact message)))
        h))
serve-History redact s (invalid_request id message) t = guarded-History t _ _ (
    tx-History s _ t (λ out h.
      finish_row-History s id _ t out
        (λ e.
          invalid-Advances s.now (sanitize_error_message_for_storage redact message) e
            (length-sanitize_error_message_for_storage redact message))
        h))
serve-History redact s (pending_request limit) t = guarded-History t _ _ (
    unless_missing-History s.table_missing [] t _
      (tx-History s _ t (λ out h. claimed-History s pending _ t out (inl refl) h)))
serve-History redact s (pending_by_type_request type_ limit) t = guarded-History t _ _ (
    unless_missing-History s.table_missing [] t _
      (tx-History s _ t (λ out h. claimed-History s pending _ t out (inl refl) h)))
serve-History redact s (pending_by_types_request types limit) t =
    list_pending_by_types-History s types limit t
serve-History redact s (failed_for_retry_request limit before most) t = guarded-History t _ _ (
    tx-History s _ t (λ out h.
      let (events, _, e) = >>=-eq-ok (list_failed_for_retry_rows s limit before most false t) _ h in
      subst (λ o. History t o.1) (ok-injective e) stay))
serve-History redact s (retry_request limit before most) t = guarded-History t _ _ (
    unless_missing-History s.table_missing [] t _
      (tx-History s _ t (λ out h. claimed-History s failed _ t out (inr refl) h)))
serve-History redact s (stuck_request limit before most) t = guarded-History t _ _ (
    unless_missing-History s.table_missing ([], []) t _
      (tx-History s _ t (λ out h. reclaim-History s limit before most t out h)))
