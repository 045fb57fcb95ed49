-- ===== src/Outbox/Repository/Select.antt =====
-- The queries of commons/outbox/postgres/repository.go: listPendingRows, listPendingByTypeRows,
-- listFailedForRetryRows and listStuckProcessingRows.
use lib_commons.Base.{ℕ, Bool, ◌&&◌, not, List, [], ◌∷◌, leb, ltb, take, if◌then◌else◌}
use lib_commons.Base.Result.{Result, ok, ◌>>=◌}
use lib_commons.Base.Runes.{Runes, same_text}
use lib_commons.Outbox.Status.{OutboxEventStatus}
use OutboxEventStatus.{pending, processing, failed}
use lib_commons.Outbox.Repository.{
  OutboxEvent, Row, Table, RepositoryError, Session, tenant_id_from_context, tenant_filter_clause,
  is_status,
}

-- ORDER BY, stable.
unfoldable pub insert_by : (OutboxEvent → ℕ) → OutboxEvent → List OutboxEvent → List OutboxEvent
insert_by key e [] = e ∷ []
insert_by key e (x ∷ xs) =
    let rest = insert_by key e xs in if leb (key e) (key x) then e ∷ x ∷ xs else x ∷ rest

unfoldable pub order_by : (OutboxEvent → ℕ) → List OutboxEvent → List OutboxEvent
order_by key [] = []
order_by key (e ∷ es) = insert_by key e (order_by key es)

-- The events of the rows that the WHERE holds of and that no other transaction locks.
unfoldable pub matching : (ℕ → Bool) → (Row → Bool) → Table → List OutboxEvent
matching locked where_ [] = []
matching locked where_ (r ∷ rs) =
    let rest = matching locked where_ rs in
    if where_ r && not (locked r.event.id) then r.event ∷ rest else rest

-- SELECT ... WHERE ... ORDER BY ... LIMIT ... FOR UPDATE SKIP LOCKED
unfoldable pub select : (ℕ → Bool) → (Row → Bool) → (OutboxEvent → ℕ) → ℕ → Table → List OutboxEvent
select locked where_ key limit table = take limit (order_by key (matching locked where_ table))

unfoldable pub list_pending_rows : Session → ℕ → Table → Result RepositoryError (List OutboxEvent)
list_pending_rows s limit table = do
  t ← tenant_id_from_context s
  filter ← tenant_filter_clause s t
  ok (
      select s.locked (λ r. is_status r.event.status pending && filter r) (λ e. e.created_at) limit
        table)

unfoldable pub list_pending_by_type_rows :
    Session → Runes → ℕ → Table → Result RepositoryError (List OutboxEvent)
list_pending_by_type_rows s event_type limit table = do
  t ← tenant_id_from_context s
  filter ← tenant_filter_clause s t
  ok (
      select s.locked
        (λ r.
          is_status r.event.status pending && (same_text r.event.event_type event_type && filter r))
        (λ e. e.created_at) limit table)

unfoldable pub list_failed_for_retry_rows :
    Session → ℕ → ℕ → ℕ → Bool → Table → Result RepositoryError (List OutboxEvent)
list_failed_for_retry_rows s limit failed_before max_attempts for_update table = do
  t ← tenant_id_from_context s
  filter ← tenant_filter_clause s t
  ok (
      select (λ id. for_update && s.locked id)
        (λ r.
          is_status r.event.status failed
          && (ltb r.event.attempts max_attempts
              && (leb r.event.updated_at failed_before && filter r)))
        (λ e. e.updated_at) limit table)

unfoldable pub list_stuck_processing_rows :
    Session → ℕ → ℕ → Table → Result RepositoryError (List OutboxEvent)
list_stuck_processing_rows s limit processing_before table = do
  t ← tenant_id_from_context s
  filter ← tenant_filter_clause s t
  ok (
      select s.locked
        (λ r.
          is_status r.event.status processing
          && (leb r.event.updated_at processing_before && filter r))
        (λ e. e.updated_at) limit table)
