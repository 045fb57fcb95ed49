-- ===== src/Outbox/Repository/Retention.antt =====
-- commons/outbox/postgres/retention.go: the deletion of settled events that are old enough. `before`
-- is the cutoff; a row is deleted by its id within the tenant, as the statement does.
pub mod Aged
pub mod Clause
use lib_commons.Base.{
  ℕ, suc, Bool, true, false, ◌&&◌, not, List, [], ◌∷◌, ◌==◌, ltb, take, map, if◌then◌else◌,
}
use lib_commons.Base.Result.{Result, ok, err, ◌>>=◌, ◌>>◌, refuse}
use lib_commons.Base.Runes.{Runes}
use lib_commons.Outbox.Status.{OutboxEventStatus}
use OutboxEventStatus.{published, invalid}
use lib_commons.Outbox.Repository.{
  OutboxEvent, Row, Table, RepositoryError, Session, tenant_id_from_context, tenant_filter_clause,
  is_status, with_tenant_tx, guarded, rows_affected,
}
use RepositoryError.{repository_not_initialized}
use lib_commons.Outbox.Repository.Select.{order_by, matching}
use lib_commons.Outbox.Repository.Claim.{has_id, unless_missing}
use lib_commons.Outbox.Repository.PendingTypes.{is_one_of, normalize_event_types}

-- agedClause.
unfoldable pub aged_clause : OutboxEventStatus → ℕ → List Runes → Row → Bool
aged_clause status before keep r =
    is_status r.event.status status
    && (ltb r.event.updated_at before
        && not (is_one_of (normalize_event_types keep) r.event.event_type))

abbrev pub id_of : OutboxEvent → ℕ
id_of e = e.id

-- SELECT id ... ORDER BY updated_at ASC, id ASC LIMIT
unfoldable pub aged_ids : OutboxEventStatus → ℕ → List Runes → ℕ → (Row → Bool) → Table → List ℕ
aged_ids status before keep limit filter table = map id_of (
    take limit (
      order_by (λ e. e.updated_at)
        (order_by id_of
          (matching (λ id. false) (λ r. aged_clause status before keep r && filter r) table))))

-- The WHERE of the DELETE.
abbrev pub named_by : List ℕ → (Row → Bool) → Row → Bool
named_by ids filter r = has_id ids r.event.id && filter r

unfoldable pub delete_where : (Row → Bool) → Table → Table
delete_where where_ [] = []
delete_where where_ (r ∷ rs) =
    let rest = delete_where where_ rs in if where_ r then rest else r ∷ rest

unfoldable pub delete_rows :
    Session → OutboxEventStatus → ℕ → List Runes → ℕ → Table → Result RepositoryError (ℕ × Table)
delete_rows s status before keep limit table = do
  t ← tenant_id_from_context s
  filter ← tenant_filter_clause s t
  let ids = aged_ids status before keep limit filter table
  ok (rows_affected (named_by ids filter) table, delete_where (named_by ids filter) table)

unfoldable pub delete_aged_before :
    Session → OutboxEventStatus → ℕ → List Runes → ℕ → Table → Result RepositoryError ℕ × Table
delete_aged_before s status before keep limit table =
    let deleted =
      unless_missing s.table_missing 0 table
        (with_tenant_tx s (delete_rows s status before keep limit) table) in
    guarded table (refuse (not s.initialized) repository_not_initialized)
      (if limit == 0 then (ok 0, table) else deleted)

unfoldable pub delete_published_before :
    Session → ℕ → List Runes → ℕ → Table → Result RepositoryError ℕ × Table
delete_published_before s before keep limit table =
    delete_aged_before s published before keep limit table

unfoldable pub delete_invalid_before :
    Session → ℕ → List Runes → ℕ → Table → Result RepositoryError ℕ × Table
delete_invalid_before s before keep limit table =
    delete_aged_before s invalid before keep limit table
