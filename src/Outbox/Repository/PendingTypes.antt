-- ===== src/Outbox/Repository/PendingTypes.antt =====
-- commons/outbox/postgres/pending_types.go: the pending events of several types, claimed in one
-- transaction.
use lib_commons.Base.{ℕ, suc, Bool, true, false, ◌&&◌, ◌||◌, List, [], ◌∷◌, take, if◌then◌else◌}
use lib_commons.Base.Result.{Result, ok, ◌>>=◌, ◌>>◌, refuse}
use lib_commons.Base.Runes.{Runes, trim_space, is_empty_text, same_text}
use lib_commons.Outbox.Status.{OutboxEventStatus}
use OutboxEventStatus.{pending}
use lib_commons.Outbox.Repository.{
  OutboxEvent, Table, RepositoryError, Session, tenant_id_from_context, tenant_filter_clause,
  is_status, with_tenant_tx, guarded,
}
use RepositoryError.{event_type_required}
use lib_commons.Outbox.Repository.Select.{order_by, matching}
use lib_commons.Outbox.Repository.Claim.{claim, unless_missing, pending_guards}

-- event_type IN (...)
unfoldable pub is_one_of : List Runes → Runes → Bool
is_one_of [] t = false
is_one_of (x ∷ xs) t = same_text x t || is_one_of xs t

-- The loop of normalizeEventTypes, with the types seen so far.
unfoldable pub normalize_event_types_from : List Runes → List Runes → List Runes
normalize_event_types_from seen [] = []
normalize_event_types_from seen (raw ∷ raws) =
    let t = trim_space raw in
    let without = normalize_event_types_from seen raws in
    let with_it = t ∷ normalize_event_types_from (t ∷ seen) raws in
    if is_empty_text t || is_one_of seen t then without else with_it

unfoldable pub normalize_event_types : List Runes → List Runes
normalize_event_types raws = normalize_event_types_from [] raws

-- CASE event_type WHEN ... THEN 0 WHEN ... THEN 1 ... ELSE their number
unfoldable pub type_rank : List Runes → Runes → ℕ
type_rank [] t = 0
type_rank (x ∷ xs) t = let rest = type_rank xs t in if same_text x t then 0 else suc rest

-- By the rank of the type, then by creation, then by id.
unfoldable pub list_pending_by_types_rows :
    Session → List Runes → ℕ → Table → Result RepositoryError (List OutboxEvent)
list_pending_by_types_rows s types limit table = do
  t ← tenant_id_from_context s
  filter ← tenant_filter_clause s t
  ok (
      take limit (
        order_by (λ e. type_rank types e.event_type)
          (order_by (λ e. e.created_at)
            (order_by (λ e. e.id)
              (matching s.locked
                (λ r.
                  is_status r.event.status pending
                  && (is_one_of types r.event.event_type && filter r))
                table)))))

abbrev pub has_no_types : List Runes → Bool
has_no_types [] = true
has_no_types (t ∷ ts) = false

unfoldable pub list_pending_by_types :
    Session → List Runes → ℕ → Table → Result RepositoryError (List OutboxEvent) × Table
list_pending_by_types s raw_types limit table =
    let types = normalize_event_types raw_types in
    guarded table (pending_guards s limit >> refuse (has_no_types types) event_type_required) (
      unless_missing s.table_missing [] table (
        with_tenant_tx s (λ tb. claim s pending (list_pending_by_types_rows s types limit tb) tb)
          table))
