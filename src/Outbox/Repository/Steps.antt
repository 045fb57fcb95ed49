-- ===== src/Outbox/Repository/Steps.antt =====
-- What the transactions of commons/outbox/postgres that claim, reclaim and finish events make of the
-- table: steps of the lifecycle.
use lib_commons.Base.{ℕ, ◌≤◌, ◌≡◌, refl, subst, ◌⊎◌, inl, true, List, [], ◌∷◌, arith, some, length}
use lib_commons.Base.Result.{Result, ok, >>=-eq-ok, ok-injective}
use lib_commons.Base.Runes.{Runes}
use lib_commons.Outbox.LastError.{max_last_error_length, stuck_in_processing_cause}
use lib_commons.Outbox.LastError.Bounded.{length-accumulate_cause}
use lib_commons.Outbox.Status.{OutboxEventStatus, can_transition_to}
use OutboxEventStatus.{pending, processing, published, failed, invalid}
use lib_commons.Outbox.Repository.{
  OutboxEvent, Table, RepositoryError, Session, tenant_id_from_context, tenant_filter_clause,
  rows_affected, ensure_rows_affected,
}
use lib_commons.Outbox.Repository.Select.{list_stuck_processing_rows}
use lib_commons.Outbox.Repository.Claim.{
  mark_events_with_status, mark_events_processing, claim, claim_ids, collect_event_ids,
}
use lib_commons.Outbox.Repository.Reclaim.{
  mark_stuck_events_reprocessing, mark_stuck_events_invalid, unless_empty, reclaim, reclaim_split,
  split_stuck_events,
}
use lib_commons.Outbox.Repository.PendingTypes.{list_pending_by_types}
use lib_commons.Outbox.Repository.Finish.{finish_row, in_processing, set_failed}
use lib_commons.Outbox.Repository.Lifecycle.{
  Advances, History, stay, one_step, chain, tx-History, guarded-History, unless_missing-History,
  update_ids-History, update-TableStep, is_status→≡,
}

claimable :
    (from : OutboxEventStatus)
    → (from ≡ pending) ⊎ (from ≡ failed)
    → can_transition_to from processing ≡ true
unfolding can_transition_to
claimable from h = ground (arith, h)

claim-History :
    (s : Session) (from : OutboxEventStatus) (events : List OutboxEvent) (ids : List ℕ) (t : Table)
    (out : List OutboxEvent × Table)
    → (from ≡ pending) ⊎ (from ≡ failed)
    → claim_ids s from events ids t ≡ ok out
    → History t out.1
unfolding claim_ids mark_events_processing mark_events_with_status
claim-History s from events [] t out ok_from h = subst (λ o. History t o.1) (ok-injective h) stay
claim-History s from events (i ∷ is) t out ok_from h =
    let (tn, _, e1) = >>=-eq-ok (tenant_id_from_context s) _ h in
    let (u, eu, e2) = >>=-eq-ok (mark_events_processing s (i ∷ is) tn from t) _ e1 in
    subst (λ o. History t o.1) (ok-injective e2)
      (update_ids-History s from processing
        (λ e. record e { status = processing; updated_at = s.now }) (i ∷ is) tn t u
        (λ e est.
          (rw (est) (claimable from ok_from), omega arith, refl, refl, refl, refl, refl, λ f. f))
        eu)

pub claimed-History :
    (s : Session) (from : OutboxEventStatus) (listed : Result RepositoryError (List OutboxEvent))
    (t : Table) (out : List OutboxEvent × Table)
    → (from ≡ pending) ⊎ (from ≡ failed)
    → claim s from listed t ≡ ok out
    → History t out.1
unfolding claim
claimed-History s from listed t out ok_from h =
    let (events, _, e) = >>=-eq-ok listed _ h in
    claim-History s from events (collect_event_ids events) t out ok_from e

pub finish_row-History :
    (s : Session) (id : ℕ) (set_ : OutboxEvent → OutboxEvent) (t : Table) (out : Unit {0} × Table)
    → ((e : OutboxEvent) → e.status ≡ processing → Advances e (set_ e))
    → finish_row s id set_ t ≡ ok out
    → History t out.1
unfolding finish_row
finish_row-History s id set_ t out advances h =
    let (tn, _, e1) = >>=-eq-ok (tenant_id_from_context s) _ h in
    let (filter, _, e2) = >>=-eq-ok (tenant_filter_clause s tn) _ e1 in
    let (_, _, e3) =
      >>=-eq-ok (ensure_rows_affected (rows_affected (in_processing id filter) t)) _ e2 in
    subst (λ o. History t o.1) (ok-injective e3)
      (one_step (
        update-TableStep (in_processing id filter) set_
          (λ r w. advances r.event (is_status→≡ r.event.status processing (ground (arith, w)))) t))

pub set_failed-Advances :
    (now most : ℕ) (message : Runes) (e : OutboxEvent)
    → length message ≤ max_last_error_length
    → e.status ≡ processing
    → Advances e (set_failed now most message e)
unfolding set_failed can_transition_to
set_failed-Advances now most message e fits h = (
  rw (h) (ground arith),
  omega arith,
  refl,
  refl,
  refl,
  refl,
  refl,
  λ f. length-accumulate_cause e.last_error message f fits,
)

pub published-Advances :
    (now at : ℕ) (e : OutboxEvent)
    → e.status ≡ processing
    → Advances e (record e { status = published; published_at = some at; updated_at = now })
unfolding can_transition_to
published-Advances now at e h = (rw (h) refl, omega arith, refl, refl, refl, refl, refl, λ f. f)

pub invalid-Advances :
    (now : ℕ) (message : Runes) (e : OutboxEvent)
    → length message ≤ max_last_error_length
    → e.status ≡ processing
    → Advances e (record e { status = invalid; last_error = message; updated_at = now })
unfolding can_transition_to
invalid-Advances now message e fits h =
    (rw (h) refl, omega arith, refl, refl, refl, refl, refl, λ f. fits)

reprocessing-History :
    (s : Session) (ids : List ℕ) (tn : Runes) (t u : Table)
    → unless_empty (λ ids tb. mark_stuck_events_reprocessing s ids tn tb) ids t ≡ ok u
    → History t u
unfolding mark_stuck_events_reprocessing can_transition_to
reprocessing-History s [] tn t u h = subst (History t) (ok-injective h) stay
reprocessing-History s (i ∷ is) tn t u h =
    update_ids-History s processing processing _ (i ∷ is) tn t u
      (λ e est. (rw (est) refl, omega arith, refl, refl, refl, refl, refl, λ f. f)) h

exhausted-History :
    (s : Session) (ids : List ℕ) (tn : Runes) (t u : Table)
    → unless_empty (λ ids tb. mark_stuck_events_invalid s ids tn tb) ids t ≡ ok u
    → History t u
unfolding mark_stuck_events_invalid can_transition_to
exhausted-History s [] tn t u h = subst (History t) (ok-injective h) stay
exhausted-History s (i ∷ is) tn t u h =
    update_ids-History s processing invalid _ (i ∷ is) tn t u
      (λ e est. (
        rw (est) refl,
        omega arith,
        refl,
        refl,
        refl,
        refl,
        refl,
        λ f. length-accumulate_cause e.last_error stuck_in_processing_cause f (omega arith),
      ))
      h

reclaim_split-History :
    (s : Session) (retry exhausted : List OutboxEvent) (tn : Runes) (t : Table)
    (out : (List OutboxEvent × List OutboxEvent) × Table)
    → reclaim_split s retry exhausted tn t ≡ ok out
    → History t out.1
unfolding reclaim_split
reclaim_split-History s retry exhausted tn t out h =
    let (u, eu, e1) =
      >>=-eq-ok
        (unless_empty (λ ids tb. mark_stuck_events_reprocessing s ids tn tb)
          (collect_event_ids retry) t)
        _ h in
    let (v, ev, e2) =
      >>=-eq-ok
        (unless_empty (λ ids tb. mark_stuck_events_invalid s ids tn tb)
          (collect_event_ids exhausted) u)
        _ e1 in
    subst (λ o. History t o.1) (ok-injective e2)
      (chain (reprocessing-History s (collect_event_ids retry) tn t u eu)
        (exhausted-History s (collect_event_ids exhausted) tn u v ev))

pub reclaim-History :
    (s : Session) (limit before most : ℕ) (t : Table)
    (out : (List OutboxEvent × List OutboxEvent) × Table)
    → reclaim s limit before most t ≡ ok out
    → History t out.1
unfolding reclaim
reclaim-History s limit before most t out h =
    let (events, _, e1) = >>=-eq-ok (list_stuck_processing_rows s limit before t) _ h in
    let (tn, _, e2) = >>=-eq-ok (tenant_id_from_context s) _ e1 in
    reclaim_split-History s (split_stuck_events most events).0 (split_stuck_events most events).1 tn
      t out e2

pub list_pending_by_types-History :
    (s : Session) (types : List Runes) (limit : ℕ) (t : Table)
    → History t (list_pending_by_types s types limit t).1
unfolding list_pending_by_types
list_pending_by_types-History s types limit t = guarded-History t _ _ (
    unless_missing-History s.table_missing [] t _
      (tx-History s _ t (λ out h. claimed-History s pending _ t out (inl refl) h)))
