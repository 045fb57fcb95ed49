-- ===== src/Outbox/OnPostgres/Limits.antt =====
-- The operations of commons/outbox/postgres that select events return at most as many as their limit.
use lib_commons.Base.{
  ℕ, suc, ◌≡◌, ◌≤◌, refl, sym, ap, subst, Bool, true, false, List, [], ◌∷◌, length, length-take,
  map, arith,
}
use lib_commons.Base.Result.{Result, ok, err, ◌>>=◌, >>=-eq-ok, ok-injective}
use lib_commons.Base.Runes.{Runes}
use lib_commons.Outbox.Status.{OutboxEventStatus}
use lib_commons.Outbox.Repository.{
  OutboxEvent, Table, RepositoryError, Session, conclude, guarded, with_tenant_tx, run_tx,
  tenant_id_from_context, tenant_filter_clause,
}
use lib_commons.Outbox.Repository.Lifecycle.{run_tx-eq-ok}
use lib_commons.Outbox.Repository.Select.{
  select, list_pending_rows, list_pending_by_type_rows, list_failed_for_retry_rows,
  list_stuck_processing_rows,
}
use lib_commons.Outbox.Repository.Claim.{
  claim, claim_ids, collect_event_ids, mark_events_processing, unless_missing, retry_guards,
}
use lib_commons.Outbox.Repository.PendingTypes.{list_pending_by_types_rows}
use lib_commons.Outbox.Repository.Reclaim.{
  reclaim, reclaim_split, split_stuck_events, reclaim_stuck_processing, unless_empty,
  mark_stuck_events_reprocessing, mark_stuck_events_invalid,
}
use lib_commons.Outbox.Dispatcher.Collect.{events_of}
use lib_commons.Outbox.Dispatcher.Collect.Batch.{retry_of}
use lib_commons.Outbox.OnPostgres.{reset_stuck}

-- A predicate on answers that holds of every error, through the wrappers of an operation.
module _ {A : Type 0} (P : Result RepositoryError A → Type 0)
    (refused : (e : RepositoryError) → P (err e)) where
  conclude-P :
      (t : Table) (r : Result RepositoryError (A × Table))
      → ((out : A × Table) → r ≡ ok out → P (ok out.0))
      → P (conclude t r).0
  conclude-P t (err e) k = refused e
  conclude-P t (ok out) k = k out refl

  tx-P :
      (s : Session) (body : Table → Result RepositoryError (A × Table)) (t : Table)
      → ((out : A × Table) → body t ≡ ok out → P (ok out.0))
      → P (with_tenant_tx s body t).0
  tx-P s body t k = conclude-P t (run_tx s body t) (λ out e. k out (run_tx-eq-ok s body t e))

  guarded-P :
      (t : Table) (g : Result RepositoryError (Unit {0})) (rest : Result RepositoryError A × Table)
      → P rest.0
      → P (guarded t g rest).0
  guarded-P t (err e) rest h = refused e
  guarded-P t (ok u) rest h = h

  unless_missing-P :
      (m : Result RepositoryError Bool) (a : A) (t : Table)
      (rest : Result RepositoryError A × Table)
      → P (ok a)
      → P rest.0
      → P (unless_missing m a t rest).0
  unless_missing-P (err e) a t rest n h = refused e
  unless_missing-P (ok true) a t rest n h = n
  unless_missing-P (ok false) a t rest n h = h

  -- An operation: its guards, the look at the table, and its transaction.
  operation-P :
      (g : Result RepositoryError (Unit {0})) (nothing : A) (s : Session)
      (body : Table → Result RepositoryError (A × Table)) (t : Table)
      → P (ok nothing)
      → ((out : A × Table) → body t ≡ ok out → P (ok out.0))
      → P (guarded t g (unless_missing s.table_missing nothing t (with_tenant_tx s body t))).0
  operation-P g nothing s body t n k =
      let tx = with_tenant_tx s body t in
      guarded-P t g (unless_missing s.table_missing nothing t tx)
        (unless_missing-P s.table_missing nothing t tx n (tx-P s body t k))

abbrev pub AtMost : ℕ → Result RepositoryError (List OutboxEvent) → Type 0
AtMost limit r = length (events_of r) ≤ limit

abbrev pub RetryAtMost : ℕ → Result RepositoryError (List OutboxEvent × List OutboxEvent) → Type 0
RetryAtMost limit r = length (retry_of r) ≤ limit

length-map : (f : OutboxEvent → OutboxEvent) (es : List OutboxEvent) → length (map f es) ≡ length es
length-map f [] = refl
length-map f (e ∷ es) = ap suc (length-map f es)

length-claim_ids :
    (s : Session) (from : OutboxEventStatus) (es : List OutboxEvent) (ids : List ℕ) (t : Table)
    (out : List OutboxEvent × Table)
    → claim_ids s from es ids t ≡ ok out
    → length out.0 ≡ length es
unfolding claim_ids
length-claim_ids s from es [] t out h = ap (λ o. length o.0) (sym (ok-injective h))
length-claim_ids s from es (i ∷ is) t out h =
    let (tn, _, e1) = >>=-eq-ok (tenant_id_from_context s) _ h in
    let (u, _, e2) = >>=-eq-ok (mark_events_processing s (i ∷ is) tn from t) _ e1 in
    subst (λ o. length o.0 ≡ length es) (ok-injective e2) (length-map _ es)

claim-AtMost :
    (s : Session) (from : OutboxEventStatus) (limit : ℕ)
    (listed : Result RepositoryError (List OutboxEvent)) (t : Table)
    (out : List OutboxEvent × Table)
    → AtMost limit listed
    → claim s from listed t ≡ ok out
    → AtMost limit (ok out.0)
unfolding claim
claim-AtMost s from limit (err e) t out h k = AtMost-nothing k
  where
    AtMost-nothing : err e ≡ ok out → AtMost limit (ok out.0)
    AtMost-nothing q = cc q
claim-AtMost s from limit (ok es) t out h k =
    subst (λ n. n ≤ limit) (sym (length-claim_ids s from es (collect_event_ids es) t out k)) h

bind-AtMost :
    {A : Type 0} (limit : ℕ) (r : Result RepositoryError A)
    (next : A → Result RepositoryError (List OutboxEvent))
    → ((a : A) → AtMost limit (next a))
    → AtMost limit (r >>= next)
bind-AtMost limit (err e) next h = omega arith
bind-AtMost limit (ok a) next h = h a

-- A query with a LIMIT.
abbrev pub IsLimited : ℕ → (Session → Table → Result RepositoryError (List OutboxEvent)) → Type 0
IsLimited limit rows = (s : Session) (t : Table) → AtMost limit (rows s t)

pub list_pending_rows-IsLimited : (limit : ℕ) → IsLimited limit (λ s. list_pending_rows s limit)
unfolding list_pending_rows select
list_pending_rows-IsLimited limit s t =
    bind-AtMost limit (tenant_id_from_context s) _
      (λ tn. bind-AtMost limit (tenant_filter_clause s tn) _ (λ filter. length-take limit _))

pub list_pending_by_type_rows-IsLimited :
    (event_type : Runes) (limit : ℕ)
    → IsLimited limit (λ s. list_pending_by_type_rows s event_type limit)
unfolding list_pending_by_type_rows select
list_pending_by_type_rows-IsLimited event_type limit s t =
    bind-AtMost limit (tenant_id_from_context s) _
      (λ tn. bind-AtMost limit (tenant_filter_clause s tn) _ (λ filter. length-take limit _))

pub list_pending_by_types_rows-IsLimited :
    (types : List Runes) (limit : ℕ)
    → IsLimited limit (λ s. list_pending_by_types_rows s types limit)
unfolding list_pending_by_types_rows
list_pending_by_types_rows-IsLimited types limit s t =
    bind-AtMost limit (tenant_id_from_context s) _
      (λ tn. bind-AtMost limit (tenant_filter_clause s tn) _ (λ filter. length-take limit _))

pub list_failed_for_retry_rows-IsLimited :
    (limit before most : ℕ) (for_update : Bool)
    → IsLimited limit (λ s. list_failed_for_retry_rows s limit before most for_update)
unfolding list_failed_for_retry_rows select
list_failed_for_retry_rows-IsLimited limit before most for_update s t =
    bind-AtMost limit (tenant_id_from_context s) _
      (λ tn. bind-AtMost limit (tenant_filter_clause s tn) _ (λ filter. length-take limit _))

list_stuck_processing_rows-IsLimited :
    (limit before : ℕ) → IsLimited limit (λ s. list_stuck_processing_rows s limit before)
unfolding list_stuck_processing_rows select
list_stuck_processing_rows-IsLimited limit before s t =
    bind-AtMost limit (tenant_id_from_context s) _
      (λ tn. bind-AtMost limit (tenant_filter_clause s tn) _ (λ filter. length-take limit _))

length-split_stuck_events :
    (most : ℕ) (es : List OutboxEvent) → length (split_stuck_events most es).0 ≤ length es
unfolding split_stuck_events
length-split_stuck_events most [] = omega arith
length-split_stuck_events most (e ∷ es) = ground (arith, length-split_stuck_events most es)

length-reclaim_split :
    (s : Session) (retry exhausted : List OutboxEvent) (tn : Runes) (t : Table)
    (out : (List OutboxEvent × List OutboxEvent) × Table)
    → reclaim_split s retry exhausted tn t ≡ ok out
    → length out.0.0 ≡ length retry
unfolding reclaim_split
length-reclaim_split s retry exhausted tn t out h =
    let (u, _, e1) =
      >>=-eq-ok
        (unless_empty (λ ids tb. mark_stuck_events_reprocessing s ids tn tb)
          (collect_event_ids retry) t)
        _ h in
    let (v, _, e2) =
      >>=-eq-ok
        (unless_empty (λ ids tb. mark_stuck_events_invalid s ids tn tb)
          (collect_event_ids exhausted) u)
        _ e1 in
    subst (λ o. length o.0.0 ≡ length retry) (ok-injective e2) (length-map _ retry)

reclaim-AtMost :
    (s : Session) (limit before most : ℕ) (t : Table)
    (out : (List OutboxEvent × List OutboxEvent) × Table)
    → reclaim s limit before most t ≡ ok out
    → length out.0.0 ≤ limit
unfolding reclaim
reclaim-AtMost s limit before most t out h =
    let (es, listed, e1) = >>=-eq-ok (list_stuck_processing_rows s limit before t) _ h in
    let (tn, _, e2) = >>=-eq-ok (tenant_id_from_context s) _ e1 in
    let split = split_stuck_events most es in
    let within : length es ≤ limit =
      subst (AtMost limit) listed (list_stuck_processing_rows-IsLimited limit before s t) in
    omega (
      arith,
      within,
      length-split_stuck_events most es,
      length-reclaim_split s split.0 split.1 tn t out e2,
    )

pub reclaim_stuck_processing-AtMost :
    (s : Session) (limit before most : ℕ) (t : Table)
    → RetryAtMost limit (reclaim_stuck_processing s limit before most t).0
unfolding reclaim_stuck_processing
reclaim_stuck_processing-AtMost s limit before most t =
    operation-P (RetryAtMost limit) (λ e. omega arith) (retry_guards s limit most) ([], []) s
      (λ tb. reclaim s limit before most tb) t (omega arith)
      (λ out h. reclaim-AtMost s limit before most t out h)

-- What a claim behind guards returns is within the limit of its query.
pub claimed-AtMost :
    (s : Session) (from : OutboxEventStatus) (limit : ℕ)
    (rows : Session → Table → Result RepositoryError (List OutboxEvent))
    (g : Result RepositoryError (Unit {0})) (t : Table)
    → IsLimited limit rows
    → AtMost limit
        (guarded t g (
          unless_missing s.table_missing [] t
            (with_tenant_tx s (λ tb. claim s from (rows s tb) tb) t))).0
claimed-AtMost s from limit rows g t limited =
    operation-P (AtMost limit) (λ e. omega arith) g [] s (λ tb. claim s from (rows s tb) tb) t
      (omega arith) (λ out h. claim-AtMost s from limit (rows s t) t out (limited s t) h)

pub reset_stuck-AtMost :
    (limit : ℕ) (r : Result RepositoryError (List OutboxEvent × List OutboxEvent) × Table)
    → RetryAtMost limit r.0
    → AtMost limit (reset_stuck r).0
reset_stuck-AtMost limit (err e, t) h = h
reset_stuck-AtMost limit (ok r, t) h = h
