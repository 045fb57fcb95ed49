-- ===== src/Outbox/Repository/Lifecycle.antt =====
-- What the operations of commons/outbox/postgres do to a row, seen through the lifecycle of
-- commons/outbox/status.go.
use lib_commons.Base.{
  ℕ, ◌≤◌, ◌≡◌, refl, subst, ◌∙◌, ◌⊎◌, inl, inr, Bool, true, false, List, [], ◌∷◌, Bool-cases, arith,
  length,
}
use lib_commons.Base.Result.{Result, ok, err, >>=-eq-ok, ok-injective}
use lib_commons.Base.Runes.{Runes}
use lib_commons.Outbox.Status.{OutboxEventStatus, can_transition_to}
use OutboxEventStatus.{pending, processing, published, failed, invalid}
use lib_commons.Outbox.LastError.{max_last_error_length}
use lib_commons.Outbox.Repository.{
  OutboxEvent, Row, Table, RepositoryError, Session, update, is_status, conclude, run_tx,
  with_tenant_tx, guarded, tenant_id_from_context, tenant_filter_clause, rows_affected,
  ensure_rows_affected_exact, validate_transition,
}
use lib_commons.Outbox.Repository.Claim.{update_ids, among, unless_missing}

-- last_error is within the width of its column.
abbrev pub Fits : OutboxEvent → Type 0
Fits e = length e.last_error ≤ max_last_error_length

-- An event after one UPDATE: a transition of the lifecycle, no attempt lost, the rest kept, and no
-- last_error that grows out of its column.
abbrev pub Advances : OutboxEvent → OutboxEvent → Type 0
Advances a b =
    (can_transition_to a.status b.status ≡ true)
    × (a.attempts ≤ b.attempts)
    × (b.id ≡ a.id)
    × (b.event_type ≡ a.event_type)
    × (b.aggregate_id ≡ a.aggregate_id)
    × (b.payload ≡ a.payload)
    × (b.created_at ≡ a.created_at)
    × (Fits a → Fits b)

abbrev pub RowStep : Row → Row → Type 0
RowStep r r' = (r' ≡ r) ⊎ ((r'.tenant_id ≡ r.tenant_id) × Advances r.event r'.event)

-- Row by row.
abbrev pub TableStep : Table → Table → Type 0
TableStep [] [] = Unit
TableStep (r ∷ rs) (r' ∷ rs') = RowStep r r' × TableStep rs rs'
TableStep _ _ = ⊥

pub data History : Table → Table → Type 0 where
  stay : {t : Table} → History t t
  then_step : {t u v : Table} → TableStep t u → History u v → History t v

pub is_status→≡ : (a b : OutboxEventStatus) → is_status a b ≡ true → a ≡ b
is_status→≡ pending b h = ground arith
is_status→≡ processing b h = ground arith
is_status→≡ published b h = ground arith
is_status→≡ failed b h = ground arith
is_status→≡ invalid b h = ground arith

-- An UPDATE whose WHERE only holds of rows that its SET advances.
pub update-TableStep :
    (where_ : Row → Bool) (set_ : OutboxEvent → OutboxEvent)
    → ((r : Row) → where_ r ≡ true → Advances r.event (set_ r.event))
    → (t : Table) → TableStep t (update where_ set_ t)
unfolding update
update-TableStep where_ set_ advances [] = tt
update-TableStep where_ set_ advances (r ∷ rs) = elim (Bool-cases (where_ r)) [
  | inl e ↦ rw (e) (inr (refl, advances r e), update-TableStep where_ set_ advances rs)
  | inr e ↦ rw (e) (inl refl, update-TableStep where_ set_ advances rs)
]

pub one_step : {t u : Table} → TableStep t u → History t u
one_step h = then_step h stay

pub chain : {t u v : Table} → History t u → History u v → History t v
chain stay k = k
chain (then_step h rest) k = then_step h (chain rest k)

pub conclude-History {ℓ} :
    {A : Type ℓ} (t : Table) (r : Result RepositoryError (A × Table))
    → ((out : A × Table) → r ≡ ok out → History t out.1)
    → History t (conclude t r).1
conclude-History t (err e) k = stay
conclude-History t (ok out) k = k out refl

-- What a transaction returned is what its body returned.
pub run_tx-eq-ok {ℓ} :
    {A : Type ℓ} (s : Session) (body : Table → Result RepositoryError (A × Table)) (t : Table)
    {out : A × Table}
    → run_tx s body t ≡ ok out
    → body t ≡ ok out
unfolding run_tx
run_tx-eq-ok s body t h =
    let (u, _, e1) = >>=-eq-ok s.opens _ h in
    let (tn, _, e2) = >>=-eq-ok (tenant_id_from_context s) _ e1 in
    let (o, eo, e3) = >>=-eq-ok (body t) _ e2 in
    let (u2, _, e4) = >>=-eq-ok s.commits _ e3 in eo ∙ e4

-- A transaction leaves the table, or what its body makes of it.
pub tx-History {ℓ} :
    {A : Type ℓ} (s : Session) (body : Table → Result RepositoryError (A × Table)) (t : Table)
    → ((out : A × Table) → body t ≡ ok out → History t out.1)
    → History t (with_tenant_tx s body t).1
tx-History s body t h =
    conclude-History t (run_tx s body t) (λ out e. h out (run_tx-eq-ok s body t e))

pub guarded-History {ℓ} :
    {A : Type ℓ} (t : Table) (g : Result RepositoryError (Unit {0}))
    (rest : Result RepositoryError A × Table)
    → History t rest.1
    → History t (guarded t g rest).1
guarded-History t (err e) rest h = stay
guarded-History t (ok u) rest h = h

pub unless_missing-History :
    {A : Type 0} (m : Result RepositoryError Bool) (a : A) (t : Table)
    (rest : Result RepositoryError A × Table)
    → History t rest.1
    → History t (unless_missing m a t rest).1
unless_missing-History (err e) a t rest h = stay
unless_missing-History (ok true) a t rest h = stay
unless_missing-History (ok false) a t rest h = h

among-status :
    (ids : List ℕ) (from : OutboxEventStatus) (filter : Row → Bool) (r : Row)
    → among ids from filter r ≡ true
    → r.event.status ≡ from
among-status ids from filter r h = is_status→≡ r.event.status from (ground (arith, h))

pub update_ids-History :
    (s : Session) (from to : OutboxEventStatus) (set_ : OutboxEvent → OutboxEvent) (ids : List ℕ)
    (tn : Runes) (t u : Table)
    → ((e : OutboxEvent) → e.status ≡ from → Advances e (set_ e))
    → update_ids s from to set_ ids tn t ≡ ok u
    → History t u
unfolding update_ids
update_ids-History s from to set_ ids tn t u advances h =
    let (_, _, e1) = >>=-eq-ok (validate_transition from to) _ h in
    let (filter, _, e2) = >>=-eq-ok (tenant_filter_clause s tn) _ e1 in
    let (_, _, e3) =
      >>=-eq-ok (ensure_rows_affected_exact (rows_affected (among ids from filter) t) (length ids))
        _ e2 in
    subst (History t) (ok-injective e3) (
      one_step (
        update-TableStep (among ids from filter) set_
          (λ r w. advances r.event (among-status ids from filter r w)) t))
