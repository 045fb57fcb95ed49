-- ===== src/Outbox/Repository/Retention/Aged.antt =====
-- deleteAgedBefore of commons/outbox/postgres/retention.go: which rows it deletes.
use lib_commons.Base.{
  ℕ, ◌+◌, ◌≡◌, refl, sym, ap, ◌∙◌, subst, ◌⊎◌, inl, inr, Bool, true, false, ◌&&◌, not, List, [],
  ◌∷◌, In, In-take, map, take, length, ◌==◌, Bool-cases, if-cases, if◌then◌else◌, arith,
}
use lib_commons.Base.Result.{Result, ok, err, refuse, ok-injective}
use lib_commons.Base.Runes.{Runes}
use lib_commons.Outbox.Status.{OutboxEventStatus}
use lib_commons.Outbox.Repository.{
  OutboxEvent, Row, Table, RepositoryError, Session, tenant_id_from_context, tenant_filter_clause,
  conclude, guarded, run_tx, with_tenant_tx, rows_affected,
}
use RepositoryError.{repository_not_initialized}
use lib_commons.Outbox.Repository.Lifecycle.{run_tx-eq-ok}
use lib_commons.Outbox.Repository.Select.{order_by, matching}
use lib_commons.Outbox.Repository.Claim.{has_id, unless_missing}
use lib_commons.Outbox.Repository.Claim.Listed.{In-order_by, In-matching}
use lib_commons.Outbox.Repository.Retention.Clause.{IsAged, aged_clause-IsAged}
use lib_commons.Outbox.Repository.Retention.{
  aged_clause, id_of, aged_ids, named_by, delete_where, delete_rows, delete_aged_before,
}

In-delete_where :
    (where_ : Row → Bool) (r : Row) (t : Table)
    → In r t
    → (In r (delete_where where_ t)) ⊎ (where_ r ≡ true)
unfolding delete_where
In-delete_where where_ r [] m = absurd m
In-delete_where where_ r (x ∷ xs) (inl e) = elim (Bool-cases (where_ x)) [
  | inl h ↦ inr (subst (λ y. where_ y ≡ true) (sym e) h)
  | inr h ↦ rw (h) (inl (inl e))
]
In-delete_where where_ r (x ∷ xs) (inr m) = elim (Bool-cases (where_ x)) [
  | inl h ↦ rw (h) (In-delete_where where_ r xs m)
  | inr h ↦ rw (h) (elim (In-delete_where where_ r xs m) [ inl k ↦ inl (inr k) | inr k ↦ inr k ])
]

-- An id of the list is that of an event.
has_id-map :
    (id : ℕ) (es : List OutboxEvent)
    → has_id (map id_of es) id ≡ true
    → (e : OutboxEvent) × In e es × (e.id ≡ id)
unfolding has_id
has_id-map id [] h = cc h
has_id-map id (x ∷ xs) h = elim (Bool-cases (x.id == id)) [
  | inl e ↦ (x, inl refl, ground (arith, e))
  | inr e ↦ (let (y, m, q) = has_id-map id xs (ground (arith, e, h)) in (y, inr m, q))
]

-- The rows of the tenant have an id of their own.
abbrev pub IsKeyed : (Row → Bool) → Table → Type 0
IsKeyed filter t =
    (a b : Row)
    → In a t
    → In b t
    → filter a ≡ true
    → filter b ≡ true
    → a.event.id ≡ b.event.id
    → a ≡ b

aged_ids-named :
    (status : OutboxEventStatus) (before : ℕ) (keep : List Runes) (limit : ℕ) (filter : Row → Bool)
    (t : Table) (id : ℕ)
    → has_id (aged_ids status before keep limit filter t) id ≡ true
    → (r : Row) × In r t × (aged_clause status before keep r && filter r ≡ true) × (r.event.id ≡ id)
unfolding aged_ids
aged_ids-named status before keep limit filter t id h =
    let where_ : Row → Bool = λ r. aged_clause status before keep r && filter r in
    let all = matching (λ id. false) where_ t in
    let updated : OutboxEvent → ℕ = λ e. e.updated_at in
    let by_id = order_by id_of all in
    let (e, m, q) = has_id-map id (take limit (order_by updated by_id)) h in
    let (r, k, w, x) =
      In-matching (λ id. false) where_ e t
        (In-order_by id_of e all
          (In-order_by updated e by_id (In-take limit e (order_by updated by_id) m))) in
    (r, k, w, ap (λ y. y.id) x ∙ q)

length-delete_where :
    (where_ : Row → Bool) (t : Table)
    → rows_affected where_ t + length (delete_where where_ t) ≡ length t
unfolding rows_affected delete_where
length-delete_where where_ [] = omega arith
length-delete_where where_ (r ∷ rs) = ground (arith, length-delete_where where_ rs)

-- What a call may make of a table: a row that is gone had the status, was last changed before the
-- cutoff, of a type that is not kept and of the tenant, and the answer counts the rows that are gone.
abbrev pub IsPurge :
    OutboxEventStatus
    → ℕ
    → List Runes
    → (Row → Bool)
    → Table
    → Result RepositoryError ℕ × Table
    → Type 0
IsPurge status before keep filter t o =
    ((r : Row) → In r t → In r o.1 ⊎ (IsAged status before keep r × (filter r ≡ true)))
    × ((n : ℕ) → o.0 ≡ ok n → n + length o.1 ≡ length t)

module _ (s : Session) (status : OutboxEventStatus) (before : ℕ) (keep : List Runes) (tn : Runes)
    (filter : Row → Bool) (t : Table) where
  refused-IsPurge : (e : RepositoryError) → IsPurge status before keep filter t (err e, t)
  refused-IsPurge e = (λ r m. inl m, λ n h. cc h)

  nothing-IsPurge : IsPurge status before keep filter t (ok 0, t)
  nothing-IsPurge = (λ r m. inl m, λ n h. ap (λ m. m + length t) (sym (ok-injective h)) ∙ none_gone)
    where
      none_gone : 0 + length t ≡ length t
      none_gone = omega arith

  conclude-IsPurge :
      (r : Result RepositoryError (ℕ × Table))
      → ((out : ℕ × Table) → r ≡ ok out → IsPurge status before keep filter t (ok out.0, out.1))
      → IsPurge status before keep filter t (conclude t r)
  conclude-IsPurge (err e) k = refused-IsPurge e
  conclude-IsPurge (ok out) k = k out refl

  guarded-IsPurge :
      (g : Result RepositoryError (Unit {0})) (o : Result RepositoryError ℕ × Table)
      → IsPurge status before keep filter t o
      → IsPurge status before keep filter t (guarded t g o)
  guarded-IsPurge (err e) o h = refused-IsPurge e
  guarded-IsPurge (ok u) o h = h

  unless_missing-IsPurge :
      (m : Result RepositoryError Bool) (o : Result RepositoryError ℕ × Table)
      → IsPurge status before keep filter t o
      → IsPurge status before keep filter t (unless_missing m 0 t o)
  unless_missing-IsPurge (err e) o h = refused-IsPurge e
  unless_missing-IsPurge (ok true) o h = nothing-IsPurge
  unless_missing-IsPurge (ok false) o h = h

  -- A row that the DELETE names is one of those that the SELECT found.
  named-IsAged :
      (limit : ℕ) (r : Row)
      → IsKeyed filter t
      → In r t
      → named_by (aged_ids status before keep limit filter t) filter r ≡ true
      → IsAged status before keep r × (filter r ≡ true)
  named-IsAged limit r keyed m h =
      let own : filter r ≡ true = ground (arith, h) in
      let (x, k, w, q) =
        aged_ids-named status before keep limit filter t r.event.id (ground (arith, h)) in
      let same = keyed x r k m (ground (arith, w)) own q in
      (
        aged_clause-IsAged status before keep r
            (subst (λ (y : Row). aged_clause status before keep y ≡ true) same (ground (arith, w))),
        own,
      )

  deleted-IsPurge :
      (limit : ℕ) (out : ℕ × Table)
      → tenant_id_from_context s ≡ ok tn
      → tenant_filter_clause s tn ≡ ok filter
      → IsKeyed filter t
      → delete_rows s status before keep limit t ≡ ok out
      → IsPurge status before keep filter t (ok out.0, out.1)
  unfolding delete_rows
  deleted-IsPurge limit out named clause keyed = rw (named) (
      rw (clause) (λ h.
        let where_ = named_by (aged_ids status before keep limit filter t) filter in
        subst (λ (o : ℕ × Table). IsPurge status before keep filter t (ok o.0, o.1))
          (ok-injective h)
          (
            (λ r m. elim (In-delete_where where_ r t m) [
              | inl k ↦ inl k
              | inr w ↦ inr (named-IsAged limit r keyed m w)
            ]),
            (λ n e.
                ap (λ m. m + length (delete_where where_ t)) (sym (ok-injective e))
                ∙ length-delete_where where_ t),
          )))

-- In a table whose rows have an id of their own within the tenant, deleteAgedBefore deletes only rows of
-- the tenant that have the status, were last changed before the cutoff and whose type no entry of the
-- list of kept types names, blanks around an entry not counting, whether it succeeds or fails, and the
-- number that it answers is that of the rows deleted.
pub delete_aged_before-IsPurge :
    (s : Session) (status : OutboxEventStatus) (before : ℕ) (keep : List Runes) (limit : ℕ)
    (tn : Runes) (filter : Row → Bool) (t : Table)
    → tenant_id_from_context s ≡ ok tn
    → tenant_filter_clause s tn ≡ ok filter
    → IsKeyed filter t
    → IsPurge status before keep filter t (delete_aged_before s status before keep limit t)
unfolding delete_aged_before
delete_aged_before-IsPurge s status before keep limit tn filter t named clause keyed =
    let deleted =
      unless_missing s.table_missing 0 t
        (with_tenant_tx s (delete_rows s status before keep limit) t) in
    guarded-IsPurge s status before keep tn filter t
      (refuse (not s.initialized) repository_not_initialized)
      (if limit == 0 then (ok 0, t) else deleted)
      (if-cases (IsPurge status before keep filter t) (limit == 0) (ok 0, t) deleted
        (λ h. nothing-IsPurge s status before keep tn filter t)
        (λ h. unless_missing-IsPurge s status before keep tn filter t s.table_missing _ (
          conclude-IsPurge s status before keep tn filter t
            (run_tx s (delete_rows s status before keep limit) t)
            (λ out e.
              deleted-IsPurge s status before keep tn filter t limit out named clause keyed
                (run_tx-eq-ok s (delete_rows s status before keep limit) t e)))))
