-- ===== src/Outbox/Repository/Claim/Disjoint.antt =====
-- Two claims of pending events by the repository of commons/outbox/postgres never return the same
-- event.
use lib_commons.Base.{
  ℕ, ◌≡◌, ◌≢◌, refl, sym, subst, ◌∙◌, ap, ◌⊎◌, inl, inr, Bool, true, false, List, [], ◌∷◌, In,
  length, arith,
}
use lib_commons.Base.Result.{Result, ok, err, >>=-eq-ok, ok-injective}
use lib_commons.Base.Runes.{Runes}
use lib_commons.Outbox.Status.{OutboxEventStatus}
use OutboxEventStatus.{pending, processing}
use lib_commons.Outbox.Repository.{
  OutboxEvent, Row, Table, RepositoryError, Session, update, run_tx, conclude, guarded,
  tenant_id_from_context, tenant_filter_clause, validate_transition, rows_affected,
  ensure_rows_affected_exact,
}
use lib_commons.Outbox.Repository.Select.{list_pending_rows}
use lib_commons.Outbox.Repository.Claim.{
  collect_event_ids, has_id, among, update_ids, mark_events_with_status, mark_events_processing,
  claim, claim_ids, unless_missing, list_pending, pending_guards,
}
use lib_commons.Outbox.Repository.Lifecycle.{run_tx-eq-ok}
use lib_commons.Outbox.Repository.Claim.Listed.{
  pending_of, In-select, In-map_id, has_id-collect_event_ids, list_pending_rows-eq, update-In_none,
}

abbrev set_processing : ℕ → OutboxEvent → OutboxEvent
set_processing now e = record e { status = processing; updated_at = now }

marked-eq :
    (s : Session) (tn : Runes) (filter : Row → Bool) (ids : List ℕ) (t u : Table)
    → tenant_filter_clause s tn ≡ ok filter
    → mark_events_processing s ids tn pending t ≡ ok u
    → u ≡ update (among ids pending filter) (set_processing s.now) t
unfolding mark_events_processing mark_events_with_status update_ids
marked-eq s tn filter ids t u h2 h =
    let (_, _, e1) = >>=-eq-ok (validate_transition pending processing) _ h in
    let (filter', e2, e3) = >>=-eq-ok (tenant_filter_clause s tn) _ e1 in
    let (_, _, e4) =
      >>=-eq-ok
        (ensure_rows_affected_exact (rows_affected (among ids pending filter') t) (length ids)) _
        e3 in
    subst (λ f. u ≡ update (among ids pending f) (set_processing s.now) t)
      (ok-injective (sym e2 ∙ h2)) (sym (ok-injective e4))

no_ids : (id : ℕ) → has_id [] id ≡ false
unfolding has_id
no_ids id = refl

other_id :
    (ids : List ℕ) (filter : Row → Bool) (r : Row)
    → pending_of filter r ≡ true
    → among ids pending filter r ≡ false
    → has_id ids r.event.id ≡ false
other_id ids filter r p h = ground (arith, p, h)

-- What a claim returned: events with the ids of those selected, and a table in which no pending row
-- of the tenant has one of their ids.
claim_ids-lem :
    (s : Session) (tn : Runes) (filter : Row → Bool) (events : List OutboxEvent) (ids : List ℕ)
    (t : Table) (out : List OutboxEvent × Table)
    → tenant_id_from_context s ≡ ok tn
    → tenant_filter_clause s tn ≡ ok filter
    → claim_ids s pending events ids t ≡ ok out
    → ((e : OutboxEvent) → In e out.0 → (e0 : OutboxEvent) × In e0 events × (e.id ≡ e0.id))
      × ((r : Row) → In r out.1 → pending_of filter r ≡ true → has_id ids r.event.id ≡ false)
unfolding claim_ids
claim_ids-lem s tn filter events [] t out h1 h2 h =
    subst
      (λ o.
        ((e : OutboxEvent) → In e o.0 → (e0 : OutboxEvent) × In e0 events × (e.id ≡ e0.id))
        × ((r : Row) → In r o.1 → pending_of filter r ≡ true → has_id [] r.event.id ≡ false))
      (ok-injective h) ((λ e m. (e, m, refl)), λ r m p. no_ids r.event.id)
claim_ids-lem s tn filter events (i ∷ is) t out h1 h2 h =
    let ids = i ∷ is in
    let (tn', e1, e2) = >>=-eq-ok (tenant_id_from_context s) _ h in
    let (u, eu, e3) = >>=-eq-ok (mark_events_processing s ids tn' pending t) _ e2 in
    let marked = marked-eq s tn filter ids t u h2 (
      subst (λ x. mark_events_processing s ids x pending t ≡ ok u) (ok-injective (sym e1 ∙ h1))
        eu) in
    subst
      (λ o.
        ((e : OutboxEvent) → In e o.0 → (e0 : OutboxEvent) × In e0 events × (e.id ≡ e0.id))
        × ((r : Row) → In r o.1 → pending_of filter r ≡ true → has_id ids r.event.id ≡ false))
      (ok-injective e3)
      (
        (λ e m. In-map_id s.now e events m),
        λ r m p. other_id ids filter r p (
            update-In_none (among ids pending filter) (set_processing s.now) (λ x w. ground arith) r
              t (subst (In r) marked m)),
      )

guarded-ok :
    {A : Type 0} (t : Table) (g : Result RepositoryError (Unit {0}))
    (rest : Result RepositoryError A × Table) {a : A}
    → (guarded t g rest).0 ≡ ok a
    → guarded t g rest ≡ rest
guarded-ok t (err e) rest h = cc
guarded-ok t (ok u) rest h = refl

unless_missing-ok :
    {A : Type 0} (missing : Result RepositoryError Bool) (nothing : A) (t : Table)
    (rest : Result RepositoryError A × Table) {a : A}
    → (unless_missing missing nothing t rest).0 ≡ ok a
    → (a ≡ nothing) ⊎ (unless_missing missing nothing t rest ≡ rest)
unless_missing-ok (err e) nothing t rest h = cc
unless_missing-ok (ok true) nothing t rest h = inl (ok-injective (sym h))
unless_missing-ok (ok false) nothing t rest h = inr refl

conclude-ok :
    {A : Type 0} (t : Table) (r : Result RepositoryError (A × Table)) {a : A}
    → (conclude t r).0 ≡ ok a
    → (u : Table) × (r ≡ ok (a, u)) × ((conclude t r).1 ≡ u)
conclude-ok t (err e) h = cc
conclude-ok t (ok out) h = (out.1, ap (λ x. ok (x, out.1)) (ok-injective h), refl)

list_pending-ok :
    (s : Session) (limit : ℕ) (t : Table) (es : List OutboxEvent)
    → (list_pending s limit t).0 ≡ ok es
    → (es ≡ [])
      ⊎ ((events : List OutboxEvent) × (u : Table) × (list_pending_rows s limit t ≡ ok events)
          × (claim_ids s pending events (collect_event_ids events) t ≡ ok (es, u))
          × ((list_pending s limit t).1 ≡ u))
unfolding list_pending claim
list_pending-ok s limit t es h =
    let body : Table → Result RepositoryError (List OutboxEvent × Table) =
      λ tb. claim s pending (list_pending_rows s limit tb) tb in
    let tx = conclude t (run_tx s body t) in
    let served = unless_missing s.table_missing [] t tx in
    let g = guarded-ok t (pending_guards s limit) served h in
    elim (unless_missing-ok s.table_missing [] t tx (subst (λ x. x.0 ≡ ok es) g h)) [
      | inl none_ ↦ inl none_
      | inr w ↦
          (let (u, e1, e2) = conclude-ok t (run_tx s body t) (subst (λ x. x.0 ≡ ok es) (g ∙ w) h) in
            let (events, e3, e4) =
              >>=-eq-ok (list_pending_rows s limit t) _ (run_tx-eq-ok s body t e1) in
            inr (events, u, e3, e4, ap (λ x. x.1) (g ∙ w) ∙ e2))
    ]

-- A number that is no id of the events is not the id of one of them.
apart :
    (events : List OutboxEvent) (e : OutboxEvent) (id : ℕ)
    → In e events
    → e.id ≢ 0
    → has_id (collect_event_ids events) id ≡ false
    → id ≢ e.id
apart events e id m h gone same = absurd (
    true_false (
      sym (has_id-collect_event_ids e events m h)
      ∙ ap (has_id (collect_event_ids events)) (sym same)
      ∙ gone))
  where
    true_false : true ≡ false → ⊥
    true_false h = cc

-- Two successive claims of one tenant, with any limits and locks, share no event with an id: whatever
-- the first ListPending returned, the second does not return again.
pub list_pending_disjoint :
    (s later : Session) (limit limit' : ℕ) (t : Table) (tn : Runes) (filter : Row → Bool)
    (es es' : List OutboxEvent)
    → tenant_id_from_context s ≡ ok tn
    → tenant_filter_clause s tn ≡ ok filter
    → tenant_id_from_context later ≡ ok tn
    → tenant_filter_clause later tn ≡ ok filter
    → (list_pending s limit t).0 ≡ ok es
    → (list_pending later limit' (list_pending s limit t).1).0 ≡ ok es'
    → (e e' : OutboxEvent) → In e es
    → In e' es'
    → e.id ≢ 0
    → e'.id ≢ e.id
list_pending_disjoint s later limit limit' t tn filter es es' h1 h2 k1 k2 first second e e' m m' h =
    elim (list_pending-ok s limit t es first) [
      | inl none_ ↦ absurd (subst (In e) none_ m)
      | inr c ↦ elim (list_pending-ok later limit' (list_pending s limit t).1 es' second) [
        | inl none_ ↦ absurd (subst (In e') none_ m')
        | inr c' ↦
            (let (events, u, l1, cl1, q1) = c in
              let (events', u', l2, cl2, q2) = c' in
              let (e0, m0, i0) =
                (claim_ids-lem s tn filter events (collect_event_ids events) t (es, u) h1 h2 cl1).0
                  e m in
              let (e1, m1, i1) =
                (claim_ids-lem later tn filter events' (collect_event_ids events')
                    (list_pending s limit t).1 (es', u') k1 k2 cl2).0
                  e' m' in
              let (r, k, p, q) = In-select later limit' (list_pending s limit t).1 filter e1 (
                subst (In e1)
                  (ok-injective (
                    sym l2
                    ∙ list_pending_rows-eq later limit' (list_pending s limit t).1 tn filter k1 k2))
                  m1) in
              let gone =
                (claim_ids-lem s tn filter events (collect_event_ids events) t (es, u) h1 h2 cl1).1
                  r (subst (In r) q1 k) p in
              λ same.
                apart events e0 r.event.id m0 (λ z. h (i0 ∙ z)) gone
                  (ap (λ x. x.id) q ∙ sym i1 ∙ same ∙ i0))
      ]
    ]
