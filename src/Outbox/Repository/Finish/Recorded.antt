-- ===== src/Outbox/Repository/Finish/Recorded.antt =====
-- What MarkFailed and MarkPublished of commons/outbox/postgres/state_transitions.go record when the
-- call is served, and that a second mark of the same event is refused.
use lib_commons.Base.{
  ℕ, ◌+◌, ◌<◌, ◌≤◌, ◌≡◌, ◌≢◌, refl, sym, subst, inl, inr, ◌↔◌, Bool, true, false, [], ◌∷◌, In,
  Bool-cases, ◌==◌, arith, some,
}
use lib_commons.Base.Result.{Result, ok, err}
use lib_commons.Base.Runes.{Runes}
use lib_commons.Outbox.Status.{OutboxEventStatus, can_transition_to}
use OutboxEventStatus.{processing, published, failed, invalid}
use lib_commons.Outbox.LastError.{bound_error_cause}
use lib_commons.Outbox.Sanitizer.{sanitize_error_message_for_storage}
use lib_commons.Outbox.Repository.{
  OutboxEvent, Row, Table, RepositoryError, Session, update, rows_affected, ensure_rows_affected,
  tenant_id_from_context, tenant_filter_clause, run_tx, validate_transition,
}
use RepositoryError.{state_transition_conflict}
use lib_commons.Outbox.Repository.Finish.{
  finish_row, in_processing, mark_failed, mark_invalid, mark_published, set_failed,
}

-- A session whose repository, connection and commit work, for a tenant with a filter.
pub record Serves (s : Session) (tenant : Runes) (filter : Row → Bool) : Type 0 where
  pub is_initialized : s.initialized ≡ true
  pub opened : s.opens ≡ ok tt
  pub committed : s.commits ≡ ok tt
  pub tenant_lem : tenant_id_from_context s ≡ ok tenant
  pub filter_lem : tenant_filter_clause s tenant ≡ ok filter

module _ (where_ : Row → Bool) (set_ : OutboxEvent → OutboxEvent) where
  rows_affected_positive :
      (r : Row) (t : Table) → In r t → where_ r ≡ true → 0 < rows_affected where_ t
  unfolding rows_affected
  rows_affected_positive r [] m h = absurd m
  rows_affected_positive r (x ∷ xs) (inl e) h = ground (arith, e, h)
  rows_affected_positive r (x ∷ xs) (inr m) h = ground (arith, rows_affected_positive r xs m h)

  pub update-In :
      (r : Row) (t : Table)
      → In r t
      → where_ r ≡ true
      → In (record r { event = set_ r.event }) (update where_ set_ t)
  unfolding update
  update-In r [] m h = absurd m
  update-In r (x ∷ xs) (inl e) h = rw (sym e, h) (inl refl)
  update-In r (x ∷ xs) (inr m) h = elim (Bool-cases (where_ x)) [
    | inl e ↦ rw (e) (inr (update-In r xs m h))
    | inr e ↦ rw (e) (inr (update-In r xs m h))
  ]

  -- An UPDATE leaves the rows that its WHERE does not hold of.
  pub In-update : (r : Row) (t : Table) → In r t → where_ r ≡ false → In r (update where_ set_ t)
  unfolding update
  In-update r [] m h = absurd m
  In-update r (x ∷ xs) (inl e) h = rw (sym e, h) (inl refl)
  In-update r (x ∷ xs) (inr m) h = elim (Bool-cases (where_ x)) [
    | inl e ↦ rw (e) (inr (In-update r xs m h))
    | inr e ↦ rw (e) (inr (In-update r xs m h))
  ]

pub other_in_processing :
    (id : ℕ) (filter : Row → Bool) (r : Row) → r.event.id ≢ id → in_processing id filter r ≡ false
other_in_processing id filter r h = ground (arith, h)

finish_row-eq :
    (s : Session) (tn : Runes) (filter : Row → Bool) (id : ℕ) (set_ : OutboxEvent → OutboxEvent)
    (r : Row) (t : Table)
    → Serves s tn filter
    → In r t
    → in_processing id filter r ≡ true
    → finish_row s id set_ t ≡ ok (tt, update (in_processing id filter) set_ t)
unfolding finish_row ensure_rows_affected
finish_row-eq s tn filter id set_ r t serves m h = rw (serves.tenant_lem) (
    rw (serves.filter_lem)
      (ground (arith, rows_affected_positive (in_processing id filter) set_ r t m h)))

run_tx-eq :
    {A : Type 0} (s : Session) (tn : Runes) (filter : Row → Bool)
    (body : Table → Result RepositoryError (A × Table)) (t : Table) (out : A × Table)
    → Serves s tn filter
    → body t ≡ ok out
    → run_tx s body t ≡ ok out
unfolding run_tx
run_tx-eq s tn filter body t out serves h =
    simp (serves.opened, serves.tenant_lem, h, serves.committed)

finished :
    (s : Session) (tn : Runes) (filter : Row → Bool) (id : ℕ) (set_ : OutboxEvent → OutboxEvent)
    (r : Row) (t : Table)
    → Serves s tn filter
    → In r t
    → in_processing id filter r ≡ true
    → run_tx s (finish_row s id set_) t ≡ ok (tt, update (in_processing id filter) set_ t)
finished s tn filter id set_ r t serves m h =
    run_tx-eq s tn filter (finish_row s id set_) t (tt, update (in_processing id filter) set_ t)
      serves (finish_row-eq s tn filter id set_ r t serves m h)

-- The row of an event that is being processed, within the tenant of the session.
pub record Claimed (id : ℕ) (filter : Row → Bool) (t : Table) (r : Row) : Type 0 where
  pub stands : In r t
  pub named : r.event.id ≡ id
  pub nonzero : id ≢ 0
  pub runs : r.event.status ≡ processing
  pub owned : filter r ≡ true

pub in_processing_lem :
    {id : ℕ} {filter : Row → Bool} {t : Table} {r : Row}
    → Claimed id filter t r
    → in_processing id filter r ≡ true
in_processing_lem {id} {filter} {t} {r} c = ground (arith, c.named, c.runs, c.owned)

nonzero_test : (n : ℕ) → n ≢ 0 → (n == 0) ≡ false
nonzero_test n h = ground (arith, h)

-- The SET of a MarkFailed that is not refused.
abbrev pub set_of_failure : (Runes → Runes) → Session → Runes → ℕ → OutboxEvent → OutboxEvent
set_of_failure redact s message most =
    set_failed s.now most (bound_error_cause (sanitize_error_message_for_storage redact message))

pub mark_failed-eq :
    (redact : Runes → Runes) (s : Session) (tn : Runes) (filter : Row → Bool) (id : ℕ)
    (message : Runes) (most : ℕ) (t : Table) (r : Row)
    → Serves s tn filter
    → Claimed id filter t r
    → most ≢ 0
    → mark_failed redact s id message most t
      ≡ (ok tt, update (in_processing id filter) (set_of_failure redact s message most) t)
unfolding mark_failed validate_transition can_transition_to
mark_failed-eq redact s tn filter id message most t r serves c positive = simp (
  serves.is_initialized,
  nonzero_test id c.nonzero,
  nonzero_test most positive,
  finished s tn filter id (set_of_failure redact s message most) r t serves c.stands
      (in_processing_lem c),
)

pub status_of_failure :
    (now most : ℕ) (message : Runes) (e : OutboxEvent)
    → (((set_failed now most message e).status ≡ invalid) ↔ (most ≤ e.attempts + 1))
      × (((set_failed now most message e).status ≡ failed) ↔ (e.attempts + 1 < most))
unfolding set_failed
status_of_failure now most message e = ground arith

-- In a session that serves the tenant, MarkFailed of an event that is being processed succeeds, and
-- its row then has one attempt more, and is INVALID exactly when the attempts have reached the most
-- allowed, FAILED exactly when they have not.
pub mark_failed_records :
    (redact : Runes → Runes) (s : Session) (tn : Runes) (filter : Row → Bool) (id : ℕ)
    (message : Runes) (most : ℕ) (t : Table) (r : Row)
    → Serves s tn filter
    → Claimed id filter t r
    → most ≢ 0
    → ((mark_failed redact s id message most t).0 ≡ ok tt)
      × ((r' : Row) × In r' (mark_failed redact s id message most t).1
          × (r'.event.id ≡ id)
          × (r'.event.attempts ≡ r.event.attempts + 1)
          × ((r'.event.status ≡ invalid) ↔ (most ≤ r'.event.attempts))
          × ((r'.event.status ≡ failed) ↔ (r'.event.attempts < most)))
unfolding mark_failed validate_transition can_transition_to set_failed
mark_failed_records redact s tn filter id message most t r serves c positive =
    let cause = bound_error_cause (sanitize_error_message_for_storage redact message) in
    subst
      (λ out.
        (out.0 ≡ ok tt)
        × ((r' : Row) × In r' out.1
            × (r'.event.id ≡ id)
            × (r'.event.attempts ≡ r.event.attempts + 1)
            × ((r'.event.status ≡ invalid) ↔ (most ≤ r'.event.attempts))
            × ((r'.event.status ≡ failed) ↔ (r'.event.attempts < most))))
      (sym (mark_failed-eq redact s tn filter id message most t r serves c positive))
      (
        refl,
        (
          record r { event = set_of_failure redact s message most r.event },
          update-In (in_processing id filter) (set_of_failure redact s message most) r t c.stands
              (in_processing_lem c),
          c.named,
          refl,
          (status_of_failure s.now most cause r.event).0,
          (status_of_failure s.now most cause r.event).1,
        ),
      )

-- After an UPDATE whose SET leaves its own WHERE, the WHERE holds of no row.
rows_affected-update :
    (where_ : Row → Bool) (set_ : OutboxEvent → OutboxEvent)
    → ((r : Row) → where_ r ≡ true → where_ (record r { event = set_ r.event }) ≡ false)
    → (t : Table) → rows_affected where_ (update where_ set_ t) ≡ 0
unfolding rows_affected update
rows_affected-update where_ set_ leaves [] = refl
rows_affected-update where_ set_ leaves (r ∷ rs) = elim (Bool-cases (where_ r)) [
  | inl e ↦ rw (e) (rw (leaves r e) (rows_affected-update where_ set_ leaves rs))
  | inr e ↦ rw (e) (rw (e) (rows_affected-update where_ set_ leaves rs))
]

finish_row_conflict :
    (s : Session) (tn : Runes) (filter : Row → Bool) (id : ℕ) (set_ : OutboxEvent → OutboxEvent)
    (t : Table)
    → Serves s tn filter
    → rows_affected (in_processing id filter) t ≡ 0
    → run_tx s (finish_row s id set_) t ≡ err state_transition_conflict
unfolding run_tx finish_row ensure_rows_affected
finish_row_conflict s tn filter id set_ t serves h =
    simp (serves.opened, serves.tenant_lem, serves.filter_lem, h)

pub mark_published-eq :
    (s : Session) (tn : Runes) (filter : Row → Bool) (id at : ℕ) (t : Table) (r : Row)
    → Serves s tn filter
    → Claimed id filter t r
    → mark_published s id at t ≡ (
      ok tt,
      update
          (in_processing id filter)
          (λ e. record e { status = published; published_at = some at; updated_at = s.now })
          t,
    )
unfolding mark_published validate_transition can_transition_to
mark_published-eq s tn filter id at t r serves c = simp (
  serves.is_initialized,
  nonzero_test id c.nonzero,
  finished s tn filter id
      (λ e. record e { status = published; published_at = some at; updated_at = s.now }) r t serves
      c.stands (in_processing_lem c),
)

-- The SET of a MarkInvalid.
abbrev pub set_invalid : (Runes → Runes) → Session → Runes → OutboxEvent → OutboxEvent
set_invalid redact s message e = record e {
  status = invalid;
  last_error = sanitize_error_message_for_storage redact message;
  updated_at = s.now;
}

pub mark_invalid-eq :
    (redact : Runes → Runes) (s : Session) (tn : Runes) (filter : Row → Bool) (id : ℕ)
    (message : Runes) (t : Table) (r : Row)
    → Serves s tn filter
    → Claimed id filter t r
    → mark_invalid redact s id message t
      ≡ (ok tt, update (in_processing id filter) (set_invalid redact s message) t)
unfolding mark_invalid validate_transition can_transition_to
mark_invalid-eq redact s tn filter id message t r serves c = simp (
  serves.is_initialized,
  nonzero_test id c.nonzero,
  finished s tn filter id (set_invalid redact s message) r t serves c.stands (in_processing_lem c),
)

mark_failed_conflict :
    (redact : Runes → Runes) (s : Session) (tn : Runes) (filter : Row → Bool) (id : ℕ)
    (message : Runes) (most : ℕ) (t : Table)
    → Serves s tn filter
    → id ≢ 0
    → most ≢ 0
    → rows_affected (in_processing id filter) t ≡ 0
    → mark_failed redact s id message most t ≡ (err state_transition_conflict, t)
unfolding mark_failed validate_transition can_transition_to
mark_failed_conflict redact s tn filter id message most t serves nonzero positive h = simp (
  serves.is_initialized,
  nonzero_test id nonzero,
  nonzero_test most positive,
  finish_row_conflict s tn filter id (set_of_failure redact s message most) t serves h,
)

-- Once MarkPublished of an event that is being processed has run, its row is PUBLISHED at the time
-- given, and a MarkFailed of the event in any later session of the tenant is refused with a conflict
-- and changes nothing.
pub mark_published_wins :
    (redact : Runes → Runes) (s later : Session) (tn : Runes) (filter : Row → Bool) (id at : ℕ)
    (message : Runes) (most : ℕ) (t : Table) (r : Row)
    → Serves s tn filter
    → Serves later tn filter
    → Claimed id filter t r
    → most ≢ 0
    → In
        (record r {
          event = record r.event { status = published; published_at = some at; updated_at = s.now };
        })
        (mark_published s id at t).1
      × (mark_failed redact later id message most (mark_published s id at t).1
          ≡ (err state_transition_conflict, (mark_published s id at t).1))
mark_published_wins redact s later tn filter id at message most t r serves serves' c positive =
    rw (mark_published-eq s tn filter id at t r serves c) (
      update-In (in_processing id filter) _ r t c.stands (in_processing_lem c),
      mark_failed_conflict redact later tn filter id message most _ serves' c.nonzero positive
          (rows_affected-update (in_processing id filter) _ (λ x h. ground arith) t),
    )
