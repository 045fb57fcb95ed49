-- ===== src/Outbox/OnPostgres/Lifecycle.antt =====
-- A cycle of commons/outbox/dispatcher.go over commons/outbox/postgres: what it does to the rows.
use lib_commons.Base.{
  ◌≡◌, refl, sym, subst, inl, inr, List, [], ◌∷◌, Option, none, some, In, Bool-cases,
}
use lib_commons.Base.Result.{Result, ok, err}
use lib_commons.Base.Runes.{Runes, trim_space, is_empty_text, same_text, text_key}
use lib_commons.Base.Assoc.{find}
use lib_commons.Outbox.Repository.{OutboxEvent, Row, Table, RepositoryError}
use lib_commons.Outbox.Repository.Lifecycle.{History, stay, chain}
use lib_commons.Outbox.Repository.Reclaim.{reclaim_stuck_processing}
use lib_commons.Outbox.Repository.Steps.{list_pending_by_types-History}
use lib_commons.Outbox.Repository.Trace.{
  serve, serve-History, published_request, failed_request, invalid_request, pending_request,
  pending_by_type_request, retry_request, stuck_request,
}
use lib_commons.Outbox.Repository.Trace.Kept.{IsTerminal, History-keeps}
use lib_commons.Outbox.Handlers.{HandlerRegistry, PublishError, answer, run_handler, handle}
use lib_commons.Outbox.Dispatcher.{Dispatcher}
use lib_commons.Outbox.Dispatcher.Publish.{call_back}
use lib_commons.Outbox.Dispatcher.Cycle.{dispatch_once_result}
use lib_commons.Outbox.Dispatcher.Cycle.Keeps.{Moves}
use lib_commons.Outbox.Dispatcher.Cycle.Collected.{dispatch_once_result-R}
use lib_commons.Outbox.OnPostgres.{
  Outside, reset_stuck, lift_handler, lift_handlers, lift_callback, on_postgres,
}

-- The table advances from one world to the other.
abbrev Along : {L : Type 0} → Table × L → Table × L → Type 0
Along w w' = History w.0 w'.0

reset_stuck-table :
    (r : Result RepositoryError (List OutboxEvent × List OutboxEvent) × Table) (t : Table)
    → History t r.1
    → History t (reset_stuck r).1
reset_stuck-table (err e, u) t h = h
reset_stuck-table (ok r, u) t h = h

module _ {L X : Type 0} where
  answer-table : (t : Table) (o : Option X × (Table × L)) → o.1.0 ≡ t → (answer o).1.0 ≡ t
  answer-table t (none, w) h = h
  answer-table t (some x, w) h = h

  run_handler-table :
      (registry : HandlerRegistry L X) (name : Runes) (event : OutboxEvent) (t : Table) (l : L)
      → (run_handler (find name (lift_handlers registry)) event (t, l)).1.0 ≡ t
  unfolding run_handler find
  run_handler-table [] name event t l = refl
  run_handler-table ((n, h) ∷ registry) name event t l = elim (Bool-cases (same_text n name)) [
    | inl e ↦ rw (e) (answer-table t (lift_handler h event (t, l)) refl)
    | inr e ↦ rw (e) (run_handler-table registry name event t l)
  ]

  pub handle-table :
      (registry : HandlerRegistry L X) (event : OutboxEvent) (t : Table) (l : L)
      → (handle (lift_handlers registry) event (t, l)).1.0 ≡ t
  unfolding handle
  handle-table registry event t l =
      elim (Bool-cases (is_empty_text (trim_space event.event_type))) [
        | inl e ↦ rw (e) refl
        | inr e ↦ rw (e) (run_handler-table registry (trim_space event.event_type) event t l)
      ]

  told-stays :
      (f : Option (OutboxEvent → PublishError X → L → L)) (event : OutboxEvent)
      (error : PublishError X) (w : Table × L)
      → Along w (call_back (lift_callback f) event error w)
  told-stays none event error w = stay
  told-stays (some f) event error w = stay

  on_postgres-Moves : (outside : Outside L X) → Moves (on_postgres outside) Along
  unfolding serve
  on_postgres-Moves outside = record {
    stays = λ w. stay;
    chains = λ a b c h k. chain h k;
    pending =
        λ limit w. serve-History outside.redact (outside.session w.1) (pending_request limit) w.0;
    by_type = λ type_ limit w.
        serve-History outside.redact (outside.session w.1) (pending_by_type_request type_ limit)
          w.0;
    by_types = λ types limit w. list_pending_by_types-History (outside.session w.1) types limit w.0;
    failed = λ limit before most w.
        serve-History outside.redact (outside.session w.1) (retry_request limit before most) w.0;
    stuck = λ limit before most w.
        reset_stuck-table (reclaim_stuck_processing (outside.session w.1) limit before most w.0) w.0
          (serve-History outside.redact (outside.session w.1) (stuck_request limit before most)
            w.0);
    reclaim = λ limit before most w.
        serve-History outside.redact (outside.session w.1) (stuck_request limit before most) w.0;
    published =
        λ id at w. serve-History outside.redact (outside.session w.1) (published_request id at) w.0;
    marked_failed = λ id message most w.
        serve-History outside.redact (outside.session w.1) (failed_request id message most) w.0;
    marked_invalid = λ id message w.
        serve-History outside.redact (outside.session w.1) (invalid_request id message) w.0;
    handled =
        λ event w. subst (History w.0) (sym (handle-table outside.handlers event w.0 w.1)) stay;
    waited = λ delay w. stay;
    told_invalid = told-stays outside.on_invalid;
    told_failed = told-stays outside.on_failed;
  }

-- A cycle of the dispatcher over the Postgres repository moves the rows only by UPDATEs of which each
-- makes transitions that CanTransitionTo allows, loses no attempt, keeps identity and payload and
-- keeps last_error within its column; so a row that is published or invalid is still there, unchanged.
pub dispatch_once_result_advances :
    {L X : Type 0} (outside : Outside L X) (d : Dispatcher) (tenant_key : Runes) (w : Table × L)
    → History w.0 (dispatch_once_result (on_postgres outside) d tenant_key w).2.0
      × ((r : Row)
          → IsTerminal r.event.status
          → In r w.0
          → In r (dispatch_once_result (on_postgres outside) d tenant_key w).2.0)
dispatch_once_result_advances outside d tenant_key w =
    let history =
      dispatch_once_result-R (on_postgres outside) Along (on_postgres-Moves outside) d tenant_key
        w in
    (history, λ r terminal m. History-keeps r terminal history m)
