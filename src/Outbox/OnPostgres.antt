-- ===== src/Outbox/OnPostgres.antt =====
-- The dispatcher of commons/outbox/dispatcher.go over the repository of commons/outbox/postgres: its
-- world is the outbox table and all else, of type L. What handlers, callbacks and waits do is not code
-- of the repository: they are functions of the rest of the world, and do not write the outbox table.
pub mod Lifecycle
pub mod Limits
pub mod Batch
pub mod Delivery
pub mod Dispatched
mod Tests
use lib_commons.Base.{ℕ, Bool, List, [], ◌∷◌, Option, none, some, map}
use lib_commons.Base.Result.{Result, ok, err}
use lib_commons.Base.Runes.{Runes}
use lib_commons.Backoff.{Draw}
use lib_commons.Outbox.Repository.{OutboxEvent, Table, RepositoryError, Session}
use lib_commons.Outbox.Repository.Claim.{list_pending, list_pending_by_type, reset_for_retry}
use lib_commons.Outbox.Repository.PendingTypes.{list_pending_by_types}
use lib_commons.Outbox.Repository.Reclaim.{reclaim_stuck_processing}
use lib_commons.Outbox.Repository.Finish.{mark_published, mark_failed, mark_invalid}
use lib_commons.Outbox.Handlers.{Handler, HandlerRegistry, PublishError}
use lib_commons.Outbox.Dispatcher.{Environment}

-- `session` is what a call of the repository finds, `passes` what happens meanwhile elsewhere.
pub record Outside (L X : Type 0) : Type 0 where
  pub session : L → Session
  pub passes : L → L
  pub handlers : HandlerRegistry L X
  pub is_non_retryable : PublishError X → Bool
  pub error_text : PublishError X → Runes
  pub redact : Runes → Runes
  pub random : L → Draw
  pub wait : ℕ → L → Option X × L
  pub context_done : L → Bool
  pub now : L → ℕ
  pub on_invalid : Option (OutboxEvent → PublishError X → L → L)
  pub on_failed : Option (OutboxEvent → PublishError X → L → L)

-- A call of the repository.
abbrev pub call :
    {L X A : Type 0}
    → Outside L X
    → (Session → Table → Result RepositoryError A × Table)
    → Table × L
    → Result RepositoryError A × (Table × L)
call outside op w =
    let done = op (outside.session w.1) w.0 in (done.0, (done.1, outside.passes w.1))

-- ResetStuckProcessing: ReclaimStuckProcessing without its list of invalid events.
abbrev pub reset_stuck :
    Result RepositoryError (List OutboxEvent × List OutboxEvent) × Table
    → Result RepositoryError (List OutboxEvent) × Table
reset_stuck (err e, t) = (err e, t)
reset_stuck (ok r, t) = (ok r.0, t)

abbrev pub lift_handler : {L X : Type 0} → Handler L X → Handler (Table × L) X
lift_handler h event w = let out = h event w.1 in (out.0, (w.0, out.1))

abbrev pub lift_handlers : {L X : Type 0} → HandlerRegistry L X → HandlerRegistry (Table × L) X
lift_handlers [] = []
lift_handlers ((t, h) ∷ registry) = (t, lift_handler h) ∷ lift_handlers registry

abbrev pub lift_callback :
    {L X : Type 0}
    → Option (OutboxEvent → PublishError X → L → L)
    → Option (OutboxEvent → PublishError X → Table × L → Table × L)
lift_callback none = none
lift_callback (some f) = some (λ event error w. (w.0, f event error w.1))

abbrev pub on_postgres : {L X : Type 0} → Outside L X → Environment (Table × L) X
on_postgres outside = record {
  list_pending = λ limit w. call outside (λ s. list_pending s limit) w;
  list_pending_by_type = λ type_ limit w. call outside (λ s. list_pending_by_type s type_ limit) w;
  list_pending_by_types =
      some (λ types limit w. call outside (λ s. list_pending_by_types s types limit) w);
  reset_for_retry =
      λ limit before most w. call outside (λ s. reset_for_retry s limit before most) w;
  reset_stuck_processing = λ limit before most w.
      call outside (λ s t. reset_stuck (reclaim_stuck_processing s limit before most t)) w;
  reclaim_stuck_processing =
      some
        (λ limit before most w. call outside (λ s. reclaim_stuck_processing s limit before most) w);
  mark_published = λ id at w. call outside (λ s. mark_published s id at) w;
  mark_failed =
      λ id message most w. call outside (λ s. mark_failed outside.redact s id message most) w;
  mark_invalid = λ id message w. call outside (λ s. mark_invalid outside.redact s id message) w;
  handlers = lift_handlers outside.handlers;
  is_non_retryable = outside.is_non_retryable;
  error_text = outside.error_text;
  redact = outside.redact;
  random = λ w. outside.random w.1;
  wait = λ delay w. let out = outside.wait delay w.1 in (out.0, (w.0, out.1));
  context_done = λ w. outside.context_done w.1;
  now = λ w. outside.now w.1;
  on_invalid = lift_callback outside.on_invalid;
  on_failed = lift_callback outside.on_failed;
}
