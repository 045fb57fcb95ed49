-- ===== src/Outbox/OnPostgres/Dispatched.antt =====
-- The loop of DispatchOnceResult of commons/outbox/dispatcher.go over commons/outbox/postgres: every
-- event of the batch is settled.
use lib_commons.Base.{
  ◌≡◌, ◌≢◌, refl, sym, subst, ◌∙◌, ◌⊎◌, inl, inr, Bool, false, List, [], ◌∷◌, Option, none, some,
  In, All,
}
use lib_commons.Base.Runes.{Runes}
use lib_commons.Outbox.Status.{OutboxEventStatus}
use OutboxEventStatus.{published, failed, invalid}
use lib_commons.Outbox.Repository.{OutboxEvent, Row, Table}
use lib_commons.Outbox.Repository.Finish.Recorded.{Serves, Claimed}
use lib_commons.Outbox.Config.{DispatcherConfig}
use lib_commons.Outbox.Handlers.{PublishError}
use lib_commons.Outbox.Dispatcher.Publish.{publish_event_with_retry}
use lib_commons.Outbox.Dispatcher.Collect.Distinct.{Distinct}
use lib_commons.Outbox.Dispatcher.Cycle.{DispatchResult, dispatch_event, dispatch_events}
use lib_commons.Outbox.OnPostgres.{Outside, on_postgres}
use lib_commons.Outbox.OnPostgres.Delivery.{Settles, Settled, dispatch_event-Settled}

-- The row of the event is no longer being processed.
abbrev pub IsDone : Table → OutboxEvent → Type 0
IsDone t event =
    (r : Row) × In r t
    × (r.event.id ≡ event.id)
    × ((r.event.status ≡ published) ⊎ ((r.event.status ≡ failed) ⊎ (r.event.status ≡ invalid)))

-- Every event has a row that is being processed.
abbrev pub AllClaimed : (Row → Bool) → Table → List OutboxEvent → Type 0
AllClaimed filter t events = All (λ e. (r : Row) × Claimed e.id filter t r) events

module _ {L X : Type 0} (outside : Outside L X) (cfg : DispatcherConfig) (tn : Runes)
    (filter : Row → Bool) where
  Settles-done :
      (outcome : Option (PublishError X)) (status : OutboxEventStatus)
      → Settles outside cfg outcome status
      → (status ≡ published) ⊎ ((status ≡ failed) ⊎ (status ≡ invalid))
  Settles-done none status h = inl h
  Settles-done (some error) status (inl h) = inr (inr h)
  Settles-done (some error) status (inr h) = inr (inl h.0)

  Settled-IsDone :
      (before t : Table) (event : OutboxEvent) (outcome : Option (PublishError X))
      → Settled outside cfg before event outcome t
      → IsDone t event
  Settled-IsDone before t event outcome h =
      let (r, m, named, settles) = h.0 in (r, m, named, Settles-done outcome r.event.status settles)

  -- The rows of the other events still stand.
  Claimed-kept :
      (before t : Table) (event e : OutboxEvent) (outcome : Option (PublishError X))
      → Settled outside cfg before event outcome t
      → e.id ≢ event.id
      → (r : Row) × Claimed e.id filter before r
      → (r : Row) × Claimed e.id filter t r
  Claimed-kept before t event e outcome h apart (r, c) = (
    r,
    record {
      stands = h.1 r c.stands (λ q. apart (sym c.named ∙ q));
      named = c.named;
      nonzero = c.nonzero;
      runs = c.runs;
      owned = c.owned;
    },
  )

  AllClaimed-kept :
      (before t : Table) (event : OutboxEvent) (es : List OutboxEvent)
      (outcome : Option (PublishError X))
      → Settled outside cfg before event outcome t
      → All (λ e. e.id ≢ event.id) es
      → AllClaimed filter before es
      → AllClaimed filter t es
  AllClaimed-kept before t event [] outcome h apart claimed = tt
  AllClaimed-kept before t event (e ∷ es) outcome h apart claimed = (
    Claimed-kept before t event e outcome h apart.0 claimed.0,
    AllClaimed-kept before t event es outcome h apart.1 claimed.1,
  )

  -- What the loop leaves: each event done, and the rows of other events as they were.
  LeavesDone : List OutboxEvent → Table → Table → Type 0
  LeavesDone events before t =
      All (IsDone t) events
      × ((r : Row) → In r before → All (λ e. r.event.id ≢ e.id) events → In r t)

  IsDone-kept :
      (t u : Table) (event : OutboxEvent) (es : List OutboxEvent)
      → ((r : Row) → In r t → All (λ e. r.event.id ≢ e.id) es → In r u)
      → All (λ e. e.id ≢ event.id) es
      → IsDone t event
      → IsDone u event
  IsDone-kept t u event es keeps apart (r, m, named, status) =
      (r, keeps r m (others es apart), named, status)
    where
      others :
          (xs : List OutboxEvent) → All (λ e. e.id ≢ event.id) xs → All (λ e. r.event.id ≢ e.id) xs
      others [] h = tt
      others (x ∷ xs) h = ((λ q. h.0 (sym q ∙ named)), others xs h.1)

  dispatch_events-step :
      (event : OutboxEvent) (events : List OutboxEvent) (r : DispatchResult) (w : Table × L)
      → outside.context_done w.1 ≡ false
      → dispatch_events (on_postgres outside) cfg (event ∷ events) r w
        ≡ dispatch_events
            (on_postgres outside)
            cfg
            events
            (dispatch_event (on_postgres outside) cfg event r w).0
            (dispatch_event (on_postgres outside) cfg event r w).1
  unfolding dispatch_events
  dispatch_events-step event events r w h = rw (h) refl

  dispatch_events-LeavesDone :
      (events : List OutboxEvent) (r : DispatchResult) (w : Table × L)
      → ((l : L) → Serves (outside.session l) tn filter)
      → ((l : L) → outside.context_done l ≡ false)
      → cfg.max_dispatch_attempts ≢ 0
      → Distinct events
      → AllClaimed filter w.0 events
      → LeavesDone events w.0 (dispatch_events (on_postgres outside) cfg events r w).1.0
  unfolding dispatch_events LeavesDone
  dispatch_events-LeavesDone [] r w serves runs positive distinct claimed = (tt, λ x m a. m)
  dispatch_events-LeavesDone (event ∷ events) r w serves runs positive distinct claimed =
      let next = dispatch_event (on_postgres outside) cfg event r w in
      let outcome = (publish_event_with_retry (on_postgres outside) cfg event w).0 in
      let (row, claim) = claimed.0 in
      let settled =
        dispatch_event-Settled outside cfg tn filter event r w row serves claim positive in
      let rest =
        dispatch_events-LeavesDone events next.0 next.1 serves runs positive distinct.1
          (AllClaimed-kept w.0 next.1.0 event events outcome settled distinct.0 claimed.1) in
      subst (λ (o : DispatchResult × (Table × L)). LeavesDone (event ∷ events) w.0 o.1.0)
        (sym (dispatch_events-step event events r w (runs w.1)))
        (
          (
            IsDone-kept next.1.0 _ event events rest.1 distinct.0
                (Settled-IsDone w.0 next.1.0 event outcome settled),
            rest.0,
          ),
          λ x m a. rest.1 x (settled.1 x m a.0) a.1,
        )

-- The dispatch of a batch of distinct events that are being processed, in sessions that serve their
-- tenant and in a context that does not end, leaves none of them in processing: every one of them has a
-- row that is PUBLISHED, FAILED or INVALID. The rows of other events stay as they were.
pub dispatch_events-IsDone :
    {L X : Type 0} (outside : Outside L X) (cfg : DispatcherConfig) (tn : Runes)
    (filter : Row → Bool) (events : List OutboxEvent) (r : DispatchResult) (w : Table × L)
    → ((l : L) → Serves (outside.session l) tn filter)
    → ((l : L) → outside.context_done l ≡ false)
    → cfg.max_dispatch_attempts ≢ 0
    → Distinct events
    → AllClaimed filter w.0 events
    → let after = (dispatch_events (on_postgres outside) cfg events r w).1.0 in
      All (IsDone after) events
      × ((x : Row) → In x w.0 → All (λ e. x.event.id ≢ e.id) events → In x after)
unfolding LeavesDone
dispatch_events-IsDone outside cfg tn filter events r w serves runs positive distinct claimed =
    dispatch_events-LeavesDone outside cfg tn filter events r w serves runs positive distinct
      claimed
