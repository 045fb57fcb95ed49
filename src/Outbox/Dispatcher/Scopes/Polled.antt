-- ===== src/Outbox/Dispatcher/Scopes/Polled.antt =====
-- recordScopeActivity and shouldDispatchScope of commons/outbox/dispatcher.go: when a scope is due.
use lib_commons.Base.{
  ℕ, ◌+◌, ◌≤◌, ◌<◌, ◌≡◌, ◌≢◌, ap, ◌↔◌, inl, inr, true, false, Option, none, some, Bool-cases, leb,
  ltb, arith,
}
use lib_commons.Base.Assoc.{find, find-put_self, find-put_other}
use lib_commons.Outbox.Config.{DispatcherConfig}
use lib_commons.Outbox.Dispatcher.{
  Dispatcher, Scope, ScopeActivity, same_scope, same_scope_iff, scope_key,
}
use lib_commons.Outbox.Dispatcher.Cycle.{DispatchResult}
use lib_commons.Outbox.Dispatcher.Scopes.{
  worked_at, poll_interval, activity_of, is_due, should_dispatch_scope, record_scope_activity,
}

differs : (a b : Scope) → a ≢ b → same_scope a b ≡ false
differs a b h = elim (Bool-cases (same_scope a b)) [
  | inl e ↦ absurd (h ((same_scope_iff a b).0 e))
  | inr e ↦ e
]

poll_interval_cold :
    (cfg : DispatcherConfig) (worked : Option ℕ) (now : ℕ)
    → cfg.dispatch_interval ≤ cfg.cold_dispatch_interval
    → poll_interval cfg worked now ≤ cfg.cold_dispatch_interval
poll_interval_cold cfg none now h = omega arith
poll_interval_cold cfg (some at) now h = ground (arith, h)

at_busy :
    (cfg : DispatcherConfig) (activity : ScopeActivity) (result : DispatchResult) (now later : ℕ)
    → 0 < cfg.cold_dispatch_interval
    → 0 < result.processed
    → (leb (now + poll_interval cfg (worked_at activity result now) now) later ≡ true)
      ↔ (now + cfg.dispatch_interval ≤ later)
at_busy cfg activity result now later positive busy = elim (Bool-cases (ltb 0 result.processed)) [
  | inl e ↦ rw (e) (ground (arith, positive))
  | inr e ↦ ground (arith, busy, e)
]

polled :
    (d : Dispatcher) (scope : Scope) (result : DispatchResult) (now later : ℕ)
    → let worked = worked_at (activity_of (find scope d.scope_activity)) result now in
      should_dispatch_scope (record_scope_activity d scope result now) scope later
      ≡ leb (now + poll_interval d.cfg worked now) later
unfolding should_dispatch_scope record_scope_activity
polled d scope result now later = ap (λ o. is_due o later) (find-put_self scope _ d.scope_activity)

-- A cycle of a scope at `now` that processed an event makes the scope due again after the dispatch
-- interval, and not before; one that processed none does so after the cold interval at the latest. The
-- other scopes are due as they were.
pub record_scope_activity_polls :
    (d : Dispatcher) (scope other : Scope) (result : DispatchResult) (now later : ℕ)
    → 0 < d.cfg.cold_dispatch_interval
    → d.cfg.dispatch_interval ≤ d.cfg.cold_dispatch_interval
    → (0 < result.processed
        → (should_dispatch_scope (record_scope_activity d scope result now) scope later ≡ true)
          ↔ (now + d.cfg.dispatch_interval ≤ later))
      × (now + d.cfg.cold_dispatch_interval ≤ later
          → should_dispatch_scope (record_scope_activity d scope result now) scope later ≡ true)
      × (scope ≢ other
          → should_dispatch_scope (record_scope_activity d scope result now) other later
            ≡ should_dispatch_scope d other later)
unfolding should_dispatch_scope record_scope_activity
record_scope_activity_polls d scope other result now later positive shorter =
    let worked = worked_at (activity_of (find scope d.scope_activity)) result now in
    let due = polled d scope result now later in
    (
      λ busy. rw (due) (
          at_busy d.cfg (activity_of (find scope d.scope_activity)) result now later positive busy),
      λ late. rw (due) (ground (arith, poll_interval_cold d.cfg worked now shorter, late)),
      λ apart.
          ap (λ o. is_due o later)
            (find-put_other scope other _ d.scope_activity (differs scope other apart)),
    )
