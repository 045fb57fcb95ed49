-- ===== src/Outbox/Dispatcher/Scopes.antt =====
-- commons/outbox/dispatcher.go: which tenant scopes a cycle visits, in which order, and when.
-- `now.Sub(t) < interval` is `now < t + interval`.
pub mod Turn
pub mod Listed
pub mod Polled
use mathlib.Core.Option
use lib_commons.Base.{
  ℕ, zero, suc, ◌+◌, ◌%◌, Bool, true, false, ◌||◌, not, List, [], ◌∷◌, ◌++◌, Option, none, some,
  length, take, leb, ltb, if◌then◌else◌,
}
use lib_commons.Base.Runes.{trim_space, is_empty_text}
use lib_commons.Base.Assoc.{find, put, retain}
use lib_commons.Outbox.Config.{DispatcherConfig}
use lib_commons.Outbox.Dispatcher.{Dispatcher, Scope, ScopeActivity, same_scope, scope_key}
use lib_commons.Outbox.Dispatcher.Cycle.{DispatchResult}

abbrev pub trimmed : Scope → Scope
trimmed s = record { tenant_id = trim_space s.tenant_id; pool_key = trim_space s.pool_key }

unfoldable pub is_among : Scope → List Scope → Bool
is_among s [] = false
is_among s (x ∷ xs) = same_scope x s || is_among s xs

-- The loop of normalizeTenantDispatchScopes, with the scopes seen so far.
unfoldable pub normalize_from : List Scope → List Scope → List Scope
normalize_from seen [] = []
normalize_from seen (raw ∷ raws) =
    let s = trimmed raw in
    let without = normalize_from seen raws in
    let with_it = s ∷ normalize_from (s ∷ seen) raws in
    if is_empty_text s.tenant_id || is_among s seen then without else with_it

unfoldable pub normalize_tenant_dispatch_scopes : List Scope → List Scope
normalize_tenant_dispatch_scopes scopes = normalize_from [] scopes

-- scopes[start:]
unfoldable pub drop : {A : Type 0} → ℕ → List A → List A
drop zero xs = xs
drop (suc n) [] = []
drop (suc n) (x ∷ xs) = drop n xs

unfoldable pub tenant_dispatch_scope_order : Dispatcher → List Scope → List Scope × Dispatcher
tenant_dispatch_scope_order d scopes =
    let start = d.tenant_turn % length scopes in
    if leb (length scopes) 1 then (scopes, d) else (
      drop start scopes ++ take start scopes,
      record d { tenant_turn = (d.tenant_turn + 1) % length scopes },
    )

-- reconcileScopeActivity: only listed scopes stay.
unfoldable pub reconcile_scope_activity : Dispatcher → List Scope → Dispatcher
reconcile_scope_activity d scopes = record d {
  scope_activity = retain (λ s activity. is_among s scopes) d.scope_activity;
}

-- Not before the next poll; the zero time is before every time.
abbrev pub is_due : Option ScopeActivity → ℕ → Bool
is_due none now = true
is_due (some activity) now = elim activity.next_poll_at [ none ↦ true | some at ↦ leb at now ]

unfoldable pub should_dispatch_scope : Dispatcher → Scope → ℕ → Bool
should_dispatch_scope d scope now = is_due (find scope d.scope_activity) now

-- A map read at a missing key: both times are zero.
abbrev pub activity_of : Option ScopeActivity → ScopeActivity
activity_of none = record { last_work_at = none; next_poll_at = none }
activity_of (some activity) = activity

abbrev pub is_hot : Option ℕ → ℕ → ℕ → Bool
is_hot none cold now = false
is_hot (some at) cold now = ltb now (at + cold)

abbrev pub worked_at : ScopeActivity → DispatchResult → ℕ → Option ℕ
worked_at activity result now = if ltb 0 result.processed then some now else activity.last_work_at

abbrev pub poll_interval : DispatcherConfig → Option ℕ → ℕ → ℕ
poll_interval cfg worked now =
    if is_hot worked cfg.cold_dispatch_interval now
    then cfg.dispatch_interval
    else cfg.cold_dispatch_interval

unfoldable pub record_scope_activity : Dispatcher → Scope → DispatchResult → ℕ → Dispatcher
record_scope_activity d scope result now =
    let worked = worked_at (activity_of (find scope d.scope_activity)) result now in
    let next = now + poll_interval d.cfg worked now in
    record d {
      scope_activity =
          put scope (record { last_work_at = worked; next_poll_at = some next }) d.scope_activity;
    }

-- Every next poll becomes the zero time.
unfoldable pub forget_polls : List (Scope × ScopeActivity) → List (Scope × ScopeActivity)
forget_polls [] = []
forget_polls ((s, activity) ∷ m) =
    (s, record { last_work_at = activity.last_work_at; next_poll_at = none }) ∷ forget_polls m

unfoldable pub reset_scope_poll_schedule : Dispatcher → Dispatcher
reset_scope_poll_schedule d = record d { scope_activity = forget_polls d.scope_activity }
