-- ===== src/Outbox/Dispatcher/Tenants.antt =====
-- commons/outbox/dispatcher.go: a tick of the dispatcher, dispatchAcrossTenants. A world has a context;
-- the loop enters one for each tenant and leaves it again. The Tenancy is what the repository says of
-- its tenants.
pub mod Framed
pub mod Remembered
use lib_commons.Base.{ℕ, Bool, true, not, List, [], ◌∷◌, Option, none, some, if◌then◌else◌}
use lib_commons.Base.Result.{Result, ok, err}
use lib_commons.Base.Runes.{Runes, is_empty_text}
use lib_commons.Outbox.Repository.{RepositoryError}
use lib_commons.Outbox.Dispatcher.{
  Environment, Dispatcher, Scope, default_tenant_failure_counter_fallback,
}
use lib_commons.Outbox.Dispatcher.Cycle.{dispatch_once_result}
use lib_commons.Outbox.Dispatcher.Scopes.{
  normalize_tenant_dispatch_scopes, reconcile_scope_activity, tenant_dispatch_scope_order,
  should_dispatch_scope, record_scope_activity,
}
use lib_commons.Outbox.Dispatcher.Retention.{RetentionTarget, sweep_retention, sweep_listed_tenants}

pub record Tenancy (W : Type 0) : Type 0 where
  -- TenantDispatchScopeRepository, if the repository is one.
  pub list_tenant_dispatch_scopes : Option (W → Result RepositoryError (List Scope) × W)
  pub enter_scope : Scope → W → W
  pub list_tenants : W → Result RepositoryError (List Runes) × W
  -- RequiresTenant, if the repository reports it.
  pub requires_tenant : Option (W → Bool)
  -- TenantIDFromContext and ContextWithTenantID.
  pub context_tenant : W → Option Runes
  pub enter : Runes → W → W
  pub leave : W → W

abbrev tenant_key_of : Option Runes → Runes
tenant_key_of none = default_tenant_failure_counter_fallback
tenant_key_of (some t) = if is_empty_text t then default_tenant_failure_counter_fallback else t

module _ {W X : Type 0} (env : Environment W X) (tenancy : Tenancy W)
    (targets : List (RetentionTarget W)) where
  unfoldable pub tenant_key_from_context : W → Runes
  tenant_key_from_context w = tenant_key_of (tenancy.context_tenant w)

  abbrev pub scopes_of : Result RepositoryError (List Runes) → Result RepositoryError (List Scope)
  scopes_of (err e) = err e
  scopes_of (ok tenants) = ok (as_scopes tenants)
    where
      as_scopes : List Runes → List Scope
      as_scopes [] = []
      as_scopes (t ∷ ts) = record { tenant_id = t; pool_key = [] } ∷ as_scopes ts

  abbrev pub list_scopes :
      Option (W → Result RepositoryError (List Scope) × W)
      → W
      → Result RepositoryError (List Scope) × W
  list_scopes (some list) w = list w
  list_scopes none w = let listed = tenancy.list_tenants w in (scopes_of listed.0, listed.1)

  -- The context of a scope: the repository's, then the tenant's identity.
  abbrev pub enter_tenant : Option (W → Result RepositoryError (List Scope) × W) → Scope → W → W
  enter_tenant none scope w = tenancy.enter scope.tenant_id w
  enter_tenant (some list) scope w = tenancy.enter scope.tenant_id (tenancy.enter_scope scope w)

  -- One scope that is due at `now`.
  unfoldable pub dispatch_scope : Dispatcher → Scope → ℕ → W → Dispatcher × W
  dispatch_scope d scope now w =
      let inside = enter_tenant tenancy.list_tenant_dispatch_scopes scope w in
      let done = dispatch_once_result env d (tenant_key_from_context inside) inside in
      let noted = record_scope_activity done.1 scope done.0 now in
      let swept = sweep_retention env.context_done tenancy.enter targets noted scope now done.2 in
      (swept.0, tenancy.leave swept.1)

  -- The loop over the scopes; a context that ended stops it.
  unfoldable pub dispatch_scopes : List Scope → Dispatcher → W → Dispatcher × W
  dispatch_scopes [] d w = (d, w)
  dispatch_scopes (scope ∷ scopes) d w =
      let next = dispatch_scope d scope (env.now w) w in
      let skipped = dispatch_scopes scopes d w in
      let rest = dispatch_scopes scopes next.0 next.1 in
      if env.context_done w
      then (d, w)
      else (if not (should_dispatch_scope d scope (env.now w)) then skipped else rest)

  -- A cycle without a tenant of the list, and the sweep of its scope.
  unfoldable pub dispatch_in_context : Dispatcher → Scope → W → Dispatcher × W
  dispatch_in_context d scope w =
      let done = dispatch_once_result env d (tenant_key_from_context w) w in
      sweep_retention env.context_done tenancy.enter targets done.1 scope (env.now done.2) done.2

  abbrev pub is_required : Option (W → Bool) → W → Bool
  is_required none w = true
  is_required (some reported) w = reported w

  abbrev pub text_of : Option Runes → Runes
  text_of none = []
  text_of (some t) = t

  unfoldable pub dispatch_without_discovered_tenant : Dispatcher → W → Dispatcher × W
  dispatch_without_discovered_tenant d w =
      let tenant = text_of (tenancy.context_tenant w) in
      let own : Scope = record { tenant_id = tenant; pool_key = [] } in
      if not (is_empty_text tenant)
      then dispatch_in_context d own w
      else (if is_required tenancy.requires_tenant w
          then (d, w)
          else dispatch_in_context d (record { tenant_id = []; pool_key = [] }) w)

  unfoldable pub dispatch_ordered : List Scope → Dispatcher → W → Dispatcher × W
  dispatch_ordered [] d w = dispatch_without_discovered_tenant d w
  dispatch_ordered (scope ∷ scopes) d w = dispatch_scopes (scope ∷ scopes) d w

  abbrev pub after_listing : Dispatcher → Result RepositoryError (List Scope) × W → Dispatcher × W
  after_listing d (err e, w) = (d, w)
  after_listing d (ok scopes, w) =
      let normalized = normalize_tenant_dispatch_scopes scopes in
      let ordered =
        tenant_dispatch_scope_order (reconcile_scope_activity d normalized) normalized in
      let done = dispatch_ordered ordered.0 ordered.1 w in
      sweep_listed_tenants env.context_done tenancy.enter tenancy.leave targets done.0
        (env.now done.1) done.1

  unfoldable pub dispatch_across_tenants : Dispatcher → W → Dispatcher × W
  dispatch_across_tenants d w =
      if env.context_done w
      then (d, w)
      else after_listing d (list_scopes tenancy.list_tenant_dispatch_scopes w)
