-- ===== src/Outbox/Dispatcher.antt =====
-- commons/outbox/dispatcher.go. A world W is all that a dispatch acts on: the repository's store, what
-- handlers and callbacks reach, the clock and the contexts. The Environment is what the dispatcher was
-- given and acts through. The Dispatcher is its own state. Logs, spans and the metrics themselves are
-- left out. The children follow the file: Publish (one event), Failures (the counters of failed
-- listings and the tenant labels), Collect (the events of a cycle), Cycle (DispatchOnceResult), Scopes
-- (which tenants are due, and in which order), Retention and Tenants (a tick over all
-- tenants).
pub mod Publish
pub mod Failures
pub mod Collect
pub mod Cycle
pub mod Scopes
pub mod Retention
pub mod Tenants
use lib_commons.Base.{
  ℕ, ◌≡◌, refl, ap, ◌↔◌, Bool, true, false, ◌&&◌, List, [], ◌∷◌, Option, none, arith,
}
use lib_commons.Base.Result.{Result, ok, err}
use lib_commons.Base.Runes.{Runes, same_text, same_text_iff}
use lib_commons.Base.Assoc.{Key}
use lib_commons.Backoff.{Draw}
use lib_commons.Outbox.Repository.{OutboxEvent, RepositoryError}
use lib_commons.Outbox.Config.{DispatcherConfig}
use lib_commons.Outbox.Handlers.{HandlerRegistry, PublishError}

-- A repository answers no nil event, and no events with an error.
pub record Environment (W X : Type 0) : Type 0 where
  pub list_pending : ℕ → W → Result RepositoryError (List OutboxEvent) × W
  pub list_pending_by_type : Runes → ℕ → W → Result RepositoryError (List OutboxEvent) × W
  -- MultiTypePendingRepository, if the repository is one.
  pub list_pending_by_types :
      Option (List Runes → ℕ → W → Result RepositoryError (List OutboxEvent) × W)
  pub reset_for_retry : ℕ → ℕ → ℕ → W → Result RepositoryError (List OutboxEvent) × W
  pub reset_stuck_processing : ℕ → ℕ → ℕ → W → Result RepositoryError (List OutboxEvent) × W
  -- StuckReclaimer, if the repository is one.
  pub reclaim_stuck_processing :
      Option (ℕ → ℕ → ℕ → W → Result RepositoryError (List OutboxEvent × List OutboxEvent) × W)
  pub mark_published : ℕ → ℕ → W → Result RepositoryError (Unit {0}) × W
  pub mark_failed : ℕ → Runes → ℕ → W → Result RepositoryError (Unit {0}) × W
  pub mark_invalid : ℕ → Runes → W → Result RepositoryError (Unit {0}) × W
  pub handlers : HandlerRegistry W X
  pub is_non_retryable : PublishError X → Bool
  pub error_text : PublishError X → Runes
  pub redact : Runes → Runes
  pub random : W → Draw
  -- WaitContext: the context's error, if it ended.
  pub wait : ℕ → W → Option X × W
  pub context_done : W → Bool
  pub now : W → ℕ
  pub on_invalid : Option (OutboxEvent → PublishError X → W → W)
  pub on_failed : Option (OutboxEvent → PublishError X → W → W)

-- TenantDispatchScope.
pub record Scope : Type 0 where
  pub tenant_id : Runes
  pub pool_key : Runes

-- `==` of the two strings.
unfoldable pub same_scope : Scope → Scope → Bool
same_scope a b = same_text a.tenant_id b.tenant_id && same_text a.pool_key b.pool_key

pub same_scope_iff : (a b : Scope) → (same_scope a b ≡ true) ↔ (a ≡ b)
unfolding same_scope
same_scope_iff a b =
    ground (arith, same_text_iff a.tenant_id b.tenant_id, same_text_iff a.pool_key b.pool_key)

-- A TenantDispatchScope as a key of a map.
instance abbrev pub scope_key : Key Scope
scope_key = record { same = same_scope; same_iff = same_scope_iff }

-- The zero time is `none`.
pub record ScopeActivity : Type 0 where
  pub last_work_at : Option ℕ
  pub next_poll_at : Option ℕ

pub record Dispatcher : Type 0 where
  pub cfg : DispatcherConfig
  pub list_pending_failure_counts : List (Runes × ℕ)
  pub tenant_metric_keys : List (Runes × Unit {0})
  pub scope_activity : List (Scope × ScopeActivity)
  pub retention_swept_at : List (Scope × ℕ)
  pub retention_pruned_at : Option ℕ
  pub retention_listed_at : Option ℕ
  pub running : Bool
  pub stopped : Bool  -- whether the channel `stop` is closed
  pub tenant_turn : ℕ

-- "_default"
abbrev pub default_tenant_failure_counter_fallback : Runes
default_tenant_failure_counter_fallback = 95 ∷ 100 ∷ 101 ∷ 102 ∷ 97 ∷ 117 ∷ 108 ∷ 116 ∷ []
