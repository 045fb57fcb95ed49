-- ===== src/Outbox/Dispatcher/Tenants/Framed.antt =====
-- What a cycle and a sweep of commons/outbox/dispatcher.go leave alone: the schedule of the scopes and
-- the turn.
use lib_commons.Base.{
  ℕ, ◌-◌, ◌≡◌, refl, ◌∙◌, Bool, true, false, ◌&&◌, ◌||◌, not, List, [], ◌∷◌, Option, none, some,
  length, ◌==◌, ltb, if-cases,
}
use lib_commons.Base.Result.{Result, ok, err}
use lib_commons.Base.Runes.{Runes, is_empty_text, same_text, text_key}
use lib_commons.Base.Assoc.{find}
use lib_commons.Outbox.Repository.{OutboxEvent, RepositoryError}
use lib_commons.Outbox.Handlers.{is_taken}
use lib_commons.Outbox.Dispatcher.{
  Environment, Dispatcher, Scope, scope_key, default_tenant_failure_counter_fallback,
}
use lib_commons.Outbox.Dispatcher.Failures.{
  handle_list_pending_error, clear_list_pending_failure_count, bounded_tenant_metric_key,
  tenant_metric_attribute, metric_key,
}
use lib_commons.Outbox.Dispatcher.Collect.{
  min, is_nil, is_scoped, after_list_pending, collect_pending, collect_failed, collect_stuck,
  collect_events,
}
use lib_commons.Outbox.Dispatcher.Cycle.{dispatch_once_result}
use lib_commons.Outbox.Dispatcher.Retention.{
  RetentionTarget, is_aged, grant, claim_retention_sweep, has_none, sweep_claimed, sweep_retention,
  sweep_tenants, sweep_listing, sweep_listed, sweep_listed_by, sweep_listed_tenants,
}

-- The same schedule and the same turn.
abbrev pub Framed : Dispatcher → Dispatcher → Type 0
Framed d e = (e.scope_activity ≡ d.scope_activity) × (e.tenant_turn ≡ d.tenant_turn)

clear-Framed :
    (d : Dispatcher) (tenant_key : Runes) → Framed d (clear_list_pending_failure_count d tenant_key)
unfolding clear_list_pending_failure_count
clear-Framed d tenant_key =
    if-cases (Framed d)
      (is_empty_text tenant_key
        || same_text tenant_key default_tenant_failure_counter_fallback
        || not (is_taken (find tenant_key d.list_pending_failure_counts)))
      _ _ (λ h. (refl, refl)) (λ h. (refl, refl))

handle-Framed :
    (d : Dispatcher) (tenant_key : Runes) → Framed d (handle_list_pending_error d tenant_key).0
unfolding handle_list_pending_error
handle-Framed d tenant_key = (refl, refl)

tenant_metric_attribute-Framed :
    (d : Dispatcher) (tenant_key : Runes) → Framed d (tenant_metric_attribute d tenant_key)
unfolding tenant_metric_attribute bounded_tenant_metric_key
tenant_metric_attribute-Framed d tenant_key =
    if-cases (Framed d) d.cfg.include_tenant_metrics _ _
      (λ h.
        if-cases (λ (o : Dispatcher × Runes). Framed d o.0)
          (is_taken (find (metric_key tenant_key) d.tenant_metric_keys)) _ _ (λ k. (refl, refl))
          (λ k.
            if-cases (λ (o : Dispatcher × Runes). Framed d o.0)
              (ltb (length d.tenant_metric_keys) d.cfg.max_tenant_metric_dimensions) _ _
              (λ j. (refl, refl)) (λ j. (refl, refl))))
      (λ h. (refl, refl))

module _ {W X : Type 0} (env : Environment W X) (tenant_key : Runes) where
  abbrev Collected : Type 0
  Collected = List OutboxEvent × Dispatcher × W

  after_list_pending-Framed :
      (d : Dispatcher) (collected : List OutboxEvent)
      (r : Result RepositoryError (List OutboxEvent) × W)
      → Framed d (after_list_pending env d tenant_key collected r).1
  after_list_pending-Framed d collected (err e, w) = handle-Framed d tenant_key
  after_list_pending-Framed d collected (ok es, w) = clear-Framed d tenant_key

  collect_pending-Framed :
      (d : Dispatcher) (collected : List OutboxEvent) (w : W)
      → Framed d (collect_pending env d tenant_key collected w).1
  unfolding collect_pending
  collect_pending-Framed d collected w =
      if-cases (λ (o : Collected). Framed d o.1) (d.cfg.batch_size - length collected == 0) _ _
        (λ h. (refl, refl)) (λ h. after_list_pending-Framed d collected _)

  collect_failed-Framed :
      (d : Dispatcher) (before : ℕ) (collected : List OutboxEvent) (w : W)
      → Framed d (collect_failed env d tenant_key before collected w).1
  unfolding collect_failed
  collect_failed-Framed d before collected w =
      if-cases (λ (o : Collected). Framed d o.1)
        (min (d.cfg.batch_size - length collected) d.cfg.max_failed_per_batch == 0) _ _
        (λ h. (refl, refl)) (λ h. collect_pending-Framed d _ _)

  collect_stuck-Framed :
      (d : Dispatcher) (failed_before before : ℕ) (priority : List OutboxEvent) (w : W)
      → Framed d (collect_stuck env d tenant_key failed_before before priority w).1
  unfolding collect_stuck
  collect_stuck-Framed d failed_before before priority w =
      if-cases (λ (o : Collected). Framed d o.1) (d.cfg.batch_size - length priority == 0) _ _
        (λ h. (refl, refl)) (λ h. collect_failed-Framed d failed_before _ _)

  collect_events-Framed : (d : Dispatcher) (w : W) → Framed d (collect_events env d tenant_key w).1
  unfolding collect_events
  collect_events-Framed d w =
      if-cases (λ (o : Collected). Framed d o.1)
        (is_scoped env && not (is_nil d.cfg.priority_event_types)) _ _ (λ h. (refl, refl))
        (λ h. collect_stuck-Framed d _ _ _ _)

  pub dispatch_once_result-Framed :
      (d : Dispatcher) (w : W) → Framed d (dispatch_once_result env d tenant_key w).1
  unfolding dispatch_once_result
  dispatch_once_result-Framed d w =
      let collected = collect_events env d tenant_key w in
      let first = collect_events-Framed d w in
      let later = tenant_metric_attribute-Framed collected.1 tenant_key in
      (later.0 ∙ first.0, later.1 ∙ first.1)

claim_retention_sweep-Framed :
    (d : Dispatcher) (scope : Scope) (now : ℕ) → Framed d (claim_retention_sweep d scope now).0
unfolding claim_retention_sweep grant
claim_retention_sweep-Framed d scope now =
    if-cases (λ (o : Dispatcher × Bool). Framed d o.0)
      (is_aged d.cfg.retention_sweep_interval now (find scope d.retention_swept_at)) _ _
      (λ h.
        if-cases (Framed d) (is_aged d.cfg.retention_sweep_interval now d.retention_pruned_at) _ _
          (λ k. (refl, refl)) (λ k. (refl, refl)))
      (λ h. (refl, refl))

module _ {W : Type 0} (context_done : W → Bool) (enter : Runes → W → W) (leave : W → W)
    (targets : List (RetentionTarget W)) where
  sweep_claimed-Framed :
      (d : Dispatcher) (now : ℕ) (claimed : Dispatcher × Bool) (w : W)
      → Framed d claimed.0
      → Framed d (sweep_claimed context_done enter targets now claimed w).0
  sweep_claimed-Framed d now (e, false) w h = h
  sweep_claimed-Framed d now (e, true) w h = h

  pub sweep_retention-Framed :
      (d : Dispatcher) (scope : Scope) (now : ℕ) (w : W)
      → Framed d (sweep_retention context_done enter targets d scope now w).0
  unfolding sweep_retention
  sweep_retention-Framed d scope now w =
      if-cases (λ (o : Dispatcher × W). Framed d o.0)
        (has_none context_done enter targets || context_done w) _ _ (λ h. (refl, refl))
        (λ h.
          sweep_claimed-Framed d now (claim_retention_sweep d scope now) w
            (claim_retention_sweep-Framed d scope now))

  sweep_tenants-Framed :
      (d : Dispatcher) (now : ℕ) (ts : List Runes) (w : W)
      → Framed d (sweep_tenants context_done enter leave targets d now ts w).0
  unfolding sweep_tenants
  sweep_tenants-Framed d now [] w = (refl, refl)
  sweep_tenants-Framed d now (t ∷ ts) w =
      let scope : Scope = record { tenant_id = t; pool_key = [] } in
      let swept = sweep_retention context_done enter targets d scope now (enter t w) in
      let first = sweep_retention-Framed d scope now (enter t w) in
      let later = sweep_tenants-Framed swept.0 now ts (leave swept.1) in
      (later.0 ∙ first.0, later.1 ∙ first.1)

  sweep_listing-Framed :
      (d : Dispatcher) (now : ℕ) (r : Result RepositoryError (List Runes) × W)
      → Framed d (sweep_listing context_done enter leave targets d now r).0
  sweep_listing-Framed d now (err e, w) = (refl, refl)
  sweep_listing-Framed d now (ok tenants, w) = sweep_tenants-Framed d now tenants w

  sweep_listed-Framed :
      (d : Dispatcher) (now window : ℕ)
      (list : Option (ℕ → W → Result RepositoryError (List Runes) × W)) (w : W)
      → Framed d (sweep_listed context_done enter leave targets d now window list w).0
  sweep_listed-Framed d now window none w = (refl, refl)
  sweep_listed-Framed d now window (some list) w =
      sweep_listing-Framed d now (list (now - window) w)

  sweep_listed_by-Framed :
      (rest : List (RetentionTarget W)) (d : Dispatcher) (now : ℕ) (w : W)
      → Framed d (sweep_listed_by context_done enter leave targets rest d now w).0
  unfolding sweep_listed_by
  sweep_listed_by-Framed [] d now w = (refl, refl)
  sweep_listed_by-Framed (target ∷ rest) d now w =
      let swept = sweep_listed context_done enter leave targets d now target.window target.list w in
      let first = sweep_listed-Framed d now target.window target.list w in
      let later = sweep_listed_by-Framed rest swept.0 now swept.1 in
      (later.0 ∙ first.0, later.1 ∙ first.1)

  pub sweep_listed_tenants-Framed :
      (d : Dispatcher) (now : ℕ) (w : W)
      → Framed d (sweep_listed_tenants context_done enter leave targets d now w).0
  unfolding sweep_listed_tenants
  sweep_listed_tenants-Framed d now w =
      if-cases (λ (o : Dispatcher × W). Framed d o.0)
        (has_none context_done enter targets || context_done w) _ _ (λ h. (refl, refl))
        (λ h.
          if-cases (λ (o : Dispatcher × W). Framed d o.0)
            (is_aged d.cfg.retention_sweep_interval now d.retention_listed_at) _ _
            (λ k.
              sweep_listed_by-Framed targets (record d { retention_listed_at = some now }) now w)
            (λ k. (refl, refl)))
