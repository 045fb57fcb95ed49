-- ===== src/Outbox/Config.antt =====
-- commons/outbox/config.go: DispatcherConfig with its defaults and normalize. A count or a duration
-- (nanoseconds) is a natural number: where the code asks `<= 0`, 0 stands for every such value.
-- validate, which refuses negative retentions, has nothing to refuse then and is left out, and so are
-- the meter provider and the options.
use lib_commons.Base.{ℕ, ◌*◌, ◌^◌, Bool, not, ◌||◌, List, [], ◌==◌, ltb, if◌then◌else◌}
use lib_commons.Base.Runes.{Runes}

pub record DispatcherConfig : Type 0 where
  pub dispatch_interval : ℕ
  pub cold_dispatch_interval : ℕ
  pub batch_size : ℕ
  pub publish_max_attempts : ℕ
  pub publish_backoff : ℕ
  pub list_pending_failure_threshold : ℕ
  pub retry_window : ℕ
  pub max_dispatch_attempts : ℕ
  pub processing_timeout : ℕ
  pub priority_budget : ℕ
  pub max_failed_per_batch : ℕ
  pub priority_event_types : List Runes
  pub include_tenant_metrics : Bool
  pub max_tenant_metric_dimensions : ℕ
  pub max_tracked_list_pending_failure_tenants : ℕ
  pub retention_published : ℕ
  pub retention_invalid : ℕ
  pub retention_sweep_interval : ℕ
  pub retention_batch_size : ℕ

abbrev pub second : ℕ
second = 10 ^ 9

abbrev pub default_publish_max_attempts : ℕ
default_publish_max_attempts = 3

abbrev pub default_publish_backoff : ℕ
default_publish_backoff = 200 * 10 ^ 6

abbrev pub default_dispatcher_config : DispatcherConfig
default_dispatcher_config = record {
  dispatch_interval = 2 * second;
  cold_dispatch_interval = 60 * second;
  batch_size = 50;
  publish_max_attempts = default_publish_max_attempts;
  publish_backoff = default_publish_backoff;
  list_pending_failure_threshold = 3;
  retry_window = 300 * second;
  max_dispatch_attempts = 10;
  processing_timeout = 600 * second;
  priority_budget = 10;
  max_failed_per_batch = 25;
  priority_event_types = [];
  include_tenant_metrics = Bool.false;
  max_tenant_metric_dimensions = 1000;
  max_tracked_list_pending_failure_tenants = 4096;
  retention_published = 0;
  retention_invalid = 0;
  retention_sweep_interval = 0;
  retention_batch_size = 0;
}

-- `if value <= 0 { value = fallback }`
abbrev pub or_default : ℕ → ℕ → ℕ
or_default value fallback = if value == 0 then fallback else value

-- The longer of the cold interval and the interval, once both are set.
abbrev pub at_least : ℕ → ℕ → ℕ
at_least cold interval = if ltb cold interval then interval else cold

unfoldable pub retention_enabled : DispatcherConfig → Bool
retention_enabled cfg = ltb 0 cfg.retention_published || ltb 0 cfg.retention_invalid

unfoldable pub normalize_retention : DispatcherConfig → DispatcherConfig
normalize_retention cfg = if not (retention_enabled cfg) then cfg else record cfg {
  retention_sweep_interval = or_default cfg.retention_sweep_interval (3600 * second);
  retention_batch_size = or_default cfg.retention_batch_size 500;
}

unfoldable pub normalize : DispatcherConfig → DispatcherConfig
normalize cfg =
    let defaults = default_dispatcher_config in
    let interval = or_default cfg.dispatch_interval defaults.dispatch_interval in
    let cold = or_default cfg.cold_dispatch_interval defaults.cold_dispatch_interval in
    normalize_retention (record cfg {
      dispatch_interval = interval;
      cold_dispatch_interval = at_least cold interval;
      batch_size = or_default cfg.batch_size defaults.batch_size;
      publish_max_attempts = or_default cfg.publish_max_attempts defaults.publish_max_attempts;
      publish_backoff = or_default cfg.publish_backoff defaults.publish_backoff;
      list_pending_failure_threshold =
          or_default cfg.list_pending_failure_threshold defaults.list_pending_failure_threshold;
      retry_window = or_default cfg.retry_window defaults.retry_window;
      max_dispatch_attempts = or_default cfg.max_dispatch_attempts defaults.max_dispatch_attempts;
      processing_timeout = or_default cfg.processing_timeout defaults.processing_timeout;
      priority_budget = or_default cfg.priority_budget defaults.priority_budget;
      max_failed_per_batch = or_default cfg.max_failed_per_batch defaults.max_failed_per_batch;
      max_tenant_metric_dimensions =
          or_default cfg.max_tenant_metric_dimensions defaults.max_tenant_metric_dimensions;
      max_tracked_list_pending_failure_tenants =
          or_default cfg.max_tracked_list_pending_failure_tenants
            defaults.max_tracked_list_pending_failure_tenants;
    })
