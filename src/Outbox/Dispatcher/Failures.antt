-- ===== src/Outbox/Dispatcher/Failures.antt =====
-- commons/outbox/dispatcher.go: the counters of failed listings, one for each tenant up to a bound
-- and one for all others, and the labels that the metrics may use for tenants.
pub mod Bounded
use lib_commons.Base.{
  ℕ, suc, ◌+◌, Bool, true, false, ◌||◌, not, ◌&&◌, List, [], ◌∷◌, Option, none, some, length, leb,
  ltb, if◌then◌else◌,
}
use lib_commons.Base.Runes.{Runes, is_empty_text, same_text, text_key}
use lib_commons.Base.Assoc.{find, put, drop_key}
use lib_commons.Outbox.Handlers.{is_taken}
use lib_commons.Outbox.Dispatcher.{Dispatcher, default_tenant_failure_counter_fallback}

abbrev fallback : Runes
fallback = default_tenant_failure_counter_fallback

-- "_other"
abbrev pub overflow_tenant_metric_label : Runes
overflow_tenant_metric_label = 95 ∷ 111 ∷ 116 ∷ 104 ∷ 101 ∷ 114 ∷ []

-- A map read at a missing key is 0.
abbrev count_of : Option ℕ → ℕ
count_of none = 0
count_of (some n) = n

-- The key under which a failure of the tenant is counted.
unfoldable pub counter_tenant_key : Dispatcher → Runes → Runes
counter_tenant_key d tenant_key =
    let most = d.cfg.max_tracked_list_pending_failure_tenants in
    if leb most 1
    then fallback
    else (if not (is_taken (find tenant_key d.list_pending_failure_counts))
          && leb most (length d.list_pending_failure_counts)
        then fallback
        else tenant_key)

-- handleListPendingError; the Boolean says whether the failures exceed the threshold, which the code
-- reports in its log.
unfoldable pub handle_list_pending_error : Dispatcher → Runes → Dispatcher × Bool
handle_list_pending_error d tenant_key =
    let key = counter_tenant_key d tenant_key in
    let count = count_of (find key d.list_pending_failure_counts) + 1 in
    (
      record d { list_pending_failure_counts = put key count d.list_pending_failure_counts },
      leb d.cfg.list_pending_failure_threshold count,
    )

unfoldable pub clear_list_pending_failure_count : Dispatcher → Runes → Dispatcher
clear_list_pending_failure_count d tenant_key =
    if is_empty_text tenant_key
      || same_text tenant_key fallback
      || not (is_taken (find tenant_key d.list_pending_failure_counts))
    then record d { list_pending_failure_counts = put fallback 0 d.list_pending_failure_counts }
    else record d {
      list_pending_failure_counts = drop_key tenant_key d.list_pending_failure_counts;
    }

unfoldable pub ensure_failure_counter_fallback : Dispatcher → Dispatcher
ensure_failure_counter_fallback d = record d {
  list_pending_failure_counts = put fallback 0 d.list_pending_failure_counts;
}

abbrev pub metric_key : Runes → Runes
metric_key tenant_key = if is_empty_text tenant_key then fallback else tenant_key

unfoldable pub bounded_tenant_metric_key : Dispatcher → Runes → Dispatcher × Runes
bounded_tenant_metric_key d tenant_key =
    let key = metric_key tenant_key in
    if is_taken (find key d.tenant_metric_keys)
    then (d, key)
    else (if ltb (length d.tenant_metric_keys) d.cfg.max_tenant_metric_dimensions
        then (record d { tenant_metric_keys = put key tt d.tenant_metric_keys }, key)
        else (d, overflow_tenant_metric_label))

-- What recording a metric of a tenant leaves; all metrics of a cycle carry the same tenant, so that
-- the later ones change nothing more.
unfoldable pub tenant_metric_attribute : Dispatcher → Runes → Dispatcher
tenant_metric_attribute d tenant_key =
    if d.cfg.include_tenant_metrics then (bounded_tenant_metric_key d tenant_key).0 else d
