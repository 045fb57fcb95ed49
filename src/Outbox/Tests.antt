-- ===== src/Outbox/Tests.antt =====
-- Runs and theorems of commons/outbox at concrete inputs.
use lib_commons.Base.{
  ℕ, ◌≤◌, ◌≡◌, ◌≢◌, ap, refl, sym, ◌∙◌, ◌↔◌, inl, inr, Bool, true, false, List, [], ◌∷◌, none, some,
  In, All, take, ◌+◌, ◌<◌, arith, length, take,
}
use lib_commons.Base.Result.{ok, err}
use lib_commons.Base.Runes.{
  Runes, trim_space, trim_left, trim_right, is_empty_text, same_text, contains, has_prefix,
}
use lib_commons.Outbox.Status.{OutboxEventStatus, can_transition_to}
use OutboxEventStatus.{pending, processing, published, failed, invalid}
use lib_commons.Outbox.LastError.{
  append_error_cause, last_error_cause_budget, append_normalized, normalize_cause, fold_newlines,
  bound_error_cause, accumulate_cause, only_spaces,
}
use lib_commons.Outbox.LastError.Bounded.{append_error_cause_keeps}
use lib_commons.Outbox.Repository.{
  OutboxEvent, Row, Table, Session, RepositoryError, tenant_id_from_context, context_tenant_id,
  tenant_filter_clause, is_valid_tenant_id, is_tenant_id_alnum, tenant_id_rest, is_present,
}
use RepositoryError.{state_transition_conflict}
use lib_commons.Outbox.Repository.{
  run_tx, validate_transition, rows_affected, ensure_rows_affected_exact, update,
}
use lib_commons.Outbox.Repository.Select.{list_pending_rows, select, order_by, insert_by, matching}
use lib_commons.Outbox.Repository.Claim.{
  list_pending, pending_guards, claim, collect_event_ids, claim_ids, mark_events_processing,
  mark_events_with_status, update_ids, has_id, apply_processing_state,
}
use lib_commons.Outbox.Repository.Claim.Disjoint.{list_pending_disjoint}
use lib_commons.Outbox.Repository.Finish.{mark_failed, mark_published}
use lib_commons.Outbox.Repository.Finish.Recorded.{
  Serves, Claimed, mark_failed_records, mark_published_wins,
}
use lib_commons.Outbox.Repository.Lifecycle.{History, Fits}
use lib_commons.Outbox.Repository.Retention.{delete_aged_before}
use lib_commons.Outbox.Repository.Retention.Aged.{IsKeyed, IsPurge, delete_aged_before-IsPurge}
use lib_commons.Outbox.Repository.Trace.{
  Request, pending_request, failed_request, published_request, serve, serve_all, serve-History,
}
use lib_commons.Outbox.Repository.Trace.Kept.{serve_all_keeps, serve_all-Fits}

abbrev stored : Runes
stored = 97 ∷ 98 ∷ []

-- Two lines: the new cause has lost its space and its newline.
abbrev pub cause : Runes
cause = 32 ∷ 98 ∷ 13 ∷ 10 ∷ 99 ∷ []

-- A stored value of one tab is blank for the function and a cause for the UPDATE.
blank_tab : append_error_cause (9 ∷ []) (98 ∷ []) ≡ 98 ∷ []
unfolding append_error_cause append_normalized normalize_cause fold_newlines trim_space trim_left
    trim_right bound_error_cause last_error_cause_budget
blank_tab = refl

kept_tab : accumulate_cause (9 ∷ []) (98 ∷ []) ≡ 9 ∷ 10 ∷ 98 ∷ []
unfolding accumulate_cause only_spaces contains has_prefix last_error_cause_budget
kept_tab = refl

fits_budget : 2 ≤ last_error_cause_budget
unfolding last_error_cause_budget
fits_budget = omega arith

stored_nonblank : is_empty_text (trim_space stored) ≡ false
unfolding trim_space trim_left trim_right
stored_nonblank = refl

append_error_cause_keeps_example : take (length stored) (append_error_cause stored cause) ≡ stored
append_error_cause_keeps_example = append_error_cause_keeps stored cause fits_budget stored_nonblank

abbrev pub event : ℕ → OutboxEventStatus → ℕ → OutboxEvent
event id status at = record {
  id = id;
  event_type = 116 ∷ [];
  aggregate_id = 9;
  payload = 123 ∷ 125 ∷ [];
  status = status;
  attempts = 0;
  published_at = none;
  last_error = [];
  created_at = at;
  updated_at = at;
}

abbrev pub row : ℕ → OutboxEventStatus → ℕ → Row
row id status at = record { tenant_id = []; event = event id status at }

abbrev three_rows : Table
three_rows = row 1 pending 5 ∷ row 2 pending 3 ∷ row 3 published 1 ∷ []

abbrev pub session : ℕ → Session
session now = record {
  initialized = true;
  has_tenant_column = false;
  require_tenant = false;
  context_tenant = none;
  table_missing = ok false;
  opens = ok tt;
  commits = ok tt;
  locked = λ id. false;
  now = now;
}

abbrev pub same : Runes → Runes
same m = m

-- Claim one event, fail it with two attempts allowed, claim again, publish the other.
abbrev calls : List (Session × Request)
calls =
    (session 10, pending_request 1)
    ∷ (session 11, failed_request 2 (98 ∷ []) 2)
    ∷ (session 12, pending_request 4)
    ∷ (session 13, published_request 1 13)
    ∷ []

serve-History_example : History three_rows (serve same (session 10) (pending_request 1) three_rows)
serve-History_example = serve-History same (session 10) (pending_request 1) three_rows

serve_all_keeps_example : In (row 3 published 1) (serve_all same calls three_rows)
serve_all_keeps_example =
    serve_all_keeps same calls three_rows (row 3 published 1) (inl refl) (inr (inr (inl refl)))

serve_all-Fits_example : All (λ r. Fits r.event) (serve_all same calls three_rows)
serve_all-Fits_example =
    serve_all-Fits same calls three_rows (omega arith, (omega arith, (omega arith, tt)))

-- A table in which the first event is being processed, in a repository of a tenant column.
abbrev pub tenant : Runes
tenant = 97 ∷ 49 ∷ []

abbrev pub tenant_session : ℕ → Session
tenant_session now = record (session now) { has_tenant_column = true; context_tenant = some tenant }

abbrev pub of_tenant : Row → Bool
of_tenant r = same_text r.tenant_id tenant

abbrev pub running : Row
running = record { tenant_id = tenant; event = event 1 processing 5 }

abbrev pub running_rows : Table
running_rows = running ∷ row 2 processing 3 ∷ []

pub tenant_session-Serves : (now : ℕ) → Serves (tenant_session now) tenant of_tenant
unfolding tenant_id_from_context context_tenant_id tenant_filter_clause is_valid_tenant_id
    is_tenant_id_alnum tenant_id_rest is_present trim_space trim_left trim_right
tenant_session-Serves now = record {
  is_initialized = refl;
  opened = refl;
  committed = refl;
  tenant_lem = refl;
  filter_lem = refl;
}

pub running-Claimed : Claimed 1 of_tenant running_rows running
unfolding same_text
running-Claimed = record {
  stands = inl refl;
  named = refl;
  nonzero = λ e. omega (arith, e);
  runs = refl;
  owned = refl;
}

mark_failed_records_example :
    ((mark_failed same (tenant_session 20) 1 cause 1 running_rows).0 ≡ ok tt)
    × ((r' : Row) × In r' (mark_failed same (tenant_session 20) 1 cause 1 running_rows).1
        × (r'.event.id ≡ 1)
        × (r'.event.attempts ≡ running.event.attempts + 1)
        × ((r'.event.status ≡ invalid) ↔ (1 ≤ r'.event.attempts))
        × ((r'.event.status ≡ failed) ↔ (r'.event.attempts < 1)))
mark_failed_records_example =
    mark_failed_records same (tenant_session 20) tenant of_tenant 1 cause 1 running_rows running
      (tenant_session-Serves 20) running-Claimed (λ e. omega (arith, e))

mark_published_wins_example :
    In
      (record running {
        event = record running.event {
          status = published;
          published_at = some 19;
          updated_at = 20;
        };
      })
      (mark_published (tenant_session 20) 1 19 running_rows).1
    × (mark_failed same
          (tenant_session 21)
          1
          cause
          3
          (mark_published (tenant_session 20) 1 19 running_rows).1
        ≡ (err state_transition_conflict, (mark_published (tenant_session 20) 1 19 running_rows).1))
mark_published_wins_example =
    mark_published_wins same (tenant_session 20) (tenant_session 21) tenant of_tenant 1 19 cause 3
      running_rows running (tenant_session-Serves 20) (tenant_session-Serves 21) running-Claimed
      (λ e. omega (arith, e))

-- The two pending events, as two claims return them: the older one first.
abbrev claimed : ℕ → ℕ → ℕ → OutboxEvent
claimed id at now = record (event id processing at) { updated_at = now }

abbrev after_first : Table
after_first =
    row 1 pending 5 ∷ record { tenant_id = []; event = claimed 2 3 10 } ∷ row 3 published 1 ∷ []

first_claim : list_pending (session 10) 1 three_rows ≡ (ok (claimed 2 3 10 ∷ []), after_first)
unfolding list_pending pending_guards run_tx tenant_id_from_context context_tenant_id is_present
    claim list_pending_rows tenant_filter_clause select order_by insert_by matching
    collect_event_ids claim_ids mark_events_processing mark_events_with_status update_ids
    validate_transition can_transition_to rows_affected ensure_rows_affected_exact has_id update
    apply_processing_state take
first_claim = refl

second_claim :
    (list_pending (session 12) 4 (list_pending (session 10) 1 three_rows).1).0
    ≡ ok (claimed 1 5 12 ∷ [])
unfolding list_pending pending_guards run_tx tenant_id_from_context context_tenant_id is_present
    claim list_pending_rows tenant_filter_clause select order_by insert_by matching
    collect_event_ids claim_ids mark_events_processing mark_events_with_status update_ids
    validate_transition can_transition_to rows_affected ensure_rows_affected_exact has_id update
    apply_processing_state take
second_claim = refl

abbrev every_row : Row → Bool
every_row r = true

no_tenant : (now : ℕ) → tenant_id_from_context (session now) ≡ ok []
unfolding tenant_id_from_context context_tenant_id
no_tenant now = refl

no_filter : (now : ℕ) → tenant_filter_clause (session now) [] ≡ ok every_row
unfolding tenant_filter_clause
no_filter now = refl

list_pending_disjoint_example : (claimed 1 5 12).id ≢ (claimed 2 3 10).id
list_pending_disjoint_example =
    list_pending_disjoint (session 10) (session 12) 1 4 three_rows [] every_row
      (claimed 2 3 10 ∷ []) (claimed 1 5 12 ∷ []) (no_tenant 10) (no_filter 10) (no_tenant 12)
      (no_filter 12) (ap (λ x. x.0) first_claim) second_claim (claimed 2 3 10) (claimed 1 5 12)
      (inl refl) (inl refl) (λ e. omega (arith, e))

-- The row of a published event of the tenant is the only one with its id.
abbrev settled_rows : Table
settled_rows =
    record running { event = event 1 published 5 }
    ∷ record running { event = event 2 pending 3 }
    ∷ []

settled_rows-IsKeyed : IsKeyed of_tenant settled_rows
settled_rows-IsKeyed a b (inl p) (inl q) h k e = p ∙ sym q
settled_rows-IsKeyed a b (inl p) (inr (inl q)) h k e = absurd (apart a b p q e)
  where
    apart :
        (a b : Row)
        → a ≡ record running { event = event 1 published 5 }
        → b ≡ record running { event = event 2 pending 3 }
        → a.event.id ≡ b.event.id
        → ⊥
    apart a b p q e = ground (arith, ap (λ r. r.event.id) p, ap (λ r. r.event.id) q, e)
settled_rows-IsKeyed a b (inr (inl p)) (inl q) h k e = absurd (apart a b p q e)
  where
    apart :
        (a b : Row)
        → a ≡ record running { event = event 2 pending 3 }
        → b ≡ record running { event = event 1 published 5 }
        → a.event.id ≡ b.event.id
        → ⊥
    apart a b p q e = ground (arith, ap (λ r. r.event.id) p, ap (λ r. r.event.id) q, e)
settled_rows-IsKeyed a b (inr (inl p)) (inr (inl q)) h k e = p ∙ sym q
settled_rows-IsKeyed a b (inr (inr m)) q h k e = absurd m
settled_rows-IsKeyed a b p (inr (inr m)) h k e = absurd m

delete_aged_before-IsPurge_example :
    IsPurge published 9 [] of_tenant settled_rows
      (delete_aged_before (tenant_session 20) published 9 [] 4 settled_rows)
delete_aged_before-IsPurge_example =
    delete_aged_before-IsPurge (tenant_session 20) published 9 [] 4 tenant of_tenant settled_rows
      (tenant_session-Serves 20).tenant_lem (tenant_session-Serves 20).filter_lem
      settled_rows-IsKeyed
