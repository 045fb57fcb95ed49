-- ===== src/Outbox/Dispatcher/Failures/Bounded.antt =====
-- The counters of failed listings and the tenant labels of commons/outbox/dispatcher.go stay bounded,
-- whatever tenants there are.
use lib_commons.Base.{
  ℕ, ◌+◌, ◌≤◌, ◌<◌, ◌≡◌, refl, sym, subst, ◌⊎◌, inl, inr, true, not, List, [], ◌∷◌, Option, none,
  some, length, Bool-cases, if-cases, leb, ltb, ◌||◌, arith,
}
use lib_commons.Base.Runes.{Runes, is_empty_text, same_text, same_text_iff, text_key}
use lib_commons.Base.Assoc.{
  find, put, length-put, length-put_old, length-drop_key, find-put_self, find-put_other,
  find-drop_key,
}
use lib_commons.Outbox.Handlers.{is_taken}
use lib_commons.Outbox.Dispatcher.{Dispatcher, default_tenant_failure_counter_fallback}
use lib_commons.Outbox.Dispatcher.Failures.{
  counter_tenant_key, count_of, handle_list_pending_error, clear_list_pending_failure_count,
  bounded_tenant_metric_key, metric_key, tenant_metric_attribute,
}

-- Listings that failed or succeeded, and metrics, of the tenants named.
pub data Listing : Type 0 where
  listing_failed listing_done metric : Runes → Listing

unfoldable pub note : Dispatcher → Listing → Dispatcher
note d (listing_failed tenant) = (handle_list_pending_error d tenant).0
note d (listing_done tenant) = clear_list_pending_failure_count d tenant
note d (metric tenant) = tenant_metric_attribute d tenant

unfoldable pub note_all : Dispatcher → List Listing → Dispatcher
note_all d [] = d
note_all d (l ∷ ls) = note_all (note d l) ls

-- The counter that all other tenants share is there, and the maps are within their bounds.
pub record IsBounded (tenants dimensions : ℕ) (d : Dispatcher) : Type 0 where
  pub tenants_lem : d.cfg.max_tracked_list_pending_failure_tenants ≡ tenants
  pub dimensions_lem : d.cfg.max_tenant_metric_dimensions ≡ dimensions
  pub shared :
      is_taken (find default_tenant_failure_counter_fallback d.list_pending_failure_counts) ≡ true
  pub counters : length d.list_pending_failure_counts ≤ tenants
  pub labels : length d.tenant_metric_keys ≤ dimensions

taken_some : {V : Type 0} (o : Option V) → is_taken o ≡ true → (v : V) × (o ≡ some v)
taken_some none h = cc h
taken_some (some v) h = (v, refl)

length-put_taken :
    {V : Type 0} (k : Runes) (v : V) (m : List (Runes × V))
    → is_taken (find k m) ≡ true
    → length (put k v m) ≡ length m
length-put_taken k v m h = let (w, e) = taken_some (find k m) h in length-put_old k v w m e

taken-put :
    {V : Type 0} (k j : Runes) (v : V) (m : List (Runes × V))
    → is_taken (find j m) ≡ true
    → is_taken (find j (put k v m)) ≡ true
taken-put k j v m h = elim (Bool-cases (same_text k j)) [
  | inl e ↦ rw (sym ((same_text_iff k j).0 e)) (rw (find-put_self k v m) refl)
  | inr e ↦ rw (find-put_other k j v m e) h
]

abbrev shared_key : Runes
shared_key = default_tenant_failure_counter_fallback

-- The key of a counter is there, or there is room for it.
counter_has_room :
    (d : Dispatcher) (tenant : Runes)
    → is_taken (find shared_key d.list_pending_failure_counts) ≡ true
    → (is_taken (find (counter_tenant_key d tenant) d.list_pending_failure_counts) ≡ true)
      ⊎ (length d.list_pending_failure_counts < d.cfg.max_tracked_list_pending_failure_tenants)
unfolding counter_tenant_key
counter_has_room d tenant h =
    let most = d.cfg.max_tracked_list_pending_failure_tenants in
    let m = d.list_pending_failure_counts in
    elim (Bool-cases (leb most 1)) [
      | inl e ↦ rw (e) (inl h)
      | inr e ↦ rw (e) (elim (Bool-cases (is_taken (find tenant m))) [
        | inl t ↦ rw (t) (inl t)
        | inr t ↦ rw (t) (elim (Bool-cases (leb most (length m))) [
          | inl f ↦ rw (f) (inl h)
          | inr f ↦ inr (ground (arith, f))
        ])
      ])
    ]

put_within :
    {V : Type 0} (k : Runes) (v : V) (m : List (Runes × V)) (most : ℕ)
    → length m ≤ most
    → (is_taken (find k m) ≡ true) ⊎ (length m < most)
    → length (put k v m) ≤ most
put_within k v m most h (inl t) = omega (arith, h, length-put_taken k v m t)
put_within k v m most h (inr room) = omega (arith, room, length-put k v m)

handle_list_pending_error-IsBounded :
    (tenants dimensions : ℕ) (d : Dispatcher) (tenant : Runes)
    → IsBounded tenants dimensions d
    → IsBounded tenants dimensions (handle_list_pending_error d tenant).0
unfolding handle_list_pending_error
handle_list_pending_error-IsBounded tenants dimensions d tenant b =
    let key = counter_tenant_key d tenant in
    let m = d.list_pending_failure_counts in
    let room =
      subst (λ n. (is_taken (find key m) ≡ true) ⊎ (length m < n)) b.tenants_lem
        (counter_has_room d tenant b.shared) in
    record {
      tenants_lem = b.tenants_lem;
      dimensions_lem = b.dimensions_lem;
      shared = taken-put key shared_key (count_of (find key m) + 1) m b.shared;
      counters = put_within key (count_of (find key m) + 1) m tenants b.counters room;
      labels = b.labels;
    }

clear_list_pending_failure_count-IsBounded :
    (tenants dimensions : ℕ) (d : Dispatcher) (tenant : Runes)
    → IsBounded tenants dimensions d
    → IsBounded tenants dimensions (clear_list_pending_failure_count d tenant)
unfolding clear_list_pending_failure_count
clear_list_pending_failure_count-IsBounded tenants dimensions d tenant b =
    let m = d.list_pending_failure_counts in
    elim (Bool-cases
      (is_empty_text tenant || same_text tenant shared_key || not (is_taken (find tenant m)))) [
        | inl e ↦ rw (e) (record {
          tenants_lem = b.tenants_lem;
          dimensions_lem = b.dimensions_lem;
          shared = taken-put shared_key shared_key 0 m b.shared;
          counters = put_within shared_key 0 m tenants b.counters (inl b.shared);
          labels = b.labels;
        })
        | inr e ↦ rw (e) (record {
          tenants_lem = b.tenants_lem;
          dimensions_lem = b.dimensions_lem;
          shared = rw (find-drop_key tenant shared_key m (ground (arith, e))) b.shared;
          counters = omega (arith, b.counters, length-drop_key tenant m);
          labels = b.labels;
        })
      ]

bounded_tenant_metric_key-IsBounded :
    (tenants dimensions : ℕ) (d : Dispatcher) (tenant : Runes)
    → IsBounded tenants dimensions d
    → IsBounded tenants dimensions (bounded_tenant_metric_key d tenant).0
unfolding bounded_tenant_metric_key
bounded_tenant_metric_key-IsBounded tenants dimensions d tenant b =
    let key = metric_key tenant in
    elim (Bool-cases (is_taken (find key d.tenant_metric_keys))) [
      | inl t ↦ rw (t) b
      | inr t ↦
          rw (t)
            (elim (Bool-cases
              (ltb (length d.tenant_metric_keys) d.cfg.max_tenant_metric_dimensions)) [
                | inr f ↦ rw (f) b
                | inl f ↦ rw (f) (record {
                  tenants_lem = b.tenants_lem;
                  dimensions_lem = b.dimensions_lem;
                  shared = b.shared;
                  counters = b.counters;
                  labels =
                      ground (arith, f, b.dimensions_lem, length-put key tt d.tenant_metric_keys);
                })
              ])
    ]

tenant_metric_attribute-IsBounded :
    (tenants dimensions : ℕ) (d : Dispatcher) (tenant : Runes)
    → IsBounded tenants dimensions d
    → IsBounded tenants dimensions (tenant_metric_attribute d tenant)
unfolding tenant_metric_attribute
tenant_metric_attribute-IsBounded tenants dimensions d tenant b =
    if-cases (IsBounded tenants dimensions) d.cfg.include_tenant_metrics
      (bounded_tenant_metric_key d tenant).0 d
      (λ h. bounded_tenant_metric_key-IsBounded tenants dimensions d tenant b) (λ h. b)

note-IsBounded :
    (tenants dimensions : ℕ) (d : Dispatcher) (l : Listing)
    → IsBounded tenants dimensions d
    → IsBounded tenants dimensions (note d l)
unfolding note
note-IsBounded tenants dimensions d (listing_failed t) b =
    handle_list_pending_error-IsBounded tenants dimensions d t b
note-IsBounded tenants dimensions d (listing_done t) b =
    clear_list_pending_failure_count-IsBounded tenants dimensions d t b
note-IsBounded tenants dimensions d (metric t) b =
    tenant_metric_attribute-IsBounded tenants dimensions d t b

-- Whatever listings fail or succeed and whatever metrics are recorded, for any number of tenants, the
-- counters stay at most the tenants that the configuration tracks, the shared one among them, and the
-- tenant labels at most the dimensions that it allows.
pub note_all-IsBounded :
    (tenants dimensions : ℕ) (d : Dispatcher) (ls : List Listing)
    → IsBounded tenants dimensions d
    → IsBounded tenants dimensions (note_all d ls)
unfolding note_all
note_all-IsBounded tenants dimensions d [] b = b
note_all-IsBounded tenants dimensions d (l ∷ ls) b =
    note_all-IsBounded tenants dimensions (note d l) ls (note-IsBounded tenants dimensions d l b)
