-- ===== src/Outbox/Dispatcher/Collect/Distinct.antt =====
-- deduplicateEvents of commons/outbox/dispatcher.go: what it returns.
use lib_commons.Base.{
  ℕ, ◌≡◌, ◌≢◌, ◌≤◌, inl, inr, false, List, [], ◌∷◌, length, All, All-map, Bool-cases, arith,
}
use lib_commons.Outbox.Repository.{OutboxEvent}
use lib_commons.Outbox.Dispatcher.Collect.{is_seen, deduplicate_from, deduplicate_events}

-- No two events of the list have one id.
abbrev pub Distinct : List OutboxEvent → Type 0
Distinct [] = Unit
Distinct (e ∷ es) = All (λ x. x.id ≢ e.id) es × Distinct es

seen_other :
    (id i : ℕ) (seen : List ℕ)
    → is_seen id (i ∷ seen) ≡ false
    → (id ≢ i) × (is_seen id seen ≡ false)
unfolding is_seen
seen_other id i seen h = ground (arith, h)

-- The result holds distinct events, none of which has an id that was seen before.
deduplicate_from-Distinct :
    (seen : List ℕ) (es : List OutboxEvent)
    → Distinct (deduplicate_from seen es)
      × All (λ x. is_seen x.id seen ≡ false) (deduplicate_from seen es)
unfolding deduplicate_from
deduplicate_from-Distinct seen [] = (tt, tt)
deduplicate_from-Distinct seen (e ∷ es) = elim (Bool-cases (is_seen e.id seen)) [
  | inl old ↦ rw (old) (deduplicate_from-Distinct seen es)
  | inr fresh ↦ rw (fresh) (
      let rest = deduplicate_from-Distinct (e.id ∷ seen) es in
      let es' = deduplicate_from (e.id ∷ seen) es in
      let others =
        λ (x : OutboxEvent) (h : is_seen x.id (e.id ∷ seen) ≡ false). seen_other x.id e.id seen h in
      (
        (All-map _ _ es' (λ x h. (others x h).0) rest.1, rest.0),
        (fresh, All-map _ _ es' (λ x h. (others x h).1) rest.1),
      ))
]

length-deduplicate_from :
    (seen : List ℕ) (es : List OutboxEvent) → length (deduplicate_from seen es) ≤ length es
unfolding deduplicate_from
length-deduplicate_from seen [] = omega arith
length-deduplicate_from seen (e ∷ es) =
    ground (arith, length-deduplicate_from seen es, length-deduplicate_from (e.id ∷ seen) es)

pub deduplicate_events-Distinct : (es : List OutboxEvent) → Distinct (deduplicate_events es)
unfolding deduplicate_events
deduplicate_events-Distinct es = (deduplicate_from-Distinct [] es).0

pub length-deduplicate_events : (es : List OutboxEvent) → length (deduplicate_events es) ≤ length es
unfolding deduplicate_events
length-deduplicate_events es = length-deduplicate_from [] es
