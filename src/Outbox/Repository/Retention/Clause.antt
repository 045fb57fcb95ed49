-- ===== src/Outbox/Repository/Retention/Clause.antt =====
-- agedClause of commons/outbox/postgres/retention.go: what its WHERE says of a row.
use lib_commons.Base.{
  ℕ, ◌<◌, ◌≡◌, ◌≢◌, refl, ap, ◌⊎◌, inl, inr, true, false, ◌||◌, List, [], ◌∷◌, In, Bool-cases,
  arith, subst,
}
use lib_commons.Base.Runes.{Runes, trim_space, is_empty_text, same_text, same_text_iff}
use lib_commons.Outbox.Status.{OutboxEventStatus}
use lib_commons.Outbox.Repository.{Row}
use lib_commons.Outbox.Repository.Lifecycle.{is_status→≡}
use lib_commons.Outbox.Repository.PendingTypes.{
  is_one_of, normalize_event_types_from, normalize_event_types,
}
use lib_commons.Outbox.Repository.Retention.{aged_clause}

-- A type is one of `xs`, or was seen.
IsNamed : List Runes → List Runes → Runes → Type 0
IsNamed xs seen t = (is_one_of xs t ≡ true) ⊎ (is_one_of seen t ≡ true)

-- A type of the list that is not blank is among the normalized ones, unless it was seen before.
normalize_event_types_from-IsNamed :
    (k : Runes) (seen raws : List Runes)
    → In k raws
    → is_empty_text (trim_space k) ≡ false
    → IsNamed (normalize_event_types_from seen raws) seen (trim_space k)
unfolding IsNamed normalize_event_types_from is_one_of
normalize_event_types_from-IsNamed k seen [] m n = absurd m
normalize_event_types_from-IsNamed k seen (x ∷ raws) (inl q) n =
    subst (λ (y : Runes). IsNamed (normalize_event_types_from seen (y ∷ raws)) seen (trim_space k))
      q (first n)
  where
    first :
        is_empty_text (trim_space k) ≡ false
        → IsNamed (normalize_event_types_from seen (k ∷ raws)) seen (trim_space k)
    first = elim (Bool-cases (is_empty_text (trim_space k) || is_one_of seen (trim_space k))) [
      | inl e ↦ λ n. inr (ground (arith, e, n))
      | inr e ↦
          rw (e) (λ n. inl (ground (arith, (same_text_iff (trim_space k) (trim_space k)).1 refl)))
    ]
normalize_event_types_from-IsNamed k seen (x ∷ raws) (inr m) n =
    elim (Bool-cases (is_empty_text (trim_space x) || is_one_of seen (trim_space x))) [
      | inl e ↦ rw (e) (normalize_event_types_from-IsNamed k seen raws m n)
      | inr e ↦ rw (e) (elim (normalize_event_types_from-IsNamed k (trim_space x ∷ seen) raws m n) [
        | inl h ↦ inl (ground (arith, h))
        | inr h ↦ elim (Bool-cases (same_text (trim_space x) (trim_space k))) [
          | inl s ↦ inl (ground (arith, s))
          | inr s ↦ inr (ground (arith, s, h))
        ]
      ])
    ]

-- A row of the status, last changed before the cutoff, whose type no entry of the list names: blanks
-- around an entry do not count, and a blank entry names no type.
abbrev pub IsAged : OutboxEventStatus → ℕ → List Runes → Row → Type 0
IsAged status before keep r =
    (r.event.status ≡ status)
    × (r.event.updated_at < before)
    × ((k : Runes)
        → In k keep
        → is_empty_text (trim_space k) ≡ false
        → trim_space k ≢ r.event.event_type)

not_kept :
    (k t : Runes) (keep : List Runes)
    → In k keep
    → is_empty_text (trim_space k) ≡ false
    → is_one_of (normalize_event_types keep) t ≡ false
    → trim_space k ≢ t
unfolding normalize_event_types IsNamed is_one_of
not_kept k t keep m n h q = elim (normalize_event_types_from-IsNamed k [] keep m n) [
  | inl e ↦ (let one = ap (is_one_of (normalize_event_types_from [] keep)) q in cc (e, h, one))
  | inr e ↦ cc e
]

pub aged_clause-IsAged :
    (status : OutboxEventStatus) (before : ℕ) (keep : List Runes) (r : Row)
    → aged_clause status before keep r ≡ true
    → IsAged status before keep r
unfolding aged_clause
aged_clause-IsAged status before keep r h = (
  is_status→≡ r.event.status status (ground (arith, h)),
  ground (arith, h),
  λ k m n. not_kept k r.event.event_type keep m n (ground (arith, h)),
)
