-- ===== src/Outbox/LastError/Bounded.antt =====
-- The bound of commons/outbox/last_error.go, the width of the column last_error, and what an append
-- keeps.
use lib_commons.Base.{
  ◌≤◌, ◌≡◌, refl, false, ◌∷◌, ◌++◌, length, length-append, length-take, take, take_all, take-append,
  arith,
}
use lib_commons.Base.Runes.{Runes, trim_space, is_empty_text}
use lib_commons.Outbox.LastError.{
  append_error_cause, append_normalized, bound_error_cause, accumulate_cause, normalize_cause,
  truncate_to_rune_budget, last_error_cause_budget, last_error_truncation_marker,
  max_last_error_length,
}

budget : last_error_cause_budget ≡ 483
unfolding last_error_cause_budget
budget = refl

length-take_budget : (s : Runes) → length (take last_error_cause_budget s) ≤ 483
length-take_budget s = omega (arith, budget, length-take last_error_cause_budget s)

length-truncate : (s : Runes) → length (truncate_to_rune_budget s last_error_cause_budget) ≤ 483
unfolding truncate_to_rune_budget
length-truncate s = ground (arith, budget, length-take last_error_cause_budget s)

marked : (s : Runes) → length s ≤ 483 → length (s ++ last_error_truncation_marker) ≤ 512
marked s h = rw (length-append s last_error_truncation_marker) (omega (arith, h))

-- One cause is cut to the width of the column.
pub length-bound_error_cause : (c : Runes) → length (bound_error_cause c) ≤ max_last_error_length
unfolding bound_error_cause
length-bound_error_cause c = ground (
  arith,
  budget,
  marked (truncate_to_rune_budget (normalize_cause c) last_error_cause_budget)
      (length-truncate (normalize_cause c)),
)

-- AppendErrorCause keeps a stored value within the width of the column.
pub length-append_error_cause :
    (existing cause : Runes)
    → length existing ≤ max_last_error_length
    → length (append_error_cause existing cause) ≤ max_last_error_length
unfolding append_error_cause append_normalized
length-append_error_cause existing cause h = ground (
  arith,
  budget,
  h,
  length-bound_error_cause (normalize_cause cause),
  length-append existing (10 ∷ normalize_cause cause),
  marked (truncate_to_rune_budget existing last_error_cause_budget) (length-truncate existing),
)

-- A stored value within the budget of causes, if it is not blank, is kept whole: an append only
-- adds text behind it.
pub append_error_cause_keeps :
    (existing cause : Runes)
    → length existing ≤ last_error_cause_budget
    → is_empty_text (trim_space existing) ≡ false
    → take (length existing) (append_error_cause existing cause) ≡ existing
unfolding append_error_cause append_normalized truncate_to_rune_budget
append_error_cause_keeps existing cause fits nonblank = ground (
  arith,
  fits,
  nonblank,
  take_all existing,
  take-append existing (10 ∷ normalize_cause cause),
  take-append existing last_error_truncation_marker,
)

-- The UPDATEs of MarkFailed and of the reclaim keep a stored value within the width of the column
-- when the new cause is within it.
pub length-accumulate_cause :
    (last_error cause : Runes)
    → length last_error ≤ max_last_error_length
    → length cause ≤ max_last_error_length
    → length (accumulate_cause last_error cause) ≤ max_last_error_length
unfolding accumulate_cause
length-accumulate_cause last_error cause h k = ground (
  arith,
  budget,
  h,
  k,
  length-append last_error (10 ∷ cause),
  marked (take last_error_cause_budget last_error) (length-take_budget last_error),
)
