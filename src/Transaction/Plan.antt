-- ===== src/Transaction/Plan.antt =====
-- commons/transaction/validations.go: BuildIntentPlan, buildPostings and what they call.
pub mod Shape
pub mod Sum
pub mod Loop
pub mod Total
pub mod Amounts
pub mod Intent
use lib_commons.Base.{
  ℕ, zero, suc, ◌+◌, Bool, true, false, not, ◌||◌, List, [], ◌∷◌, Option, none, some, String,
  if◌then◌else◌, ◌==◌,
}
use lib_commons.Base.Text.{is_blank, str_eq}
use lib_commons.Base.Result.{Result, ok, ◌>>=◌, ◌>>◌, refuse}
use lib_commons.Transaction.Decimal.{DecimalApi}
use lib_commons.Transaction.{
  TransactionStatus, Field, named, indexed, dot, DomainError, new_domain_error, Allocation,
  TransactionIntentInput, Posting, IntentPlan, invalid_input, transaction_value_mismatch,
  transaction_ambiguous,
}
use lib_commons.Transaction.Apply.{fail, validate_target, check_bounds}
use lib_commons.Transaction.Resolve.{resolve_operation}

abbrev count_some {ℓ} : {A : Type ℓ} → Option A → ℕ
count_some none = 0
count_some (some _) = 1

abbrev count_true : Bool → ℕ
count_true b = if b then 1 else 0

abbrev pub is_empty {ℓ} : {A : Type ℓ} → List A → Bool
is_empty [] = true
is_empty (_ ∷ _) = false

module _ (d : DecimalApi) where
  open d use {Decimal, zero_value, one_hundred, add, sub, mul, div, is_positive, less_than, equal}

  unfoldable pub validate_allocation_strategy :
      Allocation Decimal → Field → Result DomainError (Unit {0})
  validate_allocation_strategy a field =
      refuse (not (count_some a.amount + count_some a.share + count_true a.remainder == 1))
        (new_domain_error invalid_input field)

  -- The amount, and whether the allocation takes the remainder.
  unfoldable pub resolve_allocation_amount :
      Decimal → Option Decimal → Option Decimal → Bool → Field → Result DomainError (Decimal × Bool)
  resolve_allocation_amount total (some x) share remainder field = do
    check_bounds d x (dot field "amount")
    refuse (not (is_positive x)) (new_domain_error invalid_input (dot field "amount"))
    ok (x, false)
  resolve_allocation_amount total none (some s) remainder field = do
    check_bounds d s (dot field "share")
    refuse (not (is_positive s) || less_than one_hundred s)
        (new_domain_error invalid_input (dot field "share"))
    let amount = mul total (div s one_hundred)
    refuse (not (is_positive amount)) (new_domain_error invalid_input (dot field "share"))
    ok (amount, false)
  resolve_allocation_amount total none none remainder field =
      if remainder then ok (zero_value, true) else fail invalid_input field

  unfoldable pub build_posting_from_allocation :
      String
      → Decimal
      → Bool
      → TransactionStatus
      → Bool
      → Allocation Decimal
      → Field
      → Result DomainError (Posting Decimal × Decimal × Bool)
  build_posting_from_allocation asset total pending status is_source a field = do
    validate_target a.target (dot field "target")
    validate_allocation_strategy a field
    operation ← resolve_operation pending is_source status
    r ← resolve_allocation_amount total a.amount a.share a.remainder field
    let amount = if r.1 then zero_value else r.0
    ok (
      record {
        target = a.target;
        asset = asset;
        amount = amount;
        operation = operation;
        status = status;
        route = a.route;
      },
      amount,
      r.1,
    )

  -- What one round of the loop does to `allocated` and `remainderIndex`.
  unfoldable pub advance :
      Field → ℕ → Decimal → Option ℕ → Decimal → Bool → Result DomainError (Decimal × Option ℕ)
  advance field i allocated index amount false = ok (add allocated amount, index)
  advance field i allocated none amount true = ok (allocated, some i)
  advance field i allocated (some _) amount true = fail invalid_input (dot field "remainder")

  -- The loop over the allocations from index `i`: the postings, `allocated`, `remainderIndex`.
  unfoldable pub build_loop :
      String
      → Decimal
      → Bool
      → TransactionStatus
      → Bool
      → String
      → ℕ
      → Decimal
      → Option ℕ
      → List (Allocation Decimal)
      → Result DomainError (List (Posting Decimal) × Decimal × Option ℕ)
  build_loop asset total pending status is_source side i allocated index [] =
      ok ([], allocated, index)
  build_loop asset total pending status is_source side i allocated index (a ∷ rest) = do
    built ← build_posting_from_allocation asset total pending status is_source a (indexed side i)
    next ← advance (indexed side i) i allocated index built.1 built.2
    r ← build_loop asset total pending status is_source side (suc i) next.0 next.1 rest
    ok (built.0 ∷ r.0, r.1, r.2)

  -- `postings[i].Amount = x`
  unfoldable pub set_amount : ℕ → Decimal → List (Posting Decimal) → List (Posting Decimal)
  set_amount i x [] = []
  set_amount zero x (p ∷ ps) = record p { amount = x } ∷ ps
  set_amount (suc i) x (p ∷ ps) = p ∷ set_amount i x ps

  unfoldable pub compute_remainder_allocation : Decimal → Decimal → Result DomainError Decimal
  compute_remainder_allocation total allocated = do
    let remainder = sub total allocated
    refuse (not (is_positive remainder))
        (new_domain_error transaction_value_mismatch (named "allocations"))
    ok remainder

  unfoldable pub validate_allocated_total : Decimal → Decimal → Result DomainError (Unit {0})
  validate_allocated_total allocated total =
      refuse (not (equal allocated total))
        (new_domain_error transaction_value_mismatch (named "allocations"))

  -- The remainder goes to its allocation, if there is one.
  unfoldable pub fill_remainder :
      Decimal
      → List (Posting Decimal)
      → Decimal
      → Option ℕ
      → Result DomainError (List (Posting Decimal) × Decimal)
  fill_remainder total postings allocated none = ok (postings, allocated)
  fill_remainder total postings allocated (some i) = do
    remainder ← compute_remainder_allocation total allocated
    ok (set_amount i remainder postings, add allocated remainder)

  unfoldable pub build_postings :
      String
      → Decimal
      → Bool
      → TransactionStatus
      → List (Allocation Decimal)
      → Bool
      → Result DomainError (List (Posting Decimal))
  build_postings asset total pending status allocations is_source = do
    let side = if is_source then "sources" else "destinations"
    r ← build_loop asset total pending status is_source side 0 zero_value none allocations
    filled ← fill_remainder total r.0 r.1 r.2
    validate_allocated_total filled.1 total
    ok filled.0

  unfoldable pub sum_from : Decimal → List (Posting Decimal) → Decimal
  sum_from total [] = total
  sum_from total (p ∷ ps) = sum_from (add total p.amount) ps

  unfoldable pub sum_postings : List (Posting Decimal) → Decimal
  sum_postings ps = sum_from zero_value ps

  -- Whether the balance is in `sourceIDs`.
  unfoldable pub has_balance : String → List (Posting Decimal) → Bool
  has_balance id [] = false
  has_balance id (p ∷ ps) = str_eq p.target.balance_id id || has_balance id ps

  unfoldable pub any_shared : List (Posting Decimal) → List (Posting Decimal) → Bool
  any_shared sources [] = false
  any_shared sources (q ∷ qs) = has_balance q.target.balance_id sources || any_shared sources qs

  unfoldable pub build_intent_plan :
      TransactionIntentInput Decimal → TransactionStatus → Result DomainError (IntentPlan Decimal)
  build_intent_plan input status = do
    refuse (is_blank input.asset) (new_domain_error invalid_input (named "asset"))
    check_bounds d input.total (named "total")
    refuse (not (is_positive input.total)) (new_domain_error invalid_input (named "total"))
    refuse (is_empty input.sources) (new_domain_error invalid_input (named "sources"))
    refuse (is_empty input.destinations) (new_domain_error invalid_input (named "destinations"))
    sources ← build_postings input.asset input.total input.pending status input.sources true
    destinations ←
        build_postings input.asset input.total input.pending status input.destinations false
    refuse
        (not (equal (sum_postings sources) input.total)
          || not (equal (sum_postings destinations) input.total))
        (new_domain_error transaction_value_mismatch (named "total"))
    refuse (any_shared sources destinations)
        (new_domain_error transaction_ambiguous (named "destinations"))
    ok (record {
      asset = input.asset;
      total = input.total;
      pending = input.pending;
      sources = sources;
      destinations = destinations;
    })
