-- ===== src/Transaction/Plan/Shape.antt =====
-- Each posting that buildPostings makes answers to its allocation.
use lib_commons.Base.{◌≡◌, ◌⊎◌, Bool, true, false, arith, String, Option, none, some}
use lib_commons.Base.Text.{is_blank}
use lib_commons.Base.Int.{pos, ◌≤ℤ◌}
use lib_commons.Base.Result.{ok, >>=-eq-ok}
use lib_commons.Transaction.Decimal.{DecimalApi}
use lib_commons.Transaction.{TransactionStatus, Field, Allocation, Posting, LedgerTarget}
use lib_commons.Transaction.Apply.{validate_target}
use lib_commons.Transaction.Resolve.{resolve_operation}
use lib_commons.Transaction.Plan.{
  validate_allocation_strategy, resolve_allocation_amount, build_posting_from_allocation,
}

module _ (d : DecimalApi) where
  open d use {Decimal, units, zero_value, mul, div, one_hundred, is_positive_lem}

  abbrev pub Positive : Decimal → Type 0
  Positive x = pos 1 ≤ℤ units x

  -- An allocation that has an amount or a share yields a positive number, and only one that has
  -- neither takes the remainder.
  pub resolve_allocation_amount-Positive :
      (total : Decimal) (amount share : Option Decimal) (rem : Bool) (f : Field)
      {r : Decimal × Bool}
      → resolve_allocation_amount d total amount share rem f ≡ ok r
      → (r.1 ≡ true) ⊎ ((r.1 ≡ false) × Positive r.0)
  unfolding resolve_allocation_amount
  resolve_allocation_amount-Positive total (some x) share rem f h =
      ground (arith, is_positive_lem x)
  resolve_allocation_amount-Positive total none (some s) rem f h =
      ground (arith, is_positive_lem (mul total (div s one_hundred)))
  resolve_allocation_amount-Positive total none none rem f h = ground arith

  -- The posting of an allocation: its target, which is named, its route, asset and status are those
  -- given, its operation is ResolveOperation's.
  pub record Answers (asset : String) (pending : Bool) (status : TransactionStatus)
      (is_source : Bool) (a : Allocation Decimal) (p : Posting Decimal) : Type 0 where
    pub target : p.target ≡ a.target
    pub account_named : is_blank a.target.account_id ≡ false
    pub balance_named : is_blank a.target.balance_id ≡ false
    pub route : p.route ≡ a.route
    pub asset_kept : p.asset ≡ asset
    pub status_kept : p.status ≡ status
    pub operation : resolve_operation pending is_source status ≡ ok p.operation

  validate_target-eq-ok :
      (t : LedgerTarget) (f : Field) {u : Unit {0}}
      → validate_target t f ≡ ok u
      → (is_blank t.account_id ≡ false) × (is_blank t.balance_id ≡ false)
  unfolding validate_target
  validate_target-eq-ok t f h = ground arith

  module _ (asset : String) (total : Decimal) (pending : Bool) (status : TransactionStatus)
      (is_source : Bool) where
    -- The amount is positive, or the posting waits for the remainder with a zero amount.
    pub build_posting-Answers :
        (a : Allocation Decimal) (f : Field) {r : Posting Decimal × Decimal × Bool}
        → build_posting_from_allocation d asset total pending status is_source a f ≡ ok r
        → Answers asset pending status is_source a r.0
          × ((r.2 ≡ true) × (r.0.amount ≡ zero_value)
              ⊎ (r.2 ≡ false) × (r.0.amount ≡ r.1) × Positive r.1)
    unfolding build_posting_from_allocation
    build_posting-Answers a f h =
        let (_, named_target, h₁) = >>=-eq-ok (validate_target a.target _) _ h in
        let (_, _, h₂) = >>=-eq-ok (validate_allocation_strategy d a f) _ h₁ in
        let (op, e, h₃) = >>=-eq-ok (resolve_operation pending is_source status) _ h₂ in
        let (r, m, h₄) =
          >>=-eq-ok (resolve_allocation_amount d total a.amount a.share a.remainder f) _ h₃ in
        let kind = resolve_allocation_amount-Positive total a.amount a.share a.remainder f m in
        let named_ids = validate_target-eq-ok a.target _ named_target in
        (ground (arith, named_ids), ground (arith, kind))
