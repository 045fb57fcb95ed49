-- ===== src/Transaction/Apply/Effect.antt =====
-- What ApplyPosting does to a balance: which fields move, by how much, and within which bounds.
use lib_commons.Base.{◌+◌, ◌%◌, ◌^◌, ◌≡◌, arith}
use lib_commons.Base.Int.{ℤ, pos, ◌+ℤ◌, ◌-ℤ◌, ◌≤ℤ◌, int_laws}
use lib_commons.Base.Result.{ok, >>=-eq-ok}
use lib_commons.Transaction.Decimal.{DecimalApi}
use lib_commons.Transaction.{
  Operation, other, TransactionStatus, Balance, Posting, debit, credit, on_hold, release, created,
  approved, pending, canceled,
}
use lib_commons.Transaction.Apply.{
  validate_posting_against_balance, apply_operation, apply_posting_operation,
  validate_posting_result, apply_posting,
}

-- What an operation adds to the sum of the available and the held amount.
abbrev pub signed : Operation → ℤ → ℤ
signed credit x = x
signed debit x = pos 0 -ℤ x
signed _ x = pos 0

module _ (d : DecimalApi) where
  open d use {Decimal, units, units-add, units-sub, add, sub, is_negative, is_negative_lem}

  abbrev pub total : Balance Decimal → ℤ
  total b = units b.available +ℤ units b.on_hold

  -- The fields that say whose balance it is.
  pub record SameOwner (b c : Balance Decimal) : Type 0 where
    pub id : c.id ≡ b.id
    pub organization_id : c.organization_id ≡ b.organization_id
    pub ledger_id : c.ledger_id ≡ b.ledger_id
    pub account_id : c.account_id ≡ b.account_id
    pub asset : c.asset ≡ b.asset
    pub account_type : c.account_type ≡ b.account_type

  pub record Effect (op : Operation) (x : Decimal) (b c : Balance Decimal) : Type 0 where
    pub moved : total c ≡ total b +ℤ signed op (units x)
    pub owner : SameOwner b c
    pub version : c.version ≡ b.version

  -- The four ways in which an amount moves.
  debit_available :
      (a h x : Decimal) → units (sub a x) +ℤ units h ≡ units a +ℤ units h +ℤ (pos 0 -ℤ units x)
  debit_available a h x = rw (units-sub a x) (omega int_laws)

  debit_held :
      (a h x : Decimal) → units a +ℤ units (sub h x) ≡ units a +ℤ units h +ℤ (pos 0 -ℤ units x)
  debit_held a h x = rw (units-sub h x) (omega int_laws)

  credit_available : (a h x : Decimal) → units (add a x) +ℤ units h ≡ units a +ℤ units h +ℤ units x
  credit_available a h x = rw (units-add a x) (omega int_laws)

  hold_neutral :
      (a h x : Decimal) → units (sub a x) +ℤ units (add h x) ≡ units a +ℤ units h +ℤ pos 0
  hold_neutral a h x = rw (units-sub a x, units-add h x) (omega int_laws)

  release_neutral :
      (a h x : Decimal) → units (add a x) +ℤ units (sub h x) ≡ units a +ℤ units h +ℤ pos 0
  release_neutral a h x = rw (units-add a x, units-sub h x) (omega int_laws)

  -- An operation that succeeds moves its amount and touches neither the owner nor the version.
  apply_operation-Effect :
      (op : Operation) (st : TransactionStatus) (b : Balance Decimal) (x : Decimal)
      {c : Balance Decimal}
      → apply_operation d op st b x ≡ ok c
      → Effect op x b c
  unfolding apply_operation
  apply_operation-Effect debit created b x h =
      ground (arith, debit_available b.available b.on_hold x)
  apply_operation-Effect debit canceled b x h =
      ground (arith, debit_available b.available b.on_hold x)
  apply_operation-Effect debit approved b x h = ground (arith, debit_held b.available b.on_hold x)
  apply_operation-Effect debit _ b x h = cc
  apply_operation-Effect credit canceled b x h = cc
  apply_operation-Effect credit (other s) b x h = cc
  apply_operation-Effect credit _ b x h = ground (arith, credit_available b.available b.on_hold x)
  apply_operation-Effect on_hold pending b x h =
      ground (arith, hold_neutral b.available b.on_hold x)
  apply_operation-Effect on_hold _ b x h = cc
  apply_operation-Effect release canceled b x h =
      ground (arith, release_neutral b.available b.on_hold x)
  apply_operation-Effect release _ b x h = cc
  apply_operation-Effect (other s) st b x h = cc

  -- What a balance is after a posting was applied to it.
  pub record Posted (b : Balance Decimal) (p : Posting Decimal) (c : Balance Decimal) : Type 0 where
    pub moved : total c ≡ total b +ℤ signed p.operation (units p.amount)
    pub owner : SameOwner b c
    pub version : c.version ≡ (b.version + 1) % 2 ^ 64
    pub available_nonneg : pos 0 ≤ℤ units c.available
    pub on_hold_nonneg : pos 0 ≤ℤ units c.on_hold

  validate_posting_result-eq-ok :
      (b : Balance Decimal) {u : Unit {0}}
      → validate_posting_result d b ≡ ok u
      → (pos 0 ≤ℤ units b.available) × (pos 0 ≤ℤ units b.on_hold)
  unfolding validate_posting_result
  validate_posting_result-eq-ok b h =
      ground (arith, is_negative_lem b.available, is_negative_lem b.on_hold)

  -- A posting that ApplyPosting accepts changes the sum of the available and the held amount by
  -- exactly its own: a credit adds it, a debit takes it, a hold or a release keeps the sum. Neither
  -- amount is negative afterwards, the version goes up by one (as an int64), and the balance keeps
  -- its id, organization, ledger, account, asset and account type.
  pub apply_posting-Posted :
      (b : Balance Decimal) (p : Posting Decimal) {c : Balance Decimal}
      → apply_posting d b p ≡ ok c
      → Posted b p c
  unfolding apply_posting apply_posting_operation
  apply_posting-Posted b p h =
      let (_, _, h₁) = >>=-eq-ok (validate_posting_against_balance d b p) _ h in
      let (u, applied, h₂) = >>=-eq-ok (apply_operation d p.operation p.status b p.amount) _ h₁ in
      let (_, valid, h₃) = >>=-eq-ok (validate_posting_result d u) _ h₂ in
      let e = apply_operation-Effect p.operation p.status b p.amount applied in
      let (a, n) = validate_posting_result-eq-ok u valid in ground (arith, e)
