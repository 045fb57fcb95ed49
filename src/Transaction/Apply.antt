-- ===== src/Transaction/Apply.antt =====
-- commons/transaction/validations.go: ApplyPosting and what it calls.
pub mod Effect
pub mod Lifecycle
use lib_commons.Base.{◌+◌, ◌%◌, ◌^◌, not}
use lib_commons.Base.Text.{is_blank, str_eq}
use lib_commons.Base.Result.{Result, ok, err, ◌>>=◌, ◌>>◌, refuse}
use lib_commons.Transaction.Decimal.{DecimalApi, check_decimal}
use lib_commons.Transaction.{
  Operation, TransactionStatus, ErrorCode, Field, named, dot, DomainError, new_domain_error,
  Balance, LedgerTarget, Posting, debit, credit, on_hold, release, created, approved, pending,
  canceled, insufficient_funds, account_ineligibility, asset_code_not_found, invalid_input,
  invalid_state_transition,
}

-- the error `NewDomainError(code, field, …)` as a result
abbrev pub fail {ℓ} : {A : Type ℓ} → ErrorCode → Field → Result DomainError A
fail code field = err (new_domain_error code field)

-- LedgerTarget.validate
unfoldable pub validate_target : LedgerTarget → Field → Result DomainError (Unit {0})
validate_target t field = do
  refuse (is_blank t.account_id) (new_domain_error invalid_input (dot field "accountId"))
  refuse (is_blank t.balance_id) (new_domain_error invalid_input (dot field "balanceId"))

module _ (d : DecimalApi) where
  open d use {Decimal, add, sub, is_positive, is_negative}

  unfoldable pub check_bounds : Decimal → Field → Result DomainError (Unit {0})
  check_bounds value field =
      refuse (not (check_decimal d value)) (new_domain_error invalid_input field)

  unfoldable pub validate_posting_against_balance :
      Balance Decimal → Posting Decimal → Result DomainError (Unit {0})
  validate_posting_against_balance b p = do
    validate_target p.target (named "posting.target")
    refuse (not (str_eq b.id p.target.balance_id))
        (new_domain_error account_ineligibility (named "posting.target.balanceId"))
    refuse (not (str_eq b.account_id p.target.account_id))
        (new_domain_error account_ineligibility (named "posting.target.accountId"))
    refuse (not (str_eq b.asset p.asset))
        (new_domain_error asset_code_not_found (named "posting.asset"))
    check_bounds p.amount (named "posting.amount")
    refuse (not (is_positive p.amount)) (new_domain_error invalid_input (named "posting.amount"))

  abbrev bad_status : Result DomainError (Balance Decimal)
  bad_status = fail invalid_state_transition (named "posting.status")

  unfoldable pub apply_on_hold :
      TransactionStatus → Balance Decimal → Decimal → Result DomainError (Balance Decimal)
  apply_on_hold pending b x =
      ok (record b { available = sub b.available x; on_hold = add b.on_hold x })
  apply_on_hold _ b x = bad_status

  unfoldable pub apply_release :
      TransactionStatus → Balance Decimal → Decimal → Result DomainError (Balance Decimal)
  apply_release canceled b x =
      ok (record b { on_hold = sub b.on_hold x; available = add b.available x })
  apply_release _ b x = bad_status

  unfoldable pub apply_debit :
      TransactionStatus → Balance Decimal → Decimal → Result DomainError (Balance Decimal)
  apply_debit approved b x = ok (record b { on_hold = sub b.on_hold x })
  apply_debit created b x = ok (record b { available = sub b.available x })
  apply_debit canceled b x = ok (record b { available = sub b.available x })
  apply_debit _ b x = bad_status

  unfoldable pub apply_credit :
      TransactionStatus → Balance Decimal → Decimal → Result DomainError (Balance Decimal)
  apply_credit created b x = ok (record b { available = add b.available x })
  apply_credit approved b x = ok (record b { available = add b.available x })
  apply_credit pending b x = ok (record b { available = add b.available x })
  apply_credit _ b x = bad_status

  -- The switch of applyPostingOperation, on the fields of the posting that it reads.
  unfoldable pub apply_operation :
      Operation
      → TransactionStatus
      → Balance Decimal
      → Decimal
      → Result DomainError (Balance Decimal)
  unfolding apply_on_hold apply_release apply_debit apply_credit
  apply_operation on_hold st b x = apply_on_hold st b x
  apply_operation release st b x = apply_release st b x
  apply_operation debit st b x = apply_debit st b x
  apply_operation credit st b x = apply_credit st b x
  apply_operation _ st b x = fail invalid_input (named "posting.operation")

  unfoldable pub apply_posting_operation :
      Balance Decimal → Posting Decimal → Result DomainError (Balance Decimal)
  apply_posting_operation b p = apply_operation p.operation p.status b p.amount

  unfoldable pub validate_posting_result : Balance Decimal → Result DomainError (Unit {0})
  validate_posting_result b = do
    refuse (is_negative b.available) (new_domain_error insufficient_funds (named "posting.amount"))
    refuse (is_negative b.on_hold) (new_domain_error insufficient_funds (named "posting.amount"))

  unfoldable pub apply_posting :
      Balance Decimal → Posting Decimal → Result DomainError (Balance Decimal)
  apply_posting b p = do
    validate_posting_against_balance b p
    updated ← apply_posting_operation b p
    validate_posting_result updated
    ok (record updated { version = (updated.version + 1) % 2 ^ 64 })
