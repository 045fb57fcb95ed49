-- ===== src/Transaction/Eligibility.antt =====
-- commons/transaction/validations.go: ValidateBalanceEligibility and what it calls.
pub mod Checked
pub mod Funds
use lib_commons.Base.{
  Bool, true, false, not, ◌&&◌, ◌||◌, List, [], ◌∷◌, none, some, String, if◌then◌else◌,
}
use lib_commons.Base.Text.{str_eq}
use lib_commons.Base.Dict.{lookup}
use lib_commons.Base.Result.{Result, ok, ◌>>=◌, ◌>>◌, refuse}
use lib_commons.Transaction.Decimal.{DecimalApi}
use lib_commons.Transaction.{
  AccountType, named, DomainError, new_domain_error, Balance, Posting, IntentPlan, external,
  insufficient_funds, account_ineligibility, account_status_transaction_restriction,
  asset_code_not_found, on_hold_external_account, data_corruption, cross_scope,
}
use lib_commons.Transaction.Apply.{fail, check_bounds}

abbrev pub is_external : AccountType → Bool
is_external external = true
is_external _ = false

-- *refOrgID and *refLedgerID
pub record Scope : Type 0 where
  pub organization_id : String
  pub ledger_id : String

abbrev pub no_scope : Scope
no_scope = record { organization_id = ""; ledger_id = "" }

module _ (d : DecimalApi) where
  open d use {Decimal, is_positive, is_negative, less_than}

  unfoldable pub validate_scope : Scope → Balance Decimal → String → Result DomainError Scope
  validate_scope s b field =
      if not (str_eq b.organization_id "") || not (str_eq b.ledger_id "")
      then (if str_eq s.organization_id "" && str_eq s.ledger_id ""
          then ok (record { organization_id = b.organization_id; ledger_id = b.ledger_id })
          else (if not (str_eq b.organization_id s.organization_id)
              then fail cross_scope (named field)
              else (if not (str_eq b.ledger_id s.ledger_id)
                  then fail cross_scope (named field)
                  else ok s)))
      else ok s

  unfoldable pub validate_external_destination_balance :
      Balance Decimal → Result DomainError (Unit {0})
  validate_external_destination_balance b = if not (is_external b.account_type) then ok tt else (do
    refuse (is_negative b.available) (new_domain_error data_corruption (named "balance"))
    refuse (is_positive b.available) (new_domain_error insufficient_funds (named "destinations")))

  abbrev find_balance :
      List (String × Balance Decimal)
      → Posting Decimal
      → String
      → Result DomainError (Balance Decimal)
  find_balance balances p side = elim (lookup p.target.balance_id balances) [
    | none ↦ fail account_ineligibility (named side)
    | some b ↦ ok b
  ]

  -- What validateSourcePosting checks of the balance found, from the ownership on.
  unfoldable pub check_source :
      IntentPlan Decimal → Posting Decimal → Balance Decimal → Scope → Result DomainError Scope
  check_source plan p b s = do
    refuse (not (str_eq b.account_id p.target.account_id))
        (new_domain_error account_ineligibility (named "sources"))
    s' ← validate_scope s b "sources"
    refuse (not (str_eq b.asset plan.asset))
        (new_domain_error asset_code_not_found (named "sources"))
    refuse (not b.allow_sending)
        (new_domain_error account_status_transaction_restriction (named "sources"))
    check_bounds d p.amount (named "sources")
    refuse (b.allow_sending && less_than b.available p.amount)
        (new_domain_error insufficient_funds (named "sources"))
    refuse (plan.pending && is_external b.account_type)
        (new_domain_error on_hold_external_account (named "sources"))
    ok s'

  unfoldable pub validate_source_posting :
      IntentPlan Decimal
      → List (String × Balance Decimal)
      → Posting Decimal
      → Scope
      → Result DomainError Scope
  validate_source_posting plan balances p s = do
    b ← find_balance balances p "sources"
    check_source plan p b s

  unfoldable pub check_destination :
      IntentPlan Decimal → Posting Decimal → Balance Decimal → Scope → Result DomainError Scope
  check_destination plan p b s = do
    refuse (not (str_eq b.account_id p.target.account_id))
        (new_domain_error account_ineligibility (named "destinations"))
    s' ← validate_scope s b "destinations"
    refuse (not (str_eq b.asset plan.asset))
        (new_domain_error asset_code_not_found (named "destinations"))
    refuse (not b.allow_receiving)
        (new_domain_error account_status_transaction_restriction (named "destinations"))
    validate_external_destination_balance b
    ok s'

  unfoldable pub validate_destination_posting :
      IntentPlan Decimal
      → List (String × Balance Decimal)
      → Posting Decimal
      → Scope
      → Result DomainError Scope
  validate_destination_posting plan balances p s = do
    b ← find_balance balances p "destinations"
    check_destination plan p b s

  -- A loop over postings that threads the scope.
  unfoldable pub validate_each :
      (Posting Decimal → Scope → Result DomainError Scope)
      → List (Posting Decimal)
      → Scope
      → Result DomainError Scope
  validate_each check [] s = ok s
  validate_each check (p ∷ ps) s = do s' ← check p s; validate_each check ps s'

  unfoldable pub validate_balance_eligibility :
      IntentPlan Decimal → List (String × Balance Decimal) → Result DomainError (Unit {0})
  validate_balance_eligibility plan [] = fail account_ineligibility (named "balances")
  validate_balance_eligibility plan (entry ∷ rest) = do
    let balances = entry ∷ rest
    s ← validate_each (validate_source_posting plan balances) plan.sources no_scope
    s' ← validate_each (validate_destination_posting plan balances) plan.destinations s
    ok tt
