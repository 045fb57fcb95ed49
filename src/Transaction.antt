-- ===== src/Transaction.antt =====
-- commons/transaction: the types of transaction.go. The functions of validations.go are in the
-- children: Apply (ApplyPosting), Resolve (ResolveOperation), Plan (BuildIntentPlan) and
-- Eligibility (ValidateBalanceEligibility). Decimal is the interface to the decimals.
pub mod Decimal
pub mod Apply
pub mod Resolve
pub mod Plan
pub mod Eligibility
mod Tests
use lib_commons.Base.{ℕ, Bool, List, Option, String}

-- The types Operation, TransactionStatus and AccountType are strings: `other` holds any further one.
pub data Operation : Type 0 where
  debit credit on_hold release : Operation
  other : String → Operation

pub data TransactionStatus : Type 0 where
  created approved pending canceled : TransactionStatus
  other : String → TransactionStatus

pub data AccountType : Type 0 where
  internal external : AccountType
  other : String → AccountType

pub data ErrorCode : Type 0 where
  insufficient_funds account_ineligibility account_status_transaction_restriction : ErrorCode
  asset_code_not_found transaction_value_mismatch transaction_ambiguous : ErrorCode
  on_hold_external_account data_corruption invalid_input : ErrorCode
  invalid_state_transition cross_scope : ErrorCode

-- The text of an error's field: a name, `name[i]`, or a field followed by `.name`.
pub data Field : Type 0 where
  named : String → Field
  indexed : String → ℕ → Field
  dot : Field → String → Field

-- The message, which is for people, is left out.
pub record DomainError : Type 0 where
  pub code : ErrorCode
  pub field : Field

abbrev pub new_domain_error : ErrorCode → Field → DomainError
new_domain_error code field = record { code = code; field = field }

pub record Balance (D : Type 0) : Type 0 where
  pub id : String
  pub organization_id : String
  pub ledger_id : String
  pub account_id : String
  pub asset : String
  pub available : D
  pub on_hold : D
  pub version : ℕ  -- int64, as its bit pattern
  pub account_type : AccountType
  pub allow_sending : Bool
  pub allow_receiving : Bool
  pub created_at : ℕ
  pub updated_at : ℕ
  pub deleted_at : Option ℕ
  pub metadata : List (String × String)

pub record LedgerTarget : Type 0 where
  pub account_id : String
  pub balance_id : String

pub record Allocation (D : Type 0) : Type 0 where
  pub target : LedgerTarget
  pub amount : Option D
  pub share : Option D
  pub remainder : Bool
  pub route : String

pub record TransactionIntentInput (D : Type 0) : Type 0 where
  pub asset : String
  pub total : D
  pub pending : Bool
  pub sources : List (Allocation D)
  pub destinations : List (Allocation D)

pub record Posting (D : Type 0) : Type 0 where
  pub target : LedgerTarget
  pub asset : String
  pub amount : D
  pub operation : Operation
  pub status : TransactionStatus
  pub route : String

pub record IntentPlan (D : Type 0) : Type 0 where
  pub asset : String
  pub total : D
  pub pending : Bool
  pub sources : List (Posting D)
  pub destinations : List (Posting D)
