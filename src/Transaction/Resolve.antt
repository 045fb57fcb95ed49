-- ===== src/Transaction/Resolve.antt =====
-- commons/transaction/validations.go: ResolveOperation.
use lib_commons.Base.{Bool, true, false}
use lib_commons.Base.Result.{Result, ok}
use lib_commons.Transaction.{
  Operation, TransactionStatus, named, DomainError, debit, credit, on_hold, release, created,
  approved, pending, canceled, invalid_state_transition,
}
use lib_commons.Transaction.Apply.{fail}

-- resolve_operation pending is_source status
unfoldable pub resolve_operation : Bool → Bool → TransactionStatus → Result DomainError Operation
resolve_operation true true pending = ok on_hold
resolve_operation true false pending = ok credit
resolve_operation true true canceled = ok release
resolve_operation true false canceled = ok debit
resolve_operation true true approved = ok debit
resolve_operation true false approved = ok credit
resolve_operation true _ _ = fail invalid_state_transition (named "status")
resolve_operation false true created = ok debit
resolve_operation false false created = ok credit
resolve_operation false _ _ = fail invalid_state_transition (named "status")
