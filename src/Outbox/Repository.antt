-- ===== src/Outbox/Repository.antt =====
-- commons/outbox/postgres: Repository of repository.go, state_transitions.go and result_helpers.go.
-- The table is the list of its rows; an UPDATE and a SELECT are functions of it. A Session is what
-- one call finds: the repository's settings, the context's tenant, the clock, whether the connection
-- serves the call, and the rows that other transactions lock. Claim and Reclaim hold the
-- operations that select rows and take them, Finish those that mark one row.
pub mod Claim
pub mod Reclaim
pub mod Select
pub mod Finish
pub mod Lifecycle
pub mod Steps
pub mod Trace
pub mod PendingTypes
pub mod Retention
use lib_commons.Base.{
  ℕ, suc, ◌+◌, Bool, true, false, ◌&&◌, ◌||◌, not, List, [], ◌∷◌, ◌++◌, ◌==◌, leb, Option, none,
  some, String, if◌then◌else◌, length,
}
use lib_commons.Base.Result.{Result, ok, err, ◌>>=◌, ◌>>◌, refuse}
use lib_commons.Base.Runes.{Runes, trim_space, same_text, is_empty_text}
use lib_commons.Outbox.Status.{OutboxEventStatus, can_transition_to}

-- An id is a number, uuid.Nil is 0; a time is a number; the empty last_error is NULL as well.
pub record OutboxEvent : Type 0 where
  pub id : ℕ
  pub event_type : Runes
  pub aggregate_id : ℕ
  pub payload : List ℕ
  pub status : OutboxEventStatus
  pub attempts : ℕ
  pub published_at : Option ℕ
  pub last_error : Runes
  pub created_at : ℕ
  pub updated_at : ℕ

-- A row: the event and the value of the tenant column.
pub record Row : Type 0 where
  pub tenant_id : Runes
  pub event : OutboxEvent

abbrev pub Table : Type 0
Table = List Row

pub data RepositoryError : Type 0 where
  repository_not_initialized id_required limit_must_be_positive : RepositoryError
  max_attempts_must_be_positive state_transition_conflict event_type_required : RepositoryError
  tenant_id_required invalid_tenant_id transition_invalid connection_failed : RepositoryError

pub record Session : Type 0 where
  pub initialized : Bool
  pub has_tenant_column : Bool
  pub require_tenant : Bool
  pub context_tenant : Option Runes
  pub table_missing : Result RepositoryError Bool
  pub opens : Result RepositoryError (Unit {0})
  pub commits : Result RepositoryError (Unit {0})
  pub locked : ℕ → Bool
  pub now : ℕ

abbrev pub in_range : ℕ → ℕ → ℕ → Bool
in_range low high c = leb low c && leb c high

-- Letters and digits of ASCII: 0-9, A-Z, a-z.
unfoldable pub is_tenant_id_alnum : ℕ → Bool
is_tenant_id_alnum c = in_range 48 57 c || in_range 65 90 c || in_range 97 122 c

unfoldable pub tenant_id_rest : Runes → Bool
tenant_id_rest [] = true
tenant_id_rest (c ∷ cs) = (is_tenant_id_alnum c || c == 45 || c == 95) && tenant_id_rest cs

-- On texts of ASCII, where bytes are characters; a byte above it is refused like its character.
unfoldable pub is_valid_tenant_id : Runes → Bool
is_valid_tenant_id [] = false
is_valid_tenant_id (c ∷ cs) = leb (suc (length cs)) 256 && is_tenant_id_alnum c && tenant_id_rest cs

unfoldable pub is_present : Option Runes → Bool
is_present none = false
is_present (some t) = not (is_empty_text t)

unfoldable pub context_tenant_id : Option Runes → Result RepositoryError Runes
context_tenant_id none = ok []
context_tenant_id (some raw) =
    let t = trim_space raw in
    do
      refuse (is_empty_text t) tenant_id_required
      refuse (not (is_valid_tenant_id t)) invalid_tenant_id
      ok t

unfoldable pub tenant_id_from_context : Session → Result RepositoryError Runes
tenant_id_from_context s = do
  refuse ((s.has_tenant_column || s.require_tenant) && not (is_present s.context_tenant))
      tenant_id_required
  context_tenant_id s.context_tenant

-- The condition that tenantFilterClause adds to a statement.
unfoldable pub tenant_filter_clause : Session → Runes → Result RepositoryError (Row → Bool)
tenant_filter_clause s t =
    if s.has_tenant_column
    then (if is_empty_text t then err tenant_id_required else ok (λ r. same_text r.tenant_id t))
    else ok (λ r. true)

-- UPDATE ... SET ... WHERE ...
unfoldable pub update : (Row → Bool) → (OutboxEvent → OutboxEvent) → Table → Table
update where_ set_ [] = []
update where_ set_ (r ∷ rs) =
    let rest = update where_ set_ rs in
    if where_ r then record r { event = set_ r.event } ∷ rest else r ∷ rest

-- The number of rows that a WHERE holds of.
unfoldable pub rows_affected : (Row → Bool) → Table → ℕ
rows_affected where_ [] = 0
rows_affected where_ (r ∷ rs) =
    let rest = rows_affected where_ rs in if where_ r then suc rest else rest

unfoldable pub ensure_rows_affected : ℕ → Result RepositoryError (Unit {0})
ensure_rows_affected rows = refuse (rows == 0) state_transition_conflict

unfoldable pub ensure_rows_affected_exact : ℕ → ℕ → Result RepositoryError (Unit {0})
ensure_rows_affected_exact rows expected = refuse (not (rows == expected)) state_transition_conflict

unfoldable pub validate_transition :
    OutboxEventStatus → OutboxEventStatus → Result RepositoryError (Unit {0})
validate_transition from to = refuse (not (can_transition_to from to)) transition_invalid

-- What a transaction leaves: with an error it is rolled back.
abbrev pub conclude {ℓ} :
    {A : Type ℓ} → Table → Result RepositoryError (A × Table) → Result RepositoryError A × Table
conclude table (err e) = (err e, table)
conclude table (ok out) = (ok out.0, out.1)

-- Checks before the transaction.
abbrev pub guarded {ℓ} :
    {A : Type ℓ}
    → Table
    → Result RepositoryError (Unit {0})
    → Result RepositoryError A × Table
    → Result RepositoryError A × Table
guarded table (err e) rest = (err e, table)
guarded table (ok u) rest = rest

-- withTenantTxOrExisting without a transaction to join: `opens` is the connection, the begin and
-- ApplyTenant; a failed commit leaves the table as it was.
unfoldable pub run_tx {ℓ} :
    {A : Type ℓ}
    → Session
    → (Table → Result RepositoryError (A × Table))
    → Table
    → Result RepositoryError (A × Table)
run_tx s body table = do s.opens; t ← tenant_id_from_context s; out ← body table; s.commits; ok out

abbrev pub with_tenant_tx {ℓ} :
    {A : Type ℓ}
    → Session
    → (Table → Result RepositoryError (A × Table))
    → Table
    → Result RepositoryError A × Table
with_tenant_tx s body table = conclude table (run_tx s body table)

abbrev pub is_status : OutboxEventStatus → OutboxEventStatus → Bool
is_status a b = elim a [
  | OutboxEventStatus.pending ↦ elim b [ OutboxEventStatus.pending ↦ true | _ ↦ false ]
  | OutboxEventStatus.processing ↦ elim b [ OutboxEventStatus.processing ↦ true | _ ↦ false ]
  | OutboxEventStatus.published ↦ elim b [ OutboxEventStatus.published ↦ true | _ ↦ false ]
  | OutboxEventStatus.failed ↦ elim b [ OutboxEventStatus.failed ↦ true | _ ↦ false ]
  | OutboxEventStatus.invalid ↦ elim b [ OutboxEventStatus.invalid ↦ true | _ ↦ false ]
]
