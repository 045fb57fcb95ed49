-- ===== src/Lib.antt =====
-- The verification library of lib-commons (package commons), in Go.
--
-- Each file models a part of the repository as functions of the same names in snake_case over records
-- and data types for its structs and enumerations. A function that returns an error is a Result
-- (Base.Result), a method that mutates its receiver returns the new record, a map is an association
-- list (Base.Dict, Base.Assoc), and time, randomness and what other packages do are arguments.
--
-- commons/transaction -> Transaction: the types (Transaction), ApplyPosting (Apply), ResolveOperation
-- (Resolve), BuildIntentPlan (Plan), ValidateBalanceEligibility (Eligibility). Decimals are those of an
-- interface (Transaction.Decimal), since the repository only calls shopspring/decimal. The children of
-- each file hold its theorems, and Tests the runs.
--
-- commons/tenant-manager -> TenantManager: the gate of health checks in internal/healthcheck/gate.go
-- (Gate), the choice of an idle pool in internal/eviction/lru.go (Eviction), the cache in
-- cache/memory.go (Cache). Times are nanoseconds. Each method holds its mutex, so a concurrent run is
-- a sequence of calls; where Get of the cache releases its lock, what others do in between is an
-- argument. Await and the ticker of the cache are not modelled.
--
-- commons/outbox -> Outbox: status.go (Status), last_error.go (LastError), sanitizer.go without its
-- regular expressions (Sanitizer), and the Postgres repository of repository.go and
-- state_transitions.go (Repository): its queries (Select), the operations that claim rows (Claim,
-- Reclaim) and those that finish them (Finish), and sequences of calls that list, claim, reclaim or
-- mark events (Trace). A table is the list of its rows; an UPDATE and a SELECT are functions of it; a
-- transaction whose body, connection or commit fails leaves the table as it was. The rows that SKIP
-- LOCKED passes over are an argument. The status columns hold only the five statuses. pending_types.go
-- is Repository.PendingTypes, and the deletions of retention.go Repository.Retention. Create, the
-- batches, the listings of tenants and the resolvers of pools and schemas are not modelled. A text is
-- a list of code points.
--
-- commons/outbox/dispatcher.go -> Outbox.Dispatcher, with config.go (Config) and handler.go (Handlers).
-- The dispatcher acts on a world of any type through an Environment: the operations of its repository,
-- its handlers and callbacks, the wait between attempts, the clock and the contexts. Publish is
-- publishEventWithRetry, Collect collectEvents, Cycle DispatchOnceResult; Failures, Scopes and Retention
-- are the dispatcher's own state. Tenants is dispatchAcrossTenants. Logs, spans and metrics are left out.
-- Run, Stop and Shutdown are not modelled. OnPostgres is the dispatcher over the Postgres repository:
-- its world is the outbox table and the rest, and handlers and callbacks act on the rest only. Its
-- children hold the theorems on both: Limits and Batch, Lifecycle, Delivery and Dispatched.
--
-- commons/backoff/backoff.go -> Backoff: Exponential, on 64-bit words, and the jitter, on durations in
-- nanoseconds, with the random generators as arguments. WaitContext is not modelled.
--
-- All loops are structural recursion over lists and numbers, so no fuel is used.
pub mod Base
pub mod Transaction
pub mod TenantManager
pub mod Outbox
pub mod Backoff
