-- ===== src/Outbox.antt =====
-- commons/outbox: the lifecycle of an event (Status), its accumulated error causes (LastError), and
-- the Postgres repository, which claims, finishes and reclaims the events (Repository), and the
-- dispatcher (Config, Handlers, Dispatcher), also over that repository (OnPostgres).
pub mod Status
pub mod LastError
pub mod Sanitizer
pub mod Repository
pub mod Config
pub mod Handlers
pub mod Dispatcher
pub mod OnPostgres
mod Tests
