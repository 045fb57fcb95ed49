-- ===== src/TenantManager.antt =====
-- commons/tenant-manager: the shared parts of its connection managers. Gate is
-- internal/healthcheck, Eviction is internal/eviction, Cache is cache/memory.go.
pub mod Gate
pub mod Eviction
pub mod Cache
