-- ===== src/Services.antt =====
-- The translation service: its providers, their health, and the failover between them (backend/services).
pub mod Health
pub mod Registry
pub mod Orchestrator
pub mod Mock
