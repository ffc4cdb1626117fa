-- ===== src/Services.antt =====
-- src/services: the token exchange with its parts, and the audit service.
pub mod Base64
pub mod Groups
pub mod Kid
pub mod Mint
pub mod Exchange
pub mod AuditService
