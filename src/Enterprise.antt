-- ===== src/Enterprise.antt =====
-- The enterprise layer: roles, API keys, organizations, quotas and the audit log.
pub mod Role
pub mod Models
pub mod Redis
pub mod Keys
pub mod Audit
pub mod Auth
pub mod Accounts
pub mod Limits
pub mod KeySpace
pub mod AuthLaws
pub mod Revocation
pub mod Routes
pub mod LimitsLaws
pub mod AuditLaws
pub mod Memory
pub mod Examples
