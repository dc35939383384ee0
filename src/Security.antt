-- ===== src/Security.antt =====
-- Credentials, tenants and their users: core/doktok_core/security.
pub mod Roles
pub mod Policy
pub mod Registry
pub mod Sessions
pub mod Auth
mod Examples
