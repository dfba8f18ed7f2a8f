-- ===== src/Tests.antt =====
-- Instances of the theorems, each at concrete data.
pub mod Sample
pub mod Delegation
pub mod Chains
pub mod Exchange
pub mod Sdk
pub mod Ccguard
pub mod Audit
pub mod Mcpgw
pub mod Middleware
pub mod Keystore
pub mod Grants
