-- ===== src/Delegation.antt =====
-- The package internal/delegation: authority that only narrows as it is passed on.
pub mod AllowList
pub mod Constraints
pub mod Grant
pub mod Jwt
pub mod Token
