-- ===== src/Authz.antt =====
-- The package authz: who the caller is, and what the caller may do.
pub mod Principal
pub mod Audit
pub mod Membership
pub mod Directive
pub mod Roles
pub mod Scope
pub mod Rls
pub mod Coverage
mod Tests
