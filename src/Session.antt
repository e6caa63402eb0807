-- ===== src/Session.antt =====
-- The package session: the credential, its table, the cookie and the middleware.
pub mod Cookie
pub mod Jar
pub mod Statements
pub mod Sessions
pub mod Table
pub mod Lookup
pub mod Middleware
pub mod Jwt
pub mod Lifetime
pub mod Rotation
mod Tests
