-- ===== src/Authn.antt =====
-- authn/: passwords, the throttle, the credential flows and the emailed tokens.
pub mod Mailer
pub mod Backoff
pub mod Params
pub mod Phc
pub mod Password
pub mod Statements
pub mod Accounts
pub mod Frame
pub mod Tokens
mod Tests
