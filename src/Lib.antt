-- ===== src/Lib.antt =====
-- kal: authentication and authorization for gqlgen applications on Postgres. This library follows the
-- Go packages of the repository.
--
-- The program's parts, and how they interact. A request carries a context (authz/principal.go); the
-- session package turns a cookie's token into the context's principal, by one statement on the table
-- auth_sessions; the authn package checks passwords, throttles guessing, and starts and ends those
-- sessions; emailed tokens confirm addresses and recover accounts; the authz package decides calls of
-- resolvers; the e2ee package keeps one wrapped key per user beside the account.
--
--   Kalerr      kalerr/errors.go: codes, error chains, the presenter.
--   Authz       authz/: Principal (principal.go, the context keys of scope.go), Membership (hasRole,
--               HasRole, anyRole), Directive (Directive, its decision in Directive/Decision), Audit,
--               Roles (roles.go and its sql.go; the set they keep in Roles/Assignments), Scope (Scope of
--               scope.go), Rls (rls.go), Coverage (coverage.go).
--   Session     session/: Statements (sql.go), Sessions (session.go), Cookie, Jar,
--               Middleware (middleware.go), Jwt (jwt.go, its JWKS in Jwt/Jwks). Table is the life of
--               auth_sessions as a step relation over all statements and clients.
--   Guard       guard.go: the interceptor that counts the selections of a document.
--   Orm         what the code uses of go-pg's query builder and luima's helpers, as an interface.
--   Scoped      scoped.go: List, Get, Update and Delete under the ownership predicate.
--   Migrate     migrate.go and migrations/migrations.go.
--   Auth        kal.go: New and what it wires, the middleware, the limits of the guard, introspection.
--   Authn       authn/: Params, Phc and Password (password.go), Backoff, Mailer, Statements (sql.go),
--               Accounts (accounts.go, configuration in Accounts/Config), Tokens (tokens.go). The other
--               modules under Accounts and Tokens are about what these do.
--   E2ee        e2ee/: Params, Statements (sql.go), Vaults (e2ee.go), Secret (ValidateAuthSecret).
--               Writes inverts the statement of Put, for the modules about what it does.
--   Store       migrations/: the tables as lists of rows, with the columns' names.
--   World       what a method runs against: the database and its clock, the driver's failures, the
--               random source, the mailer, the audit hook and the response's cookies. A method is an
--               action on it; a statement is atomic at one instant, and the time between two statements
--               and the failure of each are given by a schedule. Outcome inverts an action by its
--               result, Frame tells what an action leaves alone.
--   Base64      encoding/base64 as kal uses it, without padding, strict and not.
--   Base        lists, Boolean tests, signed integers, text, decimal printing and scanning, query escaping.
--
-- Functions keep the names of the Go code in lower case with underscores; `x_stmt` is the statement
-- `xSQL`. A Go error is a `Failure`, a pair of a value and an error a `Result`. A string is the list of
-- its code points, a byte slice the list of its bytes. Instants and durations count nanoseconds.
-- Letter case is folded for ASCII letters only.
-- The timeouts of a session and the MFA window are signed (Base/Int), as `time.Duration` is; what would
-- lie before the first instant is the first instant. A panic of the Argon2 package is an error here.
--
-- Bounds and fuel. Printing a decimal takes fuel above the number, which is enough because every
-- division by ten is smaller; no other function needs fuel. A column `int` bounds what a vault stores.
-- Counters of failures and versions are far below the limits of their columns and are not wrapped.
--
-- Not modelled: the cryptographic functions (SHA-256, HMAC, Argon2id, bcrypt), which are parameters;
-- net/url and net; the schema qualifier inside the statements' text; logging; the scheduling of the
-- hashing semaphore beyond whether a caller gets its slot in time; the bytes
-- of responses; the rendering of JWKS as JSON; what a migration script does; go-pg, luima and gqlgen,
-- which are parameters or data.
pub mod Base
pub mod Kalerr
pub mod Base64
pub mod Authz
pub mod Session
pub mod Authn
pub mod Store
pub mod World
pub mod E2ee
pub mod Guard
pub mod Orm
pub mod Scoped
pub mod Migrate
pub mod Auth
