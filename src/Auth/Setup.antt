-- ===== src/Auth/Setup.antt =====
-- kal.go: `Config` and `Auth`, and what a request goes through.
use kal.Base.{Bool, Option, List, Text}
use kal.Base.Int.{ℤ}
use kal.Kalerr.{Failure}
use kal.Authz.Principal.{Context}
use kal.Authz.Roles.{Roles}
use kal.World.{Action}
use kal.Session.Sessions.{Sessions}
use kal.Session.Middleware.{Request, MiddlewareOptions}
use kal.Session.Jwt.{Jwt}
use kal.Authn.Params.{Params}
use kal.Authn.Password.{Hasher}
use kal.Authn.Accounts.Config.{Accounts}
use kal.E2ee.Params.{Options, Vaults}

-- `http.Handler`, for an answer of any type.
abbrev pub Handler : Type 0 → Type 0
Handler Answer = Context → Request → Action Answer

-- `has_db`, `mailer` and `audit` tell whether the pool, the mailer and the hook are there. A duration
-- may be negative.
pub record Config (Answer : Type 0) : Type 0 where
  pub has_db : Bool
  pub base_url : Text
  pub mailer : Bool
  pub table_schema : Text
  pub idle_timeout : ℤ
  pub absolute_timeout : ℤ
  pub cookie_name : Text
  pub argon2 : Params
  pub max_concurrent_hashes : ℤ
  pub hasher : Option Hasher
  pub bypass_role : Text
  pub audit : Bool
  pub rls_settings : Option (Context → List (Text × Text))
  pub mfa_window : ℤ
  pub allow_unverified_login : Bool
  pub client_ip : Option (Request → Text)
  pub allow_introspection : Option (Context → Bool)
  pub sensitive_fields : Option (List Text)
  pub max_aliases : ℤ
  pub max_depth : ℤ
  pub jwt_issuer : Text
  pub jwt_keys : List Text
  pub proofs : Option (Context → List Text → Option Failure)
  pub extra_middleware : List (Handler Answer → Handler Answer)
  pub e2ee : Option Options

pub record Auth (Answer : Type 0) : Type 0 where
  pub sessions : Sessions
  pub accounts : Accounts
  pub roles : Roles
  pub hasher : Hasher
  pub jwt : Option Jwt
  pub vaults : Option Vaults
  pub cfg : Config Answer
  pub mw_opts : MiddlewareOptions
