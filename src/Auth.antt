-- ===== src/Auth.antt =====
-- kal.go: `New`, and the parts of `Auth` that are mounted in a server.
pub mod Setup
pub mod Wiring
pub mod Mounting
mod Tests
use kal.Base.{
  ℕ, Bool, true, false, not, ◌&&◌, ◌||◌, Option, none, some, List, [], ◌∷◌, Text, codes, is_empty,
  length, ◌==◌, if◌then◌else◌,
}
use mathlib.Core.List.{reverse}
use kal.Base.Int.{ℤ, pos, negsuc}
use kal.Kalerr.{Result, ok, err, Failure, plain, wrapped}
use kal.Authz.Principal.{Context, with_bypass_role}
use kal.Authz.Directive.{DirectiveOptions, Annotation, directive}
use kal.Authz.Roles.{Roles, new_roles}
use kal.Authz.Rls.{Settings, with_rls, with_rls_settings}
use kal.World.{World, Action, pure, fail_if, lift, ◌>>=◌, ◌>>◌}
use kal.Session.Sessions.{Sessions, Options, new_sessions}
use kal.Session.Middleware.{Request, serve}
use kal.Session.Jwt.{Jwt, new_jwt}
use kal.Authn.Params.{Params}
use kal.Authn.Password.{Kdf, Hasher, new_hasher}
use kal.Authn.Accounts.Config.{Url, Accounts, AccountsOptions, validate_base_url, new_accounts}
use kal.E2ee.Params
use kal.E2ee.Params.{Vaults, new_vaults}
use kal.E2ee.Secret.{validate_auth_secret}
use kal.Guard.{GuardLimits}
use kal.Auth.Setup.{Handler, Config, Auth}

abbrev is_some {ℓ} : {A : Type ℓ} → Option A → Bool
is_some none = false
is_some (some a) = true

abbrev is_zero : ℤ → Bool
is_zero (pos n) = n == 0
is_zero (negsuc n) = false

-- `authn.Params{}`.
abbrev pub is_zero_params : Params → Bool
is_zero_params p =
    p.memory == 0 && (p.time == 0 && (p.parallelism == 0 && (p.salt_len == 0 && p.key_len == 0)))

abbrev wrap_kal : {A : Type 0} → Result A → Result A
wrap_kal (ok a) = ok a
wrap_kal (err e) = err (wrapped "kal" e)

abbrev pub two_hashers : {Answer : Type 0} → Config Answer → Bool
two_hashers cfg =
    is_some cfg.hasher
    && (not (is_zero_params cfg.argon2) || not (is_zero cfg.max_concurrent_hashes))

module _ {Answer : Type 0} (k : Kdf) (secret : Text) where
  -- The pre-built hasher, or one of its own.
  unfoldable pub choose_hasher : Config Answer → Action Hasher
  unfolding new_hasher
  choose_hasher cfg = elim cfg.hasher [
    | some h ↦ pure h
    | none ↦ λ w. let (r, w') = new_hasher k cfg.argon2 secret w in (wrap_kal r, w')
  ]

-- The vaults under kal's own schema, whatever schema their options name.
unfoldable pub choose_vaults : Text → Option Params.Options → Result (Option Vaults)
unfolding new_vaults
choose_vaults schema none = ok none
choose_vaults schema (some o) = elim (new_vaults (record o { schema = schema })) [
  | ok v ↦ ok (some v)
  | err e ↦ err e
]

-- Derived secrets where there are vaults, else nil.
abbrev pub secret_shape : Option Params.Options → Option (Text → Result (Unit {0}))
secret_shape none = none
secret_shape (some o) = some validate_auth_secret

abbrev pub present : Result Jwt → Result (Option Jwt)
present (ok j) = ok (some j)
present (err e) = err e

unfoldable pub choose_jwt : (Text → Text) → (Text → Text) → Text → List Text → Result (Option Jwt)
unfolding new_jwt
choose_jwt public sha256 issuer [] =
    if is_empty issuer
    then ok none
    else err (plain "kal: Config.JWTIssuer is set but Config.JWTKeys is empty")
choose_jwt public sha256 issuer (key ∷ keys) =
    if is_empty issuer
    then err (
        plain
          "kal: Config.JWTKeys is set but Config.JWTIssuer is empty — a token nobody can attribute to an issuer is not verifiable")
    else present (new_jwt public sha256 issuer (key ∷ keys))

module _ {Answer : Type 0} (cfg : Config Answer) where
  abbrev pub session_options : Options
  session_options = record {
    idle = cfg.idle_timeout;
    absolute = cfg.absolute_timeout;
    schema = cfg.table_schema;
    audit = cfg.audit;
  }

  abbrev pub accounts_options : Hasher → Sessions → AccountsOptions
  accounts_options hasher sessions = record {
    hasher = some hasher;
    sessions = some sessions;
    mailer = cfg.mailer;
    base_url = cfg.base_url;
    cookie_name = cfg.cookie_name;
    schema = cfg.table_schema;
    secret_shape = secret_shape cfg.e2ee;
    allow_unverified_login = cfg.allow_unverified_login;
    audit = cfg.audit;
  }

  abbrev pub assembled :
      Sessions → Accounts → Roles → Hasher → Option Jwt → Option Vaults → Auth Answer
  assembled sessions accounts roles hasher jwt vaults = record {
    sessions = sessions;
    accounts = accounts;
    roles = roles;
    hasher = hasher;
    jwt = jwt;
    vaults = vaults;
    cfg = cfg;
    mw_opts = record { cookie_name = cfg.cookie_name; client_ip = cfg.client_ip };
  }

module _ {Answer : Type 0} (k : Kdf) (secret : Text) (parse : Text → Result Url)
    (loopback : Text → Bool) (public sha256 : Text → Text) where
  -- `New`.
  unfoldable pub new : Config Answer → Action (Auth Answer)
  unfolding choose_hasher choose_vaults choose_jwt validate_base_url new_sessions new_accounts
      new_roles
  new cfg = do
    fail_if (not cfg.has_db) (plain "kal: Config.DB is required")
    lift (validate_base_url parse loopback cfg.base_url)
    fail_if (not cfg.mailer) (
        plain
          "kal: Config.Mailer is required — a silent no-op means password reset fails at 3am with nothing in any log; use kal.LogMailer{} in development")
    fail_if (two_hashers cfg) (
        plain
          "kal: Config.Hasher is set together with Argon2 or MaxConcurrentHashes — the pre-built hasher already carries both, and silently ignoring a cost parameter is how a deployment ends up hashing at parameters nobody chose")
    hasher ← choose_hasher k secret cfg
    sessions ← lift (new_sessions (session_options cfg))
    vaults ← lift (choose_vaults cfg.table_schema cfg.e2ee)
    accounts ← lift (new_accounts parse loopback (accounts_options cfg hasher sessions))
    roles ← lift (new_roles cfg.table_schema)
    jwt ← lift (choose_jwt public sha256 cfg.jwt_issuer cfg.jwt_keys)
    pure (assembled cfg sessions accounts roles hasher jwt vaults)

module _ {Answer : Type 0} where
  -- The loop over the extra middleware from the last to the first.
  unfoldable pub wrap_backward :
      List (Handler Answer → Handler Answer) → Handler Answer → Handler Answer
  wrap_backward [] next = next
  wrap_backward (v ∷ vs) next = wrap_backward vs (v next)

  -- The wrapper that names the bypass role, if there is one.
  unfoldable pub with_bypass : Text → Handler Answer → Handler Answer
  unfolding with_bypass_role
  with_bypass role inner =
      if is_empty role then inner else (λ ctx r. inner (with_bypass_role ctx role) r)

  -- `Auth.Middleware`.
  unfoldable pub middleware :
      (Text → Text)
      → (Text → Option Text)
      → (Text → Option Text)
      → Auth Answer
      → Handler Answer
      → Handler (Option Answer)
  unfolding serve wrap_backward with_bypass
  middleware sha256 mime split a next ctx r =
      serve sha256 a.sessions mime split a.mw_opts
        (λ c.
          with_bypass a.cfg.bypass_role (wrap_backward (reverse a.cfg.extra_middleware) next) c r)
        ctx r

  -- `Auth.Directive`.
  unfoldable pub directive_options : Auth Answer → DirectiveOptions
  directive_options a = record {
    mfa_window = a.cfg.mfa_window;
    bypass_role = a.cfg.bypass_role;
    proofs = a.cfg.proofs;
  }

  -- `Auth.WithRLS`.
  unfoldable pub auth_with_rls :
      Settings → Auth Answer → Context → (Settings → Action (Unit {0})) → Action (Unit {0})
  unfolding with_rls with_rls_settings
  auth_with_rls session a ctx fn = elim a.cfg.rls_settings [
    | none ↦ with_rls session ctx fn
    | some settings ↦ with_rls_settings session ctx (settings ctx) fn
  ]

-- `DefaultSensitiveFields`.
abbrev pub default_sensitive_fields : List Text
default_sensitive_fields =
    codes "login"
    ∷ codes "register"
    ∷ codes "requestPasswordReset"
    ∷ codes "resetPassword"
    ∷ codes "verifyEmail"
    ∷ codes "acceptInvite"
    ∷ codes "changePassword"
    ∷ []

-- `int(^uint(0) >> 1)` on 64 bits.
abbrev pub max_int : ℕ
max_int = 9_223_372_036_854_775_807

-- Zero takes the default, what is negative the greatest int.
unfoldable pub limit : ℕ → ℤ → ℕ
limit default (pos n) = if n == 0 then default else n
limit default (negsuc n) = max_int

-- `Auth.Configure`: the guard, and whether introspection is off for a context. Suggestions are always
-- off.
unfoldable pub guard_limits : {Answer : Type 0} → Config Answer → GuardLimits
unfolding limit
guard_limits cfg = record {
  sensitive = elim cfg.sensitive_fields [ none ↦ default_sensitive_fields | some fields ↦ fields ];
  max_aliases = limit 100 cfg.max_aliases;
  max_depth = limit 15 cfg.max_depth;
}

-- `MutateOperationContext` of the conditional introspection.
unfoldable pub disable_introspection : {Answer : Type 0} → Config Answer → Context → Bool
disable_introspection cfg ctx = elim cfg.allow_introspection [
  | none ↦ true
  | some allow ↦ not (allow ctx)
]
