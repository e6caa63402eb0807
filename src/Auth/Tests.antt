-- ===== src/Auth/Tests.antt =====
-- A configuration that New accepts, and a request through its middleware.
use kal.Base.{
  List, ℕ, zero, suc, true, false, none, some, [], ◌∷◌, ◌++◌, ◌≡◌, refl, Text, codes, text_eq,
  is_ident, Option,
}
use kal.Base.Int.{pos, negsuc}
use kal.Kalerr.{Result, ok, err}
use kal.Authz.Principal.{background, with_bypass_role}
use kal.World.{World, pure, new_salt}
use kal.Authn.Password.{Kdf, Hasher, new_hasher, derive}
use kal.Authn.Accounts.Config.{Url, validate_base_url, new_accounts}
use kal.E2ee.Params.{of_cost, new_vaults, with_defaults, default_max_blob}
use kal.E2ee.Secret.{validate_auth_secret}
use kal.Session.Cookie.{cookie_name}
use kal.Authn.Params.{defaults}
use kal.Session.Middleware.{Request, serve}
use kal.Session.Sessions.{Sessions, new_sessions, default_idle, default_absolute}
use kal.Authz.Roles.{new_roles}
use kal.Auth.{new, choose_hasher, choose_vaults, choose_jwt, middleware, assembled}
use kal.Auth.Setup.{Config, Auth, Handler}
use kal.Auth.Wiring.{new-Wired, Wired}
use kal.Auth.Mounting.{middleware-nest, nest}

abbrev ones : ℕ → Text
ones zero = []
ones (suc n) = 1 ∷ ones n

abbrev legacy : Kdf
legacy = record {
  id_key = (λ password salt time memory threads len. ones len);
  bcrypt_matches = (λ encoded password. text_eq encoded (codes "$2" ++ password));
}

abbrev same : Text → Text
same t = t

abbrev whole : Text → Option Text
whole t = some t

-- A parser that takes every text for an https URL.
abbrev https : Text → Result Url
https raw =
    ok
      (record { scheme = codes "https"; host = raw; hostname = raw; raw_query = []; fragment = [] })

abbrev start : World
start = record {
  db = record {
    users = [];
    sessions = [];
    tokens = [];
    roles = [];
    user_roles = [];
    attempts = [];
    vaults = [];
  };
  now = 20;
  schedule = [];
  random = [];
  salts = codes "0123456789abcdef" ∷ [];
  slots = [];
  uuids = [];
  clock = 20;
  mailer = [];
  sent = [];
  events = [];
  cookies = [];
}

abbrev config : Config Text
config = record {
  has_db = true;
  base_url = codes "https://app.example.com";
  mailer = true;
  table_schema = codes "tenant_a";
  idle_timeout = pos 0;
  absolute_timeout = pos 0;
  cookie_name = [];
  argon2 = record { memory = 0; time = 0; parallelism = 0; salt_len = 0; key_len = 0 };
  max_concurrent_hashes = pos 0;
  hasher = none;
  bypass_role = codes "admin";
  audit = false;
  rls_settings = none;
  mfa_window = pos 0;
  allow_unverified_login = false;
  client_ip = none;
  allow_introspection = none;
  sensitive_fields = none;
  max_aliases = negsuc 0;
  max_depth = negsuc 0;
  jwt_issuer = [];
  jwt_keys = [];
  proofs = none;
  extra_middleware = [];
  e2ee = some (record {
    pepper = ones 32;
    default_params = of_cost 0 0;
    floor = of_cost 0 0;
    max_blob = pos 0;
    schema = codes "elsewhere";
    allow_no_recovery = false;
  });
}

abbrev made_hasher : Hasher
made_hasher = record {
  params = defaults config.argon2;
  dummy = derive legacy (defaults config.argon2) (codes "secret") (codes "0123456789abcdef");
}

abbrev made_sessions : Sessions
made_sessions = record {
  idle = pos default_idle;
  absolute = pos default_absolute;
  audit = false;
  schema = codes "tenant_a";
}

abbrev made : Auth Text
made =
    assembled config made_sessions
      (record {
        hasher = made_hasher;
        sessions = made_sessions;
        base_url = codes "https://app.example.com";
        cookie_name = cookie_name [];
        secret_shape = validate_auth_secret;
        allow_unverified = false;
        audit = false;
        schema = codes "tenant_a";
      })
      (record { schema = codes "tenant_a" }) made_hasher none
      (some (record {
        pepper = ones 32;
        def = with_defaults (of_cost 0 0) (of_cost 65536 3);
        floor = with_defaults (of_cost 0 0) (of_cost 19456 2);
        max_blob = default_max_blob;
        allow_no_recovery = false;
        schema = codes "tenant_a";
      }))

new-Wired_example : Wired https (λ h. false) config made
unfolding new new_hasher new_salt text_eq validate_base_url new_sessions new_accounts new_roles
    is_ident new_vaults choose_hasher choose_vaults choose_jwt
new-Wired_example =
    new-Wired legacy (codes "secret") https (λ h. false) same same config start {a = made}
      {w' = record start { salts = [] }} refl

abbrev request : Request
request = record {
  method = codes "POST";
  kal_operation = codes "Me";
  requested_with = [];
  content_type = codes "application/json";
  user_agent = [];
  remote_addr = codes "10.0.0.1";
  cookies = λ name. none;
}

abbrev next_handler : Handler Text
next_handler c r = pure (codes "done")

-- Two extra middlewares, each of which writes its mark before the answer of what it wraps.
abbrev marking : Text → Handler Text → Handler Text
marking mark next c r w = elim (next c r w).0 [
  | ok answer ↦ (ok (mark ++ answer), (next c r w).1)
  | err e ↦ (err e, (next c r w).1)
]

abbrev extra : List (Handler Text → Handler Text)
extra = marking (codes "a") ∷ marking (codes "b") ∷ []

abbrev extended : Auth Text
extended = record made { cfg = record config { extra_middleware = extra } }

middleware-nest_example :
    middleware same whole whole extended next_handler background request start
    ≡ serve same extended.sessions whole whole extended.mw_opts
        (λ c. nest extra next_handler (with_bypass_role c (codes "admin")) request)
        background
        request
        start
middleware-nest_example =
    middleware-nest same whole whole extended next_handler background request start
