-- ===== src/Authn/Accounts/Config.antt =====
-- authn/accounts.go: `NewAccounts` and `ValidateBaseURL`. `net/url` and `net` are parameters.
use kal.Base.{
  Bool, not, ◌&&◌, ◌||◌, Option, none, some, [], ◌∷◌, Text, codes, text_eq, is_empty, is_ident,
  if◌then◌else◌, ◌==◌,
}
use kal.Kalerr.{Result, ok, err, plain, wrapped}
use kal.Session.Sessions.{Sessions}
use kal.Session.Cookie.{cookie_name}
use kal.Authn.Password.{Hasher, validate_password}

-- The parts of a `url.URL` that are looked at.
pub record Url : Type 0 where
  pub scheme : Text
  pub host : Text
  pub hostname : Text
  pub raw_query : Text
  pub fragment : Text

-- `AccountsOptions`. `mailer` tells whether there is one, `audit` whether there is a hook.
pub record AccountsOptions : Type 0 where
  pub hasher : Option Hasher
  pub sessions : Option Sessions
  pub mailer : Bool
  pub base_url : Text
  pub cookie_name : Text
  pub schema : Text
  pub secret_shape : Option (Text → Result (Unit {0}))
  pub allow_unverified_login : Bool
  pub audit : Bool

pub record Accounts : Type 0 where
  pub hasher : Hasher
  pub sessions : Sessions
  pub base_url : Text
  pub cookie_name : Text
  pub secret_shape : Text → Result (Unit {0})
  pub allow_unverified : Bool
  pub audit : Bool
  pub schema : Text

-- `strings.TrimRight(s, "/")`.
unfoldable pub trim_slashes : Text → Text
trim_slashes [] = []
trim_slashes (c ∷ s) =
    let rest = trim_slashes s in if c == 47 && is_empty rest then [] else c ∷ rest

-- `parse` is `url.Parse`, `loopback` is `net.ParseIP` followed by `IsLoopback`.
module _ (parse : Text → Result Url) (loopback : Text → Bool) where
  unfoldable pub is_loopback : Text → Bool
  unfolding text_eq
  is_loopback host = text_eq host (codes "localhost") || loopback host

  unfoldable pub check_url : Url → Result (Unit {0})
  unfolding is_loopback
  check_url u =
      if is_empty u.host
      then err (plain "authn: BaseURL must be absolute, e.g. https://app.example.com")
      else if not (is_empty u.raw_query) || not (is_empty u.fragment)
      then err (plain "authn: BaseURL must not carry a query or fragment")
      else if not (text_eq u.scheme (codes "https")) && not (is_loopback u.hostname)
      then err (plain "authn: BaseURL must be https outside localhost")
      else ok tt

  -- `ValidateBaseURL`.
  unfoldable pub validate_base_url : Text → Result (Unit {0})
  unfolding check_url
  validate_base_url raw =
      if is_empty raw then err (plain "authn: BaseURL is required") else elim (parse raw) [
        | err e ↦ err (wrapped "authn: BaseURL is not a URL" e)
        | ok u ↦ check_url u
      ]

  abbrev pub or_validate_password : Option (Text → Result (Unit {0})) → Text → Result (Unit {0})
  or_validate_password none = validate_password
  or_validate_password (some shape) = shape

  abbrev missing : {A : Type 0} → Result A
  missing = err (plain "authn: Hasher, Sessions and Mailer are all required")

  abbrev build : AccountsOptions → Hasher → Sessions → Result Accounts
  build o hasher sessions =
      if not (is_empty o.schema) && not (is_ident o.schema)
      then err (plain "authn: table schema must match ^[a-z_][a-z0-9_]*$")
      else ok (record {
        hasher = hasher;
        sessions = sessions;
        base_url = trim_slashes o.base_url;
        cookie_name = cookie_name o.cookie_name;
        secret_shape = or_validate_password o.secret_shape;
        allow_unverified = o.allow_unverified_login;
        audit = o.audit;
        schema = o.schema;
      })

  abbrev with_sessions : AccountsOptions → Hasher → Option Sessions → Result Accounts
  with_sessions o hasher none = missing
  with_sessions o hasher (some sessions) =
      if o.mailer
      then elim (validate_base_url o.base_url) [ err e ↦ err e | ok _ ↦ build o hasher sessions ]
      else missing

  -- `NewAccounts`.
  unfoldable pub new_accounts : AccountsOptions → Result Accounts
  unfolding validate_base_url trim_slashes is_ident validate_password
  new_accounts o = elim o.hasher [
    | none ↦ missing
    | some hasher ↦ with_sessions o hasher o.sessions
  ]
