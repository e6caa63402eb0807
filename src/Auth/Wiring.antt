-- ===== src/Auth/Wiring.antt =====
-- What a configuration that `New` accepts has been wired to.
use kal.Base.{
  ◌≤◌, Bool, true, false, not, Option, none, some, List, [], ◌∷◌, ◌≡◌, ◌⊎◌, refl, ap, subst, arith,
  Text, is_empty, is_ident, if◌then◌else◌, length, Bool-cases, inl, inr,
}
use kal.Base.Int.{AtMost, lt_int-AtMost}
use kal.Kalerr.{Result, ok, err, Failure}
use kal.World.{World, fail_if, lift}
use kal.World.Outcome.{pure-eq-ok, >>=-eq-ok, then-eq-ok}
use kal.Authz.Roles.{Roles, new_roles}
use kal.Session.Sessions.{Sessions, Options, new_sessions}
use kal.Session.Jwt.{Jwt, new_jwt}
use kal.Authn.Password.{Kdf, Hasher, validate_password}
use kal.Authn.Accounts.Config.{
  Url, Accounts, AccountsOptions, validate_base_url, new_accounts, or_validate_password,
}
use kal.E2ee.Params.{Vaults, new_vaults}
use kal.E2ee.Params
use kal.E2ee.Secret.{validate_auth_secret}
use kal.Auth.{
  two_hashers, choose_hasher, choose_vaults, choose_jwt, secret_shape, new, present,
  session_options, accounts_options, assembled,
}
use kal.Auth.Setup.{Config, Auth}

-- Empty, or an identifier that can stand unquoted.
abbrev pub IsSchema : Text → Type 0
IsSchema s = (is_empty s ≡ true) ⊎ (is_ident s ≡ true)

new_roles-ok :
    (schema : Text) {r : Roles} → new_roles schema ≡ ok r → (r.schema ≡ schema) × IsSchema schema
unfolding new_roles
new_roles-ok schema h = (
  ground arith,
  elim (Bool-cases (is_empty schema)) [ inl e ↦ inl e | inr e ↦ inr (ground arith) ],
)

new_sessions-ok :
    (o : Options) {s : Sessions}
    → new_sessions o ≡ ok s
    → (s.schema ≡ o.schema) × (AtMost s.idle s.absolute)
unfolding new_sessions
new_sessions-ok o {s} h = (ground arith, lt_int-AtMost s.idle s.absolute (ground arith))

-- The vaults and the shape of a secret belong together.
abbrev pub Matched : {Answer : Type 0} → Config Answer → Auth Answer → Type 0
Matched cfg a =
    ((cfg.e2ee ≡ none) × (a.vaults ≡ none) × (a.accounts.secret_shape ≡ validate_password))
    ⊎ ((o : Params.Options) × (v : Vaults) × (cfg.e2ee ≡ some o)
        × (a.vaults ≡ some v)
        × (v.schema ≡ cfg.table_schema)
        × (32 ≤ length v.pepper)
        × (a.accounts.secret_shape ≡ validate_auth_secret))

new_vaults-ok :
    (o : Params.Options) {u : Vaults}
    → new_vaults o ≡ ok u
    → (u.schema ≡ o.schema) × (32 ≤ length u.pepper)
unfolding new_vaults
new_vaults-ok o h = (ground arith, ground arith)

choose_vaults-some :
    (schema : Text) (o : Params.Options) (v : Option Vaults)
    → choose_vaults schema (some o) ≡ ok v
    → (u : Vaults) × (v ≡ some u) × (u.schema ≡ schema) × (32 ≤ length u.pepper)
unfolding choose_vaults
choose_vaults-some schema o v h = by_result (new_vaults (record o { schema = schema })) refl h
  where
    by_result :
        (r : Result Vaults)
        → new_vaults (record o { schema = schema }) ≡ r
        → ◌≡◌ {A = Result (Option Vaults)} (elim r [ ok u ↦ ok (some u) | err e ↦ err e ]) (ok v)
        → (u : Vaults) × (v ≡ some u) × (u.schema ≡ schema) × (32 ≤ length u.pepper)
    by_result (err e) q g = absurd (cc g)
    by_result (ok u) q g =
        let (same, long) = new_vaults-ok (record o { schema = schema }) q in (u, cc g, same, long)

-- The bearer tokens are there exactly if an issuer is named.
abbrev pub Signs : Text → List Text → Option Jwt → Type 0
Signs issuer keys j =
    ((is_empty issuer ≡ true) × (keys ≡ []) × (j ≡ none))
    ⊎ ((t : Jwt) × (is_empty issuer ≡ false) × (j ≡ some t) × (t.issuer ≡ issuer))

module _ (public sha256 : Text → Text) where
  new_jwt-issuer :
      (issuer k : Text) (ks : List Text) {t : Jwt}
      → new_jwt public sha256 issuer (k ∷ ks) ≡ ok t
      → t.issuer ≡ issuer
  unfolding new_jwt
  new_jwt-issuer issuer k ks h = ground arith

  choose_jwt-Signs :
      (issuer : Text) (keys : List Text) (j : Option Jwt)
      → choose_jwt public sha256 issuer keys ≡ ok j
      → Signs issuer keys j
  unfolding choose_jwt
  choose_jwt-Signs issuer [] j h = elim (Bool-cases (is_empty issuer)) [
    | inl e ↦ inl (e, refl, cc (rw e at h))
    | inr e ↦ absurd (cc (rw e at h))
  ]
  choose_jwt-Signs issuer (k ∷ ks) j h =
      by_result (is_empty issuer) _ (new_jwt public sha256 issuer (k ∷ ks)) refl refl h
    where
      by_result :
          (b : Bool) (x : Failure) (r : Result Jwt)
          → is_empty issuer ≡ b
          → new_jwt public sha256 issuer (k ∷ ks) ≡ r
          → (if b then err x else present r) ≡ ok j
          → Signs issuer (k ∷ ks) j
      by_result true x r e q g = absurd (cc g)
      by_result false x (err y) e q g = absurd (cc g)
      by_result false x (ok t) e q g = inr (t, e, cc g, new_jwt-issuer issuer k ks q)

module _ (parse : Text → Result Url) (loopback : Text → Bool) where
  new_accounts-ok :
      (o : AccountsOptions) (h : Hasher) (s : Sessions) {a : Accounts}
      → o.hasher ≡ some h
      → o.sessions ≡ some s
      → new_accounts parse loopback o ≡ ok a
      → (a.hasher ≡ h)
        × (a.sessions ≡ s)
        × (a.schema ≡ o.schema)
        × (a.secret_shape ≡ or_validate_password parse loopback o.secret_shape)
  unfolding new_accounts
  new_accounts-ok o h s e f g = (ground arith, ground arith, ground arith, ground arith)

not-false : (b : Bool) → not b ≡ false → b ≡ true
not-false b h = ground arith

fail_if-eq-ok :
    (b : Bool) (e : Failure) (w : World) {w' : World}
    → fail_if b e w ≡ (ok tt, w')
    → (b ≡ false) × (w ≡ w')
fail_if-eq-ok false e w h = (refl, cc h)
fail_if-eq-ok true e w h = absurd (cc h)

lift-eq-ok :
    {A : Type 0} (r : Result A) (w : World) {a : A} {w' : World} → lift r w ≡ (ok a, w') → r ≡ ok a
lift-eq-ok r w h = ap (λ (p : Result _ × World). p.0) h

-- What is known of a wired library.
abbrev pub Wired :
    {Answer : Type 0} → (Text → Result Url) → (Text → Bool) → Config Answer → Auth Answer → Type 0
Wired parse loopback cfg a =
    (cfg.has_db ≡ true)
    × (cfg.mailer ≡ true)
    × (validate_base_url parse loopback cfg.base_url ≡ ok tt)
    × (two_hashers cfg ≡ false)
    × IsSchema cfg.table_schema
    × (a.sessions.schema ≡ cfg.table_schema)
    × (a.accounts.schema ≡ cfg.table_schema)
    × (a.roles.schema ≡ cfg.table_schema)
    × (AtMost a.sessions.idle a.sessions.absolute)
    × (a.accounts.sessions ≡ a.sessions)
    × (a.accounts.hasher ≡ a.hasher)
    × Matched cfg a
    × Signs cfg.jwt_issuer cfg.jwt_keys a.jwt

module _ {Answer : Type 0} (k : Kdf) (secret : Text) (parse : Text → Result Url)
    (loopback : Text → Bool) (public sha256 : Text → Text) where
  matched :
      (cfg : Config Answer) (a : Auth Answer)
      → choose_vaults cfg.table_schema cfg.e2ee ≡ ok a.vaults
      → a.accounts.secret_shape ≡ or_validate_password parse loopback (secret_shape cfg.e2ee)
      → Matched cfg a
  unfolding choose_vaults
  matched cfg a v s = by_option cfg.e2ee refl v s
    where
      by_option :
          (o : Option Params.Options)
          → cfg.e2ee ≡ o
          → choose_vaults cfg.table_schema o ≡ ok a.vaults
          → a.accounts.secret_shape ≡ or_validate_password parse loopback (secret_shape o)
          → Matched cfg a
      by_option none e q r = inl (e, cc q, r)
      by_option (some o) e q r =
          let (u, same, schema, long) = choose_vaults-some cfg.table_schema o a.vaults q in
          inr (o, u, e, same, schema, long, r)

  -- A library that New returns has a pool, a mailer and a base URL that was accepted; one schema, which
  -- is empty or an identifier, in every part; the accounts use the library's own sessions and hasher;
  -- a session's idle timeout is no longer than its lifetime; there are vaults exactly if they were
  -- asked for, with a pepper of 32 bytes or more, and then the accounts take derived secrets alone, else
  -- passwords under the policy; and there are bearer tokens exactly if an issuer was named.
  pub new-Wired :
      (cfg : Config Answer) (w : World) {a : Auth Answer} {w' : World}
      → new k secret parse loopback public sha256 cfg w ≡ (ok a, w')
      → Wired parse loopback cfg a
  unfolding new
  new-Wired cfg w {a} {w'} h₀ =
      let (w₁, e₁, h₁) = then-eq-ok (fail_if (not cfg.has_db) _) _ w h₀ in
      let (u, w₂, e₂, h₂) =
        >>=-eq-ok (lift (validate_base_url parse loopback cfg.base_url)) _ w₁ h₁ in
      let (w₃, e₃, h₃) = then-eq-ok (fail_if (not cfg.mailer) _) _ w₂ h₂ in
      let (w₄, e₄, h₄) = then-eq-ok (fail_if (two_hashers cfg) _) _ w₃ h₃ in
      let (hasher, w₅, e₅, h₅) = >>=-eq-ok (choose_hasher k secret cfg) _ w₄ h₄ in
      let (sessions, w₆, e₆, h₆) = >>=-eq-ok (lift (new_sessions (session_options cfg))) _ w₅ h₅ in
      let (vaults, w₇, e₇, h₇) =
        >>=-eq-ok (lift (choose_vaults cfg.table_schema cfg.e2ee)) _ w₆ h₆ in
      let (accounts, w₈, e₈, h₈) =
        >>=-eq-ok (lift (new_accounts parse loopback (accounts_options cfg hasher sessions))) _ w₇
          h₇ in
      let (roles, w₉, e₉, h₉) = >>=-eq-ok (lift (new_roles cfg.table_schema)) _ w₈ h₈ in
      let (jwt, v, e, last) =
        >>=-eq-ok (lift (choose_jwt public sha256 cfg.jwt_issuer cfg.jwt_keys)) _ w₉ h₉ in
      let made = assembled cfg sessions accounts roles hasher jwt vaults in
      let same : made ≡ a = pure-eq-ok made v last in
      let (session_schema, ordered) = new_sessions-ok (session_options cfg) (lift-eq-ok _ w₅ e₆) in
      let built =
        new_accounts-ok parse loopback (accounts_options cfg hasher sessions) hasher sessions refl
          refl (lift-eq-ok _ w₇ e₈) in
      let (role_schema, valid) = new_roles-ok cfg.table_schema (lift-eq-ok _ w₈ e₉) in
      subst (Wired parse loopback cfg) same (
        not-false cfg.has_db (fail_if-eq-ok (not cfg.has_db) _ w e₁).0,
        not-false cfg.mailer (fail_if-eq-ok (not cfg.mailer) _ w₂ e₃).0,
        lift-eq-ok (validate_base_url parse loopback cfg.base_url) w₁ e₂,
        (fail_if-eq-ok (two_hashers cfg) _ w₃ e₄).0,
        valid,
        session_schema,
        built.2,
        role_schema,
        ordered,
        built.1,
        built.0,
        matched cfg made (lift-eq-ok (choose_vaults cfg.table_schema cfg.e2ee) w₆ e₇) built.3,
        choose_jwt-Signs public sha256 cfg.jwt_issuer cfg.jwt_keys jwt (lift-eq-ok _ w₉ e),
      )
