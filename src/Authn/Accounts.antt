-- ===== src/Authn/Accounts.antt =====
-- authn/accounts.go: configuration, the throttle, `Login`, `Logout` and `ChangePassword`.
pub mod Config
pub mod Reading
pub mod Admission
pub mod Throttle
pub mod Readiness
pub mod Opening
pub mod Issuing
pub mod Complete
pub mod Refusal
use kal.Base.{
  ℕ, Bool, true, false, not, ◌&&◌, Option, none, some, List, [], ◌∷◌, Text, String, is_empty,
  text_eq, to_lower, trim_space, if◌then◌else◌, ltb, leb, ◌==◌,
}
use kal.Kalerr.{
  Result, ok, err, Failure, coded, coded_by, plain, no_rows, rate_limited, invalid_credentials,
  unauthenticated,
}
use kal.Authz.Principal.{Principal, Context, require}
use kal.Authz.Audit.{
  Kind, login_ok, login_fail, backoff_open, password_rehash, mail_fail, Detail, nothing, reason,
  prior_failures, window, error, undelivered, Event,
}
use kal.World.{World, Action, pure, fail, fail_if, lift, exec, send, audit, ◌>>=◌, ◌>>◌}
use kal.Session.Cookie.{cookie, clear_cookie}
use kal.Session.Jar.{set_cookie}
use kal.Session.Sessions.{issue, lookup, revoke, rotate}
use kal.Authn.Mailer.{MessageKind, kind_name, Message, suspicious_login, password_changed}
use kal.Authn.Backoff.{delay_for, scope_user, suspicious_failures}
use kal.Authn.Password.{Kdf, Hasher, hash, verify, verify_dummy}
use kal.Authn.Statements.{
  Account, Counter, login_stmt, hash_stmt, update_password_stmt, attempts_stmt, record_user_stmt,
  record_both_stmt, reset_stmt,
}
use kal.Authn.Accounts.Config.{Accounts}

abbrev pub normal : Text → Text
normal email = to_lower (trim_space email)

abbrev pub invalid_login : Failure
invalid_login = coded invalid_credentials "invalid email or password"

-- `invalidCredentials`: the cause is for the log.
abbrev pub invalid_login_by : Failure → Failure
invalid_login_by cause = coded_by invalid_credentials "invalid email or password" cause

abbrev pub too_many : Failure
too_many = coded rate_limited "too many attempts, try again shortly"

abbrev pub about : Kind → Text → Text → Text → Detail → Event
about kind user email ip detail = record {
  kind = kind;
  user_id = user;
  email = email;
  ip = ip;
  at_time = 0;
  detail = detail;
}

-- An action whose failure is only looked at.
abbrev pub attempt : {A : Type 0} → Action A → Action (Result A)
attempt m w = let (r, w') = m w in (ok r, w')

-- `wait > 0 && r.Age < wait.Seconds()`.
unfoldable pub is_open : Counter → Bool
unfolding delay_for
is_open r = let wait = delay_for r.scope r.failures in ltb 0 wait && ltb r.age wait

-- The loop over the counters: the account's failures so far and the first open window.
unfoldable pub scan : ℕ → List Counter → ℕ × Option Counter
unfolding is_open text_eq
scan n [] = (n, none)
scan n (r ∷ rs) =
    let seen = if text_eq r.scope scope_user then r.failures else n in
    let rest = scan seen rs in if is_open r then (seen, some r) else rest

module _ (a : Accounts) where
  abbrev pub judged : Text → Text → ℕ × Option Counter → Action ℕ
  judged email ip (n, none) = pure n
  judged email ip (n, some r) =
      audit a.audit (about backoff_open [] email ip (window r.scope r.failures)) >> fail too_many

  -- What `checkBackoff` does with its rows.
  unfoldable pub judge : Text → Text → List Counter → Action ℕ
  unfolding scan
  judge email ip rows = judged email ip (scan 0 rows)

  unfoldable pub check_backoff : Text → Text → Action ℕ
  unfolding judge
  check_backoff email ip = exec (attempts_stmt email ip) >>= judge email ip

  unfoldable pub record_failure : Text → Text → Action (Unit {0})
  record_failure email ip = do
    attempt
        (if is_empty ip then exec (record_user_stmt email) else exec (record_both_stmt email ip))
    pure tt

  unfoldable pub reset_backoff : Text → Text → Action (Unit {0})
  reset_backoff email ip = do attempt (exec (reset_stmt email ip)); pure tt

  abbrev pub mail : MessageKind → String → String → Text → Message
  mail kind subject text url = record { kind = kind; subject = subject; text = text; url = url }

  -- `notify`: the mailer's own error, which only the audit event carries, is kept as a plain one.
  unfoldable pub notify : Text → Message → Action (Unit {0})
  unfolding kind_name
  notify to m w =
      let (accepted, w') = send to m w in
      if accepted
      then (ok tt, w')
      else audit a.audit
          (about mail_fail [] to [] (undelivered (kind_name m.kind) (plain "mailer"))) w'

module _ (k : Kdf) (sha256 : Text → Text) (parse_ip : Text → Option Text) (a : Accounts) where
  abbrev pub rehash_failed : Text → Result ℕ → Action (Unit {0})
  rehash_failed id (ok n) = pure tt
  rehash_failed id (err e) = audit a.audit (about password_rehash id [] [] (error e))

  abbrev pub store_rehash : Text → Text → Result Text → Action (Unit {0})
  store_rehash id old (err e) = audit a.audit (about password_rehash id [] [] (error e))
  store_rehash id old (ok new) =
      attempt (exec (update_password_stmt new id old)) >>= rehash_failed id

  -- `rehashStored`.
  unfoldable pub rehash_stored : Text → Text → Text → Action (Unit {0})
  unfolding hash
  rehash_stored id password old = attempt (hash k a.hasher password) >>= store_rehash id old

  abbrev pub when : Bool → Action (Unit {0}) → Action (Unit {0})
  when b m = if b then m else pure tt

  abbrev pub revoke_prior : Context → Action (Unit {0})
  revoke_prior ctx = elim ctx.principal [
    | none ↦ pure tt
    | some prior ↦ revoke a.sessions prior.session_id
  ]

  abbrev pub resolved : Option Principal → Action Principal
  resolved none = fail (plain "authn: freshly issued session did not resolve")
  resolved (some p) = pure p

  -- The session that follows a login that was accepted.
  unfoldable pub start_session : Context → Text → Action Principal
  unfolding revoke issue lookup set_cookie
  start_session ctx id = do
    revoke_prior ctx
    token ← issue sha256 a.sessions parse_ip id ctx.meta
    o ← lookup sha256 a.sessions token
    p ← resolved o
    set_cookie ctx (cookie a.cookie_name token)
    pure p

  -- After the password and the verification were accepted.
  unfoldable pub admit : Context → Text → Text → ℕ → Bool → Account → Action Principal
  unfolding rehash_stored start_session notify reset_backoff
  admit ctx email password prior rehash account = do
    when rehash (rehash_stored account.id password account.stored_hash)
    when (leb suspicious_failures prior) (
        notify a email (
          mail a suspicious_login "New sign-in to your account"
            "Your account just signed in successfully after several failed attempts. If this was not you, change your password now."
            []))
    reset_backoff a email ctx.meta.ip
    audit a.audit (about login_ok account.id email ctx.meta.ip (prior_failures prior))
    start_session ctx account.id

  -- An account that is not there, or has no password.
  unfoldable pub refuse_unknown : Context → Text → Text → Action Principal
  unfolding verify_dummy record_failure
  refuse_unknown ctx email password = do
    verify_dummy k a.hasher password
    record_failure a email ctx.meta.ip
    audit a.audit (about login_fail [] email ctx.meta.ip nothing)
    fail invalid_login

  -- What `Login` does with the answer of `Verify`.
  unfoldable pub judge_password :
      Context → Text → Text → ℕ → Account → Bool × Bool → Action Principal
  unfolding admit record_failure
  judge_password ctx email password prior account (false, rehash) = do
    record_failure a email ctx.meta.ip
    audit a.audit (about login_fail account.id email ctx.meta.ip (reason "password"))
    fail invalid_login
  judge_password ctx email password prior account (true, rehash) =
      if not account.verified && not a.allow_unverified
      then audit a.audit (about login_fail account.id email ctx.meta.ip (reason "unverified"))
        >> fail (invalid_login_by (plain "email not verified"))
      else admit ctx email password prior rehash account

  unfoldable pub judge_account : Context → Text → Text → ℕ → Option Account → Action Principal
  unfolding refuse_unknown judge_password verify
  judge_account ctx email password prior none = refuse_unknown ctx email password
  judge_account ctx email password prior (some account) =
      if is_empty account.stored_hash
      then refuse_unknown ctx email password
      else verify k a.hasher password account.stored_hash
        >>= judge_password ctx email password prior account

  -- `Login`.
  unfoldable pub login : Context → Text → Text → Action Principal
  unfolding judge_account check_backoff
  login ctx raw password = do
    prior ← check_backoff a (normal raw) ctx.meta.ip
    account ← exec (login_stmt (normal raw))
    judge_account ctx (normal raw) password prior account

  -- `Logout`.
  unfoldable pub logout : Context → Action (Unit {0})
  unfolding set_cookie revoke
  logout ctx = revoke_prior ctx >> set_cookie ctx (clear_cookie a.cookie_name)

  -- `ChangePassword` once the current password was verified.
  unfoldable pub replace_password : Context → Principal → Text → Text → Text → Action (Unit {0})
  unfolding hash rotate set_cookie notify
  replace_password ctx p old email next = do
    new ← hash k a.hasher next
    n ← exec (update_password_stmt new p.user_id old)
    fail_if (n == 0) (invalid_login_by (plain "password changed concurrently"))
    token ← rotate sha256 a.sessions p.session_id
    set_cookie ctx (cookie a.cookie_name token)
    notify a email (
        mail a password_changed "Your password was changed"
          "Your account password was just changed. If this was not you, reset it immediately and review your sessions."
          [])

  unfoldable pub judge_current :
      Context → Principal → Text → Text → Text → Bool × Bool → Action (Unit {0})
  unfolding replace_password record_failure
  judge_current ctx p old email next (true, rehash) = replace_password ctx p old email next
  judge_current ctx p old email next (false, rehash) =
      record_failure a (to_lower email) ctx.meta.ip >> fail invalid_login

  unfoldable pub judge_owner :
      Context → Principal → Text → Text → Option (Text × Text) → Action (Unit {0})
  unfolding judge_current verify
  judge_owner ctx p current next none =
      fail (coded_by unauthenticated "authentication required" no_rows)
  judge_owner ctx p current next (some (old, email)) =
      if is_empty old
      then fail (invalid_login_by (plain "account has no password"))
      else verify k a.hasher current old >>= judge_current ctx p old email next

  -- `ChangePassword`.
  unfoldable pub change_password : Context → Text → Text → Action (Unit {0})
  unfolding judge_owner
  change_password ctx current next = do
    p ← lift (require ctx)
    lift (a.secret_shape next)
    row ← exec (hash_stmt p.user_id)
    judge_owner ctx p current next row
