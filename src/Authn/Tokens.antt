-- ===== src/Authn/Tokens.antt =====
-- authn/tokens.go: registration, recovery, verification and invitations, by emailed tokens.
pub mod Statements
pub mod Burn
pub mod Recovery
pub mod Silent
use kal.Base.{
  ℕ, ◌*◌, Bool, true, false, not, ◌||◌, Option, none, some, List, [], ◌∷◌, ◌++◌, Text, codes,
  is_empty, contains_code, if◌then◌else◌, String,
}
use kal.Base.Escape.{query_escape}
use kal.Kalerr.{Result, ok, err, Failure, coded, coded_by, no_rows, invalid_input, invalid_token}
use kal.World.{World, Action, pure, fail, fail_if, lift, exec, new_token, new_uuid, ◌>>=◌, ◌>>◌}
use kal.Session.Sessions.{hour, revoke_all_for_user}
use kal.Authz.Directive.{second}
use kal.Authn.Mailer.{
  MessageKind, Message, verify, reset, invite, attempted_register, reset_no_account,
  password_changed,
}
use kal.Authn.Password.{Kdf, hash}
use kal.Authn.Statements.{
  insert_user_stmt, user_id_stmt, email_stmt, set_password_stmt, mark_verified_stmt,
}
use kal.Authn.Accounts.{normal, notify, mail, attempt}
use kal.Authn.Accounts.Config.{Accounts}
use kal.Authn.Tokens.Statements.{insert_token_stmt, consume_stmt}

abbrev pub purpose_verify : Text
purpose_verify = codes "verify"

abbrev pub purpose_reset : Text
purpose_reset = codes "reset"

abbrev pub purpose_invite : Text
purpose_invite = codes "invite"

abbrev pub verify_ttl : ℕ
verify_ttl = 24 * hour

abbrev pub reset_ttl : ℕ
reset_ttl = 15 * (60 * second)

abbrev pub invite_ttl : ℕ
invite_ttl = 7 * (24 * hour)

abbrev pub bad_link : Failure
bad_link = coded_by invalid_token "this link is invalid or has expired" no_rows

abbrev pub bad_email : Failure
bad_email = coded invalid_input "a valid email address is required"

-- `email == "" || !strings.Contains(email, "@")`.
unfoldable pub is_bad_email : Text → Bool
unfolding contains_code
is_bad_email email = is_empty email || not (contains_code 64 email)

-- `link`.
unfoldable pub link : Accounts → Text → Text → Text
unfolding query_escape
link a kind token = a.base_url ++ (47 ∷ (kind ++ (codes "?token=" ++ query_escape token)))

abbrev pub or_bad_link : Option Text → Action Text
or_bad_link none = fail bad_link
or_bad_link (some user) = pure user

-- `consume`; `sha256` stands for `session.HashToken`.
unfoldable pub consume : (Text → Text) → Text → Text → Action Text
unfolding consume_stmt
consume sha256 token purpose = exec (consume_stmt (sha256 token) purpose) >>= or_bad_link

-- Issues a token for a user, and mails it.
unfoldable pub mint : (Text → Text) → Text → ℕ → Text → Action Text
unfolding insert_token_stmt
mint sha256 purpose ttl user = do
  token ← new_token
  exec (insert_token_stmt (sha256 token) user purpose ttl)
  pure token

module _ (sha256 : Text → Text) (a : Accounts) where
  abbrev no_account_mail : Message
  no_account_mail =
      mail a reset_no_account "Password reset requested"
        "Someone asked to reset a password for this address, but no account exists here. If this was you, you may want to register."
        a.base_url

  abbrev reset_mail : Text → Message
  reset_mail token =
      mail a reset "Reset your password"
        "Open this link to choose a new password. It expires in 15 minutes, and using it signs you out everywhere."
        (link a (codes "reset") token)

  unfoldable pub answer_reset : Text → Option Text → Action (Unit {0})
  unfolding mint notify link
  answer_reset email none = notify a email no_account_mail
  answer_reset email (some user) = do
    token ← mint sha256 purpose_reset reset_ttl user
    notify a email (reset_mail token)

  -- `RequestPasswordReset`.
  unfoldable pub request_password_reset : Text → Action (Unit {0})
  unfolding answer_reset
  request_password_reset raw = do
    user ← exec (user_id_stmt (normal raw))
    answer_reset (normal raw) user

module _ (k : Kdf) (sha256 : Text → Text) (a : Accounts) where
  abbrev confirm_mail : Text → Message
  confirm_mail token =
      mail a verify "Confirm your email address"
        "Open this link to confirm your email address and finish setting up your account."
        (link a (codes "verify") token)

  abbrev taken_mail : Message
  taken_mail =
      mail a attempted_register "Someone tried to register with your address"
        "An account already exists for this address. If this was you, sign in — or reset your password if you have forgotten it."
        a.base_url

  -- What `Register` does with the answer of its insert.
  unfoldable pub registered : Text → Option Text → Action (Unit {0})
  unfolding mint notify link
  registered email none = notify a email taken_mail
  registered email (some user) = do
    token ← mint sha256 purpose_verify verify_ttl user
    notify a email (confirm_mail token)

  abbrev insert_account : Text → Option Text → Action (Option Text)
  insert_account email password_hash = do
    id ← new_uuid
    exec (insert_user_stmt id email password_hash)

  -- `Register`.
  unfoldable pub register : Text → Text → Action (Unit {0})
  unfolding registered is_bad_email hash insert_user_stmt
  register raw password = do
    fail_if (is_bad_email (normal raw)) bad_email
    lift (a.secret_shape password)
    h ← hash k a.hasher password
    user ← insert_account (normal raw) (some h)
    registered (normal raw) user

  abbrev pub was_reset_mail : Message
  was_reset_mail =
      mail a password_changed "Your password was reset"
        "Your password has been reset and all sessions were signed out. If this was not you, act now."
        []

  abbrev pub tell_owner : Result (Option Text) → Action (Unit {0})
  tell_owner (ok (some email)) = notify a email was_reset_mail
  tell_owner (ok none) = pure tt
  tell_owner (err e) = pure tt

  -- `ResetPassword`.
  unfoldable pub reset_password : Text → Text → Action (Unit {0})
  unfolding consume hash revoke_all_for_user notify
  reset_password token password = do
    lift (a.secret_shape password)
    user ← consume sha256 token purpose_reset
    h ← hash k a.hasher password
    exec (set_password_stmt h user)
    revoke_all_for_user a.sessions user
    email ← attempt (exec (email_stmt user))
    tell_owner email

  -- `VerifyEmail`.
  unfoldable pub verify_email : Text → Action (Unit {0})
  unfolding consume
  verify_email token = do user ← consume sha256 token purpose_verify; exec (mark_verified_stmt user)

  abbrev invite_mail : Text → Message
  invite_mail url =
      mail a invite "You have been invited"
        "Open this link to choose a password and activate your account." url

  abbrev no_user : Option Text → Action Text
  no_user none = fail no_rows
  no_user (some user) = pure user

  -- An address that is already a live account is invited again.
  abbrev or_member : Text → Option Text → Action Text
  or_member email (some user) = pure user
  or_member email none = exec (user_id_stmt email) >>= no_user

  -- `Invite`.
  unfoldable pub invite_user : Text → Action Text
  unfolding mint notify link is_bad_email insert_user_stmt
  invite_user raw = do
    fail_if (is_bad_email (normal raw)) bad_email
    created ← insert_account (normal raw) none
    user ← or_member (normal raw) created
    token ← mint sha256 purpose_invite invite_ttl user
    notify a (normal raw) (invite_mail (link a (codes "invite") token))
    pure (link a (codes "invite") token)

  -- `AcceptInvite`.
  unfoldable pub accept_invite : Text → Text → Action (Unit {0})
  unfolding consume hash
  accept_invite token password = do
    lift (a.secret_shape password)
    user ← consume sha256 token purpose_invite
    h ← hash k a.hasher password
    exec (set_password_stmt h user)
    exec (mark_verified_stmt user)
