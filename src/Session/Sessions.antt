-- ===== src/Session/Sessions.antt =====
-- session/session.go and token.go. `sha256` stands for `crypto/sha256` on the string form of a token.
use kal.Base.{
  ℕ, ◌*◌, Bool, not, ◌&&◌, Option, none, some, List, [], Text, is_empty, is_ident, if◌then◌else◌,
  ltb, ◌==◌,
}
use kal.Base.Int.{ℤ, pos, negsuc, lt_int}
use kal.Base.Sort.{sort_texts}
use kal.Kalerr.{Result, ok, err, Failure, coded, coded_by, no_rows, invalid_input, unauthenticated}
use kal.Authz.Principal.{Principal, Meta}
use kal.Authz.Directive.{second}
use kal.Authz.Audit.{Event, session_revoked, one_session, all_sessions}
use kal.Store.{Session}
use kal.World.{Action, pure, fail, exec, new_token, new_uuid, audit, ◌>>=◌, ◌>>◌}
use kal.Session.Statements.{
  issue_stmt, lookup_stmt, rotate_stmt, record_mfa_stmt, revoke_stmt, revoke_all_stmt, list_stmt,
}

abbrev pub hour : ℕ
hour = 60 * (60 * second)

abbrev pub default_idle : ℕ
default_idle = 12 * hour

abbrev pub default_absolute : ℕ
default_absolute = 14 * (24 * hour)

-- A duration may be negative, as `time.Duration` is. `audit` tells whether the hook is set;
-- `net.ParseIP` followed by `String` is the argument `parse_ip` of `issue`.
pub record Options : Type 0 where
  pub idle : ℤ
  pub absolute : ℤ
  pub schema : Text
  pub audit : Bool

-- The rendered statements differ in the schema qualifier alone, which is kept in their place.
pub record Sessions : Type 0 where
  pub idle : ℤ
  pub absolute : ℤ
  pub audit : Bool
  pub schema : Text

abbrev or_default : ℤ → ℕ → ℤ
or_default (pos n) d = pos (if n == 0 then d else n)
or_default (negsuc n) d = negsuc n

abbrev pub bad_schema : Failure
bad_schema = coded invalid_input "table schema must match ^[a-z_][a-z0-9_]*$"

unfoldable pub new_sessions : Options → Result Sessions
new_sessions o =
    if lt_int (or_default o.absolute default_absolute) (or_default o.idle default_idle)
    then err
        (coded invalid_input "session absolute lifetime must not be shorter than the idle timeout")
    else if not (is_empty o.schema) && not (is_ident o.schema)
    then err bad_schema
    else ok (record {
      idle = or_default o.idle default_idle;
      absolute = or_default o.absolute default_absolute;
      audit = o.audit;
      schema = o.schema;
    })

abbrev pub no_longer_valid : Failure
no_longer_valid = coded_by unauthenticated "session is no longer valid" no_rows

abbrev pub sorted_roles : Option Principal → Option Principal
sorted_roles none = none
sorted_roles (some p) = some (record p { roles = sort_texts p.roles })

abbrev pub revocation : Text → Text → Event
revocation user id = record {
  kind = session_revoked;
  user_id = user;
  email = [];
  ip = [];
  at_time = 0;
  detail = one_session id;
}

-- An empty user agent is stored as null.
abbrev pub non_empty : Text → Option Text
non_empty t = if is_empty t then none else some t

abbrev pub or_no_longer_valid : {A : Type 0} → A → Option Text → Action A
or_no_longer_valid a none = fail no_longer_valid
or_no_longer_valid a (some id) = pure a

module _ (sha256 : Text → Text) where
  unfoldable pub issue : Sessions → (Text → Option Text) → Text → Meta → Action Text
  issue s parse_ip user meta = do
    token ← new_token
    id ← new_uuid
    exec (
        issue_stmt id (sha256 token) user s.idle s.absolute (non_empty meta.user_agent)
          (parse_ip meta.ip))
    pure token

  unfoldable pub lookup : Sessions → Text → Action (Option Principal)
  lookup s token = do p ← exec (lookup_stmt (sha256 token) s.idle); pure (sorted_roles p)

  -- What `Rotate` does with its new token.
  abbrev pub swap_in : Sessions → Text → Text → Action Text
  swap_in s session_id token = do
    user ← exec (rotate_stmt (sha256 token) s.idle session_id)
    or_no_longer_valid token user

  unfoldable pub rotate : Sessions → Text → Action Text
  rotate s session_id = new_token >>= swap_in s session_id

unfoldable pub record_mfa : Text → Text → Action (Unit {0})
record_mfa session_id user = do
  id ← exec (record_mfa_stmt session_id user)
  elim id [ none ↦ fail no_longer_valid | some _ ↦ pure tt ]

abbrev pub audit_if : Bool → Bool → Event → Action (Unit {0})
audit_if changed hook e = if changed then audit hook e else pure tt

-- An event is emitted only when a row changed.
unfoldable pub revoke : Sessions → Text → Action (Unit {0})
revoke s session_id = do
  n ← exec (revoke_stmt session_id)
  audit_if (ltb 0 n) s.audit (revocation [] session_id)

unfoldable pub revoke_all_for_user : Sessions → Text → Action (Unit {0})
revoke_all_for_user s user = do
  n ← exec (revoke_all_stmt user)
  audit_if (ltb 0 n) s.audit (record (revocation user []) { detail = all_sessions n })

-- The rows of one user, as `Info` shows them to their owner.
unfoldable pub list_sessions : Text → Action (List Session)
list_sessions user = exec (list_stmt user)
