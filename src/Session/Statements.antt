-- ===== src/Session/Statements.antt =====
-- session/sql.go: the statements on auth_sessions, each one atomic at one instant of the database
-- clock.
use kal.Base.{
  ℕ, ◌+◌, ◌*◌, Bool, true, false, not, ◌&&◌, ◌||◌, Option, none, some, List, [], ◌∷◌, Text, text_eq,
  if◌then◌else◌, ltb, leb, find, filter, any, update, length,
}
use kal.Base.Int.{ℤ, shift}
use kal.Kalerr.{ok, err, driver}
use kal.Authz.Principal.{Principal}
use kal.Authz.Directive.{second}
use kal.Store.{Session, User, UserRole}
use kal.World.{Stmt}

abbrev pub is_null : {A : Type 0} → Option A → Bool
is_null none = true
is_null (some a) = false

-- `revoked_at is null and idle_expires_at > now() and expires_at > now()`.
unfoldable pub is_live : ℕ → Session → Bool
is_live now s = is_null s.revoked_at && (ltb now s.idle_expires_at && ltb now s.expires_at)

abbrev pub has_id : Text → Session → Bool
has_id id s = text_eq s.id id

abbrev pub has_hash : Text → Session → Bool
has_hash hash s = text_eq s.token_sha256 hash

unfoldable pub user_exists : Text → List User → Bool
user_exists id users = any (λ u. text_eq u.id id) users

abbrev pub new_session : Text → Text → Text → ℤ → ℤ → Option Text → Option Text → ℕ → Session
new_session id hash user idle absolute ua ip now = record {
  id = id;
  token_sha256 = hash;
  user_id = user;
  created_at = now;
  last_seen_at = now;
  idle_expires_at = shift now idle;
  expires_at = shift now absolute;
  mfa_at = none;
  user_agent = ua;
  ip = ip;
  revoked_at = none;
}

-- `issueSQL`. The primary key, the unique index on the hash and the foreign key to the user can
-- refuse the row.
unfoldable pub issue_stmt : Text → Text → Text → ℤ → ℤ → Option Text → Option Text → Stmt Text
issue_stmt id hash user idle absolute ua ip now db =
    if any (has_id id) db.sessions
      || (any (has_hash hash) db.sessions || not (user_exists user db.users))
    then err driver
    else let row = new_session id hash user idle absolute ua ip now in
      ok (id, record db { sessions = row ∷ db.sessions })

abbrev pub live_with_hash : ℕ → Text → Session → Bool
live_with_hash now hash s = has_hash hash s && is_live now s

abbrev pub is_user : Text → User → Bool
is_user id u = text_eq u.id id && is_null u.deleted_at

-- `array_agg(r.role)` over the left join.
unfoldable pub roles_of : Text → List UserRole → List Text
roles_of user [] = []
roles_of user (r ∷ rs) =
    let rest = roles_of user rs in if text_eq r.user_id user then r.role ∷ rest else rest

abbrev pub touch : ℕ → ℤ → Session → Session
touch now idle s = record s { last_seen_at = now; idle_expires_at = shift now idle }

-- The `touched` CTE: the live row, if it was last seen more than a minute ago.
abbrev pub stale : ℕ → Session → Session → Bool
stale now s r = has_id s.id r && ltb (r.last_seen_at + 60 * second) now

abbrev pub touched : ℕ → ℤ → Session → List Session → List Session
touched now idle s = update (stale now s) (touch now idle)

abbrev pub principal_of : Session → User → List Text → Principal
principal_of s u roles = record {
  user_id = s.user_id;
  session_id = s.id;
  roles = roles;
  auth_at = s.created_at;
  mfa_at = s.mfa_at;
  email = u.email;
  verified = u.email_verified;
}

-- `lookupSQL`. The CTE that refreshes the idle window runs whether or not the join finds a user.
unfoldable pub lookup_stmt : Text → ℤ → Stmt (Option Principal)
lookup_stmt hash idle now db = elim (find (live_with_hash now hash) db.sessions) [
  | none ↦ ok (none, db)
  | some s ↦ ok (
    (elim (find (is_user s.user_id) db.users) [
      | none ↦ none
      | some u ↦ some (principal_of s u (roles_of s.user_id db.user_roles))
    ]),
    record db { sessions = touched now idle s db.sessions },
  )
]

abbrev pub live_with_id : ℕ → Text → Session → Bool
live_with_id now id s = has_id id s && is_live now s

abbrev pub renew : Text → ℕ → ℤ → Session → Session
renew hash now idle s = record s {
  token_sha256 = hash;
  last_seen_at = now;
  idle_expires_at = shift now idle;
}

-- Another row than this one already holds the hash.
unfoldable pub hash_taken : Text → Text → List Session → Bool
hash_taken hash id rows = any (λ s. has_hash hash s && not (has_id id s)) rows

-- `rotateSQL`: the user id of the row, or none.
unfoldable pub rotate_stmt : Text → ℤ → Text → Stmt (Option Text)
rotate_stmt hash idle id now db = elim (find (live_with_id now id) db.sessions) [
  | none ↦ ok (none, db)
  | some s ↦
      if hash_taken hash id db.sessions
      then err driver
      else ok (
        some s.user_id,
        record db { sessions = update (live_with_id now id) (renew hash now idle) db.sessions },
      )
]

abbrev pub live_of_user : ℕ → Text → Text → Session → Bool
live_of_user now id user s = has_id id s && (text_eq s.user_id user && is_live now s)

-- `recordMFASQL`: both ids are matched.
unfoldable pub record_mfa_stmt : Text → Text → Stmt (Option Text)
record_mfa_stmt id user now db = elim (find (live_of_user now id user) db.sessions) [
  | none ↦ ok (none, db)
  | some s ↦ ok (
    some s.id,
    record db {
      sessions =
          update (live_of_user now id user) (λ r. record r { mfa_at = some now }) db.sessions;
    },
  )
]

abbrev pub unrevoked : Text → Session → Bool
unrevoked id s = has_id id s && is_null s.revoked_at

abbrev pub unrevoked_of : Text → Session → Bool
unrevoked_of user s = text_eq s.user_id user && is_null s.revoked_at

abbrev pub revoke_row : ℕ → Session → Session
revoke_row now s = record s { revoked_at = some now }

-- `revokeSQL` and `revokeAllSQL`: the number of rows changed.
unfoldable pub revoke_stmt : Text → Stmt ℕ
revoke_stmt id now db = ok (
  length (filter (unrevoked id) db.sessions),
  record db { sessions = update (unrevoked id) (revoke_row now) db.sessions },
)

unfoldable pub revoke_all_stmt : Text → Stmt ℕ
revoke_all_stmt user now db = ok (
  length (filter (unrevoked_of user) db.sessions),
  record db { sessions = update (unrevoked_of user) (revoke_row now) db.sessions },
)

-- `order by last_seen_at desc`.
insert_recent : Session → List Session → List Session
insert_recent s [] = s ∷ []
insert_recent s (t ∷ ts) =
    let later = t ∷ insert_recent s ts in
    if leb t.last_seen_at s.last_seen_at then s ∷ (t ∷ ts) else later

unfoldable pub by_recency : List Session → List Session
unfolding insert_recent
by_recency [] = []
by_recency (s ∷ ss) = insert_recent s (by_recency ss)

-- `listSQL`.
unfoldable pub list_stmt : Text → Stmt (List Session)
unfolding by_recency
list_stmt user now db =
    ok (by_recency (filter (λ s. text_eq s.user_id user && is_live now s) db.sessions), db)
