-- ===== src/Authn/Statements.antt =====
-- authn/sql.go: the statements on auth_users and auth_login_attempts that the credential flows run.
use kal.Base.{
  ℕ, ◌+◌, ◌-◌, Bool, true, false, not, ◌&&◌, ◌||◌, Option, none, some, List, [], ◌∷◌, Text, text_eq,
  to_lower, if◌then◌else◌, find, filter, any, update, length,
}
use kal.Kalerr.{ok, err, driver}
use kal.Store.{User, Attempt}
use kal.World.{Stmt}
use kal.Session.Statements.{is_null, is_user, user_exists}
use kal.Authn.Backoff.{scope_user, scope_ip}

-- `lower(email) = ? and deleted_at is null`.
abbrev pub has_email : Text → User → Bool
has_email email u = text_eq (to_lower u.email) email && is_null u.deleted_at

-- `coalesce(password_hash, '')`.
abbrev pub hash_of : User → Text
hash_of u = elim u.password_hash [ none ↦ [] | some h ↦ h ]

-- The columns that a login reads.
pub record Account : Type 0 where
  pub id : Text
  pub stored_hash : Text
  pub verified : Bool

-- `loginSelectSQL`.
unfoldable pub login_stmt : Text → Stmt (Option Account)
unfolding find to_lower text_eq
login_stmt email now db = elim (find (has_email email) db.users) [
  | none ↦ ok (none, db)
  | some u ↦
      ok (some (record { id = u.id; stored_hash = hash_of u; verified = u.email_verified }), db)
]

-- `hashByIDSQL`: the stored hash and the address.
unfoldable pub hash_stmt : Text → Stmt (Option (Text × Text))
unfolding find text_eq
hash_stmt id now db = elim (find (is_user id) db.users) [
  | none ↦ ok (none, db)
  | some u ↦ ok (some (hash_of u, u.email), db)
]

-- `id = ? and password_hash = ?`: a null is equal to nothing.
abbrev pub holds_hash : Text → Text → User → Bool
holds_hash id old u =
    text_eq u.id id && elim u.password_hash [ none ↦ false | some h ↦ text_eq h old ]

abbrev pub with_hash : ℕ → Text → User → User
with_hash now new u = record u { password_hash = some new; updated_at = now }

-- `updatePasswordSQL`: the number of rows changed.
unfoldable pub update_password_stmt : Text → Text → Text → Stmt ℕ
unfolding filter update text_eq
update_password_stmt new id old now db = ok (
  length (filter (holds_hash id old) db.users),
  record db { users = update (holds_hash id old) (with_hash now new) db.users },
)

-- `setPasswordSQL` and `markVerifiedSQL`.
unfoldable pub set_password_stmt : Text → Text → Stmt (Unit {0})
unfolding update text_eq
set_password_stmt new id now db =
    ok (tt, record db { users = update (λ u. text_eq u.id id) (with_hash now new) db.users })

unfoldable pub mark_verified_stmt : Text → Stmt (Unit {0})
unfolding update text_eq
mark_verified_stmt id now db = ok (
  tt,
  record db {
    users =
        update (λ u. text_eq u.id id) (λ u. record u { email_verified = true; updated_at = now })
          db.users;
  },
)

abbrev pub has_key : Text → Text → Attempt → Bool
has_key scope key a = text_eq a.scope scope && text_eq a.key key

-- `(scope, key) in (('user', ?), ('ip', ?))`.
abbrev pub is_attempt : Text → Text → Attempt → Bool
is_attempt email ip a = has_key scope_user email a || has_key scope_ip ip a

-- A counter and its age on the database's clock, in nanoseconds where the query has seconds.
pub record Counter : Type 0 where
  pub scope : Text
  pub failures : ℕ
  pub age : ℕ

abbrev pub counters : ℕ → List Attempt → List Counter
counters now [] = []
counters now (a ∷ rest) =
    record { scope = a.scope; failures = a.failures; age = now - a.last_fail } ∷ counters now rest

-- `attemptsSQL`.
unfoldable pub attempts_stmt : Text → Text → Stmt (List Counter)
unfolding filter text_eq
attempts_stmt email ip now db = ok (counters now (filter (is_attempt email ip) db.attempts), db)

-- The upsert of one counter.
unfoldable pub count_failure : ℕ → Text → Text → List Attempt → List Attempt
unfolding any update text_eq
count_failure now scope key rows =
    if any (has_key scope key) rows
    then update (has_key scope key) (λ a. record a { failures = a.failures + 1; last_fail = now })
        rows
    else record { scope = scope; key = key; failures = 1; last_fail = now } ∷ rows

-- `recordUserSQL` and `recordBothSQL`.
unfoldable pub record_user_stmt : Text → Stmt (Unit {0})
unfolding count_failure
record_user_stmt email now db =
    ok (tt, record db { attempts = count_failure now scope_user email db.attempts })

unfoldable pub record_both_stmt : Text → Text → Stmt (Unit {0})
unfolding count_failure
record_both_stmt email ip now db = ok (
  tt,
  record db {
    attempts = count_failure now scope_ip ip (count_failure now scope_user email db.attempts);
  },
)

-- `resetAttemptsSQL`.
unfoldable pub reset_stmt : Text → Text → Stmt (Unit {0})
unfolding filter text_eq
reset_stmt email ip now db =
    ok (tt, record db { attempts = filter (λ a. not (is_attempt email ip a)) db.attempts })

-- A row of auth_users with the columns that an insert leaves to their defaults.
abbrev pub new_user : ℕ → Text → Text → Option Text → User
new_user now id email hash = record {
  id = id;
  email = email;
  password_hash = hash;
  email_verified = false;
  created_at = now;
  updated_at = now;
  deleted_at = none;
}

-- `insertUserSQL`, and `insertInviteeSQL` where there is no hash: none is a live account that
-- already has the address.
unfoldable pub insert_user_stmt : Text → Text → Option Text → Stmt (Option Text)
unfolding any to_lower text_eq user_exists
insert_user_stmt id email hash now db =
    if any (has_email (to_lower email)) db.users
    then ok (none, db)
    else if user_exists id db.users
    then err driver
    else ok (some id, record db { users = new_user now id email hash ∷ db.users })

-- `userIDByEmailSQL`.
unfoldable pub user_id_stmt : Text → Stmt (Option Text)
unfolding find to_lower text_eq
user_id_stmt email now db = elim (find (has_email email) db.users) [
  | none ↦ ok (none, db)
  | some u ↦ ok (some u.id, db)
]

-- `emailByIDSQL`.
unfoldable pub email_stmt : Text → Stmt (Option Text)
unfolding find text_eq
email_stmt id now db = elim (find (is_user id) db.users) [
  | none ↦ ok (none, db)
  | some u ↦ ok (some u.email, db)
]
