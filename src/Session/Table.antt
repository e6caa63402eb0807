-- ===== src/Session/Table.antt =====
-- The life of the table auth_sessions: every statement of session/sql.go as a step, in any order, by
-- any number of clients, on a database clock that does not run backwards.
pub mod Effects
pub mod Identity
pub mod Permanence
use kal.Base.{ℕ, ◌≤◌, Option, ◌≡◌, Text}
use kal.Base.Int.{ℤ}
use kal.Kalerr.{ok}
use kal.Authz.Principal.{Principal}
use kal.Store.{Db, Session}
use kal.Session.Statements.{
  issue_stmt, lookup_stmt, rotate_stmt, record_mfa_stmt, revoke_stmt, revoke_all_stmt,
}

-- One committed statement at an instant. `elsewhere` is a statement on the other tables.
pub data Step (now : ℕ) (db : Db) (db' : Db) : Type 0 where
  issued :
      (id hash user : Text) (idle absolute : ℤ) (ua ip : Option Text)
      → issue_stmt id hash user idle absolute ua ip now db ≡ ok (id, db')
      → Step now db db'
  looked_up :
      (hash : Text) (idle : ℤ) (p : Option Principal)
      → lookup_stmt hash idle now db ≡ ok (p, db')
      → Step now db db'
  rotated :
      (hash : Text) (idle : ℤ) (id : Text) (user : Option Text)
      → rotate_stmt hash idle id now db ≡ ok (user, db')
      → Step now db db'
  stamped :
      (id user : Text) (r : Option Text)
      → record_mfa_stmt id user now db ≡ ok (r, db')
      → Step now db db'
  revoked : (id : Text) (n : ℕ) → revoke_stmt id now db ≡ ok (n, db') → Step now db db'
  revoked_all : (user : Text) (n : ℕ) → revoke_all_stmt user now db ≡ ok (n, db') → Step now db db'
  elsewhere : db'.sessions ≡ db.sessions → Step now db db'

-- A history from one instant to a later one.
pub data History (start : ℕ) (db : Db) : ℕ → Db → Type 0 where
  here : History start db start db
  next :
      {now : ℕ} {later : ℕ} {db' : Db} {db'' : Db}
      → History start db now db'
      → now ≤ later
      → Step later db' db''
      → History start db later db''
