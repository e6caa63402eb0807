-- ===== src/Session/Table/Effects.antt =====
-- What each statement has written when it succeeds.
use kal.Base.{
  ℕ, true, false, Option, none, some, ◌∷◌, ◌≡◌, ◌⊎◌, inl, inr, arith, Text, find, any, update,
  Option-cases,
}
use kal.Base.Int.{ℤ}
use kal.Kalerr.{ok}
use kal.Authz.Principal.{Principal}
use kal.Store.{Db, Session}
use kal.Session.Statements.{
  has_id, has_hash, user_exists, new_session, hash_taken, issue_stmt, lookup_stmt, rotate_stmt,
  record_mfa_stmt, revoke_stmt, revoke_all_stmt, unrevoked, unrevoked_of, revoke_row, renew,
  touched, live_with_id, live_of_user, live_with_hash, principal_of, roles_of, is_user,
}

pub issue_effect :
    (id hash user : Text) (idle absolute : ℤ) (ua ip : Option Text) (now : ℕ) (db : Db) {r : Text}
    {db' : Db}
    → issue_stmt id hash user idle absolute ua ip now db ≡ ok (r, db')
    → (any (has_id id) db.sessions ≡ false)
      × (any (has_hash hash) db.sessions ≡ false)
      × (user_exists user db.users ≡ true)
      × (r ≡ id)
      × (db'
          ≡ record db { sessions = new_session id hash user idle absolute ua ip now ∷ db.sessions })
unfolding issue_stmt
issue_effect id hash user idle absolute ua ip now db h = ground arith

-- The view of the caller that a lookup gives for a live row.
abbrev pub found_principal : Db → Session → Option Principal
found_principal db s = elim (find (is_user s.user_id) db.users) [
  | none ↦ none
  | some u ↦ some (principal_of s u (roles_of s.user_id db.user_roles))
]

pub lookup_effect :
    (hash : Text) (idle : ℤ) (now : ℕ) (db : Db) {p : Option Principal} {db' : Db}
    → lookup_stmt hash idle now db ≡ ok (p, db')
    → ((find (live_with_hash now hash) db.sessions ≡ none) × (p ≡ none) × (db' ≡ db))
      ⊎ ((s : Session) × (find (live_with_hash now hash) db.sessions ≡ some s)
          × (p ≡ found_principal db s)
          × (db' ≡ record db { sessions = touched now idle s db.sessions }))
unfolding lookup_stmt
lookup_effect hash idle now db h =
    elim (Option-cases (find (live_with_hash now hash) db.sessions)) [
      | inl e ↦ let k = rw (e, lookup_stmt) at h in inl (e, cc k, cc k)
      | inr (s, e) ↦ let k = rw (e, lookup_stmt) at h in inr (s, e, cc k, cc k)
    ]

pub rotate_effect :
    (hash : Text) (idle : ℤ) (id : Text) (now : ℕ) (db : Db) {r : Option Text} {db' : Db}
    → rotate_stmt hash idle id now db ≡ ok (r, db')
    → ((find (live_with_id now id) db.sessions ≡ none) × (r ≡ none) × (db' ≡ db))
      ⊎ ((s : Session) × (find (live_with_id now id) db.sessions ≡ some s)
          × (r ≡ some s.user_id)
          × (hash_taken hash id db.sessions ≡ false)
          × (db' ≡ record db {
            sessions = update (live_with_id now id) (renew hash now idle) db.sessions;
          }))
unfolding rotate_stmt
rotate_effect hash idle id now db h = elim (Option-cases (find (live_with_id now id) db.sessions)) [
  | inl e ↦ inl (e, ground arith, ground arith)
  | inr (s, e) ↦ inr (s, e, ground arith, ground arith, ground arith)
]

pub record_mfa_effect :
    (id user : Text) (now : ℕ) (db : Db) {r : Option Text} {db' : Db}
    → record_mfa_stmt id user now db ≡ ok (r, db')
    → ((find (live_of_user now id user) db.sessions ≡ none) × (r ≡ none) × (db' ≡ db))
      ⊎ ((s : Session) × (find (live_of_user now id user) db.sessions ≡ some s)
          × (r ≡ some s.id)
          × (db' ≡ record db {
            sessions =
                update (live_of_user now id user) (λ x. record x { mfa_at = some now }) db.sessions;
          }))
unfolding record_mfa_stmt
record_mfa_effect id user now db h =
    elim (Option-cases (find (live_of_user now id user) db.sessions)) [
      | inl e ↦ inl (e, ground arith, ground arith)
      | inr (s, e) ↦ inr (s, e, ground arith, ground arith)
    ]

pub revoke_effect :
    (id : Text) (now : ℕ) (db : Db) {n : ℕ} {db' : Db}
    → revoke_stmt id now db ≡ ok (n, db')
    → db' ≡ record db { sessions = update (unrevoked id) (revoke_row now) db.sessions }
unfolding revoke_stmt
revoke_effect id now db h = cc h

pub revoke_all_effect :
    (user : Text) (now : ℕ) (db : Db) {n : ℕ} {db' : Db}
    → revoke_all_stmt user now db ≡ ok (n, db')
    → db' ≡ record db { sessions = update (unrevoked_of user) (revoke_row now) db.sessions }
unfolding revoke_all_stmt
revoke_all_effect user now db h = cc h
