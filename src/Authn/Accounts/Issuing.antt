-- ===== src/Authn/Accounts/Issuing.antt =====
-- A session that is issued on a fresh token, and looked up by it.
use kal.Base.{
  ◌<◌, find-any, find-holds, and_parts, ltb, ◌≡◌, inl, inr, refl, ◌∙◌, true, Option, some, List,
  ◌∷◌, Text, text_eq, text_eq_refl, find, update, Option-cases, find-none-any,
}
use kal.Base.Int.{pos_part, shift, shift-later}
use kal.Kalerr.{ok}
use kal.Authz.Principal.{Principal, Meta}
use kal.Store.{Db, User}
use kal.World.{World, Stmt, pure, exec, new_token, new_uuid}
use kal.World.Outcome.{>>=-ok}
use kal.Session.Statements.{
  principal_of, roles_of, touched, is_user, is_live, user_exists, new_session, issue_stmt,
  lookup_stmt,
}
use kal.Session.Sessions.{Sessions, issue, lookup, non_empty, sorted_roles}
use kal.Authn.Accounts.Readiness.{exec_now, Fit, Ready}

owner-find :
    (id digest user : Text) (db : Db)
    → Fit id digest user db
    → (u : User) × (find (is_user user) db.users ≡ some u)
owner-find id digest user db f = elim (Option-cases (find (is_user user) db.users)) [
  | inl e ↦ absurd (cc (find-none-any (is_user user) db.users e, f.owner))
  | inr found ↦ found
]

owner-user_exists :
    (id digest user : Text) (db : Db) → Fit id digest user db → user_exists user db.users ≡ true
unfolding user_exists
owner-user_exists id digest user db f =
    let (u, e) = owner-find id digest user db f in
    find-any (is_user user) (λ v. text_eq v.id user) db.users e
      (and_parts _ _ (find-holds (is_user user) db.users e)).0

module _ (sha256 : Text → Text) (s : Sessions) (parse_ip : Text → Option Text) where
  abbrev insert : Text → Text → Text → Meta → Stmt Text
  insert token id user meta =
      issue_stmt id (sha256 token) user s.idle s.absolute (non_empty meta.user_agent)
        (parse_ip meta.ip)

  -- The world once the session was issued.
  abbrev pub issued : Text → Text → Text → Meta → List Text → List Text → World → World
  issued token id user meta tokens ids w = record w {
    random = tokens;
    uuids = ids;
    db = record w.db {
      sessions =
          new_session id (sha256 token) user s.idle s.absolute (non_empty meta.user_agent)
            (parse_ip meta.ip) w.now
          ∷ w.db.sessions;
    };
  }

  pub issue_runs :
      (token id user : Text) (meta : Meta) (w : World) (r : Ready token id (sha256 token) user w)
      → issue sha256 s parse_ip user meta w ≡ (ok token, issued token id user meta r.1.0 r.2.0 w)
  unfolding issue new_token new_uuid issue_stmt
  issue_runs token id user meta w r =
      let drawn : new_token w ≡ (ok token, record w { random = r.1.0 }) = rw r.1.1 refl in
      let named : new_uuid (record w { random = r.1.0 })
          ≡ (ok id, record w { random = r.1.0; uuids = r.2.0 }) =
        rw r.2.1 refl in
      let exists = owner-user_exists id (sha256 token) user w.db r.3 in
      let written =
        exec_now (insert token id user meta) (record w { random = r.1.0; uuids = r.2.0 }) {a = id}
          {db = (issued token id user meta r.1.0 r.2.0 w).db} r.0
          (rw (r.3.free_id, r.3.free_hash, exists) refl) in
      >>=-ok new_token _ w drawn
      ∙ >>=-ok new_uuid _ (record w { random = r.1.0 }) named
      ∙ >>=-ok (exec (insert token id user meta)) (λ _. pure token)
          (record w { random = r.1.0; uuids = r.2.0 }) written

  pub lookup_runs :
      (token id user : Text) (meta : Meta) (tokens ids : List Text) (w : World)
      → 0 < pos_part s.idle
      → 0 < pos_part s.absolute
      → Ready token id (sha256 token) user w
      → (p : Principal) × (w' : World) × (lookup sha256 s token
            (issued token id user meta tokens ids w)
          ≡ (ok (some p), w'))
        × (p.user_id ≡ user)
        × (p.session_id ≡ id)
  unfolding lookup lookup_stmt find is_live roles_of text_eq update
  lookup_runs token id user meta tokens ids w idle absolute r =
      let (u, found) = owner-find id (sha256 token) user w.db r.3 in
      let soon : ltb w.now (shift w.now s.idle) ≡ true = shift-later w.now s.idle idle in
      let v = issued token id user meta tokens ids w in
      let row =
        new_session id (sha256 token) user s.idle s.absolute (non_empty meta.user_agent)
          (parse_ip meta.ip) w.now in
      let late : ltb w.now (shift w.now s.absolute) ≡ true =
        shift-later w.now s.absolute absolute in
      (
        _,
        _,
        >>=-ok (exec (lookup_stmt (sha256 token) s.idle)) (λ x. pure (sorted_roles x)) v
            (exec_now (lookup_stmt (sha256 token) s.idle) v
              {a = some (principal_of row u (roles_of user w.db.user_roles))}
              {db = record v.db { sessions = touched w.now s.idle row v.db.sessions }} r.0
              (rw (text_eq_refl (sha256 token), soon, late, found) refl)),
        refl,
        refl,
      )
