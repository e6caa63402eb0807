-- ===== src/Authz/Roles/Tests.antt =====
-- Tests of the roles on one user and two roles.
use kal.Base.{true, none, [], ◌∷◌, ◌≡◌, refl, codes, any, filter, text_eq, List}
use kal.Kalerr.{ok, err, driver}
use kal.Store.{Db}
use kal.World.{World, exec}
use kal.Session.Statements.{roles_of}
use kal.Base.Sort.{sort_texts, insert_text, text_leb}
use kal.Authz.Roles.{
  grant, revoke_role, for_user, grant_role_stmt, revoke_role_stmt, roles_for_user_stmt,
}
use kal.Authz.Roles.Pairs.{assigned}
use kal.Authz.Roles.Assignments.{Change, granting, revoking, make_all, amend_all, for_user-make_all}

abbrev one_user : Db
one_user = record {
  users =
      record {
        id = codes "u1";
        email = codes "a@b.c";
        password_hash = none;
        email_verified = true;
        created_at = 0;
        updated_at = 0;
        deleted_at = none;
      }
      ∷ [];
  sessions = [];
  tokens = [];
  roles =
      record { name = codes "b"; description = [] }
      ∷ record { name = codes "a"; description = [] }
      ∷ [];
  user_roles = record { user_id = codes "u1"; role = codes "b" } ∷ [];
  attempts = [];
  vaults = [];
}

abbrev start : World
start = record {
  db = one_user;
  now = 20;
  schedule = [];
  random = [];
  salts = [];
  slots = [];
  uuids = [];
  clock = 20;
  mailer = [];
  sent = [];
  events = [];
  cookies = [];
}

for_user-sorted :
    (for_user (codes "u1") (grant (codes "u1") (codes "a") start).1).0
    ≡ ok (codes "a" ∷ codes "b" ∷ [])
unfolding for_user grant grant_role_stmt roles_for_user_stmt roles_of sort_texts insert_text
    text_leb text_eq any exec
for_user-sorted = refl

grant-unknown_role : (grant (codes "u1") (codes "c") start).0 ≡ err driver
unfolding grant grant_role_stmt text_eq any exec
grant-unknown_role = refl

abbrev swapped : List Change
swapped =
    granting (codes "u1") (codes "a")
    ∷ revoking (codes "u1") (codes "b")
    ∷ revoking (codes "u1") (codes "b")
    ∷ []

for_user-make_all_example :
    any (λ r. text_eq r (codes "b")) (codes "a" ∷ [])
    ≡ amend_all swapped (assigned start.db.user_roles) (codes "u1") (codes "b")
unfolding for_user grant grant_role_stmt revoke_role revoke_role_stmt roles_for_user_stmt roles_of
    sort_texts insert_text text_leb text_eq any filter exec make_all
for_user-make_all_example =
    for_user-make_all swapped (codes "u1") (codes "b") start {w₁ = (make_all swapped start).1}
      {w₂ = (for_user (codes "u1") (make_all swapped start).1).1} refl refl
