-- ===== src/Authz/Roles/Assignments.antt =====
-- What a history of grants and revocations leaves of the assignments.
use kal.Base.{
  ℕ, Bool, true, false, not, ◌&&◌, ◌||◌, List, [], ◌∷◌, ◌≡◌, refl, sym, ap, ◌∙◌, Text, text_eq,
  if◌then◌else◌, any,
}
use kal.Kalerr.{Result, ok, err, driver}
use kal.Store.{Db}
use kal.World.{World, Action, Stmt, pure, exec, advance, ◌>>◌}
use kal.World.Outcome.{exec-eq-ok, advance-db, then-eq-ok}
use kal.Session.Statements.{roles_of}
use kal.Authz.Roles.{
  is_assignment, grant_role_stmt, revoke_role_stmt, roles_for_user_stmt, grant, revoke_role,
  for_user, is_grantable,
}
use kal.Authz.Roles.Pairs.{
  Assignment, assigned, is_pair, roles_of-assigned, assigned-filter, granted-assigned,
}
use kal.Base.Sort.{any-sort_texts}

pub data Change : Type 0 where
  granting : Text → Text → Change
  revoking : Text → Text → Change

-- One change of the set.
abbrev pub amend : Change → Assignment → Assignment
amend (granting u r) a user role = is_pair u r user role || a user role
amend (revoking u r) a user role = not (is_pair u r user role) && a user role

unfoldable pub amend_all : List Change → Assignment → Assignment
amend_all [] a = a
amend_all (c ∷ cs) a = amend_all cs (amend c a)

abbrev pub make : Change → Action (Unit {0})
make (granting u r) = grant u r
make (revoking u r) = revoke_role u r

unfoldable pub make_all : List Change → Action (Unit {0})
unfolding grant revoke_role
make_all [] = pure tt
make_all (c ∷ cs) = make c >> make_all cs

abbrev answer : {A : Type 0} → A → Db → Result (A × Db)
answer a d = ok (a, d)

same_db : (d d' : Db) → answer tt d ≡ answer tt d' → d ≡ d'
same_db d d' h = cc h

same_names : (a b : List Text) (d d' : Db) → answer a d ≡ answer b d' → a ≡ b
same_names a b d d' h = cc h

grant_role_stmt-assigned :
    (u r user role : Text) (now : ℕ) (db db' : Db)
    → grant_role_stmt u r now db ≡ ok (tt, db')
    → assigned db'.user_roles user role ≡ amend (granting u r) (assigned db.user_roles) user role
unfolding grant_role_stmt any
grant_role_stmt-assigned u r user role now db db' h =
    by_test (any (is_assignment u r) db.user_roles) (is_grantable u r db.users db.roles) refl h
  where
    added : Db
    added = record db { user_roles = record { user_id = u; role = r } ∷ db.user_roles }

    by_test :
        (b g : Bool)
        → assigned db.user_roles u r ≡ b
        → (if b then answer tt db else (if g then answer tt added else err driver)) ≡ answer tt db'
        → assigned db'.user_roles user role
          ≡ (is_pair u r user role || assigned db.user_roles user role)
    by_test true g e k =
        ap (λ (d : Db). assigned d.user_roles user role) (sym (same_db db db' k))
        ∙ granted-assigned u r user role db.user_roles e
    by_test false true e k =
        ap (λ (d : Db). assigned d.user_roles user role) (sym (same_db added db' k))
    by_test false false e k = absurd (cc k)

revoke_role_stmt-assigned :
    (u r user role : Text) (now : ℕ) (db db' : Db)
    → revoke_role_stmt u r now db ≡ ok (tt, db')
    → assigned db'.user_roles user role ≡ amend (revoking u r) (assigned db.user_roles) user role
unfolding revoke_role_stmt
revoke_role_stmt-assigned u r user role now db db' h =
    ap (λ (d : Db). assigned d.user_roles user role) (sym (same_db _ db' h))
    ∙ assigned-filter u r user role db.user_roles

-- A statement's success, read on the world that it ran in.
exec-assigned :
    (s : Stmt (Unit {0})) (c : Change) (w w' : World) (user role : Text)
    → ((now : ℕ) (db db' : Db)
        → s now db ≡ ok (tt, db')
        → assigned db'.user_roles user role ≡ amend c (assigned db.user_roles) user role)
    → exec s w ≡ (ok tt, w')
    → assigned w'.db.user_roles user role ≡ amend c (assigned w.db.user_roles) user role
exec-assigned s c w w' user role amends h =
    let (db, e, q) = exec-eq-ok s w h in
    ap (λ (v : World). assigned v.db.user_roles user role) q
    ∙ amends _ _ db e
    ∙ ap (λ (d : Db). amend c (assigned d.user_roles) user role) (advance-db w)

make-assigned :
    (c : Change) (w w' : World) (user role : Text)
    → make c w ≡ (ok tt, w')
    → assigned w'.db.user_roles user role ≡ amend c (assigned w.db.user_roles) user role
unfolding grant revoke_role
make-assigned (granting u r) w w' user role h =
    exec-assigned (grant_role_stmt u r) (granting u r) w w' user role
      (grant_role_stmt-assigned u r user role) h
make-assigned (revoking u r) w w' user role h =
    exec-assigned (revoke_role_stmt u r) (revoking u r) w w' user role
      (revoke_role_stmt-assigned u r user role) h

amend-cong :
    (c : Change) (a b : Assignment) (user role : Text)
    → a user role ≡ b user role
    → amend c a user role ≡ amend c b user role
amend-cong (granting u r) a b user role h = rw h refl
amend-cong (revoking u r) a b user role h = rw h refl

amend_all-cong :
    (cs : List Change) (a b : Assignment) (user role : Text)
    → a user role ≡ b user role
    → amend_all cs a user role ≡ amend_all cs b user role
unfolding amend_all
amend_all-cong [] a b user role h = h
amend_all-cong (c ∷ cs) a b user role h =
    amend_all-cong cs (amend c a) (amend c b) user role (amend-cong c a b user role h)

abbrev finished : World → Result (Unit {0}) × World
finished w = (ok tt, w)

same_world : (w w' : World) → finished w ≡ finished w' → w ≡ w'
same_world w w' h = cc h

make_all-assigned :
    (cs : List Change) (w w' : World) (user role : Text)
    → make_all cs w ≡ (ok tt, w')
    → assigned w'.db.user_roles user role ≡ amend_all cs (assigned w.db.user_roles) user role
unfolding make_all amend_all
make_all-assigned [] w w' user role h =
    ap (λ (v : World). assigned v.db.user_roles user role) (sym (same_world w w' h))
make_all-assigned (c ∷ cs) w w' user role h =
    let (w₁, e, k) = then-eq-ok (make c) (make_all cs) w h in
    make_all-assigned cs w₁ w' user role k
    ∙ amend_all-cong cs (assigned w₁.db.user_roles) (amend c (assigned w.db.user_roles)) user role
        (make-assigned c w w₁ user role e)

-- After a history of grants and revocations that all succeeded, a list that ForUser returns has
-- exactly the roles that the history leaves to the user: of each role the last change decides, and
-- one that was not changed is as before.
pub for_user-make_all :
    (cs : List Change) (user role : Text) (w : World) {w₁ w₂ : World} {names : List Text}
    → make_all cs w ≡ (ok tt, w₁)
    → for_user user w₁ ≡ (ok names, w₂)
    → any (λ r. text_eq r role) names ≡ amend_all cs (assigned w.db.user_roles) user role
unfolding for_user roles_for_user_stmt
for_user-make_all cs user role w {w₁} {w₂} {names} made read =
    let (db, e, q) = exec-eq-ok (roles_for_user_stmt user) w₁ read in
    ap (any (λ r. text_eq r role)) (sym (same_names _ names _ db e))
    ∙ any-sort_texts (λ r. text_eq r role) (roles_of user (advance w₁).db.user_roles)
    ∙ roles_of-assigned user role (advance w₁).db.user_roles
    ∙ ap (λ (d : Db). assigned d.user_roles user role) (advance-db w₁)
    ∙ make_all-assigned cs w w₁ user role made
