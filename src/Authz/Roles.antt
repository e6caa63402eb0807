-- ===== src/Authz/Roles.antt =====
-- authz/roles.go and authz/sql.go: the registry of role names and who has been granted which.
pub mod Pairs
pub mod Assignments
mod Tests
use kal.Base.{
  Bool, not, ◌&&◌, ◌||◌, List, ◌∷◌, Text, text_eq, is_empty, is_ident, if◌then◌else◌, any, filter,
  update,
}
use kal.Kalerr.{Result, ok, err, Failure, coded, invalid_input, driver}
use kal.Store.{User, RoleRow, UserRole}
use kal.World.{Action, Stmt, exec}
use kal.Session.Statements.{roles_of}
use kal.Base.Sort.{sort_texts}

-- The rendered statements differ in the schema qualifier alone, which is kept in their place.
pub record Roles : Type 0 where
  pub schema : Text

abbrev invalid_schema : Failure
invalid_schema = coded invalid_input "table schema must match ^[a-z_][a-z0-9_]*$"

-- `NewRoles`.
unfoldable pub new_roles : Text → Result Roles
new_roles schema =
    if not (is_empty schema) && not (is_ident schema)
    then err invalid_schema
    else ok (record { schema = schema })

abbrev pub is_named : Text → RoleRow → Bool
is_named name r = text_eq r.name name

abbrev pub is_assignment : Text → Text → UserRole → Bool
is_assignment user role r = text_eq r.user_id user && text_eq r.role role

-- `ensureRoleSQL`.
unfoldable pub ensure_role_stmt : Text → Text → Stmt (Unit {0})
unfolding any update text_eq
ensure_role_stmt name description now db =
    if any (is_named name) db.roles
    then ok (
      tt,
      record db {
        roles = update (is_named name) (λ r. record r { description = description }) db.roles;
      },
    )
    else ok (tt, record db { roles = record { name = name; description = description } ∷ db.roles })

-- Both foreign keys, which a soft-deleted user still satisfies.
abbrev pub is_grantable : Text → Text → List User → List RoleRow → Bool
is_grantable user role users roles = any (λ u. text_eq u.id user) users && any (is_named role) roles

-- `grantRoleSQL`.
unfoldable pub grant_role_stmt : Text → Text → Stmt (Unit {0})
unfolding any text_eq
grant_role_stmt user role now db =
    if any (is_assignment user role) db.user_roles
    then ok (tt, db)
    else if is_grantable user role db.users db.roles
    then ok (tt, record db { user_roles = record { user_id = user; role = role } ∷ db.user_roles })
    else err driver

-- `revokeRoleSQL`.
unfoldable pub revoke_role_stmt : Text → Text → Stmt (Unit {0})
unfolding filter text_eq
revoke_role_stmt user role now db =
    ok (tt, record db { user_roles = filter (λ r. not (is_assignment user role r)) db.user_roles })

-- `rolesForUserSQL`, ordered by code points.
unfoldable pub roles_for_user_stmt : Text → Stmt (List Text)
unfolding roles_of sort_texts
roles_for_user_stmt user now db = ok (sort_texts (roles_of user db.user_roles), db)

unfoldable pub ensure : Text → Text → Action (Unit {0})
unfolding ensure_role_stmt
ensure name description = exec (ensure_role_stmt name description)

unfoldable pub grant : Text → Text → Action (Unit {0})
unfolding grant_role_stmt
grant user role = exec (grant_role_stmt user role)

unfoldable pub revoke_role : Text → Text → Action (Unit {0})
unfolding revoke_role_stmt
revoke_role user role = exec (revoke_role_stmt user role)

-- `ForUser`: no role is the empty list.
unfoldable pub for_user : Text → Action (List Text)
unfolding roles_for_user_stmt
for_user user = exec (roles_for_user_stmt user)
