-- ===== src/Authz/Principal.antt =====
-- authz/principal.go and the context keys: a Go `context.Context` is the record of what kal stores
-- under its own keys. Instants are counted from the clock's zero; the zero time is `none`.
use kal.Base.{ℕ, Bool, false, Option, none, some, List, [], Text, is_empty, if◌then◌else◌}
use kal.Kalerr.{Result, ok, err, Failure, coded, unauthenticated}

pub record Principal : Type 0 where
  pub user_id : Text
  pub session_id : Text
  pub roles : List Text
  pub auth_at : ℕ
  pub mfa_at : Option ℕ
  pub email : Text
  pub verified : Bool

-- `session.Meta`: the user agent and the client address.
pub record Meta : Type 0 where
  pub user_agent : Text
  pub ip : Text

-- `jar` tells whether the session middleware is mounted.
pub record Context : Type 0 where
  pub principal : Option Principal
  pub bypass : Option Text
  pub meta : Meta
  pub jar : Bool

abbrev pub background : Context
background = record {
  principal = none;
  bypass = none;
  meta = record { user_agent = []; ip = [] };
  jar = false;
}

-- A nil principal stores nothing.
unfoldable pub with_principal : Context → Option Principal → Context
with_principal ctx none = ctx
with_principal ctx (some p) = record ctx { principal = some p }

unfoldable pub with_bypass_role : Context → Text → Context
with_bypass_role ctx role = if is_empty role then ctx else record ctx { bypass = some role }

abbrev pub authentication_required : Failure
authentication_required = coded unauthenticated "authentication required"

unfoldable pub require : Context → Result Principal
require ctx = elim ctx.principal [ none ↦ err authentication_required | some p ↦ ok p ]
