-- ===== src/Authz/Scope.antt =====
-- authz/scope.go: the caller's ownership predicate, as a query option.
use kal.Base.{Bool, none, some, Text, is_empty, if◌then◌else◌}
use kal.Orm.{Orm}
use kal.Authz.Principal.{Principal, Context}
use kal.Authz.Membership.{has_role}

-- The bypass role of the context, if it has one, is held.
unfoldable pub bypasses : Context → Principal → Bool
unfolding has_role
bypasses ctx p = elim ctx.bypass [ none ↦ Bool.false | some role ↦ has_role p.roles role ]

-- `Scope`.
unfoldable pub scope : (o : Orm) → Context → Text → o.Query → o.Query
unfolding bypasses
scope o ctx column q = elim ctx.principal [
  | none ↦ o.where_false q
  | some p ↦
      if is_empty p.user_id
      then o.where_false q
      else if bypasses ctx p
      then q
      else o.where_eq column p.user_id q
]
