-- ===== src/Scoped.antt =====
-- scoped.go: luima's helpers with the ownership predicate folded in.
pub mod Isolation
pub mod Tenants
mod Tests
use kal.Base.{Bool, Option, List, [], ◌∷◌, Text}
use kal.Kalerr.{Result}
use kal.Orm.{Orm, QueryOption, Luima}
use kal.Authz.Principal.{Context}
use kal.Authz.Scope.{scope}

module _ (o : Orm) where
  -- The caller's options, in order.
  unfoldable pub apply_all : List (QueryOption o) → QueryOption o
  apply_all [] q = q
  apply_all (opt ∷ opts) q = apply_all opts (opt q)

  -- `scoped`: the predicate, then the caller's options in parentheses.
  unfoldable pub scoped : Context → Text → List (QueryOption o) → QueryOption o
  unfolding scope apply_all
  scoped ctx column [] q = scope o ctx column q
  scoped ctx column (opt ∷ opts) q = o.where_group (apply_all (opt ∷ opts)) (scope o ctx column q)

  module _ (l : Luima o) where
    unfoldable pub list : Context → Text → List (QueryOption o) → List o.Row → Result (List o.Row)
    unfolding scoped
    list ctx column opts table = l.list (scoped ctx column opts) table

    unfoldable pub get :
        Context → Text → o.Row → List (QueryOption o) → List o.Row → Result (Option o.Row)
    unfolding scoped
    get ctx column key opts table = l.get key (scoped ctx column opts) table

    unfoldable pub update_row :
        Context
        → Text
        → o.Row
        → Text
        → List (QueryOption o)
        → List o.Row
        → Result (o.Row × List o.Row)
    unfolding scoped
    update_row ctx column m label opts table = l.update_row m label (scoped ctx column opts) table

    unfoldable pub delete :
        Context → Text → o.Row → List (QueryOption o) → List o.Row → Result (Bool × List o.Row)
    unfolding scoped
    delete ctx column key opts table = l.delete key (scoped ctx column opts) table
