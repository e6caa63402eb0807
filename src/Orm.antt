-- ===== src/Orm.antt =====
-- What authz/scope.go and scoped.go use of go-pg's query builder and of luima's four helpers, neither
-- of which is in the repository: operations, and the laws that the code relies on.
pub mod Clauses
use kal.Base.{
  Bool, true, false, not, ◌&&◌, ◌||◌, Option, none, some, List, [], ◌∷◌, ◌++◌, ◌≡◌, Text, All, any,
  filter, update, if◌then◌else◌,
}
use kal.Kalerr.{Result, ok, err, Failure}

-- A clause of a WHERE: how it is joined to the one before it, and its truth at a row.
pub record Clause (Row : Type 0) : Type 0 where
  pub joined_by_or : Bool
  pub holds : Row → Bool

module _ {Row : Type 0} where
  -- AND binds tighter than OR: `so_far` is the conjunction that is being read.
  unfoldable pub holds_from : Bool → List (Clause Row) → Row → Bool
  holds_from so_far [] r = so_far
  holds_from so_far (c ∷ cs) r = elim c.joined_by_or [
    | true ↦ so_far || holds_from (c.holds r) cs r
    | false ↦ holds_from (so_far && c.holds r) cs r
  ]

  -- The joint of the first clause is not written.
  unfoldable pub where_holds : List (Clause Row) → Row → Bool
  unfolding holds_from
  where_holds [] r = true
  where_holds (c ∷ cs) r = holds_from (c.holds r) cs r

  abbrev pub and_clause : (Row → Bool) → Clause Row
  and_clause p = record { joined_by_or = false; holds = p }

  abbrev pub or_clause : (Row → Bool) → Clause Row
  or_clause p = record { joined_by_or = true; holds = p }

  -- A group is one clause in parentheses; a group that is empty is left out.
  unfoldable pub grouped : List (Clause Row) → List (Clause Row) → List (Clause Row)
  unfolding where_holds
  grouped outer [] = outer
  grouped outer (c ∷ cs) = outer ++ and_clause (where_holds (c ∷ cs)) ∷ []

  -- No clause but the first is joined by OR.
  abbrev pub AreAnds : List (Clause Row) → Type 0
  AreAnds cs = All (λ c. c.joined_by_or ≡ false) cs

-- The builder: `where_eq` is `Where("? = ?", pg.Ident(column), value)`, `where_false` is
-- `Where("false")`, `where_group` is `WhereGroup`, whose callback starts from no clause.
pub record Orm : Type 1 where
  pub Row : Type 0
  pub Query : Type 0
  -- The truth of `column = value`, which a null does not have.
  pub column_is : Text → Text → Row → Bool
  pub where_eq : Text → Text → Query → Query
  pub where_false : Query → Query
  pub where_group : (Query → Query) → Query → Query
  pub without_where : Query → Query
  pub clauses : Query → List (Clause Row)

pub record OrmLaws (o : Orm) : Type 0 where
  pub eq_clauses :
      (column value : Text) (q : o.Query)
      → o.clauses (o.where_eq column value q)
        ≡ o.clauses q ++ and_clause (o.column_is column value) ∷ []
  pub false_clauses :
      (q : o.Query) → o.clauses (o.where_false q) ≡ o.clauses q ++ and_clause (λ _. false) ∷ []
  pub group_clauses :
      (f : o.Query → o.Query) (q : o.Query)
      → o.clauses (o.where_group f q) ≡ grouped (o.clauses q) (o.clauses (f (o.without_where q)))

-- A query option.
abbrev pub QueryOption : Orm → Type 0
QueryOption o = o.Query → o.Query

-- luima's helpers on the rows of one table. `fresh` is the query of the model that an option is applied
-- to; `is_key m` tells the row that the primary key of `m` names; `assign m opt` is a row after the
-- columns that the option leaves in the SET were set from `m`.
pub record Luima (o : Orm) : Type 0 where
  pub fresh : o.Query
  pub is_key : o.Row → o.Row → Bool
  pub assign : o.Row → QueryOption o → o.Row → o.Row
  pub list : QueryOption o → List o.Row → Result (List o.Row)
  pub get : o.Row → QueryOption o → List o.Row → Result (Option o.Row)
  pub update_row : o.Row → Text → QueryOption o → List o.Row → Result (o.Row × List o.Row)
  pub delete : o.Row → QueryOption o → List o.Row → Result (Bool × List o.Row)

-- The row that a helper is asked for, where the option's WHERE lets it through.
abbrev pub is_target : (o : Orm) → Luima o → o.Row → QueryOption o → o.Row → Bool
is_target o l m opt r = l.is_key m r && where_holds (o.clauses (opt l.fresh)) r

-- Documented behaviour, for an option whose clauses are all joined by AND, so that it does not matter
-- whether the condition on the key stands before or after them.
pub record LuimaLaws (o : Orm) (l : Luima o) : Type 0 where
  pub fresh_clauses : o.clauses l.fresh ≡ []
  pub list_selects :
      (opt : QueryOption o) (table rows : List o.Row)
      → AreAnds (o.clauses (opt l.fresh))
      → l.list opt table ≡ ok rows
      → All (λ r. where_holds (o.clauses (opt l.fresh)) r ≡ true) rows
  pub get_selects :
      (m : o.Row) (opt : QueryOption o) (table : List o.Row) (r : o.Row)
      → AreAnds (o.clauses (opt l.fresh))
      → l.get m opt table ≡ ok (some r)
      → is_target o l m opt r ≡ true
  pub update_changes :
      (m : o.Row) (label : Text) (opt : QueryOption o) (table table' : List o.Row) (r : o.Row)
      → AreAnds (o.clauses (opt l.fresh))
      → l.update_row m label opt table ≡ ok (r, table')
      → (any (is_target o l m opt) table ≡ true)
        × (table' ≡ update (is_target o l m opt) (l.assign m opt) table)
  pub delete_removes :
      (m : o.Row) (opt : QueryOption o) (table table' : List o.Row) (b : Bool)
      → AreAnds (o.clauses (opt l.fresh))
      → l.delete m opt table ≡ ok (b, table')
      → (b ≡ any (is_target o l m opt) table)
        × (table' ≡ filter (λ r. not (is_target o l m opt r)) table)
