-- ===== src/Scoped/Isolation.antt =====
-- A caller's options narrow what the ownership predicate selects, and never widen it.
use kal.Base.{
  Bool, true, false, not, ◌&&◌, ◌||◌, Option, none, some, List, [], ◌∷◌, ◌++◌, ◌≡◌, sym, ap, ◌∙◌,
  subst, arith, Text, is_empty, if◌then◌else◌,
}
use kal.Orm.{Orm, OrmLaws, QueryOption, AreAnds, where_holds, and_clause}
use kal.Orm.Clauses.{where_holds-and, where_holds-grouped, AreAnds-and, AreAnds-grouped}
use kal.Authz.Principal.{Principal, Context}
use kal.Authz.Scope.{scope, bypasses}
use kal.Scoped.{scoped, apply_all}

module _ (o : Orm) (laws : OrmLaws o) where
  open laws use {eq_clauses, false_clauses, group_clauses}

  -- Which rows the caller may touch: none without an identity, all with the bypass role, else those
  -- whose column names the caller.
  unfoldable pub permits : Context → Text → o.Row → Bool
  unfolding bypasses
  permits ctx column r = elim ctx.principal [
    | none ↦ false
    | some p ↦ not (is_empty p.user_id) && (bypasses ctx p || o.column_is column p.user_id r)
  ]

  and_assoc : (a b c : Bool) → ((a && b) && c) ≡ (a && (b && c))
  and_assoc a b c = ground arith

  -- What a predicate does to a query: it adds the test to the clauses.
  abbrev Narrows : QueryOption o → (o.Row → Bool) → o.Query → Type 0
  Narrows opt test q =
      AreAnds (o.clauses (opt q))
      × ((r : o.Row) → where_holds (o.clauses (opt q)) r ≡ (where_holds (o.clauses q) r && test r))

  adds :
      (opt : QueryOption o) (p : o.Row → Bool) (q : o.Query)
      → AreAnds (o.clauses q)
      → o.clauses (opt q) ≡ o.clauses q ++ and_clause p ∷ []
      → Narrows opt p q
  adds opt p q h e = (
    subst AreAnds (sym e) (AreAnds-and (o.clauses q) p h),
    λ r. ap (λ cs. where_holds cs r) e ∙ where_holds-and (o.clauses q) p r h,
  )

  keeps : (q : o.Query) → AreAnds (o.clauses q) → Narrows (λ q'. q') (λ _. true) q
  keeps q h = (h, λ r. ground arith)

  owner-Narrows :
      (column value : Text) (nobody bypass : Bool) (q : o.Query)
      → AreAnds (o.clauses q)
      → Narrows
          (λ q'.
            if nobody
            then o.where_false q'
            else (if bypass then q' else o.where_eq column value q'))
          (λ r. not nobody && (bypass || o.column_is column value r))
          q
  owner-Narrows column value true bypass q h = adds o.where_false (λ _. false) q h (false_clauses q)
  owner-Narrows column value false true q h = keeps q h
  owner-Narrows column value false false q h =
      adds (o.where_eq column value) (o.column_is column value) q h (eq_clauses column value q)

  scope-Narrows :
      (ctx : Context) (column : Text) (q : o.Query)
      → AreAnds (o.clauses q)
      → Narrows (scope o ctx column) (permits ctx column) q
  unfolding scope permits
  scope-Narrows ctx column q h = by_caller ctx.principal
    where
      by_caller :
          (c : Option Principal)
          → Narrows
              (λ q'. elim c [
                | none ↦ o.where_false q'
                | some p ↦
                    if is_empty p.user_id
                    then o.where_false q'
                    else if bypasses ctx p
                    then q'
                    else o.where_eq column p.user_id q'
              ])
              (λ r. elim c [
                | none ↦ false
                | some p ↦
                    not (is_empty p.user_id) && (bypasses ctx p || o.column_is column p.user_id r)
              ])
              q
      by_caller none = adds o.where_false (λ _. false) q h (false_clauses q)
      by_caller (some p) = owner-Narrows column p.user_id (is_empty p.user_id) (bypasses ctx p) q h

  -- What the caller's own options select, each group by itself.
  abbrev pub asked : List (QueryOption o) → o.Query → o.Row → Bool
  asked [] q r = true
  asked (opt ∷ opts) q r =
      where_holds (o.clauses (apply_all o (opt ∷ opts) (o.without_where (q)))) r

  -- On a query whose clauses are joined by AND, the scoped option adds one that lets exactly those
  -- rows through that the caller may touch and that the caller's own options select among themselves.
  pub scoped-Narrows :
      (ctx : Context) (column : Text) (opts : List (QueryOption o)) (q : o.Query)
      → AreAnds (o.clauses q)
      → AreAnds (o.clauses (scoped o ctx column opts q))
        × ((r : o.Row)
            → where_holds (o.clauses (scoped o ctx column opts q)) r ≡ (
                where_holds (o.clauses q) r
                && (permits ctx column r && asked opts (scope o ctx column q) r)))
  unfolding scoped
  scoped-Narrows ctx column [] q h =
      let (a, e) = scope-Narrows ctx column q h in (a, λ r. e r ∙ ground arith)
  scoped-Narrows ctx column (opt ∷ opts) q h =
      let (a, e) = scope-Narrows ctx column q h in
      let g = group_clauses (apply_all o (opt ∷ opts)) (scope o ctx column q) in
      (
        subst AreAnds (sym g) (AreAnds-grouped _ _ a),
        λ r.
            ap (λ cs. where_holds cs r) g
            ∙ where_holds-grouped _ _ r a
            ∙ ap (λ b. b && asked (opt ∷ opts) (scope o ctx column q) r) (e r)
            ∙ and_assoc (where_holds (o.clauses q) r) (permits ctx column r) _,
      )
