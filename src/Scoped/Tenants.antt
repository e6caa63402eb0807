-- ===== src/Scoped/Tenants.antt =====
-- The four helpers keep to the rows that the caller may touch.
use kal.Base.{
  Bool, true, false, not, ◌&&◌, some, List, [], ◌∷◌, ◌≡◌, refl, sym, ap, ◌∙◌, subst, arith, Text,
  if◌then◌else◌, All, All-mono, any, filter, update, filter-not-any, Bool-cases, inl, inr,
  and_parts,
}
use kal.Kalerr.{ok}
use kal.Orm.{Orm, OrmLaws, QueryOption, Luima, LuimaLaws, AreAnds, where_holds, is_target}
use kal.Authz.Principal.{Context}
use kal.Scoped.{scoped, list, get, update_row, delete}
use kal.Scoped.Isolation.{permits, scoped-Narrows}

module _ (o : Orm) (laws : OrmLaws o) (l : Luima o) (luima : LuimaLaws o l) (ctx : Context)
    (column : Text) (opts : List (QueryOption o)) where
  abbrev permitted : o.Row → Bool
  permitted = permits o laws ctx column

  fresh-AreAnds : AreAnds (o.clauses l.fresh)
  fresh-AreAnds = subst AreAnds (sym luima.fresh_clauses) tt

  -- What the helpers' query selects.
  scoped-AreAnds : AreAnds (o.clauses (scoped o ctx column opts l.fresh))
  scoped-AreAnds = (scoped-Narrows o laws ctx column opts l.fresh fresh-AreAnds).0

  selected-permits :
      (r : o.Row)
      → where_holds (o.clauses (scoped o ctx column opts l.fresh)) r ≡ true
      → permitted r ≡ true
  selected-permits r h =
      let e = (scoped-Narrows o laws ctx column opts l.fresh fresh-AreAnds).1 r in
      (and_parts (permitted r) _ (and_parts (where_holds (o.clauses l.fresh) r) _ (sym e ∙ h)).1).0

  target-permits :
      (m r : o.Row)
      → is_target o l m (scoped o ctx column opts) r ≡ true
      → (l.is_key m r ≡ true) × (permitted r ≡ true)
  target-permits m r h = let (k, w) = and_parts (l.is_key m r) _ h in (k, selected-permits r w)

  -- Every row that List returns, and the one that Get returns, is one that the caller may touch,
  -- whatever options were given; the one of Get has the key that was asked for.
  pub reads-permits :
      (key : o.Row) (table rows : List o.Row) (r : o.Row)
      → (list o l ctx column opts table ≡ ok rows → All (λ x. permitted x ≡ true) rows)
        × (get o l ctx column key opts table ≡ ok (some r)
            → (l.is_key key r ≡ true) × (permitted r ≡ true))
  unfolding list get
  reads-permits key table rows r = (
    λ h. All-mono _ _ rows selected-permits (luima.list_selects _ table rows scoped-AreAnds h),
    λ h. target-permits key r (luima.get_selects key _ table r scoped-AreAnds h),
  )

  -- Row by row: what the caller may not touch is as it was.
  abbrev pub Untouched : List o.Row → List o.Row → Type 0
  Untouched [] [] = Unit
  Untouched (x ∷ xs) (y ∷ ys) = (permitted x ≡ false → y ≡ x) × Untouched xs ys
  Untouched _ _ = ⊥

  update-Untouched :
      (t : o.Row → Bool) (f : o.Row → o.Row) (rows : List o.Row)
      → ((r : o.Row) → t r ≡ true → permitted r ≡ true)
      → Untouched rows (update t f rows)
  unfolding update
  update-Untouched t f [] h = tt
  update-Untouched t f (x ∷ xs) h = (
    λ d. elim (Bool-cases (t x)) [ inl e ↦ absurd (cc (h x e, d)) | inr e ↦ rw e refl ],
    update-Untouched t f xs h,
  )

  any-permits :
      (m : o.Row) (rows : List o.Row)
      → any (is_target o l m (scoped o ctx column opts)) rows ≡ true
      → any (λ r. l.is_key m r && permitted r) rows ≡ true
  unfolding any
  any-permits m [] h = cc
  any-permits m (x ∷ xs) h = elim (Bool-cases (is_target o l m (scoped o ctx column opts) x)) [
    | inl e ↦ rw ((target-permits m x e).0, (target-permits m x e).1) refl
    | inr e ↦ ground (arith, any-permits m xs (rw e at h))
  ]

  -- An Update that succeeds found a row with the key that the caller may touch; it changes no row
  -- that the caller may not, and adds and removes none.
  pub update-permits :
      (m : o.Row) (label : Text) (table table' : List o.Row) (r : o.Row)
      → update_row o l ctx column m label opts table ≡ ok (r, table')
      → (any (λ x. l.is_key m x && permitted x) table ≡ true) × Untouched table table'
  unfolding update_row
  update-permits m label table table' r h =
      let (found, e) = luima.update_changes m label _ table table' r scoped-AreAnds h in
      (
        any-permits m table found,
        subst (Untouched table) (sym e)
            (update-Untouched _ _ table (λ x t. (target-permits m x t).1)),
      )

  filter-denied :
      (t : o.Row → Bool) (rows : List o.Row)
      → ((r : o.Row) → t r ≡ true → permitted r ≡ true)
      → filter (λ r. not (permitted r)) (filter (λ r. not (t r)) rows)
        ≡ filter (λ r. not (permitted r)) rows
  unfolding filter
  filter-denied t [] h = refl
  filter-denied t (x ∷ xs) h = elim (Bool-cases (t x)) [
    | inl e ↦ rw (e, h x e) (filter-denied t xs h)
    | inr e ↦
        rw e (ap (λ rest. if not (permitted x) then x ∷ rest else rest) (filter-denied t xs h))
  ]

  none-target :
      (m : o.Row) (rows : List o.Row)
      → any (λ r. l.is_key m r && permitted r) rows ≡ false
      → any (is_target o l m (scoped o ctx column opts)) rows ≡ false
  none-target m rows h = elim (Bool-cases (any (is_target o l m (scoped o ctx column opts)) rows)) [
    | inl e ↦ absurd (cc (any-permits m rows e, h))
    | inr e ↦ e
  ]

  -- A Delete that succeeds leaves every row that the caller may not touch; and where no row with the
  -- key is one that the caller may, it answers false and the table is as it was.
  pub delete-permits :
      (key : o.Row) (table table' : List o.Row) (b : Bool)
      → delete o l ctx column key opts table ≡ ok (b, table')
      → (filter (λ r. not (permitted r)) table' ≡ filter (λ r. not (permitted r)) table)
        × (any (λ x. l.is_key key x && permitted x) table ≡ false → (b ≡ false) × (table' ≡ table))
  unfolding delete
  delete-permits key table table' b h =
      let (answer, e) = luima.delete_removes key _ table table' b scoped-AreAnds h in
      (
        ap (filter (λ r. not (permitted r))) e
            ∙ filter-denied _ table (λ x t. (target-permits key x t).1),
        λ none_permitted.
            let missed = none-target key table none_permitted in
            (answer ∙ missed, e ∙ filter-not-any _ table missed),
      )
