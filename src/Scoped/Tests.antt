-- ===== src/Scoped/Tests.antt =====
-- The helpers on a table of two tenants, over a builder that keeps its clauses in a list.
use kal.Base.{
  Bool, true, false, not, ◌&&◌, Option, none, some, List, [], ◌∷◌, ◌++◌, ◌≡◌, refl, sym, Text,
  codes, text_eq, find, find-holds, find-any, subst, filter, any, update, All, Bool-cases, inl, inr,
}
use kal.Kalerr.{Result, ok, err, plain}
use kal.Orm.{
  Orm, OrmLaws, Luima, LuimaLaws, Clause, and_clause, or_clause, where_holds, grouped, AreAnds,
  QueryOption,
}
use kal.Authz.Principal.{Context, background}
use kal.Authz.Scope.{scope, bypasses}
use kal.Scoped.{scoped, list, get, update_row, delete}
use kal.Scoped.Isolation.{permits, scoped-Narrows, asked}
use kal.Scoped.Tenants.{reads-permits, update-permits, delete-permits, Untouched}

record Doc : Type 0 where
  pub id : Text
  pub owner : Text

abbrev orm : Orm
orm = record {
  Row = Doc;
  Query = List (Clause Doc);
  column_is = λ column value r. text_eq r.owner value;
  where_eq = λ column value q. q ++ and_clause (λ r. text_eq r.owner value) ∷ [];
  where_false = λ q. q ++ and_clause (λ _. false) ∷ [];
  where_group = λ f q. grouped q (f []);
  without_where = λ q. [];
  clauses = λ q. q;
}

abbrev orm_laws : OrmLaws orm
orm_laws = record {
  eq_clauses = λ column value q. refl;
  false_clauses = λ q. refl;
  group_clauses = λ f q. refl;
}

abbrev selected : Doc → QueryOption orm → Doc → Bool
selected m opt r = text_eq r.id m.id && where_holds (opt []) r

abbrev found : Doc → Option Doc → Result (Doc × List Doc) → Result (Doc × List Doc)
found m none answer = err (plain "not found")
found m (some r) answer = answer

abbrev luima : Luima orm
luima = record {
  fresh = [];
  is_key = λ m r. text_eq r.id m.id;
  assign = λ m opt r. m;
  list = λ opt table. ok (filter (where_holds (opt [])) table);
  get = λ m opt table. ok (find (selected m opt) table);
  update_row = λ m label opt table.
      found m (find (selected m opt) table) (ok (m, update (selected m opt) (λ r. m) table));
  delete =
      λ m opt table. ok (any (selected m opt) table, filter (λ r. not (selected m opt r)) table);
}

filter-All-true : (p : Doc → Bool) (rows : List Doc) → All (λ r. p r ≡ true) (filter p rows)
unfolding filter
filter-All-true p [] = tt
filter-All-true p (x ∷ xs) = elim (Bool-cases (p x)) [
  | inl e ↦ rw e (e, filter-All-true p xs)
  | inr e ↦ rw e (filter-All-true p xs)
]

ok-injective : {A : Type 0} (a b : A) → ◌≡◌ {A = Result A} (ok a) (ok b) → a ≡ b
ok-injective a b h = cc h

pair-injective :
    {A B : Type 0} (a a' : A) (b b' : B) → ◌≡◌ {A = A × B} (a, b) (a', b') → (a ≡ a') × (b ≡ b')
pair-injective a a' b b' h = (cc h, cc h)

updated :
    (m : Doc) (opt : QueryOption orm) (table table' : List Doc) (r : Doc) (o : Option Doc)
    → find (selected m opt) table ≡ o
    → found m o (ok (m, update (selected m opt) (λ _. m) table)) ≡ ok (r, table')
    → (any (selected m opt) table ≡ true) × (table' ≡ update (selected m opt) (λ _. m) table)
updated m opt table table' r none e h = absurd (cc h)
updated m opt table table' r (some x) e h = (
  find-any (selected m opt) (selected m opt) table e (find-holds (selected m opt) table e),
  sym (pair-injective m r _ table' (ok-injective _ (r, table') h)).1,
)

luima_laws : LuimaLaws orm luima
luima_laws = record {
  fresh_clauses = refl;
  list_selects = λ opt table rows a h.
      subst (All (λ r. where_holds (opt []) r ≡ true)) (ok-injective _ rows h)
        (filter-All-true (where_holds (opt [])) table);
  get_selects = λ m opt table r a h. find-holds (selected m opt) table (ok-injective _ (some r) h);
  update_changes = λ m label opt table table' r a h.
      updated m opt table table' r (find (selected m opt) table) refl h;
  delete_removes = λ m opt table table' b a h.
      let e = pair-injective _ b _ table' (ok-injective _ (b, table') h) in (sym e.0, sym e.1);
}

abbrev alice : Context
alice = record background {
  principal = some (record {
    user_id = codes "alice";
    session_id = codes "s";
    roles = [];
    auth_at = 0;
    mfa_at = none;
    email = [];
    verified = true;
  });
}

abbrev doc : Text → Text → Doc
doc id owner = record { id = id; owner = owner }

abbrev docs : List Doc
docs = doc (codes "1") (codes "alice") ∷ doc (codes "2") (codes "bob") ∷ []

-- An option that asks for the other tenant's rows as well.
abbrev or_bob : QueryOption orm
or_bob q = q ++ or_clause (λ r. text_eq r.owner (codes "bob")) ∷ []

-- Beside the bare predicate it reads them, and inside the group it does not.
or_bob-scope : filter (where_holds (or_bob (scope orm alice (codes "owner") []))) docs ≡ docs
unfolding scope where_holds filter text_eq
or_bob-scope = refl

or_bob-list : list orm luima alice (codes "owner") (or_bob ∷ []) docs ≡ ok []
unfolding list scope where_holds filter text_eq grouped
or_bob-list = refl

scoped-Narrows_example :
    AreAnds (orm.clauses (scoped orm alice (codes "owner") (or_bob ∷ []) []))
    × ((r : Doc)
        → where_holds (scoped orm alice (codes "owner") (or_bob ∷ []) []) r ≡ (
            where_holds [] r
            && (permits orm orm_laws alice (codes "owner") r
                && asked orm orm_laws (or_bob ∷ []) (scope orm alice (codes "owner") []) r)))
scoped-Narrows_example = scoped-Narrows orm orm_laws alice (codes "owner") (or_bob ∷ []) [] tt

abbrev may_touch : Doc → Bool
may_touch = permits orm orm_laws alice (codes "owner")

reads-permits_example :
    (list orm luima alice (codes "owner") [] docs ≡ ok (doc (codes "1") (codes "alice") ∷ [])
      → All (λ x. may_touch x ≡ true) (doc (codes "1") (codes "alice") ∷ []))
    × (get orm luima alice (codes "owner") (doc (codes "1") []) [] docs
          ≡ ok (some (doc (codes "1") (codes "alice")))
        → (text_eq (codes "1") (codes "1") ≡ true)
          × (may_touch (doc (codes "1") (codes "alice")) ≡ true))
reads-permits_example =
    reads-permits orm orm_laws luima luima_laws alice (codes "owner") [] (doc (codes "1") []) docs
      (doc (codes "1") (codes "alice") ∷ []) (doc (codes "1") (codes "alice"))

list-alice :
    list orm luima alice (codes "owner") [] docs ≡ ok (doc (codes "1") (codes "alice") ∷ [])
unfolding list scope where_holds filter text_eq grouped bypasses
list-alice = refl

update-permits_example :
    (any (λ x. text_eq x.id (codes "1") && may_touch x) docs ≡ true)
    × Untouched orm orm_laws luima luima_laws alice
        (codes "owner")
        []
        docs
        (doc (codes "1") (codes "carol") ∷ doc (codes "2") (codes "bob") ∷ [])
unfolding update_row scope where_holds find update text_eq
update-permits_example =
    update-permits orm orm_laws luima luima_laws alice (codes "owner") []
      (doc (codes "1") (codes "carol")) (codes "doc") docs
      (doc (codes "1") (codes "carol") ∷ doc (codes "2") (codes "bob") ∷ [])
      (doc (codes "1") (codes "carol")) refl

delete-permits_example :
    (filter (λ r. not (may_touch r)) docs ≡ filter (λ r. not (may_touch r)) docs)
    × (any (λ x. text_eq x.id (codes "2") && may_touch x) docs ≡ false
        → (false ≡ false) × (docs ≡ docs))
unfolding delete scope where_holds any filter text_eq
delete-permits_example =
    delete-permits orm orm_laws luima luima_laws alice (codes "owner") [] (doc (codes "2") []) docs
      docs false refl
