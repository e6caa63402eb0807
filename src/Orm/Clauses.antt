-- ===== src/Orm/Clauses.antt =====
-- The truth of a WHERE whose clauses are joined by AND.
use kal.Base.{Bool, ◌&&◌, List, [], ◌∷◌, ◌++◌, ◌≡◌, refl, arith, All-append}
use kal.Orm.{Clause, AreAnds, and_clause, holds_from, where_holds, grouped}

module _ {Row : Type 0} where
  -- A clause added by AND narrows a conjunction.
  holds_from-and :
      (b : Bool) (cs : List (Clause Row)) (p : Row → Bool) (r : Row)
      → AreAnds cs
      → holds_from b (cs ++ and_clause p ∷ []) r ≡ (holds_from b cs r && p r)
  unfolding holds_from
  holds_from-and b [] p r h = refl
  holds_from-and b (c ∷ cs) p r h = rw h.0 (holds_from-and (b && c.holds r) cs p r h.1)

  pub where_holds-and :
      (cs : List (Clause Row)) (p : Row → Bool) (r : Row)
      → AreAnds cs
      → where_holds (cs ++ and_clause p ∷ []) r ≡ (where_holds cs r && p r)
  unfolding where_holds holds_from
  where_holds-and [] p r h = refl
  where_holds-and (c ∷ cs) p r h = holds_from-and (c.holds r) cs p r h.1

  pub AreAnds-and :
      (cs : List (Clause Row)) (p : Row → Bool) → AreAnds cs → AreAnds (cs ++ and_clause p ∷ [])
  AreAnds-and cs p h = All-append _ cs (and_clause p ∷ []) h (refl, tt)

  -- What is inside the group, whatever its joints, narrows a conjunction.
  pub where_holds-grouped :
      (outer inner : List (Clause Row)) (r : Row)
      → AreAnds outer
      → where_holds (grouped outer inner) r ≡ (where_holds outer r && where_holds inner r)
  unfolding grouped where_holds
  where_holds-grouped outer [] r h = ground arith
  where_holds-grouped outer (c ∷ cs) r h = where_holds-and outer (where_holds (c ∷ cs)) r h

  pub AreAnds-grouped :
      (outer inner : List (Clause Row)) → AreAnds outer → AreAnds (grouped outer inner)
  unfolding grouped
  AreAnds-grouped outer [] h = h
  AreAnds-grouped outer (c ∷ cs) h = AreAnds-and outer (where_holds (c ∷ cs)) h
