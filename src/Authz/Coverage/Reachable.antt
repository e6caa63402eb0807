-- ===== src/Authz/Coverage/Reachable.antt =====
-- The report against an independent description of which fields a client reaches unguarded.
use kal.Base.{
  Bool, true, false, not, ◌||◌, Option, none, some, List, [], ◌∷◌, ◌++◌, ◌≡◌, ◌↔◌, ◌⊎◌, refl, sym,
  ap, ◌∙◌, subst, arith, Text, codes, text_eq, text_eq_iff, any, has_prefix, if◌then◌else◌,
  Bool-cases, inl, inr, or_parts,
}
use kal.Base.Sort.{sort_texts, any-sort_texts, IsSorted, sort_texts-IsSorted}
use kal.Authz.Coverage.{
  Field, Definition, has_fields, has_auth, is_selectable_type, field_path, is_exempt,
  uncovered_fields, uncovered, report, Complaint, uncovered_paths, assert_auth_coverage,
}

-- The type can be selected and the whole of it carries no annotation.
abbrev pub IsOpen : Definition → Type 0
IsOpen def =
    (has_fields def.kind ≡ true)
    × (has_prefix def.name (codes "__") ≡ false)
    × (has_auth def.directives ≡ false)

-- The field is the application's own, and neither annotated nor exempt.
abbrev pub IsBare : List Text → Definition → Field → Type 0
IsBare exempt def f =
    (has_prefix f.name (codes "__") ≡ false)
    × (is_exempt exempt (field_path def f) ≡ false)
    × (has_auth f.directives ≡ false)

-- Some bare field of an open type has the path.
abbrev pub BareField : List Text → Text → Definition → List Field → Type 0
BareField exempt path def [] = ⊥
BareField exempt path def (f ∷ fs) =
    (IsBare exempt def f × (field_path def f ≡ path)) ⊎ BareField exempt path def fs

abbrev pub Unguarded : List Text → Text → List Definition → Type 0
Unguarded exempt path [] = ⊥
Unguarded exempt path (def ∷ defs) =
    (IsOpen def × BareField exempt path def def.fields) ⊎ Unguarded exempt path defs

abbrev pub named : Text → Text → Bool
named path p = text_eq p path

any-append : (p : Text → Bool) (xs ys : List Text) → any p (xs ++ ys) ≡ (any p xs || any p ys)
unfolding any
any-append p [] ys = refl
any-append p (x ∷ xs) ys = ground (arith, any-append p xs ys)

module _ (exempt : List Text) (path : Text) where
  listed→BareField :
      (def : Definition) (fs : List Field)
      → any (named path) (uncovered_fields exempt def fs) ≡ true
      → BareField exempt path def fs
  unfolding uncovered_fields any
  listed→BareField def [] h = cc
  listed→BareField def (f ∷ fs) h =
      by_tests (has_prefix f.name (codes "__")) (is_exempt exempt (field_path def f))
        (has_auth f.directives) refl refl refl (listed→BareField def fs) h
    where
      by_tests :
          (a b c : Bool)
          → has_prefix f.name (codes "__") ≡ a
          → is_exempt exempt (field_path def f) ≡ b
          → has_auth f.directives ≡ c
          → (any (named path) (uncovered_fields exempt def fs) ≡ true
              → BareField exempt path def fs)
          → any (named path) (
              if a
              then uncovered_fields exempt def fs
              else (if b || c
                  then uncovered_fields exempt def fs
                  else field_path def f ∷ uncovered_fields exempt def fs))
            ≡ true
          → BareField exempt path def (f ∷ fs)
      by_tests true b c p q r ih g = inr (ih g)
      by_tests false true c p q r ih g = inr (ih g)
      by_tests false false true p q r ih g = inr (ih g)
      by_tests false false false p q r ih g = elim (or_parts (named path (field_path def f)) _ g) [
        | inl e ↦ inl ((p, q, r), (text_eq_iff (field_path def f) path).0 e)
        | inr e ↦ inr (ih e)
      ]

  BareField→listed :
      (def : Definition) (fs : List Field)
      → BareField exempt path def fs
      → any (named path) (uncovered_fields exempt def fs) ≡ true
  unfolding uncovered_fields any
  BareField→listed def [] h = absurd h
  BareField→listed def (f ∷ fs) (inl ((p, q, r), e)) =
      rw (p, q, r, (text_eq_iff (field_path def f) path).1 e) refl
  BareField→listed def (f ∷ fs) (inr h) = let rest = BareField→listed def fs h in ground arith

  listed→Unguarded :
      (defs : List Definition)
      → any (named path) (uncovered exempt defs) ≡ true
      → Unguarded exempt path defs
  unfolding uncovered any is_selectable_type
  listed→Unguarded [] h = cc
  listed→Unguarded (def ∷ defs) h =
      by_tests (has_fields def.kind) (has_prefix def.name (codes "__")) (has_auth def.directives)
        refl refl refl (listed→Unguarded defs) h
    where
      by_tests :
          (a b c : Bool)
          → has_fields def.kind ≡ a
          → has_prefix def.name (codes "__") ≡ b
          → has_auth def.directives ≡ c
          → (any (named path) (uncovered exempt defs) ≡ true → Unguarded exempt path defs)
          → any (named path) (
              if not (if not a then false else not b)
              then uncovered exempt defs
              else (if c
                  then uncovered exempt defs
                  else uncovered_fields exempt def def.fields ++ uncovered exempt defs))
            ≡ true
          → Unguarded exempt path (def ∷ defs)
      by_tests false b c p q r ih g = inr (ih g)
      by_tests true true c p q r ih g = inr (ih g)
      by_tests true false true p q r ih g = inr (ih g)
      by_tests true false false p q r ih g =
          elim (or_parts (any (named path) (uncovered_fields exempt def def.fields)) _
            (sym (any-append (named path) (uncovered_fields exempt def def.fields) _) ∙ g)) [
              | inl e ↦ inl ((p, q, r), listed→BareField def def.fields e)
              | inr e ↦ inr (ih e)
            ]

  Unguarded→listed :
      (defs : List Definition)
      → Unguarded exempt path defs
      → any (named path) (uncovered exempt defs) ≡ true
  unfolding uncovered any is_selectable_type
  Unguarded→listed [] h = absurd h
  Unguarded→listed (def ∷ defs) (inl ((p, q, r), h)) =
      let first = BareField→listed def def.fields h in
      rw
        (
          p,
          q,
          r,
          any-append (named path) (uncovered_fields exempt def def.fields) (uncovered exempt defs),
          first,
        )
        refl
  Unguarded→listed (def ∷ defs) (inr h) =
      let rest = Unguarded→listed defs h in
      elim (Bool-cases (is_selectable_type def)) [
        | inr e ↦ rw e rest
        | inl e ↦ elim (Bool-cases (has_auth def.directives)) [
          | inl a ↦ rw (e, a) rest
          | inr a ↦
              rw
                (
                  e,
                  a,
                  any-append (named path) (uncovered_fields exempt def def.fields)
                      (uncovered exempt defs),
                  rest,
                )
                (ground arith)
        ]
      ]

same_paths :
    (ps qs : List Text)
    → ◌≡◌ {A = Option Complaint} (some (uncovered_paths ps)) (some (uncovered_paths qs))
    → ps ≡ qs
same_paths ps qs h = cc h

report-Unguarded :
    (types : List Definition) (exempt u : List Text)
    → ((path : Text) → (any (named path) u ≡ true) ↔ Unguarded exempt path types)
    → ((report u ≡ none) ↔ ((path : Text) → Unguarded exempt path types → ⊥))
      × ((ps : List Text)
          → report u ≡ some (uncovered_paths ps)
          → IsSorted ps
            × ((path : Text) → (any (named path) ps ≡ true) ↔ Unguarded exempt path types))
unfolding any
report-Unguarded types exempt [] h =
    ((λ _ path g. absurd (cc ((h path).1 g)), λ _. refl), λ ps g. absurd (cc g))
report-Unguarded types exempt (p ∷ ps) h = (
  (
    λ g. absurd (cc g),
    λ none_open. absurd (none_open p ((h p).0 (rw ((text_eq_iff p p).1 refl) refl))),
  ),
  λ qs g.
      let same = same_paths (sort_texts (p ∷ ps)) qs g in
      (
        subst IsSorted same (sort_texts-IsSorted (p ∷ ps)),
        λ path.
            let e = ap (any (named path)) (sym same) ∙ any-sort_texts (named path) (p ∷ ps) in
            (λ k. (h path).0 (sym e ∙ k), λ k. e ∙ (h path).1 k),
      ),
)

-- Nothing is reported exactly when no path is unguarded; a report on a schema is sorted, and names
-- exactly the unguarded paths.
pub assert_auth_coverage-Unguarded :
    (types : List Definition) (exempt : List Text)
    → ((assert_auth_coverage (some (some types)) exempt ≡ none)
        ↔ ((path : Text) → Unguarded exempt path types → ⊥))
      × ((ps : List Text)
          → assert_auth_coverage (some (some types)) exempt ≡ some (uncovered_paths ps)
          → IsSorted ps
            × ((path : Text) → (any (named path) ps ≡ true) ↔ Unguarded exempt path types))
unfolding assert_auth_coverage
assert_auth_coverage-Unguarded types exempt =
    report-Unguarded types exempt (uncovered exempt types)
      (λ path. (listed→Unguarded exempt path types, Unguarded→listed exempt path types))
