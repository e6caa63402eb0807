-- ===== src/Authz/Coverage/Tests.antt =====
-- Tests of the coverage on a query type with one public, one guarded and one forgotten field.
use kal.Base.{
  true, none, some, [], ◌∷◌, ◌≡◌, ◌↔◌, refl, Text, List, codes, any, text_eq, has_prefix,
}
use kal.Base.Sort.{sort_texts, insert_text, text_leb, IsSorted}
use kal.Authz.Coverage.{
  object, input_object, Field, Definition, uncovered, has_auth, is_selectable_type,
  uncovered_fields, assert_auth_coverage, uncovered_paths, assert_directives_wired, missing,
  nil_func, set_func, other_field, pointer_to, struct, nil_pointer, not_wired, got_nil_pointer,
}
use kal.Authz.Coverage.Reachable.{assert_auth_coverage-Unguarded, Unguarded, named}

abbrev field : Text → List Text → Field
field n ds = record { name = n; directives = ds }

abbrev query : Definition
query = record {
  kind = object;
  name = codes "Query";
  directives = [];
  fields =
      field (codes "__typename") []
      ∷ field (codes "me") (codes "auth" ∷ [])
      ∷ field (codes "secrets") []
      ∷ field (codes "health") []
      ∷ [];
}

abbrev input : Definition
input = record {
  kind = input_object;
  name = codes "NewDoc";
  directives = [];
  fields = field (codes "title") [] ∷ [];
}

abbrev types : List Definition
types = query ∷ input ∷ []

abbrev exempt : List Text
exempt = codes "Query.health" ∷ []

assert_auth_coverage-forgotten :
    assert_auth_coverage (some (some types)) exempt
    ≡ some (uncovered_paths (codes "Query.secrets" ∷ []))
unfolding assert_auth_coverage uncovered uncovered_fields has_auth is_selectable_type has_prefix any
    text_eq sort_texts insert_text
assert_auth_coverage-forgotten = refl

assert_auth_coverage-Unguarded_example :
    ((assert_auth_coverage (some (some types)) exempt ≡ none)
      ↔ ((path : Text) → Unguarded exempt path types → ⊥))
    × ((ps : List Text)
        → assert_auth_coverage (some (some types)) exempt ≡ some (uncovered_paths ps)
        → IsSorted ps
          × ((path : Text) → (any (named path) ps ≡ true) ↔ Unguarded exempt path types))
assert_auth_coverage-Unguarded_example = assert_auth_coverage-Unguarded types exempt

assert_directives_wired-sorted :
    assert_directives_wired (
      pointer_to (
        struct (
          (codes "Tag", nil_func)
          ∷ (codes "Auth", nil_func)
          ∷ (codes "Log", set_func)
          ∷ (codes "Name", other_field)
          ∷ [])))
    ≡ some (not_wired (codes "Auth" ∷ codes "Tag" ∷ []))
unfolding assert_directives_wired missing sort_texts insert_text text_leb
assert_directives_wired-sorted = refl

assert_directives_wired-nil :
    assert_directives_wired (pointer_to nil_pointer) ≡ some got_nil_pointer
unfolding assert_directives_wired
assert_directives_wired-nil = refl
