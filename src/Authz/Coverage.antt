-- ===== src/Authz/Coverage.antt =====
-- authz/coverage.go: the fields that a client can select without an annotation, and the directives
-- that were left nil. gqlparser's AST is the data that the walk looks at.
pub mod Reachable
mod Tests
use kal.Base.{
  Bool, true, false, not, ◌&&◌, ◌||◌, Option, none, some, List, [], ◌∷◌, ◌++◌, Text, codes, text_eq,
  any, find, has_prefix, if◌then◌else◌,
}
use kal.Base.Sort.{sort_texts}

-- `ast.DefinitionKind`.
pub data Kind : Type 0 where
  scalar object interface union enum input_object : Kind

-- `ast.FieldDefinition` and `ast.Definition`, with the names of their directives.
pub record Field : Type 0 where
  pub name : Text
  pub directives : List Text

pub record Definition : Type 0 where
  pub kind : Kind
  pub name : Text
  pub directives : List Text
  pub fields : List Field

-- `hasAuth`.
unfoldable pub has_auth : List Text → Bool
unfolding any text_eq
has_auth directives = any (λ d. text_eq d (codes "auth")) directives

abbrev pub has_fields : Kind → Bool
has_fields object = true
has_fields interface = true
has_fields _ = false

-- `isSelectableType`.
unfoldable pub is_selectable_type : Definition → Bool
unfolding has_prefix
is_selectable_type def =
    if not (has_fields def.kind) then false else not (has_prefix def.name (codes "__"))

abbrev pub field_path : Definition → Field → Text
field_path def f = def.name ++ (codes "." ++ f.name)

abbrev pub is_exempt : List Text → Text → Bool
is_exempt exempt path = any (λ e. text_eq e path) exempt

-- The inner loop.
unfoldable pub uncovered_fields : List Text → Definition → List Field → List Text
unfolding has_auth has_prefix any text_eq
uncovered_fields exempt def [] = []
uncovered_fields exempt def (f ∷ fs) =
    let rest = uncovered_fields exempt def fs in
    if has_prefix f.name (codes "__")
    then rest
    else if is_exempt exempt (field_path def f) || has_auth f.directives
    then rest
    else field_path def f ∷ rest

-- The outer loop, in the order of the list: Go's order over the map of types is any order.
unfoldable pub uncovered : List Text → List Definition → List Text
unfolding is_selectable_type has_auth uncovered_fields
uncovered exempt [] = []
uncovered exempt (def ∷ defs) =
    let rest = uncovered exempt defs in
    if not (is_selectable_type def)
    then rest
    else if has_auth def.directives
    then rest
    else uncovered_fields exempt def def.fields ++ rest

-- The error of `AssertAuthCoverage`.
pub data Complaint : Type 0 where
  nil_schema no_ast : Complaint
  uncovered_paths : List Text → Complaint

abbrev pub report : List Text → Option Complaint
report [] = none
report (p ∷ ps) = some (uncovered_paths (sort_texts (p ∷ ps)))

-- `AssertAuthCoverage`: none is a nil schema, `some none` one without an AST.
unfoldable pub assert_auth_coverage :
    Option (Option (List Definition)) → List Text → Option Complaint
unfolding uncovered sort_texts
assert_auth_coverage none exempt = some nil_schema
assert_auth_coverage (some none) exempt = some no_ast
assert_auth_coverage (some (some types)) exempt = report (uncovered exempt types)

-- A Go value as `reflect` shows it: a pointer, nil or to a value; a struct with the names of its
-- fields and, for those that are functions, whether they are nil; anything else.
pub data FieldValue : Type 0 where
  nil_func set_func other_field : FieldValue

pub data GoValue : Type 0 where
  nil_pointer : GoValue
  pointer_to : GoValue → GoValue
  struct : List (Text × FieldValue) → GoValue
  other : GoValue

pub data WiringError : Type 0 where
  got_nil_pointer not_a_struct : WiringError
  not_wired : List Text → WiringError

-- The loop over the fields.
unfoldable pub missing : List (Text × FieldValue) → List Text
missing [] = []
missing ((n, nil_func) ∷ fs) = n ∷ missing fs
missing ((n, set_func) ∷ fs) = missing fs
missing ((n, other_field) ∷ fs) = missing fs

abbrev pub report_missing : List Text → Option WiringError
report_missing [] = none
report_missing (n ∷ ns) = some (not_wired (sort_texts (n ∷ ns)))

-- `AssertDirectivesWired`.
unfoldable pub assert_directives_wired : GoValue → Option WiringError
unfolding missing sort_texts
assert_directives_wired nil_pointer = some got_nil_pointer
assert_directives_wired (pointer_to v) = assert_directives_wired v
assert_directives_wired (struct fields) = report_missing (missing fields)
assert_directives_wired other = some not_a_struct
