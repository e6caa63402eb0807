-- ===== src/Migrate/Atomic.antt =====
-- How far a migration has come when it stops.
use kal.Base.{
  true, Option, none, some, List, [], ◌∷◌, ◌++◌, ◌≡◌, refl, sym, ap, ◌∙◌, arith, Text, is_ident,
  if◌then◌else◌, map, Bool-cases, inl, inr, any, text_eq, text_eq_iff,
}
use mathlib.Core.List.{Perm, append-nil, append_assoc}
use kal.Base.Sort.{IsSorted, sort_texts-IsSorted, sort_texts-Perm}
use kal.Migrate.{
  Catalog, Server, MigrateError, reading, applying, Outcome, files, record_applied, apply_files,
  migrate, with_schema, settle, in_transaction, create_and_migrate, migrate_schema,
}

abbrev pub on_path : Text → List Text → List (Text × Text)
on_path path names = map (λ n. (path, n)) names

-- The error names a script.
abbrev pub Blames : MigrateError → Text → Type 0
Blames (reading n) m = n ≡ m
Blames (applying n) m = n ≡ m
Blames _ m = ⊥

-- Without an error all the scripts were applied, in their order; with one, those before the script
-- that it names.
abbrev pub Progress : Text → List Text → Catalog → Outcome → Type 0
Progress path names c (none, c') =
    (c'.applied ≡ c.applied ++ on_path path names) × (c'.schemas ≡ c.schemas)
Progress path names c (some e, c') =
    (before : List Text) × (n : Text) × (after : List Text) × (names ≡ before ++ n ∷ after)
    × Blames e n
    × (c'.applied ≡ c.applied ++ on_path path before)
    × (c'.schemas ≡ c.schemas)

later :
    (path n : Text) (ns : List Text) (c : Catalog) (out : Outcome)
    → Progress path ns (record_applied path n c) out
    → Progress path (n ∷ ns) c out
later path n ns c (none, c') (a, s) = (a ∙ append_assoc c.applied ((path, n) ∷ []) _, s)
later path n ns c (some e, c') (before, m, after, split, blames, a, s) = (
  n ∷ before,
  m,
  after,
  ap (λ l. n ∷ l) split,
  blames,
  a ∙ append_assoc c.applied ((path, n) ∷ []) _,
  s,
)

pub apply_files-Progress :
    (srv : Server) (path : Text) (names : List Text) (c : Catalog)
    → Progress path names c (apply_files srv path names c)
unfolding apply_files
apply_files-Progress srv path [] c = (sym (append-nil c.applied), refl)
apply_files-Progress srv path (n ∷ ns) c =
    by_answer (srv.read_file n) (λ c'. apply_files-Progress srv path ns c')
  where
    by_answer :
        (o : Option Text)
        → ((c' : Catalog) → Progress path ns c' (apply_files srv path ns c'))
        → Progress path (n ∷ ns) c (elim o [
          | none ↦ (some (reading n), c)
          | some sql ↦
              if srv.accepts c path sql
              then apply_files srv path ns (record_applied path n c)
              else (some (applying n), c)
        ])
    by_answer none ih = ([], n, ns, refl, refl, sym (append-nil c.applied), refl)
    by_answer (some sql) ih = elim (Bool-cases (srv.accepts c path sql)) [
      | inl e ↦ rw e (later path n ns c _ (ih (record_applied path n c)))
      | inr e ↦ rw e ([], n, ns, refl, refl, sym (append-nil c.applied), refl)
    ]

-- The names are those of the embedded scripts, each as often, and no name is greater than a later one.
abbrev pub Ascending : Server → List Text → Type 0
Ascending srv names = IsSorted names × Perm names srv.entries

files-Ascending : (srv : Server) → Ascending srv (files srv)
unfolding files
files-Ascending srv = (sort_texts-IsSorted srv.entries, sort_texts-Perm srv.entries)

-- Migrate applies the embedded scripts, each once, in ascending order of their names on the
-- connection's search_path; it stops at the first one that fails, which its error names, and those
-- before it stay.
pub migrate-Progress :
    (srv : Server) (path : Text) (c : Catalog)
    → (names : List Text) × Ascending srv names × Progress path names c (migrate srv path c)
unfolding migrate
migrate-Progress srv path c =
    (files srv, files-Ascending srv, apply_files-Progress srv path (files srv) c)

-- What a whole migration into a schema leaves behind.
abbrev pub Whole : Server → Text → Catalog → Outcome → Type 0
Whole srv schema c (none, c') =
    (is_ident schema ≡ true)
    × (any (λ s. text_eq s schema) c'.schemas ≡ true)
    × ((names : List Text) × Ascending srv names × (c'.applied ≡ c.applied ++ on_path schema names))
Whole srv schema c (some e, c') = c' ≡ c

with_schema-any :
    (schema : Text) (c : Catalog)
    → any (λ s. text_eq s schema) (with_schema schema c).schemas ≡ true
unfolding any
with_schema-any schema c = elim (Bool-cases (any (λ s. text_eq s schema) c.schemas)) [
  | inl e ↦ rw (e, with_schema) e
  | inr e ↦ rw (e, with_schema) (rw ((text_eq_iff schema schema).1 refl) refl)
]

with_schema-applied : (schema : Text) (c : Catalog) → (with_schema schema c).applied ≡ c.applied
with_schema-applied schema c = ground arith

settle-Whole :
    (srv : Server) (schema : Text) (c d : Catalog) (names : List Text) (out : Outcome)
    → Ascending srv names
    → is_ident schema ≡ true
    → any (λ s. text_eq s schema) d.schemas ≡ true
    → d.applied ≡ c.applied
    → Progress schema names d out
    → Whole srv schema c (settle srv c out)
settle-Whole srv schema c d names (some e, c') up i m a p = refl
settle-Whole srv schema c d names (none, c') up i m a (applied, schemas) =
    elim (Bool-cases (srv.commits c')) [
      | inl e ↦ rw e (
        i,
        ap (any (λ s. text_eq s schema)) schemas ∙ m,
        (names, up, applied ∙ ap (λ l. l ++ on_path schema names) a),
      )
      | inr e ↦ rw e refl
    ]

-- MigrateSchema is all or nothing: either it reports an error and the catalog is as it was, a name
-- that is no identifier included; or the schema exists and every embedded script was applied in it,
-- each once, in ascending order of the names, with none applied on another search_path.
pub migrate_schema-Whole :
    (srv : Server) (schema : Text) (c : Catalog) → Whole srv schema c (migrate_schema srv schema c)
unfolding migrate_schema in_transaction create_and_migrate
migrate_schema-Whole srv schema c = elim (Bool-cases (is_ident schema)) [
  | inr e ↦ rw e refl
  | inl e ↦ elim (Bool-cases srv.begins) [
    | inr b ↦ rw (e, b) refl
    | inl b ↦ elim (Bool-cases (srv.may_create c schema)) [
      | inr f ↦ rw (e, b, f) refl
      | inl f ↦ elim (Bool-cases srv.sets_path) [
        | inr g ↦ rw (e, b, f, g) refl
        | inl g ↦
            let (names, up, applied) = migrate-Progress srv schema (with_schema schema c) in
            rw (e, b, f, g)
              (settle-Whole srv schema c (with_schema schema c) names _ up e
                (with_schema-any schema c) (with_schema-applied schema c) applied)
      ]
    ]
  ]
]
