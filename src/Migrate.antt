-- ===== src/Migrate.antt =====
-- migrate.go and migrations/migrations.go: the embedded scripts, applied in order, on a connection's
-- search_path or into a schema of their own. What a script does is the server's business: it is
-- accepted or refused as a whole.
pub mod Atomic
mod Tests
use kal.Base.{
  Bool, true, false, not, Option, none, some, List, [], ◌∷◌, ◌++◌, Text, text_eq, any, is_ident,
  if◌then◌else◌,
}
use kal.Base.Sort.{sort_texts}

-- The schemas, and which script was applied on which search_path, the earliest first.
pub record Catalog : Type 0 where
  pub schemas : List Text
  pub applied : List (Text × Text)

-- The embedded directory and the server: whether a script is accepted on a search_path, whether a
-- schema may be created, whether the search_path can be set, and whether a transaction begins and
-- commits.
pub record Server : Type 0 where
  pub entries : List Text
  pub read_file : Text → Option Text
  pub accepts : Catalog → Text → Text → Bool
  pub may_create : Catalog → Text → Bool
  pub sets_path : Bool
  pub begins : Bool
  pub commits : Catalog → Bool

pub data MigrateError : Type 0 where
  invalid_schema begin_or_commit : MigrateError
  reading applying creating setting_path : Text → MigrateError

-- The error, if there is one, and the catalog.
abbrev pub Outcome : Type 0
Outcome = Option MigrateError × Catalog

-- `migrations.Files`.
unfoldable pub files : Server → List Text
unfolding sort_texts
files srv = sort_texts srv.entries

abbrev pub record_applied : Text → Text → Catalog → Catalog
record_applied path name c = record c { applied = c.applied ++ (path, name) ∷ [] }

-- The loop of `migrate`.
unfoldable pub apply_files : Server → Text → List Text → Catalog → Outcome
apply_files srv path [] c = (none, c)
apply_files srv path (n ∷ ns) c = elim (srv.read_file n) [
  | none ↦ (some (reading n), c)
  | some sql ↦
      if srv.accepts c path sql
      then apply_files srv path ns (record_applied path n c)
      else (some (applying n), c)
]

-- `migrate`.
unfoldable pub migrate : Server → Text → Catalog → Outcome
unfolding apply_files files
migrate srv path c = apply_files srv path (files srv) c

-- `create schema if not exists`.
abbrev pub with_schema : Text → Catalog → Catalog
with_schema schema c =
    if any (λ s. text_eq s schema) c.schemas then c else record c { schemas = schema ∷ c.schemas }

abbrev pub settle : Server → Catalog → Outcome → Outcome
settle srv c (some e, c') = (some e, c)
settle srv c (none, c') = if srv.commits c' then (none, c') else (some begin_or_commit, c)

-- `RunInTransaction`: a transaction that cannot begin, a body that fails and a commit that fails leave
-- the catalog alone.
unfoldable pub in_transaction : Server → (Catalog → Outcome) → Catalog → Outcome
in_transaction srv body c =
    if not srv.begins then (some begin_or_commit, c) else settle srv c (body c)

-- The body of the transaction.
unfoldable pub create_and_migrate : Server → Text → Catalog → Outcome
unfolding migrate any text_eq
create_and_migrate srv schema c =
    if not (srv.may_create c schema)
    then (some (creating schema), c)
    else if not srv.sets_path
    then (some (setting_path schema), with_schema schema c)
    else migrate srv schema (with_schema schema c)

-- `migrateSchema`.
unfoldable pub migrate_schema : Server → Text → Catalog → Outcome
unfolding is_ident in_transaction create_and_migrate
migrate_schema srv schema c =
    if not (is_ident schema)
    then (some invalid_schema, c)
    else in_transaction srv (create_and_migrate srv schema) c
