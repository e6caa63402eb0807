-- ===== src/Migrate/Tests.antt =====
-- Tests of the migrations with two scripts, and with a server that refuses the second.
use kal.Base.{true, List, Text, none, some, [], ◌∷◌, ◌≡◌, refl, codes, any, text_eq, is_ident}
use kal.Base.Sort.{sort_texts, insert_text, text_leb}
use kal.Migrate.{
  Catalog, Server, migrate, apply_files, migrate_schema, in_transaction, create_and_migrate,
  applying, invalid_schema, files,
}
use kal.Migrate.Atomic.{migrate-Progress, Progress, Ascending, migrate_schema-Whole, Whole}

abbrev empty : Catalog
empty = record { schemas = []; applied = [] }

abbrev server : Server
server = record {
  entries = codes "0003_e2ee.sql" ∷ codes "0001_core.sql" ∷ [];
  read_file = λ n. some n;
  accepts = λ c path sql. true;
  may_create = λ c schema. true;
  sets_path = true;
  begins = true;
  commits = λ c. true;
}

abbrev refusing : Server
refusing = record server { accepts = λ c path sql. text_eq sql (codes "0001_core.sql") }

migrate_schema-tenant : migrate_schema server (codes "tenant_a") empty ≡ (
  none,
  record {
    schemas = codes "tenant_a" ∷ [];
    applied =
        (codes "tenant_a", codes "0001_core.sql") ∷ (codes "tenant_a", codes "0003_e2ee.sql") ∷ [];
  },
)
unfolding migrate_schema in_transaction create_and_migrate migrate files apply_files sort_texts
    insert_text text_leb is_ident any
migrate_schema-tenant = refl

migrate_schema-quoted : migrate_schema server (codes "a\"b") empty ≡ (some invalid_schema, empty)
unfolding migrate_schema is_ident
migrate_schema-quoted = refl

migrate-stops : migrate refusing (codes "public") empty ≡ (
  some (applying (codes "0003_e2ee.sql")),
  record { schemas = []; applied = (codes "public", codes "0001_core.sql") ∷ [] },
)
unfolding migrate files apply_files sort_texts insert_text text_leb text_eq
migrate-stops = refl

migrate-Progress_example :
    (names : List Text) × Ascending refusing names
    × Progress (codes "public") names empty (migrate refusing (codes "public") empty)
migrate-Progress_example = migrate-Progress refusing (codes "public") empty

migrate_schema-Whole_example :
    Whole server (codes "tenant_a") empty (migrate_schema server (codes "tenant_a") empty)
migrate_schema-Whole_example = migrate_schema-Whole server (codes "tenant_a") empty
