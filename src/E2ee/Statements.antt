-- ===== src/E2ee/Statements.antt =====
-- e2ee/sql.go: the statements on auth_e2ee_vaults. `sha256` is the function of the database that
-- fingerprints the password hash.
use kal.Base.{
  ℕ, ◌+◌, Bool, true, false, not, ◌&&◌, ◌||◌, Option, none, some, List, [], ◌∷◌, Text, text_eq,
  to_lower, if◌then◌else◌, ltb, ◌==◌, find, filter, any, update,
}
use kal.Base.Int.{ℤ, pos, negsuc}
use kal.Kalerr.{ok, err, driver}
use kal.Store.{Db, User, VaultRow}
use kal.World.{Stmt}
use kal.Session.Statements.{is_null, is_user}
use kal.E2ee.Params.{Params}

abbrev pub of_user : Text → VaultRow → Bool
of_user user v = text_eq v.user_id user

abbrev pub coalesce : Option Text → Text
coalesce none = []
coalesce (some t) = t

abbrev pub stored_params : VaultRow → Params
stored_params v = record {
  kdf = v.kdf;
  salt = v.salt;
  memory = v.memory;
  iterations = v.iterations;
  parallelism = v.parallelism;
}

abbrev pub has_email : Text → User → Bool
has_email email u = text_eq (to_lower u.email) email && is_null u.deleted_at

abbrev pub owned_by_email : Text → List User → VaultRow → Bool
owned_by_email email users v = any (λ u. text_eq u.id v.user_id && has_email email u) users

-- `paramsByEmailSQL`.
unfoldable pub params_stmt : Text → Stmt (Option Params)
unfolding any find to_lower text_eq
params_stmt email now db = elim (find (owned_by_email email db.users) db.vaults) [
  | none ↦ ok (none, db)
  | some v ↦ ok (some (stored_params v), db)
]

-- An `int` column.
abbrev pub max_int4 : ℕ
max_int4 = 2_147_483_647

abbrev pub is_version : ℤ → ℕ → Bool
is_version (pos n) v = n == v
is_version (negsuc n) v = false

module _ (sha256 : Text → Text) where
  -- `wrappedForFingerprint`.
  abbrev pub fingerprint : User → Text
  fingerprint u = sha256 (coalesce u.password_hash)

  abbrev pub is_distinct : Option Text → Text → Bool
  is_distinct none t = true
  is_distinct (some s) t = not (text_eq s t)

  -- `vaultByUserSQL`: the row and whether the password has moved under it. A deleted account is not excluded.
  unfoldable pub vault_stmt : Text → Stmt (Option (VaultRow × Bool))
  unfolding find text_eq
  vault_stmt user now db = elim (find (of_user user) db.vaults) [
    | none ↦ ok (none, db)
    | some v ↦ ok (
      (elim (find (λ u. text_eq u.id v.user_id) db.users) [
        | none ↦ none
        | some u ↦ some (v, is_distinct v.wrapped_for (fingerprint u))
      ]),
      db,
    )
  ]

  abbrev pub first_row : ℕ → User → Params → Text → Text → Text → VaultRow
  first_row now u p salt key recovery = record {
    user_id = u.id;
    kdf = p.kdf;
    salt = salt;
    memory = p.memory;
    iterations = p.iterations;
    parallelism = 1;
    wrapped_key = key;
    recovery_wrapped_key = recovery;
    wrapped_for = some (fingerprint u);
    key_version = 1;
    updated_at = now;
  }

  -- The `do update` list: the salt is not in it.
  abbrev pub rewrap : ℕ → User → Params → Text → Text → VaultRow → VaultRow
  rewrap now u p key recovery v = record v {
    kdf = p.kdf;
    memory = p.memory;
    iterations = p.iterations;
    wrapped_key = key;
    recovery_wrapped_key = recovery;
    wrapped_for = some (fingerprint u);
    key_version = v.key_version + 1;
    updated_at = now;
  }

  -- The upsert for a live user.
  unfoldable pub upsert : ℕ → User → Params → Text → Text → Text → ℤ → Db → Option ℕ × Db
  unfolding find text_eq update
  upsert now u p salt key recovery expected db = elim (find (of_user u.id) db.vaults) [
    | none ↦ (some 1, record db { vaults = first_row now u p salt key recovery ∷ db.vaults })
    | some v ↦
        if is_version expected v.key_version
        then (
          some (v.key_version + 1),
          record db { vaults = update (of_user u.id) (rewrap now u p key recovery) db.vaults },
        )
        else (none, db)
  ]

  -- `putVaultSQL`: the new version, or none. Numbers that an `int` does not hold are refused once there
  -- is a row to write.
  unfoldable pub put_stmt : Text → Params → Text → Text → Text → ℤ → Stmt (Option ℕ)
  unfolding find text_eq upsert
  put_stmt user p salt key recovery expected now db = elim (find (is_user user) db.users) [
    | none ↦ ok (none, db)
    | some u ↦
        if ltb max_int4 p.memory || ltb max_int4 p.iterations
        then err driver
        else ok (upsert now u p salt key recovery expected db)
  ]

-- `deleteVaultSQL`.
unfoldable pub delete_stmt : Text → Stmt (Unit {0})
unfolding filter text_eq
delete_stmt user now db =
    ok (tt, record db { vaults = filter (λ v. not (of_user user v)) db.vaults })
