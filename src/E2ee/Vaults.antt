-- ===== src/E2ee/Vaults.antt =====
-- e2ee/e2ee.go: the methods of `Vaults`. The caller is the context's principal, never an argument.
use kal.Base.{ℕ, Bool, Option, none, some, Text, to_lower, trim_space}
use kal.Base.Int.{pos}
use kal.Kalerr.{Failure, coded_by, conflict, no_rows}
use kal.Authz.Principal.{Principal, Context, require}
use kal.Store.{VaultRow}
use kal.World.{Action, pure, fail, lift, exec, new_token, ◌>>=◌, ◌>>◌}
use kal.E2ee.Params.{Params, Vault, Vaults, with_defaults, check, salt}
use kal.E2ee.Statements.{params_stmt, vault_stmt, put_stmt, delete_stmt, stored_params}

abbrev pub normal : Text → Text
normal email = to_lower (trim_space email)

abbrev pub vault_moved : Failure
vault_moved =
    coded_by conflict "the vault changed since it was read; re-read it and try again" no_rows

-- The vault that the client is handed for a row.
abbrev pub vault_of : VaultRow × Bool → Vault
vault_of (v, stale) = record {
  wrapped_key = v.wrapped_key;
  recovery_wrapped_key = v.recovery_wrapped_key;
  params = stored_params v;
  key_version = pos v.key_version;
  stale = stale;
}

abbrev pub found_vault : Option (VaultRow × Bool) → Option Vault
found_vault none = none
found_vault (some r) = some (vault_of r)

module _ (hmac : Text → Text → Text) where
  -- What an address without a vault is answered.
  unfoldable pub decoy : Vaults → Text → Params
  unfolding salt
  decoy v email = record v.def { salt = salt hmac v email }

  abbrev pub or_decoy : Vaults → Text → Option Params → Params
  or_decoy v email none = decoy v email
  or_decoy v email (some p) = p

  -- `Vaults.Params`.
  unfoldable pub params : Vaults → Text → Action Params
  params v email = do
    stored ← exec (params_stmt (normal email))
    pure (or_decoy v (normal email) stored)

  abbrev pub or_conflict : Option ℕ → Action (Unit {0})
  or_conflict none = fail vault_moved
  or_conflict (some n) = pure tt

  -- `Vaults.Put` once the caller is known and the vault is well formed.
  abbrev pub put_for : (Text → Text) → Vaults → Vault → Principal → Action (Unit {0})
  put_for sha256 v vault p =
      exec (
        put_stmt sha256 p.user_id (with_defaults vault.params v.def) (salt hmac v (normal p.email))
          vault.wrapped_key vault.recovery_wrapped_key vault.key_version)
      >>= or_conflict

  -- `Vaults.Put`.
  unfoldable pub put : (Text → Text) → Vaults → Context → Vault → Action (Unit {0})
  put sha256 v ctx vault = do p ← lift (require ctx); lift (check v vault); put_for sha256 v vault p

-- `Vaults.Get`: none for a caller who never enrolled.
unfoldable pub get : (Text → Text) → Context → Action (Option Vault)
get sha256 ctx = do
  p ← lift (require ctx)
  r ← exec (vault_stmt sha256 p.user_id)
  pure (found_vault r)

-- `Vaults.Discard`.
unfoldable pub discard : Context → Action (Unit {0})
discard ctx = do p ← lift (require ctx); exec (delete_stmt p.user_id)

-- `NewRecoveryCode`.
unfoldable pub new_recovery_code : Action Text
new_recovery_code = new_token
