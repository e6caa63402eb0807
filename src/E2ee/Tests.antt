-- ===== src/E2ee/Tests.antt =====
-- The vaults on a database with one enrolled user, and the theorems at inputs that meet their
-- hypotheses. The message stands for its keyed hash, the identity for the fingerprint.
use kal.Base.{
  ℕ, ◌≡◌, ◌↔◌, refl, List, [], ◌∷◌, ◌++◌, none, some, Text, codes, true, false, find, update,
  text_eq, length, All, to_lower, trim_space,
}
use kal.Base.Int.{ℤ, pos}
use kal.Base64.{url, encode, IsByte}
use kal.Kalerr.{ok, err, Failure}
use kal.Authz.Principal.{Principal, Context, background, require}
use kal.Store.{Db, User, VaultRow}
use kal.World.{World, exec}
use kal.E2ee.Params.{Params, Vault, Vaults, with_defaults, check}
use kal.E2ee.Statements.{put_stmt, upsert, vault_stmt, fingerprint, rewrap}
use kal.E2ee.Vaults.{put, get, vault_of, params}
use kal.E2ee.Decoy.{enrolment_hidden}
use kal.E2ee.Swap.{Swapped, put_swaps, put_once}
use kal.E2ee.Stale.{stale_tracks_password}
use kal.E2ee.Secret.{
  validate_auth_secret, validate_auth_secret_iff, auth_secret_bytes, auth_secret_prefix,
}

abbrev keyed : Text → Text → Text
keyed key message = message

abbrev same : Text → Text
same t = t

abbrev alice : User
alice = record {
  id = codes "u1";
  email = codes "a@b.c";
  password_hash = some (codes "h1");
  email_verified = true;
  created_at = 0;
  updated_at = 0;
  deleted_at = none;
}

abbrev row_of : ℕ → VaultRow
row_of version = record {
  user_id = codes "u1";
  kdf = codes "argon2id";
  salt = codes "salt";
  memory = 65536;
  iterations = 3;
  parallelism = 1;
  wrapped_key = codes "old";
  recovery_wrapped_key = codes "code";
  wrapped_for = some (codes "h0");
  key_version = version;
  updated_at = 0;
}

abbrev database : List VaultRow → Db
database vaults = record {
  users = alice ∷ [];
  sessions = [];
  tokens = [];
  roles = [];
  user_roles = [];
  attempts = [];
  vaults = vaults;
}

abbrev world_of : Db → World
world_of db = record {
  db = db;
  now = 20;
  schedule = [];
  random = [];
  salts = [];
  slots = [];
  uuids = [];
  clock = 20;
  mailer = [];
  sent = [];
  events = [];
  cookies = [];
}

abbrev enrolled : World
enrolled = world_of (database (row_of 4 ∷ []))

abbrev empty : World
empty = world_of (database [])

abbrev caller : Principal
caller = record {
  user_id = codes "u1";
  session_id = codes "s1";
  roles = [];
  auth_at = 5;
  mfa_at = none;
  email = codes "A@b.c";
  verified = true;
}

abbrev as_caller : Context
as_caller = record background { principal = some caller }

abbrev cost : ℕ → ℕ → Params
cost memory iterations = record {
  kdf = codes "argon2id";
  salt = [];
  memory = memory;
  iterations = iterations;
  parallelism = 1;
}

abbrev vaults : Vaults
vaults = record {
  pepper = codes "pepper";
  def = cost 65536 3;
  floor = cost 19456 2;
  max_blob = 8;
  allow_no_recovery = false;
  schema = [];
}

abbrev vault_at : ℤ → Vault
vault_at version = record {
  wrapped_key = codes "new";
  recovery_wrapped_key = codes "code";
  params = cost 0 0;
  key_version = version;
  stale = false;
}

abbrev written : World
written = (put keyed same vaults as_caller (vault_at (pos 4)) enrolled).1

put_succeeds : put keyed same vaults as_caller (vault_at (pos 4)) enrolled ≡ (ok tt, written)
unfolding put require check put_stmt upsert find update text_eq exec
put_succeeds = refl

put_swaps_example :
    Swapped enrolled.db.vaults written.db.vaults (codes "u1") (vault_at (pos 4)) (row_of 4)
unfolding require find text_eq
put_swaps_example =
    put_swaps keyed same vaults as_caller (vault_at (pos 4)) enrolled written {p = caller}
      {row = row_of 4} refl refl put_succeeds

put_once_example :
    (e : Failure) × (w : World) × (put keyed same vaults as_caller (vault_at (pos 4)) written
      ≡ (err e, w))
    × (w.db ≡ written.db)
unfolding require find text_eq
put_once_example =
    put_once keyed same vaults as_caller (vault_at (pos 4)) (vault_at (pos 4)) enrolled written
      {p = caller} {row = row_of 4} refl refl refl put_succeeds

abbrev shown : Vault
shown = vault_of (
  rewrap same 20 alice (with_defaults (cost 0 0) (cost 65536 3)) (codes "new") (codes "code")
      (row_of 4),
  false,
)

stale_tracks_password_example :
    (out : Vault) × (some shown ≡ some out)
    × (out.wrapped_key ≡ codes "new")
    × (out.recovery_wrapped_key ≡ codes "code")
    × ((out.stale ≡ false) ↔ (fingerprint same alice ≡ fingerprint same alice))
unfolding require find text_eq get put check put_stmt upsert vault_stmt exec update
stale_tracks_password_example =
    stale_tracks_password keyed same vaults as_caller (vault_at (pos 4)) enrolled written written
      (get same as_caller written).1 {p = caller} {u₀ = alice} {u = alice} {o = some shown} refl
      refl put_succeeds refl refl refl

abbrev first_time : World
first_time = (put keyed same vaults as_caller (vault_at (pos 0)) empty).1

enrolment_hidden_example :
    (params keyed vaults (codes "a@B.c ") first_time).0
    ≡ (params keyed vaults (codes "a@B.c ") empty).0
unfolding require find text_eq put check put_stmt upsert exec with_defaults to_lower trim_space
enrolment_hidden_example =
    enrolment_hidden keyed vaults same as_caller (vault_at (pos 0)) empty first_time empty
      first_time (codes "a@B.c ") {p = caller} refl refl (((λ _. refl), (λ _. refl)), tt) refl refl
      refl refl refl refl refl refl refl

abbrev one_secret : Text
one_secret = codes "kal1.AAECAwQFBgcICQoLDA0ODxAREhMUFRYXGBkaGxwdHh8"

validate_auth_secret_iff_example : (validate_auth_secret one_secret ≡ ok tt) ↔ (
    (bytes : List ℕ) × All IsByte bytes
    × (length bytes ≡ auth_secret_bytes)
    × (one_secret ≡ auth_secret_prefix ++ encode url bytes))
validate_auth_secret_iff_example = validate_auth_secret_iff one_secret
