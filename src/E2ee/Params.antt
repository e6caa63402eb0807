-- ===== src/E2ee/Params.antt =====
-- e2ee/e2ee.go: the parameters of the client's key derivation, and the configuration of the vaults.
use kal.Base.{
  ℕ, Bool, not, ◌&&◌, ◌||◌, [], ◌++◌, Text, codes, text_eq, is_empty, is_ident, if◌then◌else◌, ltb,
  ◌==◌, length, take,
}
use kal.Base.Int.{ℤ, is_nonpos, pos_part}
use kal.Kalerr.{Result, ok, err, coded, plain, invalid_input}

abbrev pub kdf_argon2id : Text
kdf_argon2id = codes "argon2id"

abbrev pub kdf_pbkdf2 : Text
kdf_pbkdf2 = codes "pbkdf2"

abbrev pub salt_domain : Text
salt_domain = codes "kal.e2ee.salt|"

abbrev pub salt_len : ℕ
salt_len = 16

abbrev pub min_pepper_len : ℕ
min_pepper_len = 32

abbrev pub default_max_blob : ℕ
default_max_blob = 8192

-- `Params`: memory and iterations are uint32, parallelism is a uint8.
pub record Params : Type 0 where
  pub kdf : Text
  pub salt : Text
  pub memory : ℕ
  pub iterations : ℕ
  pub parallelism : ℕ

-- `Params.withDefaults`.
unfoldable pub with_defaults : Params → Params → Params
with_defaults p d = record p {
  kdf = if is_empty p.kdf then d.kdf else p.kdf;
  memory = if p.memory == 0 then d.memory else p.memory;
  iterations = if p.iterations == 0 then d.iterations else p.iterations;
  parallelism = 1;
}

pub record Options : Type 0 where
  pub pepper : Text
  pub default_params : Params
  pub floor : Params
  pub max_blob : ℤ
  pub schema : Text
  pub allow_no_recovery : Bool

-- `Vault`. A nil blob and an empty one are the same here.
pub record Vault : Type 0 where
  pub wrapped_key : Text
  pub recovery_wrapped_key : Text
  pub params : Params
  pub key_version : ℤ
  pub stale : Bool

pub record Vaults : Type 0 where
  pub pepper : Text
  pub def : Params
  pub floor : Params
  pub max_blob : ℕ
  pub allow_no_recovery : Bool
  pub schema : Text

abbrev pub of_cost : ℕ → ℕ → Params
of_cost memory iterations = record {
  kdf = kdf_argon2id;
  salt = [];
  memory = memory;
  iterations = iterations;
  parallelism = 0;
}

-- `NewVaults`.
unfoldable pub new_vaults : Options → Result Vaults
unfolding with_defaults is_ident
new_vaults o =
    if ltb (length o.pepper) min_pepper_len
    then err (plain "e2ee: Options.Pepper is required and must be at least 32 bytes")
    else if not (is_empty o.schema) && not (is_ident o.schema)
    then err (coded invalid_input "table schema must match ^[a-z_][a-z0-9_]*$")
    else ok (record {
      pepper = o.pepper;
      def = with_defaults o.default_params (of_cost 65536 3);
      floor = with_defaults o.floor (of_cost 19456 2);
      max_blob = if is_nonpos o.max_blob then default_max_blob else pos_part o.max_blob;
      allow_no_recovery = o.allow_no_recovery;
      schema = o.schema;
    })

-- `Vaults.check`.
unfoldable pub check : Vaults → Vault → Result (Unit {0})
unfolding with_defaults text_eq
check v vault =
    let params = with_defaults vault.params v.def in
    if length vault.wrapped_key == 0
    then err (coded invalid_input "a wrapped key is required")
    else if ltb v.max_blob (length vault.wrapped_key)
        || ltb v.max_blob (length vault.recovery_wrapped_key)
    then err (coded invalid_input "wrapped key exceeds the configured maximum")
    else if not v.allow_no_recovery && length vault.recovery_wrapped_key == 0
    then err (
        coded invalid_input
          "a recovery wrapping is required — without one, a forgotten password is unrecoverable data loss")
    else if not (text_eq params.kdf kdf_argon2id) && not (text_eq params.kdf kdf_pbkdf2)
    then err (coded invalid_input "unknown client KDF")
    else if ltb params.memory v.floor.memory || ltb params.iterations v.floor.iterations
    then err (coded invalid_input "client KDF parameters are below the configured floor")
    else ok tt

-- `Vaults.salt`; `hmac` stands for HMAC-SHA-256 of a key and a message.
unfoldable pub salt : (Text → Text → Text) → Vaults → Text → Text
unfolding take
salt hmac v email = take salt_len (hmac v.pepper (salt_domain ++ email))
