-- ===== src/Authn/Password.antt =====
-- authn/password.go: parameters, the concurrency bound, hashing and verification. Argon2id and
-- bcrypt are not part of the repository: they are the fields of `Kdf`.
pub mod Correct
use kal.Base.{
  ℕ, zero, suc, ◌+◌, ◌≤◌, ◌<◌, Bool, true, false, not, ◌&&◌, ◌||◌, Option, none, some, List, [],
  ◌∷◌, ◌++◌, ◌≡◌, refl, arith, Text, codes, text_eq, has_prefix, if◌then◌else◌, ltb, leb, ◌==◌,
  length, byte_len,
}
use kal.Kalerr.{Result, ok, err, Failure, coded, plain, invalid_input}
use kal.Authn.Params.{Params, defaults, weaker}
use kal.Authn.Phc.{encode_phc, parse_phc}
use kal.World.{World, Action, pure, fail, lift, acquire, new_salt, ◌>>=◌, ◌>>◌}

abbrev pub min_password_len : ℕ
min_password_len = 8

abbrev pub max_password_len : ℕ
max_password_len = 1024

-- `ValidatePassword`: runes from below, bytes from above.
unfoldable pub validate_password : Text → Result (Unit {0})
validate_password password =
    if ltb (length password) min_password_len
    then err (coded invalid_input "password must be at least 8 characters")
    else if ltb max_password_len (byte_len password)
    then err (coded invalid_input "password must be at most 1024 bytes")
    else ok tt

-- The two key derivations.
pub record Kdf : Type 0 where
  -- `argon2.IDKey(password, salt, time, memory, threads, keyLen)`.
  pub id_key : Text → Text → ℕ → ℕ → ℕ → ℕ → Text
  -- `bcrypt.CompareHashAndPassword(encoded, password) == nil`.
  pub bcrypt_matches : Text → Text → Bool

pub record Hasher : Type 0 where
  pub params : Params
  pub dummy : Text

module _ (k : Kdf) where
  -- `hash`, with the salt that was drawn.
  unfoldable pub derive : Params → Text → Text → Text
  unfolding encode_phc
  derive p password salt =
      encode_phc p salt (k.id_key password salt p.time p.memory p.parallelism p.key_len)

  unfoldable pub hash : Hasher → Text → Action Text
  unfolding derive
  hash h password = do acquire; salt ← new_salt; pure (derive h.params password salt)

  abbrev pub matches : Text → Params → Text → Text → Bool
  matches password stored salt key =
      text_eq (k.id_key password salt stored.time stored.memory stored.parallelism stored.key_len)
        key

  -- `argon2.IDKey` panics when it is given no rounds or no threads. A panic ends the request: here it
  -- is an error.
  abbrev pub panics : Params → Bool
  panics stored = stored.time == 0 || stored.parallelism == 0

  -- What `Verify` answers once it holds a slot: the match, and whether to hash anew.
  unfoldable pub compare_hash : Hasher → Text → Text → Result (Bool × Bool)
  unfolding parse_phc weaker
  compare_hash h password encoded =
      if has_prefix encoded (codes "$2")
      then (let match = k.bcrypt_matches encoded password in ok (match, match))
      else elim (parse_phc encoded) [
        | err e ↦ err e
        | ok (stored, salt, key) ↦
            if panics stored
            then err (plain "argon2: panic")
            else ok (
                if matches password stored salt key
                then (true, weaker stored h.params)
                else (false, false))
      ]

  unfoldable pub verify : Hasher → Text → Text → Action (Bool × Bool)
  unfolding compare_hash
  verify h password encoded = do acquire; lift (compare_hash h password encoded)

  unfoldable pub verify_dummy : Hasher → Text → Action (Unit {0})
  unfolding verify
  verify_dummy h password = do verify h password h.dummy; pure tt

  -- `NewHasher` with the secret and the salt of its throwaway hash.
  unfoldable pub new_hasher : Params → Text → Action Hasher
  unfolding derive defaults
  new_hasher p secret = do
    salt ← new_salt
    pure (record { params = defaults p; dummy = derive (defaults p) secret salt })
