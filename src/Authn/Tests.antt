-- ===== src/Authn/Tests.antt =====
-- The credential flows on a database with one account, and the theorems at inputs that meet their
-- hypotheses. The identity stands for the hash of a token, and a password is its own legacy hash.
mod Logins
use kal.Base.{
  ℕ, zero, suc, ◌≤◌, ◌≡◌, ◌↔◌, ◌⊎◌, refl, ap, arith, List, [], ◌∷◌, ◌++◌, Option, none, some, Text,
  codes, true, false, Bool, find, update, filter, any, text_eq, trim_space, to_lower, length, All,
  has_prefix, is_empty,
}
use kal.Base.Int.{pos}
use kal.Base64.{IsByte}
use kal.Kalerr.{ok, err, Failure}
use kal.Authz.Principal.{Principal, Context, background}
use kal.Store.{Db, User, Session, Token, Attempt}
use kal.World.{World, exec, acquire, new_salt, new_token, new_uuid, send, audit}
use kal.Base.Sort.{sort_texts}
use kal.Session.Sessions.{Sessions}
use kal.Authn.Backoff.{
  delay_for, reference_delay, delay_for-reference_delay, delay_for_bounds, max_delay, free_failures,
  scope_ip,
}
use kal.Authn.Params.{Params}
use kal.Authn.Phc.{encode_phc, parse_phc}
use kal.Authn.Phc.Roundtrip.{IsParams, Fits, with_lengths, parse_phc-encode_phc}
use kal.Authn.Password.{Kdf, Hasher, derive, compare_hash}
use kal.Authn.Password.Correct.{IsKdf, key_of, verify-derive}
use kal.Session.Statements.{
  revoke_all_stmt, issue_stmt, user_exists, lookup_stmt, is_live, roles_of,
}
use kal.Session.Jar.{set_cookie}
use kal.Authn.Statements.{
  attempts_stmt, login_stmt, update_password_stmt, reset_stmt, set_password_stmt, email_stmt,
  has_email, hash_of,
}
use kal.Authn.Accounts.{is_open, scan, login, too_many}
use kal.Authn.Accounts.Config.{Accounts}
use kal.Authn.Accounts.Admission.{login_sound}
use kal.Authn.Accounts.Reading.{counted}
use kal.Authn.Accounts.Throttle.{Untouched, login_throttled}
use kal.Authn.Tokens.{consume, purpose_reset, reset_password, request_password_reset}
use kal.Authn.Tokens.Statements.{is_usable, consume_stmt}
use kal.Authn.Tokens.Burn.{consume_once}
use kal.Authn.Tokens.Recovery.{
  SignedOut, HasPassword, but_tokens, request-changes_nothing, reset-signs_out,
}

delay_for-reference_delay_example : delay_for scope_ip 14 ≡ reference_delay scope_ip 14
delay_for-reference_delay_example = delay_for-reference_delay scope_ip 14

-- As many bytes as asked for.
abbrev pub ones : ℕ → Text
ones zero = []
ones (suc n) = 1 ∷ ones n

abbrev pub legacy : Kdf
legacy = record {
  id_key = (λ password salt time memory threads len. ones len);
  bcrypt_matches = (λ encoded password. text_eq encoded (codes "$2" ++ password));
}

ones-IsByte : (n : ℕ) → All IsByte (ones n) × (length (ones n) ≡ n)
ones-IsByte zero = (tt, refl)
ones-IsByte (suc n) = ((omega arith, (ones-IsByte n).0), ap suc (ones-IsByte n).1)

legacy-IsKdf : IsKdf legacy
legacy-IsKdf password salt time memory threads len = ones-IsByte len

abbrev small : Params
small = record { memory = 64; time = 2; parallelism = 1; salt_len = 8; key_len = 16 }

small-IsParams : IsParams small
small-IsParams = record { memory = omega arith; time = omega arith; parallelism = omega arith }

ones-Fits : Fits (ones 8) (ones 16)
ones-Fits = record {
  salt_bytes = (ones-IsByte 8).0;
  key_bytes = (ones-IsByte 16).0;
  salt_low = omega arith;
  salt_high = omega arith;
  key_low = omega arith;
  key_high = omega arith;
}

parse_phc-encode_phc_example :
    parse_phc (encode_phc small (ones 8) (ones 16))
    ≡ ok (with_lengths small (ones 8) (ones 16), ones 8, ones 16)
parse_phc-encode_phc_example =
    parse_phc-encode_phc small (ones 8) (ones 16) small-IsParams ones-Fits

abbrev pub hasher : Hasher
hasher = record { params = small; dummy = codes "$2x" }

verify-derive_example :
    (compare_hash legacy hasher (codes "first") (derive legacy small (codes "first") (ones 8))
      ≡ ok (true, false))
    × ((b : Bool) × (compare_hash legacy hasher
            (codes "second")
            (derive legacy small (codes "first") (ones 8))
          ≡ ok (b, false))
        × ((b ≡ true) ↔ (
            key_of legacy hasher (codes "second") (ones 8)
            ≡ key_of legacy hasher (codes "first") (ones 8))))
verify-derive_example =
    verify-derive legacy hasher (codes "first") (codes "second") (ones 8) legacy-IsKdf
      small-IsParams (omega arith) (omega arith) (ones-IsByte 8).0 (omega arith) (omega arith)
      (omega arith) (omega arith)

abbrev pub same : Text → Text
same t = t

abbrev pub no_ip : Text → Option Text
no_ip t = none

abbrev sessions : Sessions
sessions = record { idle = pos 50; absolute = pos 90; audit = false; schema = [] }

abbrev pub accounts : Accounts
accounts = record {
  hasher = hasher;
  sessions = sessions;
  base_url = codes "https://a.b";
  cookie_name = codes "s";
  secret_shape = (λ secret. ok tt);
  allow_unverified = false;
  audit = false;
  schema = [];
}

abbrev pub alice : User
alice = record {
  id = codes "u1";
  email = codes "A@b.c";
  password_hash = some (codes "$2secret");
  email_verified = true;
  created_at = 0;
  updated_at = 0;
  deleted_at = none;
}

abbrev old_session : Session
old_session = record {
  id = codes "s1";
  token_sha256 = codes "t1";
  user_id = codes "u1";
  created_at = 10;
  last_seen_at = 10;
  idle_expires_at = 60;
  expires_at = 100;
  mfa_at = none;
  user_agent = none;
  ip = none;
  revoked_at = none;
}

abbrev reset_token : Token
reset_token = record {
  token_sha256 = codes "r1";
  user_id = codes "u1";
  purpose = purpose_reset;
  expires_at = 100;
  consumed_at = none;
  created_at = 0;
}

abbrev database : List Attempt → Db
database attempts = record {
  users = alice ∷ [];
  sessions = old_session ∷ [];
  tokens = reset_token ∷ [];
  roles = [];
  user_roles = [];
  attempts = attempts;
  vaults = [];
}

abbrev world_of : List Attempt → World
world_of attempts = record {
  db = database attempts;
  now = 20;
  schedule = [];
  random = codes "t9" ∷ [];
  salts = ones 8 ∷ (ones 8 ∷ []);
  slots = [];
  uuids = codes "s9" ∷ [];
  clock = 20;
  mailer = [];
  sent = [];
  events = [];
  cookies = [];
}

abbrev pub calm : World
calm = world_of []

abbrev throttled : World
throttled =
    world_of
      (record { scope = codes "user"; key = codes "a@b.c"; failures = 4; last_fail = 19 } ∷ [])

abbrev pub browser : Context
browser = record background { jar = true }

request-changes_nothing_example :
    but_tokens (request_password_reset same accounts (codes " a@B.c") calm).1.db
    ≡ but_tokens calm.db
request-changes_nothing_example = request-changes_nothing same accounts (codes " a@B.c") calm

abbrev redeemed : World
redeemed = (consume same (codes "r1") purpose_reset calm).1

consume_once_example :
    (e : Failure) × (w : World) × (consume same (codes "r1") purpose_reset redeemed ≡ (err e, w))
    × (w.db ≡ redeemed.db)
unfolding consume consume_stmt find update is_usable text_eq exec
consume_once_example =
    consume_once same (codes "r1") purpose_reset (codes "u1") calm redeemed redeemed refl refl
      (omega arith)

abbrev was_reset : World
was_reset = (reset_password legacy same accounts (codes "r1") (codes "second") calm).1

reset-signs_out_example :
    (t : Token) × (find (is_usable 20 (codes "r1") purpose_reset) calm.db.tokens ≡ some t)
    × SignedOut t.user_id was_reset.db.sessions
    × ((salt : Text) × HasPassword t.user_id
          (derive legacy small (codes "second") salt)
          was_reset.db.users)
unfolding reset_password consume consume_stmt find update is_usable text_eq exec acquire new_salt
    set_password_stmt revoke_all_stmt filter audit email_stmt send
reset-signs_out_example =
    reset-signs_out legacy same accounts (codes "r1") (codes "second") calm was_reset refl

login_throttled_example :
    (w : World) × ((password : Text)
      → login legacy same no_ip accounts browser (codes "A@b.c ") password throttled
        ≡ (err too_many, w))
    × Untouched throttled w
unfolding any filter is_open text_eq delay_for trim_space to_lower
login_throttled_example =
    login_throttled legacy same no_ip accounts browser (codes "A@b.c ") throttled refl refl

abbrev logged_in : Principal
logged_in = record {
  user_id = codes "u1";
  session_id = codes "s9";
  roles = [];
  auth_at = 20;
  mfa_at = none;
  email = codes "A@b.c";
  verified = true;
}

login_sound_example :
    ((n : ℕ) × (scan 0 (counted accounts (codes "a@b.c") [] calm) ≡ (n, none)))
    × ((u : User) × (find (has_email (codes "a@b.c")) calm.db.users ≡ some u)
        × (is_empty (hash_of u) ≡ false)
        × ((rehash : Bool) × (compare_hash legacy hasher (codes "secret") (hash_of u)
              ≡ ok (true, rehash)))
        × ((u.email_verified ≡ true) ⊎ (false ≡ true))
        × (codes "u1" ≡ u.id))
unfolding login trim_space to_lower find filter text_eq exec attempts_stmt login_stmt acquire
    has_prefix new_salt update_password_stmt audit new_token reset_stmt new_uuid issue_stmt any
    user_exists lookup_stmt is_live sort_texts roles_of update derive scan encode_phc compare_hash
    set_cookie
login_sound_example =
    login_sound legacy same no_ip accounts browser (codes "A@b.c ") (codes "secret") calm
      (login legacy same no_ip accounts browser (codes "A@b.c ") (codes "secret") calm).1
      {p = logged_in} refl
