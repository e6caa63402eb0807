-- ===== src/Session/Tests.antt =====
-- Tests of the sessions on a table with two rows, and the theorems at inputs that meet their
-- hypotheses. The identity stands for the hash.
use kal.Base.{
  ◌<◌, true, false, none, some, [], ◌∷◌, ◌≡◌, ◌≢◌, refl, arith, Text, codes, find, filter, any,
  update, text_eq,
}
use kal.Base.Int.{pos, negsuc}
use kal.Kalerr.{ok, err, coded, invalid_input}
use kal.Authz.Principal.{Principal}
use kal.Store.{Db, Session, User}
use kal.Authz.Audit.{emit}
use kal.World.{exec, new_token, audit, World}
use kal.Session.Statements.{is_live, roles_of, rotate_stmt, hash_taken, revoke_stmt, lookup_stmt}
use kal.Base.Sort.{sort_texts}
use kal.Session.Sessions.{Sessions, new_sessions, lookup, revoke, rotate}
use kal.Session.Table.{here, revoked}
use kal.Session.Table.Identity.{IsKeyed, Step-IsKeyed}
use kal.Session.Lifetime.{revoke_for_good, absolute_deadline}
use kal.Session.Rotation.{Replaced, rotate_replaces}

abbrev pub same : Text → Text
same t = t

abbrev alice : User
alice = record {
  id = codes "u1";
  email = codes "a@b.c";
  password_hash = none;
  email_verified = true;
  created_at = 0;
  updated_at = 0;
  deleted_at = none;
}

abbrev session_row : Text → Text → Session
session_row id hash = record {
  id = id;
  token_sha256 = hash;
  user_id = codes "u1";
  created_at = 10;
  last_seen_at = 10;
  idle_expires_at = 60;
  expires_at = 100;
  mfa_at = none;
  user_agent = none;
  ip = none;
  revoked_at = none;
}

abbrev two_sessions : Db
two_sessions = record {
  users = alice ∷ [];
  sessions = session_row (codes "s1") (codes "t1") ∷ session_row (codes "s2") (codes "t2") ∷ [];
  tokens = [];
  roles = [];
  user_roles =
      record { user_id = codes "u1"; role = codes "b" }
      ∷ record { user_id = codes "u1"; role = codes "a" }
      ∷ [];
  attempts = [];
  vaults = [];
}

abbrev pub at_twenty : World
at_twenty = record {
  db = two_sessions;
  now = 20;
  schedule = record { elapsed = 1; fails = false } ∷ [];
  random = codes "t3" ∷ [];
  salts = [];
  slots = [];
  uuids = codes "s3" ∷ [];
  clock = 20;
  mailer = [];
  sent = [];
  events = [];
  cookies = [];
}

abbrev pub config : Sessions
config = record { idle = pos 50; absolute = pos 90; audit = true; schema = [] }

abbrev pub alice_on : Text → Principal
alice_on id = record {
  user_id = codes "u1";
  session_id = id;
  roles = codes "a" ∷ codes "b" ∷ [];
  auth_at = 10;
  mfa_at = none;
  email = codes "a@b.c";
  verified = true;
}

lookup_resolves : (lookup same config (codes "t1") at_twenty).0 ≡ ok (some (alice_on (codes "s1")))
unfolding lookup lookup_stmt exec find text_eq is_live sort_texts roles_of
lookup_resolves = refl

abbrev one_revoked : World
one_revoked = (revoke config (codes "s1") at_twenty).1

revoke_for_good_example : codes "s2" ≢ codes "s1"
unfolding revoke revoke_stmt lookup lookup_stmt exec find text_eq is_live sort_texts roles_of any
    update filter audit emit
revoke_for_good_example =
    revoke_for_good same config (codes "s1") (codes "t2") at_twenty one_revoked one_revoked
      (lookup same config (codes "t2") one_revoked).1 (alice_on (codes "s2")) refl refl here refl

absolute_deadline_example : 21 < 100
unfolding lookup lookup_stmt exec find text_eq is_live sort_texts roles_of any
absolute_deadline_example =
    absolute_deadline same config (codes "s1") (codes "t1") 20 100 two_sessions at_twenty
      (lookup same config (codes "t1") at_twenty).1 (alice_on (codes "s1"))
      (record { there = refl; each = (λ _. omega arith, (λ _. omega arith, tt)) }) here refl refl

two_sessions-IsKeyed : IsKeyed two_sessions.sessions
two_sessions-IsKeyed = record { ids = ground arith; hashes = ground arith }

Step-IsKeyed_example : IsKeyed one_revoked.db.sessions
unfolding revoke revoke_stmt exec text_eq update filter audit emit
Step-IsKeyed_example =
    Step-IsKeyed 21 two_sessions one_revoked.db (revoked (codes "s1") 1 refl) two_sessions-IsKeyed

rotate_replaces_example :
    Replaced
      (codes "t3")
      (pos 50)
      21
      (codes "s1")
      two_sessions.sessions
      (rotate same config (codes "s1") at_twenty).1.db.sessions
unfolding rotate rotate_stmt new_token exec find text_eq is_live any update hash_taken
rotate_replaces_example =
    rotate_replaces same config (codes "s1") (codes "t3") at_twenty
      (rotate same config (codes "s1") at_twenty).1 two_sessions-IsKeyed refl refl

-- A negative timeout is taken as it is, when the lifetime is not shorter still.
negative_idle :
    new_sessions (record { idle = negsuc 4; absolute = pos 90; schema = []; audit = true })
    ≡ ok (record { idle = negsuc 4; absolute = pos 90; audit = true; schema = [] })
unfolding new_sessions
negative_idle = refl

negative_absolute :
    new_sessions (record { idle = negsuc 4; absolute = negsuc 5; schema = []; audit = true })
    ≡ err
        (coded invalid_input "session absolute lifetime must not be shorter than the idle timeout")
unfolding new_sessions
negative_absolute = refl
