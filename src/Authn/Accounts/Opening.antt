-- ===== src/Authn/Accounts/Opening.antt =====
-- A login that no open window refuses goes on with the account that the address belongs to.
use kal.Base.{◌≡◌, ap, subst, ◌∙◌, refl, Option, none, some, ℕ, [], Text, find, filter}
use kal.Kalerr.{ok}
use kal.Authz.Principal.{Context}
use kal.Store.{Db, User}
use kal.World.{World, exec}
use kal.World.Outcome.{>>=-ok}
use kal.Authn.Password.{Kdf}
use kal.Authn.Statements.{
  Account, counters, is_attempt, has_email, hash_of, login_stmt, attempts_stmt,
}
use kal.Authn.Accounts.{normal, scan, judged, judge, check_backoff, judge_account, login}
use kal.Authn.Accounts.Config.{Accounts}
use kal.Authn.Accounts.Reading.{counted}
use kal.Authn.Accounts.Readiness.{steady, exec_now}

-- The columns that the login reads.
abbrev pub account_of : User → Account
account_of u = record { id = u.id; stored_hash = hash_of u; verified = u.email_verified }

abbrev pub read_account : Option User → Option Account
read_account none = none
read_account (some u) = some (account_of u)

login_stmt_lem :
    (email : Text) (now : ℕ) (db : Db) (o : Option User)
    → find (has_email email) db.users ≡ o
    → login_stmt email now db ≡ ok (read_account o, db)
unfolding login_stmt
login_stmt_lem email now db none e = rw (e, login_stmt) refl
login_stmt_lem email now db (some u) e = rw (e, login_stmt) refl

pub login_opens :
    (k : Kdf) (sha256 : Text → Text) (parse_ip : Text → Option Text) (a : Accounts) (ctx : Context)
    (raw password : Text) (prior : ℕ) (o : Option User) (w : World)
    → w.schedule ≡ []
    → scan 0 (counted a (normal raw) ctx.meta.ip w) ≡ (prior, none)
    → find (has_email (normal raw)) w.db.users ≡ o
    → login k sha256 parse_ip a ctx raw password w
      ≡ judge_account k sha256 parse_ip a ctx (normal raw) password prior (read_account o) w
unfolding login check_backoff judge attempts_stmt
login_opens k sha256 parse_ip a ctx raw password prior o w calm shut found =
    let read = exec_now (attempts_stmt email ip) w calm refl in
    let none_open =
      subst
        (λ x. scan 0 (counters x.now (filter (is_attempt email ip) w.db.attempts)) ≡ (prior, none))
        (steady w calm) shut in
    let passed : check_backoff a email ip w ≡ (ok prior, w) =
      >>=-ok (exec (attempts_stmt email ip)) (judge a email ip) w read
      ∙ ap (λ x. judged a email ip x w) none_open in
    >>=-ok (check_backoff a email ip) _ w passed
    ∙ >>=-ok (exec (login_stmt email)) _ w
        (exec_now (login_stmt email) w calm (login_stmt_lem email w.now w.db o found))
  where
    email : Text
    email = normal raw

    ip : Text
    ip = ctx.meta.ip
