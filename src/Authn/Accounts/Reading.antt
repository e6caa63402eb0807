-- ===== src/Authn/Accounts/Reading.antt =====
-- What the throttle and a login read.
use kal.Base.{
  ℕ, Option, none, some, List, [], ◌≡◌, inl, inr, sym, ap, subst, ◌∙◌, Text, find, filter,
  Option-cases,
}
use kal.Kalerr.{ok, Failure}
use kal.Authz.Audit.{backoff_open, window}
use kal.Store.{Db, User}
use kal.World.{World, Action, fail, advance, exec, audit, ◌>>=◌}
use kal.World.Outcome.{advance-db, exec-eq-ok, >>=-eq-ok}
use kal.Authn.Statements.{
  Account, Counter, counters, is_attempt, has_email, hash_of, login_stmt, attempts_stmt,
}
use kal.Authn.Accounts.{scan, judged, judge, check_backoff, about, too_many}
use kal.Authn.Accounts.Config.{Accounts}

pub attempts_read :
    (email ip : Text) (now : ℕ) (db : Db) {rows : List Counter} {db' : Db}
    → attempts_stmt email ip now db ≡ ok (rows, db')
    → (rows ≡ counters now (filter (is_attempt email ip) db.attempts)) × (db' ≡ db)
unfolding attempts_stmt
attempts_read email ip now db h = (cc h, cc h)

-- The row that a login reads.
abbrev pub Row : Account → User → Type 0
Row account u =
    (account.id ≡ u.id) × (account.stored_hash ≡ hash_of u) × (account.verified ≡ u.email_verified)

pub login_read :
    (email : Text) (now : ℕ) (db : Db) {account : Account} {db' : Db}
    → login_stmt email now db ≡ ok (some account, db')
    → (u : User) × (find (has_email email) db.users ≡ some u) × Row account u
unfolding login_stmt
login_read email now db {account} {db'} h = elim (Option-cases (find (has_email email) db.users)) [
  | inl e ↦ absurd (cc (rw (e, login_stmt) at h))
  | inr (u, e) ↦ let k = rw (e, login_stmt) at h in (u, e, (cc k, cc k, cc k))
]

-- An action that ends in a failure does not succeed.
pub never :
    {A B : Type 0} (m : Action B) (e : Failure) (w : World) {x : A} {w' : World}
    → (m >>= (λ _. fail e)) w ≡ (ok x, w')
    → ⊥
never m e w h = let (_, w₁, _, k) = >>=-eq-ok m (λ _. fail e) w h in cc k

module _ (a : Accounts) where
  judged-eq-ok :
      (email ip : Text) (r : ℕ × Option Counter) (w : World) {n : ℕ} {w' : World}
      → judged a email ip r w ≡ (ok n, w')
      → (r ≡ (n, none)) × (w ≡ w')
  judged-eq-ok email ip (m, none) w h = (cc, cc)
  judged-eq-ok email ip (m, some c) w h = absurd (
      never (audit a.audit (about backoff_open [] email ip (window c.scope c.failures))) too_many w
        h)

  -- The counters as the throttle reads them.
  abbrev pub counted : Text → Text → World → List Counter
  counted email ip w = counters (advance w).now (filter (is_attempt email ip) w.db.attempts)

  pub check_backoff-eq-ok :
      (email ip : Text) (w : World) {n : ℕ} {w' : World}
      → check_backoff a email ip w ≡ (ok n, w')
      → (scan 0 (counted email ip w) ≡ (n, none)) × (w'.db ≡ w.db)
  unfolding check_backoff judge
  check_backoff-eq-ok email ip w {n} h =
      let (rows, w₁, e, k) = >>=-eq-ok (exec (attempts_stmt email ip)) (judge a email ip) w h in
      let (db, st, q) = exec-eq-ok (attempts_stmt email ip) w e in
      let (none_open, same) = judged-eq-ok email ip (scan 0 rows) w₁ k in
      let (read, untouched) = attempts_read email ip (advance w).now (advance w).db st in
      (
        subst
            (λ d.
              scan 0 (counters (advance w).now (filter (is_attempt email ip) d.attempts))
              ≡ (n, none))
            (advance-db w) (subst (λ rs. scan 0 rs ≡ (n, none)) read none_open),
        sym (ap (λ v. v.db) same) ∙ ap (λ v. v.db) q ∙ untouched ∙ advance-db w,
      )
