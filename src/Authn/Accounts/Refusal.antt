-- ===== src/Authn/Accounts/Refusal.antt =====
-- What a login with the wrong credentials is answered.
use kal.Base.{
  ◌≡◌, ◌⊎◌, inl, inr, refl, sym, subst, ◌∙◌, Bool, true, false, Option, none, some, [], ℕ, Text,
  is_empty, find, Bool-cases, arith,
}
use kal.Kalerr.{Result, ok, err, Failure, plain, as_error, invalid_credentials}
use kal.Authz.Principal.{Principal, Context}
use kal.Authz.Audit.{Event, login_fail, nothing, reason}
use kal.Store.{Db, User}
use kal.World.{World, Action, fail, acquire, audit, ◌>>=◌, ◌>>◌}
use kal.World.Outcome.{>>=-ok}
use kal.World.Frame.{Leaves, Spares, exec-Leaves, audit-Leaves}
use kal.Authn.Password.{Kdf, verify, verify_dummy, compare_hash}
use kal.Authn.Statements.{Account, has_email, record_user_stmt, record_both_stmt}
use kal.Authn.Accounts.{
  normal, scan, about, invalid_login, invalid_login_by, record_failure, refuse_unknown,
  judge_password, judge_account, login,
}
use kal.Authn.Accounts.Config.{Accounts}
use kal.Authn.Accounts.Reading.{counted}
use kal.Authn.Accounts.Throttle.{audit-ok}
use kal.Authn.Accounts.Opening.{account_of, read_account, login_opens}

-- Every table but the counters of failed logins.
abbrev pub but_attempts : Db → Db
but_attempts db = record db { attempts = [] }

-- The client is told that the email or the password is invalid, and only a counter was moved.
abbrev pub Ends : Result Principal × World → World → Type 0
Ends x w =
    (e : Failure) × (w' : World) × (x ≡ (err e, w'))
    × (as_error e ≡ some (invalid_credentials, "invalid email or password"))
    × (but_attempts w'.db ≡ but_attempts w.db)

abbrev pub Refuses : Action Principal → World → Type 0
Refuses m w = Ends (m w) w

record_user-Spares : (email : Text) → Spares but_attempts (record_user_stmt email)
unfolding record_user_stmt
record_user-Spares email now db a db' h = ground arith

record_both-Spares : (email ip : Text) → Spares but_attempts (record_both_stmt email ip)
unfolding record_both_stmt
record_both-Spares email ip now db a db' h = ground arith

record_failure-Leaves :
    (a : Accounts) (email ip : Text) → Leaves but_attempts (record_failure a email ip)
unfolding record_failure
record_failure-Leaves a email ip w = elim (Bool-cases (is_empty ip)) [
  | inl blank ↦
      rw blank (exec-Leaves but_attempts (record_user_stmt email) (record_user-Spares email) w)
  | inr named ↦
      rw named
        (exec-Leaves but_attempts (record_both_stmt email ip) (record_both-Spares email ip) w)
]

-- The refusal is audited and answered.
told_out :
    (hook : Bool) (event : Event) (e : Failure) (w : World)
    → as_error e ≡ some (invalid_credentials, "invalid email or password")
    → Refuses (audit hook event >> fail e) w
told_out hook event e w shown = (
  e,
  (audit hook event w).1,
  >>=-ok (audit hook event) (λ _. fail e) w (audit-ok hook event w),
  shown,
  audit-Leaves but_attempts hook event w,
)

-- The failure is counted before.
counted_out :
    (a : Accounts) (email ip : Text) (event : Event) (w : World)
    → Refuses (record_failure a email ip >> (audit a.audit event >> fail invalid_login)) w
unfolding record_failure as_error
counted_out a email ip event w =
    let (e, w', done, shown, same) =
      told_out a.audit event invalid_login (record_failure a email ip w).1 refl in
    (e, w', done, shown, same ∙ record_failure-Leaves a email ip w)

module _ (k : Kdf) (sha256 : Text → Text) (parse_ip : Text → Option Text) (a : Accounts) where
  -- Why the account is not let in.
  abbrev pub Barred : Text → Account → Type 0
  Barred password account =
      (is_empty account.stored_hash ≡ true)
      ⊎ ((is_empty account.stored_hash ≡ false)
          × (((rehash : Bool) × (compare_hash k a.hasher password account.stored_hash
                  ≡ ok (false, rehash)))
              ⊎ ((rehash : Bool) × (compare_hash k a.hasher password account.stored_hash
                    ≡ ok (true, rehash))
                  × (account.verified ≡ false)
                  × (a.allow_unverified ≡ false))))

  verify_now :
      (password encoded : Text) (r : Bool × Bool) (w : World)
      → w.slots ≡ []
      → compare_hash k a.hasher password encoded ≡ ok r
      → verify k a.hasher password encoded w ≡ (ok r, w)
  unfolding verify acquire
  verify_now password encoded r w free c = rw (free, c) refl

  -- What follows a verification refuses.
  verified_out :
      (password encoded : Text) (f : Bool × Bool → Action Principal) (r : Bool × Bool) (w : World)
      → w.slots ≡ []
      → compare_hash k a.hasher password encoded ≡ ok r
      → Refuses (f r) w
      → Refuses (verify k a.hasher password encoded >>= f) w
  verified_out password encoded f r w free c =
      subst (λ x. Ends x w)
        (sym (
          >>=-ok (verify k a.hasher password encoded) f w (verify_now password encoded r w free c)))

  refuse_unknown-Refuses :
      (ctx : Context) (email password : Text) (r : Bool × Bool) (w : World)
      → w.slots ≡ []
      → compare_hash k a.hasher password a.hasher.dummy ≡ ok r
      → Refuses (refuse_unknown k sha256 parse_ip a ctx email password) w
  unfolding refuse_unknown verify_dummy
  refuse_unknown-Refuses ctx email password r w free dummy =
      rw (verify_now password a.hasher.dummy r w free dummy)
        (counted_out a email ctx.meta.ip (about login_fail [] email ctx.meta.ip nothing) w)

  judge_account-Refuses :
      (ctx : Context) (email password : Text) (prior : ℕ) (o : Option Account) (r : Bool × Bool)
      (w : World)
      → w.slots ≡ []
      → compare_hash k a.hasher password a.hasher.dummy ≡ ok r
      → (o ≡ none) ⊎ ((account : Account) × (o ≡ some account) × Barred password account)
      → Refuses (judge_account k sha256 parse_ip a ctx email password prior o) w
  unfolding judge_account judge_password as_error
  judge_account-Refuses ctx email password prior o r w free dummy why = elim why [
    | inl absent ↦ rw absent (refuse_unknown-Refuses ctx email password r w free dummy)
    | inr (account, present, inl blank) ↦
        rw (present, blank) (refuse_unknown-Refuses ctx email password r w free dummy)
    | inr (account, present, inr (full, inl (rehash, wrong))) ↦
        rw (present, full)
          (verified_out password account.stored_hash
            (judge_password k sha256 parse_ip a ctx email password prior account) (false, rehash) w
            free wrong
            (counted_out a email ctx.meta.ip
              (about login_fail account.id email ctx.meta.ip (reason "password")) w))
    | inr (account, present, inr (full, inr (rehash, right, unseen, strict))) ↦
        rw (present, full)
          (verified_out password account.stored_hash
            (judge_password k sha256 parse_ip a ctx email password prior account) (true, rehash) w
            free right
            (rw (unseen, strict)
              (told_out a.audit
                (about login_fail account.id email ctx.meta.ip (reason "unverified"))
                (invalid_login_by (plain "email not verified")) w refl)))
  ]

  -- Where no window is open, the driver answers at once, a hashing slot is free and the throwaway
  -- hash can be read: an address that is unknown, an account without a password, a wrong password
  -- and an address that is not verified but has to be are all answered the same way. The client is
  -- told INVALID_CREDENTIALS and that the email or the password is invalid, and nothing but the
  -- counters of failed logins has changed.
  pub login-Refuses :
      (ctx : Context) (raw password : Text) (prior : ℕ) (r : Bool × Bool) (w : World)
      → w.schedule ≡ []
      → w.slots ≡ []
      → compare_hash k a.hasher password a.hasher.dummy ≡ ok r
      → scan 0 (counted a (normal raw) ctx.meta.ip w) ≡ (prior, none)
      → (find (has_email (normal raw)) w.db.users ≡ none)
        ⊎ ((u : User) × (find (has_email (normal raw)) w.db.users ≡ some u)
            × Barred password (account_of u))
      → Refuses (login k sha256 parse_ip a ctx raw password) w
  login-Refuses ctx raw password prior r w calm free dummy shut why = elim why [
    | inl absent ↦ by_row none absent (inl refl)
    | inr (u, found, barred) ↦ by_row (some u) found (inr (account_of u, refl, barred))
  ]
    where
      by_row :
          (o : Option User)
          → find (has_email (normal raw)) w.db.users ≡ o
          → (read_account o ≡ none)
            ⊎ ((account : Account) × (read_account o ≡ some account) × Barred password account)
          → Refuses (login k sha256 parse_ip a ctx raw password) w
      by_row o found out =
          subst (λ x. Ends x w)
            (sym (login_opens k sha256 parse_ip a ctx raw password prior o w calm shut found))
            (judge_account-Refuses ctx (normal raw) password prior (read_account o) r w free dummy
              out)
