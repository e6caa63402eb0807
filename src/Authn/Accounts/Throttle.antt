-- ===== src/Authn/Accounts/Throttle.antt =====
-- The throttle of a login: an open window refuses it before any hashing.
use kal.Base.{
  ℕ, Bool, true, false, Option, some, List, [], ◌∷◌, ◌≡◌, refl, ap, ◌∙◌, arith, Text, any, filter,
  text_eq, if◌then◌else◌, Bool-cases, inl, inr,
}
use kal.Kalerr.{ok, err}
use kal.Authz.Principal.{Context}
use kal.Authz.Audit.{Event, backoff_open, window}
use kal.World.{World, fail, advance, driver_fails, exec, audit}
use kal.World.Outcome.{advance-db, exec-runs, >>=-ok, >>=-err}
use kal.Authn.Password.{Kdf}
use kal.Authn.Backoff.{scope_user}
use kal.Authn.Statements.{Counter, counters, is_attempt, attempts_stmt}
use kal.Authn.Accounts.{normal, is_open, scan, judged, judge, check_backoff, about, too_many, login}
use kal.Authn.Accounts.Reading.{counted}
use kal.Authn.Accounts.Config.{Accounts}

-- The scan stops at an open window whenever there is one.
scan-any :
    (n : ℕ) (rows : List Counter)
    → any is_open rows ≡ true
    → (m : ℕ) × (r : Counter) × (scan n rows ≡ (m, some r))
unfolding scan any
scan-any n [] h = cc
scan-any n (r ∷ rs) h = elim (Bool-cases (is_open r)) [
  | inl opened ↦ (seen, r, rw opened refl)
  | inr shut ↦ let (m, c, e) = scan-any seen rs (rw shut at h) in (m, c, rw shut e)
]
  where
    seen : ℕ
    seen = if text_eq r.scope scope_user then r.failures else n

-- An audit event moves nothing else.
abbrev pub Untouched : World → World → Type 0
Untouched w w' = (w'.slots ≡ w.slots) × (w'.salts ≡ w.salts) × (w'.db ≡ w.db)

audit-Untouched : (hook : Bool) (e : Event) (w : World) → Untouched w (audit hook e w).1
unfolding audit
audit-Untouched true e w = (refl, refl, refl)
audit-Untouched false e w = (refl, refl, refl)

pub audit-ok : (hook : Bool) (e : Event) (w : World) → audit hook e w ≡ (ok tt, (audit hook e w).1)
unfolding audit
audit-ok true e w = refl
audit-ok false e w = refl

attempts_counted :
    (a : Accounts) (email ip : Text) (w : World)
    → attempts_stmt email ip (advance w).now (advance w).db
      ≡ ok (counted a email ip w, (advance w).db)
unfolding attempts_stmt
attempts_counted a email ip w =
    ap
      (λ d. ok (counters (advance w).now (filter (is_attempt email ip) d.attempts), (advance w).db))
      (advance-db w)

advance-Untouched : (w : World) → Untouched w (advance w)
advance-Untouched w = ground arith

module _ (k : Kdf) (sha256 : Text → Text) (parse_ip : Text → Option Text) (a : Accounts) where
  -- While a window is open on the counter of the address or of the client's address, and the
  -- driver answers, every login is refused as rate limited, whatever the password, and the same way
  -- for all of them: no slot of the hasher is asked for, no salt is drawn and no table changes.
  pub login_throttled :
      (ctx : Context) (raw : Text) (w : World)
      → driver_fails w ≡ false
      → any is_open (counted a (normal raw) ctx.meta.ip w) ≡ true
      → (w' : World) × ((password : Text)
          → login k sha256 parse_ip a ctx raw password w ≡ (err too_many, w'))
        × Untouched w w'
  unfolding login check_backoff judge
  login_throttled ctx raw w sound opened =
      let (n, r, e) = scan-any 0 (counted a (normal raw) ctx.meta.ip w) opened in
      let tell =
        audit a.audit
          (about backoff_open [] (normal raw) ctx.meta.ip (window r.scope r.failures)) in
      let v : World = record (advance w) { db = (advance w).db } in
      let read =
        exec-runs (attempts_stmt (normal raw) ctx.meta.ip) w sound
          (attempts_counted a (normal raw) ctx.meta.ip w) in
      let shut : check_backoff a (normal raw) ctx.meta.ip w ≡ (err too_many, (tell v).1) =
        >>=-ok (exec (attempts_stmt (normal raw) ctx.meta.ip)) (judge a (normal raw) ctx.meta.ip) w
          read
        ∙ ap (λ s. judged a (normal raw) ctx.meta.ip s v) e
        ∙ >>=-ok tell (λ _. fail too_many) v
            (audit-ok a.audit
              (about backoff_open [] (normal raw) ctx.meta.ip (window r.scope r.failures)) v) in
      let quiet =
        audit-Untouched a.audit
          (about backoff_open [] (normal raw) ctx.meta.ip (window r.scope r.failures)) v in
      let still = advance-Untouched w in
      (
        (tell v).1,
        (λ password. >>=-err (check_backoff a (normal raw) ctx.meta.ip) _ w shut),
        (quiet.0 ∙ still.0, quiet.1 ∙ still.1, quiet.2 ∙ still.2),
      )
