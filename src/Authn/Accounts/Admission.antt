-- ===== src/Authn/Accounts/Admission.antt =====
-- What a login that succeeds has checked, and the throttle.
use kal.Base.{
  ℕ, Bool, true, false, not, ◌&&◌, Option, none, some, [], ◌≡◌, ◌⊎◌, inl, inr, refl, sym, ap, subst,
  ◌∙◌, Text, is_empty, find, leb, if◌then◌else◌,
}
use kal.Kalerr.{ok, plain}
use kal.Authz.Principal.{Principal, Context}
use kal.Authz.Audit.{login_fail, login_ok, reason, nothing, prior_failures}
use kal.Store.{User}
use kal.World.{World, Action, pure, fail, lift, advance, exec, acquire, audit, ◌>>=◌, ◌>>◌}
use kal.World.Outcome.{advance-db, exec-eq-ok, >>=-eq-ok, pure-eq-ok, then-eq-ok}
use kal.Session.Cookie.{cookie}
use kal.Session.Jar.{set_cookie}
use kal.Session.Sessions.{issue, lookup}
use kal.Session.Lookup.{lookup-row, issue-Issued, Issued-owner}
use kal.Authn.Password.{Kdf, verify, verify_dummy, compare_hash}
use kal.Authn.Backoff.{suspicious_failures}
use kal.Authn.Statements.{Account, has_email, hash_of, login_stmt}
use kal.Authn.Accounts.{
  normal, scan, check_backoff, record_failure, about, invalid_login, invalid_login_by,
  refuse_unknown, judge_password, judge_account, admit, login, when, start_session, revoke_prior,
  resolved, reset_backoff,
}
use kal.Authn.Accounts.Config.{Accounts}
use kal.Authn.Accounts.Reading.{login_read, never, counted, check_backoff-eq-ok}

module _ (k : Kdf) (sha256 : Text → Text) (parse_ip : Text → Option Text) (a : Accounts) where
  verify-eq-ok :
      (password encoded : Text) (w : World) {r : Bool × Bool} {w' : World}
      → verify k a.hasher password encoded w ≡ (ok r, w')
      → compare_hash k a.hasher password encoded ≡ ok r
  unfolding verify
  verify-eq-ok password encoded w h =
      let (_, w₁, _, e) =
        >>=-eq-ok acquire (λ _. lift (compare_hash k a.hasher password encoded)) w h in
      ap (λ r. r.0) e

  start_session-owner :
      (ctx : Context) (id : Text) (w : World) {p : Principal} {w' : World}
      → start_session k sha256 parse_ip a ctx id w ≡ (ok p, w')
      → p.user_id ≡ id
  unfolding start_session
  start_session-owner ctx id w {p} {w'} h =
      let (_, w₁, e₁, k₁) = >>=-eq-ok (revoke_prior k sha256 parse_ip a ctx) _ w h in
      let (token, w₂, e₂, k₂) = >>=-eq-ok (issue sha256 a.sessions parse_ip id ctx.meta) _ w₁ k₁ in
      let (o, w₃, e₃, k₃) = >>=-eq-ok (lookup sha256 a.sessions token) _ w₂ k₂ in
      let (q, w₄, e₄, k₄) = >>=-eq-ok (resolved k sha256 parse_ip a o) _ w₃ k₃ in
      let (_, w₅, e₅, k₅) =
        >>=-eq-ok (set_cookie ctx (cookie a.cookie_name token)) (λ _. pure q) w₄ k₄ in
      let found : lookup sha256 a.sessions token w₂ ≡ (ok (some q), w₃) =
        subst (λ x. lookup sha256 a.sessions token w₂ ≡ (ok x, w₃)) (was_some o q w₃ e₄) e₃ in
      let (row, f, (mine, _)) = lookup-row sha256 a.sessions token w₂ found in
      let new = issue-Issued sha256 a.sessions parse_ip id ctx.meta w₁ e₂ in
      let same : q ≡ p = pure-eq-ok q w₅ k₅ in
      ap (λ x. x.user_id) (sym same)
      ∙ mine
      ∙ Issued-owner sha256 a.sessions token id (advance w₂).now w₂.db.sessions new f
    where
      was_some :
          (o : Option Principal) (q : Principal) (w : World) {w' : World}
          → resolved k sha256 parse_ip a o w ≡ (ok q, w')
          → o ≡ some q
      was_some none q w h = cc
      was_some (some x) q w h = cc

  -- The steps between the checks and the session.
  admit-owner :
      (ctx : Context) (email password : Text) (prior : ℕ) (rehash : Bool) (account : Account)
      (w : World) {p : Principal} {w' : World}
      → admit k sha256 parse_ip a ctx email password prior rehash account w ≡ (ok p, w')
      → p.user_id ≡ account.id
  unfolding admit
  admit-owner ctx email password prior rehash account w h =
      let (w₁, _, k₁) = then-eq-ok (when k sha256 parse_ip a rehash _) _ w h in
      let (w₂, _, k₂) =
        then-eq-ok (when k sha256 parse_ip a (leb suspicious_failures prior) _) _ w₁ k₁ in
      let (w₃, _, k₃) = then-eq-ok (reset_backoff a email ctx.meta.ip) (tell >> start) w₂ k₂ in
      let (w₄, _, k₄) = then-eq-ok tell start w₃ k₃ in start_session-owner ctx account.id w₄ k₄
    where
      tell : Action (Unit {0})
      tell = audit a.audit (about login_ok account.id email ctx.meta.ip (prior_failures prior))

      start : Action Principal
      start = start_session k sha256 parse_ip a ctx account.id

  -- What is asked of an account before it is admitted.
  abbrev pub Passed : Text → Account → Type 0
  Passed password account =
      ((rehash : Bool) × (compare_hash k a.hasher password account.stored_hash ≡ ok (true, rehash)))
      × ((account.verified ≡ true) ⊎ (a.allow_unverified ≡ true))

  judge_password-Passed :
      (ctx : Context) (email password : Text) (prior : ℕ) (account : Account) (r : Bool × Bool)
      (w : World) {p : Principal} {w' : World}
      → compare_hash k a.hasher password account.stored_hash ≡ ok r
      → judge_password k sha256 parse_ip a ctx email password prior account r w ≡ (ok p, w')
      → Passed password account × (p.user_id ≡ account.id)
  unfolding judge_password
  judge_password-Passed ctx email password prior account (false, rehash) w c h =
      let (w₁, _, k₁) =
        then-eq-ok (record_failure a email ctx.meta.ip) (tell >> fail invalid_login) w h in
      absurd (never tell invalid_login w₁ k₁)
    where
      tell : Action (Unit {0})
      tell = audit a.audit (about login_fail account.id email ctx.meta.ip (reason "password"))
  judge_password-Passed ctx email password prior account (true, rehash) w {p} {w'} c h =
      by_verified account.verified a.allow_unverified refl refl h
    where
      by_verified :
          (verified allowed : Bool)
          → account.verified ≡ verified
          → a.allow_unverified ≡ allowed
          → (if not verified && not allowed
                then audit a.audit
                    (about login_fail account.id email ctx.meta.ip (reason "unverified"))
                  >> fail (invalid_login_by (plain "email not verified"))
                else admit k sha256 parse_ip a ctx email password prior rehash account)
              w
            ≡ (ok p, w')
          → Passed password account × (p.user_id ≡ account.id)
      by_verified true allowed e f g =
          (((rehash, c), inl e), admit-owner ctx email password prior rehash account w g)
      by_verified false true e f g =
          (((rehash, c), inr f), admit-owner ctx email password prior rehash account w g)
      by_verified false false e f g = absurd (
          never
            (audit a.audit (about login_fail account.id email ctx.meta.ip (reason "unverified")))
            (invalid_login_by (plain "email not verified")) w g)

  refuse_unknown-never :
      (ctx : Context) (email password : Text) (w : World) {p : Principal} {w' : World}
      → refuse_unknown k sha256 parse_ip a ctx email password w ≡ (ok p, w')
      → ⊥
  unfolding refuse_unknown
  refuse_unknown-never ctx email password w h =
      let (w₁, _, k₁) = then-eq-ok (verify_dummy k a.hasher password) _ w h in
      let (w₂, _, k₂) =
        then-eq-ok (record_failure a email ctx.meta.ip) (tell >> fail invalid_login) w₁ k₁ in
      never tell invalid_login w₂ k₂
    where
      tell : Action (Unit {0})
      tell = audit a.audit (about login_fail [] email ctx.meta.ip nothing)

  judge_account-Passed :
      (ctx : Context) (email password : Text) (prior : ℕ) (o : Option Account) (w : World)
      {p : Principal} {w' : World}
      → judge_account k sha256 parse_ip a ctx email password prior o w ≡ (ok p, w')
      → (account : Account) × (o ≡ some account)
        × (is_empty account.stored_hash ≡ false)
        × (Passed password account × (p.user_id ≡ account.id))
  unfolding judge_account
  judge_account-Passed ctx email password prior none w h =
      absurd (refuse_unknown-never ctx email password w h)
  judge_account-Passed ctx email password prior (some account) w {p} {w'} h =
      by_hash (is_empty account.stored_hash) refl h
    where
      by_hash :
          (empty : Bool)
          → is_empty account.stored_hash ≡ empty
          → (if empty
                then refuse_unknown k sha256 parse_ip a ctx email password
                else verify k a.hasher password account.stored_hash
                  >>= judge_password k sha256 parse_ip a ctx email password prior account)
              w
            ≡ (ok p, w')
          → (found : Account) × (some account ≡ some found)
            × (is_empty found.stored_hash ≡ false)
            × (Passed password found × (p.user_id ≡ found.id))
      by_hash true e g = absurd (refuse_unknown-never ctx email password w g)
      by_hash false e g =
          let (r, w₁, v, k₁) =
            >>=-eq-ok (verify k a.hasher password account.stored_hash)
              (judge_password k sha256 parse_ip a ctx email password prior account) w g in
          (
            account,
            refl,
            e,
            judge_password-Passed ctx email password prior account r w₁
                (verify-eq-ok password account.stored_hash w v) k₁,
          )

  -- A login that succeeds found no window open for the address or the client's address; found a live
  -- account of that address, compared case-insensitively and without surrounding blanks, that has a
  -- password; had its stored hash match the password that was given; found the address verified,
  -- unless unverified logins are allowed; and names the account's own user.
  pub login_sound :
      (ctx : Context) (raw password : Text) (w w' : World) {p : Principal}
      → login k sha256 parse_ip a ctx raw password w ≡ (ok p, w')
      → ((n : ℕ) × (scan 0 (counted a (normal raw) ctx.meta.ip w) ≡ (n, none)))
        × ((u : User) × (find (has_email (normal raw)) w.db.users ≡ some u)
            × (is_empty (hash_of u) ≡ false)
            × ((rehash : Bool) × (compare_hash k a.hasher password (hash_of u) ≡ ok (true, rehash)))
            × ((u.email_verified ≡ true) ⊎ (a.allow_unverified ≡ true))
            × (p.user_id ≡ u.id))
  unfolding login
  login_sound ctx raw password w w' {p} h =
      let (n, w₁, e₁, k₁) = >>=-eq-ok (check_backoff a (normal raw) ctx.meta.ip) _ w h in
      let (none_open, same) = check_backoff-eq-ok a (normal raw) ctx.meta.ip w e₁ in
      let (o, w₂, e₂, k₂) = >>=-eq-ok (exec (login_stmt (normal raw))) _ w₁ k₁ in
      let (account, eo, full, (((rehash, c), verified), owner)) =
        judge_account-Passed ctx (normal raw) password n o w₂ k₂ in
      let (db, st, _) =
        exec-eq-ok (login_stmt (normal raw)) w₁
          (subst (λ x. exec (login_stmt (normal raw)) w₁ ≡ (ok x, w₂)) eo e₂) in
      let (u, found, (id, stored, seen)) =
        login_read (normal raw) (advance w₁).now (advance w₁).db st in
      (
        (n, none_open),
        (
          u,
          subst (λ d. find (has_email (normal raw)) d.users ≡ some u) (advance-db w₁ ∙ same) found,
          subst (λ x. is_empty x ≡ false) stored full,
          (rehash, subst (λ x. compare_hash k a.hasher password x ≡ ok (true, rehash)) stored c),
          subst (λ x. (x ≡ true) ⊎ (a.allow_unverified ≡ true)) seen verified,
          owner ∙ id,
        ),
      )
