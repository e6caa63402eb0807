-- ===== src/Authn/Accounts/Complete.antt =====
-- What a login needs in order to succeed.
use kal.Base.{
  to_lower, ℕ, ◌<◌, find-any, find-holds, and_parts, ◌≡◌, ◌⊎◌, inl, inr, refl, ◌∙◌, Bool, true,
  false, Option, none, some, List, [], ◌∷◌, Text, text_eq, text_eq_refl, is_empty, any, find,
  Bool-cases, leb,
}
use kal.Base.Int.{pos_part}
use kal.Kalerr.{ok}
use kal.Authz.Principal.{Principal, Context}
use kal.Authz.Audit.{login_ok, prior_failures}
use kal.Store.{User}
use kal.World.{World, Action, acquire, audit, ◌>>◌}
use kal.World.Outcome.{>>=-ok}
use kal.Session.Cookie.{cookie}
use kal.Session.Jar.{set_cookie}
use kal.Session.Statements.{has_id, is_null, has_hash, is_user}
use kal.Session.Sessions.{issue, lookup}
use kal.Authn.Password.{Kdf, verify, compare_hash}
use kal.Authn.Backoff.{suspicious_failures}
use kal.Authn.Statements.{Account, has_email, hash_of}
use kal.Authn.Accounts.{
  normal, scan, about, judge_password, judge_account, admit, login, when, start_session,
  revoke_prior, reset_backoff,
}
use kal.Authn.Accounts.Config.{Accounts}
use kal.Authn.Accounts.Reading.{counted}
use kal.Authn.Accounts.Opening.{account_of, login_opens}
use kal.Authn.Accounts.Issuing.{issued, issue_runs, lookup_runs}
use kal.Authn.Accounts.Readiness.{
  Ready, Goes, then-Goes, audit-Goes, when-Goes, notify-Goes, rehash_stored-Goes,
  reset_backoff-Goes, revoke_prior-Goes,
}

module _ (k : Kdf) (sha256 : Text → Text) (parse_ip : Text → Option Text) (a : Accounts) where
  -- The action ends with a session of this id for this user.
  abbrev Enters : Text → Text → Action Principal → World → Type 0
  Enters id user m w =
      (p : Principal) × (w' : World) × (m w ≡ (ok p, w')) × (p.user_id ≡ user) × (p.session_id ≡ id)

  then-Enters :
      (token id user : Text) (m : Action (Unit {0})) (next_one : Action Principal) (w : World)
      → Goes token id (sha256 token) user m
      → Ready token id (sha256 token) user w
      → ((v : World) → Ready token id (sha256 token) user v → Enters id user next_one v)
      → Enters id user (m >> next_one) w
  then-Enters token id user m next_one w g r after =
      let (p, w', e, mine, same) = after (m w).1 (g w r).1 in
      (p, w', then-Goes token id (sha256 token) user m next_one w g r ∙ e, mine, same)

  module _ (idle : 0 < pos_part a.sessions.idle) (absolute : 0 < pos_part a.sessions.absolute) where
    start_session-Enters :
        (ctx : Context) (token id user : Text) (w : World)
        → ctx.jar ≡ true
        → Ready token id (sha256 token) user w
        → Enters id user (start_session k sha256 parse_ip a ctx user) w
    unfolding start_session set_cookie
    start_session-Enters ctx token id user w jar r =
        then-Enters token id user (revoke_prior k sha256 parse_ip a ctx) _ w
          (revoke_prior-Goes token id (sha256 token) user k sha256 parse_ip a ctx) r
          (λ v h.
            let v₁ = issued sha256 a.sessions parse_ip token id user ctx.meta h.1.0 h.2.0 v in
            let made = issue_runs sha256 a.sessions parse_ip token id user ctx.meta v h in
            let (p, v₂, found, mine, same) =
              lookup_runs sha256 a.sessions parse_ip token id user ctx.meta h.1.0 h.2.0 v idle
                absolute h in
            (
              p,
              record v₂ { cookies = cookie a.cookie_name token ∷ v₂.cookies },
              >>=-ok (issue sha256 a.sessions parse_ip user ctx.meta) _ v made
                  ∙ >>=-ok (lookup sha256 a.sessions token) _ v₁ found
                  ∙ rw jar refl,
              mine,
              same,
            ))

    admit-Enters :
        (ctx : Context) (token id email password : Text) (prior : ℕ) (rehash : Bool)
        (account : Account) (w : World)
        → ctx.jar ≡ true
        → Ready token id (sha256 token) account.id w
        → Enters id account.id (admit k sha256 parse_ip a ctx email password prior rehash account) w
    unfolding admit
    admit-Enters ctx token id email password prior rehash account w jar r =
        then-Enters token id u (when k sha256 parse_ip a rehash _) _ w
          (when-Goes token id d u k sha256 parse_ip a rehash _
            (rehash_stored-Goes token id d u k sha256 parse_ip a u password account.stored_hash))
          r
          (λ v₁ h₁.
            then-Enters token id u (when k sha256 parse_ip a (leb suspicious_failures prior) _) _ v₁
              (when-Goes token id d u k sha256 parse_ip a (leb suspicious_failures prior) _
                (notify-Goes token id d u a email _))
              h₁
              (λ v₂ h₂.
                then-Enters token id u (reset_backoff a email ctx.meta.ip) (tell >> start) v₂
                  (reset_backoff-Goes token id d u a email ctx.meta.ip) h₂
                  (λ v₃ h₃.
                    then-Enters token id u tell start v₃ (audit-Goes token id d u a.audit _) h₃
                      (λ v₄ h₄. start_session-Enters ctx token id u v₄ jar h₄))))
      where
        u : Text
        u = account.id

        d : Text
        d = sha256 token

        tell : Action (Unit {0})
        tell = audit a.audit (about login_ok account.id email ctx.meta.ip (prior_failures prior))

        start : Action Principal
        start = start_session k sha256 parse_ip a ctx account.id

    judge_account-Enters :
        (ctx : Context) (token id email password : Text) (prior : ℕ) (rehash : Bool)
        (account : Account) (w : World)
        → ctx.jar ≡ true
        → w.slots ≡ []
        → is_empty account.stored_hash ≡ false
        → compare_hash k a.hasher password account.stored_hash ≡ ok (true, rehash)
        → (account.verified ≡ true) ⊎ (a.allow_unverified ≡ true)
        → Ready token id (sha256 token) account.id w
        → Enters id account.id
            (judge_account k sha256 parse_ip a ctx email password prior (some account))
            w
    unfolding judge_account judge_password verify acquire
    judge_account-Enters ctx token id email password prior rehash account w jar free full c v r =
        let (p, w', e, mine, same) =
          admit-Enters ctx token id email password prior rehash account w jar r in
        (p, w', by_verified v ∙ e, mine, same)
      where
        by_verified :
            (account.verified ≡ true) ⊎ (a.allow_unverified ≡ true)
            → judge_account k sha256 parse_ip a ctx email password prior (some account) w
              ≡ admit k sha256 parse_ip a ctx email password prior rehash account w
        by_verified (inl seen) = rw (full, free, c, seen) refl
        by_verified (inr allowed) = elim (Bool-cases account.verified) [
          | inl seen ↦ rw (full, free, c, seen) refl
          | inr unseen ↦ rw (full, free, c, unseen, allowed) refl
        ]

    -- Where no window is open for the address or the client's address, the address belongs to a live
    -- account that has a password, its stored hash matches the password that is given, and it is
    -- verified or unverified logins are allowed, the login succeeds and names the account's user and
    -- the new session, whether or not the hash is renewed, the mailer accepts, or a prior session
    -- has to end; provided that the driver answers at once, a hashing slot is free, the middleware
    -- is mounted, the lifetimes are positive and the coming token and id are free.
    pub login_complete :
        (ctx : Context) (raw password token id : Text) (tokens ids : List Text) (u : User)
        (prior : ℕ) (rehash : Bool) (w : World)
        → ctx.jar ≡ true
        → w.schedule ≡ []
        → w.slots ≡ []
        → w.random ≡ token ∷ tokens
        → w.uuids ≡ id ∷ ids
        → any (has_id id) w.db.sessions ≡ false
        → any (has_hash (sha256 token)) w.db.sessions ≡ false
        → scan 0 (counted a (normal raw) ctx.meta.ip w) ≡ (prior, none)
        → find (has_email (normal raw)) w.db.users ≡ some u
        → is_empty (hash_of u) ≡ false
        → compare_hash k a.hasher password (hash_of u) ≡ ok (true, rehash)
        → (u.email_verified ≡ true) ⊎ (a.allow_unverified ≡ true)
        → (p : Principal) × (w' : World) × (login k sha256 parse_ip a ctx raw password w
            ≡ (ok p, w'))
          × (p.user_id ≡ u.id)
          × (p.session_id ≡ id)
    login_complete ctx raw password token id tokens ids u prior rehash w jar calm free drawn named
          new_id new_hash shut found full c v =
        let account : Account = record {
          id = u.id;
          stored_hash = hash_of u;
          verified = u.email_verified;
        } in
        let live =
          (and_parts (text_eq (to_lower u.email) (normal raw)) (is_null u.deleted_at)
            (find-holds (has_email (normal raw)) w.db.users found)).1 in
        let ready : Ready token id (sha256 token) u.id w = (
          calm,
          (tokens, drawn),
          (ids, named),
          record {
            free_id = new_id;
            free_hash = new_hash;
            owner =
                find-any (has_email (normal raw)) (is_user u.id) w.db.users found
                  (rw (text_eq_refl u.id, live) refl);
          },
        ) in
        let (p, w', e, mine, same) =
          judge_account-Enters ctx token id (normal raw) password prior rehash (account_of u) w jar
            free full c v ready in
        (
          p,
          w',
          login_opens k sha256 parse_ip a ctx raw password prior (some u) w calm shut found ∙ e,
          mine,
          same,
        )
