-- ===== src/Authn/Accounts/Readiness.antt =====
-- The world in which a session of a user can be issued, and the steps of a login that keep it so.
use kal.Base.{
  ℕ, ◌≡◌, refl, sym, ap, subst, ◌∙◌, Bool, true, false, Option, none, some, List, [], ◌∷◌, Text,
  any, any-update, if◌then◌else◌,
}
use kal.Kalerr.{Result, ok, err, plain}
use kal.Authz.Principal.{Principal, Context}
use kal.Authz.Audit.{Event, mail_fail, undelivered, password_rehash, error}
use kal.Store.{Db}
use kal.World.{
  World, Action, Stmt, pure, next, advance, exec, audit, send, acquire, new_salt, ◌>>=◌, ◌>>◌,
}
use kal.World.Outcome.{exec-runs, >>=-ok}
use kal.Session.Statements.{has_id, has_hash, is_user, revoke_stmt}
use kal.Session.Sessions.{Sessions, revoke, audit_if, revocation}
use kal.Authn.Mailer.{Message, kind_name}
use kal.Authn.Password.{Kdf, hash}
use kal.Authn.Statements.{update_password_stmt, reset_stmt}
use kal.Authn.Accounts.{
  about, attempt, notify, reset_backoff, rehash_failed, store_rehash, rehash_stored, when,
  revoke_prior,
}
use kal.Authn.Accounts.Config.{Accounts}

-- A driver that answers at once lets no time pass.
pub steady : (w : World) → w.schedule ≡ [] → advance w ≡ w
steady w h = rw h refl

pub exec_now :
    {A : Type 0} (s : Stmt A) (w : World) {a : A} {db : Db}
    → w.schedule ≡ []
    → s w.now w.db ≡ ok (a, db)
    → exec s w ≡ (ok a, record w { db = db })
exec_now s w {a} {db} h e =
    exec-runs s w (rw h refl) (subst (λ v. s v.now v.db ≡ ok (a, db)) (sym (steady w h)) e)
    ∙ ap (λ v. (ok a, record v { db = db })) (steady w h)

-- A new session's id and hash are free, and its owner is a live user.
pub record Fit (id digest user : Text) (db : Db) : Type 0 where
  pub free_id : any (has_id id) db.sessions ≡ false
  pub free_hash : any (has_hash digest) db.sessions ≡ false
  pub owner : any (is_user user) db.users ≡ true

module _ (token id digest user : Text) where
  -- The driver answers at once, and the random source and the database have the token and the id.
  abbrev pub Ready : World → Type 0
  Ready w =
      (w.schedule ≡ [])
      × ((rest : List Text) × (w.random ≡ token ∷ rest))
      × ((rest : List Text) × (w.uuids ≡ id ∷ rest))
      × Fit id digest user w.db

  -- It stays so, whatever the action answers.
  abbrev pub Stays : {A : Type 0} → Action A → Type 0
  Stays m = (w : World) → Ready w → Ready (m w).1

  -- The action succeeds, and it stays so.
  abbrev pub Goes : Action (Unit {0}) → Type 0
  Goes m = (w : World) → Ready w → (m w ≡ (ok tt, (m w).1)) × Ready (m w).1

  exec-Stays :
      {A : Type 0} (s : Stmt A) (a : World → A) (db : World → Db)
      → ((w : World) → s w.now w.db ≡ ok (a w, db w))
      → ((w : World) → Fit id digest user w.db → Fit id digest user (db w))
      → Stays (exec s)
  exec-Stays s a db runs fits w r =
      subst (λ x. Ready x.1) (sym (exec_now s w r.0 (runs w))) (r.0, r.1, r.2, fits w r.3)

  bind-Stays :
      {A B : Type 0} (m : Action A) (f : A → Action B)
      → Stays m
      → ((a : A) → Stays (f a))
      → Stays (m >>= f)
  bind-Stays {A} {B} m f first then_each w r = after (m w).0 (m w).1 (first w r)
    where
      after : (x : Result A) (v : World) → Ready v → Ready (next f (x, v)).1
      after (ok a) v h = then_each a v h
      after (err e) v h = h

  pub then-Goes :
      {B : Type 0} (m : Action (Unit {0})) (k : Action B) (w : World)
      → Goes m
      → Ready w
      → (m >> k) w ≡ k (m w).1
  then-Goes m k w g r = ap (next (λ _. k)) (g w r).0

  attempt-Goes :
      {A : Type 0} (m : Action A) (f : Result A → Action (Unit {0}))
      → Stays m
      → ((r : Result A) → Goes (f r))
      → Goes (attempt m >>= f)
  attempt-Goes m f stays goes w r = goes (m w).0 (m w).1 (stays w r)

  pub audit-Goes : (hook : Bool) (e : Event) → Goes (audit hook e)
  unfolding audit
  audit-Goes true e w r = (refl, r)
  audit-Goes false e w r = (refl, r)

  pure-Goes : Goes (pure tt)
  pure-Goes w r = (refl, r)

  update_password-Stays : (new who old : Text) → Stays (exec (update_password_stmt new who old))
  unfolding update_password_stmt
  update_password-Stays new who old =
      exec-Stays (update_password_stmt new who old) _ _ (λ w. refl)
        (λ w f. record {
          free_id = f.free_id;
          free_hash = f.free_hash;
          owner = any-update (is_user user) _ _ w.db.users (λ u. refl) ∙ f.owner;
        })

  reset-Stays : (email ip : Text) → Stays (exec (reset_stmt email ip))
  unfolding reset_stmt
  reset-Stays email ip =
      exec-Stays (reset_stmt email ip) _ _ (λ w. refl)
        (λ w f. record { free_id = f.free_id; free_hash = f.free_hash; owner = f.owner })

  acquire-Stays : Stays acquire
  unfolding acquire
  acquire-Stays w r = by_slots w.slots refl
    where
      by_slots : (slots : List Bool) → w.slots ≡ slots → Ready (acquire w).1
      by_slots [] e = rw e r
      by_slots (late ∷ rest) e = rw e r

  new_salt-Stays : Stays new_salt
  unfolding new_salt
  new_salt-Stays w r = by_salts w.salts refl
    where
      by_salts : (salts : List Text) → w.salts ≡ salts → Ready (new_salt w).1
      by_salts [] e = rw e r
      by_salts (salt ∷ rest) e = rw e r

  hash-Stays : (k : Kdf) (a : Accounts) (password : Text) → Stays (hash k a.hasher password)
  unfolding hash
  hash-Stays k a password =
      bind-Stays acquire _ acquire-Stays (λ _. bind-Stays new_salt _ new_salt-Stays (λ salt w r. r))

  rehash_failed-Goes :
      (k : Kdf) (sha256 : Text → Text) (parse_ip : Text → Option Text) (a : Accounts) (who : Text)
      (x : Result ℕ)
      → Goes (rehash_failed k sha256 parse_ip a who x)
  rehash_failed-Goes k sha256 parse_ip a who (ok n) = pure-Goes
  rehash_failed-Goes k sha256 parse_ip a who (err e) =
      audit-Goes a.audit (about password_rehash who [] [] (error e))

  store_rehash-Goes :
      (k : Kdf) (sha256 : Text → Text) (parse_ip : Text → Option Text) (a : Accounts)
      (who old : Text) (x : Result Text)
      → Goes (store_rehash k sha256 parse_ip a who old x)
  store_rehash-Goes k sha256 parse_ip a who old (err e) =
      audit-Goes a.audit (about password_rehash who [] [] (error e))
  store_rehash-Goes k sha256 parse_ip a who old (ok new) =
      attempt-Goes (exec (update_password_stmt new who old)) (rehash_failed k sha256 parse_ip a who)
        (update_password-Stays new who old) (rehash_failed-Goes k sha256 parse_ip a who)

  pub rehash_stored-Goes :
      (k : Kdf) (sha256 : Text → Text) (parse_ip : Text → Option Text) (a : Accounts)
      (who password old : Text)
      → Goes (rehash_stored k sha256 parse_ip a who password old)
  unfolding rehash_stored
  rehash_stored-Goes k sha256 parse_ip a who password old =
      attempt-Goes (hash k a.hasher password) (store_rehash k sha256 parse_ip a who old)
        (hash-Stays k a password) (store_rehash-Goes k sha256 parse_ip a who old)

  pub when-Goes :
      (k : Kdf) (sha256 : Text → Text) (parse_ip : Text → Option Text) (a : Accounts) (b : Bool)
      (m : Action (Unit {0}))
      → Goes m
      → Goes (when k sha256 parse_ip a b m)
  when-Goes k sha256 parse_ip a true m g = g
  when-Goes k sha256 parse_ip a false m g = pure-Goes

  pub notify-Goes : (a : Accounts) (to : Text) (m : Message) → Goes (notify a to m)
  unfolding notify send
  notify-Goes a to m w r = by_answer (send to m w).0 (send to m w).1 (sent w.mailer refl)
    where
      sent : (answers : List Bool) → w.mailer ≡ answers → Ready (send to m w).1
      sent [] e = rw e r
      sent (true ∷ rest) e = rw e r
      sent (false ∷ rest) e = rw e r

      by_answer :
          (accepted : Bool) (v : World)
          → Ready v
          → let told : Result (Unit {0}) × World =
              (if accepted
                then (ok tt, v)
                else audit a.audit
                    (about mail_fail [] to [] (undelivered (kind_name m.kind) (plain "mailer")))
                    v) in
            (told ≡ (ok tt, told.1)) × Ready told.1
      by_answer true v h = (refl, h)
      by_answer false v h =
          audit-Goes a.audit
            (about mail_fail [] to [] (undelivered (kind_name m.kind) (plain "mailer"))) v h

  pub reset_backoff-Goes : (a : Accounts) (email ip : Text) → Goes (reset_backoff a email ip)
  unfolding reset_backoff
  reset_backoff-Goes a email ip =
      attempt-Goes (exec (reset_stmt email ip)) (λ _. pure tt) (reset-Stays email ip)
        (λ _. pure-Goes)

  audit_if-Goes : (changed hook : Bool) (e : Event) → Goes (audit_if changed hook e)
  audit_if-Goes true hook e = audit-Goes hook e
  audit_if-Goes false hook e = pure-Goes

  revoke-Goes : (s : Sessions) (session : Text) → Goes (revoke s session)
  unfolding revoke revoke_stmt
  revoke-Goes s session w r =
      subst (λ x. (x ≡ (ok tt, x.1)) × Ready x.1)
        (sym (>>=-ok (exec (revoke_stmt session)) _ w (exec_now (revoke_stmt session) w r.0 refl)))
        (audit_if-Goes _ s.audit (revocation [] session) _ (
          r.0,
          r.1,
          r.2,
          record {
            free_id = any-update (has_id id) _ _ w.db.sessions (λ u. refl) ∙ r.3.free_id;
            free_hash = any-update (has_hash digest) _ _ w.db.sessions (λ u. refl) ∙ r.3.free_hash;
            owner = r.3.owner;
          },
        ))

  pub revoke_prior-Goes :
      (k : Kdf) (sha256 : Text → Text) (parse_ip : Text → Option Text) (a : Accounts)
      (ctx : Context)
      → Goes (revoke_prior k sha256 parse_ip a ctx)
  revoke_prior-Goes k sha256 parse_ip a ctx = by_caller ctx.principal refl
    where
      by_caller :
          (o : Option Principal) → ctx.principal ≡ o → Goes (revoke_prior k sha256 parse_ip a ctx)
      by_caller none e = rw e pure-Goes
      by_caller (some p) e = rw e (revoke-Goes a.sessions p.session_id)
