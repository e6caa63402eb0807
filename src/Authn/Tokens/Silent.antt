-- ===== src/Authn/Tokens/Silent.antt =====
-- What `Register` answers, whether or not the address is taken.
use kal.Base.{
  ◌≡◌, refl, subst, ◌∙◌, true, false, Option, none, some, List, [], ◌∷◌, ℕ, Text, any, text_eq_refl,
  to_lower, update, some-injective, Bool-cases, inl, inr,
}
use kal.Kalerr.{ok}
use kal.Store.{Db}
use kal.World.{
  World, Action, pure, fail_if, lift, exec, acquire, new_salt, new_token, new_uuid, send,
}
use kal.World.Outcome.{>>=-ok}
use kal.Session.Statements.{user_exists}
use kal.Authn.Mailer.{Message}
use kal.Authn.Password.{Kdf, Hasher, hash, derive}
use kal.Authn.Statements.{has_email, new_user, insert_user_stmt}
use kal.Authn.Accounts.{normal, notify}
use kal.Authn.Accounts.Config.{Accounts}
use kal.Authn.Accounts.Readiness.{exec_now}
use kal.Authn.Tokens.{
  purpose_verify, verify_ttl, is_bad_email, bad_email, mint, registered, insert_account, register,
}
use kal.Authn.Tokens.Statements.{insert_token_stmt, is_token, reissue, new_token_row}

hash_now :
    (k : Kdf) (h : Hasher) (password salt : Text) (salts : List Text) (w : World)
    → w.slots ≡ []
    → w.salts ≡ salt ∷ salts
    → hash k h password w ≡ (ok (derive k h.params password salt), record w { salts = salts })
unfolding hash acquire new_salt
hash_now k h password salt salts w free drawn =
    let waited : acquire w ≡ (ok tt, w) = rw free refl in
    let salted : new_salt w ≡ (ok salt, record w { salts = salts }) = rw drawn refl in
    >>=-ok acquire _ w waited ∙ >>=-ok new_salt _ w salted

-- A mailer that accepts.
notify_now :
    (a : Accounts) (to : Text) (m : Message) (w : World)
    → w.mailer ≡ []
    → notify a to m w ≡ (ok tt, record w { sent = (to, m) ∷ w.sent })
unfolding notify send
notify_now a to m w accepts = rw accepts refl

insert_token_runs :
    (digest user purpose : Text) (ttl now : ℕ) (db : Db)
    → user_exists user db.users ≡ true
    → (db' : Db) × (insert_token_stmt digest user purpose ttl now db ≡ ok (tt, db'))
unfolding insert_token_stmt
insert_token_runs digest user purpose ttl now db exists =
    elim (Bool-cases (any (is_token digest) db.tokens)) [
      | inl again ↦ (
        record db { tokens = update (is_token digest) (reissue now user purpose ttl) db.tokens },
        rw (exists, again) refl,
      )
      | inr new ↦ (
        record db { tokens = new_token_row now digest user purpose ttl ∷ db.tokens },
        rw (exists, new) refl,
      )
    ]

mint_now :
    (sha256 : Text → Text) (purpose : Text) (ttl : ℕ) (user token : Text) (tokens : List Text)
    (w : World)
    → w.schedule ≡ []
    → w.random ≡ token ∷ tokens
    → user_exists user w.db.users ≡ true
    → (db : Db) × (mint sha256 purpose ttl user w
        ≡ (ok token, record w { random = tokens; db = db }))
unfolding mint new_token
mint_now sha256 purpose ttl user token tokens w calm drawn exists =
    let v = record w { random = tokens } in
    let got : new_token w ≡ (ok token, v) = rw drawn refl in
    let (db, st) = insert_token_runs (sha256 token) user purpose ttl w.now w.db exists in
    let write = insert_token_stmt (sha256 token) user purpose ttl in
    (
      db,
      >>=-ok new_token _ w got ∙ >>=-ok (exec write) (λ _. pure token) v (exec_now write v calm st),
    )

module _ (k : Kdf) (sha256 : Text → Text) (a : Accounts) where
  -- The action succeeds and mails one message, to this address.
  abbrev pub Tells : Text → Action (Unit {0}) → World → Type 0
  Tells email m w =
      (message : Message) × (w' : World) × (m w ≡ (ok tt, w'))
      × (w'.sent ≡ (email, message) ∷ w.sent)

  registered-Tells :
      (email token : Text) (tokens : List Text) (o : Option Text) (w : World)
      → w.schedule ≡ []
      → w.mailer ≡ []
      → w.random ≡ token ∷ tokens
      → ((user : Text) → o ≡ some user → user_exists user w.db.users ≡ true)
      → Tells email (registered k sha256 a email o) w
  unfolding registered
  registered-Tells email token tokens none w calm accepts drawn exists =
      (_, _, notify_now a email _ w accepts, refl)
  registered-Tells email token tokens (some user) w calm accepts drawn exists =
      let (db, made) =
        mint_now sha256 purpose_verify verify_ttl user token tokens w calm drawn
          (exists user refl) in
      let v = record w { random = tokens; db = db } in
      (
        _,
        _,
        >>=-ok (mint sha256 purpose_verify verify_ttl user) _ w made
            ∙ notify_now a email _ v accepts,
        refl,
      )

  -- What the insert answers, a user that then exists or none.
  insert_runs :
      (id email : Text) (h : Option Text) (now : ℕ) (db : Db)
      → user_exists id db.users ≡ false
      → (o : Option Text) × (db' : Db) × (insert_user_stmt id email h now db ≡ ok (o, db'))
        × ((user : Text) → o ≡ some user → user_exists user db'.users ≡ true)
  unfolding insert_user_stmt user_exists any
  insert_runs id email h now db new =
      elim (Bool-cases (any (has_email (to_lower email)) db.users)) [
        | inl taken ↦ (none, db, rw taken refl, (λ user e. absurd (cc e)))
        | inr fresh ↦ (
          some id,
          record db { users = new_user now id email h ∷ db.users },
          rw (fresh, new) refl,
          (λ user e.
              subst (λ u. user_exists u (new_user now id email h ∷ db.users) ≡ true)
                (some-injective id user e) (rw (text_eq_refl id) refl)),
        )
      ]

  -- `Register` with a well-formed address and an acceptable password answers the same whether or not
  -- the address has an account: it succeeds, and mails one message to the address. It is assumed
  -- that the driver answers at once, a hashing slot is free, the mailer accepts, the random source
  -- answers and the new user's id is free.
  pub register_silent :
      (raw password salt id token : Text) (salts ids tokens : List Text) (w : World)
      → is_bad_email (normal raw) ≡ false
      → a.secret_shape password ≡ ok tt
      → w.schedule ≡ []
      → w.slots ≡ []
      → w.mailer ≡ []
      → w.salts ≡ salt ∷ salts
      → w.uuids ≡ id ∷ ids
      → w.random ≡ token ∷ tokens
      → user_exists id w.db.users ≡ false
      → Tells (normal raw) (register k sha256 a raw password) w
  unfolding register new_uuid
  register_silent raw password salt id token salts ids tokens w good shaped calm free accepts salted
        named drawn new =
      let h = derive k a.hasher.params password salt in
      let v₁ : World = record w { salts = salts } in
      let v₂ : World = record v₁ { uuids = ids } in
      let got : new_uuid v₁ ≡ (ok id, v₂) = rw named refl in
      let (o, db, st, exists) = insert_runs id (normal raw) (some h) w.now w.db new in
      let insert = insert_user_stmt id (normal raw) (some h) in
      let (m, w', done, mailed) =
        registered-Tells (normal raw) token tokens o (record v₂ { db = db }) calm accepts drawn
          exists in
      (
        m,
        w',
        >>=-ok (fail_if (is_bad_email (normal raw)) bad_email) _ w (rw good refl)
            ∙ >>=-ok (lift (a.secret_shape password)) _ w (rw shaped refl)
            ∙ >>=-ok (hash k a.hasher password) _ w
                (hash_now k a.hasher password salt salts w free salted)
            ∙ >>=-ok (insert_account k sha256 a (normal raw) (some h)) _ v₁
                (>>=-ok new_uuid _ v₁ got ∙ exec_now insert v₂ calm st)
            ∙ done,
        mailed,
      )
