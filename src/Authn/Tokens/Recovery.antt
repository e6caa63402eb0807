-- ===== src/Authn/Tokens/Recovery.antt =====
-- Password recovery: asking for a reset changes nothing about an account, and a reset signs it out
-- everywhere.
use kal.Base.{
  ℕ, Bool, true, false, Option, none, some, List, [], ◌∷◌, ◌≡◌, refl, sym, ap, subst, ◌∙◌, arith,
  Text, text_eq, find, update, All, Bool-cases, inl, inr, ltb,
}
use kal.Kalerr.{Result, ok, err}
use kal.Store.{Db, Session, User, Token}
use kal.World.{World, Action, lift, advance, exec, new_token, ◌>>=◌}
use kal.World.Outcome.{advance-db, exec-eq-ok, >>=-eq-ok}
use kal.World.Frame.{
  Leaves, Spares, bind-Leaves, exec-Leaves, pure-Leaves, audit-Leaves, new_token-Leaves,
}
use kal.Session.Statements.{is_null, revoke_all_stmt, unrevoked_of, revoke_row}
use kal.Session.Sessions.{Sessions, revoke_all_for_user, audit_if, revocation}
use kal.Session.Table.Effects.{revoke_all_effect}
use kal.Authz.Audit.{Event, all_sessions}
use kal.Authn.Password.{Kdf, hash, derive}
use kal.Authn.Statements.{user_id_stmt, email_stmt, set_password_stmt, with_hash}
use kal.Authn.Accounts.{normal, attempt}
use kal.Authn.Accounts.Config.{Accounts}
use kal.Authn.Frame.{notify-Leaves, attempt-Leaves, hash-eq-ok}
use kal.Authn.Tokens.Statements.{insert_token_stmt, is_usable}
use kal.Authn.Tokens.{
  mint, answer_reset, request_password_reset, reset_password, consume, purpose_reset, reset_ttl,
  tell_owner,
}
use kal.Authn.Tokens.Burn.{consume-Burned}

-- Every table but the tokens.
abbrev pub but_tokens : Db → Db
but_tokens d = record d { tokens = [] }

insert_token-Spares :
    (hash user purpose : Text) (ttl : ℕ)
    → Spares but_tokens (insert_token_stmt hash user purpose ttl)
unfolding insert_token_stmt
insert_token-Spares hash user purpose ttl now db a db' h = ground arith

user_id-Spares : (email : Text) → Spares but_tokens (user_id_stmt email)
unfolding user_id_stmt
user_id-Spares email now db a db' h = ground arith

module _ (sha256 : Text → Text) (a : Accounts) where
  mint-Leaves :
      (purpose : Text) (ttl : ℕ) (user : Text) → Leaves but_tokens (mint sha256 purpose ttl user)
  unfolding mint
  mint-Leaves purpose ttl user =
      bind-Leaves but_tokens new_token _ (new_token-Leaves but_tokens) (λ token.
        bind-Leaves but_tokens (exec (insert_token_stmt (sha256 token) user purpose ttl)) _
          (exec-Leaves but_tokens _ (insert_token-Spares (sha256 token) user purpose ttl))
          (λ _. pure-Leaves but_tokens token))

  answer-Leaves :
      (email : Text) (o : Option Text) → Leaves but_tokens (answer_reset sha256 a email o)
  unfolding answer_reset
  answer-Leaves email none = notify-Leaves but_tokens a email _
  answer-Leaves email (some user) =
      bind-Leaves but_tokens (mint sha256 purpose_reset reset_ttl user) _
        (mint-Leaves purpose_reset reset_ttl user) (λ token. notify-Leaves but_tokens a email _)

  -- Asking for a reset changes no account: whatever the address, whether it succeeds or fails, every
  -- table but that of the tokens is as it was. No password, session, lock or counter has moved.
  pub request-changes_nothing :
      (raw : Text) (w : World)
      → but_tokens (request_password_reset sha256 a raw w).1.db ≡ but_tokens w.db
  unfolding request_password_reset
  request-changes_nothing raw =
      bind-Leaves but_tokens (exec (user_id_stmt (normal raw))) _
        (exec-Leaves but_tokens (user_id_stmt (normal raw)) (user_id-Spares (normal raw)))
        (λ user. answer-Leaves (normal raw) user)

-- No session of the user is left that was not revoked.
abbrev pub SignedOut : Text → List Session → Type 0
SignedOut user = All (λ s. text_eq s.user_id user ≡ true → is_null s.revoked_at ≡ false)

revoke_all-SignedOut :
    (user : Text) (now : ℕ) (rows : List Session)
    → SignedOut user (update (unrevoked_of user) (revoke_row now) rows)
unfolding update
revoke_all-SignedOut user now [] = tt
revoke_all-SignedOut user now (s ∷ rest) = elim (Bool-cases (unrevoked_of user s)) [
  | inl hit ↦ rw hit ((λ _. refl), revoke_all-SignedOut user now rest)
  | inr miss ↦ rw miss ((λ mine. ground arith), revoke_all-SignedOut user now rest)
]

-- Every row of the user holds the hash.
abbrev pub HasPassword : Text → Text → List User → Type 0
HasPassword user h = All (λ u. text_eq u.id user ≡ true → u.password_hash ≡ some h)

set_password-HasPassword :
    (user h : Text) (now : ℕ) (rows : List User)
    → HasPassword user h (update (λ u. text_eq u.id user) (with_hash now h) rows)
unfolding update
set_password-HasPassword user h now [] = tt
set_password-HasPassword user h now (u ∷ rest) = elim (Bool-cases (text_eq u.id user)) [
  | inl hit ↦ rw hit ((λ _. refl), set_password-HasPassword user h now rest)
  | inr miss ↦ rw miss ((λ mine. cc), set_password-HasPassword user h now rest)
]

abbrev accounts_of : Db → List User × List Session
accounts_of d = (d.users, d.sessions)

set_password-eq-ok :
    (h user : Text) (w : World) {w' : World}
    → exec (set_password_stmt h user) w ≡ (ok tt, w')
    → HasPassword user h w'.db.users
unfolding set_password_stmt
set_password-eq-ok h user w {w'} e =
    let (db, st, q) = exec-eq-ok (set_password_stmt h user) w e in
    let k : db.users
        ≡ update (λ u. text_eq u.id user) (with_hash (advance w).now h) (advance w).db.users =
      cc st in
    subst (HasPassword user h) (sym k ∙ sym (ap (λ v. v.db.users) q))
      (set_password-HasPassword user h (advance w).now (advance w).db.users)

audit_if-Leaves : (b hook : Bool) (e : Event) → Leaves (λ d. d) (audit_if b hook e)
audit_if-Leaves true hook e w = audit-Leaves (λ d. d) hook e w
audit_if-Leaves false hook e w = refl

report : Sessions → Text → ℕ → Action (Unit {0})
report s user n =
    audit_if (ltb 0 n) s.audit (record (revocation user []) { detail = all_sessions n })

revoke_all-eq-ok :
    (s : Sessions) (user : Text) (w : World) {w' : World}
    → revoke_all_for_user s user w ≡ (ok tt, w')
    → SignedOut user w'.db.sessions × (w'.db.users ≡ w.db.users)
unfolding revoke_all_for_user report
revoke_all-eq-ok s user w {w'} e =
    let (n, w₁, e₁, k) = >>=-eq-ok (exec (revoke_all_stmt user)) (report s user) w e in
    let (db, st, q) = exec-eq-ok (revoke_all_stmt user) w e₁ in
    let kept : w'.db ≡ db =
      sym (ap (λ r. r.1.db) k)
      ∙ audit_if-Leaves (ltb 0 n) s.audit (record (revocation user []) { detail = all_sessions n })
          w₁
      ∙ ap (λ v. v.db) q in
    let written = revoke_all_effect user (advance w).now (advance w).db st in
    (
      subst (SignedOut user) (sym (ap (λ d. d.sessions) (kept ∙ written)))
          (revoke_all-SignedOut user (advance w).now (advance w).db.sessions),
      ap (λ d. d.users) (kept ∙ written) ∙ ap (λ d. d.users) (advance-db w),
    )

lift-eq-ok :
    {A : Type 0} (r : Result A) (w : World) {x : A} {w' : World} → lift r w ≡ (ok x, w') → w ≡ w'
lift-eq-ok r w h = ap (λ p. p.1) h

module _ (k : Kdf) (sha256 : Text → Text) (a : Accounts) where
  tell_owner-Leaves : (r : Result (Option Text)) → Leaves (λ d. d) (tell_owner k sha256 a r)
  tell_owner-Leaves (ok (some email)) w = notify-Leaves (λ d. d) a email _ w
  tell_owner-Leaves (ok none) w = refl
  tell_owner-Leaves (err e) w = refl

  email-Spares : (user : Text) → Spares (λ d. d) (email_stmt user)
  unfolding email_stmt
  email-Spares user now db x db' h = ground arith

  -- The notice after a reset.
  tell : Text → Action (Unit {0})
  tell user = attempt (exec (email_stmt user)) >>= tell_owner k sha256 a

  tell-Leaves : (user : Text) → Leaves (λ d. d) (tell user)
  unfolding tell
  tell-Leaves user =
      bind-Leaves (λ d. d) (attempt (exec (email_stmt user))) (tell_owner k sha256 a)
        (attempt-Leaves (λ d. d) (exec (email_stmt user))
          (exec-Leaves (λ d. d) (email_stmt user) (email-Spares user)))
        tell_owner-Leaves

  -- A reset that succeeds was asked for with a token that was stored for that purpose, not consumed
  -- and not expired. Afterwards its user's password is a derivation of the new one under some salt,
  -- and no session of that user, on any device, is left that was not revoked.
  pub reset-signs_out :
      (token password : Text) (w w' : World)
      → reset_password k sha256 a token password w ≡ (ok tt, w')
      → (t : Token) × (find (is_usable (advance w).now (sha256 token) purpose_reset) w.db.tokens
          ≡ some t)
        × SignedOut t.user_id w'.db.sessions
        × ((salt : Text) × HasPassword t.user_id
              (derive k a.hasher.params password salt)
              w'.db.users)
  unfolding reset_password tell
  reset-signs_out token password w w' h =
      let (_, w₁, h₁, k₁) = >>=-eq-ok (lift (a.secret_shape password)) _ w h in
      let (user, w₂, h₂, k₂) = >>=-eq-ok (consume sha256 token purpose_reset) _ w₁ k₁ in
      let (encoded, w₃, h₃, k₃) = >>=-eq-ok (hash k a.hasher password) _ w₂ k₂ in
      let (_, w₄, h₄, k₄) = >>=-eq-ok (exec (set_password_stmt encoded user)) _ w₃ k₃ in
      let (_, w₅, h₅, k₅) =
        >>=-eq-ok (revoke_all_for_user a.sessions user) (λ _. tell user) w₄ k₄ in
      let same : w ≡ w₁ = lift-eq-ok (a.secret_shape password) w h₁ in
      let ((t, found, owner, _), _) = consume-Burned sha256 token purpose_reset w₁ h₂ in
      let (salt, made) = hash-eq-ok k a.hasher password w₂ h₃ in
      let changed = set_password-eq-ok encoded user w₃ h₄ in
      let (out, users) = revoke_all-eq-ok a.sessions user w₄ h₅ in
      let kept : w'.db ≡ w₅.db = sym (ap (λ r. r.1.db) k₅) ∙ tell-Leaves user w₅ in
      (
        t,
        subst
            (λ v.
              find (is_usable (advance v).now (sha256 token) purpose_reset) v.db.tokens ≡ some t)
            (sym same) found,
        subst (λ u. SignedOut u w'.db.sessions) (sym owner)
            (subst (λ d. SignedOut user d.sessions) (sym kept) out),
        (
          salt,
          subst (λ u. HasPassword u (derive k a.hasher.params password salt) w'.db.users)
              (sym owner)
              (subst (λ h. HasPassword user h w'.db.users) made
                (subst (HasPassword user encoded) (sym (ap (λ d. d.users) kept ∙ users)) changed)),
        ),
      )
