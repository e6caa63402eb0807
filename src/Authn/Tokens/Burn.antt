-- ===== src/Authn/Tokens/Burn.antt =====
-- `consume`: a token is redeemed once, for its purpose, before its expiry.
use kal.Base.{
  ℕ, ◌≤◌, false, Option, none, some, List, [], ◌∷◌, ◌≡◌, refl, sym, ap, subst, ◌∙◌, arith, Text,
  find, update, All, Bool-cases, inl, inr, find-none,
}
use kal.Kalerr.{ok, err, Failure}
use kal.Store.{Db, Token}
use kal.World.{World, advance, exec, ◌>>=◌}
use kal.World.Outcome.{
  advance-db, advance-now, exec-eq-ok, exec-outcome, >>=-eq-ok, >>=-ok, >>=-err,
}
use kal.Authn.Tokens.Statements.{is_usable, burn, consumed, consume_stmt}
use kal.Authn.Tokens.{bad_link, consume, or_bad_link}

spent :
    (now later : ℕ) (hash purpose : Text) (rows : List Token)
    → now ≤ later
    → All
        (λ t. is_usable later hash purpose t ≡ false)
        (update (is_usable now hash purpose) (burn now) rows)
unfolding update is_usable
spent now later hash purpose [] h = tt
spent now later hash purpose (t ∷ rest) h = elim (Bool-cases (is_usable now hash purpose t)) [
  | inl usable ↦ (ground arith, spent now later hash purpose rest h)
  | inr not_usable ↦ (ground arith, spent now later hash purpose rest h)
]

-- What `consume` has found and written when it succeeds.
abbrev pub Burned : Text → Text → ℕ → Db → Text → Db → Type 0
Burned hash purpose now before user after =
    (t : Token) × (find (is_usable now hash purpose) before.tokens ≡ some t)
    × (t.user_id ≡ user)
    × (after
        ≡ record before { tokens = update (is_usable now hash purpose) (burn now) before.tokens })

consume_stmt-Burned :
    (hash purpose : Text) (now : ℕ) (db : Db) {user : Text} {db' : Db}
    → consume_stmt hash purpose now db ≡ ok (some user, db')
    → Burned hash purpose now db user db'
unfolding consume_stmt
consume_stmt-Burned hash purpose now db {user} {db'} h =
    by_row (find (is_usable now hash purpose) db.tokens) refl h
  where
    by_row :
        (o : Option Token)
        → find (is_usable now hash purpose) db.tokens ≡ o
        → consumed hash purpose now db o ≡ ok (some user, db')
        → Burned hash purpose now db user db'
    by_row none e k = cc
    by_row (some t) e k = (t, e, cc, cc)

consume_stmt-none :
    (hash purpose : Text) (now : ℕ) (db : Db)
    → find (is_usable now hash purpose) db.tokens ≡ none
    → consume_stmt hash purpose now db ≡ ok (none, db)
unfolding consume_stmt
consume_stmt-none hash purpose now db e = rw e refl

or_bad_link-eq-ok :
    (o : Option Text) (w : World) {user : Text} {w' : World}
    → or_bad_link o w ≡ (ok user, w')
    → (o ≡ some user) × (w ≡ w')
or_bad_link-eq-ok none w h = cc
or_bad_link-eq-ok (some u) w h = (cc, cc)

module _ (sha256 : Text → Text) where
  pub consume-Burned :
      (token purpose : Text) (w : World) {user : Text} {w' : World}
      → consume sha256 token purpose w ≡ (ok user, w')
      → Burned (sha256 token) purpose (advance w).now w.db user w'.db × (w'.now ≡ (advance w).now)
  unfolding consume
  consume-Burned token purpose w {user} {w'} h =
      let (o, w₁, e, k) = >>=-eq-ok (exec (consume_stmt (sha256 token) purpose)) or_bad_link w h in
      let (eo, ew) = or_bad_link-eq-ok o w₁ k in
      let (db', st, q) =
        exec-eq-ok (consume_stmt (sha256 token) purpose) w
          (subst (λ x. exec (consume_stmt (sha256 token) purpose) w ≡ (ok x, w₁)) eo e) in
      let final : db' ≡ w'.db = sym (ap (λ v. v.db) q) ∙ ap (λ v. v.db) ew in
      (
        subst (λ d. Burned (sha256 token) purpose (advance w).now w.db user d) final
            (subst (λ d. Burned (sha256 token) purpose (advance w).now d user db') (advance-db w)
              (consume_stmt-Burned (sha256 token) purpose (advance w).now (advance w).db st)),
        sym (ap (λ v. v.now) ew) ∙ ap (λ v. v.now) q,
      )

  consume_refuses :
      (token purpose : Text) (w : World)
      → find (is_usable (advance w).now (sha256 token) purpose) w.db.tokens ≡ none
      → (e : Failure) × (w' : World) × (consume sha256 token purpose w ≡ (err e, w'))
        × (w'.db ≡ w.db)
  unfolding consume
  consume_refuses token purpose w h = elim (exec-outcome (consume_stmt (sha256 token) purpose) w) [
    | inl (e, q) ↦ (
      e,
      advance w,
      >>=-err (exec (consume_stmt (sha256 token) purpose)) or_bad_link w q,
      advance-db w,
    )
    | inr (o, db, st, q) ↦ refused o db st q
  ]
    where
      nothing_there :
          consume_stmt (sha256 token) purpose (advance w).now (advance w).db
          ≡ ok (none, (advance w).db)
      nothing_there = consume_stmt-none (sha256 token) purpose (advance w).now (advance w).db (
          subst (λ d. find (is_usable (advance w).now (sha256 token) purpose) d.tokens ≡ none)
            (sym (advance-db w)) h)

      refused :
          (o : Option Text) (db : Db)
          → consume_stmt (sha256 token) purpose (advance w).now (advance w).db ≡ ok (o, db)
          → exec (consume_stmt (sha256 token) purpose) w ≡ (ok o, record (advance w) { db = db })
          → (e : Failure) × (w' : World) × ((exec (consume_stmt (sha256 token) purpose)
                  >>= or_bad_link)
                w
              ≡ (err e, w'))
            × (w'.db ≡ w.db)
      refused none db st q = (
        bad_link,
        record (advance w) { db = db },
        >>=-ok (exec (consume_stmt (sha256 token) purpose)) or_bad_link w q,
        cc (st, nothing_there, advance-db w),
      )
      refused (some u) db st q = absurd (cc (st, nothing_there))

  -- A token that was redeemed is spent: every later attempt to redeem it for that purpose, with the
  -- token table as the first attempt left it, fails and leaves every table as it was.
  pub consume_once :
      (token purpose user : Text) (w w₁ w₂ : World)
      → consume sha256 token purpose w ≡ (ok user, w₁)
      → w₂.db.tokens ≡ w₁.db.tokens
      → w₁.now ≤ w₂.now
      → (e : Failure) × (w₃ : World) × (consume sha256 token purpose w₂ ≡ (err e, w₃))
        × (w₃.db ≡ w₂.db)
  consume_once token purpose user w w₁ w₂ h same later =
      let ((t, _, _, q), at_now) = consume-Burned token purpose w h in
      consume_refuses token purpose w₂ (
        subst (λ ts. find (is_usable (advance w₂).now (sha256 token) purpose) ts ≡ none)
          (sym (same ∙ ap (λ d. d.tokens) q))
          (find-none (is_usable (advance w₂).now (sha256 token) purpose) _ (
            spent (advance w).now (advance w₂).now (sha256 token) purpose w.db.tokens
              (omega (arith, advance-now w₂, at_now)))))
