-- ===== src/E2ee/Swap.antt =====
-- `Vaults.Put` is a compare-and-swap on the version of the caller's row.
use kal.Base.{
  ℕ, ◌+◌, true, false, and_parts, find-update, find-update_other, Option, none, some, List, ◌≡◌,
  ◌≢◌, refl, sym, ap, subst, ◌∙◌, arith, Text, text_eq_iff, ==_iff, find, update, inl, inr, ◌⊎◌,
  Bool-cases, Option-cases, find-holds,
}
use kal.Base.Int.{ℤ, pos, negsuc, pos_part}
use kal.Kalerr.{Result, ok, err, Failure}
use kal.Authz.Principal.{Principal, Context, require}
use kal.Store.{Db, User, VaultRow}
use kal.World.{World, Action, advance, exec, Stmt}
use kal.World.Outcome.{advance-db, exec-outcome, >>=-ok, >>=-err}
use kal.Session.Statements.{is_user}
use kal.E2ee.Params.{Params, Vault, Vaults, with_defaults, check, salt}
use kal.E2ee.Statements.{of_user, put_stmt, upsert, rewrap, is_version}
use kal.E2ee.Writes.{put_stmt-eq-ok}
use kal.E2ee.Vaults.{vault_moved, put, put_for, or_conflict, normal}

is_version-pos : (e : ℤ) (v : ℕ) → is_version e v ≡ true → e ≡ pos v
is_version-pos (pos n) v h = ap pos ((==_iff n v).0 h)
is_version-pos (negsuc n) v h = cc

other-row :
    (user other : Text) (x : VaultRow)
    → other ≢ user
    → of_user user x ≡ true
    → of_user other x ≡ false
other-row user other x ne hit = elim (Bool-cases (of_user other x)) [
  | inl e ↦
      absurd (ne (sym ((text_eq_iff x.user_id other).0 e) ∙ (text_eq_iff x.user_id user).0 hit))
  | inr e ↦ e
]

-- What a `Put` that succeeds has done to the table, when the caller already had a row.
pub record Swapped (before after : List VaultRow) (user : Text) (vault : Vault) (row : VaultRow)
    : Type 0 where
  pub expected : vault.key_version ≡ pos row.key_version
  pub now_row : VaultRow
  pub there : find (of_user user) after ≡ some now_row
  pub version : now_row.key_version ≡ row.key_version + 1
  pub salt_kept : now_row.salt ≡ row.salt
  pub key : now_row.wrapped_key ≡ vault.wrapped_key
  pub recovery : now_row.recovery_wrapped_key ≡ vault.recovery_wrapped_key
  pub others :
      (other : Text) → other ≢ user → find (of_user other) after ≡ find (of_user other) before

pub user-id :
    (user : Text) (users : List User) {u : User} → find (is_user user) users ≡ some u → u.id ≡ user
user-id user users {u} h =
    (text_eq_iff u.id user).0 (and_parts _ _ (find-holds (is_user user) users h)).0

upsert-Swapped :
    (sha256 : Text → Text) (now : ℕ) (u : User) (p : Params) (mint : Text) (vault : Vault) (db : Db)
    {n : ℕ} {db' : Db} {row : VaultRow}
    → find (of_user u.id) db.vaults ≡ some row
    → upsert sha256 now u p mint vault.wrapped_key vault.recovery_wrapped_key vault.key_version db
      ≡ (some n, db')
    → Swapped db.vaults db'.vaults u.id vault row
unfolding upsert
upsert-Swapped sha256 now u p mint vault db {n} {db'} {row} f h =
    elim (Bool-cases (is_version vault.key_version row.key_version)) [
      | inr old ↦ absurd (cc (rw (f, upsert, old) at h))
      | inl same ↦
          let k = rw (f, upsert, same) at h in
          let q : update (of_user u.id) change db.vaults ≡ db'.vaults = ap (λ r. r.1.vaults) k in
          rw (← q) (record {
            expected = is_version-pos vault.key_version row.key_version same;
            now_row = change row;
            there = find-update (of_user u.id) change db.vaults (λ x. refl) f;
            version = refl;
            salt_kept = refl;
            key = refl;
            recovery = refl;
            others = (λ other ne.
                find-update_other (of_user u.id) (of_user other) change db.vaults
                  (λ x hit. (other-row u.id other x ne hit, other-row u.id other x ne hit)));
          })
    ]
  where
    change : VaultRow → VaultRow
    change = rewrap sha256 now u p vault.wrapped_key vault.recovery_wrapped_key

put_stmt-Swapped :
    (sha256 : Text → Text) (user : Text) (p : Params) (mint : Text) (vault : Vault) (now : ℕ)
    (db : Db) {n : ℕ} {db' : Db} {row : VaultRow}
    → find (of_user user) db.vaults ≡ some row
    → put_stmt sha256 user p mint vault.wrapped_key vault.recovery_wrapped_key vault.key_version now
        db
      ≡ ok (some n, db')
    → Swapped db.vaults db'.vaults user vault row
put_stmt-Swapped sha256 user p mint vault now db {n} {db'} {row} f h =
    elim (put_stmt-eq-ok sha256 user p mint vault.wrapped_key vault.recovery_wrapped_key
      vault.key_version now db h) [
        | inl (_, nothing) ↦ absurd (cc nothing)
        | inr (u, found, k) ↦
            let same : u.id ≡ user = user-id user db.users found in
            subst (λ x. Swapped db.vaults db'.vaults x vault row) same
              (upsert-Swapped sha256 now u p mint vault db
                (subst (λ x. find (of_user x) db.vaults ≡ some row) (sym same) f) k)
      ]

upsert-none :
    (sha256 : Text → Text) (now : ℕ) (u : User) (p : Params) (mint key recovery : Text) (e : ℤ)
    (db : Db) {db' : Db}
    → upsert sha256 now u p mint key recovery e db ≡ (none, db')
    → db ≡ db'
unfolding upsert
upsert-none sha256 now u p mint key recovery e db h =
    elim (Option-cases (find (of_user u.id) db.vaults)) [
      | inl new ↦ absurd (cc (rw (new, upsert) at h))
      | inr (v, old) ↦ elim (Bool-cases (is_version e v.key_version)) [
        | inl same ↦ absurd (cc (rw (old, upsert, same) at h))
        | inr moved ↦ cc (rw (old, upsert, moved) at h)
      ]
    ]

put_stmt-none :
    (sha256 : Text → Text) (user : Text) (p : Params) (mint key recovery : Text) (e : ℤ) (now : ℕ)
    (db : Db) {db' : Db}
    → put_stmt sha256 user p mint key recovery e now db ≡ ok (none, db')
    → db ≡ db'
put_stmt-none sha256 user p mint key recovery e now db {db'} h =
    elim (put_stmt-eq-ok sha256 user p mint key recovery e now db h) [
      | inl (_, nothing) ↦ cc nothing
      | inr (u, _, k) ↦ upsert-none sha256 now u p mint key recovery e db k
    ]

-- The statement of a `Put`.
abbrev pub put_of :
    (Text → Text → Text) → (Text → Text) → Vaults → Vault → Principal → Stmt (Option ℕ)
put_of hmac sha256 v vault p =
    put_stmt sha256 p.user_id (with_defaults vault.params v.def) (salt hmac v (normal p.email))
      vault.wrapped_key vault.recovery_wrapped_key vault.key_version

-- A `Put` by a known caller either fails and leaves the tables alone, or has run its statement.
abbrev pub Outcome : Result (Unit {0}) × World → Stmt (Option ℕ) → World → Type 0
Outcome r s w =
    ((e : Failure) × (w' : World) × (r ≡ (err e, w')) × (w'.db ≡ w.db))
    ⊎ ((n : ℕ) × (db' : Db) × (s (advance w).now w.db ≡ ok (some n, db'))
        × (r ≡ (ok tt, record (advance w) { db = db' })))

module _ (hmac : Text → Text → Text) (sha256 : Text → Text) (v : Vaults) where
  put_for-Outcome :
      (vault : Vault) (p : Principal) (w : World)
      → Outcome (put_for hmac sha256 v vault p w) (put_of hmac sha256 v vault p) w
  put_for-Outcome vault p w = elim (exec-outcome (put_of hmac sha256 v vault p) w) [
    | inl (e, q) ↦ inl (e, advance w, >>=-err stmt (or_conflict hmac) w q, advance-db w)
    | inr (none, db', st, q) ↦ inl (
      vault_moved,
      record (advance w) { db = db' },
      >>=-ok stmt (or_conflict hmac) w q,
      sym (
            put_stmt-none sha256 p.user_id (with_defaults vault.params v.def)
              (salt hmac v (normal p.email)) vault.wrapped_key vault.recovery_wrapped_key
              vault.key_version (advance w).now (advance w).db st)
          ∙ advance-db w,
    )
    | inr (some n, db', st, q) ↦ inr (
      n,
      db',
      subst (λ d. put_of hmac sha256 v vault p (advance w).now d ≡ ok (some n, db')) (advance-db w)
          st,
      >>=-ok stmt (or_conflict hmac) w q,
    )
  ]
    where
      stmt : Action (Option ℕ)
      stmt = exec (put_of hmac sha256 v vault p)

  pub put-Outcome :
      (ctx : Context) (vault : Vault) (w : World) {p : Principal}
      → require ctx ≡ ok p
      → Outcome (put hmac sha256 v ctx vault w) (put_of hmac sha256 v vault p) w
  unfolding put
  put-Outcome ctx vault w {p} known = by_check (check v vault) refl
    where
      by_check :
          (c : Result (Unit {0}))
          → check v vault ≡ c
          → Outcome (put hmac sha256 v ctx vault w) (put_of hmac sha256 v vault p) w
      by_check (err e) bad = inl (e, w, rw (known, bad) refl, refl)
      by_check (ok tt) good = rw (known, good) (put_for-Outcome vault p w)

  -- `Vaults.Put` by a caller who already has a row is a compare-and-swap: when it succeeds, the
  -- version it was given is the row's, the row carries the new keys, the next version and the salt
  -- it had before, and the row of no other user has changed.
  pub put_swaps :
      (ctx : Context) (vault : Vault) (w w' : World) {p : Principal} {row : VaultRow}
      → require ctx ≡ ok p
      → find (of_user p.user_id) w.db.vaults ≡ some row
      → put hmac sha256 v ctx vault w ≡ (ok tt, w')
      → Swapped w.db.vaults w'.db.vaults p.user_id vault row
  put_swaps ctx vault w w' {p} {row} known f h = elim (put-Outcome ctx vault w known) [
    | inl (e, w₁, q, _) ↦ absurd (cc)
    | inr (n, db', st, q) ↦
        let same : db' ≡ w'.db = ap (λ r. r.1.db) (sym q ∙ h) in
        subst (λ d. Swapped w.db.vaults d.vaults p.user_id vault row) same
          (put_stmt-Swapped sha256 p.user_id (with_defaults vault.params v.def)
            (salt hmac v (normal p.email)) vault (advance w).now w.db f st)
  ]

  -- Two writes that start from the same version of one user's row: once the first has succeeded the
  -- second fails and leaves every table as the first left it.
  pub put_once :
      (ctx : Context) (first second : Vault) (w w₁ : World) {p : Principal} {row : VaultRow}
      → require ctx ≡ ok p
      → find (of_user p.user_id) w.db.vaults ≡ some row
      → first.key_version ≡ second.key_version
      → put hmac sha256 v ctx first w ≡ (ok tt, w₁)
      → (e : Failure) × (w₂ : World) × (put hmac sha256 v ctx second w₁ ≡ (err e, w₂))
        × (w₂.db ≡ w₁.db)
  put_once ctx first second w w₁ {p} {row} known f same h = elim (put-Outcome ctx second w₁ known) [
    | inl lost ↦ lost
    | inr (n, db', st, q) ↦
        let won = put_swaps ctx first w w₁ known f h in
        let again =
          put_stmt-Swapped sha256 p.user_id (with_defaults second.params v.def)
            (salt hmac v (normal p.email)) second (advance w₁).now w₁.db won.there st in
        absurd
          (no_two row.key_version (sym won.expected ∙ same ∙ again.expected ∙ ap pos won.version))
  ]
    where
      no_two : (n : ℕ) → pos n ≢ pos (n + 1)
      no_two n e = omega (arith, ap pos_part e)
