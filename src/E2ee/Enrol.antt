-- ===== src/E2ee/Enrol.antt =====
-- The first `Put` of a caller who has no row.
use kal.Base.{
  ℕ, ◌||◌, none, ◌≡◌, refl, sym, ap, subst, Text, ltb, find, Option-cases, inl, inr, if◌then◌else◌,
}
use kal.Base.Int.{ℤ}
use kal.Kalerr.{Result, ok, err, driver}
use kal.Authz.Principal.{Principal, Context, require}
use kal.Store.{Db, User}
use kal.World.{World, advance, next}
use kal.World.Outcome.{advance-db, exec-same}
use kal.Session.Statements.{is_user}
use kal.E2ee.Params.{Params, Vault, Vaults, with_defaults, check, salt}
use kal.E2ee.Statements.{of_user, put_stmt, upsert, max_int4}
use kal.E2ee.Vaults.{put, put_for, or_conflict, normal}
use kal.E2ee.Swap.{user-id, put_of}

upsert-unversioned :
    (sha256 : Text → Text) (now : ℕ) (u : User) (p : Params) (mint key recovery : Text) (e f : ℤ)
    (db : Db)
    → find (of_user u.id) db.vaults ≡ none
    → upsert sha256 now u p mint key recovery e db ≡ upsert sha256 now u p mint key recovery f db
unfolding upsert
upsert-unversioned sha256 now u p mint key recovery e f db h = rw (h, upsert) refl

put_stmt-unversioned :
    (sha256 : Text → Text) (user : Text) (p : Params) (mint key recovery : Text) (e f : ℤ) (now : ℕ)
    (db : Db)
    → find (of_user user) db.vaults ≡ none
    → put_stmt sha256 user p mint key recovery e now db
      ≡ put_stmt sha256 user p mint key recovery f now db
unfolding put_stmt
put_stmt-unversioned sha256 user p mint key recovery e f now db h =
    elim (Option-cases (find (is_user user) db.users)) [
      | inl nobody ↦ rw (nobody, put_stmt) refl
      | inr (u, found) ↦
          let same = upsert-unversioned sha256 now u p mint key recovery e f db (
            subst (λ x. find (of_user x) db.vaults ≡ none) (sym (user-id user db.users found)) h) in
          rw (found, put_stmt)
            (ap
              (λ r. if ltb max_int4 p.memory || ltb max_int4 p.iterations then err driver else ok r)
              same)
    ]

module _ (hmac : Text → Text → Text) (sha256 : Text → Text) (v : Vaults) where
  -- When the caller has no row, the version that a `Put` expects is not looked at: with any two
  -- versions it does the same, so a device that still holds the version of a vault that was
  -- discarded stores its keys again.
  pub put_unversioned :
      (ctx : Context) (vault : Vault) (e : ℤ) (w : World) {p : Principal}
      → require ctx ≡ ok p
      → find (of_user p.user_id) w.db.vaults ≡ none
      → put hmac sha256 v ctx vault w ≡ put hmac sha256 v ctx (record vault { key_version = e }) w
  unfolding put check
  put_unversioned ctx vault e w {p} known absent = by_check (check v vault) refl
    where
      other : Vault
      other = record vault { key_version = e }

      same_write : put_for hmac sha256 v vault p w ≡ put_for hmac sha256 v other p w
      same_write = ap (next (or_conflict hmac)) (
          exec-same (put_of hmac sha256 v vault p) (put_of hmac sha256 v other p) w (
            put_stmt-unversioned sha256 p.user_id (with_defaults vault.params v.def)
              (salt hmac v (normal p.email)) vault.wrapped_key vault.recovery_wrapped_key
              vault.key_version e (advance w).now (advance w).db
              (subst (λ d. find (of_user p.user_id) d.vaults ≡ none) (sym (advance-db w)) absent)))

      by_check :
          (c : Result (Unit {0}))
          → check v vault ≡ c
          → put hmac sha256 v ctx vault w ≡ put hmac sha256 v ctx other w
      by_check (err f) bad = rw (known, bad) refl
      by_check (ok tt) good = rw (known, good) same_write
