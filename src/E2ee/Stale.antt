-- ===== src/E2ee/Stale.antt =====
-- `Vaults.Get` after `Vaults.Put`: the keys come back, and the vault is stale exactly when the password
-- hash has moved since.
use kal.Base.{
  some-injective, ℕ, Bool, false, not, Option, some, ◌∷◌, ◌≡◌, ◌↔◌, refl, sym, ap, subst, ◌∙◌, Text,
  text_eq, text_eq_iff, text_eq_refl, find, update, find-update, find-holds, inl, inr, Bool-cases,
  Option-cases, if◌then◌else◌,
}
use kal.Base.Int.{ℤ}
use kal.Kalerr.{ok}
use kal.Authz.Principal.{Principal, Context, require}
use kal.Store.{Db, User, VaultRow}
use kal.World.{World, pure, lift, advance, exec, ◌>>=◌}
use kal.World.Outcome.{advance-db, exec-eq-ok, >>=-eq-ok, pure-eq-ok}
use kal.Session.Statements.{is_user}
use kal.E2ee.Params.{Params, Vault, Vaults, with_defaults, salt}
use kal.E2ee.Writes.{put_stmt-eq-ok}
use kal.E2ee.Statements.{
  of_user, put_stmt, upsert, first_row, rewrap, is_version, fingerprint, is_distinct, vault_stmt,
}
use kal.E2ee.Vaults.{put, get, normal, found_vault, vault_of}
use kal.E2ee.Swap.{put-Outcome, user-id}

-- A row that holds the keys, under the fingerprint of the user's password hash.
abbrev pub Holds : (Text → Text) → User → Text → Text → VaultRow → Type 0
Holds sha256 u key recovery row =
    (row.wrapped_key ≡ key)
    × (row.recovery_wrapped_key ≡ recovery)
    × (row.wrapped_for ≡ some (fingerprint sha256 u))

upsert-Holds :
    (sha256 : Text → Text) (now : ℕ) (u : User) (p : Params) (mint key recovery : Text) (e : ℤ)
    (db : Db) {n : ℕ} {db' : Db}
    → upsert sha256 now u p mint key recovery e db ≡ (some n, db')
    → (row : VaultRow) × (find (of_user u.id) db'.vaults ≡ some row)
      × Holds sha256 u key recovery row
unfolding upsert
upsert-Holds sha256 now u p mint key recovery e db {n} {db'} h =
    elim (Option-cases (find (of_user u.id) db.vaults)) [
      | inl new ↦
          let row = first_row sha256 now u p mint key recovery in
          let q : row ∷ db.vaults ≡ db'.vaults = ap (λ r. r.1.vaults) (rw (new, upsert) at h) in
          (row, subst (λ vs. find (of_user u.id) vs ≡ some row) q at_head, (refl, refl, refl))
      | inr (v, old) ↦ elim (Bool-cases (is_version e v.key_version)) [
        | inr moved ↦ absurd (cc (rw (old, upsert, moved) at h))
        | inl same ↦
            let change = rewrap sha256 now u p key recovery in
            let q : update (of_user u.id) change db.vaults ≡ db'.vaults =
              ap (λ r. r.1.vaults) (rw (old, upsert, same) at h) in
            (
              change v,
              subst (λ vs. find (of_user u.id) vs ≡ some (change v)) q
                  (find-update (of_user u.id) change db.vaults (λ x. refl) old),
              (refl, refl, refl),
            )
      ]
    ]
  where
    at_head :
        find (of_user u.id) (first_row sha256 now u p mint key recovery ∷ db.vaults)
        ≡ some (first_row sha256 now u p mint key recovery)
    at_head =
        ap
          (λ b.
            if b
            then some (first_row sha256 now u p mint key recovery)
            else find (of_user u.id) db.vaults)
          (text_eq_refl u.id)

put_stmt-Holds :
    (sha256 : Text → Text) (user : Text) (p : Params) (mint key recovery : Text) (e : ℤ) (now : ℕ)
    (db : Db) {n : ℕ} {db' : Db} {u : User}
    → find (is_user user) db.users ≡ some u
    → put_stmt sha256 user p mint key recovery e now db ≡ ok (some n, db')
    → (row : VaultRow) × (find (of_user user) db'.vaults ≡ some row)
      × Holds sha256 u key recovery row
put_stmt-Holds sha256 user p mint key recovery e now db {n} {db'} {u} found h =
    elim (put_stmt-eq-ok sha256 user p mint key recovery e now db h) [
      | inl (nobody, _) ↦ absurd (cc (nobody, found))
      | inr (v, seen, k) ↦
          let same : v ≡ u = some-injective v u (cc (seen, found)) in
          let (row, there, holds) =
            upsert-Holds sha256 now u p mint key recovery e db
              (subst (λ x. upsert sha256 now x p mint key recovery e db ≡ (some n, db')) same k) in
          (
            row,
            subst (λ x. find (of_user x) db'.vaults ≡ some row) (user-id user db.users found) there,
            holds,
          )
    ]

abbrev has_user : Text → User → Bool
has_user id u = text_eq u.id id

vault_read :
    (sha256 : Text → Text) (user : Text) (now : ℕ) (db : Db) {r : Option (VaultRow × Bool)}
    {db' : Db} {row : VaultRow} {u : User}
    → find (of_user user) db.vaults ≡ some row
    → find (has_user user) db.users ≡ some u
    → vault_stmt sha256 user now db ≡ ok (r, db')
    → r ≡ some (row, is_distinct sha256 row.wrapped_for (fingerprint sha256 u))
unfolding vault_stmt
vault_read sha256 user now db {r} {db'} {row} {u} there known h =
    let owner : row.user_id ≡ user =
      (text_eq_iff row.user_id user).0 (find-holds (of_user user) db.vaults there) in
    let same : find (has_user row.user_id) db.users ≡ some u =
      subst (λ x. find (has_user x) db.users ≡ some u) (sym owner) known in
    cc (rw (there, same, vault_stmt) at h)

distinct_iff : (s t : Text) → (not (text_eq s t) ≡ false) ↔ (t ≡ s)
distinct_iff s t = (same, differs)
  where
    same : not (text_eq s t) ≡ false → t ≡ s
    same h = elim (Bool-cases (text_eq s t)) [
      | inl e ↦ sym ((text_eq_iff s t).0 e)
      | inr e ↦ absurd (cc (rw e at h))
    ]

    differs : t ≡ s → not (text_eq s t) ≡ false
    differs e = ap not ((text_eq_iff s t).1 (sym e))

get-eq-ok :
    (sha256 : Text → Text) (ctx : Context) (w : World) {p : Principal} {o : Option Vault}
    {w' : World}
    → require ctx ≡ ok p
    → get sha256 ctx w ≡ (ok o, w')
    → (r : Option (VaultRow × Bool)) × (db : Db) × (vault_stmt sha256 p.user_id (advance w).now w.db
        ≡ ok (r, db))
      × (o ≡ found_vault r)
unfolding get
get-eq-ok sha256 ctx w {p} {o} {w'} known h =
    let named : (exec (vault_stmt sha256 p.user_id) >>= (λ r. pure (found_vault r))) w
        ≡ (ok o, w') =
      subst
        (λ c.
          (lift c >>= (λ q. exec (vault_stmt sha256 q.user_id) >>= (λ r. pure (found_vault r)))) w
          ≡ (ok o, w'))
        known h in
    let (r, w₁, e, k) =
      >>=-eq-ok (exec (vault_stmt sha256 p.user_id)) (λ r. pure (found_vault r)) w named in
    let (db, st, _) = exec-eq-ok (vault_stmt sha256 p.user_id) w e in
    (
      r,
      db,
      subst (λ d. vault_stmt sha256 p.user_id (advance w).now d ≡ ok (r, db)) (advance-db w) st,
      sym (pure-eq-ok (found_vault r) w₁ k),
    )

module _ (hmac : Text → Text → Text) (sha256 : Text → Text) (v : Vaults) where
  -- A vault that was written is read back, by a caller whose account is still there and with the
  -- vaults as the write left them: both keys are the ones that were put, and the vault is reported
  -- stale exactly when the fingerprint of the account's password hash is another one than at the
  -- write.
  pub stale_tracks_password :
      (ctx : Context) (vault : Vault) (w w₁ w₂ w₃ : World) {p : Principal} {u₀ u : User}
      {o : Option Vault}
      → require ctx ≡ ok p
      → find (is_user p.user_id) w.db.users ≡ some u₀
      → put hmac sha256 v ctx vault w ≡ (ok tt, w₁)
      → w₂.db.vaults ≡ w₁.db.vaults
      → find (has_user p.user_id) w₂.db.users ≡ some u
      → get sha256 ctx w₂ ≡ (ok o, w₃)
      → (out : Vault) × (o ≡ some out)
        × (out.wrapped_key ≡ vault.wrapped_key)
        × (out.recovery_wrapped_key ≡ vault.recovery_wrapped_key)
        × ((out.stale ≡ false) ↔ (fingerprint sha256 u ≡ fingerprint sha256 u₀))
  stale_tracks_password ctx vault w w₁ w₂ w₃ {p} {u₀} {u} {o} known live h kept here g =
      elim (put-Outcome hmac sha256 v ctx vault w known) [
        | inl (e, w', q, _) ↦ absurd (cc (q, h))
        | inr (n, db, st, q) ↦
            let (row, there, (key, recovery, made)) =
              put_stmt-Holds sha256 p.user_id (with_defaults vault.params v.def)
                (salt hmac v (normal p.email)) vault.wrapped_key vault.recovery_wrapped_key
                vault.key_version (advance w).now w.db live st in
            let at_put : db.vaults ≡ w₂.db.vaults =
              ap (λ r. r.1.db.vaults) (sym q ∙ h) ∙ sym kept in
            let (r, db₂, st₂, shown) = get-eq-ok sha256 ctx w₂ known g in
            let read =
              vault_read sha256 p.user_id (advance w₂).now w₂.db
                (subst (λ vs. find (of_user p.user_id) vs ≡ some row) at_put there) here st₂ in
            (
              vault_of (row, is_distinct sha256 row.wrapped_for (fingerprint sha256 u)),
              shown ∙ ap found_vault read,
              key,
              recovery,
              subst
                  (λ x.
                    (is_distinct sha256 x (fingerprint sha256 u) ≡ false)
                    ↔ (fingerprint sha256 u ≡ fingerprint sha256 u₀))
                  (sym made) (distinct_iff (fingerprint sha256 u₀) (fingerprint sha256 u)),
            )
      ]
