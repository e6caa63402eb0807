-- ===== src/E2ee/Decoy.antt =====
-- `Vaults.Params` answers an address before and after its first enrolment.
use kal.Base.{
  ◌≡◌, inl, inr, refl, sym, ap, subst, ◌∙◌, Bool, true, false, ◌&&◌, Option, none, some, List, ◌∷◌,
  ℕ, Text, text_eq, text_eq_iff, text_eq_refl, to_lower, find, All, All-zip, and_parts, find-holds,
  find-All, find-none, find-none-any, any-false, Bool-cases, Option-cases,
}
use kal.Base.Int.{ℤ}
use kal.Kalerr.{ok}
use kal.Authz.Principal.{Principal, Context, require}
use kal.Store.{Db, User, VaultRow}
use kal.World.{World, advance, exec, driver_fails, pure}
use kal.World.Outcome.{advance-db, exec-runs, >>=-ok}
use kal.Session.Statements.{is_null}
use kal.E2ee.Params.{Params, Vault, Vaults, with_defaults, salt}
use kal.E2ee.Writes.{put_stmt-eq-ok}
use kal.E2ee.Statements.{
  of_user, has_email, owned_by_email, stored_params, params_stmt, put_stmt, upsert, first_row,
}
use kal.E2ee.Vaults.{normal, decoy, or_decoy, params, put}
use kal.E2ee.Swap.{user-id, put-Outcome}

abbrev Known : Principal → User → Type 0
Known p x =
    (text_eq x.id p.user_id ≡ true → to_lower x.email ≡ normal p.email)
    × (has_email (normal p.email) x ≡ true → text_eq x.id p.user_id ≡ true)

-- The caller's row alone has the caller's id or, among the live ones, the caller's address.
abbrev pub Alone : Principal → List User → Type 0
Alone p = All (Known p)

abbrev owns_row : Text → VaultRow → User → Bool
owns_row email row u = text_eq u.id row.user_id && has_email email u

-- The user that gives a row its address.
owner :
    (email : Text) (users : List User) (row : VaultRow)
    → owned_by_email email users row ≡ true
    → (x : User) × (find (owns_row email row) users ≡ some x)
      × (x.id ≡ row.user_id)
      × (has_email email x ≡ true)
owner email users row h = elim (Option-cases (find (owns_row email row) users)) [
  | inl nobody ↦ absurd (cc (h, find-none-any (owns_row email row) users nobody))
  | inr (x, found) ↦
      let (id, address) =
        and_parts (text_eq x.id row.user_id) (has_email email x)
          (find-holds (owns_row email row) users found) in
      (x, found, (text_eq_iff x.id row.user_id).0 id, address)
]

-- No row has the caller's address before the caller has one.
free :
    (p : Principal) (email : Text) (users : List User) (vaults : List VaultRow)
    → email ≡ normal p.email
    → find (of_user p.user_id) vaults ≡ none
    → Alone p users
    → find (owned_by_email email users) vaults ≡ none
free p email users vaults own absent alone = find-none (owned_by_email email users) vaults (
    All-zip Other Other (λ row. owned_by_email email users row ≡ false) vaults no_owner others
      others)
  where
    Other : VaultRow → Type 0
    Other row = of_user p.user_id row ≡ false

    others : All Other vaults
    others = any-false (of_user p.user_id) vaults (find-none-any (of_user p.user_id) vaults absent)

    no_owner : (row : VaultRow) → Other row → Other row → owned_by_email email users row ≡ false
    no_owner row not_mine _ = elim (Bool-cases (owned_by_email email users row)) [
      | inr other ↦ other
      | inl hit ↦
          let (x, found, id, address) = owner email users row hit in
          let here = find-All (Known p) (owns_row email row) users alone found in
          let mine = here.1 (subst (λ e. has_email e x ≡ true) own address) in
          absurd (cc (not_mine, subst (λ i. text_eq i p.user_id ≡ true) id mine))
    ]

-- The row that a first write adds.
put_stmt-first :
    (sha256 : Text → Text) (user : Text) (p : Params) (mint key recovery : Text) (e : ℤ) (now : ℕ)
    (db : Db) {n : ℕ} {db' : Db}
    → find (of_user user) db.vaults ≡ none
    → put_stmt sha256 user p mint key recovery e now db ≡ ok (some n, db')
    → (u : User) × (u.id ≡ user)
      × (db'.users ≡ db.users)
      × (db'.vaults ≡ first_row sha256 now u p mint key recovery ∷ db.vaults)
unfolding upsert
put_stmt-first sha256 user p mint key recovery e now db {n} {db'} absent h =
    elim (put_stmt-eq-ok sha256 user p mint key recovery e now db h) [
      | inl (_, nothing) ↦ absurd (cc nothing)
      | inr (u, found, k) ↦
          let same : u.id ≡ user = user-id user db.users found in
          let none_yet : find (of_user u.id) db.vaults ≡ none =
            subst (λ x. find (of_user x) db.vaults ≡ none) (sym same) absent in
          let written = rw (none_yet, upsert) at k in
          (u, same, sym (ap (λ r. r.1.users) written), sym (ap (λ r. r.1.vaults) written))
    ]

module _ (hmac : Text → Text → Text) (v : Vaults) where
  -- What an address is answered from the row that is found for it.
  abbrev answer : Text → Option VaultRow → Params
  answer email none = decoy hmac v email
  answer email (some row) = stored_params row

  params-answer :
      (raw : Text) (w : World)
      → driver_fails w ≡ false
      → (params hmac v raw w).0
        ≡ ok (answer (normal raw) (find (owned_by_email (normal raw) w.db.users) w.db.vaults))
  unfolding params params_stmt
  params-answer raw w sound =
      by_row (find (owned_by_email (normal raw) w.db.users) w.db.vaults) refl
    where
      read : Option VaultRow → Option Params
      read none = none
      read (some row) = some (stored_params row)

      shown :
          (o : Option VaultRow)
          → ok (or_decoy hmac v (normal raw) (read o)) ≡ ok (answer (normal raw) o)
      shown none = refl
      shown (some row) = refl

      stored :
          (o : Option VaultRow) (db : Db)
          → find (owned_by_email (normal raw) db.users) db.vaults ≡ o
          → params_stmt (normal raw) (advance w).now db ≡ ok (read o, db)
      stored none db e = rw (e, params_stmt) refl
      stored (some row) db e = rw (e, params_stmt) refl

      by_row :
          (o : Option VaultRow)
          → find (owned_by_email (normal raw) w.db.users) w.db.vaults ≡ o
          → (params hmac v raw w).0 ≡ ok (answer (normal raw) o)
      by_row o e =
          ap (λ r. r.0)
            (>>=-ok (exec (params_stmt (normal raw))) (λ x. pure (or_decoy hmac v (normal raw) x)) w
              (exec-runs (params_stmt (normal raw)) w sound (
                subst (λ d. params_stmt (normal raw) (advance w).now d ≡ ok (read o, d))
                  (sym (advance-db w)) (stored o w.db e))))
          ∙ shown o

  -- The row that a first write stores does not change an answer.
  answer-first :
      (p : Principal) (email : Text) (row : VaultRow) (users : List User) (vaults : List VaultRow)
      → row.user_id ≡ p.user_id
      → stored_params row ≡ decoy hmac v (normal p.email)
      → find (of_user p.user_id) vaults ≡ none
      → Alone p users
      → answer email (find (owned_by_email email users) (row ∷ vaults))
        ≡ answer email (find (owned_by_email email users) vaults)
  unfolding find
  answer-first p email row users vaults mine same absent alone =
      elim (Bool-cases (owned_by_email email users row)) [
        | inr other ↦ rw other refl
        | inl hit ↦
            let (x, found, id, address) = owner email users row hit in
            let here = find-All (Known p) (owns_row email row) users alone found in
            let own : email ≡ normal p.email =
              sym (
                (text_eq_iff (to_lower x.email) email).0
                  (and_parts _ (is_null x.deleted_at) address).0)
              ∙ here.0 (rw (id, mine) (text_eq_refl p.user_id)) in
            let before : find (owned_by_email email users) vaults ≡ none =
              free p email users vaults own absent alone in
            rw (hit, before) (same ∙ ap (decoy hmac v) (sym own))
      ]

  -- A first enrolment with the default key derivation cannot be seen in what `Vaults.Params`
  -- answers: once a `Put` has succeeded for a caller who had no row, every address, the caller's own
  -- included, is answered the same parameters and the same salt as before. It is assumed that the
  -- caller's row alone has the caller's id or, among the live ones, the caller's address, and that
  -- the driver answers both times.
  pub enrolment_hidden :
      (sha256 : Text → Text) (ctx : Context) (vault : Vault) (w w' before after : World)
      (raw : Text) {p : Principal}
      → require ctx ≡ ok p
      → find (of_user p.user_id) w.db.vaults ≡ none
      → Alone p w.db.users
      → (with_defaults vault.params v.def).kdf ≡ v.def.kdf
      → (with_defaults vault.params v.def).memory ≡ v.def.memory
      → (with_defaults vault.params v.def).iterations ≡ v.def.iterations
      → v.def.parallelism ≡ 1
      → put hmac sha256 v ctx vault w ≡ (ok tt, w')
      → before.db ≡ w.db
      → after.db ≡ w'.db
      → driver_fails before ≡ false
      → driver_fails after ≡ false
      → (params hmac v raw after).0 ≡ (params hmac v raw before).0
  unfolding decoy
  enrolment_hidden sha256 ctx vault w w' before after raw {p} known absent alone kdf memory
        iterations one h start end sound₁ sound₂ =
      elim (put-Outcome hmac sha256 v ctx vault w known) [
        | inl (e, w₁, q, _) ↦ absurd (cc)
        | inr (n, db', st, q) ↦
            let (u, mine, users, vaults) =
              put_stmt-first sha256 p.user_id (with_defaults vault.params v.def)
                (salt hmac v (normal p.email)) vault.wrapped_key vault.recovery_wrapped_key
                vault.key_version (advance w).now w.db absent st in
            let same : db' ≡ w'.db = ap (λ r. r.1.db) (sym q ∙ h) in
            params-answer raw after sound₂
            ∙ ap (λ d. ok (answer email (find (owned_by_email email d.users) d.vaults)))
                (end ∙ sym same)
            ∙ ap (λ us. ok (answer email (find (owned_by_email email us) db'.vaults))) users
            ∙ ap (λ vs. ok (answer email (find (owned_by_email email w.db.users) vs))) vaults
            ∙ ap (λ a. ok a)
                (answer-first p email
                  (first_row sha256 (advance w).now u (with_defaults vault.params v.def)
                    (salt hmac v (normal p.email)) vault.wrapped_key vault.recovery_wrapped_key)
                  w.db.users w.db.vaults mine (rw (kdf, memory, iterations, one) refl) absent alone)
            ∙ ap (λ d. ok (answer email (find (owned_by_email email d.users) d.vaults))) (sym start)
            ∙ sym (params-answer raw before sound₁)
      ]
    where
      email : Text
      email = normal raw
