-- ===== src/Session/Rotation.antt =====
-- `Sessions.Rotate`: the credential is swapped under the session, and nothing else about it moves.
use kal.Base.{
  find-none-any, find-update_other, ℕ, true, false, Option, none, some, List, [], ◌∷◌, ◌≡◌, ◌≢◌,
  refl, inl, inr, arith, ◌∙◌, Text, text_eq_iff, text_eq_refl, find, update, All, Bool-cases,
  Distinct, find-All, find-none, find-any, All-mono, update_none, and_parts, sym, ap,
  some-injective,
}
use kal.Base.Int.{ℤ, shift}
use kal.Kalerr.{ok}
use kal.Store.{Db, Session}
use kal.World.{World, advance, exec, new_token}
use kal.World.Outcome.{new_token-eq-ok, advance-random, exec-eq-ok, >>=-eq-ok}
use kal.Session.Statements.{has_id, has_hash, rotate_stmt, renew, live_with_id}
use kal.Session.Sessions.{Sessions, rotate, swap_in, or_no_longer_valid}
use kal.Session.Table.Effects.{rotate_effect}
use kal.Session.Table.Identity.{IsKeyed, id_of, hash_of, find-Only, Only, Fresh, taken-Fresh}

module _ (now : ℕ) (idle : ℤ) (id hash : Text) where
  -- No row is left under the old hash.
  old_gone :
      (rows : List Session) {s : Session}
      → Distinct id_of rows
      → Distinct hash_of rows
      → find (live_with_id now id) rows ≡ some s
      → s.token_sha256 ≢ hash
      → All
          (λ y. has_hash s.token_sha256 y ≡ false)
          (update (live_with_id now id) (renew hash now idle) rows)
  unfolding find update
  old_gone [] d h f ne = tt
  old_gone (x ∷ xs) {s} d h f ne = elim (Bool-cases (live_with_id now id x)) [
    | inl hit ↦
        let same : x ≡ s = some-injective x s (rw hit at f) in
        rw (hit, update_none (live_with_id now id) (renew hash now idle) xs (others hit))
          (
            differs (renew hash now idle x) (λ e. ne (sym e)),
            All-mono (λ y. x.token_sha256 ≢ y.token_sha256) (λ y. has_hash s.token_sha256 y ≡ false)
                xs (λ y n. differs y (λ e. n (ap hash_of same ∙ sym e))) h.0,
          )
    | inr miss ↦
        let later : find (live_with_id now id) xs ≡ some s = rw miss at f in
        rw miss (
          differs x
              (find-All (λ y. x.token_sha256 ≢ y.token_sha256) (live_with_id now id) xs h.0 later),
          old_gone xs d.1 h.1 later ne,
        )
  ]
    where
      differs : (y : Session) → y.token_sha256 ≢ s.token_sha256 → has_hash s.token_sha256 y ≡ false
      differs y n = elim (Bool-cases (has_hash s.token_sha256 y)) [
        | inl e ↦ absurd (n ((text_eq_iff y.token_sha256 s.token_sha256).0 e))
        | inr e ↦ e
      ]

      others : live_with_id now id x ≡ true → All (λ y. live_with_id now id y ≡ false) xs
      others hit =
          All-mono (λ y. x.id ≢ y.id) (λ y. live_with_id now id y ≡ false) xs
            (λ y n. elim (Bool-cases (has_id id y)) [
              | inl e ↦ absurd (
                  n (
                    (text_eq_iff x.id id).0 (and_parts _ _ hit).0
                    ∙ sym ((text_eq_iff y.id id).0 e)))
              | inr e ↦ rw e
            ])
            d.0

  -- The session is the one row under the new hash.
  new_found :
      (rows : List Session) {s : Session}
      → All (Fresh now id hash) rows
      → All (Only now id) rows
      → find (live_with_id now id) rows ≡ some s
      → find (has_hash hash) (update (live_with_id now id) (renew hash now idle) rows)
        ≡ some (renew hash now idle s)
  unfolding find update
  new_found [] fr on f = cc
  new_found (x ∷ xs) {s} fr on f = elim (Bool-cases (live_with_id now id x)) [
    | inl hit ↦
        let same : x ≡ s = some-injective x s (rw hit at f) in rw (hit, text_eq_refl hash, same)
    | inr miss ↦
        let later : find (live_with_id now id) xs ≡ some s = rw miss at f in
        rw (miss, unused miss) (new_found xs fr.1 on.1 later)
  ]
    where
      unused : live_with_id now id x ≡ false → has_hash hash x ≡ false
      unused miss = elim (Bool-cases (has_id id x)) [
        | inl mine ↦ absurd (cc (rw (mine, on.0 mine) at miss))
        | inr other ↦ ground arith
      ]

-- The same session under another hash, seen at an instant from which its idle window runs.
abbrev pub Renewed : Text → ℤ → ℕ → Session → Session → Type 0
Renewed hash idle now row after =
    (after.token_sha256 ≡ hash)
    × (after.last_seen_at ≡ now)
    × (after.idle_expires_at ≡ shift now idle)
    × (after.id ≡ row.id)
    × (after.user_id ≡ row.user_id)
    × (after.created_at ≡ row.created_at)
    × (after.expires_at ≡ row.expires_at)
    × (after.mfa_at ≡ row.mfa_at)
    × (after.user_agent ≡ row.user_agent)
    × (after.ip ≡ row.ip)
    × (after.revoked_at ≡ row.revoked_at)

-- The table after a rotation, for a hash that was not in use.
abbrev pub Replaced : Text → ℤ → ℕ → Text → List Session → List Session → Type 0
Replaced hash idle now id before after =
    (row : Session) × (new : Session) × (find (live_with_id now id) before ≡ some row)
    × (find (has_hash hash) after ≡ some new)
    × Renewed hash idle now row new
    × (find (has_hash row.token_sha256) after ≡ none)
    × ((other : Text) → other ≢ id → find (has_id other) after ≡ find (has_id other) before)

-- The update changes no row of another id.
others_kept :
    (now : ℕ) (idle : ℤ) (id hash other : Text) (rows : List Session)
    → other ≢ id
    → find (has_id other) (update (live_with_id now id) (renew hash now idle) rows)
      ≡ find (has_id other) rows
others_kept now idle id hash other rows ne =
    find-update_other (live_with_id now id) (has_id other) (renew hash now idle) rows
      (λ x hit. (differs x hit, differs x hit))
  where
    differs : (x : Session) → live_with_id now id x ≡ true → has_id other x ≡ false
    differs x hit = elim (Bool-cases (has_id other x)) [
      | inr e ↦ e
      | inl e ↦
          absurd (
            ne (sym ((text_eq_iff x.id other).0 e) ∙ (text_eq_iff x.id id).0 (and_parts _ _ hit).0))
    ]

rotate_stmt-Replaced :
    (hash : Text) (idle : ℤ) (id : Text) (now : ℕ) (db : Db) {user : Text} {db' : Db}
    → IsKeyed db.sessions
    → find (has_hash hash) db.sessions ≡ none
    → rotate_stmt hash idle id now db ≡ ok (some user, db')
    → Replaced hash idle now id db.sessions db'.sessions
rotate_stmt-Replaced hash idle id now db k unused h = elim (rotate_effect hash idle id now db h) [
  | inl (_, e, _) ↦ absurd (cc e)
  | inr (s, f, _, free, q) ↦ rw q (
    s,
    renew hash now idle s,
    f,
    new_found now idle id hash db.sessions (taken-Fresh hash id db.sessions free)
        (find-Only now id db.sessions k.ids f) f,
    (refl, refl, refl, refl, refl, refl, refl, refl, refl, refl, refl),
    find-none (has_hash s.token_sha256) _
        (old_gone now idle id hash db.sessions k.ids k.hashes f (other s f)),
    (λ x ne. others_kept now idle id hash x db.sessions ne),
  )
]
  where
    other : (s : Session) → find (live_with_id now id) db.sessions ≡ some s → s.token_sha256 ≢ hash
    other s f e = cc (
      find-none-any (has_hash hash) db.sessions unused,
      find-any (live_with_id now id) (has_hash hash) db.sessions {a = s} f
          ((text_eq_iff s.token_sha256 hash).1 e),
    )

or_no_longer_valid-eq-ok :
    {A : Type 0} (a : A) (o : Option Text) (w : World) {b : A} {w' : World}
    → or_no_longer_valid a o w ≡ (ok b, w')
    → (id : Text) × (o ≡ some id) × (a ≡ b) × (w ≡ w')
or_no_longer_valid-eq-ok a none w h = cc
or_no_longer_valid-eq-ok a (some id) w h = (id, refl, cc, cc)

rotate-eq-ok :
    (sha256 : Text → Text) (s : Sessions) (id : Text) (w : World) {token : Text} {w' : World}
    → rotate sha256 s id w ≡ (ok token, w')
    → (user : Text) × (rotate_stmt (sha256 token) s.idle id (advance w).now w.db
        ≡ ok (some user, w'.db))
unfolding rotate
rotate-eq-ok sha256 s id w {token} {w'} h =
    let (t, w₁, e, k₁) = >>=-eq-ok new_token (swap_in sha256 s id) w h in
    let (user, w₂, e₂, k₂) =
      >>=-eq-ok (exec (rotate_stmt (sha256 t) s.idle id)) (or_no_longer_valid t) w₁ k₁ in
    let (u, eu, et, ew) = or_no_longer_valid-eq-ok t user w₂ k₂ in
    let (rest, _, q₁) = new_token-eq-ok w e in
    let (db', st, q₂) = exec-eq-ok (rotate_stmt (sha256 t) s.idle id) w₁ e₂ in
    let at_now : (advance w₁).now ≡ (advance w).now =
      ap (λ v. (advance v).now) q₁ ∙ (advance-random w rest).0 in
    let at_db : (advance w₁).db ≡ w.db = ap (λ v. (advance v).db) q₁ ∙ (advance-random w rest).1 in
    let final : db' ≡ w'.db = sym (ap (λ v. v.db) q₂) ∙ ap (λ v. v.db) ew in
    (u, cc (st, eu, et, at_now, at_db, final))

-- On a table whose ids and hashes are distinct, a rotation that succeeds has found the session
-- live. The credential that the session had resolves to nobody afterwards, and the new one, which
-- no session had, to that session: its hash is the new one, it was last seen now and its idle
-- window starts anew, while its id, its owner, its age, its absolute deadline, the second factor,
-- the client and the revocation mark stay. No session of another id has changed.
pub rotate_replaces :
    (sha256 : Text → Text) (s : Sessions) (id token : Text) (w w' : World)
    → IsKeyed w.db.sessions
    → find (has_hash (sha256 token)) w.db.sessions ≡ none
    → rotate sha256 s id w ≡ (ok token, w')
    → Replaced (sha256 token) s.idle (advance w).now id w.db.sessions w'.db.sessions
rotate_replaces sha256 s id token w w' k unused h =
    rotate_stmt-Replaced (sha256 token) s.idle id (advance w).now w.db k unused
      (rotate-eq-ok sha256 s id w h).1
