-- ===== src/Session/Lifetime.antt =====
-- A session that was revoked, or whose absolute lifetime is over, resolves for nobody again.
use kal.Base.{
  ℕ, ◌≤◌, ◌<◌, Bool, true, false, Option, none, some, List, [], ◌∷◌, ◌≡◌, ◌≢◌, refl, inl, inr,
  arith, ◌∙◌, Text, text_eq_iff, ltb, find, any, update, All, Bool-cases, Option-cases, any-update,
  find-All, find-holds, and_parts, sym, subst, ap,
}
use kal.Base.Int.{ℤ}
use kal.Kalerr.{ok}
use kal.Authz.Principal.{Principal}
use kal.Store.{Db, Session}
use kal.Authz.Audit.{Event}
use kal.World.{audit, pure, World, advance, exec}
use kal.World.Outcome.{advance-db, exec-eq-ok, >>=-eq-ok}
use kal.Session.Statements.{
  is_live, is_null, has_id, lookup_stmt, revoke_stmt, unrevoked, revoke_row, live_with_hash,
  is_user,
}
use kal.Session.Sessions.{audit_if, revocation, Sessions, lookup, revoke, sorted_roles}
use kal.Session.Table.{History}
use kal.Session.Table.Effects.{lookup_effect, revoke_effect, found_principal}
use kal.Session.Table.Permanence.{
  Keeps, History-Keeps, IsRevoked, EndsBy, revoked-Stable, deadline-Stable,
}

-- The row behind a principal that a lookup has found.
abbrev pub Resolved : ℕ → List Session → Principal → Type 0
Resolved now rows p =
    (s : Session) × (hash : Text) × (find (live_with_hash now hash) rows ≡ some s)
    × (p.session_id ≡ s.id)

found-session_id :
    (db : Db) (s : Session) {p : Principal} → found_principal db s ≡ some p → p.session_id ≡ s.id
found-session_id db s h = elim (Option-cases (find (is_user s.user_id) db.users)) [
  | inl e ↦ absurd (ground arith)
  | inr (u, e) ↦ ground arith
]

lookup_stmt-Resolved :
    (hash : Text) (idle : ℤ) (now : ℕ) (db : Db) {p : Principal} {db' : Db}
    → lookup_stmt hash idle now db ≡ ok (some p, db')
    → Resolved now db.sessions p
lookup_stmt-Resolved hash idle now db h = elim (lookup_effect hash idle now db h) [
  | inl (_, e, _) ↦ absurd (cc e)
  | inr (s, f, e, _) ↦ (s, hash, f, found-session_id db s (sym e))
]

sorted_roles-session_id :
    (o : Option Principal) {p : Principal}
    → sorted_roles o ≡ some p
    → (q : Principal) × (o ≡ some q) × (p.session_id ≡ q.session_id)
sorted_roles-session_id none h = cc
sorted_roles-session_id (some q) h = (q, refl, ground arith)

-- A lookup that names a caller has found a live row at the instant that the clock had reached.
pub lookup-Resolved :
    (sha256 : Text → Text) (s : Sessions) (token : Text) (w : World) {p : Principal} {w' : World}
    → lookup sha256 s token w ≡ (ok (some p), w')
    → Resolved (advance w).now w.db.sessions p
unfolding lookup
lookup-Resolved sha256 s token w {p} {w'} h =
    let (o, w₁, e, k) =
      >>=-eq-ok (exec (lookup_stmt (sha256 token) s.idle)) (λ x. pure (sorted_roles x)) w h in
    let (q, eo, id) = sorted_roles-session_id o {p = p} (cc k) in
    let (db', st, _) =
      exec-eq-ok (lookup_stmt (sha256 token) s.idle) w
        (subst (λ x. exec (lookup_stmt (sha256 token) s.idle) w ≡ (ok x, w₁)) eo e) in
    let (r, hash, f, same) = lookup_stmt-Resolved (sha256 token) s.idle _ _ st in
    (
      r,
      hash,
      subst (λ d. find (live_with_hash (advance w).now hash) d.sessions ≡ some r) (advance-db w) f,
      id ∙ same,
    )

is_live-unrevoked : (now : ℕ) (s : Session) → is_live now s ≡ true → is_null s.revoked_at ≡ true
unfolding is_live
is_live-unrevoked now s h = ground arith

is_live-before : (now : ℕ) (s : Session) → is_live now s ≡ true → now < s.expires_at
unfolding is_live
is_live-before now s h = ground arith

-- A row that a lookup resolves to is live.
Resolved-live :
    (Q : Session → Type 0) (now : ℕ) (id : Text) (rows : List Session) (p : Principal)
    → Keeps Q id rows
    → Resolved now rows p
    → p.session_id ≡ id
    → (s : Session) × Q s × (is_live now s ≡ true)
Resolved-live Q now id rows p k (s, hash, f, same) e = (
  s,
  find-All (λ x. has_id id x ≡ true → Q x) (live_with_hash now hash) rows k.each f
      ((text_eq_iff s.id id).1 (sym same ∙ e)),
  (and_parts _ _ (find-holds (live_with_hash now hash) rows f)).1,
)

revoke_row-IsRevoked :
    (id : Text) (now : ℕ) (rows : List Session)
    → any (has_id id) rows ≡ true
    → IsRevoked id (update (unrevoked id) (revoke_row now) rows)
unfolding update
revoke_row-IsRevoked id now rows there = record {
  there = any-update (has_id id) (unrevoked id) (revoke_row now) rows (λ _. refl) ∙ there;
  each = each rows;
}
  where
    each :
        (xs : List Session)
        → All
            (λ s. has_id id s ≡ true → is_null s.revoked_at ≡ false)
            (update (unrevoked id) (revoke_row now) xs)
    each [] = tt
    each (x ∷ xs) = elim (Bool-cases (unrevoked id x)) [
      | inl hit ↦ rw hit (λ _. refl, each xs)
      | inr miss ↦ rw miss (λ e. ground arith, each xs)
    ]

audit_if-db :
    (changed hook : Bool) (e : Event) (w : World) → (audit_if changed hook e w).1.db ≡ w.db
unfolding audit
audit_if-db changed hook e w = ground arith

-- The revocation as the method makes it.
pub revoke-IsRevoked :
    (s : Sessions) (id : Text) (w : World) {w' : World}
    → any (has_id id) w.db.sessions ≡ true
    → revoke s id w ≡ (ok tt, w')
    → IsRevoked id w'.db.sessions
unfolding revoke
revoke-IsRevoked s id w {w'} there h =
    let (n, w₁, e, k) =
      >>=-eq-ok (exec (revoke_stmt id)) (λ m. audit_if (ltb 0 m) s.audit (revocation [] id)) w h in
    let (db', st, q) = exec-eq-ok (revoke_stmt id) w e in
    let same : w'.db ≡ db' =
      sym (ap (λ r. r.1.db) k)
      ∙ audit_if-db (ltb 0 n) s.audit (revocation [] id) w₁
      ∙ ap (λ v. v.db) q in
    subst (λ d. IsRevoked id d.sessions)
      (sym (same ∙ revoke_effect id (advance w).now (advance w).db st))
      (subst (λ d. IsRevoked id (update (unrevoked id) (revoke_row (advance w).now) d.sessions))
        (sym (advance-db w)) (revoke_row-IsRevoked id (advance w).now w.db.sessions there))

-- Once `Revoke` has returned for a session that exists, no later lookup of any token names that
-- session, whatever statements other requests have made on the tables in between.
pub revoke_for_good :
    (sha256 : Text → Text) (s : Sessions) (id token : Text) (w w₁ w₂ w₃ : World) (p : Principal)
    → any (has_id id) w.db.sessions ≡ true
    → revoke s id w ≡ (ok tt, w₁)
    → History w₁.now w₁.db w₂.now w₂.db
    → lookup sha256 s token w₂ ≡ (ok (some p), w₃)
    → p.session_id ≢ id
revoke_for_good sha256 s id token w w₁ w₂ w₃ p there r h l e =
    let kept =
      History-Keeps _ id w₁.now w₁.db w₂.now w₂.db revoked-Stable h
        (revoke-IsRevoked s id w there r) in
    let (row, gone, live) =
      Resolved-live _ (advance w₂).now id w₂.db.sessions p kept
        (lookup-Resolved sha256 s token w₂ l) e in
    absurd (dead row gone live)
  where
    dead :
        (row : Session) → is_null row.revoked_at ≡ false → is_live (advance w₂).now row ≡ true → ⊥
    dead row gone live = cc (gone, is_live-unrevoked (advance w₂).now row live)

-- The absolute lifetime is fixed when the session is issued: whatever statements run afterwards, at
-- and after the row's `expires_at` no lookup of any token names the session.
pub absolute_deadline :
    (sha256 : Text → Text) (s : Sessions) (id token : Text) (start deadline : ℕ) (db : Db)
    (w w' : World) (p : Principal)
    → EndsBy deadline id db.sessions
    → History start db w.now w.db
    → lookup sha256 s token w ≡ (ok (some p), w')
    → p.session_id ≡ id
    → (advance w).now < deadline
absolute_deadline sha256 s id token start deadline db w w' p ends h l e =
    let kept = History-Keeps _ id start db w.now w.db (deadline-Stable deadline) h ends in
    let (row, le, live) =
      Resolved-live _ (advance w).now id w.db.sessions p kept (lookup-Resolved sha256 s token w l)
        e in
    in_time row le live
  where
    in_time :
        (row : Session)
        → row.expires_at ≤ deadline
        → is_live (advance w).now row ≡ true
        → (advance w).now < deadline
    in_time row le live = omega (arith, is_live-before (advance w).now row live)
