-- ===== src/Session/Lookup.antt =====
-- The row behind the credential that was just issued, and behind one that a lookup resolves.
use kal.Base.{
  ℕ, false, Option, none, some, List, ◌∷◌, ◌≡◌, refl, sym, ap, subst, ◌∙◌, inl, inr, arith, Text,
  find, any, Option-cases, Bool-cases, and_parts, find-holds, find-any, some-injective,
}
use kal.Base.Int.{ℤ}
use kal.Kalerr.{ok}
use kal.Authz.Principal.{Principal, Meta}
use kal.Store.{Db, Session}
use kal.World.{World, pure, advance, exec, new_token, new_uuid}
use kal.World.Outcome.{advance-db, exec-eq-ok, >>=-eq-ok}
use kal.Session.Statements.{has_hash, live_with_hash, is_user, lookup_stmt, issue_stmt}
use kal.Session.Sessions.{Sessions, lookup, issue, sorted_roles, non_empty}
use kal.Session.Table.Effects.{lookup_effect, issue_effect, found_principal}

-- Whose row it is.
abbrev pub Owned : Session → Principal → Type 0
Owned s p = (p.user_id ≡ s.user_id) × (p.session_id ≡ s.id)

found-Owned : (db : Db) (s : Session) {p : Principal} → found_principal db s ≡ some p → Owned s p
found-Owned db s h = elim (Option-cases (find (is_user s.user_id) db.users)) [
  | inl e ↦ absurd (ground arith)
  | inr (u, e) ↦ (ground arith, ground arith)
]

sorted_roles-same :
    (o : Option Principal) {p : Principal}
    → sorted_roles o ≡ some p
    → (q : Principal) × (o ≡ some q) × (p.session_id ≡ q.session_id) × (p.user_id ≡ q.user_id)
sorted_roles-same none h = cc
sorted_roles-same (some q) h = (q, refl, ground arith, ground arith)

lookup_stmt-row :
    (hash : Text) (idle : ℤ) (now : ℕ) (db : Db) {p : Principal} {db' : Db}
    → lookup_stmt hash idle now db ≡ ok (some p, db')
    → (s : Session) × (find (live_with_hash now hash) db.sessions ≡ some s) × Owned s p
lookup_stmt-row hash idle now db h = elim (lookup_effect hash idle now db h) [
  | inl (_, e, _) ↦ absurd (cc e)
  | inr (s, f, e, _) ↦ (s, f, found-Owned db s (sym e))
]

module _ (sha256 : Text → Text) (s : Sessions) where
  -- A lookup that names a caller has found the live row of that credential.
  pub lookup-row :
      (token : Text) (w : World) {p : Principal} {w' : World}
      → lookup sha256 s token w ≡ (ok (some p), w')
      → (row : Session) × (find (live_with_hash (advance w).now (sha256 token)) w.db.sessions
          ≡ some row)
        × Owned row p
  unfolding lookup
  lookup-row token w {p} {w'} h =
      let (o, w₁, e, k) =
        >>=-eq-ok (exec (lookup_stmt (sha256 token) s.idle)) (λ x. pure (sorted_roles x)) w h in
      let (q, eo, id, user) = sorted_roles-same o {p = p} (cc k) in
      let (db', st, _) =
        exec-eq-ok (lookup_stmt (sha256 token) s.idle) w
          (subst (λ x. exec (lookup_stmt (sha256 token) s.idle) w ≡ (ok x, w₁)) eo e) in
      let (r, f, (mine, same)) = lookup_stmt-row (sha256 token) s.idle _ _ st in
      (
        r,
        subst (λ d. find (live_with_hash (advance w).now (sha256 token)) d.sessions ≡ some r)
            (advance-db w) f,
        (user ∙ mine, id ∙ same),
      )

  -- The new row stands alone under its hash.
  abbrev pub Issued : Text → Text → List Session → Type 0
  Issued token user rows =
      (row : Session) × (rest : List Session) × (rows ≡ row ∷ rest)
      × (row.user_id ≡ user)
      × (any (has_hash (sha256 token)) rest ≡ false)

  pub issue-Issued :
      (parse_ip : Text → Option Text) (user : Text) (meta : Meta) (w : World) {token : Text}
      {w' : World}
      → issue sha256 s parse_ip user meta w ≡ (ok token, w')
      → Issued token user w'.db.sessions
  unfolding issue
  issue-Issued parse_ip user meta w {token} {w'} h =
      let (t, w₁, e₁, k₁) = >>=-eq-ok new_token _ w h in
      let (id, w₂, e₂, k₂) = >>=-eq-ok new_uuid _ w₁ k₁ in
      let (r, w₃, e₃, k₃) =
        >>=-eq-ok
          (exec (
            issue_stmt id (sha256 t) user s.idle s.absolute (non_empty meta.user_agent)
              (parse_ip meta.ip)))
          (λ _. pure t) w₂ k₂ in
      let (db, st, q) =
        exec-eq-ok
          (issue_stmt id (sha256 t) user s.idle s.absolute (non_empty meta.user_agent)
            (parse_ip meta.ip))
          w₂ e₃ in
      let (_, free, _, _, written) =
        issue_effect id (sha256 t) user s.idle s.absolute (non_empty meta.user_agent)
          (parse_ip meta.ip) (advance w₂).now (advance w₂).db st in
      let at_end : w'.db.sessions ≡ db.sessions =
        sym (ap (λ r. r.1.db.sessions) k₃) ∙ ap (λ v. v.db.sessions) q in
      let same : t ≡ token = cc k₃ in
      subst (λ x. Issued x user w'.db.sessions) same
        (_, (advance w₂).db.sessions, at_end ∙ ap (λ d. d.sessions) written, refl, free)

  -- The row that the new credential resolves to is the new row.
  pub Issued-owner :
      (token user : Text) (now : ℕ) (rows : List Session) {r : Session}
      → Issued token user rows
      → find (live_with_hash now (sha256 token)) rows ≡ some r
      → r.user_id ≡ user
  unfolding find
  Issued-owner token user now rows {r} (row, rest, e, mine, free) f =
      elim (Bool-cases (live_with_hash now (sha256 token) row)) [
        | inl hit ↦
            let same : row ≡ r = some-injective row r (rw hit at (subst at_head e f)) in
            sym (ap (λ x. x.user_id) same) ∙ mine
        | inr miss ↦ absurd (none_left (rw miss at (subst at_head e f)))
      ]
    where
      at_head : List Session → Type 0
      at_head xs = find (live_with_hash now (sha256 token)) xs ≡ some r

      none_left : find (live_with_hash now (sha256 token)) rest ≡ some r → ⊥
      none_left later = cc (
        free,
        find-any (live_with_hash now (sha256 token)) (has_hash (sha256 token)) rest {a = r} later
            (and_parts _ _ (find-holds (live_with_hash now (sha256 token)) rest later)).0,
      )
