-- ===== src/Session/Table/Permanence.antt =====
-- What no later statement can undo: a revocation, and the absolute deadline of a session.
use kal.Base.{
  ℕ, ◌≤◌, Bool, true, false, some, List, ◌∷◌, ◌≡◌, refl, inl, inr, arith, ◌∙◌, Text, text_eq_iff,
  any, update, All, update-All, any-update, and_parts, sym, subst,
}
use kal.Base.Int.{ℤ}
use kal.Store.{Db, Session}
use kal.Session.Statements.{
  is_null, has_id, touch, renew, revoke_row, unrevoked, unrevoked_of, live_with_id, live_of_user,
}
use kal.Session.Statements.{new_session, stale}
use kal.Session.Table.Effects.{
  issue_effect, lookup_effect, rotate_effect, record_mfa_effect, revoke_effect, revoke_all_effect,
}
use kal.Session.Table.{
  Step, issued, looked_up, rotated, stamped, revoked, revoked_all, elsewhere, History, here, next,
}

-- A property of one row that no statement changes, whatever else it writes to the row.
pub record Stable (Q : Session → Type 0) : Type 0 where
  pub touching : (now : ℕ) (idle : ℤ) (s : Session) → Q s → Q (touch now idle s)
  pub renewing : (hash : Text) (now : ℕ) (idle : ℤ) (s : Session) → Q s → Q (renew hash now idle s)
  pub stamping : (now : ℕ) (s : Session) → Q s → Q (record s { mfa_at = some now })
  pub revoking : (now : ℕ) (s : Session) → Q s → is_null s.revoked_at ≡ true → Q (revoke_row now s)

-- Every row under the id has the property, and there is such a row.
pub record Keeps (Q : Session → Type 0) (id : Text) (rows : List Session) : Type 0 where
  pub there : any (has_id id) rows ≡ true
  pub each : All (λ s. has_id id s ≡ true → Q s) rows

module _ (Q : Session → Type 0) (id : Text) where
  abbrev pub Row : Session → Type 0
  Row s = has_id id s ≡ true → Q s

  -- An update that leaves the ids alone and keeps the property where it writes.
  update-Keeps :
      (p : Session → Bool) (f : Session → Session) (rows : List Session)
      → ((s : Session) → has_id id (f s) ≡ has_id id s)
      → ((s : Session) → Q s → p s ≡ true → Q (f s))
      → Keeps Q id rows
      → Keeps Q id (update p f rows)
  update-Keeps p f rows same keep k = record {
    there = any-update (has_id id) p f rows same ∙ k.there;
    each = update-All Row p f rows (λ s h hit e. keep s (h (sym (same s) ∙ e)) hit) k.each;
  }

  new-Keeps :
      (row : Session) (rows : List Session)
      → any (has_id row.id) rows ≡ false
      → Keeps Q id rows
      → Keeps Q id (row ∷ rows)
  unfolding any
  new-Keeps row rows fresh k = record {
    there = ground (arith, k.there);
    each = (
      λ e. absurd (
          cc (
            k.there,
            subst (λ i. any (has_id i) rows ≡ false) ((text_eq_iff row.id id).0 e) fresh,
          )),
      k.each,
    );
  }

  pub Step-Keeps :
      (now : ℕ) (db db' : Db)
      → Stable Q
      → Step now db db'
      → Keeps Q id db.sessions
      → Keeps Q id db'.sessions
  Step-Keeps now db db' st (issued i hash user idle absolute ua ip e) k =
      let (fresh, _, _, _, q) = issue_effect i hash user idle absolute ua ip now db e in
      rw q (new-Keeps (new_session i hash user idle absolute ua ip now) db.sessions fresh k)
  Step-Keeps now db db' st (looked_up hash idle p e) k = elim (lookup_effect hash idle now db e) [
    | inl (_, _, q) ↦ rw q k
    | inr (s, _, _, q) ↦ rw q (
        update-Keeps (stale now s) (touch now idle) db.sessions (λ _. refl)
          (λ x h _. st.touching now idle x h) k)
  ]
  Step-Keeps now db db' st (rotated hash idle i user e) k =
      elim (rotate_effect hash idle i now db e) [
        | inl (_, _, q) ↦ rw q k
        | inr (s, _, _, _, q) ↦ rw q (
            update-Keeps (live_with_id now i) (renew hash now idle) db.sessions (λ _. refl)
              (λ x h _. st.renewing hash now idle x h) k)
      ]
  Step-Keeps now db db' st (stamped i user r e) k = elim (record_mfa_effect i user now db e) [
    | inl (_, _, q) ↦ rw q k
    | inr (s, _, _, q) ↦ rw q (
        update-Keeps (live_of_user now i user) (λ x. record x { mfa_at = some now }) db.sessions
          (λ _. refl) (λ x h _. st.stamping now x h) k)
  ]
  Step-Keeps now db db' st (revoked i n e) k = rw (revoke_effect i now db e) (
      update-Keeps (unrevoked i) (revoke_row now) db.sessions (λ _. refl)
        (λ x h hit. st.revoking now x h (and_parts _ _ hit).1) k)
  Step-Keeps now db db' st (revoked_all user n e) k = rw (revoke_all_effect user now db e) (
      update-Keeps (unrevoked_of user) (revoke_row now) db.sessions (λ _. refl)
        (λ x h hit. st.revoking now x h (and_parts _ _ hit).1) k)
  Step-Keeps now db db' st (elsewhere e) k = subst (Keeps Q id) (sym e) k

  pub History-Keeps :
      (start : ℕ) (db : Db) (now : ℕ) (db' : Db)
      → Stable Q
      → History start db now db'
      → Keeps Q id db.sessions
      → Keeps Q id db'.sessions
  History-Keeps start db now db' st here k = k
  History-Keeps start db now db' st (next {db' = db₁} h le s) k =
      Step-Keeps now db₁ db' st s (History-Keeps start db _ db₁ st h k)

-- Every row under the id is revoked, and there is one.
abbrev pub IsRevoked : Text → List Session → Type 0
IsRevoked = Keeps (λ s. is_null s.revoked_at ≡ false)

-- Every row under the id ends at the deadline at the latest, and there is one.
abbrev pub EndsBy : ℕ → Text → List Session → Type 0
EndsBy deadline = Keeps (λ s. s.expires_at ≤ deadline)

pub revoked-Stable : Stable (λ s. is_null s.revoked_at ≡ false)
revoked-Stable = record {
  touching = λ _ _ _ h. h;
  renewing = λ _ _ _ _ h. h;
  stamping = λ _ _ h. h;
  revoking = λ _ _ _ _. refl;
}

pub deadline-Stable : (deadline : ℕ) → Stable (λ s. s.expires_at ≤ deadline)
deadline-Stable deadline = record {
  touching = λ _ _ _ h. h;
  renewing = λ _ _ _ _ h. h;
  stamping = λ _ _ h. h;
  revoking = λ _ _ h _. h;
}
