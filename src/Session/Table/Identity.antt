-- ===== src/Session/Table/Identity.antt =====
-- The primary key and the unique index of auth_sessions: no two rows share an id or a token hash.
use kal.Base.{
  ℕ, Bool, true, false, not, ◌&&◌, some, List, [], ◌∷◌, ◌≡◌, ◌≢◌, refl, inl, inr, arith, ◌∙◌, Text,
  text_eq, text_eq_iff, find, any, update, All, Bool-cases, any-false, update-All, update_none,
  All-mono, All-zip, Distinct, find-any, find-holds, and_parts, sym, subst,
}
use kal.Base.Int.{ℤ}
use kal.Store.{Db, Session}
use kal.Session.Statements.{
  is_live, has_id, has_hash, hash_taken, stale, touch, renew, revoke_row, unrevoked, unrevoked_of,
  live_with_id, live_of_user,
}
use kal.Session.Table.{
  Step, issued, looked_up, rotated, stamped, revoked, revoked_all, elsewhere, History, here, next,
}
use kal.Session.Table.Effects.{
  issue_effect, lookup_effect, rotate_effect, record_mfa_effect, revoke_effect, revoke_all_effect,
}

abbrev pub id_of : Session → Text
id_of s = s.id

abbrev pub hash_of : Session → Text
hash_of s = s.token_sha256

pub record IsKeyed (rows : List Session) : Type 0 where
  pub ids : Distinct id_of rows
  pub hashes : Distinct hash_of rows

-- A change that leaves the key alone.
Distinct-update :
    (key : Session → Text) (p : Session → Bool) (f : Session → Session) (rows : List Session)
    → ((s : Session) → key (f s) ≡ key s)
    → Distinct key rows
    → Distinct key (update p f rows)
unfolding update
Distinct-update key p f [] same h = tt
Distinct-update key p f (x ∷ xs) same h = elim (Bool-cases (p x)) [
  | inl hit ↦
      rw hit (subst Apart (sym (same x)) (others x h.0), Distinct-update key p f xs same h.1)
  | inr miss ↦ rw miss (others x h.0, Distinct-update key p f xs same h.1)
]
  where
    Apart : Text → Type 0
    Apart k = All (λ y. k ≢ key y) (update p f xs)

    others : (s : Session) → All (λ y. key s ≢ key y) xs → All (λ y. key s ≢ key y) (update p f xs)
    others s = update-All (λ y. key s ≢ key y) p f xs (λ y ne _ e. ne (e ∙ same y))

update-IsKeyed :
    (p : Session → Bool) (f : Session → Session) (rows : List Session)
    → ((s : Session) → id_of (f s) ≡ id_of s)
    → ((s : Session) → hash_of (f s) ≡ hash_of s)
    → IsKeyed rows
    → IsKeyed (update p f rows)
update-IsKeyed p f rows same_id same_hash k = record {
  ids = Distinct-update id_of p f rows same_id k.ids;
  hashes = Distinct-update hash_of p f rows same_hash k.hashes;
}

-- No row of the list has the text as its key.
pub not_key : (t u : Text) → text_eq t u ≡ false → u ≢ t
not_key t u h e = cc (h, (text_eq_iff t u).1 (sym e))

pub apart_any :
    (id : Text) (rows : List Session) → All (λ y. id ≢ y.id) rows → any (has_id id) rows ≡ false
unfolding any
apart_any id [] h = refl
apart_any id (x ∷ xs) h = elim (Bool-cases (has_id id x)) [
  | inl e ↦ absurd (h.0 (sym ((text_eq_iff x.id id).0 e)))
  | inr e ↦ rw e (apart_any id xs h.1)
]

-- Where the live row of an id is found, every row under the id is live: there is only one.
module _ (now : ℕ) (id : Text) where
  abbrev pub Only : Session → Type 0
  Only y = has_id id y ≡ true → is_live now y ≡ true

  pub find-Only :
      (rows : List Session) {s : Session}
      → Distinct id_of rows
      → find (live_with_id now id) rows ≡ some s
      → All Only rows
  unfolding find
  find-Only [] d h = tt
  find-Only (x ∷ xs) {s} d h = elim (Bool-cases (live_with_id now id x)) [
    | inl hit ↦ (
      λ _. (and_parts _ _ hit).1,
      All-mono (λ y. x.id ≢ y.id) Only xs
          (λ y ne e.
            absurd (
              ne ((text_eq_iff x.id id).0 (and_parts _ _ hit).0 ∙ sym ((text_eq_iff y.id id).0 e))))
          d.0,
    )
    | inr miss ↦
        let later : find (live_with_id now id) xs ≡ some s = rw miss at h in
        let there =
          find-any (live_with_id now id) (has_id id) xs {a = s} later
            (and_parts _ _ (find-holds (live_with_id now id) xs later)).0 in
        (
          λ e. absurd (
              cc (
                there,
                apart_any id xs
                    (subst (λ t. All (λ y. t ≢ y.id) xs) ((text_eq_iff x.id id).0 e) d.0),
              )),
          find-Only xs d.1 later,
        )
  ]

  abbrev pub Fresh : Text → Session → Type 0
  Fresh hash y = (has_hash hash y && not (has_id id y)) ≡ false

  pub Fresh-other :
      (hash : Text) (y : Session) → Fresh hash y → has_id id y ≡ false → hash ≢ y.token_sha256
  Fresh-other hash y f e = not_key y.token_sha256 hash (ground arith)

  -- A rotation gives one row a hash that no other row has.
  renew-Distinct :
      (hash : Text) (idle : ℤ) (rows : List Session)
      → Distinct id_of rows
      → Distinct hash_of rows
      → All (Fresh hash) rows
      → All Only rows
      → Distinct hash_of (update (live_with_id now id) (renew hash now idle) rows)
  unfolding update
  renew-Distinct hash idle [] d h f o = tt
  renew-Distinct hash idle (x ∷ xs) d h f o = elim (Bool-cases (has_id id x)) [
    | inl mine ↦
        rw (mine, o.0 mine)
          (rw (update_none (live_with_id now id) (renew hash now idle) xs (none_else mine)) (
            All-zip (λ y. x.id ≢ y.id) (Fresh hash) (λ y. hash ≢ y.token_sha256) xs
                (λ y ne fr. Fresh-other hash y fr (other mine y ne)) d.0 f.1,
            h.1,
          ))
    | inr miss ↦ rw miss (
      update-All (λ y. x.token_sha256 ≢ y.token_sha256) (live_with_id now id) (renew hash now idle)
          xs (λ y ne _ e. Fresh-other hash x f.0 miss (sym e)) h.0,
      renew-Distinct hash idle xs d.1 h.1 f.1 o.1,
    )
  ]
    where
      other : has_id id x ≡ true → (y : Session) → x.id ≢ y.id → has_id id y ≡ false
      other mine y ne = elim (Bool-cases (has_id id y)) [
        | inl e ↦ absurd (ne ((text_eq_iff x.id id).0 mine ∙ sym ((text_eq_iff y.id id).0 e)))
        | inr e ↦ e
      ]

      none_else : has_id id x ≡ true → All (λ y. live_with_id now id y ≡ false) xs
      none_else mine =
          All-mono (λ y. x.id ≢ y.id) (λ y. live_with_id now id y ≡ false) xs
            (λ y ne. rw (other mine y ne)) d.0

pub taken-Fresh :
    (hash id : Text) (rows : List Session)
    → hash_taken hash id rows ≡ false
    → All (λ y. (has_hash hash y && not (has_id id y)) ≡ false) rows
unfolding hash_taken
taken-Fresh hash id rows free = any-false (λ y. has_hash hash y && not (has_id id y)) rows free

-- Every statement keeps the primary key and the unique index: issuing and rotating are refused where
-- they would break them, and nothing else writes either column.
pub Step-IsKeyed :
    (now : ℕ) (db db' : Db) → Step now db db' → IsKeyed db.sessions → IsKeyed db'.sessions
Step-IsKeyed now db db' (issued i hash user idle absolute ua ip e) k =
    let (new_id, new_hash, _, _, q) = issue_effect i hash user idle absolute ua ip now db e in
    rw q (record {
      ids = (
        All-mono (λ y. has_id i y ≡ false) (λ y. i ≢ y.id) db.sessions (λ y. not_key y.id i)
            (any-false (has_id i) db.sessions new_id),
        k.ids,
      );
      hashes = (
        All-mono (λ y. has_hash hash y ≡ false) (λ y. hash ≢ y.token_sha256) db.sessions
            (λ y. not_key y.token_sha256 hash) (any-false (has_hash hash) db.sessions new_hash),
        k.hashes,
      );
    })
Step-IsKeyed now db db' (looked_up hash idle p e) k = elim (lookup_effect hash idle now db e) [
  | inl (_, _, q) ↦ rw q k
  | inr (s, _, _, q) ↦
      rw q (update-IsKeyed (stale now s) (touch now idle) db.sessions (λ _. refl) (λ _. refl) k)
]
Step-IsKeyed now db db' (rotated hash idle i user e) k = elim (rotate_effect hash idle i now db e) [
  | inl (_, _, q) ↦ rw q k
  | inr (s, f, _, free, q) ↦ rw q (record {
    ids =
        Distinct-update id_of (live_with_id now i) (renew hash now idle) db.sessions (λ _. refl)
          k.ids;
    hashes =
        renew-Distinct now i hash idle db.sessions k.ids k.hashes
          (taken-Fresh hash i db.sessions free) (find-Only now i db.sessions k.ids f);
  })
]
Step-IsKeyed now db db' (stamped i user r e) k = elim (record_mfa_effect i user now db e) [
  | inl (_, _, q) ↦ rw q k
  | inr (s, _, _, q) ↦ rw q (
      update-IsKeyed (live_of_user now i user) (λ x. record x { mfa_at = some now }) db.sessions
        (λ _. refl) (λ _. refl) k)
]
Step-IsKeyed now db db' (revoked i n e) k =
    rw (revoke_effect i now db e)
      (update-IsKeyed (unrevoked i) (revoke_row now) db.sessions (λ _. refl) (λ _. refl) k)
Step-IsKeyed now db db' (revoked_all user n e) k =
    rw (revoke_all_effect user now db e)
      (update-IsKeyed (unrevoked_of user) (revoke_row now) db.sessions (λ _. refl) (λ _. refl) k)
Step-IsKeyed now db db' (elsewhere e) k = subst IsKeyed (sym e) k

History-IsKeyed :
    (start : ℕ) (db : Db) (now : ℕ) (db' : Db)
    → History start db now db'
    → IsKeyed db.sessions
    → IsKeyed db'.sessions
History-IsKeyed start db now db' here k = k
History-IsKeyed start db now db' (next {db' = db₁} h le s) k =
    Step-IsKeyed now db₁ db' s (History-IsKeyed start db _ db₁ h k)
